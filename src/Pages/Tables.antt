-- ===== src/Pages/Tables.antt =====
-- The page tables of kernel/memory.c as the processor reads them.
use winx.Base.{
  ℕ, ◌+◌, ◌*◌, ◌/◌, ◌%◌, ◌^◌, ◌<◌, ◌≡◌, refl, sym, ap, ◌∙◌, ◌↔◌, ◌⊎◌, inl, inr, true, false, ◌&&◌,
  Option, none, some, arith, ◌==◌, if◌then◌else◌, Bool-cases, ==→eq, ==-refl, ne→==, update, done,
}
use winx.Pages.{
  palloc, page_table_add, clear_page, present_entry, Pool, Pages, pde_ptr, pte_ptr, is_present,
}

-- the processor's walk: `none` is a page fault
unfoldable pub translate : Pages → ℕ → Option ℕ
translate m vaddr =
    if is_present (m.words (pde_ptr vaddr)) && is_present (m.words (pte_ptr vaddr))
    then some (m.words (pte_ptr vaddr) / 4096 * 4096 + vaddr % 4096)
    else none

-- The window of the tables starts here.
abbrev pub tables_start : ℕ
tables_start = 0xffc00000

pub pte_ptr-page : (v w : ℕ) → (pte_ptr v ≡ pte_ptr w) ↔ (v / 4096 ≡ w / 4096)
unfolding pte_ptr
pte_ptr-page v w = (λ e. omega arith, λ e. omega arith)

pub pte_ptr-pde_ptr : (v w : ℕ) → v < tables_start → pte_ptr v < pde_ptr w
unfolding pte_ptr pde_ptr
pte_ptr-pde_ptr v w low = omega arith

-- what a walk makes of the two entries
abbrev pub walk : ℕ → ℕ → ℕ → Option ℕ
walk pde pte vaddr =
    if is_present pde && is_present pte then some (pte / 4096 * 4096 + vaddr % 4096) else none

pub translate-walk :
    (m : Pages) (w pde pte : ℕ)
    → m.words (pde_ptr w) ≡ pde
    → m.words (pte_ptr w) ≡ pte
    → translate m w ≡ walk pde pte w
unfolding translate
translate-walk m w pde pte e e' = rw (e, e') refl

with_words : Pages → (ℕ → ℕ) → Pages
with_words m words = record m { words = words }

-- what mapping one page comes to
abbrev pub Mapped : Pages → ℕ → ℕ → Pages → Type 0
Mapped m vaddr page_phyaddr m' =
    (w : ℕ)
    → w < tables_start
    → translate m' w
      ≡ (if w / 4096 == vaddr / 4096 then some (page_phyaddr + w % 4096) else translate m w)

pub pde_ptr-page : (v w : ℕ) → v / 4096 ≡ w / 4096 → pde_ptr v ≡ pde_ptr w
unfolding pde_ptr
pde_ptr-page v w e = omega arith

-- The table of an address is one page of the window, and the directory is another.
clear_page-pte_ptr :
    (words : ℕ → ℕ) (v w : ℕ)
    → clear_page words (pte_ptr v / 4096 * 4096) (pte_ptr w)
      ≡ (if w / 2 ^ 22 == v / 2 ^ 22 then 0 else words (pte_ptr w))
unfolding pte_ptr
clear_page-pte_ptr words v w = ground arith

clear_page-pde_ptr :
    (words : ℕ → ℕ) (v w : ℕ)
    → v < tables_start
    → clear_page words (pte_ptr v / 4096 * 4096) (pde_ptr w) ≡ words (pde_ptr w)
unfolding pte_ptr pde_ptr
clear_page-pde_ptr words v w low = ground arith

pde_ptr-eq : (v w : ℕ) → (pde_ptr w == pde_ptr v) ≡ (w / 2 ^ 22 == v / 2 ^ 22)
unfolding pde_ptr
pde_ptr-eq v w = ground arith

pub pte_ptr-eq : (v w : ℕ) → (pte_ptr w == pte_ptr v) ≡ (w / 4096 == v / 4096)
unfolding pte_ptr
pte_ptr-eq v w = ground arith

walk-present :
    (pde p w : ℕ)
    → is_present pde ≡ true
    → p % 4096 ≡ 0
    → walk pde (present_entry p) w ≡ some (p + w % 4096)
walk-present pde p w there aligned =
    let entry : is_present (present_entry p) ≡ true = ground arith in
    let page : present_entry p / 4096 * 4096 ≡ p = omega arith in rw (there, entry, page) refl

walk-absent : (pde pte w : ℕ) → is_present pde ≡ false → walk pde pte w ≡ none
walk-absent pde pte w missing = rw missing refl

walk-zero : (pde w : ℕ) → walk pde 0 w ≡ none
walk-zero pde w = ground arith

module _ (m : Pages) (v p : ℕ) (low : v < tables_start) (aligned : p % 4096 ≡ 0) where
  not_pte : (w : ℕ) → (pde_ptr w == pte_ptr v) ≡ false
  not_pte w = ne→== (pde_ptr w) (pte_ptr v) (omega (arith, pte_ptr-pde_ptr v w low))

  -- an entry in a table that is there
  add_entry : Pages
  add_entry = record m { words = update m.words (pte_ptr v) (present_entry p) }

  add_entry-Mapped : is_present (m.words (pde_ptr v)) ≡ true → Mapped m v p add_entry
  unfolding add_entry
  add_entry-Mapped there w low' = elim (Bool-cases (w / 4096 == v / 4096)) [
    | inl same ↦
        let page : w / 4096 ≡ v / 4096 = ==→eq (w / 4096) (v / 4096) same in
        rw same (
          translate-walk add_entry w (m.words (pde_ptr v)) (present_entry p)
            (rw (not_pte w) (ap m.words (pde_ptr-page w v page))) (rw (pte_ptr-eq v w, same) refl)
          ∙ walk-present (m.words (pde_ptr v)) p w there aligned)
    | inr other ↦ rw other (
        translate-walk add_entry w (m.words (pde_ptr w)) (m.words (pte_ptr w)) (rw (not_pte w) refl)
          (rw (pte_ptr-eq v w, other) refl)
        ∙ sym (translate-walk m w (m.words (pde_ptr w)) (m.words (pte_ptr w)) refl refl))
  ]

  -- an entry in a new table, whose page is at `table`
  new_words : ℕ → ℕ → ℕ
  new_words table =
      clear_page (update m.words (pde_ptr v) (present_entry table)) (pte_ptr v / 4096 * 4096)

  add_table : ℕ → Pages
  add_table table = record m { words = update (new_words table) (pte_ptr v) (present_entry p) }

  add_table-pde :
      (table w : ℕ)
      → (add_table table).words (pde_ptr w)
        ≡ (if w / 2 ^ 22 == v / 2 ^ 22 then present_entry table else m.words (pde_ptr w))
  unfolding add_table new_words
  add_table-pde table w =
      rw
        (
          not_pte w,
          clear_page-pde_ptr (update m.words (pde_ptr v) (present_entry table)) v w low,
          pde_ptr-eq v w,
        )
        refl

  add_table-pte :
      (table w : ℕ)
      → w < tables_start
      → (add_table table).words (pte_ptr w) ≡ (
          if w / 4096 == v / 4096
          then present_entry p
          else if w / 2 ^ 22 == v / 2 ^ 22
          then 0
          else m.words (pte_ptr w))
  unfolding add_table new_words
  add_table-pte table w low' =
      let apart : (pte_ptr w == pde_ptr v) ≡ false =
        ne→== (pte_ptr w) (pde_ptr v) (omega (arith, pte_ptr-pde_ptr w v low')) in
      rw
        (
          pte_ptr-eq v w,
          clear_page-pte_ptr (update m.words (pde_ptr v) (present_entry table)) v w,
          apart,
        )
        refl

  add_table-Mapped :
      (table : ℕ) → is_present (m.words (pde_ptr v)) ≡ false → Mapped m v p (add_table table)
  add_table-Mapped table missing w low' = elim (Bool-cases (w / 2 ^ 22 == v / 2 ^ 22)) [
    | inl near ↦
        let entry : is_present (present_entry table) ≡ true = ground arith in
        let d : (add_table table).words (pde_ptr w) ≡ present_entry table =
          add_table-pde table w ∙ rw near refl in
        elim (Bool-cases (w / 4096 == v / 4096)) [
          | inl same ↦ rw same (
              translate-walk (add_table table) w (present_entry table) (present_entry p) d
                (add_table-pte table w low' ∙ rw same refl)
              ∙ walk-present (present_entry table) p w entry aligned)
          | inr other ↦
              let was : is_present (m.words (pde_ptr w)) ≡ false =
                ap (λ a. is_present (m.words a))
                  (==→eq (pde_ptr w) (pde_ptr v) (pde_ptr-eq v w ∙ near))
                ∙ missing in
              rw other (
                translate-walk (add_table table) w (present_entry table) 0 d
                  (add_table-pte table w low' ∙ rw (other, near) refl)
                ∙ walk-zero (present_entry table) w
                ∙ sym (
                    translate-walk m w (m.words (pde_ptr w)) (m.words (pte_ptr w)) refl refl
                    ∙ walk-absent (m.words (pde_ptr w)) (m.words (pte_ptr w)) w was))
        ]
    | inr far ↦
        let other : (w / 4096 == v / 4096) ≡ false = ground arith in
        rw other (
          translate-walk (add_table table) w (m.words (pde_ptr w)) (m.words (pte_ptr w))
            (add_table-pde table w ∙ rw far refl)
            (add_table-pte table w low' ∙ rw (other, far) refl)
          ∙ sym (translate-walk m w (m.words (pde_ptr w)) (m.words (pte_ptr w)) refl refl))
  ]

pub translate-words : (m m' : Pages) (w : ℕ) → m'.words ≡ m.words → translate m' w ≡ translate m w
unfolding translate
translate-words m m' w e = ap (λ (words : ℕ → ℕ). walk (words (pde_ptr w)) (words (pte_ptr w)) w) e

pte-unmapped :
    (m : Pages) (v : ℕ)
    → translate m v ≡ none
    → is_present (m.words (pde_ptr v)) ≡ true
    → is_present (m.words (pte_ptr v)) ≡ false
unfolding translate
pte-unmapped m v unmapped there = elim (Bool-cases (is_present (m.words (pte_ptr v)))) [
  | inl mapped ↦ absurd (ground (arith, unmapped, there, mapped))
  | inr free ↦ free
]

new_words-pte :
    (m : Pages) (v table : ℕ)
    → clear_page
        (update m.words (pde_ptr v) (present_entry table))
        (pte_ptr v / 4096 * 4096)
        (pte_ptr v)
      ≡ 0
new_words-pte m v table =
    clear_page-pte_ptr (update m.words (pde_ptr v) (present_entry table)) v v
    ∙ rw (==-refl (v / 2 ^ 22)) refl

-- what the other parts of the state become when a table is added, or not
abbrev pub OnlyTables : Pages → Pages → Type 0
OnlyTables m m' =
    (m'.user_pool ≡ m.user_pool)
    × (m'.kernel_vaddr ≡ m.kernel_vaddr)
    × (m'.userprog_vaddr ≡ m.userprog_vaddr)

-- `page_table_add` of a page that is not mapped, where its table is there or a page is free for it,
-- maps that page and no other.
pub page_table_add_lem :
    (m : Pages) (v p : ℕ)
    → v < tables_start
    → p % 4096 ≡ 0
    → translate m v ≡ none
    → (pool : Pool) (table : ℕ) → palloc m.kernel_pool ≡ done (pool, some table)
    → (m' : Pages) × (page_table_add m v p ≡ done m')
      × Mapped m v p m'
      × OnlyTables m m'
      × ((m'.kernel_pool ≡ m.kernel_pool) ⊎ (m'.kernel_pool ≡ pool))
unfolding page_table_add add_entry add_table new_words
page_table_add_lem m v p low aligned unmapped pool table e =
    elim (Bool-cases (is_present (m.words (pde_ptr v)))) [
      | inl there ↦
          let free : is_present (m.words (pte_ptr v)) ≡ false = pte-unmapped m v unmapped there in
          (
            add_entry m v p low aligned,
            rw (there, free) refl,
            add_entry-Mapped m v p low aligned there,
            (refl, refl, refl),
            inl refl,
          )
      | inr missing ↦ (
        record (add_table m v p low aligned table) { kernel_pool = pool },
        rw (missing, e, new_words-pte m v table) refl,
        λ w h.
            translate-words (add_table m v p low aligned table) _ w refl
            ∙ add_table-Mapped m v p low aligned table missing w h,
        (refl, refl, refl),
        inr refl,
      )
    ]
