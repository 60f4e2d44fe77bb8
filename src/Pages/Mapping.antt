-- ===== src/Pages/Mapping.antt =====
-- The loop of `malloc_page` of kernel/memory.c: pages of a pool are mapped one after the other.
use winx.Base.{
  ℕ, zero, suc, ◌+◌, ◌-◌, ◌*◌, ◌/◌, ◌%◌, ◌^◌, ◌≤◌, ◌<◌, ◌≡◌, refl, sym, ap, subst, ◌∙◌, ◌≢◌, inl,
  inr, Bool, true, false, ◌&&◌, none, some, arith, ltb, leb, ◌==◌, if◌then◌else◌, Bool-cases, ne→==,
  Run, done, le→leb, leb→le,
}
use winx.Bitmap.{scan_test}
use winx.Pages.{
  Pages, PoolFlags, pf_kernel, pf_user, Pool, mem_pool, with_pool, palloc, page_table_add,
  map_pages,
}
use winx.Pages.Tables.{translate, tables_start, Mapped}
use winx.Pages.Bits.{IsFrame, IsFrame-PoolLater}
use winx.Pages.Round.{
  IsPools, Enough, PoolsLater, PoolsLater-refl, PoolsLater-trans, mem_pool-PoolsLater, add_page,
}

-- What mapping `n` pages from `v` on comes to: page `k` is at `phys k`, which was free and is in use,
-- no two are the same, and the translation of all other addresses stays.
pub record MapsPages (pf : PoolFlags) (m : Pages) (v : ℕ) (n : ℕ) (m' : Pages) (phys : ℕ → ℕ)
    : Type 0 where
  pub mapped :
      (w : ℕ)
      → w < tables_start
      → translate m' w ≡ (
          if leb v w && ltb w (v + n * 4096)
          then some (phys ((w - v) / 4096) + w % 4096)
          else translate m w)
  pub fresh : (k : ℕ) → k < n → IsFrame (mem_pool pf m) (phys k) false
  pub used : (k : ℕ) → k < n → IsFrame (mem_pool pf m') (phys k) true
  pub apart : (i j : ℕ) → i < n → j < n → phys i ≡ phys j → i ≡ j
  pub later : PoolsLater m m' n

MapsPages-nothing : (pf : PoolFlags) (m : Pages) (v : ℕ) → IsPools m → MapsPages pf m v 0 m (λ k. 0)
MapsPages-nothing pf m v ok = record {
  mapped = λ w h. ground arith;
  fresh = λ k h. absurd (omega arith);
  used = λ k h. absurd (omega arith);
  apart = λ i j h. absurd (omega arith);
  later = PoolsLater-refl m ok;
}

-- the pages in order
abbrev cons_page : ℕ → (ℕ → ℕ) → ℕ → ℕ
cons_page p phys k = if k == 0 then p else phys (k - 1)

cons_page-suc : (p : ℕ) (phys : ℕ → ℕ) (k : ℕ) → cons_page p phys (suc k) ≡ phys k
cons_page-suc p phys k = rw (ne→== (suc k) 0 (omega arith)) (ap phys (omega arith))

module _ (pf : PoolFlags) (m m₁ m' : Pages) (v n p : ℕ) (phys : ℕ → ℕ) (aligned : v % 4096 ≡ 0)
    (was : IsFrame (mem_pool pf m) p false) (is : IsFrame (mem_pool pf m₁) p true)
    (one : Mapped m v p m₁) (later : PoolsLater m m₁ 1)
    (rest : MapsPages pf m₁ (v + 4096) n m' phys) where
  still_free : (q : ℕ) → IsFrame (mem_pool pf m₁) q false → IsFrame (mem_pool pf m) q false
  still_free q f =
      let g = mem_pool-PoolsLater pf later in
      let now : scan_test (mem_pool pf m₁).pool_bitmap ((q - (mem_pool pf m).phy_addr_start) / 4096)
          ≡ false =
        ap (λ s. scan_test (mem_pool pf m₁).pool_bitmap ((q - s) / 4096)) (sym g.phy_addr_start)
        ∙ f.bit in
      record {
        from = omega (arith, f.from, g.phy_addr_start);
        to = omega (arith, f.to, g.phy_addr_start, g.length);
        aligned = f.aligned;
        bit =
            elim (Bool-cases (
              scan_test (mem_pool pf m).pool_bitmap
                ((q - (mem_pool pf m).phy_addr_start) / 4096))) [
                  | inl taken ↦ absurd (ground (arith, now, g.used _ taken))
                  | inr free ↦ free
                ];
      }

  -- no page is taken twice
  apart_head : (k : ℕ) → k < n → phys k ≢ p
  apart_head k h e =
      let free : IsFrame (mem_pool pf m₁) p false =
        subst (λ q. IsFrame (mem_pool pf m₁) q false) e (rest.fresh k h) in
      ground (arith, is.bit, free.bit)

  page_before : (w : ℕ) → v + 4096 ≤ w → (w - v) / 4096 ≡ suc ((w - (v + 4096)) / 4096)
  page_before w h = omega arith

  mapped_head :
      (w : ℕ)
      → (if leb (v + 4096) w && ltb w (v + 4096 + n * 4096)
          then some (phys ((w - (v + 4096)) / 4096) + w % 4096)
          else if w / 4096 == v / 4096
          then some (p + w % 4096)
          else translate m w)
        ≡ (if leb v w && ltb w (v + suc n * 4096)
            then some (cons_page p phys ((w - v) / 4096) + w % 4096)
            else translate m w)
  mapped_head w = elim (Bool-cases (leb (v + 4096) w)) [
    | inl after ↦
        let shift : (w - v) / 4096 ≡ suc ((w - (v + 4096)) / 4096) =
          page_before w (leb→le (v + 4096) w after) in
        let other : (w / 4096 == v / 4096) ≡ false = ground (arith, after) in
        let last : ltb w (v + 4096 + n * 4096) ≡ ltb w (v + suc n * 4096) =
          ap (ltb w) (omega arith) in
        let first : leb v w ≡ true = le→leb v w (omega (arith, leb→le (v + 4096) w after)) in
        rw (after, shift, other, last, first, cons_page-suc p phys ((w - (v + 4096)) / 4096)) refl
    | inr before ↦
        let first : leb v w && ltb w (v + suc n * 4096) ≡ (w / 4096 == v / 4096) =
          ground (arith, before) in
        elim (Bool-cases (w / 4096 == v / 4096)) [
          | inl same ↦
              let head : (w - v) / 4096 ≡ 0 = ground (arith, before, same) in
              rw (before, first, same, head) refl
          | inr other ↦ rw (before, first, other) refl
        ]
  ]

  mapped_cons :
      (w : ℕ)
      → w < tables_start
      → translate m' w ≡ (
          if leb v w && ltb w (v + suc n * 4096)
          then some (cons_page p phys ((w - v) / 4096) + w % 4096)
          else translate m w)
  mapped_cons w h = rest.mapped w h ∙ rw (one w h) (mapped_head w)

  apart_cons : (i j : ℕ) → i < suc n → j < suc n → cons_page p phys i ≡ cons_page p phys j → i ≡ j
  apart_cons zero zero a b e = refl
  apart_cons zero (suc j) a b e =
      absurd (apart_head j (omega arith) (sym (e ∙ cons_page-suc p phys j)))
  apart_cons (suc i) zero a b e =
      absurd (apart_head i (omega arith) (sym (cons_page-suc p phys i) ∙ e))
  apart_cons (suc i) (suc j) a b e = ap suc (
      rest.apart i j (omega arith) (omega arith)
        (sym (cons_page-suc p phys i) ∙ e ∙ cons_page-suc p phys j))

  MapsPages-cons : MapsPages pf m v (suc n) m' (cons_page p phys)
  MapsPages-cons = record {
    mapped = mapped_cons;
    fresh = λ k h. elim (Bool-cases (k == 0)) [
      | inl head ↦ rw head was
      | inr tail ↦ rw tail (still_free (phys (k - 1)) (rest.fresh (k - 1) (ground arith)))
    ];
    used = λ k h. elim (Bool-cases (k == 0)) [
      | inl head ↦ rw head (IsFrame-PoolLater is (mem_pool-PoolsLater pf rest.later))
      | inr tail ↦ rw tail (rest.used (k - 1) (ground arith))
    ];
    apart = apart_cons;
    later = PoolsLater-trans (suc n) later rest.later (omega arith);
  }

Enough-later :
    (pf : PoolFlags) (m m₁ : Pages) (n : ℕ)
    → Enough pf m (suc n)
    → PoolsLater m m₁ 1
    → Enough pf m₁ n
Enough-later pf_kernel m m₁ n enough later =
    (omega (arith, later.kernel.free), omega (arith, later.kernel.free))
Enough-later pf_user m m₁ n enough later =
    (omega (arith, later.kernel.free), omega (arith, later.user.free))

map_pages-round :
    (n : ℕ) (pf : PoolFlags) (m m₁ : Pages) (v p : ℕ) (pool : Pool) (r : Run (Pages × Bool))
    → palloc (mem_pool pf m) ≡ done (pool, some p)
    → page_table_add (with_pool pf m pool) v p ≡ done m₁
    → (v + 4096) % 2 ^ 32 ≡ v + 4096
    → map_pages n pf m₁ (v + 4096) ≡ r
    → map_pages (suc n) pf m v ≡ r
unfolding map_pages
map_pages-round n pf m m₁ v p pool r got run wrap rest = rw (got, run, wrap) rest

-- The loop maps all pages of its range where the pools have enough.
pub map_pages_lem :
    (n : ℕ) (pf : PoolFlags) (m : Pages) (v : ℕ)
    → IsPools m
    → v % 4096 ≡ 0
    → v + n * 4096 ≤ tables_start
    → ((w : ℕ) → v ≤ w → w < v + n * 4096 → translate m w ≡ none)
    → Enough pf m n
    → (m' : Pages) × (phys : ℕ → ℕ) × (map_pages n pf m v ≡ done (m', true))
      × MapsPages pf m v n m' phys
unfolding map_pages
map_pages_lem zero pf m v ok aligned low unmapped enough =
    (m, λ k. 0, refl, MapsPages-nothing pf m v ok)
map_pages_lem (suc n) pf m v ok aligned low unmapped enough =
    let (pool, p, m₁, got, run, was, is, one, later) =
      add_page pf m v ok (omega arith) (unmapped v (omega arith) (omega arith))
        (omega arith, omega arith) in
    let wrap : (v + 4096) % 2 ^ 32 ≡ v + 4096 = omega arith in
    let (m', phys, loop, rest) =
      map_pages_lem n pf m₁ (v + 4096) (later.kernel.pool_ok, later.user.pool_ok) (omega arith)
        (omega arith)
        (λ w a b.
          one w (omega arith)
          ∙ rw (ne→== (w / 4096) (v / 4096) (omega arith)) (unmapped w (omega arith) (omega arith)))
        (Enough-later pf m m₁ n enough later) in
    (
      m',
      cons_page p phys,
      map_pages-round n pf m m₁ v p pool (done (m', true)) got run wrap loop,
      MapsPages-cons pf m m₁ m' v n p phys aligned was is one later rest,
    )
