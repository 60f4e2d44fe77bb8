-- ===== src/Pages/Alloc.antt =====
-- `malloc_page` of kernel/memory.c.
use winx.Base.{
  ℕ, ◌+◌, ◌-◌, ◌*◌, ◌/◌, ◌%◌, ◌^◌, ◌≤◌, ◌<◌, ◌≡◌, refl, sym, subst, ◌∙◌, ◌⊎◌, inl, inr, true, false,
  ◌&&◌, none, some, arith, ltb, leb, if◌then◌else◌, Bool-cases, lt→ltb, done,
}
use winx.Bitmap.{Bitmap, scan_test, scan}
use winx.Bitmap.Laws.{IsBytes, total_bits}
use winx.Bitmap.Scan.{scan_lem, IsRun, IsFirstRun}
use winx.Pages.{
  mem_pool, Pages, PoolFlags, pf_kernel, pf_user, VirtualAddr, vaddr_of, with_vaddr, set_bits,
  in_space, vaddr_get, map_pages, malloc_page,
}
use winx.Pages.Tables.{translate, tables_start, translate-words}
use winx.Pages.Bits.{set_bits_lem}
use winx.Pages.Round.{IsPools, Enough, PoolsLater}
use winx.Pages.Mapping.{MapsPages, map_pages_lem}

-- A virtual page whose bit is free is in the space of its owner and not mapped.
pub record IsVirtual (pf : PoolFlags) (a : VirtualAddr) (m : Pages) : Type 0 where
  pub bytes : IsBytes a.vaddr_bitmap
  pub aligned : a.vaddr_start % 4096 ≡ 0
  pub low : a.vaddr_start + total_bits a.vaddr_bitmap * 4096 ≤ tables_start
  pub inside :
      (i : ℕ)
      → i < total_bits a.vaddr_bitmap
      → scan_test a.vaddr_bitmap i ≡ false
      → in_space pf (a.vaddr_start + i * 4096) ≡ true
  pub unmapped :
      (w : ℕ)
      → a.vaddr_start ≤ w
      → w < a.vaddr_start + total_bits a.vaddr_bitmap * 4096
      → scan_test a.vaddr_bitmap ((w - a.vaddr_start) / 4096) ≡ false
      → translate m w ≡ none

-- `n` virtual pages from page `i` on have been taken.
pub record TakesVirtual (a : VirtualAddr) (n : ℕ) (i : ℕ) (btmp : Bitmap) : Type 0 where
  pub bits :
      (j : ℕ)
      → scan_test btmp j ≡ (if leb i j && ltb j (i + n) then true else scan_test a.vaddr_bitmap j)
  pub length : btmp.btmp_bytes_len ≡ a.vaddr_bitmap.btmp_bytes_len
  pub taken_bytes : IsBytes btmp

vaddr_get-none :
    (pf : PoolFlags) (m : Pages) (n : ℕ)
    → scan (vaddr_of pf m).vaddr_bitmap n ≡ done none
    → vaddr_get pf m n ≡ done (m, none)
unfolding vaddr_get
vaddr_get-none pf m n e = rw e refl

vaddr_get-some :
    (pf : PoolFlags) (m : Pages) (n i : ℕ) (btmp : Bitmap)
    → scan (vaddr_of pf m).vaddr_bitmap n ≡ done (some i)
    → set_bits n (vaddr_of pf m).vaddr_bitmap i 1 ≡ done btmp
    → ((vaddr_of pf m).vaddr_start + i * 4096) % 2 ^ 32 ≡ (vaddr_of pf m).vaddr_start + i * 4096
    → in_space pf ((vaddr_of pf m).vaddr_start + i * 4096) ≡ true
    → vaddr_get pf m n ≡ done (with_vaddr pf m btmp, some ((vaddr_of pf m).vaddr_start + i * 4096))
unfolding vaddr_get
vaddr_get-some pf m n i btmp e e' wrap space = rw (e, e', wrap, space) refl

abbrev VaddrResult : PoolFlags → Pages → ℕ → Type 0
VaddrResult pf m n =
    (IsFirstRun (vaddr_of pf m).vaddr_bitmap n none × (vaddr_get pf m n ≡ done (m, none)))
    ⊎ ((i : ℕ) × (btmp : Bitmap) × IsFirstRun (vaddr_of pf m).vaddr_bitmap n (some i)
        × TakesVirtual (vaddr_of pf m) n i btmp
        × (vaddr_get pf m n
            ≡ done (with_vaddr pf m btmp, some ((vaddr_of pf m).vaddr_start + i * 4096))))

vaddr_get_lem :
    (pf : PoolFlags) (m : Pages) (n : ℕ)
    → IsVirtual pf (vaddr_of pf m) m
    → 0 < n
    → VaddrResult pf m n
vaddr_get_lem pf m n v c =
    let (r, e, first) = scan_lem (vaddr_of pf m).vaddr_bitmap n (omega (arith, v.low)) c in
    (elim r
        as (λ r.
          scan (vaddr_of pf m).vaddr_bitmap n ≡ done r
          → IsFirstRun (vaddr_of pf m).vaddr_bitmap n r
          → VaddrResult pf m n) [
            | none ↦ λ e first. inl (first, vaddr_get-none pf m n e)
            | some i ↦ λ e first.
                let (btmp, stored, bits, length, bytes) =
                  set_bits_lem n (vaddr_of pf m).vaddr_bitmap i 1 v.bytes (omega arith) in
                let inside : i < total_bits (vaddr_of pf m).vaddr_bitmap =
                  omega (arith, first.0.0) in
                inr (
                  i,
                  btmp,
                  first,
                  record { bits = bits; length = length; taken_bytes = bytes },
                  vaddr_get-some pf m n i btmp e stored (omega (arith, v.low))
                      (v.inside i inside (first.0.1 i (omega arith) (omega arith))),
                )
          ])
      e first

-- What `malloc_page` comes to: its pages are the first `n` free ones in a row, and mapped.
pub record Allocates (pf : PoolFlags) (m : Pages) (n : ℕ) (i : ℕ) (btmp : Bitmap) (m' : Pages)
    (phys : ℕ → ℕ) : Type 0 where
  pub first : IsFirstRun (vaddr_of pf m).vaddr_bitmap n (some i)
  pub taken : TakesVirtual (vaddr_of pf m) n i btmp
  pub maps : MapsPages pf (with_vaddr pf m btmp) ((vaddr_of pf m).vaddr_start + i * 4096) n m' phys
  pub virtual : IsVirtual pf (vaddr_of pf m') m'

pub vaddr_of-PoolsLater :
    (pf : PoolFlags) (m m' : Pages) (n : ℕ) → PoolsLater m m' n → vaddr_of pf m' ≡ vaddr_of pf m
vaddr_of-PoolsLater pf_kernel m m' n later = later.kernel_vaddr
vaddr_of-PoolsLater pf_user m m' n later = later.userprog_vaddr

pub translate-with_vaddr :
    (pf : PoolFlags) (m : Pages) (btmp : Bitmap) (w : ℕ)
    → translate (with_vaddr pf m btmp) w ≡ translate m w
translate-with_vaddr pf_kernel m btmp w = translate-words m _ w refl
translate-with_vaddr pf_user m btmp w = translate-words m _ w refl

unfoldable pub with_bitmap : VirtualAddr → Bitmap → VirtualAddr
with_bitmap a btmp = record a { vaddr_bitmap = btmp }

pub vaddr_of-with_vaddr :
    (pf : PoolFlags) (m : Pages) (btmp : Bitmap)
    → vaddr_of pf (with_vaddr pf m btmp) ≡ with_bitmap (vaddr_of pf m) btmp
unfolding with_bitmap
vaddr_of-with_vaddr pf_kernel m btmp = refl
vaddr_of-with_vaddr pf_user m btmp = refl

module _ (pf : PoolFlags) (m m' : Pages) (a : VirtualAddr) (n i : ℕ) (btmp : Bitmap) (phys : ℕ → ℕ)
    (taken : TakesVirtual a n i btmp)
    (maps : MapsPages pf (with_vaddr pf m btmp) (a.vaddr_start + i * 4096) n m' phys) where
  same_range :
      (w : ℕ)
      → a.vaddr_start ≤ w
      → leb (a.vaddr_start + i * 4096) w && ltb w (a.vaddr_start + i * 4096 + n * 4096)
        ≡ (leb i ((w - a.vaddr_start) / 4096) && ltb ((w - a.vaddr_start) / 4096) (i + n))
  same_range w from = ground arith

  unmapped-taken :
      (w : ℕ)
      → w < tables_start
      → a.vaddr_start ≤ w
      → scan_test btmp ((w - a.vaddr_start) / 4096) ≡ false
      → (scan_test a.vaddr_bitmap ((w - a.vaddr_start) / 4096) ≡ false → translate m w ≡ none)
      → translate m' w ≡ none
  unmapped-taken w low from free was =
      elim (Bool-cases
        (leb i ((w - a.vaddr_start) / 4096) && ltb ((w - a.vaddr_start) / 4096) (i + n))) [
          | inl within ↦
              absurd (ground (arith, taken.bits ((w - a.vaddr_start) / 4096), within, free))
          | inr outside ↦
              let still : scan_test a.vaddr_bitmap ((w - a.vaddr_start) / 4096) ≡ false =
                ground (arith, taken.bits ((w - a.vaddr_start) / 4096), outside, free) in
              maps.mapped w low
              ∙ rw (same_range w from, outside) (translate-with_vaddr pf m btmp w ∙ was still)
        ]

  IsVirtual-taken : IsVirtual pf a m → IsVirtual pf (with_bitmap a btmp) m'
  unfolding with_bitmap
  IsVirtual-taken v = record {
    bytes = taken.taken_bytes;
    aligned = v.aligned;
    low = omega (arith, v.low, taken.length);
    inside = λ j h free. v.inside j (omega (arith, taken.length)) (ground (arith, taken.bits j));
    unmapped = λ w from to free.
        unmapped-taken w (omega (arith, v.low, taken.length)) from free
          (v.unmapped w from (omega (arith, taken.length)));
  }

malloc_page-none :
    (pf : PoolFlags) (m : Pages) (n : ℕ)
    → 0 < n
    → n < 3840
    → vaddr_get pf m n ≡ done (m, none)
    → malloc_page pf m n ≡ done (m, none)
unfolding malloc_page
malloc_page-none pf m n some_pages few e = rw (lt→ltb 0 n some_pages, lt→ltb n 3840 few, e) refl

malloc_page-some :
    (pf : PoolFlags) (m m₁ m' : Pages) (n v : ℕ)
    → 0 < n
    → n < 3840
    → vaddr_get pf m n ≡ done (m₁, some v)
    → map_pages n pf m₁ v ≡ done (m', true)
    → malloc_page pf m n ≡ done (m', some v)
unfolding malloc_page
malloc_page-some pf m m₁ m' n v some_pages few e e' =
    rw (lt→ltb 0 n some_pages, lt→ltb n 3840 few, e, e') refl

pub mem_pool-with_vaddr :
    (pf : PoolFlags) (m : Pages) (btmp : Bitmap)
    → mem_pool pf (with_vaddr pf m btmp) ≡ mem_pool pf m
mem_pool-with_vaddr pf_kernel m btmp = refl
mem_pool-with_vaddr pf_user m btmp = refl

pub IsPools-with_vaddr :
    (pf : PoolFlags) (m : Pages) (btmp : Bitmap) (n : ℕ)
    → IsPools m
    → Enough pf m n
    → IsPools (with_vaddr pf m btmp) × Enough pf (with_vaddr pf m btmp) n
IsPools-with_vaddr pf_kernel m btmp n ok enough = (ok, enough)
IsPools-with_vaddr pf_user m btmp n ok enough = (ok, enough)

-- A run of free virtual pages is not mapped.
pub run-unmapped :
    (pf : PoolFlags) (a : VirtualAddr) (m : Pages) (n i w : ℕ)
    → IsVirtual pf a m
    → IsRun a.vaddr_bitmap n i
    → a.vaddr_start + i * 4096 ≤ w
    → w < a.vaddr_start + i * 4096 + n * 4096
    → translate m w ≡ none
run-unmapped pf a m n i w v run from to =
    v.unmapped w (omega arith) (omega (arith, run.0))
      (run.1 ((w - a.vaddr_start) / 4096) (omega arith) (omega arith))

-- `malloc_page` of 1 to 3839 pages, where pools and virtual addresses are well formed and the pools
-- have enough pages: it changes nothing and gives NULL if the virtual addresses have no `pg_cnt`
-- free pages in a row; else it takes the first such run and maps it to pages that were free.
pub malloc_page_lem :
    (pf : PoolFlags) (m : Pages) (pg_cnt : ℕ)
    → IsPools m
    → IsVirtual pf (vaddr_of pf m) m
    → Enough pf m pg_cnt
    → 0 < pg_cnt
    → pg_cnt < 3840
    → (IsFirstRun (vaddr_of pf m).vaddr_bitmap pg_cnt none
        × (malloc_page pf m pg_cnt ≡ done (m, none)))
      ⊎ ((m' : Pages) × (i : ℕ) × (btmp : Bitmap) × (phys : ℕ → ℕ) × (malloc_page pf m pg_cnt
            ≡ done (m', some ((vaddr_of pf m).vaddr_start + i * 4096)))
          × Allocates pf m pg_cnt i btmp m' phys)
malloc_page_lem pf m n ok v enough some_pages few = elim (vaddr_get_lem pf m n v some_pages) [
  | inl (first, e) ↦ inl (first, malloc_page-none pf m n some_pages few e)
  | inr (i, btmp, first, taken, e) ↦
      let (ok₁, enough₁) = IsPools-with_vaddr pf m btmp n ok enough in
      let a = vaddr_of pf m in
      let (m', phys, loop, maps) =
        map_pages_lem n pf (with_vaddr pf m btmp) (a.vaddr_start + i * 4096) ok₁
          (omega (arith, v.aligned)) (omega (arith, v.low, first.0.0))
          (λ w from to.
            translate-with_vaddr pf m btmp w ∙ run-unmapped pf a m n i w v first.0 from to)
          enough₁ in
      let same : vaddr_of pf m' ≡ with_bitmap a btmp =
        vaddr_of-PoolsLater pf (with_vaddr pf m btmp) m' n maps.later
        ∙ vaddr_of-with_vaddr pf m btmp in
      inr (
        m',
        i,
        btmp,
        phys,
        malloc_page-some pf m (with_vaddr pf m btmp) m' n _ some_pages few e loop,
        record {
          first = first;
          taken = taken;
          maps = maps;
          virtual =
              subst (λ b. IsVirtual pf b m') (sym same)
                (IsVirtual-taken pf m m' a n i btmp phys taken maps v);
        },
      )
]
