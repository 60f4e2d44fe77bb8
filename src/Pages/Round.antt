-- ===== src/Pages/Round.antt =====
-- One round of `malloc_page` of kernel/memory.c: a page of a pool is mapped.
use winx.Base.{
  ℕ, ◌+◌, ◌*◌, ◌/◌, ◌%◌, ◌≤◌, ◌<◌, ◌≡◌, refl, sym, ap, subst, ◌∙◌, inl, inr, true, false, none,
  some, arith, ◌==◌, if◌then◌else◌, done,
}
use winx.Bitmap.Taking.{free_bits}
use winx.Pages.{
  Pages, Pool, PoolFlags, pf_kernel, pf_user, mem_pool, with_pool, palloc, page_table_add,
}
use winx.Pages.Tables.{
  translate, tables_start, Mapped, OnlyTables, page_table_add_lem, translate-words,
}
use winx.Pages.Bits.{
  IsPool, IsFrame, PoolLater, PoolLater-refl, PoolLater-trans, IsFrame-PoolLater, palloc_lem,
}

abbrev pub IsPools : Pages → Type 0
IsPools m = IsPool m.kernel_pool × IsPool m.user_pool

-- enough free pages for `n` pages and a table for each
abbrev pub Enough : PoolFlags → Pages → ℕ → Type 0
Enough pf m n =
    (2 * n ≤ free_bits m.kernel_pool.pool_bitmap) × (n ≤ free_bits (mem_pool pf m).pool_bitmap)

-- The pools later, with at most `n` pages and `n` tables more in use, and the same virtual addresses.
pub record PoolsLater (m : Pages) (m' : Pages) (n : ℕ) : Type 0 where
  pub kernel : PoolLater m.kernel_pool m'.kernel_pool (2 * n)
  pub user : PoolLater m.user_pool m'.user_pool n
  pub kernel_vaddr : m'.kernel_vaddr ≡ m.kernel_vaddr
  pub userprog_vaddr : m'.userprog_vaddr ≡ m.userprog_vaddr

pub PoolsLater-refl : (m : Pages) → IsPools m → PoolsLater m m 0
PoolsLater-refl m v = record {
  kernel = PoolLater-refl m.kernel_pool v.0 (2 * 0);
  user = PoolLater-refl m.user_pool v.1 0;
  kernel_vaddr = refl;
  userprog_vaddr = refl;
}

pub PoolsLater-trans :
    {m m' m'' : Pages} {a b : ℕ} (n : ℕ)
    → PoolsLater m m' a
    → PoolsLater m' m'' b
    → a + b ≡ n
    → PoolsLater m m'' n
PoolsLater-trans n g h e = record {
  kernel = PoolLater-trans (2 * n) g.kernel h.kernel (omega arith);
  user = PoolLater-trans n g.user h.user (omega arith);
  kernel_vaddr = h.kernel_vaddr ∙ g.kernel_vaddr;
  userprog_vaddr = h.userprog_vaddr ∙ g.userprog_vaddr;
}

-- that of the pool which the pages come from
pub mem_pool-PoolsLater :
    (pf : PoolFlags) {m m' : Pages} {n : ℕ}
    → PoolsLater m m' n
    → PoolLater (mem_pool pf m) (mem_pool pf m') (2 * n)
mem_pool-PoolsLater pf_kernel g = g.kernel
mem_pool-PoolsLater pf_user {m} {m'} {n} g = record {
  pool_ok = g.user.pool_ok;
  phy_addr_start = g.user.phy_addr_start;
  length = g.user.length;
  used = g.user.used;
  free = omega (arith, g.user.free);
}

-- `page_table_add` where the kernel's pool has a page for a table
table_added :
    (m : Pages) (v p : ℕ)
    → IsPool m.kernel_pool
    → 0 < free_bits m.kernel_pool.pool_bitmap
    → v < tables_start
    → p % 4096 ≡ 0
    → translate m v ≡ none
    → (m' : Pages) × (page_table_add m v p ≡ done m')
      × Mapped m v p m'
      × OnlyTables m m'
      × PoolLater m.kernel_pool m'.kernel_pool 1
table_added m v p ok free low aligned unmapped = elim (palloc_lem m.kernel_pool ok) [
  | inl (full, e) ↦ absurd (omega arith)
  | inr (pool, table, e, later, was, is) ↦
      let (m', run, mapped, same, k) = page_table_add_lem m v p low aligned unmapped pool table e in
      (
        m',
        run,
        mapped,
        same,
        elim k [
          | inl same_pool ↦
              subst (λ q. PoolLater m.kernel_pool q 1) (sym same_pool)
                (PoolLater-refl m.kernel_pool ok 1)
          | inr taken ↦ subst (λ q. PoolLater m.kernel_pool q 1) (sym taken) later
        ],
      )
]

-- what one round of `malloc_page` comes to
abbrev pub AddsPage : PoolFlags → Pages → ℕ → Type 0
AddsPage pf m v =
    (pool : Pool) × (p : ℕ) × (m' : Pages) × (palloc (mem_pool pf m) ≡ done (pool, some p))
    × (page_table_add (with_pool pf m pool) v p ≡ done m')
    × IsFrame (mem_pool pf m) p false
    × IsFrame (mem_pool pf m') p true
    × Mapped m v p m'
    × PoolsLater m m' 1

pub add_page :
    (pf : PoolFlags) (m : Pages) (v : ℕ)
    → IsPools m
    → v < tables_start
    → translate m v ≡ none
    → Enough pf m 1
    → AddsPage pf m v
add_page pf_kernel m v ok low unmapped enough = elim (palloc_lem m.kernel_pool ok.0) [
  | inl (full, e) ↦ absurd (omega arith)
  | inr (pool, p, e, later, was, is) ↦
      let m₁ : Pages = record m { kernel_pool = pool } in
      let (m', run, mapped, (same_user, same_kv, same_uv), more) =
        table_added m₁ v p later.pool_ok (omega (arith, later.free)) low was.aligned
          (translate-words m m₁ v refl ∙ unmapped) in
      (
        pool,
        p,
        m',
        e,
        run,
        was,
        IsFrame-PoolLater is more,
        λ w h.
            mapped w h
            ∙ ap (λ t. if w / 4096 == v / 4096 then some (p + w % 4096) else t)
                (translate-words m m₁ w refl),
        record {
          kernel = PoolLater-trans 2 later more (omega arith);
          user =
              subst (λ q. PoolLater m.user_pool q 1) (sym same_user)
                (PoolLater-refl m.user_pool ok.1 1);
          kernel_vaddr = same_kv;
          userprog_vaddr = same_uv;
        },
      )
]
add_page pf_user m v ok low unmapped enough = elim (palloc_lem m.user_pool ok.1) [
  | inl (full, e) ↦ absurd (omega arith)
  | inr (pool, p, e, later, was, is) ↦
      let m₁ : Pages = record m { user_pool = pool } in
      let (m', run, mapped, (same_user, same_kv, same_uv), more) =
        table_added m₁ v p ok.0 (omega arith) low was.aligned
          (translate-words m m₁ v refl ∙ unmapped) in
      (
        pool,
        p,
        m',
        e,
        run,
        was,
        subst (λ q. IsFrame q p true) (sym same_user) is,
        λ w h.
            mapped w h
            ∙ ap (λ t. if w / 4096 == v / 4096 then some (p + w % 4096) else t)
                (translate-words m m₁ w refl),
        record {
          kernel = PoolLater-trans 2 (PoolLater-refl m.kernel_pool ok.0 1) more (omega arith);
          user = subst (λ q. PoolLater m.user_pool q 1) (sym same_user) later;
          kernel_vaddr = same_kv;
          userprog_vaddr = same_uv;
        },
      )
]
