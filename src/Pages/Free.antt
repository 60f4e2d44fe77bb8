-- ===== src/Pages/Free.antt =====
-- `pfree` and the page-table part of `mfree_page` of kernel/memory.c: one page is given back.
use winx.Base.{
  ℕ, ◌+◌, ◌-◌, ◌*◌, ◌/◌, ◌%◌, ◌^◌, ◌≤◌, ◌<◌, ◌≡◌, refl, sym, ap, ◌∙◌, ◌≢◌, inl, inr, Bool, true,
  false, none, some, arith, leb, ◌==◌, if◌then◌else◌, Bool-cases, ==-refl, ne→==, done, le→leb,
  lt→leb,
}
use winx.Bitmap.{scan_test}
use winx.Bitmap.Laws.{total_bits, set_lem}
use winx.Pages.{
  Pages, Pool, PoolFlags, pf_kernel, pf_user, mem_pool, page_size, pde_ptr, pte_ptr, addr_v2p,
  free_page, pfree, page_table_pte_remove,
}
use winx.Pages.Tables.{translate, tables_start, translate-walk, walk, pte_ptr-eq, pte_ptr-pde_ptr}
use winx.Pages.Bits.{IsPool, IsFrame}
use winx.Pages.Round.{IsPools}

-- The pools are apart, the kernel's below the user's, and above the pages that are never given back.
pub record IsLayout (m : Pages) : Type 0 where
  pub pools : IsPools m
  pub low : 0x102000 ≤ m.kernel_pool.phy_addr_start
  pub below :
      m.kernel_pool.phy_addr_start + total_bits m.kernel_pool.pool_bitmap * 4096
      ≤ m.user_pool.phy_addr_start

pub record PoolFreed (pool : Pool) (p : ℕ) (pool' : Pool) : Type 0 where
  pub pool_ok : IsPool pool'
  pub phy_addr_start : pool'.phy_addr_start ≡ pool.phy_addr_start
  pub length : pool'.pool_bitmap.btmp_bytes_len ≡ pool.pool_bitmap.btmp_bytes_len
  pub bits :
      (j : ℕ)
      → scan_test pool'.pool_bitmap j
        ≡ (if j == (p - pool.phy_addr_start) / 4096 then false else scan_test pool.pool_bitmap j)

free_page_lem :
    (pool : Pool) (p : ℕ)
    → IsPool pool
    → IsFrame pool p true
    → (pool' : Pool) × (free_page pool p ≡ done pool') × PoolFreed pool p pool'
unfolding free_page
free_page_lem pool p ok f =
    let i = (p - pool.phy_addr_start) / 4096 in
    let (btmp, e, bits, len, bytes) = set_lem pool.pool_bitmap i 0 ok.bytes (omega arith) in
    let index : (p + 2 ^ 32 - pool.phy_addr_start) % 2 ^ 32 / page_size ≡ i =
      omega (arith, f.from, f.to, ok.wide) in
    (
      record pool { pool_bitmap = btmp },
      rw (index, e) refl,
      record {
        pool_ok = record {
          bytes = bytes;
          aligned = ok.aligned;
          wide = omega (arith, ok.wide, len);
        };
        phy_addr_start = refl;
        length = len;
        bits = bits;
      },
    )

-- the page itself, and any other
pub freed-IsFrame :
    {pool pool' : Pool} {p : ℕ} {used : Bool}
    → IsFrame pool p used
    → PoolFreed pool p pool'
    → IsFrame pool' p false
freed-IsFrame {pool} {pool'} {p} f g = record {
  from = omega (arith, f.from, g.phy_addr_start);
  to = omega (arith, f.to, g.phy_addr_start, g.length);
  aligned = f.aligned;
  bit =
      ap (λ s. scan_test pool'.pool_bitmap ((p - s) / 4096)) g.phy_addr_start
      ∙ g.bits ((p - pool.phy_addr_start) / 4096)
      ∙ rw (==-refl ((p - pool.phy_addr_start) / 4096)) refl;
}

pub kept-IsFrame :
    {pool pool' : Pool} {p q : ℕ} {used used' : Bool}
    → IsFrame pool p used'
    → IsFrame pool q used
    → PoolFreed pool p pool'
    → q ≢ p
    → IsPool pool
    → IsFrame pool' q used
kept-IsFrame {pool} {pool'} {p} {q} f h g other ok = record {
  from = omega (arith, h.from, g.phy_addr_start);
  to = omega (arith, h.to, g.phy_addr_start, g.length);
  aligned = h.aligned;
  bit =
      ap (λ s. scan_test pool'.pool_bitmap ((q - s) / 4096)) g.phy_addr_start
      ∙ g.bits ((q - pool.phy_addr_start) / 4096)
      ∙ rw
          (ne→== ((q - pool.phy_addr_start) / 4096) ((p - pool.phy_addr_start) / 4096)
            (λ e. other (omega (arith, e, f.from, h.from, f.aligned, h.aligned, ok.aligned))))
          h.bit;
}

-- what giving back a page of a pool comes to
pub record FreesPage (pf : PoolFlags) (m : Pages) (p : ℕ) (m' : Pages) : Type 0 where
  pub layout : IsLayout m'
  pub pool : PoolFreed (mem_pool pf m) p (mem_pool pf m')
  pub words : m'.words ≡ m.words
  pub kernel_vaddr : m'.kernel_vaddr ≡ m.kernel_vaddr
  pub userprog_vaddr : m'.userprog_vaddr ≡ m.userprog_vaddr

pub pfree_lem :
    (pf : PoolFlags) (m : Pages) (p : ℕ)
    → IsLayout m
    → IsFrame (mem_pool pf m) p true
    → (m' : Pages) × (pfree m p ≡ done m') × FreesPage pf m p m'
unfolding pfree
pfree_lem pf_kernel m p ok f =
    let f' : IsFrame m.kernel_pool p true = f in
    let (pool, e, g) = free_page_lem m.kernel_pool p ok.pools.0 f in
    let other : leb m.user_pool.phy_addr_start p ≡ false =
      lt→leb m.user_pool.phy_addr_start p (omega (arith, f'.to, ok.below)) in
    (
      record m { kernel_pool = pool },
      rw (other, e) refl,
      record {
        layout = record {
          pools = (g.pool_ok, ok.pools.1);
          low = omega (arith, ok.low, g.phy_addr_start);
          below = omega (arith, ok.below, g.phy_addr_start, g.length);
        };
        pool = g;
        words = refl;
        kernel_vaddr = refl;
        userprog_vaddr = refl;
      },
    )
pfree_lem pf_user m p ok f =
    let (pool, e, g) = free_page_lem m.user_pool p ok.pools.1 f in
    let same : leb m.user_pool.phy_addr_start p ≡ true =
      le→leb m.user_pool.phy_addr_start p f.from in
    (
      record m { user_pool = pool },
      rw (same, e) refl,
      record {
        layout = record {
          pools = (ok.pools.0, g.pool_ok);
          low = ok.low;
          below = omega (arith, ok.below, g.phy_addr_start);
        };
        pool = g;
        words = refl;
        kernel_vaddr = refl;
        userprog_vaddr = refl;
      },
    )

walk-some : (pde pte v p : ℕ) → walk pde pte v ≡ some p → pte / 4096 * 4096 + v % 4096 ≡ p
walk-some pde pte v p e = ground (arith, e)

-- `addr_v2p` of a mapped address is the processor's translation.
pub addr_v2p_lem : (m : Pages) (v p : ℕ) → translate m v ≡ some p → addr_v2p m v ≡ p
unfolding addr_v2p translate
addr_v2p_lem m v p e = walk-some (m.words (pde_ptr v)) (m.words (pte_ptr v)) v p e

walk-absent_pte : (pde pte w : ℕ) → walk pde (pte / 2 * 2) w ≡ none
walk-absent_pte pde pte w = ground arith

-- Taking the present bit away unmaps that page and no other.
pub page_table_pte_remove_lem :
    (m : Pages) (v w : ℕ)
    → v < tables_start
    → translate (page_table_pte_remove m v) w
      ≡ (if w / 4096 == v / 4096 then none else translate m w)
unfolding page_table_pte_remove
page_table_pte_remove_lem m v w low =
    let away : (pde_ptr w == pte_ptr v) ≡ false =
      ne→== (pde_ptr w) (pte_ptr v) (omega (arith, pte_ptr-pde_ptr v w low)) in
    elim (Bool-cases (w / 4096 == v / 4096)) [
      | inl same ↦
          let here : (pte_ptr w == pte_ptr v) ≡ true = pte_ptr-eq v w ∙ same in
          rw same (
            translate-walk (page_table_pte_remove m v) w (m.words (pde_ptr w))
              (m.words (pte_ptr v) / 2 * 2) (rw away refl) (rw here refl)
            ∙ walk-absent_pte (m.words (pde_ptr w)) (m.words (pte_ptr v)) w)
      | inr other ↦
          let there : (pte_ptr w == pte_ptr v) ≡ false = pte_ptr-eq v w ∙ other in
          rw other (
            translate-walk (page_table_pte_remove m v) w (m.words (pde_ptr w)) (m.words (pte_ptr w))
              (rw away refl) (rw there refl)
            ∙ sym (translate-walk m w (m.words (pde_ptr w)) (m.words (pte_ptr w)) refl refl))
    ]
