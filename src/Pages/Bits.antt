-- ===== src/Pages/Bits.antt =====
-- The maps of kernel/memory.c: bits set in a row, and pages taken from a pool.
use winx.Base.{
  ℕ, zero, suc, ◌+◌, ◌-◌, ◌*◌, ◌/◌, ◌%◌, ◌^◌, ◌≤◌, ◌<◌, ◌≡◌, refl, ap, ◌∙◌, ◌⊎◌, inl, inr, Bool,
  true, false, not, ◌&&◌, none, some, arith, ltb, leb, ◌==◌, if◌then◌else◌, ==-refl, done,
}
use winx.Bitmap.{Bitmap, scan_test}
use winx.Bitmap.Laws.{IsBytes, total_bits, set_lem}
use winx.Bitmap.Taking.{free_bits, scan-set}
use winx.Pages.{Pool, set_bits, palloc, page_size}

-- `set_bits` sets the bits of its range to the value, and no others.
pub set_bits_lem :
    (left : ℕ) (btmp : Bitmap) (i value : ℕ)
    → IsBytes btmp
    → value < 2
    → (btmp' : Bitmap) × (set_bits left btmp i value ≡ done btmp')
      × ((j : ℕ)
          → scan_test btmp' j
            ≡ (if leb i j && ltb j (i + left) then not (value == 0) else scan_test btmp j))
      × (btmp'.btmp_bytes_len ≡ btmp.btmp_bytes_len)
      × IsBytes btmp'
unfolding set_bits
set_bits_lem zero btmp i value bytes bool = (btmp, refl, λ j. ground arith, refl, bytes)
set_bits_lem (suc left) btmp i value bytes bool =
    let (btmp₁, e, bits, len, bytes₁) = set_lem btmp i value bytes bool in
    let (btmp₂, e', bits', len', bytes₂) = set_bits_lem left btmp₁ (i + 1) value bytes₁ bool in
    (btmp₂, rw e e', λ j. ground (arith, bits' j, bits j), len' ∙ len, bytes₂)

-- The pages of a pool are whole, and have addresses of 32 bits.
pub record IsPool (pool : Pool) : Type 0 where
  pub bytes : IsBytes pool.pool_bitmap
  pub aligned : pool.phy_addr_start % 4096 ≡ 0
  pub wide : pool.phy_addr_start + total_bits pool.pool_bitmap * 4096 ≤ 2 ^ 32

-- a page of the pool, in use or not
pub record IsFrame (pool : Pool) (page_phyaddr : ℕ) (used : Bool) : Type 0 where
  pub from : pool.phy_addr_start ≤ page_phyaddr
  pub to : page_phyaddr < pool.phy_addr_start + total_bits pool.pool_bitmap * 4096
  pub aligned : page_phyaddr % 4096 ≡ 0
  pub bit : scan_test pool.pool_bitmap ((page_phyaddr - pool.phy_addr_start) / 4096) ≡ used

-- The same pool after at most `n` more pages have been taken.
pub record PoolLater (pool : Pool) (pool' : Pool) (n : ℕ) : Type 0 where
  pub pool_ok : IsPool pool'
  pub phy_addr_start : pool'.phy_addr_start ≡ pool.phy_addr_start
  pub length : pool'.pool_bitmap.btmp_bytes_len ≡ pool.pool_bitmap.btmp_bytes_len
  pub used : (b : ℕ) → scan_test pool.pool_bitmap b ≡ true → scan_test pool'.pool_bitmap b ≡ true
  pub free : free_bits pool.pool_bitmap ≤ free_bits pool'.pool_bitmap + n

pub PoolLater-refl : (pool : Pool) → IsPool pool → (n : ℕ) → PoolLater pool pool n
PoolLater-refl pool p n = record {
  pool_ok = p;
  phy_addr_start = refl;
  length = refl;
  used = λ b h. h;
  free = omega arith;
}

pub PoolLater-trans :
    {pool pool' pool'' : Pool} {m n : ℕ} (k : ℕ)
    → PoolLater pool pool' m
    → PoolLater pool' pool'' n
    → m + n ≤ k
    → PoolLater pool pool'' k
PoolLater-trans k g h le = record {
  pool_ok = h.pool_ok;
  phy_addr_start = h.phy_addr_start ∙ g.phy_addr_start;
  length = h.length ∙ g.length;
  used = λ b o. h.used b (g.used b o);
  free = omega (arith, g.free, h.free);
}

pub IsFrame-PoolLater :
    {pool pool' : Pool} {p n : ℕ}
    → IsFrame pool p true
    → PoolLater pool pool' n
    → IsFrame pool' p true
IsFrame-PoolLater {pool} {pool'} {p} f g = record {
  from = omega (arith, f.from, g.phy_addr_start);
  to = omega (arith, f.to, g.phy_addr_start, g.length);
  aligned = f.aligned;
  bit =
      ap (λ s. scan_test pool'.pool_bitmap ((p - s) / 4096)) g.phy_addr_start
      ∙ g.used ((p - pool.phy_addr_start) / 4096) f.bit;
}

-- `palloc` of a pool with no free page fails; of any other it takes the lowest one.
pub palloc_lem :
    (pool : Pool)
    → IsPool pool
    → ((free_bits pool.pool_bitmap ≡ 0) × (palloc pool ≡ done (pool, none)))
      ⊎ ((pool' : Pool) × (p : ℕ) × (palloc pool ≡ done (pool', some p))
          × PoolLater pool pool' 1
          × IsFrame pool p false
          × IsFrame pool' p true)
unfolding palloc
palloc_lem pool v = elim (scan-set pool.pool_bitmap (omega (arith, v.wide)) v.bytes) [
  | inl (full, e) ↦ inl (full, rw e refl)
  | inr (b, btmp, e, stored, t) ↦
      let wrap : (b * page_size + pool.phy_addr_start) % 2 ^ 32
          ≡ b * page_size + pool.phy_addr_start =
        omega (arith, v.wide, t.inside) in
      let bit : (b * page_size + pool.phy_addr_start - pool.phy_addr_start) / 4096 ≡ b =
        omega arith in
      inr (
        record pool { pool_bitmap = btmp },
        b * page_size + pool.phy_addr_start,
        rw (e, stored, wrap) refl,
        record {
          pool_ok = record {
            bytes = t.bytes;
            aligned = v.aligned;
            wide = omega (arith, v.wide, t.length);
          };
          phy_addr_start = refl;
          length = t.length;
          used = λ j h. t.taken j ∙ ground (arith, h);
          free = omega (arith, t.fewer);
        },
        record {
          from = omega arith;
          to = omega (arith, t.inside);
          aligned = omega (arith, v.aligned);
          bit = ap (scan_test pool.pool_bitmap) bit ∙ t.was_free;
        },
        record {
          from = omega arith;
          to = omega (arith, t.inside, t.length);
          aligned = omega (arith, v.aligned);
          bit = ap (scan_test btmp) bit ∙ t.taken b ∙ rw (==-refl b) refl;
        },
      )
]
