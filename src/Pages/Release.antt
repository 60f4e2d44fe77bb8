-- ===== src/Pages/Release.antt =====
-- `mfree_page` of kernel/memory.c, and what is left of a `malloc_page` after it.
use winx.Base.{
  ℕ, ◌+◌, ◌-◌, ◌*◌, ◌/◌, ◌%◌, ◌^◌, ◌≤◌, ◌<◌, ◌≡◌, refl, sym, ap, subst, ◌∙◌, inl, inr, true, false,
  ◌&&◌, none, some, arith, ltb, leb, if◌then◌else◌, Bool-cases, lt→ltb, Run, done, le→leb, lt→leb,
}
use winx.Base.{Run}
use winx.Bitmap.{Bitmap, scan_test}
use winx.Bitmap.Laws.{IsBytes}
use winx.Bitmap.Scan.{IsRun}
use winx.Pages.{
  Pages, PoolFlags, pf_kernel, pf_user, VirtualAddr, mem_pool, vaddr_of, with_vaddr, page_size,
  addr_v2p, set_bits, vaddr_remove, unmap_pages, malloc_page, mfree_page,
}
use winx.Pages.Tables.{translate, tables_start, translate-words}
use winx.Pages.Bits.{set_bits_lem, IsFrame, IsFrame-PoolLater}
use winx.Pages.Round.{Enough, PoolsLater, mem_pool-PoolsLater}
use winx.Pages.Mapping.{MapsPages}
use winx.Pages.Alloc.{
  IsVirtual, TakesVirtual, run-unmapped, Allocates, malloc_page_lem, translate-with_vaddr,
  vaddr_of-PoolsLater, vaddr_of-with_vaddr, with_bitmap, mem_pool-with_vaddr,
}
use winx.Pages.Free.{IsLayout, addr_v2p_lem}
use winx.Pages.Unmap.{is_user, Owns, Unmaps, SameVaddr, unmap_pages_lem}

Unmaps-with_vaddr :
    (pf : PoolFlags) (m : Pages) (v n : ℕ) (phys : ℕ → ℕ) (m' : Pages) (btmp : Bitmap)
    → Unmaps pf m v n phys m'
    → Unmaps pf m v n phys (with_vaddr pf m' btmp)
Unmaps-with_vaddr pf_kernel m v n phys m' btmp u = record {
  mapped = λ w h. translate-words m' _ w refl ∙ u.mapped w h;
  freed = u.freed;
  kept = λ q f h. u.kept q f h;
  layout = record { pools = u.layout.pools; low = u.layout.low; below = u.layout.below };
}
Unmaps-with_vaddr pf_user m v n phys m' btmp u = record {
  mapped = λ w h. translate-words m' _ w refl ∙ u.mapped w h;
  freed = u.freed;
  kept = λ q f h. u.kept q f h;
  layout = record { pools = u.layout.pools; low = u.layout.low; below = u.layout.below };
}

vaddr_of-SameVaddr :
    (pf : PoolFlags) (m m' : Pages) → SameVaddr m m' → vaddr_of pf m' ≡ vaddr_of pf m
vaddr_of-SameVaddr pf_kernel m m' e = e.0
vaddr_of-SameVaddr pf_user m m' e = e.1

-- The owner of the first page is told from its address.
first-is_user :
    (pf : PoolFlags) (m : Pages) (p : ℕ)
    → IsLayout m
    → IsFrame (mem_pool pf m) p true
    → (leb m.user_pool.phy_addr_start p ≡ is_user pf) × (p % 4096 ≡ 0) × (0x102000 ≤ p)
first-is_user pf_kernel m p ok f =
    let f' : IsFrame m.kernel_pool p true = f in
    (
      lt→leb m.user_pool.phy_addr_start p (omega (arith, f'.to, ok.below)),
      f.aligned,
      omega (arith, f'.from, ok.low),
    )
first-is_user pf_user m p ok f =
    let f' : IsFrame m.user_pool p true = f in
    (
      le→leb m.user_pool.phy_addr_start p f'.from,
      f.aligned,
      omega (arith, f'.from, ok.low, ok.below),
    )

vaddr_remove_lem :
    (pf : PoolFlags) (m : Pages) (a : VirtualAddr) (i n : ℕ) (btmp : Bitmap)
    → vaddr_of pf m ≡ a
    → a.vaddr_start + i * 4096 < 2 ^ 32
    → set_bits n a.vaddr_bitmap i 0 ≡ done btmp
    → vaddr_remove pf m (a.vaddr_start + i * 4096) n ≡ done (with_vaddr pf m btmp)
unfolding vaddr_remove
vaddr_remove_lem pf m a i n btmp same low e =
    let index : (a.vaddr_start + i * 4096 + 2 ^ 32 - a.vaddr_start) % 2 ^ 32 / page_size ≡ i =
      omega (arith, low) in
    rw (same, index, e) refl

mfree_page-eq :
    (pf : PoolFlags) (m m₁ : Pages) (v n p : ℕ) (r : Run Pages)
    → 1 ≤ n
    → v % 4096 ≡ 0
    → addr_v2p m v ≡ p
    → (leb m.user_pool.phy_addr_start p ≡ is_user pf) × (p % 4096 ≡ 0) × (0x102000 ≤ p)
    → unmap_pages n (is_user pf) m v ≡ done m₁
    → vaddr_remove pf m₁ v n ≡ r
    → mfree_page pf m v n ≡ r
unfolding mfree_page
mfree_page-eq pf m m₁ v n p r some_pages aligned here (user, whole, high) loop last =
    rw (here, user, aligned, whole, le→leb 1 n some_pages, le→leb 0x102000 p high, loop) last

-- the bits of its virtual pages are free
abbrev pub Clears : VirtualAddr → ℕ → ℕ → VirtualAddr → Type 0
Clears a i n a' =
    ((j : ℕ)
      → scan_test a'.vaddr_bitmap j
        ≡ (if leb i j && ltb j (i + n) then false else scan_test a.vaddr_bitmap j))
    × (a'.vaddr_bitmap.btmp_bytes_len ≡ a.vaddr_bitmap.btmp_bytes_len)
    × (a'.vaddr_start ≡ a.vaddr_start)

-- `mfree_page` of mapped pages of the right pool gives back exactly these.
pub mfree_page_lem :
    (pf : PoolFlags) (m : Pages) (a : VirtualAddr) (i n : ℕ) (phys : ℕ → ℕ)
    → vaddr_of pf m ≡ a
    → IsLayout m
    → IsBytes a.vaddr_bitmap
    → a.vaddr_start % 4096 ≡ 0
    → 0 < n
    → a.vaddr_start + i * 4096 + n * 4096 ≤ tables_start
    → Owns pf m (a.vaddr_start + i * 4096) n phys
    → (m' : Pages) × (mfree_page pf m (a.vaddr_start + i * 4096) n ≡ done m')
      × Unmaps pf m (a.vaddr_start + i * 4096) n phys m'
      × Clears a i n (vaddr_of pf m')
unfolding with_bitmap
mfree_page_lem pf m a i n phys known ok bytes aligned some_pages low owns =
    let v = a.vaddr_start + i * 4096 in
    let f = owns.used 0 some_pages in
    let (m₁, loop, unmaps, same) =
      unmap_pages_lem n pf m v phys ok owns (omega (arith, aligned)) low in
    let (btmp, e, bits, len, bytes') = set_bits_lem n a.vaddr_bitmap i 0 bytes (omega arith) in
    let here : addr_v2p m v ≡ phys 0 =
      addr_v2p_lem m v (phys 0) (ap (translate m) (omega arith) ∙ owns.mapped 0 some_pages) in
    let after : vaddr_of pf m₁ ≡ a = vaddr_of-SameVaddr pf m m₁ same ∙ known in
    (
      with_vaddr pf m₁ btmp,
      mfree_page-eq pf m m₁ v n (phys 0) (done (with_vaddr pf m₁ btmp)) some_pages
          (omega (arith, aligned)) here (first-is_user pf m (phys 0) ok f) loop
          (vaddr_remove_lem pf m₁ a i n btmp after (omega arith) e),
      Unmaps-with_vaddr pf m v n phys m₁ btmp unmaps,
      subst (Clears a i n) (sym (vaddr_of-with_vaddr pf m₁ btmp))
          (bits, len, ap (λ b. b.vaddr_start) after),
    )

IsLayout-PoolsLater : {m m' : Pages} {n : ℕ} → IsLayout m → PoolsLater m m' n → IsLayout m'
IsLayout-PoolsLater ok later = record {
  pools = (later.kernel.pool_ok, later.user.pool_ok);
  low = omega (arith, ok.low, later.kernel.phy_addr_start);
  below = omega (
    arith, ok.below, later.kernel.phy_addr_start, later.kernel.length, later.user.phy_addr_start,
  );
}

IsLayout-with_vaddr :
    (pf : PoolFlags) (m : Pages) (btmp : Bitmap) → IsLayout m → IsLayout (with_vaddr pf m btmp)
IsLayout-with_vaddr pf_kernel m btmp ok = record {
  pools = ok.pools;
  low = ok.low;
  below = ok.below;
}
IsLayout-with_vaddr pf_user m btmp ok = record { pools = ok.pools; low = ok.low; below = ok.below }

page_address :
    (v k : ℕ) (phys : ℕ → ℕ)
    → v % 4096 ≡ 0
    → phys ((v + k * 4096 - v) / 4096) + (v + k * 4096) % 4096 ≡ phys k
page_address v k phys aligned =
    let page : (v + k * 4096 - v) / 4096 ≡ k = omega arith in
    let offset : (v + k * 4096) % 4096 ≡ 0 = omega arith in rw (page, offset) (omega arith)

Owns-MapsPages :
    (pf : PoolFlags) (m m' : Pages) (v n : ℕ) (phys : ℕ → ℕ)
    → v % 4096 ≡ 0
    → v + n * 4096 ≤ tables_start
    → MapsPages pf m v n m' phys
    → Owns pf m' v n phys
Owns-MapsPages pf m m' v n phys aligned low maps = record {
  mapped = λ k h.
      maps.mapped (v + k * 4096) (omega arith)
      ∙ rw
          (
            le→leb v (v + k * 4096) (omega arith),
            lt→ltb (v + k * 4096) (v + n * 4096) (omega arith),
          )
          (ap some (page_address v k phys aligned));
  used = maps.used;
  apart = maps.apart;
}

-- No page that was in use has been given back.
module _ (pf : PoolFlags) (m m₁ m₂ : Pages) (v n : ℕ) (phys : ℕ → ℕ)
    (maps : MapsPages pf m v n m₁ phys) (unmaps : Unmaps pf m₁ v n phys m₂) where
  was_free : (k : ℕ) → k < n → ¬ IsFrame (mem_pool pf m) (phys k) true
  was_free k h f = let g = maps.fresh k h in ground (arith, f.bit, g.bit)

  still_used : (q : ℕ) → IsFrame (mem_pool pf m) q true → IsFrame (mem_pool pf m₂) q true
  still_used q f =
      unmaps.kept q (IsFrame-PoolLater f (mem_pool-PoolsLater pf maps.later))
        (λ k h e. was_free k h (subst (λ q. IsFrame (mem_pool pf m) q true) e f))

  same_translation :
      (w : ℕ)
      → w < tables_start
      → (v ≤ w → w < v + n * 4096 → translate m w ≡ none)
      → translate m₂ w ≡ translate m w
  same_translation w low unmapped =
      unmaps.mapped w low ∙ elim (Bool-cases (leb v w && ltb w (v + n * 4096))) [
        | inl within ↦ rw within (sym (unmapped (ground (arith, within)) (ground (arith, within))))
        | inr outside ↦ rw outside (maps.mapped w low ∙ rw outside refl)
      ]

-- what `malloc_page` and then `mfree_page` of all its pages leave
pub record Restores (pf : PoolFlags) (m : Pages) (m' : Pages) : Type 0 where
  pub translation : (w : ℕ) → w < tables_start → translate m' w ≡ translate m w
  pub virtual :
      (j : ℕ) → scan_test (vaddr_of pf m').vaddr_bitmap j ≡ scan_test (vaddr_of pf m).vaddr_bitmap j
  pub used : (q : ℕ) → IsFrame (mem_pool pf m) q true → IsFrame (mem_pool pf m') q true
  pub layout : IsLayout m'

abbrev pub RoundTrip : PoolFlags → Pages → ℕ → Type 0
RoundTrip pf m pg_cnt =
    (m₁ m₂ : Pages) × (v : ℕ) × (phys : ℕ → ℕ) × (malloc_page pf m pg_cnt ≡ done (m₁, some v))
    × (mfree_page pf m₁ v pg_cnt ≡ done m₂)
    × (v % 4096 ≡ 0)
    × ((vaddr_of pf m).vaddr_start ≤ v)
    × ((k : ℕ) → k < pg_cnt → translate m₁ (v + k * 4096) ≡ some (phys k))
    × ((k : ℕ) → k < pg_cnt → IsFrame (mem_pool pf m₂) (phys k) false)
    × Restores pf m m₂

bits-restored :
    (a : VirtualAddr) (n i : ℕ) (btmp : Bitmap) (j : ℕ)
    → TakesVirtual a n i btmp
    → IsRun a.vaddr_bitmap n i
    → (if leb i j && ltb j (i + n) then false else scan_test btmp j) ≡ scan_test a.vaddr_bitmap j
bits-restored a n i btmp j taken run = elim (Bool-cases (leb i j && ltb j (i + n))) [
  | inl within ↦ rw within (sym (run.1 j (ground (arith, within)) (ground (arith, within))))
  | inr outside ↦ rw outside (taken.bits j ∙ rw outside refl)
]

after_malloc_page :
    (pf : PoolFlags) (m m₁ : Pages) (n i : ℕ) (btmp : Bitmap) (phys : ℕ → ℕ)
    → IsLayout m
    → IsVirtual pf (vaddr_of pf m) m
    → 0 < n
    → malloc_page pf m n ≡ done (m₁, some ((vaddr_of pf m).vaddr_start + i * 4096))
    → Allocates pf m n i btmp m₁ phys
    → RoundTrip pf m n
unfolding with_bitmap
after_malloc_page pf m m₁ n i btmp phys ok virtual some_pages e al =
    let a = vaddr_of pf m in
    let v = a.vaddr_start + i * 4096 in
    let m_v = with_vaddr pf m btmp in
    let low : v + n * 4096 ≤ tables_start = omega (arith, virtual.low, al.first.0.0) in
    let aligned : v % 4096 ≡ 0 = omega (arith, virtual.aligned) in
    let same : vaddr_of pf m₁ ≡ with_bitmap a btmp =
      vaddr_of-PoolsLater pf m_v m₁ n al.maps.later ∙ vaddr_of-with_vaddr pf m btmp in
    let owns = Owns-MapsPages pf m_v m₁ v n phys aligned low al.maps in
    let (m₂, e', unmaps, clears) =
      mfree_page_lem pf m₁ (with_bitmap a btmp) i n phys same
        (IsLayout-PoolsLater (IsLayout-with_vaddr pf m btmp ok) al.maps.later) al.taken.taken_bytes
        virtual.aligned some_pages low owns in
    (
      m₁,
      m₂,
      v,
      phys,
      e,
      e',
      aligned,
      omega arith,
      owns.mapped,
      unmaps.freed,
      record {
        translation = λ w below.
            same_translation pf m_v m₁ m₂ v n phys al.maps unmaps w below (λ from to.
              translate-with_vaddr pf m btmp w
              ∙ run-unmapped pf a m n i w virtual al.first.0 from to)
            ∙ translate-with_vaddr pf m btmp w;
        virtual = λ j. clears.0 j ∙ bits-restored a n i btmp j al.taken al.first.0;
        used = λ q f.
            still_used pf m_v m₁ m₂ v n phys al.maps unmaps q
              (subst (λ pool. IsFrame pool q true) (sym (mem_pool-with_vaddr pf m btmp)) f);
        layout = unmaps.layout;
      },
    )

-- `malloc_page` of 1 to 3839 pages, where pools and virtual addresses are well formed, the pools have
-- enough pages and `pg_cnt` virtual pages in a row are free, and then `mfree_page` of what it gives:
-- every address below the page tables is translated as before and the virtual pages are free as
-- before; the pages of the pool that were given out are free, and those in use before are so still.
pub mfree_page-malloc_page :
    (pf : PoolFlags) (m : Pages) (pg_cnt p : ℕ)
    → IsLayout m
    → IsVirtual pf (vaddr_of pf m) m
    → Enough pf m pg_cnt
    → 0 < pg_cnt
    → pg_cnt < 3840
    → IsRun (vaddr_of pf m).vaddr_bitmap pg_cnt p
    → RoundTrip pf m pg_cnt
mfree_page-malloc_page pf m n p ok v enough some_pages few run =
    elim (malloc_page_lem pf m n ok.pools v enough some_pages few) [
      | inl (no_run, e) ↦ absurd (no_run p run)
      | inr (m₁, i, btmp, phys, e, al) ↦
          after_malloc_page pf m m₁ n i btmp phys ok v some_pages e al
    ]
