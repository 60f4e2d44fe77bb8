-- ===== src/Arenas/RoundTrip.antt =====
-- `sys_free` of kernel/memory.c after `sys_malloc`.
use winx.Base.{
  ℕ, ◌+◌, ◌-◌, ◌/◌, ◌%◌, ◌^◌, ◌≤◌, ◌<◌, ◌≡◌, refl, ap, ◌∙◌, Bool, true, none, some, arith, leb,
  ==-refl, ne→==, lt→ltb, update, done, le→leb,
}
use winx.Bitmap.Scan.{IsRun}
use winx.Pages.{
  Pages, PoolFlags, pf_kernel, pf_user, mem_pool, vaddr_of, page_size, malloc_page, mfree_page,
}
use winx.Pages.Init.{k_heap_start}
use winx.Pages.Round.{Enough}
use winx.Pages.Alloc.{IsVirtual}
use winx.Pages.Free.{IsLayout}
use winx.Pages.Release.{Restores, mfree_page-malloc_page}
use winx.Arenas.{Heap, arena_size, block2arena, malloc_large, sys_malloc, sys_free}

-- The kernel's pages start at its heap.
abbrev pub IsAbove : PoolFlags → Pages → Type 0
IsAbove pf_kernel m = k_heap_start ≤ m.kernel_vaddr.vaddr_start
IsAbove pf_user m = Unit

-- what the pages must be like for `n` more to be had
pub record HasPages (pf : PoolFlags) (m : Pages) (n : ℕ) : Type 0 where
  pub layout : IsLayout m
  pub virtual : IsVirtual pf (vaddr_of pf m) m
  pub enough : Enough pf m n
  pub above : IsAbove pf m
  pub run_start : ℕ
  pub run : IsRun (vaddr_of pf m).vaddr_bitmap n run_start

abbrev pub is_heap_address : PoolFlags → ℕ → Bool
is_heap_address pf ptr = elim pf [ pf_kernel ↦ leb k_heap_start ptr | pf_user ↦ true ]

pub heap_address :
    (pf : PoolFlags) (m : Pages) (v : ℕ)
    → IsAbove pf m
    → (vaddr_of pf m).vaddr_start ≤ v
    → is_heap_address pf (v + arena_size) ≡ true
heap_address pf_kernel m v above from =
    le→leb k_heap_start (v + arena_size) (omega (arith, above, from))
heap_address pf_user m v above from = refl

abbrev pub page_cnt : ℕ → ℕ
page_cnt size = (size + arena_size + page_size - 1) % 2 ^ 32 / page_size

sys_malloc-large :
    (pf : PoolFlags) (h : Heap) (size v : ℕ) (pages : Pages)
    → 1024 < size
    → size < (mem_pool pf h.pages).pool_size
    → malloc_page pf h.pages (page_cnt size) ≡ done (pages, some v)
    → sys_malloc pf h size
      ≡ done (
        record h {
          pages = pages;
          arenas = update h.arenas v (record { desc = none; cnt = page_cnt size; large = true });
        },
        some (v + arena_size),
      )
unfolding sys_malloc malloc_large
sys_malloc-large pf h size v pages large small e =
    rw
      (
        lt→ltb 0 size (omega (arith, large)),
        lt→ltb size (mem_pool pf h.pages).pool_size small,
        lt→ltb 1024 size large,
        e,
      )
      refl

sys_free-large :
    (pf : PoolFlags) (h : Heap) (ptr n : ℕ) (pages : Pages)
    → is_heap_address pf ptr ≡ true
    → 0 < ptr
    → h.arenas (block2arena ptr) ≡ record { desc = none; cnt = n; large = true }
    → mfree_page pf h.pages (block2arena ptr) n ≡ done pages
    → sys_free pf h ptr ≡ done (record h { pages = pages })
unfolding sys_free
sys_free-large pf h ptr n pages fits some_ptr arena e =
    rw
      (
        ne→== ptr 0 (omega (arith, some_ptr)),
        fits,
        ap (λ a. a.desc) arena,
        ap (λ a. a.large) arena,
        ap (λ a. a.cnt) arena,
        e,
      )
      refl

-- `sys_malloc` of more than 1024 bytes, fewer than the pool has and than 3840 pages hold, where the
-- pages are well formed with enough of them free, and then `sys_free`: what is given is behind the
-- arena at the start of a page. Addresses are translated and virtual pages free as before, pages in
-- use before are so still, and no free list changes.
pub sys_free-sys_malloc_large :
    (pf : PoolFlags) (h : Heap) (size : ℕ)
    → HasPages pf h.pages (page_cnt size)
    → 1024 < size
    → size < (mem_pool pf h.pages).pool_size
    → page_cnt size < 3840
    → size < 2 ^ 31
    → (h₁ h₂ : Heap) × (ptr : ℕ) × (sys_malloc pf h size ≡ done (h₁, some ptr))
      × (sys_free pf h₁ ptr ≡ done h₂)
      × (ptr % page_size ≡ arena_size)
      × Restores pf h.pages h₂.pages
      × (h₂.descs ≡ h.descs)
sys_free-sys_malloc_large pf h size has large small few bounded =
    let (m₁, m₂, v, phys, e, e', aligned, from, mapped, freed, restores) =
      mfree_page-malloc_page pf h.pages (page_cnt size) has.run_start has.layout has.virtual
        has.enough (omega (arith, large, bounded)) few has.run in
    let page : block2arena (v + arena_size) ≡ v = omega (arith, aligned) in
    (
      _,
      _,
      v + arena_size,
      sys_malloc-large pf h size v m₁ large small e,
      sys_free-large pf _ (v + arena_size) (page_cnt size) m₂
          (heap_address pf h.pages v has.above from) (omega arith) (rw (page, ==-refl v) refl)
          (ap (λ a. mfree_page pf m₁ a (page_cnt size)) page ∙ e'),
      omega (arith, aligned),
      restores,
      refl,
    )
