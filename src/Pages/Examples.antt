-- ===== src/Pages/Examples.antt =====
-- Tests of the pools of pages and of the page tables of kernel/memory.c.
use winx.Base.{ℕ, ◌+◌, ◌*◌, ◌≤◌, ◌<◌, ◌≡◌, ◌⊎◌, false, none, some, arith, done}
use winx.Bitmap.{Bitmap, scan_test}
use winx.Bitmap.Laws.{total_bits}
use winx.Bitmap.Scan.{IsFirstRun}
use winx.Pages.{Pages, pf_kernel, malloc_page}
use winx.Pages.Alloc.{IsVirtual, Allocates, malloc_page_lem}
use winx.Pages.Free.{IsLayout}
use winx.Pages.Release.{RoundTrip, mfree_page-malloc_page}
use winx.Pages.Init.{mem_pool_init_lem, pool_pages}
use winx.Pages.Started.{zeros, before, all_mem, after, unmapped, layout, virtual, enough, two_pages}

mem_pool_init_lem_example :
    IsLayout after
    × IsVirtual pf_kernel after.kernel_vaddr after
    × ((j : ℕ)
        → j < total_bits after.kernel_pool.pool_bitmap
        → scan_test after.kernel_pool.pool_bitmap j ≡ false)
    × ((j : ℕ)
        → j < total_bits after.user_pool.pool_bitmap
        → scan_test after.user_pool.pool_bitmap j ≡ false)
    × ((j : ℕ)
        → j < total_bits after.kernel_vaddr.vaddr_bitmap
        → scan_test after.kernel_vaddr.vaddr_bitmap j ≡ false)
    × (0x200000 + pool_pages after * 4096 ≤ all_mem)
mem_pool_init_lem_example =
    mem_pool_init_lem zeros before all_mem (λ a. omega arith) (λ w a b. unmapped w) (omega arith)
      (omega arith)

mfree_page-malloc_page_example : RoundTrip pf_kernel after 2
mfree_page-malloc_page_example =
    mfree_page-malloc_page pf_kernel after 2 0 layout virtual enough (omega arith) (omega arith)
      two_pages

malloc_page_lem_example :
    (IsFirstRun after.kernel_vaddr.vaddr_bitmap 2 none
      × (malloc_page pf_kernel after 2 ≡ done (after, none)))
    ⊎ ((m' : Pages) × (i : ℕ) × (btmp : Bitmap) × (phys : ℕ → ℕ) × (malloc_page pf_kernel after 2
          ≡ done (m', some (after.kernel_vaddr.vaddr_start + i * 4096)))
        × Allocates pf_kernel after 2 i btmp m' phys)
malloc_page_lem_example =
    malloc_page_lem pf_kernel after 2 layout.pools virtual enough (omega arith) (omega arith)
