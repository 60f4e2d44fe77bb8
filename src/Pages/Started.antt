-- ===== src/Pages/Started.antt =====
-- A small machine for tests: 32 pages behind the first 2 MB, as `mem_pool_init` of kernel/memory.c
-- shares them out.
use winx.Base.{ℕ, ◌+◌, ◌*◌, ◌≤◌, ◌<◌, ◌≡◌, refl, ap, false, none, arith}
use winx.Bitmap.{Bitmap, scan_test}
use winx.Bitmap.Laws.{total_bits, len-init}
use winx.Bitmap.Scan.{IsRun}
use winx.Bitmap.Taking.{free_below-all}
use winx.CString.{Memory}
use winx.Pages.{Pages, Pool, pf_kernel, VirtualAddr}
use winx.Pages.Tables.{translate}
use winx.Pages.Round.{Enough}
use winx.Pages.Alloc.{IsVirtual}
use winx.Pages.Free.{IsLayout}
use winx.Pages.Init.{mem_pool_init, mem_pool_init_lem, k_heap_start, pool_pages}

abbrev pub zeros : Memory
zeros a = 0

abbrev no_map : Bitmap
no_map = record { btmp_bytes_len = 0; bits = zeros }

abbrev no_pool : Pool
no_pool = record { pool_bitmap = no_map; phy_addr_start = 0; pool_size = 0 }

abbrev no_vaddr : VirtualAddr
no_vaddr = record { vaddr_bitmap = no_map; vaddr_start = 0 }

abbrev pub before : Pages
before = record {
  kernel_pool = no_pool;
  user_pool = no_pool;
  kernel_vaddr = no_vaddr;
  userprog_vaddr = no_vaddr;
  words = zeros;
}

abbrev pub all_mem : ℕ
all_mem = 0x220000

abbrev pub after : Pages
after = mem_pool_init zeros before all_mem

pub unmapped : (w : ℕ) → translate before w ≡ none
unfolding translate
unmapped w = refl

pub after-holds :
    IsLayout after
    × IsVirtual pf_kernel after.kernel_vaddr after
    × ((j : ℕ)
        → j < total_bits after.kernel_pool.pool_bitmap
        → scan_test after.kernel_pool.pool_bitmap j ≡ false)
    × ((j : ℕ)
        → j < total_bits after.user_pool.pool_bitmap
        → scan_test after.user_pool.pool_bitmap j ≡ false)
    × ((j : ℕ)
        → j < total_bits after.kernel_vaddr.vaddr_bitmap
        → scan_test after.kernel_vaddr.vaddr_bitmap j ≡ false)
    × (0x200000 + pool_pages after * 4096 ≤ all_mem)
after-holds =
    mem_pool_init_lem zeros before all_mem (λ a. omega arith) (λ w a b. unmapped w) (omega arith)
      (omega arith)

pub layout : IsLayout after
layout = after-holds.0

pub virtual : IsVirtual pf_kernel after.kernel_vaddr after
virtual = after-holds.1

pub bits : total_bits after.kernel_pool.pool_bitmap ≡ 16
unfolding mem_pool_init
bits = ap (λ n. 8 * n) (len-init _)

pub heap_bits : total_bits after.kernel_vaddr.vaddr_bitmap ≡ 16
unfolding mem_pool_init
heap_bits = ap (λ n. 8 * n) (len-init _)

pub enough : Enough pf_kernel after 2
enough =
    let free =
      free_below-all after.kernel_pool.pool_bitmap (total_bits after.kernel_pool.pool_bitmap)
        after-holds.2 in
    (omega (arith, free, bits), omega (arith, free, bits))

pub two_pages : IsRun after.kernel_vaddr.vaddr_bitmap 2 0
two_pages = (omega (arith, heap_bits), λ j a b. after-holds.4 j (omega (arith, heap_bits)))

pub heap_start : after.kernel_vaddr.vaddr_start ≡ k_heap_start
unfolding mem_pool_init
heap_start = refl

pub heap_unmapped : (w : ℕ) → translate after w ≡ none
unfolding translate mem_pool_init
heap_unmapped w = refl
