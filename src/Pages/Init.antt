-- ===== src/Pages/Init.antt =====
-- `mem_pool_init` of kernel/memory.c: the memory behind the first 2 MB is shared out. What it prints,
-- and the locks, are not part of it. `memory` holds the bytes by address; each map is seen from its
-- pointer on.
use winx.Base.{ℕ, ◌+◌, ◌-◌, ◌*◌, ◌/◌, ◌%◌, ◌^◌, ◌≤◌, ◌<◌, ◌≡◌, refl, ◌∙◌, false, none, arith}
use winx.CString.{Memory}
use winx.Bitmap
use winx.Bitmap.{Bitmap, scan_test}
use winx.Bitmap.Laws.{total_bits, scan_test-init, IsBytes-init, len-init}
use winx.Pages.{Pages, pf_kernel, page_size}
use winx.Pages.Tables.{translate, tables_start, translate-words}
use winx.Pages.Bits.{IsPool}
use winx.Pages.Alloc.{IsVirtual}
use winx.Pages.Free.{IsLayout}

abbrev mem_bitmap_base : ℕ
mem_bitmap_base = 0xc009a000

abbrev pub k_heap_start : ℕ
k_heap_start = 0xc0100000

abbrev map_at : Memory → ℕ → ℕ → Bitmap
map_at memory bits btmp_bytes_len = record {
  btmp_bytes_len = btmp_bytes_len;
  bits = λ i. memory (bits + i);
}

-- the pages that are left, a uint16_t
abbrev all_free_pages : ℕ → ℕ
all_free_pages all_mem = (all_mem + 2 ^ 32 - 0x200000) % 2 ^ 32 / page_size % 2 ^ 16

unfoldable pub mem_pool_init : Memory → Pages → ℕ → Pages
mem_pool_init memory m all_mem =
    let used_mem = page_size * 256 + 0x100000 in
    let free_mem = (all_mem + 2 ^ 32 - used_mem) % 2 ^ 32 in
    let all_free_pages = free_mem / page_size % 2 ^ 16 in
    let kernel_free_pages = all_free_pages / 2 in
    let user_free_pages = all_free_pages - kernel_free_pages in
    let kbm_length = kernel_free_pages / 8 in
    let ubm_length = user_free_pages / 8 in
    let kp_start = used_mem in
    record m {
      kernel_pool = record {
        pool_bitmap = Bitmap.init (map_at memory mem_bitmap_base kbm_length);
        phy_addr_start = kp_start;
        pool_size = kernel_free_pages * page_size;
      };
      user_pool = record {
        pool_bitmap = Bitmap.init (map_at memory (mem_bitmap_base + kbm_length) ubm_length);
        phy_addr_start = kp_start + kernel_free_pages * page_size;
        pool_size = user_free_pages * page_size;
      };
      kernel_vaddr = record {
        vaddr_bitmap =
            Bitmap.init (map_at memory (mem_bitmap_base + kbm_length + ubm_length) kbm_length);
        vaddr_start = k_heap_start;
      };
    }

IsPool-init :
    (memory : Memory) (at start n size : ℕ)
    → ((a : ℕ) → memory a < 256)
    → start % 4096 ≡ 0
    → start + 8 * n * 4096 ≤ 2 ^ 32
    → IsPool (record {
      pool_bitmap = Bitmap.init (map_at memory at n);
      phy_addr_start = start;
      pool_size = size;
    })
IsPool-init memory at start n size bytes aligned wide = record {
  bytes = IsBytes-init (map_at memory at n) (λ a. bytes (at + a));
  aligned = aligned;
  wide = omega (arith, wide, len-init (map_at memory at n));
}

abbrev pub pool_pages : Pages → ℕ
pool_pages m = total_bits m.kernel_pool.pool_bitmap + total_bits m.user_pool.pool_bitmap

-- After `mem_pool_init` of 2 MB or more, with nothing mapped from the kernel's heap up to the page
-- tables, the pools and the kernel's virtual addresses are well formed, the pools are apart and above
-- the pages in use, and every page of the three maps is free; the pools have no more pages than
-- `all_mem` has above 2 MB.
pub mem_pool_init_lem :
    (memory : Memory) (m : Pages) (all_mem : ℕ)
    → ((a : ℕ) → memory a < 256)
    → ((w : ℕ) → k_heap_start ≤ w → w < tables_start → translate m w ≡ none)
    → 0x200000 ≤ all_mem
    → all_mem < 2 ^ 32
    → let m' = mem_pool_init memory m all_mem in
      IsLayout m'
      × IsVirtual pf_kernel m'.kernel_vaddr m'
      × ((j : ℕ)
          → j < total_bits m'.kernel_pool.pool_bitmap
          → scan_test m'.kernel_pool.pool_bitmap j ≡ false)
      × ((j : ℕ)
          → j < total_bits m'.user_pool.pool_bitmap
          → scan_test m'.user_pool.pool_bitmap j ≡ false)
      × ((j : ℕ)
          → j < total_bits m'.kernel_vaddr.vaddr_bitmap
          → scan_test m'.kernel_vaddr.vaddr_bitmap j ≡ false)
      × (0x200000 + pool_pages m' * page_size ≤ all_mem)
unfolding mem_pool_init
mem_pool_init_lem memory m all_mem bytes unmapped some_mem wide =
    let n = all_free_pages all_mem in
    let k = n / 2 in
    let u = n - k in
    let kernel_map = map_at memory mem_bitmap_base (k / 8) in
    let user_map = map_at memory (mem_bitmap_base + k / 8) (u / 8) in
    let vaddr_map = map_at memory (mem_bitmap_base + k / 8 + u / 8) (k / 8) in
    let few : n < 2 ^ 16 = omega arith in
    let inside : 0x200000 + n * 4096 ≤ all_mem = omega (arith, some_mem, wide) in
    let start : (0x200000 + k * 4096) % 4096 ≡ 0 = omega arith in
    (
      record {
        pools = (
          IsPool-init memory mem_bitmap_base 0x200000 (k / 8) (k * 4096) bytes refl
              (omega (arith, few)),
          IsPool-init memory (mem_bitmap_base + k / 8) (0x200000 + k * 4096) (u / 8) (u * 4096)
              bytes start (omega (arith, few)),
        );
        low = omega arith;
        below = omega (arith, len-init kernel_map);
      },
      record {
        bytes = IsBytes-init vaddr_map (λ a. bytes (mem_bitmap_base + k / 8 + u / 8 + a));
        aligned = refl;
        low = omega (arith, few, len-init vaddr_map);
        inside = λ i h free. refl;
        unmapped = λ w from to free.
            translate-words m _ w refl
            ∙ unmapped w from (omega (arith, to, few, len-init vaddr_map));
      },
      λ j h. scan_test-init kernel_map j (omega (arith, h, len-init kernel_map)),
      λ j h. scan_test-init user_map j (omega (arith, h, len-init user_map)),
      λ j h. scan_test-init vaddr_map j (omega (arith, h, len-init vaddr_map)),
      omega (arith, inside, len-init kernel_map, len-init user_map),
    )
