-- ===== src/Pages/Get.antt =====
-- `get_kernel_pages`, `get_user_pages`, `get_a_page`, `get_a_page_without_opvaddrbitmap` and
-- `free_a_phy_page` of kernel/memory.c, without their locks. What stands in a page is not part of
-- the model: of `memset` only its assertion that the pointer is not NULL remains.
use winx.Base.{
  ℕ, ◌+◌, ◌-◌, ◌/◌, ◌%◌, ◌^◌, ◌≡◌, refl, Bool, true, false, Option, none, some, ltb, Run, done,
  halted, ◌>>=◌, ◌>>◌, assert,
}
use winx.Base.{Run}
use winx.Bitmap
use winx.Bitmap.{Bitmap}
use winx.Pages.{
  Pages, PoolFlags, pf_kernel, pf_user, mem_pool, with_pool, vaddr_of, with_vaddr, palloc,
  page_table_add, page_size, malloc_page, pfree,
}

pub get_kernel_pages : Pages → ℕ → Run (Pages × Option ℕ)
get_kernel_pages m pg_cnt = malloc_page pf_kernel m pg_cnt

pub get_user_pages : Pages → ℕ → Run (Pages × Option ℕ)
get_user_pages m pg_cnt = malloc_page pf_user m pg_cnt >>= λ (m', vaddr). elim vaddr [
  | none ↦ halted
  | some v ↦ done (m', some v)
]

-- the tests of `get_a_page`, with whether the running thread is a process, and the bit that it sets
abbrev pub own_page : PoolFlags → Bool → ℕ → Bool
own_page pf_user true bit_idx = true
own_page pf_user false bit_idx = false
own_page pf_kernel true bit_idx = false
own_page pf_kernel false bit_idx = ltb 0 bit_idx

pub get_a_page_without_opvaddrbitmap : PoolFlags → Pages → ℕ → Run (Pages × Option ℕ)
get_a_page_without_opvaddrbitmap pf m vaddr = palloc (mem_pool pf m) >>= λ (pool, found).
    elim found [
      | none ↦ done (with_pool pf m pool, none)
      | some page_phyaddr ↦ do
        m' ← page_table_add (with_pool pf m pool) vaddr page_phyaddr
        done (m', some vaddr)
    ]

-- The end of `get_a_page` is that of `get_a_page_without_opvaddrbitmap`.
pub get_a_page : PoolFlags → Bool → Pages → ℕ → Run (Pages × Option ℕ)
get_a_page pf is_process m vaddr = do
  let bit_idx = (vaddr + 2 ^ 32 - (vaddr_of pf m).vaddr_start) % 2 ^ 32 / page_size
  assert (own_page pf is_process bit_idx)
  btmp ← Bitmap.set (vaddr_of pf m).vaddr_bitmap bit_idx 1
  get_a_page_without_opvaddrbitmap pf (with_vaddr pf m btmp) vaddr

-- the text of `pfree`
pub free_a_phy_page : Pages → ℕ → Run Pages
free_a_phy_page m pg_phy_addr = pfree m pg_phy_addr

-- `get_a_page` halts where a kernel thread asks for a page of a process, or a process for the
-- kernel's.
pub get_a_page-halted :
    (m : Pages) (vaddr : ℕ)
    → (get_a_page pf_user false m vaddr ≡ halted) × (get_a_page pf_kernel true m vaddr ≡ halted)
unfolding get_a_page
get_a_page-halted m vaddr = (refl, refl)
