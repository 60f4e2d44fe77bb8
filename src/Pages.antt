-- ===== src/Pages.antt =====
-- kernel/memory.c below its arenas: the pools of physical pages, the virtual addresses in use, and
-- the page tables. What is called between `lock_acquire` and `lock_release` stands without them.
-- The words of the window behind which the page directory maps itself are `words`, by address. A
-- mask is written as arithmetic: `x & 1` is `x % 2`, `x & 0xfffff000` is `x / 4096 * 4096`,
-- `x | 7` is `x / 8 * 8 + 7`.
pub mod Tables
pub mod Bits
pub mod Round
pub mod Mapping
pub mod Alloc
pub mod Free
pub mod Unmap
pub mod Release
pub mod Init
pub mod Get
pub mod Started
mod Examples
use winx.Base.{
  ℕ, zero, suc, ◌+◌, ◌-◌, ◌*◌, ◌/◌, ◌%◌, ◌^◌, ◌≤◌, ◌<◌, min, bit_and, bit_or, ◌≡◌, refl, sym, ap,
  ap₂, subst, ◌∙◌, fun_ext, ◌≢◌, ◌↔◌, ◌⊎◌, inl, inr, Bool, true, false, not, ◌&&◌, ◌||◌, Option,
  none, some, List, [], ◌∷◌, ◌++◌, arith, ltb, leb, ◌==◌, if◌then◌else◌, Bool-cases, Option-cases,
  ==→eq, ==-refl, ne→==, lt→ltb, le→ltb, length, get_or, length-append, update, slice, Run, done,
  halted, unfinished, ◌>>=◌, ◌>>◌, assert, le→leb, lt→leb, leb→le, leb→lt, ltb→lt, ltb→le, Ends,
  Ends->>=, Ends-assert, Ends-any,
}
use winx.Bitmap
use winx.Bitmap.{Bitmap}

abbrev pub page_size : ℕ
page_size = 4096

pub record Pool : Type 0 where
  pub pool_bitmap : Bitmap
  pub phy_addr_start : ℕ
  pub pool_size : ℕ

pub record VirtualAddr : Type 0 where
  pub vaddr_bitmap : Bitmap
  pub vaddr_start : ℕ

pub data PoolFlags : Type 0 where
  pf_kernel : PoolFlags
  pf_user : PoolFlags

-- `userprog_vaddr` is that of the running thread, as are the page tables.
pub record Pages : Type 0 where
  pub kernel_pool : Pool
  pub user_pool : Pool
  pub kernel_vaddr : VirtualAddr
  pub userprog_vaddr : VirtualAddr
  pub words : ℕ → ℕ

-- `pf & PF_KERNEL ? &kernel_pool : &user_pool`
abbrev pub mem_pool : PoolFlags → Pages → Pool
mem_pool pf_kernel m = m.kernel_pool
mem_pool pf_user m = m.user_pool

abbrev pub with_pool : PoolFlags → Pages → Pool → Pages
with_pool pf_kernel m pool = record m { kernel_pool = pool }
with_pool pf_user m pool = record m { user_pool = pool }

abbrev pub vaddr_of : PoolFlags → Pages → VirtualAddr
vaddr_of pf_kernel m = m.kernel_vaddr
vaddr_of pf_user m = m.userprog_vaddr

abbrev pub with_vaddr : PoolFlags → Pages → Bitmap → Pages
with_vaddr pf_kernel m btmp = record m {
  kernel_vaddr = record m.kernel_vaddr { vaddr_bitmap = btmp };
}
with_vaddr pf_user m btmp = record m {
  userprog_vaddr = record m.userprog_vaddr { vaddr_bitmap = btmp };
}

-- `while (cnt < pg_cnt) bitmap_set(btmp, bit_idx_start + cnt++, value)`, with `left` to go
pub set_bits : ℕ → Bitmap → ℕ → ℕ → Run Bitmap
set_bits zero btmp bit_idx value = done btmp
set_bits (suc left) btmp bit_idx value = do
  btmp' ← Bitmap.set btmp bit_idx value
  set_bits left btmp' (bit_idx + 1) value

-- A process has no address above the kernel's space.
abbrev pub in_space : PoolFlags → ℕ → Bool
in_space pf_kernel vaddr = true
in_space pf_user vaddr = ltb vaddr (0xc0000000 - page_size)

-- `none` is NULL.
pub vaddr_get : PoolFlags → Pages → ℕ → Run (Pages × Option ℕ)
vaddr_get pf m pg_cnt = Bitmap.scan (vaddr_of pf m).vaddr_bitmap pg_cnt >>= elim [
  | none ↦ done (m, none)
  | some bit_idx_start ↦ do
    btmp ← set_bits pg_cnt (vaddr_of pf m).vaddr_bitmap bit_idx_start 1
    let vaddr_start = ((vaddr_of pf m).vaddr_start + bit_idx_start * page_size) % 2 ^ 32
    assert (in_space pf vaddr_start)
    done (with_vaddr pf m btmp, some vaddr_start)
]

pub palloc : Pool → Run (Pool × Option ℕ)
palloc pool = Bitmap.scan pool.pool_bitmap 1 >>= elim [
  | none ↦ done (pool, none)
  | some bit_idx ↦ do
    btmp ← Bitmap.set pool.pool_bitmap bit_idx 1
    done (
      record pool { pool_bitmap = btmp },
      some ((bit_idx * page_size + pool.phy_addr_start) % 2 ^ 32),
    )
]

unfoldable pub pde_ptr : ℕ → ℕ
pde_ptr vaddr = 0xfffff000 + vaddr / 2 ^ 22 * 4

unfoldable pub pte_ptr : ℕ → ℕ
pte_ptr vaddr = 0xffc00000 + vaddr / 2 ^ 22 * 2 ^ 12 + vaddr / 2 ^ 12 % 2 ^ 10 * 4

abbrev pub is_present : ℕ → Bool
is_present entry = entry % 2 == 1

-- `page_phyaddr | PG_US_U | PG_RW_W | PG_P_1`
abbrev pub present_entry : ℕ → ℕ
present_entry page_phyaddr = page_phyaddr / 8 * 8 + 7

-- `memset(page, 0, PG_SIZE)` on words
abbrev pub clear_page : (ℕ → ℕ) → ℕ → ℕ → ℕ
clear_page words page a = if leb page a && ltb a (page + page_size) then 0 else words a

-- `(uint32_t)palloc(&kernel_pool)`
abbrev pub address_of : Option ℕ → ℕ
address_of none = 0
address_of (some page_phyaddr) = page_phyaddr

pub page_table_add : Pages → ℕ → ℕ → Run Pages
page_table_add m vaddr page_phyaddr =
    if is_present (m.words (pde_ptr vaddr))
    then (do
      assert (not (is_present (m.words (pte_ptr vaddr))))
      done (record m { words = update m.words (pte_ptr vaddr) (present_entry page_phyaddr) }))
    else (do
      (pool, pde_phyaddr) ← palloc m.kernel_pool
      let words = update m.words (pde_ptr vaddr) (present_entry (address_of pde_phyaddr))
      let words' = clear_page words (pte_ptr vaddr / 4096 * 4096)
      assert (not (is_present (words' (pte_ptr vaddr))))
      done (record m {
        kernel_pool = pool;
        words = update words' (pte_ptr vaddr) (present_entry page_phyaddr);
      }))

-- The loop of `malloc_page`, with `cnt` pages to go, and whether it finds them all. What it has done
-- until then stays.
pub map_pages : ℕ → PoolFlags → Pages → ℕ → Run (Pages × Bool)
map_pages zero pf m vaddr = done (m, true)
map_pages (suc cnt) pf m vaddr = palloc (mem_pool pf m) >>= λ (pool, found). elim found [
  | none ↦ done (with_pool pf m pool, false)
  | some page_phyaddr ↦ do
    m' ← page_table_add (with_pool pf m pool) vaddr page_phyaddr
    map_pages cnt pf m' ((vaddr + page_size) % 2 ^ 32)
]

pub malloc_page : PoolFlags → Pages → ℕ → Run (Pages × Option ℕ)
malloc_page pf m pg_cnt = do
  assert (ltb 0 pg_cnt && ltb pg_cnt 3840)
  (m', found) ← vaddr_get pf m pg_cnt
  elim found [
    | none ↦ done (m', none)
    | some vaddr_start ↦ map_pages pg_cnt pf m' vaddr_start >>= λ (m'', mapped).
        done (m'', if mapped then some vaddr_start else none)
  ]

pub addr_v2p : Pages → ℕ → ℕ
addr_v2p m vaddr = m.words (pte_ptr vaddr) / 4096 * 4096 + vaddr % 4096

pub free_page : Pool → ℕ → Run Pool
free_page pool pg_phy_addr = do
  btmp ←
      Bitmap.set pool.pool_bitmap
        ((pg_phy_addr + 2 ^ 32 - pool.phy_addr_start) % 2 ^ 32 / page_size) 0
  done (record pool { pool_bitmap = btmp })

pub pfree : Pages → ℕ → Run Pages
pfree m pg_phy_addr =
    if leb m.user_pool.phy_addr_start pg_phy_addr
    then (do pool ← free_page m.user_pool pg_phy_addr; done (record m { user_pool = pool }))
    else (do pool ← free_page m.kernel_pool pg_phy_addr; done (record m { kernel_pool = pool }))

pub page_table_pte_remove : Pages → ℕ → Pages
page_table_pte_remove m vaddr = record m {
  words = update m.words (pte_ptr vaddr) (m.words (pte_ptr vaddr) / 2 * 2);
}

pub vaddr_remove : PoolFlags → Pages → ℕ → ℕ → Run Pages
vaddr_remove pf m vaddr pg_cnt = do
  btmp ←
      set_bits pg_cnt (vaddr_of pf m).vaddr_bitmap
        ((vaddr + 2 ^ 32 - (vaddr_of pf m).vaddr_start) % 2 ^ 32 / page_size) 0
  done (with_vaddr pf m btmp)

-- the test of a page in the loops of `mfree_page`: the first page says which pool all come from
abbrev pub in_pool : Bool → Pages → ℕ → Bool
in_pool true m pg_phy_addr = leb m.user_pool.phy_addr_start pg_phy_addr
in_pool false m pg_phy_addr =
    leb m.kernel_pool.phy_addr_start pg_phy_addr && ltb pg_phy_addr m.user_pool.phy_addr_start

pub unmap_pages : ℕ → Bool → Pages → ℕ → Run Pages
unmap_pages zero of_user m vaddr = done m
unmap_pages (suc left) of_user m vaddr = do
  let pg_phy_addr = addr_v2p m vaddr
  assert (pg_phy_addr % page_size == 0 && in_pool of_user m pg_phy_addr)
  m' ← pfree m pg_phy_addr
  unmap_pages left of_user (page_table_pte_remove m' vaddr) ((vaddr + page_size) % 2 ^ 32)

pub mfree_page : PoolFlags → Pages → ℕ → ℕ → Run Pages
mfree_page pf m vaddr pg_cnt = do
  assert (leb 1 pg_cnt && vaddr % page_size == 0)
  let pg_phy_addr = addr_v2p m vaddr
  assert (pg_phy_addr % page_size == 0 && leb 0x102000 pg_phy_addr)
  m' ← unmap_pages pg_cnt (leb m.user_pool.phy_addr_start pg_phy_addr) m vaddr
  vaddr_remove pf m' vaddr pg_cnt
