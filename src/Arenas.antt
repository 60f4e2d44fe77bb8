-- ===== src/Arenas.antt =====
-- `sys_malloc` and `sys_free` of kernel/memory.c, over the pages of Pages, without their locks. The
-- free lists are sequences, as Links shows that they are on the heap. `descs` are the descriptors of
-- the running thread, `arenas` what stands at the start of a page. What else is in a block is not
-- part of the model.
pub mod Blocks
pub mod RoundTrip
pub mod OneBlock
pub mod OneArena
mod Examples
use winx.Base.{
  ℕ, zero, suc, ◌+◌, ◌-◌, ◌*◌, ◌/◌, ◌%◌, ◌^◌, ◌≤◌, ◌<◌, min, bit_and, bit_or, ◌≡◌, refl, sym, ap,
  ap₂, subst, ◌∙◌, fun_ext, ◌≢◌, ◌↔◌, ◌⊎◌, inl, inr, Bool, true, false, not, ◌&&◌, ◌||◌, Option,
  none, some, List, [], ◌∷◌, ◌++◌, arith, ltb, leb, ◌==◌, if◌then◌else◌, Bool-cases, Option-cases,
  ==→eq, ==-refl, ne→==, lt→ltb, le→ltb, length, get_or, length-append, update, slice, Run, done,
  halted, unfinished, ◌>>=◌, ◌>>◌, assert, le→leb, lt→leb, leb→le, leb→lt, ltb→lt, ltb→le, Ends,
  Ends->>=, Ends-assert, Ends-any,
}
use winx.Base.{Run}
use winx.Thread
use winx.Pages.{Pages, PoolFlags, pf_kernel, pf_user, mem_pool, page_size, malloc_page, mfree_page}
use winx.Pages.Init.{k_heap_start}

-- An arena's descriptor is its index; `none` is NULL.
pub record Arena : Type 0 where
  pub desc : Option ℕ
  pub cnt : ℕ
  pub large : Bool

pub record MemBlockDesc : Type 0 where
  pub block_size : ℕ
  pub blocks_per_arena : ℕ
  pub free_list : List ℕ

pub record Heap : Type 0 where
  pub pages : Pages
  pub descs : ℕ → MemBlockDesc
  pub arenas : ℕ → Arena

abbrev pub desc_cnt : ℕ
desc_cnt = 7

-- `sizeof(struct arena)`
abbrev pub arena_size : ℕ
arena_size = 12

pub init_descs : ℕ → ℕ → ℕ → (ℕ → MemBlockDesc) → ℕ → MemBlockDesc
init_descs zero desc_idx block_size desc_array = desc_array
init_descs (suc left) desc_idx block_size desc_array =
    init_descs left (desc_idx + 1) (block_size * 2 % 2 ^ 16) (
      update desc_array desc_idx (record {
        block_size = block_size;
        blocks_per_arena = (page_size - arena_size) / block_size;
        free_list = [];
      }))

pub block_desc_init : (ℕ → MemBlockDesc) → ℕ → MemBlockDesc
block_desc_init desc_array = init_descs desc_cnt 0 16 desc_array

-- the address of a block of the arena at `a`
abbrev pub arena2block : MemBlockDesc → ℕ → ℕ → ℕ
arena2block desc a idx = a + arena_size + idx * desc.block_size

abbrev pub block2arena : ℕ → ℕ
block2arena b = b / page_size * page_size

-- the loop that looks for the smallest blocks that are large enough
pub choose_desc : ℕ → (ℕ → MemBlockDesc) → ℕ → ℕ → ℕ
choose_desc zero descs size desc_idx = desc_idx
choose_desc (suc left) descs size desc_idx =
    let rest = choose_desc left descs size (desc_idx + 1) in
    if leb size (descs desc_idx).block_size then desc_idx else rest

-- the loop that puts the blocks of a new arena into the free list
unfoldable pub carve : ℕ → ℕ → ℕ → MemBlockDesc → Run MemBlockDesc
carve zero a block_idx desc = done desc
carve (suc left) a block_idx desc = do
  let b = arena2block desc a block_idx
  assert (not (Thread.elem_find desc.free_list b))
  carve left a (block_idx + 1) (record desc { free_list = desc.free_list ++ b ∷ [] })

-- The first free block is taken. There is one, so that `[]` does not occur.
pub take_block : Heap → ℕ → Run (Heap × Option ℕ)
take_block h desc_idx = elim (h.descs desc_idx).free_list [
  | [] ↦ halted
  | b ∷ rest ↦
      let a = block2arena b in
      done (
        record h {
          descs = update h.descs desc_idx (record (h.descs desc_idx) { free_list = rest });
          arenas =
              update h.arenas a
                (record (h.arenas a) { cnt = ((h.arenas a).cnt + 2 ^ 32 - 1) % 2 ^ 32 });
        },
        some b,
      )
]

-- a new page for blocks, where no block is free
pub add_arena : PoolFlags → Heap → ℕ → Run (Heap × Bool)
add_arena pf h desc_idx = malloc_page pf h.pages 1 >>= λ (pages, found). elim found [
  | none ↦ done (record h { pages = pages }, false)
  | some a ↦ do
    desc ← carve (h.descs desc_idx).blocks_per_arena a 0 (h.descs desc_idx)
    done (
      record {
        pages = pages;
        descs = update h.descs desc_idx desc;
        arenas = update h.arenas a (record {
          desc = some desc_idx;
          cnt = (h.descs desc_idx).blocks_per_arena;
          large = false;
        });
      },
      true,
    )
]

pub malloc_block : PoolFlags → Heap → ℕ → Run (Heap × Option ℕ)
malloc_block pf h desc_idx = elim (h.descs desc_idx).free_list [
  | [] ↦
      add_arena pf h desc_idx >>= λ (h', ok). if ok then take_block h' desc_idx else done (h', none)
  | b ∷ rest ↦ take_block h desc_idx
]

pub malloc_large : PoolFlags → Heap → ℕ → Run (Heap × Option ℕ)
malloc_large pf h size =
    let page_cnt = (size + arena_size + page_size - 1) % 2 ^ 32 / page_size in
    malloc_page pf h.pages page_cnt >>= λ (pages, found). elim found [
      | none ↦ done (record h { pages = pages }, none)
      | some a ↦ done (
        record h {
          pages = pages;
          arenas = update h.arenas a (record { desc = none; cnt = page_cnt; large = true });
        },
        some (a + arena_size),
      )
    ]

pub sys_malloc : PoolFlags → Heap → ℕ → Run (Heap × Option ℕ)
sys_malloc pf h size =
    if not (ltb 0 size && ltb size (mem_pool pf h.pages).pool_size)
    then done (h, none)
    else if ltb 1024 size
    then malloc_large pf h size
    else malloc_block pf h (choose_desc desc_cnt h.descs size 0)

-- `list_remove` on the sequence
abbrev pub without : List ℕ → ℕ → List ℕ
without [] b = []
without (x ∷ xs) b = if x == b then xs else x ∷ without xs b

-- the loop that takes the blocks of an arena out of the free list
pub uncarve : ℕ → ℕ → ℕ → MemBlockDesc → Run MemBlockDesc
uncarve zero a block_idx desc = done desc
uncarve (suc left) a block_idx desc = do
  let b = arena2block desc a block_idx
  assert (Thread.elem_find desc.free_list b)
  uncarve left a (block_idx + 1) (record desc { free_list = without desc.free_list b })

pub free_block : PoolFlags → Heap → ℕ → ℕ → Run Heap
free_block pf h b desc_idx =
    let a = block2arena b in
    let desc = record (h.descs desc_idx) { free_list = (h.descs desc_idx).free_list ++ b ∷ [] } in
    let cnt = ((h.arenas a).cnt + 1) % 2 ^ 32 in
    let arenas = update h.arenas a (record (h.arenas a) { cnt = cnt }) in
    if cnt == desc.blocks_per_arena
    then (do
      desc' ← uncarve desc.blocks_per_arena a 0 desc
      pages ← mfree_page pf h.pages a 1
      done (record { pages = pages; descs = update h.descs desc_idx desc'; arenas = arenas }))
    else done (record h { descs = update h.descs desc_idx desc; arenas = arenas })

-- `free_block` through the NULL of an arena that is not large is a fault.
pub sys_free : PoolFlags → Heap → ℕ → Run Heap
sys_free pf h ptr = do
  assert (not (ptr == 0))
  assert (elim pf [ pf_kernel ↦ leb k_heap_start ptr | pf_user ↦ true ])
  let a = block2arena ptr
  elim (h.arenas a).desc [
    | none ↦
        if (h.arenas a).large
        then (do
          pages ← mfree_page pf h.pages a (h.arenas a).cnt
          done (record h { pages = pages }))
        else halted
    | some desc_idx ↦ free_block pf h ptr desc_idx
  ]
