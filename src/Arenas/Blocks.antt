-- ===== src/Arenas/Blocks.antt =====
-- The blocks of an arena of kernel/memory.c, and the loops over them.
use winx.Base.{
  ℕ, zero, suc, ◌+◌, ◌-◌, ◌*◌, ◌/◌, ◌%◌, ◌^◌, ◌≤◌, ◌<◌, ◌≡◌, refl, sym, ap, ◌∙◌, true, false, List,
  [], ◌∷◌, ◌++◌, arith, ◌==◌, ==-refl, ne→==, done,
}
use mathlib.Core.List.{append_assoc, append-nil}
use winx.Thread
use winx.Pages.{page_size}
use winx.Links.Segments.{elem_find-append}
use winx.Arenas.{
  MemBlockDesc, arena_size, arena2block, block2arena, init_descs, block_desc_init, desc_cnt, carve,
  uncarve, without,
}

-- The blocks fit into a page behind the arena.
pub record IsDesc (desc : MemBlockDesc) : Type 0 where
  pub sized : 0 < desc.block_size
  pub some_blocks : 0 < desc.blocks_per_arena
  pub fits : arena_size + desc.blocks_per_arena * desc.block_size ≤ page_size

abbrev pub desc_of : ℕ → ℕ → List ℕ → MemBlockDesc
desc_of block_size blocks_per_arena free_list = record {
  block_size = block_size;
  blocks_per_arena = blocks_per_arena;
  free_list = free_list;
}

-- a block ends before the next one starts
step : (j i s : ℕ) → j < i → j * s + s ≤ i * s
step j i s h = grind arith

-- Where the blocks of a descriptor fit into a page, every block of an arena at the start of a page lies
-- in the page behind the arena itself and is found back from its address, and each block before it
-- ends where it starts or earlier.
pub arena2block_lem :
    (desc : MemBlockDesc) (a i : ℕ)
    → IsDesc desc
    → a % page_size ≡ 0
    → i < desc.blocks_per_arena
    → (block2arena (arena2block desc a i) ≡ a)
      × (a + arena_size ≤ arena2block desc a i)
      × (arena2block desc a i + desc.block_size ≤ a + page_size)
      × ((j : ℕ) → j < i → arena2block desc a j + desc.block_size ≤ arena2block desc a i)
arena2block_lem desc a i d aligned h =
    let last = step i desc.blocks_per_arena desc.block_size h in
    (
      omega (arith, last, d.fits, d.sized, aligned),
      omega arith,
      omega (arith, last, d.fits),
      λ j less. omega (arith, step j i desc.block_size less),
    )

pub few_blocks : (desc : MemBlockDesc) → IsDesc desc → desc.blocks_per_arena ≤ page_size
few_blocks desc d = grind (arith, d.sized, d.fits)

-- `n` blocks from block `i` on
abbrev pub block_list : ℕ → ℕ → ℕ → ℕ → List ℕ
block_list block_size a i zero = []
block_list block_size a i (suc n) =
    (a + arena_size + i * block_size) ∷ block_list block_size a (i + 1) n

-- no block before them is among them
block_list-out :
    (s a i n k : ℕ)
    → 0 < s
    → k < i
    → Thread.elem_find (block_list s a i n) (a + arena_size + k * s) ≡ false
block_list-out s a i zero k pos_size h = refl
block_list-out s a i (suc n) k pos_size h =
    let rest = block_list-out s a (i + 1) n k pos_size (omega (arith, h)) in
    let other : (a + arena_size + i * s == a + arena_size + k * s) ≡ false =
      ne→== (a + arena_size + i * s) (a + arena_size + k * s)
        (λ e. absurd (omega (arith, e, step k i s h, pos_size))) in
    rw other rest

pub carve_lem :
    (n a i s c : ℕ) (xs : List ℕ)
    → 0 < s
    → ((k : ℕ) → i ≤ k → Thread.elem_find xs (a + arena_size + k * s) ≡ false)
    → carve n a i (desc_of s c xs) ≡ done (desc_of s c (xs ++ block_list s a i n))
unfolding carve
carve_lem zero a i s c xs pos_size out = ap (λ zs. done (desc_of s c zs)) (sym (append-nil xs))
carve_lem (suc n) a i s c xs pos_size out =
    let b = a + arena_size + i * s in
    rw (out i (omega arith)) (
      carve_lem n a (i + 1) s c (xs ++ b ∷ []) pos_size (λ k h.
        let other : (b == a + arena_size + k * s) ≡ false =
          ne→== b (a + arena_size + k * s)
            (λ e. absurd (omega (arith, e, step i k s (omega (arith, h)), pos_size))) in
        elem_find-append xs (b ∷ []) (a + arena_size + k * s)
        ∙ rw (out k (omega (arith, h)), other) refl)
      ∙ ap (λ zs. done (desc_of s c zs)) (append_assoc xs (b ∷ []) (block_list s a (i + 1) n)))

pub uncarve_lem :
    (n a i s c : ℕ) → uncarve n a i (desc_of s c (block_list s a i n)) ≡ done (desc_of s c [])
unfolding uncarve
uncarve_lem zero a i s c = refl
uncarve_lem (suc n) a i s c = rw (==-refl (a + arena_size + i * s)) (uncarve_lem n a (i + 1) s c)

-- Only the last element is taken out.
without-last : (xs : List ℕ) (b : ℕ) → Thread.elem_find xs b ≡ false → without (xs ++ b ∷ []) b ≡ xs
without-last [] b out = rw (==-refl b) refl
without-last (x ∷ xs) b out = ground (arith, without-last xs b, out)

-- All blocks are taken out, where the first one was put behind the others.
pub uncarve-all :
    (n a s c : ℕ)
    → 0 < s
    → uncarve (suc n) a 0 (desc_of s c (block_list s a 1 n ++ (a + arena_size + 0 * s) ∷ []))
      ≡ done (desc_of s c [])
unfolding uncarve
uncarve-all n a s c pos_size =
    let b = a + arena_size + 0 * s in
    let out = block_list-out s a 1 n 0 pos_size (omega arith) in
    let found : Thread.elem_find (block_list s a 1 n ++ b ∷ []) b ≡ true =
      elem_find-append (block_list s a 1 n) (b ∷ []) b ∙ rw (out, ==-refl b) refl in
    rw (found, without-last (block_list s a 1 n) b out) (uncarve_lem n a 1 s c)

-- `block_desc_init`: seven sizes of blocks, from 16 bytes on, with no block free.
pub block_desc_init_lem :
    (descs : ℕ → MemBlockDesc) (i : ℕ)
    → i < desc_cnt
    → IsDesc (block_desc_init descs i)
      × ((block_desc_init descs i).free_list ≡ [])
      × ((block_desc_init descs i).block_size ≡ 16 * 2 ^ i)
      × ((block_desc_init descs i).blocks_per_arena ≡ (page_size - arena_size) / (16 * 2 ^ i))
unfolding block_desc_init init_descs
block_desc_init_lem descs zero h = (
  record { sized = omega arith; some_blocks = omega arith; fits = omega arith },
  refl,
  refl,
  refl,
)
block_desc_init_lem descs (suc zero) h = (
  record { sized = omega arith; some_blocks = omega arith; fits = omega arith },
  refl,
  refl,
  refl,
)
block_desc_init_lem descs (suc (suc zero)) h = (
  record { sized = omega arith; some_blocks = omega arith; fits = omega arith },
  refl,
  refl,
  refl,
)
block_desc_init_lem descs (suc (suc (suc zero))) h = (
  record { sized = omega arith; some_blocks = omega arith; fits = omega arith },
  refl,
  refl,
  refl,
)
block_desc_init_lem descs (suc (suc (suc (suc zero)))) h = (
  record { sized = omega arith; some_blocks = omega arith; fits = omega arith },
  refl,
  refl,
  refl,
)
block_desc_init_lem descs (suc (suc (suc (suc (suc zero))))) h = (
  record { sized = omega arith; some_blocks = omega arith; fits = omega arith },
  refl,
  refl,
  refl,
)
block_desc_init_lem descs (suc (suc (suc (suc (suc (suc zero)))))) h = (
  record { sized = omega arith; some_blocks = omega arith; fits = omega arith },
  refl,
  refl,
  refl,
)
block_desc_init_lem descs (suc (suc (suc (suc (suc (suc (suc i))))))) h = absurd (omega (arith, h))
