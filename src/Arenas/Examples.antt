-- ===== src/Arenas/Examples.antt =====
-- Tests of `sys_malloc` and `sys_free` of kernel/memory.c.
use winx.Base.{
  ℕ, zero, suc, ◌+◌, ◌-◌, ◌%◌, ◌≤◌, ◌<◌, ◌≡◌, refl, false, none, some, [], ◌∷◌, arith, ◌==◌,
  if◌then◌else◌, update, done,
}
use winx.Pages.{pf_kernel, page_size}
use winx.Pages.Init.{mem_pool_init}
use winx.Pages.{mem_pool}
use winx.Pages.Tables.{translate}
use winx.Pages.Bits.{IsFrame}
use winx.Pages.Release.{Restores}
use winx.Pages.Started.{after, layout, virtual, enough, two_pages, heap_start, heap_bits}
use winx.Arenas.{
  init_descs, Arena, Heap, MemBlockDesc, arena_size, arena2block, block2arena, block_desc_init,
  sys_malloc, sys_free,
}
use winx.Arenas.Blocks.{block_list, arena2block_lem, block_desc_init_lem}
use winx.Arenas.RoundTrip.{HasPages, sys_free-sys_malloc_large}
use winx.Arenas.OneBlock.{IsFor, sys_free-sys_malloc_block}
use winx.Arenas.OneArena.{sys_free-sys_malloc_arena}

abbrev no_desc : MemBlockDesc
no_desc = record { block_size = 0; blocks_per_arena = 0; free_list = [] }

abbrev no_arena : Arena
no_arena = record { desc = none; cnt = 0; large = false }

abbrev started : Heap
started = record { pages = after; descs = block_desc_init (λ i. no_desc); arenas = λ a. no_arena }

pool_size_is : after.kernel_pool.pool_size ≡ 0x10000
unfolding mem_pool_init
pool_size_is = refl

two_free : HasPages pf_kernel after 2
two_free = record {
  layout = layout;
  virtual = virtual;
  enough = enough;
  above = omega (arith, heap_start);
  run_start = 0;
  run = two_pages;
}

one_free : HasPages pf_kernel after 1
one_free = record {
  layout = layout;
  virtual = virtual;
  enough = (omega (arith, enough.0), omega (arith, enough.1));
  above = omega (arith, heap_start);
  run_start = 0;
  run = (omega (arith, heap_bits), λ j a b. two_pages.1 j (omega arith) (omega (arith, b)));
}

sys_free-sys_malloc_large_example :
    (h₁ h₂ : Heap) × (ptr : ℕ) × (sys_malloc pf_kernel started 5000 ≡ done (h₁, some ptr))
    × (sys_free pf_kernel h₁ ptr ≡ done h₂)
    × (ptr % page_size ≡ arena_size)
    × Restores pf_kernel after h₂.pages
    × (h₂.descs ≡ started.descs)
sys_free-sys_malloc_large_example =
    sys_free-sys_malloc_large pf_kernel started 5000 two_free (omega arith)
      (omega (arith, pool_size_is)) (omega arith) (omega arith)

smaller : (j : ℕ) → j < 3 → (started.descs j).block_size < 100
unfolding block_desc_init init_descs
smaller zero h = omega arith
smaller (suc zero) h = omega arith
smaller (suc (suc zero)) h = omega arith
smaller (suc (suc (suc j))) h = absurd (omega arith)

large_enough : 100 ≤ (started.descs 3).block_size
unfolding block_desc_init init_descs
large_enough = omega arith

-- 100 bytes get a block of 128.
hundred : IsFor started 100 3
hundred = record { in_range = omega arith; fits = large_enough; smaller = smaller }

sys_free-sys_malloc_arena_example :
    (h₁ h₂ : Heap) × (b : ℕ) × (sys_malloc pf_kernel started 100 ≡ done (h₁, some b))
    × (sys_free pf_kernel h₁ b ≡ done h₂)
    × (b % page_size ≡ arena_size)
    × ((h₁.descs 3).free_list
        ≡ block_list
            (started.descs 3).block_size
            (block2arena b)
            1
            ((started.descs 3).blocks_per_arena - 1))
    × ((p : ℕ) × (translate h₁.pages (block2arena b) ≡ some p)
        × IsFrame (mem_pool pf_kernel h₂.pages) p false)
    × Restores pf_kernel after h₂.pages
    × ((i : ℕ) → h₂.descs i ≡ started.descs i)
sys_free-sys_malloc_arena_example =
    sys_free-sys_malloc_arena pf_kernel started 100 3 one_free (omega arith) (omega arith)
      (omega (arith, pool_size_is)) hundred (block_desc_init_lem (λ i. no_desc) 3 (omega arith)).0
      (block_desc_init_lem (λ i. no_desc) 3 (omega arith)).1

arena2block_lem_example :
    (block2arena (arena2block (block_desc_init (λ i. no_desc) 3) 0xc0100000 5) ≡ 0xc0100000)
    × (0xc0100000 + arena_size ≤ arena2block (block_desc_init (λ i. no_desc) 3) 0xc0100000 5)
    × (arena2block (block_desc_init (λ i. no_desc) 3) 0xc0100000 5
          + (block_desc_init (λ i. no_desc) 3).block_size
        ≤ 0xc0100000 + page_size)
    × ((j : ℕ)
        → j < 5
        → arena2block (block_desc_init (λ i. no_desc) 3) 0xc0100000 j
            + (block_desc_init (λ i. no_desc) 3).block_size
          ≤ arena2block (block_desc_init (λ i. no_desc) 3) 0xc0100000 5)
arena2block_lem_example =
    arena2block_lem (block_desc_init (λ i. no_desc) 3) 0xc0100000 5
      (block_desc_init_lem (λ i. no_desc) 3 (omega arith)).0 refl
      (omega (arith, (block_desc_init_lem (λ i. no_desc) 3 (omega arith)).3))

-- a heap with two free blocks of an arena that has others in use
abbrev in_use : Heap
in_use = record {
  pages = after;
  descs = update started.descs 3 (record {
    block_size = 128;
    blocks_per_arena = 31;
    free_list = 0xc010008c ∷ 0xc010000c ∷ [];
  });
  arenas = λ a. record { desc = some 3; cnt = 2; large = false };
}

third : IsFor in_use 100 3
third = record {
  in_range = omega arith;
  fits = omega arith;
  smaller = λ j h. ground (arith, smaller j h);
}

sys_free-sys_malloc_block_example :
    (h₁ h₂ : Heap) × (sys_malloc pf_kernel in_use 100 ≡ done (h₁, some 0xc010008c))
    × (sys_free pf_kernel h₁ 0xc010008c ≡ done h₂)
    × ((h₁.descs 3).free_list ≡ 0xc010000c ∷ [])
    × (h₂.pages ≡ after)
    × ((i : ℕ)
        → h₂.descs i ≡ (
            if i == 3
            then record (in_use.descs 3) { free_list = 0xc010000c ∷ 0xc010008c ∷ [] }
            else in_use.descs i))
    × ((a : ℕ) → h₂.arenas a ≡ in_use.arenas a)
sys_free-sys_malloc_block_example =
    sys_free-sys_malloc_block pf_kernel in_use 100 3 0xc010008c 2 (0xc010000c ∷ []) (omega arith)
      (omega arith) (omega (arith, pool_size_is)) third refl (omega arith) refl refl (omega arith)
      (omega arith) (omega arith)
