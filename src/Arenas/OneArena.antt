-- ===== src/Arenas/OneArena.antt =====
-- `sys_malloc` of kernel/memory.c where no block of the size is free, and `sys_free` of what it
-- gives: a page becomes an arena and is given back.
use winx.Base.{
  ℕ, suc, ◌+◌, ◌-◌, ◌*◌, ◌%◌, ◌^◌, ◌≤◌, ◌<◌, ◌≡◌, refl, sym, ap, ap₂, subst, ◌∙◌, inl, inr, true,
  false, some, List, [], ◌∷◌, ◌++◌, arith, ◌==◌, Bool-cases, ==→eq, ==-refl, update, done,
}
use winx.Pages.{Pages, PoolFlags, mem_pool, page_size, malloc_page, mfree_page}
use winx.Pages.Tables.{translate}
use winx.Pages.Bits.{IsFrame}
use winx.Pages.Release.{Restores, mfree_page-malloc_page}
use winx.Arenas.{
  Heap, MemBlockDesc, arena_size, block2arena, carve, uncarve, take_block, add_arena, malloc_block,
  sys_malloc, free_block, sys_free,
}
use winx.Arenas.Blocks.{IsDesc, desc_of, block_list, carve_lem, uncarve-all, few_blocks}
use winx.Arenas.RoundTrip.{HasPages, is_heap_address, heap_address}
use winx.Arenas.OneBlock.{IsFor, taken, sys_malloc-block, take_block-eq, sys_free-block}

abbrev with_arena : Heap → ℕ → ℕ → Pages → MemBlockDesc → Heap
with_arena h k a pages desc = record {
  pages = pages;
  descs = update h.descs k desc;
  arenas = update h.arenas a (record { desc = some k; cnt = desc.blocks_per_arena; large = false });
}

add_arena-eq :
    (pf : PoolFlags) (h : Heap) (k a s c : ℕ) (xs : List ℕ) (pages : Pages)
    → h.descs k ≡ desc_of s c []
    → malloc_page pf h.pages 1 ≡ done (pages, some a)
    → carve c a 0 (desc_of s c []) ≡ done (desc_of s c xs)
    → add_arena pf h k ≡ done (with_arena h k a pages (desc_of s c xs), true)
unfolding add_arena
add_arena-eq pf h k a s c xs pages d e e' = rw (e, d, e') refl

malloc_block-new :
    (pf : PoolFlags) (h h' : Heap) (k : ℕ)
    → (h.descs k).free_list ≡ []
    → add_arena pf h k ≡ done (h', true)
    → malloc_block pf h k ≡ take_block h' k
unfolding malloc_block
malloc_block-new pf h h' k e e' = rw (malloc_block, e, e') refl

free_block-all :
    (pf : PoolFlags) (h : Heap) (b k s c : ℕ) (xs : List ℕ) (pages : Pages)
    → h.descs k ≡ desc_of s c xs
    → ((h.arenas (block2arena b)).cnt + 1) % 2 ^ 32 ≡ c
    → uncarve c (block2arena b) 0 (desc_of s c (xs ++ b ∷ [])) ≡ done (desc_of s c [])
    → mfree_page pf h.pages (block2arena b) 1 ≡ done pages
    → (h' : Heap) × (free_block pf h b k ≡ done h')
      × (h'.pages ≡ pages)
      × (h'.descs ≡ update h.descs k (desc_of s c []))
unfolding free_block
free_block-all pf h b k s c xs pages d full e e' = (
  record {
    pages = pages;
    descs = update h.descs k (desc_of s c []);
    arenas =
        update h.arenas (block2arena b) (record (h.arenas (block2arena b)) {
          cnt = ((h.arenas (block2arena b)).cnt + 1) % 2 ^ 32;
        });
  },
  rw (d, full, ==-refl c, e, e') refl,
  refl,
  refl,
)

module _ (h : Heap) (k a s n : ℕ) (pages : Pages) (aligned : a % page_size ≡ 0)
    (few : n < 2 ^ 31) where
  abbrev block_zero : ℕ
  block_zero = a + arena_size + 0 * s

  abbrev others : List ℕ
  others = block_list s a 1 n

  carved : Heap
  carved = with_arena h k a pages (desc_of s (suc n) (block_zero ∷ others))

  given : Heap
  given = taken carved k block_zero others

  page : block2arena block_zero ≡ a
  page = omega (arith, aligned)

  given-desc : given.descs k ≡ desc_of s (suc n) others
  unfolding given carved
  given-desc = rw (==-refl k) refl

  given-arena : (given.arenas (block2arena block_zero)).desc ≡ some k
  unfolding given carved
  given-arena = rw (==-refl (block2arena block_zero), page, ==-refl a) refl

  given-cnt : ((given.arenas (block2arena block_zero)).cnt + 1) % 2 ^ 32 ≡ suc n
  unfolding given carved
  given-cnt = rw (==-refl (block2arena block_zero), page, ==-refl a) (omega (arith, few))

  given-descs :
      (i : ℕ)
      → h.descs k ≡ desc_of s (suc n) []
      → update given.descs k (desc_of s (suc n) []) i ≡ h.descs i
  unfolding given carved
  given-descs i d = elim (Bool-cases (i == k)) [
    | inl same ↦ rw same (sym d ∙ ap h.descs (sym (==→eq i k same)))
    | inr other ↦ rw other refl
  ]

-- `sys_malloc` of 1 to 1024 bytes, fewer than the pool has, and then `sys_free`, where `k` is the
-- first descriptor whose blocks are large enough, is well formed and has no free block, and the pages
-- are well formed with one for an arena: the block is the first one of a page, whose others are
-- exactly the free list in between, and the page's frame is free in the end. Addresses are
-- translated, virtual pages free and the descriptors as before, and pages in use before are so still.
pub sys_free-sys_malloc_arena :
    (pf : PoolFlags) (h : Heap) (size k : ℕ)
    → HasPages pf h.pages 1
    → 0 < size
    → size ≤ 1024
    → size < (mem_pool pf h.pages).pool_size
    → IsFor h size k
    → IsDesc (h.descs k)
    → (h.descs k).free_list ≡ []
    → (h₁ h₂ : Heap) × (b : ℕ) × (sys_malloc pf h size ≡ done (h₁, some b))
      × (sys_free pf h₁ b ≡ done h₂)
      × (b % page_size ≡ arena_size)
      × ((h₁.descs k).free_list
          ≡ block_list (h.descs k).block_size (block2arena b) 1 ((h.descs k).blocks_per_arena - 1))
      × ((p : ℕ) × (translate h₁.pages (block2arena b) ≡ some p)
          × IsFrame (mem_pool pf h₂.pages) p false)
      × Restores pf h.pages h₂.pages
      × ((i : ℕ) → h₂.descs i ≡ h.descs i)
unfolding given carved
sys_free-sys_malloc_arena pf h size k has some_bytes few small for desc none_free =
    let (m₁, m₂, a, phys, e, e', aligned, from, mapped, freed, restores) =
      mfree_page-malloc_page pf h.pages 1 has.run_start has.layout has.virtual has.enough
        (omega arith) (omega arith) has.run in
    let s = (h.descs k).block_size in
    let n = (h.descs k).blocks_per_arena - 1 in
    let d : h.descs k ≡ desc_of s (suc n) [] =
      ap₂ (desc_of s) (omega (arith, desc.some_blocks)) none_free in
    let bound : n < 2 ^ 31 = omega (arith, few_blocks (h.descs k) desc) in
    let b = block_zero h k a s n m₁ aligned bound in
    let pg = page h k a s n m₁ aligned bound in
    let (h₂, freed_all, same_pages, same_descs) =
      free_block-all pf (given h k a s n m₁ aligned bound) b k s (suc n)
        (others h k a s n m₁ aligned bound) m₂ (given-desc h k a s n m₁ aligned bound)
        (given-cnt h k a s n m₁ aligned bound)
        (ap (λ x. uncarve (suc n) x 0 (desc_of s (suc n) (block_list s a 1 n ++ b ∷ []))) pg
          ∙ uncarve-all n a s (suc n) desc.sized)
        (ap (λ x. mfree_page pf m₁ x 1) pg ∙ e') in
    (
      given h k a s n m₁ aligned bound,
      h₂,
      b,
      sys_malloc-block pf h size k some_bytes few small for
          ∙ malloc_block-new pf h (carved h k a s n m₁ aligned bound) k none_free (
              add_arena-eq pf h k a s (suc n) (b ∷ block_list s a 1 n) m₁ d e
                (carve_lem (suc n) a 0 s (suc n) [] desc.sized (λ k h. refl)))
          ∙ take_block-eq (carved h k a s n m₁ aligned bound) k b (block_list s a 1 n)
              (rw (==-refl k) refl),
      sys_free-block pf (given h k a s n m₁ aligned bound) b k
            (subst (λ x. is_heap_address pf x ≡ true) (omega arith)
              (heap_address pf h.pages a has.above from))
            (omega arith) (given-arena h k a s n m₁ aligned bound)
          ∙ freed_all,
      omega (arith, aligned),
      ap (λ (x : MemBlockDesc). x.free_list) (given-desc h k a s n m₁ aligned bound)
          ∙ ap (λ x. block_list s x 1 n) (sym pg),
      (
        phys 0,
        ap (translate m₁) (pg ∙ omega arith) ∙ mapped 0 (omega arith),
        subst (λ m. IsFrame (mem_pool pf m) (phys 0) false) (sym same_pages)
            (freed 0 (omega arith)),
      ),
      subst (Restores pf h.pages) (sym same_pages) restores,
      λ i.
          ap (λ (f : ℕ → MemBlockDesc). f i) same_descs
          ∙ given-descs h k a s n m₁ aligned bound i d,
    )
