-- ===== src/Arenas/OneBlock.antt =====
-- `sys_malloc` of kernel/memory.c of at most 1024 bytes, and `sys_free` of what it gives.
use winx.Base.{
  ℕ, zero, suc, ◌+◌, ◌-◌, ◌%◌, ◌^◌, ◌≤◌, ◌<◌, ◌≡◌, refl, sym, ap, ◌∙◌, ◌≢◌, inl, inr, true, false,
  some, List, [], ◌∷◌, ◌++◌, arith, leb, ◌==◌, if◌then◌else◌, Bool-cases, ==→eq, ==-refl, ne→==,
  lt→ltb, le→ltb, update, done, leb→lt,
}
use winx.Pages.{PoolFlags, mem_pool}
use winx.Arenas.{
  Arena, Heap, block2arena, desc_cnt, choose_desc, take_block, malloc_block, sys_malloc, free_block,
  sys_free,
}
use winx.Arenas.RoundTrip.{is_heap_address}

-- The descriptor at `k` is the first one whose blocks are large enough for `size` bytes.
pub record IsFor (h : Heap) (size : ℕ) (k : ℕ) : Type 0 where
  pub in_range : k < desc_cnt
  pub fits : size ≤ (h.descs k).block_size
  pub smaller : (j : ℕ) → j < k → (h.descs j).block_size < size

choose_desc-IsFor :
    (left i k size : ℕ) (h : Heap)
    → IsFor h size k
    → i ≤ k
    → k < i + left
    → choose_desc left h.descs size i ≡ k
unfolding choose_desc
choose_desc-IsFor zero i k size h for from to = absurd (omega arith)
choose_desc-IsFor (suc left) i k size h for from to =
    elim (Bool-cases (leb size (h.descs i).block_size)) [
      | inl fits ↦ rw fits (ground (arith, for.smaller i))
      | inr small ↦
          let passed : i ≢ k = λ e. omega (
            arith,
            leb→lt size (h.descs i).block_size small,
            for.fits,
            ap (λ j. (h.descs j).block_size) e,
          ) in
          rw small
            (choose_desc-IsFor left (i + 1) k size h for (omega (arith, passed)) (omega arith))
    ]

pub sys_malloc-block :
    (pf : PoolFlags) (h : Heap) (size k : ℕ)
    → 0 < size
    → size ≤ 1024
    → size < (mem_pool pf h.pages).pool_size
    → IsFor h size k
    → sys_malloc pf h size ≡ malloc_block pf h k
unfolding sys_malloc
sys_malloc-block pf h size k some_bytes few small for =
    rw
      (
        lt→ltb 0 size some_bytes,
        lt→ltb size (mem_pool pf h.pages).pool_size small,
        le→ltb 1024 size few,
      )
      (ap (malloc_block pf h)
        (choose_desc-IsFor desc_cnt 0 k size h for (omega arith) (omega (arith, for.in_range))))

abbrev pub taken : Heap → ℕ → ℕ → List ℕ → Heap
taken h desc_idx b rest = record h {
  descs = update h.descs desc_idx (record (h.descs desc_idx) { free_list = rest });
  arenas = update h.arenas (block2arena b) (record (h.arenas (block2arena b)) {
    cnt = ((h.arenas (block2arena b)).cnt + 2 ^ 32 - 1) % 2 ^ 32;
  });
}

pub take_block-eq :
    (h : Heap) (i b : ℕ) (rest : List ℕ)
    → (h.descs i).free_list ≡ b ∷ rest
    → take_block h i ≡ done (taken h i b rest, some b)
unfolding take_block
take_block-eq h i b rest e = rw (take_block, e) refl

malloc_block-free :
    (pf : PoolFlags) (h : Heap) (i b : ℕ) (rest : List ℕ)
    → (h.descs i).free_list ≡ b ∷ rest
    → malloc_block pf h i ≡ take_block h i
unfolding malloc_block
malloc_block-free pf h i b rest e = rw (malloc_block, e) refl

pub sys_free-block :
    (pf : PoolFlags) (h : Heap) (ptr i : ℕ)
    → is_heap_address pf ptr ≡ true
    → 0 < ptr
    → (h.arenas (block2arena ptr)).desc ≡ some i
    → sys_free pf h ptr ≡ free_block pf h ptr i
unfolding sys_free
sys_free-block pf h ptr i fits some_ptr e = rw (ne→== ptr 0 (omega (arith, some_ptr)), fits, e) refl

abbrev given_back : Heap → ℕ → ℕ → List ℕ → ℕ → Heap
given_back h i b xs cnt = record h {
  descs = update h.descs i (record (h.descs i) { free_list = xs ++ b ∷ [] });
  arenas = update h.arenas (block2arena b) (record (h.arenas (block2arena b)) { cnt = cnt });
}

free_block-part :
    (pf : PoolFlags) (h : Heap) (b i cnt : ℕ) (xs : List ℕ)
    → ((h.arenas (block2arena b)).cnt + 1) % 2 ^ 32 ≡ cnt
    → (h.descs i).free_list ≡ xs
    → (cnt == (h.descs i).blocks_per_arena) ≡ false
    → free_block pf h b i ≡ done (given_back h i b xs cnt)
unfolding free_block
free_block-part pf h b i cnt xs e e' part = rw (e, e', part) refl

descs-back :
    (h : Heap) (k b cnt : ℕ) (rest : List ℕ) (i : ℕ)
    → (given_back (taken h k b rest) k b rest cnt).descs i
      ≡ (if i == k then record (h.descs k) { free_list = rest ++ b ∷ [] } else h.descs i)
descs-back h k b cnt rest i = elim (Bool-cases (i == k)) [
  | inl same ↦ rw (same, ==-refl k) refl
  | inr other ↦ rw other refl
]

arenas-back :
    (h : Heap) (k b cnt : ℕ) (rest : List ℕ)
    → h.arenas (block2arena b) ≡ record { desc = some k; cnt = cnt; large = false }
    → (a : ℕ) → (given_back (taken h k b rest) k b rest cnt).arenas a ≡ h.arenas a
arenas-back h k b cnt rest arena a = elim (Bool-cases (a == block2arena b)) [
  | inl same ↦
      let here : a ≡ block2arena b = ==→eq a (block2arena b) same in
      rw (same, ==-refl (block2arena b))
        (ap (λ (x : Arena). record x { cnt = cnt }) arena ∙ sym arena ∙ ap h.arenas (sym here))
  | inr other ↦ rw other refl
]

-- `sys_malloc` of 1 to 1024 bytes, fewer than the pool has, and then `sys_free`, where `k` is the
-- first descriptor whose blocks are large enough and has a free block: if the first free one is at an
-- address that may be freed, and its arena is of this descriptor with one to all but one of its
-- blocks free, then this block is given out, and in the end stands behind the others; pages,
-- arenas and the other descriptors are as before.
pub sys_free-sys_malloc_block :
    (pf : PoolFlags) (h : Heap) (size k b cnt : ℕ) (rest : List ℕ)
    → 0 < size
    → size ≤ 1024
    → size < (mem_pool pf h.pages).pool_size
    → IsFor h size k
    → (h.descs k).free_list ≡ b ∷ rest
    → 0 < b
    → is_heap_address pf b ≡ true
    → h.arenas (block2arena b) ≡ record { desc = some k; cnt = cnt; large = false }
    → 0 < cnt
    → cnt < (h.descs k).blocks_per_arena
    → cnt < 2 ^ 31
    → (h₁ h₂ : Heap) × (sys_malloc pf h size ≡ done (h₁, some b))
      × (sys_free pf h₁ b ≡ done h₂)
      × ((h₁.descs k).free_list ≡ rest)
      × (h₂.pages ≡ h.pages)
      × ((i : ℕ)
          → h₂.descs i
            ≡ (if i == k then record (h.descs k) { free_list = rest ++ b ∷ [] } else h.descs i))
      × ((a : ℕ) → h₂.arenas a ≡ h.arenas a)
sys_free-sys_malloc_block pf h size k b cnt rest some_bytes few small for free some_b address arena
      some_cnt part bounded =
    let h₁ = taken h k b rest in
    let here = ==-refl (block2arena b) in
    let this = ==-refl k in
    let less : ((h.arenas (block2arena b)).cnt + 2 ^ 32 - 1) % 2 ^ 32 ≡ cnt - 1 =
      ap (λ a. (a.cnt + 2 ^ 32 - 1) % 2 ^ 32) arena ∙ omega (arith, some_cnt, bounded) in
    let back : ((h₁.arenas (block2arena b)).cnt + 1) % 2 ^ 32 ≡ cnt =
      rw here (ap (λ n. (n + 1) % 2 ^ 32) less ∙ omega (arith, some_cnt, bounded)) in
    let desc : (h₁.arenas (block2arena b)).desc ≡ some k = rw here (ap (λ a. a.desc) arena) in
    let others : (cnt == (h₁.descs k).blocks_per_arena) ≡ false =
      rw this (ne→== cnt (h.descs k).blocks_per_arena (λ e. absurd (omega (arith, e, part)))) in
    let list : (h₁.descs k).free_list ≡ rest = rw this refl in
    (
      h₁,
      given_back h₁ k b rest cnt,
      sys_malloc-block pf h size k some_bytes few small for
          ∙ malloc_block-free pf h k b rest free
          ∙ take_block-eq h k b rest free,
      sys_free-block pf h₁ b k address some_b desc
          ∙ free_block-part pf h₁ b k cnt rest back list others,
      list,
      refl,
      descs-back h k b cnt rest,
      arenas-back h k b cnt rest arena,
    )
