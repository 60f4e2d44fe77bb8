-- ===== src/FileWrite/Grow.antt =====
-- The loops of `file_write` of fs/file.c that add blocks to a file.
use winx.Base.{
  ℕ, zero, suc, ◌+◌, ◌-◌, ◌≤◌, ◌<◌, ◌≡◌, refl, sym, ap, subst, ◌∙◌, ◌≢◌, ◌⊎◌, inl, inr, true, not,
  ◌||◌, some, arith, ltb, ◌==◌, if◌then◌else◌, Bool-cases, ==→eq, ==-refl, ne→==, update, done,
}
use winx.Volume.{Volume}
use winx.Bitmap.Taking.{free_bits}
use winx.Inode.{Inode}
use winx.FileWrite.{new_block, add_blocks, set_sector}
use winx.FileWrite.Allocated.{new_block_lem, IsVolume, Owned, Grows, Grows-refl, Grows-trans}

-- What adding the blocks from `idx` up to `end` comes to: they were free before, no two are the
-- same, `all_blocks` has them, and below 12 the inode, too. All other entries stay.
pub record Added (part : Volume) (inode : Inode) (all_blocks : ℕ → ℕ) (idx : ℕ) (end : ℕ)
    (part' : Volume) (inode' : Inode) (all_blocks' : ℕ → ℕ) : Type 0 where
  pub grows : Grows part part' (end - idx)
  pub owned : (j : ℕ) → idx ≤ j → j < end → Owned part' (all_blocks' j)
  pub fresh : (j : ℕ) → idx ≤ j → j < end → ¬ Owned part (all_blocks' j)
  pub apart :
      (i j : ℕ) → idx ≤ i → i < end → idx ≤ j → j < end → all_blocks' i ≡ all_blocks' j → i ≡ j
  pub others : (j : ℕ) → (j < idx) ⊎ (end ≤ j) → all_blocks' j ≡ all_blocks j
  pub direct : (j : ℕ) → idx ≤ j → j < end → j < 12 → inode'.i_sectors j ≡ all_blocks' j
  pub indirect :
      (j : ℕ) → (j < idx) ⊎ ((end ≤ j) ⊎ (12 ≤ j)) → inode'.i_sectors j ≡ inode.i_sectors j
  pub same : inode' ≡ record inode { i_sectors = inode'.i_sectors }

Added-nothing :
    (part : Volume) (inode : Inode) (all_blocks : ℕ → ℕ) (idx : ℕ)
    → IsVolume part
    → Added part inode all_blocks idx idx part inode all_blocks
Added-nothing part inode all_blocks idx v = record {
  grows = subst (Grows part part) (omega arith) (Grows-refl part v);
  owned = λ j a b. absurd (omega arith);
  fresh = λ j a b. absurd (omega arith);
  apart = λ i j a b. absurd (omega arith);
  others = λ j out. refl;
  direct = λ j a b. absurd (omega arith);
  indirect = λ j out. refl;
  same = refl;
}

-- the inode with one block more
grown : Inode → ℕ → ℕ → Inode
grown inode idx lba = if ltb idx 12 then set_sector inode idx lba else inode

module _ (part part₁ part' : Volume) (inode inode' : Inode) (all_blocks all_blocks' : ℕ → ℕ)
    (idx end lba : ℕ) where
  Added-cons :
      idx < end
      → Grows part part₁ 1
      → Owned part₁ lba
      → ¬ Owned part lba
      → Added part₁
          (grown inode idx lba)
          (update all_blocks idx lba)
          (idx + 1)
          end
          part'
          inode'
          all_blocks'
      → Added part inode all_blocks idx end part' inode' all_blocks'
  unfolding grown
  Added-cons more one mine new h = record {
    grows = subst (Grows part part') (omega arith) (Grows-trans one h.grows);
    owned = λ j a b. elim (Bool-cases (j == idx)) [
      | inl e ↦
          subst (Owned part') (sym (ap all_blocks' (==→eq j idx e) ∙ here)) (h.grows.owned lba mine)
      | inr e ↦ h.owned j (ground arith) b
    ];
    fresh = λ j a b o. elim (Bool-cases (j == idx)) [
      | inl e ↦ new (subst (Owned part) (ap all_blocks' (==→eq j idx e) ∙ here) o)
      | inr e ↦ h.fresh j (ground arith) b (one.owned (all_blocks' j) o)
    ];
    apart = λ i j a b c d same. elim (Bool-cases (i == idx)) [
      | inl e ↦ (elim (Bool-cases (j == idx)) [
        | inl e' ↦ ==→eq i idx e ∙ sym (==→eq j idx e')
        | inr e' ↦ absurd (later j (ground arith) d (sym same ∙ ap all_blocks' (==→eq i idx e)))
      ])
      | inr e ↦ (elim (Bool-cases (j == idx)) [
        | inl e' ↦ absurd (later i (ground arith) b (same ∙ ap all_blocks' (==→eq j idx e')))
        | inr e' ↦ h.apart i j (ground arith) b (ground arith) d same
      ])
    ];
    others = λ j out. h.others j (ground arith) ∙ rw (ne→== j idx (omega arith)) refl;
    direct = λ j a b c. elim (Bool-cases (j == idx)) [
      | inl e ↦ h.indirect j (inl (ground arith)) ∙ (ground (arith, here))
      | inr e ↦ h.direct j (ground arith) b c
    ];
    indirect = λ j out. h.indirect j (ground arith) ∙ (ground arith);
    same = h.same ∙ (ground arith);
  }
    where
      here : all_blocks' idx ≡ lba
      here = h.others idx (inl (omega arith)) ∙ rw (==-refl idx) refl

      later : (j : ℕ) → idx + 1 ≤ j → j < end → all_blocks' j ≢ all_blocks' idx
      later j a b same = h.fresh j a b (subst (Owned part₁) (sym (same ∙ here)) mine)

add_blocks-step :
    (left : ℕ) (part part₁ : Volume) (inode : Inode) (all_blocks : ℕ → ℕ) (idx lba : ℕ)
    → new_block true part ≡ done (part₁, some lba)
    → (idx < 12 → inode.i_sectors idx ≡ 0)
    → add_blocks (suc left) part inode all_blocks idx
      ≡ add_blocks left part₁ (grown inode idx lba) (update all_blocks idx lba) (idx + 1)
unfolding add_blocks grown
add_blocks-step left part part₁ inode all_blocks idx lba e unset = rw (e, guard) refl
  where
    guard : (not (ltb idx 12) || inode.i_sectors idx == 0) ≡ true
    guard = ground (arith, unset)

-- On a well-formed partition, while `left` blocks are free and the inode has none where they go, the loops of `file_write`
-- end without a halt, and have added that many.
pub add_blocks_lem :
    (left : ℕ) (part : Volume) (inode : Inode) (all_blocks : ℕ → ℕ) (idx : ℕ)
    → IsVolume part
    → left ≤ free_bits part.block_bitmap
    → ((j : ℕ) → idx ≤ j → j < idx + left → j < 12 → inode.i_sectors j ≡ 0)
    → (part' : Volume) × (inode' : Inode) × (all_blocks' : ℕ → ℕ) × (add_blocks left part inode
          all_blocks idx
        ≡ done (record { part = part'; inode = inode'; all_blocks = some all_blocks' }))
      × Added part inode all_blocks idx (idx + left) part' inode' all_blocks'
unfolding add_blocks grown
add_blocks_lem zero part inode all_blocks idx v free unset = (
  part,
  inode,
  all_blocks,
  refl,
  subst (λ n. Added part inode all_blocks idx n part inode all_blocks) (omega arith)
      (Added-nothing part inode all_blocks idx v),
)
add_blocks_lem (suc left) part inode all_blocks idx v free unset =
    let (part₁, lba, e, one, mine, new) = new_block_lem true part v (omega arith) in
    let (part', inode', all_blocks', run, added) =
      add_blocks_lem left part₁ (grown inode idx lba) (update all_blocks idx lba) (idx + 1)
        one.volume (omega (arith, one.fewer)) (λ j a b c. ground (arith, unset j)) in
    (
      part',
      inode',
      all_blocks',
      add_blocks-step left part part₁ inode all_blocks idx lba e
            (unset idx (omega arith) (omega arith))
          ∙ run,
      Added-cons part part₁ part' inode inode' all_blocks all_blocks' idx (idx + suc left) lba
          (omega arith) one mine (λ o. cc (o.2, new))
          (subst
            (λ n.
              Added part₁ (grown inode idx lba) (update all_blocks idx lba) (idx + 1) n part' inode'
                all_blocks')
            (omega arith) added),
    )
