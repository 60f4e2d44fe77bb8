-- ===== src/FileWrite/Blocks.antt =====
-- The blocks of a file of fs/file.c: up to 12 that the inode names, and what its table names.
use winx.Base.{
  ℕ, ◌-◌, ◌≤◌, ◌<◌, ◌≡◌, refl, sym, subst, ◌∙◌, ◌≢◌, ◌⊎◌, inl, inr, arith, ltb, if◌then◌else◌,
  Bool-cases, lt→ltb, le→ltb, ltb→lt, ltb→le,
}
use winx.Volume.{Volume}
use winx.Inode.{Inode}
use winx.File.{word}
use winx.FileWrite.Allocated.{Owned, Grows}
use winx.FileWrite.Grow.{Added}

-- A file's first `n` blocks are `blocks`, all in use and no two the same, and the inode has those
-- below 12 and no others.
pub record IsPlain (part : Volume) (inode : Inode) (blocks : ℕ → ℕ) (n : ℕ) : Type 0 where
  pub direct : (j : ℕ) → j < n → j < 12 → inode.i_sectors j ≡ blocks j
  pub unset : (j : ℕ) → n ≤ j → j < 12 → inode.i_sectors j ≡ 0
  pub owned : (j : ℕ) → j < n → Owned part (blocks j)
  pub apart : (i j : ℕ) → i < n → j < n → blocks i ≡ blocks j → i ≡ j

-- the block of the table, which is none of the others, has their numbers
pub record IsTable (part : Volume) (table : ℕ) (blocks : ℕ → ℕ) (n : ℕ) : Type 0 where
  pub mine : Owned part table
  pub other : (j : ℕ) → j < n → blocks j ≢ table
  pub words : (j : ℕ) → 12 ≤ j → j < n → word (part.sectors table) (j - 12) ≡ blocks j

pub record IsBlocks (part : Volume) (inode : Inode) (blocks : ℕ → ℕ) (n : ℕ) : Type 0 where
  pub plain : IsPlain part inode blocks n
  pub table :
      ((n ≤ 12) × (inode.i_sectors 12 ≡ 0))
      ⊎ ((12 < n) × IsTable part (inode.i_sectors 12) blocks n)

-- The old blocks, and those that have been added.
pub extend : (ℕ → ℕ) → ℕ → (ℕ → ℕ) → ℕ → ℕ
extend blocks used all_blocks j = if ltb j used then blocks j else all_blocks j

pub extend-old :
    (blocks all_blocks : ℕ → ℕ) (used j : ℕ) → j < used → extend blocks used all_blocks j ≡ blocks j
unfolding extend
extend-old blocks all_blocks used j old = rw (lt→ltb j used old) refl

pub extend-new :
    (blocks all_blocks : ℕ → ℕ) (used j : ℕ)
    → used ≤ j
    → extend blocks used all_blocks j ≡ all_blocks j
unfolding extend
extend-new blocks all_blocks used j new = rw (le→ltb j used new) refl

module _ {part part₀ part' : Volume} {inode inode₀ inode' : Inode} {blocks all₀ all' : ℕ → ℕ}
    {used will : ℕ} {k : ℕ} where
  -- the blocks after some have been added, behind one for the table at most
  pub extend-IsPlain :
      IsPlain part inode blocks used
      → used ≤ will
      → Grows part part₀ k
      → ((j : ℕ) → j < 12 → inode₀.i_sectors j ≡ inode.i_sectors j)
      → Added part₀ inode₀ all₀ used will part' inode' all'
      → IsPlain part' inode' (extend blocks used all') will
  extend-IsPlain f up g same h = record {
    direct = λ j a b. elim (Bool-cases (ltb j used)) [
      | inl old ↦
          h.indirect j (inl (ltb→lt j used old))
          ∙ same j b
          ∙ f.direct j (ltb→lt j used old) b
          ∙ sym (extend-old blocks all' used j (ltb→lt j used old))
      | inr new ↦
          h.direct j (ltb→le j used new) a b
          ∙ sym (extend-new blocks all' used j (ltb→le j used new))
    ];
    unset = λ j a b. h.indirect j (inr (inl a)) ∙ same j b ∙ f.unset j (omega arith) b;
    owned = λ j a. elim (Bool-cases (ltb j used)) [
      | inl old ↦
          subst (Owned part') (sym (extend-old blocks all' used j (ltb→lt j used old)))
            (h.grows.owned (blocks j) (g.owned (blocks j) (f.owned j (ltb→lt j used old))))
      | inr new ↦
          subst (Owned part') (sym (extend-new blocks all' used j (ltb→le j used new)))
            (h.owned j (ltb→le j used new) a)
    ];
    apart = λ i j a b e. elim (Bool-cases (ltb i used)) [
      | inl old ↦ (elim (Bool-cases (ltb j used)) [
        | inl old' ↦ f.apart i j (ltb→lt i used old) (ltb→lt j used old') (
            sym (extend-old blocks all' used i (ltb→lt i used old))
            ∙ e
            ∙ extend-old blocks all' used j (ltb→lt j used old'))
        | inr new' ↦ absurd (mixed i j (ltb→lt i used old) (ltb→le j used new') b e)
      ])
      | inr new ↦ (elim (Bool-cases (ltb j used)) [
        | inl old' ↦ absurd (mixed j i (ltb→lt j used old') (ltb→le i used new) a (sym e))
        | inr new' ↦ h.apart i j (ltb→le i used new) a (ltb→le j used new') b (
            sym (extend-new blocks all' used i (ltb→le i used new))
            ∙ e
            ∙ extend-new blocks all' used j (ltb→le j used new'))
      ])
    ];
  }
    where
      mixed :
          (i j : ℕ)
          → i < used
          → used ≤ j
          → j < will
          → extend blocks used all' i ≢ extend blocks used all' j
      mixed i j old new b e = h.fresh j new b (
          subst (Owned part₀)
            (sym (extend-old blocks all' used i old) ∙ e ∙ extend-new blocks all' used j new)
            (g.owned (blocks i) (f.owned i old)))
