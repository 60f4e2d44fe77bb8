-- ===== src/FileWrite/MakeRoom.antt =====
-- `file_write` of fs/file.c makes room for what it writes.
use winx.Base.{
  ℕ, ◌+◌, ◌≤◌, ◌<◌, ◌≡◌, sym, ap, subst, ◌∙◌, ◌≢◌, ◌⊎◌, inl, inr, arith, ltb, Bool-cases, ne→==,
  ltb→lt, ltb→le,
}
use winx.Volume.{Volume, write_one}
use winx.Inode.{Inode}
use winx.FileWrite.{table_bytes}
use winx.FileWrite.Allocated.{Owned, Grows, Grows-trans}
use winx.FileWrite.Grow.{Added}
use winx.FileWrite.Blocks.{IsTable, IsBlocks, extend, extend-old, extend-new, extend-IsPlain}
use winx.FileWrite.More.{More, Grows-IsLater, with_sectors-IsLater, table_bytes-IsTable}

-- the inode with other sectors
abbrev with_sectors : (ℕ → ℕ) → Inode → Inode
with_sectors i_sectors inode = record inode { i_sectors = i_sectors }

extend-window :
    {part₀ part' : Volume} {inode₀ inode' : Inode} {blocks all₀ all' : ℕ → ℕ} {used will : ℕ}
    → Added part₀ inode₀ all₀ used will part' inode' all'
    → ((j : ℕ) → j + 1 ≡ used → all₀ j ≡ blocks j)
    → (j : ℕ) → used ≤ j + 1
    → j < will
    → all' j ≡ extend blocks used all' j
extend-window {blocks = blocks} {all' = all'} {used = used} h last j a b =
    elim (Bool-cases (ltb j used)) [
      | inl old ↦
          h.others j (inl (ltb→lt j used old))
          ∙ last j (ground arith)
          ∙ sym (extend-old blocks all' used j (ltb→lt j used old))
      | inr new ↦ sym (extend-new blocks all' used j (ltb→le j used new))
    ]

extend-fresh :
    {part part₀ part' : Volume} {inode₀ inode' : Inode} {all₀ all' : ℕ → ℕ} {used will k : ℕ}
    (blocks : ℕ → ℕ)
    → Grows part part₀ k
    → Added part₀ inode₀ all₀ used will part' inode' all'
    → (j : ℕ) → used ≤ j
    → j < will
    → ¬ Owned part (extend blocks used all' j)
extend-fresh {part} {all' = all'} {used} blocks g h j a b o =
    h.fresh j a b (g.owned (all' j) (subst (Owned part) (extend-new blocks all' used j a) o))

module _ {part part₀ part' : Volume} {inode inode₀ inode' : Inode} {blocks all₀ all' : ℕ → ℕ}
    {used will : ℕ} {k : ℕ} where
  -- without a table
  pub direct-More :
      IsBlocks part inode blocks used
      → used ≤ will
      → will ≤ 12
      → Grows part part₀ k
      → inode₀ ≡ inode
      → Added part₀ inode₀ all₀ used will part' inode' all'
      → ((j : ℕ) → j + 1 ≡ used → all₀ j ≡ blocks j)
      → More part inode blocks used will part' inode' (extend blocks used all') all'
  direct-More f up few g e h last = record {
    later = Grows-IsLater (Grows-trans g h.grows);
    is_blocks = record {
      plain = extend-IsPlain f.plain up g (λ j a. ap (λ i. i.i_sectors j) e) h;
      table = inl (
        few,
        h.indirect 12 (inr (inr (omega arith))) ∙ ap (λ i. i.i_sectors 12) e ∙ no_table f.table,
      );
    };
    old = extend-old blocks all' used;
    fresh = extend-fresh blocks g h;
    window = extend-window h last;
    kept = λ lba o other. (Grows-trans g h.grows).kept lba o.0;
    same = h.same ∙ ap (with_sectors inode'.i_sectors) e;
  }
    where
      no_table :
          ((used ≤ 12) × (inode.i_sectors 12 ≡ 0))
            ⊎ ((12 < used) × IsTable part (inode.i_sectors 12) blocks used)
          → inode.i_sectors 12 ≡ 0
      no_table (inl (a, b)) = b
      no_table (inr (a, b)) = absurd (omega arith)

  -- with a table, which is written at the end
  pub table-More :
      (table : ℕ)
      → IsBlocks part inode blocks used
      → used ≤ will
      → 12 < will
      → Grows part part₀ k
      → inode₀ ≡ record inode { i_sectors = inode₀.i_sectors }
      → ((j : ℕ) → j < 12 → inode₀.i_sectors j ≡ inode.i_sectors j)
      → inode₀.i_sectors 12 ≡ table
      → Owned part₀ table
      → ((j : ℕ) → j < used → blocks j ≢ table)
      → ((lba : ℕ) → Owned part lba → lba ≢ inode.i_sectors 12 → lba ≢ table)
      → Added part₀ inode₀ all₀ used will part' inode' all'
      → ((j : ℕ) → (j + 1 ≡ used) ⊎ (12 ≤ j) → j < used → all₀ j ≡ blocks j)
      → More part inode blocks used will
          (record part' { sectors = write_one part'.sectors table (table_bytes all') })
          inode'
          (extend blocks used all')
          all'
  table-More table f up many g e same here mine apart kept h last =
      let later = Grows-IsLater (Grows-trans g h.grows) in
      let plain = extend-IsPlain f.plain up g same h in
      let numbers : (j : ℕ) → 12 ≤ j → j < will → all' j ≡ extend blocks used all' j = λ j a b.
        elim (Bool-cases (ltb j used)) [
          | inl old ↦
              h.others j (inl (ltb→lt j used old))
              ∙ last j (inr a) (ltb→lt j used old)
              ∙ sym (extend-old blocks all' used j (ltb→lt j used old))
          | inr new ↦ sym (extend-new blocks all' used j (ltb→le j used new))
        ] in
      let others : (j : ℕ) → j < will → extend blocks used all' j ≢ table = λ j a.
        elim (Bool-cases (ltb j used)) [
          | inl old ↦ λ q.
              apart j (ltb→lt j used old)
                (sym (extend-old blocks all' used j (ltb→lt j used old)) ∙ q)
          | inr new ↦ λ q.
              h.fresh j (ltb→le j used new) a (
                subst (Owned part₀) (sym q ∙ extend-new blocks all' used j (ltb→le j used new))
                  mine)
        ] in
      let there : table ≡ inode'.i_sectors 12 =
        sym (h.indirect 12 (inr (inr (omega arith))) ∙ here) in
      record {
        later = with_sectors-IsLater (write_one part'.sectors table (table_bytes all')) later;
        is_blocks = record {
          plain = record {
            direct = plain.direct;
            unset = plain.unset;
            owned = plain.owned;
            apart = plain.apart;
          };
          table = inr (
            many,
            subst
                (λ t.
                  IsTable
                    (record part' { sectors = write_one part'.sectors table (table_bytes all') }) t
                    (extend blocks used all') will)
                there
                (table_bytes-IsTable part' table (extend blocks used all') all' will later.volume
                  (h.grows.owned table mine) plain.owned others numbers),
          );
        };
        old = extend-old blocks all' used;
        fresh = extend-fresh blocks g h;
        window = extend-window h (λ j a. last j (inl a) (omega arith));
        kept = λ lba o other.
            rw (ne→== lba table (kept lba o other)) ((Grows-trans g h.grows).kept lba o.0);
        same = h.same ∙ ap (with_sectors inode'.i_sectors) e;
      }
