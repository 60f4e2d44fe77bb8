-- ===== src/FileWrite/More.antt =====
-- Making room: the blocks and the table of a file before and after, in `file_write` of fs/file.c.
use winx.Base.{ℕ, ◌+◌, ◌-◌, ◌*◌, ◌/◌, ◌%◌, ◌^◌, ◌≤◌, ◌<◌, ◌≡◌, ap, ◌∙◌, ◌≢◌, arith, ==-refl}
use winx.Volume.{Volume, write_one}
use winx.Inode.{Inode}
use winx.File.{word}
use winx.FileWrite.{table_bytes}
use winx.FileWrite.Allocated.{IsVolume, Owned, Grows}
use winx.FileWrite.Blocks.{IsTable, IsBlocks}

-- the same partition with at least the same blocks in use
pub record IsLater (part : Volume) (part' : Volume) : Type 0 where
  pub volume : IsVolume part'
  pub data_start_lba : part'.data_start_lba ≡ part.data_start_lba
  pub inode_table_lba : part'.inode_table_lba ≡ part.inode_table_lba
  pub start_lba : part'.start_lba ≡ part.start_lba
  pub sec_cnt : part'.sec_cnt ≡ part.sec_cnt
  pub owned : (lba : ℕ) → Owned part lba → Owned part' lba

pub Grows-IsLater : {part part' : Volume} {n : ℕ} → Grows part part' n → IsLater part part'
Grows-IsLater g = record {
  volume = g.volume;
  data_start_lba = g.data_start_lba;
  inode_table_lba = g.inode_table_lba;
  start_lba = g.start_lba;
  sec_cnt = g.sec_cnt;
  owned = g.owned;
}

pub with_sectors-IsLater :
    {part part' : Volume} (sectors : ℕ → ℕ → ℕ)
    → IsLater part part'
    → IsLater part (record part' { sectors = sectors })
with_sectors-IsLater sectors g = record {
  volume = record {
    small = g.volume.small;
    bytes = g.volume.bytes;
    low = g.volume.low;
    wide = g.volume.wide;
  };
  data_start_lba = g.data_start_lba;
  inode_table_lba = g.inode_table_lba;
  start_lba = g.start_lba;
  sec_cnt = g.sec_cnt;
  owned = g.owned;
}

pub IsLater-trans :
    {part part' part'' : Volume} → IsLater part part' → IsLater part' part'' → IsLater part part''
IsLater-trans g h = record {
  volume = h.volume;
  data_start_lba = h.data_start_lba ∙ g.data_start_lba;
  inode_table_lba = h.inode_table_lba ∙ g.inode_table_lba;
  start_lba = h.start_lba ∙ g.start_lba;
  sec_cnt = h.sec_cnt ∙ g.sec_cnt;
  owned = λ lba o. h.owned lba (g.owned lba o);
}

word-table_bytes :
    (all_blocks : ℕ → ℕ) (i : ℕ)
    → all_blocks (12 + i) < 2 ^ 32
    → word (table_bytes all_blocks) i ≡ all_blocks (12 + i)
unfolding word table_bytes
word-table_bytes all_blocks i small =
    let q0 : 4 * i / 4 ≡ i = omega arith in
    let q1 : (4 * i + 1) / 4 ≡ i = omega arith in
    let q2 : (4 * i + 2) / 4 ≡ i = omega arith in
    let q3 : (4 * i + 3) / 4 ≡ i = omega arith in
    let r0 : 4 * i % 4 ≡ 0 = omega arith in
    let r1 : (4 * i + 1) % 4 ≡ 1 = omega arith in
    let r2 : (4 * i + 2) % 4 ≡ 2 = omega arith in
    let r3 : (4 * i + 3) % 4 ≡ 3 = omega arith in rw (q0, q1, q2, q3, r0, r1, r2, r3) (omega arith)

-- The table as it is written has the numbers of the blocks.
pub table_bytes-IsTable :
    (part : Volume) (table : ℕ) (blocks all_blocks : ℕ → ℕ) (n : ℕ)
    → IsVolume part
    → Owned part table
    → ((j : ℕ) → j < n → Owned part (blocks j))
    → ((j : ℕ) → j < n → blocks j ≢ table)
    → ((j : ℕ) → 12 ≤ j → j < n → all_blocks j ≡ blocks j)
    → IsTable
        (record part { sectors = write_one part.sectors table (table_bytes all_blocks) })
        table
        blocks
        n
table_bytes-IsTable part table blocks all_blocks n v mine owned other same = record {
  mine = mine;
  other = other;
  words = λ j a b.
      let place : 12 + (j - 12) ≡ j = omega arith in
      let e : all_blocks (12 + (j - 12)) ≡ blocks j = ap all_blocks place ∙ same j a b in
      let small : all_blocks (12 + (j - 12)) < 2 ^ 32 = omega (arith, e, (owned j b).1, v.wide) in
      rw (==-refl table) (word-table_bytes all_blocks (j - 12) small ∙ e);
}

-- What making room comes to: the file has its old blocks and new ones, `all_blocks` has them from the
-- last old one on, and no block that was in use has changed but for the table.
pub record More (part : Volume) (inode : Inode) (blocks : ℕ → ℕ) (used : ℕ) (will_use : ℕ)
    (part' : Volume) (inode' : Inode) (blocks' : ℕ → ℕ) (all_blocks : ℕ → ℕ) : Type 0 where
  pub later : IsLater part part'
  pub is_blocks : IsBlocks part' inode' blocks' will_use
  pub old : (j : ℕ) → j < used → blocks' j ≡ blocks j
  pub fresh : (j : ℕ) → used ≤ j → j < will_use → ¬ Owned part (blocks' j)
  pub window : (j : ℕ) → used ≤ j + 1 → j < will_use → all_blocks j ≡ blocks' j
  pub kept :
      (lba : ℕ) → Owned part lba → lba ≢ inode.i_sectors 12 → part'.sectors lba ≡ part.sectors lba
  pub same : inode' ≡ record inode { i_sectors = inode'.i_sectors }
