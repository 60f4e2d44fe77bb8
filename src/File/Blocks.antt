-- ===== src/File/Blocks.antt =====
-- Where the bytes of a file of fs/file.c stand on the disk.
use winx.Base.{
  ℕ, zero, suc, ◌+◌, ◌-◌, ◌/◌, ◌%◌, ◌≤◌, ◌<◌, ◌≡◌, refl, ◌≢◌, ◌⊎◌, inl, inr, false, ◌&&◌, arith,
  ltb, leb, ◌==◌, if◌then◌else◌, Bool-cases, ne→==, update, done,
}
use winx.Volume.{Volume}
use winx.Inode.{Inode}
use winx.File.{word, read_table, copy_sectors, blocks_to_read}

-- the sector of block `idx`: the first 12 stand in the inode, the others in the table of its 13th
unfoldable pub file_block : Volume → Inode → ℕ → ℕ
file_block part inode idx =
    if ltb idx 12 then inode.i_sectors idx else word (part.sectors (inode.i_sectors 12)) (idx - 12)

unfoldable pub file_byte : Volume → Inode → ℕ → ℕ
file_byte part inode p = part.sectors (file_block part inode (p / 512)) (p % 512)

copy_sectors-inside :
    (left : ℕ) (inode : Inode) (all_blocks : ℕ → ℕ) (idx j : ℕ)
    → copy_sectors left inode all_blocks idx j
      ≡ (if leb idx j && ltb j (idx + left) then inode.i_sectors j else all_blocks j)
unfolding copy_sectors
copy_sectors-inside zero inode all_blocks idx j = ground arith
copy_sectors-inside (suc left) inode all_blocks idx j = ground (
  arith,
  copy_sectors-inside left inode (update all_blocks idx (inode.i_sectors idx)) (idx + 1) j,
)

-- The blocks from `start` to `end` are looked up.
abbrev pub Looked : Volume → Inode → ℕ → ℕ → (ℕ → ℕ) → Type 0
Looked part inode start end all_blocks =
    (j : ℕ) → start ≤ j → j ≤ end → all_blocks j ≡ file_block part inode j

pub blocks_to_read-Looked :
    (part : Volume) (inode : Inode) (start end : ℕ)
    → start ≤ end
    → end < 140
    → (end < 12) ⊎ (inode.i_sectors 12 ≢ 0)
    → (all_blocks : ℕ → ℕ) × (blocks_to_read part inode start end ≡ done all_blocks)
      × Looked part inode start end all_blocks
unfolding blocks_to_read read_table file_block
blocks_to_read-Looked part inode start end order few table = elim (Bool-cases (start == end)) [
  | inl one ↦ elim (Bool-cases (ltb end 12)) [
    | inl direct ↦
        (update (λ idx. 0) end (inode.i_sectors end), rw (one, direct) refl, λ j a b. ground arith)
    | inr indirect ↦ (
      read_table part (inode.i_sectors 12) (λ idx. 0),
      rw (one, indirect) refl,
      λ j a b. ground arith,
    )
  ]
  | inr several ↦ elim (Bool-cases (ltb end 12)) [
    | inl direct ↦ (
      copy_sectors (end + 1 - start) inode (λ idx. 0) start,
      rw (several, direct) refl,
      λ j a b. ground (arith, copy_sectors-inside (end + 1 - start) inode (λ idx. 0) start j),
    )
    | inr indirect ↦
        let full : (inode.i_sectors 12 == 0) ≡ false = elim table [
          | inl d ↦ absurd (ground arith)
          | inr ne ↦ ne→== _ _ ne
        ] in
        elim (Bool-cases (ltb start 12)) [
          | inl mixed ↦ (
            read_table part (inode.i_sectors 12) (copy_sectors (12 - start) inode (λ idx. 0) start),
            rw (several, indirect, mixed, full) refl,
            λ j a b. ground (arith, copy_sectors-inside (12 - start) inode (λ idx. 0) start j),
          )
          | inr far ↦ (
            read_table part (inode.i_sectors 12) (λ idx. 0),
            rw (several, indirect, far, full) refl,
            λ j a b. ground arith,
          )
        ]
  ]
]
