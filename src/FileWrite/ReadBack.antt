-- ===== src/FileWrite/ReadBack.antt =====
-- `file_read` of fs/file.c behind `file_write`.
use winx.Base.{
  ℕ, ◌+◌, ◌-◌, ◌*◌, ◌/◌, ◌≤◌, ◌<◌, min, ◌≡◌, ap, ◌∙◌, ◌≢◌, ◌⊎◌, inl, inr, true, ◌&&◌, some, arith,
  ltb, leb, done,
}
use winx.CString.{Memory}
use winx.Volume.{Volume}
use winx.Inode.{Inode, Layout}
use winx.File.{file_read}
use winx.Bitmap.Taking.{free_bits}
use winx.File.Blocks.{file_byte}
use winx.File.Read.{Fetched, file_read_lem}
use winx.FileWrite.{Written, file_write}
use winx.FileWrite.Allocated.{IsVolume}
use winx.FileWrite.Blocks.{IsBlocks}
use winx.FileWrite.WriteRoom.{IsPlaced}
use winx.FileWrite.Append.{Appended, file_write_lem}

-- A long file has a table.
has_table :
    {part : Volume} {inode : Inode} {blocks : ℕ → ℕ}
    → IsVolume part
    → IsBlocks part inode blocks (inode.i_size / 512 + 1)
    → (inode.i_size < 12 * 512) ⊎ (inode.i_sectors 12 ≢ 0)
has_table v f = elim f.table [
  | inl (few, none_yet) ↦ inl (omega arith)
  | inr (many, t) ↦ inr (λ e. absurd (omega (arith, e, t.mine.0, v.low)))
]

Fetched-bytes :
    (part : Volume) (inode : Inode) (mem mem' : Memory) (p dst size i : ℕ)
    → Fetched part inode mem p dst size mem'
    → i < size
    → mem' (dst + i) ≡ file_byte part inode (p + i)
unfolding Fetched
Fetched-bytes part inode mem mem' p dst size i h a =
    let within : (leb dst (dst + i) && ltb (dst + i) (dst + size)) ≡ true = ground arith in
    h (dst + i) ∙ rw within (ap (λ k. file_byte part inode (p + k)) (omega arith))

pub read-Appended :
    (part part' : Volume) (inode inode' : Inode) (blocks : ℕ → ℕ) (mem mem' : Memory)
    (buf dst count : ℕ)
    → Appended part inode blocks mem buf count part' inode'
    → inode.i_size + count < 139 * 512
    → 0 < count
    → (mem'' : Memory) × (file_read part' inode' mem' inode.i_size dst count
        ≡ done (mem'', inode.i_size + count, some count))
      × ((i : ℕ) → i < count → mem'' (dst + i) ≡ mem (buf + i))
read-Appended part part' inode inode' blocks mem mem' buf dst count h short some_bytes =
    let (blocks', f) = h.is_blocks in
    elim (file_read_lem part' inode' mem' inode.i_size dst (omega (arith, h.i_size))
      (omega (arith, h.i_size)) (has_table h.later.volume f) count (omega arith)) [
        | inl (end, more, e) ↦ absurd (omega (arith, h.i_size))
        | inr (inside, (mem'', e, fetched)) ↦
            let all : min count (inode'.i_size - inode.i_size) ≡ count = ground (arith, h.i_size) in
            (
              mem'',
              e ∙ ap (λ n. done (mem'', inode.i_size + n, some n)) all,
              λ i a.
                  Fetched-bytes part' inode' mem' mem'' inode.i_size dst _ i fetched
                    (omega (arith, all))
                  ∙ h.new (inode.i_size + i) (omega arith) (omega arith)
                  ∙ ap mem (omega arith),
            )
      ]

-- What `file_write` appends, a `file_read` from where the file ended gives back: some bytes, on a
-- well-formed partition with blocks enough free, to a well-formed file that stays below 139 blocks
-- and whose inode has a number below 256 and its place in the table.
pub file_read-file_write :
    (layout : Layout) (part : Volume) (inode : Inode) (blocks : ℕ → ℕ) (mem mem' : Memory)
    (fd_pos buf dst count : ℕ)
    → IsVolume part
    → IsPlaced layout part inode.i_no
    → IsBlocks part inode blocks (inode.i_size / 512 + 1)
      ⊎ ((inode.i_size ≡ 0) × IsBlocks part inode blocks 0)
    → inode.i_size + count < 139 * 512
    → 0 < count
    → (inode.i_size + count) / 512 - inode.i_size / 512 + 2 ≤ free_bits part.block_bitmap
    → (w : Written) × (mem'' : Memory) × (file_write layout part inode mem fd_pos buf count
        ≡ done w)
      × (file_read w.part w.inode mem' inode.i_size dst count
          ≡ done (mem'', inode.i_size + count, some count))
      × ((i : ℕ) → i < count → mem'' (dst + i) ≡ mem (buf + i))
file_read-file_write layout part inode blocks mem mem' fd_pos buf dst count v placed f short
      some_bytes free =
    let (part', inode', fd_pos', run, h) =
      file_write_lem layout mem buf count part inode blocks fd_pos v placed f (omega arith) free in
    let (mem'', run', same) =
      read-Appended part part' inode inode' blocks mem mem' buf dst count h short some_bytes in
    (
      record { part = part'; inode = inode'; fd_pos = fd_pos'; bytes_written = some count },
      mem'',
      run,
      run',
      same,
    )
