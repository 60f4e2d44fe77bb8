-- ===== src/Volume.antt =====
-- The mounted partition of fs/fs.c: what its super block says, its two bitmaps in memory, and the
-- bytes of the sectors on the disk, which `ide_read` and `ide_write` of device/ide.c transfer.
use winx.Base.{ℕ, ◌+◌, ◌-◌, ◌&&◌, ltb, leb, if◌then◌else◌, update}
use winx.CString.{Memory}
use winx.Bitmap.{Bitmap}

-- the fields of `partition` and `super_block` that the file system reads
pub record Volume : Type 0 where
  pub start_lba : ℕ
  pub sec_cnt : ℕ
  pub block_bitmap_lba : ℕ
  pub inode_bitmap_lba : ℕ
  pub inode_table_lba : ℕ
  pub data_start_lba : ℕ
  pub block_bitmap : Bitmap
  pub inode_bitmap : Bitmap
  -- by the number of the sector and the place in it
  pub sectors : ℕ → Memory

-- two sectors in a row, as they stand in a buffer
abbrev pub two_sectors : (ℕ → Memory) → ℕ → Memory
two_sectors sectors lba b = if ltb b 512 then sectors lba b else sectors (lba + 1) (b - 512)

-- a buffer written over one sector, and over two
abbrev pub write_one : (ℕ → Memory) → ℕ → Memory → ℕ → Memory
write_one sectors lba buf = update sectors lba buf

abbrev pub write_two : (ℕ → Memory) → ℕ → Memory → ℕ → Memory
write_two sectors lba buf = update (update sectors lba buf) (lba + 1) (λ b. buf (b + 512))

-- `memcpy(buf + off, bytes, size)`
abbrev pub overwrite : Memory → ℕ → ℕ → Memory → Memory
overwrite buf off size bytes b = if leb off b && ltb b (off + size) then bytes (b - off) else buf b
