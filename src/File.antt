-- ===== src/File.antt =====
-- fs/file.c: descriptors, the bits of inodes and blocks, and the contents of files. Memory for
-- buffers is always there, and zeroed, as `sys_malloc` leaves it.
pub mod Descriptors
pub mod Alloc
pub mod Blocks
pub mod Read
mod Examples
use winx.Base.{
  ℕ, zero, suc, ◌+◌, ◌-◌, ◌*◌, ◌/◌, ◌%◌, ◌^◌, ◌≤◌, ◌<◌, min, bit_and, bit_or, ◌≡◌, refl, sym, ap,
  ap₂, subst, ◌∙◌, fun_ext, ◌≢◌, ◌↔◌, ◌⊎◌, inl, inr, Bool, true, false, not, ◌&&◌, ◌||◌, Option,
  none, some, List, [], ◌∷◌, ◌++◌, arith, ltb, leb, ◌==◌, if◌then◌else◌, Bool-cases, Option-cases,
  ==→eq, ==-refl, ne→==, lt→ltb, le→ltb, length, get_or, length-append, update, slice, Run, done,
  halted, unfinished, ◌>>=◌, ◌>>◌, assert, le→leb, lt→leb, leb→le, leb→lt, ltb→lt, ltb→le, Ends,
  Ends->>=, Ends-assert, Ends-any, ℤ, pos, negsuc,
}
use winx.CString.{Memory}
use winx.Bitmap
use winx.Bitmap.{Bitmap}
use winx.Volume.{Volume, write_one, overwrite}
use winx.Inode.{Inode}

-- an entry of `file_table`; an inode is named by its number, and `none` is NULL
pub record File : Type 0 where
  pub fd_pos : ℕ
  pub fd_flag : ℕ
  pub fd_inode : Option ℕ

-- the first index from `idx` on, among the next `left`, that passes a test
unfoldable pub first_from : ℕ → (ℕ → Bool) → ℕ → Option ℕ
first_from zero test idx = none
first_from (suc left) test idx = if test idx then some idx else first_from left test (idx + 1)

abbrev pub is_none : Option ℕ → Bool
is_none none = true
is_none (some x) = false

abbrev pub max_file_open : ℕ
max_file_open = 32

abbrev pub max_files_open_per_proc : ℕ
max_files_open_per_proc = 8

unfoldable pub get_free_slot_in_global : (ℕ → File) → Option ℕ
unfolding first_from
get_free_slot_in_global file_table =
    first_from (max_file_open - 3) (λ fd_idx. is_none (file_table fd_idx).fd_inode) 3

-- `fd_table` of the running thread, where `none` is -1
pub pcb_fd_install : (ℕ → Option ℕ) → ℕ → (ℕ → Option ℕ) × Option ℕ
unfolding first_from
pcb_fd_install fd_table global_fd_idx =
    elim (first_from (max_files_open_per_proc - 3) (λ i. is_none (fd_table i)) 3) [
      | none ↦ (fd_table, none)
      | some local_fd_idx ↦ (update fd_table local_fd_idx (some global_fd_idx), some local_fd_idx)
    ]

pub fd_local2global : (ℕ → Option ℕ) → ℕ → Run ℕ
fd_local2global fd_table local_fd = elim (fd_table local_fd) [
  | none ↦ halted
  | some global_fd ↦ do assert (ltb global_fd max_file_open); done global_fd
]

inode_bit : Volume → Option ℕ → Run (Volume × Option ℕ)
inode_bit part none = done (part, none)
inode_bit part (some bit_idx) = do
  inode_bitmap ← Bitmap.set part.inode_bitmap bit_idx 1
  done (record part { inode_bitmap = inode_bitmap }, some bit_idx)

pub inode_bitmap_alloc : Volume → Run (Volume × Option ℕ)
unfolding inode_bit
inode_bitmap_alloc part = do bit_idx ← Bitmap.scan part.inode_bitmap 1; inode_bit part bit_idx

block_bit : Volume → Option ℕ → Run (Volume × Option ℕ)
block_bit part none = done (part, none)
block_bit part (some bit_idx) = do
  block_bitmap ← Bitmap.set part.block_bitmap bit_idx 1
  let block_lba = (part.data_start_lba + bit_idx) % 2 ^ 32
  done (
    record part { block_bitmap = block_bitmap },
    if block_lba == 2 ^ 32 - 1 then none else some block_lba,
  )

-- the number of the sector
pub block_bitmap_alloc : Volume → Run (Volume × Option ℕ)
unfolding block_bit
block_bitmap_alloc part = do bit_idx ← Bitmap.scan part.block_bitmap 1; block_bit part bit_idx

pub data BitmapType : Type 0 where
  inode_bits : BitmapType
  block_bits : BitmapType

-- the sector of the bitmap that has the bit, written to the disk
unfoldable pub bitmap_sync : Volume → ℕ → BitmapType → Volume
bitmap_sync part bit_idx inode_bits = record part {
  sectors =
      write_one part.sectors (part.inode_bitmap_lba + bit_idx / 4096)
        (λ b. part.inode_bitmap.bits (bit_idx / 4096 * 512 + b));
}
bitmap_sync part bit_idx block_bits = record part {
  sectors =
      write_one part.sectors (part.block_bitmap_lba + bit_idx / 4096)
        (λ b. part.block_bitmap.bits (bit_idx / 4096 * 512 + b));
}

-- a uint32_t of a sector
unfoldable pub word : Memory → ℕ → ℕ
word sector i =
    sector (4 * i)
    + 2 ^ 8 * sector (4 * i + 1)
    + 2 ^ 16 * sector (4 * i + 2)
    + 2 ^ 24 * sector (4 * i + 3)

-- `ide_read(cur_part->my_disk, indirect_block_table, all_blocks + 12, 1)`
unfoldable pub read_table : Volume → ℕ → (ℕ → ℕ) → ℕ → ℕ
unfolding word
read_table part lba all_blocks idx =
    if leb 12 idx && ltb idx 140 then word (part.sectors lba) (idx - 12) else all_blocks idx

-- `all_blocks[idx] = i_sectors[idx]` for `left` indices from `idx` on
pub copy_sectors : ℕ → Inode → (ℕ → ℕ) → ℕ → ℕ → ℕ
copy_sectors zero inode all_blocks idx = all_blocks
copy_sectors (suc left) inode all_blocks idx =
    copy_sectors left inode (update all_blocks idx (inode.i_sectors idx)) (idx + 1)

-- the blocks that `file_read` looks up before it reads
pub blocks_to_read : Volume → Inode → ℕ → ℕ → Run (ℕ → ℕ)
unfolding copy_sectors
blocks_to_read part inode start end =
    let none_yet : ℕ → ℕ = λ idx. 0 in
    let table = inode.i_sectors 12 in
    if start == end
    then (if ltb end 12
        then done (update none_yet end (inode.i_sectors end))
        else done (read_table part table none_yet))
    else if ltb end 12
    then done (copy_sectors (end + 1 - start) inode none_yet start)
    else if ltb start 12
    then (do
      assert (not (table == 0))
      done (read_table part table (copy_sectors (12 - start) inode none_yet start)))
    else (do assert (not (table == 0)); done (read_table part table none_yet))

-- the loop of `file_read`: the buffer, `fd_pos` and `bytes_read` when it ends
pub read_chunks : ℕ → Volume → (ℕ → ℕ) → Memory → ℕ → ℕ → ℕ → ℕ → ℕ → Run (Memory × ℕ × ℕ)
read_chunks zero part all_blocks mem buf_dst fd_pos bytes_read size size_left = unfinished
read_chunks (suc fuel) part all_blocks mem buf_dst fd_pos bytes_read size size_left =
    let io_buf = part.sectors (all_blocks (fd_pos / 512)) in
    let sec_off_bytes = fd_pos % 512 in
    let chunk_size =
      if ltb size_left (512 - sec_off_bytes) then size_left else 512 - sec_off_bytes in
    let rest =
      read_chunks fuel part all_blocks
        (overwrite mem buf_dst chunk_size (λ i. io_buf (sec_off_bytes + i))) (buf_dst + chunk_size)
        (fd_pos + chunk_size) (bytes_read + chunk_size) size (size_left - chunk_size) in
    if ltb bytes_read size then rest else done (mem, fd_pos, bytes_read)

-- `file_read` once it knows how much
pub read_size : Volume → Inode → Memory → ℕ → ℕ → ℕ → Run (Memory × ℕ × ℕ)
unfolding blocks_to_read read_chunks
read_size part inode mem buf fd_pos size = do
  let start = fd_pos / 512
  let end = (fd_pos + size) % 2 ^ 32 / 512
  assert (ltb start 139 && ltb end 139)
  all_blocks ← blocks_to_read part inode start end
  read_chunks (size + 1) part all_blocks mem buf fd_pos 0 size size

-- The memory with what is read at `buf`, the new `fd_pos`, and how much it is; `none` is -1.
pub file_read : Volume → Inode → Memory → ℕ → ℕ → ℕ → Run (Memory × ℕ × Option ℕ)
file_read part inode mem fd_pos buf count =
    let rest = (inode.i_size + 2 ^ 32 - fd_pos) % 2 ^ 32 in
    if ltb inode.i_size ((fd_pos + count) % 2 ^ 32)
    then (if rest == 0
        then done (mem, fd_pos, none)
        else read_size part inode mem buf fd_pos rest >>= λ (mem', fd_pos', bytes_read).
            done (mem', fd_pos', some bytes_read))
    else read_size part inode mem buf fd_pos count >>= λ (mem', fd_pos', bytes_read).
        done (mem', fd_pos', some bytes_read)
