-- ===== src/FileWrite.antt =====
-- `file_write` of fs/file.c: it makes room for the bytes, and appends them. `none` is -1; what has
-- been allocated until then stays so.
pub mod Allocated
pub mod Grow
pub mod Chunks
pub mod Blocks
pub mod More
pub mod MakeRoom
pub mod MoreBlocks
pub mod WriteRoom
pub mod Append
pub mod ReadBack
mod Examples
use winx.Base.{
  ℕ, zero, suc, ◌+◌, ◌-◌, ◌*◌, ◌/◌, ◌%◌, ◌^◌, ◌≤◌, ◌<◌, min, bit_and, bit_or, ◌≡◌, refl, sym, ap,
  ap₂, subst, ◌∙◌, fun_ext, ◌≢◌, ◌↔◌, ◌⊎◌, inl, inr, Bool, true, false, not, ◌&&◌, ◌||◌, Option,
  none, some, List, [], ◌∷◌, ◌++◌, arith, ltb, leb, ◌==◌, if◌then◌else◌, Bool-cases, Option-cases,
  ==→eq, ==-refl, ne→==, lt→ltb, le→ltb, length, get_or, length-append, update, slice, Run, done,
  halted, unfinished, ◌>>=◌, ◌>>◌, assert, le→leb, lt→leb, leb→le, leb→lt, ltb→lt, ltb→le, Ends,
  Ends->>=, Ends-assert, Ends-any,
}
use winx.CString.{Memory}
use winx.Volume.{Volume, write_one, overwrite}
use winx.Inode.{Inode, Layout, inode_sync}
use winx.File.{block_bitmap_alloc, bitmap_sync, block_bits, read_table}

-- a file on its partition while `file_write` makes room; `all_blocks` is `none` after a failure
pub record Room : Type 0 where
  pub part : Volume
  pub inode : Inode
  pub all_blocks : Option (ℕ → ℕ)

abbrev set_sector : Inode → ℕ → ℕ → Inode
set_sector inode idx lba = record inode { i_sectors = update inode.i_sectors idx lba }

-- `block_lba = block_bitmap_alloc(cur_part)` and, with `synced`, `bitmap_sync` of its bit
pub new_block : Bool → Volume → Run (Volume × Option ℕ)
new_block synced part = block_bitmap_alloc part >>= λ (part', found). elim found [
  | none ↦ done (part', none)
  | some block_lba ↦ done (
    (if synced then bitmap_sync part' (block_lba - part'.data_start_lba) block_bits else part'),
    some block_lba,
  )
]

-- The loops over the blocks to add, `left` of them from `idx` on. Below 12 a block goes into the
-- inode, too.
pub add_blocks : ℕ → Volume → Inode → (ℕ → ℕ) → ℕ → Run Room
add_blocks zero part inode all_blocks idx =
    done (record { part = part; inode = inode; all_blocks = some all_blocks })
add_blocks (suc left) part inode all_blocks idx = new_block true part >>= λ (part', found).
    elim found [
      | none ↦ done (record { part = part'; inode = inode; all_blocks = none })
      | some block_lba ↦ do
        assert (not (ltb idx 12) || inode.i_sectors idx == 0)
        add_blocks left part' (if ltb idx 12 then set_sector inode idx block_lba else inode)
            (update all_blocks idx block_lba) (idx + 1)
    ]

-- the bytes of `all_blocks + 12`
unfoldable pub table_bytes : (ℕ → ℕ) → Memory
table_bytes all_blocks b = all_blocks (12 + b / 4) / 256 ^ (b % 4) % 256

-- `ide_write(cur_part->my_disk, indirect_block_table, all_blocks + 12, 1)` where all has gone well
pub write_table : ℕ → Room → Room
write_table table room = elim room.all_blocks [
  | none ↦ room
  | some all_blocks ↦ record room {
    part = record room.part {
      sectors = write_one room.part.sectors table (table_bytes all_blocks);
    };
  }
]

-- the block that a file without one gets first
pub first_block : Volume → Inode → Run Room
first_block part inode =
    if inode.i_sectors 0 == 0
    then (new_block true part >>= λ (part', found). elim found [
      | none ↦ done (record { part = part'; inode = inode; all_blocks = none })
      | some block_lba ↦ done (record {
        part = part';
        inode = set_sector inode 0 block_lba;
        all_blocks = some (λ idx. 0);
      })
    ])
    else done (record { part = part; inode = inode; all_blocks = some (λ idx. 0) })

-- The four cases. `used` and `will_use` are `file_has_used_blocks` and `file_will_use_blocks`.
pub more_blocks : Volume → Inode → ℕ → ℕ → Run Room
more_blocks part inode used will_use =
    let last : ℕ → ℕ = update (λ idx. 0) (used - 1) (inode.i_sectors (used - 1)) in
    let table = inode.i_sectors 12 in
    if will_use == used
    then (if leb used 12
        then done (record { part = part; inode = inode; all_blocks = some last })
        else done (record {
          part = part;
          inode = inode;
          all_blocks = some (read_table part table (λ idx. 0));
        }))
    else if leb will_use 12
    then add_blocks (will_use - used) part inode last used
    else if leb used 12
    then (new_block false part >>= λ (part', found). elim found [
      | none ↦ done (record { part = part'; inode = inode; all_blocks = none })
      | some block_lba ↦ do
        assert (table == 0)
        room ← add_blocks (will_use - used) part' (set_sector inode 12 block_lba) last used
        done (write_table block_lba room)
    ])
    else (do
      assert (not (table == 0))
      room ← add_blocks (will_use - used) part inode (read_table part table (λ idx. 0)) used
      done (write_table table room))

-- what the loop of `file_write` changes
pub record Writing : Type 0 where
  pub part : Volume
  pub i_size : ℕ
  pub fd_pos : ℕ

-- The first chunk is put into the block that is there; all others into a block of zeros. The model
-- halts where the code would look behind the 140 words of `all_blocks`.
pub write_chunks : ℕ → Bool → Writing → (ℕ → ℕ) → Memory → ℕ → ℕ → ℕ → ℕ → Run Writing
write_chunks zero first w all_blocks mem src bytes_written size_left count = unfinished
write_chunks (suc fuel) first w all_blocks mem src bytes_written size_left count =
    let sec_lba = all_blocks (w.i_size / 512) in
    let off = w.i_size % 512 in
    let chunk_size = if ltb size_left (512 - off) then size_left else 512 - off in
    let io_buf : Memory = if first then w.part.sectors sec_lba else λ b. 0 in
    let rest =
      write_chunks fuel false
        (record {
          part = record w.part {
            sectors =
                write_one w.part.sectors sec_lba
                  (overwrite io_buf off chunk_size (λ i. mem (src + i)));
          };
          i_size = w.i_size + chunk_size;
          fd_pos = (w.fd_pos + chunk_size) % 2 ^ 32;
        })
        all_blocks mem (src + chunk_size) (bytes_written + chunk_size) (size_left - chunk_size)
        count in
    if ltb bytes_written count then (do assert (ltb (w.i_size / 512) 140); rest) else done w

pub record Written : Type 0 where
  pub part : Volume
  pub inode : Inode
  pub fd_pos : ℕ
  pub bytes_written : Option ℕ

pub write_room : Layout → Room → Memory → ℕ → ℕ → ℕ → Run Written
write_room layout room mem fd_pos buf count = elim room.all_blocks [
  | none ↦
      done (record { part = room.part; inode = room.inode; fd_pos = fd_pos; bytes_written = none })
  | some all_blocks ↦ do
    w ←
        write_chunks (count + 1) true
          (record {
            part = room.part;
            i_size = room.inode.i_size;
            fd_pos = (room.inode.i_size + 2 ^ 32 - 1) % 2 ^ 32;
          })
          all_blocks mem buf 0 count count
    part ← inode_sync layout w.part (record room.inode { i_size = w.i_size })
    done (record {
      part = part;
      inode = record room.inode { i_size = w.i_size };
      fd_pos = w.fd_pos;
      bytes_written = some count;
    })
]

-- the rest of `file_write`, once the file has a block
pub write_sized : Layout → Room → Memory → ℕ → ℕ → ℕ → Run Written
write_sized layout room mem fd_pos buf count =
    let used = room.inode.i_size / 512 + 1 in
    let will_use = (room.inode.i_size + count) % 2 ^ 32 / 512 + 1 in
    let failed : Written = record {
      part = room.part;
      inode = room.inode;
      fd_pos = fd_pos;
      bytes_written = none;
    } in
    elim room.all_blocks [
      | none ↦ done failed
      | some none_yet ↦ if ltb 140 will_use then done failed else (do
        room' ← more_blocks room.part room.inode used will_use
        write_room layout room' mem fd_pos buf count)
    ]

pub file_write : Layout → Volume → Inode → Memory → ℕ → ℕ → ℕ → Run Written
file_write layout part inode mem fd_pos buf count =
    if ltb (512 * 140) ((inode.i_size + count) % 2 ^ 32)
    then done (record { part = part; inode = inode; fd_pos = fd_pos; bytes_written = none })
    else (do room ← first_block part inode; write_sized layout room mem fd_pos buf count)
