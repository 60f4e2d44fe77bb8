-- ===== src/Calls/Append.antt =====
-- `sys_write`, `sys_lseek` and `sys_read` of fs/fs.c one behind the other.
use winx.Base.{
  ℕ, ◌+◌, ◌-◌, ◌*◌, ◌/◌, ◌^◌, ◌≤◌, ◌<◌, bit_and, ◌≡◌, refl, sym, ap, ◌∙◌, ◌⊎◌, inl, inr, false,
  ◌&&◌, some, List, [], ◌∷◌, arith, ◌==◌, if◌then◌else◌, Bool-cases, ==-refl, ne→==, update, done,
}
use winx.Base.{pos, fits_int32-pos, pos-injective}
use winx.CString.{Memory}
use winx.Volume.{Volume}
use winx.Inode.{Inode, Layout}
use winx.File.{file_read}
use winx.Bitmap.Taking.{free_bits}
use winx.FileWrite.{file_write}
use winx.FileWrite.Allocated.{IsVolume}
use winx.FileWrite.Blocks.{IsBlocks}
use winx.FileWrite.WriteRoom.{IsPlaced}
use winx.FileWrite.Append.{file_write_lem}
use winx.FileWrite.ReadBack.{read-Appended}
use winx.Calls.{
  Files, find_inode, store_inode, write_file, read_file, new_pos, sys_write, sys_lseek, sys_read,
}
use winx.Calls.Seek.{IsOpen, global_file-IsOpen, inode_of-IsOpen, at_place, sought}

pub find_inode-store_inode :
    (opened : List Inode) (inode inode' : Inode)
    → find_inode opened inode.i_no ≡ some inode
    → inode'.i_no ≡ inode.i_no
    → find_inode (store_inode opened inode') inode'.i_no ≡ some inode'
unfolding find_inode store_inode
find_inode-store_inode [] inode inode' found e = absurd (ground (arith, found))
find_inode-store_inode (other ∷ rest) inode inode' found e =
    elim (Bool-cases (other.i_no == inode'.i_no)) [
      | inl here ↦ rw (here, ==-refl inode'.i_no) refl
      | inr ne ↦
          let elsewhere : (other.i_no == inode.i_no) ≡ false = rw (sym e) ne in
          rw (ne, ne)
            (find_inode-store_inode rest inode inode'
              (sym (ap (λ b. if b then some other else find_inode rest inode.i_no) elsewhere)
                ∙ found)
              e)
    ]

-- the state behind a write
written : Files → ℕ → Volume → Inode → ℕ → Files
written s file part inode fd_pos = record s {
  part = part;
  opened = store_inode s.opened inode;
  file_table = update s.file_table file (record (s.file_table file) { fd_pos = fd_pos });
}

module _ {s : Files} {fd file : ℕ} {inode : Inode} (o : IsOpen s fd file inode) where
  at_place-IsOpen : (at : ℕ) → IsOpen (at_place s file at) fd file inode
  at_place-IsOpen at = record {
    descriptor = o.descriptor;
    global = o.global;
    slot = o.slot;
    number = rw (==-refl file) o.number;
    found = o.found;
  }

  written-IsOpen :
      (part : Volume) (inode' : Inode) (fd_pos : ℕ)
      → inode'.i_no ≡ inode.i_no
      → IsOpen (written s file part inode' fd_pos) fd file inode'
  unfolding written
  written-IsOpen part inode' fd_pos e = record {
    descriptor = o.descriptor;
    global = o.global;
    slot = o.slot;
    number = rw (==-refl file) (o.number ∙ ap some (sym e));
    found = find_inode-store_inode s.opened inode inode' o.found e;
  }

  sys_write-written :
      (layout : Layout) (mem : Memory) (buf count : ℕ) (part : Volume) (inode' : Inode) (fd_pos : ℕ)
      → 3 ≤ fd
      → (bit_and (s.file_table file).fd_flag 1 == 0 && bit_and (s.file_table file).fd_flag 2 == 0)
        ≡ false
      → file_write layout s.part inode mem (s.file_table file).fd_pos buf count
        ≡ done (record { part = part; inode = inode'; fd_pos = fd_pos; bytes_written = some count })
      → sys_write layout s mem (pos fd) buf count
        ≡ done (written s file part inode' fd_pos, some count)
  unfolding sys_write write_file written
  sys_write-written layout mem buf count part inode' fd_pos high writable e =
      rw (ne→== fd 1 (omega arith), global_file-IsOpen o, writable, inode_of-IsOpen o, e) refl

  sys_read-read :
      (typed : ℕ → ℕ) (mem mem' : Memory) (buf count fd_pos : ℕ)
      → 3 ≤ fd
      → file_read s.part inode mem (s.file_table file).fd_pos buf count
        ≡ done (mem', fd_pos, some count)
      → sys_read typed s mem (pos fd) buf count ≡ done (at_place s file fd_pos, mem', some count)
  unfolding sys_read read_file
  sys_read-read typed mem mem' buf count fd_pos high e =
      rw
        (
          ne→== fd 1 (omega arith),
          ne→== fd 2 (omega arith),
          ne→== fd 0 (omega arith),
          global_file-IsOpen o,
          inode_of-IsOpen o,
          e,
        )
        refl

  sys_lseek-at :
      (at : ℕ)
      → at ≤ inode.i_size
      → inode.i_size < 2 ^ 31
      → sys_lseek s (pos fd) (pos at) 1 ≡ done (at_place s file at, some at)
  unfolding new_pos
  sys_lseek-at at inside small =
      elim (sought s fd file inode (pos at) 1 o small (pos at) refl
        (fits_int32-pos at (omega arith))) [
          | inl (there, e, inside', run) ↦
              run ∙ ap (λ k. done (at_place s file k, some k)) (sym (pos-injective e))
          | inr (out, run) ↦ absurd (out at inside refl)
        ]

-- What `sys_write` appends to an open file, `sys_lseek` to where the file ended and `sys_read` give
-- back: some bytes, for a descriptor from 3 on that is open for writing, of a well-formed file that
-- stays below 139 blocks and whose inode has a number below 256 and its place in the table, on a
-- well-formed partition with blocks enough free.
pub sys_read-sys_write :
    (layout : Layout) (typed : ℕ → ℕ) (s : Files) (fd file : ℕ) (inode : Inode) (blocks : ℕ → ℕ)
    (mem mem' : Memory) (buf dst count : ℕ)
    → IsOpen s fd file inode
    → 3 ≤ fd
    → (bit_and (s.file_table file).fd_flag 1 == 0 && bit_and (s.file_table file).fd_flag 2 == 0)
      ≡ false
    → IsVolume s.part
    → IsPlaced layout s.part inode.i_no
    → IsBlocks s.part inode blocks (inode.i_size / 512 + 1)
      ⊎ ((inode.i_size ≡ 0) × IsBlocks s.part inode blocks 0)
    → inode.i_size + count < 139 * 512
    → 0 < count
    → (inode.i_size + count) / 512 - inode.i_size / 512 + 2 ≤ free_bits s.part.block_bitmap
    → (s₁ : Files) × (s₂ : Files) × (s₃ : Files) × (mem'' : Memory) × (sys_write layout s mem
          (pos fd)
          buf
          count
        ≡ done (s₁, some count))
      × (sys_lseek s₁ (pos fd) (pos inode.i_size) 1 ≡ done (s₂, some inode.i_size))
      × (sys_read typed s₂ mem' (pos fd) dst count ≡ done (s₃, mem'', some count))
      × ((i : ℕ) → i < count → mem'' (dst + i) ≡ mem (buf + i))
unfolding written
sys_read-sys_write layout typed s fd file inode blocks mem mem' buf dst count o high writable v
      placed f short some_bytes free =
    let (part', inode', fd_pos', run, h) =
      file_write_lem layout mem buf count s.part inode blocks (s.file_table file).fd_pos v placed f
        (omega arith) free in
    let (mem'', run', same) =
      read-Appended s.part part' inode inode' blocks mem mem' buf dst count h short some_bytes in
    let s₁ = written s file part' inode' fd_pos' in
    let s₂ = at_place s₁ file inode.i_size in
    let o₁ = written-IsOpen o part' inode' fd_pos' h.i_no in
    let o₂ = at_place-IsOpen o₁ inode.i_size in
    let here : (s₂.file_table file).fd_pos ≡ inode.i_size = rw (==-refl file) refl in
    (
      s₁,
      s₂,
      at_place s₂ file (inode.i_size + count),
      mem'',
      sys_write-written o layout mem buf count part' inode' fd_pos' high writable run,
      sys_lseek-at o₁ inode.i_size (omega (arith, h.i_size)) (omega (arith, h.i_size)),
      sys_read-read o₂ typed mem' mem'' dst count (inode.i_size + count) high
          (ap (λ p. file_read part' inode' mem' p dst count) here ∙ run'),
      same,
    )
