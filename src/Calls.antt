-- ===== src/Calls.antt =====
-- The calls of fs/fs.c on open files. What is printed is not modelled, and `typed` are the bytes that
-- `ioq_getchar(&kbd_buf)` gives. Where the code uses a pointer to nothing, goes behind an array or
-- makes a sum that is no int32_t, the model halts.
pub mod Seek
pub mod Append
pub mod Open
mod Examples
use winx.Base.{
  ℕ, zero, suc, ◌+◌, ◌-◌, ◌*◌, ◌/◌, ◌%◌, ◌^◌, ◌≤◌, ◌<◌, min, bit_and, bit_or, ◌≡◌, refl, sym, ap,
  ap₂, subst, ◌∙◌, fun_ext, ◌≢◌, ◌↔◌, ◌⊎◌, inl, inr, Bool, true, false, not, ◌&&◌, ◌||◌, Option,
  none, some, List, [], ◌∷◌, ◌++◌, arith, ltb, leb, ◌==◌, if◌then◌else◌, Bool-cases, Option-cases,
  ==→eq, ==-refl, ne→==, lt→ltb, le→ltb, length, get_or, length-append, update, slice, Run, done,
  halted, unfinished, ◌>>=◌, ◌>>◌, assert, le→leb, lt→leb, leb→le, leb→lt, ltb→lt, ltb→le, Ends,
  Ends->>=, Ends-assert, Ends-any,
}
use winx.Base.{ℤ, pos, negsuc, ◌+ℤ◌, to_int32, fits_int32}
use winx.CString.{Memory}
use winx.Volume.{Volume, overwrite}
use winx.Inode.{inode_open, Inode, Layout, inode_close}
use winx.File.{
  File, fd_local2global, file_read, max_files_open_per_proc, get_free_slot_in_global,
  pcb_fd_install,
}
use winx.FileWrite.{Written, file_write}

-- the mounted partition with its open inodes, the table of files, and the descriptors of the thread
pub record Files : Type 0 where
  pub part : Volume
  pub opened : List Inode
  pub file_table : ℕ → File
  pub fd_table : ℕ → Option ℕ

pub find_inode : List Inode → ℕ → Option Inode
find_inode [] i_no = none
find_inode (inode ∷ rest) i_no = if inode.i_no == i_no then some inode else find_inode rest i_no

pub store_inode : List Inode → Inode → List Inode
store_inode [] inode = []
store_inode (other ∷ rest) inode =
    if other.i_no == inode.i_no then inode ∷ rest else other ∷ store_inode rest inode

pub value {ℓ} : {A : Type ℓ} → Option A → Run A
value none = halted
value (some a) = done a

-- `&file_table[fd_local2global(fd)]`, by its index
pub global_file : Files → ℕ → Run ℕ
global_file s fd = do assert (ltb fd max_files_open_per_proc); fd_local2global s.fd_table fd

-- `file->fd_inode`
pub inode_of : Files → File → Run Inode
inode_of s file = value file.fd_inode >>= λ i_no. value (find_inode s.opened i_no)

install : Files → ℕ → Files × Option ℕ
install s file =
    let (fd_table, fd) = pcb_fd_install s.fd_table file in (record s { fd_table = fd_table }, fd)

-- the slot `file` filled; an inode on the disk has to carry its number
deny_write : Files → ℕ → ℕ → Inode → Run (Files × Option ℕ)
deny_write s file flag inode =
    if bit_and flag 1 == 0 && bit_and flag 2 == 0
    then done (install s file)
    else if inode.write_deny
    then done (s, none)
    else done (
        install (record s { opened = store_inode s.opened (record inode { write_deny = true }) })
          file)

open_in : Layout → Files → ℕ → ℕ → ℕ → Run (Files × Option ℕ)
open_in layout s inode_no flag file = do
  opened ← inode_open layout s.part s.opened inode_no
  inode ← value (find_inode opened inode_no)
  deny_write
      (record s {
        opened = opened;
        file_table =
            update s.file_table file
              (record { fd_pos = 0; fd_flag = flag; fd_inode = some inode_no });
      })
      file flag inode

pub file_open : Layout → Files → ℕ → ℕ → Run (Files × Option ℕ)
file_open layout s inode_no flag = elim (get_free_slot_in_global s.file_table) [
  | none ↦ done (s, none)
  | some file ↦ open_in layout s inode_no flag file
]

pub file_close : Files → ℕ → Run Files
file_close s file = do
  inode ← inode_of s (s.file_table file)
  done (record s {
    opened = inode_close (store_inode s.opened (record inode { write_deny = false })) inode.i_no;
    file_table = update s.file_table file (record (s.file_table file) { fd_inode = none });
  })

-- true is 0, and false is -1
pub sys_close : Files → ℤ → Run (Files × Bool)
sys_close s (negsuc n) = done (s, false)
sys_close s (pos fd) = if leb fd 2 then done (s, false) else (do
  file ← global_file s fd
  s' ← file_close s file
  done (record s' { fd_table = update s'.fd_table fd none }, true))

write_file : Layout → Files → Memory → ℕ → ℕ → ℕ → Run (Files × Option ℕ)
write_file layout s mem file buf count =
    if bit_and (s.file_table file).fd_flag 1 == 0 && bit_and (s.file_table file).fd_flag 2 == 0
    then done (s, none)
    else (do
      inode ← inode_of s (s.file_table file)
      w ← file_write layout s.part inode mem (s.file_table file).fd_pos buf count
      done (
        record s {
          part = w.part;
          opened = store_inode s.opened w.inode;
          file_table = update s.file_table file (record (s.file_table file) { fd_pos = w.fd_pos });
        },
        w.bytes_written,
      ))

-- Bytes for descriptor 1 are printed, by way of 1024 bytes on the stack.
pub sys_write : Layout → Files → Memory → ℤ → ℕ → ℕ → Run (Files × Option ℕ)
sys_write layout s mem (negsuc n) buf count = done (s, none)
sys_write layout s mem (pos fd) buf count =
    if fd == 1
    then (do assert (leb count 1024); done (s, some count))
    else (do file ← global_file s fd; write_file layout s mem file buf count)

read_file : Files → Memory → ℕ → ℕ → ℕ → Run (Files × Memory × Option ℕ)
read_file s mem file buf count = do
  inode ← inode_of s (s.file_table file)
  (mem', fd_pos, bytes_read) ← file_read s.part inode mem (s.file_table file).fd_pos buf count
  done (
    record s {
      file_table = update s.file_table file (record (s.file_table file) { fd_pos = fd_pos });
    },
    mem',
    bytes_read,
  )

pub sys_read : (ℕ → ℕ) → Files → Memory → ℤ → ℕ → ℕ → Run (Files × Memory × Option ℕ)
sys_read typed s mem (negsuc n) buf count = done (s, mem, none)
sys_read typed s mem (pos fd) buf count =
    if fd == 1 || fd == 2
    then done (s, mem, none)
    else if fd == 0
    then done (s, overwrite mem buf count typed, if count == 0 then none else some count)
    else (do file ← global_file s fd; read_file s mem file buf count)

-- the position that `whence` and `offset` name: SEEK_SET is 1, SEEK_CUR 2 and SEEK_END 3
pub new_pos : ℕ → ℤ → ℕ → ℕ → ℤ
new_pos whence offset fd_pos i_size =
    if whence == 1
    then offset
    else if whence == 2
    then to_int32 fd_pos +ℤ offset
    else if whence == 3
    then to_int32 i_size +ℤ offset
    else pos 0

move_to : Files → ℕ → ℤ → ℤ → Run (Files × Option ℕ)
move_to s file (pos at) (pos size) =
    if ltb size at
    then done (s, none)
    else done (
      record s {
        file_table = update s.file_table file (record (s.file_table file) { fd_pos = at });
      },
      some at,
    )
move_to s file (pos at) (negsuc size) = done (s, none)
move_to s file (negsuc n) size = done (s, none)

pub sys_lseek : Files → ℤ → ℤ → ℕ → Run (Files × Option ℕ)
sys_lseek s (negsuc n) offset whence = done (s, none)
sys_lseek s (pos fd) offset whence = do
  file ← global_file s fd
  inode ← inode_of s (s.file_table file)
  let at = new_pos whence offset (s.file_table file).fd_pos inode.i_size
  assert (fits_int32 at)
  move_to s file at (to_int32 inode.i_size)
