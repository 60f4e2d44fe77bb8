-- ===== src/Inode.antt =====
-- fs/inode.c. Reading and writing a struct as bytes is the compiler's, and a parameter. Where the
-- code goes on with a position that `inode_locate` has not set, the model halts.
pub mod Table
pub mod Above
pub mod Opened
mod Examples
use winx.Base.{
  ℕ, zero, suc, ◌+◌, ◌-◌, ◌*◌, ◌/◌, ◌%◌, ◌^◌, ◌≤◌, ◌<◌, min, bit_and, bit_or, ◌≡◌, refl, sym, ap,
  ap₂, subst, ◌∙◌, fun_ext, ◌≢◌, ◌↔◌, ◌⊎◌, inl, inr, Bool, true, false, not, ◌&&◌, ◌||◌, Option,
  none, some, List, [], ◌∷◌, ◌++◌, arith, ltb, leb, ◌==◌, if◌then◌else◌, Bool-cases, Option-cases,
  ==→eq, ==-refl, ne→==, lt→ltb, le→ltb, length, get_or, length-append, update, slice, Run, done,
  halted, unfinished, ◌>>=◌, ◌>>◌, assert, le→leb, lt→leb, leb→le, leb→lt, ltb→lt, ltb→le, Ends,
  Ends->>=, Ends-assert, Ends-any, ℤ, pos, negsuc,
}
use winx.CString.{Memory}
use winx.Volume.{Volume, two_sectors, write_one, write_two, overwrite}

-- the fields of `inode` that the code reads; 13 of `i_sectors` are in use
pub record Inode : Type 0 where
  pub i_no : ℕ
  pub i_size : ℕ
  pub i_open_cnts : ℕ
  pub write_deny : Bool
  pub i_sectors : ℕ → ℕ

-- `sizeof(struct inode)`, and a struct's bytes and the struct that bytes are
pub record Layout : Type 0 where
  pub size : ℕ
  pub to_bytes : Inode → Memory
  pub from_bytes : Memory → Inode

pub record InodePosition : Type 0 where
  pub two_sec : Bool
  pub sec_lba : ℕ
  pub off_size : ℕ

pub inode_init : ℕ → Inode → Inode
inode_init inode_no new_inode = record new_inode {
  i_no = inode_no;
  i_size = 0;
  i_open_cnts = 0;
  write_deny = false;
  i_sectors = λ sec_idx. if ltb sec_idx 13 then 0 else new_inode.i_sectors sec_idx;
}

module _ (layout : Layout) where
  -- `none`: the position is not set.
  unfoldable pub inode_locate : Volume → ℕ → Option InodePosition
  inode_locate part inode_no =
      let off_size = (inode_no * layout.size) % 2 ^ 32 in
      if ltb 4096 inode_no
      then none
      else some (record {
        two_sec = ltb (512 - off_size % 512) layout.size;
        sec_lba = (part.inode_table_lba + off_size / 512) % 2 ^ 32;
        off_size = off_size % 512;
      })

  -- the bytes of the inode in the buffer that its sectors are read into
  unfoldable pub read_at : Volume → InodePosition → Memory
  read_at part place i =
      if place.two_sec
      then two_sectors part.sectors place.sec_lba (place.off_size + i)
      else part.sectors place.sec_lba (place.off_size + i)

  -- the sectors read, the inode's bytes replaced, and the sectors written back
  pub write_at : Volume → InodePosition → Memory → Volume
  write_at part place bytes = record part {
    sectors =
        if place.two_sec
        then write_two part.sectors place.sec_lba
            (overwrite (two_sectors part.sectors place.sec_lba) place.off_size layout.size bytes)
        else write_one part.sectors place.sec_lba
            (overwrite (part.sectors place.sec_lba) place.off_size layout.size bytes);
  }

  sync_at : Volume → Inode → Option InodePosition → Run Volume
  sync_at part inode none = halted
  sync_at part inode (some place) = do
    assert (leb place.sec_lba (part.start_lba + part.sec_cnt))
    done (
        write_at part place
          (layout.to_bytes (record inode { i_open_cnts = 0; write_deny = false })))

  -- `uint8_t inode_no = inode->i_no;`
  pub inode_sync : Volume → Inode → Run Volume
  unfolding sync_at
  inode_sync part inode = sync_at part inode (inode_locate part (inode.i_no % 2 ^ 8))

  delete_at : Volume → Option InodePosition → Volume
  delete_at part none = part
  delete_at part (some place) =
      if ltb (part.start_lba + part.sec_cnt) place.sec_lba
      then part
      else write_at part place (λ i. 0)

  pub inode_delete : Volume → ℕ → Volume
  unfolding delete_at
  inode_delete part inode_no =
      if leb 4096 inode_no then part else delete_at part (inode_locate part inode_no)

  unfoldable pub load_at : Volume → Option InodePosition → Run Inode
  load_at part none = halted
  load_at part (some place) = done (layout.from_bytes (read_at part place))

  -- the struct that `inode_open` reads from the disk
  unfoldable pub load_inode : Volume → ℕ → Run Inode
  unfolding load_at
  load_inode part inode_no = load_at part (inode_locate part inode_no)

-- The open inodes are the elements of the list `open_inodes`, each with its struct; the pointer to
-- one is the number it carries. The loop of `inode_open`: `none` where it finds nothing.
pub reopen : List Inode → ℕ → Option (List Inode)
reopen [] inode_no = none
reopen (inode ∷ rest) inode_no =
    if inode.i_no == inode_no
    then some (record inode { i_open_cnts = (inode.i_open_cnts + 1) % 2 ^ 32 } ∷ rest)
    else elim (reopen rest inode_no) [ none ↦ none | some rest' ↦ some (inode ∷ rest') ]

open_new : Layout → Volume → List Inode → ℕ → Option (List Inode) → Run (List Inode)
open_new layout part opened inode_no (some opened') = done opened'
open_new layout part opened inode_no none = do
  inode ← load_inode layout part inode_no
  done (record inode { i_open_cnts = 1 } ∷ opened)

pub inode_open : Layout → Volume → List Inode → ℕ → Run (List Inode)
unfolding open_new reopen
inode_open layout part opened inode_no =
    open_new layout part opened inode_no (reopen opened inode_no)

pub inode_close : List Inode → ℕ → List Inode
inode_close [] inode_no = []
inode_close (inode ∷ rest) inode_no =
    let left = (inode.i_open_cnts + 2 ^ 32 - 1) % 2 ^ 32 in
    if inode.i_no == inode_no
    then if left == 0 then rest else record inode { i_open_cnts = left } ∷ rest
    else inode ∷ inode_close rest inode_no
