-- ===== src/Calls/Seek.antt =====
-- `sys_lseek` of fs/fs.c.
use winx.Base.{
  ℕ, ◌^◌, ◌≤◌, ◌<◌, ◌≡◌, refl, sym, ◌∙◌, ◌≢◌, ◌⊎◌, inl, inr, true, none, some, arith, ltb,
  Bool-cases, ne→==, lt→ltb, update, done, ltb→lt, ltb→le,
}
use winx.Base.{ℤ, ◌+ℤ◌, pos, negsuc, fits_int32, to_int32-small, pos-injective, pos≢negsuc}
use winx.Inode.{Inode}
use winx.File.Descriptors.{fd_local2global-some}
use winx.Calls.{Files, find_inode, value, global_file, inode_of, new_pos, move_to, sys_lseek}

-- descriptor `fd` is open, with slot `file` of the table of files and an open inode
pub record IsOpen (s : Files) (fd : ℕ) (file : ℕ) (inode : Inode) : Type 0 where
  pub descriptor : fd < 8
  pub global : s.fd_table fd ≡ some file
  pub slot : file < 32
  pub number : (s.file_table file).fd_inode ≡ some inode.i_no
  pub found : find_inode s.opened inode.i_no ≡ some inode

pub global_file-IsOpen :
    {s : Files} {fd file : ℕ} {inode : Inode}
    → IsOpen s fd file inode
    → global_file s fd ≡ done file
unfolding global_file
global_file-IsOpen {s} {fd} {file} o =
    rw (lt→ltb fd 8 o.descriptor) (fd_local2global-some s.fd_table fd file o.global o.slot)

pub inode_of-IsOpen :
    {s : Files} {fd file : ℕ} {inode : Inode}
    → IsOpen s fd file inode
    → inode_of s (s.file_table file) ≡ done inode
unfolding inode_of value
inode_of-IsOpen o = rw (o.number, o.found) refl

-- a file at another place
abbrev pub at_place : Files → ℕ → ℕ → Files
at_place s file at = record s {
  file_table = update s.file_table file (record (s.file_table file) { fd_pos = at });
}

module _ (s : Files) (fd file : ℕ) (inode : Inode) (offset : ℤ) (whence : ℕ)
    (o : IsOpen s fd file inode) (small : inode.i_size < 2 ^ 31) where
  sys_lseek-move_to :
      (target : ℤ)
      → new_pos whence offset (s.file_table file).fd_pos inode.i_size ≡ target
      → fits_int32 target ≡ true
      → sys_lseek s (pos fd) offset whence ≡ move_to s file target (pos inode.i_size)
  unfolding sys_lseek
  sys_lseek-move_to target e fits =
      rw (global_file-IsOpen o, inode_of-IsOpen o, e, fits, to_int32-small inode.i_size small) refl

  pub sought :
      (target : ℤ)
      → new_pos whence offset (s.file_table file).fd_pos inode.i_size ≡ target
      → fits_int32 target ≡ true
      → ((at : ℕ) × (target ≡ pos at)
          × (at ≤ inode.i_size)
          × (sys_lseek s (pos fd) offset whence ≡ done (at_place s file at, some at)))
        ⊎ (((at : ℕ) → at ≤ inode.i_size → target ≢ pos at)
            × (sys_lseek s (pos fd) offset whence ≡ done (s, none)))
  unfolding move_to
  sought (pos at) e fits = elim (Bool-cases (ltb inode.i_size at)) [
    | inl over ↦ inr (
      λ k h q. omega (arith, ltb→lt inode.i_size at over, pos-injective q),
      sys_lseek-move_to (pos at) e fits ∙ rw (move_to, over) refl,
    )
    | inr inside ↦ inl (
      at,
      refl,
      ltb→le inode.i_size at inside,
      sys_lseek-move_to (pos at) e fits ∙ rw (move_to, inside) refl,
    )
  ]
  sought (negsuc n) e fits =
      inr (λ k h q. absurd (pos≢negsuc k n (sym q)), sys_lseek-move_to (negsuc n) e fits)

-- `offset` counts from the start for SEEK_SET, which is 1, from the position for SEEK_CUR, which is 2,
-- and from the end for SEEK_END, which is 3; any other `whence` asks for the start.
abbrev pub IsAsked : ℕ → ℤ → ℕ → ℕ → ℤ → Type 0
IsAsked whence offset at size target =
    ((whence ≡ 1) × (target ≡ offset))
    ⊎ (((whence ≡ 2) × (target ≡ pos at +ℤ offset))
        ⊎ (((whence ≡ 3) × (target ≡ pos size +ℤ offset))
            ⊎ ((whence ≢ 1) × (whence ≢ 2) × (whence ≢ 3) × (target ≡ pos 0))))

new_pos-IsAsked :
    (whence : ℕ) (offset : ℤ) (at size : ℕ) (target : ℤ)
    → at < 2 ^ 31
    → size < 2 ^ 31
    → IsAsked whence offset at size target
    → new_pos whence offset at size ≡ target
unfolding new_pos
new_pos-IsAsked whence offset at size target low small (inl (set, e)) = rw set (sym e)
new_pos-IsAsked whence offset at size target low small (inr (inl (cur, e))) =
    rw (cur, to_int32-small at low) (sym e)
new_pos-IsAsked whence offset at size target low small (inr (inr (inl (end, e)))) =
    rw (end, to_int32-small size small) (sym e)
new_pos-IsAsked whence offset at size target low small (inr (inr (inr (not1, not2, not3, e)))) =
    rw (ne→== whence 1 not1, ne→== whence 2 not2, ne→== whence 3 not3) (sym e)

-- `sys_lseek` on an open file, whose size and position are below 2^31, where `target` is the place
-- that `whence` and `offset` ask for and is an int32_t, moves to it where it is in the file or at its
-- end, and returns it; elsewhere it returns -1 and changes nothing.
pub sys_lseek_lem :
    (s : Files) (fd file : ℕ) (inode : Inode) (offset : ℤ) (whence : ℕ) (target : ℤ)
    → IsOpen s fd file inode
    → inode.i_size < 2 ^ 31
    → (s.file_table file).fd_pos < 2 ^ 31
    → IsAsked whence offset (s.file_table file).fd_pos inode.i_size target
    → fits_int32 target ≡ true
    → ((at : ℕ) × (target ≡ pos at)
        × (at ≤ inode.i_size)
        × (sys_lseek s (pos fd) offset whence ≡ done (at_place s file at, some at)))
      ⊎ (((at : ℕ) → at ≤ inode.i_size → target ≢ pos at)
          × (sys_lseek s (pos fd) offset whence ≡ done (s, none)))
sys_lseek_lem s fd file inode offset whence target o small low asked fits =
    sought s fd file inode offset whence o small target
      (new_pos-IsAsked whence offset (s.file_table file).fd_pos inode.i_size target low small asked)
      fits
