-- ===== src/Calls/Open.antt =====
-- `file_open` of fs/file.c.
use winx.Base.{
  ℕ, bit_and, ◌≡◌, ◌⊎◌, true, false, ◌&&◌, Option, none, some, List, ◌==◌, if◌then◌else◌, update,
  Run, done,
}
use winx.Inode.{Inode}
use winx.Calls.{Files}
use winx.Calls.Seek.{IsOpen}

-- the file in its slot, before it is open for writing or has a descriptor
abbrev pub in_slot : Files → List Inode → ℕ → ℕ → ℕ → Files
in_slot s opened n flag file = record s {
  opened = opened;
  file_table = update s.file_table file (record { fd_pos = 0; fd_flag = flag; fd_inode = some n });
}

-- what opening a loaded inode comes to
abbrev pub Opening : Files → ℕ → ℕ → ℕ → ℕ → List Inode → Inode → Run (Files × Option ℕ) → Type 0
Opening s n flag file fd opened was result =
    ((was.write_deny ≡ true)
      × ((bit_and flag 1 == 0 && bit_and flag 2 == 0) ≡ false)
      × (result ≡ done (in_slot s opened n flag file, none)))
    ⊎ ((s' : Files) × (now : Inode) × (result ≡ done (s', some fd))
        × (((bit_and flag 1 == 0 && bit_and flag 2 == 0) ≡ true) ⊎ (was.write_deny ≡ false))
        × IsOpen s' fd file now
        × (now ≡ (
            if bit_and flag 1 == 0 && bit_and flag 2 == 0
            then was
            else record was { write_deny = true })))
