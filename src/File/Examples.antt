-- ===== src/File/Examples.antt =====
-- The theorems on fs/file.c at a small partition, and runs.
use winx.Base.{
  ℕ, ◌+◌, ◌-◌, ◌%◌, ◌<◌, min, ◌≡◌, refl, ◌≢◌, ◌⊎◌, inl, false, Option, none, some, arith, ltb, ◌==◌,
  if◌then◌else◌, done,
}
use winx.CString.{Memory}
use winx.Bitmap.{Bitmap}
use winx.Bitmap.Laws.{IsBytes}
use winx.Volume.{Volume}
use winx.Inode.{Inode}
use winx.File.{
  File, block_bitmap_alloc, file_read, get_free_slot_in_global, first_from, is_none, pcb_fd_install,
  fd_local2global,
}
use winx.File.Descriptors.{IsFirst, pcb_fd_install_lem}
use winx.Bitmap.Taking.{free_bits, Takes}
use winx.File.Alloc.{block_bitmap_alloc_lem}
use winx.File.Read.{Fetched, file_read_lem}

-- the first two blocks are in use, and no inode; sector 30 has its own places as bytes
abbrev part : Volume
part = record {
  start_lba = 0;
  sec_cnt = 100;
  block_bitmap_lba = 2;
  inode_bitmap_lba = 3;
  inode_table_lba = 4;
  data_start_lba = 30;
  block_bitmap = record { btmp_bytes_len = 1; bits = λ a. if a == 0 then 3 else 0 };
  inode_bitmap = record { btmp_bytes_len = 1; bits = λ a. 0 };
  sectors = λ lba b. if lba == 30 then b % 256 else 0;
}

abbrev inode : Inode
inode = record {
  i_no = 1;
  i_size = 20;
  i_open_cnts = 1;
  write_deny = false;
  i_sectors = λ idx. if idx == 0 then 30 else 0;
}

block_bitmap-IsBytes : IsBytes part.block_bitmap
block_bitmap-IsBytes a = ground arith

inode_bitmap-IsBytes : IsBytes part.inode_bitmap
inode_bitmap-IsBytes a = ground arith

block_bitmap_alloc_lem_example :
    ((free_bits part.block_bitmap ≡ 0) × (block_bitmap_alloc part ≡ done (part, none)))
    ⊎ ((b : ℕ) × (btmp' : Bitmap) × (block_bitmap_alloc part
          ≡ done (record part { block_bitmap = btmp' }, some (part.data_start_lba + b)))
        × Takes part.block_bitmap b btmp')
block_bitmap_alloc_lem_example =
    block_bitmap_alloc_lem part (omega arith) block_bitmap-IsBytes (omega arith)

abbrev mem : Memory
mem a = 255

file_read_lem_example :
    ((5 ≡ inode.i_size) × (0 < 100) × (file_read part inode mem 5 7000 100 ≡ done (mem, 5, none)))
    ⊎ ((5 < inode.i_size) ⊎ (◌≡◌ {A = ℕ} 100 0))
      × ((mem' : Memory) × (file_read part inode mem 5 7000 100
            ≡ done (mem', 5 + min 100 (inode.i_size - 5), some (min 100 (inode.i_size - 5))))
          × Fetched part inode mem 5 7000 (min 100 (inode.i_size - 5)) mem')
file_read_lem_example =
    file_read_lem part inode mem 5 7000 (omega arith) (omega arith) (inl (omega arith)) 100
      (omega arith)

-- descriptors 0 to 2 are the console and the keyboard, and slot 3 of the table is in use
abbrev file_table : ℕ → File
file_table i = record { fd_pos = 0; fd_flag = 0; fd_inode = if i == 3 then some 7 else none }

abbrev fd_table : ℕ → Option ℕ
fd_table i = if ltb i 4 then some i else none

free_slot : get_free_slot_in_global file_table ≡ some 4
unfolding get_free_slot_in_global first_from
free_slot = refl

pcb_fd_install_lem_example :
    IsFirst (λ i. is_none (file_table i).fd_inode) 3 32 (some 4)
    × ((IsFirst (λ i. is_none (fd_table i)) 3 8 none
          × (pcb_fd_install fd_table 4 ≡ (fd_table, none)))
        ⊎ ((local_fd : ℕ) × (fd_table' : ℕ → Option ℕ) × IsFirst
              (λ i. is_none (fd_table i))
              3
              8
              (some local_fd)
            × (pcb_fd_install fd_table 4 ≡ (fd_table', some local_fd))
            × (fd_local2global fd_table' local_fd ≡ done 4)
            × ((i : ℕ) → i ≢ local_fd → fd_table' i ≡ fd_table i)))
pcb_fd_install_lem_example = pcb_fd_install_lem file_table fd_table 4 free_slot
