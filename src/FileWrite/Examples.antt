-- ===== src/FileWrite/Examples.antt =====
-- The theorems on `file_write` of fs/file.c at a small partition.
use winx.Base.{ℕ, ◌+◌, ◌%◌, ◌≤◌, ◌<◌, ◌≡◌, refl, inl, false, some, arith, ◌==◌, if◌then◌else◌, done}
use winx.CString.{Memory}
use winx.Bitmap.{scan_test}
use winx.Volume.{Volume}
use winx.Inode.{Inode, Layout}
use winx.File.{file_read}
use winx.Bitmap.Taking.{free_below, free_bits}
use winx.FileWrite.{Written, Writing, file_write}
use winx.FileWrite.Allocated.{IsVolume}
use winx.FileWrite.Chunks.{IsApart}
use winx.FileWrite.Blocks.{IsBlocks}
use winx.FileWrite.WriteRoom.{IsPlaced}
use winx.FileWrite.Append.{Appended, file_write_lem}
use winx.FileWrite.ReadBack.{file_read-file_write}

-- the first two blocks are in use
abbrev part : Volume
part = record {
  start_lba = 0;
  sec_cnt = 100;
  block_bitmap_lba = 2;
  inode_bitmap_lba = 3;
  inode_table_lba = 4;
  data_start_lba = 30;
  block_bitmap = record { btmp_bytes_len = 1; bits = λ a. if a == 0 then 3 else 0 };
  inode_bitmap = record { btmp_bytes_len = 1; bits = λ a. 0 };
  sectors = λ lba b. 0;
}

-- a file of 20 bytes
abbrev inode : Inode
inode = record {
  i_no = 1;
  i_size = 20;
  i_open_cnts = 1;
  write_deny = false;
  i_sectors = λ idx. if idx == 0 then 30 else 0;
}

abbrev mem : Memory
mem a = a % 256

part-IsVolume : IsVolume part
part-IsVolume = record {
  small = omega arith;
  bytes = λ a. ground arith;
  low = omega arith;
  wide = omega arith;
}

part-free : 3 ≤ free_bits part.block_bitmap
unfolding free_below scan_test
part-free = omega arith

abbrev w : Writing
w = record { part = part; i_size = 20; fd_pos = 19 }

abbrev all_blocks : ℕ → ℕ
all_blocks idx = 30 + idx

all_blocks-IsApart : IsApart all_blocks 0 1
all_blocks-IsApart i j a b c d same = omega arith

-- The place of an inode is on the partition, and before the data.
abbrev layout : Layout
layout = record {
  size = 2;
  to_bytes = λ i b. if b == 0 then i.i_no else i.i_size;
  from_bytes = λ m. record {
    i_no = m 0;
    i_size = m 1;
    i_open_cnts = 0;
    write_deny = false;
    i_sectors = λ idx. 0;
  };
}

abbrev disk : Volume
disk = record part { sec_cnt = 1000; data_start_lba = 300 }

disk-IsVolume : IsVolume disk
disk-IsVolume = record {
  small = omega arith;
  bytes = λ a. ground arith;
  low = omega arith;
  wide = omega arith;
}

disk-IsPlaced : IsPlaced layout disk 1
disk-IsPlaced = record {
  small = omega arith;
  word = omega arith;
  byte = omega arith;
  inside = omega arith;
  before = omega arith;
}

-- 20 bytes, in the first block
abbrev file : Inode
file = record inode { i_sectors = λ idx. if idx == 0 then 300 else 0 }

file-IsBlocks : IsBlocks disk file (λ j. 300) 1
unfolding scan_test
file-IsBlocks = record {
  plain = record {
    direct = λ j a b. ground arith;
    unset = λ j a b. ground arith;
    owned = λ j a. (omega arith, omega arith, refl);
    apart = λ i j a b e. omega arith;
  };
  table = inl (omega arith, refl);
}

file_write_lem_example :
    (part' : Volume) × (inode' : Inode) × (fd_pos' : ℕ) × (file_write layout disk file mem 0 7000
        600
      ≡ done (record { part = part'; inode = inode'; fd_pos = fd_pos'; bytes_written = some 600 }))
    × Appended disk file (λ j. 300) mem 7000 600 part' inode'
file_write_lem_example =
    file_write_lem layout mem 7000 600 disk file (λ j. 300) 0 disk-IsVolume disk-IsPlaced
      (inl file-IsBlocks) (omega arith) part-free

file_read-file_write_example :
    (w : Written) × (mem'' : Memory) × (file_write layout disk file mem 0 7000 600 ≡ done w)
    × (file_read w.part w.inode (λ a. 0) 20 9000 600 ≡ done (mem'', 620, some 600))
    × ((i : ℕ) → i < 600 → mem'' (9000 + i) ≡ mem (7000 + i))
file_read-file_write_example =
    file_read-file_write layout disk file (λ j. 300) mem (λ a. 0) 0 7000 9000 600 disk-IsVolume
      disk-IsPlaced (inl file-IsBlocks) (omega arith) (omega arith) part-free
