-- ===== src/Calls/Examples.antt =====
-- The theorems on the calls of fs/fs.c at a small partition.
use winx.Base.{
  ℕ, ◌+◌, ◌%◌, ◌≤◌, ◌<◌, ◌≡◌, refl, sym, ◌≢◌, ◌⊎◌, inl, inr, true, false, none, some, [], ◌∷◌,
  arith, ◌==◌, if◌then◌else◌, done,
}
use winx.Base.{ℤ, pos-+ℤ, pos, inr, sym, fits_int32-pos}
use winx.Bitmap.{scan_test}
use winx.Volume.{Volume}
use winx.Inode.{Inode, Layout}
use winx.Bitmap.Taking.{free_below, free_bits}
use winx.FileWrite.Allocated.{IsVolume}
use winx.FileWrite.Blocks.{IsBlocks}
use winx.FileWrite.WriteRoom.{IsPlaced}
use winx.Calls.{Memory, Files, find_inode, sys_write, sys_lseek, sys_read}
use winx.Calls.Seek.{IsOpen, at_place, sys_lseek_lem}
use winx.Calls.Append.{sys_read-sys_write}

-- the first two blocks are in use
abbrev part : Volume
part = record {
  start_lba = 0;
  sec_cnt = 1000;
  block_bitmap_lba = 2;
  inode_bitmap_lba = 3;
  inode_table_lba = 4;
  data_start_lba = 300;
  block_bitmap = record { btmp_bytes_len = 1; bits = λ a. if a == 0 then 3 else 0 };
  inode_bitmap = record { btmp_bytes_len = 1; bits = λ a. 2 };
  sectors = λ lba b. lba % 256;
}

-- a file of 20 bytes
abbrev inode : Inode
inode = record {
  i_no = 1;
  i_size = 20;
  i_open_cnts = 1;
  write_deny = true;
  i_sectors = λ idx. if idx == 0 then 300 else 0;
}

abbrev layout : Layout
layout = record {
  size = 2;
  to_bytes = λ i b. if b == 0 then i.i_no else i.i_size;
  from_bytes = λ m. record {
    i_no = m 0;
    i_size = m 1;
    i_open_cnts = 0;
    write_deny = false;
    i_sectors = λ idx. 0;
  };
}

-- it is open as descriptor 3 in slot 5, for reading and writing
abbrev s : Files
s = record {
  part = part;
  opened = inode ∷ [];
  file_table = λ i. record { fd_pos = 4; fd_flag = 2; fd_inode = if i == 5 then some 1 else none };
  fd_table = λ i. if i == 3 then some 5 else none;
}

s-IsOpen : IsOpen s 3 5 inode
unfolding find_inode
s-IsOpen = record {
  descriptor = omega arith;
  global = refl;
  slot = omega arith;
  number = refl;
  found = refl;
}

part-IsVolume : IsVolume part
part-IsVolume = record {
  small = omega arith;
  bytes = λ a. ground arith;
  low = omega arith;
  wide = omega arith;
}

part-IsPlaced : IsPlaced layout part 1
part-IsPlaced = record {
  small = omega arith;
  word = omega arith;
  byte = omega arith;
  inside = omega arith;
  before = omega arith;
}

inode-IsBlocks : IsBlocks part inode (λ j. 300) 1
unfolding scan_test
inode-IsBlocks = record {
  plain = record {
    direct = λ j a b. ground arith;
    unset = λ j a b. ground arith;
    owned = λ j a. (omega arith, omega arith, refl);
    apart = λ i j a b e. omega arith;
  };
  table = inl (omega arith, refl);
}

part-free : 3 ≤ free_bits part.block_bitmap
unfolding free_below scan_test
part-free = omega arith

sys_read-sys_write_example :
    (s₁ : Files) × (s₂ : Files) × (s₃ : Files) × (mem'' : Memory) × (sys_write layout s
        (λ a. a % 256)
        (pos 3)
        7000
        600
      ≡ done (s₁, some 600))
    × (sys_lseek s₁ (pos 3) (pos 20) 1 ≡ done (s₂, some 20))
    × (sys_read (λ i. 0) s₂ (λ a. 0) (pos 3) 9000 600 ≡ done (s₃, mem'', some 600))
    × ((i : ℕ) → i < 600 → mem'' (9000 + i) ≡ (7000 + i) % 256)
sys_read-sys_write_example =
    sys_read-sys_write layout (λ i. 0) s 3 5 inode (λ j. 300) (λ a. a % 256) (λ a. 0) 7000 9000 600
      s-IsOpen (omega arith) refl part-IsVolume part-IsPlaced (inl inode-IsBlocks) (omega arith)
      (omega arith) part-free

sys_lseek_lem_example :
    ((at : ℕ) × (◌≡◌ {A = ℤ} (pos 15) (pos at))
      × (at ≤ 20)
      × (sys_lseek s (pos 3) (pos 11) 2 ≡ done (at_place s 5 at, some at)))
    ⊎ (((at : ℕ) → at ≤ 20 → ◌≢◌ {A = ℤ} (pos 15) (pos at))
        × (sys_lseek s (pos 3) (pos 11) 2 ≡ done (s, none)))
sys_lseek_lem_example =
    sys_lseek_lem s 3 5 inode (pos 11) 2 (pos 15) s-IsOpen (omega arith) (omega arith)
      (inr (inl (refl, sym (pos-+ℤ 4 11)))) (fits_int32-pos 15 (omega arith))

-- what stands on the disk for inode 4
abbrev stored : Inode
stored = record { i_no = 4; i_size = 4; i_open_cnts = 0; write_deny = false; i_sectors = λ idx. 0 }
