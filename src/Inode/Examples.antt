-- ===== src/Inode/Examples.antt =====
-- The theorems on fs/inode.c at a table of inodes of two bytes, and runs.
use winx.Base.{
  ℕ, ◌+◌, ◌≤◌, ◌<◌, ◌≡◌, refl, ap₂, ◌⊎◌, false, ◌&&◌, List, [], ◌∷◌, arith, ltb, leb, ◌==◌,
  if◌then◌else◌, done,
}
use winx.Volume.{Volume}
use winx.Inode.{
  inode_locate, read_at, load_at, Inode, Layout, inode_sync, inode_delete, load_inode, inode_open,
  inode_close,
}
use winx.Inode.Table.{table_byte, inode_delete_lem, load_inode-inode_sync}
use winx.Inode.Opened.{IsCounted, open_count, inode_open_lem}

abbrev layout : Layout
layout = record {
  size = 2;
  to_bytes = λ inode b. if b == 0 then inode.i_no else inode.i_size;
  from_bytes = λ m. record {
    i_no = m 0;
    i_size = m 1;
    i_open_cnts = 0;
    write_deny = false;
    i_sectors = λ idx. 0;
  };
}

-- inode 3 has size 9 on the disk
abbrev part : Volume
part = record {
  start_lba = 0;
  sec_cnt = 100;
  block_bitmap_lba = 2;
  inode_bitmap_lba = 3;
  inode_table_lba = 4;
  data_start_lba = 24;
  block_bitmap = record { btmp_bytes_len = 1; bits = λ a. 0 };
  inode_bitmap = record { btmp_bytes_len = 1; bits = λ a. 0 };
  sectors = λ lba b. if lba == 4 && b == 6 then 3 else if lba == 4 && b == 7 then 9 else 0;
}

abbrev inode : Inode
inode = record { i_no = 3; i_size = 7; i_open_cnts = 0; write_deny = false; i_sectors = λ idx. 0 }

abbrev opened : List Inode
opened = record inode { i_no = 5; i_open_cnts = 2 } ∷ []

opened-IsCounted : IsCounted opened
unfolding open_count
opened-IsCounted = (omega arith, omega arith, refl, tt)

load_inode-inode_sync_example :
    (part' : Volume) × (inode_sync layout part inode ≡ done part')
    × (load_inode layout part' 3 ≡ done inode)
load_inode-inode_sync_example =
    load_inode-inode_sync layout part (omega arith) (omega arith) 3 (omega arith) inode refl
      (omega arith) refl refl
      (λ bytes same.
        ap₂
          (λ n s. record {
            i_no = n;
            i_size = s;
            i_open_cnts = 0;
            write_deny = false;
            i_sectors = λ idx. 0;
          })
          (same 0 (omega arith)) (same 1 (omega arith)))
      (omega arith)

inode_delete_lem_example :
    ((3 < 4096)
      × ((q : ℕ)
          → table_byte (inode_delete layout part 3) q
            ≡ (if leb 6 q && ltb q 8 then 0 else table_byte part q)))
    ⊎ ((4096 ≤ 3) × (inode_delete layout part 3 ≡ part))
inode_delete_lem_example =
    inode_delete_lem layout part 3 (omega arith) (omega arith) (λ below. omega arith)

loaded : load_inode layout part 3 ≡ done (record inode { i_size = 9 })
unfolding load_inode load_at read_at inode_locate
loaded = refl

inode_open_lem_example :
    (opened' : List Inode) × (inode_open layout part opened 3 ≡ done opened')
    × ((m : ℕ)
        → open_count opened' m ≡ (if m == 3 then open_count opened 3 + 1 else open_count opened m))
    × (inode_close opened' 3 ≡ opened)
inode_open_lem_example =
    inode_open_lem layout part opened 3 (record inode { i_size = 9 }) opened-IsCounted loaded refl
