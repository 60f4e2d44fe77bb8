-- ===== src/File/Alloc.antt =====
-- The blocks and inodes that fs/file.c hands out.
use winx.Base.{
  ℕ, ◌+◌, ◌-◌, ◌%◌, ◌^◌, ◌≤◌, ◌<◌, ◌≡◌, refl, ◌⊎◌, inl, inr, false, none, some, arith, ◌==◌, ne→==,
  done,
}
use winx.Bitmap.{Bitmap}
use winx.Bitmap.Laws.{IsBytes, total_bits}
use winx.Bitmap.Taking.{free_bits, Takes, scan-set}
use winx.Volume.{Volume}
use winx.File.{block_bitmap_alloc, block_bit, inode_bitmap_alloc, inode_bit}

-- On a partition with a bitmap of at most 2^28 bytes and sectors with numbers below 2^32 - 1,
-- `block_bitmap_alloc` fails exactly where no block is free; otherwise it takes the lowest free one, alone, and returns its sector.
pub block_bitmap_alloc_lem :
    (part : Volume)
    → part.block_bitmap.btmp_bytes_len ≤ 2 ^ 28
    → IsBytes part.block_bitmap
    → part.data_start_lba + total_bits part.block_bitmap < 2 ^ 32
    → ((free_bits part.block_bitmap ≡ 0) × (block_bitmap_alloc part ≡ done (part, none)))
      ⊎ ((b : ℕ) × (btmp' : Bitmap) × (block_bitmap_alloc part
            ≡ done (record part { block_bitmap = btmp' }, some (part.data_start_lba + b)))
          × Takes part.block_bitmap b btmp')
unfolding block_bitmap_alloc block_bit
block_bitmap_alloc_lem part small bytes wide = elim (scan-set part.block_bitmap small bytes) [
  | inl (full, e) ↦ inl (full, rw e refl)
  | inr (b, btmp', e, stored, takes) ↦
      let whole : (part.data_start_lba + b) % 2 ^ 32 ≡ part.data_start_lba + b =
        omega (arith, takes.inside, wide) in
      let sector : (part.data_start_lba + b == 2 ^ 32 - 1) ≡ false =
        ne→== (part.data_start_lba + b) (2 ^ 32 - 1)
          (λ e. absurd (omega (arith, e, takes.inside, wide))) in
      inr (b, btmp', rw (e, stored, whole, sector) refl, takes)
]

-- On a partition with a bitmap of at most 2^28 bytes `inode_bitmap_alloc` fails exactly where no
-- inode is free; otherwise it takes the lowest free one, alone, and returns its number.
pub inode_bitmap_alloc_lem :
    (part : Volume)
    → part.inode_bitmap.btmp_bytes_len ≤ 2 ^ 28
    → IsBytes part.inode_bitmap
    → ((free_bits part.inode_bitmap ≡ 0) × (inode_bitmap_alloc part ≡ done (part, none)))
      ⊎ ((b : ℕ) × (btmp' : Bitmap) × (inode_bitmap_alloc part
            ≡ done (record part { inode_bitmap = btmp' }, some b))
          × Takes part.inode_bitmap b btmp')
unfolding inode_bitmap_alloc inode_bit
inode_bitmap_alloc_lem part small bytes = elim (scan-set part.inode_bitmap small bytes) [
  | inl (full, e) ↦ inl (full, rw e refl)
  | inr (b, btmp', e, stored, takes) ↦ inr (b, btmp', rw (e, stored) refl, takes)
]
