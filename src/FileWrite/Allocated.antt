-- ===== src/FileWrite/Allocated.antt =====
-- The partition while `file_write` of fs/file.c takes blocks.
use winx.Base.{
  ℕ, ◌+◌, ◌-◌, ◌/◌, ◌^◌, ◌≤◌, ◌<◌, ◌≡◌, refl, ap, ◌∙◌, inl, inr, Bool, true, false, some, arith,
  if◌then◌else◌, ==-refl, ne→==, done,
}
use winx.Bitmap.{Bitmap, scan_test}
use winx.Bitmap.Laws.{IsBytes, total_bits}
use winx.Volume.{Volume}
use winx.File.{block_bitmap_alloc, bitmap_sync, block_bits}
use winx.Bitmap.Taking.{free_bits, Takes}
use winx.File.Alloc.{block_bitmap_alloc_lem}
use winx.FileWrite.{new_block}

-- The blocks stand behind the sectors of their bitmap, and have numbers below 2^32 - 1.
pub record IsVolume (part : Volume) : Type 0 where
  pub small : part.block_bitmap.btmp_bytes_len ≤ 2 ^ 28
  pub bytes : IsBytes part.block_bitmap
  pub low : part.block_bitmap_lba + total_bits part.block_bitmap / 4096 < part.data_start_lba
  pub wide : part.data_start_lba + total_bits part.block_bitmap < 2 ^ 32

-- the bit of a block, and that it is in use
abbrev pub bit_of : Volume → ℕ → Bool
bit_of part lba = scan_test part.block_bitmap (lba - part.data_start_lba)

abbrev pub Owned : Volume → ℕ → Type 0
Owned part lba =
    (part.data_start_lba ≤ lba)
    × (lba < part.data_start_lba + total_bits part.block_bitmap)
    × (bit_of part lba ≡ true)

-- `n` blocks have been taken, and no block has been written.
pub record Grows (part : Volume) (part' : Volume) (n : ℕ) : Type 0 where
  pub volume : IsVolume part'
  pub data_start_lba : part'.data_start_lba ≡ part.data_start_lba
  pub inode_table_lba : part'.inode_table_lba ≡ part.inode_table_lba
  pub start_lba : part'.start_lba ≡ part.start_lba
  pub sec_cnt : part'.sec_cnt ≡ part.sec_cnt
  pub kept : (lba : ℕ) → part.data_start_lba ≤ lba → part'.sectors lba ≡ part.sectors lba
  pub owned : (lba : ℕ) → Owned part lba → Owned part' lba
  pub fewer : free_bits part'.block_bitmap + n ≡ free_bits part.block_bitmap

pub Grows-refl : (part : Volume) → IsVolume part → Grows part part 0
Grows-refl part v = record {
  volume = v;
  data_start_lba = refl;
  inode_table_lba = refl;
  start_lba = refl;
  sec_cnt = refl;
  kept = λ lba h. refl;
  owned = λ lba o. o;
  fewer = omega arith;
}

pub Grows-trans :
    {part part' part'' : Volume} {m n : ℕ}
    → Grows part part' m
    → Grows part' part'' n
    → Grows part part'' (m + n)
Grows-trans g h = record {
  volume = h.volume;
  data_start_lba = h.data_start_lba ∙ g.data_start_lba;
  inode_table_lba = h.inode_table_lba ∙ g.inode_table_lba;
  start_lba = h.start_lba ∙ g.start_lba;
  sec_cnt = h.sec_cnt ∙ g.sec_cnt;
  kept = λ lba b. h.kept lba (omega (arith, g.data_start_lba)) ∙ g.kept lba b;
  owned = λ lba o. h.owned lba (g.owned lba o);
  fewer = omega (arith, g.fewer, h.fewer);
}

-- a partition after bit `b` has been taken, with the sector of the bit written or not
taken_volume : Bool → Volume → ℕ → Bitmap → Volume
taken_volume synced part b btmp =
    let part' : Volume = record part { block_bitmap = btmp } in
    if synced
    then bitmap_sync part' (part.data_start_lba + b - part.data_start_lba) block_bits
    else part'

taken_volume-Grows :
    (synced : Bool) (part : Volume) (b : ℕ) (btmp : Bitmap)
    → IsVolume part
    → Takes part.block_bitmap b btmp
    → Grows part (taken_volume synced part b btmp) 1
unfolding taken_volume bitmap_sync
taken_volume-Grows false part b btmp v t = record {
  volume = record {
    small = ground (arith, t.length, v.small);
    bytes = t.bytes;
    low = ground (arith, t.length, v.low);
    wide = ground (arith, t.length, v.wide);
  };
  data_start_lba = refl;
  inode_table_lba = refl;
  start_lba = refl;
  sec_cnt = refl;
  kept = λ lba h. refl;
  owned = λ lba o. ground (arith, t.length, t.taken (lba - part.data_start_lba), o);
  fewer = t.fewer;
}
taken_volume-Grows true part b btmp v t = record {
  volume = record {
    small = ground (arith, t.length, v.small);
    bytes = t.bytes;
    low = ground (arith, t.length, v.low);
    wide = ground (arith, t.length, v.wide);
  };
  data_start_lba = refl;
  inode_table_lba = refl;
  start_lba = refl;
  sec_cnt = refl;
  kept = λ lba h.
      let e : part.data_start_lba + b - part.data_start_lba ≡ b = omega arith in
      let bit = part.block_bitmap_lba + (part.data_start_lba + b - part.data_start_lba) / 4096 in
      rw (ne→== lba bit (omega (arith, v.low, t.inside))) refl;
  owned = λ lba o. ground (arith, t.length, t.taken (lba - part.data_start_lba), o);
  fewer = t.fewer;
}

Owned-taken :
    (synced : Bool) (part : Volume) (b : ℕ) (btmp : Bitmap)
    → Takes part.block_bitmap b btmp
    → Owned (taken_volume synced part b btmp) (part.data_start_lba + b)
unfolding taken_volume bitmap_sync
Owned-taken synced part b btmp t =
    let e : part.data_start_lba + b - part.data_start_lba ≡ b = omega arith in
    let used : scan_test btmp (part.data_start_lba + b - part.data_start_lba) ≡ true =
      ap (scan_test btmp) e ∙ t.taken b ∙ ground (arith, ==-refl b) in
    let below : part.data_start_lba + b < part.data_start_lba + total_bits btmp =
      omega (arith, t.inside, t.length) in
    let start : part.data_start_lba ≤ part.data_start_lba + b = omega arith in
    elim synced as (λ k. Owned (taken_volume k part b btmp) (part.data_start_lba + b)) [
      | false ↦ (start, below, used)
      | true ↦ (start, below, used)
    ]

new_block-taken :
    (synced : Bool) (part : Volume) (b : ℕ) (btmp : Bitmap)
    → block_bitmap_alloc part
      ≡ done (record part { block_bitmap = btmp }, some (part.data_start_lba + b))
    → new_block synced part ≡ done (taken_volume synced part b btmp, some (part.data_start_lba + b))
unfolding new_block taken_volume
new_block-taken false part b btmp e = rw e refl
new_block-taken true part b btmp e = rw e refl

-- While a block is free, a new one that was not in use is taken.
pub new_block_lem :
    (synced : Bool) (part : Volume)
    → IsVolume part
    → 0 < free_bits part.block_bitmap
    → (part' : Volume) × (lba : ℕ) × (new_block synced part ≡ done (part', some lba))
      × Grows part part' 1
      × Owned part' lba
      × (bit_of part lba ≡ false)
new_block_lem synced part v free = elim (block_bitmap_alloc_lem part v.small v.bytes v.wide) [
  | inl (full, e) ↦ absurd (omega arith)
  | inr (b, btmp, e, t) ↦ (
    taken_volume synced part b btmp,
    part.data_start_lba + b,
    new_block-taken synced part b btmp e,
    taken_volume-Grows synced part b btmp v t,
    Owned-taken synced part b btmp t,
    ap (scan_test part.block_bitmap) (omega arith) ∙ t.was_free,
  )
]
