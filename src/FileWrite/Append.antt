-- ===== src/FileWrite/Append.antt =====
-- `file_write` of fs/file.c as a whole.
use winx.Base.{
  ℕ, ◌+◌, ◌-◌, ◌*◌, ◌/◌, ◌%◌, ◌^◌, ◌≤◌, ◌<◌, ◌≡◌, refl, sym, ap, subst, ◌∙◌, ◌≢◌, ◌⊎◌, inl, inr,
  true, false, some, arith, ltb, Bool-cases, ne→==, le→ltb, done, ltb→lt, ltb→le,
}
use winx.CString.{Memory}
use winx.Volume.{Volume}
use winx.Inode.{Inode, Layout}
use winx.Bitmap.Taking.{free_bits}
use winx.File.Blocks.{file_block, file_byte}
use winx.FileWrite.{
  Room, Written, new_block, more_blocks, write_room, write_sized, first_block, file_write,
  set_sector,
}
use winx.FileWrite.MoreBlocks.{more_blocks_lem}
use winx.FileWrite.Allocated.{IsVolume, Owned, Grows, new_block_lem}
use winx.FileWrite.Blocks.{IsBlocks}
use winx.FileWrite.More.{More, IsLater, IsLater-trans, Grows-IsLater}
use winx.FileWrite.WriteRoom.{IsPlaced, IsPlaced-IsLater, Filled, write_room_lem}

file_byte-IsBlocks :
    {part : Volume} {inode : Inode} {blocks : ℕ → ℕ} {n : ℕ} (p : ℕ)
    → IsBlocks part inode blocks n
    → p / 512 < n
    → file_byte part inode p ≡ part.sectors (blocks (p / 512)) (p % 512)
unfolding file_byte file_block
file_byte-IsBlocks {part} {inode} {blocks} {n} p f inside = elim (Bool-cases (ltb (p / 512) 12)) [
  | inl low ↦
      rw (file_byte, file_block, low)
        (ap (λ lba. part.sectors lba (p % 512))
          (f.plain.direct (p / 512) inside (ltb→lt (p / 512) 12 low)))
  | inr high ↦ elim f.table [
    | inl (few, none_yet) ↦ absurd (omega (arith, ltb→le (p / 512) 12 high))
    | inr (many, t) ↦
        rw (file_byte, file_block, high)
          (ap (λ lba. part.sectors lba (p % 512))
            (t.words (p / 512) (ltb→le (p / 512) 12 high) inside))
  ]
]

-- What `file_write` comes to: the file has its old bytes and behind them the new ones, and no block
-- that was in use has changed but for the file's.
pub record Appended (part : Volume) (inode : Inode) (blocks : ℕ → ℕ) (mem : Memory) (buf : ℕ)
    (count : ℕ) (part' : Volume) (inode' : Inode) : Type 0 where
  pub later : IsLater part part'
  pub i_no : inode'.i_no ≡ inode.i_no
  pub i_size : inode'.i_size ≡ inode.i_size + count
  pub is_blocks : (blocks' : ℕ → ℕ) × IsBlocks part' inode' blocks' (inode'.i_size / 512 + 1)
  pub old : (p : ℕ) → p < inode.i_size → file_byte part' inode' p ≡ file_byte part inode p
  pub new :
      (p : ℕ)
      → inode.i_size ≤ p
      → p < inode.i_size + count
      → file_byte part' inode' p ≡ mem (buf + (p - inode.i_size))
  pub kept :
      (lba : ℕ)
      → Owned part lba
      → ((j : ℕ) → j < inode.i_size / 512 + 1 → lba ≢ blocks j)
      → lba ≢ inode.i_sectors 12
      → part'.sectors lba ≡ part.sectors lba

-- The blocks of a file are not its table.
not_table :
    {part : Volume} {inode : Inode} {blocks : ℕ → ℕ} {n : ℕ} (j : ℕ)
    → IsVolume part
    → IsBlocks part inode blocks n
    → j < n
    → blocks j ≢ inode.i_sectors 12
not_table j v f a = elim f.table [
  | inl (few, none_yet) ↦ λ q. absurd (omega (arith, q, none_yet, (f.plain.owned j a).0, v.low))
  | inr (many, t) ↦ t.other j a
]

module _ (part part₁ part' : Volume) (inode inode₁ inode' : Inode)
    (blocks blocks₁ all_blocks : ℕ → ℕ) (mem : Memory) (buf count : ℕ) where
  -- Room that has been made and filled.
  More-Filled :
      IsVolume part
      → IsBlocks part inode blocks (inode.i_size / 512 + 1)
      → More part inode blocks
          (inode.i_size / 512 + 1)
          ((inode.i_size + count) / 512 + 1)
          part₁
          inode₁
          blocks₁
          all_blocks
      → Filled part₁ inode₁ blocks₁ mem buf count part' inode'
      → Appended part inode blocks mem buf count part' inode'
  More-Filled v f m h = record {
    later = IsLater-trans m.later h.later;
    i_no = h.i_no ∙ ap (λ i. i.i_no) m.same;
    i_size = h.i_size ∙ ap (λ n. n + count) same_size;
    is_blocks = (
      blocks₁,
      subst (IsBlocks part' inode' blocks₁) (ap (λ n. n / 512 + 1) (sym h.i_size)) h.is_blocks,
    );
    old = λ p a.
        let inside : p / 512 < inode.i_size / 512 + 1 = omega arith in
        file_byte-IsBlocks p h.is_blocks (omega (arith, same_size))
        ∙ h.old p (omega (arith, same_size))
        ∙ ap (λ lba. part₁.sectors lba (p % 512)) (m.old (p / 512) inside)
        ∙ ap (λ s. s (p % 512))
            (m.kept (blocks (p / 512)) (f.plain.owned (p / 512) inside)
              (not_table (p / 512) v f inside))
        ∙ sym (file_byte-IsBlocks p f inside);
    new = λ p a b.
        file_byte-IsBlocks p h.is_blocks (omega (arith, same_size))
        ∙ h.new p (omega (arith, same_size)) (omega (arith, same_size))
        ∙ ap (λ n. mem (buf + (p - n))) same_size;
    kept = λ lba o out other.
        h.kept lba (m.later.owned lba o) (λ j a q.
          elim (Bool-cases (ltb j (inode.i_size / 512 + 1))) [
            | inl old ↦
                out j (ltb→lt j (inode.i_size / 512 + 1) old)
                  (q ∙ m.old j (ltb→lt j (inode.i_size / 512 + 1) old))
            | inr new ↦
                m.fresh j (ltb→le j (inode.i_size / 512 + 1) new) (omega (arith, same_size))
                  (subst (Owned part) q o)
          ])
        ∙ m.kept lba o other;
  }
    where
      same_size : inode₁.i_size ≡ inode.i_size
      same_size = ap (λ i. i.i_size) m.same

module _ (layout : Layout) (mem : Memory) (buf count : ℕ) where
  write_sized-run :
      (part : Volume) (inode : Inode) (x : ℕ → ℕ) (room : Room) (fd_pos : ℕ) (result : Written)
      → inode.i_size + count < 140 * 512
      → more_blocks part inode (inode.i_size / 512 + 1) ((inode.i_size + count) / 512 + 1)
        ≡ done room
      → write_room layout room mem fd_pos buf count ≡ done result
      → write_sized layout
          (record { part = part; inode = inode; all_blocks = some x })
          mem
          fd_pos
          buf
          count
        ≡ done result
  unfolding write_sized
  write_sized-run part inode x room fd_pos result few e e' =
      let sum : (inode.i_size + count) % 2 ^ 32 ≡ inode.i_size + count = omega arith in
      rw (sum, le→ltb 140 ((inode.i_size + count) / 512 + 1) (omega arith), e, e') refl

  -- a file that has a block
  write_sized_lem :
      (part : Volume) (inode : Inode) (blocks x : ℕ → ℕ) (fd_pos : ℕ)
      → IsVolume part
      → IsPlaced layout part inode.i_no
      → IsBlocks part inode blocks (inode.i_size / 512 + 1)
      → inode.i_size + count < 140 * 512
      → (inode.i_size + count) / 512 - inode.i_size / 512 + 1 ≤ free_bits part.block_bitmap
      → (part' : Volume) × (inode' : Inode) × (fd_pos' : ℕ) × (write_sized layout
            (record { part = part; inode = inode; all_blocks = some x })
            mem
            fd_pos
            buf
            count
          ≡ done (record {
            part = part';
            inode = inode';
            fd_pos = fd_pos';
            bytes_written = some count;
          }))
        × Appended part inode blocks mem buf count part' inode'
  write_sized_lem part inode blocks x fd_pos v placed f small free =
      let used = inode.i_size / 512 + 1 in
      let will = (inode.i_size + count) / 512 + 1 in
      let (part₁, inode₁, blocks₁, all_blocks, run, m) =
        more_blocks_lem part inode blocks used will v f (omega arith) (omega arith) (omega arith)
          (omega arith) in
      let same_size : inode₁.i_size ≡ inode.i_size = ap (λ i. i.i_size) m.same in
      let placed₁ : IsPlaced layout part₁ inode₁.i_no =
        IsPlaced-IsLater placed m.later (ap (λ i. i.i_no) m.same) in
      let (part', inode', fd_pos', run', h) =
        write_room_lem layout part₁ inode₁ blocks₁ all_blocks mem buf count m.later.volume placed₁
          (subst (IsBlocks part₁ inode₁ blocks₁) (ap (λ n. (n + count) / 512 + 1) (sym same_size))
            m.is_blocks)
          (λ j a b. m.window j (omega (arith, same_size)) (omega (arith, same_size)))
          (omega (arith, same_size)) fd_pos in
      (
        part',
        inode',
        fd_pos',
        write_sized-run part inode x _ fd_pos _ (omega arith) run run',
        More-Filled part part₁ part' inode inode₁ inode' blocks blocks₁ all_blocks mem buf count v f
            m h,
      )

  -- the first block of an empty file
  first_block-new :
      (part part' : Volume) (inode : Inode) (lba : ℕ)
      → new_block true part ≡ done (part', some lba)
      → inode.i_sectors 0 ≡ 0
      → first_block part inode
        ≡ done
            (record { part = part'; inode = set_sector inode 0 lba; all_blocks = some (λ idx. 0) })
  unfolding first_block
  first_block-new part part' inode lba e none_yet = rw (none_yet, e) refl

  first_block-old :
      (part : Volume) (inode : Inode)
      → inode.i_sectors 0 ≢ 0
      → first_block part inode
        ≡ done (record { part = part; inode = inode; all_blocks = some (λ idx. 0) })
  unfolding first_block
  first_block-old part inode there = rw (ne→== (inode.i_sectors 0) 0 there) refl

  one_block :
      {part part' : Volume} {inode : Inode} {blocks : ℕ → ℕ} (lba : ℕ)
      → IsBlocks part inode blocks 0
      → Owned part' lba
      → IsBlocks part' (set_sector inode 0 lba) (λ j. lba) 1
  one_block lba f mine = record {
    plain = record {
      direct = λ j a b. ground arith;
      unset = λ j a b. ground (arith, f.plain.unset j);
      owned = λ j a. mine;
      apart = λ i j a b e. omega arith;
    };
    table = elim f.table [
      | inl (few, none_yet) ↦ inl (omega arith, none_yet)
      | inr (many, t) ↦ absurd (omega arith)
    ];
  }

  Appended-empty :
      (part part₁ part' : Volume) (inode inode' : Inode) (blocks : ℕ → ℕ) (lba : ℕ)
      → inode.i_size ≡ 0
      → Grows part part₁ 1
      → ¬ Owned part lba
      → Appended part₁ (set_sector inode 0 lba) (λ j. lba) mem buf count part' inode'
      → Appended part inode blocks mem buf count part' inode'
  Appended-empty part part₁ part' inode inode' blocks lba empty g new h = record {
    later = IsLater-trans (Grows-IsLater g) h.later;
    i_no = h.i_no;
    i_size = h.i_size;
    is_blocks = h.is_blocks;
    old = λ p a. absurd (omega arith);
    new = h.new;
    kept = λ other o out table.
        h.kept other (g.owned other o) (λ j a e. new (subst (Owned part) e o)) table
        ∙ g.kept other o.0;
  }

  file_write-run :
      (part : Volume) (inode : Inode) (room : Room) (fd_pos : ℕ) (result : Written)
      → inode.i_size + count < 140 * 512
      → first_block part inode ≡ done room
      → write_sized layout room mem fd_pos buf count ≡ done result
      → file_write layout part inode mem fd_pos buf count ≡ done result
  unfolding file_write
  file_write-run part inode room fd_pos result small e e' =
      let fits : ltb (512 * 140) ((inode.i_size + count) % 2 ^ 32) ≡ false = ground arith in
      rw (fits, e, e') refl

  -- On a well-formed partition with a block more free than the file grows by and one for its table,
  -- `file_write` to a well-formed file, one with its blocks or an empty one without any, whose inode
  -- has a number below 256 and its place in the table, and which stays below 140 blocks, returns
  -- `count`: the file is longer by as much, has its old bytes and behind them those at `buf`, and is
  -- well-formed again; no block that was in use changes but the file's, and none is given up.
  pub file_write_lem :
      (part : Volume) (inode : Inode) (blocks : ℕ → ℕ) (fd_pos : ℕ)
      → IsVolume part
      → IsPlaced layout part inode.i_no
      → IsBlocks part inode blocks (inode.i_size / 512 + 1)
        ⊎ ((inode.i_size ≡ 0) × IsBlocks part inode blocks 0)
      → inode.i_size + count < 140 * 512
      → (inode.i_size + count) / 512 - inode.i_size / 512 + 2 ≤ free_bits part.block_bitmap
      → (part' : Volume) × (inode' : Inode) × (fd_pos' : ℕ) × (file_write layout part inode mem
            fd_pos buf count
          ≡ done (record {
            part = part';
            inode = inode';
            fd_pos = fd_pos';
            bytes_written = some count;
          }))
        × Appended part inode blocks mem buf count part' inode'
  file_write_lem part inode blocks fd_pos v placed f small free = elim f [
    | inl used ↦
        let mine = used.plain.owned 0 (omega arith) in
        let there : inode.i_sectors 0 ≢ 0 = λ e.
          absurd
            (omega (arith, e, used.plain.direct 0 (omega arith) (omega arith), mine.0, v.low)) in
        let (part', inode', fd_pos', run, h) =
          write_sized_lem part inode blocks (λ idx. 0) fd_pos v placed used small (omega arith) in
        (
          part',
          inode',
          fd_pos',
          file_write-run part inode _ fd_pos _ small (first_block-old part inode there) run,
          h,
        )
    | inr (empty, fresh) ↦
        let (part₁, lba, e, g, mine, free_lba) = new_block_lem true part v (omega arith) in
        let one = one_block lba fresh mine in
        let (part', inode', fd_pos', run, h) =
          write_sized_lem part₁ (set_sector inode 0 lba) (λ j. lba) (λ idx. 0) fd_pos g.volume
            (IsPlaced-IsLater placed (Grows-IsLater g) refl)
            (subst (IsBlocks part₁ (set_sector inode 0 lba) (λ j. lba)) (omega arith) one) small
            (omega (arith, g.fewer)) in
        (
          part',
          inode',
          fd_pos',
          file_write-run part inode _ fd_pos _ small
              (first_block-new part part₁ inode lba e
                (fresh.plain.unset 0 (omega arith) (omega arith)))
              run,
          Appended-empty part part₁ part' inode inode' blocks lba empty g (λ o. cc (o.2, free_lba))
              h,
        )
  ]
