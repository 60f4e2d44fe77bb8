-- ===== src/FileWrite/MoreBlocks.antt =====
-- The four cases in which `file_write` of fs/file.c makes room for what it writes.
use winx.Base.{
  ℕ, ◌+◌, ◌-◌, ◌≤◌, ◌<◌, ◌≡◌, refl, sym, subst, ◌≢◌, inl, inr, true, false, none, some, arith, leb,
  ◌==◌, Bool-cases, ==→eq, ==-refl, ne→==, lt→ltb, update, done, le→leb, lt→leb, leb→le, leb→lt,
}
use winx.Volume.{Volume, write_one}
use winx.Inode.{Inode}
use winx.File.{read_table}
use winx.Bitmap.Taking.{free_bits}
use winx.FileWrite.{Room, table_bytes, new_block, add_blocks, more_blocks, write_table, set_sector}
use winx.FileWrite.Allocated.{IsVolume, Owned, Grows-refl, new_block_lem}
use winx.FileWrite.Grow.{Added, add_blocks_lem}
use winx.FileWrite.Blocks.{IsTable, IsBlocks, extend}
use winx.FileWrite.More.{More, Grows-IsLater}
use winx.FileWrite.MakeRoom.{direct-More, table-More}

-- `add_blocks_lem` up to `will`
add_blocks-Added :
    (part : Volume) (inode : Inode) (all_blocks : ℕ → ℕ) (used will : ℕ)
    → used ≤ will
    → IsVolume part
    → will - used ≤ free_bits part.block_bitmap
    → ((j : ℕ) → used ≤ j → j < 12 → inode.i_sectors j ≡ 0)
    → (part' : Volume) × (inode' : Inode) × (all_blocks' : ℕ → ℕ) × (add_blocks
          (will - used)
          part
          inode
          all_blocks
          used
        ≡ done (record { part = part'; inode = inode'; all_blocks = some all_blocks' }))
      × Added part inode all_blocks used will part' inode' all_blocks'
add_blocks-Added part inode all_blocks used will up v free unset =
    let (part', inode', all_blocks', run, added) =
      add_blocks_lem (will - used) part inode all_blocks used v free (λ j a b c. unset j a c) in
    (
      part',
      inode',
      all_blocks',
      run,
      subst (λ n. Added part inode all_blocks used n part' inode' all_blocks') (omega arith) added,
    )

module _ (part part' : Volume) (inode : Inode) (used will table : ℕ) (room : Room) where
  more_blocks-same :
      will ≡ used
      → used ≤ 12
      → more_blocks part inode used will
        ≡ done (record {
          part = part;
          inode = inode;
          all_blocks = some (update (λ idx. 0) (used - 1) (inode.i_sectors (used - 1)));
        })
  unfolding more_blocks
  more_blocks-same e low =
      let same : (will == used) ≡ true = ground arith in rw (same, le→leb used 12 low) refl

  more_blocks-same_high :
      will ≡ used
      → 12 < used
      → more_blocks part inode used will
        ≡ done (record {
          part = part;
          inode = inode;
          all_blocks = some (read_table part (inode.i_sectors 12) (λ idx. 0));
        })
  unfolding more_blocks
  more_blocks-same_high e high =
      let same : (will == used) ≡ true = ground arith in rw (same, lt→leb used 12 high) refl

  more_blocks-low :
      used < will
      → will ≤ 12
      → add_blocks
          (will - used)
          part
          inode
          (update (λ idx. 0) (used - 1) (inode.i_sectors (used - 1)))
          used
        ≡ done room
      → more_blocks part inode used will ≡ done room
  unfolding more_blocks
  more_blocks-low grow low e = rw (ne→== will used (omega arith), le→leb will 12 low, e) refl

  more_blocks-over :
      used ≤ 12
      → 12 < will
      → new_block false part ≡ done (part', some table)
      → inode.i_sectors 12 ≡ 0
      → add_blocks
          (will - used)
          part'
          (set_sector inode 12 table)
          (update (λ idx. 0) (used - 1) (inode.i_sectors (used - 1)))
          used
        ≡ done room
      → more_blocks part inode used will ≡ done (write_table table room)
  unfolding more_blocks
  more_blocks-over low high e none_yet e' =
      rw (ne→== will used (omega arith), lt→leb will 12 high, le→leb used 12 low, e, none_yet, e')
        refl

  more_blocks-high :
      12 < used
      → used < will
      → inode.i_sectors 12 ≢ 0
      → add_blocks (will - used) part inode (read_table part (inode.i_sectors 12) (λ idx. 0)) used
        ≡ done room
      → more_blocks part inode used will ≡ done (write_table (inode.i_sectors 12) room)
  unfolding more_blocks
  more_blocks-high high grow there e =
      rw
        (
          ne→== will used (omega arith),
          lt→leb will 12 (omega arith),
          lt→leb used 12 high,
          ne→== (inode.i_sectors 12) 0 there,
          e,
        )
        refl

module _ (part : Volume) (inode : Inode) (blocks : ℕ → ℕ) (used will : ℕ) (v : IsVolume part)
    (f : IsBlocks part inode blocks used) (some_used : 0 < used) (up : used ≤ will)
    (few : will ≤ 140) (free : will - used + 1 ≤ free_bits part.block_bitmap) where
  abbrev pub Made : Type 0
  Made =
      (part' : Volume) × (inode' : Inode) × (blocks' : ℕ → ℕ) × (all_blocks : ℕ → ℕ) × (more_blocks
          part inode used will
        ≡ done (record { part = part'; inode = inode'; all_blocks = some all_blocks }))
      × More part inode blocks used will part' inode' blocks' all_blocks

  last : ℕ → ℕ
  last = update (λ idx. 0) (used - 1) (inode.i_sectors (used - 1))

  last-blocks : used ≤ 12 → (j : ℕ) → j + 1 ≡ used → last j ≡ blocks j
  unfolding last
  last-blocks low j e =
      let here : j ≡ used - 1 = omega arith in
      rw (here, ==-refl (used - 1)) (f.plain.direct (used - 1) (omega arith) (omega arith))

  old-IsTable : 12 < used → IsTable part (inode.i_sectors 12) blocks used
  old-IsTable high = elim f.table [ inl (a, b) ↦ absurd (omega arith) | inr (a, b) ↦ b ]

  no_table : used ≤ 12 → inode.i_sectors 12 ≡ 0
  no_table low = elim f.table [ inl (a, b) ↦ b | inr (a, b) ↦ absurd (omega arith) ]

  read_table-blocks :
      12 < used
      → (j : ℕ) → 12 ≤ j
      → j < used
      → read_table part (inode.i_sectors 12) (λ idx. 0) j ≡ blocks j
  unfolding read_table
  read_table-blocks high j a b =
      rw (le→leb 12 j a, lt→ltb j 140 (omega arith)) ((old-IsTable high).words j a b)

  stay-More :
      (all_blocks : ℕ → ℕ)
      → will ≡ used
      → ((j : ℕ) → j + 1 ≡ used → all_blocks j ≡ blocks j)
      → More part inode blocks used will part inode blocks all_blocks
  stay-More all_blocks e agree = record {
    later = Grows-IsLater (Grows-refl part v);
    is_blocks = subst (IsBlocks part inode blocks) (sym e) f;
    old = λ j a. refl;
    fresh = λ j a b. absurd (omega arith);
    window = λ j a b. agree j (omega arith);
    kept = λ lba o other. refl;
    same = refl;
  }

  more_blocks-stay : will ≡ used → Made
  unfolding last
  more_blocks-stay e = elim (Bool-cases (leb used 12)) [
    | inl low ↦ (
      part,
      inode,
      blocks,
      last,
      more_blocks-same part part inode used will 0
          (record { part = part; inode = inode; all_blocks = none }) e (leb→le used 12 low),
      stay-More last e (last-blocks (leb→le used 12 low)),
    )
    | inr high ↦ (
      part,
      inode,
      blocks,
      read_table part (inode.i_sectors 12) (λ idx. 0),
      more_blocks-same_high part part inode used will 0
          (record { part = part; inode = inode; all_blocks = none }) e (leb→lt used 12 high),
      stay-More _ e (λ j a. read_table-blocks (ground arith) j (ground arith) (omega arith)),
    )
  ]

  more_blocks-direct : used < will → will ≤ 12 → Made
  unfolding last
  more_blocks-direct grow low =
      let (part', inode', all', run, h) =
        add_blocks-Added part inode last used will up v (omega arith) f.plain.unset in
      (
        part',
        inode',
        extend blocks used all',
        all',
        more_blocks-low part part inode used will 0 _ grow low run,
        direct-More f up low (Grows-refl part v) refl h (last-blocks (omega arith)),
      )

  more_blocks-new_table : used ≤ 12 → 12 < will → Made
  unfolding last write_table
  more_blocks-new_table low high =
      let (part₀, table, e, g, mine, new) = new_block_lem false part v (omega arith) in
      let (part', inode', all', run, h) =
        add_blocks-Added part₀ (set_sector inode 12 table) last used will up g.volume
          (omega (arith, g.fewer)) (λ j a b. ground (arith, f.plain.unset j)) in
      let not_mine : ((lba : ℕ) → Owned part lba → lba ≢ table) = λ lba o q. cc (o.2, q, new) in
      (
        record part' { sectors = write_one part'.sectors table (table_bytes all') },
        inode',
        extend blocks used all',
        all',
        more_blocks-over part part₀ inode used will table _ low high e (no_table low) run,
        table-More table f up high g refl (λ j a. ground arith) refl mine
            (λ j a. not_mine (blocks j) (f.plain.owned j a)) (λ lba o other. not_mine lba o) h
            (λ j c b. elim c [ inl a ↦ last-blocks low j a | inr a ↦ absurd (omega arith) ]),
      )

  more_blocks-old_table : 12 < used → used < will → Made
  unfolding last write_table
  more_blocks-old_table high grow =
      let table = inode.i_sectors 12 in
      let t = old-IsTable high in
      let not_zero : inode.i_sectors 12 ≢ 0 = λ q. absurd (omega (arith, q, t.mine.0, v.low)) in
      let (part', inode', all', run, h) =
        add_blocks-Added part inode (read_table part table (λ idx. 0)) used will up v (omega arith)
          f.plain.unset in
      (
        record part' { sectors = write_one part'.sectors table (table_bytes all') },
        inode',
        extend blocks used all',
        all',
        more_blocks-high part part inode used will 0 _ high grow (not_zero) run,
        table-More table f up (omega arith) (Grows-refl part v) refl (λ j a. refl) refl t.mine
            t.other (λ lba o other. other) h (λ j a b. read_table-blocks high j (ground arith) b),
      )

  pub more_blocks_lem : Made
  more_blocks_lem = elim (Bool-cases (will == used)) [
    | inl e ↦ more_blocks-stay (==→eq will used e)
    | inr ne ↦ elim (Bool-cases (leb will 12)) [
      | inl low ↦ more_blocks-direct (ground arith) (leb→le will 12 low)
      | inr high ↦ elim (Bool-cases (leb used 12)) [
        | inl low ↦ more_blocks-new_table (leb→le used 12 low) (leb→lt will 12 high)
        | inr over ↦ more_blocks-old_table (leb→lt used 12 over) (ground arith)
      ]
    ]
  ]
