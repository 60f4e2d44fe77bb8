-- ===== src/Inode/Table.antt =====
-- The inode table of fs/inode.c as one row of bytes.
use native.Mathlib.Nat.{mul-le-mul}
use winx.Base.{
  ℕ, ◌+◌, ◌-◌, ◌*◌, ◌/◌, ◌%◌, ◌^◌, ◌≤◌, ◌<◌, ◌≡◌, refl, sym, ap, ap₂, ◌∙◌, ◌⊎◌, inl, inr, true,
  false, ◌&&◌, some, arith, ltb, leb, if◌then◌else◌, Bool-cases, done, le→leb, leb→le, leb→lt,
  ltb→lt,
}
use winx.CString.{Memory}
use winx.Volume.{Volume, two_sectors, write_one, write_two, overwrite}
use winx.Inode.{
  Inode, sync_at, delete_at, load_at, inode_delete, load_inode, inode_sync, Layout, InodePosition,
  inode_locate, read_at, write_at,
}

-- byte `q` of the table
abbrev pub table_byte : Volume → ℕ → ℕ
table_byte part q = part.sectors (part.inode_table_lba + q / 512) (q % 512)

-- A byte of a struct that starts at byte `t` of the table, in the buffer its sectors are read into.
read-flat :
    (sectors : ℕ → Memory) (lba t i size : ℕ)
    → i < size
    → size ≤ 512
    → (if ltb (512 - t % 512) size
        then two_sectors sectors (lba + t / 512) (t % 512 + i)
        else sectors (lba + t / 512) (t % 512 + i))
      ≡ sectors (lba + (t + i) / 512) ((t + i) % 512)
read-flat sectors lba t i size inside small = elim (Bool-cases (ltb (t % 512 + i) 512)) [
  | inl near ↦
      let e : lba + t / 512 ≡ lba + (t + i) / 512 = omega (arith, ltb→lt _ _ near) in
      let e' : t % 512 + i ≡ (t + i) % 512 = omega (arith, ltb→lt _ _ near) in
      elim (Bool-cases (ltb (512 - t % 512) size)) [
        | inl two ↦ rw (two, near) (ap₂ sectors e e')
        | inr one ↦ rw one (ap₂ sectors e e')
      ]
  | inr far ↦
      let two : ltb (512 - t % 512) size ≡ true = ground arith in
      let e : lba + t / 512 + 1 ≡ lba + (t + i) / 512 = ground arith in
      let e' : t % 512 + i - 512 ≡ (t + i) % 512 = ground arith in rw (two, far) (ap₂ sectors e e')
]

-- Such a struct written back.
write-flat :
    (sectors : ℕ → Memory) (lba t size q : ℕ) (bytes : Memory)
    → size ≤ 512
    → (if ltb (512 - t % 512) size
          then write_two sectors
              (lba + t / 512)
              (overwrite (two_sectors sectors (lba + t / 512)) (t % 512) size bytes)
          else write_one sectors
              (lba + t / 512)
              (overwrite (sectors (lba + t / 512)) (t % 512) size bytes))
        (lba + q / 512)
        (q % 512)
      ≡ (if leb t q && ltb q (t + size) then bytes (q - t) else sectors (lba + q / 512) (q % 512))
write-flat sectors lba t size q bytes small = ground arith

module _ (layout : Layout) (part : Volume) (small : layout.size ≤ 512)
    (low : part.inode_table_lba + 4608 < 2 ^ 32) (n : ℕ) (few : n ≤ 4096) where
  unfoldable pub located : InodePosition
  located = record {
    two_sec = ltb (512 - (n * layout.size) % 512) layout.size;
    sec_lba = part.inode_table_lba + n * layout.size / 512;
    off_size = (n * layout.size) % 512;
  }

  pub inode_locate-located : inode_locate layout part n ≡ some located
  unfolding inode_locate located
  inode_locate-located =
      let bound : n * layout.size ≤ 4096 * 512 = mul-le-mul few small in ground arith

  read_at-located :
      (i : ℕ)
      → i < layout.size
      → read_at layout part located i ≡ table_byte part (n * layout.size + i)
  unfolding read_at located
  read_at-located i h =
      read-flat part.sectors part.inode_table_lba (n * layout.size) i layout.size h small

  -- the table after the bytes of the inode have been replaced
  write_at-located :
      (bytes : Memory) (q : ℕ)
      → table_byte (write_at layout part located bytes) q ≡ (
          if leb (n * layout.size) q && ltb q (n * layout.size + layout.size)
          then bytes (q - n * layout.size)
          else table_byte part q)
  unfolding write_at located
  write_at-located bytes q =
      write-flat part.sectors part.inode_table_lba (n * layout.size) layout.size q bytes small

  write_at-below :
      (bytes : Memory) (lba b : ℕ)
      → lba < part.inode_table_lba
      → (write_at layout part located bytes).sectors lba b ≡ part.sectors lba b
  unfolding write_at located
  write_at-below bytes lba b below = ground arith

  pub inside-leb :
      part.inode_table_lba + n * layout.size / 512 ≤ part.start_lba + part.sec_cnt
      → leb located.sec_lba (part.start_lba + part.sec_cnt) ≡ true
  unfolding located
  inside-leb inside = le→leb _ _ inside

  inside-ltb :
      part.inode_table_lba + n * layout.size / 512 ≤ part.start_lba + part.sec_cnt
      → ltb (part.start_lba + part.sec_cnt) located.sec_lba ≡ false
  unfolding located
  inside-ltb inside = ground arith

  -- On a partition that its inode table ends in, `inode_sync` of an inode whose number is below 256
  -- stores its bytes, with no count of openers and writable, at its place in the table, and changes
  -- no other byte of the table and none of the sectors before it.
  pub inode_sync_lem :
      (inode : Inode)
      → inode.i_no ≡ n
      → n < 256
      → part.inode_table_lba + n * layout.size / 512 ≤ part.start_lba + part.sec_cnt
      → (part' : Volume) × (inode_sync layout part inode ≡ done part')
        × ((q : ℕ)
            → table_byte part' q ≡ (
                if leb (n * layout.size) q && ltb q (n * layout.size + layout.size)
                then layout.to_bytes
                    (record inode { i_open_cnts = 0; write_deny = false })
                    (q - n * layout.size)
                else table_byte part q))
        × ((lba b : ℕ) → lba < part.inode_table_lba → part'.sectors lba b ≡ part.sectors lba b)
  unfolding inode_sync sync_at
  inode_sync_lem inode own byte inside =
      let number : inode.i_no % 2 ^ 8 ≡ n = omega arith in
      let here = inside-leb inside in
      (
        write_at layout part located
            (layout.to_bytes (record inode { i_open_cnts = 0; write_deny = false })),
        rw (number, inode_locate-located, here) refl,
        write_at-located _,
        write_at-below _,
      )

-- On a partition that the place of the inode is in, where a struct has at most 512 bytes and the table
-- numbers of 32 bits, `inode_delete` of a number below 4096 clears the inode's bytes in the table, and
-- no other; of any other number it does nothing.
pub inode_delete_lem :
    (layout : Layout) (part : Volume) (n : ℕ)
    → layout.size ≤ 512
    → part.inode_table_lba + 4608 < 2 ^ 32
    → (n < 4096 → part.inode_table_lba + n * layout.size / 512 ≤ part.start_lba + part.sec_cnt)
    → ((n < 4096)
        × ((q : ℕ)
            → table_byte (inode_delete layout part n) q ≡ (
                if leb (n * layout.size) q && ltb q (n * layout.size + layout.size)
                then 0
                else table_byte part q)))
      ⊎ ((4096 ≤ n) × (inode_delete layout part n ≡ part))
unfolding inode_delete delete_at
inode_delete_lem layout part n small low inside = elim (Bool-cases (leb 4096 n)) [
  | inl big ↦ inr (leb→le 4096 n big, rw big refl)
  | inr valid ↦
      let below : n < 4096 = leb→lt 4096 n valid in
      let few : n ≤ 4096 = omega (arith, below) in
      let here = inside-ltb layout part small low n few (inside below) in
      inl (
        below,
        λ q.
            rw (valid, inode_locate-located layout part small low n few, here)
              (write_at-located layout part small low n few (λ i. 0) q),
      )
]

module _ (layout : Layout) (part : Volume) (small : layout.size ≤ 512)
    (low : part.inode_table_lba + 4608 < 2 ^ 32) (n : ℕ) (few : n ≤ 4096) where
  read-write :
      (bytes : Memory) (i : ℕ)
      → i < layout.size
      → read_at layout
          (write_at layout part (located layout part small low n few) bytes)
          (located layout part small low n few)
          i
        ≡ bytes i
  unfolding located write_at
  read-write bytes i h =
      let start = n * layout.size in
      let part' = write_at layout part (located layout part small low n few) bytes in
      let within : (leb start (start + i) && ltb (start + i) (start + layout.size)) ≡ true =
        ground arith in
      read_at-located layout part' small low n few i h
      ∙ write_at-located layout part small low n few bytes (start + i)
      ∙ rw within (ap bytes (omega arith))

  -- The table stands where it did.
  locate_after :
      {inode : Inode} (bytes : Memory)
      → layout.from_bytes (
          read_at layout
            (write_at layout part (located layout part small low n few) bytes)
            (located layout part small low n few))
        ≡ inode
      → load_inode layout (write_at layout part (located layout part small low n few) bytes) n
        ≡ done inode
  unfolding load_inode load_at write_at located
  locate_after bytes e =
      rw
        (inode_locate-located layout
          (write_at layout part (located layout part small low n few) bytes) small low n few)
        (ap done e)

  -- On a partition that its inode table ends in, a struct with a number below 256 that nobody has
  -- open, and that its bytes stand for, is what `inode_open` reads after `inode_sync` has stored it.
  pub load_inode-inode_sync :
      (inode : Inode)
      → inode.i_no ≡ n
      → n < 256
      → inode.i_open_cnts ≡ 0
      → inode.write_deny ≡ false
      → ((bytes : Memory)
          → ((i : ℕ) → i < layout.size → bytes i ≡ layout.to_bytes inode i)
          → layout.from_bytes bytes ≡ inode)
      → part.inode_table_lba + n * layout.size / 512 ≤ part.start_lba + part.sec_cnt
      → (part' : Volume) × (inode_sync layout part inode ≡ done part')
        × (load_inode layout part' n ≡ done inode)
  unfolding load_inode load_at inode_sync sync_at
  load_inode-inode_sync inode own byte closed writable faithful inside =
      let place = located layout part small low n few in
      let number : inode.i_no % 2 ^ 8 ≡ n = omega arith in
      let found = inode_locate-located layout part small low n few in
      let here = inside-leb layout part small low n few inside in
      let pure : record inode { i_open_cnts = 0; write_deny = false } ≡ inode =
        ap₂ (λ c w. record inode { i_open_cnts = c; write_deny = w }) (sym closed) (sym writable) in
      let bytes = layout.to_bytes (record inode { i_open_cnts = 0; write_deny = false }) in
      (
        write_at layout part place bytes,
        rw (number, found, here) refl,
        locate_after bytes (
            faithful (read_at layout (write_at layout part place bytes) place)
              (λ i h. read-write bytes i h ∙ ap (λ x. layout.to_bytes x i) pure)),
      )
