-- ===== src/FileWrite/WriteRoom.antt =====
-- `file_write` of fs/file.c once there is room: the bytes, and the inode.
use winx.Base.{
  ℕ, ◌+◌, ◌-◌, ◌/◌, ◌%◌, ◌^◌, ◌≤◌, ◌<◌, ◌≡◌, refl, sym, ap, subst, ◌∙◌, ◌≢◌, inl, inr, true, some,
  arith, ◌==◌, Bool-cases, ==→eq, done,
}
use winx.CString.{Memory}
use winx.Volume.{Volume}
use winx.Inode.{Inode, Layout, inode_sync}
use winx.Inode.Above.{inode_sync-above}
use winx.File.{word}
use winx.FileWrite.{Writing, write_chunks, write_room}
use winx.FileWrite.Allocated.{IsVolume, Owned, Grows-refl}
use winx.FileWrite.Blocks.{IsTable, IsBlocks}
use winx.FileWrite.More.{IsLater, Grows-IsLater, with_sectors-IsLater}
use winx.FileWrite.Chunks.{Wrote, write_chunks_lem}

-- The numbers of an inode and of the sectors of the partition are such that the inode's place in
-- the table is on the partition, and ends before the data.
pub record IsPlaced (layout : Layout) (part : Volume) (i_no : ℕ) : Type 0 where
  pub small : layout.size ≤ 512
  pub word : part.inode_table_lba + 4608 < 2 ^ 32
  pub byte : i_no < 256
  pub inside : part.inode_table_lba + 256 ≤ part.start_lba + part.sec_cnt
  pub before : part.inode_table_lba + 257 ≤ part.data_start_lba

pub IsPlaced-IsLater :
    {layout : Layout} {part part' : Volume} {n n' : ℕ}
    → IsPlaced layout part n
    → IsLater part part'
    → n' ≡ n
    → IsPlaced layout part' n'
IsPlaced-IsLater placed later e = record {
  small = placed.small;
  word = omega (arith, placed.word, later.inode_table_lba);
  byte = omega (arith, placed.byte, e);
  inside = omega (arith, placed.inside, later.inode_table_lba, later.start_lba, later.sec_cnt);
  before = omega (arith, placed.before, later.inode_table_lba, later.data_start_lba);
}

-- The blocks stay while the sector of the table does.
pub IsBlocks-moved :
    {part part' : Volume} {inode inode' : Inode} {blocks : ℕ → ℕ} {n : ℕ}
    → IsBlocks part inode blocks n
    → ((lba : ℕ) → Owned part lba → Owned part' lba)
    → inode'.i_sectors ≡ inode.i_sectors
    → (12 < n → part'.sectors (inode.i_sectors 12) ≡ part.sectors (inode.i_sectors 12))
    → IsBlocks part' inode' blocks n
IsBlocks-moved {part} {part'} {inode} {inode'} {blocks} {n} f owned e still = record {
  plain = record {
    direct = λ j a b. ap (λ s. s j) e ∙ f.plain.direct j a b;
    unset = λ j a b. ap (λ s. s j) e ∙ f.plain.unset j a b;
    owned = λ j a. owned (blocks j) (f.plain.owned j a);
    apart = f.plain.apart;
  };
  table = elim f.table [
    | inl (few, none_yet) ↦ inl (few, ap (λ s. s 12) e ∙ none_yet)
    | inr (many, t) ↦ inr (
      many,
      subst (λ b. IsTable part' b blocks n) (sym (ap (λ s. s 12) e))
          (record {
            mine = owned (inode.i_sectors 12) t.mine;
            other = t.other;
            words = λ j a b. ap (λ s. word s (j - 12)) (still many) ∙ t.words j a b;
          }),
    )
  ];
}

-- What the rest of `file_write` comes to, once there is room.
pub record Filled (part : Volume) (inode : Inode) (blocks : ℕ → ℕ) (mem : Memory) (buf : ℕ)
    (count : ℕ) (part' : Volume) (inode' : Inode) : Type 0 where
  pub later : IsLater part part'
  pub is_blocks : IsBlocks part' inode' blocks ((inode.i_size + count) / 512 + 1)
  pub i_size : inode'.i_size ≡ inode.i_size + count
  pub i_no : inode'.i_no ≡ inode.i_no
  pub new :
      (p : ℕ)
      → inode.i_size ≤ p
      → p < inode.i_size + count
      → part'.sectors (blocks (p / 512)) (p % 512) ≡ mem (buf + (p - inode.i_size))
  pub old :
      (p : ℕ)
      → p < inode.i_size
      → part'.sectors (blocks (p / 512)) (p % 512) ≡ part.sectors (blocks (p / 512)) (p % 512)
  pub kept :
      (lba : ℕ)
      → Owned part lba
      → ((j : ℕ) → j ≤ (inode.i_size + count) / 512 → lba ≢ blocks j)
      → part'.sectors lba ≡ part.sectors lba

module _ (layout : Layout) (part : Volume) (inode : Inode) (blocks all_blocks : ℕ → ℕ)
    (mem : Memory) (buf count : ℕ) (v : IsVolume part) (placed : IsPlaced layout part inode.i_no)
    (f : IsBlocks part inode blocks ((inode.i_size + count) / 512 + 1))
    (window : (j : ℕ)
      → inode.i_size / 512 ≤ j
      → j ≤ (inode.i_size + count) / 512
      → all_blocks j ≡ blocks j)
    (few : (inode.i_size + count) / 512 < 140) where
  at_end : ℕ → Writing
  at_end fd_pos = record { part = part; i_size = inode.i_size; fd_pos = fd_pos }

  -- all but the inode in its table
  chunks-Filled :
      (fd_pos : ℕ) (w' : Writing)
      → Wrote (at_end fd_pos) all_blocks mem buf count w'
      → (sectors : ℕ → Memory) → ((lba : ℕ) → Owned part lba → sectors lba ≡ w'.part.sectors lba)
      → Filled part inode blocks mem buf count
          (record part { sectors = sectors })
          (record inode { i_size = w'.i_size })
  unfolding at_end
  chunks-Filled fd_pos w' h sectors same = record {
    later = with_sectors-IsLater sectors (Grows-IsLater (Grows-refl part v));
    is_blocks =
        IsBlocks-moved f (λ lba o. o) refl
          (λ many. elim f.table [
            | inl (few, none_yet) ↦ absurd (omega arith)
            | inr (high, t) ↦
                stays (inode.i_sectors 12) t.mine (λ j a b. λ q. t.other j (omega arith) (sym q))
          ]);
    i_size = h.i_size;
    i_no = refl;
    new = λ p a b.
        ap (λ m. m (p % 512)) (same (blocks (p / 512)) (f.plain.owned (p / 512) (omega arith)))
        ∙ ap (λ lba. w'.part.sectors lba (p % 512))
            (sym (window (p / 512) (omega arith) (omega arith)))
        ∙ h.new p a b;
    old = λ p a. elim (Bool-cases (p / 512 == inode.i_size / 512)) [
      | inl e ↦
          ap (λ m. m (p % 512)) (same (blocks (p / 512)) (f.plain.owned (p / 512) (omega arith)))
          ∙ subst (λ lba. w'.part.sectors lba (p % 512) ≡ part.sectors lba (p % 512))
              (window (inode.i_size / 512) (omega arith) (omega arith)
                ∙ ap blocks (sym (==→eq (p / 512) (inode.i_size / 512) e)))
              (h.before (p % 512) (omega (arith, ==→eq (p / 512) (inode.i_size / 512) e)))
      | inr e ↦
          ap (λ m. m (p % 512))
            (stays (blocks (p / 512)) (f.plain.owned (p / 512) (omega arith)) (λ j b c q.
              absurd (ground (arith, f.plain.apart (p / 512) j (omega arith) (omega arith) q))))
    ];
    kept = λ lba o out. stays lba o (λ j a b. out j b);
  }
    where
      stays :
          (lba : ℕ)
          → Owned part lba
          → ((j : ℕ) → inode.i_size / 512 ≤ j → j ≤ (inode.i_size + count) / 512 → lba ≢ blocks j)
          → sectors lba ≡ part.sectors lba
      stays lba o out = same lba o ∙ h.others lba (λ j a b q. out j a b (q ∙ window j a b))

  write_room-run :
      (fd_pos : ℕ) (w' : Writing) (part' : Volume)
      → write_chunks
          (count + 1)
          true
          (at_end ((inode.i_size + 2 ^ 32 - 1) % 2 ^ 32))
          all_blocks
          mem
          buf
          0
          count
          count
        ≡ done w'
      → inode_sync layout w'.part (record inode { i_size = w'.i_size }) ≡ done part'
      → write_room layout
          (record { part = part; inode = inode; all_blocks = some all_blocks })
          mem
          fd_pos
          buf
          count
        ≡ done (record {
          part = part';
          inode = record inode { i_size = w'.i_size };
          fd_pos = w'.fd_pos;
          bytes_written = some count;
        })
  unfolding write_room at_end
  write_room-run fd_pos w' part' e e' = rw (e, e') refl

  pub write_room_lem :
      (fd_pos : ℕ)
      → (part' : Volume) × (inode' : Inode) × (fd_pos' : ℕ) × (write_room layout
            (record { part = part; inode = inode; all_blocks = some all_blocks })
            mem
            fd_pos
            buf
            count
          ≡ done (record {
            part = part';
            inode = inode';
            fd_pos = fd_pos';
            bytes_written = some count;
          }))
        × Filled part inode blocks mem buf count part' inode'
  unfolding at_end
  write_room_lem fd_pos =
      let start : ℕ = (inode.i_size + 2 ^ 32 - 1) % 2 ^ 32 in
      let (w', run, h) =
        write_chunks_lem (count + 1) true (at_end start) all_blocks mem buf 0 count count
          (omega arith) (omega arith) (omega arith) few (inr (inl refl))
          (λ i j a b c d same.
            f.plain.apart i j (omega arith) (omega arith)
              (sym (window i a b) ∙ same ∙ window j c d)) in
      let (sectors, synced, above) =
        inode_sync-above layout (record part { sectors = w'.part.sectors })
          (record inode { i_size = w'.i_size }) placed.small placed.word placed.byte
          placed.inside in
      (
        record part { sectors = sectors },
        record inode { i_size = w'.i_size },
        w'.fd_pos,
        write_room-run fd_pos w' (record part { sectors = sectors }) run
            (ap (λ k. inode_sync layout k (record inode { i_size = w'.i_size })) h.part ∙ synced),
        chunks-Filled start w' h sectors (λ lba o. above lba (omega (arith, o.0, placed.before))),
      )
