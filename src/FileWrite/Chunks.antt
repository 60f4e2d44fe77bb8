-- ===== src/FileWrite/Chunks.antt =====
-- The loop of `file_write` of fs/file.c that moves the bytes to the blocks.
use winx.Base.{
  ℕ, zero, suc, ◌+◌, ◌-◌, ◌/◌, ◌%◌, ◌^◌, ◌≤◌, ◌<◌, ◌≡◌, refl, sym, ap, subst, ◌∙◌, ◌≢◌, ◌⊎◌, inl,
  inr, Bool, true, false, arith, ltb, if◌then◌else◌, Bool-cases, ==-refl, ne→==, lt→ltb, le→ltb,
  done, le→leb, lt→leb, ltb→lt, ltb→le,
}
use winx.CString.{Memory}
use winx.Volume.{overwrite, write_one}
use winx.FileWrite.{Writing, write_chunks}

-- What the loop has to do for `left` bytes at `src`: the bytes from `i_size` on are the new ones,
-- and all else stays, also what comes before them in the block that they start in.
pub record Wrote (w : Writing) (all_blocks : ℕ → ℕ) (mem : Memory) (src : ℕ) (left : ℕ)
    (w' : Writing) : Type 0 where
  pub i_size : w'.i_size ≡ w.i_size + left
  pub fd_pos : w'.fd_pos ≡ (w.fd_pos + left) % 2 ^ 32
  pub part : w'.part ≡ record w.part { sectors = w'.part.sectors }
  pub new :
      (p : ℕ)
      → w.i_size ≤ p
      → p < w.i_size + left
      → w'.part.sectors (all_blocks (p / 512)) (p % 512) ≡ mem (src + (p - w.i_size))
  pub before :
      (b : ℕ)
      → b < w.i_size % 512
      → w'.part.sectors (all_blocks (w.i_size / 512)) b
        ≡ w.part.sectors (all_blocks (w.i_size / 512)) b
  pub others :
      (lba : ℕ)
      → ((j : ℕ) → w.i_size / 512 ≤ j → j ≤ (w.i_size + left) / 512 → lba ≢ all_blocks j)
      → w'.part.sectors lba ≡ w.part.sectors lba

-- no block twice
abbrev pub IsApart : (ℕ → ℕ) → ℕ → ℕ → Type 0
IsApart all_blocks a b =
    (i j : ℕ) → a ≤ i → i ≤ b → a ≤ j → j ≤ b → all_blocks i ≡ all_blocks j → i ≡ j

-- one round
put : Writing → (ℕ → ℕ) → Bool → Memory → ℕ → ℕ → Writing
put w all_blocks first mem src size =
    let sec_lba = all_blocks (w.i_size / 512) in
    let io_buf : Memory = if first then w.part.sectors sec_lba else λ b. 0 in
    record {
      part = record w.part {
        sectors =
            write_one w.part.sectors sec_lba
              (overwrite io_buf (w.i_size % 512) size (λ i. mem (src + i)));
      };
      i_size = w.i_size + size;
      fd_pos = (w.fd_pos + size) % 2 ^ 32;
    }

module _ (w : Writing) (all_blocks : ℕ → ℕ) (first : Bool) (mem : Memory) (src size : ℕ) where
  put-new :
      (b : ℕ)
      → w.i_size % 512 ≤ b
      → b < w.i_size % 512 + size
      → (put w all_blocks first mem src size).part.sectors (all_blocks (w.i_size / 512)) b
        ≡ mem (src + (b - w.i_size % 512))
  unfolding put
  put-new b from to =
      rw
        (
          ==-refl (all_blocks (w.i_size / 512)),
          le→leb (w.i_size % 512) b from,
          lt→ltb b (w.i_size % 512 + size) to,
        )
        refl

  put-before :
      (b : ℕ)
      → b < w.i_size % 512
      → first ≡ true
      → (put w all_blocks first mem src size).part.sectors (all_blocks (w.i_size / 512)) b
        ≡ w.part.sectors (all_blocks (w.i_size / 512)) b
  unfolding put
  put-before b to e =
      rw (==-refl (all_blocks (w.i_size / 512)), lt→leb (w.i_size % 512) b to, e) refl

  put-others :
      (lba : ℕ)
      → lba ≢ all_blocks (w.i_size / 512)
      → (put w all_blocks first mem src size).part.sectors lba ≡ w.part.sectors lba
  unfolding put
  put-others lba other = rw (ne→== lba (all_blocks (w.i_size / 512)) other) refl

  -- A round and the rounds after it make the loop.
  put-Wrote :
      (rest : ℕ) (w' : Writing)
      → size < 513 - w.i_size % 512
      → 0 < size
      → (rest ≡ 0) ⊎ (w.i_size % 512 + size ≡ 512)
      → (first ≡ true) ⊎ (w.i_size % 512 ≡ 0)
      → IsApart all_blocks (w.i_size / 512) ((w.i_size + (size + rest)) / 512)
      → Wrote (put w all_blocks first mem src size) all_blocks mem (src + size) rest w'
      → Wrote w all_blocks mem src (size + rest) w'
  unfolding put
  put-Wrote rest w' fits some_size full start apart h = record {
    i_size = h.i_size ∙ omega arith;
    fd_pos = h.fd_pos ∙ omega arith;
    part = h.part;
    new = λ p from to. elim (Bool-cases (ltb p (w.i_size + size))) [
      | inl here ↦
          let block : p / 512 ≡ w.i_size / 512 = omega (arith, ltb→lt p (w.i_size + size) here) in
          ap (λ k. w'.part.sectors (all_blocks k) (p % 512)) block
          ∙ stays (p % 512) (omega (arith, ltb→lt p (w.i_size + size) here))
          ∙ put-new (p % 512) (omega (arith, block))
              (omega (arith, ltb→lt p (w.i_size + size) here))
          ∙ ap mem (omega (arith, block))
      | inr later ↦
          h.new p (ltb→le p (w.i_size + size) later) (omega arith)
          ∙ ap mem (omega (arith, ltb→le p (w.i_size + size) later))
    ];
    before = λ b to. elim start [
      | inl e ↦ stays b (omega arith) ∙ put-before b to e
      | inr e ↦ absurd (omega arith)
    ];
    others = λ lba out.
        h.others lba (λ j a c. out j (omega arith) (omega arith))
        ∙ put-others lba (out (w.i_size / 512) (omega arith) (omega arith));
  }
    where
      stays :
          (b : ℕ)
          → b < w.i_size % 512 + size
          → w'.part.sectors (all_blocks (w.i_size / 512)) b
            ≡ (put w all_blocks first mem src size).part.sectors (all_blocks (w.i_size / 512)) b
      stays b to = elim (Bool-cases (ltb (w.i_size % 512 + size) 512)) [
        | inl short ↦
            let block : (w.i_size + size) / 512 ≡ w.i_size / 512 =
              omega (arith, ltb→lt (w.i_size % 512 + size) 512 short) in
            subst
              (λ k.
                w'.part.sectors (all_blocks k) b
                ≡ (put w all_blocks first mem src size).part.sectors (all_blocks k) b)
              block (h.before b (omega (arith, ltb→lt (w.i_size % 512 + size) 512 short)))
        | inr whole ↦
            ap (λ f. f b)
              (h.others (all_blocks (w.i_size / 512)) (λ j from to e.
                let same =
                  apart (w.i_size / 512) j (omega arith) (omega arith)
                    (omega (arith, ltb→le (w.i_size % 512 + size) 512 whole)) (omega arith) e in
                omega (arith, ltb→le (w.i_size % 512 + size) 512 whole)))
      ]

-- no bytes are left
Wrote-nothing :
    (w : Writing) (all_blocks : ℕ → ℕ) (mem : Memory) (src : ℕ)
    → w.fd_pos < 2 ^ 32
    → Wrote w all_blocks mem src 0 w
Wrote-nothing w all_blocks mem src word = record {
  i_size = omega arith;
  fd_pos = omega arith;
  part = refl;
  new = λ p from to. absurd (omega arith);
  before = λ b to. refl;
  others = λ lba out. refl;
}

-- the size of a chunk
chunk : ℕ → ℕ → ℕ
chunk i_size left = if ltb left (512 - i_size % 512) then left else 512 - i_size % 512

chunk_lem :
    (i_size left : ℕ)
    → 0 < left
    → (0 < chunk i_size left)
      × (chunk i_size left ≤ left)
      × (chunk i_size left < 513 - i_size % 512)
      × ((chunk i_size left ≡ left) ⊎ (i_size % 512 + chunk i_size left ≡ 512))
unfolding chunk
chunk_lem i_size left some_left = (ground arith, ground arith, ground arith, ground arith)

write_chunks-step :
    (fuel : ℕ) (first : Bool) (w : Writing) (all_blocks : ℕ → ℕ) (mem : Memory)
    (src bytes_written left count : ℕ)
    → bytes_written < count
    → w.i_size / 512 < 140
    → write_chunks (suc fuel) first w all_blocks mem src bytes_written left count
      ≡ write_chunks fuel false
          (put w all_blocks first mem src (chunk w.i_size left))
          all_blocks
          mem
          (src + chunk w.i_size left)
          (bytes_written + chunk w.i_size left)
          (left - chunk w.i_size left)
          count
unfolding write_chunks put chunk
write_chunks-step fuel first w all_blocks mem src bytes_written left count more few =
    rw (lt→ltb bytes_written count more, lt→ltb (w.i_size / 512) 140 few) refl

write_chunks-end :
    (fuel : ℕ) (first : Bool) (w : Writing) (all_blocks : ℕ → ℕ) (mem : Memory)
    (src bytes_written left count : ℕ)
    → count ≤ bytes_written
    → write_chunks (suc fuel) first w all_blocks mem src bytes_written left count ≡ done w
unfolding write_chunks
write_chunks-end fuel first w all_blocks mem src bytes_written left count full =
    rw (le→ltb bytes_written count full) refl

-- Where fuel is for more than the bytes that are left, the file stays below 140 blocks, the blocks from the end of the file on
-- are there and no two are the same, and only the first chunk starts inside a block, the loop
-- of `file_write` ends, and has put the bytes at the end of the file and changed nothing else.
pub write_chunks_lem :
    (fuel : ℕ) (first : Bool) (w : Writing) (all_blocks : ℕ → ℕ) (mem : Memory)
    (src bytes_written left count : ℕ)
    → left < fuel
    → bytes_written + left ≡ count
    → w.fd_pos < 2 ^ 32
    → (w.i_size + left) / 512 < 140
    → (left ≡ 0) ⊎ ((first ≡ true) ⊎ (w.i_size % 512 ≡ 0))
    → IsApart all_blocks (w.i_size / 512) ((w.i_size + left) / 512)
    → (w' : Writing) × (write_chunks fuel first w all_blocks mem src bytes_written left count
        ≡ done w')
      × Wrote w all_blocks mem src left w'
unfolding put
write_chunks_lem zero first w all_blocks mem src bytes_written left count enough sum word few start
      apart =
    elim enough [ ]
write_chunks_lem (suc fuel) first w all_blocks mem src bytes_written zero count enough sum word few
      start apart =
    (
      w,
      write_chunks-end fuel first w all_blocks mem src bytes_written 0 count (omega arith),
      Wrote-nothing w all_blocks mem src word,
    )
write_chunks_lem (suc fuel) first w all_blocks mem src bytes_written (suc left) count enough sum
      word few start apart =
    let size = chunk w.i_size (suc left) in
    let (some_size, fits, inside, ends) = chunk_lem w.i_size (suc left) (omega arith) in
    let sum_size : size + (suc left - size) ≡ suc left = omega arith in
    let later : ((suc left - size ≡ 0) ⊎ ((false ≡ true) ⊎ ((w.i_size + size) % 512 ≡ 0))) =
      ground (arith, ends, fits) in
    let (w', run, wrote) =
      write_chunks_lem fuel false (put w all_blocks first mem src size) all_blocks mem (src + size)
        (bytes_written + size) (suc left - size) count (omega arith) (omega arith) (omega arith)
        (omega arith) later
        (λ i j a b c d. apart i j (omega arith) (omega arith) (omega arith) (omega arith)) in
    (
      w',
      write_chunks-step fuel first w all_blocks mem src bytes_written (suc left) count (omega arith)
            (omega arith)
          ∙ run,
      subst (λ n. Wrote w all_blocks mem src n w') sum_size
          (put-Wrote w all_blocks first mem src size (suc left - size) w' inside some_size
            (ground (arith, ends, fits)) (ground (arith, start))
            (subst (λ n. IsApart all_blocks (w.i_size / 512) ((w.i_size + n) / 512)) (sym sum_size)
              apart)
            wrote),
    )
