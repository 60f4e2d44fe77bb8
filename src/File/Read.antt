-- ===== src/File/Read.antt =====
-- `file_read` of fs/file.c returns the bytes of the file.
use winx.Base.{
  ℕ, zero, suc, ◌+◌, ◌-◌, ◌*◌, ◌/◌, ◌%◌, ◌^◌, ◌≤◌, ◌<◌, min, ◌≡◌, refl, sym, ap, ap₂, subst, ◌∙◌,
  ◌≢◌, ◌⊎◌, inl, inr, true, false, ◌&&◌, none, some, arith, ltb, leb, ◌==◌, if◌then◌else◌,
  Bool-cases, ==→eq, Run, done,
}
use winx.CString.{Memory}
use winx.Volume.{Volume, overwrite}
use winx.Inode.{Inode}
use winx.File.{blocks_to_read, file_read, read_size, read_chunks}
use winx.File.Blocks.{blocks_to_read-Looked, file_block, file_byte, Looked}

-- `size` bytes of the file from `p` on stand at `dst`, and all other memory is as it was.
unfoldable pub Fetched : Volume → Inode → Memory → ℕ → ℕ → ℕ → Memory → Type 0
Fetched part inode mem p dst size mem' =
    (a : ℕ)
    → mem' a
      ≡ (if leb dst a && ltb a (dst + size) then file_byte part inode (p + (a - dst)) else mem a)

-- the bytes of one chunk
chunk-file_byte :
    (part : Volume) (inode : Inode) (all_blocks : ℕ → ℕ) (p i : ℕ)
    → p % 512 + i < 512
    → all_blocks (p / 512) ≡ file_block part inode (p / 512)
    → part.sectors (all_blocks (p / 512)) (p % 512 + i) ≡ file_byte part inode (p + i)
unfolding file_byte
chunk-file_byte part inode all_blocks p i inside looked =
    let block : (p + i) / 512 ≡ p / 512 = omega arith in
    let byte : (p + i) % 512 ≡ p % 512 + i = omega arith in
    ap₂ part.sectors (looked ∙ ap (file_block part inode) (sym block)) (sym byte)

-- a chunk, and what is read behind it
Fetched-chunk :
    (part : Volume) (inode : Inode) (mem mem' io : Memory) (p dst c size_left : ℕ)
    → c ≤ size_left
    → ((i : ℕ) → i < c → io i ≡ file_byte part inode (p + i))
    → Fetched part inode (overwrite mem dst c io) (p + c) (dst + c) (size_left - c) mem'
    → Fetched part inode mem p dst size_left mem'
unfolding Fetched
Fetched-chunk part inode mem mem' io p dst c size_left few bytes behind a =
    elim (Bool-cases (leb (dst + c) a && ltb a (dst + c + (size_left - c)))) [
      | inl later ↦
          let within : (leb dst a && ltb a (dst + size_left)) ≡ true = ground arith in
          let place : p + c + (a - (dst + c)) ≡ p + (a - dst) = ground arith in
          behind a ∙ rw (later, within) (ap (file_byte part inode) place)
      | inr other ↦ elim (Bool-cases (leb dst a && ltb a (dst + c))) [
        | inl now ↦
            let within : (leb dst a && ltb a (dst + size_left)) ≡ true = ground arith in
            behind a ∙ rw (other, now, within) (bytes (a - dst) (ground arith))
        | inr neither ↦
            let outside : (leb dst a && ltb a (dst + size_left)) ≡ false = ground arith in
            behind a ∙ rw (other, neither, outside) refl
      ]
    ]

read_chunks-Fetched :
    (fuel : ℕ) (part : Volume) (inode : Inode) (all_blocks : ℕ → ℕ) (mem : Memory)
    (dst p bytes_read size size_left : ℕ)
    → size_left < fuel
    → bytes_read + size_left ≡ size
    → Looked part inode (p / 512) ((p + size_left) / 512) all_blocks
    → (mem' : Memory) × (p' : ℕ) × (read_chunks fuel part all_blocks mem dst p bytes_read size
          size_left
        ≡ done (mem', p', size))
      × (p' ≡ p + size_left)
      × Fetched part inode mem p dst size_left mem'
unfolding read_chunks Fetched
read_chunks-Fetched zero part inode all_blocks mem dst p bytes_read size size_left enough total
      looked =
    absurd (omega arith)
read_chunks-Fetched (suc fuel) part inode all_blocks mem dst p bytes_read size size_left enough
      total looked =
    elim (Bool-cases (ltb bytes_read size)) [
      | inr over ↦
          let none_left : size_left ≡ 0 = ground arith in
          let all_read : bytes_read ≡ size = ground arith in
          (mem, p, rw over (ap (λ n. done (mem, p, n)) all_read), omega arith, λ a. ground arith)
      | inl more ↦
          let c : ℕ = if ltb size_left (512 - p % 512) then size_left else 512 - p % 512 in
          let some_left : 0 < size_left = ground arith in
          let c_pos : 0 < c = ground arith in
          let c_left : c ≤ size_left = ground arith in
          let c_block : p % 512 + c ≤ 512 = ground arith in
          let io : Memory = λ i. part.sectors (all_blocks (p / 512)) (p % 512 + i) in
          let (mem', p', e, there, fetched) =
            read_chunks-Fetched fuel part inode all_blocks (overwrite mem dst c io) (dst + c)
              (p + c) (bytes_read + c) size (size_left - c) (omega arith) (omega arith)
              (λ j a b. looked j (omega arith) (omega arith)) in
          (
            mem',
            p',
            rw more e,
            omega arith,
            Fetched-chunk part inode mem mem' io p dst c size_left c_left
                (λ i h.
                  chunk-file_byte part inode all_blocks p i (omega arith)
                    (looked (p / 512) (omega arith) (omega arith)))
                fetched,
          )
    ]

file_read-rest :
    (part : Volume) (inode : Inode) (mem : Memory) (dst p count rest : ℕ) {mem' : Memory} {q n : ℕ}
    → ltb inode.i_size ((p + count) % 2 ^ 32) ≡ true
    → (inode.i_size + 2 ^ 32 - p) % 2 ^ 32 ≡ rest
    → (rest == 0) ≡ false
    → read_size part inode mem dst p rest ≡ done (mem', q, n)
    → file_read part inode mem p dst count ≡ done (mem', q, some n)
unfolding file_read
file_read-rest part inode mem dst p count rest over left more e = rw (over, left, more, e) refl

file_read-count :
    (part : Volume) (inode : Inode) (mem : Memory) (dst p count : ℕ) {mem' : Memory} {q n : ℕ}
    → ltb inode.i_size ((p + count) % 2 ^ 32) ≡ false
    → read_size part inode mem dst p count ≡ done (mem', q, n)
    → file_read part inode mem p dst count ≡ done (mem', q, some n)
unfolding file_read
file_read-count part inode mem dst p count within e = rw (within, e) refl

read_size-run :
    (part : Volume) (inode : Inode) (mem : Memory) (dst p size : ℕ) (all_blocks : ℕ → ℕ)
    (r : Run (Memory × ℕ × ℕ))
    → (p + size) % 2 ^ 32 ≡ p + size
    → (ltb (p / 512) 139 && ltb ((p + size) / 512) 139) ≡ true
    → blocks_to_read part inode (p / 512) ((p + size) / 512) ≡ done all_blocks
    → read_chunks (size + 1) part all_blocks mem dst p 0 size size ≡ r
    → read_size part inode mem dst p size ≡ r
unfolding read_size
read_size-run part inode mem dst p size all_blocks r sum few found e = rw (sum, few, found) e

module _ (part : Volume) (inode : Inode) (mem : Memory) (p dst : ℕ) (low : p ≤ inode.i_size)
    (short : inode.i_size < 139 * 512)
    (table : (inode.i_size < 12 * 512) ⊎ (inode.i_sectors 12 ≢ 0)) where
  read_size-Fetched :
      (size : ℕ)
      → p + size ≤ inode.i_size
      → (mem' : Memory) × (read_size part inode mem dst p size ≡ done (mem', p + size, size))
        × Fetched part inode mem p dst size mem'
  read_size-Fetched size inside =
      let sum : (p + size) % 2 ^ 32 ≡ p + size = omega arith in
      let few : (ltb (p / 512) 139 && ltb ((p + size) / 512) 139) ≡ true = ground arith in
      let table' : ((p + size) / 512 < 12) ⊎ (inode.i_sectors 12 ≢ 0) = elim table [
        | inl d ↦ inl (omega arith)
        | inr ne ↦ inr ne
      ] in
      let (all_blocks, found, looked) =
        blocks_to_read-Looked part inode (p / 512) ((p + size) / 512) (omega arith) (omega arith)
          table' in
      let (mem', p', e, there, fetched) =
        read_chunks-Fetched (size + 1) part inode all_blocks mem dst p 0 size size (omega arith)
          (omega arith) looked in
      (
        mem',
        read_size-run part inode mem dst p size all_blocks (done (mem', p + size, size)) sum few
            found (e ∙ ap (λ q. done (mem', q, size)) there),
        fetched,
      )

  -- A read of a file below 71168 bytes, whose table block is there if it has 6144 or more, from a
  -- position inside it or at its end, where position and `count` add up to less than 2^32: at its end
  -- a read of anything fails and changes nothing; otherwise it returns how many bytes it reads, the
  -- smaller of `count` and what is left, has moved the position by as much, stores the file's bytes
  -- from the position on, and changes no other memory.
  pub file_read_lem :
      (count : ℕ)
      → p + count < 2 ^ 32
      → ((p ≡ inode.i_size)
          × (0 < count)
          × (file_read part inode mem p dst count ≡ done (mem, p, none)))
        ⊎ ((p < inode.i_size) ⊎ (count ≡ 0))
          × ((mem' : Memory) × (file_read part inode mem p dst count
                ≡ done
                    (mem', p + min count (inode.i_size - p), some (min count (inode.i_size - p))))
              × Fetched part inode mem p dst (min count (inode.i_size - p)) mem')
  unfolding file_read
  file_read_lem count wide =
      let reads : ℕ → Type 0 = λ n.
        (mem' : Memory) × (file_read part inode mem p dst count ≡ done (mem', p + n, some n))
        × Fetched part inode mem p dst n mem' in
      let sum : (p + count) % 2 ^ 32 ≡ p + count = omega arith in
      let left : (inode.i_size + 2 ^ 32 - p) % 2 ^ 32 ≡ inode.i_size - p = omega arith in
      elim (Bool-cases (ltb inode.i_size (p + count))) [
        | inl over ↦ elim (Bool-cases (inode.i_size - p == 0)) [
          | inl end ↦ inl (ground arith, ground arith, rw (sum, left, over, end) refl)
          | inr more ↦
              let least : min count (inode.i_size - p) ≡ inode.i_size - p = ground arith in
              let (mem', e, fetched) = read_size-Fetched (inode.i_size - p) (omega arith) in
              let test : ltb inode.i_size ((p + count) % 2 ^ 32) ≡ true = ground arith in
              inr (
                inl (ground arith),
                subst reads (sym least) (
                  mem',
                  file_read-rest part inode mem dst p count (inode.i_size - p) test left more e,
                  fetched,
                ),
              )
        ]
        | inr within ↦
            let least : min count (inode.i_size - p) ≡ count = ground arith in
            let (mem', e, fetched) = read_size-Fetched count (ground arith) in
            inr (
              elim (Bool-cases (count == 0)) [
                | inl nothing ↦ inr (==→eq _ _ nothing)
                | inr some_bytes ↦ inl (ground arith)
              ],
              subst reads (sym least)
                  (mem', file_read-count part inode mem dst p count (ground arith) e, fetched),
            )
      ]
