-- ===== src/Ide/Batches.antt =====
-- The batches of device/ide.c as a disk with 28-bit addresses takes them.
use winx.Base.{
  ℕ, zero, suc, ◌+◌, ◌-◌, ◌*◌, ◌/◌, ◌%◌, ◌^◌, ◌≤◌, ◌<◌, bit_or, ◌≡◌, refl, sym, ap, ap₂, ◌∙◌, inl,
  inr, Bool, true, List, [], ◌∷◌, ◌++◌, arith, ltb, leb, ◌==◌, if◌then◌else◌, Bool-cases, lt→ltb,
  Run, done, le→leb, ltb→lt,
}
use winx.Base.{Run}
use winx.Ide.{
  Registers, Transfer, max_lba, cmd_read_sector, cmd_write_sector, select_sector, size_in_byte,
  batch_size, batches, ide_read, ide_write,
}

-- sectors in a row, each with its place in memory
abbrev pub sectors_from : ℕ → ℕ → ℕ → List (ℕ × ℕ)
sectors_from lba buf zero = []
sectors_from lba buf (suc n) = (lba, buf) ∷ sectors_from (lba + 1) (buf + 512) n

-- The address in the registers, and the number of sectors, where a disk takes 0 as 256.
abbrev pub address : Registers → ℕ
address r = r.lba_l + r.lba_m * 2 ^ 8 + r.lba_h * 2 ^ 16 + r.dev % 16 * 2 ^ 24

abbrev pub count : Registers → ℕ
count r = if r.sect_cnt == 0 then 256 else r.sect_cnt

-- what the disk moves
abbrev pub moved : List Transfer → List (ℕ × ℕ)
moved [] = []
moved (t ∷ ts) = sectors_from (address t.regs) t.buf (count t.regs) ++ moved ts

-- All commands are the same, and the words moved are those of its sectors.
abbrev pub AreCommands : ℕ → List Transfer → Type 0
AreCommands cmd [] = Unit
AreCommands cmd (t ∷ ts) = (t.cmd ≡ cmd) × (t.words * 2 ≡ count t.regs * 512) × AreCommands cmd ts

sectors-same :
    {a a' b b' n n' : ℕ} → a ≡ a' → b ≡ b' → n ≡ n' → sectors_from a b n ≡ sectors_from a' b' n'
sectors-same e e' e'' = rw (e, e', e'') refl

sectors_from-append :
    (lba buf m n : ℕ)
    → sectors_from lba buf (m + n)
      ≡ sectors_from lba buf m ++ sectors_from (lba + m) (buf + m * 512) n
sectors_from-append lba buf zero n = sectors-same (omega arith) (omega arith) (omega arith)
sectors_from-append lba buf (suc m) n =
    sectors-same {a = lba} {b = buf} {n = suc m + n} {n' = suc (m + n)} refl refl (omega arith)
    ∙ ap (λ zs. (lba, buf) ∷ zs)
        (sectors_from-append (lba + 1) (buf + 512) m n
          ∙ ap (λ zs. sectors_from (lba + 1) (buf + 512) m ++ zs)
              (sectors-same (omega arith) (omega arith) refl))

abbrev registers : ℕ → ℕ → ℕ → Registers
registers dev_no lba n = record {
  sect_cnt = n;
  lba_l = lba % 2 ^ 8;
  lba_m = lba / 2 ^ 8 % 2 ^ 8;
  lba_h = lba / 2 ^ 16 % 2 ^ 8;
  dev = bit_or (bit_or 0xe0 (if dev_no == 1 then 0x10 else 0)) (lba / 2 ^ 24) % 2 ^ 8;
}

select_sector_lem :
    (dev_no lba n : ℕ)
    → lba ≤ max_lba
    → (r : Registers) × (select_sector dev_no lba n ≡ done r) × (address r ≡ lba) × (r.sect_cnt ≡ n)
unfolding select_sector
select_sector_lem dev_no lba n h =
    let top : lba / 2 ^ 24 ≡ 0 = omega (arith, h) in
    (
      registers dev_no lba n,
      rw (le→leb lba max_lba h) refl,
      elim (Bool-cases (dev_no == 1)) [
        | inl slave ↦ rw (slave, top) (omega (arith, h))
        | inr master ↦ rw (master, top) (omega (arith, h))
      ],
      refl,
    )

abbrev pub Moves : ℕ → Run (List Transfer) → List (ℕ × ℕ) → Type 0
Moves cmd run sectors =
    (ts : List Transfer) × (run ≡ done ts) × (moved ts ≡ sectors) × AreCommands cmd ts

byte_count : (op : ℕ) → 0 < op → op ≤ 256 → (if op % 2 ^ 8 == 0 then 256 else op % 2 ^ 8) ≡ op
byte_count op some_op few = ground arith

byte_words : (op : ℕ) → 0 < op → op ≤ 256 → size_in_byte (op % 2 ^ 8) / 2 * 2 ≡ op * 512
byte_words op some_op few = ground arith

batches-step :
    (fuel : ℕ) (ready : ℕ → Bool) (cmd dev_no lba buf sec_cnt k : ℕ) (r : Registers)
    (ts : List Transfer)
    → ltb k sec_cnt ≡ true
    → select_sector dev_no (lba + k) (batch_size sec_cnt k % 2 ^ 8) ≡ done r
    → ready k ≡ true
    → batches fuel ready cmd dev_no lba buf sec_cnt (k + batch_size sec_cnt k) ≡ done ts
    → batches (suc fuel) ready cmd dev_no lba buf sec_cnt k
      ≡ done (
          record {
            regs = r;
            cmd = cmd;
            buf = (buf + k * 512) % 2 ^ 32;
            words = size_in_byte (batch_size sec_cnt k % 2 ^ 8) / 2;
          }
          ∷ ts)
unfolding batches
batches-step fuel ready cmd dev_no lba buf sec_cnt k r ts more sel is_ready rest =
    rw (more, sel, is_ready, rest) refl

batches_lem :
    (fuel : ℕ) (ready : ℕ → Bool) (cmd dev_no lba buf sec_cnt secs_done : ℕ)
    → ((k : ℕ) → ready k ≡ true)
    → lba + sec_cnt ≤ max_lba + 1
    → buf + sec_cnt * 512 ≤ 2 ^ 32
    → secs_done ≤ sec_cnt
    → sec_cnt - secs_done < fuel
    → Moves cmd
        (batches fuel ready cmd dev_no lba buf sec_cnt secs_done)
        (sectors_from (lba + secs_done) (buf + secs_done * 512) (sec_cnt - secs_done))
unfolding batches
batches_lem zero ready cmd dev_no lba buf sec_cnt k all_ready low fits le enough =
    absurd (omega (arith, enough))
batches_lem (suc fuel) ready cmd dev_no lba buf sec_cnt k all_ready low fits le enough =
    elim (Bool-cases (ltb k sec_cnt)) [
      | inr all ↦ (
        [],
        rw all refl,
        sectors-same {a = lba + k} {b = buf + k * 512} {n = 0} refl refl (ground (arith, all)),
        tt,
      )
      | inl more ↦
          let op = batch_size sec_cnt k in
          let some_left : k < sec_cnt = ltb→lt k sec_cnt more in
          let some_op : 0 < op = ground (arith, some_left) in
          let inside : k + op ≤ sec_cnt = ground (arith, some_left) in
          let few : op ≤ 256 = ground (arith, some_left) in
          let (r, sel, addr, cnt) =
            select_sector_lem dev_no (lba + k) (op % 2 ^ 8) (omega (arith, low, some_left)) in
          let (ts, run, are, cmds) =
            batches_lem fuel ready cmd dev_no lba buf sec_cnt (k + op) all_ready low fits inside
              (omega (arith, enough, some_op, some_left)) in
          let whole : count r ≡ op =
            ap (λ c. if c == 0 then 256 else c) cnt ∙ byte_count op some_op few in
          (
            _,
            batches-step fuel ready cmd dev_no lba buf sec_cnt k r ts more sel (all_ready k) run,
            ap₂ (λ xs ys. xs ++ ys) (sectors-same addr (omega (arith, fits, some_left)) whole)
                  (are ∙ sectors-same {n = sec_cnt - (k + op)} (omega arith) (omega arith) refl)
                ∙ sym (sectors_from-append (lba + k) (buf + k * 512) op (sec_cnt - (k + op)))
                ∙ sectors-same {a = lba + k} {b = buf + k * 512} refl refl (omega (arith, inside)),
            (refl, byte_words op some_op few ∙ ap (λ c. c * 512) (sym whole), cmds),
          )
    ]

-- `ide_read` and `ide_write` of sectors that are all on the disk, which is ready every time: with a
-- round of fuel more than sectors they return, and their commands move exactly these sectors, in
-- order and each once, to or from their places behind `buf`.
pub ide_read-ide_write_lem :
    (fuel : ℕ) (ready : ℕ → Bool) (dev_no lba buf sec_cnt : ℕ)
    → ((k : ℕ) → ready k ≡ true)
    → 0 < sec_cnt
    → lba + sec_cnt ≤ max_lba + 1
    → buf + sec_cnt * 512 ≤ 2 ^ 32
    → sec_cnt < fuel
    → Moves cmd_read_sector
        (ide_read fuel ready dev_no lba buf sec_cnt)
        (sectors_from lba buf sec_cnt)
      × Moves cmd_write_sector
          (ide_write fuel ready dev_no lba buf sec_cnt)
          (sectors_from lba buf sec_cnt)
unfolding ide_read ide_write
ide_read-ide_write_lem fuel ready dev_no lba buf sec_cnt all_ready some_secs low fits enough =
    let on_disk : leb lba max_lba ≡ true = le→leb lba max_lba (omega (arith, low, some_secs)) in
    let some : ltb 0 sec_cnt ≡ true = lt→ltb 0 sec_cnt some_secs in
    let here : sectors_from (lba + 0) (buf + 0 * 512) (sec_cnt - 0) ≡ sectors_from lba buf sec_cnt =
      sectors-same (omega arith) (omega arith) (omega arith) in
    let (ts, run, are, cmds) =
      batches_lem fuel ready cmd_read_sector dev_no lba buf sec_cnt 0 all_ready low fits
        (omega arith) (omega (arith, enough)) in
    let (ts', run', are', cmds') =
      batches_lem fuel ready cmd_write_sector dev_no lba buf sec_cnt 0 all_ready low fits
        (omega arith) (omega (arith, enough)) in
    (
      (ts, rw (on_disk, some) run, are ∙ here, cmds),
      (ts', rw (on_disk, some) run', are' ∙ here, cmds'),
    )
