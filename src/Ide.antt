-- ===== src/Ide.antt =====
-- `ide_read` and `ide_write` of device/ide.c as the commands that they give to the disk. What the
-- ports take is in a `Transfer`; whether `busy_wait` finds the disk ready for the batch that begins
-- behind so many sectors is a parameter. The lock and the semaphore of the channel are not part of it.
pub mod Batches
mod Examples
use winx.Base.{
  ℕ, zero, suc, ◌+◌, ◌-◌, ◌*◌, ◌/◌, ◌%◌, ◌^◌, ◌≤◌, ◌<◌, min, bit_and, bit_or, ◌≡◌, refl, sym, ap,
  ap₂, subst, ◌∙◌, fun_ext, ◌≢◌, ◌↔◌, ◌⊎◌, inl, inr, Bool, true, false, not, ◌&&◌, ◌||◌, Option,
  none, some, List, [], ◌∷◌, ◌++◌, arith, ltb, leb, ◌==◌, if◌then◌else◌, Bool-cases, Option-cases,
  ==→eq, ==-refl, ne→==, lt→ltb, le→ltb, length, get_or, length-append, update, slice, Run, done,
  halted, unfinished, ◌>>=◌, ◌>>◌, assert, le→leb, lt→leb, leb→le, leb→lt, ltb→lt, ltb→le, Ends,
  Ends->>=, Ends-assert, Ends-any,
}
use winx.Base.{Run}

abbrev pub max_lba : ℕ
max_lba = 80 * 1024 * 1024 / 512 - 1

abbrev pub cmd_read_sector : ℕ
cmd_read_sector = 0x20

abbrev pub cmd_write_sector : ℕ
cmd_write_sector = 0x30

-- the bytes that go to the registers of the channel
pub record Registers : Type 0 where
  pub sect_cnt : ℕ
  pub lba_l : ℕ
  pub lba_m : ℕ
  pub lba_h : ℕ
  pub dev : ℕ

-- a command, and the words that are moved through the data port after it
pub record Transfer : Type 0 where
  pub regs : Registers
  pub cmd : ℕ
  pub buf : ℕ
  pub words : ℕ

pub select_sector : ℕ → ℕ → ℕ → Run Registers
select_sector dev_no lba sec_cnt = do
  assert (leb lba max_lba)
  done (record {
    sect_cnt = sec_cnt;
    lba_l = lba % 2 ^ 8;
    lba_m = lba / 2 ^ 8 % 2 ^ 8;
    lba_h = lba / 2 ^ 16 % 2 ^ 8;
    dev = bit_or (bit_or 0xe0 (if dev_no == 1 then 0x10 else 0)) (lba / 2 ^ 24) % 2 ^ 8;
  })

-- of `read_from_sector` and `write2sector`
abbrev pub size_in_byte : ℕ → ℕ
size_in_byte sec_cnt = if sec_cnt == 0 then 256 * 512 else sec_cnt * 512

abbrev pub batch_size : ℕ → ℕ → ℕ
batch_size sec_cnt secs_done = if leb (secs_done + 256) sec_cnt then 256 else sec_cnt - secs_done

-- The loop of either function. A number of sectors is passed on as a uint8_t. `select_sector` halts
-- before `secs_done` could overflow.
pub batches : ℕ → (ℕ → Bool) → ℕ → ℕ → ℕ → ℕ → ℕ → ℕ → Run (List Transfer)
batches zero ready cmd dev_no lba buf sec_cnt secs_done = unfinished
batches (suc fuel) ready cmd dev_no lba buf sec_cnt secs_done =
    let secs_op = batch_size sec_cnt secs_done in
    let rest = batches fuel ready cmd dev_no lba buf sec_cnt (secs_done + secs_op) in
    if ltb secs_done sec_cnt
    then (do
      regs ← select_sector dev_no (lba + secs_done) (secs_op % 2 ^ 8)
      assert (ready secs_done)
      later ← rest
      done (
          record {
            regs = regs;
            cmd = cmd;
            buf = (buf + secs_done * 512) % 2 ^ 32;
            words = size_in_byte (secs_op % 2 ^ 8) / 2;
          }
          ∷ later))
    else done []

pub ide_read : ℕ → (ℕ → Bool) → ℕ → ℕ → ℕ → ℕ → Run (List Transfer)
ide_read fuel ready dev_no lba buf sec_cnt = do
  assert (leb lba max_lba)
  assert (ltb 0 sec_cnt)
  batches fuel ready cmd_read_sector dev_no lba buf sec_cnt 0

pub ide_write : ℕ → (ℕ → Bool) → ℕ → ℕ → ℕ → ℕ → Run (List Transfer)
ide_write fuel ready dev_no lba buf sec_cnt = do
  assert (leb lba max_lba)
  assert (ltb 0 sec_cnt)
  batches fuel ready cmd_write_sector dev_no lba buf sec_cnt 0
