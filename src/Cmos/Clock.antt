-- ===== src/Cmos/Clock.antt =====
-- The clock of device/cmos.c: the counter behind get_time, and time_init, which reads the date from
-- the CMOS registers. The two port instructions are a parameter.
use winx.Base.{
  ℕ, zero, suc, ◌+◌, ◌-◌, ◌*◌, ◌/◌, ◌%◌, ◌^◌, ◌≤◌, ◌<◌, bit_and, bit_or, ◌≡◌, some, arith, ◌==◌,
  if◌then◌else◌, ==-refl, Run, done, unfinished, ◌>>=◌,
}
use winx.Base.Bits.{bit_and-nibble}
use winx.Cmos.{Tm, datetime_to_timestamp}

-- `++fake_time`: the new counter is the result.
pub get_time : ℕ → ℕ
get_time fake_time = (fake_time + 1) % 2 ^ 32

-- `outb` and `inb` of lib/kernel/io.h over the state of the hardware
pub record Ports (S : Type 0) : Type 0 where
  pub outb : S → ℕ → ℕ → S
  pub inb : S → ℕ → ℕ × S

-- BCD_TO_BIN
pub bcd_to_bin : ℕ → ℕ
bcd_to_bin val = (bit_and val 15 + val / 2 ^ 4 * 10) % 2 ^ 32

module _ {S : Type 0} (ports : Ports S) where
  unfoldable pub cmos_read : ℕ → S → ℕ × S
  cmos_read addr s = ports.inb (ports.outb s 0x70 (bit_or 0x80 addr)) 0x71

  pub read_once : S → Tm × S
  read_once s =
      let (sec, s) = cmos_read 0 s in
      let (min', s) = cmos_read 2 s in
      let (hour, s) = cmos_read 4 s in
      let (mday, s) = cmos_read 7 s in
      let (mon, s) = cmos_read 8 s in
      let (year, s) = cmos_read 9 s in
      (
        record {
          tm_sec = sec;
          tm_min = min';
          tm_hour = hour;
          tm_mday = mday;
          tm_mon = mon;
          tm_year = year;
        },
        s,
      )

  -- `do { … } while (time.tm_sec != cmos_read(0))`
  pub read_stable : ℕ → S → Run (Tm × S)
  read_stable zero s = unfinished
  read_stable (suc fuel) s =
      let (tm, s') = read_once s in
      let (again, s'') = cmos_read 0 s' in
      let rest = read_stable fuel s'' in if tm.tm_sec == again then done (tm, s'') else rest

  -- the date and `tv_sec`
  pub time_init : ℕ → S → Run (Tm × ℕ × S)
  time_init fuel s = do
    (tm, s') ← read_stable fuel s
    let time = record tm {
      tm_sec = bcd_to_bin tm.tm_sec;
      tm_min = bcd_to_bin tm.tm_min;
      tm_hour = bcd_to_bin tm.tm_hour;
      tm_mday = bcd_to_bin tm.tm_mday;
      tm_mon = (bcd_to_bin tm.tm_mon + 2 ^ 32 - 1) % 2 ^ 32;
      tm_year = (bcd_to_bin tm.tm_year + 100) % 2 ^ 32;
    }
    done (time, datetime_to_timestamp (some time), s')

-- two decimal digits as the clock stores them
abbrev pub bcd : ℕ → ℕ
bcd n = n / 10 * 16 + n % 10

bcd_to_bin-bcd : (n : ℕ) → n < 100 → bcd_to_bin (bcd n) ≡ n
unfolding bcd_to_bin
bcd_to_bin-bcd n h = omega (arith, bit_and-nibble (bcd n) (omega arith))

-- The documented behaviour of the clock chip while no update is under way: each register holds its
-- part of the date as two decimal digits. The year is the one within the century.
pub record Shows {S : Type 0} (ports : Ports S) (tm : Tm) : Type 0 where
  pub sec : (s : S) → (cmos_read ports 0 s).0 ≡ bcd tm.tm_sec
  pub minute : (s : S) → (cmos_read ports 2 s).0 ≡ bcd tm.tm_min
  pub hour : (s : S) → (cmos_read ports 4 s).0 ≡ bcd tm.tm_hour
  pub mday : (s : S) → (cmos_read ports 7 s).0 ≡ bcd tm.tm_mday
  pub mon : (s : S) → (cmos_read ports 8 s).0 ≡ bcd (tm.tm_mon + 1)
  pub year : (s : S) → (cmos_read ports 9 s).0 ≡ bcd (tm.tm_year - 100)

-- a date of this century, in the form in which the code keeps it
pub record InCentury (tm : Tm) : Type 0 where
  pub sec : tm.tm_sec < 60
  pub minute : tm.tm_min < 60
  pub hour : tm.tm_hour < 24
  pub mday : tm.tm_mday < 32
  pub mon : tm.tm_mon < 12
  pub from_2000 : 100 ≤ tm.tm_year
  pub to_2099 : tm.tm_year < 200

-- With a clock that shows a date of this century `time_init` ends after one round of its loop, with
-- that date and its timestamp.
pub time_init_lem :
    {S : Type 0} (ports : Ports S) (tm : Tm) (fuel : ℕ) (s : S)
    → Shows ports tm
    → InCentury tm
    → (s' : S) × (time_init ports (suc fuel) s ≡ done (tm, datetime_to_timestamp (some tm), s'))
unfolding time_init read_stable read_once
time_init_lem ports tm fuel s shows c =
    let mon : (bcd_to_bin (bcd (tm.tm_mon + 1)) + 2 ^ 32 - 1) % 2 ^ 32 ≡ tm.tm_mon =
      omega (arith, c, bcd_to_bin-bcd (tm.tm_mon + 1)) in
    let year : (bcd_to_bin (bcd (tm.tm_year - 100)) + 100) % 2 ^ 32 ≡ tm.tm_year =
      omega (arith, c, bcd_to_bin-bcd (tm.tm_year - 100)) in
    let sec = bcd_to_bin-bcd tm.tm_sec (omega (arith, c)) in
    let minute = bcd_to_bin-bcd tm.tm_min (omega (arith, c)) in
    let hour = bcd_to_bin-bcd tm.tm_hour (omega (arith, c)) in
    let mday = bcd_to_bin-bcd tm.tm_mday (omega (arith, c)) in
    (
      (cmos_read ports 0 (read_once ports s).1).1,
      simp (
        shows.sec, shows.minute, shows.hour, shows.mday, shows.mon, shows.year, ==-refl, sec,
        minute, hour, mday, mon, year,
      ),
    )
