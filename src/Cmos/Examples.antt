-- ===== src/Cmos/Examples.antt =====
-- The theorems on device/cmos.c at 29 February 2024, 12:34:56, and runs.
use winx.Base.{ℕ, ◌≡◌, refl, true, false, some, arith, ◌==◌, if◌then◌else◌, done}
use winx.Cmos.{Tm, datetime_to_timestamp, timestamp_to_datetime, is_leap_year, days_in_month}
use winx.Cmos.RoundTrip.{IsDate, datetime-timestamp, timestamp-datetime}
use winx.Cmos.Clock.{Ports, cmos_read, Shows, InCentury}

abbrev leap_day : Tm
leap_day = record {
  tm_sec = 56;
  tm_min = 34;
  tm_hour = 12;
  tm_mday = 29;
  tm_mon = 1;
  tm_year = 124;
}

leap_day-IsDate : IsDate leap_day
unfolding days_in_month
leap_day-IsDate = omega arith

leap_years : (is_leap_year 2000 ≡ true) × (is_leap_year 1900 ≡ false) × (is_leap_year 2023 ≡ false)
unfolding is_leap_year
leap_years = (refl, refl, refl)

datetime-timestamp_example :
    timestamp_to_datetime (datetime_to_timestamp (some leap_day)) ≡ done leap_day
datetime-timestamp_example = datetime-timestamp leap_day leap_day-IsDate

timestamp-datetime_example :
    (tm : Tm) × (timestamp_to_datetime 1709210096 ≡ done tm)
    × IsDate tm
    × (datetime_to_timestamp (some tm) ≡ 1709210096)
timestamp-datetime_example = timestamp-datetime 1709210096 (omega arith)

-- a chip that shows the leap day: the state is the register that port 0x70 selected
abbrev register : ℕ → ℕ
register addr =
    if addr == 0x80
    then 0x56
    else if addr == 0x82
    then 0x34
    else if addr == 0x84
    then 0x12
    else if addr == 0x87
    then 0x29
    else if addr == 0x88
    then 0x02
    else 0x24

abbrev chip : Ports ℕ
chip = record { outb = λ s port value. value; inb = λ s port. (register s, s) }

chip-Shows : Shows chip leap_day
unfolding cmos_read
chip-Shows = record {
  sec = λ s. refl;
  minute = λ s. refl;
  hour = λ s. refl;
  mday = λ s. refl;
  mon = λ s. refl;
  year = λ s. refl;
}

leap_day-InCentury : InCentury leap_day
leap_day-InCentury = omega arith
