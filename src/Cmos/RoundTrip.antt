-- ===== src/Cmos/RoundTrip.antt =====
-- Dates and timestamps of device/cmos.c are two spellings of one instant.
use winx.Base.{
  ℕ, ◌+◌, ◌-◌, ◌*◌, ◌/◌, ◌%◌, ◌^◌, ◌≤◌, ◌<◌, ◌≡◌, refl, sym, ap, subst, ◌∙◌, false, some, arith,
  ◌==◌, done,
}
use winx.Math.{divide_u64_u32_no_mod, mod_u64_u32}
use winx.Math.Division.{division_lem}
use winx.Cmos.{
  Tm, days_in_month, datetime_to_timestamp, timestamp_to_datetime, day_seconds, year_length,
}
use winx.Cmos.Calendar.{
  span, month_span, month_span-year, span_bounds, month_span_bound, month_span-lt,
  days_in_month_bounds, add_years-span, add_months-span, take_years-span, take_months-span, Years,
  Years-of, Months, Months-of,
}

-- A calendar date and a time of day, from 1970 on; months count from 0 and years from 1900. The
-- year is small enough for 32 bits of days.
pub record IsDate (tm : Tm) : Type 0 where
  pub since_1970 : 70 ≤ tm.tm_year
  pub small_year : tm.tm_year < 2 ^ 23
  pub month : tm.tm_mon < 12
  pub first_day : 1 ≤ tm.tm_mday
  pub last_day : tm.tm_mday ≤ days_in_month (tm.tm_mon + 1) (tm.tm_year + 1900)
  pub hour : tm.tm_hour < 24
  pub minute : tm.tm_min < 60
  pub second : tm.tm_sec < 60

-- the whole days before the date, and the seconds of its day
abbrev pub days_before : Tm → ℕ
days_before tm =
    span (tm.tm_year - 70) 1970 + month_span tm.tm_mon 1 (tm.tm_year + 1900) + (tm.tm_mday - 1)

abbrev pub day_time : Tm → ℕ
day_time tm = tm.tm_hour * 3600 + tm.tm_min * 60 + tm.tm_sec

-- `datetime_to_timestamp` of a date is the number of its seconds since the start of 1970.
pub datetime_to_timestamp_lem :
    (tm : Tm) → IsDate tm → datetime_to_timestamp (some tm) ≡ 86400 * days_before tm + day_time tm
unfolding datetime_to_timestamp
datetime_to_timestamp_lem tm d =
    let year : (tm.tm_year + 1900) % 2 ^ 32 ≡ tm.tm_year + 1900 = omega (arith, d.small_year) in
    let rounds : tm.tm_year + 1900 - 1970 ≡ tm.tm_year - 70 = omega arith in
    let bound = span_bounds (tm.tm_year - 70) 1970 in
    let bound' = month_span_bound tm.tm_mon 1 (tm.tm_year + 1900) in
    let y = add_years-span (tm.tm_year - 70) 1970 0 (omega (arith, d)) (omega (arith, d)) in
    let m =
      add_months-span tm.tm_mon 0 (tm.tm_year + 1900) (0 + 86400 * span (tm.tm_year - 70) 1970)
        (omega (arith, d)) (omega (arith, d)) in
    let day = days_in_month_bounds (tm.tm_mon + 1) (tm.tm_year + 1900) in
    rw (year, rounds, y, m) (omega (arith, d))

-- what `timestamp_to_datetime` makes of a number of days and of the seconds of the day
abbrev date_of : ℕ → ℕ → ℕ → ℕ → Tm
date_of year month days time = record {
  tm_year = (year + 2 ^ 32 - 1900) % 2 ^ 32;
  tm_mon = (month + 2 ^ 32 - 1) % 2 ^ 32;
  tm_mday = (days + 1) % 2 ^ 32;
  tm_hour = time / 3600;
  tm_min = time % 3600 / 60;
  tm_sec = time % 60;
}

quotient : (d v : ℕ) → d < 2 ^ 64 → 0 < v → v < 2 ^ 32 → divide_u64_u32_no_mod d v ≡ d / v
quotient d v h p k = let nz : (v == 0) ≡ false = ground arith in rw nz at (division_lem d v h k).0

remainder : (d v : ℕ) → d < 2 ^ 64 → 0 < v → v < 2 ^ 32 → mod_u64_u32 d v ≡ d % v
remainder d v h p k = let nz : (v == 0) ≡ false = ground arith in rw nz at (division_lem d v h k).1

timestamp_to_datetime-date_of :
    (t n k year month whole in_year rest : ℕ)
    → t < 86400 * 2 ^ 32
    → whole ≡ t / 86400
    → whole ≡ span n 1970 + in_year
    → year ≡ 1970 + n
    → in_year < year_length year
    → year < 2 ^ 32
    → in_year ≡ month_span k 1 year + rest
    → month ≡ 1 + k
    → rest < days_in_month month year
    → k < 12
    → timestamp_to_datetime t ≡ done (date_of year month rest (t % 86400))
unfolding timestamp_to_datetime
timestamp_to_datetime-date_of t n k year month whole in_year rest h w e ez f small e' ez' f' few =
    let q : divide_u64_u32_no_mod t day_seconds ≡ t / 86400 =
      quotient t 86400 (omega arith) (omega arith) (omega arith) in
    let r : mod_u64_u32 t day_seconds ≡ t % 86400 =
      remainder t 86400 (omega arith) (omega arith) (omega arith) in
    let wrap : (t / 86400) % 2 ^ 32 ≡ whole = omega arith in
    let y =
      take_years-span n (whole + 1) 1970 whole year in_year e ez f
        (omega (arith, span_bounds n 1970)) small in
    let m = take_months-span k 13 1 year in_year month rest e' ez' f' (omega arith) (omega arith) in
    let r' = remainder t 3600 (omega arith) (omega arith) (omega arith) in
    let r'' = remainder t 60 (omega arith) (omega arith) (omega arith) in
    let hour = quotient (t % 86400) 3600 (omega arith) (omega arith) (omega arith) in
    let minute = quotient (t % 3600) 60 (omega arith) (omega arith) (omega arith) in
    let hour_fits : t % 86400 / 3600 % 2 ^ 32 ≡ t % 86400 / 3600 = omega arith in
    let minute_fits : t % 3600 / 60 % 2 ^ 32 ≡ t % 86400 % 3600 / 60 = omega arith in
    let second_fits : t % 60 % 2 ^ 32 ≡ t % 86400 % 60 = omega arith in
    rw (q, wrap, y, m, r, hour, r', minute, r'', hour_fits, minute_fits, second_fits)

date_of-eq :
    (tm : Tm)
    → IsDate tm
    → date_of
        (tm.tm_year + 1900)
        (tm.tm_mon + 1)
        (tm.tm_mday - 1)
        ((86400 * days_before tm + day_time tm) % 86400)
      ≡ tm
date_of-eq tm d =
    let time : (86400 * days_before tm + day_time tm) % 86400 ≡ day_time tm = omega (arith, d) in
    let year : (tm.tm_year + 1900 + 2 ^ 32 - 1900) % 2 ^ 32 ≡ tm.tm_year = omega (arith, d) in
    let month : (tm.tm_mon + 1 + 2 ^ 32 - 1) % 2 ^ 32 ≡ tm.tm_mon = omega (arith, d) in
    let bound = days_in_month_bounds (tm.tm_mon + 1) (tm.tm_year + 1900) in
    let mday : (tm.tm_mday - 1 + 1) % 2 ^ 32 ≡ tm.tm_mday = omega (arith, d) in
    let hour : day_time tm / 3600 ≡ tm.tm_hour = omega (arith, d) in
    let minute : day_time tm % 3600 / 60 ≡ tm.tm_min = omega (arith, d) in
    let second : day_time tm % 60 ≡ tm.tm_sec = omega (arith, d) in
    rw (time, year, month, mday, hour, minute, second)

-- A date of the supported years survives the way to its timestamp and back, with its time of day.
pub datetime-timestamp :
    (tm : Tm) → IsDate tm → timestamp_to_datetime (datetime_to_timestamp (some tm)) ≡ done tm
datetime-timestamp tm d = rw (datetime_to_timestamp_lem tm d) (
    timestamp_to_datetime-date_of (86400 * days_before tm + day_time tm) (tm.tm_year - 70) tm.tm_mon
      (tm.tm_year + 1900) (tm.tm_mon + 1) (days_before tm)
      (month_span tm.tm_mon 1 (tm.tm_year + 1900) + (tm.tm_mday - 1)) (tm.tm_mday - 1)
      (omega (arith, d, day, years, months)) (omega (arith, d)) (omega (arith, d))
      (omega (arith, d)) (omega (arith, month_span-year (tm.tm_year + 1900), in_year))
      (omega (arith, d)) refl (omega arith) (omega (arith, d)) d.month
    ∙ ap done (date_of-eq tm d))
  where
    day :
        (28 ≤ days_in_month (tm.tm_mon + 1) (tm.tm_year + 1900))
        × (days_in_month (tm.tm_mon + 1) (tm.tm_year + 1900) ≤ 31)
    day = days_in_month_bounds (tm.tm_mon + 1) (tm.tm_year + 1900)

    years :
        (365 * (tm.tm_year - 70) ≤ span (tm.tm_year - 70) 1970)
        × (span (tm.tm_year - 70) 1970 ≤ 366 * (tm.tm_year - 70))
    years = span_bounds (tm.tm_year - 70) 1970

    months : month_span tm.tm_mon 1 (tm.tm_year + 1900) ≤ 31 * tm.tm_mon
    months = month_span_bound tm.tm_mon 1 (tm.tm_year + 1900)

    in_year :
        month_span tm.tm_mon 1 (tm.tm_year + 1900) + (tm.tm_mday - 1)
        < month_span 12 1 (tm.tm_year + 1900)
    in_year =
        month_span-lt 12 tm.tm_mon 1 (tm.tm_mon + 1) (tm.tm_year + 1900) (tm.tm_mday - 1) d.month
          (omega arith) (omega (arith, d))

-- the date with these parts, at a time of day in seconds
abbrev plain : ℕ → ℕ → ℕ → ℕ → Tm
plain n k rest time = record {
  tm_year = n + 70;
  tm_mon = k;
  tm_mday = rest + 1;
  tm_hour = time / 3600;
  tm_min = time % 3600 / 60;
  tm_sec = time % 60;
}

module _ (t : ℕ) (h : t < 86400 * 2 ^ 31) (y : Years (t / 86400) 1970)
    (m : Months 12 y.rest 1 y.z) where
  year : y.z ≡ y.n + 70 + 1900
  year = omega (arith, y.last)

  month : m.z ≡ m.n + 1
  month = omega (arith, m.last)

  fits : m.rest < days_in_month (m.n + 1) (y.n + 70 + 1900)
  fits =
      subst (λ a. m.rest < days_in_month a (y.n + 70 + 1900)) month
        (subst (λ a. m.rest < days_in_month m.z a) year m.fits)

  plain-IsDate : IsDate (plain y.n m.n m.rest (t % 86400))
  plain-IsDate = record {
    since_1970 = omega arith;
    small_year = omega (arith, span_bounds y.n 1970, y.whole);
    month = m.few;
    first_day = omega arith;
    last_day = omega (arith, fits);
    hour = omega arith;
    minute = omega arith;
    second = omega arith;
  }

  plain-seconds :
      86400 * days_before (plain y.n m.n m.rest (t % 86400))
        + day_time (plain y.n m.n m.rest (t % 86400))
      ≡ t
  plain-seconds =
      let n : y.n + 70 - 70 ≡ y.n = omega arith in
      let days : month_span m.n 1 (y.n + 70 + 1900) ≡ month_span m.n 1 y.z =
        ap (month_span m.n 1) (sym year) in
      rw (n, days) (omega (arith, y.whole, m.whole))

-- Every timestamp below 86400 * 2^31 seconds becomes a date, and the timestamp of that date is the
-- one it came from.
pub timestamp-datetime :
    (t : ℕ)
    → t < 86400 * 2 ^ 31
    → (tm : Tm) × (timestamp_to_datetime t ≡ done tm)
      × IsDate tm
      × (datetime_to_timestamp (some tm) ≡ t)
timestamp-datetime t h =
    let y = Years-of (t / 86400 + 1) (t / 86400) 1970 (omega arith) in
    let m = Months-of 12 y.rest 1 y.z (omega (arith, y.fits, month_span-year y.z)) in
    let tm = plain y.n m.n m.rest (t % 86400) in
    let d : IsDate tm = plain-IsDate t h y m in
    let e : datetime_to_timestamp (some tm) ≡ t =
      datetime_to_timestamp_lem tm d ∙ plain-seconds t h y m in
    (tm, subst (λ s. timestamp_to_datetime s ≡ done tm) e (datetime-timestamp tm d), d, e)
