-- ===== src/Cmos.antt =====
-- device/cmos.c: calendar dates and seconds since 1970, and the clock that is read at the start.
-- The uint32_t and uint64_t arithmetic wraps.
pub mod Calendar
pub mod RoundTrip
pub mod Clock
mod Examples
use winx.Base.{
  ℕ, zero, suc, ◌+◌, ◌-◌, ◌*◌, ◌/◌, ◌%◌, ◌^◌, ◌≤◌, ◌<◌, min, bit_and, bit_or, ◌≡◌, refl, sym, ap,
  ap₂, subst, ◌∙◌, fun_ext, ◌≢◌, ◌↔◌, ◌⊎◌, inl, inr, Bool, true, false, not, ◌&&◌, ◌||◌, Option,
  none, some, List, [], ◌∷◌, ◌++◌, arith, ltb, leb, ◌==◌, if◌then◌else◌, Bool-cases, Option-cases,
  ==→eq, ==-refl, ne→==, lt→ltb, le→ltb, length, get_or, length-append, update, slice, Run, done,
  halted, unfinished, ◌>>=◌, ◌>>◌, assert, ℤ, pos, negsuc, le→leb, lt→leb, leb→le, leb→lt, ltb→lt,
  ltb→le,
}
use winx.Math.{divide_u64_u32_no_mod, mod_u64_u32}

pub record Tm : Type 0 where
  pub tm_sec : ℕ
  pub tm_min : ℕ
  pub tm_hour : ℕ
  pub tm_mday : ℕ
  pub tm_mon : ℕ
  pub tm_year : ℕ

unfoldable pub is_leap_year : ℕ → Bool
is_leap_year year = year % 4 == 0 && not (year % 100 == 0) || year % 400 == 0

unfoldable pub days_in_month : ℕ → ℕ → ℕ
unfolding is_leap_year
days_in_month month year =
    if month == 2
    then (if is_leap_year year then 29 else 28)
    else if month == 4 || month == 6 || month == 9 || month == 11
    then 30
    else 31

-- `for (y = 1970; y < tm_year + 1900; y++)`, with the number of rounds left
pub add_years : ℕ → ℕ → ℕ → ℕ
add_years zero y total_seconds = total_seconds
add_years (suc n) y total_seconds =
    add_years n ((y + 1) % 2 ^ 32)
      ((total_seconds + (if is_leap_year y then 31622400 else 31536000)) % 2 ^ 64)

-- `for (m = 0; m < tm_mon; m++)`, with the number of rounds left
pub add_months : ℕ → ℕ → ℕ → ℕ → ℕ
add_months zero m year total_seconds = total_seconds
add_months (suc n) m year total_seconds =
    add_months n ((m + 1) % 2 ^ 32) year
      ((total_seconds + days_in_month (m + 1) year * 24 * 60 * 60) % 2 ^ 64)

-- `none` is NULL.
pub datetime_to_timestamp : Option Tm → ℕ
datetime_to_timestamp none = 0
datetime_to_timestamp (some tm) =
    let year = (tm.tm_year + 1900) % 2 ^ 32 in
    let years = add_years (year - 1970) 1970 0 in
    let months = add_months tm.tm_mon 0 year years in
    let days = (months + (tm.tm_mday + 2 ^ 32 - 1) % 2 ^ 32 * 24 * 60 * 60 % 2 ^ 32) % 2 ^ 64 in
    (days + (tm.tm_hour * 60 * 60 + tm.tm_min * 60 + tm.tm_sec) % 2 ^ 32) % 2 ^ 64

-- `365u + (year % 4 == 0 && (year % 100 != 0 || year % 400 == 0))`
abbrev pub year_length : ℕ → ℕ
year_length year =
    365 + (if year % 4 == 0 && (not (year % 100 == 0) || year % 400 == 0) then 1 else 0)

-- the loop that takes whole years off: the days left and the year
pub take_years : ℕ → ℕ → ℕ → Run (ℕ × ℕ)
take_years zero days year = unfinished
take_years (suc fuel) days year =
    let rest = take_years fuel (days - year_length year) ((year + 1) % 2 ^ 32) in
    if leb (year_length year) days then rest else done (days, year)

-- the loop that takes whole months off: the days left and the month
pub take_months : ℕ → ℕ → ℕ → ℕ → Run (ℕ × ℕ)
take_months zero days month year = unfinished
take_months (suc fuel) days month year =
    let rest = take_months fuel (days - days_in_month month year) ((month + 1) % 2 ^ 32) year in
    if leb (days_in_month month year) days then rest else done (days, month)

abbrev pub day_seconds : ℕ
day_seconds = 24 * 3600

-- The first loop has a round for each day at most, the second one for each month.
pub timestamp_to_datetime : ℕ → Run Tm
timestamp_to_datetime timestamp = do
  let whole_days = divide_u64_u32_no_mod timestamp day_seconds % 2 ^ 32
  (year_days, year) ← take_years (whole_days + 1) whole_days 1970
  (days, month) ← take_months 13 year_days 1 year
  done (record {
    tm_year = (year + 2 ^ 32 - 1900) % 2 ^ 32;
    tm_mon = (month + 2 ^ 32 - 1) % 2 ^ 32;
    tm_mday = (days + 1) % 2 ^ 32;
    tm_hour = divide_u64_u32_no_mod (mod_u64_u32 timestamp day_seconds) 3600 % 2 ^ 32;
    tm_min = divide_u64_u32_no_mod (mod_u64_u32 timestamp 3600) 60 % 2 ^ 32;
    tm_sec = mod_u64_u32 timestamp 60 % 2 ^ 32;
  })
