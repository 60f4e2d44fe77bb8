-- ===== src/Cmos/Calendar.antt =====
-- The loops of device/cmos.c over years and months count days.
use winx.Base.{
  ℕ, zero, suc, ◌+◌, ◌-◌, ◌*◌, ◌%◌, ◌^◌, ◌≤◌, ◌<◌, ◌≡◌, ap, subst, ◌∙◌, inl, inr, true, false,
  arith, leb, if◌then◌else◌, Bool-cases, done, le→leb, lt→leb, leb→le, leb→lt,
}
use winx.Cmos.{
  is_leap_year, days_in_month, add_years, add_months, year_length, take_years, take_months,
}

-- the days of `n` years from `y` on
unfoldable pub span : ℕ → ℕ → ℕ
span zero y = 0
span (suc n) y = year_length y + span n (y + 1)

-- the days of `n` months from `m` on, in one year
unfoldable pub month_span : ℕ → ℕ → ℕ → ℕ
month_span zero m year = 0
month_span (suc n) m year = days_in_month m year + month_span n (m + 1) year

pub year_length-leap : (y : ℕ) → year_length y ≡ (if is_leap_year y then 366 else 365)
unfolding is_leap_year
year_length-leap y = ground arith

pub days_in_month_bounds : (m y : ℕ) → (28 ≤ days_in_month m y) × (days_in_month m y ≤ 31)
unfolding days_in_month
days_in_month_bounds m y = ground arith

-- a year is its twelve months
pub month_span-year : (y : ℕ) → month_span 12 1 y ≡ year_length y
unfolding month_span days_in_month
month_span-year y = ground arith

pub span_bounds : (n y : ℕ) → (365 * n ≤ span n y) × (span n y ≤ 366 * n)
unfolding span
span_bounds zero y = omega arith
span_bounds (suc n) y = ground (arith, span_bounds n (y + 1))

pub month_span_bound : (n m y : ℕ) → month_span n m y ≤ 31 * n
unfolding month_span days_in_month
month_span_bound zero m y = omega arith
month_span_bound (suc n) m y = ground (arith, month_span_bound n (m + 1) y)

year_seconds :
    (y total : ℕ)
    → total + 86400 * year_length y < 2 ^ 64
    → (total + (if is_leap_year y then 31622400 else 31536000)) % 2 ^ 64
      ≡ total + 86400 * year_length y
year_seconds y total h = elim (Bool-cases (is_leap_year y)) [
  | inl leap ↦
      let e : year_length y ≡ 366 = year_length-leap y ∙ rw leap in rw leap (omega (arith, e))
  | inr common ↦
      let e : year_length y ≡ 365 = year_length-leap y ∙ rw common in rw common (omega (arith, e))
]

pub add_years-span :
    (n y total : ℕ)
    → y + n < 2 ^ 32
    → total + 86400 * span n y < 2 ^ 64
    → add_years n y total ≡ total + 86400 * span n y
unfolding add_years span
add_years-span zero y total h k = omega arith
add_years-span (suc n) y total h k =
    let wrap : (y + 1) % 2 ^ 32 ≡ y + 1 = omega arith in
    let t : (total + (if is_leap_year y then 31622400 else 31536000)) % 2 ^ 64
        ≡ total + 86400 * year_length y =
      year_seconds y total (omega arith) in
    rw (wrap, t)
      (add_years-span n (y + 1) (total + 86400 * year_length y) (omega arith) (omega arith)
        ∙ omega arith)

pub add_months-span :
    (n m year total : ℕ)
    → m + n < 2 ^ 31
    → total + 86400 * month_span n (m + 1) year < 2 ^ 64
    → add_months n m year total ≡ total + 86400 * month_span n (m + 1) year
unfolding add_months month_span
add_months-span zero m year total h k = omega arith
add_months-span (suc n) m year total h k =
    let wrap : (m + 1) % 2 ^ 32 ≡ m + 1 = omega arith in
    rw wrap (
      ground (
        arith,
        add_months-span n (m + 1) year
            ((total + days_in_month (m + 1) year * 24 * 60 * 60) % 2 ^ 64),
      ))

pub take_years-span :
    (n fuel y d z rest : ℕ)
    → d ≡ span n y + rest
    → z ≡ y + n
    → rest < year_length z
    → n < fuel
    → z < 2 ^ 32
    → take_years fuel d y ≡ done (rest, z)
unfolding take_years span
take_years-span n zero y d z rest e ez h f k = absurd (omega arith)
take_years-span zero (suc fuel) y d z rest e ez h f k =
    let same : z ≡ y = omega arith in
    let h' : rest < year_length y = subst (λ t. rest < year_length t) same h in
    let stop : leb (year_length y) d ≡ false = lt→leb (year_length y) d (omega arith) in
    rw (stop, same) (ap (λ t. done (t, y)) (omega arith))
take_years-span (suc n) (suc fuel) y d z rest e ez h f k =
    let more : leb (year_length y) d ≡ true = le→leb (year_length y) d (omega arith) in
    let wrap : (y + 1) % 2 ^ 32 ≡ y + 1 = omega arith in
    rw (more, wrap)
      (take_years-span n fuel (y + 1) (d - year_length y) z rest (omega arith) (omega arith) h
        (omega arith) k)

pub take_months-span :
    (n fuel m year d z rest : ℕ)
    → d ≡ month_span n m year + rest
    → z ≡ m + n
    → rest < days_in_month z year
    → n < fuel
    → z < 2 ^ 32
    → take_months fuel d m year ≡ done (rest, z)
unfolding take_months month_span
take_months-span n zero m year d z rest e ez h f k = absurd (omega arith)
take_months-span zero (suc fuel) m year d z rest e ez h f k =
    let same : z ≡ m = omega arith in
    let h' : rest < days_in_month m year = subst (λ t. rest < days_in_month t year) same h in
    let stop : leb (days_in_month m year) d ≡ false =
      lt→leb (days_in_month m year) d (omega arith) in
    rw (stop, same) (ap (λ t. done (t, m)) (omega arith))
take_months-span (suc n) (suc fuel) m year d z rest e ez h f k =
    let more : leb (days_in_month m year) d ≡ true =
      le→leb (days_in_month m year) d (omega arith) in
    let wrap : (m + 1) % 2 ^ 32 ≡ m + 1 = omega arith in
    rw (more, wrap)
      (take_months-span n fuel (m + 1) year (d - days_in_month m year) z rest (omega arith)
        (omega arith) h (omega arith) k)

-- `d` days from the start of year `y` on are `n` whole years and a rest that year `z` can hold
pub record Years (d y : ℕ) : Type 0 where
  pub n : ℕ
  pub z : ℕ
  pub rest : ℕ
  pub whole : d ≡ span n y + rest
  pub last : z ≡ y + n
  pub fits : rest < year_length z

Years-suc : (d y : ℕ) → leb (year_length y) d ≡ true → Years (d - year_length y) (y + 1) → Years d y
unfolding span
Years-suc d y more r = record {
  n = suc r.n;
  z = r.z;
  rest = r.rest;
  whole = omega (arith, r.whole, leb→le (year_length y) d more);
  last = omega (arith, r.last);
  fits = r.fits;
}

pub Years-of : (fuel d y : ℕ) → d < fuel → Years d y
unfolding span
Years-of zero d y h = absurd (omega arith)
Years-of (suc fuel) d y h = elim (Bool-cases (leb (year_length y) d)) [
  | inr less ↦ record {
    n = 0;
    z = y;
    rest = d;
    whole = omega arith;
    last = omega arith;
    fits = leb→lt (year_length y) d less;
  }
  | inl more ↦
      Years-suc d y more
        (Years-of fuel (d - year_length y) (y + 1) (omega (arith, leb→le (year_length y) d more)))
]

-- the same for the months of one year, at most `most` of them
pub record Months (most d m year : ℕ) : Type 0 where
  pub n : ℕ
  pub z : ℕ
  pub rest : ℕ
  pub whole : d ≡ month_span n m year + rest
  pub last : z ≡ m + n
  pub few : n < most
  pub fits : rest < days_in_month z year

Months-suc :
    (most d m year : ℕ)
    → leb (days_in_month m year) d ≡ true
    → Months most (d - days_in_month m year) (m + 1) year
    → Months (suc most) d m year
unfolding month_span
Months-suc most d m year more r = record {
  n = suc r.n;
  z = r.z;
  rest = r.rest;
  whole = omega (arith, r.whole, leb→le (days_in_month m year) d more);
  last = omega (arith, r.last);
  few = omega (arith, r.few);
  fits = r.fits;
}

pub Months-of : (most d m year : ℕ) → d < month_span most m year → Months most d m year
unfolding month_span
Months-of zero d m year h = absurd (omega arith)
Months-of (suc most) d m year h = elim (Bool-cases (leb (days_in_month m year) d)) [
  | inr less ↦ record {
    n = 0;
    z = m;
    rest = d;
    whole = omega arith;
    last = omega arith;
    few = omega arith;
    fits = leb→lt (days_in_month m year) d less;
  }
  | inl more ↦ Months-suc most d m year more (
      Months-of most (d - days_in_month m year) (m + 1) year
        (omega (arith, leb→le (days_in_month m year) d more)))
]

-- A day of a month lies within the months up to a later one.
pub month_span-lt :
    (j k m z year rest : ℕ)
    → k < j
    → z ≡ m + k
    → rest < days_in_month z year
    → month_span k m year + rest < month_span j m year
unfolding month_span
month_span-lt zero k m z year rest h e f = absurd (omega arith)
month_span-lt (suc j) zero m z year rest h e f =
    let same : z ≡ m = omega arith in
    let f' : rest < days_in_month m year = subst (λ t. rest < days_in_month t year) same f in
    omega arith
month_span-lt (suc j) (suc k) m z year rest h e f =
    omega (arith, month_span-lt j k (m + 1) z year rest (omega arith) (omega arith) f)
