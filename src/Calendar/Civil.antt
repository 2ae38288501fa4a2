-- ===== src/Calendar/Civil.antt =====
-- The proleptic Gregorian calendar of `datetime.date`: year, month and day.
use procure_foundation.Prelude.{
  ℕ, zero, suc, ◌+◌, ◌-◌, ◌*◌, ◌/◌, ◌%◌, ◌≤◌, ◌≡◌, Bool, not, ◌&&◌, ◌||◌, ◌==◌, leb, if◌then◌else◌,
  arith, refl, subst,
}
use procure_foundation.Result.{Result, ok, err, value_error}

pub record CivilDate : Type 0 where
  pub year : ℕ
  pub month : ℕ
  pub day : ℕ

abbrev pub is_leap : ℕ → Bool
is_leap y = (y % 4 == 0) && ((not (y % 100 == 0)) || (y % 400 == 0))

abbrev pub month_length : ℕ → ℕ → ℕ
month_length y m =
    if (m == 4) || (m == 6) || (m == 9) || (m == 11)
    then 30
    else if m == 2
    then (if is_leap y then 29 else 28)
    else 31

-- The days of the year before the first of a month.
unfoldable pub days_before_month : ℕ → ℕ → ℕ
days_before_month y zero = 0
days_before_month y (suc zero) = 0
days_before_month y (suc (suc m)) = days_before_month y (suc m) + month_length y (suc m)

abbrev pub days_before_year : ℕ → ℕ
days_before_year y = let p = y - 1 in p * 365 + p / 4 - p / 100 + p / 400

-- `date.toordinal()`
abbrev pub ordinal : CivilDate → ℕ
ordinal d = days_before_year d.year + days_before_month d.year d.month + d.day

abbrev pub in_range : CivilDate → Bool
in_range d =
    leb 1 d.year
    && leb d.year 9999
    && leb 1 d.month
    && leb d.month 12
    && leb 1 d.day
    && leb d.day (month_length d.year d.month)

-- `date(year, month, day)`
unfoldable pub make_date : ℕ → ℕ → ℕ → Result CivilDate
make_date y m d =
    let c : CivilDate = record { year = y; month = m; day = d } in
    if in_range c then ok c else err value_error

month_after :
    (y m : ℕ) → 1 ≤ m → days_before_month y (suc m) ≡ days_before_month y m + month_length y m
unfolding days_before_month
month_after y zero h = ground arith
month_after y (suc m) h = refl

-- The next month starts as many days after a month as the month has.
pub days_before_month-suc :
    (y m : ℕ) → 1 ≤ m → days_before_month y (m + 1) ≡ days_before_month y m + month_length y m
days_before_month-suc y m h =
    let e : suc m ≡ m + 1 = omega arith in
    subst (λ t. days_before_month y t ≡ days_before_month y m + month_length y m) e
      (month_after y m h)

-- How many multiples of 4, 100 and 400 there are up to a number, and up to the one before.
multiples :
    (p : ℕ)
    → ((p + 1) / 4 ≡ p / 4 + (if (p + 1) % 4 == 0 then 1 else 0))
      × ((p + 1) / 100 ≡ p / 100 + (if (p + 1) % 100 == 0 then 1 else 0))
      × ((p + 1) / 400 ≡ p / 400 + (if (p + 1) % 400 == 0 then 1 else 0))
      × (p / 100 ≤ p / 4)
multiples p = (ground arith, ground arith, ground arith, omega arith)

nested : (y : ℕ) → (y % 100 ≡ 0 → y % 4 ≡ 0) × (y % 400 ≡ 0 → y % 100 ≡ 0)
nested y = (λ h. omega arith, λ h. omega arith)

days_before_year-of_suc :
    (p : ℕ)
    → days_before_year (p + 1 + 1)
      ≡ days_before_year (p + 1) + (if is_leap (p + 1) then 366 else 365)
days_before_year-of_suc p =
    let (four, hundred, fourhundred, less) = multiples p in
    let (a, b) = nested (p + 1) in ground arith

pub days_before_year-suc :
    (y : ℕ)
    → 1 ≤ y
    → days_before_year (y + 1) ≡ days_before_year y + (if is_leap y then 366 else 365)
days_before_year-suc y h =
    let e : y - 1 + 1 ≡ y = omega arith in
    subst (λ t. days_before_year (t + 1) ≡ days_before_year t + (if is_leap t then 366 else 365)) e
      (days_before_year-of_suc (y - 1))
