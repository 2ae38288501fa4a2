-- ===== src/Contract/Renewal.antt =====
-- The renewal date: months added to a civil date.
use procure_foundation.Prelude.{
  ℕ, suc, ◌+◌, ◌-◌, ◌*◌, ◌/◌, ◌%◌, ◌≤◌, ◌<◌, ◌≡◌, ◌⊎◌, inl, inr, true, Bool-cases, some, ◌==◌, leb,
  le→leb, false, if◌then◌else◌, arith, refl, ap, subst,
}
use procure_foundation.Prelude.Int.{pos}
use procure_foundation.Result.{ok, err, value_error}
use procure_foundation.Calendar.Civil.{
  CivilDate, is_leap, month_length, days_before_month, days_before_month-suc, days_before_year,
  days_before_year-suc, in_range, make_date,
}
use procure_foundation.Contract.{
  days_to, days_in_month, min, add_months, calculate_next_renewal_date, renew_after,
}

-- A date that `datetime.date` accepts.
abbrev pub IsDate : CivilDate → Type 0
IsDate d =
    (1 ≤ d.year)
    × (d.year ≤ 9999)
    × (1 ≤ d.month)
    × (d.month ≤ 12)
    × (1 ≤ d.day)
    × (d.day ≤ month_length d.year d.month)

IsDate-in_range : (d : CivilDate) → IsDate d → in_range d ≡ true
IsDate-in_range d (a, b, c, e, f, g) =
    let a' : leb 1 d.year ≡ true = ground arith in
    let b' : leb d.year 9999 ≡ true = ground arith in
    let c' : leb 1 d.month ≡ true = ground arith in
    let e' : leb d.month 12 ≡ true = ground arith in
    let f' : leb 1 d.day ≡ true = ground arith in
    let g' : leb d.day (month_length d.year d.month) ≡ true = le→leb _ _ g in
    rw (a', b', c', e', f', g') refl

make_date-ok :
    (y m d : ℕ)
    → IsDate (record { year = y; month = m; day = d })
    → make_date y m d ≡ ok (record { year = y; month = m; day = d })
unfolding make_date
make_date-ok y m d h = rw (IsDate-in_range (record { year = y; month = m; day = d }) h) refl

month_length_pos : (y m : ℕ) → 28 ≤ month_length y m
month_length_pos y m = ground arith

first-IsDate :
    (y m : ℕ) → 1 ≤ y → y ≤ 9999 → 1 ≤ m → m ≤ 12 → IsDate (record { year = y; month = m; day = 1 })
first-IsDate y m a b c d = (a, b, c, d, omega arith, omega (arith, month_length_pos y m))

-- The lengths of the first eleven months.
december : (y : ℕ) → days_before_month y 12 ≡ (if is_leap y then 335 else 334)
unfolding days_before_month
december y = elim (Bool-cases (is_leap y)) [ inl h ↦ rw h refl | inr h ↦ rw h refl ]

next_year :
    (y : ℕ) → 1 ≤ y → days_before_year (y + 1) ≡ days_before_year y + days_before_month y 12 + 31
next_year y h = elim (Bool-cases (is_leap y)) [
  | inl l ↦
      let e : days_before_year (y + 1) ≡ days_before_year y + 366 =
        rw l at (days_before_year-suc y h) in
      let d : days_before_month y 12 ≡ 335 = rw l at (december y) in rw d (omega (arith, e))
  | inr l ↦
      let e : days_before_year (y + 1) ≡ days_before_year y + 365 =
        rw l at (days_before_year-suc y h) in
      let d : days_before_month y 12 ≡ 334 = rw l at (december y) in rw d (omega (arith, e))
]

days_to-ok :
    (y m z k length : ℕ)
    → IsDate (record { year = y; month = m; day = 1 })
    → IsDate (record { year = z; month = k; day = 1 })
    → days_before_year z + days_before_month z k
      ≡ days_before_year y + days_before_month y m + length
    → days_to (make_date z k 1) (make_date y m 1) ≡ ok length
days_to-ok y m z k length from to h =
    rw (make_date-ok y m 1 from, make_date-ok z k 1 to) (ap ok (omega (arith, h)))

first_month : (y : ℕ) → days_before_month y 1 ≡ 0
unfolding days_before_month
first_month y = refl

min_pos : (a b : ℕ) → 1 ≤ a → 1 ≤ b → 1 ≤ min a b
min_pos a b h k = ground arith

-- The days between the first days of two months are the length of the month in between.
days_in_month_lem :
    (y m : ℕ)
    → 1 ≤ y
    → y * 12 + m < 9999 * 12 + 12
    → 1 ≤ m
    → m ≤ 12
    → days_in_month y m ≡ ok (month_length y m)
days_in_month_lem y m h1 h2 h3 h4 =
    let this = first-IsDate y m h1 (omega arith) h3 h4 in
    elim (Bool-cases (m == 12)) [
      | inl last ↦
          let is_12 : 12 ≡ m = ground arith in
          let next =
            first-IsDate (y + 1) 1 (omega arith) (omega arith) (omega arith) (omega arith) in
          let dec = first-IsDate y 12 h1 (omega arith) (omega arith) (omega arith) in
          subst (λ k. days_in_month y k ≡ ok (month_length y k)) is_12
            (days_to-ok y 12 (y + 1) 1 31 dec next
              (omega (arith, next_year y h1, first_month (y + 1))))
      | inr before ↦
          let less : m + 1 ≤ 12 = ground arith in
          let next = first-IsDate y (m + 1) h1 (omega arith) (omega arith) less in
          rw before (
            days_to-ok y m y (m + 1) (month_length y m) this next
              (omega (arith, days_before_month-suc y m h3)))
    ]

min_le : (a b : ℕ) → (min a b ≤ a) × (min a b ≤ b) × ((min a b ≡ a) ⊎ (min a b ≡ b))
min_le a b = ground arith

-- Where the result of adding months to a date falls before December 9999, it is defined, it is a
-- date, it lies that many months later, and its day is that of the base or, where the month is
-- shorter, the last of the month.
pub add_months_lem :
    (base : CivilDate) (months : ℕ)
    → IsDate base
    → base.year * 12 + base.month + months < 9999 * 12 + 12
    → (d : CivilDate) × (add_months base months ≡ ok d)
      × IsDate d
      × (d.year * 12 + d.month ≡ base.year * 12 + base.month + months)
      × (d.day ≡ min base.day (month_length d.year d.month))
unfolding add_months
add_months_lem base months (y1, y2, m1, m2, d1, d2) h =
    let i : ℕ = base.month - 1 + months in
    let y : ℕ = base.year + i / 12 in
    let m : ℕ = i % 12 + 1 in
    let early : y * 12 + m < 9999 * 12 + 12 = omega arith in
    let len = month_length y m in
    let day : ℕ = min base.day len in
    let l = days_in_month_lem y m (omega arith) early (omega arith) (omega arith) in
    let d : CivilDate = record { year = y; month = m; day = day } in
    let (down, cap, _) = min_le base.day len in
    let long = month_length_pos y m in
    let positive : 1 ≤ day = min_pos base.day len d1 (omega (arith, long)) in
    let is_date : IsDate d = (omega arith, omega arith, omega arith, omega arith, positive, cap) in
    (d, rw l (make_date-ok y m day is_date), is_date, omega arith, refl)

make_date-late : (y m d : ℕ) → 10000 ≤ y → make_date y m d ≡ err value_error
unfolding make_date
make_date-late y m d late =
    let some_year : leb 1 y ≡ true = ground arith in
    let too_late : leb y 9999 ≡ false = ground arith in rw (some_year, too_late) refl

-- A month whose following month starts after the last date there is has no length.
days_in_month-raises :
    (y m : ℕ) → 9999 * 12 + 12 ≤ y * 12 + m → 1 ≤ m → m ≤ 12 → days_in_month y m ≡ err value_error
days_in_month-raises y m late h3 h4 = elim (Bool-cases (m == 12)) [
  | inl last ↦ rw (last, make_date-late (y + 1) 1 1 (omega arith)) refl
  | inr before ↦
      let not_last : m + 1 ≤ 12 = ground arith in
      rw (before, make_date-late y (m + 1) 1 (omega arith)) refl
]

add_months-raises :
    (base : CivilDate) (months : ℕ)
    → IsDate base
    → 9999 * 12 + 12 ≤ base.year * 12 + base.month + months
    → add_months base months ≡ err value_error
unfolding add_months
add_months-raises base months (y1, y2, m1, m2, d1, d2) late =
    let i : ℕ = base.month - 1 + months in
    rw
      (days_in_month-raises (base.year + i / 12) (i % 12 + 1) (omega arith) (omega arith)
        (omega arith))
      refl

lt_or_le : (a b : ℕ) → (a < b) ⊎ (b ≤ a)
lt_or_le a b = ground arith

-- The next renewal of a contract that renews by a positive number of months, counted from its
-- expiry: either it falls before December 9999, and then it is defined, it is a date, it lies that
-- many months after the expiry, and its day is that of the expiry or, where the month is shorter,
-- the last of the month; or it falls in December 9999 or later, and the calculation raises a
-- ValueError.
pub calculate_next_renewal_date_lem :
    (expiry : CivilDate) (n : ℕ)
    → IsDate expiry
    → let renewal = calculate_next_renewal_date expiry true (some (pos (suc n))) in
      let months = expiry.year * 12 + expiry.month + suc n in
      ((months < 9999 * 12 + 12)
        × ((d : CivilDate) × (renewal ≡ ok (some d))
            × IsDate d
            × (d.year * 12 + d.month ≡ months)
            × (d.day ≡ min expiry.day (month_length d.year d.month))))
      ⊎ ((9999 * 12 + 12 ≤ months) × (renewal ≡ err value_error))
unfolding calculate_next_renewal_date renew_after
calculate_next_renewal_date_lem expiry n is_date =
    elim (lt_or_le (expiry.year * 12 + expiry.month + suc n) (9999 * 12 + 12)) [
      | inl early ↦
          let (d, e, valid, months, day) = add_months_lem expiry (suc n) is_date early in
          inl (early, (d, rw e refl, valid, months, day))
      | inr late ↦ inr (late, rw (add_months-raises expiry (suc n) is_date late) refl)
    ]
