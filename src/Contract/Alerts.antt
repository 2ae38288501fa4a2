-- ===== src/Contract/Alerts.antt =====
-- The alerts of a contract that are due, and those of a second run.
use procure_foundation.Prelude.{
  ◌≡◌, inl, inr, Bool, true, false, Bool-cases, List, [], ◌∷◌, ◌++◌, map, filter, All, All-filter,
  Member, All-map, refl, arith, ◌==◌,
}
use procure_foundation.Prelude.Int.{ℤ, neg, leb_ℤ, eqb_ℤ}
use procure_foundation.Prelude.Order.{sorted_by}
use procure_foundation.Calendar.{Date, days_between}
use procure_foundation.Contract.{
  AlertType, expiry, notice_deadline, eq_alert, has_alert, crosses, expiry_alerts, notice_alerts,
  determine_due_alerts,
}

eq_alert_refl : (a : AlertType) → eq_alert a a ≡ true
eq_alert_refl (expiry t) = ground arith
eq_alert_refl notice_deadline = refl

has_alert-++ :
    (a : AlertType) (xs bs : List AlertType) → has_alert a xs ≡ true → has_alert a (xs ++ bs) ≡ true
unfolding has_alert
has_alert-++ a [] bs h = cc
has_alert-++ a (b ∷ xs) bs h = elim (Bool-cases (eq_alert a b)) [
  | inl e ↦ rw e refl
  | inr e ↦ rw e (has_alert-++ a xs bs (rw e at h))
]

has_alert-right :
    (a : AlertType) (xs bs : List AlertType) → has_alert a bs ≡ true → has_alert a (xs ++ bs) ≡ true
unfolding has_alert
has_alert-right a [] bs h = h
has_alert-right a (b ∷ xs) bs h = elim (Bool-cases (eq_alert a b)) [
  | inl e ↦ rw e refl
  | inr e ↦ rw e (has_alert-right a xs bs h)
]

has_alert-map : (t : ℤ) (ts : List ℤ) → Member t ts → has_alert (expiry t) (map expiry ts) ≡ true
unfolding has_alert
has_alert-map t [] m = absurd m
has_alert-map t (u ∷ ts) m = elim (Bool-cases (eqb_ℤ t u)) [
  | inl e ↦ rw e refl
  | inr e ↦ elim m [
    | inl same ↦ let h : eqb_ℤ t u ≡ true = ground arith in cc
    | inr later ↦ rw e (has_alert-map t ts later)
  ]
]

All-Member : {A : Type 0} {P : A → Type 0} (xs : List A) → ((x : A) → Member x xs → P x) → All P xs
All-Member [] f = tt
All-Member (x ∷ xs) f = (f x (inl refl), All-Member xs λ y m. f y (inr m))

filter-none :
    {A : Type 0} (p : A → Bool) (xs : List A) → All (λ x. p x ≡ false) xs → filter p xs ≡ []
filter-none p [] h = refl
filter-none p (x ∷ xs) h = rw h.0 (filter-none p xs h.1)

module _ (today expiry_date deadline : Date) (fired : List AlertType) (thresholds : List ℤ) where
  abbrev due : List AlertType
  due = determine_due_alerts today expiry_date deadline fired thresholds

  abbrev sorted : List ℤ
  sorted = sorted_by neg thresholds

  -- A threshold that has been crossed has its alert among those due or those fired.
  crossed :
      All
        (λ t. crosses today expiry_date fired t ≡ true → has_alert (expiry t) (due ++ fired) ≡ true)
        sorted
  unfolding determine_due_alerts expiry_alerts
  crossed = All-filter (crosses today expiry_date fired) _ sorted (
      All-Member (filter (crosses today expiry_date fired) sorted) λ t m.
        has_alert-++ (expiry t) due fired (
          has_alert-++ (expiry t) (expiry_alerts today expiry_date fired thresholds) _
            (has_alert-map t (filter (crosses today expiry_date fired) sorted) m)))

  crosses-again :
      (t : ℤ)
      → (crosses today expiry_date fired t ≡ true → has_alert (expiry t) (due ++ fired) ≡ true)
      → crosses today expiry_date (due ++ fired) t ≡ false
  crosses-again t h = elim (Bool-cases (has_alert (expiry t) fired)) [
    | inl old ↦ rw (has_alert-right (expiry t) due fired old) (ground arith)
    | inr new ↦ elim (Bool-cases (leb_ℤ (days_between expiry_date today) t)) [
      | inl near ↦ rw (h (rw (near, new) refl)) (ground arith)
      | inr far ↦ rw far refl
    ]
  ]

  notice-fires :
      (today == deadline) ≡ true
      → has_alert notice_deadline fired ≡ false
      → has_alert notice_deadline (due ++ fired) ≡ true
  unfolding determine_due_alerts notice_alerts has_alert
  notice-fires is_day new = has_alert-++ notice_deadline due fired (
      has_alert-right notice_deadline (expiry_alerts today expiry_date fired thresholds)
        (notice_alerts today deadline fired) (rw (is_day, new) refl))

  notice-again : notice_alerts today deadline (due ++ fired) ≡ []
  unfolding notice_alerts
  notice-again = elim (Bool-cases (today == deadline)) [
    | inl is_day ↦ elim (Bool-cases (has_alert notice_deadline fired)) [
      | inl old ↦ rw (has_alert-right notice_deadline due fired old, is_day) refl
      | inr new ↦ rw (notice-fires is_day new, is_day) refl
    ]
    | inr other_day ↦ rw other_day refl
  ]

  none_again : determine_due_alerts today expiry_date deadline (due ++ fired) thresholds ≡ []
  unfolding determine_due_alerts expiry_alerts
  none_again =
      let none_left : filter (crosses today expiry_date (due ++ fired)) sorted ≡ [] =
        filter-none (crosses today expiry_date (due ++ fired)) sorted
          (All-map crosses-again sorted crossed) in
      rw (none_left, notice-again) refl

-- Once the alerts that are due have fired, a second run on the same day has none.
pub determine_due_alerts-again :
    (today expiry_date deadline : Date) (fired : List AlertType) (thresholds : List ℤ)
    → let due = determine_due_alerts today expiry_date deadline fired thresholds in
      determine_due_alerts today expiry_date deadline (due ++ fired) thresholds ≡ []
determine_due_alerts-again = none_again
