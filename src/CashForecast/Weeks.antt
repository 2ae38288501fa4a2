-- ===== src/CashForecast/Weeks.antt =====
-- What a forecast that is returned consists of.
use procure_foundation.Prelude.{
  ℕ, suc, ◌≡◌, ◌⊎◌, inl, inr, Bool, true, false, Bool-cases, Option, none, some, List, [], ◌∷◌,
  ◌++◌, All, length, ◌==◌, if◌then◌else◌, refl, ap, sym, subst, arith,
}
use procure_foundation.Prelude.Int.{pos, ltb_ℤ}
use procure_foundation.Result.{ok, >>=-eq-ok, ok-injective}
use procure_foundation.Decimal.{Decimal, add, sub, round_currency}
use procure_foundation.CashForecast.{
  WeeklyInput, RequiredKey, week_missing, wrong_length, ForecastWeek, forecast, missing_keys,
  first_gap, figure, position_from, WeeklyPosition, calculate_weekly_cash_position, chain_weeks,
  first_overdraft, forecast_unless, build_13_week_cash_forecast,
}

-- One week: all three figures are there, and its position follows from the cash it starts with.
abbrev pub IsWeek : ℕ → Decimal → WeeklyInput → ForecastWeek → Type 0
IsWeek n running w f =
    (receipts payments costs : Decimal) × (w.resolved_cash_receipts ≡ some receipts)
    × (w.forced_supplier_payments ≡ some payments)
    × (w.gate_b_operational_cost_pools ≡ some costs)
    × (round_currency (sub (sub (add running receipts) payments) costs) ≡ ok f.position.ending_cash)
    × (f.position.is_overdraft ≡ ltb_ℤ f.position.ending_cash (pos 0))
    × (f.week ≡ n)

-- Each week starts with the cash that the one before ends with.
abbrev pub IsChained : ℕ → Decimal → List WeeklyInput → List ForecastWeek → Type 0
IsChained n running [] [] = Unit
IsChained n running (w ∷ ws) (f ∷ fs) =
    IsWeek n running w f × IsChained (suc n) f.position.ending_cash ws fs
IsChained n running _ _ = ⊥

-- The first week that ends with an overdraft, if there is one.
abbrev pub IsFirstOverdraft : List ForecastWeek → Option ℕ → Type 0
IsFirstOverdraft fs none = All (λ f. f.position.is_overdraft ≡ false) fs
IsFirstOverdraft fs (some n) =
    (before after : List ForecastWeek) × (f : ForecastWeek) × (fs ≡ before ++ f ∷ after)
    × All (λ g. g.position.is_overdraft ≡ false) before
    × (f.position.is_overdraft ≡ true)
    × (f.week ≡ n)

first_overdraft_lem : (fs : List ForecastWeek) → IsFirstOverdraft fs (first_overdraft fs)
unfolding first_overdraft
first_overdraft_lem [] = tt
first_overdraft_lem (f ∷ fs) = elim (Bool-cases f.position.is_overdraft) [
  | inl over ↦
      subst (IsFirstOverdraft (f ∷ fs)) (sym (ap choose over)) ([], fs, f, refl, tt, over, refl)
  | inr covered ↦
      subst (IsFirstOverdraft (f ∷ fs)) (sym (ap choose covered))
        (later (first_overdraft fs) (first_overdraft_lem fs) covered)
]
  where
    choose : Bool → Option ℕ
    choose b = if b then some f.week else first_overdraft fs

    later :
        (o : Option ℕ)
        → IsFirstOverdraft fs o
        → f.position.is_overdraft ≡ false
        → IsFirstOverdraft (f ∷ fs) o
    later none h c = (c, h)
    later (some n) (before, after, g, e, none_before, over, is_n) c =
        (f ∷ before, after, g, ap (λ t. f ∷ t) e, (c, none_before), over, is_n)

abbrev IsFull : WeeklyInput → Type 0
IsFull w =
    (receipts payments costs : Decimal) × (w.resolved_cash_receipts ≡ some receipts)
    × (w.forced_supplier_payments ≡ some payments)
    × (w.gate_b_operational_cost_pools ≡ some costs)

IsFull-of :
    (w : WeeklyInput) (a b c : Option Decimal)
    → w.resolved_cash_receipts ≡ a
    → w.forced_supplier_payments ≡ b
    → w.gate_b_operational_cost_pools ≡ c
    → missing_keys w ≡ []
    → IsFull w
unfolding missing_keys
IsFull-of w (some r) (some p) (some c) ea eb ec h = (r, p, c, ea, eb, ec)
IsFull-of w (some r) (some p) none ea eb ec h = let k = rw (ea, eb, ec) at h in cc
IsFull-of w (some r) none c ea eb ec h = let k = rw (ea, eb, ec) at h in cc
IsFull-of w none b c ea eb ec h = let k = rw (ea, eb, ec) at h in cc

List-split :
    (ks : List RequiredKey)
    → (ks ≡ []) ⊎ ((k : RequiredKey) × (rest : List RequiredKey) × (ks ≡ k ∷ rest))
List-split [] = inl refl
List-split (k ∷ ks) = inr (k, ks, refl)

first_gap-IsFull : (n : ℕ) (ws : List WeeklyInput) → first_gap n ws ≡ none → All IsFull ws
unfolding first_gap
first_gap-IsFull n [] h = tt
first_gap-IsFull n (w ∷ ws) h = elim (List-split (missing_keys w)) [
  | inl e ↦ (IsFull-of w _ _ _ refl refl refl e, first_gap-IsFull (suc n) ws (rw e at h))
  | inr (k, ks, e) ↦ let g = rw e at h in cc
]

IsWeek-of :
    (n : ℕ) (running : Decimal) (w : WeeklyInput) {p : WeeklyPosition}
    → IsFull w
    → position_from running w ≡ ok p
    → IsWeek n running w (record { week = n; position = p })
unfolding calculate_weekly_cash_position
IsWeek-of n running w (r, s, c, er, es, ec) h =
    let (ending, e, last) =
      >>=-eq-ok
        (round_currency (
          sub
            (sub (add running (figure w.resolved_cash_receipts))
              (figure w.forced_supplier_payments))
            (figure w.gate_b_operational_cost_pools)))
        _ h in
    let e' : round_currency (sub (sub (add running r) s) c) ≡ ok ending = rw (er, es, ec) at e in
    subst (λ p. IsWeek n running w (record { week = n; position = p })) (ok-injective last)
      (r, s, c, er, es, ec, e', refl, refl)

chain_weeks-IsChained :
    (n : ℕ) (running : Decimal) (ws : List WeeklyInput) {fs : List ForecastWeek}
    → All IsFull ws
    → chain_weeks n running ws ≡ ok fs
    → IsChained n running ws fs
unfolding chain_weeks
chain_weeks-IsChained n running [] full h =
    subst (λ t. IsChained n running [] t) (ok-injective h) tt
chain_weeks-IsChained n running (w ∷ ws) full h =
    let (p, hp, h1) = >>=-eq-ok (position_from running w) _ h in
    let (rest, hr, h2) = >>=-eq-ok (chain_weeks (suc n) p.ending_cash ws) _ h1 in
    subst (λ t. IsChained n running (w ∷ ws) t) (ok-injective h2)
      (IsWeek-of n running w full.0 hp, chain_weeks-IsChained (suc n) p.ending_cash ws full.1 hr)

IsForecast : Decimal → List WeeklyInput → List ForecastWeek → Option ℕ → Type 0
IsForecast opening ws fs first = IsChained 1 opening ws fs × IsFirstOverdraft fs first

forecast-injective :
    {fs gs : List ForecastWeek} {a b : Option ℕ}
    → forecast fs a ≡ forecast gs b
    → (fs ≡ gs) × (a ≡ b)
forecast-injective e = (cc, cc)

forecast_lem :
    (gap : Option (ℕ × List RequiredKey)) (opening : Decimal) (ws : List WeeklyInput)
    {fs : List ForecastWeek} {first : Option ℕ}
    → first_gap 1 ws ≡ gap
    → forecast_unless gap opening ws ≡ ok (forecast fs first)
    → IsForecast opening ws fs first
unfolding forecast_unless IsForecast
forecast_lem (some (n, ks)) opening ws g h = absurd (differ (ok-injective h))
  where
    differ :
        {m : ℕ} {keys : List RequiredKey} {gs : List ForecastWeek} {b : Option ℕ}
        → week_missing m keys ≡ forecast gs b
        → ⊥
    differ e = cc
forecast_lem none opening ws {fs} {first} g h =
    let (weeks, hw, last) = >>=-eq-ok (chain_weeks 1 opening ws) _ h in
    let (same, same_first) = forecast-injective (ok-injective last) in
    let chained = chain_weeks-IsChained 1 opening ws (first_gap-IsFull 1 ws g) hw in
    subst (λ t. IsChained 1 opening ws t × IsFirstOverdraft t first) same
      (chained, subst (IsFirstOverdraft weeks) same_first (first_overdraft_lem weeks))

-- A forecast that is returned covers exactly 13 weeks of input with no figure missing; its weeks
-- are numbered from 1, the first starts with the opening cash and each later one with the ending
-- cash of the one before, each ends with the rounded balance of its figures and is marked as an
-- overdraft where that is negative, and the week reported as the first overdraft is the first one
-- marked, or none where none is.
pub build_13_week_cash_forecast-IsChained :
    (opening : Decimal) (ws : List WeeklyInput) {fs : List ForecastWeek} {first : Option ℕ}
    → build_13_week_cash_forecast opening ws ≡ ok (forecast fs first)
    → (length ws ≡ 13) × IsChained 1 opening ws fs × IsFirstOverdraft fs first
unfolding build_13_week_cash_forecast IsForecast
build_13_week_cash_forecast-IsChained opening ws h = elim (Bool-cases (length ws == 13)) [
  | inl full ↦
      let (chained, first) = forecast_lem (first_gap 1 ws) opening ws refl (rw full at h) in
      (ground arith, chained, first)
  | inr short ↦ let k = rw short at h in absurd (wrong (ok-injective k))
]
  where
    wrong : {m : ℕ} {gs : List ForecastWeek} {b : Option ℕ} → wrong_length m ≡ forecast gs b → ⊥
    wrong e = cc
