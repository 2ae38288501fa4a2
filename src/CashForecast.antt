-- ===== src/CashForecast.antt =====
-- backend/app/analytics/cash_forecast.py: the weekly receipts and payments, the weekly position, and
-- the forecast over 13 weeks.
pub mod Weeks
mod Tests
use procure_foundation.Prelude.{
  ℕ, suc, Bool, Option, none, some, List, [], ◌∷◌, length, ◌==◌, if◌then◌else◌,
}
use procure_foundation.Prelude.Int.{pos, ltb_ℤ}
use procure_foundation.Result.{Result, ok, ◌>>=◌}
use procure_foundation.Decimal.{Decimal, add, sub, round_currency}

unfoldable pub resolve_weekly_cash_receipts : Decimal → Decimal → Decimal → Result Decimal
resolve_weekly_cash_receipts expected disputed unapplied =
    round_currency (add (sub expected disputed) unapplied)

unfoldable pub resolve_weekly_supplier_payments : Decimal → Decimal → Result Decimal
resolve_weekly_supplier_payments expected grni_amount = round_currency (add expected grni_amount)

pub record WeeklyPosition : Type 0 where
  pub ending_cash : Decimal
  pub is_overdraft : Bool

unfoldable pub calculate_weekly_cash_position :
    Decimal → Decimal → Decimal → Decimal → Result WeeklyPosition
calculate_weekly_cash_position starting receipts payments cost_pools =
    round_currency (sub (sub (add starting receipts) payments) cost_pools) >>= λ ending.
    ok (record { ending_cash = ending; is_overdraft = ltb_ℤ ending (pos 0) })

-- A week of input: a figure is `none` where its key is missing or its value is `None`.
pub record WeeklyInput : Type 0 where
  pub resolved_cash_receipts : Option Decimal
  pub forced_supplier_payments : Option Decimal
  pub gate_b_operational_cost_pools : Option Decimal

pub data RequiredKey : Type 0 where
  resolved_cash_receipts forced_supplier_payments gate_b_operational_cost_pools : RequiredKey

abbrev if_missing : RequiredKey → Option Decimal → List RequiredKey → List RequiredKey
if_missing k none rest = k ∷ rest
if_missing k (some _) rest = rest

unfoldable pub missing_keys : WeeklyInput → List RequiredKey
missing_keys w = if_missing resolved_cash_receipts w.resolved_cash_receipts (
    if_missing forced_supplier_payments w.forced_supplier_payments
      (if_missing gate_b_operational_cost_pools w.gate_b_operational_cost_pools []))

pub record ForecastWeek : Type 0 where
  pub week : ℕ
  pub position : WeeklyPosition

-- The dict that is returned: two errors, and the forecast.
pub data CashForecast : Type 0 where
  wrong_length : ℕ → CashForecast
  week_missing : ℕ → List RequiredKey → CashForecast
  forecast : (weeks : List ForecastWeek) (first_overdraft_week : Option ℕ) → CashForecast

abbrev pub gap_or :
    ℕ → List RequiredKey → Option (ℕ × List RequiredKey) → Option (ℕ × List RequiredKey)
gap_or n [] rest = rest
gap_or n (k ∷ ks) rest = some (n, k ∷ ks)

-- The first week with a missing figure.
unfoldable pub first_gap : ℕ → List WeeklyInput → Option (ℕ × List RequiredKey)
unfolding missing_keys
first_gap n [] = none
first_gap n (w ∷ ws) = gap_or n (missing_keys w) (first_gap (suc n) ws)

abbrev pub figure : Option Decimal → Decimal
figure none = pos 0
figure (some v) = v

abbrev pub position_from : Decimal → WeeklyInput → Result WeeklyPosition
position_from running w =
    calculate_weekly_cash_position running (figure w.resolved_cash_receipts)
      (figure w.forced_supplier_payments) (figure w.gate_b_operational_cost_pools)

-- The positions of the weeks, each starting from the ending cash of the one before.
unfoldable pub chain_weeks : ℕ → Decimal → List WeeklyInput → Result (List ForecastWeek)
unfolding calculate_weekly_cash_position
chain_weeks n running [] = ok []
chain_weeks n running (w ∷ ws) = position_from running w >>= λ p.
    chain_weeks (suc n) p.ending_cash ws >>= λ rest. ok (record { week = n; position = p } ∷ rest)

unfoldable pub first_overdraft : List ForecastWeek → Option ℕ
first_overdraft [] = none
first_overdraft (w ∷ ws) = if w.position.is_overdraft then some w.week else first_overdraft ws

unfoldable pub forecast_unless :
    Option (ℕ × List RequiredKey) → Decimal → List WeeklyInput → Result CashForecast
unfolding chain_weeks first_overdraft
forecast_unless (some (n, keys)) opening ws = ok (week_missing n keys)
forecast_unless none opening ws =
    chain_weeks 1 opening ws >>= λ weeks. ok (forecast weeks (first_overdraft weeks))

unfoldable pub build_13_week_cash_forecast : Decimal → List WeeklyInput → Result CashForecast
unfolding first_gap forecast_unless
build_13_week_cash_forecast opening_cash weekly_inputs =
    if length weekly_inputs == 13
    then forecast_unless (first_gap 1 weekly_inputs) opening_cash weekly_inputs
    else ok (wrong_length (length weekly_inputs))
