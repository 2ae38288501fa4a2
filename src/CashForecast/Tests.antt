-- ===== src/CashForecast/Tests.antt =====
-- A forecast of 13 equal weeks.
use procure_foundation.Prelude.{◌≡◌, refl, true, false, some, ℕ, zero, suc, List, [], ◌∷◌, length}
use procure_foundation.Prelude.Int.{pos, negsuc}
use procure_foundation.Result.{ok}
use procure_foundation.Decimal.{money, arithmetic}
use procure_foundation.CashForecast.{
  WeeklyInput, ForecastWeek, forecast, wrong_length, missing_keys, first_gap,
  calculate_weekly_cash_position, chain_weeks, first_overdraft, forecast_unless,
  build_13_week_cash_forecast,
}
use procure_foundation.CashForecast.Weeks.{
  IsChained, IsFirstOverdraft, build_13_week_cash_forecast-IsChained,
}

-- 1.0000 comes in and 3.0000 goes out.
abbrev usual : WeeklyInput
usual = record {
  resolved_cash_receipts = some (money (pos 10_000));
  forced_supplier_payments = some (money (pos 20_000));
  gate_b_operational_cost_pools = some (money (pos 10_000));
}

abbrev repeat : ℕ → List WeeklyInput
repeat zero = []
repeat (suc n) = usual ∷ repeat n

-- A week that ends with n ten-thousandths.
abbrev covered : ℕ → ℕ → ForecastWeek
covered w n = record {
  week = w;
  position = record { ending_cash = money (pos n); is_overdraft = false };
}

abbrev overdrawn : ℕ → ℕ → ForecastWeek
overdrawn w n = record {
  week = w;
  position = record { ending_cash = money (negsuc n); is_overdraft = true };
}

abbrev weeks : List ForecastWeek
weeks =
    covered 1 200_000
    ∷ covered 2 180_000
    ∷ covered 3 160_000
    ∷ covered 4 140_000
    ∷ covered 5 120_000
    ∷ covered 6 100_000
    ∷ covered 7 80_000
    ∷ covered 8 60_000
    ∷ covered 9 40_000
    ∷ covered 10 20_000
    ∷ covered 11 0
    ∷ overdrawn 12 19_999
    ∷ overdrawn 13 39_999
    ∷ []

forecasts :
    build_13_week_cash_forecast (money (pos 220_000)) (repeat 13) ≡ ok (forecast weeks (some 12))
unfolding build_13_week_cash_forecast first_gap missing_keys forecast_unless chain_weeks
    first_overdraft calculate_weekly_cash_position arithmetic
forecasts = refl

refuses_twelve : build_13_week_cash_forecast (pos 0) (repeat 12) ≡ ok (wrong_length 12)
unfolding build_13_week_cash_forecast
refuses_twelve = refl

build_13_week_cash_forecast-IsChained_example :
    (length (repeat 13) ≡ 13)
    × IsChained 1 (money (pos 220_000)) (repeat 13) weeks
    × IsFirstOverdraft weeks (some 12)
build_13_week_cash_forecast-IsChained_example =
    build_13_week_cash_forecast-IsChained (money (pos 220_000)) (repeat 13) {fs = weeks}
      {first = some 12} forecasts
