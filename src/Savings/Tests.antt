-- ===== src/Savings/Tests.antt =====
-- Runs of the savings functions, and the waterfall of a concrete register.
use procure_foundation.Prelude.{◌≡◌, refl, true, false, none, some, List, [], ◌∷◌, arith}
use procure_foundation.Prelude.Int.{pos, ◌-ℤ◌}
use procure_foundation.Result.{ok}
use procure_foundation.Decimal.{decimal, arithmetic, precision_bound}
use procure_foundation.Opportunity.Model.{identified, validated, rejected}
use procure_foundation.Savings.{
  hard_saving, working_capital, contract_price, calculate_hard_saving,
  calculate_working_capital_release, calculate_savings_waterfall,
}
use procure_foundation.Savings.Totals.{Entry, as_rows, totals_of, calculate_savings_waterfall-money}

hard :
    calculate_hard_saving (decimal 50 0) (decimal 45 0) (decimal 1000 0) contract_price
    ≡ ok (record {
      savings_type = hard_saving;
      amount = decimal 5000 0;
      baseline_methodology = some contract_price;
      is_one_time = false;
    })
unfolding calculate_hard_saving arithmetic
hard = refl

released :
    calculate_working_capital_release (decimal 10_000 0) (pos 30) (pos 45)
    ≡ ok (record {
      savings_type = working_capital;
      amount = decimal 150_000 0;
      baseline_methodology = none;
      is_one_time = true;
    })
unfolding calculate_working_capital_release ◌-ℤ◌ arithmetic
released = refl

abbrev entries : List Entry
entries =
    (identified, pos 1_000_000, false)
    ∷ (validated, pos 250_000, false)
    ∷ (rejected, pos 990_000, false)
    ∷ (identified, pos 500_000, true)
    ∷ []

calculate_savings_waterfall-money_example :
    calculate_savings_waterfall (as_rows entries) ≡ ok (totals_of entries)
calculate_savings_waterfall-money_example =
    calculate_savings_waterfall-money entries (unfold precision_bound in omega arith)
