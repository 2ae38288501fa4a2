-- ===== src/ManagementAccounting/Tests.antt =====
-- Runs of the management accounting functions, and the theorems at concrete amounts.
use procure_foundation.Prelude.{◌≡◌, refl, none, some, true, false, List, [], ◌∷◌, arith}
use procure_foundation.Prelude.Int.{pos, negsuc}
use procure_foundation.Result.{ok, err, value_error}
use procure_foundation.Decimal.{decimal, money, arithmetic, precision_bound}
use procure_foundation.ManagementAccounting.{
  per_km, other_type, gross, net_of_waterfall, refuses, CustomerNetMargin, margin_from,
  round_hundredth, round_days, allocate_activity_cost, resolve_trade_spend_for_period, sourced,
  calculate_customer_net_margin, calculate_working_capital_metrics,
}
use procure_foundation.ManagementAccounting.Margin.{
  Amounts, IsExact, calculate_customer_net_margin-IsExact,
}
use procure_foundation.ManagementAccounting.Aging.{Invoice}

per_kilometre :
    allocate_activity_cost (decimal 1000 0) (decimal 8 0) per_km ≡ ok (some (decimal 125 0))
unfolding allocate_activity_cost arithmetic
per_kilometre = refl

unknown_type : allocate_activity_cost (decimal 1000 0) (decimal 8 0) other_type ≡ err value_error
unfolding allocate_activity_cost
unknown_type = refl

not_sourced : resolve_trade_spend_for_period none true ≡ err value_error
unfolding resolve_trade_spend_for_period sourced
not_sourced = refl

cycle :
    calculate_working_capital_metrics
      (decimal 100 0)
      (decimal 50 0)
      (decimal 80 0)
      (decimal 365 0)
      (decimal 365 0)
      none
    ≡ ok (record {
      dso = some (decimal 100 0);
      dio = some (decimal 80 0);
      dpo = some (decimal 50 0);
      ccc = some (decimal 130 0);
      working_capital_ratio = none;
    })
unfolding calculate_working_capital_metrics round_days arithmetic
cycle = refl

counts_spend_once :
    calculate_customer_net_margin
      (decimal 100 0)
      (pos 0)
      (pos 0)
      (pos 0)
      (decimal 1 0)
      net_of_waterfall
    ≡ err value_error
unfolding calculate_customer_net_margin arithmetic
counts_spend_once = refl

-- A revenue of 100, and 110 of costs.
abbrev loss_maker : Amounts
loss_maker = record {
  revenue = pos 1_000_000;
  cogs = pos 700_000;
  logistics = pos 200_000;
  warehouse = pos 100_000;
  spend = pos 100_000;
}

abbrev loss : CustomerNetMargin
loss = record {
  net_revenue = money (pos 900_000);
  gross_margin = money (pos 200_000);
  cost_to_serve = money (pos 300_000);
  net_margin = money (negsuc 99_999);
  net_margin_pct = some (money (negsuc 99_999));
  is_net_revenue_negative = false;
}

makes_a_loss :
    calculate_customer_net_margin
      (money (pos 1_000_000))
      (money (pos 700_000))
      (money (pos 200_000))
      (money (pos 100_000))
      (money (pos 100_000))
      gross
    ≡ ok loss
unfolding calculate_customer_net_margin margin_from round_hundredth arithmetic
makes_a_loss = refl

calculate_customer_net_margin-IsExact_example :
    (refuses gross (money (pos 100_000)) ≡ false) × IsExact loss_maker loss
calculate_customer_net_margin-IsExact_example =
    calculate_customer_net_margin-IsExact loss_maker gross {r = loss}
      (unfold precision_bound in omega arith) makes_a_loss

abbrev invoices : List Invoice
invoices = (pos 500, pos 29) ∷ (pos 700, pos 30) ∷ (negsuc 99, pos 45) ∷ (pos 900, pos 120) ∷ []
