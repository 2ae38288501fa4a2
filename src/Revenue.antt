-- ===== src/Revenue.antt =====
-- backend/app/analytics/revenue_waterfall.py: from gross sales to net revenue.
pub mod Net
mod Tests
use procure_foundation.Prelude.{Option, none, some, List, [], ◌∷◌}
use procure_foundation.Prelude.Int.{pos}
use procure_foundation.Result.{Result, ok, ◌>>=◌}
use procure_foundation.Decimal.{Decimal, add, sub, round_currency}

pub data LineName : Type 0 where
  settlement_discounts volume_growth_rebates credit_notes_issued : LineName
  operational_claims_returns retro_pricing_adjustment supplier_recoveries_allowances : LineName

pub record GrossToNetWaterfallInput : Type 0 where
  pub gross_sales : Decimal
  pub settlement_discounts : Option Decimal
  pub volume_growth_rebates : Option Decimal
  pub credit_notes_issued : Option Decimal
  pub operational_claims_returns : Option Decimal
  pub retro_pricing_adjustment : Option Decimal
  pub supplier_recoveries_allowances : Option Decimal

-- `all_line_values`, as the pairs of the dict.
unfoldable pub all_line_values : GrossToNetWaterfallInput → List (LineName × Option Decimal)
all_line_values i =
    (settlement_discounts, i.settlement_discounts)
    ∷ (volume_growth_rebates, i.volume_growth_rebates)
    ∷ (credit_notes_issued, i.credit_notes_issued)
    ∷ (operational_claims_returns, i.operational_claims_returns)
    ∷ (retro_pricing_adjustment, i.retro_pricing_adjustment)
    ∷ (supplier_recoveries_allowances, i.supplier_recoveries_allowances)
    ∷ []

unfoldable pub missing_of : List (LineName × Option Decimal) → List LineName
missing_of [] = []
missing_of ((name, none) ∷ rest) = name ∷ missing_of rest
missing_of ((name, some _) ∷ rest) = missing_of rest

-- The dict that is returned, in its two shapes.
pub data GrossToNetWaterfall : Type 0 where
  incomplete : (missing_lines : List LineName) (gross_sales : Decimal) → GrossToNetWaterfall
  complete :
      (gross_sales net_revenue : Decimal) (lines : List (LineName × Decimal)) → GrossToNetWaterfall

unfoldable pub round_lines : List (LineName × Option Decimal) → Result (List (LineName × Decimal))
round_lines [] = ok []
round_lines ((name, none) ∷ rest) = round_lines rest
round_lines ((name, some value) ∷ rest) =
    let others = round_lines rest in
    round_currency value >>= λ v. others >>= λ vs. ok ((name, v) ∷ vs)

-- The value of a line that is known to be there.
abbrev pub value_of : Option Decimal → Decimal
value_of none = pos 0
value_of (some v) = v

-- The four deductions, then the two signed lines.
unfoldable pub net_revenue_of : GrossToNetWaterfallInput → Decimal
net_revenue_of i =
    let discounted = sub i.gross_sales (value_of i.settlement_discounts) in
    let rebated = sub discounted (value_of i.volume_growth_rebates) in
    let credited = sub rebated (value_of i.credit_notes_issued) in
    let returned = sub credited (value_of i.operational_claims_returns) in
    add (add returned (value_of i.retro_pricing_adjustment))
      (value_of i.supplier_recoveries_allowances)

unfoldable pub waterfall_without :
    List LineName → GrossToNetWaterfallInput → Result GrossToNetWaterfall
unfolding round_lines net_revenue_of
waterfall_without (name ∷ names) i =
    round_currency i.gross_sales >>= λ gross. ok (incomplete (name ∷ names) gross)
waterfall_without [] i = do
  gross ← round_currency i.gross_sales
  net ← round_currency (net_revenue_of i)
  lines ← round_lines (all_line_values i)
  ok (complete gross net lines)

unfoldable pub calculate_gross_to_net_waterfall :
    GrossToNetWaterfallInput → Result GrossToNetWaterfall
unfolding missing_of all_line_values waterfall_without
calculate_gross_to_net_waterfall i = waterfall_without (missing_of (all_line_values i)) i
