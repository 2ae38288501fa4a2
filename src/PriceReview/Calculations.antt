-- ===== src/PriceReview/Calculations.antt =====
-- backend/app/analytics/price_review_calculations.py, function by function.
use Prim.Native.String.{String}
use text.Mathlib.Text.{◌==◌ as str_eq}
use procure_foundation.Prelude.{Bool, true, false, not, Option, none, some, if◌then◌else◌}
use procure_foundation.Prelude.Int.{pos, leb_ℤ, ltb_ℤ, eqb_ℤ}
use procure_foundation.Result.{Result, ok, value_error, ◌>>=◌, ◌>>◌, raise_if}
use procure_foundation.Decimal.{
  Decimal, sub, mul, div, absolute, decimal, from_int, round_currency, round_percentage,
}

pub data PriceReviewMatchStatus : Type 0 where
  matched new_product discontinued review_required ignored : PriceReviewMatchStatus

pub data MovementType : Type 0 where
  new_product discontinued review_required pack_change : MovementType
  price_increase price_decrease no_change : MovementType

pub data ComparisonBasis : Type 0 where
  normalized raw unit_mismatch : ComparisonBasis

pub data Risk : Type 0 where
  unclassified low medium high critical : Risk

pub data Confidence : Type 0 where
  low medium high : Confidence

unfoldable pub calculate_price_change : Decimal → Decimal → Result Decimal
calculate_price_change old_price new_price = round_currency (sub new_price old_price)

unfoldable pub calculate_percentage_change : Decimal → Decimal → Result (Option Decimal)
calculate_percentage_change old_price new_price =
    if eqb_ℤ old_price (pos 0)
    then ok none
    else do ratio ← div (sub new_price old_price) old_price; p ← round_percentage ratio; ok (some p)

unfoldable pub calculate_normalized_unit_price : Decimal → Decimal → Result Decimal
calculate_normalized_unit_price total_price base_quantity = do
  raise_if (eqb_ℤ base_quantity (pos 0)) value_error
  q ← div total_price base_quantity
  round_currency q

abbrev pub quantity_confidence : Decimal → Confidence
quantity_confidence months =
    if leb_ℤ (from_int (pos 12)) months
    then Confidence.high
    else if leb_ℤ (from_int (pos 6)) months
    then Confidence.medium
    else Confidence.low

unfoldable pub calculate_annualized_quantity : Decimal → Decimal → Result (Decimal × Confidence)
calculate_annualized_quantity observed_quantity months_observed = do
  raise_if (leb_ℤ months_observed (pos 0)) value_error
  factor ← div (from_int (pos 12)) months_observed
  annualized ← round_currency (mul observed_quantity factor)
  ok (annualized, quantity_confidence months_observed)

unfoldable pub calculate_annual_impact : Decimal → Decimal → Result Decimal
calculate_annual_impact price_change annual_quantity =
    round_currency (mul price_change annual_quantity)

abbrev pub eq_unit : Option String → Option String → Bool
eq_unit none none = true
eq_unit (some u) (some v) = str_eq u v
eq_unit _ _ = false

unfoldable pub determine_comparison_basis :
    Option Decimal → Option Decimal → Option String → Option String → ComparisonBasis
determine_comparison_basis (some _) (some _) old_unit new_unit =
    if eq_unit old_unit new_unit then normalized else unit_mismatch
determine_comparison_basis none none old_unit new_unit = raw
determine_comparison_basis _ _ old_unit new_unit = unit_mismatch

unfoldable pub calculate_gross_margin : Decimal → Decimal → Result (Decimal × Decimal)
calculate_gross_margin selling_price cost = do
  raise_if (eqb_ℤ selling_price (pos 0)) value_error
  let gross_profit = sub selling_price cost
  profit ← round_currency gross_profit
  ratio ← div gross_profit selling_price
  margin ← round_percentage ratio
  ok (profit, margin)

unfoldable pub calculate_required_selling_price : Decimal → Decimal → Result Decimal
calculate_required_selling_price cost target_margin_pct = do
  raise_if (leb_ℤ (from_int (pos 1)) target_margin_pct) value_error
  price ← div cost (sub (from_int (pos 1)) target_margin_pct)
  round_currency price

unfoldable pub calculate_potential_cost_avoidance : Decimal → Decimal → Decimal → Result Decimal
calculate_potential_cost_avoidance requested_new_price target_price annual_quantity =
    round_currency (mul (sub requested_new_price target_price) annual_quantity)

unfoldable pub calculate_actual_cost_avoidance : Decimal → Decimal → Decimal → Result Decimal
calculate_actual_cost_avoidance requested_new_price final_negotiated_price annual_quantity =
    round_currency (mul (sub requested_new_price final_negotiated_price) annual_quantity)

-- With the thresholds given: low, medium, high.
unfoldable pub classify_risk_by : Decimal → Decimal → Decimal → Option Decimal → Risk
classify_risk_by low_max medium_max high_max none = unclassified
classify_risk_by low_max medium_max high_max (some percentage_change) =
    let magnitude = absolute percentage_change in
    if leb_ℤ magnitude low_max
    then Risk.low
    else if leb_ℤ magnitude medium_max
    then Risk.medium
    else if leb_ℤ magnitude high_max
    then Risk.high
    else critical

-- With the defaults 2%, 5% and 10%.
unfoldable pub classify_risk : Option Decimal → Risk
unfolding classify_risk_by decimal
classify_risk = classify_risk_by (decimal 2 2) (decimal 5 2) (decimal 10 2)

abbrev pub by_sign : Option Decimal → MovementType
by_sign none = MovementType.review_required
by_sign (some p) =
    if ltb_ℤ (pos 0) p
    then price_increase
    else if ltb_ℤ p (pos 0)
    then price_decrease
    else no_change

unfoldable pub classify_movement_type : Bool → Bool → Bool → Bool → Option Decimal → MovementType
classify_movement_type is_matched is_new is_discontinued pack_changed percentage_change =
    if is_new
    then MovementType.new_product
    else if is_discontinued
    then MovementType.discontinued
    else if not is_matched
    then MovementType.review_required
    else if pack_changed
    then pack_change
    else by_sign percentage_change

-- Opens the calculations, for a run at concrete numbers.
unfoldable pub calculations : Unit {0}
unfolding calculate_price_change calculate_percentage_change calculate_annualized_quantity
    calculate_annual_impact determine_comparison_basis calculate_gross_margin
    calculate_required_selling_price classify_risk classify_movement_type
calculations = tt
