-- ===== src/ManagementAccounting/Capital.antt =====
-- Working capital, the reconciliation of stock, exposures and returns.
use Prim.Native.String.{String}
use procure_foundation.Prelude.{Bool, true, false, not, ◌&&◌, Option, none, some, if◌then◌else◌}
use procure_foundation.Prelude.Int.{ℤ, pos, leb_ℤ, ltb_ℤ, eqb_ℤ}
use procure_foundation.Result.{Result, ok, value_error, raise_if, ◌>>=◌}
use procure_foundation.Decimal.{Decimal, add, sub, mul, div, absolute, decimal, round_currency}
use procure_foundation.Calendar.{Date, days_between}
use procure_foundation.ManagementAccounting.Allocation.{
  round_hundredth, round_days, quotient_unless_zero,
}

-- `numerator / denominator * 365` in days.
abbrev days_of : Decimal → Decimal → Result (Option Decimal)
days_of a b =
    if eqb_ℤ b (pos 0)
    then ok none
    else (div a b >>= λ q. round_days (mul q (decimal 365 0)) >>= λ r. ok (some r))

abbrev cycle_of : Option Decimal → Option Decimal → Option Decimal → Result (Option Decimal)
cycle_of (some dio) (some dso) (some dpo) = round_days (sub (add dio dso) dpo) >>= λ r. ok (some r)
cycle_of _ _ _ = ok none

abbrev ratio_of : Decimal → Decimal → Decimal → Option Decimal → Result (Option Decimal)
ratio_of ar ap inventory none = ok none
ratio_of ar ap inventory (some cash) =
    quotient_unless_zero round_hundredth (add (add ar inventory) cash) ap

pub record WorkingCapitalMetrics : Type 0 where
  pub dso : Option Decimal
  pub dio : Option Decimal
  pub dpo : Option Decimal
  pub ccc : Option Decimal
  pub working_capital_ratio : Option Decimal

unfoldable pub calculate_working_capital_metrics :
    Decimal → Decimal → Decimal → Decimal → Decimal → Option Decimal → Result WorkingCapitalMetrics
calculate_working_capital_metrics ar ap inventory annual_revenue annual_cogs cash = do
  dso ← days_of ar annual_revenue
  dio ← days_of inventory annual_cogs
  dpo ← days_of ap annual_cogs
  ccc ← cycle_of dio dso dpo
  ratio ← ratio_of ar ap inventory cash
  ok (record { dso = dso; dio = dio; dpo = dpo; ccc = ccc; working_capital_ratio = ratio })

pub record ReconciliationResult : Type 0 where
  pub control_total : Decimal
  pub sub_ledger_extract : Decimal
  pub variance : Decimal
  pub is_reconciled : Bool

-- The status repeats `is_reconciled`. By default the tolerance is 0.01.
unfoldable pub check_inventory_reconciliation :
    Decimal → Decimal → Decimal → Result ReconciliationResult
check_inventory_reconciliation control_total sub_ledger_extract tolerance = do
  variance ← round_currency (sub control_total sub_ledger_extract)
  control ← round_currency control_total
  extract ← round_currency sub_ledger_extract
  ok (record {
    control_total = control;
    sub_ledger_extract = extract;
    variance = variance;
    is_reconciled = leb_ℤ (absolute variance) tolerance;
  })

unfoldable pub resolve_gated_inventory_value : ReconciliationResult → Bool → Option Decimal
resolve_gated_inventory_value r timing_bridge_documented =
    if r.is_reconciled
    then some r.control_total
    else if timing_bridge_documented
    then some r.control_total
    else none

abbrev is_given : Option String → Bool
is_given none = false
is_given (some _) = true

unfoldable pub refuse_timing_bridge_allocation : Decimal → Option String → Result (Unit {0})
refuse_timing_bridge_allocation variance entity_reference =
    raise_if (not (eqb_ℤ variance (pos 0)) && is_given entity_reference) value_error

pub record BridgeCompleteness : Type 0 where
  pub reconciled_total : Decimal
  pub final_variance : Decimal
  pub is_fully_explained : Bool

unfoldable pub validate_reconciliation_bridge_completeness :
    Decimal → Decimal → Decimal → Result BridgeCompleteness
validate_reconciliation_bridge_completeness control_total raw_subledger_total bridge_total = do
  reconciled ← round_currency (add raw_subledger_total bridge_total)
  final ← round_currency (sub reconciled control_total)
  ok (record {
    reconciled_total = reconciled;
    final_variance = final;
    is_fully_explained = eqb_ℤ final (pos 0);
  })

pub record ReplacementExposure : Type 0 where
  pub exposure_per_unit : Decimal
  pub total_exposure : Decimal
  pub is_adverse : Bool

unfoldable pub calculate_future_replacement_exposure :
    Decimal → Decimal → Decimal → Result ReplacementExposure
calculate_future_replacement_exposure quantity_on_hand replacement_cost mac_cost = do
  each ← round_currency (sub replacement_cost mac_cost)
  total ← round_currency (mul each quantity_on_hand)
  ok (record { exposure_per_unit = each; total_exposure = total; is_adverse = ltb_ℤ (pos 0) total })

unfoldable pub flag_replacement_cost_divergence : Decimal → Decimal → Decimal → Result Bool
flag_replacement_cost_divergence exposure control_total threshold_pct =
    if eqb_ℤ control_total (pos 0)
    then ok false
    else (div (absolute exposure) control_total >>= λ ratio. ok (ltb_ℤ threshold_pct ratio))

unfoldable pub is_rate_stale : Option Date → Date → ℤ → Bool
is_rate_stale none as_of threshold_days = true
is_rate_stale (some effective) as_of threshold_days =
    leb_ℤ threshold_days (days_between as_of effective)

unfoldable pub calculate_gmroi : Decimal → Decimal → Result (Option Decimal)
calculate_gmroi gross_margin average_inventory_value =
    quotient_unless_zero round_hundredth gross_margin average_inventory_value

unfoldable pub calculate_markdown_adjusted_gmroi :
    Decimal → Decimal → Decimal → Decimal → Result (Option Decimal)
unfolding calculate_gmroi
calculate_markdown_adjusted_gmroi gross_margin average_inventory_value at_risk markdown_pct = do
  markdown ← round_currency (mul at_risk markdown_pct)
  adjusted ← round_currency (sub gross_margin markdown)
  calculate_gmroi adjusted average_inventory_value

unfoldable pub flag_zero_mass_risk : Decimal → Bool → Bool
flag_zero_mass_risk recorded_mass_kg has_movement = eqb_ℤ recorded_mass_kg (pos 0) && has_movement
