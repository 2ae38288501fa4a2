-- ===== src/ManagementAccounting/Allocation.antt =====
-- Rounding, the allocation of cost pools, allocation variances and evidence tiers.
use procure_foundation.Prelude.{
  ℕ, Bool, true, false, not, Option, none, some, ◌^◌, ltb, if◌then◌else◌,
}
use procure_foundation.Prelude.Int.{pos, ltb_ℤ, eqb_ℤ}
use procure_foundation.Result.{Result, ok, err, value_error, raise_if, ◌>>=◌, ◌>>◌}
use procure_foundation.Decimal.{Decimal, sub, mul, div, quantize, round_currency}
use procure_foundation.Opportunity.Model.{
  AmountStatus, unknown, not_applicable, legacy_unverified, estimated, calculated, confirmed,
}

-- `value.quantize(Decimal("0.1"), rounding=ROUND_HALF_EVEN)`
unfoldable pub round_days : Decimal → Result Decimal
unfolding quantize
round_days a = quantize (10 ^ 59) a

-- `value.quantize(Decimal("0.01"), rounding=ROUND_HALF_EVEN)`, for ratios and percentages.
unfoldable pub round_hundredth : Decimal → Result Decimal
unfolding quantize
round_hundredth a = quantize (10 ^ 58) a

pub data AllocationLevel : Type 0 where
  direct activity_rate volumetric unallocated : AllocationLevel

unfoldable pub determine_allocation_level : Bool → Bool → Bool → AllocationLevel
determine_allocation_level has_direct_cost has_activity_rate_basis has_volumetric_basis =
    if has_direct_cost
    then direct
    else if has_activity_rate_basis
    then activity_rate
    else if has_volumetric_basis
    then volumetric
    else unallocated

-- `other_type` is any string that is not recognized.
pub data AllocationType : Type 0 where
  per_unit per_pallet per_km pct_revenue other_type : AllocationType

abbrev is_recognized : AllocationType → Bool
is_recognized other_type = false
is_recognized _ = true

-- A quotient that is `None` where the divisor is zero.
abbrev pub quotient_unless_zero :
    (Decimal → Result Decimal) → Decimal → Decimal → Result (Option Decimal)
quotient_unless_zero round a b =
    if eqb_ℤ b (pos 0) then ok none else (div a b >>= λ q. round q >>= λ r. ok (some r))

unfoldable pub allocate_activity_cost : Decimal → Decimal → AllocationType → Result (Option Decimal)
allocate_activity_cost total_cost_pool activity_volume type = do
  raise_if (not (is_recognized type)) value_error
  quotient_unless_zero round_currency total_cost_pool activity_volume

unfoldable pub sourced : Option Decimal → Result Decimal
sourced none = err value_error
sourced (some amount) = ok amount

unfoldable pub resolve_trade_spend_for_period : Option Decimal → Bool → Result Decimal
unfolding sourced
resolve_trade_spend_for_period record_of_period agreement_exists =
    if agreement_exists then sourced record_of_period else ok (pos 0)

pub data RateConfidence : Type 0 where
  fallback matched : RateConfidence

pub record AllocationVariance : Type 0 where
  pub activity_based_cost : Decimal
  pub currently_allocated_cost : Decimal
  pub variance : Decimal
  pub is_undercosted : Bool
  pub rate_confidence : RateConfidence

variance_of : Decimal → Decimal → Decimal → Bool → Result (Option AllocationVariance)
variance_of volume rate allocated is_fallback_rate = do
  cost ← round_currency (mul volume rate)
  variance ← round_currency (sub allocated cost)
  shown ← round_currency allocated
  ok (
      some (record {
        activity_based_cost = cost;
        currently_allocated_cost = shown;
        variance = variance;
        is_undercosted = ltb_ℤ variance (pos 0);
        rate_confidence = if is_fallback_rate then fallback else matched;
      }))

unfoldable pub calculate_allocation_variance :
    Decimal → Decimal → Decimal → Bool → Result (Option AllocationVariance)
unfolding variance_of
calculate_allocation_variance volume rate allocated is_fallback_rate =
    if eqb_ℤ rate (pos 0) then ok none else variance_of volume rate allocated is_fallback_rate

-- A status that is none of the vocabulary is a ValueError in the source.
unfoldable pub classify_evidence_tier : AmountStatus → ℕ
classify_evidence_tier unknown = 0
classify_evidence_tier not_applicable = 0
classify_evidence_tier legacy_unverified = 1
classify_evidence_tier estimated = 2
classify_evidence_tier calculated = 3
classify_evidence_tier confirmed = 4

unfoldable pub is_evidence_downgrade : Option AmountStatus → AmountStatus → Bool
unfolding classify_evidence_tier
is_evidence_downgrade none new = false
is_evidence_downgrade (some previous) new =
    ltb (classify_evidence_tier new) (classify_evidence_tier previous)

unfoldable pub calculate_variance_vs_prior : Option Decimal → Option Decimal → Option Decimal
calculate_variance_vs_prior (some current) (some prior) = some (sub current prior)
calculate_variance_vs_prior _ _ = none
