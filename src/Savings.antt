-- ===== src/Savings.antt =====
-- backend/app/analytics/savings_register.py: the five types of savings, and the totals of the
-- waterfall.
pub mod Totals
mod Tests
use procure_foundation.Prelude.{Bool, true, false, Option, none, some, List, [], ◌∷◌}
use procure_foundation.Prelude.Int.{ℤ, pos, ◌-ℤ◌}
use procure_foundation.Result.{Result, ok, ◌>>=◌}
use procure_foundation.Decimal.{Decimal, add, sub, mul, from_int, round_currency}
use procure_foundation.Opportunity.Model.{
  OpportunityStatus, identified, validated, approved, implementation, realised,
}

pub data SavingsType : Type 0 where
  hard_saving cost_avoidance working_capital margin_protection efficiency_saving : SavingsType

pub data BaselineMethodology : Type 0 where
  historic_average_price prior_supplier_price budget : BaselineMethodology
  contract_price approved_quotation : BaselineMethodology

pub record SavingsResult : Type 0 where
  pub savings_type : SavingsType
  pub amount : Decimal
  pub baseline_methodology : Option BaselineMethodology
  pub is_one_time : Bool

abbrev pub savings_of :
    SavingsType → Option BaselineMethodology → Bool → Result Decimal → Result SavingsResult
savings_of type methodology one_time rounded = rounded >>= λ amount. ok (record {
  savings_type = type;
  amount = amount;
  baseline_methodology = methodology;
  is_one_time = one_time;
})

unfoldable pub calculate_hard_saving :
    Decimal → Decimal → Decimal → BaselineMethodology → Result SavingsResult
calculate_hard_saving baseline_unit_cost new_unit_cost annual_quantity methodology =
    savings_of hard_saving (some methodology) false
      (round_currency (mul (sub baseline_unit_cost new_unit_cost) annual_quantity))

unfoldable pub calculate_cost_avoidance : Decimal → Decimal → Decimal → Result SavingsResult
calculate_cost_avoidance requested_price negotiated_price annual_quantity =
    savings_of cost_avoidance none false
      (round_currency (mul (sub requested_price negotiated_price) annual_quantity))

unfoldable pub calculate_working_capital_release : Decimal → ℤ → ℤ → Result SavingsResult
calculate_working_capital_release daily_spend current_terms_days proposed_terms_days =
    savings_of working_capital none true
      (round_currency (mul daily_spend (from_int (proposed_terms_days -ℤ current_terms_days))))

unfoldable pub calculate_margin_protection : Decimal → Decimal → Result SavingsResult
calculate_margin_protection margin_at_risk_pct protected_revenue =
    savings_of margin_protection none false
      (round_currency (mul margin_at_risk_pct protected_revenue))

unfoldable pub calculate_efficiency_saving : Decimal → Decimal → Result SavingsResult
calculate_efficiency_saving hours_saved_annually hourly_rate =
    savings_of efficiency_saving none false (round_currency (mul hours_saved_annually hourly_rate))

pub record SavingsWaterfallTotals : Type 0 where
  pub identified : Decimal
  pub validated : Decimal
  pub approved : Decimal
  pub implementation : Decimal
  pub realised : Decimal

-- `totals[status] += amount`, for a status that is a stage.
abbrev pub add_to : OpportunityStatus → Decimal → SavingsWaterfallTotals → SavingsWaterfallTotals
add_to OpportunityStatus.identified a t = record t { identified = add t.identified a }
add_to OpportunityStatus.validated a t = record t { validated = add t.validated a }
add_to OpportunityStatus.approved a t = record t { approved = add t.approved a }
add_to OpportunityStatus.implementation a t = record t { implementation = add t.implementation a }
add_to OpportunityStatus.realised a t = record t { realised = add t.realised a }
add_to _ a t = t

unfoldable pub add_all :
    SavingsWaterfallTotals → List (OpportunityStatus × Decimal × Bool) → SavingsWaterfallTotals
add_all t [] = t
add_all t ((status, amount, _) ∷ rest) = add_all (add_to status amount t) rest

abbrev no_savings : SavingsWaterfallTotals
no_savings = record {
  identified = pos 0;
  validated = pos 0;
  approved = pos 0;
  implementation = pos 0;
  realised = pos 0;
}

unfoldable pub round_totals : SavingsWaterfallTotals → Result SavingsWaterfallTotals
round_totals t = do
  i ← round_currency t.identified
  v ← round_currency t.validated
  a ← round_currency t.approved
  m ← round_currency t.implementation
  r ← round_currency t.realised
  ok (record { identified = i; validated = v; approved = a; implementation = m; realised = r })

-- Each opportunity is its status, its amount, and whether it is a one-time release.
unfoldable pub calculate_savings_waterfall :
    List (OpportunityStatus × Decimal × Bool) → Result SavingsWaterfallTotals
unfolding add_all round_totals
calculate_savings_waterfall opportunities = round_totals (add_all no_savings opportunities)
