-- ===== src/Opportunity/Constraints.antt =====
-- The check constraints of the table `opportunities` against what the service writes.
use procure_foundation.Prelude.{ℕ, ◌≡◌, ◌≤◌, true, false, Option, none, some, refl, arith, leb}
use procure_foundation.Calendar.{Date}
use procure_foundation.Decimal.{Decimal}
use procure_foundation.Opportunity.Model.{
  Register, afi_state_combination, rs_state_combination, impact_combination, savings_combination,
}
use procure_foundation.Opportunity.Service.{
  is_undated, OpportunityCreate, Tables, genesis, confirm_savings, RealisedSavings,
}
use procure_foundation.Opportunity.Events.{write_opportunity_measure_event}
use procure_foundation.Opportunity.Steps.{Reachable, Reachable-induction}

Satisfies : Register → Type 0
Satisfies r =
    (afi_state_combination r.opportunity ≡ true) × (rs_state_combination r.opportunity ≡ true)

genesis-Satisfies :
    (id now user_id : ℕ) (supplier_id : Option ℕ) (payload : OpportunityCreate) (t : Tables)
    (amount : Option Decimal) (from : Option Date)
    → payload.annual_financial_impact ≡ amount
    → payload.annual_financial_impact_effective_from ≡ from
    → is_undated amount from ≡ false
    → Satisfies (genesis id now user_id supplier_id payload t)
unfolding Satisfies genesis write_opportunity_measure_event afi_state_combination
    rs_state_combination impact_combination savings_combination
genesis-Satisfies id now user_id supplier_id payload t none from ea ef dated = (rw ea refl, refl)
genesis-Satisfies id now user_id supplier_id payload t (some a) none ea ef dated = cc
genesis-Satisfies id now user_id supplier_id payload t (some a) (some d) ea ef dated =
    (rw (ea, ef) refl, refl)

confirm-Satisfies :
    (user_id now : ℕ) (s : RealisedSavings) (r : Register)
    → s.effective_period_start ≤ s.effective_period_end
    → Satisfies r
    → Satisfies (confirm_savings user_id now s r)
unfolding Satisfies confirm_savings write_opportunity_measure_event afi_state_combination
    rs_state_combination impact_combination savings_combination
confirm-Satisfies user_id now s r ordered before =
    let h : leb s.effective_period_start s.effective_period_end ≡ true = ground arith in
    (before.0, rw h refl)

-- Every register that creation, advances and confirmations reach satisfies the two check
-- constraints of the table on the columns of its measures: the status of a measure goes with the
-- source basis and with the amount, times, approvals and periods that it calls for and no others.
pub Reachable-state_combinations :
    (r : Register)
    → Reachable r
    → (afi_state_combination r.opportunity ≡ true) × (rs_state_combination r.opportunity ≡ true)
unfolding Satisfies afi_state_combination rs_state_combination impact_combination
    savings_combination
Reachable-state_combinations r reach =
    Reachable-induction Satisfies
      (λ id now user_id supplier_id payload t log _ dated.
        genesis-Satisfies id now user_id supplier_id payload t _ _ refl refl dated)
      (λ target by at s log before. before)
      (λ user_id now savings s log ordered before.
        confirm-Satisfies user_id now savings s ordered before)
      reach
