-- ===== src/Opportunity/Evidence.antt =====
-- What stands behind a confirmed saving.
use procure_foundation.Prelude.{ℕ, ◌≡◌, ◌≢◌, ◌⊎◌, inl, inr, some, List, Member, refl}
use procure_foundation.Opportunity.Model.{
  confirmed, EvidenceType, documented_baseline, actual_cost_source, variance_calculation_reference,
  FinancialAmountEvidence, Register,
}
use procure_foundation.Opportunity.Service.{genesis, confirm_savings}
use procure_foundation.Opportunity.Events.{write_opportunity_measure_event, next_event_id}
use procure_foundation.Opportunity.Steps.{Reachable, Reachable-induction}

-- A row of this type is linked to the event.
abbrev pub HasEvidence : ℕ → List FinancialAmountEvidence → EvidenceType → Type 0
HasEvidence event_id rows type =
    (row : FinancialAmountEvidence) × Member row rows
    × (row.event_id ≡ event_id)
    × (row.evidence_type ≡ type)

-- The current event of the realised savings has a row of each type.
abbrev pub IsEvidenced : Register → Type 0
IsEvidenced r =
    (event_id : ℕ) × (r.opportunity.realised_savings_current_event_id ≡ some event_id)
    × ((type : EvidenceType) → HasEvidence event_id r.evidence type)

IsSupported : Register → Type 0
IsSupported r = (r.opportunity.realised_savings_status ≢ confirmed) ⊎ IsEvidenced r

-- Where a register that creation, advances and confirmations reach has confirmed savings, the event
-- that confirmed them has an evidence row of each of the three types.
pub Reachable-IsEvidenced :
    (r : Register) → Reachable r → r.opportunity.realised_savings_status ≡ confirmed → IsEvidenced r
unfolding IsSupported
Reachable-IsEvidenced r reach is_confirmed =
    let supported : IsSupported r =
      Reachable-induction IsSupported
        (λ id now user_id supplier_id payload t log _ _.
          unfold genesis write_opportunity_measure_event in inl (λ e. cc))
        (λ target by at s log before. before)
        (λ user_id now savings s log _ _.
          unfold confirm_savings write_opportunity_measure_event in
          inr (
            next_event_id s,
            refl,
            λ type.
                elim type
                  as (λ t.
                    HasEvidence (next_event_id s) (confirm_savings user_id now savings s).evidence
                      t) [
                        | documented_baseline ↦ (_, inr (inr (inl refl)), refl, refl)
                        | actual_cost_source ↦ (_, inr (inl refl), refl, refl)
                        | variance_calculation_reference ↦ (_, inl refl, refl, refl)
                      ],
          ))
        reach in
    elim supported [ inl out ↦ absurd (out is_confirmed) | inr h ↦ h ]
