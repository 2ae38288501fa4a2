-- ===== src/Opportunity/Progress.antt =====
-- The way of an opportunity to confirmed savings.
use procure_foundation.Prelude.{
  ℕ, suc, ◌≡◌, ◌≤◌, ◌<◌, refl, ap, sym, subst, ◌∙◌, arith, false, some, ltb,
}
use mathlib.Core.Option.{some-injective}
use procure_foundation.Result.{ok}
use procure_foundation.Opportunity.Model.{
  OpportunityStatus, identified, validated, approved, implementation, realised, rejected, expired,
  other, confirmed, Register,
}
use procure_foundation.Opportunity.Service.{
  waterfall_index, advance_waterfall_stage, RealisedSavings, record_realised_savings,
  confirm_savings,
}
use procure_foundation.Opportunity.Events.{write_opportunity_measure_event}
use procure_foundation.Opportunity.Waterfall.{
  MayMove, validate, approve, implement, advance_waterfall_stage_iff,
}

-- Advances one after another, each to the next stage of the waterfall.
pub data Forwards (user_id now : ℕ) : Register → Register → Type 0 where
  arrived : {r : Register} → Forwards user_id now r r
  onward :
      {r s t : Register} (target : OpportunityStatus) (stage : ℕ)
      → waterfall_index r.opportunity.status ≡ some stage
      → waterfall_index target ≡ some (suc stage)
      → advance_waterfall_stage user_id now target r ≡ ok s
      → Forwards user_id now s t
      → Forwards user_id now r t

-- Where an opportunity can be brought to the stage of implementation.
abbrev pub IsImplemented : ℕ → ℕ → Register → Type 0
IsImplemented user_id now r =
    (s : Register) × Forwards user_id now r s × (s.opportunity.status ≡ implementation)

module _ (user_id now : ℕ) where
  step-IsImplemented :
      (from target : OpportunityStatus) (stage : ℕ) (r : Register)
      → r.opportunity.status ≡ from
      → waterfall_index from ≡ some stage
      → waterfall_index target ≡ some (suc stage)
      → MayMove from target
      → ((s : Register) → s.opportunity.status ≡ target → IsImplemented user_id now s)
      → IsImplemented user_id now r
  step-IsImplemented from target stage r at before after may rest =
      let (s, e, (_, _, moved), _, _) =
        (advance_waterfall_stage_iff user_id now target r).1
          (subst (λ status. MayMove status target) (sym at) may) in
      let (t, path, there) = rest s (ap (λ o. o.status) moved) in
      (t, onward target stage (ap waterfall_index at ∙ before) after e path, there)

  from_implementation :
      (r : Register) → r.opportunity.status ≡ implementation → IsImplemented user_id now r
  from_implementation r at = (r, arrived, at)

  from_approved : (r : Register) → r.opportunity.status ≡ approved → IsImplemented user_id now r
  from_approved r at =
      step-IsImplemented approved implementation 2 r at refl refl implement from_implementation

  from_validated : (r : Register) → r.opportunity.status ≡ validated → IsImplemented user_id now r
  from_validated r at = step-IsImplemented validated approved 1 r at refl refl approve from_approved

  from_identified : (r : Register) → r.opportunity.status ≡ identified → IsImplemented user_id now r
  from_identified r at =
      step-IsImplemented identified validated 0 r at refl refl validate from_validated

  pub from_stage :
      (status : OpportunityStatus) (stage : ℕ) (r : Register)
      → r.opportunity.status ≡ status
      → waterfall_index status ≡ some stage
      → stage < 4
      → IsImplemented user_id now r
  from_stage identified stage r at h below = from_identified r at
  from_stage validated stage r at h below = from_validated r at
  from_stage approved stage r at h below = from_approved r at
  from_stage implementation stage r at h below = from_implementation r at
  from_stage realised stage r at h below =
      let four : 4 ≡ stage = some-injective 4 stage h in
      let none_left : ⊥ = omega (arith, four, below) in absurd none_left
  from_stage rejected stage r at h below = cc
  from_stage expired stage r at h below = cc
  from_stage (other s) stage r at h below = cc

-- The savings are confirmed in the register `settled`.
abbrev pub IsConfirmed : ℕ → ℕ → RealisedSavings → Register → Register → Type 0
IsConfirmed user_id now savings reached settled =
    (record_realised_savings user_id now savings reached ≡ ok settled)
    × (settled.opportunity.status ≡ realised)
    × (settled.opportunity.realised_savings ≡ some savings.realised_savings)
    × (settled.opportunity.realised_savings_status ≡ confirmed)

settles :
    (user_id now : ℕ) (savings : RealisedSavings) (reached : Register)
    → reached.opportunity.status ≡ implementation
    → ltb savings.effective_period_end savings.effective_period_start ≡ false
    → (settled : Register) × IsConfirmed user_id now savings reached settled
unfolding record_realised_savings confirm_savings write_opportunity_measure_event
settles user_id now savings reached there in_order =
    rw (there, in_order) (_, (refl, refl, refl, refl))

-- An opportunity at any stage of the waterfall but the last can be brought to confirmed savings:
-- there are advances, each to the next stage, after which realised savings of any amount, over a
-- period that does not end before it starts, are recorded without an error, and the opportunity is
-- then realised with that amount confirmed.
pub record_realised_savings-reached :
    (user_id now : ℕ) (savings : RealisedSavings) (r : Register) (stage : ℕ)
    → waterfall_index r.opportunity.status ≡ some stage
    → stage < 4
    → savings.effective_period_start ≤ savings.effective_period_end
    → (reached : Register) × (settled : Register) × Forwards user_id now r reached
      × IsConfirmed user_id now savings reached settled
record_realised_savings-reached user_id now savings r stage at below ordered =
    let (reached, path, there) =
      from_stage user_id now r.opportunity.status stage r refl at below in
    let in_order : ltb savings.effective_period_end savings.effective_period_start ≡ false =
      ground (arith, ordered) in
    let (settled, is_confirmed) = settles user_id now savings reached there in_order in
    (reached, settled, path, is_confirmed)
