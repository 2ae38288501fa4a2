-- ===== src/Opportunity/Endings.antt =====
-- What advances leave alone, and what does not end the waterfall.
use procure_foundation.Prelude.{ℕ, suc, ◌≡◌, ◌≤◌, ◌<◌, refl, ap, sym, subst, ◌∙◌, arith, none, some}
use procure_foundation.Result.{ok, err, conflict, >>=-eq-ok, ok-injective}
use procure_foundation.Opportunity.Model.{
  OpportunityStatus, identified, realised, rejected, Opportunity, Register,
}
use procure_foundation.Opportunity.Service.{
  waterfall_index, move_to, advance_waterfall_stage, RealisedSavings, record_realised_savings,
}
use procure_foundation.Opportunity.Waterfall.{
  MayMove, realise, reject, restart, IsMoved, move_to_lem, advance_waterfall_stage_iff,
}
use procure_foundation.Opportunity.Progress.{
  Forwards, arrived, onward, from_stage, IsConfirmed, record_realised_savings-reached,
}

-- Of the opportunity's columns only the stage and the approval may differ, and no event and no
-- evidence row is written or lost.
abbrev pub IsUntouched : Register → Register → Type 0
IsUntouched r s =
    (stage : OpportunityStatus) × IsMoved stage r.opportunity s.opportunity
    × (s.events ≡ r.events)
    × (s.evidence ≡ r.evidence)

IsUntouched-trans : (r s t : Register) → IsUntouched r s → IsUntouched s t → IsUntouched r t
IsUntouched-trans r s t (_, (_, _, e), ev, ed) (stage, (by, at, f), fv, fd) = (
  stage,
  (
    by,
    at,
    f
        ∙ ap
            (λ (o : Opportunity). record o {
              status = stage;
              approved_by_user_id = by;
              approved_at = at;
            })
            e,
  ),
  fv ∙ ev,
  fd ∙ ed,
)

advance_waterfall_stage-IsUntouched :
    (user_id now : ℕ) (target : OpportunityStatus) (r s : Register)
    → advance_waterfall_stage user_id now target r ≡ ok s
    → IsUntouched r s
unfolding advance_waterfall_stage
advance_waterfall_stage-IsUntouched user_id now target r s e =
    let (m, h, last) = >>=-eq-ok (move_to user_id now target r.opportunity) _ e in
    let (_, moved) = move_to_lem user_id now target r.opportunity h in
    subst (IsUntouched r) (ok-injective last) (target, moved, refl, refl)

Forwards-IsUntouched :
    (user_id now : ℕ) (r s : Register) → Forwards user_id now r s → IsUntouched r s
Forwards-IsUntouched user_id now r s arrived = (
  r.opportunity.status,
  (r.opportunity.approved_by_user_id, r.opportunity.approved_at, refl),
  refl,
  refl,
)
Forwards-IsUntouched user_id now r t (onward {s} target stage _ _ e path) =
    IsUntouched-trans r s t (advance_waterfall_stage-IsUntouched user_id now target r s e)
      (Forwards-IsUntouched user_id now s t path)

Forwards-onward :
    (user_id now : ℕ) (r s t : Register) (target : OpportunityStatus) (stage : ℕ)
    → Forwards user_id now r s
    → waterfall_index s.opportunity.status ≡ some stage
    → waterfall_index target ≡ some (suc stage)
    → advance_waterfall_stage user_id now target s ≡ ok t
    → Forwards user_id now r t
Forwards-onward user_id now r s t target stage arrived before after e =
    onward target stage before after e arrived
Forwards-onward user_id now r s t target stage (onward {s = u} next k b a f path) before after e =
    onward next k b a f (Forwards-onward user_id now u s t target stage path before after e)

is_refused :
    (user_id now : ℕ) (savings : RealisedSavings) (r : Register)
    → r.opportunity.status ≡ realised
    → record_realised_savings user_id now savings r ≡ err conflict
unfolding record_realised_savings
is_refused user_id now savings r at = rw at refl

-- An opportunity at any stage of the waterfall but the last can also be brought to its end without
-- any confirmation: there are advances, each to the next stage, after which it is realised while
-- all its columns but the stage and the approval, those of the realised savings among them, and its
-- events and evidence rows are as they were. Recording any realised savings is then refused.
pub advance_waterfall_stage-unconfirmed :
    (user_id now : ℕ) (r : Register) (stage : ℕ)
    → waterfall_index r.opportunity.status ≡ some stage
    → stage < 4
    → (ended : Register) × Forwards user_id now r ended
      × (ended.opportunity.status ≡ realised)
      × IsUntouched r ended
      × ((savings : RealisedSavings)
          → record_realised_savings user_id now savings ended ≡ err conflict)
advance_waterfall_stage-unconfirmed user_id now r stage at below =
    let (reached, path, there) =
      from_stage user_id now r.opportunity.status stage r refl at below in
    let (ended, e, (_, _, moved), _, _) =
      (advance_waterfall_stage_iff user_id now realised reached).1
        (subst (λ status. MayMove status realised) (sym there) realise) in
    let whole =
      Forwards-onward user_id now r reached ended realised 3 path (ap waterfall_index there) refl
        e in
    let end : ended.opportunity.status ≡ realised = ap (λ o. o.status) moved in
    (
      ended,
      whole,
      end,
      Forwards-IsUntouched user_id now r ended whole,
      λ savings. is_refused user_id now savings ended end,
    )

-- No status ends the waterfall, rejected, expired and realised included: an opportunity with any
-- status can be rejected, a rejected one can be advanced to identified again, and from there
-- advances, each to the next stage, bring it to where realised savings of any amount, over a period
-- that does not end before it starts, are recorded and confirmed. Up to that record all its columns
-- but the stage and the approval, its events and its evidence rows are as they were.
pub record_realised_savings-restarted :
    (user_id now : ℕ) (savings : RealisedSavings) (r : Register)
    → savings.effective_period_start ≤ savings.effective_period_end
    → (refused : Register) × (restarted : Register) × (reached : Register) × (settled : Register)
      × (advance_waterfall_stage user_id now rejected r ≡ ok refused)
      × (advance_waterfall_stage user_id now identified refused ≡ ok restarted)
      × Forwards user_id now restarted reached
      × IsUntouched r reached
      × IsConfirmed user_id now savings reached settled
record_realised_savings-restarted user_id now savings r ordered =
    let (refused, e1, (_, _, out), _, _) =
      (advance_waterfall_stage_iff user_id now rejected r).1 (reject r.opportunity.status) in
    let outside : waterfall_index refused.opportunity.status ≡ none =
      ap (λ o. waterfall_index o.status) out in
    let (restarted, e2, (_, _, again), _, _) =
      (advance_waterfall_stage_iff user_id now identified refused).1 (restart _ outside) in
    let (reached, settled, path, is_confirmed) =
      record_realised_savings-reached user_id now savings restarted 0
        (ap (λ o. waterfall_index o.status) again) (omega arith) ordered in
    let first = advance_waterfall_stage-IsUntouched user_id now rejected r refused e1 in
    let second = advance_waterfall_stage-IsUntouched user_id now identified refused restarted e2 in
    let rest = Forwards-IsUntouched user_id now restarted reached path in
    (
      refused,
      restarted,
      reached,
      settled,
      e1,
      e2,
      path,
      IsUntouched-trans r refused reached first
          (IsUntouched-trans refused restarted reached second rest),
      is_confirmed,
    )
