-- ===== src/Opportunity/Waterfall.antt =====
-- Which moves `advance_waterfall_stage` makes.
use procure_foundation.Prelude.{
  ℕ, suc, ◌≡◌, ◌↔◌, inl, inr, true, Option, none, some, refl, arith, sym, ap, ◌==◌, Bool-cases,
  subst, Option-cases,
}
use procure_foundation.Result.{ok, ◌>>=◌, >>=-eq-ok, ok-injective}
use procure_foundation.Opportunity.Model.{
  OpportunityStatus, identified, validated, approved, implementation, realised, rejected, expired,
  other, Opportunity, Register,
}
use procure_foundation.Opportunity.Service
use procure_foundation.Opportunity.Service.{
  waterfall_index, move_to, move_within, advance_waterfall_stage, next_index, advanced,
}

-- The moves: one stage forward, out of the waterfall from anywhere, and back in at its first stage.
pub data MayMove : OpportunityStatus → OpportunityStatus → Type 0 where
  validate : MayMove identified validated
  approve : MayMove validated approved
  implement : MayMove approved implementation
  realise : MayMove implementation realised
  reject : (s : OpportunityStatus) → MayMove s rejected
  expire : (s : OpportunityStatus) → MayMove s expired
  restart : (s : OpportunityStatus) → waterfall_index s ≡ none → MayMove s identified

stage_injective :
    (s t : OpportunityStatus) (i : ℕ)
    → waterfall_index s ≡ some i
    → waterfall_index t ≡ some i
    → s ≡ t
stage_injective s t i hs ht = ground arith

follow :
    (s t u : OpportunityStatus) (k i : ℕ)
    → MayMove s u
    → waterfall_index u ≡ some (suc k)
    → some k ≡ some i
    → waterfall_index t ≡ some (suc i)
    → MayMove s t
follow s t u k i m hu hs ht =
    let h : waterfall_index u ≡ some (suc i) = cc in
    subst (MayMove s) (stage_injective u t (suc i) h ht) m

forward :
    (s t : OpportunityStatus) (i : ℕ)
    → waterfall_index s ≡ some i
    → waterfall_index t ≡ some (suc i)
    → MayMove s t
forward identified t i hs ht = follow identified t validated 0 i validate refl hs ht
forward validated t i hs ht = follow validated t approved 1 i approve refl hs ht
forward approved t i hs ht = follow approved t implementation 2 i implement refl hs ht
forward implementation t i hs ht = follow implementation t realised 3 i realise refl hs ht
forward realised realised i hs ht = cc
forward realised t i hs ht = ground arith
forward rejected t i hs ht = cc
forward expired t i hs ht = cc
forward (other _) t i hs ht = cc

may_move :
    (s t : OpportunityStatus) (i : ℕ)
    → waterfall_index t ≡ some i
    → i ≡ next_index (waterfall_index s)
    → MayMove s t
may_move s t i ht e = elim (Option-cases (waterfall_index s)) [
  | inl out ↦
      let h : i ≡ 0 = rw out at e in
      subst (MayMove s) (stage_injective identified t 0 refl (rw (← h) ht)) (restart s out)
  | inr (k, at) ↦ let h : i ≡ suc k = rw at at e in forward s t k at (rw (← h) ht)
]

-- A move changes the stage and, where it approves, who approved it and when.
abbrev pub IsMoved : OpportunityStatus → Opportunity → Opportunity → Type 0
IsMoved target o moved =
    (by at : Option ℕ) × (moved
      ≡ record o { status = target; approved_by_user_id = by; approved_at = at })

approve-IsMoved :
    (user_id now : ℕ) (t : OpportunityStatus) (o : Opportunity)
    → IsMoved t o (Service.sign_off t user_id now (record o { status = t }))
approve-IsMoved user_id now approved o = (_, _, refl)
approve-IsMoved user_id now identified o = (_, _, refl)
approve-IsMoved user_id now validated o = (_, _, refl)
approve-IsMoved user_id now implementation o = (_, _, refl)
approve-IsMoved user_id now realised o = (_, _, refl)
approve-IsMoved user_id now rejected o = (_, _, refl)
approve-IsMoved user_id now expired o = (_, _, refl)
approve-IsMoved user_id now (other _) o = (_, _, refl)

move_within_lem :
    (index : Option ℕ) (user_id now : ℕ) (t : OpportunityStatus) (o : Opportunity) {m : Opportunity}
    → waterfall_index t ≡ index
    → move_within index user_id now t o ≡ ok m
    → MayMove o.status t × IsMoved t o m
unfolding move_within
move_within_lem none user_id now t o h e = cc
move_within_lem (some i) user_id now t o h e =
    elim (Bool-cases (i == next_index (waterfall_index o.status))) [
      | inl same ↦
          let e' = rw same at e in
          let k : i ≡ next_index (waterfall_index o.status) = ground arith in
          (
            may_move o.status t i h k,
            subst (IsMoved t o) (ok-injective e') (approve-IsMoved user_id now t o),
          )
      | inr differs ↦ let e' = rw differs at e in cc
    ]

pub move_to_lem :
    (user_id now : ℕ) (t : OpportunityStatus) (o : Opportunity) {m : Opportunity}
    → move_to user_id now t o ≡ ok m
    → MayMove o.status t × IsMoved t o m
unfolding move_to
move_to_lem user_id now rejected o e = (reject o.status, (_, _, sym (ok-injective e)))
move_to_lem user_id now expired o e = (expire o.status, (_, _, sym (ok-injective e)))
move_to_lem user_id now identified o e = move_within_lem _ user_id now identified o refl e
move_to_lem user_id now validated o e = move_within_lem _ user_id now validated o refl e
move_to_lem user_id now approved o e = move_within_lem _ user_id now approved o refl e
move_to_lem user_id now implementation o e = move_within_lem _ user_id now implementation o refl e
move_to_lem user_id now realised o e = move_within_lem _ user_id now realised o refl e
move_to_lem user_id now (other s) o e = move_within_lem _ user_id now (other s) o refl e

move_within-ok :
    (i user_id now : ℕ) (t : OpportunityStatus) (o : Opportunity)
    → next_index (waterfall_index o.status) ≡ i
    → (m : Opportunity) × (move_within (some i) user_id now t o ≡ ok m)
unfolding move_within
move_within-ok i user_id now t o h =
    let same : (i == next_index (waterfall_index o.status)) ≡ true = ground arith in
    (Service.sign_off t user_id now (record o { status = t }), rw same refl)

move_to-ok :
    (user_id now : ℕ) (s t : OpportunityStatus) (o : Opportunity)
    → o.status ≡ s
    → MayMove s t
    → (m : Opportunity) × (move_to user_id now t o ≡ ok m)
unfolding move_to
move_to-ok user_id now s t o h validate = move_within-ok 1 user_id now t o (rw h refl)
move_to-ok user_id now s t o h approve = move_within-ok 2 user_id now t o (rw h refl)
move_to-ok user_id now s t o h implement = move_within-ok 3 user_id now t o (rw h refl)
move_to-ok user_id now s t o h realise = move_within-ok 4 user_id now t o (rw h refl)
move_to-ok user_id now s t o h (reject _) = (_, refl)
move_to-ok user_id now s t o h (expire _) = (_, refl)
move_to-ok user_id now s t o h (restart _ out) = move_within-ok 0 user_id now t o (rw (h, out) refl)

-- An opportunity can be advanced to a target exactly when the move is one of `MayMove`: one stage
-- forward along the waterfall, to rejected or expired from any status, or from a status outside the
-- waterfall to its first stage. The opportunity then has the target as its status, and of its other
-- columns only the approver and the approval time may differ; the events and the evidence stay.
pub advance_waterfall_stage_iff :
    (user_id now : ℕ) (target : OpportunityStatus) (r : Register)
    → ((moved : Register) × (advance_waterfall_stage user_id now target r ≡ ok moved)
        × IsMoved target r.opportunity moved.opportunity
        × (moved.events ≡ r.events)
        × (moved.evidence ≡ r.evidence))
      ↔ MayMove r.opportunity.status target
unfolding advance_waterfall_stage
advance_waterfall_stage_iff user_id now target r = (
  λ (_, e, _, _, _).
      let (m, h, _) = >>=-eq-ok (move_to user_id now target r.opportunity) _ e in
      (move_to_lem user_id now target r.opportunity h).0,
  λ may.
      let (m, h) = move_to-ok user_id now r.opportunity.status target r.opportunity refl may in
      let f = λ (o : Opportunity). ok (advanced user_id target r o) in
      (
        advanced user_id target r m,
        ap (λ x. x >>= f) h,
        (move_to_lem user_id now target r.opportunity h).1,
        refl,
        refl,
      ),
)
