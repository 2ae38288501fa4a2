-- ===== src/Opportunity/Steps.antt =====
-- The registers that the operations of the service reach, and induction over them.
use procure_foundation.Prelude.{
  ℕ, ◌≡◌, ◌≤◌, Bool, false, true, Option, List, [], refl, sym, subst, ltb-false→le, ltb, not,
}
use procure_foundation.Result.{ok, Result, raise_if, ◌>>◌, >>=-eq-ok, ok-injective, conflict}
use procure_foundation.Opportunity.Model.{OpportunityStatus, MeasureCode, AuditEntry, Register}
use procure_foundation.Opportunity.Service.{
  OpportunityCreate, find_supplier, is_undated, Tables, genesis, create_opportunity,
  advance_waterfall_stage, RealisedSavings, confirm_savings, record_realised_savings, advanced,
  move_to, is_implementation,
}
use procure_foundation.Opportunity.Events.{events_of}
use procure_foundation.Opportunity.Waterfall.{move_to_lem}

-- A new primary key has no events yet.
abbrev pub IsFresh : ℕ → Tables → Type 0
IsFresh id t = (m : MeasureCode) → events_of id m t.events ≡ []

-- What creation, advances and confirmations reach.
pub data Reachable : Register → Type 0 where
  by_creation :
      (suppliers : ℕ → Option ℕ) (id now user_id : ℕ) (payload : OpportunityCreate) (t : Tables)
      {r : Register}
      → IsFresh id t
      → create_opportunity suppliers id now user_id payload t ≡ ok r
      → Reachable r
  by_advance :
      (user_id now : ℕ) (target : OpportunityStatus) {r s : Register}
      → Reachable r
      → advance_waterfall_stage user_id now target r ≡ ok s
      → Reachable s
  by_confirmation :
      (user_id now : ℕ) (savings : RealisedSavings) {r s : Register}
      → Reachable r
      → record_realised_savings user_id now savings r ≡ ok s
      → Reachable s

pub raise_if-ok :
    (b : Bool) (k : Result Register) {r : Register}
    → (raise_if b conflict >> k) ≡ ok r
    → (b ≡ false) × (k ≡ ok r)
raise_if-ok false k e = (refl, e)
raise_if-ok true k e = cc

-- Induction: one case for the row with its two genesis events, one for a move, and one for a
-- confirmation, each with whatever it adds to the audit log.
pub Reachable-induction :
    (I : Register → Type 0)
    → ((id now user_id : ℕ) (supplier_id : Option ℕ) (payload : OpportunityCreate) (t : Tables)
          (log : List AuditEntry)
        → IsFresh id t
        → is_undated payload.annual_financial_impact payload.annual_financial_impact_effective_from
          ≡ false
        → I (record (genesis id now user_id supplier_id payload t) { audit_log = log }))
    → ((target : OpportunityStatus) (by at : Option ℕ) (r : Register) (log : List AuditEntry)
        → I r
        → I (record r {
          opportunity = record (r.opportunity) {
            status = target;
            approved_by_user_id = by;
            approved_at = at;
          };
          audit_log = log;
        }))
    → ((user_id now : ℕ) (s : RealisedSavings) (r : Register) (log : List AuditEntry)
        → s.effective_period_start ≤ s.effective_period_end
        → I r
        → I (record (confirm_savings user_id now s r) { audit_log = log }))
    → {r : Register} → Reachable r
    → I r
unfolding create_opportunity advance_waterfall_stage record_realised_savings
Reachable-induction I new move settle (by_creation suppliers id now user_id payload t fresh e) =
    let (supplier_id, _, e1) = >>=-eq-ok (find_supplier suppliers payload.supplier_public_id) _ e in
    let (dated, e2) = raise_if-ok (is_undated _ _) _ e1 in
    subst I (ok-injective e2) (new id now user_id supplier_id payload t _ fresh dated)
Reachable-induction I new move settle (by_advance user_id now target {r} reach e) =
    let (o, h, e1) = >>=-eq-ok (move_to user_id now target r.opportunity) _ e in
    let (by, at, same) = (move_to_lem user_id now target r.opportunity h).1 in
    let before : I r = Reachable-induction I new move settle reach in
    let log : List AuditEntry = (advanced user_id target r o).audit_log in
    subst I (ok-injective e1) (
      subst (λ x. I (record r { opportunity = x; audit_log = log })) (sym same)
        (move target by at r log before))
Reachable-induction I new move settle (by_confirmation user_id now savings {r} reach e) =
    let (_, e1) = raise_if-ok (not (is_implementation r.opportunity.status)) _ e in
    let (ordered, e2) =
      raise_if-ok (ltb savings.effective_period_end savings.effective_period_start) _ e1 in
    subst I (ok-injective e2) (
      settle user_id now savings r _ (ltb-false→le _ _ ordered)
        (Reachable-induction I new move settle reach))
