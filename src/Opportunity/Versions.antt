-- ===== src/Opportunity/Versions.antt =====
-- The events of a measure: their versions, what each records of its predecessor, and the columns
-- of the opportunity that repeat the newest.
use procure_foundation.Prelude.{
  ℕ, suc, ◌≡◌, ◌⊎◌, inl, inr, true, false, Option, none, some, List, [], ◌∷◌, length, refl, sym, ap,
  ◌==◌, arith,
}
use Prim.Native.String.{String}
use procure_foundation.Opportunity.Model.{
  ChangeReference, current, opportunity_created, given, AuditEntry, MeasureCode,
  annual_financial_impact, realised_savings, Opportunity, Snapshot, FinancialAmountStatusEvent,
  Register,
}
use procure_foundation.Opportunity.Service.{
  genesis, confirm_savings, first_impact, OpportunityCreate, Tables, new_opportunity,
  unknown_amount, confirmed_amount,
}
use procure_foundation.Opportunity.Events.{
  events_of, max_version, set_current, old_of, next_event_id, write_opportunity_measure_event,
  eq_measure,
}
use procure_foundation.Opportunity.Steps.{Reachable, Reachable-induction, IsFresh}
use procure_foundation.Decimal.{Decimal}
use procure_foundation.Calendar.{Date}

abbrev Events : Type 0
Events = List FinancialAmountStatusEvent

abbrev pub current_event_id : MeasureCode → Opportunity → Option ℕ
current_event_id annual_financial_impact o = o.annual_financial_impact_current_event_id
current_event_id realised_savings o = o.realised_savings_current_event_id

-- Newest first, the versions count down to 1.
abbrev pub IsNumbered : Events → Type 0
IsNumbered [] = Unit
IsNumbered (e ∷ es) = (e.event_version ≡ suc (length es)) × IsNumbered es

abbrev pub newest : Events → Option Snapshot
newest [] = none
newest (e ∷ es) = some e.new

-- The old state of an event is the new state of the one before it, and the first has none.
abbrev pub IsChained : Events → Type 0
IsChained [] = Unit
IsChained (e ∷ es) = (e.old ≡ newest es) × IsChained es

-- The newest event has this state and this key.
abbrev pub IsNewest : Events → Snapshot → Option ℕ → Type 0
IsNewest [] s id = ⊥
IsNewest (e ∷ es) s id = (e.new ≡ s) × (some e.id ≡ id)

abbrev pub IsVersioned : MeasureCode → Register → Type 0
IsVersioned m r =
    let es = events_of r.opportunity.id m r.events in
    IsNumbered es
    × IsChained es
    × IsNewest es (current m r.opportunity) (current_event_id m r.opportunity)

max_version-length : (es : Events) → IsNumbered es → max_version es ≡ length es
unfolding max_version
max_version-length [] n = refl
max_version-length (e ∷ es) n = ground (arith, n.0, max_version-length es n.1)

-- A new event records the newest one as its predecessor.
old_of-newest :
    (es : Events) (s : Snapshot)
    → IsNumbered es
    → (es ≡ []) ⊎ (newest es ≡ some s)
    → old_of (suc (max_version es) == 1) s ≡ newest es
unfolding max_version
old_of-newest [] s n c = refl
old_of-newest (e ∷ es) s n (inl h) = cc
old_of-newest (e ∷ es) s n (inr h) =
    let later : (suc (max_version (e ∷ es)) == 1) ≡ false =
      rw (max_version-length (e ∷ es) n) (ground arith) in
    rw later (sym h)

eq_refl : (n : ℕ) → (n == n) ≡ true
eq_refl n = ground arith

eq_measure_refl : (m : MeasureCode) → eq_measure m m ≡ true
eq_measure_refl annual_financial_impact = refl
eq_measure_refl realised_savings = refl

-- The impact has no approval and no end of its period.
abbrev Fits : MeasureCode → Snapshot → Type 0
Fits annual_financial_impact s =
    (s.approved_at ≡ none) × (s.approved_by_user_id ≡ none) × (s.effective_period_end ≡ none)
Fits realised_savings s = Unit

current-set_current :
    (m : MeasureCode) (s : Snapshot) (id : ℕ) (o : Opportunity)
    → Fits m s
    → s ≡ current m (set_current m s id o)
current-set_current annual_financial_impact s id o (a, b, c) =
    λ i. record s { approved_at = a i; approved_by_user_id = b i; effective_period_end = c i }
current-set_current realised_savings s id o fits = refl

abbrev IsReady : MeasureCode → Register → Type 0
IsReady m r =
    let es = events_of r.opportunity.id m r.events in
    IsNumbered es × IsChained es × ((es ≡ []) ⊎ (newest es ≡ some (current m r.opportunity)))

module _ (now : ℕ) (new : Snapshot) (actor : Option ℕ) (reference : ChangeReference)
    (reason : String) where
  write-IsVersioned :
      (m : MeasureCode) (r : Register)
      → Fits m new
      → IsReady m r
      → IsVersioned m (write_opportunity_measure_event now m new actor reference reason r)
  unfolding write_opportunity_measure_event
  write-IsVersioned annual_financial_impact r fits (n, c, last) =
      let es = events_of r.opportunity.id annual_financial_impact r.events in
      let same =
        current-set_current annual_financial_impact new (next_event_id r) r.opportunity fits in
      rw (eq_refl r.opportunity.id)
        ((ap suc (max_version-length es n), n), (old_of-newest es _ n last, c), (same, refl))
  write-IsVersioned realised_savings r fits (n, c, last) =
      let es = events_of r.opportunity.id realised_savings r.events in
      rw (eq_refl r.opportunity.id)
        ((ap suc (max_version-length es n), n), (old_of-newest es _ n last, c), (refl, refl))

  -- An event of one measure leaves the other alone.
  write-other :
      (r : Register)
      → let written =
          λ (m : MeasureCode). write_opportunity_measure_event now m new actor reference reason r in
        (IsVersioned realised_savings r
          → IsVersioned realised_savings (written annual_financial_impact))
        × (IsReady realised_savings r → IsReady realised_savings (written annual_financial_impact))
        × (IsVersioned annual_financial_impact r
            → IsVersioned annual_financial_impact (written realised_savings))
  unfolding write_opportunity_measure_event
  write-other r =
      let same = eq_refl r.opportunity.id in (λ v. rw same v, λ v. rw same v, λ v. rw same v)

IsNewest-newest :
    (es : Events) (s : Snapshot) (id : Option ℕ) → IsNewest es s id → newest es ≡ some s
IsNewest-newest [] s id h = absurd h
IsNewest-newest (e ∷ es) s id h = ap some h.0

IsVersioned-IsReady : (m : MeasureCode) (r : Register) → IsVersioned m r → IsReady m r
IsVersioned-IsReady m r (n, c, h) = (n, c, inr (IsNewest-newest _ _ _ h))

IsFresh-IsReady :
    (m : MeasureCode) (r : Register) → events_of r.opportunity.id m r.events ≡ [] → IsReady m r
IsFresh-IsReady m r h = rw h (tt, tt, inl refl)

AreVersioned : Register → Type 0
AreVersioned r = IsVersioned annual_financial_impact r × IsVersioned realised_savings r

first_impact-Fits :
    (amount : Option Decimal) (from : Option Date)
    → Fits annual_financial_impact (first_impact amount from)
first_impact-Fits none from = (refl, refl, refl)
first_impact-Fits (some a) from = (refl, refl, refl)

genesis-AreVersioned :
    (id now user_id : ℕ) (supplier_id : Option ℕ) (payload : OpportunityCreate) (t : Tables)
    (log : List AuditEntry)
    → IsFresh id t
    → AreVersioned (record (genesis id now user_id supplier_id payload t) { audit_log = log })
unfolding AreVersioned genesis
genesis-AreVersioned id now user_id supplier_id payload t log fresh =
    let impact =
      first_impact payload.annual_financial_impact payload.annual_financial_impact_effective_from in
    let added : Register = record {
      opportunity = new_opportunity id now user_id supplier_id payload;
      events = t.events;
      evidence = t.evidence;
      audit_log = t.audit_log;
    } in
    let ready = λ (m : MeasureCode). IsFresh-IsReady m added (fresh m) in
    let reference = opportunity_created id in
    let first =
      write_opportunity_measure_event now annual_financial_impact impact (some user_id) reference
        "manual_estimate" added in
    let before = write-other now impact (some user_id) reference "manual_estimate" added in
    let after = write-other now unknown_amount (some user_id) reference "manual_estimate" first in
    (
      after.2 (
          write-IsVersioned now impact (some user_id) reference "manual_estimate"
            annual_financial_impact added (first_impact-Fits _ _) (ready annual_financial_impact)),
      write-IsVersioned now unknown_amount (some user_id) reference "manual_estimate"
          realised_savings first tt (before.1 (ready realised_savings)),
    )

-- In every register that creation, advances and confirmations reach, for each of the two measures:
-- the versions of its events count up from 1 without a gap, the first event has no old state, every
-- later one has as its old state the new state of the event before, and the columns of the
-- opportunity hold the state and the key of the newest event, of which there is one.
pub Reachable-IsVersioned :
    (r : Register)
    → Reachable r
    → IsVersioned annual_financial_impact r × IsVersioned realised_savings r
unfolding AreVersioned
Reachable-IsVersioned r reach =
    Reachable-induction AreVersioned
      (λ id now user_id supplier_id payload t log fresh _.
        genesis-AreVersioned id now user_id supplier_id payload t log fresh)
      (λ target by at s log before. before)
      (λ user_id now savings s log _ before.
        unfold confirm_savings in
        let new = confirmed_amount user_id now savings in
        let reference = given savings.change_reference in
        (
          (write-other now new (some user_id) reference "evidence_received" s).2 before.0,
          write-IsVersioned now new (some user_id) reference "evidence_received" realised_savings s
              tt (IsVersioned-IsReady realised_savings s before.1),
        ))
      reach
