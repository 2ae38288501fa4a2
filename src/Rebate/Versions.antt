-- ===== src/Rebate/Versions.antt =====
-- The expected-amount events and the alerts that backend/app/services/rebate_service.py writes.
use procure_foundation.Prelude.{
  ℕ, suc, ◌≡◌, ◌≤◌, ◌==◌, Option, none, some, List, [], ◌∷◌, length, false, refl, sym, subst, ap,
  arith,
}
use Prim.Native.String.{String}
use procure_foundation.Result.{ok, >>=-eq-ok, ok-injective}
use procure_foundation.Rebate.Model.{
  Ledger, RebateAgreement, ExpectedAmount, ExpectedAmountEvent, RebateAuditEntry,
  RebateChangeReference, rebate_period_actual_created,
}
use procure_foundation.Rebate.Service.{
  RebatePeriodActualCreate, max_event_version, old_expected, write_expected_amount_event,
  record_period_actual, recalculate_expected, fresh_ledger, status_calculated,
}
use procure_foundation.Rebate.Steps.{
  Step, by_ingestion, by_recalculation, by_alert_check, by_close, by_receipt, SameEvents,
  close_period-ok, record_receipt-ok, recalculate_expected-ok, check_threshold_alert-ok,
}

-- What the recording of a period and the operations on it reach.
pub data Reachable : Ledger → Type 0 where
  by_recording :
      (a : RebateAgreement) (id event_id now user_id : ℕ) (payload : RebatePeriodActualCreate)
      (log : List RebateAuditEntry) {l : Ledger}
      → record_period_actual a id event_id now user_id payload log ≡ ok l
      → Reachable l
  by_step : {l s : Ledger} → Reachable l → Step l s → Reachable s

abbrev Events : Type 0
Events = List ExpectedAmountEvent

-- Newest first, the versions count down to 1.
abbrev pub IsNumbered : Events → Type 0
IsNumbered [] = Unit
IsNumbered (e ∷ es) = (e.event_version ≡ suc (length es)) × IsNumbered es

abbrev pub newest : Events → Option ExpectedAmount
newest [] = none
newest (e ∷ es) = some e.new

-- Each event records as its old state the new state of the one before it, the first none.
abbrev pub IsChained : Events → Type 0
IsChained [] = Unit
IsChained (e ∷ es) = (e.old ≡ newest es) × IsChained es

abbrev pub IsNewest : Events → ExpectedAmount → Option ℕ → Type 0
IsNewest [] s id = ⊥
IsNewest (e ∷ es) s id = (e.new ≡ s) × (some e.id ≡ id)

abbrev pub IsVersioned : Ledger → Type 0
IsVersioned l =
    IsNumbered l.events
    × IsChained l.events
    × IsNewest l.events l.period.expected l.period.expected_amount_current_event_id
    × (length l.alerts ≤ 1)

max_event_version-length : (es : Events) → IsNumbered es → max_event_version es ≡ length es
unfolding max_event_version
max_event_version-length [] n = refl
max_event_version-length (e ∷ es) n = ground (arith, n.0, max_event_version-length es n.1)

-- A later event records the columns of the row, which repeat the newest event.
old_expected-later :
    (es : Events) (s : ExpectedAmount) (id : Option ℕ)
    → IsNumbered es
    → IsNewest es s id
    → old_expected (suc (max_event_version es) == 1) s ≡ newest es
old_expected-later [] s id n h = absurd h
old_expected-later (e ∷ es) s id n h =
    let later : (suc (max_event_version (e ∷ es)) == 1) ≡ false =
      rw (max_event_version-length (e ∷ es) n) (ground arith) in
    rw later (sym (ap some h.0))

write-IsVersioned :
    (now later : ℕ) (new : ExpectedAmount) (actor : Option ℕ) (reference : RebateChangeReference)
    (reason : String) (l : Ledger)
    → IsVersioned l
    → IsVersioned
        (status_calculated later (write_expected_amount_event now new actor reference reason l))
unfolding write_expected_amount_event
write-IsVersioned now later new actor reference reason l (n, c, h, once) = (
  (ap suc (max_event_version-length l.events n), n),
  (old_expected-later l.events _ _ n h, c),
  (refl, refl),
  once,
)

same-IsVersioned :
    (l s : Ledger)
    → SameEvents l s
    → (length l.alerts ≤ 1 → length s.alerts ≤ 1)
    → IsVersioned l
    → IsVersioned s
same-IsVersioned l s (expected, id, events) alerts (n, c, h, once) =
    rw (expected, id, events) (n, c, h, alerts once)

Step-IsVersioned : {l s : Ledger} → Step l s → IsVersioned l → IsVersioned s
Step-IsVersioned (by_ingestion spend volume) v = v
Step-IsVersioned {l} (by_recalculation a now actor reference reason e) v =
    let (amount, same) = recalculate_expected-ok a now actor reference reason l e in
    subst IsVersioned same (write-IsVersioned now now _ actor reference reason l v)
Step-IsVersioned {l} {s} (by_alert_check a today e) v =
    let (row, events, alerts) = check_threshold_alert-ok a today l e in
    same-IsVersioned l s
      (ap (λ x. x.expected) row, ap (λ x. x.expected_amount_current_event_id) row, events) alerts v
Step-IsVersioned {l} {s} (by_close user_id now today e) v =
    let (_, _, same, alerts, _) = close_period-ok user_id now today l e in
    same-IsVersioned l s same (λ h. rw alerts h) v
Step-IsVersioned {l} {s} (by_receipt user_id now amount reference result e) v =
    let (same, alerts, _) = record_receipt-ok user_id now amount reference l e in
    same-IsVersioned l s same (λ h. rw alerts h) v

-- In every ledger that the recording of a period, ingestions, recalculations, alert checks, closes
-- and receipts reach: the versions of the expected-amount events count up from 1 without a gap, the
-- first has no old state, every later one has as its old state the new state of the event before,
-- the columns of the period hold the state and the key of the newest event, of which there is one,
-- and the threshold alert has fired at most once.
pub Reachable-events : (l : Ledger) → Reachable l → IsVersioned l
unfolding record_period_actual write_expected_amount_event
Reachable-events l (by_recording a id event_id now user_id payload log e) =
    let fresh = fresh_ledger id event_id user_id payload log in
    let reference = rebate_period_actual_created id in
    let (s, e1, e2) =
      >>=-eq-ok (recalculate_expected a now (some user_id) reference "manual_estimate" fresh) _ e in
    let (amount, same) =
      recalculate_expected-ok a now (some user_id) reference "manual_estimate" fresh e1 in
    subst IsVersioned (ok-injective e2)
      (subst IsVersioned same ((refl, tt), (refl, tt), (refl, refl), omega arith))
Reachable-events l (by_step reach step) = Step-IsVersioned step (Reachable-events _ reach)
