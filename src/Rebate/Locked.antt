-- ===== src/Rebate/Locked.antt =====
-- What the close of backend/app/services/rebate_service.py locks, and what it does not.
use procure_foundation.Prelude.{
  ℕ, ◌≡◌, ◌∙◌, true, false, Bool-cases, inl, inr, Option, none, some, refl, sym, ap,
}
use procure_foundation.Result.{ok, err, conflict}
use procure_foundation.Decimal.{Decimal}
use procure_foundation.Calendar.{Date}
use procure_foundation.Rebate.Model.{Ledger}
use procure_foundation.Rebate.{is_period_due_for_close}
use procure_foundation.Rebate.Service.{
  is_closed, is_insufficient, close_period, refresh_status, write_expected_amount_event,
}
use procure_foundation.Rebate.Steps.{
  Step, by_ingestion, by_recalculation, by_alert_check, by_close, by_receipt, close_period-ok,
  record_receipt-ok, recalculate_expected-ok, check_threshold_alert-ok,
}

-- Operations one after another.
pub data Steps (l : Ledger) : Ledger → Type 0 where
  none_yet : Steps l l
  then : {s t : Ledger} → Steps l s → Step s t → Steps l t

Step-locked :
    {l s : Ledger} {earned : Decimal}
    → Step l s
    → l.period.earned_amount ≡ some earned
    → s.period.earned_amount ≡ some earned
unfolding write_expected_amount_event
Step-locked (by_ingestion spend volume) h = h
Step-locked {l} (by_recalculation a now actor reference reason e) h =
    sym (
      ap (λ x. x.period.earned_amount) (recalculate_expected-ok a now actor reference reason l e).1)
    ∙ h
Step-locked {l} (by_alert_check a today e) h =
    ap (λ x. x.earned_amount) (check_threshold_alert-ok a today l e).0 ∙ h
Step-locked {l} (by_close user_id now today e) h =
    let unclosed = (close_period-ok user_id now today l e).1 in
    let closed : is_closed l.period ≡ true = rw h refl in cc
Step-locked {l} (by_receipt user_id now amount reference result e) h =
    (record_receipt-ok user_id now amount reference l e).2 ∙ h

Steps-locked :
    {l s : Ledger} {earned : Decimal}
    → Steps l s
    → l.period.earned_amount ≡ some earned
    → s.period.earned_amount ≡ some earned
Steps-locked none_yet h = h
Steps-locked (then before step) h = Step-locked step (Steps-locked before h)

close_period-refused :
    (user_id : Option ℕ) (now : ℕ) (today : Date) (l : Ledger)
    → is_closed l.period ≡ true
    → close_period user_id now today l ≡ err conflict
unfolding close_period
close_period-refused user_id now today l closed =
    rw closed (elim (Bool-cases (is_period_due_for_close l.period.period_end today)) [
      | inl due ↦ rw due refl
      | inr early ↦ rw early refl
    ])

-- Once a close has succeeded on a period whose expected amount was known, the period has earned
-- that amount; no sequence of ingestions, recalculations, alert checks, receipts and closes
-- changes it, and after each such sequence every close is refused.
pub close_period-locks :
    (user_id : Option ℕ) (now : ℕ) (today : Date) (l : Ledger) {s t : Ledger} {expected : Decimal}
    → l.period.expected.amount ≡ some expected
    → close_period user_id now today l ≡ ok s
    → Steps s t
    → (t.period.earned_amount ≡ some expected)
      × ((other : Option ℕ) (later : ℕ) (day : Date)
          → close_period other later day t ≡ err conflict)
close_period-locks user_id now today l {s} {t} known e steps =
    let (_, _, _, _, earned) = close_period-ok user_id now today l e in
    let kept = Steps-locked steps (earned ∙ known) in
    (kept, λ other later day. close_period-refused other later day t (rw kept refl))

-- The period is due, has earned nothing, and nothing is known of what to expect.
abbrev pub IsUnknown : Date → Ledger → Type 0
IsUnknown today l =
    (is_period_due_for_close l.period.period_end today ≡ true)
    × (l.period.earned_amount ≡ none)
    × (l.period.expected.amount ≡ none)
    × (is_insufficient l.period.expected.status ≡ true)

closes-IsUnknown :
    (user_id : Option ℕ) (now : ℕ) (today : Date) (l : Ledger)
    → IsUnknown today l
    → (s : Ledger) × (close_period user_id now today l ≡ ok s) × IsUnknown today s
unfolding close_period refresh_status
closes-IsUnknown user_id now today l (due, unearned, unknown, insufficient) =
    rw (due, unearned, unknown, insufficient) (_, refl, (due, refl, refl, insufficient))

-- Where the expected amount is unknown and its status says so, a period that is due and has earned
-- nothing is closed without an error and still has earned nothing: it counts as not closed, and it
-- can be closed again on the same day.
pub close_period-unknown :
    (user_id other : Option ℕ) (now later : ℕ) (today : Date) (l : Ledger)
    → IsUnknown today l
    → (s : Ledger) × (close_period user_id now today l ≡ ok s)
      × (is_closed s.period ≡ false)
      × ((t : Ledger) × (close_period other later today s ≡ ok t))
close_period-unknown user_id other now later today l h =
    let (s, e, still) = closes-IsUnknown user_id now today l h in
    let (t, again, _) = closes-IsUnknown other later today s still in
    (s, e, rw (still.1) refl, (t, again))
