-- ===== src/Rebate/Steps.antt =====
-- The operations of backend/app/services/rebate_service.py on a period as steps, and what each
-- of them changes.
use procure_foundation.Prelude.{
  ℕ, ◌≡◌, ◌∙◌, ◌≤◌, ◌==◌, arith, List, length, Bool, true, false, not, Bool-cases, inl, inr, Option,
  none, some, refl, sym, ap,
}
use procure_foundation.Prelude.Int.{pos}
use Prim.Native.String.{String}
use procure_foundation.Result.{Result, ok, conflict, raise_if, ◌>>◌, >>=-eq-ok, ok-injective}
use procure_foundation.Decimal.{Decimal}
use procure_foundation.Calendar.{Date}
use procure_foundation.Rebate.Model.{
  RebateAgreement, RebatePeriodActual, RebateChangeReference, LeakageResult, Ledger,
  RebateAuditEntry,
}
use procure_foundation.Rebate.{
  is_period_due_for_close, RebateStatus, RebateBand, is_threshold_alert_due, default_buffer_pct,
}
use procure_foundation.Rebate.Service.{
  recalculate_expected, check_threshold_alert, refresh_status, is_closed, close_period, received,
  record_receipt, classified, is_insufficient, earned, leakage_of, status_calculated,
  write_expected_amount_event, recalculated, compute_expected_amount, fire_alert, alert_if_due,
  bands_from_agreement,
}

-- One operation on the period. The aggregation of invoices or transactions sets the actual spend and
-- volume; here it may do so in a closed period too.
pub data Step (l : Ledger) : Ledger → Type 0 where
  by_ingestion :
      (spend volume : Option Decimal)
      → Step l
          (record l { period = record (l.period) { actual_spend = spend; actual_volume = volume } })
  by_recalculation :
      (a : RebateAgreement) (now : ℕ) (actor : Option ℕ) (reference : RebateChangeReference)
      (reason : String) {s : Ledger}
      → recalculate_expected a now actor reference reason l ≡ ok s
      → Step l s
  by_alert_check :
      (a : RebateAgreement) (today : Date) {s : Ledger}
      → check_threshold_alert a today l ≡ ok s
      → Step l s
  by_close :
      (user_id : Option ℕ) (now : ℕ) (today : Date) {s : Ledger}
      → close_period user_id now today l ≡ ok s
      → Step l s
  by_receipt :
      (user_id now : ℕ) (received : Decimal) (reference : Option String) (result : LeakageResult)
      {s : Ledger}
      → record_receipt user_id now received reference l ≡ ok (s, result)
      → Step l s

refused_if :
    {A : Type 0} (b : Bool) (k : Result A) {r : A}
    → (raise_if b conflict >> k) ≡ ok r
    → (b ≡ false) × (k ≡ ok r)
refused_if false k e = (refl, e)
refused_if true k e = cc

-- A refresh changes the status alone.
pub refresh_status-ok :
    (now : ℕ) (closed : Bool) (p : RebatePeriodActual) {q : RebatePeriodActual}
    → refresh_status now closed p ≡ ok q
    → (status : RebateStatus) × (record p { status = status; status_calculated_at = some now } ≡ q)
unfolding refresh_status
refresh_status-ok now closed p e =
    let (status, _, e1) = >>=-eq-ok (classified (is_insufficient p.expected.status) p closed) _ e in
    (status, ok-injective e1)

-- What no operation but a recalculation changes.
abbrev pub SameEvents : Ledger → Ledger → Type 0
SameEvents l s =
    (s.period.expected ≡ l.period.expected)
    × (s.period.expected_amount_current_event_id ≡ l.period.expected_amount_current_event_id)
    × (s.events ≡ l.events)

-- A ledger whose period is that of a refresh.
keeps :
    (now : ℕ) (p : RebatePeriodActual) (l : Ledger) {q : RebatePeriodActual} {status : RebateStatus}
    {log : List RebateAuditEntry} {s : Ledger}
    → record p { status = status; status_calculated_at = some now } ≡ q
    → record l { period = q; audit_log = log } ≡ s
    → SameEvents (record l { period = p }) s
      × (s.alerts ≡ l.alerts)
      × (s.period.earned_amount ≡ p.earned_amount)
keeps now p l same_row same = (
  (
    sym (ap (λ x. x.period.expected) same) ∙ sym (ap (λ x. x.expected) same_row),
    sym (ap (λ x. x.period.expected_amount_current_event_id) same)
        ∙ sym (ap (λ x. x.expected_amount_current_event_id) same_row),
    sym (ap (λ x. x.events) same),
  ),
  sym (ap (λ x. x.alerts) same),
  sym (ap (λ x. x.period.earned_amount) same) ∙ sym (ap (λ x. x.earned_amount) same_row),
)

-- A close that succeeds finds the period due and not closed, and earns what was expected.
pub close_period-ok :
    (user_id : Option ℕ) (now : ℕ) (today : Date) (l : Ledger) {s : Ledger}
    → close_period user_id now today l ≡ ok s
    → (is_period_due_for_close l.period.period_end today ≡ true)
      × (is_closed l.period ≡ false)
      × SameEvents l s
      × (s.alerts ≡ l.alerts)
      × (s.period.earned_amount ≡ l.period.expected.amount)
unfolding close_period
close_period-ok user_id now today l e =
    let (due, e1) = refused_if (not (is_period_due_for_close l.period.period_end today)) _ e in
    let (unclosed, e2) = refused_if (is_closed l.period) _ e1 in
    let row = earned now l.period in
    let (p, e3, e4) = >>=-eq-ok (refresh_status now true row) _ e2 in
    let kept = keeps now row l (refresh_status-ok now true row e3).1 (ok-injective e4) in
    (ground arith, unclosed, kept.0, kept.1, kept.2)

pub record_receipt-ok :
    (user_id now : ℕ) (amount : Decimal) (reference : Option String) (l : Ledger) {s : Ledger}
    {result : LeakageResult}
    → record_receipt user_id now amount reference l ≡ ok (s, result)
    → SameEvents l s × (s.alerts ≡ l.alerts) × (s.period.earned_amount ≡ l.period.earned_amount)
unfolding record_receipt
record_receipt-ok user_id now amount reference l e =
    let row = received amount reference l.period in
    let closed = is_closed l.period in
    let (p, e1, e2) = >>=-eq-ok (refresh_status now closed row) _ e in
    let (_, _, e3) =
      >>=-eq-ok (leakage_of (is_insufficient p.expected.status) p.expected.amount amount) _ e2 in
    keeps now row l (refresh_status-ok now closed row e1).1 (ap (λ x. x.0) (ok-injective e3))

pub recalculate_expected-ok :
    (a : RebateAgreement) (now : ℕ) (actor : Option ℕ) (reference : RebateChangeReference)
    (reason : String) (l : Ledger) {s : Ledger}
    → recalculate_expected a now actor reference reason l ≡ ok s
    → (amount : Option Decimal) × (status_calculated now
          (write_expected_amount_event now (recalculated now amount) actor reference reason l)
        ≡ s)
unfolding recalculate_expected
recalculate_expected-ok a now actor reference reason l e =
    let (amount, _, e1) = >>=-eq-ok (compute_expected_amount a l.period) _ e in
    (amount, ok-injective e1)

fire_alert_lem :
    (today : Date) (due : Bool) (l : Ledger)
    → ((fire_alert today due l).period ≡ l.period)
      × ((fire_alert today due l).events ≡ l.events)
      × (length l.alerts ≤ 1 → length (fire_alert today due l).alerts ≤ 1)
unfolding fire_alert
fire_alert_lem today false l = (refl, refl, λ h. h)
fire_alert_lem today true l = elim (Bool-cases (length l.alerts == 0)) [
  | inl e ↦ rw e (refl, refl, λ h. ground arith)
  | inr e ↦ rw e (refl, refl, λ h. h)
]

alert_if_due-ok :
    (today : Date) (bands : Option (List RebateBand)) (spend : Option Decimal) (l : Ledger)
    {s : Ledger}
    → alert_if_due today bands spend l ≡ ok s
    → (s.period ≡ l.period) × (s.events ≡ l.events) × (length l.alerts ≤ 1 → length s.alerts ≤ 1)
alert_if_due-ok today none spend l e = rw (sym (ok-injective e)) (refl, refl, λ h. h)
alert_if_due-ok today (some bands) none l e = rw (sym (ok-injective e)) (refl, refl, λ h. h)
alert_if_due-ok today (some bands) (some spend) l e =
    let (due, _, e1) =
      >>=-eq-ok
        (is_threshold_alert_due spend bands today l.period.period_end default_buffer_pct (pos 30)) _
        e in
    rw (sym (ok-injective e1)) (fire_alert_lem today due l)

pub check_threshold_alert-ok :
    (a : RebateAgreement) (today : Date) (l : Ledger) {s : Ledger}
    → check_threshold_alert a today l ≡ ok s
    → (s.period ≡ l.period) × (s.events ≡ l.events) × (length l.alerts ≤ 1 → length s.alerts ≤ 1)
unfolding check_threshold_alert
check_threshold_alert-ok a today l e =
    alert_if_due-ok today (bands_from_agreement a) l.period.actual_spend l e
