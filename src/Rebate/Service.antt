-- ===== src/Rebate/Service.antt =====
-- backend/app/services/rebate_service.py: the period of a rebate agreement, the versioned events of
-- its expected amount, the threshold alert, the close and the receipt.
use Prim.Native.String.{String}
use procure_foundation.Prelude.{
  ℕ, suc, Bool, true, false, not, ◌||◌, ◌==◌, Option, none, some, List, [], ◌∷◌, length, ltb,
  if◌then◌else◌,
}
use procure_foundation.Prelude.Int.{pos}
use procure_foundation.Result.{Result, ok, err, conflict, invalid_operation, raise_if, ◌>>=◌, ◌>>◌}
use procure_foundation.Decimal.{Decimal}
use procure_foundation.Calendar.{Date}
use procure_foundation.Opportunity.Model.{AmountStatus, unknown, legacy_unverified, calculated}
use procure_foundation.Rebate.Model.{
  RebateAgreement, ExpectedAmount, RebatePeriodActual, RebateChangeReference, ExpectedAmountEvent,
  LeakageResult, RebateAuditEntry, Ledger, rebate_period_actual_created, diagnostic, leakage,
  no_context, manual_entry, earned_context, receipt_context,
}
use procure_foundation.Rebate.{
  RebateStatus, RebateBand, default_buffer_pct, calculate_expected_rebate,
  calculate_progress_to_next_tier, calculate_rebate_leakage, is_threshold_alert_due,
  classify_rebate_status, is_period_due_for_close,
}

-- `func.max(event_version)`, with 0 for no row.
unfoldable pub max_event_version : List ExpectedAmountEvent → ℕ
max_event_version [] = 0
max_event_version (e ∷ es) =
    let rest = max_event_version es in if ltb rest e.event_version then e.event_version else rest

-- `None if is_genesis else ...`
abbrev pub old_expected : Bool → ExpectedAmount → Option ExpectedAmount
old_expected true s = none
old_expected false s = some s

unfoldable pub write_expected_amount_event :
    ℕ → ExpectedAmount → Option ℕ → RebateChangeReference → String → Ledger → Ledger
unfolding max_event_version
write_expected_amount_event now new actor reference reason l =
    let next_version = suc (max_event_version l.events) in
    record l {
      period = record (l.period) {
        expected = new;
        expected_amount_current_event_id = some l.next_event_id;
      };
      events =
          record {
            id = l.next_event_id;
            rebate_period_actual_id = l.period.id;
            event_version = next_version;
            old = old_expected (next_version == 1) l.period.expected;
            new = new;
            actor_user_id = actor;
            occurred_at = now;
            change_reference = reference;
            change_reason_code = reason;
          }
          ∷ l.events;
      next_event_id = suc l.next_event_id;
    }

-- `if not agreement.bands: return None`
abbrev pub non_empty : Option (List RebateBand) → Option (List RebateBand)
non_empty none = none
non_empty (some []) = none
non_empty (some (b ∷ bs)) = some (b ∷ bs)

abbrev pub bands_from_agreement : RebateAgreement → Option (List RebateBand)
bands_from_agreement a = non_empty a.bands

abbrev expected_for : RebateAgreement → Option Decimal → Result (Option Decimal)
expected_for a none = ok none
expected_for a (some spend) = do
  amount ←
      calculate_expected_rebate spend a.rebate_type a.flat_rate_pct (bands_from_agreement a)
        a.fixed_amount
  ok (some amount)

abbrev pub compute_expected_amount : RebateAgreement → RebatePeriodActual → Result (Option Decimal)
compute_expected_amount a p = expected_for a p.actual_spend

-- The arguments of the event of a recalculation.
abbrev pub recalculated : ℕ → Option Decimal → ExpectedAmount
recalculated now none = record {
  amount = none;
  status = unknown;
  source_basis = none;
  calculated_at = none;
  approved_at = none;
  approved_by_user_id = none;
}
recalculated now (some a) = record {
  amount = some a;
  status = calculated;
  source_basis = some "contract_terms_calculation";
  calculated_at = some now;
  approved_at = none;
  approved_by_user_id = none;
}

abbrev pub status_calculated : ℕ → Ledger → Ledger
status_calculated now l = record l {
  period = record (l.period) { status_calculated_at = some now };
}

unfoldable pub recalculate_expected :
    RebateAgreement → ℕ → Option ℕ → RebateChangeReference → String → Ledger → Result Ledger
unfolding write_expected_amount_event
recalculate_expected agreement now actor reference reason l = do
  new_amount ← compute_expected_amount agreement l.period
  ok (
      status_calculated now
        (write_expected_amount_event now (recalculated now new_amount) actor reference reason l))

abbrev pub audit_entry : RebateAuditEntry → Ledger → Ledger
audit_entry entry l = record l { audit_log = entry ∷ l.audit_log }

pub record RebatePeriodActualCreate : Type 0 where
  pub period_start : Date
  pub period_end : Date
  pub actual_spend : Decimal
  pub actual_volume : Option Decimal

-- The inserted row: its expected amount is a placeholder until the first event.
abbrev pub inserted : ℕ → ℕ → RebatePeriodActualCreate → RebatePeriodActual
inserted id user_id payload = record {
  id = id;
  period_start = payload.period_start;
  period_end = payload.period_end;
  actual_spend = some payload.actual_spend;
  actual_volume = payload.actual_volume;
  entered_by_user_id = some user_id;
  expected = recalculated 0 none;
  expected_amount_current_event_id = none;
  earned_amount = none;
  earned_at = none;
  received_amount = none;
  received_reference = none;
  status = RebateStatus.on_track;
  status_calculated_at = none;
}

-- A new row has no events and no alerts.
abbrev pub fresh_ledger : ℕ → ℕ → ℕ → RebatePeriodActualCreate → List RebateAuditEntry → Ledger
fresh_ledger id event_id user_id payload log = record {
  period = inserted id user_id payload;
  events = [];
  next_event_id = event_id;
  alerts = [];
  audit_log = log;
}

unfoldable pub record_period_actual :
    RebateAgreement
    → ℕ
    → ℕ
    → ℕ
    → ℕ
    → RebatePeriodActualCreate
    → List RebateAuditEntry
    → Result Ledger
unfolding recalculate_expected
record_period_actual agreement id event_id now user_id payload log = do
  l ←
      recalculate_expected agreement now (some user_id) (rebate_period_actual_created id)
        "manual_estimate" (fresh_ledger id event_id user_id payload log)
  ok (
      audit_entry
        (record {
          user_id = some user_id;
          action = "rebate_period_actual_recorded";
          entity_id = id;
          context = manual_entry;
        })
        l)

-- The tests after `due`: at most one alert per period.
unfoldable pub fire_alert : Date → Bool → Ledger → Ledger
fire_alert today due l =
    if not due || not (length l.alerts == 0)
    then l
    else audit_entry
        (record {
          user_id = none;
          action = "rebate_threshold_alert_fired";
          entity_id = l.period.id;
          context = no_context;
        })
        (record l {
          alerts =
              record { rebate_period_actual_id = l.period.id; trigger_date = today } ∷ l.alerts;
        })

abbrev pub alert_if_due : Date → Option (List RebateBand) → Option Decimal → Ledger → Result Ledger
alert_if_due today none spend l = ok l
alert_if_due today (some bands) none l = ok l
alert_if_due today (some bands) (some spend) l = do
  due ← is_threshold_alert_due spend bands today l.period.period_end default_buffer_pct (pos 30)
  ok (fire_alert today due l)

unfoldable pub check_threshold_alert : RebateAgreement → Date → Ledger → Result Ledger
unfolding fire_alert
check_threshold_alert agreement today l =
    alert_if_due today (bands_from_agreement agreement) l.period.actual_spend l

-- `expected_amount_status in ("unknown", "legacy_unverified")`
abbrev pub is_insufficient : AmountStatus → Bool
is_insufficient unknown = true
is_insufficient legacy_unverified = true
is_insufficient _ = false

-- `Decimal(str(None))` is a signal.
abbrev pub required_amount : Option Decimal → Result Decimal
required_amount none = err invalid_operation
required_amount (some a) = ok a

abbrev pub classified : Bool → RebatePeriodActual → Bool → Result RebateStatus
classified true p closed = ok p.status
classified false p closed = do
  expected ← required_amount p.expected.amount
  classify_rebate_status expected p.received_amount closed false

unfoldable pub refresh_status : ℕ → Bool → RebatePeriodActual → Result RebatePeriodActual
refresh_status now closed p = do
  status ← classified (is_insufficient p.expected.status) p closed
  ok (record p { status = status; status_calculated_at = some now })

-- `earned_amount is not None`
abbrev is_earned : Option Decimal → Bool
is_earned none = false
is_earned (some a) = true

abbrev pub is_closed : RebatePeriodActual → Bool
is_closed p = is_earned p.earned_amount

abbrev pub earned : ℕ → RebatePeriodActual → RebatePeriodActual
earned now p = record p { earned_amount = p.expected.amount; earned_at = some now }

unfoldable pub close_period : Option ℕ → ℕ → Date → Ledger → Result Ledger
unfolding refresh_status
close_period user_id now today l =
    raise_if (not (is_period_due_for_close l.period.period_end today)) conflict
    >> (raise_if (is_closed l.period) conflict
        >> (refresh_status now true (earned now l.period) >>= λ p. ok (
            audit_entry
              (record {
                user_id = user_id;
                action = "rebate_period_closed";
                entity_id = l.period.id;
                context = earned_context p.earned_amount;
              })
              (record l { period = p }))))

abbrev pub leakage_of : Bool → Option Decimal → Decimal → Result LeakageResult
leakage_of true expected received = ok diagnostic
leakage_of false expected received = do
  amount ← required_amount expected
  l ← calculate_rebate_leakage amount (some received)
  ok (leakage l)

abbrev pub received : Decimal → Option String → RebatePeriodActual → RebatePeriodActual
received amount reference p = record p {
  received_amount = some amount;
  received_reference = reference;
}

unfoldable pub record_receipt :
    ℕ → ℕ → Decimal → Option String → Ledger → Result (Ledger × LeakageResult)
unfolding refresh_status
record_receipt user_id now amount reference l = do
  p ← refresh_status now (is_closed l.period) (received amount reference l.period)
  result ← leakage_of (is_insufficient p.expected.status) p.expected.amount amount
  ok (
    audit_entry
        (record {
          user_id = some user_id;
          action = "rebate_receipt_recorded";
          entity_id = l.period.id;
          context = receipt_context amount result;
        })
        (record l { period = p }),
    result,
  )

progress_of : Option (List RebateBand) → Option Decimal → Result (Option (Decimal × Decimal))
progress_of none spend = ok none
progress_of (some bands) none = ok none
progress_of (some bands) (some spend) = calculate_progress_to_next_tier spend bands

-- `none` is the pair `None, None`.
pub get_derived_progress :
    RebateAgreement → RebatePeriodActual → Result (Option (Decimal × Decimal))
unfolding progress_of
get_derived_progress agreement p = progress_of (bands_from_agreement agreement) p.actual_spend
