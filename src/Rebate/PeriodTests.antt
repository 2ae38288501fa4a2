-- ===== src/Rebate/PeriodTests.antt =====
-- A rebate period recorded, closed and recalculated, and the theorems on it.
use procure_foundation.Prelude.{ℕ, ◌≡◌, refl, false, Option, none, some, [], ◌∷◌}
use procure_foundation.Result.{ok, err, conflict}
use procure_foundation.Decimal.{decimal, mul, round_currency}
use procure_foundation.Rebate.Model.{
  RebateAgreement, Ledger, earned_context, rebate_period_actual_created, given, manual_entry,
}
use procure_foundation.Rebate.{
  RebateType, RebateStatus, calculate_expected_rebate, classify_rebate_status,
  is_period_due_for_close,
}
use procure_foundation.Rebate.Service.{
  RebatePeriodActualCreate, fresh_ledger, recalculated, status_calculated,
  write_expected_amount_event, audit_entry, is_closed, record_period_actual, recalculate_expected,
  close_period,
}
use procure_foundation.Rebate.Steps.{by_ingestion, by_recalculation}
use procure_foundation.Rebate.Locked.{
  Steps, none_yet, then, IsUnknown, close_period-locks, close_period-unknown,
}
use procure_foundation.Rebate.Versions.{Reachable, by_recording, IsVersioned, Reachable-events}

-- 2% of the volume of purchases.
abbrev pub agreement : RebateAgreement
agreement = record {
  rebate_type = RebateType.volume;
  flat_rate_pct = some (decimal 2 2);
  bands = none;
  fixed_amount = none;
}

abbrev payload : RebatePeriodActualCreate
payload = record {
  period_start = 100;
  period_end = 130;
  actual_spend = decimal 6000 0;
  actual_volume = none;
}

abbrev pub recorded : Ledger
recorded =
    audit_entry
      (record {
        user_id = some 5;
        action = "rebate_period_actual_recorded";
        entity_id = 1;
        context = manual_entry;
      })
      (status_calculated 7 (
        write_expected_amount_event 7 (recalculated 7 (some (decimal 120 0))) (some 5)
          (rebate_period_actual_created 1) "manual_estimate" (fresh_ledger 1 40 5 payload [])))

records : record_period_actual agreement 1 40 7 5 payload [] ≡ ok recorded
unfolding record_period_actual calculate_expected_rebate mul decimal round_currency
records = refl

abbrev pub closed : Ledger
closed = record recorded {
  period = record (recorded.period) {
    earned_amount = some (decimal 120 0);
    earned_at = some 8;
    status = RebateStatus.period_closed_awaiting_payment;
    status_calculated_at = some 8;
  };
  audit_log =
      record {
        user_id = none;
        action = "rebate_period_closed";
        entity_id = 1;
        context = earned_context (some (decimal 120 0));
      }
      ∷ recorded.audit_log;
}

closes : close_period none 8 130 recorded ≡ ok closed
unfolding close_period write_expected_amount_event is_period_due_for_close classify_rebate_status
closes = refl

refuses_before_the_end : close_period none 8 129 recorded ≡ err conflict
unfolding close_period write_expected_amount_event is_period_due_for_close
refuses_before_the_end = refl

-- More spend arrives after the close.
abbrev grown : Ledger
grown = record closed {
  period = record (closed.period) { actual_spend = some (decimal 7000 0); actual_volume = none };
}

abbrev regrown : Ledger
regrown = status_calculated 9 (
    write_expected_amount_event 9 (recalculated 9 (some (decimal 140 0))) none (given "import")
      "recalculation" grown)

recalculates :
    recalculate_expected agreement 9 none (given "import") "recalculation" grown ≡ ok regrown
unfolding recalculate_expected write_expected_amount_event calculate_expected_rebate mul decimal
    round_currency
recalculates = refl

history : Steps closed regrown
history =
    then (then none_yet (by_ingestion (some (decimal 7000 0)) none))
      (by_recalculation agreement 9 none (given "import") "recalculation" recalculates)

close_period-locks_example :
    (regrown.period.earned_amount ≡ some (decimal 120 0))
    × ((other : Option ℕ) (later day : ℕ) → close_period other later day regrown ≡ err conflict)
unfolding write_expected_amount_event
close_period-locks_example = close_period-locks none 8 130 recorded refl closes history

reached : Reachable recorded
reached = by_recording agreement 1 40 7 5 payload [] records

Reachable-events_example : IsVersioned recorded
Reachable-events_example = Reachable-events recorded reached

-- A row for which nothing is known of the spend.
abbrev unknown_ledger : Ledger
unknown_ledger =
    let l = fresh_ledger 1 40 5 payload [] in
    record l { period = record (l.period) { actual_spend = none } }

unknown_ledger-IsUnknown : IsUnknown 130 unknown_ledger
unfolding is_period_due_for_close
unknown_ledger-IsUnknown = (refl, refl, refl, refl)

close_period-unknown_example :
    (s : Ledger) × (close_period none 8 130 unknown_ledger ≡ ok s)
    × (is_closed s.period ≡ false)
    × ((t : Ledger) × (close_period (some 5) 9 130 s ≡ ok t))
close_period-unknown_example =
    close_period-unknown none (some 5) 8 9 130 unknown_ledger unknown_ledger-IsUnknown
