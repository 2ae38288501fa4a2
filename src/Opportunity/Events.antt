-- ===== src/Opportunity/Events.antt =====
-- `_write_opportunity_measure_event` of backend/app/services/opportunity_service.py: the versioned
-- events of a measure.
use Prim.Native.String.{String}
use procure_foundation.Prelude.{
  ℕ, suc, Bool, true, false, ◌&&◌, Option, none, some, List, [], ◌∷◌, length, filter, ltb, ◌==◌,
  if◌then◌else◌,
}
use procure_foundation.Opportunity.Model.{
  MeasureCode, annual_financial_impact, realised_savings, current, Opportunity, Snapshot,
  ChangeReference, FinancialAmountStatusEvent, AuditEntry, Register,
}

abbrev pub eq_measure : MeasureCode → MeasureCode → Bool
eq_measure annual_financial_impact annual_financial_impact = true
eq_measure realised_savings realised_savings = true
eq_measure _ _ = false

-- The events of one measure of one opportunity.
abbrev pub events_of :
    ℕ → MeasureCode → List FinancialAmountStatusEvent → List FinancialAmountStatusEvent
events_of id m = filter λ e. (e.opportunity_id == id) && eq_measure e.measure_code m

-- `func.max(event_version)`, with 0 for no row.
unfoldable pub max_version : List FinancialAmountStatusEvent → ℕ
max_version [] = 0
max_version (e ∷ es) =
    let rest = max_version es in if ltb rest e.event_version then e.event_version else rest

-- The columns of a measure after the event.
abbrev pub set_current : MeasureCode → Snapshot → ℕ → Opportunity → Opportunity
set_current annual_financial_impact new event_id o = record o {
  annual_financial_impact = new.amount;
  annual_financial_impact_status = new.status;
  annual_financial_impact_source_basis = new.source_basis;
  annual_financial_impact_calculated_at = new.calculated_at;
  annual_financial_impact_effective_from = new.effective_period_start;
  annual_financial_impact_current_event_id = some event_id;
}
set_current realised_savings new event_id o = record o {
  realised_savings = new.amount;
  realised_savings_status = new.status;
  realised_savings_source_basis = new.source_basis;
  realised_savings_calculated_at = new.calculated_at;
  realised_savings_approved_at = new.approved_at;
  realised_savings_approved_by_user_id = new.approved_by_user_id;
  realised_savings_effective_period_start = new.effective_period_start;
  realised_savings_effective_period_end = new.effective_period_end;
  realised_savings_current_event_id = some event_id;
}

-- `None if is_genesis else ...`
abbrev pub old_of : Bool → Snapshot → Option Snapshot
old_of true s = none
old_of false s = some s

-- The primary key of the next row of a table whose rows are never deleted.
abbrev pub next_event_id : Register → ℕ
next_event_id r = suc (length r.events)

abbrev pub next_version : MeasureCode → Register → ℕ
next_version m r = suc (max_version (events_of r.opportunity.id m r.events))

unfoldable pub write_opportunity_measure_event :
    ℕ → MeasureCode → Snapshot → Option ℕ → ChangeReference → String → Register → Register
unfolding max_version
write_opportunity_measure_event now m new actor reference reason r = record r {
  opportunity = set_current m new (next_event_id r) r.opportunity;
  events =
      record {
        id = next_event_id r;
        opportunity_id = r.opportunity.id;
        measure_code = m;
        event_version = next_version m r;
        old = old_of (next_version m r == 1) (current m r.opportunity);
        new = new;
        actor_user_id = actor;
        occurred_at = now;
        change_reference = reference;
        change_reason_code = reason;
      }
      ∷ r.events;
}

abbrev pub audit : AuditEntry → Register → Register
audit entry r = record r { audit_log = entry ∷ r.audit_log }
