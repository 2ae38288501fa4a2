-- ===== src/Opportunity/Service.antt =====
-- backend/app/services/opportunity_service.py: creating an opportunity, advancing it through the
-- waterfall, and recording its realised savings.
use Prim.Native.String.{String}
use procure_foundation.Prelude.{
  ℕ, suc, Bool, true, false, not, Option, none, some, List, ◌∷◌, ltb, ◌==◌, if◌then◌else◌,
}
use procure_foundation.Result.{Result, ok, err, conflict, not_found, raise_if, ◌>>=◌, ◌>>◌}
use procure_foundation.Decimal.{Decimal}
use procure_foundation.Calendar.{Date}
use procure_foundation.Opportunity.Model.{
  OpportunityStatus, identified, validated, approved, implementation, realised, rejected, expired,
  annual_financial_impact, realised_savings, unknown, estimated, confirmed, manual_estimate,
  reconciled_actuals, Opportunity, Snapshot, opportunity_created, given, FinancialAmountStatusEvent,
  EvidenceType, documented_baseline, actual_cost_source, variance_calculation_reference,
  FinancialAmountEvidence, title_context, new_status_context, savings_context, AuditEntry, Register,
}
use procure_foundation.Opportunity.Events.{audit, next_event_id, write_opportunity_measure_event}

pub record OpportunityCreate : Type 0 where
  pub title : String
  pub opportunity_type : String
  pub supplier_public_id : Option ℕ
  pub description : Option String
  pub savings_type : Option String
  pub baseline_value : Option Decimal
  pub baseline_methodology : Option String
  pub confidence : Option String
  pub annual_financial_impact : Option Decimal
  pub annual_financial_impact_effective_from : Option Date

-- `suppliers` is the query for the supplier with a public id.
unfoldable pub find_supplier : (ℕ → Option ℕ) → Option ℕ → Result (Option ℕ)
find_supplier suppliers none = ok none
find_supplier suppliers (some public_id) = elim (suppliers public_id) [
  | none ↦ err not_found
  | some id ↦ ok (some id)
]

-- The impact is given without the date that it takes effect.
abbrev pub is_undated : Option Decimal → Option Date → Bool
is_undated (some amount) none = true
is_undated _ _ = false

abbrev pub unknown_amount : Snapshot
unknown_amount = record {
  amount = none;
  status = unknown;
  source_basis = none;
  calculated_at = none;
  approved_at = none;
  approved_by_user_id = none;
  effective_period_start = none;
  effective_period_end = none;
}

abbrev pub first_impact : Option Decimal → Option Date → Snapshot
first_impact none from = unknown_amount
first_impact (some amount) from = record unknown_amount {
  amount = some amount;
  status = estimated;
  source_basis = some manual_estimate;
  effective_period_start = from;
}

abbrev pub new_opportunity : ℕ → ℕ → ℕ → Option ℕ → OpportunityCreate → Opportunity
new_opportunity id now user_id supplier_id payload = record {
  id = id;
  title = payload.title;
  opportunity_type = payload.opportunity_type;
  supplier_id = supplier_id;
  description = payload.description;
  annual_financial_impact = none;
  annual_financial_impact_status = unknown;
  annual_financial_impact_source_basis = none;
  annual_financial_impact_calculated_at = none;
  annual_financial_impact_effective_from = none;
  annual_financial_impact_current_event_id = none;
  savings_type = payload.savings_type;
  baseline_value = payload.baseline_value;
  baseline_methodology = payload.baseline_methodology;
  confidence = payload.confidence;
  realised_savings = none;
  realised_savings_status = unknown;
  realised_savings_source_basis = none;
  realised_savings_calculated_at = none;
  realised_savings_approved_at = none;
  realised_savings_approved_by_user_id = none;
  realised_savings_effective_period_start = none;
  realised_savings_effective_period_end = none;
  realised_savings_current_event_id = none;
  approved_by_user_id = none;
  approved_at = none;
  algorithm_version = some "v1";
  calculation_timestamp = some now;
  status = identified;
  created_by_user_id = user_id;
}

-- The tables that a new opportunity is added to.
pub record Tables : Type 0 where
  pub events : List FinancialAmountStatusEvent
  pub evidence : List FinancialAmountEvidence
  pub audit_log : List AuditEntry

-- The row of the new opportunity and the two genesis events.
unfoldable pub genesis : ℕ → ℕ → ℕ → Option ℕ → OpportunityCreate → Tables → Register
unfolding write_opportunity_measure_event
genesis id now user_id supplier_id payload t =
    let added : Register = record {
      opportunity = new_opportunity id now user_id supplier_id payload;
      events = t.events;
      evidence = t.evidence;
      audit_log = t.audit_log;
    } in
    let first =
      write_opportunity_measure_event now annual_financial_impact
        (first_impact payload.annual_financial_impact
          payload.annual_financial_impact_effective_from)
        (some user_id) (opportunity_created id) "manual_estimate" added in
    write_opportunity_measure_event now realised_savings unknown_amount (some user_id)
      (opportunity_created id) "manual_estimate" first

-- `id` is the primary key that the database assigns.
unfoldable pub create_opportunity :
    (ℕ → Option ℕ) → ℕ → ℕ → ℕ → OpportunityCreate → Tables → Result Register
unfolding find_supplier genesis
create_opportunity suppliers id now user_id payload t = do
  supplier_id ← find_supplier suppliers payload.supplier_public_id
  raise_if
      (is_undated payload.annual_financial_impact payload.annual_financial_impact_effective_from)
      conflict
  ok (
      audit
        (record {
          user_id = user_id;
          action = "opportunity_created";
          entity_id = none;
          context = title_context payload.title;
        })
        (genesis id now user_id supplier_id payload t))

-- `_WATERFALL_ORDER.index(status)`
abbrev pub waterfall_index : OpportunityStatus → Option ℕ
waterfall_index identified = some 0
waterfall_index validated = some 1
waterfall_index approved = some 2
waterfall_index implementation = some 3
waterfall_index realised = some 4
waterfall_index _ = none

-- `current_index + 1`, where a status outside the waterfall has the index -1.
abbrev pub next_index : Option ℕ → ℕ
next_index none = 0
next_index (some i) = suc i

abbrev pub sign_off : OpportunityStatus → ℕ → ℕ → Opportunity → Opportunity
sign_off approved user_id now o = record o {
  approved_by_user_id = some user_id;
  approved_at = some now;
}
sign_off _ user_id now o = o

unfoldable pub move_within : Option ℕ → ℕ → ℕ → OpportunityStatus → Opportunity → Result Opportunity
move_within none user_id now target o = err conflict
move_within (some target_index) user_id now target o =
    if target_index == next_index (waterfall_index o.status)
    then ok (sign_off target user_id now (record o { status = target }))
    else err conflict

unfoldable pub move_to : ℕ → ℕ → OpportunityStatus → Opportunity → Result Opportunity
unfolding move_within
move_to user_id now rejected o = ok (record o { status = rejected })
move_to user_id now expired o = ok (record o { status = expired })
move_to user_id now target o = move_within (waterfall_index target) user_id now target o

abbrev pub advanced : ℕ → OpportunityStatus → Register → Opportunity → Register
advanced user_id target r moved =
    audit
      (record {
        user_id = user_id;
        action = "opportunity_stage_advanced";
        entity_id = some r.opportunity.id;
        context = new_status_context target;
      })
      (record r { opportunity = moved })

unfoldable pub advance_waterfall_stage : ℕ → ℕ → OpportunityStatus → Register → Result Register
unfolding move_to
advance_waterfall_stage user_id now target r =
    move_to user_id now target r.opportunity >>= λ moved. ok (advanced user_id target r moved)

abbrev pub is_implementation : OpportunityStatus → Bool
is_implementation implementation = true
is_implementation _ = false

-- The arguments of `record_realised_savings`.
pub record RealisedSavings : Type 0 where
  pub realised_savings : Decimal
  pub effective_period_start : Date
  pub effective_period_end : Date
  pub documented_baseline_reference : String
  pub actual_cost_source_reference : String
  pub variance_calculation_reference : String
  pub change_reference : String

abbrev pub confirmed_amount : ℕ → ℕ → RealisedSavings → Snapshot
confirmed_amount user_id now s = record {
  amount = some s.realised_savings;
  status = confirmed;
  source_basis = some reconciled_actuals;
  calculated_at = none;
  approved_at = some now;
  approved_by_user_id = some user_id;
  effective_period_start = some s.effective_period_start;
  effective_period_end = some s.effective_period_end;
}

abbrev pub evidence_row : ℕ → ℕ → EvidenceType → String → FinancialAmountEvidence
evidence_row event_id now type reference = record {
  event_id = event_id;
  evidence_type = type;
  external_reference = reference;
  recorded_at = now;
}

-- The event of the confirmed amount, its three evidence rows, and the last stage.
unfoldable pub confirm_savings : ℕ → ℕ → RealisedSavings → Register → Register
unfolding write_opportunity_measure_event
confirm_savings user_id now s r =
    let event_id = next_event_id r in
    let written =
      write_opportunity_measure_event now realised_savings (confirmed_amount user_id now s)
        (some user_id) (given s.change_reference) "evidence_received" r in
    record written {
      opportunity = record (written.opportunity) { status = realised };
      evidence =
          evidence_row event_id now variance_calculation_reference s.variance_calculation_reference
          ∷ evidence_row event_id now actual_cost_source s.actual_cost_source_reference
          ∷ evidence_row event_id now documented_baseline s.documented_baseline_reference
          ∷ r.evidence;
    }

unfoldable pub record_realised_savings : ℕ → ℕ → RealisedSavings → Register → Result Register
unfolding confirm_savings
record_realised_savings user_id now s r = do
  raise_if (not (is_implementation r.opportunity.status)) conflict
  raise_if (ltb s.effective_period_end s.effective_period_start) conflict
  ok (
      audit
        (record {
          user_id = user_id;
          action = "opportunity_realised";
          entity_id = some r.opportunity.id;
          context = savings_context s.realised_savings;
        })
        (confirm_savings user_id now s r))
