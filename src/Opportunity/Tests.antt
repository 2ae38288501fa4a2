-- ===== src/Opportunity/Tests.antt =====
-- An opportunity from its creation to its confirmed savings, and the theorems at its registers.
use procure_foundation.Prelude.{◌≡◌, ◌↔◌, refl, true, none, some, [], ◌∷◌}
use procure_foundation.Result.{ok, err, conflict}
use procure_foundation.Decimal.{decimal}
use procure_foundation.Opportunity.Model.{
  OpportunityStatus, identified, validated, approved, implementation, realised,
  annual_financial_impact, realised_savings, Opportunity, opportunity_created, given,
  FinancialAmountStatusEvent, documented_baseline, actual_cost_source,
  variance_calculation_reference, Register, new_status_context, title_context, savings_context,
  afi_state_combination, rs_state_combination,
}
use procure_foundation.Opportunity.Service.{
  OpportunityCreate, Tables, create_opportunity, advance_waterfall_stage, RealisedSavings,
  record_realised_savings, genesis, confirm_savings, move_to, move_within, find_supplier,
  first_impact, unknown_amount, confirmed_amount, evidence_row, new_opportunity,
}
use procure_foundation.Opportunity.Events.{
  write_opportunity_measure_event, max_version, set_current,
}
use procure_foundation.Opportunity.Steps.{Reachable, by_creation, by_advance, by_confirmation}
use procure_foundation.Opportunity.Waterfall.{MayMove, IsMoved, advance_waterfall_stage_iff}
use procure_foundation.Opportunity.Versions.{IsVersioned, Reachable-IsVersioned}
use procure_foundation.Opportunity.Constraints.{Reachable-state_combinations}
use procure_foundation.Opportunity.Evidence.{IsEvidenced, Reachable-IsEvidenced}

abbrev payload : OpportunityCreate
payload = record {
  title = "Second quote for flour";
  opportunity_type = "price_increase_challenge";
  supplier_public_id = none;
  description = none;
  savings_type = some "hard_saving";
  baseline_value = some (decimal 1000 0);
  baseline_methodology = some "contract_price";
  confidence = some "high";
  annual_financial_impact = some (decimal 1200 0);
  annual_financial_impact_effective_from = some 739_000;
}

abbrev empty : Tables
empty = record { events = []; evidence = []; audit_log = [] }

abbrev row : Opportunity
row = new_opportunity 1 100 7 none payload

abbrev impact_event : FinancialAmountStatusEvent
impact_event = record {
  id = 1;
  opportunity_id = 1;
  measure_code = annual_financial_impact;
  event_version = 1;
  old = none;
  new = first_impact (some (decimal 1200 0)) (some 739_000);
  actor_user_id = some 7;
  occurred_at = 100;
  change_reference = opportunity_created 1;
  change_reason_code = "manual_estimate";
}

abbrev savings_event : FinancialAmountStatusEvent
savings_event = record impact_event {
  id = 2;
  measure_code = realised_savings;
  new = unknown_amount;
}

abbrev pub created : Register
created = record {
  opportunity = set_current realised_savings unknown_amount 2 (
      set_current annual_financial_impact (first_impact (some (decimal 1200 0)) (some 739_000)) 1
        row);
  events = savings_event ∷ impact_event ∷ [];
  evidence = [];
  audit_log =
      record {
        user_id = 7;
        action = "opportunity_created";
        entity_id = none;
        context = title_context "Second quote for flour";
      }
      ∷ [];
}

abbrev at_stage : OpportunityStatus → Register → Register
at_stage s r = record r {
  opportunity = record (r.opportunity) { status = s };
  audit_log =
      record {
        user_id = 7;
        action = "opportunity_stage_advanced";
        entity_id = some 1;
        context = new_status_context s;
      }
      ∷ r.audit_log;
}

abbrev signed_off : Register → Register
signed_off r = record r {
  opportunity = record (r.opportunity) { approved_by_user_id = some 7; approved_at = some 102 };
}

abbrev implemented : Register
implemented = at_stage implementation (signed_off (at_stage approved (at_stage validated created)))

creates : create_opportunity (λ _. none) 1 100 7 payload empty ≡ ok created
unfolding create_opportunity find_supplier genesis write_opportunity_measure_event max_version
creates = refl

validates : advance_waterfall_stage 7 101 validated created ≡ ok (at_stage validated created)
unfolding advance_waterfall_stage move_to move_within
validates = refl

approves :
    advance_waterfall_stage 7 102 approved (at_stage validated created)
    ≡ ok (signed_off (at_stage approved (at_stage validated created)))
unfolding advance_waterfall_stage move_to move_within
approves = refl

implements :
    advance_waterfall_stage 7 103 implementation
      (signed_off (at_stage approved (at_stage validated created)))
    ≡ ok implemented
unfolding advance_waterfall_stage move_to move_within
implements = refl

skips_no_stage : advance_waterfall_stage 7 101 approved created ≡ err conflict
unfolding advance_waterfall_stage move_to move_within
skips_no_stage = refl

abbrev pub savings : RealisedSavings
savings = record {
  realised_savings = decimal 900 0;
  effective_period_start = 739_000;
  effective_period_end = 739_364;
  documented_baseline_reference = "contract 12";
  actual_cost_source_reference = "ledger 2025";
  variance_calculation_reference = "workbook 3";
  change_reference = "year end";
}

confirms_too_early : record_realised_savings 7 104 savings created ≡ err conflict
unfolding record_realised_savings
confirms_too_early = refl

abbrev pub settled : Register
settled = record implemented {
  opportunity =
      record (set_current realised_savings (confirmed_amount 7 104 savings) 3
        implemented.opportunity) { status = realised };
  events =
      record {
        id = 3;
        opportunity_id = 1;
        measure_code = realised_savings;
        event_version = 2;
        old = some unknown_amount;
        new = confirmed_amount 7 104 savings;
        actor_user_id = some 7;
        occurred_at = 104;
        change_reference = given "year end";
        change_reason_code = "evidence_received";
      }
      ∷ implemented.events;
  evidence =
      evidence_row 3 104 variance_calculation_reference "workbook 3"
      ∷ evidence_row 3 104 actual_cost_source "ledger 2025"
      ∷ evidence_row 3 104 documented_baseline "contract 12"
      ∷ [];
  audit_log =
      record {
        user_id = 7;
        action = "opportunity_realised";
        entity_id = some 1;
        context = savings_context (decimal 900 0);
      }
      ∷ implemented.audit_log;
}

confirms : record_realised_savings 7 104 savings implemented ≡ ok settled
unfolding record_realised_savings confirm_savings write_opportunity_measure_event max_version
confirms = refl

abbrev settled-Reachable : Reachable settled
settled-Reachable =
    by_confirmation 7 104 savings
      (by_advance 7 103 implementation
        (by_advance 7 102 approved
          (by_advance 7 101 validated
            (by_creation (λ _. none) 1 100 7 payload empty (λ _. refl) creates) validates)
          approves)
        implements)
      confirms

advance_waterfall_stage_iff_example :
    ((moved : Register) × (advance_waterfall_stage 7 101 validated created ≡ ok moved)
      × IsMoved validated created.opportunity moved.opportunity
      × (moved.events ≡ created.events)
      × (moved.evidence ≡ created.evidence))
    ↔ MayMove identified validated
advance_waterfall_stage_iff_example = advance_waterfall_stage_iff 7 101 validated created

Reachable-IsVersioned_example :
    IsVersioned annual_financial_impact settled × IsVersioned realised_savings settled
Reachable-IsVersioned_example = Reachable-IsVersioned settled settled-Reachable

Reachable-state_combinations_example :
    (afi_state_combination settled.opportunity ≡ true)
    × (rs_state_combination settled.opportunity ≡ true)
Reachable-state_combinations_example = Reachable-state_combinations settled settled-Reachable

Reachable-IsEvidenced_example : IsEvidenced settled
Reachable-IsEvidenced_example = Reachable-IsEvidenced settled settled-Reachable refl
