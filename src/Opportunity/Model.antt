-- ===== src/Opportunity/Model.antt =====
-- backend/app/db/models/opportunity.py and the rows that the opportunity service writes: the
-- opportunity, the status events of its measures, the evidence rows and the audit log.
use Prim.Native.String.{String}
use procure_foundation.Prelude.{ℕ, Bool, true, false, not, ◌&&◌, Option, none, some, List, leb}
use procure_foundation.Decimal.{Decimal}
use procure_foundation.Calendar.{Date}

-- The vocabulary of `Opportunity.status`; the column itself holds any string.
pub data OpportunityStatus : Type 0 where
  identified validated approved implementation realised : OpportunityStatus
  rejected expired : OpportunityStatus
  other : String → OpportunityStatus

pub data MeasureCode : Type 0 where
  annual_financial_impact realised_savings : MeasureCode

pub data AmountStatus : Type 0 where
  unknown not_applicable legacy_unverified estimated calculated confirmed : AmountStatus

pub data SourceBasis : Type 0 where
  manual_estimate price_review_calculation : SourceBasis
  actual_cost_data_calculation reconciled_actuals : SourceBasis

pub record Opportunity : Type 0 where
  pub id : ℕ
  pub title : String
  pub opportunity_type : String
  pub supplier_id : Option ℕ
  pub description : Option String
  pub annual_financial_impact : Option Decimal
  pub annual_financial_impact_status : AmountStatus
  pub annual_financial_impact_source_basis : Option SourceBasis
  pub annual_financial_impact_calculated_at : Option ℕ
  pub annual_financial_impact_effective_from : Option Date
  pub annual_financial_impact_current_event_id : Option ℕ
  pub savings_type : Option String
  pub baseline_value : Option Decimal
  pub baseline_methodology : Option String
  pub confidence : Option String
  pub realised_savings : Option Decimal
  pub realised_savings_status : AmountStatus
  pub realised_savings_source_basis : Option SourceBasis
  pub realised_savings_calculated_at : Option ℕ
  pub realised_savings_approved_at : Option ℕ
  pub realised_savings_approved_by_user_id : Option ℕ
  pub realised_savings_effective_period_start : Option Date
  pub realised_savings_effective_period_end : Option Date
  pub realised_savings_current_event_id : Option ℕ
  pub approved_by_user_id : Option ℕ
  pub approved_at : Option ℕ
  pub algorithm_version : Option String
  pub calculation_timestamp : Option ℕ
  pub status : OpportunityStatus
  pub created_by_user_id : ℕ

-- The state of one measure: the columns `old_*` or `new_*` of an event.
pub record Snapshot : Type 0 where
  pub amount : Option Decimal
  pub status : AmountStatus
  pub source_basis : Option SourceBasis
  pub calculated_at : Option ℕ
  pub approved_at : Option ℕ
  pub approved_by_user_id : Option ℕ
  pub effective_period_start : Option Date
  pub effective_period_end : Option Date

pub data ChangeReference : Type 0 where
  -- `f"opportunity_created:{opportunity.id}"`
  opportunity_created : ℕ → ChangeReference
  given : String → ChangeReference

-- `old` is `none` where every `old_*` column is NULL.
pub record FinancialAmountStatusEvent : Type 0 where
  pub id : ℕ
  pub opportunity_id : ℕ
  pub measure_code : MeasureCode
  pub event_version : ℕ
  pub old : Option Snapshot
  pub new : Snapshot
  pub actor_user_id : Option ℕ
  pub occurred_at : ℕ
  pub change_reference : ChangeReference
  pub change_reason_code : String

pub data EvidenceType : Type 0 where
  documented_baseline actual_cost_source variance_calculation_reference : EvidenceType

pub record FinancialAmountEvidence : Type 0 where
  pub event_id : ℕ
  pub evidence_type : EvidenceType
  pub external_reference : String
  pub recorded_at : ℕ

pub data AuditContext : Type 0 where
  title_context : String → AuditContext
  new_status_context : OpportunityStatus → AuditContext
  savings_context : Decimal → AuditContext

pub record AuditEntry : Type 0 where
  pub user_id : ℕ
  pub action : String
  pub entity_id : Option ℕ
  pub context : AuditContext

-- One opportunity and the tables that its operations read and write, newest row first. The event
-- table holds the rows of every opportunity.
pub record Register : Type 0 where
  pub opportunity : Opportunity
  pub events : List FinancialAmountStatusEvent
  pub evidence : List FinancialAmountEvidence
  pub audit_log : List AuditEntry

-- The columns of a measure.
abbrev pub current : MeasureCode → Opportunity → Snapshot
current annual_financial_impact o = record {
  amount = o.annual_financial_impact;
  status = o.annual_financial_impact_status;
  source_basis = o.annual_financial_impact_source_basis;
  calculated_at = o.annual_financial_impact_calculated_at;
  approved_at = none;
  approved_by_user_id = none;
  effective_period_start = o.annual_financial_impact_effective_from;
  effective_period_end = none;
}
current realised_savings o = record {
  amount = o.realised_savings;
  status = o.realised_savings_status;
  source_basis = o.realised_savings_source_basis;
  calculated_at = o.realised_savings_calculated_at;
  approved_at = o.realised_savings_approved_at;
  approved_by_user_id = o.realised_savings_approved_by_user_id;
  effective_period_start = o.realised_savings_effective_period_start;
  effective_period_end = o.realised_savings_effective_period_end;
}

abbrev is_none : {A : Type 0} → Option A → Bool
is_none none = true
is_none (some a) = false

abbrev is_some : {A : Type 0} → Option A → Bool
is_some o = not (is_none o)

abbrev eq_basis : Option SourceBasis → SourceBasis → Bool
eq_basis (some manual_estimate) manual_estimate = true
eq_basis (some price_review_calculation) price_review_calculation = true
eq_basis (some actual_cost_data_calculation) actual_cost_data_calculation = true
eq_basis (some reconciled_actuals) reconciled_actuals = true
eq_basis _ _ = false

abbrev in_order : Option Date → Option Date → Bool
in_order (some start) (some end) = leb start end
in_order _ _ = false

unfoldable pub impact_combination : AmountStatus → Snapshot → Bool
impact_combination unknown s =
    is_none s.amount
    && is_none s.source_basis
    && is_none s.calculated_at
    && is_none s.effective_period_start
impact_combination not_applicable s =
    is_none s.amount
    && is_none s.source_basis
    && is_none s.calculated_at
    && is_none s.effective_period_start
impact_combination legacy_unverified s =
    is_some s.amount
    && is_none s.source_basis
    && is_none s.calculated_at
    && is_none s.effective_period_start
impact_combination estimated s =
    is_some s.amount
    && eq_basis s.source_basis manual_estimate
    && is_none s.calculated_at
    && is_some s.effective_period_start
impact_combination calculated s =
    is_some s.amount
    && eq_basis s.source_basis price_review_calculation
    && is_some s.calculated_at
    && is_some s.effective_period_start
impact_combination confirmed s = false

-- `ck_opp_afi_state_combination`
unfoldable pub afi_state_combination : Opportunity → Bool
unfolding impact_combination
afi_state_combination o =
    impact_combination o.annual_financial_impact_status (current annual_financial_impact o)

abbrev blank_savings : Snapshot → Bool
blank_savings s =
    is_none s.source_basis
    && is_none s.calculated_at
    && is_none s.approved_at
    && is_none s.approved_by_user_id
    && is_none s.effective_period_start
    && is_none s.effective_period_end

unfoldable pub savings_combination : AmountStatus → Snapshot → Bool
savings_combination unknown s = is_none s.amount && blank_savings s
savings_combination not_applicable s = is_none s.amount && blank_savings s
savings_combination legacy_unverified s = is_some s.amount && blank_savings s
savings_combination calculated s =
    is_some s.amount
    && eq_basis s.source_basis actual_cost_data_calculation
    && is_some s.calculated_at
    && is_none s.approved_at
    && is_none s.approved_by_user_id
    && in_order s.effective_period_start s.effective_period_end
savings_combination confirmed s =
    is_some s.amount
    && eq_basis s.source_basis reconciled_actuals
    && is_none s.calculated_at
    && is_some s.approved_at
    && is_some s.approved_by_user_id
    && in_order s.effective_period_start s.effective_period_end
savings_combination estimated s = false

-- `ck_opp_rs_state_combination`
unfoldable pub rs_state_combination : Opportunity → Bool
unfolding savings_combination
rs_state_combination o = savings_combination o.realised_savings_status (current realised_savings o)
