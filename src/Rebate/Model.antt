-- ===== src/Rebate/Model.antt =====
-- backend/app/db/models/rebate.py and the rows that the rebate service writes.
use Prim.Native.String.{String}
use procure_foundation.Prelude.{ℕ, Option, List}
use procure_foundation.Decimal.{Decimal}
use procure_foundation.Calendar.{Date}
use procure_foundation.Opportunity.Model.{AmountStatus}
use procure_foundation.Rebate.{RebateType, RebateStatus, EntrySource, RebateBand}

pub record RebateAgreement : Type 0 where
  pub rebate_type : RebateType
  pub flat_rate_pct : Option Decimal
  pub bands : Option (List RebateBand)
  pub fixed_amount : Option Decimal

-- The columns `expected_amount` and `expected_amount_*` of a period, also the columns `old_*` and
-- `new_*` of an event.
pub record ExpectedAmount : Type 0 where
  pub amount : Option Decimal
  pub status : AmountStatus
  pub source_basis : Option String
  pub calculated_at : Option ℕ
  pub approved_at : Option ℕ
  pub approved_by_user_id : Option ℕ

pub record RebatePeriodActual : Type 0 where
  pub id : ℕ
  pub period_start : Date
  pub period_end : Date
  pub actual_spend : Option Decimal
  pub actual_volume : Option Decimal
  pub entered_by_user_id : Option ℕ
  pub expected : ExpectedAmount
  pub expected_amount_current_event_id : Option ℕ
  pub earned_amount : Option Decimal
  pub earned_at : Option ℕ
  pub received_amount : Option Decimal
  pub received_reference : Option String
  pub status : RebateStatus
  pub status_calculated_at : Option ℕ

-- `change_reference`, built from the period's key and the source of its spend, or given by the
-- caller.
pub data RebateChangeReference : Type 0 where
  rebate_aggregation_recalc : ℕ → EntrySource → RebateChangeReference
  rebate_period_actual_created : ℕ → RebateChangeReference
  given : String → RebateChangeReference

-- `old` is `none` where every `old_*` column is NULL.
pub record ExpectedAmountEvent : Type 0 where
  pub id : ℕ
  pub rebate_period_actual_id : ℕ
  pub event_version : ℕ
  pub old : Option ExpectedAmount
  pub new : ExpectedAmount
  pub actor_user_id : Option ℕ
  pub occurred_at : ℕ
  pub change_reference : RebateChangeReference
  pub change_reason_code : String

pub record RebateAlert : Type 0 where
  pub rebate_period_actual_id : ℕ
  pub trigger_date : Date

-- `leakage_result`: diagnostic, or a leakage.
pub data LeakageResult : Type 0 where
  diagnostic : LeakageResult
  leakage : Decimal → LeakageResult

pub data RebateAuditContext : Type 0 where
  no_context manual_entry : RebateAuditContext
  earned_context : Option Decimal → RebateAuditContext
  receipt_context : Decimal → LeakageResult → RebateAuditContext

pub record RebateAuditEntry : Type 0 where
  pub user_id : Option ℕ
  pub action : String
  pub entity_id : ℕ
  pub context : RebateAuditContext

-- One period, its expected-amount events, its alerts of the type `threshold_approaching` and the
-- audit log, newest row first. `next_event_id` is the key that the event table gives next.
pub record Ledger : Type 0 where
  pub period : RebatePeriodActual
  pub events : List ExpectedAmountEvent
  pub next_event_id : ℕ
  pub alerts : List RebateAlert
  pub audit_log : List RebateAuditEntry
