-- ===== src/Snapshots/WorkingCapital.antt =====
-- backend/app/services/working_capital_service.py on the tables of one organisation, newest row
-- first. The timestamps and the public ids are left out.
use Prim.Native.String.{String}
use procure_foundation.Prelude.{
  ℕ, suc, Bool, true, false, not, ◌&&◌, ◌==◌, Option, none, some, List, [], ◌∷◌, ◌++◌, length,
  filter, if◌then◌else◌,
}
use procure_foundation.Prelude.Int.{ltb_ℤ}
use procure_foundation.Result.{Result, ok, err, conflict, multiple_results, raise_if, ◌>>=◌, ◌>>◌}
use procure_foundation.Decimal.{Decimal, absolute, decimal}
use procure_foundation.Calendar.{Date}
use procure_foundation.ManagementAccounting.{
  WorkingCapitalMetrics, calculate_working_capital_metrics,
}

pub data Diagnostic : Type 0 where
  dso_out_of_range dio_out_of_range dpo_out_of_range ccc_out_of_range : Diagnostic
  ccc_unavailable_dso_out_of_range ccc_unavailable_dio_out_of_range : Diagnostic
  ccc_unavailable_dpo_out_of_range : Diagnostic

-- `_DAYS_METRIC_STORAGE_MAX_ABS`, 99999999.9
abbrev pub days_metric_storage_max_abs : Decimal
days_metric_storage_max_abs = decimal 999999999 1

unfoldable pub out_of_range : Option Decimal → Bool
unfolding absolute decimal
out_of_range none = false
out_of_range (some value) = ltb_ℤ days_metric_storage_max_abs (absolute value)

abbrev pub unless {ℓ} : {A : Type ℓ} → Bool → Option A → Option A
unless b o = if b then none else o

abbrev pub note {ℓ} : {A : Type ℓ} → Bool → A → List A
note b d = if b then d ∷ [] else []

-- The cash conversion cycle, given the three components that are safe to store and which of them
-- were out of range.
unfoldable pub apply_ccc :
    Option Decimal
    → Option Decimal
    → Option Decimal
    → Option Decimal
    → Bool
    → Bool
    → Bool
    → Option Decimal × List Diagnostic
unfolding out_of_range
apply_ccc (some _) (some _) (some _) ccc dso_oor dio_oor dpo_oor =
    (unless (out_of_range ccc) ccc, note (out_of_range ccc) ccc_out_of_range)
apply_ccc _ _ _ ccc dso_oor dio_oor dpo_oor = (
  none,
  note dso_oor ccc_unavailable_dso_out_of_range
      ++ (note dio_oor ccc_unavailable_dio_out_of_range
          ++ note dpo_oor ccc_unavailable_dpo_out_of_range),
)

unfoldable pub apply_days_metric_storage_boundary :
    WorkingCapitalMetrics → WorkingCapitalMetrics × List Diagnostic
unfolding apply_ccc
apply_days_metric_storage_boundary m =
    let dso_oor = out_of_range m.dso in
    let dio_oor = out_of_range m.dio in
    let dpo_oor = out_of_range m.dpo in
    let safe_dso = unless dso_oor m.dso in
    let safe_dio = unless dio_oor m.dio in
    let safe_dpo = unless dpo_oor m.dpo in
    let (safe_ccc, more) = apply_ccc safe_dso safe_dio safe_dpo m.ccc dso_oor dio_oor dpo_oor in
    (
      record m { dso = safe_dso; dio = safe_dio; dpo = safe_dpo; ccc = safe_ccc },
      note dso_oor dso_out_of_range
          ++ (note dio_oor dio_out_of_range ++ (note dpo_oor dpo_out_of_range ++ more)),
    )

pub record WorkingCapitalSnapshot : Type 0 where
  pub id : ℕ
  pub as_of_date : Date
  pub accounts_receivable : Decimal
  pub accounts_payable : Decimal
  pub inventory_value : Decimal
  pub cash_balance : Option Decimal
  pub annualized_revenue : Decimal
  pub annualized_cogs : Decimal
  pub dso : Option Decimal
  pub dio : Option Decimal
  pub dpo : Option Decimal
  pub ccc : Option Decimal
  pub working_capital_ratio : Option Decimal
  pub derived_metric_diagnostics : Option (List Diagnostic)
  pub corrects_id : Option ℕ
  pub uploaded_by_user_id : ℕ

-- `corrects_id.is_(None)`
abbrev pub is_original : Option ℕ → Bool
is_original none = true
is_original (some id) = false

-- `scalar_one_or_none()`
abbrev pub scalar_one_or_none {ℓ} : {A : Type ℓ} → List A → Result (Option A)
scalar_one_or_none [] = ok none
scalar_one_or_none (x ∷ []) = ok (some x)
scalar_one_or_none (x ∷ y ∷ rest) = err multiple_results

abbrev pub is_given {ℓ} : {A : Type ℓ} → Option A → Bool
is_given none = false
is_given (some a) = true

-- What a submission gives.
pub record WorkingCapitalInput : Type 0 where
  pub as_of_date : Date
  pub accounts_receivable : Decimal
  pub accounts_payable : Decimal
  pub inventory_value : Decimal
  pub cash_balance : Option Decimal
  pub annualized_revenue : Decimal
  pub annualized_cogs : Decimal

pub record AuditEntry : Type 0 where
  pub user_id : ℕ
  pub action : String
  pub as_of_date : Date
  pub is_correction : Bool

pub record WorkingCapitalTables : Type 0 where
  pub snapshots : List WorkingCapitalSnapshot
  pub audit_log : List AuditEntry

abbrev pub active_on : Date → List WorkingCapitalSnapshot → List WorkingCapitalSnapshot
active_on date = filter λ s. (s.as_of_date == date) && is_original s.corrects_id

-- `existing.id if (existing is not None and is_correction) else None`
abbrev pub corrected_id : Bool → Option WorkingCapitalSnapshot → Option ℕ
corrected_id true (some s) = some s.id
corrected_id _ _ = none

-- The primary key of the next row of a table whose rows are never deleted.
abbrev pub new_snapshot :
    ℕ → ℕ → WorkingCapitalInput → WorkingCapitalMetrics → Option ℕ → WorkingCapitalSnapshot
new_snapshot id user_id input metrics corrects_id =
    let (safe, diagnostics) = apply_days_metric_storage_boundary metrics in
    record {
      id = id;
      as_of_date = input.as_of_date;
      accounts_receivable = input.accounts_receivable;
      accounts_payable = input.accounts_payable;
      inventory_value = input.inventory_value;
      cash_balance = input.cash_balance;
      annualized_revenue = input.annualized_revenue;
      annualized_cogs = input.annualized_cogs;
      dso = safe.dso;
      dio = safe.dio;
      dpo = safe.dpo;
      ccc = safe.ccc;
      working_capital_ratio = metrics.working_capital_ratio;
      derived_metric_diagnostics = some diagnostics;
      corrects_id = corrects_id;
      uploaded_by_user_id = user_id;
    }

unfoldable pub ingest_working_capital_snapshot :
    ℕ → WorkingCapitalInput → Bool → WorkingCapitalTables → Result WorkingCapitalTables
unfolding apply_days_metric_storage_boundary
ingest_working_capital_snapshot user_id input is_correction t = do
  existing ← scalar_one_or_none (active_on input.as_of_date t.snapshots)
  raise_if (is_given existing && not is_correction) conflict
  metrics ←
      calculate_working_capital_metrics input.accounts_receivable input.accounts_payable
        input.inventory_value input.annualized_revenue input.annualized_cogs input.cash_balance
  ok (record t {
    snapshots =
        new_snapshot (suc (length t.snapshots)) user_id input metrics
          (corrected_id is_correction existing)
        ∷ t.snapshots;
    audit_log =
        record {
          user_id = user_id;
          action =
              if is_correction
              then "working_capital_snapshot_corrected"
              else "working_capital_snapshot_ingested";
          as_of_date = input.as_of_date;
          is_correction = is_correction;
        }
        ∷ t.audit_log;
  })
