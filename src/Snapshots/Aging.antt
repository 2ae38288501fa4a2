-- ===== src/Snapshots/Aging.antt =====
-- `ingest_aging_snapshot` of backend/app/services/working_capital_service.py.
use Prim.Native.String.{String}
use procure_foundation.Prelude.{
  ℕ, suc, Bool, true, false, not, ◌&&◌, ◌==◌, Option, none, some, List, ◌∷◌, length, filter,
  if◌then◌else◌,
}
use procure_foundation.Prelude.Int.{ℤ}
use procure_foundation.Result.{Result, ok, conflict, validation_failed, raise_if, ◌>>=◌, ◌>>◌}
use procure_foundation.Decimal.{Decimal}
use procure_foundation.Calendar.{Date}
use procure_foundation.ManagementAccounting.{classify_aging_buckets}
use procure_foundation.Snapshots.WorkingCapital.{is_original, is_given, scalar_one_or_none}

-- `ledger_type`: one of `_VALID_LEDGER_TYPES`, or any other string.
pub data LedgerType : Type 0 where
  debtors creditors : LedgerType
  other : String → LedgerType

abbrev pub eq_ledger : LedgerType → LedgerType → Bool
eq_ledger debtors debtors = true
eq_ledger creditors creditors = true
eq_ledger _ _ = false

abbrev is_valid_ledger : LedgerType → Bool
is_valid_ledger debtors = true
is_valid_ledger creditors = true
is_valid_ledger (other name) = false

pub record AgingLedgerSnapshot : Type 0 where
  pub id : ℕ
  pub as_of_date : Date
  pub ledger_type : LedgerType
  pub current_balance : Decimal
  pub days_30 : Decimal
  pub days_60 : Decimal
  pub days_90 : Decimal
  pub days_120_plus : Decimal
  pub corrects_id : Option ℕ
  pub uploaded_by_user_id : ℕ

pub record AgingAudit : Type 0 where
  pub user_id : ℕ
  pub action : String
  pub as_of_date : Date
  pub ledger_type : LedgerType
  pub is_correction : Bool

pub record AgingTables : Type 0 where
  pub snapshots : List AgingLedgerSnapshot
  pub audit_log : List AgingAudit

abbrev pub active_ledgers : Date → LedgerType → List AgingLedgerSnapshot → List AgingLedgerSnapshot
active_ledgers date ledger =
    filter
      λ s. (s.as_of_date == date) && (eq_ledger s.ledger_type ledger && is_original s.corrects_id)

abbrev corrected_ledger : Bool → Option AgingLedgerSnapshot → Option ℕ
corrected_ledger true (some s) = some s.id
corrected_ledger _ _ = none

unfoldable pub ingest_aging_snapshot :
    ℕ → Date → LedgerType → List (Decimal × ℤ) → Bool → AgingTables → Result AgingTables
ingest_aging_snapshot user_id as_of_date ledger invoices is_correction t = do
  raise_if (not (is_valid_ledger ledger)) validation_failed
  existing ← scalar_one_or_none (active_ledgers as_of_date ledger t.snapshots)
  raise_if (is_given existing && not is_correction) conflict
  buckets ← classify_aging_buckets invoices
  ok (record t {
    snapshots =
        record {
          id = suc (length t.snapshots);
          as_of_date = as_of_date;
          ledger_type = ledger;
          current_balance = buckets.current;
          days_30 = buckets.days_30;
          days_60 = buckets.days_60;
          days_90 = buckets.days_90;
          days_120_plus = buckets.days_120_plus;
          corrects_id = corrected_ledger is_correction existing;
          uploaded_by_user_id = user_id;
        }
        ∷ t.snapshots;
    audit_log =
        record {
          user_id = user_id;
          action = if is_correction then "aging_snapshot_corrected" else "aging_snapshot_ingested";
          as_of_date = as_of_date;
          ledger_type = ledger;
          is_correction = is_correction;
        }
        ∷ t.audit_log;
  })
