-- ===== src/Snapshots/Tests.antt =====
-- Runs of the submissions, and the theorems at concrete inputs.
use procure_foundation.Prelude.{
  ◌≡◌, ◌≤◌, ◌<◌, ◌-◌, ◌++◌, refl, true, false, none, some, List, [], ◌∷◌, length, arith,
}
use procure_foundation.Prelude.Int.{pos}
use procure_foundation.Result.{ok, err, conflict}
use procure_foundation.Decimal.{decimal, precision_bound}
use procure_foundation.ManagementAccounting.{
  WorkingCapitalMetrics, calculate_working_capital_metrics,
}
use procure_foundation.Snapshots.WorkingCapital.{
  WorkingCapitalInput, WorkingCapitalTables, active_on, new_snapshot,
  apply_days_metric_storage_boundary, ingest_working_capital_snapshot,
}
use procure_foundation.Snapshots.Boundary.{
  metrics_of, stored, stored_cycle, apply_days_metric_storage_boundary-fits,
}
use procure_foundation.Snapshots.Corrections.{
  Reachable, by_start, by_ingestion, ingest_working_capital_snapshot-correction,
  Reachable-one_active,
}
use procure_foundation.Snapshots.Valuation.{
  ValuationRecord, InventorySnapshot, ValuationTables, ValuationResult, active_at, snapshot_of,
  ingest_inventory_valuation,
}
use procure_foundation.Snapshots.Valuation.Active.{ingest_inventory_valuation-active}

days_small : 365 < precision_bound
unfolding precision_bound
days_small = omega arith

days_large : 4000000000 < precision_bound
unfolding precision_bound
days_large = omega arith

-- 36.5 days, and 400000000 days, which the column does not hold.
apply_days_metric_storage_boundary-fits_example :
    (apply_days_metric_storage_boundary
      (metrics_of (some (pos 365)) (some (pos 4000000000)) none none none)).0
    ≡ metrics_of
        (stored (some (pos 365)))
        (stored (some (pos 4000000000)))
        (stored none)
        (stored_cycle (stored (some (pos 365))) (stored (some (pos 4000000000))) (stored none) none)
        none
apply_days_metric_storage_boundary-fits_example =
    apply_days_metric_storage_boundary-fits (some (pos 365)) (some (pos 4000000000)) none none none
      days_small days_large tt tt

-- No revenue and no cost of goods: no metric is defined.
abbrev input : WorkingCapitalInput
input = record {
  as_of_date = 100;
  accounts_receivable = decimal 5 0;
  accounts_payable = decimal 7 0;
  inventory_value = decimal 9 0;
  cash_balance = none;
  annualized_revenue = pos 0;
  annualized_cogs = pos 0;
}

abbrev nothing : WorkingCapitalMetrics
nothing = record { dso = none; dio = none; dpo = none; ccc = none; working_capital_ratio = none }

abbrev start : WorkingCapitalTables
start = record { snapshots = []; audit_log = [] }

abbrev first : WorkingCapitalTables
first = record {
  snapshots = new_snapshot 1 7 input nothing none ∷ [];
  audit_log =
      record {
        user_id = 7;
        action = "working_capital_snapshot_ingested";
        as_of_date = 100;
        is_correction = false;
      }
      ∷ [];
}

abbrev better : WorkingCapitalInput
better = record input { accounts_receivable = decimal 50 0 }

abbrev second : WorkingCapitalTables
second = record {
  snapshots = new_snapshot 2 8 better nothing (some 1) ∷ first.snapshots;
  audit_log =
      record {
        user_id = 8;
        action = "working_capital_snapshot_corrected";
        as_of_date = 100;
        is_correction = true;
      }
      ∷ first.audit_log;
}

submits : ingest_working_capital_snapshot 7 input false start ≡ ok first
unfolding ingest_working_capital_snapshot calculate_working_capital_metrics
submits = refl

refuses_a_second : ingest_working_capital_snapshot 8 better false first ≡ err conflict
unfolding ingest_working_capital_snapshot
refuses_a_second = refl

corrects : ingest_working_capital_snapshot 8 better true first ≡ ok second
unfolding ingest_working_capital_snapshot calculate_working_capital_metrics
corrects = refl

ingest_working_capital_snapshot-correction_example :
    active_on 100 second.snapshots ≡ active_on 100 first.snapshots
ingest_working_capital_snapshot-correction_example =
    ingest_working_capital_snapshot-correction 8 better first second
      (new_snapshot 1 7 input nothing none) 100 refl corrects

both : Reachable second
both = by_ingestion 8 better true (by_ingestion 7 input false by_start submits) corrects

Reachable-one_active_example : length (active_on 100 second.snapshots) ≤ 1
Reachable-one_active_example = Reachable-one_active second 100 both

abbrev milk : ValuationRecord
milk = record {
  supplier_sku = "M1";
  description = some "Milk";
  quantity_on_hand = decimal 3 0;
  unit_cost = none;
}

abbrev stock : ValuationTables
stock = record { snapshots = snapshot_of 7 none 1 2 100 none milk ∷ []; audit_log = [] }

abbrev recount : ValuationRecord
recount = record milk { quantity_on_hand = decimal 4 0 }

abbrev recounted : ValuationTables
recounted = record {
  snapshots = snapshot_of 7 none 2 2 100 (some 1) recount ∷ stock.snapshots;
  audit_log =
      record {
        user_id = 7;
        action = "inventory_valuation_corrected";
        context = record {
          record_count = 1;
          total_asset_valuation = pos 0;
          snapshot_date = 100;
          file_hash = none;
        };
      }
      ∷ [];
}

abbrev counted : ValuationResult
counted = record { record_count = 1; total_asset_valuation = pos 0; snapshot_ids = 2 ∷ [] }

counts_again :
    ingest_inventory_valuation 7 2 100 (recount ∷ []) none none true stock ≡ ok (recounted, counted)
unfolding ingest_inventory_valuation
counts_again = refl

ingest_inventory_valuation-active_example :
    let before = active_at 2 100 stock.snapshots in
    (extra : List InventorySnapshot) × (active_at 2 100 recounted.snapshots ≡ extra ++ before)
    × (length extra ≡ length (recount ∷ []) - length before)
ingest_inventory_valuation-active_example =
    ingest_inventory_valuation-active 7 2 100 (recount ∷ []) none none true stock recounted counted
      counts_again
