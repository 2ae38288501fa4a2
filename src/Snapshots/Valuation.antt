-- ===== src/Snapshots/Valuation.antt =====
-- backend/app/services/inventory_valuation_service.py and
-- backend/app/analytics/inventory_valuation_aggregation.py on the table of inventory snapshots of
-- one organisation, newest row first.
pub mod Active
use Prim.Native.String.{String}
use procure_foundation.Prelude.{
  ℕ, suc, Bool, true, false, not, ◌&&◌, ◌==◌, Option, none, some, List, [], ◌∷◌, map, length,
  filter, if◌then◌else◌,
}
use procure_foundation.Prelude.Int.{pos}
use procure_foundation.Result.{Result, ok, conflict, raise_if, ◌>>=◌, ◌>>◌}
use procure_foundation.Decimal.{Decimal, add, mul}
use procure_foundation.Calendar.{Date}
use procure_foundation.Snapshots.WorkingCapital.{is_original}

-- A record that validation has passed: an SKU and a quantity are there.
pub record ValuationRecord : Type 0 where
  pub supplier_sku : String
  pub description : Option String
  pub quantity_on_hand : Decimal
  pub unit_cost : Option Decimal

pub record InventorySnapshot : Type 0 where
  pub id : ℕ
  pub location_id : ℕ
  pub snapshot_date : Date
  pub supplier_sku : String
  pub description : String
  pub quantity_on_hand : Decimal
  pub unit_cost : Option Decimal
  pub corrects_id : Option ℕ
  pub source_file_storage_key : Option String
  pub uploaded_by_user_id : ℕ

abbrev add_value : Decimal → Decimal → Option Decimal → Decimal
add_value total quantity none = total
add_value total quantity (some cost) = add total (mul quantity cost)

unfoldable pub valuation_from : Decimal → List ValuationRecord → Decimal
valuation_from total [] = total
valuation_from total (r ∷ records) =
    valuation_from (add_value total r.quantity_on_hand r.unit_cost) records

unfoldable pub calculate_batch_asset_valuation : List ValuationRecord → Decimal
unfolding valuation_from
calculate_batch_asset_valuation = valuation_from (pos 0)

-- `build_reconciliation_audit_context`; the amount and the date are not printed here.
pub record ReconciliationContext : Type 0 where
  pub record_count : ℕ
  pub total_asset_valuation : Decimal
  pub snapshot_date : Date
  pub file_hash : Option String

pub record ValuationAudit : Type 0 where
  pub user_id : ℕ
  pub action : String
  pub context : ReconciliationContext

pub record ValuationTables : Type 0 where
  pub snapshots : List InventorySnapshot
  pub audit_log : List ValuationAudit

pub record ValuationResult : Type 0 where
  pub record_count : ℕ
  pub total_asset_valuation : Decimal
  pub snapshot_ids : List ℕ

abbrev pub is_active_at : ℕ → Date → InventorySnapshot → Bool
is_active_at location_id date s =
    (s.location_id == location_id) && ((s.snapshot_date == date) && is_original s.corrects_id)

abbrev pub active_at : ℕ → Date → List InventorySnapshot → List InventorySnapshot
active_at location_id date = filter (is_active_at location_id date)

-- `description or supplier_sku`
abbrev or_sku : String → Option String → String
or_sku sku none = sku
or_sku sku (some String.[]) = sku
or_sku sku (some (String.◌∷◌ c s)) = String.◌∷◌ c s

-- `next(corrects_iter, None)`
abbrev pub next_of : List ℕ → Option ℕ
next_of [] = none
next_of (id ∷ ids) = some id

abbrev pub rest_of : List ℕ → List ℕ
rest_of [] = []
rest_of (id ∷ ids) = ids

abbrev pub snapshot_of :
    ℕ → Option String → ℕ → ℕ → Date → Option ℕ → ValuationRecord → InventorySnapshot
snapshot_of user_id storage_key id location_id date corrects_id r = record {
  id = id;
  location_id = location_id;
  snapshot_date = date;
  supplier_sku = r.supplier_sku;
  description = or_sku r.supplier_sku r.description;
  quantity_on_hand = r.quantity_on_hand;
  unit_cost = r.unit_cost;
  corrects_id = corrects_id;
  source_file_storage_key = storage_key;
  uploaded_by_user_id = user_id;
}

-- The loop over the records, with the ids that are still to be corrected.
unfoldable pub insert_all :
    ℕ
    → Option String
    → ℕ
    → Date
    → List ℕ
    → List ValuationRecord
    → List InventorySnapshot
    → List InventorySnapshot
insert_all user_id storage_key location_id date ids [] table = table
insert_all user_id storage_key location_id date ids (r ∷ records) table =
    insert_all user_id storage_key location_id date (rest_of ids) records (
      snapshot_of user_id storage_key (suc (length table)) location_id date (next_of ids) r ∷ table)

-- The keys that the loop gives, for a table of that many rows.
abbrev pub ids_from : ℕ → List ValuationRecord → List ℕ
ids_from n [] = []
ids_from n (r ∷ records) = suc n ∷ ids_from (suc n) records

abbrev pub is_any : List ℕ → Bool
is_any [] = false
is_any (id ∷ ids) = true

unfoldable pub ingest_inventory_valuation :
    ℕ
    → ℕ
    → Date
    → List ValuationRecord
    → Option String
    → Option String
    → Bool
    → ValuationTables
    → Result (ValuationTables × ValuationResult)
unfolding insert_all calculate_batch_asset_valuation
ingest_inventory_valuation user_id location_id date records storage_key file_hash is_correction t =
    let existing_ids = map (λ s. s.id) (active_at location_id date t.snapshots) in
    let ids = if is_correction then existing_ids else [] in
    let total = calculate_batch_asset_valuation records in
    raise_if (is_any existing_ids && not is_correction) conflict
    >> ok (
      record {
        snapshots = insert_all user_id storage_key location_id date ids records t.snapshots;
        audit_log =
            record {
              user_id = user_id;
              action =
                  if is_correction
                  then "inventory_valuation_corrected"
                  else "inventory_valuation_ingested";
              context = record {
                record_count = length records;
                total_asset_valuation = total;
                snapshot_date = date;
                file_hash = file_hash;
              };
            }
            ∷ t.audit_log;
      },
      record {
        record_count = length records;
        total_asset_valuation = total;
        snapshot_ids = ids_from (length t.snapshots) records;
      },
    )
