-- ===== src/Inventory/Tests.antt =====
-- Runs of the inventory functions, and the last movement of a concrete series.
use procure_foundation.Prelude.{◌≡◌, refl, some, List, [], ◌∷◌}
use procure_foundation.Prelude.Int.{pos}
use procure_foundation.Result.{ok}
use procure_foundation.Decimal.{Decimal, decimal, arithmetic}
use procure_foundation.Calendar.{Date}
use procure_foundation.Inventory.{
  SnapshotRow, key_of, eq_key, append_row, rows_by_key, validate_snapshot_grain, last_decrease,
  reverse_onto, from_newest, calculate_days_since_last_movement, calculate_excess_stock_value,
  expiring_soon, expired, classify_expiry_risk,
}

abbrev flour : SnapshotRow
flour = record {
  description = "flour";
  supplier_sku = some "F1";
  location_id = 1;
  snapshot_date = 739_000;
  row_index = 0;
}

finds_the_repeated_row :
    validate_snapshot_grain (
      flour ∷ record flour { location_id = 2; row_index = 1 } ∷ record flour { row_index = 2 } ∷ [])
    ≡ record { key = key_of flour; row_indices = 0 ∷ 2 ∷ [] } ∷ []
unfolding validate_snapshot_grain rows_by_key append_row eq_key
finds_the_repeated_row = refl

values_the_excess :
    calculate_excess_stock_value (decimal 120 0) (some (decimal 100 0)) (some (decimal 15 1))
    ≡ ok (some (decimal 30 0))
unfolding calculate_excess_stock_value arithmetic
values_the_excess = refl

expires_on_the_edge : classify_expiry_risk (some 739_030) 739_000 (pos 30) ≡ expiring_soon
unfolding classify_expiry_risk
expires_on_the_edge = refl

has_expired : classify_expiry_risk (some 738_999) 739_000 (pos 30) ≡ expired
unfolding classify_expiry_risk
has_expired = refl

abbrev series : List (Date × Decimal)
series = (739_000, pos 9) ∷ (739_010, pos 7) ∷ (739_020, pos 7) ∷ (739_030, pos 8) ∷ []

twenty_one_days : calculate_days_since_last_movement series 739_031 ≡ some (pos 21)
unfolding calculate_days_since_last_movement from_newest reverse_onto last_decrease
twenty_one_days = refl
