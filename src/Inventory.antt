-- ===== src/Inventory.antt =====
-- backend/app/analytics/inventory_calculations.py: the grain of a snapshot upload, the last movement
-- of an item, the value of excess stock, and the risk of expiry.
pub mod Movement
mod Tests
use Prim.Native.String.{String}
use text.Mathlib.Text.{◌==◌ as str_eq}
use procure_foundation.Prelude.{
  ℕ, Bool, true, false, ◌&&◌, Option, none, some, List, [], ◌∷◌, ◌++◌, append_one, filter, foldl,
  length, ltb, ◌==◌, if◌then◌else◌,
}
use procure_foundation.Prelude.Int.{ℤ, pos, ltb_ℤ, leb_ℤ}
use procure_foundation.Result.{Result, ok, ◌>>=◌}
use procure_foundation.Decimal.{Decimal, sub, mul, round_currency}
use procure_foundation.Calendar.{Date, days_between}

pub record SnapshotRow : Type 0 where
  pub description : String
  pub supplier_sku : Option String
  pub location_id : ℕ
  pub snapshot_date : Date
  pub row_index : ℕ

-- `(description, supplier_sku, location_id, snapshot_date)`
abbrev pub Key : Type 0
Key = String × Option String × ℕ × Date

abbrev pub key_of : SnapshotRow → Key
key_of row = (row.description, row.supplier_sku, row.location_id, row.snapshot_date)

abbrev pub eq_sku : Option String → Option String → Bool
eq_sku none none = true
eq_sku (some a) (some b) = str_eq a b
eq_sku _ _ = false

unfoldable pub eq_key : Key → Key → Bool
eq_key (d, s, l, t) (d', s', l', t') = str_eq d d' && eq_sku s s' && (l == l') && (t == t')

pub record GrainViolation : Type 0 where
  pub key : Key
  pub row_indices : List ℕ

-- `rows_by_key[key].append(row.row_index)` on a dict in the order of its keys' insertion.
unfoldable pub append_row : Key → ℕ → List GrainViolation → List GrainViolation
append_row k i [] = record { key = k; row_indices = i ∷ [] } ∷ []
append_row k i (g ∷ gs) =
    if eq_key g.key k
    then record g { row_indices = append_one g.row_indices i } ∷ gs
    else g ∷ append_row k i gs

unfoldable pub rows_by_key : List GrainViolation → List SnapshotRow → List GrainViolation
rows_by_key gs [] = gs
rows_by_key gs (row ∷ rows) = rows_by_key (append_row (key_of row) row.row_index gs) rows

abbrev pub is_repeated : GrainViolation → Bool
is_repeated g = ltb 1 (length g.row_indices)

unfoldable pub validate_snapshot_grain : List SnapshotRow → List GrainViolation
unfolding rows_by_key append_row
validate_snapshot_grain rows = filter is_repeated (rows_by_key [] rows)

-- From the newest snapshot backwards: the newest is handed in with the older ones.
unfoldable pub last_decrease : Date → Date × Decimal → List (Date × Decimal) → ℤ
last_decrease as_of (earliest, _) [] = days_between as_of earliest
last_decrease as_of (current_date, current_qty) ((prior_date, prior_qty) ∷ older) =
    let rest = last_decrease as_of (prior_date, prior_qty) older in
    if ltb_ℤ current_qty prior_qty then days_between as_of current_date else rest

unfoldable pub reverse_onto : List (Date × Decimal) → List (Date × Decimal) → List (Date × Decimal)
reverse_onto acc [] = acc
reverse_onto acc (x ∷ xs) = reverse_onto (x ∷ acc) xs

unfoldable pub from_newest : Date → List (Date × Decimal) → Option ℤ
unfolding last_decrease
from_newest as_of [] = none
from_newest as_of (only ∷ []) = none
from_newest as_of (newest ∷ prior ∷ older) = some (last_decrease as_of newest (prior ∷ older))

-- The loop counts down from the last snapshot, which is the first of the reversed list.
unfoldable pub calculate_days_since_last_movement : List (Date × Decimal) → Date → Option ℤ
unfolding from_newest reverse_onto
calculate_days_since_last_movement ordered_snapshots as_of =
    from_newest as_of (reverse_onto [] ordered_snapshots)

-- `max(Decimal(0), value)`
abbrev pub at_least_zero : Decimal → Decimal
at_least_zero value = if ltb_ℤ (pos 0) value then value else pos 0

unfoldable pub calculate_excess_stock_value :
    Decimal → Option Decimal → Option Decimal → Result (Option Decimal)
calculate_excess_stock_value quantity_on_hand (some reorder_level) (some unit_cost) =
    round_currency (mul (at_least_zero (sub quantity_on_hand reorder_level)) unit_cost) >>= λ v.
    ok (some v)
calculate_excess_stock_value quantity_on_hand _ _ = ok none

pub data ExpiryRisk : Type 0 where
  no_expiry_tracked expired expiring_soon healthy : ExpiryRisk

unfoldable pub classify_expiry_risk : Option Date → Date → ℤ → ExpiryRisk
classify_expiry_risk none as_of warning_window_days = no_expiry_tracked
classify_expiry_risk (some expiry_date) as_of warning_window_days =
    if ltb expiry_date as_of
    then expired
    else if leb_ℤ (days_between expiry_date as_of) warning_window_days
    then expiring_soon
    else healthy
