-- ===== src/PriceReview/RunMatching/Inputs.antt =====
-- The staged rows that `run_matching` of backend/app/services/price_review_service.py reads, their
-- prices, and the index `new_by_sku`.
use Prim.Native.String.{String}
use procure_foundation.Prelude.{Bool, true, false, Option, none, some, List, [], ◌∷◌, if◌then◌else◌}
use procure_foundation.Result.{
  Result, ok, err, value_error, unrecognized_pack_format, invalid_operation, key_error, ◌>>=◌,
}
use procure_foundation.Decimal.{Decimal}
use procure_foundation.Matching.Text.{Text, codes, eq_text, is_empty}
use procure_foundation.Matching.PackParser.{parse_pack_string, price_per_base_unit}
use procure_foundation.Matching.Scorer.{CandidateItem}

-- What `row.get("price")` holds: nothing or something falsy; a cell that `Decimal` reads; one that
-- it does not read.
pub data PriceCell : Type 0 where
  no_price : PriceCell
  number : Decimal → PriceCell
  unreadable : PriceCell

-- A staged row. The key `supplier_sku` is there, perhaps with None.
pub record StagedRow : Type 0 where
  pub supplier_sku : Option Text
  pub barcode : Option Text
  pub description : Option Text
  pub pack_size : Option Text
  pub price : PriceCell

-- `Decimal(str(r["price"])) if r.get("price") else None`
unfoldable pub price_of : PriceCell → Result (Option Decimal)
price_of no_price = ok none
price_of (number price) = ok (some price)
price_of unreadable = err invalid_operation

abbrev pub Normalized : Type 0
Normalized = Option Decimal × Option String

-- `except (UnrecognizedPackFormatError, ValueError): return None, None`
abbrev pub or_raw : Result Normalized → Result Normalized
or_raw (err value_error) = ok (none, none)
or_raw (err unrecognized_pack_format) = ok (none, none)
or_raw (err raised) = err raised
or_raw (ok prices) = ok prices

abbrev pub normalized_price : Decimal → Text → Result Normalized
normalized_price price pack_raw = do
  parsed ← parse_pack_string (some pack_raw)
  per_unit ← price_per_base_unit price parsed
  ok (some per_unit, some parsed.base_unit)

-- `_normalize`
unfoldable pub normalize : Option Text → Option Decimal → Result Normalized
unfolding parse_pack_string price_per_base_unit
normalize none price = ok (none, none)
normalize (some pack_raw) none = ok (none, none)
normalize (some pack_raw) (some price) =
    if is_empty pack_raw then ok (none, none) else or_raw (normalized_price price pack_raw)

-- `str(sku)`
abbrev pub sku_key : Option Text → Text
sku_key none = codes "None"
sku_key (some sku) = sku

-- `text or ""`
abbrev pub or_blank : Option Text → Text
or_blank none = []
or_blank (some t) = t

abbrev pub candidate_of : StagedRow → CandidateItem
candidate_of row = record {
  key = sku_key row.supplier_sku;
  supplier_sku = row.supplier_sku;
  barcode = row.barcode;
  description = or_blank row.description;
}

abbrev pub eq_sku : Option Text → Option Text → Bool
eq_sku none none = true
eq_sku (some s) (some t) = eq_text s t
eq_sku _ _ = false

-- `rows[sku] = row`: a key that is there keeps its place.
unfoldable pub set_row :
    List (Option Text × StagedRow) → Option Text → StagedRow → List (Option Text × StagedRow)
unfolding eq_text
set_row [] sku row = (sku, row) ∷ []
set_row ((key, old) ∷ rows) sku row =
    let rest = set_row rows sku row in
    if eq_sku key sku then (key, row) ∷ rows else (key, old) ∷ rest

unfoldable pub set_rows :
    List (Option Text × StagedRow) → List StagedRow → List (Option Text × StagedRow)
unfolding set_row
set_rows rows [] = rows
set_rows rows (r ∷ rs) = set_rows (set_row rows r.supplier_sku r) rs

-- `{r["supplier_sku"]: r for r in new_rows}`
abbrev pub new_by_sku : List StagedRow → List (Option Text × StagedRow)
new_by_sku = set_rows []

-- `new_by_sku[key]`: the key is a string.
unfoldable pub get_row : List (Option Text × StagedRow) → Text → Result StagedRow
unfolding eq_text
get_row [] sku = err key_error
get_row ((key, row) ∷ rows) sku = if eq_sku key (some sku) then ok row else get_row rows sku
