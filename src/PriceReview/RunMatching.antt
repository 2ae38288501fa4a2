-- ===== src/PriceReview/RunMatching.antt =====
-- `run_matching` of backend/app/services/price_review_service.py: the lines of a review from the
-- rows of the old and of the new price list.
mod Inputs
pub mod Index
pub mod Prices
pub mod Rows
pub mod Lines
pub mod Accounting
mod Tests
unfoldable pub use Inputs.*
use Prim.Native.String.{String}
use procure_foundation.Prelude.{
  ℕ, Bool, true, false, not, ◌||◌, Option, none, some, List, [], ◌∷◌, ◌++◌, map, if◌then◌else◌,
}
use procure_foundation.Result.{
  Result, ok, err, Error, value_error, unrecognized_pack_format, invalid_operation, key_error,
  ◌>>=◌,
}
use procure_foundation.Decimal.{Decimal}
use procure_foundation.Matching.Text.{Text, codes, eq_text, is_empty}
use procure_foundation.Matching.PackParser.{ParsedPack, parse_pack_string, price_per_base_unit}
use procure_foundation.Matching.Scorer.{
  CandidateItem, MatchResult, MatchStatus, no_candidate, unmatched, requires_human_review,
  find_best_match,
}
use procure_foundation.PriceReview.Calculations.{PriceReviewMatchStatus, matched, MovementType}
use procure_foundation.PriceReview.Line.{PriceReviewLine, scored}
use procure_foundation.PriceReview.RunMatching.Inputs.{
  StagedRow, no_price, price_of, Normalized, normalize, candidate_of, or_blank, eq_sku, set_rows,
  new_by_sku, get_row,
}

-- The old row's columns of a line, and no others.
abbrev pub old_side : StagedRow → Option Decimal → Normalized → PriceReviewLine
old_side row price (norm, unit) = record {
  match_status = PriceReviewMatchStatus.discontinued;
  match_method = some (scored unmatched);
  match_confidence = none;
  match_confirmed_by_user_id = none;
  old_supplier_sku = row.supplier_sku;
  old_description = row.description;
  old_pack_raw = row.pack_size;
  old_price = price;
  old_normalized_price = norm;
  old_normalized_base_unit = unit;
  new_supplier_sku = none;
  new_description = none;
  new_pack_raw = none;
  new_price = none;
  new_normalized_price = none;
  new_normalized_base_unit = none;
  pack_changed = false;
  annual_quantity = none;
  quantity_is_manual = false;
  quantity_confidence = none;
  selling_price = none;
  comparison_basis = none;
  movement_type = some MovementType.discontinued;
  absolute_change = none;
  percentage_change = none;
  risk_classification = none;
  annual_impact = none;
  old_margin_pct = none;
  new_margin_pct = none;
  margin_movement_pct = none;
  annual_margin_impact = none;
  target_price = none;
  potential_cost_avoidance = none;
  final_negotiated_price = none;
  actual_cost_avoidance = none;
  buyer_decision = none;
  buyer_decision_notes = none;
  buyer_decision_by_user_id = none;
  buyer_decision_at = none;
}

abbrev pub with_new_side :
    StagedRow → Option Decimal → Normalized → PriceReviewLine → PriceReviewLine
with_new_side row price (norm, unit) line = record line {
  new_supplier_sku = row.supplier_sku;
  new_description = row.description;
  new_pack_raw = row.pack_size;
  new_price = price;
  new_normalized_price = norm;
  new_normalized_base_unit = unit;
}

abbrev pub is_no_candidate : MatchStatus → Bool
is_no_candidate no_candidate = true
is_no_candidate _ = false

-- `MATCHED if not requires_human_review(result.status) else REVIEW_REQUIRED`
abbrev pub status_of : MatchStatus → PriceReviewMatchStatus
status_of status =
    if requires_human_review status then PriceReviewMatchStatus.review_required else matched

-- The line of a pair of rows.
abbrev pub pair_line :
    StagedRow
    → Option Decimal
    → Normalized
    → StagedRow
    → Option Decimal
    → Normalized
    → MatchResult
    → PriceReviewLine
pair_line old_row old_price old_norm new_row new_price new_norm result =
    record (with_new_side new_row new_price new_norm (old_side old_row old_price old_norm)) {
      match_status = status_of result.status;
      match_method = some (scored result.method);
      match_confidence = some result.confidence;
      pack_changed = not (eq_text (or_blank old_row.pack_size) (or_blank new_row.pack_size));
      movement_type = none;
    }

-- The line of a row that is on the new list only.
abbrev pub new_line : StagedRow → Option Decimal → Normalized → PriceReviewLine
new_line row price norm =
    let no_row : StagedRow = record {
      supplier_sku = none;
      barcode = none;
      description = none;
      pack_size = none;
      price = no_price;
    } in
    record (with_new_side row price norm (old_side no_row none (none, none))) {
      match_status = PriceReviewMatchStatus.new_product;
      movement_type = some MovementType.new_product;
    }

module _ (by_sku : List (Option Text × StagedRow)) where
  -- A line and the keys that the loop adds to `matched_new_skus`.
  unfoldable pub pair_with :
      StagedRow
      → Option Decimal
      → Normalized
      → MatchResult
      → Option Text
      → Result (PriceReviewLine × List Text)
  unfolding get_row price_of normalize
  pair_with row price norm result none = ok (old_side row price norm, [])
  pair_with row price norm result (some key) =
      if is_no_candidate result.status then ok (old_side row price norm, []) else (do
        new_row ← get_row by_sku key
        new_price ← price_of new_row.price
        new_norm ← normalize new_row.pack_size new_price
        ok (pair_line row price norm new_row new_price new_norm result, key ∷ []))

  -- The body of the loop over the old rows.
  unfoldable pub match_row : MatchResult → StagedRow → Result (PriceReviewLine × List Text)
  unfolding pair_with price_of normalize
  match_row result row = do
    price ← price_of row.price
    norm ← normalize row.pack_size price
    pair_with row price norm result result.new_key

  unfoldable pub match_rows :
      (StagedRow → MatchResult) → List StagedRow → Result (List PriceReviewLine × List Text)
  unfolding match_row
  match_rows best [] = ok ([], [])
  match_rows best (row ∷ rows) = match_row (best row) row >>= λ (line, keys).
      match_rows best rows >>= λ (lines, matched_new_skus).
      ok (line ∷ lines, keys ++ matched_new_skus)

-- `sku in matched_new_skus`, whose members are strings.
abbrev pub is_matched_sku : Option Text → List Text → Bool
is_matched_sku sku [] = false
is_matched_sku sku (key ∷ keys) = eq_sku sku (some key) || is_matched_sku sku keys

-- The loop over `new_by_sku.items()`.
unfoldable pub new_lines :
    List Text → List (Option Text × StagedRow) → Result (List PriceReviewLine)
unfolding price_of normalize eq_text
new_lines matched_new_skus [] = ok []
new_lines matched_new_skus ((sku, row) ∷ rows) =
    let rest = new_lines matched_new_skus rows in
    if is_matched_sku sku matched_new_skus then rest else (do
      price ← price_of row.price
      norm ← normalize row.pack_size price
      lines ← rest
      ok (new_line row price norm ∷ lines))

-- The best match of an old row.
abbrev pub best_for : (Text → Text → ℕ) → List StagedRow → StagedRow → MatchResult
best_for combined_description_score new_rows row =
    find_best_match combined_description_score (candidate_of row) (map candidate_of new_rows)

unfoldable pub run_matching :
    (Text → Text → ℕ) → List StagedRow → List StagedRow → Result (List PriceReviewLine)
unfolding match_rows new_lines set_rows find_best_match
run_matching combined_description_score old_rows new_rows = do
  let by_sku = new_by_sku new_rows
  (lines, matched_new_skus) ←
      match_rows by_sku (best_for combined_description_score new_rows) old_rows
  added ← new_lines matched_new_skus by_sku
  ok (lines ++ added)
