-- ===== src/PriceReview/Tests.antt =====
-- Runs of the price review, and its theorems at concrete lines.
use procure_foundation.Prelude.{
  List, [], ◌∷◌, length, ◌+◌, ◌≡◌, ◌≢◌, ◌⊎◌, refl, true, false, none, some,
}
use procure_foundation.Prelude.Int.{pos, ◌≤ℤ◌}
use procure_foundation.Result.{ok, err, value_error}
use procure_foundation.Decimal.{Decimal, decimal, arithmetic}
use Prim.Native.String.{String}
use mathlib.Core.Bool.{false≢true}
use text.Mathlib.TextEquality.{eq_iff}
use procure_foundation.Matching.Text.{codes}
use procure_foundation.Matching.Scorer.{sku}
use procure_foundation.PriceReview.{
  calculations, matched, scored, manual_override, PriceReviewLine, MovementType, price_increase,
  normalized, Risk, Confidence, classify_risk, calculate_percentage_change, calculate_gross_margin,
  calculate_annualized_quantity, calculate_required_selling_price, calculate_line_movement,
  choose_different, resolve_match,
}
use procure_foundation.PriceReview.Summary.{
  PriceReviewLineForSummary, SupplierSummary, lines_with, is_unreviewed, is_matched, weigh_all,
  total_impact, weighted_average_increase, summarize,
}
use procure_foundation.PriceReview.Counts.{is_pack, summarize-counts}
use procure_foundation.PriceReview.Movement.{
  IsCompared, Moves, AreComparable, IsDirected, calculate_line_movement_comparable,
  calculate_line_movement_direction,
}
use procure_foundation.PriceReview.Review.{resolve_match_stale_unit}

-- 45 to 48 is an increase of 6.6667%.
change_of_three :
    calculate_percentage_change (decimal 45 0) (decimal 48 0) ≡ ok (some (decimal 66667 6))
unfolding calculations arithmetic
change_of_three = refl

no_change_from_zero : calculate_percentage_change (pos 0) (decimal 48 0) ≡ ok none
unfolding calculate_percentage_change
no_change_from_zero = refl

high_risk : classify_risk (some (decimal 66667 6)) ≡ Risk.high
unfolding calculations arithmetic
high_risk = refl

margin_of_a_third :
    calculate_gross_margin (decimal 90 0) (decimal 60 0) ≡ ok (decimal 30 0, decimal 333333 6)
unfolding calculations arithmetic
margin_of_a_third = refl

half_a_year :
    calculate_annualized_quantity (decimal 100 0) (decimal 6 0)
    ≡ ok (decimal 200 0, Confidence.medium)
unfolding calculations arithmetic
half_a_year = refl

no_margin_of_one : calculate_required_selling_price (decimal 70 0) (decimal 1 0) ≡ err value_error
unfolding calculations arithmetic
no_margin_of_one = refl

-- R45 and R48 a kilogram, with nothing calculated yet.
abbrev sample : PriceReviewLine
sample = record {
  match_status = matched;
  match_method = some (scored sku);
  match_confidence = some 10000;
  match_confirmed_by_user_id = none;
  old_supplier_sku = some (codes "A1");
  old_description = none;
  old_pack_raw = some (codes "10kg");
  old_price = some (decimal 450 0);
  old_normalized_price = some (decimal 45 0);
  old_normalized_base_unit = some "kg";
  new_supplier_sku = some (codes "A1");
  new_description = none;
  new_pack_raw = some (codes "10kg");
  new_price = some (decimal 480 0);
  new_normalized_price = some (decimal 48 0);
  new_normalized_base_unit = some "kg";
  pack_changed = false;
  annual_quantity = some (decimal 1000 0);
  quantity_is_manual = false;
  quantity_confidence = none;
  selling_price = none;
  comparison_basis = none;
  movement_type = none;
  absolute_change = none;
  percentage_change = none;
  risk_classification = none;
  annual_impact = none;
  old_margin_pct = none;
  new_margin_pct = none;
  margin_movement_pct = none;
  annual_margin_impact = none;
  target_price = none;
  potential_cost_avoidance = none;
  final_negotiated_price = none;
  actual_cost_avoidance = none;
  buyer_decision = none;
  buyer_decision_notes = none;
  buyer_decision_by_user_id = none;
  buyer_decision_at = none;
}

abbrev moved : PriceReviewLine
moved = record sample {
  comparison_basis = some normalized;
  movement_type = some price_increase;
  absolute_change = some (decimal 3 0);
  percentage_change = some (decimal 66667 6);
  risk_classification = some Risk.high;
  annual_impact = some (decimal 3000 0);
}

moves : calculate_line_movement sample ≡ ok moved
unfolding calculate_line_movement calculations arithmetic
moves = refl

calculate_line_movement_comparable_example : IsCompared matched × Moves sample moved
calculate_line_movement_comparable_example =
    calculate_line_movement_comparable sample {l = moved} moves refl refl

calculate_line_movement_direction_example :
    (old new : Decimal) × AreComparable sample old new
    × ((old ≤ℤ pos 0) ⊎ IsDirected price_increase old new)
calculate_line_movement_direction_example =
    calculate_line_movement_direction sample {l = moved} moves refl refl refl

-- R50 a litre, chosen for the line by hand.
abbrev candidate : PriceReviewLine
candidate = record sample {
  new_price = some (decimal 500 0);
  new_normalized_price = some (decimal 50 0);
  new_normalized_base_unit = some "L";
}

abbrev chosen : PriceReviewLine
chosen = record sample {
  new_price = some (decimal 500 0);
  new_normalized_price = some (decimal 50 0);
  match_method = some manual_override;
  match_confirmed_by_user_id = some 7;
  comparison_basis = some normalized;
  movement_type = some price_increase;
  absolute_change = some (decimal 5 0);
  percentage_change = some (decimal 111111 6);
  risk_classification = some Risk.critical;
  annual_impact = some (decimal 5000 0);
}

chooses : resolve_match 7 (choose_different (some candidate)) sample ≡ ok chosen
unfolding resolve_match calculations arithmetic
chooses = refl

kg-ne-litre : ◌≢◌ {A = String} "kg" "L"
kg-ne-litre e = false≢true ((eq_iff "kg" "L").1 e)

resolve_match_stale_unit_example :
    (chosen.new_normalized_price ≡ candidate.new_normalized_price)
    × (chosen.new_normalized_base_unit ≡ some "kg")
    × (chosen.new_normalized_base_unit ≢ candidate.new_normalized_base_unit)
    × (chosen.comparison_basis ≡ some normalized)
resolve_match_stale_unit_example =
    resolve_match_stale_unit 7 sample candidate (decimal 45 0) (decimal 50 0) "kg" "L" {l = chosen}
      refl refl refl refl refl kg-ne-litre chooses

abbrev summary_line : PriceReviewLineForSummary
summary_line = record {
  movement_type = price_increase;
  percentage_change = some (decimal 1 1);
  annual_impact = some (decimal 100 0);
  annual_quantity = some (decimal 30 0);
  pack_changed = false;
  requires_review = false;
}

abbrev summary_lines : List PriceReviewLineForSummary
summary_lines =
    summary_line
    ∷ record summary_line {
      movement_type = MovementType.no_change;
      percentage_change = some (pos 0);
    }
    ∷ record summary_line { movement_type = MovementType.new_product; annual_impact = none }
    ∷ record summary_line { movement_type = MovementType.review_required; requires_review = true }
    ∷ []

abbrev summary : SupplierSummary
summary = record {
  total_previous_skus = 3;
  total_new_skus = 4;
  matched_skus = 2;
  unmatched_skus = pos 1;
  new_skus = 1;
  discontinued_skus = 0;
  increasing_skus = 1;
  decreasing_skus = 0;
  unchanged_skus = 1;
  pack_changes = 0;
  weighted_average_price_increase_pct = some (decimal 5 2);
  annual_cost_impact = decimal 300 0;
  products_requiring_manual_review = 1;
}

summarizes : summarize summary_lines 3 4 ≡ ok summary
unfolding summarize weighted_average_increase weigh_all total_impact arithmetic
summarizes = refl

summarize-counts_example :
    (pos 1 ≡ pos (length (lines_with is_unreviewed summary_lines)))
    × (length summary_lines ≡ 2 + 1 + 0 + length (lines_with is_unreviewed summary_lines))
    × (2 ≡ 1 + 0 + 1 + length (lines_with is_pack (lines_with is_matched summary_lines)))
summarize-counts_example = summarize-counts summary_lines 3 4 {s = summary} summarizes
