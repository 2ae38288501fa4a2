-- ===== src/PriceReview/Summary.antt =====
-- backend/app/analytics/price_review_summary.py: the supplier summary of a review.
use procure_foundation.Prelude.{
  ℕ, ◌+◌, Bool, true, false, not, ◌||◌, Option, none, some, List, [], ◌∷◌, length, filter,
  if◌then◌else◌,
}
use procure_foundation.Prelude.Int.{ℤ, pos, sub_ℕ, eqb_ℤ}
use procure_foundation.Result.{Result, ok, ◌>>=◌}
use procure_foundation.Decimal.{Decimal, add, mul, div, round_percentage}
use procure_foundation.PriceReview.Calculations.{
  MovementType, new_product, discontinued, review_required, pack_change, price_increase,
  price_decrease, no_change,
}

pub record PriceReviewLineForSummary : Type 0 where
  pub movement_type : MovementType
  pub percentage_change : Option Decimal
  pub annual_impact : Option Decimal
  pub annual_quantity : Option Decimal
  pub pack_changed : Bool
  pub requires_review : Bool

pub record SupplierSummary : Type 0 where
  pub total_previous_skus : ℕ
  pub total_new_skus : ℕ
  pub matched_skus : ℕ
  pub unmatched_skus : ℤ
  pub new_skus : ℕ
  pub discontinued_skus : ℕ
  pub increasing_skus : ℕ
  pub decreasing_skus : ℕ
  pub unchanged_skus : ℕ
  pub pack_changes : ℕ
  pub weighted_average_price_increase_pct : Option Decimal
  pub annual_cost_impact : Decimal
  pub products_requiring_manual_review : ℕ

abbrev pub is_priced : MovementType → Bool
is_priced price_increase = true
is_priced price_decrease = true
is_priced no_change = true
is_priced pack_change = true
is_priced _ = false

-- The numerator and the denominator with one more line.
abbrev weigh : Option Decimal → Option Decimal → Bool → Decimal × Decimal → Decimal × Decimal
weigh (some pct) (some quantity) true (n, d) = (add n (mul pct quantity), add d quantity)
weigh _ _ _ sums = sums

unfoldable pub weigh_all : Decimal × Decimal → List PriceReviewLineForSummary → Decimal × Decimal
weigh_all sums [] = sums
weigh_all sums (l ∷ ls) =
    weigh_all (weigh l.percentage_change l.annual_quantity (is_priced l.movement_type) sums) ls

abbrev average : Decimal × Decimal → Result (Option Decimal)
average (numerator, denominator) =
    if eqb_ℤ denominator (pos 0)
    then ok none
    else (div numerator denominator >>= λ q. round_percentage q >>= λ r. ok (some r))

unfoldable pub weighted_average_increase : List PriceReviewLineForSummary → Result (Option Decimal)
unfolding weigh_all
weighted_average_increase lines = average (weigh_all (pos 0, pos 0) lines)

abbrev pub is_increase : MovementType → Bool
is_increase price_increase = true
is_increase _ = false

abbrev pub is_decrease : MovementType → Bool
is_decrease price_decrease = true
is_decrease _ = false

abbrev pub is_unchanged : MovementType → Bool
is_unchanged no_change = true
is_unchanged _ = false

abbrev pub is_new : MovementType → Bool
is_new new_product = true
is_new _ = false

abbrev pub is_discontinued : MovementType → Bool
is_discontinued discontinued = true
is_discontinued _ = false

abbrev pub is_unreviewed : MovementType → Bool
is_unreviewed review_required = true
is_unreviewed _ = false

-- Neither new nor discontinued nor awaiting review.
abbrev pub is_matched : MovementType → Bool
is_matched m = not (is_new m || is_discontinued m || is_unreviewed m)

abbrev pub Lines : Type 0
Lines = List PriceReviewLineForSummary

abbrev pub lines_with : (MovementType → Bool) → Lines → Lines
lines_with p = filter λ l. p l.movement_type

unfoldable pub total_impact : Decimal → Lines → Decimal
total_impact total [] = total
total_impact total (l ∷ ls) =
    total_impact (elim l.annual_impact [ none ↦ total | some a ↦ add total a ]) ls

unfoldable pub summarize : Lines → ℕ → ℕ → Result SupplierSummary
unfolding weighted_average_increase total_impact
summarize lines total_previous_skus total_new_skus =
    let matched = lines_with is_matched lines in
    let new_products = lines_with is_new lines in
    let gone = lines_with is_discontinued lines in
    weighted_average_increase lines >>= λ pct. ok (record {
      total_previous_skus = total_previous_skus;
      total_new_skus = total_new_skus;
      matched_skus = length matched;
      unmatched_skus = sub_ℕ (length lines) (length matched + length new_products + length gone);
      new_skus = length new_products;
      discontinued_skus = length gone;
      increasing_skus = length (lines_with is_increase matched);
      decreasing_skus = length (lines_with is_decrease matched);
      unchanged_skus = length (lines_with is_unchanged matched);
      pack_changes = length (filter (λ l. l.pack_changed) lines);
      weighted_average_price_increase_pct = pct;
      annual_cost_impact = total_impact (pos 0) lines;
      products_requiring_manual_review = length (filter (λ l. l.requires_review) lines);
    })
