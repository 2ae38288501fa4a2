-- ===== src/PriceReview/Line.antt =====
-- A line of a price review and the operations of backend/app/services/price_review_service.py on
-- it. An operation returns the line that is committed; after an exception nothing is committed.
-- The audit record is left out.
use Prim.Native.String.{String}
use procure_foundation.Prelude.{ℕ, Bool, true, false, Option, none, some}
use procure_foundation.Result.{Result, ok, err, validation_failed, ◌>>=◌}
use procure_foundation.Decimal.{Decimal, sub}
use procure_foundation.Matching.Text.{Text}
use procure_foundation.Matching.Scorer.{MatchMethod}
use procure_foundation.PriceReview.Calculations.{
  PriceReviewMatchStatus, matched, ignored, MovementType, ComparisonBasis, normalized, raw,
  unit_mismatch, Risk, unclassified, Confidence, calculate_price_change,
  calculate_percentage_change, calculate_annual_impact, determine_comparison_basis,
  calculate_gross_margin, calculate_potential_cost_avoidance, calculate_actual_cost_avoidance,
  classify_risk, classify_movement_type,
}

-- `match_method`: a method of the scorer, or `manual_override`.
pub data LineMatchMethod : Type 0 where
  scored : MatchMethod → LineMatchMethod
  manual_override : LineMatchMethod

-- `match_confidence` is in ten-thousandths.
pub record PriceReviewLine : Type 0 where
  pub match_status : PriceReviewMatchStatus
  pub match_method : Option LineMatchMethod
  pub match_confidence : Option ℕ
  pub match_confirmed_by_user_id : Option ℕ
  pub old_supplier_sku : Option Text
  pub old_description : Option Text
  pub old_pack_raw : Option Text
  pub old_price : Option Decimal
  pub old_normalized_price : Option Decimal
  pub old_normalized_base_unit : Option String
  pub new_supplier_sku : Option Text
  pub new_description : Option Text
  pub new_pack_raw : Option Text
  pub new_price : Option Decimal
  pub new_normalized_price : Option Decimal
  pub new_normalized_base_unit : Option String
  pub pack_changed : Bool
  pub annual_quantity : Option Decimal
  pub quantity_is_manual : Bool
  pub quantity_confidence : Option Confidence
  pub selling_price : Option Decimal
  pub comparison_basis : Option ComparisonBasis
  pub movement_type : Option MovementType
  pub absolute_change : Option Decimal
  pub percentage_change : Option Decimal
  pub risk_classification : Option Risk
  pub annual_impact : Option Decimal
  pub old_margin_pct : Option Decimal
  pub new_margin_pct : Option Decimal
  pub margin_movement_pct : Option Decimal
  pub annual_margin_impact : Option Decimal
  pub target_price : Option Decimal
  pub potential_cost_avoidance : Option Decimal
  pub final_negotiated_price : Option Decimal
  pub actual_cost_avoidance : Option Decimal
  pub buyer_decision : Option String
  pub buyer_decision_notes : Option Text
  pub buyer_decision_by_user_id : Option ℕ
  pub buyer_decision_at : Option ℕ

-- The change of the price, the movement and the risk.
unfoldable pub set_change : Decimal → Decimal → PriceReviewLine → Result PriceReviewLine
set_change cmp_old cmp_new line = do
  change ← calculate_price_change cmp_old cmp_new
  pct ← calculate_percentage_change cmp_old cmp_new
  ok (record line {
    absolute_change = some change;
    percentage_change = pct;
    movement_type = some (classify_movement_type true false false line.pack_changed pct);
    risk_classification = some (classify_risk pct);
  })

-- A calculation that is made only where both numbers are known.
unfoldable pub when_both :
    {A : Type 0} → Option Decimal → Option Decimal → (Decimal → Decimal → Result A) → A → Result A
when_both (some a) (some b) f otherwise = f a b
when_both _ _ f otherwise = ok otherwise

unfoldable pub set_annual_impact : PriceReviewLine → Result PriceReviewLine
unfolding when_both
set_annual_impact line =
    when_both line.absolute_change line.annual_quantity
      (λ change quantity. calculate_annual_impact change quantity >>= λ impact.
        ok (record line { annual_impact = some impact }))
      line

unfoldable pub margin_impact : Option Decimal → Decimal → PriceReviewLine → Result PriceReviewLine
margin_impact none movement line = ok line
margin_impact (some quantity) movement line =
    calculate_annual_impact movement quantity >>= λ impact.
    ok (record line { annual_margin_impact = some impact })

unfoldable pub set_margins :
    Option Decimal → Decimal → Decimal → PriceReviewLine → Result PriceReviewLine
unfolding margin_impact
set_margins none cmp_old cmp_new line = ok line
set_margins (some selling_price) cmp_old cmp_new line = do
  old_margin ← calculate_gross_margin selling_price cmp_old
  new_margin ← calculate_gross_margin selling_price cmp_new
  let movement = sub new_margin.1 old_margin.1
  margin_impact line.annual_quantity movement (record line {
    old_margin_pct = some old_margin.1;
    new_margin_pct = some new_margin.1;
    margin_movement_pct = some movement;
  })

unfoldable pub compare_prices :
    Option Decimal → Option Decimal → PriceReviewLine → Result PriceReviewLine
unfolding set_change set_annual_impact set_margins
compare_prices (some cmp_old) (some cmp_new) line = do
  changed ← set_change cmp_old cmp_new line
  with_impact ← set_annual_impact changed
  set_margins line.selling_price cmp_old cmp_new with_impact
compare_prices _ _ line = ok line

-- The rest of `calculate_line_movement` once the basis is known and recorded.
unfoldable pub move_on_basis : ComparisonBasis → PriceReviewLine → Result PriceReviewLine
unfolding compare_prices
move_on_basis unit_mismatch line = ok (record line {
  movement_type = some MovementType.review_required;
  absolute_change = none;
  percentage_change = none;
  risk_classification = some unclassified;
})
move_on_basis normalized line =
    compare_prices line.old_normalized_price line.new_normalized_price line
move_on_basis raw line = compare_prices line.old_price line.new_price line

abbrev pub basis_of : PriceReviewLine → ComparisonBasis
basis_of line =
    determine_comparison_basis line.old_normalized_price line.new_normalized_price
      line.old_normalized_base_unit line.new_normalized_base_unit

abbrev pub with_basis : PriceReviewLine → PriceReviewLine
with_basis line = record line { comparison_basis = some (basis_of line) }

unfoldable pub move_by_status : PriceReviewMatchStatus → PriceReviewLine → Result PriceReviewLine
unfolding move_on_basis
move_by_status matched line = move_on_basis (basis_of line) (with_basis line)
move_by_status PriceReviewMatchStatus.review_required line =
    move_on_basis (basis_of line) (with_basis line)
move_by_status _ line = ok line

unfoldable pub calculate_line_movement : PriceReviewLine → Result PriceReviewLine
unfolding move_by_status
calculate_line_movement line = move_by_status line.match_status line

pub data MatchAction : Type 0 where
  confirm mark_new mark_discontinued ignore : MatchAction
  choose_different : Option PriceReviewLine → MatchAction

unfoldable pub apply_action : MatchAction → PriceReviewLine → Result PriceReviewLine
apply_action confirm line = ok (record line { match_status = matched })
apply_action (choose_different none) line = err validation_failed
apply_action (choose_different (some candidate)) line = ok (record line {
  new_supplier_sku = candidate.new_supplier_sku;
  new_description = candidate.new_description;
  new_pack_raw = candidate.new_pack_raw;
  new_price = candidate.new_price;
  new_normalized_price = candidate.new_normalized_price;
  match_status = matched;
  match_method = some manual_override;
})
apply_action mark_new line = ok (record line {
  match_status = PriceReviewMatchStatus.new_product;
  movement_type = some MovementType.new_product;
})
apply_action mark_discontinued line = ok (record line {
  match_status = PriceReviewMatchStatus.discontinued;
  movement_type = some MovementType.discontinued;
})
apply_action ignore line = ok (record line { match_status = ignored })

unfoldable pub resolve_match : ℕ → MatchAction → PriceReviewLine → Result PriceReviewLine
unfolding apply_action calculate_line_movement
resolve_match user_id action line = do
  resolved ← apply_action action line
  calculate_line_movement (record resolved { match_confirmed_by_user_id = some user_id })

abbrev pub or_keep : Option Decimal → Option Decimal → Option Decimal
or_keep none old = old
or_keep (some v) old = some v

unfoldable pub set_manual_quantity :
    Decimal → Option Decimal → PriceReviewLine → Result PriceReviewLine
unfolding calculate_line_movement
set_manual_quantity annual_quantity selling_price line = calculate_line_movement (record line {
  annual_quantity = some annual_quantity;
  quantity_is_manual = true;
  quantity_confidence = some Confidence.low;
  selling_price = or_keep selling_price line.selling_price;
})

unfoldable pub set_buyer_decision : ℕ → String → Option Text → ℕ → PriceReviewLine → PriceReviewLine
set_buyer_decision user_id decision notes now line = record line {
  buyer_decision = some decision;
  buyer_decision_notes = notes;
  buyer_decision_by_user_id = some user_id;
  buyer_decision_at = some now;
}

unfoldable pub set_negotiation_target : Decimal → PriceReviewLine → Result PriceReviewLine
unfolding when_both
set_negotiation_target target line =
    let targeted = record line { target_price = some target } in
    when_both line.new_price line.annual_quantity
      (λ price quantity. calculate_potential_cost_avoidance price target quantity >>= λ avoided.
        ok (record targeted { potential_cost_avoidance = some avoided }))
      targeted

unfoldable pub record_negotiation_outcome : Decimal → PriceReviewLine → Result PriceReviewLine
unfolding when_both
record_negotiation_outcome final line =
    let settled = record line { final_negotiated_price = some final } in
    when_both line.new_price line.annual_quantity
      (λ price quantity. calculate_actual_cost_avoidance price final quantity >>= λ avoided.
        ok (record settled { actual_cost_avoidance = some avoided }))
      settled
