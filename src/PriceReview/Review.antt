-- ===== src/PriceReview/Review.antt =====
-- What the operations on a line leave alone, and what choosing a different candidate forgets.
use Prim.Native.String.{String}
use procure_foundation.Prelude.{ℕ, ◌≡◌, ◌≢◌, inl, inr, Bool, Option, none, some, sym, ap, ◌∙◌}
use procure_foundation.Result.{ok, >>=-eq-ok, ok-injective}
use procure_foundation.Decimal.{Decimal}
use procure_foundation.PriceReview.{
  PriceReviewMatchStatus, matched, manual_override, PriceReviewLine, ComparisonBasis, normalized,
  raw, unit_mismatch, basis_of, with_basis, calculate_price_change, calculate_percentage_change,
  calculate_annual_impact, calculate_gross_margin, set_change, set_annual_impact, margin_impact,
  set_margins, compare_prices, move_on_basis, move_by_status, calculate_line_movement,
  determine_comparison_basis, choose_different, resolve_match,
}
use procure_foundation.PriceReview.Movement.{when_both_lem}
use mathlib.Core.Option.{some-injective}
use text.Mathlib.TextPositions.{eq_refl}

-- What a calculation reads.
pub record Inputs : Type 0 where
  pub status : PriceReviewMatchStatus
  pub old_price : Option Decimal
  pub new_price : Option Decimal
  pub old_normalized_price : Option Decimal
  pub new_normalized_price : Option Decimal
  pub old_unit : Option String
  pub new_unit : Option String
  pub pack_changed : Bool
  pub annual_quantity : Option Decimal
  pub selling_price : Option Decimal
  pub user : Option ℕ

abbrev pub inputs : PriceReviewLine → Inputs
inputs line = record {
  status = line.match_status;
  old_price = line.old_price;
  new_price = line.new_price;
  old_normalized_price = line.old_normalized_price;
  new_normalized_price = line.new_normalized_price;
  old_unit = line.old_normalized_base_unit;
  new_unit = line.new_normalized_base_unit;
  pack_changed = line.pack_changed;
  annual_quantity = line.annual_quantity;
  selling_price = line.selling_price;
  user = line.match_confirmed_by_user_id;
}

-- What the calculation keeps: its inputs and the basis of the comparison.
abbrev Kept : Type 0
Kept = Inputs × Option ComparisonBasis

abbrev kept : PriceReviewLine → Kept
kept line = (inputs line, line.comparison_basis)

set_change-kept :
    (old new : Decimal) (line : PriceReviewLine) {l : PriceReviewLine}
    → set_change old new line ≡ ok l
    → kept line ≡ kept l
unfolding set_change
set_change-kept old new line e =
    let (_, _, rest) = >>=-eq-ok (calculate_price_change old new) _ e in
    let (_, _, last) = >>=-eq-ok (calculate_percentage_change old new) _ rest in
    ap kept (ok-injective last)

set_annual_impact-kept :
    (line : PriceReviewLine) {l : PriceReviewLine}
    → set_annual_impact line ≡ ok l
    → kept line ≡ kept l
unfolding set_annual_impact
set_annual_impact-kept line e =
    elim (when_both_lem line.absolute_change line.annual_quantity _ line e) [
      | inl same ↦ ap kept same
      | inr (a, b, _, _, h) ↦
          let (_, _, last) = >>=-eq-ok (calculate_annual_impact a b) _ h in
          ap kept (ok-injective last)
    ]

margin_impact-kept :
    (q : Option Decimal) (d : Decimal) (line : PriceReviewLine) {l : PriceReviewLine}
    → margin_impact q d line ≡ ok l
    → kept line ≡ kept l
unfolding margin_impact
margin_impact-kept none d line e = ap kept (ok-injective e)
margin_impact-kept (some q) d line e =
    let (_, _, last) = >>=-eq-ok (calculate_annual_impact d q) _ e in ap kept (ok-injective last)

set_margins-kept :
    (s : Option Decimal) (old new : Decimal) (line : PriceReviewLine) {l : PriceReviewLine}
    → set_margins s old new line ≡ ok l
    → kept line ≡ kept l
unfolding set_margins
set_margins-kept none old new line e = ap kept (ok-injective e)
set_margins-kept (some price) old new line e =
    let (m_old, _, rest) = >>=-eq-ok (calculate_gross_margin price old) _ e in
    let (m_new, _, last) = >>=-eq-ok (calculate_gross_margin price new) _ rest in
    margin_impact-kept line.annual_quantity _ _ last

compare_prices-kept :
    (oa ob : Option Decimal) (line : PriceReviewLine) {l : PriceReviewLine}
    → compare_prices oa ob line ≡ ok l
    → kept line ≡ kept l
unfolding compare_prices
compare_prices-kept (some old) (some new) line e =
    let (c, ec, rest) = >>=-eq-ok (set_change old new line) _ e in
    let (i, ei, last) = >>=-eq-ok (set_annual_impact c) _ rest in
    set_change-kept old new line ec
    ∙ set_annual_impact-kept c ei
    ∙ set_margins-kept line.selling_price old new i last
compare_prices-kept (some old) none line e = ap kept (ok-injective e)
compare_prices-kept none ob line e = ap kept (ok-injective e)

move_on_basis-kept :
    (b : ComparisonBasis) (line : PriceReviewLine) {l : PriceReviewLine}
    → move_on_basis b line ≡ ok l
    → kept line ≡ kept l
unfolding move_on_basis
move_on_basis-kept unit_mismatch line e = ap kept (ok-injective e)
move_on_basis-kept normalized line e = compare_prices-kept _ _ line e
move_on_basis-kept raw line e = compare_prices-kept _ _ line e

move_by_status-inputs :
    (st : PriceReviewMatchStatus) (line : PriceReviewLine) {l : PriceReviewLine}
    → move_by_status st line ≡ ok l
    → inputs line ≡ inputs l
unfolding move_by_status
move_by_status-inputs matched line e = ap (λ k. k.0) (move_on_basis-kept _ _ e)
move_by_status-inputs PriceReviewMatchStatus.review_required line e =
    ap (λ k. k.0) (move_on_basis-kept _ _ e)
move_by_status-inputs PriceReviewMatchStatus.new_product line e = ap inputs (ok-injective e)
move_by_status-inputs PriceReviewMatchStatus.discontinued line e = ap inputs (ok-injective e)
move_by_status-inputs PriceReviewMatchStatus.ignored line e = ap inputs (ok-injective e)

-- The calculation changes nothing that it reads: the status, the prices, the base units, the pack
-- flag, the quantity and the selling price stay as they are, so a later run sees the same inputs.
pub calculate_line_movement-inputs :
    (line : PriceReviewLine) {l : PriceReviewLine}
    → calculate_line_movement line ≡ ok l
    → inputs l ≡ inputs line
unfolding calculate_line_movement
calculate_line_movement-inputs line e = sym (move_by_status-inputs line.match_status line e)

abbrev chosen : ℕ → PriceReviewLine → PriceReviewLine → PriceReviewLine
chosen user_id line candidate = record line {
  new_supplier_sku = candidate.new_supplier_sku;
  new_description = candidate.new_description;
  new_pack_raw = candidate.new_pack_raw;
  new_price = candidate.new_price;
  new_normalized_price = candidate.new_normalized_price;
  match_status = matched;
  match_method = some manual_override;
  match_confirmed_by_user_id = some user_id;
}

same_unit :
    {oa ob : Option Decimal} {ou nu : Option String} {a b : Decimal} {u : String}
    → oa ≡ some a
    → ou ≡ some u
    → nu ≡ some u
    → ob ≡ some b
    → determine_comparison_basis oa ob ou nu ≡ normalized
unfolding determine_comparison_basis
same_unit {u} eo eu en ec = rw (eo, eu, en, ec, eq_refl u)

-- Choosing a different candidate takes over its normalized price but not its base unit. Where both
-- sides of the line were normalized to one unit u, and the candidate to another unit v, a choice
-- that succeeds leaves the line with the candidate's normalized price and with u as its unit, so a
-- price per v stands as a price per u, and the prices are compared as normalized to the same unit.
pub resolve_match_stale_unit :
    (user_id : ℕ) (line candidate : PriceReviewLine) (a b : Decimal) (u v : String)
    {l : PriceReviewLine}
    → line.old_normalized_price ≡ some a
    → line.old_normalized_base_unit ≡ some u
    → line.new_normalized_base_unit ≡ some u
    → candidate.new_normalized_price ≡ some b
    → candidate.new_normalized_base_unit ≡ some v
    → u ≢ v
    → resolve_match user_id (choose_different (some candidate)) line ≡ ok l
    → (l.new_normalized_price ≡ candidate.new_normalized_price)
      × (l.new_normalized_base_unit ≡ some u)
      × (l.new_normalized_base_unit ≢ candidate.new_normalized_base_unit)
      × (l.comparison_basis ≡ some normalized)
unfolding resolve_match
resolve_match_stale_unit user_id line candidate a b u v {l} eo eu en ec ev ne e =
    let w : PriceReviewLine = chosen user_id line candidate in
    let same : kept (with_basis w) ≡ kept l = move_on_basis-kept (basis_of w) (with_basis w) e in
    let unit : l.new_normalized_base_unit ≡ some u =
      sym (ap (λ (k : Kept). k.0.new_unit) same) ∙ en in
    let basis : basis_of w ≡ normalized = same_unit eo eu en ec in
    (
      sym (ap (λ (k : Kept). k.0.new_normalized_price) same),
      unit,
      λ h. ne (some-injective _ _ (sym unit ∙ h ∙ ev)),
      sym (ap (λ (k : Kept). k.1) same) ∙ ap some basis,
    )
