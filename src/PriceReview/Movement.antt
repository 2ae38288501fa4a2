-- ===== src/PriceReview/Movement.antt =====
-- What `calculate_line_movement` records on a line.
use Prim.Native.String.{String}
use procure_foundation.Prelude.{
  ◌≡◌, ◌⊎◌, inl, inr, Bool, true, false, Option, none, some, refl, subst, ap, sym, ◌∙◌, ltb→lt,
  ltb-false→le, arith, Bool-cases,
}
use procure_foundation.Prelude.Int.{pos, ◌<ℤ◌, ◌≤ℤ◌, ltb_ℤ}
use mathlib.Core.Option.{some-injective}
use procure_foundation.Result.{Result, ok, >>=-eq-ok, ok-injective}
use procure_foundation.Decimal.{Decimal}
use procure_foundation.PriceReview.{
  PriceReviewMatchStatus, matched, PriceReviewLine, MovementType, price_increase, price_decrease,
  ComparisonBasis, normalized, raw, unit_mismatch, unclassified, eq_unit, basis_of, with_basis,
  classify_risk, classify_movement_type, calculate_percentage_change, set_change, set_annual_impact,
  set_margins, compare_prices, move_on_basis, move_by_status, calculate_line_movement,
  determine_comparison_basis, when_both, margin_impact, calculate_price_change,
  calculate_annual_impact, calculate_gross_margin,
}
use procure_foundation.PriceReview.Change.{calculate_percentage_change_sign}

-- The statuses at which prices are compared at all.
abbrev pub IsCompared : PriceReviewMatchStatus → Type 0
IsCompared matched = Unit
IsCompared PriceReviewMatchStatus.review_required = Unit
IsCompared _ = ⊥

-- The two prices are of one kind: both per the same base unit, or both as quoted.
abbrev pub AreComparable : PriceReviewLine → Decimal → Decimal → Type 0
AreComparable line old new =
    ((line.old_normalized_price ≡ some old)
      × (line.new_normalized_price ≡ some new)
      × (eq_unit line.old_normalized_base_unit line.new_normalized_base_unit ≡ true))
    ⊎ ((line.old_normalized_price ≡ none)
        × (line.new_normalized_price ≡ none)
        × (line.old_price ≡ some old)
        × (line.new_price ≡ some new))

-- What a comparison leaves on the line.
pub record IsMoved (old new : Decimal) (line moved : PriceReviewLine) : Type 0 where
  pub change : calculate_percentage_change old new ≡ ok moved.percentage_change
  pub movement :
      moved.movement_type
      ≡ some (classify_movement_type true false false line.pack_changed moved.percentage_change)
  pub risk : moved.risk_classification ≡ some (classify_risk moved.percentage_change)

set_change-IsMoved :
    (old new : Decimal) (line : PriceReviewLine) {l : PriceReviewLine}
    → set_change old new line ≡ ok l
    → IsMoved old new line l
unfolding set_change
set_change-IsMoved old new line {l} e =
    let (change, _, rest) = >>=-eq-ok (calculate_price_change old new) _ e in
    let (pct, ep, last) = >>=-eq-ok (calculate_percentage_change old new) _ rest in
    subst (IsMoved old new line) (ok-injective last)
      (record { change = ep; movement = refl; risk = refl })

pub when_both_lem :
    {A : Type 0} (oa ob : Option Decimal) (f : Decimal → Decimal → Result A) (d : A) {r : A}
    → when_both oa ob f d ≡ ok r
    → (d ≡ r) ⊎ ((a b : Decimal) × (oa ≡ some a) × (ob ≡ some b) × (f a b ≡ ok r))
unfolding when_both
when_both_lem (some a) (some b) f d e = inr (a, b, refl, refl, e)
when_both_lem (some a) none f d e = inl (ok-injective e)
when_both_lem none ob f d e = inl (ok-injective e)

module _ (old new : Decimal) (line : PriceReviewLine) where
  keep_impact :
      (c : PriceReviewLine) {l : PriceReviewLine}
      → IsMoved old new line c
      → set_annual_impact c ≡ ok l
      → IsMoved old new line l
  unfolding set_annual_impact
  keep_impact c m e = elim (when_both_lem c.absolute_change c.annual_quantity _ c e) [
    | inl same ↦ subst (IsMoved old new line) same m
    | inr (a, b, _, _, h) ↦
        let (impact, _, last) = >>=-eq-ok (calculate_annual_impact a b) _ h in
        subst (IsMoved old new line) (ok-injective last)
          (record { change = m.change; movement = m.movement; risk = m.risk })
  ]

  keep_margin_impact :
      (q : Option Decimal) (d : Decimal) (c : PriceReviewLine) {l : PriceReviewLine}
      → IsMoved old new line c
      → margin_impact q d c ≡ ok l
      → IsMoved old new line l
  unfolding margin_impact
  keep_margin_impact none d c m e = subst (IsMoved old new line) (ok-injective e) m
  keep_margin_impact (some q) d c m e =
      let (impact, _, last) = >>=-eq-ok (calculate_annual_impact d q) _ e in
      subst (IsMoved old new line) (ok-injective last)
        (record { change = m.change; movement = m.movement; risk = m.risk })

  keep_margins :
      (s : Option Decimal) (c : PriceReviewLine) {l : PriceReviewLine}
      → IsMoved old new line c
      → set_margins s old new c ≡ ok l
      → IsMoved old new line l
  unfolding set_margins
  keep_margins none c m e = subst (IsMoved old new line) (ok-injective e) m
  keep_margins (some price) c m e =
      let (m_old, _, rest) = >>=-eq-ok (calculate_gross_margin price old) _ e in
      let (m_new, _, last) = >>=-eq-ok (calculate_gross_margin price new) _ rest in
      keep_margin_impact c.annual_quantity _ _
        (record { change = m.change; movement = m.movement; risk = m.risk }) last

  compared-IsMoved :
      {l : PriceReviewLine}
      → compare_prices (some old) (some new) line ≡ ok l
      → IsMoved old new line l
  unfolding compare_prices
  compared-IsMoved e =
      let (c, ec, rest) = >>=-eq-ok (set_change old new line) _ e in
      let (i, ei, last) = >>=-eq-ok (set_annual_impact c) _ rest in
      keep_margins line.selling_price i (keep_impact c (set_change-IsMoved old new line ec) ei) last

unchanged :
    {line l : PriceReviewLine} {p : Decimal}
    → ok line ≡ ok l
    → line.percentage_change ≡ none
    → l.percentage_change ≡ some p
    → ⊥
unchanged e before after = ground arith

-- A line on which a percentage change is recorded by this run, none having been there before.
compare_prices_lem :
    (oa ob : Option Decimal) (line : PriceReviewLine) {l : PriceReviewLine} {p : Decimal}
    → compare_prices oa ob line ≡ ok l
    → line.percentage_change ≡ none
    → l.percentage_change ≡ some p
    → (old new : Decimal) × (oa ≡ some old) × (ob ≡ some new) × IsMoved old new line l
unfolding compare_prices
compare_prices_lem (some a) (some b) line e before after =
    (a, b, refl, refl, compared-IsMoved a b line e)
compare_prices_lem (some a) none line {l} e before after =
    absurd (unchanged {line = line} {l = l} e before after)
compare_prices_lem none ob line {l} e before after =
    absurd (unchanged {line = line} {l = l} e before after)

determine_comparison_basis_lem :
    (oa ob : Option Decimal) (u v : Option String)
    → (determine_comparison_basis oa ob u v ≡ unit_mismatch)
      ⊎ ((determine_comparison_basis oa ob u v ≡ normalized) × (eq_unit u v ≡ true))
      ⊎ ((determine_comparison_basis oa ob u v ≡ raw) × (oa ≡ none) × (ob ≡ none))
unfolding determine_comparison_basis
determine_comparison_basis_lem (some a) (some b) u v = elim (Bool-cases (eq_unit u v)) [
  | inl same ↦ inr (inl (rw same refl, same))
  | inr other ↦ inl (rw other refl)
]
determine_comparison_basis_lem none none u v = inr (inr (refl, refl, refl))
determine_comparison_basis_lem (some a) none u v = inl refl
determine_comparison_basis_lem none (some b) u v = inl refl

forget_basis :
    {old new : Decimal} {line l : PriceReviewLine}
    → IsMoved old new (with_basis line) l
    → IsMoved old new line l
forget_basis m = record { change = m.change; movement = m.movement; risk = m.risk }

abbrev pub Moves : PriceReviewLine → PriceReviewLine → Type 0
Moves line l = (old new : Decimal) × AreComparable line old new × IsMoved old new line l

comparable :
    (line : PriceReviewLine) (old new : Decimal)
    → (basis_of line ≡ unit_mismatch)
      ⊎ ((basis_of line ≡ normalized)
          × (eq_unit line.old_normalized_base_unit line.new_normalized_base_unit ≡ true))
      ⊎ ((basis_of line ≡ raw)
          × (line.old_normalized_price ≡ none)
          × (line.new_normalized_price ≡ none))
    → ((basis_of line ≡ normalized)
        × (line.old_normalized_price ≡ some old)
        × (line.new_normalized_price ≡ some new))
      ⊎ ((basis_of line ≡ raw) × (line.old_price ≡ some old) × (line.new_price ≡ some new))
    → AreComparable line old new
comparable line old new (inl b) (inl h) = let h' = h.0 in cc
comparable line old new (inl b) (inr h) = let h' = h.0 in cc
comparable line old new (inr (inl b)) (inl h) = inl (h.1, h.2, b.1)
comparable line old new (inr (inl b)) (inr h) = let h' = h.0 in let b' = b.0 in cc
comparable line old new (inr (inr b)) (inl h) = let h' = h.0 in let b' = b.0 in cc
comparable line old new (inr (inr b)) (inr h) = inr (b.1, b.2, h.1, h.2)

move_on :
    (b : ComparisonBasis) (w : PriceReviewLine) {l : PriceReviewLine} {p : Decimal}
    → move_on_basis b w ≡ ok l
    → w.percentage_change ≡ none
    → l.percentage_change ≡ some p
    → (old new : Decimal) × (((b ≡ normalized)
          × (w.old_normalized_price ≡ some old)
          × (w.new_normalized_price ≡ some new))
        ⊎ ((b ≡ raw) × (w.old_price ≡ some old) × (w.new_price ≡ some new)))
      × IsMoved old new w l
unfolding move_on_basis
move_on unit_mismatch w {l} e before after = absurd (
    unchanged
      {line = record w {
        movement_type = some MovementType.review_required;
        absolute_change = none;
        percentage_change = none;
        risk_classification = some unclassified;
      }}
      {l = l} e refl after)
move_on normalized w e before after =
    let (old, new, eo, en, m) = compare_prices_lem _ _ w e before after in
    (old, new, inl (refl, eo, en), m)
move_on raw w e before after =
    let (old, new, eo, en, m) = compare_prices_lem _ _ w e before after in
    (old, new, inr (refl, eo, en), m)

move_on_basis_lem :
    (line : PriceReviewLine) {l : PriceReviewLine} {p : Decimal}
    → move_on_basis (basis_of line) (with_basis line) ≡ ok l
    → line.percentage_change ≡ none
    → l.percentage_change ≡ some p
    → Moves line l
move_on_basis_lem line {l} {p} e before after =
    let (old, new, prices, m) = move_on (basis_of line) (with_basis line) e before after in
    let basis =
      determine_comparison_basis_lem line.old_normalized_price line.new_normalized_price
        line.old_normalized_base_unit line.new_normalized_base_unit in
    (old, new, comparable line old new basis prices, forget_basis m)

by_status :
    (st : PriceReviewMatchStatus) (line : PriceReviewLine) {l : PriceReviewLine} {p : Decimal}
    → move_by_status st line ≡ ok l
    → line.percentage_change ≡ none
    → l.percentage_change ≡ some p
    → IsCompared st × Moves line l
unfolding move_by_status
by_status matched line e before after = (tt, move_on_basis_lem line e before after)
by_status PriceReviewMatchStatus.review_required line e before after =
    (tt, move_on_basis_lem line e before after)
by_status PriceReviewMatchStatus.new_product line {l} e before after =
    absurd (unchanged {line = line} {l = l} e before after)
by_status PriceReviewMatchStatus.discontinued line {l} e before after =
    absurd (unchanged {line = line} {l = l} e before after)
by_status PriceReviewMatchStatus.ignored line {l} e before after =
    absurd (unchanged {line = line} {l = l} e before after)

-- Where a run records a percentage change on a line that had none, the line is matched or in
-- review, and there are two comparable prices, per the same base unit or both as quoted, such that
-- the change is that of these prices, and the movement and the risk are the classes of the change.
pub calculate_line_movement_comparable :
    (line : PriceReviewLine) {l : PriceReviewLine} {p : Decimal}
    → calculate_line_movement line ≡ ok l
    → line.percentage_change ≡ none
    → l.percentage_change ≡ some p
    → IsCompared line.match_status × Moves line l
unfolding calculate_line_movement
calculate_line_movement_comparable line e before after =
    by_status line.match_status line e before after

-- What a movement says of the prices.
abbrev pub IsDirected : MovementType → Decimal → Decimal → Type 0
IsDirected price_increase old new = old <ℤ new
IsDirected price_decrease old new = new <ℤ old
IsDirected _ old new = Unit

directed :
    (pack : Bool) (old new p : Decimal)
    → ((old <ℤ new) × (pos 0 ≤ℤ p)) ⊎ ((new <ℤ old) × (p ≤ℤ pos 0)) ⊎ ((new ≡ old) × (p ≡ pos 0))
    → IsDirected (classify_movement_type true false false pack (some p)) old new
unfolding classify_movement_type
directed pack old new p h = ground arith

-- Where a run records a percentage change on a line that had none, from comparable prices of which
-- the old one is positive, a movement recorded as an increase has a higher new price, and one
-- recorded as a decrease has a lower one.
pub calculate_line_movement_direction :
    (line : PriceReviewLine) {l : PriceReviewLine} {p : Decimal} {m : MovementType}
    → calculate_line_movement line ≡ ok l
    → line.percentage_change ≡ none
    → l.percentage_change ≡ some p
    → l.movement_type ≡ some m
    → (old new : Decimal) × AreComparable line old new × ((old ≤ℤ pos 0) ⊎ IsDirected m old new)
calculate_line_movement_direction line {l} {p} {m} e before after em =
    let (_, moves) = calculate_line_movement_comparable line e before after in
    let (old, new, c, moved) = moves in
    let change : calculate_percentage_change old new ≡ ok (some p) = moved.change ∙ ap ok after in
    let same : classify_movement_type true false false line.pack_changed (some p) ≡ m =
      some-injective _ _ (
        ap (λ o. some (classify_movement_type true false false line.pack_changed o)) (sym after)
        ∙ sym moved.movement
        ∙ em) in
    (
      old,
      new,
      c,
      elim (Bool-cases (ltb_ℤ (pos 0) old)) [
        | inl positive ↦ inr (
            subst (λ k. IsDirected k old new) same
              (directed line.pack_changed old new p
                (calculate_percentage_change_sign old new (ltb→lt _ _ positive) change)))
        | inr other ↦ inl (ltb-false→le _ _ other)
      ],
    )
