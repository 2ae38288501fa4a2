-- ===== src/Matching/Scorer/Variants.antt =====
-- What the groups of variants mean for a match.
use procure_foundation.Prelude.{
  ℕ, ◌≡◌, ◌≤◌, refl, sym, true, false, Bool-cases, inl, inr, Option, none, some, [], ◌∷◌, arith,
}
use procure_foundation.Matching.Text.{Text, codes, split, eq_text→eq, contains}
use procure_foundation.Matching.Normalize.{normalize_description}
use procure_foundation.Matching.Exact.{
  match_by_sku, match_by_barcode, match_by_exact_normalized_description, find_variant_group,
}
use procure_foundation.Matching.Scorer.{
  fuzzy, manual_review_required, CandidateItem, variant_conflict_score_cap, differ,
  has_conflicting_variant, min, classify_status, score_pair,
}

differ_self : (o : Option ℕ) → differ o o ≡ false
unfolding differ
differ_self none = refl
differ_self (some i) = ground arith

same_description-no_conflict :
    (a b : Text)
    → match_by_exact_normalized_description (some a) (some b) ≡ true
    → has_conflicting_variant a b ≡ false
unfolding match_by_exact_normalized_description has_conflicting_variant
same_description-no_conflict [] b h = cc
same_description-no_conflict (c ∷ a) [] h = cc
same_description-no_conflict (c ∷ a) (d ∷ b) h =
    let n = normalize_description (c ∷ a) in
    let e : n ≡ normalize_description (d ∷ b) = eq_text→eq _ _ h in
    rw (sym e) (differ_self (find_variant_group n))

capped : (s : ℕ) → min s variant_conflict_score_cap ≤ variant_conflict_score_cap
capped s = ground arith

low-manual_review_required :
    (s : ℕ) → s ≤ variant_conflict_score_cap → classify_status s ≡ manual_review_required
unfolding classify_status
low-manual_review_required s h = ground arith

-- For every way to score descriptions: two items whose descriptions fall into different groups of
-- variants, and which neither SKU nor barcode matches, score at most 0.55 by the fuzzy method, and
-- that score is only ever sent to manual review.
pub score_pair-conflict :
    (description_score : Text → Text → ℕ) (old_item new_item : CandidateItem)
    → has_conflicting_variant old_item.description new_item.description ≡ true
    → match_by_sku old_item.supplier_sku new_item.supplier_sku ≡ false
    → match_by_barcode old_item.barcode new_item.barcode ≡ false
    → let (score, method) = score_pair description_score old_item new_item in
      (score ≤ variant_conflict_score_cap)
      × (method ≡ fuzzy)
      × (classify_status score ≡ manual_review_required)
unfolding score_pair
score_pair-conflict description_score old_item new_item conflict no_sku no_barcode =
    let a = old_item.description in
    let b = new_item.description in
    let s : ℕ = description_score a b in
    elim (Bool-cases (match_by_exact_normalized_description (some a) (some b))) [
      | inl same ↦ let none_here = same_description-no_conflict a b same in cc
      | inr other ↦
          rw (no_sku, no_barcode, other, conflict)
            (capped s, refl, low-manual_review_required _ (capped s))
    ]

-- The token that decides for the first group.
mature-first :
    (n : Text) → contains (split n) (codes "mature") ≡ true → find_variant_group n ≡ some 0
unfolding find_variant_group
mature-first n h = rw h refl

-- Two descriptions that each have the word "mature" are never in conflict, also where one of them
-- is "extra mature", a variant of its own in the table.
pub has_conflicting_variant-mature :
    (a b : Text)
    → contains (split (normalize_description a)) (codes "mature") ≡ true
    → contains (split (normalize_description b)) (codes "mature") ≡ true
    → has_conflicting_variant a b ≡ false
unfolding has_conflicting_variant
has_conflicting_variant-mature a b h k =
    rw (mature-first (normalize_description a) h, mature-first (normalize_description b) k) refl
