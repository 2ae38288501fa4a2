-- ===== src/PriceReview/Counts.antt =====
-- The counts of a summary.
use procure_foundation.Prelude.{ℕ, ◌≡◌, ◌+◌, Bool, true, false, List, [], ◌∷◌, length, arith, subst}
use procure_foundation.Prelude.Int.{pos, sub_ℕ}
use procure_foundation.Result.{ok, >>=-eq-ok, ok-injective}
use procure_foundation.PriceReview.Calculations.{MovementType, pack_change}
use procure_foundation.PriceReview.Summary.{
  PriceReviewLineForSummary, SupplierSummary, Lines, lines_with, is_increase, is_decrease,
  is_unchanged, is_new, is_discontinued, is_unreviewed, is_matched, weighted_average_increase,
  summarize,
}

kinds :
    (ls : Lines)
    → length ls
      ≡ length (lines_with is_matched ls)
        + length (lines_with is_new ls)
        + length (lines_with is_discontinued ls)
        + length (lines_with is_unreviewed ls)
kinds [] = omega arith
kinds (l ∷ ls) = ground (arith, kinds ls)

abbrev pub is_pack : MovementType → Bool
is_pack pack_change = true
is_pack _ = false

matched_kinds :
    (ls : Lines)
    → length (lines_with is_matched ls)
      ≡ length (lines_with is_increase (lines_with is_matched ls))
        + length (lines_with is_decrease (lines_with is_matched ls))
        + length (lines_with is_unchanged (lines_with is_matched ls))
        + length (lines_with is_pack (lines_with is_matched ls))
matched_kinds [] = omega arith
matched_kinds (l ∷ ls) = ground (arith, matched_kinds ls)

difference : (n a b : ℕ) → n ≡ a + b → sub_ℕ n a ≡ pos b
difference n a b h = ground arith

-- In a summary every line is counted once: the unmatched lines are those that await review, so
-- matched, unmatched, new and discontinued lines add up to all lines, and the matched lines are the
-- increasing, the decreasing, the unchanged and those with a changed pack.
pub summarize-counts :
    (ls : List PriceReviewLineForSummary) (previous new : ℕ) {s : SupplierSummary}
    → summarize ls previous new ≡ ok s
    → (s.unmatched_skus ≡ pos (length (lines_with is_unreviewed ls)))
      × (length ls
          ≡ s.matched_skus
            + s.new_skus
            + s.discontinued_skus
            + length (lines_with is_unreviewed ls))
      × (s.matched_skus
          ≡ s.increasing_skus
            + s.decreasing_skus
            + s.unchanged_skus
            + length (lines_with is_pack (lines_with is_matched ls)))
unfolding summarize
summarize-counts ls previous new e =
    let (_, _, last) = >>=-eq-ok (weighted_average_increase ls) _ e in
    subst
      (λ (s : SupplierSummary).
        (s.unmatched_skus ≡ pos (length (lines_with is_unreviewed ls)))
        × (length ls
            ≡ s.matched_skus
              + s.new_skus
              + s.discontinued_skus
              + length (lines_with is_unreviewed ls))
        × (s.matched_skus
            ≡ s.increasing_skus
              + s.decreasing_skus
              + s.unchanged_skus
              + length (lines_with is_pack (lines_with is_matched ls))))
      (ok-injective last) (difference _ _ _ (kinds ls), kinds ls, matched_kinds ls)
