-- ===== src/Matching/Scorer.antt =====
-- backend/app/matching/scorer.py and review.py. A score is a number of ten-thousandths, to which
-- `combined_description_score` of fuzzy_matcher.py rounds its floats; that function, which blends
-- ratios of `difflib`, is a parameter here.
pub mod Best
pub mod Variants
use procure_foundation.Prelude.{
  ℕ, Bool, true, false, not, ◌&&◌, ◌==◌, ltb, leb, Option, none, some, List, [], ◌∷◌, if◌then◌else◌,
}
use procure_foundation.Matching.Text.{Text}
use procure_foundation.Matching.Normalize.{normalize_description}
use procure_foundation.Matching.Exact.{
  match_by_sku, match_by_barcode, match_by_exact_normalized_description, find_variant_group,
}

pub data MatchMethod : Type 0 where
  sku barcode exact_description fuzzy unmatched : MatchMethod

pub data MatchStatus : Type 0 where
  auto_matched review_recommended manual_review_required no_candidate : MatchStatus

pub record CandidateItem : Type 0 where
  pub key : Text
  pub supplier_sku : Option Text
  pub barcode : Option Text
  pub description : Text

pub record MatchResult : Type 0 where
  pub old_key : Text
  pub new_key : Option Text
  pub confidence : ℕ
  pub method : MatchMethod
  pub status : MatchStatus

abbrev pub auto_match_threshold : ℕ
auto_match_threshold = 9500

abbrev pub review_recommended_threshold : ℕ
review_recommended_threshold = 8000

abbrev pub no_plausible_match_floor : ℕ
no_plausible_match_floor = 4500

abbrev pub variant_conflict_score_cap : ℕ
variant_conflict_score_cap = 5500

unfoldable pub differ : Option ℕ → Option ℕ → Bool
differ (some i) (some j) = not (i == j)
differ _ _ = false

unfoldable pub has_conflicting_variant : Text → Text → Bool
unfolding differ find_variant_group
has_conflicting_variant desc_a desc_b =
    differ (find_variant_group (normalize_description desc_a))
      (find_variant_group (normalize_description desc_b))

abbrev pub min : ℕ → ℕ → ℕ
min a b = if ltb b a then b else a

unfoldable pub classify_status : ℕ → MatchStatus
classify_status confidence =
    if leb auto_match_threshold confidence
    then auto_matched
    else if leb review_recommended_threshold confidence
    then review_recommended
    else manual_review_required

unfoldable pub requires_human_review : MatchStatus → Bool
requires_human_review auto_matched = false
requires_human_review _ = true

unfoldable pub is_authoritative : MatchStatus → Bool
is_authoritative auto_matched = true
is_authoritative _ = false

module _ (combined_description_score : Text → Text → ℕ) where
  unfoldable pub score_pair : CandidateItem → CandidateItem → ℕ × MatchMethod
  unfolding match_by_sku match_by_barcode match_by_exact_normalized_description
      has_conflicting_variant
  score_pair old_item new_item =
      if match_by_sku old_item.supplier_sku new_item.supplier_sku
      then (10000, sku)
      else if match_by_barcode old_item.barcode new_item.barcode
      then (10000, barcode)
      else if match_by_exact_normalized_description (some old_item.description)
          (some new_item.description)
      then (9800, exact_description)
      else let score = combined_description_score old_item.description new_item.description in
        (
          if has_conflicting_variant old_item.description new_item.description
              then min score variant_conflict_score_cap
              else score,
          fuzzy,
        )

  -- The loop over the new items; the best so far has a score, a method and a key. The first item
  -- always passes `score > -1.0`.
  unfoldable pub best_of :
      CandidateItem
      → Option (ℕ × MatchMethod × Text)
      → List CandidateItem
      → Option (ℕ × MatchMethod × Text)
  unfolding score_pair
  best_of old_item best [] = best
  best_of old_item none (new_item ∷ rest) =
      let (score, method) = score_pair old_item new_item in
      best_of old_item (some (score, method, new_item.key)) rest
  best_of old_item (some (top, how, key)) (new_item ∷ rest) =
      let (score, method) = score_pair old_item new_item in
      best_of old_item
        (if ltb top score then some (score, method, new_item.key) else some (top, how, key)) rest

  unfoldable pub result_of : Text → Option (ℕ × MatchMethod × Text) → MatchResult
  unfolding classify_status
  result_of old_key none = record {
    old_key = old_key;
    new_key = none;
    confidence = 0;
    method = unmatched;
    status = no_candidate;
  }
  result_of old_key (some (score, method, key)) =
      if ltb score no_plausible_match_floor
      then record {
        old_key = old_key;
        new_key = none;
        confidence = 0;
        method = unmatched;
        status = no_candidate;
      }
      else record {
        old_key = old_key;
        new_key = some key;
        confidence = score;
        method = method;
        status = classify_status score;
      }

  unfoldable pub find_best_match : CandidateItem → List CandidateItem → MatchResult
  unfolding best_of result_of
  find_best_match old_item new_items = result_of old_item.key (best_of old_item none new_items)
