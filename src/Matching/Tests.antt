-- ===== src/Matching/Tests.antt =====
-- Runs of the matching functions, and the theorems at concrete inputs.
use procure_foundation.Prelude.{
  ℕ, ◌≡◌, ◌≤◌, ◌⊎◌, refl, true, false, Option, none, some, [], ◌∷◌, All,
}
use procure_foundation.Matching.Text.{Text, codes, split, contains}
use procure_foundation.Matching.Normalize.{normalize_description}
use procure_foundation.Matching.Normalize.Idempotent.{normalize_description_idem}
use procure_foundation.Matching.Exact.{
  match_by_sku, match_by_barcode, verify_exact_match_for_route_log,
}
use procure_foundation.Matching.Scorer.{
  CandidateItem, fuzzy, manual_review_required, no_plausible_match_floor,
  variant_conflict_score_cap, has_conflicting_variant, classify_status, score_pair, find_best_match,
  auto_matched,
}
use procure_foundation.Matching.Scorer.Best.{
  IsBelow, IsFirstBest, score_of, no_match, match_with, find_best_match-IsFirstBest,
}
use procure_foundation.Matching.Scorer.Variants.{
  score_pair-conflict, has_conflicting_variant-mature,
}

reads_a_pack :
    normalize_description (codes "COKE Zero, 24 X 330ML x24!") ≡ codes "coke zero 24 x 330 ml x 24"
unfolding normalize_description
reads_a_pack = refl

drops_stopwords : normalize_description (codes "  Milk  of the\tCow ") ≡ codes "milk cow"
unfolding normalize_description
drops_stopwords = refl

normalize_description_idem_example :
    normalize_description (normalize_description (codes "Oil 5L"))
    ≡ normalize_description (codes "Oil 5L")
normalize_description_idem_example = normalize_description_idem (codes "Oil 5L")

matches_a_registration :
    verify_exact_match_for_route_log (codes " ca 123 ") (codes "CA 123") (codes "r1") (codes "R1")
    ≡ true
unfolding verify_exact_match_for_route_log
matches_a_registration = refl

-- Every pair of descriptions scores 0.9.
abbrev always_close : Text → Text → ℕ
always_close a b = 9000

abbrev item : Option Text → Text → CandidateItem
item code words = record { key = words; supplier_sku = code; barcode = none; description = words }

abbrev mature : CandidateItem
mature = item none (codes "Cheddar Mature")

abbrev mild : CandidateItem
mild = item none (codes "Cheddar Mild")

abbrev coded : CandidateItem
coded = item (some (codes " ab1")) (codes "Gouda")

finds_by_sku :
    (find_best_match always_close
      (item (some (codes "AB1 ")) (codes "Cheese"))
      (mild ∷ coded ∷ [])).status
    ≡ auto_matched
unfolding find_best_match
finds_by_sku = refl

conflict : has_conflicting_variant mature.description mild.description ≡ true
unfolding has_conflicting_variant normalize_description
conflict = refl

no_sku : match_by_sku mature.supplier_sku mild.supplier_sku ≡ false
unfolding match_by_sku
no_sku = refl

no_barcode : match_by_barcode mature.barcode mild.barcode ≡ false
unfolding match_by_barcode
no_barcode = refl

score_pair-conflict_example :
    let (score, method) = score_pair always_close mature mild in
    (score ≤ variant_conflict_score_cap)
    × (method ≡ fuzzy)
    × (classify_status score ≡ manual_review_required)
score_pair-conflict_example =
    score_pair-conflict always_close mature mild conflict no_sku no_barcode

find_best_match-IsFirstBest_example :
    let items = mild ∷ coded ∷ [] in
    let result = find_best_match always_close coded items in
    (All (IsBelow always_close coded no_plausible_match_floor) items
      × (result ≡ no_match always_close coded))
    ⊎ ((best : CandidateItem) × IsFirstBest always_close coded items best
        × (no_plausible_match_floor ≤ score_of always_close coded best)
        × (result ≡ match_with always_close coded best))
find_best_match-IsFirstBest_example =
    find_best_match-IsFirstBest always_close coded (mild ∷ coded ∷ [])

abbrev extra : Text
extra = codes "Cheddar Extra Mature"

extra_is_mature : contains (split (normalize_description extra)) (codes "mature") ≡ true
unfolding normalize_description contains
extra_is_mature = refl

plain_is_mature :
    contains (split (normalize_description mature.description)) (codes "mature") ≡ true
unfolding normalize_description contains
plain_is_mature = refl

has_conflicting_variant-mature_example : has_conflicting_variant extra mature.description ≡ false
has_conflicting_variant-mature_example =
    has_conflicting_variant-mature extra mature.description extra_is_mature plain_is_mature
