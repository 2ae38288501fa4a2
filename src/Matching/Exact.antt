-- ===== src/Matching/Exact.antt =====
-- backend/app/matching/exact_matcher.py and `find_variant_group` of normalize.py.
use procure_foundation.Prelude.{
  ℕ, suc, Bool, true, false, ◌&&◌, ◌||◌, ◌==◌, Option, none, some, List, [], ◌∷◌, if◌then◌else◌,
}
use procure_foundation.Matching.Text.{
  Text, codes, space, lower, upper, strip, split, eq_text, contains,
}
use procure_foundation.Matching.Normalize.{normalize_description}

-- The two texts where neither is missing nor empty.
unfoldable pub both_given : Option Text → Option Text → (Text → Text → Bool) → Bool
both_given (some (c ∷ s)) (some (d ∷ t)) same = same (c ∷ s) (d ∷ t)
both_given _ _ same = false

unfoldable pub match_by_sku : Option Text → Option Text → Bool
unfolding both_given eq_text lower strip
match_by_sku old_sku new_sku =
    both_given old_sku new_sku λ s t. eq_text (lower (strip s)) (lower (strip t))

unfoldable pub match_by_barcode : Option Text → Option Text → Bool
unfolding both_given eq_text strip
match_by_barcode old_barcode new_barcode =
    both_given old_barcode new_barcode λ s t. eq_text (strip s) (strip t)

unfoldable pub match_by_exact_normalized_description : Option Text → Option Text → Bool
unfolding both_given eq_text normalize_description
match_by_exact_normalized_description old_desc new_desc =
    both_given old_desc new_desc λ s t. eq_text (normalize_description s) (normalize_description t)

unfoldable pub verify_exact_match_for_route_log : Text → Text → Text → Text → Bool
unfolding eq_text upper strip
verify_exact_match_for_route_log logged_vehicle source_vehicle logged_route source_route =
    eq_text (upper (strip logged_vehicle)) (upper (strip source_vehicle))
    && eq_text (upper (strip logged_route)) (upper (strip source_route))

abbrev pub variant_conflict_groups : List (List Text)
variant_conflict_groups =
    (codes "mature" ∷ codes "matured" ∷ [])
    ∷ (codes "mild" ∷ [])
    ∷ (codes "medium" ∷ [])
    ∷ (codes "extra mature" ∷ [])
    ∷ (codes "smooth" ∷ [])
    ∷ (codes "original" ∷ [])
    ∷ (codes "lite" ∷ codes "light" ∷ [])
    ∷ (codes "zero" ∷ codes "sugar free" ∷ codes "no sugar" ∷ [])
    ∷ (codes "diet" ∷ [])
    ∷ (codes "full cream" ∷ codes "full-cream" ∷ [])
    ∷ (codes "low fat" ∷ codes "fat free" ∷ codes "fatfree" ∷ [])
    ∷ (codes "spicy" ∷ codes "hot" ∷ [])
    ∷ (codes "unsalted" ∷ [])
    ∷ (codes "salted" ∷ [])
    ∷ (codes "smoked" ∷ [])
    ∷ (codes "unsmoked" ∷ [])
    ∷ []

unfoldable pub starts_with : Text → Text → Bool
starts_with [] t = true
starts_with (c ∷ s) [] = false
starts_with (c ∷ s) (d ∷ t) = (c == d) && starts_with s t

-- `s in t`
unfoldable pub is_substring : Text → Text → Bool
unfolding starts_with
is_substring s [] = starts_with s []
is_substring s (d ∷ t) = starts_with s (d ∷ t) || is_substring s t

unfoldable pub has_char : ℕ → Text → Bool
has_char c [] = false
has_char c (d ∷ t) = (c == d) || has_char c t

-- `variant in joined` for a variant of several words, `variant in tokens` for another.
unfoldable pub has_variant : Text → Text → Bool
unfolding has_char is_substring contains split
has_variant normalized variant =
    if has_char space variant
    then is_substring variant normalized
    else contains (split normalized) variant

unfoldable pub any_variant : Text → List Text → Bool
unfolding has_variant
any_variant normalized [] = false
any_variant normalized (v ∷ vs) = has_variant normalized v || any_variant normalized vs

-- The place of the first group with a variant in the description. The groups of the source are
-- different sets, so that the place tells the group.
unfoldable pub find_group : Text → ℕ → List (List Text) → Option ℕ
unfolding any_variant
find_group normalized i [] = none
find_group normalized i (g ∷ gs) =
    let rest = find_group normalized (suc i) gs in if any_variant normalized g then some i else rest

unfoldable pub find_variant_group : Text → Option ℕ
unfolding find_group
find_variant_group normalized = find_group normalized 0 variant_conflict_groups
