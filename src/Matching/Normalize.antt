-- ===== src/Matching/Normalize.antt =====
-- backend/app/matching/normalize.py: the normalization of descriptions, the tokens that identify a
-- product, and the variants that exclude one another.
pub mod Words
pub mod Idempotent
use procure_foundation.Prelude.{
  ℕ, Bool, true, false, not, ◌&&◌, ◌||◌, Option, none, some, List, [], ◌∷◌, map, filter, ◌==◌,
  if◌then◌else◌,
}
use procure_foundation.Matching.Text.{
  Text, codes, space, is_digit, is_letter, is_word, is_space, lower, is_empty, strip, split, join,
  contains,
}

-- `[^\w\s]` becomes a space.
unfoldable pub punctuation_to_space : ℕ → ℕ
unfolding is_word is_space
punctuation_to_space c = if is_word c || is_space c then c else space

-- A digit beside a letter.
unfoldable pub is_boundary : ℕ → ℕ → Bool
unfolding is_digit is_letter
is_boundary p c = (is_digit p && is_letter c) || (is_letter p && is_digit c)

-- `_DIGIT_LETTER_BOUNDARY_RE.sub(" ", text)` behind the character `p`.
unfoldable pub split_boundaries : ℕ → Text → Text
unfolding is_boundary
split_boundaries p [] = []
split_boundaries p (c ∷ t) =
    let rest = split_boundaries c t in if is_boundary p c then space ∷ c ∷ rest else c ∷ rest

-- `_WHITESPACE_RE.sub(" ", text)`; the flag says that the run has begun.
unfoldable pub collapse : Bool → Text → Text
unfolding is_space
collapse inside [] = []
collapse inside (c ∷ t) =
    let rest = collapse (is_space c) t in
    if is_space c then if inside then rest else space ∷ rest else c ∷ rest

abbrev pub stopwords : List Text
stopwords =
    codes "the" ∷ codes "a" ∷ codes "an" ∷ codes "of" ∷ codes "and" ∷ codes "with" ∷ codes "in" ∷ []

-- `t and t not in _STOPWORDS`
unfoldable pub is_kept : Text → Bool
unfolding contains
is_kept t = not (is_empty t) && not (contains stopwords t)

-- A space stands for the start of the text, where no boundary is.
unfoldable pub tokens_of : Text → List Text
unfolding lower punctuation_to_space split_boundaries collapse strip split is_kept
tokens_of raw =
    let text = map punctuation_to_space (lower raw) in
    filter is_kept (split (strip (collapse false (split_boundaries space text))))

unfoldable pub normalize_description : Text → Text
unfolding tokens_of join
normalize_description [] = []
normalize_description (c ∷ t) = join (tokens_of (c ∷ t))
