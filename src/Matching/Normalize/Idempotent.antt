-- ===== src/Matching/Normalize/Idempotent.antt =====
-- The normalization of a description that has been normalized.
use procure_foundation.Prelude.{
  ℕ, ◌≡◌, refl, ap, ◌∙◌, Bool, true, false, Bool-cases, inl, inr, List, [], ◌∷◌, ◌++◌, map, filter,
  All, All-map, All-append,
}
use procure_foundation.Matching.Text.{
  Text, space, to_lower, lower, is_empty, lstrip, rstrip, strip, split, join, prepend,
}
use procure_foundation.Matching.Normalize.{
  punctuation_to_space, split_boundaries, collapse, is_kept, tokens_of, normalize_description,
}
use procure_foundation.Matching.Normalize.Words.{
  is_clean, is_clean-is_space, is_clean-to_lower, is_clean_punctuation, is_boundary-space, Unbroken,
  IsWord, split-IsWord, clean-ne-space,
}

-- A token: a kept word.
abbrev pub IsToken : Text → Type 0
IsToken w = IsWord space w × (is_kept w ≡ true)

filter-IsToken : (ws : List Text) → All (IsWord space) ws → All IsToken (filter is_kept ws)
filter-IsToken [] h = tt
filter-IsToken (w ∷ ws) h = elim (Bool-cases (is_kept w)) [
  | inl e ↦ rw e ((h.0, e), filter-IsToken ws h.1)
  | inr e ↦ rw e (filter-IsToken ws h.1)
]

tokens_of-IsToken : (t : Text) → All IsToken (tokens_of t)
unfolding tokens_of
tokens_of-IsToken t = filter-IsToken _ (split-IsWord t)

filter_kept : (ws : List Text) → All IsToken ws → filter is_kept ws ≡ ws
filter_kept [] h = refl
filter_kept (w ∷ ws) h = rw h.0.1 (ap (◌∷◌ w) (filter_kept ws h.1))

-- The characters of joined words.
module _ (P : ℕ → Type 0) where
  join-All :
      ((c : ℕ) → is_clean c ≡ true → P c)
      → P space
      → (ws : List Text) → All IsToken ws
      → All P (join ws)
  unfolding join
  join-All clean gap [] h = tt
  join-All clean gap (w ∷ []) h = All-map clean w h.0.0.0
  join-All clean gap (w ∷ v ∷ ws) h =
      All-append P w _ (All-map clean w h.0.0.0) (gap, join-All clean gap (v ∷ ws) h.1)

map-id_on : (f : ℕ → ℕ) (t : Text) → All (λ c. f c ≡ c) t → map f t ≡ t
map-id_on f [] h = refl
map-id_on f (c ∷ t) h = cc (h.0, map-id_on f t h.1)

-- Behind a word comes nothing or a space.
++-Unbroken : (p : ℕ) (w t : Text) → Unbroken p w → Unbroken space t → Unbroken p (w ++ space ∷ t)
++-Unbroken p [] t h k = ((is_boundary-space p).1, k)
++-Unbroken p (c ∷ w) t h k = (h.0, ++-Unbroken c w t h.1 k)

join-Unbroken : (ws : List Text) → All IsToken ws → Unbroken space (join ws)
unfolding join
join-Unbroken [] h = tt
join-Unbroken (w ∷ []) h = h.0.0.1
join-Unbroken (w ∷ v ∷ ws) h =
    ++-Unbroken space w (join (v ∷ ws)) h.0.0.1 (join-Unbroken (v ∷ ws) h.1)

split_boundaries-id : (p : ℕ) (t : Text) → Unbroken p t → split_boundaries p t ≡ t
unfolding split_boundaries
split_boundaries-id p [] h = refl
split_boundaries-id p (c ∷ t) h = rw h.0 (ap (◌∷◌ c) (split_boundaries-id c t h.1))

-- Joined words hold single spaces only, none at either end.
abbrev IsClean : Text → Type 0
IsClean = All λ c. is_clean c ≡ true

module _ {A : Type 0} where
  no_token : IsToken [] → A
  unfolding is_kept
  no_token h = cc

collapse-clean : (inside : Bool) (w : Text) → IsClean w → collapse inside w ≡ w
unfolding collapse
collapse-clean inside [] h = refl
collapse-clean inside (c ∷ w) h =
    rw (is_clean-is_space c h.0) (ap (◌∷◌ c) (collapse-clean false w h.1))

collapse-++ : (w t : Text) → IsClean w → collapse false (w ++ t) ≡ w ++ collapse false t
unfolding collapse
collapse-++ [] t h = refl
collapse-++ (c ∷ w) t h = rw (is_clean-is_space c h.0) (ap (◌∷◌ c) (collapse-++ w t h.1))

collapse-join :
    (inside : Bool) (ws : List Text) → All IsToken ws → collapse inside (join ws) ≡ join ws
unfolding join collapse
collapse-join inside [] h = refl
collapse-join inside ([] ∷ ws) h = no_token h.0
collapse-join inside ((c ∷ w) ∷ []) h = collapse-clean inside (c ∷ w) h.0.0.0
collapse-join inside ((c ∷ w) ∷ v ∷ ws) h =
    let rest = collapse-join true (v ∷ ws) h.1 in
    rw (is_clean-is_space c h.0.0.0.0)
      (ap (◌∷◌ c) (collapse-++ w (space ∷ join (v ∷ ws)) h.0.0.0.1 ∙ ap (λ t. w ++ space ∷ t) rest))

lstrip-join : (ws : List Text) → All IsToken ws → lstrip (join ws) ≡ join ws
unfolding join lstrip
lstrip-join [] h = refl
lstrip-join ([] ∷ ws) h = no_token h.0
lstrip-join ((c ∷ w) ∷ []) h = rw (is_clean-is_space c h.0.0.0.0) refl
lstrip-join ((c ∷ w) ∷ v ∷ ws) h = rw (is_clean-is_space c h.0.0.0.0) refl

rstrip-clean : (w : Text) → IsClean w → rstrip w ≡ w
unfolding rstrip
rstrip-clean [] h = refl
rstrip-clean (c ∷ w) h = rw (is_clean-is_space c h.0) (ap (◌∷◌ c) (rstrip-clean w h.1))

rstrip-++ : (w t : Text) → IsClean w → rstrip (w ++ t) ≡ w ++ rstrip t
unfolding rstrip
rstrip-++ [] t h = refl
rstrip-++ (c ∷ w) t h = rw (is_clean-is_space c h.0) (ap (◌∷◌ c) (rstrip-++ w t h.1))

join-not_empty :
    (v : Text) (ws : List Text) → All IsToken (v ∷ ws) → is_empty (join (v ∷ ws)) ≡ false
unfolding join
join-not_empty [] ws h = no_token h.0
join-not_empty (c ∷ v) [] h = refl
join-not_empty (c ∷ v) (w ∷ ws) h = refl

rstrip-space : (t : Text) → rstrip t ≡ t → is_empty t ≡ false → rstrip (space ∷ t) ≡ space ∷ t
unfolding rstrip
rstrip-space t e more = rw (e, more) refl

rstrip-join : (ws : List Text) → All IsToken ws → rstrip (join ws) ≡ join ws
unfolding join
rstrip-join [] h = unfold rstrip in refl
rstrip-join (w ∷ []) h = rstrip-clean w h.0.0.0
rstrip-join (w ∷ v ∷ ws) h =
    rstrip-++ w (space ∷ join (v ∷ ws)) h.0.0.0
    ∙ ap (λ t. w ++ t)
        (rstrip-space (join (v ∷ ws)) (rstrip-join (v ∷ ws) h.1) (join-not_empty v ws h.1))

split-clean : (w : Text) → IsClean w → split w ≡ w ∷ []
unfolding split
split-clean [] h = refl
split-clean (c ∷ w) h = rw (clean-ne-space c h.0) (ap (prepend c) (split-clean w h.1))

split-++ : (w t : Text) → IsClean w → split (w ++ space ∷ t) ≡ w ∷ split t
unfolding split
split-++ [] t h = refl
split-++ (c ∷ w) t h = rw (clean-ne-space c h.0) (ap (prepend c) (split-++ w t h.1))

split-join : (v : Text) (ws : List Text) → All IsToken (v ∷ ws) → split (join (v ∷ ws)) ≡ v ∷ ws
unfolding join
split-join v [] h = split-clean v h.0.0.0
split-join v (w ∷ ws) h = split-++ v (join (w ∷ ws)) h.0.0.0 ∙ ap (◌∷◌ v) (split-join w ws h.1)

filter-split-join : (ws : List Text) → All IsToken ws → filter is_kept (split (join ws)) ≡ ws
filter-split-join [] h = unfold join split is_kept in refl
filter-split-join (v ∷ ws) h = rw (split-join v ws h) (filter_kept (v ∷ ws) h)

to_lower-space : (to_lower space ≡ space) × (punctuation_to_space space ≡ space)
unfolding to_lower punctuation_to_space
to_lower-space = (refl, refl)

-- Joined tokens are read back as they are.
pub tokens_of-join : (ws : List Text) → All IsToken ws → tokens_of (join ws) ≡ ws
unfolding tokens_of lower strip
tokens_of-join ws h =
    let t = join ws in
    let lowered = map-id_on to_lower t (join-All _ is_clean-to_lower to_lower-space.0 ws h) in
    let kept =
      map-id_on punctuation_to_space t (join-All _ is_clean_punctuation to_lower-space.1 ws h) in
    rw
      (
        lowered,
        kept,
        split_boundaries-id space t (join-Unbroken ws h),
        collapse-join false ws h,
        lstrip-join ws h,
        rstrip-join ws h,
      )
      (filter-split-join ws h)

normalize_description_lem : (t : Text) → normalize_description t ≡ join (tokens_of t)
unfolding normalize_description
normalize_description_lem [] = refl
normalize_description_lem (c ∷ t) = refl

-- On ASCII text, normalizing a normalized description leaves it as it is.
pub normalize_description_idem :
    (t : Text) → normalize_description (normalize_description t) ≡ normalize_description t
normalize_description_idem t =
    let ws = tokens_of t in
    rw (normalize_description_lem t)
      (normalize_description_lem (join ws) ∙ ap join (tokens_of-join ws (tokens_of-IsToken t)))
