-- ===== src/Matching/Normalize/Words.antt =====
-- What normalization leaves of a text: lower-case word characters and spaces, with no digit beside a
-- letter, and the words between the spaces.
use procure_foundation.Prelude.{
  ℕ, ◌≡◌, ◌⊎◌, refl, Bool, true, false, not, ◌&&◌, ◌||◌, Bool-cases, inl, inr, List, [], ◌∷◌, map,
  ◌==◌, All, arith, if◌then◌else◌,
}
use procure_foundation.Matching.Text.{
  Text, space, is_upper, is_word, is_space, to_lower, lower, is_empty, lstrip, rstrip, strip, split,
  prepend,
}
use procure_foundation.Matching.Normalize.{
  punctuation_to_space, is_boundary, split_boundaries, collapse,
}

-- A word character that is no capital.
unfoldable pub is_clean : ℕ → Bool
unfolding is_word is_upper
is_clean c = is_word c && not (is_upper c)

pub is_clean-is_space : (c : ℕ) → is_clean c ≡ true → is_space c ≡ false
unfolding is_clean is_space
is_clean-is_space c h = ground arith

pub is_clean-to_lower : (c : ℕ) → is_clean c ≡ true → to_lower c ≡ c
unfolding is_clean to_lower
is_clean-to_lower c h = ground arith

pub is_clean_punctuation : (c : ℕ) → is_clean c ≡ true → punctuation_to_space c ≡ c
unfolding is_clean punctuation_to_space
is_clean_punctuation c h = ground arith

-- After lowering and replacing, a character is clean or white space.
to_lower_clean :
    (c : ℕ)
    → (is_clean (punctuation_to_space (to_lower c)) || is_space (punctuation_to_space (to_lower c)))
      ≡ true
unfolding is_clean punctuation_to_space to_lower
to_lower_clean c = ground arith

pub is_boundary-space : (c : ℕ) → (is_boundary space c ≡ false) × (is_boundary c space ≡ false)
unfolding is_boundary
is_boundary-space c = ground arith

is_space-boundary : (p c : ℕ) → is_space p ≡ true → is_boundary p c ≡ false
unfolding is_boundary is_space
is_space-boundary p c h = ground arith

-- No digit stands beside a letter in the text, nor its first character beside `p`.
abbrev pub Unbroken : ℕ → Text → Type 0
Unbroken p [] = Unit
Unbroken p (c ∷ t) = (is_boundary p c ≡ false) × Unbroken c t

abbrev IsPlain : ℕ → Type 0
IsPlain c = (is_clean c || is_space c) ≡ true

abbrev pub IsCleanOrSpace : ℕ → Type 0
IsCleanOrSpace c = (is_clean c ≡ true) ⊎ (c ≡ space)

Unbroken-space : (p : ℕ) (t : Text) → Unbroken p t → Unbroken space t
Unbroken-space p [] h = tt
Unbroken-space p (c ∷ t) h = ((is_boundary-space c).0, h.1)

punctuation-IsPlain : (t : Text) → All IsPlain (map punctuation_to_space (lower t))
unfolding lower
punctuation-IsPlain [] = tt
punctuation-IsPlain (c ∷ t) = (to_lower_clean c, punctuation-IsPlain t)

space-IsPlain : IsPlain space
unfolding is_clean is_space
space-IsPlain = refl

split_boundaries-IsPlain : (p : ℕ) (t : Text) → All IsPlain t → All IsPlain (split_boundaries p t)
unfolding split_boundaries
split_boundaries-IsPlain p [] h = tt
split_boundaries-IsPlain p (c ∷ t) h = elim (Bool-cases (is_boundary p c)) [
  | inl e ↦ rw e (space-IsPlain, (h.0, split_boundaries-IsPlain c t h.1))
  | inr e ↦ rw e (h.0, split_boundaries-IsPlain c t h.1)
]

split_boundaries-Unbroken : (p : ℕ) (t : Text) → Unbroken p (split_boundaries p t)
unfolding split_boundaries
split_boundaries-Unbroken p [] = tt
split_boundaries-Unbroken p (c ∷ t) =
    let rest = split_boundaries-Unbroken c t in
    elim (Bool-cases (is_boundary p c)) [
      | inl e ↦ rw e ((is_boundary-space p).1, ((is_boundary-space c).0, rest))
      | inr e ↦ rw e (e, rest)
    ]

plain_clean : (c : ℕ) → IsPlain c → is_space c ≡ false → is_clean c ≡ true
plain_clean c h k = ground arith

collapse-IsCleanOrSpace :
    (inside : Bool) (t : Text) → All IsPlain t → All IsCleanOrSpace (collapse inside t)
unfolding collapse
collapse-IsCleanOrSpace inside [] h = tt
collapse-IsCleanOrSpace inside (c ∷ t) h =
    let rest = collapse-IsCleanOrSpace (is_space c) t h.1 in
    elim (Bool-cases (is_space c)) [
      | inl e ↦ elim (Bool-cases inside) [
        | inl k ↦ rw (e, k) (rw e at rest)
        | inr k ↦ rw (e, k) (inr refl, rw e at rest)
      ]
      | inr e ↦ rw e (inl (plain_clean c h.0 e), rw e at rest)
    ]

-- Behind a space that collapsing has dropped nothing is a boundary.
collapse-Unbroken :
    (inside : Bool) (p : ℕ) (t : Text)
    → Unbroken p t
    → Unbroken (if inside then space else p) (collapse inside t)
unfolding collapse
collapse-Unbroken inside p [] h = tt
collapse-Unbroken inside p (c ∷ t) h =
    let rest = collapse-Unbroken (is_space c) c t h.1 in
    elim (Bool-cases (is_space c)) [
      | inl e ↦
          let rest' : Unbroken space (collapse true t) = rw e at rest in
          elim (Bool-cases inside) [
            | inl k ↦ rw (e, k) rest'
            | inr k ↦ rw (e, k) ((is_boundary-space p).1, rest')
          ]
      | inr e ↦
          let rest' : Unbroken c (collapse false t) = rw e at rest in
          elim (Bool-cases inside) [
            | inl k ↦ rw (e, k) ((is_boundary-space c).0, rest')
            | inr k ↦ rw (e, k) (h.0, rest')
          ]
    ]

lstrip-All : (P : ℕ → Type 0) (t : Text) → All P t → All P (lstrip t)
unfolding lstrip
lstrip-All P [] h = tt
lstrip-All P (c ∷ t) h = elim (Bool-cases (is_space c)) [
  | inl e ↦ rw e (lstrip-All P t h.1)
  | inr e ↦ rw e h
]

rstrip-All : (P : ℕ → Type 0) (t : Text) → All P t → All P (rstrip t)
unfolding rstrip
rstrip-All P [] h = tt
rstrip-All P (c ∷ t) h = elim (Bool-cases (is_space c && is_empty (rstrip t))) [
  | inl e ↦ rw e tt
  | inr e ↦ rw e (h.0, rstrip-All P t h.1)
]

lstrip-Unbroken : (p : ℕ) (t : Text) → Unbroken p t → Unbroken space (lstrip t)
unfolding lstrip
lstrip-Unbroken p [] h = tt
lstrip-Unbroken p (c ∷ t) h = elim (Bool-cases (is_space c)) [
  | inl e ↦ rw e (lstrip-Unbroken c t h.1)
  | inr e ↦ rw e ((is_boundary-space c).0, h.1)
]

rstrip-Unbroken : (p : ℕ) (t : Text) → Unbroken p t → Unbroken p (rstrip t)
unfolding rstrip
rstrip-Unbroken p [] h = tt
rstrip-Unbroken p (c ∷ t) h = elim (Bool-cases (is_space c && is_empty (rstrip t))) [
  | inl e ↦ rw e tt
  | inr e ↦ rw e (h.0, rstrip-Unbroken c t h.1)
]

abbrev pub IsWord : ℕ → Text → Type 0
IsWord p w = All (λ c. is_clean c ≡ true) w × Unbroken p w

-- The first piece continues what stands before it, the others follow a space.
abbrev AreWords : ℕ → List Text → Type 0
AreWords p [] = ⊥
AreWords p (w ∷ ws) = IsWord p w × All (IsWord space) ws

prepend-AreWords :
    (p c : ℕ) (ws : List Text)
    → is_clean c ≡ true
    → is_boundary p c ≡ false
    → AreWords c ws
    → AreWords p (prepend c ws)
prepend-AreWords p c [] clean b h = absurd h
prepend-AreWords p c (w ∷ ws) clean b h = (((clean, h.0.0), (b, h.0.1)), h.1)

AreWords-All : (ws : List Text) → AreWords space ws → All (IsWord space) ws
AreWords-All [] h = tt
AreWords-All (w ∷ ws) h = h

pub clean-ne-space : (c : ℕ) → is_clean c ≡ true → (c == space) ≡ false
unfolding is_clean
clean-ne-space c h = ground arith

split-AreWords : (p : ℕ) (t : Text) → All IsCleanOrSpace t → Unbroken p t → AreWords p (split t)
unfolding split
split-AreWords p [] h u = ((tt, tt), tt)
split-AreWords p (c ∷ t) h u =
    let rest = split-AreWords c t h.1 u.1 in
    elim (h.0) [
      | inl clean ↦ rw (clean-ne-space c clean) (prepend-AreWords p c (split t) clean u.0 rest)
      | inr e ↦
          let after : AreWords space (split t) = rw e at rest in
          rw e ((tt, tt), AreWords-All (split t) after)
    ]

pub split-IsWord :
    (t : Text)
    → All (IsWord space) (
        split
          (strip (collapse false (split_boundaries space (map punctuation_to_space (lower t))))))
unfolding strip
split-IsWord t =
    let plain = map punctuation_to_space (lower t) in
    let broken = split_boundaries space plain in
    let text = collapse false broken in
    let chars : All IsCleanOrSpace text =
      collapse-IsCleanOrSpace false broken
        (split_boundaries-IsPlain space plain (punctuation-IsPlain t)) in
    let unbroken : Unbroken space text =
      collapse-Unbroken false space broken (split_boundaries-Unbroken space plain) in
    AreWords-All _ (
      split-AreWords space (strip text)
        (rstrip-All IsCleanOrSpace _ (lstrip-All IsCleanOrSpace text chars))
        (rstrip-Unbroken space _ (lstrip-Unbroken space text unbroken)))
