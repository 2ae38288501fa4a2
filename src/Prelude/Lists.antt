-- ===== src/Prelude/Lists.antt =====
-- Lists measured by native numbers, filtered by a Boolean test, and predicates on them.
use Prim.Native.Nat.{ℕ, suc, ◌+◌, ◌≤◌}
use mathlib.Core.Path.{◌≡◌, refl}
use mathlib.Core.Logic.{◌⊎◌, inl, inr}
use mathlib.Core.Bool.{Bool, true, false}
use mathlib.Core.List.{List, [], ◌∷◌, ◌++◌}
use native.Mathlib.Omega.{arith}
use procure_foundation.Prelude.Tests.{if◌then◌else◌, Bool-cases}

module _ {ℓ} {A : Type ℓ} where
  abbrev pub length : List A → ℕ
  length [] = 0
  length (x ∷ xs) = suc (length xs)

  -- `[x for x in xs if p(x)]`
  abbrev pub filter : (A → Bool) → List A → List A
  filter p [] = []
  filter p (x ∷ xs) = if p x then x ∷ filter p xs else filter p xs

  -- `xs.append(x)`
  abbrev pub append_one : List A → A → List A
  append_one xs x = xs ++ (x ∷ [])

  abbrev pub All {κ} : (A → Type κ) → List A → Type κ
  All P [] = Unit
  All P (x ∷ xs) = P x × All P xs

  pub length-append : (xs ys : List A) → length (xs ++ ys) ≡ length xs + length ys
  length-append [] ys = omega arith
  length-append (x ∷ xs) ys = omega (arith, length-append xs ys)

  pub length-filter : (p : A → Bool) (xs : List A) → length (filter p xs) ≤ length xs
  length-filter p [] = omega arith
  length-filter p (x ∷ xs) = ground (arith, length-filter p xs)

  -- What holds of the elements that a filter keeps holds of every element that passes the test.
  pub All-filter {κ} :
      (p : A → Bool) (P : A → Type κ) (xs : List A)
      → All P (filter p xs)
      → All (λ x. p x ≡ true → P x) xs
  All-filter p P [] h = tt
  All-filter p P (y ∷ ys) h = elim (Bool-cases (p y)) [
    | inl yes_y ↦
        let h' : All P (y ∷ filter p ys) = rw yes_y at h in (λ e. h'.0, All-filter p P ys h'.1)
    | inr no_y ↦ (λ e. cc, All-filter p P ys (rw no_y at h))
  ]

  pub filter-nil : (p : A → Bool) (xs : List A) → filter p xs ≡ [] → All (λ x. p x ≡ false) xs
  filter-nil p [] e = tt
  filter-nil p (y ∷ ys) e = elim (Bool-cases (p y)) [
    | inl yes_y ↦ let e' : (y ∷ filter p ys) ≡ [] = rw yes_y at e in cc
    | inr no_y ↦ (no_y, filter-nil p ys (rw no_y at e))
  ]

  pub List-cases : (xs : List A) → (xs ≡ []) ⊎ ((x : A) × (ys : List A) × (xs ≡ x ∷ ys))
  List-cases [] = inl refl
  List-cases (x ∷ xs) = inr (x, xs, refl)

  pub All-map {κ μ} :
      {P : A → Type κ} {Q : A → Type μ} (f : (x : A) → P x → Q x) (xs : List A)
      → All P xs
      → All Q xs
  All-map f [] h = tt
  All-map f (x ∷ xs) h = (f x h.0, All-map f xs h.1)

  pub All-append {κ} : (P : A → Type κ) (xs ys : List A) → All P xs → All P ys → All P (xs ++ ys)
  All-append P [] ys h k = k
  All-append P (x ∷ xs) ys h k = (h.0, All-append P xs ys h.1 k)

  pub All-split {κ} : (P : A → Type κ) (xs ys : List A) → All P (xs ++ ys) → All P xs × All P ys
  All-split P [] ys h = (tt, h)
  All-split P (x ∷ xs) ys h = let (left, right) = All-split P xs ys h.1 in ((h.0, left), right)

module _ {A : Type 0} where
  abbrev pub Member : A → List A → Type 0
  Member x [] = ⊥
  Member x (y ∷ ys) = (x ≡ y) ⊎ Member x ys

  pub Member-left : (x : A) (xs ys : List A) → Member x xs → Member x (xs ++ ys)
  Member-left x [] ys m = absurd m
  Member-left x (y ∷ xs) ys (inl e) = inl e
  Member-left x (y ∷ xs) ys (inr m) = inr (Member-left x xs ys m)

  pub Member-right : (x : A) (xs ys : List A) → Member x ys → Member x (xs ++ ys)
  Member-right x [] ys m = m
  Member-right x (y ∷ xs) ys m = inr (Member-right x xs ys m)

  pub Member-filter :
      (p : A → Bool) (x : A) (xs : List A) → Member x (filter p xs) → Member x xs × (p x ≡ true)
  Member-filter p x [] m = absurd m
  Member-filter p x (y ∷ ys) m = elim (Bool-cases (p y)) [
    | inl yes_y ↦
        let m' : (x ≡ y) ⊎ Member x (filter p ys) = rw yes_y at m in
        elim m' [
          | inl e ↦ (inl e, rw e yes_y)
          | inr rest ↦ let (h, q) = Member-filter p x ys rest in (inr h, q)
        ]
    | inr no_y ↦ let (h, q) = Member-filter p x ys (rw no_y at m) in (inr h, q)
  ]
