-- ===== src/Prelude/Order.antt =====
-- `sorted(xs, key=...)` and `max(xs, key=...)` of Python, on integer keys.
use mathlib.Core.Path.{◌≡◌, refl}
use mathlib.Core.List.{List, [], ◌∷◌}
use mathlib.Core.Bool.{Bool, true, false}
use native.Mathlib.Omega.{arith}
use mathlib.Core.Logic.{◌⊎◌, ◌≢◌, inl, inr}
use procure_foundation.Prelude.Tests.{if◌then◌else◌, Bool-cases, leb→le}
use procure_foundation.Prelude.Lists.{All, Member}
use procure_foundation.Prelude.Int.{ℤ, ◌≤ℤ◌, leb_ℤ, ltb_ℤ}

module _ {ℓ} {A : Type ℓ} (key : A → ℤ) where
  -- In front of the first element with a key that is not smaller.
  unfoldable pub insert_by : A → List A → List A
  insert_by x [] = x ∷ []
  insert_by x (y ∷ ys) = if leb_ℤ (key x) (key y) then x ∷ y ∷ ys else y ∷ insert_by x ys

  -- Sorting is stable.
  unfoldable pub sorted_by : List A → List A
  unfolding insert_by
  sorted_by [] = []
  sorted_by (x ∷ xs) = insert_by x (sorted_by xs)

  -- The first of the elements with the greatest key.
  unfoldable pub max_by : A → List A → A
  max_by best [] = best
  max_by best (x ∷ xs) = max_by (if ltb_ℤ (key best) (key x) then x else best) xs

  abbrev pub Least : A → List A → Type 0
  Least x = All λ y. key x ≤ℤ key y

  abbrev pub IsSorted : List A → Type 0
  IsSorted [] = Unit
  IsSorted (x ∷ xs) = Least x xs × IsSorted xs

  pub insert_by-All {κ} :
      (P : A → Type κ) (x : A) (xs : List A) → P x → All P xs → All P (insert_by x xs)
  unfolding insert_by
  insert_by-All P x [] p ps = (p, tt)
  insert_by-All P x (y ∷ ys) p ps = elim (Bool-cases (leb_ℤ (key x) (key y))) [
    | inl le ↦ rw le (p, ps)
    | inr gt ↦ rw gt (ps.0, insert_by-All P x ys p ps.1)
  ]

  pub All-insert_by {κ} :
      (P : A → Type κ) (x : A) (xs : List A) → All P (insert_by x xs) → P x × All P xs
  unfolding insert_by
  All-insert_by P x [] ps = ps
  All-insert_by P x (y ∷ ys) ps = elim (Bool-cases (leb_ℤ (key x) (key y))) [
    | inl le ↦ rw le at ps
    | inr gt ↦
        let qs : All P (y ∷ insert_by x ys) = rw gt at ps in
        let (p, rest) = All-insert_by P x ys qs.1 in (p, (qs.0, rest))
  ]

  -- Sorting keeps the elements.
  pub sorted_by-All {κ} : (P : A → Type κ) (xs : List A) → All P xs → All P (sorted_by xs)
  unfolding sorted_by
  sorted_by-All P [] ps = ps
  sorted_by-All P (x ∷ xs) ps = insert_by-All P x (sorted_by xs) ps.0 (sorted_by-All P xs ps.1)

  pub All-sorted_by {κ} : (P : A → Type κ) (xs : List A) → All P (sorted_by xs) → All P xs
  unfolding sorted_by
  All-sorted_by P [] ps = ps
  All-sorted_by P (x ∷ xs) ps =
      let (p, rest) = All-insert_by P x (sorted_by xs) ps in (p, All-sorted_by P xs rest)

  Least-trans : (x y : A) (zs : List A) → key x ≤ℤ key y → Least y zs → Least x zs
  Least-trans x y [] h l = tt
  Least-trans x y (z ∷ zs) h l = (omega arith, Least-trans x y zs h l.1)

  insert_by-IsSorted : (x : A) (xs : List A) → IsSorted xs → IsSorted (insert_by x xs)
  unfolding insert_by
  insert_by-IsSorted x [] s = (tt, tt)
  insert_by-IsSorted x (y ∷ ys) s = elim (Bool-cases (leb_ℤ (key x) (key y))) [
    | inl le ↦ let h : key x ≤ℤ key y = leb→le _ _ le in rw le ((h, Least-trans x y ys h s.0), s)
    | inr gt ↦
        let h : key y ≤ℤ key x = ground arith in
        rw gt (insert_by-All (λ z. key y ≤ℤ key z) x ys h s.0, insert_by-IsSorted x ys s.1)
  ]

  pub sorted_by-IsSorted : (xs : List A) → IsSorted (sorted_by xs)
  unfolding sorted_by
  sorted_by-IsSorted [] = tt
  sorted_by-IsSorted (x ∷ xs) = insert_by-IsSorted x (sorted_by xs) (sorted_by-IsSorted xs)

  -- The maximum is one of the elements, and none is greater.
  pub max_by-All {κ} :
      (P : A → Type κ) (best : A) (xs : List A) → P best → All P xs → P (max_by best xs)
  unfolding max_by
  max_by-All P best [] p ps = p
  max_by-All P best (x ∷ xs) p ps = elim (Bool-cases (ltb_ℤ (key best) (key x))) [
    | inl lt ↦ rw lt (max_by-All P x xs ps.0 ps.1)
    | inr ge ↦ rw ge (max_by-All P best xs p ps.1)
  ]

  pub max_by_greatest :
      (best : A) (xs : List A)
      → (key best ≤ℤ key (max_by best xs)) × All (λ x. key x ≤ℤ key (max_by best xs)) xs
  unfolding max_by
  max_by_greatest best [] = (omega arith, tt)
  max_by_greatest best (x ∷ xs) =
      let y : A = if ltb_ℤ (key best) (key x) then x else best in
      let (h, rest) = max_by_greatest y xs in
      let up : (key best ≤ℤ key y) × (key x ≤ℤ key y) = ground arith in
      let top : A = max_by y xs in (omega (arith, up.0, h), (omega (arith, up.1, h), rest))

  insert_by-ne-nil : (x : A) (xs : List A) → insert_by x xs ≢ []
  unfolding insert_by
  insert_by-ne-nil x [] = ground arith
  insert_by-ne-nil x (y ∷ ys) = ground arith

  pub sorted_by-nil : (xs : List A) → sorted_by xs ≡ [] → xs ≡ []
  unfolding sorted_by
  sorted_by-nil [] e = refl
  sorted_by-nil (x ∷ xs) e = absurd (insert_by-ne-nil x (sorted_by xs) e)

module _ {A : Type 0} (key : A → ℤ) where
  pick-Member :
      (b : Bool) (x best z : A) (xs : List A)
      → Member z ((if b then x else best) ∷ xs)
      → Member z (best ∷ x ∷ xs)
  pick-Member true x best z xs m = inr m
  pick-Member false x best z xs m = elim m [ inl e ↦ inl e | inr r ↦ inr (inr r) ]

  pub max_by-Member : (best : A) (xs : List A) → Member (max_by key best xs) (best ∷ xs)
  unfolding max_by
  max_by-Member best [] = inl refl
  max_by-Member best (x ∷ xs) =
      let b : Bool = ltb_ℤ (key best) (key x) in
      pick-Member b x best _ xs (max_by-Member (if b then x else best) xs)

  Member-insert_by : (z x : A) (xs : List A) → Member z (insert_by key x xs) → Member z (x ∷ xs)
  unfolding insert_by
  Member-insert_by z x [] m = m
  Member-insert_by z x (y ∷ ys) m = elim (Bool-cases (leb_ℤ (key x) (key y))) [
    | inl le ↦ rw le at m
    | inr gt ↦
        let m' : (z ≡ y) ⊎ Member z (insert_by key x ys) = rw gt at m in
        elim m' [
          | inl e ↦ inr (inl e)
          | inr rest ↦ elim (Member-insert_by z x ys rest) [ inl e ↦ inl e | inr r ↦ inr (inr r) ]
        ]
  ]

  pub Member-sorted_by : (z : A) (xs : List A) → Member z (sorted_by key xs) → Member z xs
  unfolding sorted_by
  Member-sorted_by z [] m = m
  Member-sorted_by z (x ∷ xs) m = elim (Member-insert_by z x (sorted_by key xs) m) [
    | inl e ↦ inl e
    | inr r ↦ inr (Member-sorted_by z xs r)
  ]
