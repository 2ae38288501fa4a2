-- ===== src/Inventory/Movement.antt =====
-- Which snapshot the last movement is read from.
use procure_foundation.Prelude.{
  ◌≡◌, ◌⊎◌, inl, inr, Bool-cases, some, List, [], ◌∷◌, ◌++◌, refl, ap, arith, true, false, ◌∙◌,
  subst, ltb→lt, ltb-false→le,
}
use procure_foundation.Prelude.Int.{◌<ℤ◌, ◌≤ℤ◌, ltb_ℤ}
use procure_foundation.Decimal.{Decimal}
use procure_foundation.Calendar.{Date, days_between}
use procure_foundation.Inventory.{
  last_decrease, reverse_onto, from_newest, calculate_days_since_last_movement,
}

abbrev Snapshots : Type 0
Snapshots = List (Date × Decimal)

-- In order of time, no quantity falls from one snapshot to the next, the first following `before`.
abbrev pub NeverFalls : Decimal → Snapshots → Type 0
NeverFalls before [] = Unit
NeverFalls before ((_, q) ∷ rest) = (before ≤ℤ q) × NeverFalls q rest

-- The date of the last movement of a series in order of time: the last snapshot whose quantity is
-- below the one before, or the first where there is no such snapshot.
pub data LastMovement : Snapshots → Date → Type 0 where
  falls :
      (earlier later : Snapshots) (prior current : Date) (pq cq : Decimal)
      → cq <ℤ pq
      → NeverFalls cq later
      → LastMovement (earlier ++ (prior, pq) ∷ (current, cq) ∷ later) current
  never :
      (first second : Date) (q r : Decimal) (rest : Snapshots)
      → NeverFalls q ((second, r) ∷ rest)
      → LastMovement ((first, q) ∷ (second, r) ∷ rest) first

reverse_onto-++ :
    (acc xs ys : Snapshots) → reverse_onto acc (xs ++ ys) ≡ reverse_onto (reverse_onto acc xs) ys
unfolding reverse_onto
reverse_onto-++ acc [] ys = refl
reverse_onto-++ acc (x ∷ xs) ys = reverse_onto-++ (x ∷ acc) xs ys

-- Snapshots that never fall do not count.
skip :
    (as_of : Date) (d e : Date) (q r : Decimal) (older later : Snapshots)
    → NeverFalls q later
    → from_newest as_of (reverse_onto ((d, q) ∷ (e, r) ∷ older) later)
      ≡ some (last_decrease as_of (d, q) ((e, r) ∷ older))
unfolding reverse_onto from_newest last_decrease
skip as_of d e q r older [] h = refl
skip as_of d e q r older ((c, p) ∷ later) h =
    let rises : ltb_ℤ p q ≡ false = ground arith in
    skip as_of c d p q ((e, r) ∷ older) later h.1 ∙ rw rises refl

moved_on :
    (as_of : Date) (xs : Snapshots) (d : Date)
    → LastMovement xs d
    → calculate_days_since_last_movement xs as_of ≡ some (days_between as_of d)
unfolding calculate_days_since_last_movement reverse_onto last_decrease
moved_on as_of _ _ (falls earlier later prior current pq cq fell h) =
    let down : ltb_ℤ cq pq ≡ true = ground arith in
    ap (from_newest as_of) (reverse_onto-++ [] earlier ((prior, pq) ∷ (current, cq) ∷ later))
    ∙ skip as_of current prior cq pq (reverse_onto [] earlier) later h
    ∙ rw down refl
moved_on as_of _ _ (never first second q r rest h) =
    let rises : ltb_ℤ r q ≡ false = ground arith in
    skip as_of second first r q [] rest h.1 ∙ rw rises refl

Fallen : Snapshots → Type 0
Fallen xs =
    (earlier later : Snapshots) × (prior current : Date) × (pq cq : Decimal) × (earlier
        ++ (prior, pq) ∷ (current, cq) ∷ later
      ≡ xs)
    × (cq <ℤ pq)
    × NeverFalls cq later

split : (w : Date) (p : Decimal) (xs : Snapshots) → NeverFalls p xs ⊎ Fallen ((w, p) ∷ xs)
unfolding Fallen
split w p [] = inl tt
split w p ((v, q) ∷ xs) = elim (split v q xs) [
  | inl rises ↦ elim (Bool-cases (ltb_ℤ q p)) [
    | inl down ↦ inr ([], xs, w, v, p, q, refl, ltb→lt _ _ down, rises)
    | inr up ↦ inl (ltb-false→le _ _ up, rises)
  ]
  | inr (earlier, later, prior, current, pq, cq, same, fell, rises) ↦
      inr ((w, p) ∷ earlier, later, prior, current, pq, cq, ap (λ t. (w, p) ∷ t) same, fell, rises)
]

last_movement :
    (w v : Date) (p q : Decimal) (xs : Snapshots)
    → (d : Date) × LastMovement ((w, p) ∷ (v, q) ∷ xs) d
unfolding Fallen
last_movement w v p q xs = elim (split w p ((v, q) ∷ xs)) [
  | inl rises ↦ (w, never w v p q xs rises)
  | inr (earlier, later, prior, current, pq, cq, same, fell, rises) ↦ (
    current,
    subst (λ t. LastMovement t current) same (falls earlier later prior current pq cq fell rises),
  )
]

-- With at least two snapshots in order of time, the days are counted from the last snapshot whose
-- quantity is below the one before, or from the first snapshot where no quantity ever falls.
pub calculate_days_since_last_movement_lem :
    (as_of w v : Date) (p q : Decimal) (xs : List (Date × Decimal))
    → let snapshots = (w, p) ∷ (v, q) ∷ xs in
      (d : Date) × LastMovement snapshots d
      × (calculate_days_since_last_movement snapshots as_of ≡ some (days_between as_of d))
calculate_days_since_last_movement_lem as_of w v p q xs =
    let (d, last) = last_movement w v p q xs in (d, last, moved_on as_of _ d last)
