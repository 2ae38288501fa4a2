-- ===== src/Spend/Pareto.antt =====
-- Which items are the Pareto contributors.
use procure_foundation.Prelude.{
  ◌≡◌, ◌≢◌, inl, inr, Bool-cases, List, [], ◌∷◌, ◌++◌, length, refl, ap, subst, arith, leb→le,
}
use procure_foundation.Prelude.Int.{pos, ◌≤ℤ◌, ◌<ℤ◌, leb_ℤ, eqb_ℤ, eq_of_parts}
use procure_foundation.Result.{ok, >>=-eq-ok, ok-injective}
use procure_foundation.Decimal.{Decimal, add, div, percentage_of}
use procure_foundation.Spend.{
  SpendItem, total_of, ParetoResult, contributors_from, calculate_pareto_contributors,
}

-- A run of items whose running share of the total stays below the target up to the last of them,
-- at which it reaches the target, or which are all the items.
pub data Reaches (target total : Decimal) : Decimal → List SpendItem → List SpendItem → Type 0 where
  at_end : (running : Decimal) → Reaches target total running [] []
  here :
      (running share : Decimal) (i : SpendItem) (is : List SpendItem)
      → div (add running i.amount) total ≡ ok share
      → target ≤ℤ share
      → Reaches target total running (i ∷ is) (i ∷ [])
  later :
      (running share : Decimal) (i : SpendItem) (is run : List SpendItem)
      → div (add running i.amount) total ≡ ok share
      → share <ℤ target
      → Reaches target total (add running i.amount) is run
      → Reaches target total running (i ∷ is) (i ∷ run)

module _ (target total : Decimal) where
  contributors_from-Reaches :
      (running : Decimal) (items : List SpendItem) {c : List SpendItem} {n : Decimal}
      → contributors_from target total running items ≡ ok (c, n)
      → Reaches target total running items c
  unfolding contributors_from
  contributors_from-Reaches running [] {c} {n} e =
      subst (λ t. Reaches target total running [] t.0) (ok-injective e) (at_end running)
  contributors_from-Reaches running (i ∷ is) {c} {n} e =
      let (share, h, e1) = >>=-eq-ok (div (add running i.amount) total) _ e in
      elim (Bool-cases (leb_ℤ target share)) [
        | inl enough ↦
            subst (λ t. Reaches target total running (i ∷ is) t.0) (ok-injective (rw enough at e1))
              (here running share i is h (leb→le _ _ enough))
        | inr less ↦
            let ((r, k), h2, e2) =
              >>=-eq-ok (contributors_from target total (add running i.amount) is) _
                (rw less at e1) in
            let below : share <ℤ target = ground arith in
            subst (λ t. Reaches target total running (i ∷ is) t.0) (ok-injective e2)
              (later running share i is r h below
                (contributors_from-Reaches (add running i.amount) is h2))
      ]

  Reaches-prefix :
      (running : Decimal) (items run : List SpendItem)
      → Reaches target total running items run
      → (rest : List SpendItem) × (run ++ rest ≡ items)
  Reaches-prefix running _ _ (at_end _) = ([], refl)
  Reaches-prefix running _ _ (here _ share i is h k) = (is, refl)
  Reaches-prefix running _ _ (later _ share i is run h k r) =
      let (rest, e) = Reaches-prefix (add running i.amount) is run r in (rest, ap (λ t. i ∷ t) e)

-- Where the total is not zero, the contributors are the first items up to the one at which the
-- running share of the total reaches the target, or all the items where it never does; they are
-- counted, and so are the items.
pub calculate_pareto_contributors-Reaches :
    (items : List SpendItem) (target : Decimal) {r : ParetoResult}
    → total_of items ≢ pos 0
    → calculate_pareto_contributors items target ≡ ok r
    → Reaches target (total_of items) (pos 0) items r.contributors
      × ((rest : List SpendItem) × (r.contributors ++ rest ≡ items))
      × (r.contributor_count ≡ length r.contributors)
      × (r.total_item_count ≡ length items)
unfolding calculate_pareto_contributors
calculate_pareto_contributors-Reaches items target {r} nonzero e =
    let total : Decimal = total_of items in
    elim (Bool-cases (eqb_ℤ total (pos 0))) [
      | inl zero_total ↦ absurd (nonzero (eq_of_parts _ _ (ground arith)))
      | inr some_total ↦
          let ((c, n), h, e1) =
            >>=-eq-ok (contributors_from target total (pos 0) items) _ (rw some_total at e) in
          let (pct, _, e2) = >>=-eq-ok (percentage_of n total) _ e1 in
          let reaches = contributors_from-Reaches target total (pos 0) items h in
          subst
            (λ (t : ParetoResult).
              Reaches target total (pos 0) items t.contributors
              × ((rest : List SpendItem) × (t.contributors ++ rest ≡ items))
              × (t.contributor_count ≡ length t.contributors)
              × (t.total_item_count ≡ length items))
            (ok-injective e2)
            (reaches, Reaches-prefix target total (pos 0) items c reaches, refl, refl)
    ]
