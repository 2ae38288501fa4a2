-- ===== src/Rebate/Tiers.antt =====
-- Which band a tiered rebate pays by, and which tier comes next.
use procure_foundation.Prelude.{
  ◌≡◌, ◌⊎◌, inl, inr, Bool, true, false, Option, none, some, List, [], ◌∷◌, All, Member,
  Member-filter, All-filter, filter-nil, List-cases, All-map, filter, refl, ltb→lt, lt→ltb,
  ltb-false→le, ap,
}
use procure_foundation.Prelude.Int.{pos, ◌≤ℤ◌, ◌<ℤ◌, ltb_ℤ}
use procure_foundation.Prelude.Order.{
  IsSorted, max_by, max_by-Member, max_by_greatest, sorted_by, sorted_by-IsSorted, sorted_by-nil,
  Member-sorted_by, All-sorted_by,
}
use native.Mathlib.Nat.{le_refl}
use procure_foundation.Result.{ok, ◌>>=◌}
use procure_foundation.Decimal.{Decimal, sub, mul, round_currency}
use procure_foundation.Rebate.{
  RebateType, tiered, RebateBand, is_reached, applicable, pay_best_band, banded_rebate,
  calculate_expected_rebate, higher_bands, next_tier, calculate_progress_to_next_tier,
}

-- The best band of a list is one of the reached bands with the highest threshold.
abbrev pub IsBest : Decimal → List RebateBand → RebateBand → Type 0
IsBest spend bands best =
    Member best bands
    × (is_reached spend best ≡ true)
    × All (λ x. is_reached spend x ≡ true → x.threshold_spend ≤ℤ best.threshold_spend) bands

IsBest-of :
    (spend : Decimal) (bands : List RebateBand) (c : RebateBand) (cs : List RebateBand)
    → applicable spend bands ≡ c ∷ cs
    → IsBest spend bands (max_by (λ x. x.threshold_spend) c cs)
IsBest-of spend bands c cs e =
    let key = λ (x : RebateBand). x.threshold_spend in
    let m : Member (max_by key c cs) (applicable spend bands) = rw e (max_by-Member key c cs) in
    let g : All (λ x. key x ≤ℤ key (max_by key c cs)) (applicable spend bands) =
      rw e (max_by_greatest key c cs) in
    let (inside, reached) = Member-filter (is_reached spend) _ bands m in
    (inside, reached, All-filter (is_reached spend) _ bands g)

banded_rebate_lem :
    (spend : Decimal) (b : RebateBand) (bs : List RebateBand)
    → let bands = b ∷ bs in
      (All (λ x. is_reached spend x ≡ false) bands
        × (banded_rebate spend (some bands) ≡ ok (pos 0)))
      ⊎ ((best : RebateBand) × IsBest spend bands best
          × (banded_rebate spend (some bands) ≡ round_currency (mul spend best.rate_pct)))
unfolding banded_rebate
banded_rebate_lem spend b bs = elim (List-cases (applicable spend (b ∷ bs))) [
  | inl e ↦ inl (filter-nil (is_reached spend) (b ∷ bs) e, rw e refl)
  | inr (c, cs, e) ↦ inr (
    max_by (λ x. x.threshold_spend) c cs,
    IsBest-of spend (b ∷ bs) c cs e,
    ap (pay_best_band spend) e,
  )
]

-- A tiered or retrospective rebate with at least one band: if the spend has reached no band, it is
-- zero; otherwise there is a band that the spend has reached, whose threshold no reached band
-- exceeds, and its rate applies to the whole spend, not only to the part of it inside that band.
pub calculate_expected_rebate-bands :
    (spend : Decimal) (b : RebateBand) (bs : List RebateBand) (rate amount : Option Decimal)
    → let bands = b ∷ bs in
      let result = calculate_expected_rebate spend tiered rate (some bands) amount in
      (result ≡ calculate_expected_rebate spend RebateType.retrospective rate (some bands) amount)
      × ((All (λ x. is_reached spend x ≡ false) bands × (result ≡ ok (pos 0)))
          ⊎ ((best : RebateBand) × IsBest spend bands best
              × (result ≡ round_currency (mul spend best.rate_pct))))
unfolding calculate_expected_rebate
calculate_expected_rebate-bands spend b bs rate amount = (refl, banded_rebate_lem spend b bs)

abbrev is_above : Decimal → RebateBand → Bool
is_above spend x = ltb_ℤ spend x.threshold_spend

no_higher :
    (spend : Decimal) (bands : List RebateBand)
    → higher_bands spend bands ≡ []
    → All (λ x. x.threshold_spend ≤ℤ spend) bands
unfolding higher_bands
no_higher spend bands e =
    All-map (λ x h. ltb-false→le _ _ h) bands
      (filter-nil (is_above spend) bands
        (sorted_by-nil (λ x. x.threshold_spend) (filter (is_above spend) bands) e))

next_of :
    (spend : Decimal) (bands : List RebateBand) (n : RebateBand) (ns : List RebateBand)
    → higher_bands spend bands ≡ n ∷ ns
    → Member n bands
      × (spend <ℤ n.threshold_spend)
      × All (λ x. spend <ℤ x.threshold_spend → n.threshold_spend ≤ℤ x.threshold_spend) bands
unfolding higher_bands
next_of spend bands n ns e =
    let key = λ (x : RebateBand). x.threshold_spend in
    let above : List RebateBand = filter (is_above spend) bands in
    let m : Member n (sorted_by key above) = rw e (inl refl) in
    let s : IsSorted key (n ∷ ns) = rw e at (sorted_by-IsSorted key above) in
    let least : All (λ x. key n ≤ℤ key x) (sorted_by key above) = rw e (le_refl _, s.0) in
    let (inside, is_high) =
      Member-filter (is_above spend) n bands (Member-sorted_by key n above m) in
    (
      inside,
      ltb→lt _ _ is_high,
      All-map (λ x h lt. h (lt→ltb _ _ lt)) bands
          (All-filter (is_above spend) _ bands (All-sorted_by key _ above least)),
    )

-- With at least one band: if no threshold is above the spend, there is no next tier; otherwise the
-- next tier has a threshold of one of the bands that is above the spend, no threshold above the
-- spend is lower, and the amount remaining is the rounded difference to the spend.
pub calculate_progress_to_next_tier_lem :
    (spend : Decimal) (b : RebateBand) (bs : List RebateBand)
    → let bands = b ∷ bs in
      let result = calculate_progress_to_next_tier spend bands in
      (All (λ x. x.threshold_spend ≤ℤ spend) bands × (result ≡ ok none))
      ⊎ ((next : RebateBand) × Member next bands
          × (spend <ℤ next.threshold_spend)
          × All (λ x. spend <ℤ x.threshold_spend → next.threshold_spend ≤ℤ x.threshold_spend) bands
          × (result ≡ (
              round_currency (sub next.threshold_spend spend) >>= λ r.
              ok (some (next.threshold_spend, r)))))
unfolding calculate_progress_to_next_tier
calculate_progress_to_next_tier_lem spend b bs = elim (List-cases (higher_bands spend (b ∷ bs))) [
  | inl e ↦ inl (no_higher spend (b ∷ bs) e, ap (next_tier spend) e)
  | inr (n, ns, e) ↦
      let (inside, above, least) = next_of spend (b ∷ bs) n ns e in
      inr (n, inside, above, least, ap (next_tier spend) e)
]
