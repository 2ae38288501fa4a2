-- ===== src/PriceReview/Change.antt =====
-- The sign of a percentage change, and the order of the risk classes.
use procure_foundation.Prelude.{
  ℕ, ◌≡◌, ◌≤◌, ◌^◌, ◌⊎◌, inl, inr, false, some, ◌∙◌, ap, arith, Bool-cases, ltb→lt, ltb-false→le,
}
use procure_foundation.Prelude.Int.{pos, ◌≤ℤ◌, ◌<ℤ◌, eqb_ℤ, ltb_ℤ, eq_of_parts}
use mathlib.Core.Option.{some-injective}
use procure_foundation.Result.{ok, ◌>>=◌, >>=-eq-ok, ok-injective}
use procure_foundation.Decimal.{Decimal, sub, div, absolute, round_percentage}
use procure_foundation.Decimal.Sign.{sub_pos, sub_neg, div_sign, quantize_sign}
use procure_foundation.PriceReview.{
  Risk, unclassified, critical, classify_risk_by, calculate_percentage_change,
}

round_percentage_sign :
    (a : Decimal) {r : Decimal}
    → round_percentage a ≡ ok r
    → (pos 0 ≤ℤ a → pos 0 ≤ℤ r) × (a ≤ℤ pos 0 → r ≤ℤ pos 0)
unfolding round_percentage
round_percentage_sign a e = quantize_sign (10 ^ 54) a (omega arith) e

percentage_steps :
    (old new : Decimal) {p : Decimal}
    → pos 0 <ℤ old
    → calculate_percentage_change old new ≡ ok (some p)
    → (q : Decimal) × (div (sub new old) old ≡ ok q) × (round_percentage q ≡ ok p)
unfolding calculate_percentage_change
percentage_steps old new {p} h e =
    let nonzero : eqb_ℤ old (pos 0) ≡ false = ground arith in
    let e' : (div (sub new old) old >>= λ q. round_percentage q >>= λ r. ok (some r))
        ≡ ok (some p) =
      rw (calculate_percentage_change, nonzero) at e in
    let (q, eq, rest) = >>=-eq-ok (div (sub new old) old) _ e' in
    let (r, er, last) = >>=-eq-ok (round_percentage q) _ rest in
    (q, eq, er ∙ ap ok (some-injective _ _ (ok-injective last)))

no_sign :
    {old new : Decimal} (d : Decimal)
    → (pos 0 <ℤ d → old <ℤ new)
    → (d <ℤ pos 0 → new <ℤ old)
    → new ≡ old
    → (pos 0 ≤ℤ d) × (d ≤ℤ pos 0)
no_sign d rises falls same = grind arith

-- From a positive old price: a higher new price never shows as a decrease, a lower one never as an
-- increase, and an equal one shows as no change.
pub calculate_percentage_change_sign :
    (old new : Decimal) {p : Decimal}
    → pos 0 <ℤ old
    → calculate_percentage_change old new ≡ ok (some p)
    → ((old <ℤ new) × (pos 0 ≤ℤ p)) ⊎ ((new <ℤ old) × (p ≤ℤ pos 0)) ⊎ ((new ≡ old) × (p ≡ pos 0))
calculate_percentage_change_sign old new h e =
    let (q, eq, ep) = percentage_steps old new h e in
    let (up, down) = div_sign (sub new old) old h eq in
    let (up', down') = round_percentage_sign q ep in
    let d : Decimal = sub new old in
    let (_, rises) = sub_pos new old in
    let (_, falls) = sub_neg new old in
    elim (Bool-cases (ltb_ℤ old new)) [
      | inl more ↦
          let positive : pos 0 <ℤ d = rises (ltb→lt _ _ more) in
          inl (ltb→lt _ _ more, up' (up (omega (arith, positive))))
      | inr no_more ↦ elim (Bool-cases (ltb_ℤ new old)) [
        | inl less ↦
            let negative : d <ℤ pos 0 = falls (ltb→lt _ _ less) in
            inr (inl (ltb→lt _ _ less, down' (down (omega (arith, negative)))))
        | inr no_less ↦
            let same : new ≡ old =
              eq_of_parts _ _ (omega (arith, ltb-false→le _ _ no_more, ltb-false→le _ _ no_less)) in
            let d0 = no_sign d (λ k. (sub_pos new old).0 k) (λ k. (sub_neg new old).0 k) same in
            inr (
              inr (
                same,
                eq_of_parts _ _ (
                    omega
                      (arith, up' (up (omega (arith, d0.0))), down' (down (omega (arith, d0.1))))),
              ))
      ]
    ]

-- The place of a class in the order of the risks.
abbrev pub risk_rank : Risk → ℕ
risk_rank unclassified = 0
risk_rank Risk.low = 1
risk_rank Risk.medium = 2
risk_rank Risk.high = 3
risk_rank critical = 4

-- Whatever the thresholds are, a change of a smaller magnitude is not in a higher class of risk.
pub classify_risk_by_mono :
    (low_max medium_max high_max p q : Decimal)
    → absolute p ≤ℤ absolute q
    → risk_rank (classify_risk_by low_max medium_max high_max (some p))
      ≤ risk_rank (classify_risk_by low_max medium_max high_max (some q))
unfolding classify_risk_by
classify_risk_by_mono l m h p q le = ground arith
