-- ===== src/Decimal/Sign.antt =====
-- What the operations keep of the sign and the order: a difference has the sign of the exact
-- difference, and rounding to a quantum keeps the order and the sign.
use procure_foundation.Prelude.{
  ℕ, zero, suc, ◌+◌, ◌*◌, ◌≤◌, ◌<◌, ◌≡◌, ◌↔◌, ap, sym, ◌∙◌, arith, Bool-cases, ltb, inl, inr,
  ltb→lt, ltb-false→le,
}
use procure_foundation.Prelude.Int.{
  ℤ, pos, negsuc, ◌-ℤ◌, ◌≤ℤ◌, ◌<ℤ◌, nat_abs, with_sign, neg_of_ℕ_parts, -ℤ_parts,
}
use procure_foundation.Result.{ok, ok-injective}
use procure_foundation.Decimal.Context.{
  Decimal, half_even, ulp, fix, precision_bound, sub, div, times_sign, one_unit, quantize,
}
use procure_foundation.Decimal.Rounding.{
  half_even-mul, half_even_mono, le-half_even, half_even_nearest,
}
use procure_foundation.Decimal.Exact.{ulp_pos, ulp_stop, ulp_more}
use native.Mathlib.Nat.{one-mul, zero-mul, mul-le-mul_right}

ulp-le : (fuel n p : ℕ) → p ≤ n → 0 < p → ulp fuel n 1 p ≤ n
unfolding precision_bound
ulp-le zero n p h hp = unfold ulp in h
ulp-le (suc fuel) n p h hp = elim (Bool-cases (ltb n (precision_bound * (1 * p)))) [
  | inl enough ↦ rw (ulp_stop fuel n 1 p (ltb→lt _ _ enough)) h
  | inr more ↦
      rw (ulp_more fuel n 1 p more)
        (ulp-le fuel n (10 * p) (omega (arith, ltb-false→le _ _ more)) (omega arith))
]

-- Rounding to the context makes no value zero.
pub fix_pos : (n : ℕ) → 0 < n → 0 < fix n 1
unfolding fix
fix_pos n h =
    let p : ℕ = ulp n n 1 1 in
    let hp : 0 < p = ulp_pos n n 1 1 (omega arith) in
    grind (arith, le-half_even n (1 * p) (omega arith) (rw one-mul (ulp-le n n 1 h (omega arith))))

fix-zero : (n : ℕ) → n ≡ 0 → fix n 1 ≡ 0
unfolding fix
fix-zero n e = rw e

abbrev rounded : ℤ → ℤ
rounded s = with_sign s (fix (nat_abs s) 1)

rounded_sign :
    (s : ℤ) → ((pos 0 <ℤ rounded s) ↔ (pos 0 <ℤ s)) × ((rounded s <ℤ pos 0) ↔ (s <ℤ pos 0))
rounded_sign (pos n) = grind (arith, fix_pos (n + 0), fix-zero (n + 0))
rounded_sign (negsuc n) =
    let h = neg_of_ℕ_parts (fix (0 + suc n) 1) in
    let q = fix_pos (0 + suc n) (omega arith) in grind (arith)

-- A difference is positive exactly where the exact difference is, negative where it is, and zero
-- where the numbers are equal.
module _ (a b : Decimal) where
  pub sub_pos : (pos 0 <ℤ sub a b) ↔ (b <ℤ a)
  unfolding sub
  sub_pos = grind (arith, rounded_sign (a -ℤ b), -ℤ_parts a b)

  pub sub_neg : (sub a b <ℤ pos 0) ↔ (a <ℤ b)
  unfolding sub
  sub_neg = grind (arith, rounded_sign (a -ℤ b), -ℤ_parts a b)

pub quantize_ok :
    (u : ℕ) (a : Decimal) {r : Decimal}
    → quantize u a ≡ ok r
    → (half_even (nat_abs a) u < precision_bound) × (r ≡ with_sign a (half_even (nat_abs a) u * u))
unfolding quantize
quantize_ok u a e = elim (Bool-cases (ltb (half_even (nat_abs a) u) precision_bound)) [
  | inl fits ↦ let h = rw fits at e in (ltb→lt _ _ fits, cc)
  | inr large ↦ let h = rw large at e in cc
]

-- Rounding to a quantum keeps the sign, or gives zero.
pub quantize_sign :
    (u : ℕ) (a : Decimal) {r : Decimal}
    → 0 < u
    → quantize u a ≡ ok r
    → (pos 0 ≤ℤ a → pos 0 ≤ℤ r) × (a ≤ℤ pos 0 → r ≤ℤ pos 0)
quantize_sign u (pos n) {r} pos_u e = rw ((quantize_ok u (pos n) e).1) (
  omega arith,
  λ h. let z : n + 0 ≡ 0 * u = omega arith in rw (z, half_even-mul 0 u pos_u) (omega arith),
)
quantize_sign u (negsuc n) {r} pos_u e =
    rw ((quantize_ok u (negsuc n) e).1)
      (λ h. absurd (omega arith), λ h. omega (arith, neg_of_ℕ_parts (half_even (0 + suc n) u * u)))

signed_mono :
    (f : ℕ → ℕ)
    → ((x y : ℕ) → x ≤ y → f x ≤ f y)
    → (a b : ℤ) → a ≤ℤ b
    → with_sign a (f (nat_abs a)) ≤ℤ with_sign b (f (nat_abs b))
signed_mono f mono (pos n) (pos m) h = omega (arith, mono (n + 0) (m + 0) (omega arith))
signed_mono f mono (pos n) (negsuc m) h = absurd (omega arith)
signed_mono f mono (negsuc n) (pos m) h = omega (arith, neg_of_ℕ_parts (f (0 + suc n)))
signed_mono f mono (negsuc n) (negsuc m) h = omega (
  arith,
  mono (0 + suc m) (0 + suc n) (omega arith),
  neg_of_ℕ_parts (f (0 + suc n)),
  neg_of_ℕ_parts (f (0 + suc m)),
)

-- Rounding to a quantum keeps the order.
pub quantize_mono :
    (u : ℕ) (a b : Decimal) {r s : Decimal}
    → 0 < u
    → a ≤ℤ b
    → quantize u a ≡ ok r
    → quantize u b ≡ ok s
    → r ≤ℤ s
quantize_mono u a b {r} {s} pos_u le er es =
    rw ((quantize_ok u a er).1, (quantize_ok u b es).1)
      (signed_mono (λ n. half_even n u * u)
        (λ x y h. mul-le-mul_right u (half_even_mono x y u pos_u h)) a b le)

-- Rounding to a quantum gives a nearest multiple of it.
pub quantize_nearest :
    (u : ℕ) (a : Decimal) {r : Decimal}
    → 0 < u
    → quantize u a ≡ ok r
    → (q : ℕ) × (r ≡ with_sign a (q * u))
      × (2 * (q * u) ≤ 2 * nat_abs a + u)
      × (2 * nat_abs a ≤ 2 * (q * u) + u)
quantize_nearest u a {r} pos_u e =
    let h = half_even_nearest (nat_abs a) u pos_u in
    (half_even (nat_abs a) u, (quantize_ok u a e).1, h.0, h.1)

half_even-zero : (m : ℕ) → 0 < m → half_even 0 m ≡ 0
half_even-zero m h = rw (zero-mul m) at (half_even-mul 0 m h)

fix-zero_div : (n d : ℕ) → n ≡ 0 → 0 < d → fix n d ≡ 0
unfolding fix
fix-zero_div n d e h = rw e (ap (λ t. t * 1) (half_even-zero (d * 1) (omega arith)))

div-pos :
    (a : Decimal) (d : ℕ)
    → div a (pos (suc d)) ≡ ok (times_sign a (pos (fix (nat_abs a * one_unit) (suc d + 0))))
unfolding div
div-pos a d = ground arith

quotient_sign :
    (a : Decimal) (d : ℕ)
    → let q = times_sign a (pos (fix (nat_abs a * one_unit) (suc d + 0))) in
      (pos 0 ≤ℤ a → pos 0 ≤ℤ q) × (a ≤ℤ pos 0 → q ≤ℤ pos 0)
quotient_sign (pos n) d = (
  λ h. omega arith,
  λ h. omega (
    arith,
    fix-zero_div ((n + 0) * one_unit) (suc d + 0) (zero_times n (omega arith)) (omega arith),
  ),
)
  where
    zero_times : (k : ℕ) → k ≡ 0 → (k + 0) * one_unit ≡ 0
    zero_times k e = rw e (omega arith)
quotient_sign (negsuc n) d =
    let h = neg_of_ℕ_parts (fix ((0 + suc n) * one_unit) (suc d + 0)) in
    (λ k. absurd (omega arith), λ k. omega arith)

-- A quotient by a positive number has the sign of the dividend, or is zero.
pub div_sign :
    (a b : Decimal) {q : Decimal}
    → pos 0 <ℤ b
    → div a b ≡ ok q
    → (pos 0 ≤ℤ a → pos 0 ≤ℤ q) × (a ≤ℤ pos 0 → q ≤ℤ pos 0)
div_sign a (pos zero) h e = absurd (omega arith)
div_sign a (pos (suc d)) h e = rw (ok-injective (sym e ∙ div-pos a d)) (quotient_sign a d)
div_sign a (negsuc d) h e = absurd (omega arith)
