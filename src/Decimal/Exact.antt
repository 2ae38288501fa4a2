-- ===== src/Decimal/Exact.antt =====
-- Where the arithmetic is exact: at most 28 digits are kept, a value that has no more is left as it
-- is, and so sums of NUMERIC(18, 4) values are integer sums.
use procure_foundation.Prelude.{
  ℕ, zero, suc, ◌*◌, ◌^◌, ◌≤◌, ◌<◌, ◌≡◌, ◌↔◌, refl, inl, inr, ◌∙◌, false, ltb, Bool-cases, ltb→lt,
  lt→ltb, arith, ap,
}
use procure_foundation.Prelude.Int.{
  ℤ, pos, ◌+ℤ◌, ◌-ℤ◌, ◌≤ℤ◌, scale_parts, nat_abs, with_sign, scale-+ℤ, scale--ℤ, nat_abs-scale,
  with_sign-scale,
}
use procure_foundation.Result.{ok}
use procure_foundation.Decimal.Context.{
  half_even, ulp, fix, precision_bound, currency_unit, add, sub, money, decimal, round_currency,
}
use procure_foundation.Decimal.Rounding.{half_even-mul}
use native.Mathlib.Nat.{pow-suc, one-mul, mul-lt-mul_of_pos_right}

pub lt-pow : (n : ℕ) → n < 10 ^ n
lt-pow zero = omega arith
lt-pow (suc n) = omega (arith, lt-pow n, pow-suc 10 n)

module _ (fuel n d p : ℕ) where
  pub ulp_stop : n < precision_bound * (d * p) → ulp (suc fuel) n d p ≡ p
  unfolding ulp
  ulp_stop h = rw (lt→ltb _ _ h, ulp)

  pub ulp_more :
      ltb n (precision_bound * (d * p)) ≡ false → ulp (suc fuel) n d p ≡ ulp fuel n d (10 * p)
  unfolding ulp
  ulp_more h = rw (h, ulp)

-- With enough fuel the quotient by the power found has at most 28 digits.
pub ulp_bound :
    (fuel n d p : ℕ) → 0 < d → n < p * 10 ^ fuel → n < precision_bound * (d * ulp fuel n d p)
unfolding ulp precision_bound
ulp_bound zero n d p hd h = grind arith
ulp_bound (suc fuel) n d p hd h = elim (Bool-cases (ltb n (precision_bound * (d * p)))) [
  | inl enough ↦ rw (ulp_stop fuel n d p (ltb→lt _ _ enough)) (ltb→lt _ _ enough)
  | inr more ↦
      rw (ulp_more fuel n d p more)
        (ulp_bound fuel n d (10 * p) hd (omega (arith, h, ap (λ t. p * t) (pow-suc 10 fuel))))
]

-- The power found divides every power of ten that leaves at most 28 digits.
ulp-divides :
    (j fuel n c p : ℕ)
    → n ≡ c * (p * 10 ^ j)
    → c < precision_bound
    → 0 < p
    → j ≤ fuel
    → (q : ℕ) × (p * 10 ^ j ≡ q * ulp fuel n 1 p)
ulp-divides zero zero n c p e hc hp hj = (1, unfold ulp in omega arith)
ulp-divides zero (suc fuel) n c p e hc hp hj =
    let small : n < precision_bound * (1 * p) =
      omega (arith, e, mul-lt-mul_of_pos_right {k = p} hc hp) in
    (1, rw (ulp_stop fuel n 1 p small) (omega arith))
ulp-divides (suc j) zero n c p e hc hp hj = absurd (omega arith)
ulp-divides (suc j) (suc fuel) n c p e hc hp hj =
    let step : p * 10 ^ suc j ≡ 10 * p * 10 ^ j = omega (arith, ap (λ t. p * t) (pow-suc 10 j)) in
    elim (Bool-cases (ltb n (precision_bound * (1 * p)))) [
      | inl enough ↦ (10 ^ suc j, rw (ulp_stop fuel n 1 p (ltb→lt _ _ enough)) (omega arith))
      | inr more ↦
          let (q, h) =
            ulp-divides j fuel n c (10 * p) (e ∙ ap (λ t. c * t) step) hc (omega arith)
              (omega arith) in
          (q, rw (ulp_more fuel n 1 p more) (step ∙ h))
    ]

pub ulp_pos : (fuel n d p : ℕ) → 0 < p → 0 < ulp fuel n d p
unfolding ulp
ulp_pos zero n d p h = h
ulp_pos (suc fuel) n d p h = ground (arith, ulp_pos fuel n d (10 * p))

half_even_divides : (n q p : ℕ) → 0 < p → n ≡ q * p → half_even n (1 * p) * p ≡ n
half_even_divides n q p h e = rw (e, one-mul p) (ap (λ t. t * p) (half_even-mul q p h))

-- A value of at most 28 digits is kept as it is.
pub fix_exact : (c j : ℕ) → c < precision_bound → j ≤ c * 10 ^ j → fix (c * 10 ^ j) 1 ≡ c * 10 ^ j
unfolding fix
fix_exact c j hc hj =
    let n : ℕ = c * 10 ^ j in
    let (q, h) = ulp-divides j n n c 1 (omega arith) hc (omega arith) hj in
    half_even_divides n (c * q) (ulp n n 1 1) (ulp_pos n n 1 1 (omega arith))
      (omega (arith, ap (λ t. c * t) h))

fix_money : (c : ℕ) → c < precision_bound → fix (c * currency_unit) 1 ≡ c * currency_unit
unfolding currency_unit
fix_money zero h = unfold fix in refl
fix_money (suc c) h = fix_exact (suc c) 56 h (omega arith)

pub money-zero : money (pos 0) ≡ pos 0
unfolding money currency_unit
money-zero = refl

module _ (c : ℤ) (small : nat_abs c < precision_bound) where
  -- The context leaves a value of a NUMERIC(18, 4) column as it is.
  pub fix-money : with_sign (money c) (fix (nat_abs (money c)) 1) ≡ money c
  unfolding money
  fix-money =
      rw (nat_abs-scale currency_unit c, fix_money (nat_abs c) small)
        (with_sign-scale currency_unit c)

  -- Rounding to the quantum of the column leaves it as it is too.
  pub round_currency-money : round_currency (money c) ≡ ok (money c)
  unfolding round_currency money currency_unit
  round_currency-money = rw (
    nat_abs-scale currency_unit c,
    half_even-mul (nat_abs c) currency_unit (omega arith),
    lt→ltb _ _ small,
    with_sign-scale currency_unit c,
  )

module _ (a b : ℤ) where
  pub add-money : nat_abs (a +ℤ b) < precision_bound → add (money a) (money b) ≡ money (a +ℤ b)
  unfolding add money
  add-money h = rw (scale-+ℤ currency_unit a b) (fix-money (a +ℤ b) h)

  pub sub-money : nat_abs (a -ℤ b) < precision_bound → sub (money a) (money b) ≡ money (a -ℤ b)
  unfolding sub money
  sub-money h = rw (scale--ℤ currency_unit a b) (fix-money (a -ℤ b) h)

  -- The column values are ordered as their ten-thousandths are.
  pub money-le : (money a ≤ℤ money b) ↔ (a ≤ℤ b)
  unfolding money currency_unit
  money-le = (
    λ h. omega (arith, h, scale_parts currency_unit a, scale_parts currency_unit b),
    λ h. omega (arith, h, scale_parts currency_unit a, scale_parts currency_unit b),
  )

pub decimal-4 : (n : ℕ) → decimal n 4 ≡ money (pos n)
unfolding decimal money currency_unit
decimal-4 n = refl
