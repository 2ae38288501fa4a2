-- ===== src/Decimal/Rounding.antt =====
-- What `half_even` does to a quotient.
use procure_foundation.Prelude.{
  ℕ, ◌+◌, ◌*◌, ◌/◌, ◌%◌, ◌≤◌, ◌<◌, ◌≡◌, inl, inr, arith, ap, ltb, Bool-cases, ltb→lt, ltb-false→le,
  tests,
}
use procure_foundation.Decimal.Context.{half_even}
use native.Mathlib.Nat.{div-add-mod, mod-lt, mul-div_cancel, mul-mod_left}

module _ (n m : ℕ) (positive : 0 < m) where
  -- The result is nearest: it differs from n / m by at most one half.
  pub half_even_nearest :
      (2 * (half_even n m * m) ≤ 2 * n + m) × (2 * n ≤ 2 * (half_even n m * m) + m)
  unfolding half_even
  half_even_nearest = grind (arith, div-add-mod n m, mod-lt n positive)

  -- A tie goes to the even neighbour.
  pub half_even_tie : 2 * (n % m) ≡ m → half_even n m % 2 ≡ 0
  unfolding half_even
  half_even_tie h = ground arith

  pub le-half_even : m ≤ n → 1 ≤ half_even n m
  unfolding half_even
  le-half_even h = grind (arith, div-add-mod n m, mod-lt n positive)

  pub half_even-range : (n / m ≤ half_even n m) × (half_even n m ≤ n / m + 1)
  unfolding half_even
  half_even-range = ground arith

pub half_even-mul : (q m : ℕ) → 0 < m → half_even (q * m) m ≡ q
unfolding half_even
half_even-mul q m h = ground (arith, mul-div_cancel q h, mul-mod_left q m)

div_mono : (a b m : ℕ) → 0 < m → a ≤ b → a / m ≤ b / m
div_mono a b m h le = grind (arith, div-add-mod a m, div-add-mod b m, mod-lt a h, mod-lt b h)

same-half_even : (a b m : ℕ) → 0 < m → a ≤ b → a / m ≡ b / m → half_even a m ≤ half_even b m
unfolding half_even
same-half_even a b m h le e =
    let r : a % m ≤ b % m = omega (arith, div-add-mod a m, div-add-mod b m, ap (λ t. m * t) e) in
    rw e (ground arith)

-- Rounding keeps the order.
pub half_even_mono : (a b m : ℕ) → 0 < m → a ≤ b → half_even a m ≤ half_even b m
half_even_mono a b m h le = elim (Bool-cases (ltb (a / m) (b / m))) [
  | inl less ↦ omega (tests, ltb→lt _ _ less, half_even-range a m h, half_even-range b m h)
  | inr same ↦ same-half_even a b m h le (omega (arith, div_mono a b m h le, ltb-false→le _ _ same))
]
