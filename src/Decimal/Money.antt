-- ===== src/Decimal/Money.antt =====
-- What rounding to the quantum 0.0001 leaves: a value of a NUMERIC(18, 4) column.
use procure_foundation.Prelude.{ℕ, zero, suc, ◌*◌, ◌≡◌, refl, ap, ◌∙◌, sym}
use procure_foundation.Prelude.Int.{
  ℤ, pos, negsuc, nat_abs, with_sign, neg_of_ℕ, scale, nat_abs-scale,
}
use procure_foundation.Result.{ok}
use procure_foundation.Decimal.Context.{Decimal, half_even, currency_unit, money, round_currency}
use procure_foundation.Decimal.Sign.{quantize_ok}
use native.Mathlib.Nat.{zero-mul}

pub nat_abs-money : (c : ℤ) → nat_abs (money c) ≡ nat_abs c * currency_unit
unfolding money
nat_abs-money c = nat_abs-scale currency_unit c

with_sign-money : (a : ℤ) (q : ℕ) → with_sign a (q * currency_unit) ≡ money (with_sign a q)
unfolding money scale
with_sign-money (pos _) q = refl
with_sign-money (negsuc _) zero =
    ap neg_of_ℕ (zero-mul currency_unit) ∙ ap pos (sym (zero-mul currency_unit))
with_sign-money (negsuc _) (suc q) = refl

pub round_currency-is_money :
    (a : Decimal) {r : Decimal} → round_currency a ≡ ok r → (c : ℤ) × (r ≡ money c)
unfolding round_currency
round_currency-is_money a e =
    let q : ℕ = half_even (nat_abs a) currency_unit in
    (with_sign a q, (quantize_ok currency_unit a e).1 ∙ with_sign-money a q)
