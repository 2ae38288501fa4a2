-- ===== src/Prelude/Int.antt =====
-- Signed integers over the native numbers, under the library's names. Sums and orders go through
-- the two parts of an integer, which are numbers that `omega` reads.
use Prim.Native.Nat.{ℕ, zero, suc, ◌+◌, ◌-◌, ◌*◌, ◌≤◌, ◌<◌}
use mathlib.Core.Path.{◌≡◌, ap}
use mathlib.Core.Bool.{Bool}
use native.Mathlib.Omega.{arith}
use procure_foundation.Prelude.Tests.{ltb, leb, ◌==◌, if◌then◌else◌}

-- `negsuc n` is -(n + 1).
pub data ℤ : Type 0 where
  pos : ℕ → ℤ
  negsuc : ℕ → ℤ

abbrev pub pos_part : ℤ → ℕ
pos_part (pos n) = n
pos_part (negsuc n) = 0

abbrev pub neg_part : ℤ → ℕ
neg_part (pos n) = 0
neg_part (negsuc n) = suc n

abbrev pub sub_ℕ : ℕ → ℕ → ℤ
sub_ℕ a b = if leb b a then pos (a - b) else negsuc (b - a - 1)

infixl 65 ◌+ℤ◌ ◌-ℤ◌
infix 50 ◌≤ℤ◌ ◌<ℤ◌
unfoldable pub ◌+ℤ◌ : ℤ → ℤ → ℤ
a +ℤ b = sub_ℕ (pos_part a + pos_part b) (neg_part a + neg_part b)

unfoldable pub ◌-ℤ◌ : ℤ → ℤ → ℤ
a -ℤ b = sub_ℕ (pos_part a + neg_part b) (neg_part a + pos_part b)

abbrev pub ◌≤ℤ◌ : ℤ → ℤ → Type 0
a ≤ℤ b = pos_part a + neg_part b ≤ pos_part b + neg_part a

abbrev pub ◌<ℤ◌ : ℤ → ℤ → Type 0
a <ℤ b = pos_part a + neg_part b < pos_part b + neg_part a

abbrev pub ltb_ℤ : ℤ → ℤ → Bool
ltb_ℤ a b = ltb (pos_part a + neg_part b) (pos_part b + neg_part a)

abbrev pub leb_ℤ : ℤ → ℤ → Bool
leb_ℤ a b = leb (pos_part a + neg_part b) (pos_part b + neg_part a)

abbrev pub eqb_ℤ : ℤ → ℤ → Bool
eqb_ℤ a b = (pos_part a + neg_part b) == (pos_part b + neg_part a)

-- The absolute value, as a natural number.
abbrev pub nat_abs : ℤ → ℕ
nat_abs a = pos_part a + neg_part a

abbrev pub neg_of_ℕ : ℕ → ℤ
neg_of_ℕ zero = pos 0
neg_of_ℕ (suc n) = negsuc n

abbrev pub neg : ℤ → ℤ
neg (pos n) = neg_of_ℕ n
neg (negsuc n) = pos (suc n)

-- A number with the sign of an integer.
abbrev pub with_sign : ℤ → ℕ → ℤ
with_sign (pos _) m = pos m
with_sign (negsuc _) m = neg_of_ℕ m

-- The product with a natural number.
unfoldable pub scale : ℕ → ℤ → ℤ
scale u (pos n) = pos (n * u)
scale u (negsuc n) = neg_of_ℕ (suc n * u)

-- With one lemma for each operation `omega` works with the operations shut, at any depth.
pub +ℤ_parts :
    (a b : ℤ)
    → pos_part (a +ℤ b) + neg_part a + neg_part b ≡ neg_part (a +ℤ b) + pos_part a + pos_part b
unfolding ◌+ℤ◌
+ℤ_parts a b = ground arith

pub -ℤ_parts :
    (a b : ℤ)
    → pos_part (a -ℤ b) + neg_part a + pos_part b ≡ neg_part (a -ℤ b) + pos_part a + neg_part b
unfolding ◌-ℤ◌
-ℤ_parts a b = ground arith

pub eq_of_parts : (a b : ℤ) → pos_part a + neg_part b ≡ pos_part b + neg_part a → a ≡ b
eq_of_parts a b h = ground arith

pub ruleset int_laws = (arith, +ℤ_parts, -ℤ_parts, eq_of_parts)

pub neg_of_ℕ_parts : (n : ℕ) → (pos_part (neg_of_ℕ n) ≡ 0) × (neg_part (neg_of_ℕ n) ≡ n)
neg_of_ℕ_parts zero = omega arith
neg_of_ℕ_parts (suc n) = omega arith

pub with_sign-nat_abs : (a : ℤ) → with_sign a (nat_abs a) ≡ a
with_sign-nat_abs (pos n) = ground arith
with_sign-nat_abs (negsuc n) = ground arith

pub nat_abs-with_sign : (a : ℤ) (n : ℕ) → nat_abs (with_sign a n) ≡ n
nat_abs-with_sign (pos _) n = omega arith
nat_abs-with_sign (negsuc _) n = omega (arith, neg_of_ℕ_parts n)

-- The product is the difference of the products of the parts.
pub scale_parts :
    (u : ℕ) (a : ℤ)
    → (pos_part (scale u a) ≡ pos_part a * u) × (neg_part (scale u a) ≡ neg_part a * u)
unfolding scale
scale_parts u (pos n) = omega arith
scale_parts u (negsuc n) =
    let h = neg_of_ℕ_parts (suc n * u) in (rw h.0 (omega arith), rw h.1 (omega arith))

pub scale-+ℤ : (u : ℕ) (a b : ℤ) → scale u a +ℤ scale u b ≡ scale u (a +ℤ b)
scale-+ℤ u a b = eq_of_parts _ _ (
    omega (
      arith,
      scale_parts u a,
      scale_parts u b,
      scale_parts u (a +ℤ b),
      +ℤ_parts (scale u a) (scale u b),
      ap (λ t. t * u) (+ℤ_parts a b),
    ))

pub scale--ℤ : (u : ℕ) (a b : ℤ) → scale u a -ℤ scale u b ≡ scale u (a -ℤ b)
scale--ℤ u a b = eq_of_parts _ _ (
    omega (
      arith,
      scale_parts u a,
      scale_parts u b,
      scale_parts u (a -ℤ b),
      -ℤ_parts (scale u a) (scale u b),
      ap (λ t. t * u) (-ℤ_parts a b),
    ))

pub nat_abs-scale : (u : ℕ) (a : ℤ) → nat_abs (scale u a) ≡ nat_abs a * u
nat_abs-scale u a = omega (arith, scale_parts u a)

pub with_sign-scale : (u : ℕ) (a : ℤ) → with_sign (scale u a) (nat_abs a * u) ≡ scale u a
with_sign-scale u a = rw (← nat_abs-scale u a) (with_sign-nat_abs (scale u a))

pub nat_abs-+ℤ : (a b : ℤ) → nat_abs (a +ℤ b) ≤ nat_abs a + nat_abs b
unfolding ◌+ℤ◌
nat_abs-+ℤ a b = ground arith

pub nat_abs--ℤ : (a b : ℤ) → nat_abs (a -ℤ b) ≤ nat_abs a + nat_abs b
unfolding ◌-ℤ◌
nat_abs--ℤ a b = ground arith
