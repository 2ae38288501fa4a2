-- ===== src/Decimal/Context.antt =====
-- The arithmetic context: rounding to 28 significant digits, the operations, and `quantize`.
use procure_foundation.Prelude.{
  ℕ, zero, suc, ◌+◌, ◌-◌, ◌*◌, ◌/◌, ◌%◌, ◌^◌, true, false, ltb, ◌==◌, if◌then◌else◌, List, foldl,
}
use procure_foundation.Prelude.Int.{ℤ, pos, negsuc, ◌+ℤ◌, ◌-ℤ◌, nat_abs, neg, with_sign, scale}
use procure_foundation.Result.{Result, ok, err, invalid_operation, division_by_zero, ◌>>=◌}

abbrev pub Decimal : Type 0
Decimal = ℤ

-- The number of units in 1, and in the quantum 0.0001 of the columns NUMERIC(18, 4).
unfoldable pub one_unit : ℕ
one_unit = 10 ^ 60

unfoldable pub currency_unit : ℕ
currency_unit = 10 ^ 56

-- A coefficient of at most 28 digits is below this.
unfoldable pub precision_bound : ℕ
precision_bound = 10 ^ 28

-- The whole number nearest to n / m; a tie goes to the even one.
unfoldable pub half_even : ℕ → ℕ → ℕ
half_even n m =
    let q = n / m in
    let r = n % m in
    if ltb (2 * r) m then q else if ltb m (2 * r) then q + 1 else if q % 2 == 0 then q else q + 1

-- The power of ten, from p up, by which n / d has to be divided to leave at most 28 digits.
unfoldable pub ulp : ℕ → ℕ → ℕ → ℕ → ℕ
ulp zero n d p = p
ulp (suc fuel) n d p = elim (ltb n (precision_bound * (d * p))) [
  | true ↦ p
  | false ↦ ulp fuel n d (10 * p)
]

-- n / d rounded to 28 significant digits. The fuel n suffices: `ulp_bound`.
unfoldable pub fix : ℕ → ℕ → ℕ
unfolding ulp half_even precision_bound
fix n d = let p = ulp n n d 1 in half_even n (d * p) * p

-- The sign of a product: the second number with the sign flipped if the first is negative.
abbrev pub times_sign : ℤ → ℤ → ℤ
times_sign (pos _) b = b
times_sign (negsuc _) b = neg b

unfoldable pub add : Decimal → Decimal → Decimal
unfolding fix ◌+ℤ◌
add a b = let s = a +ℤ b in with_sign s (fix (nat_abs s) 1)

unfoldable pub sub : Decimal → Decimal → Decimal
unfolding fix ◌-ℤ◌
sub a b = let s = a -ℤ b in with_sign s (fix (nat_abs s) 1)

unfoldable pub mul : Decimal → Decimal → Decimal
unfolding fix one_unit
mul a b = times_sign a (with_sign b (fix (nat_abs a * nat_abs b) one_unit))

-- A zero divisor signals: DivisionUndefined, an InvalidOperation, for 0 / 0, and DivisionByZero
-- otherwise.
unfoldable pub div : Decimal → Decimal → Result Decimal
unfolding fix one_unit
div a b =
    if nat_abs b == 0
    then err (if nat_abs a == 0 then invalid_operation else division_by_zero)
    else ok (times_sign a (with_sign b (fix (nat_abs a * one_unit) (nat_abs b))))

-- `a ** n` for an int n that is not negative, the exact power rounded once. 0 ** 0 signals.
unfoldable pub power : Decimal → ℕ → Result Decimal
unfolding fix one_unit
power a zero = if nat_abs a == 0 then err invalid_operation else ok (pos one_unit)
power a (suc n) =
    let m = fix (nat_abs a ^ suc n) (one_unit ^ n) in
    ok (if n % 2 == 0 then with_sign a m else pos m)

-- `abs(a)` and `-a`, which round to the context too.
unfoldable pub absolute : Decimal → Decimal
unfolding fix
absolute a = pos (fix (nat_abs a) 1)

unfoldable pub negate : Decimal → Decimal
unfolding fix
negate a = neg (with_sign a (fix (nat_abs a) 1))

-- `a.quantize(u, rounding=ROUND_HALF_EVEN)` for a quantum of u units: a result of more than 28
-- digits is an InvalidOperation.
unfoldable pub quantize : ℕ → Decimal → Result Decimal
unfolding half_even precision_bound
quantize u a =
    let q = half_even (nat_abs a) u in
    if ltb q precision_bound then ok (with_sign a (q * u)) else err invalid_operation

-- The Decimal of a Python int, and the literal `n * 10^-places`.
unfoldable pub from_int : ℤ → Decimal
unfolding scale one_unit
from_int z = scale one_unit z

unfoldable pub decimal : ℕ → ℕ → Decimal
decimal n places = pos (n * 10 ^ (60 - places))

-- The value of a NUMERIC(18, 4) column that holds c ten-thousandths.
unfoldable pub money : ℤ → Decimal
unfolding scale currency_unit
money c = scale currency_unit c

-- `sum(values, Decimal(0))`
unfoldable pub sum : List Decimal → Decimal
unfolding add
sum = foldl add (pos 0)

-- `value.quantize(Decimal("0.0001"), rounding=ROUND_HALF_EVEN)`
unfoldable pub round_currency : Decimal → Result Decimal
unfolding quantize currency_unit
round_currency = quantize currency_unit

-- `value.quantize(Decimal("0.000001"), rounding=ROUND_HALF_EVEN)`
unfoldable pub round_percentage : Decimal → Result Decimal
unfolding quantize
round_percentage a = quantize (10 ^ 54) a

-- `round_currency(part / whole * 100) / Decimal(100)`
unfoldable pub percentage_of : Decimal → Decimal → Result Decimal
unfolding mul div decimal round_currency
percentage_of part whole = do
  quotient ← div part whole
  percent ← round_currency (mul quotient (decimal 100 0))
  div percent (decimal 100 0)

-- Opens the arithmetic, for a run at concrete numbers.
unfoldable pub arithmetic : Unit {0}
unfolding add sub mul div power absolute negate quantize from_int decimal money sum round_currency
    round_percentage percentage_of
arithmetic = tt
