-- ===== src/Matching/PackParser/Patterns.antt =====
-- The regular expressions of backend/app/matching/pack_parser.py, as scanners from left to right.
-- In each pattern what may follow a run of digits, letters or blanks cannot continue it, so that a
-- greedy run never has to be given up.
use procure_foundation.Prelude.{
  ℕ, ◌+◌, ◌-◌, ◌*◌, ◌/◌, ◌^◌, Bool, not, ◌&&◌, ◌==◌, Option, none, some, List, [], ◌∷◌, foldl,
  if◌then◌else◌,
}
use procure_foundation.Prelude.Int.{pos}
use procure_foundation.Decimal.{Decimal, one_unit}
use procure_foundation.Matching.Text.{
  Text, codes, is_digit, is_letter, to_lower, lower, is_empty, lstrip, contains,
}

infixl 5 ◌>>=◌
abbrev pub ◌>>=◌ {ℓ κ} :
    {Value : Type ℓ} {Next : Type κ} → Option Value → (Value → Option Next) → Option Next
none >>= rest = none
some value >>= rest = rest value

-- A greedy run of characters that pass a test, and what follows it.
unfoldable pub span : (ℕ → Bool) → Text → Text × Text
span p [] = ([], [])
span p (c ∷ t) = let (run, rest) = span p t in if p c then (c ∷ run, rest) else ([], c ∷ t)

-- `int(digits)`
unfoldable pub numeral : Text → ℕ
numeral = foldl (λ n c. n * 10 + (c - b'0')) 0

-- The units of the digits after the point, the first of which counts `weight` units. A digit after
-- the 60th counts nothing.
unfoldable pub fraction_units : ℕ → Text → ℕ
fraction_units weight [] = 0
fraction_units weight (c ∷ t) = (c - b'0') * weight + fraction_units (weight / 10) t

-- `Decimal("whole.fraction")`
unfoldable pub literal : Text → Text → Decimal
unfolding numeral fraction_units one_unit
literal whole fraction = pos (numeral whole * one_unit + fraction_units (10 ^ 59) fraction)

-- `(?:\.\d+)?`
unfoldable pub scan_fraction : Text → Text → Decimal × Text
unfolding span is_digit literal
scan_fraction whole [] = (literal whole [], [])
scan_fraction whole (c ∷ t) =
    let (fraction, rest) = span is_digit t in
    if c == b'.' && not (is_empty fraction)
    then (literal whole fraction, rest)
    else (literal whole [], c ∷ t)

-- `\d+(?:\.\d+)?`
unfoldable pub scan_number : Text → Option (Decimal × Text)
unfolding span is_digit scan_fraction
scan_number t =
    let (whole, rest) = span is_digit t in
    if is_empty whole then none else some (scan_fraction whole rest)

-- A word in lower case at the front of a text in any case.
unfoldable pub strip_prefix : Text → Text → Option Text
unfolding to_lower
strip_prefix [] t = some t
strip_prefix (w ∷ word) [] = none
strip_prefix (w ∷ word) (c ∷ t) =
    let rest = strip_prefix word t in if to_lower c == w then rest else none

-- `\s*x\s*`
unfoldable pub scan_times : Text → Option Text
unfolding lstrip strip_prefix
scan_times t = do rest ← strip_prefix (codes "x") (lstrip t); some (lstrip rest)

-- `\s*([a-zA-Z]+)\s*$`, in lower case
unfoldable pub scan_unit : Text → Option Text
unfolding span is_letter lstrip lower
scan_unit t =
    let (unit, rest) = span is_letter (lstrip t) in
    if not (is_empty unit) && is_empty (lstrip rest) then some (lower unit) else none

-- `_MULTI_PACK_RE`: the groups qty, size and unit.
unfoldable pub match_multi_pack : Text → Option (Decimal × Decimal × Text)
unfolding lstrip scan_number scan_times scan_unit
match_multi_pack t = do
  (qty, after_qty) ← scan_number (lstrip t)
  after_times ← scan_times after_qty
  (size, after_size) ← scan_number after_times
  unit ← scan_unit after_size
  some (qty, size, unit)

-- `(?:of\s*)?`
abbrev pub skip_of : Text → Option Text → Text
skip_of t none = t
skip_of t (some rest) = lstrip rest

-- `_CASE_RE`: the group qty.
unfoldable pub match_case : Text → Option Decimal
unfolding lstrip strip_prefix scan_number
match_case t = do
  after_case ← strip_prefix (codes "case") (lstrip t)
  let number = lstrip after_case
  (qty, rest) ← scan_number (skip_of number (strip_prefix (codes "of") number))
  if is_empty (lstrip rest) then some qty else none

abbrev pub count_units : List Text
count_units = codes "unit" ∷ codes "units" ∷ codes "each" ∷ codes "ea" ∷ []

-- `_COUNT_RE`: the group qty.
unfoldable pub match_count : Text → Option Decimal
unfolding lstrip scan_number scan_unit contains
match_count t = do
  (qty, after_qty) ← scan_number (lstrip t)
  unit ← scan_unit after_qty
  if contains count_units unit then some qty else none

-- `_SINGLE_RE`: the groups size and unit.
unfoldable pub match_single : Text → Option (Decimal × Text)
unfolding lstrip scan_number scan_unit
match_single t = do
  (size, after_size) ← scan_number (lstrip t)
  unit ← scan_unit after_size
  some (size, unit)
