-- ===== src/Ingestion/Numbers.antt =====
-- `Decimal(text)` for a text without an exponent: a sign, digits and a point. The notation with an
-- exponent, underscores and the special values (`NaN`, `Infinity`) are left out.
use procure_foundation.Prelude.{
  ◌≡◌, refl, Bool-cases, inl, inr, not, ◌&&◌, ◌==◌, Option, none, some, [], ◌∷◌, if◌then◌else◌,
}
use procure_foundation.Prelude.Int.{neg}
use procure_foundation.Decimal.{Decimal}
use procure_foundation.Matching.Text.{Text, is_digit, is_empty, is_space, lstrip, rstrip, strip}
use procure_foundation.Matching.PackParser.Patterns.{span, literal}

-- The digits behind the point, to the end of the text; there is a digit before or behind it.
unfoldable pub parse_fraction : Text → Text → Option Decimal
unfolding span is_digit literal
parse_fraction whole t =
    let (fraction, rest) = span is_digit t in
    if is_empty rest && not (is_empty whole && is_empty fraction)
    then some (literal whole fraction)
    else none

unfoldable pub parse_tail : Text → Text → Option Decimal
unfolding parse_fraction literal
parse_tail whole [] = if is_empty whole then none else some (literal whole [])
parse_tail whole (c ∷ t) = if c == b'.' then parse_fraction whole t else none

unfoldable pub parse_unsigned : Text → Option Decimal
unfolding span is_digit parse_tail
parse_unsigned t = let (whole, rest) = span is_digit t in parse_tail whole rest

abbrev pub negated : Option Decimal → Option Decimal
negated none = none
negated (some d) = some (neg d)

unfoldable pub parse_stripped : Text → Option Decimal
unfolding parse_unsigned
parse_stripped [] = none
parse_stripped (c ∷ t) =
    if c == b'-'
    then negated (parse_unsigned t)
    else if c == b'+'
    then parse_unsigned t
    else parse_unsigned (c ∷ t)

-- `none` is an InvalidOperation.
unfoldable pub parse_decimal : Text → Option Decimal
unfolding parse_stripped strip
parse_decimal t = parse_stripped (strip t)

rstrip_idem : (t : Text) → rstrip (rstrip t) ≡ rstrip t
unfolding rstrip
rstrip_idem [] = refl
rstrip_idem (c ∷ t) =
    let rest = rstrip_idem t in
    elim (Bool-cases (is_space c && is_empty (rstrip t))) [
      | inl blank ↦ rw blank refl
      | inr kept ↦ rw (kept, rest, kept) refl
    ]

lstrip-rstrip-lstrip : (t : Text) → lstrip (rstrip (lstrip t)) ≡ rstrip (lstrip t)
unfolding lstrip rstrip
lstrip-rstrip-lstrip [] = refl
lstrip-rstrip-lstrip (c ∷ t) = elim (Bool-cases (is_space c)) [
  | inl blank ↦ rw blank (lstrip-rstrip-lstrip t)
  | inr visible ↦ rw (visible, visible, visible) refl
]

pub strip_idem : (t : Text) → strip (strip t) ≡ strip t
unfolding strip
strip_idem t = rw (lstrip-rstrip-lstrip t) (rstrip_idem (lstrip t))
