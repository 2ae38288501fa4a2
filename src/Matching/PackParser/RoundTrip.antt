-- ===== src/Matching/PackParser/RoundTrip.antt =====
-- What backend/app/matching/pack_parser.py reads back from a pack size that has been written down.
use procure_foundation.Prelude.{
  ℕ, zero, suc, ◌+◌, ◌-◌, ◌*◌, ◌/◌, ◌%◌, ◌^◌, ◌<◌, ◌≡◌, refl, ap, ◌∙◌, arith, true, false,
  Bool-cases, inl, inr, ltb, foldl, some, [], ◌∷◌, ◌++◌, All, All-append, All-split,
}
use procure_foundation.Prelude.Int.{pos}
use procure_foundation.Decimal.{Decimal, one_unit}
use procure_foundation.Matching.Text.{
  Text, is_digit, is_letter, is_space, is_empty, strip, lower, digits, str_of,
}
use procure_foundation.Matching.PackParser.{parse_pack_string, parse_text, build}
use procure_foundation.Matching.PackParser.Patterns.{
  numeral, fraction_units, literal, match_multi_pack,
}
use procure_foundation.Matching.PackParser.Notation.{
  IsRun, Passes, Fails, Head, IsEnd, IsTrimmed, number_text, scan_number-text, scan_times-text,
  scan_unit-text, Head-blanks, space-IsEnd, letter-IsEnd, digit-visible, number_text-IsTrimmed,
  run-IsTrimmed, append-IsTrimmed, cons-IsTrimmed, lstrip_blanks,
}

-- Two numbers with an `x` between them and a unit behind, with blanks in the three gaps.
abbrev pub pack_text : Text → Text → Text → Text → Text → Text → Text → Text → Text
pack_text whole fraction a b whole' fraction' c unit =
    number_text whole fraction (a ++ (b'x' ∷ (b ++ number_text whole' fraction' (c ++ unit))))

-- The parts of a pack size.
abbrev pub IsPack : Text → Text → Text → Text → Text → Text → Text → Text → Type 0
IsPack whole fraction a b whole' fraction' c unit =
    IsRun is_digit whole
    × All (Passes is_digit) fraction
    × All (Passes is_space) a
    × All (Passes is_space) b
    × IsRun is_digit whole'
    × All (Passes is_digit) fraction'
    × All (Passes is_space) c
    × IsRun is_letter unit

Head-number :
    (whole fraction rest : Text)
    → IsRun is_digit whole
    → Head (Fails is_space) (number_text whole fraction rest)
Head-number [] fraction rest h = absurd h
Head-number (d ∷ whole) [] rest h = digit-visible d h.0
Head-number (d ∷ whole) (c ∷ fraction) rest h = digit-visible d h.0

times-IsEnd : IsEnd b'x'
unfolding is_digit
times-IsEnd = (refl, refl)

unit-IsEnd : (unit : Text) → IsRun is_letter unit → Head IsEnd unit
unit-IsEnd [] h = absurd h
unit-IsEnd (c ∷ unit) h = letter-IsEnd c h.0

match_multi_pack-text :
    (whole fraction a b whole' fraction' c unit : Text)
    → IsPack whole fraction a b whole' fraction' c unit
    → match_multi_pack (pack_text whole fraction a b whole' fraction' c unit)
      ≡ some (literal whole fraction, literal whole' fraction', lower unit)
unfolding match_multi_pack
match_multi_pack-text whole fraction a b whole' fraction' c unit (h0, h1, h2, h3, h4, h5, h6, h7) =
    let size = number_text whole' fraction' (c ++ unit) in
    let rest = a ++ (b'x' ∷ (b ++ size)) in
    let blank_end = Head-blanks IsEnd a (b'x' ∷ (b ++ size)) space-IsEnd h2 times-IsEnd in
    let unit_end = Head-blanks IsEnd c unit space-IsEnd h6 (unit-IsEnd unit h7) in
    rw
      (
        lstrip_blanks [] (number_text whole fraction rest) tt (Head-number whole fraction rest h0),
        scan_number-text whole fraction rest h0 h1 blank_end,
        scan_times-text a b size h2 h3 (Head-number whole' fraction' (c ++ unit) h4),
        scan_number-text whole' fraction' (c ++ unit) h4 h5 unit_end,
        scan_unit-text c unit h6 h7,
      )
      refl

strip-pack_text :
    (whole fraction a b whole' fraction' c unit : Text)
    → IsPack whole fraction a b whole' fraction' c unit
    → let text = pack_text whole fraction a b whole' fraction' c unit in
      (strip text ≡ text) × (is_empty text ≡ false)
unfolding strip
strip-pack_text whole fraction a b whole' fraction' c unit (h0, h1, h2, h3, h4, h5, h6, h7) =
    let size = number_text whole' fraction' (c ++ unit) in
    let rest = a ++ (b'x' ∷ (b ++ size)) in
    let trimmed : IsTrimmed rest = append-IsTrimmed a (b'x' ∷ (b ++ size)) (
      cons-IsTrimmed b'x' (b ++ size) (
        append-IsTrimmed b size (
          number_text-IsTrimmed whole' fraction' (c ++ unit)
            (append-IsTrimmed c unit (run-IsTrimmed unit h7))))) in
    let (same, filled) = number_text-IsTrimmed whole fraction rest trimmed in
    (
      rw
          (lstrip_blanks [] (number_text whole fraction rest) tt
            (Head-number whole fraction rest h0))
          same,
      filled,
    )

parse_pack_string-pack_text :
    (whole fraction a b whole' fraction' c unit : Text)
    → IsPack whole fraction a b whole' fraction' c unit
    → parse_pack_string (some (pack_text whole fraction a b whole' fraction' c unit))
      ≡ build (literal whole fraction) (literal whole' fraction') (lower unit)
unfolding parse_pack_string parse_text
parse_pack_string-pack_text whole fraction a b whole' fraction' c unit h =
    let (same, filled) = strip-pack_text whole fraction a b whole' fraction' c unit h in
    rw (same, filled, match_multi_pack-text whole fraction a b whole' fraction' c unit h) refl

numeral-append :
    (t : Text) (n c : ℕ)
    → foldl (λ m d. m * 10 + (d - b'0')) n (t ++ (c ∷ []))
      ≡ foldl (λ m d. m * 10 + (d - b'0')) n t * 10 + (c - b'0')
numeral-append [] n c = refl
numeral-append (d ∷ t) n c = numeral-append t (n * 10 + (d - b'0')) c

-- A numeral that is written and read again.
numeral-digits : (fuel n : ℕ) → n < fuel → numeral (digits fuel n) ≡ n
unfolding numeral digits
numeral-digits zero n h = ground (arith, h)
numeral-digits (suc fuel) n h = elim (Bool-cases (ltb n 10)) [
  | inl small ↦ rw small (omega arith)
  | inr large ↦
      let smaller : n / 10 < fuel = ground (arith, h, large) in
      rw
        (
          large,
          numeral-append (digits fuel (n / 10)) 0 (b'0' + n % 10),
          numeral-digits fuel (n / 10) smaller,
        )
        (omega arith)
]

is_digit-of : (n : ℕ) → n < 10 → is_digit (b'0' + n) ≡ true
unfolding is_digit
is_digit-of n h = ground (arith, h)

digits-All : (fuel n : ℕ) → All (Passes is_digit) (digits fuel n)
unfolding digits
digits-All zero n = tt
digits-All (suc fuel) n = elim (Bool-cases (ltb n 10)) [
  | inl small ↦ rw small (is_digit-of n (ground (arith, small)), tt)
  | inr large ↦ rw large (
      All-append (Passes is_digit) (digits fuel (n / 10)) _ (digits-All fuel (n / 10))
        (is_digit-of (n % 10) (omega arith), tt))
]

append-IsRun :
    (t : Text) (c : ℕ) → All (Passes is_digit) (t ++ (c ∷ [])) → IsRun is_digit (t ++ (c ∷ []))
append-IsRun [] c h = h
append-IsRun (d ∷ t) c h = h

str_of-IsRun : (n : ℕ) → IsRun is_digit (str_of n)
unfolding str_of digits
str_of-IsRun n = elim (Bool-cases (ltb n 10)) [
  | inl small ↦ rw small (is_digit-of n (ground (arith, small)), tt)
  | inr large ↦ rw large (
      append-IsRun (digits n (n / 10)) _ (
        All-append (Passes is_digit) (digits n (n / 10)) _ (digits-All n (n / 10))
          (is_digit-of (n % 10) (omega arith), tt)))
]

-- The Decimal of a whole number and of the digits behind its point.
abbrev pub number_of : ℕ → Text → Decimal
number_of n fraction = pos (n * one_unit + fraction_units (10 ^ 59) fraction)

literal-str_of : (n : ℕ) (fraction : Text) → literal (str_of n) fraction ≡ number_of n fraction
unfolding literal str_of
literal-str_of n fraction = ap (λ m. number_of m fraction) (numeral-digits (suc n) n (omega arith))

-- A pack size that is written down is read back: two whole numbers in decimal, each with or without
-- a point and digits behind it, an x between them and a word of letters behind, with any blanks in
-- the gaps, are parsed to the pack of those two numbers and of that word in lower case, or to the
-- error for a unit that the table does not have.
pub parse_pack_string-str_of :
    (n m : ℕ) (fraction fraction' a b c unit : Text)
    → All (Passes is_digit) fraction
    → All (Passes is_digit) fraction'
    → All (Passes is_space) (a ++ b ++ c)
    → IsRun is_letter unit
    → parse_pack_string (some (pack_text (str_of n) fraction a b (str_of m) fraction' c unit))
      ≡ build (number_of n fraction) (number_of m fraction') (lower unit)
parse_pack_string-str_of n m fraction fraction' a b c unit h h' blanks letters =
    let (ab, in_c) = All-split (Passes is_space) (a ++ b) c blanks in
    let (in_a, in_b) = All-split (Passes is_space) a b ab in
    parse_pack_string-pack_text (str_of n) fraction a b (str_of m) fraction' c unit
      (str_of-IsRun n, h, in_a, in_b, str_of-IsRun m, h', in_c, letters)
    ∙ rw (literal-str_of n fraction, literal-str_of m fraction') refl
