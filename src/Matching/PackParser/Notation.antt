-- ===== src/Matching/PackParser/Notation.antt =====
-- The scanners of backend/app/matching/pack_parser.py on a text that is put together from what they
-- look for.
use procure_foundation.Prelude.{
  ℕ, ◌≡◌, refl, arith, Bool, true, false, ◌==◌, some, [], ◌∷◌, ◌++◌, All,
}
use procure_foundation.Matching.Text.{
  Text, is_digit, is_letter, is_space, is_empty, lstrip, rstrip, lower,
}
use procure_foundation.Matching.PackParser.Patterns.{
  span, literal, scan_fraction, scan_number, strip_prefix, scan_times, scan_unit,
}

-- What holds of the first character, where there is one.
abbrev pub Head : (ℕ → Type 0) → Text → Type 0
Head P [] = Unit
Head P (c ∷ t) = P c

abbrev pub Passes : (ℕ → Bool) → ℕ → Type 0
Passes p c = p c ≡ true

abbrev pub Fails : (ℕ → Bool) → ℕ → Type 0
Fails p c = p c ≡ false

-- A run: at least one character, and every character passes the test.
abbrev pub IsRun : (ℕ → Bool) → Text → Type 0
IsRun p [] = ⊥
IsRun p (c ∷ t) = All (Passes p) (c ∷ t)

span_run :
    (p : ℕ → Bool) (run rest : Text)
    → All (Passes p) run
    → Head (Fails p) rest
    → span p (run ++ rest) ≡ (run, rest)
unfolding span
span_run p [] [] h end = refl
span_run p [] (c ∷ rest) h end = rw end refl
span_run p (c ∷ run) rest h end = rw (h.0, span_run p run rest h.1 end) refl

pub lstrip_blanks :
    (blanks t : Text)
    → All (Passes is_space) blanks
    → Head (Fails is_space) t
    → lstrip (blanks ++ t) ≡ t
unfolding lstrip
lstrip_blanks [] [] h end = refl
lstrip_blanks [] (c ∷ t) h end = rw end refl
lstrip_blanks (c ∷ blanks) t h end = rw (h.0, lstrip_blanks blanks t h.1 end) refl

-- What holds of blanks and of the first character of a text holds of the first character of the
-- text behind blanks.
pub Head-blanks :
    (P : ℕ → Type 0) (blanks t : Text)
    → ((c : ℕ) → is_space c ≡ true → P c)
    → All (Passes is_space) blanks
    → Head P t
    → Head P (blanks ++ t)
Head-blanks P [] t blank h k = k
Head-blanks P (c ∷ blanks) t blank h k = blank c h.0

-- A character that does not continue a number.
abbrev pub IsEnd : ℕ → Type 0
IsEnd c = (is_digit c ≡ false) × ((c == b'.') ≡ false)

pub space-IsEnd : (c : ℕ) → is_space c ≡ true → IsEnd c
unfolding is_space is_digit
space-IsEnd c h = (ground (arith, h), ground (arith, h))

pub letter-IsEnd : (c : ℕ) → is_letter c ≡ true → IsEnd c
unfolding is_letter is_digit
letter-IsEnd c h = (ground (arith, h), ground (arith, h))

letter-visible : (c : ℕ) → is_letter c ≡ true → is_space c ≡ false
unfolding is_letter is_space
letter-visible c h = ground (arith, h)

pub digit-visible : (c : ℕ) → is_digit c ≡ true → is_space c ≡ false
unfolding is_digit is_space
digit-visible c h = ground (arith, h)

-- The notation of a number in front of a text.
abbrev pub number_text : Text → Text → Text → Text
number_text whole [] rest = whole ++ rest
number_text whole (c ∷ fraction) rest = whole ++ (b'.' ∷ (c ∷ (fraction ++ rest)))

scan_fraction_none :
    (whole rest : Text) → Head IsEnd rest → scan_fraction whole rest ≡ (literal whole [], rest)
unfolding scan_fraction
scan_fraction_none whole [] end = refl
scan_fraction_none whole (c ∷ rest) end = rw end.1 refl

point-IsEnd : is_digit b'.' ≡ false
unfolding is_digit
point-IsEnd = refl

Head-map : (t : Text) → Head IsEnd t → Head (Fails is_digit) t
Head-map [] h = tt
Head-map (c ∷ t) h = h.0

scan_fraction_some :
    (whole : Text) (c : ℕ) (fraction rest : Text)
    → All (Passes is_digit) (c ∷ fraction)
    → Head IsEnd rest
    → scan_fraction whole (b'.' ∷ (c ∷ (fraction ++ rest))) ≡ (literal whole (c ∷ fraction), rest)
unfolding scan_fraction
scan_fraction_some whole c fraction rest h end =
    rw (span_run is_digit (c ∷ fraction) rest h (Head-map rest end)) refl

pub scan_number-text :
    (whole fraction rest : Text)
    → IsRun is_digit whole
    → All (Passes is_digit) fraction
    → Head IsEnd rest
    → scan_number (number_text whole fraction rest) ≡ some (literal whole fraction, rest)
unfolding scan_number
scan_number-text [] fraction rest h k end = absurd h
scan_number-text (d ∷ whole) [] rest h k end =
    rw
      (
        span_run is_digit (d ∷ whole) rest h (Head-map rest end),
        scan_fraction_none (d ∷ whole) rest end,
      )
      refl
scan_number-text (d ∷ whole) (c ∷ fraction) rest h k end =
    rw
      (
        span_run is_digit (d ∷ whole) (b'.' ∷ (c ∷ (fraction ++ rest))) h point-IsEnd,
        scan_fraction_some (d ∷ whole) c fraction rest k end,
      )
      refl

pub scan_times-text :
    (blanks after t : Text)
    → All (Passes is_space) blanks
    → All (Passes is_space) after
    → Head (Fails is_space) t
    → scan_times (blanks ++ (b'x' ∷ (after ++ t))) ≡ some t
unfolding scan_times strip_prefix
scan_times-text blanks after t h k visible =
    rw (lstrip_blanks blanks (b'x' ∷ (after ++ t)) h refl, lstrip_blanks after t k visible) refl

span_all : (p : ℕ → Bool) (run : Text) → All (Passes p) run → span p run ≡ (run, [])
unfolding span
span_all p [] h = refl
span_all p (c ∷ run) h = rw (h.0, span_all p run h.1) refl

Head-run : (unit : Text) → IsRun is_letter unit → Head (Fails is_space) unit
Head-run [] h = absurd h
Head-run (c ∷ unit) h = letter-visible c h.0

pub scan_unit-text :
    (blanks unit : Text)
    → All (Passes is_space) blanks
    → IsRun is_letter unit
    → scan_unit (blanks ++ unit) ≡ some (lower unit)
unfolding scan_unit lstrip
scan_unit-text blanks [] h k = absurd k
scan_unit-text blanks (c ∷ unit) h k =
    rw (lstrip_blanks blanks (c ∷ unit) h (letter-visible c k.0), span_all is_letter (c ∷ unit) k)
      refl

-- A text with no blank at its end.
abbrev pub IsTrimmed : Text → Type 0
IsTrimmed t = (rstrip t ≡ t) × (is_empty t ≡ false)

pub cons-IsTrimmed : (c : ℕ) (t : Text) → IsTrimmed t → IsTrimmed (c ∷ t)
unfolding rstrip
cons-IsTrimmed c t (same, filled) = (ground (arith, same, filled), refl)

pub append-IsTrimmed : (s t : Text) → IsTrimmed t → IsTrimmed (s ++ t)
append-IsTrimmed [] t h = h
append-IsTrimmed (c ∷ s) t h = cons-IsTrimmed c (s ++ t) (append-IsTrimmed s t h)

pub number_text-IsTrimmed :
    (whole fraction rest : Text) → IsTrimmed rest → IsTrimmed (number_text whole fraction rest)
number_text-IsTrimmed whole [] rest h = append-IsTrimmed whole rest h
number_text-IsTrimmed whole (c ∷ fraction) rest h =
    append-IsTrimmed whole (b'.' ∷ (c ∷ (fraction ++ rest)))
      (cons-IsTrimmed b'.' (c ∷ (fraction ++ rest)) (append-IsTrimmed (c ∷ fraction) rest h))

pub run-IsTrimmed : (unit : Text) → IsRun is_letter unit → IsTrimmed unit
unfolding rstrip
run-IsTrimmed [] h = absurd h
run-IsTrimmed (c ∷ []) h = let visible = letter-visible c h.0 in (ground (arith, visible), refl)
run-IsTrimmed (c ∷ d ∷ unit) h = cons-IsTrimmed c (d ∷ unit) (run-IsTrimmed (d ∷ unit) h.1)
