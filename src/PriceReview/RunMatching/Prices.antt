-- ===== src/PriceReview/RunMatching/Prices.antt =====
-- What the prices of a row may raise.
use Prim.Native.String.{String}
use procure_foundation.Prelude.{
  ◌≡◌, refl, ◌⊎◌, inl, inr, false, Bool-cases, Option, none, some, List, [], ◌∷◌, ◌==◌, arith,
}
use procure_foundation.Prelude.Int.{ℤ, pos, negsuc, eqb_ℤ, nat_abs}
use procure_foundation.Result.{Result, Error, ok, err, value_error, unrecognized_pack_format}
use procure_foundation.Decimal.{Decimal, div}
use procure_foundation.Matching.Text.{Text, eq_text, is_empty, strip}
use procure_foundation.Matching.PackParser.Patterns.{
  match_multi_pack, match_case, match_count, match_single,
}
use procure_foundation.Matching.PackParser.{
  ParsedPack, build, conversion_of, unit_conversions, try_single, try_count, try_multi_pack,
  parse_text, parse_pack_string, price_per_base_unit,
}
use procure_foundation.PriceReview.RunMatching.{
  Normalized, normalize, PriceCell, no_price, number, unreadable, price_of,
}

-- A result is a value, or this error.
abbrev OkOr : {A : Type 0} → Error → Result A → Type 0
OkOr {A} raised r = ((a : A) × (r ≡ ok a)) ⊎ (r ≡ err raised)

conversion_of-OkOr :
    (table : List (Text × String × Decimal)) (unit : Text)
    → OkOr unrecognized_pack_format (conversion_of table unit)
unfolding conversion_of
conversion_of-OkOr [] unit = inr refl
conversion_of-OkOr ((name, base_unit, factor) ∷ table) unit =
    elim (Bool-cases (eq_text name unit)) [
      | inl same ↦ rw same (inl ((base_unit, factor), refl))
      | inr other ↦ rw other (conversion_of-OkOr table unit)
    ]

build-OkOr :
    (qty size : Decimal) (unit : Text) → OkOr unrecognized_pack_format (build qty size unit)
unfolding build
build-OkOr qty size unit = elim (conversion_of-OkOr unit_conversions unit) [
  | inl (c, e) ↦ rw e (inl (_, refl))
  | inr e ↦ rw e (inr refl)
]

try_single-OkOr : (m : Option (Decimal × Text)) → OkOr unrecognized_pack_format (try_single m)
try_single-OkOr none = inr refl
try_single-OkOr (some (size, unit)) = build-OkOr _ size unit

try_count-OkOr :
    (m : Option Decimal) (otherwise : Result ParsedPack)
    → OkOr unrecognized_pack_format otherwise
    → OkOr unrecognized_pack_format (try_count m otherwise)
try_count-OkOr none otherwise h = h
try_count-OkOr (some qty) otherwise h = build-OkOr qty _ _

try_multi_pack-OkOr :
    (m : Option (Decimal × Decimal × Text)) (otherwise : Result ParsedPack)
    → OkOr unrecognized_pack_format otherwise
    → OkOr unrecognized_pack_format (try_multi_pack m otherwise)
try_multi_pack-OkOr none otherwise h = h
try_multi_pack-OkOr (some (qty, size, unit)) otherwise h = build-OkOr qty size unit

parse_text-OkOr : (text : Text) → OkOr unrecognized_pack_format (parse_text text)
unfolding parse_text
parse_text-OkOr text = try_multi_pack-OkOr (match_multi_pack text) _ (
    try_count-OkOr (match_case text) _
      (try_count-OkOr (match_count text) _ (try_single-OkOr (match_single text))))

parse_pack_string-OkOr : (raw : Text) → OkOr unrecognized_pack_format (parse_pack_string (some raw))
unfolding parse_pack_string
parse_pack_string-OkOr raw = elim (Bool-cases (is_empty (strip raw))) [
  | inl blank ↦ rw blank (inr refl)
  | inr filled ↦ rw filled (parse_text-OkOr (strip raw))
]

eqb_ℤ-nat_abs : (b : ℤ) → eqb_ℤ b (pos 0) ≡ false → (nat_abs b == 0) ≡ false
eqb_ℤ-nat_abs (pos n) h = ground (arith, h)
eqb_ℤ-nat_abs (negsuc n) h = ground (arith, h)

div-ok : (a b : Decimal) → (nat_abs b == 0) ≡ false → (quotient : Decimal) × (div a b ≡ ok quotient)
unfolding div
div-ok a b h = rw h (_, refl)

price_per_base_unit-OkOr :
    (price : Decimal) (pack : ParsedPack) → OkOr value_error (price_per_base_unit price pack)
unfolding price_per_base_unit
price_per_base_unit-OkOr price pack = elim (Bool-cases (eqb_ℤ pack.base_quantity (pos 0))) [
  | inl zero ↦ rw zero (inr refl)
  | inr other ↦
      let (quotient, e) =
        div-ok price pack.base_quantity (eqb_ℤ-nat_abs pack.base_quantity other) in
      rw (other, e) (inl (quotient, refl))
]

pub normalize-ok :
    (pack_raw : Option Text) (price : Option Decimal)
    → (norm : Normalized) × (normalize pack_raw price ≡ ok norm)
unfolding normalize
normalize-ok none price = ((none, none), refl)
normalize-ok (some pack_raw) none = ((none, none), refl)
normalize-ok (some pack_raw) (some price) = elim (Bool-cases (is_empty pack_raw)) [
  | inl blank ↦ rw blank ((none, none), refl)
  | inr filled ↦ rw filled (elim (parse_pack_string-OkOr pack_raw) [
    | inl (parsed, e) ↦ rw e (elim (price_per_base_unit-OkOr price parsed) [
      | inl (per_unit, e') ↦ rw e' (_, refl)
      | inr e' ↦ rw e' (_, refl)
    ])
    | inr e ↦ rw e (_, refl)
  ])
]

-- The cell is empty or a number.
abbrev pub IsReadable : PriceCell → Type 0
IsReadable no_price = Unit
IsReadable (number price) = Unit
IsReadable unreadable = ⊥

pub price_of-ok :
    (cell : PriceCell) → IsReadable cell → (price : Option Decimal) × (price_of cell ≡ ok price)
unfolding price_of
price_of-ok no_price h = (none, refl)
price_of-ok (number price) h = (some price, refl)
price_of-ok unreadable h = absurd h
