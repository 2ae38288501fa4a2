-- ===== src/Matching/PackParser.antt =====
-- backend/app/matching/pack_parser.py: pack sizes such as `24 x 330ml` and the price of a base unit.
pub mod Patterns
pub mod Notation
pub mod RoundTrip
mod Tests
use Prim.Native.String.{String}
use procure_foundation.Prelude.{ℕ, Option, none, some, List, [], ◌∷◌, if◌then◌else◌}
use procure_foundation.Prelude.Int.{pos, eqb_ℤ}
use procure_foundation.Result.{
  Result, ok, err, value_error, unrecognized_pack_format, raise_if, ◌>>=◌, ◌>>◌,
}
use procure_foundation.Decimal.{Decimal, mul, div, decimal}
use procure_foundation.Matching.Text.{Text, codes, eq_text, is_empty, strip}
use procure_foundation.Matching.PackParser.Patterns.{
  match_multi_pack, match_case, match_count, match_single,
}

pub record ParsedPack : Type 0 where
  pub pack_quantity : Decimal
  pub unit_size : Decimal
  pub unit : Text
  pub base_quantity : Decimal
  pub base_unit : String

-- `_UNIT_CONVERSIONS`
abbrev pub unit_conversions : List (Text × String × Decimal)
unit_conversions =
    (codes "g", "kg", decimal 1 3)
    ∷ (codes "gram", "kg", decimal 1 3)
    ∷ (codes "grams", "kg", decimal 1 3)
    ∷ (codes "kg", "kg", decimal 1 0)
    ∷ (codes "kilogram", "kg", decimal 1 0)
    ∷ (codes "kilograms", "kg", decimal 1 0)
    ∷ (codes "ml", "L", decimal 1 3)
    ∷ (codes "millilitre", "L", decimal 1 3)
    ∷ (codes "millilitres", "L", decimal 1 3)
    ∷ (codes "l", "L", decimal 1 0)
    ∷ (codes "litre", "L", decimal 1 0)
    ∷ (codes "litres", "L", decimal 1 0)
    ∷ (codes "liter", "L", decimal 1 0)
    ∷ (codes "liters", "L", decimal 1 0)
    ∷ (codes "each", "each", decimal 1 0)
    ∷ (codes "unit", "each", decimal 1 0)
    ∷ (codes "units", "each", decimal 1 0)
    ∷ (codes "ea", "each", decimal 1 0)
    ∷ []

-- `_UNIT_CONVERSIONS[unit]`
unfoldable pub conversion_of : List (Text × String × Decimal) → Text → Result (String × Decimal)
unfolding eq_text
conversion_of [] unit = err unrecognized_pack_format
conversion_of ((name, base_unit, factor) ∷ table) unit =
    if eq_text name unit then ok (base_unit, factor) else conversion_of table unit

unfoldable pub build : Decimal → Decimal → Text → Result ParsedPack
unfolding conversion_of mul decimal
build pack_quantity unit_size unit = do
  (base_unit, factor) ← conversion_of unit_conversions unit
  ok (record {
    pack_quantity = pack_quantity;
    unit_size = unit_size;
    unit = unit;
    base_quantity = mul (mul pack_quantity unit_size) factor;
    base_unit = base_unit;
  })

-- The chain of patterns, each with what follows where it does not match.
abbrev pub try_single : Option (Decimal × Text) → Result ParsedPack
try_single (some (size, unit)) = build (decimal 1 0) size unit
try_single none = err unrecognized_pack_format

abbrev pub try_count : Option Decimal → Result ParsedPack → Result ParsedPack
try_count (some qty) otherwise = build qty (decimal 1 0) (codes "each")
try_count none otherwise = otherwise

abbrev pub try_multi_pack :
    Option (Decimal × Decimal × Text) → Result ParsedPack → Result ParsedPack
try_multi_pack (some (qty, size, unit)) otherwise = build qty size unit
try_multi_pack none otherwise = otherwise

unfoldable pub parse_text : Text → Result ParsedPack
unfolding match_multi_pack match_case match_count match_single build
parse_text text =
    try_multi_pack (match_multi_pack text)
      (try_count (match_case text) (try_count (match_count text) (try_single (match_single text))))

unfoldable pub parse_pack_string : Option Text → Result ParsedPack
unfolding strip parse_text
parse_pack_string none = err unrecognized_pack_format
parse_pack_string (some raw) =
    let text = strip raw in if is_empty text then err unrecognized_pack_format else parse_text text

unfoldable pub price_per_base_unit : Decimal → ParsedPack → Result Decimal
unfolding div
price_per_base_unit total_price parsed_pack = do
  raise_if (eqb_ℤ parsed_pack.base_quantity (pos 0)) value_error
  div total_price parsed_pack.base_quantity
