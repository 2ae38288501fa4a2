-- ===== src/Matching/PackParser/Tests.antt =====
-- Pack sizes that are parsed and printed.
use procure_foundation.Prelude.{◌≡◌, refl, some, []}
use procure_foundation.Result.{ok, err, unrecognized_pack_format}
use procure_foundation.Decimal.{decimal, arithmetic}
use procure_foundation.Matching.Text.{codes, str_of, lower, is_digit, is_letter, is_space}
use procure_foundation.Matching.PackParser.{build, parse_pack_string}
use procure_foundation.Matching.PackParser.RoundTrip.{
  pack_text, number_of, parse_pack_string-str_of,
}

cooking_oil :
    parse_pack_string (some (codes " 12 x 1kg "))
    ≡ ok (record {
      pack_quantity = decimal 12 0;
      unit_size = decimal 1 0;
      unit = codes "kg";
      base_quantity = decimal 12 0;
      base_unit = "kg";
    })
unfolding parse_pack_string arithmetic
cooking_oil = refl

case_of :
    parse_pack_string (some (codes "Case of 24"))
    ≡ build (decimal 24 0) (decimal 1 0) (codes "each")
unfolding parse_pack_string build arithmetic
case_of = refl

count :
    parse_pack_string (some (codes "12 Units")) ≡ build (decimal 12 0) (decimal 1 0) (codes "each")
unfolding parse_pack_string build arithmetic
count = refl

single : parse_pack_string (some (codes "2.5L")) ≡ build (decimal 1 0) (decimal 25 1) (codes "l")
unfolding parse_pack_string build arithmetic
single = refl

no_unit : parse_pack_string (some (codes "12 x")) ≡ err unrecognized_pack_format
unfolding parse_pack_string
no_unit = refl

parse_pack_string-str_of_example :
    parse_pack_string (
      some
        (pack_text (str_of 24) [] (codes " ") (codes " ") (str_of 0) (codes "33") [] (codes "L")))
    ≡ build (number_of 24 []) (number_of 0 (codes "33")) (lower (codes "L"))
unfolding is_digit is_space is_letter
parse_pack_string-str_of_example =
    parse_pack_string-str_of 24 0 [] (codes "33") (codes " ") (codes " ") [] (codes "L") tt
      (refl, (refl, tt)) (refl, (refl, tt)) (refl, tt)
