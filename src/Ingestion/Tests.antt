-- ===== src/Ingestion/Tests.antt =====
-- Rows of a price list that are validated, staged and matched.
use procure_foundation.Prelude.{ℕ, ◌≡◌, refl, false, none, some, List, [], ◌∷◌, ◌++◌, map, All}
use procure_foundation.Result.{ok, err, invalid_operation}
use procure_foundation.Decimal.{decimal}
use procure_foundation.Matching.Text.{Text, codes, is_empty, strip}
use procure_foundation.PriceReview.{PriceReviewLine}
use procure_foundation.PriceReview.RunMatching.{run_matching}
use procure_foundation.PriceReview.RunMatching.Accounting.{IsReviewOf}
use procure_foundation.Ingestion.Validation.{
  MappedRow, validate_row, validate_rows, staged_rows, is_valid, summarize_issues, parse_price,
  value, malformed, read_row,
}
use procure_foundation.Ingestion.Validation.Sound.{IsStaged, AreDistinct, validate_rows_sound}
use procure_foundation.Ingestion.Validation.Matched.{
  IsPlain, staged_list, with_rand, run_matching-staged, run_matching-rand,
}

abbrev row_of : Text → Text → MappedRow
row_of sku price = record {
  supplier_sku = some sku;
  barcode = none;
  description = some (codes "cooking oil");
  pack_size = some (codes "12 x 1kg");
  price = some price;
}

-- The second row repeats the SKU of the first, and the third has no price.
abbrev price_list : List MappedRow
price_list =
    row_of (codes "A1") (codes "480")
    ∷ row_of (codes " A1") (codes "45")
    ∷ row_of (codes "B") []
    ∷ []

counts :
    summarize_issues (validate_rows price_list)
    ≡ record { total_rows = 3; valid_rows = 1; errors = 2; warnings = 0 }
unfolding summarize_issues validate_rows
counts = refl

reads_rand : parse_price (some (codes " R1,234.50")) ≡ value (decimal 12345 1)
unfolding parse_price decimal
reads_rand = refl

refuses_words : parse_price (some (codes "on request")) ≡ malformed
unfolding parse_price
refuses_words = refl

validate_rows_sound_example :
    All IsStaged (staged_rows price_list (validate_rows price_list))
    × AreDistinct (staged_rows price_list (validate_rows price_list))
validate_rows_sound_example = validate_rows_sound price_list

-- No two descriptions are alike.
abbrev unlike : Text → Text → ℕ
unlike s t = 0

price_list-IsPlain : All (λ row. IsPlain row.price) (staged_list price_list)
unfolding staged_rows validate_rows
price_list-IsPlain = (refl, tt)

run_matching-staged_example :
    (lines : List PriceReviewLine) × (added : List PriceReviewLine) × (run_matching unlike
        (map read_row (staged_list price_list))
        (map read_row (staged_list price_list))
      ≡ ok (lines ++ added))
    × IsReviewOf
        (map read_row (staged_list price_list))
        (map read_row (staged_list price_list))
        lines
        added
run_matching-staged_example =
    run_matching-staged unlike price_list price_list price_list-IsPlain price_list-IsPlain

a_price : is_empty (strip (codes "45")) ≡ false
unfolding strip
a_price = refl

run_matching-rand_example :
    (is_valid (validate_row 1 [] (with_rand (row_of (codes "A1") []) (codes "45")))
      ≡ is_valid (validate_row 1 [] (row_of (codes "A1") (codes "45"))))
    × (run_matching unlike (read_row (with_rand (row_of (codes "A1") []) (codes "45")) ∷ []) []
        ≡ err invalid_operation)
run_matching-rand_example =
    run_matching-rand unlike (row_of (codes "A1") []) (codes "45") 1 [] [] [] a_price
