-- ===== src/PriceReview/RunMatching/Tests.antt =====
-- Two price lists that are matched.
use procure_foundation.Prelude.{ℕ, ◌≡◌, refl, none, some, List, [], ◌∷◌, ◌++◌}
use procure_foundation.Result.{ok}
use procure_foundation.Decimal.{decimal}
use procure_foundation.Matching.Text.{Text, codes}
use procure_foundation.PriceReview.Line.{PriceReviewLine}
use procure_foundation.PriceReview.RunMatching.{StagedRow, PriceCell, number, run_matching}
use procure_foundation.PriceReview.RunMatching.Accounting.{IsReviewOf, run_matching-accounts}

abbrev row_of : Text → PriceCell → StagedRow
row_of sku price = record {
  supplier_sku = some sku;
  barcode = none;
  description = some sku;
  pack_size = some (codes "10kg");
  price = price;
}

abbrev unlike : Text → Text → ℕ
unlike s t = 0

-- A and B, of which B goes, and C, which is new.
abbrev old_rows : List StagedRow
old_rows =
    row_of (codes "A") (number (decimal 450 0)) ∷ row_of (codes "B") (number (decimal 20 0)) ∷ []

abbrev new_rows : List StagedRow
new_rows =
    row_of (codes "C") (number (decimal 9 0)) ∷ row_of (codes "A") (number (decimal 480 0)) ∷ []

run_matching-accounts_example :
    (lines : List PriceReviewLine) × (added : List PriceReviewLine) × (run_matching unlike old_rows
        new_rows
      ≡ ok (lines ++ added))
    × IsReviewOf old_rows new_rows lines added
run_matching-accounts_example =
    run_matching-accounts unlike old_rows new_rows (tt, (tt, tt))
      (((codes "C", refl), tt), (((codes "A", refl), tt), tt))
