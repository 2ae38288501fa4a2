-- ===== src/Ingestion/Validation/Matched.antt =====
-- The staged rows of two lists, matched.
use procure_foundation.Prelude.{
  ℕ, ◌≡◌, refl, ap, inl, inr, false, Bool-cases, Option, none, some, List, [], ◌∷◌, ◌++◌, map, All,
  All-map,
}
use procure_foundation.Result.{ok, err, invalid_operation}
use procure_foundation.Matching.Text.{Text, is_digit, is_space, is_empty, lstrip, rstrip, strip}
use procure_foundation.Ingestion.Numbers.{
  parse_decimal, parse_stripped, parse_unsigned, parse_tail, strip_idem,
}
use procure_foundation.Matching.PackParser.Patterns.{span}
use procure_foundation.Decimal.{Decimal}
use procure_foundation.PriceReview.{PriceReviewLine}
use procure_foundation.PriceReview.RunMatching.{
  StagedRow, run_matching, match_rows, match_row, price_of, unreadable,
}
use procure_foundation.PriceReview.RunMatching.Prices.{IsReadable}
use procure_foundation.PriceReview.RunMatching.Rows.{IsUsable}
use procure_foundation.PriceReview.RunMatching.Accounting.{IsReviewOf, run_matching-accounts}
use procure_foundation.Ingestion.Validation.{
  MappedRow, stripped_field, drop_marks, parse_price, price_or_issue, value, validate_rows,
  staged_rows, validate_row, is_valid, no_value, cell_of, read_row,
}
use procure_foundation.Ingestion.Validation.Sound.{IsStaged, validate_rows_sound}

-- A price is written without the marks that the validation leaves out.
abbrev pub IsPlain : Option Text → Type 0
IsPlain none = Unit
IsPlain (some raw) = drop_marks raw ≡ raw

has_sku-HasSku :
    (sku : Option Text) (s : Text) → stripped_field sku ≡ some s → (t : Text) × (sku ≡ some t)
unfolding stripped_field
has_sku-HasSku none s h = cc
has_sku-HasSku (some t) s h = (t, refl)

read_value : (o : Option Decimal) {p : Decimal} → price_or_issue o ≡ value p → o ≡ some p
read_value none h = cc
read_value (some d) h = cc

parse_price-plain :
    (raw : Text) {p : Decimal}
    → drop_marks raw ≡ raw
    → parse_price (some raw) ≡ value p
    → parse_decimal raw ≡ some p
unfolding parse_price parse_decimal
parse_price-plain raw plain h = elim (Bool-cases (is_empty (strip raw))) [
  | inl blank ↦ let k : no_value ≡ value _ = rw blank at h in cc
  | inr filled ↦ read_value (parse_stripped (strip raw)) (rw (filled, plain, strip_idem raw) at h)
]

cell_of-IsReadable :
    (price : Option Text) {p : Decimal}
    → IsPlain price
    → parse_price price ≡ value p
    → IsReadable (cell_of price)
unfolding cell_of
cell_of-IsReadable none plain h = tt
cell_of-IsReadable (some raw) plain h = elim (Bool-cases (is_empty raw)) [
  | inl blank ↦ rw blank tt
  | inr filled ↦ rw (filled, parse_price-plain raw plain h) tt
]

IsStaged-IsUsable : (row : MappedRow) → IsStaged row → IsPlain row.price → IsUsable (read_row row)
unfolding read_row
IsStaged-IsUsable row staged plain = (
  has_sku-HasSku row.supplier_sku staged.sku staged.has_sku,
  cell_of-IsReadable row.price plain staged.has_price,
)

both-IsUsable :
    (rows : List MappedRow)
    → All IsStaged rows
    → All (λ row. IsPlain row.price) rows
    → All IsUsable (map read_row rows)
both-IsUsable [] staged plain = tt
both-IsUsable (row ∷ rows) staged plain =
    (IsStaged-IsUsable row staged.0 plain.0, both-IsUsable rows staged.1 plain.1)

-- The rows of a price list that the validation stages, as the matching reads them.
abbrev pub staged_list : List MappedRow → List MappedRow
staged_list rows = staged_rows rows (validate_rows rows)

-- The rows that the validation stages of two price lists can be matched, whatever the description
-- scores are, where no staged price has a comma or an R in it: the matching raises nothing and
-- accounts for every staged row.
pub run_matching-staged :
    (description_score : Text → Text → ℕ) (old_rows new_rows : List MappedRow)
    → All (λ row. IsPlain row.price) (staged_list old_rows)
    → All (λ row. IsPlain row.price) (staged_list new_rows)
    → let old_staged = map read_row (staged_list old_rows) in
      let new_staged = map read_row (staged_list new_rows) in
      (lines : List PriceReviewLine) × (added : List PriceReviewLine) × (run_matching
          description_score old_staged new_staged
        ≡ ok (lines ++ added))
      × IsReviewOf old_staged new_staged lines added
run_matching-staged description_score old_rows new_rows old_plain new_plain =
    let old_usable =
      both-IsUsable (staged_list old_rows) (validate_rows_sound old_rows).0 old_plain in
    let new_usable =
      both-IsUsable (staged_list new_rows) (validate_rows_sound new_rows).0 new_plain in
    run_matching-accounts description_score (map read_row (staged_list old_rows))
      (map read_row (staged_list new_rows))
      (All-map (λ row (u : IsUsable row). u.1) (map read_row (staged_list old_rows)) old_usable)
      new_usable

-- A price with an R in front, as in `R45.00`.
abbrev pub with_rand : MappedRow → Text → MappedRow
with_rand row t = record row { price = some (b'R' ∷ t) }

rand-unreadable : (t : Text) → cell_of (some (b'R' ∷ t)) ≡ unreadable
unfolding cell_of parse_decimal parse_stripped parse_unsigned parse_tail span is_digit strip lstrip
    rstrip is_space
rand-unreadable t = refl

rand-parse_price :
    (t : Text) → is_empty (strip t) ≡ false → parse_price (some (b'R' ∷ t)) ≡ parse_price (some t)
unfolding parse_price strip lstrip rstrip is_space
rand-parse_price t filled = rw filled refl

validate_row-price :
    (idx : ℕ) (seen : List (Text × ℕ)) (row : MappedRow) (a b : Option Text)
    → parse_price a ≡ parse_price b
    → validate_row idx seen (record row { price = a })
      ≡ validate_row idx seen (record row { price = b })
unfolding validate_row
validate_row-price idx seen row a b e = rw e refl

run_matching-unreadable :
    (description_score : Text → Text → ℕ) (row : StagedRow) (old_rows new_rows : List StagedRow)
    → row.price ≡ unreadable
    → run_matching description_score (row ∷ old_rows) new_rows ≡ err invalid_operation
unfolding run_matching match_rows match_row price_of
run_matching-unreadable description_score row old_rows new_rows h = rw h refl

-- An R in front of a price makes no difference to the validation of a row, whose price is not
-- blank, and makes the matching raise InvalidOperation where that row is the first of the old list.
pub run_matching-rand :
    (description_score : Text → Text → ℕ) (row : MappedRow) (t : Text) (idx : ℕ)
    (seen : List (Text × ℕ)) (old_rows new_rows : List StagedRow)
    → is_empty (strip t) ≡ false
    → (is_valid (validate_row idx seen (with_rand row t))
        ≡ is_valid (validate_row idx seen (record row { price = some t })))
      × (run_matching description_score (read_row (with_rand row t) ∷ old_rows) new_rows
          ≡ err invalid_operation)
unfolding read_row
run_matching-rand description_score row t idx seen old_rows new_rows filled = (
  ap is_valid
      (validate_row-price idx seen row (some (b'R' ∷ t)) (some t) (rand-parse_price t filled)),
  run_matching-unreadable description_score (read_row (with_rand row t)) old_rows new_rows
      (rand-unreadable t),
)
