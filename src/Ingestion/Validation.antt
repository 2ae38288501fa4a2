-- ===== src/Ingestion/Validation.antt =====
-- backend/app/ingestion/validation.py, and the rows that
-- backend/app/api/v1/price_reviews.py (`confirm_column_mapping`) stages after it.
pub mod Sound
pub mod Matched
use Prim.Native.String.{String}
use procure_foundation.Prelude.{
  ℕ, suc, ◌+◌, Bool, true, false, not, ◌&&◌, ◌||◌, ◌==◌, Option, none, some, List, [], ◌∷◌, ◌++◌,
  map, filter, length, if◌then◌else◌,
}
use procure_foundation.Prelude.Int.{pos, ltb_ℤ, eqb_ℤ}
use procure_foundation.Decimal.{Decimal}
use procure_foundation.Matching.Text.{Text, eq_text, is_empty, strip}
use procure_foundation.Ingestion.Numbers.{parse_decimal}
use procure_foundation.PriceReview.RunMatching.{StagedRow, PriceCell, no_price, number, unreadable}

-- A row by its canonical fields; a missing key and a None are one value.
pub record MappedRow : Type 0 where
  pub supplier_sku : Option Text
  pub barcode : Option Text
  pub description : Option Text
  pub pack_size : Option Text
  pub price : Option Text

pub data IssueSeverity : Type 0 where
  error warning : IssueSeverity

-- The messages; that of a duplicate names the row that has the SKU first.
pub data IssueMessage : Type 0 where
  missing_identifier missing_description missing_price malformed_price : IssueMessage
  negative_price zero_price missing_pack_size : IssueMessage
  duplicate_sku : ℕ → IssueMessage

pub record ValidationIssue : Type 0 where
  pub row_number : ℕ
  pub field : String
  pub severity : IssueSeverity
  pub message : IssueMessage

pub record ValidatedRow : Type 0 where
  pub row_number : ℕ
  pub supplier_sku : Option Text
  pub description : Option Text
  pub price : Option Decimal
  pub pack_size : Option Text
  pub issues : List ValidationIssue

abbrev pub is_error : IssueSeverity → Bool
is_error error = true
is_error warning = false

unfoldable pub has_error : List ValidationIssue → Bool
has_error [] = false
has_error (i ∷ issues) = is_error i.severity || has_error issues

unfoldable pub is_valid : ValidatedRow → Bool
unfolding has_error
is_valid row = not (has_error row.issues)

-- `text or None`
abbrev pub filled : Text → Option Text
filled [] = none
filled (c ∷ t) = some (c ∷ t)

-- `(row.get(field) or "").strip() or None`
unfoldable pub stripped_field : Option Text → Option Text
unfolding strip
stripped_field none = none
stripped_field (some t) = filled (strip t)

-- `raw is None or str(raw).strip() == ""`
abbrev pub is_blank : Option Text → Bool
is_blank none = true
is_blank (some raw) = is_empty (strip raw)

-- `str(raw).replace(",", "").replace("R", "")`
abbrev pub drop_marks : Text → Text
drop_marks = filter λ c. not (c == b',' || c == b'R')

-- The result of `_parse_price`: no price, a price, or the issue.
pub data ParsedPrice : Type 0 where
  no_value malformed : ParsedPrice
  value : Decimal → ParsedPrice

abbrev pub price_or_issue : Option Decimal → ParsedPrice
price_or_issue none = malformed
price_or_issue (some price) = value price

unfoldable pub parse_price : Option Text → ParsedPrice
unfolding parse_decimal strip
parse_price none = no_value
parse_price (some raw) =
    if is_empty (strip raw)
    then no_value
    else price_or_issue (parse_decimal (strip (drop_marks raw)))

abbrev pub issue : ℕ → String → IssueSeverity → IssueMessage → List ValidationIssue
issue idx field severity message =
    record { row_number = idx; field = field; severity = severity; message = message } ∷ []

abbrev pub issue_if_missing : Option Text → List ValidationIssue → List ValidationIssue
issue_if_missing none issues = issues
issue_if_missing (some t) issues = []

unfoldable pub price_issues : ℕ → ParsedPrice → List ValidationIssue
price_issues idx no_value = issue idx "price" error missing_price
price_issues idx malformed = issue idx "price" error malformed_price
price_issues idx (value price) =
    if ltb_ℤ price (pos 0)
    then issue idx "price" error negative_price
    else if eqb_ℤ price (pos 0)
    then issue idx "price" warning zero_price
    else []

abbrev pub duplicate_issues : ℕ → Option ℕ → List ValidationIssue
duplicate_issues idx none = []
duplicate_issues idx (some first) = issue idx "supplier_sku" error (duplicate_sku first)

-- `seen_skus.get(sku)`
unfoldable pub first_seen : List (Text × ℕ) → Text → Option ℕ
unfolding eq_text
first_seen [] sku = none
first_seen ((key, idx) ∷ seen) sku = if eq_text key sku then some idx else first_seen seen sku

abbrev pub sku_issues : ℕ → List (Text × ℕ) → Option Text → List ValidationIssue
sku_issues idx seen none = []
sku_issues idx seen (some sku) = duplicate_issues idx (first_seen seen sku)

-- `seen_skus[sku] = idx` where the SKU is new.
abbrev pub remember : ℕ → Text → Option ℕ → List (Text × ℕ) → List (Text × ℕ)
remember idx sku none seen = (sku, idx) ∷ seen
remember idx sku (some first) seen = seen

unfoldable pub remember_sku : ℕ → List (Text × ℕ) → Option Text → List (Text × ℕ)
unfolding first_seen
remember_sku idx seen none = seen
remember_sku idx seen (some sku) = remember idx sku (first_seen seen sku) seen

abbrev pub value_of : ParsedPrice → Option Decimal
value_of (value price) = some price
value_of _ = none

-- The body of the loop.
unfoldable pub validate_row : ℕ → List (Text × ℕ) → MappedRow → ValidatedRow
unfolding stripped_field parse_price price_issues first_seen
validate_row idx seen row =
    let sku = stripped_field row.supplier_sku in
    let description = stripped_field row.description in
    let pack_size = stripped_field row.pack_size in
    let price = parse_price row.price in
    record {
      row_number = idx;
      supplier_sku = sku;
      description = description;
      price = value_of price;
      pack_size = pack_size;
      issues =
          issue_if_missing sku (issue idx "supplier_sku" error missing_identifier)
          ++ issue_if_missing description (issue idx "description" error missing_description)
          ++ price_issues idx price
          ++ sku_issues idx seen sku
          ++ issue_if_missing pack_size (issue idx "pack_size" warning missing_pack_size);
    }

unfoldable pub validate_from : ℕ → List (Text × ℕ) → List MappedRow → List ValidatedRow
unfolding validate_row remember_sku
validate_from idx seen [] = []
validate_from idx seen (row ∷ rows) =
    validate_row idx seen row
    ∷ validate_from (suc idx) (remember_sku idx seen (stripped_field row.supplier_sku)) rows

unfoldable pub validate_rows : List MappedRow → List ValidatedRow
unfolding validate_from
validate_rows = validate_from 1 []

pub record IssueSummary : Type 0 where
  pub total_rows : ℕ
  pub valid_rows : ℕ
  pub errors : ℕ
  pub warnings : ℕ

abbrev pub count_issues : (IssueSeverity → Bool) → List ValidatedRow → ℕ
count_issues p [] = 0
count_issues p (row ∷ rows) = length (filter (λ i. p i.severity) row.issues) + count_issues p rows

unfoldable pub summarize_issues : List ValidatedRow → IssueSummary
unfolding is_valid
summarize_issues rows = record {
  total_rows = length rows;
  valid_rows = length (filter is_valid rows);
  errors = count_issues is_error rows;
  warnings = count_issues (λ s. not (is_error s)) rows;
}

-- `[mapped_rows[i] for i, v in enumerate(validated) if v.is_valid]`
unfoldable pub staged_rows : List MappedRow → List ValidatedRow → List MappedRow
unfolding is_valid
staged_rows [] validated = []
staged_rows (row ∷ rows) [] = []
staged_rows (row ∷ rows) (v ∷ validated) =
    let rest = staged_rows rows validated in if is_valid v then row ∷ rest else rest

-- What `run_matching` finds in the column of prices of a staged row.
abbrev pub number_or_unreadable : Option Decimal → PriceCell
number_or_unreadable none = unreadable
number_or_unreadable (some price) = number price

unfoldable pub cell_of : Option Text → PriceCell
unfolding parse_decimal
cell_of none = no_price
cell_of (some raw) = if is_empty raw then no_price else number_or_unreadable (parse_decimal raw)

unfoldable pub read_row : MappedRow → StagedRow
unfolding cell_of
read_row row = record {
  supplier_sku = row.supplier_sku;
  barcode = row.barcode;
  description = row.description;
  pack_size = row.pack_size;
  price = cell_of row.price;
}
