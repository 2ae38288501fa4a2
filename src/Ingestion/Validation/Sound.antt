-- ===== src/Ingestion/Validation/Sound.antt =====
-- What is known of the rows that the validation lets through.
use Prim.Native.String.{String}
use procure_foundation.Prelude.{
  ℕ, suc, ◌≡◌, ◌≢◌, refl, sym, subst, ◌∙◌, arith, inl, inr, true, false, ◌||◌, Bool-cases, Option,
  Option-cases, none, some, List, [], ◌∷◌, ◌++◌, All, All-map,
}
use procure_foundation.Prelude.Int.{pos, ltb_ℤ}
use mathlib.Core.Option.{some-injective}
use procure_foundation.Decimal.{Decimal}
use procure_foundation.Matching.Text.{Text, eq_text, eq_text_refl}
use procure_foundation.Ingestion.Validation.{
  MappedRow, error, IssueMessage, ValidationIssue, has_error, is_valid, stripped_field, ParsedPrice,
  no_value, malformed, value, parse_price, issue, issue_if_missing, price_issues, first_seen,
  sku_issues, remember_sku, validate_row, validate_from, validate_rows, staged_rows,
}

-- A SKU and a description that are not blank, and a price that is a number and not negative.
pub record IsStaged (row : MappedRow) : Type 0 where
  pub sku : Text
  pub has_sku : stripped_field row.supplier_sku ≡ some sku
  pub description : Text
  pub has_description : stripped_field row.description ≡ some description
  pub price : Decimal
  pub has_price : parse_price row.price ≡ value price
  pub not_negative : ltb_ℤ price (pos 0) ≡ false

has_error-append :
    (xs ys : List ValidationIssue) → has_error (xs ++ ys) ≡ (has_error xs || has_error ys)
unfolding has_error
has_error-append [] ys = refl
has_error-append (x ∷ xs) ys = ground (arith, has_error-append xs ys)

no_error-split :
    (xs ys : List ValidationIssue)
    → has_error (xs ++ ys) ≡ false
    → (has_error xs ≡ false) × (has_error ys ≡ false)
no_error-split xs ys h =
    let k : (has_error xs || has_error ys) ≡ false = sym (has_error-append xs ys) ∙ h in
    (ground (arith, k), ground (arith, k))

not_missing :
    (idx : ℕ) (field : String) (message : IssueMessage) (t : Option Text)
    → has_error (issue_if_missing t (issue idx field error message)) ≡ false
    → (s : Text) × (t ≡ some s)
unfolding has_error
not_missing idx field message none h = cc
not_missing idx field message (some s) h = (s, refl)

good_price :
    (idx : ℕ) (p : ParsedPrice)
    → has_error (price_issues idx p) ≡ false
    → (price : Decimal) × (p ≡ value price) × (ltb_ℤ price (pos 0) ≡ false)
unfolding has_error price_issues
good_price idx no_value h = cc
good_price idx malformed h = cc
good_price idx (value price) h = elim (Bool-cases (ltb_ℤ price (pos 0))) [
  | inl negative ↦ let k : true ≡ false = rw negative at h in cc
  | inr fine ↦ (price, refl, fine)
]

not_seen :
    (idx : ℕ) (seen : List (Text × ℕ)) (sku : Text)
    → has_error (sku_issues idx seen (some sku)) ≡ false
    → first_seen seen sku ≡ none
unfolding has_error
not_seen idx seen sku h = elim (Option-cases (first_seen seen sku)) [
  | inl e ↦ e
  | inr (first, e) ↦ let k : true ≡ false = rw e at h in cc
]

no_errors :
    (a b c d e : List ValidationIssue)
    → has_error (a ++ b ++ c ++ d ++ e) ≡ false
    → (has_error a ≡ false) × (has_error b ≡ false) × (has_error c ≡ false) × (has_error d ≡ false)
no_errors a b c d e h =
    let (abcd, _) = no_error-split (a ++ b ++ c ++ d) e h in
    let (abc, in_d) = no_error-split (a ++ b ++ c) d abcd in
    let (ab, in_c) = no_error-split (a ++ b) c abc in
    let (in_a, in_b) = no_error-split a b ab in (in_a, in_b, in_c, in_d)

-- A valid row has all that is asked, and its SKU has not been seen.
valid-IsStaged :
    (idx : ℕ) (seen : List (Text × ℕ)) (row : MappedRow)
    → is_valid (validate_row idx seen row) ≡ true
    → (staged : IsStaged row) × (first_seen seen staged.sku ≡ none)
unfolding is_valid validate_row
valid-IsStaged idx seen row h =
    let sku = stripped_field row.supplier_sku in
    let free : has_error (validate_row idx seen row).issues ≡ false = ground (arith, h) in
    let (in_a, in_b, in_c, in_d) =
      no_errors (issue_if_missing sku _) (issue_if_missing (stripped_field row.description) _)
        (price_issues idx (parse_price row.price)) (sku_issues idx seen sku) _ free in
    let (s, has_sku) = not_missing idx _ _ sku in_a in
    let (d, has_description) = not_missing idx _ _ (stripped_field row.description) in_b in
    let (price, has_price, fine) = good_price idx (parse_price row.price) in_c in
    (
      record {
        sku = s;
        has_sku = has_sku;
        description = d;
        has_description = has_description;
        price = price;
        has_price = has_price;
        not_negative = fine;
      },
      not_seen idx seen s (rw has_sku at in_d),
    )

not_other :
    (sku other : Text) → eq_text sku other ≡ false → ◌≢◌ {A = Option Text} (some sku) (some other)
not_other sku other differs e =
    let same = subst (λ t. eq_text sku t ≡ true) (some-injective sku other e) (eq_text_refl sku) in
    cc

-- A SKU that has not been seen after a row had not been seen before it, and is not the row's.
remember_sku-none :
    (idx : ℕ) (seen : List (Text × ℕ)) (sku : Option Text) (other : Text)
    → first_seen (remember_sku idx seen sku) other ≡ none
    → (first_seen seen other ≡ none) × (sku ≢ some other)
unfolding remember_sku first_seen
remember_sku-none idx seen none other h = (h, λ e. cc)
remember_sku-none idx seen (some sku) other h = elim (Option-cases (first_seen seen sku)) [
  | inl new ↦ elim (Bool-cases (eq_text sku other)) [
    | inl same ↦ let found : Option ℕ = some idx in let k : found ≡ none = rw (new, same) at h in cc
    | inr differs ↦
        let k : first_seen seen other ≡ none = rw (new, differs) at h in
        (k, λ e. not_other sku other differs e)
  ]
  | inr (first, old) ↦
      let k : first_seen seen other ≡ none = rw old at h in
      (k, λ e. let same : sku ≡ other = some-injective sku other e in cc)
]

-- No SKU of the rows, without the blanks around it, occurs twice.
abbrev pub AreDistinct : List MappedRow → Type 0
AreDistinct [] = Unit
AreDistinct (row ∷ rows) =
    All (λ other. stripped_field row.supplier_sku ≢ stripped_field other.supplier_sku) rows
    × AreDistinct rows

-- A staged row whose SKU had not been seen before.
abbrev IsNew : List (Text × ℕ) → MappedRow → Type 0
IsNew seen row = (staged : IsStaged row) × (first_seen seen staged.sku ≡ none)

staged-IsNew :
    (idx : ℕ) (seen : List (Text × ℕ)) (rows : List MappedRow)
    → let staged = staged_rows rows (validate_from idx seen rows) in
      All (IsNew seen) staged × AreDistinct staged
unfolding staged_rows validate_from
staged-IsNew idx seen [] = (tt, tt)
staged-IsNew idx seen (row ∷ rows) =
    let sku = stripped_field row.supplier_sku in
    let (news, distinct) = staged-IsNew (suc idx) (remember_sku idx seen sku) rows in
    let later = staged_rows rows (validate_from (suc idx) (remember_sku idx seen sku) rows) in
    let before : All (IsNew seen) later =
      All-map
        (λ other (n : IsNew (remember_sku idx seen sku) other).
          (n.0, (remember_sku-none idx seen sku n.0.sku n.1).0))
        later news in
    let others : All (λ other. sku ≢ stripped_field other.supplier_sku) later =
      All-map {Q = λ other. sku ≢ stripped_field other.supplier_sku}
        (λ other (n : IsNew (remember_sku idx seen sku) other) e.
          (remember_sku-none idx seen sku n.0.sku n.1).1 (e ∙ n.0.has_sku))
        later news in
    elim (Bool-cases (is_valid (validate_row idx seen row))) [
      | inl valid ↦ rw valid ((valid-IsStaged idx seen row valid, before), (others, distinct))
      | inr invalid ↦ rw invalid (before, distinct)
    ]

-- Every row that the validation stages has a SKU and a description that are not blank and a price
-- that is a number and not negative; and no two staged rows have the same SKU, the blanks around it
-- left aside.
pub validate_rows_sound :
    (rows : List MappedRow)
    → let staged = staged_rows rows (validate_rows rows) in All IsStaged staged × AreDistinct staged
unfolding validate_rows
validate_rows_sound rows =
    let (news, distinct) = staged-IsNew 1 [] rows in
    (
      All-map (λ row (n : IsNew [] row). n.0) (staged_rows rows (validate_from 1 [] rows)) news,
      distinct,
    )
