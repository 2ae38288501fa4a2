-- ===== src/PriceReview/RunMatching/Lines.antt =====
-- The lines that become of the rows of the old list.
use procure_foundation.Prelude.{
  ℕ, ◌≡◌, refl, inl, inr, true, Bool-cases, Option, some, List, [], ◌∷◌, ◌++◌, All, All-map,
  All-append, Member, arith,
}
use procure_foundation.Result.{ok}
use procure_foundation.Matching.Text.{Text}
use procure_foundation.PriceReview.Line.{PriceReviewLine}
use procure_foundation.PriceReview.RunMatching.{
  StagedRow, eq_sku, new_by_sku, match_rows, is_matched_sku, best_for,
}
use procure_foundation.PriceReview.RunMatching.Prices.{IsReadable}
use procure_foundation.PriceReview.RunMatching.Rows.{
  IsUsable, IsLineOf, IsCounted, IsMatchedLine, match_row-ok,
}

abbrev pub AreLinesOf : List StagedRow → List StagedRow → List PriceReviewLine → Type 0
AreLinesOf new_rows [] [] = Unit
AreLinesOf new_rows (row ∷ rows) (line ∷ lines) =
    IsLineOf new_rows row line × AreLinesOf new_rows rows lines
AreLinesOf new_rows _ _ = ⊥

-- One of the lines has this SKU on its new side.
abbrev pub IsOn : List PriceReviewLine → Option Text → Type 0
IsOn lines sku = (line : PriceReviewLine) × Member line lines × (line.new_supplier_sku ≡ sku)

is_matched_sku-append :
    (sku : Option Text) (before keys : List Text)
    → is_matched_sku sku keys ≡ true
    → is_matched_sku sku (before ++ keys) ≡ true
is_matched_sku-append sku [] keys h = h
is_matched_sku-append sku (key ∷ before) keys h =
    let rest = is_matched_sku-append sku before keys h in ground (arith, rest)

-- The lines of the old rows, and the keys of the new rows that they take.
abbrev pub AreMatched : List StagedRow → List StagedRow → List PriceReviewLine × List Text → Type 0
AreMatched new_rows rows (lines, keys) =
    AreLinesOf new_rows rows lines
    × All (λ key. IsOn lines (some key)) keys
    × All (IsCounted keys) lines

pub IsOn-later :
    (line : PriceReviewLine) (lines : List PriceReviewLine) (sku : Option Text)
    → IsOn lines sku
    → IsOn (line ∷ lines) sku
IsOn-later line lines sku (found, m, e) = (found, inr m, e)

IsCounted-later :
    (before keys : List Text) (line : PriceReviewLine)
    → IsCounted keys line
    → IsCounted (before ++ keys) line
IsCounted-later before keys line (inl e) = inl e
IsCounted-later before keys line (inr e) =
    inr (is_matched_sku-append line.new_supplier_sku before keys e)

is_matched_sku-left :
    (sku : Option Text) (keys after : List Text)
    → is_matched_sku sku keys ≡ true
    → is_matched_sku sku (keys ++ after) ≡ true
is_matched_sku-left sku [] after h = cc
is_matched_sku-left sku (key ∷ keys) after h = elim (Bool-cases (eq_sku sku (some key))) [
  | inl same ↦ rw same refl
  | inr other ↦ rw other (is_matched_sku-left sku keys after (rw other at h))
]

cons-AreMatched :
    (new_rows rows : List StagedRow) (row : StagedRow) (line : PriceReviewLine) (taken : List Text)
    (lines : List PriceReviewLine) (keys : List Text)
    → IsMatchedLine new_rows row (line, taken)
    → AreMatched new_rows rows (lines, keys)
    → AreMatched new_rows (row ∷ rows) (line ∷ lines, taken ++ keys)
cons-AreMatched new_rows rows row line taken lines keys (is_line, on, counted) (are, ons, counts) =
    (
      (is_line, are),
      All-append (λ key. IsOn (line ∷ lines) (some key)) taken keys
          (All-map (λ key (e : line.new_supplier_sku ≡ some key). (line, inl refl, e)) taken on)
          (All-map (λ key (o : IsOn lines (some key)). IsOn-later line lines (some key) o) keys
            ons),
      (
        elim counted [
          | inl e ↦ inl e
          | inr e ↦ inr (is_matched_sku-left line.new_supplier_sku taken keys e)
        ],
        All-map (λ l (c : IsCounted keys l). IsCounted-later taken keys l c) lines counts,
      ),
    )

pub match_rows-ok :
    (score : Text → Text → ℕ) (new_rows : List StagedRow) (rows : List StagedRow)
    → All IsUsable new_rows
    → All (λ row. IsReadable row.price) rows
    → (out : List PriceReviewLine × List Text) × (match_rows
          (new_by_sku new_rows)
          (best_for score new_rows)
          rows
        ≡ ok out)
      × AreMatched new_rows rows out
unfolding match_rows
match_rows-ok score new_rows [] usable readable = (([], []), refl, (tt, tt, tt))
match_rows-ok score new_rows (row ∷ rows) usable readable =
    let ((line, taken), e, h) = match_row-ok new_rows usable score row readable.0 in
    let ((lines, keys), e', hs) = match_rows-ok score new_rows rows usable readable.1 in
    (
      (line ∷ lines, taken ++ keys),
      rw (e, e') refl,
      cons-AreMatched new_rows rows row line taken lines keys h hs,
    )
