-- ===== src/PriceReview/RunMatching/Accounting.antt =====
-- What becomes of the rows of the two lists.
use procure_foundation.Prelude.{
  ℕ, ◌≡◌, ◌≢◌, refl, sym, subst, ◌⊎◌, inl, inr, true, false, Bool-cases, Option, none, some, List,
  [], ◌∷◌, ◌++◌, All, All-map, Member-left, Member-right,
}
use mathlib.Core.Bool.{false≢true}
use procure_foundation.Result.{ok}
use procure_foundation.Matching.Text.{Text}
use procure_foundation.PriceReview.Calculations.{PriceReviewMatchStatus}
use procure_foundation.PriceReview.Line.{PriceReviewLine}
use procure_foundation.PriceReview.RunMatching.{
  StagedRow, eq_sku, new_by_sku, new_line, is_matched_sku, new_lines, run_matching,
}
use procure_foundation.PriceReview.RunMatching.Index.{
  eq_sku→eq, IsEntry, IsKey, new_by_sku-IsEntry, new_by_sku-IsKey,
}
use procure_foundation.PriceReview.RunMatching.Prices.{IsReadable, normalize-ok, price_of-ok}
use procure_foundation.PriceReview.RunMatching.Rows.{HasNewSku, IsUsable, IsCounted, All-Member}
use procure_foundation.PriceReview.RunMatching.Lines.{AreLinesOf, IsOn, IsOn-later, match_rows-ok}

-- A line for a new row: it is a new product, its SKU is not among the keys, and it has no old side.
abbrev IsNewLine : List Text → PriceReviewLine → Type 0
IsNewLine keys line =
    (line.match_status ≡ PriceReviewMatchStatus.new_product)
    × (line.old_supplier_sku ≡ none)
    × HasNewSku line
    × (is_matched_sku line.new_supplier_sku keys ≡ false)

new_lines-ok :
    (new_rows : List StagedRow) (keys : List Text) (entries : List (Option Text × StagedRow))
    → All IsUsable new_rows
    → All (IsEntry new_rows) entries
    → (added : List PriceReviewLine) × (new_lines keys entries ≡ ok added)
      × All (IsNewLine keys) added
      × All (λ entry. (is_matched_sku entry.0 keys ≡ true) ⊎ IsOn added entry.0) entries
unfolding new_lines
new_lines-ok new_rows keys [] usable h = ([], refl, tt, tt)
new_lines-ok new_rows keys ((sku, row) ∷ entries) usable h =
    let (added, e, new, on) = new_lines-ok new_rows keys entries usable h.1 in
    let (at_sku, m) = h.0 in
    let ((text, has), readable) = All-Member IsUsable row new_rows usable m in
    elim (Bool-cases (is_matched_sku sku keys)) [
      | inl taken ↦ rw taken (added, e, new, (inl refl, on))
      | inr left ↦
          let (price, e1) = price_of-ok row.price readable in
          let (norm, e2) = normalize-ok row.pack_size price in
          let line = new_line row price norm in
          rw (left, e1, e2, e)
            (
              line ∷ added,
              refl,
              ((refl, refl, (text, has), rw at_sku left), new),
              (
                inr (line, inl refl, at_sku),
                All-map
                    (λ entry (k : (is_matched_sku entry.0 keys ≡ true) ⊎ IsOn added entry.0).
                      elim k [ inl i ↦ inl i | inr o ↦ inr (IsOn-later line added entry.0 o) ])
                    entries on,
              ),
            )
    ]

-- A SKU that is among the keys is on one of the lines that took them.
is_matched_sku-IsOn :
    (lines : List PriceReviewLine) (sku : Option Text) (keys : List Text)
    → All (λ key. IsOn lines (some key)) keys
    → is_matched_sku sku keys ≡ true
    → IsOn lines sku
is_matched_sku-IsOn lines sku [] h e = absurd (false≢true e)
is_matched_sku-IsOn lines sku (key ∷ keys) h e = elim (Bool-cases (eq_sku sku (some key))) [
  | inl same ↦ subst (IsOn lines) (sym (eq_sku→eq sku (some key) same)) h.0
  | inr other ↦ is_matched_sku-IsOn lines sku keys h.1 (rw other at e)
]

IsOn-append-left :
    (before after : List PriceReviewLine) (sku : Option Text)
    → IsOn before sku
    → IsOn (before ++ after) sku
IsOn-append-left before after sku (line, m, e) = (line, Member-left line before after m, e)

IsOn-append-right :
    (before after : List PriceReviewLine) (sku : Option Text)
    → IsOn after sku
    → IsOn (before ++ after) sku
IsOn-append-right before after sku (line, m, e) = (line, Member-right line before after m, e)

IsKey-IsOn :
    (lines added : List PriceReviewLine) (keys : List Text) (sku : Option Text)
    (entries : List (Option Text × StagedRow))
    → All (λ key. IsOn lines (some key)) keys
    → All (λ entry. (is_matched_sku entry.0 keys ≡ true) ⊎ IsOn added entry.0) entries
    → IsKey sku entries
    → IsOn (lines ++ added) sku
IsKey-IsOn lines added keys sku [] ons h k = absurd k
IsKey-IsOn lines added keys sku (entry ∷ entries) ons h (inl here) = elim h.0 [
  | inl taken ↦
      IsOn-append-left lines added sku
        (subst (IsOn lines) here (is_matched_sku-IsOn lines entry.0 keys ons taken))
  | inr new ↦ IsOn-append-right lines added sku (subst (IsOn added) here new)
]
IsKey-IsOn lines added keys sku (entry ∷ entries) ons h (inr later) =
    IsKey-IsOn lines added keys sku entries ons h.1 later

-- The two kinds of line share no SKU.
counted-new-apart :
    (keys : List Text) (line new : PriceReviewLine)
    → IsCounted keys line
    → IsNewLine keys new
    → line.new_supplier_sku ≢ new.new_supplier_sku
counted-new-apart keys line new (inl empty) (_, _, (sku, has), _) same = cc
counted-new-apart keys line new (inr counted) (_, _, _, left) same =
    let moved : is_matched_sku new.new_supplier_sku keys ≡ true = rw same at counted in cc

-- The lines of a review: one for each old row, in order, and then those of new products.
abbrev pub IsReviewOf :
    List StagedRow → List StagedRow → List PriceReviewLine → List PriceReviewLine → Type 0
IsReviewOf old_rows new_rows lines added =
    AreLinesOf new_rows old_rows lines
    × All
        (λ new.
          (new.match_status ≡ PriceReviewMatchStatus.new_product)
          × (new.old_supplier_sku ≡ none)
          × All (λ line. line.new_supplier_sku ≢ new.new_supplier_sku) lines)
        added
    × All (λ row. IsOn (lines ++ added) row.supplier_sku) new_rows

-- Where every price is empty or a number and every new row has a SKU, the matching raises nothing,
-- whatever the description scores are. It gives one line for each old row, in the order of the old
-- list, with the row's SKU and description, which is discontinued or has the SKU and description of
-- a row of the new list; and then lines of new products, whose SKUs are on no line of an old row.
-- Every SKU of the new list is on one of these lines.
pub run_matching-accounts :
    (description_score : Text → Text → ℕ) (old_rows new_rows : List StagedRow)
    → All (λ row. IsReadable row.price) old_rows
    → All IsUsable new_rows
    → (lines : List PriceReviewLine) × (added : List PriceReviewLine) × (run_matching
          description_score old_rows new_rows
        ≡ ok (lines ++ added))
      × IsReviewOf old_rows new_rows lines added
unfolding run_matching
run_matching-accounts description_score old_rows new_rows readable usable =
    let ((lines, keys), e, (are, ons, counted)) =
      match_rows-ok description_score new_rows old_rows usable readable in
    let entries = new_by_sku new_rows in
    let (added, e', news, on) =
      new_lines-ok new_rows keys entries usable (new_by_sku-IsEntry new_rows) in
    (
      lines,
      added,
      rw (e, e') refl,
      (
        are,
        All-map
            (λ new (n : IsNewLine keys new). (
              n.0,
              n.1,
              All-map (λ line (c : IsCounted keys line). counted-new-apart keys line new c n) lines
                  counted,
            ))
            added news,
        All-map
            (λ row (k : IsKey row.supplier_sku entries).
              IsKey-IsOn lines added keys row.supplier_sku entries ons on k)
            new_rows (new_by_sku-IsKey new_rows),
      ),
    )
