-- ===== src/PriceReview/RunMatching/Rows.antt =====
-- The line that becomes of one row of the old list.
use procure_foundation.Prelude.{
  ℕ, ◌≡◌, refl, sym, ap, ◌∙◌, subst, ◌⊎◌, inl, inr, true, Bool-cases, Option, Option-cases, none,
  some, List, [], ◌∷◌, ◌++◌, map, All, Member,
}
use procure_foundation.Result.{ok}
use procure_foundation.Decimal.{Decimal}
use procure_foundation.Matching.Text.{Text, eq_text_refl}
use procure_foundation.Matching.Scorer.{
  CandidateItem, MatchResult, MatchStatus, requires_human_review,
}
use procure_foundation.Matching.Scorer.Best.{find_best_match-IsFirstBest}
use procure_foundation.PriceReview.Calculations.{PriceReviewMatchStatus, matched}
use procure_foundation.PriceReview.Line.{PriceReviewLine}
use procure_foundation.PriceReview.RunMatching.{
  StagedRow, sku_key, candidate_of, new_by_sku, get_row, Normalized, is_no_candidate, status_of,
  pair_with, match_row, is_matched_sku, best_for,
}
use procure_foundation.PriceReview.RunMatching.Index.{
  IsEntry, IsKey, new_by_sku-IsEntry, new_by_sku-IsKey, get_row-ok,
}
use procure_foundation.PriceReview.RunMatching.Prices.{IsReadable, normalize-ok, price_of-ok}

-- A line with a SKU on its new side.
abbrev pub HasNewSku : PriceReviewLine → Type 0
HasNewSku line = (sku : Text) × (line.new_supplier_sku ≡ some sku)

-- A row with a SKU.
abbrev pub HasSku : StagedRow → Type 0
HasSku row = (sku : Text) × (row.supplier_sku ≡ some sku)

-- The line of an old row: it has the row's columns, and either is discontinued and has no new side,
-- or has the SKU and the description of a row of the new list.
abbrev pub IsLineOf : List StagedRow → StagedRow → PriceReviewLine → Type 0
IsLineOf new_rows row line =
    (line.old_supplier_sku ≡ row.supplier_sku)
    × (line.old_description ≡ row.description)
    × (((line.match_status ≡ PriceReviewMatchStatus.discontinued) × (line.new_supplier_sku ≡ none))
        ⊎ (new_row : StagedRow) × Member new_row new_rows
          × ((line.match_status ≡ matched)
              ⊎ (line.match_status ≡ PriceReviewMatchStatus.review_required))
          × (line.new_supplier_sku ≡ new_row.supplier_sku)
          × (line.new_description ≡ new_row.description))

Member-append-left : {A : Type 0} (x : A) (before after : List A) → Member x (before ++ (x ∷ after))
Member-append-left x [] after = inl refl
Member-append-left x (y ∷ before) after = inr (Member-append-left x before after)

Member-map :
    (item : CandidateItem) (rows : List StagedRow)
    → Member item (map candidate_of rows)
    → (row : StagedRow) × Member row rows × (item ≡ candidate_of row)
Member-map item [] m = absurd m
Member-map item (row ∷ rows) (inl e) = (row, inl refl, e)
Member-map item (row ∷ rows) (inr m) =
    let (found, n, e) = Member-map item rows m in (found, inr n, e)

-- A match is with a row of the new list.
best_for-Member :
    (score : Text → Text → ℕ) (new_rows : List StagedRow) (row : StagedRow) (key : Text)
    → (best_for score new_rows row).new_key ≡ some key
    → (new_row : StagedRow) × Member new_row new_rows × (sku_key new_row.supplier_sku ≡ key)
best_for-Member score new_rows row key h =
    elim (find_best_match-IsFirstBest score (candidate_of row) (map candidate_of new_rows)) [
      | inl (_, e) ↦ let unmatched = ap (λ r. r.new_key) e in cc
      | inr (best, b, _, e) ↦
          let same : some best.key ≡ some key = sym (ap (λ r. r.new_key) e) ∙ h in
          let m : Member best (map candidate_of new_rows) =
            rw (b.splits) (Member-append-left best b.before b.after) in
          let (new_row, n, is_best) = Member-map best new_rows m in
          let named : best.key ≡ sku_key new_row.supplier_sku = ap (λ i. i.key) is_best in
          (new_row, n, cc)
    ]

pub All-Member : {A : Type 0} (P : A → Type 0) (x : A) (xs : List A) → All P xs → Member x xs → P x
All-Member P x [] h m = absurd m
All-Member P x (y ∷ ys) h (inl e) = subst P (sym e) h.0
All-Member P x (y ∷ ys) h (inr m) = All-Member P x ys h.1 m

status_of-cases :
    (status : MatchStatus)
    → (status_of status ≡ matched) ⊎ (status_of status ≡ PriceReviewMatchStatus.review_required)
status_of-cases status = elim (Bool-cases (requires_human_review status)) [
  | inl review ↦ rw review (inr refl)
  | inr automatic ↦ rw automatic (inl refl)
]

-- What may be asked of a row of the new list: a SKU and a price that can be read.
abbrev pub IsUsable : StagedRow → Type 0
IsUsable row = HasSku row × IsReadable row.price

-- The new side of a line is empty, or is counted as matched.
abbrev pub IsCounted : List Text → PriceReviewLine → Type 0
IsCounted keys line =
    (line.new_supplier_sku ≡ none) ⊎ (is_matched_sku line.new_supplier_sku keys ≡ true)

-- The line of an old row, and the keys of the new rows that it takes.
abbrev pub IsMatchedLine : List StagedRow → StagedRow → PriceReviewLine × List Text → Type 0
IsMatchedLine new_rows row (line, keys) =
    IsLineOf new_rows row line
    × All (λ key. line.new_supplier_sku ≡ some key) keys
    × IsCounted keys line

module _ (new_rows : List StagedRow) (usable : All IsUsable new_rows) where
  abbrev pub IsFound : Option Text → Type 0
  IsFound none = Unit
  IsFound (some key) =
      (new_row : StagedRow) × (get_row (new_by_sku new_rows) key ≡ ok new_row)
      × IsEntry new_rows (some key, new_row)

  pair_with-ok :
      (row : StagedRow) (price : Option Decimal) (norm : Normalized) (result : MatchResult)
      (new_key : Option Text)
      → IsFound new_key
      → (out : PriceReviewLine × List Text) × (pair_with
            (new_by_sku new_rows)
            row
            price
            norm
            result
            new_key
          ≡ ok out)
        × IsMatchedLine new_rows row out
  unfolding pair_with
  pair_with-ok row price norm result none h =
      (_, refl, ((refl, refl, inl (refl, refl)), tt, inl refl))
  pair_with-ok row price norm result (some key) (new_row, e, (same, m)) =
      elim (Bool-cases (is_no_candidate result.status)) [
        | inl none_found ↦ rw none_found (_, refl, ((refl, refl, inl (refl, refl)), tt, inl refl))
        | inr found ↦
            let readable = All-Member IsUsable new_row new_rows usable m in
            let (new_price, e1) = price_of-ok new_row.price readable.1 in
            let (new_norm, e2) = normalize-ok new_row.pack_size new_price in
            rw (found, e, e1, e2)
              (
                _,
                refl,
                (
                  (refl, refl, inr (new_row, m, status_of-cases result.status, refl, refl)),
                  (same, tt),
                  inr (rw (same, eq_text_refl key) refl),
                ),
              )
      ]

  best_for-IsFound :
      (score : Text → Text → ℕ) (row : StagedRow) → IsFound (best_for score new_rows row).new_key
  best_for-IsFound score row = elim (Option-cases (best_for score new_rows row).new_key) [
    | inl e ↦ rw e tt
    | inr (key, e) ↦
        let (new_row, m, named) = best_for-Member score new_rows row key e in
        let ((sku, at_sku), _) = All-Member IsUsable new_row new_rows usable m in
        let same : new_row.supplier_sku ≡ some key =
          at_sku ∙ ap some (sym (ap sku_key at_sku) ∙ named) in
        let listed =
          All-Member (λ r. IsKey r.supplier_sku (new_by_sku new_rows)) new_row new_rows
            (new_by_sku-IsKey new_rows) m in
        rw e (
          get_row-ok new_rows (new_by_sku new_rows) key (new_by_sku-IsEntry new_rows)
            (subst (λ k. IsKey k (new_by_sku new_rows)) same listed))
  ]

  pub match_row-ok :
      (score : Text → Text → ℕ) (row : StagedRow)
      → IsReadable row.price
      → (out : PriceReviewLine × List Text) × (match_row
            (new_by_sku new_rows)
            (best_for score new_rows row)
            row
          ≡ ok out)
        × IsMatchedLine new_rows row out
  unfolding match_row
  match_row-ok score row readable =
      let (price, e) = price_of-ok row.price readable in
      let (norm, e') = normalize-ok row.pack_size price in
      let result = best_for score new_rows row in
      rw (e, e') (pair_with-ok row price norm result result.new_key (best_for-IsFound score row))
