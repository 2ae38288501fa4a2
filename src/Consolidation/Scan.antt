-- ===== src/Consolidation/Scan.antt =====
-- The scans of backend/app/services/duplicate_detection_service.py for duplicate SKUs of one
-- supplier and for consolidation among suppliers. The rows of the two queries of
-- `_distinct_sku_descriptions` are arguments; public ids and creation times are left out.
pub mod Again
use procure_foundation.Prelude.{
  ℕ, suc, Bool, true, false, not, ◌&&◌, ◌||◌, ◌==◌, ltb, Option, none, some, List, [], ◌∷◌, ◌++◌,
  map, filter, length, if◌then◌else◌,
}
use procure_foundation.Matching.Text.{Text, eq_text, is_empty, str_of}
use procure_foundation.Matching.Scorer.{
  MatchMethod, sku, CandidateItem, review_recommended_threshold, score_pair,
}

pub data DuplicateStatus : Type 0 where
  flagged confirmed_duplicate rejected : DuplicateStatus

pub record DuplicateSkuFlag : Type 0 where
  pub supplier_id : ℕ
  pub sku_a : Option Text
  pub description_a : Text
  pub sku_b : Option Text
  pub description_b : Text
  pub similarity_score : ℕ
  pub match_method : MatchMethod
  pub status : DuplicateStatus
  pub reviewed_by_user_id : Option ℕ
  pub reviewed_at : Option ℕ

pub record NewConsolidationFlag : Type 0 where
  pub supplier_a_id : ℕ
  pub supplier_b_id : ℕ
  pub description_a : Text
  pub description_b : Text
  pub similarity_score : ℕ
  pub match_method : MatchMethod

-- A row: an SKU, if there is one, and a description.
abbrev pub Row : Type 0
Row = Option Text × Text

abbrev with_description : List Row → List Row
with_description = filter λ row. not (is_empty row.1)

abbrev first_or : List Row → List Row → List Row
first_or [] rows = rows
first_or (row ∷ rest) rows = row ∷ rest

-- The rows of the invoices, or of the transactions where no invoice has any.
unfoldable pub distinct_sku_descriptions : List Row → List Row → List Row
distinct_sku_descriptions invoice_rows txn_rows =
    first_or (with_description invoice_rows) (with_description txn_rows)

-- `frozenset((a, b)) in already_flagged`
unfoldable pub is_flagged : List (Text × Text) → Text × Text → Bool
unfolding eq_text
is_flagged [] (a, b) = false
is_flagged ((c, d) ∷ pairs) (a, b) =
    (eq_text a c && eq_text b d) || (eq_text a d && eq_text b c) || is_flagged pairs (a, b)

-- The loop over the pairs: a candidate is a flag unless its descriptions are flagged already.
module _ {Pair Flag : Type 0} (descriptions : Flag → Text × Text)
    (candidate : Pair → Option Flag) where
  abbrev pub unless_flagged : List (Text × Text) → Option Flag → List Flag → List Flag
  unless_flagged already none rest = rest
  unless_flagged already (some flag) rest =
      if is_flagged already (descriptions flag) then rest else flag ∷ rest

  unfoldable pub new_flags : List (Text × Text) → List Pair → List Flag
  unfolding is_flagged
  new_flags already [] = []
  new_flags already (pair ∷ pairs) =
      unless_flagged already (candidate pair) (new_flags already pairs)

abbrev is_sku : MatchMethod → Bool
is_sku sku = true
is_sku _ = false

-- `item_a.supplier_sku and item_a.supplier_sku == item_b.supplier_sku`
abbrev same_sku : Option Text → Option Text → Bool
same_sku (some s) (some t) = not (is_empty s) && eq_text s t
same_sku _ _ = false

abbrev pub row_item : Text → Row → CandidateItem
row_item key (code, description) = record {
  key = key;
  supplier_sku = code;
  barcode = none;
  description = description;
}

-- `str(i)` for each item
abbrev pub candidates_from : ℕ → List Row → List CandidateItem
candidates_from i [] = []
candidates_from i (row ∷ rows) = row_item (str_of i) row ∷ candidates_from (suc i) rows

-- Every item with each later one.
unfoldable pub pairs_of {ℓ} : {A : Type ℓ} → List A → List (A × A)
pairs_of [] = []
pairs_of (x ∷ xs) = map (λ y. (x, y)) xs ++ pairs_of xs

-- Every item of the first list with each one of the second.
unfoldable pub product_of {ℓ} : {A : Type ℓ} → List A → List A → List (A × A)
product_of [] ys = []
product_of (x ∷ xs) ys = map (λ y. (x, y)) ys ++ product_of xs ys

-- Who records what in the audit log after a scan that finds something.
pub data ScanAudit : Type 0 where
  duplicate_sku_scan_flagged : ℕ → ℕ → ScanAudit
  supplier_consolidation_scan_flagged : ℕ → ScanAudit

abbrev audit_if_any {ℓ} : {A : Type ℓ} → List A → (ℕ → ScanAudit) → List ScanAudit → List ScanAudit
audit_if_any [] entry log = log
audit_if_any (x ∷ xs) entry log = entry (length (x ∷ xs)) ∷ log

module _ (combined_description_score : Text → Text → ℕ) where
  unfoldable pub duplicate_candidate : ℕ → CandidateItem × CandidateItem → Option DuplicateSkuFlag
  unfolding score_pair eq_text
  duplicate_candidate supplier_id (item_a, item_b) =
      let (score, method) = score_pair combined_description_score item_a item_b in
      if same_sku item_a.supplier_sku item_b.supplier_sku
      then none
      else if ltb score review_recommended_threshold || is_sku method
      then none
      else some (record {
        supplier_id = supplier_id;
        sku_a = item_a.supplier_sku;
        description_a = item_a.description;
        sku_b = item_b.supplier_sku;
        description_b = item_b.description;
        similarity_score = score;
        match_method = method;
        status = flagged;
        reviewed_by_user_id = none;
        reviewed_at = none;
      })

  abbrev pub duplicate_descriptions : DuplicateSkuFlag → Text × Text
  duplicate_descriptions flag = (flag.description_a, flag.description_b)

  -- The descriptions of the flags of this supplier.
  abbrev pub flagged_of : ℕ → List DuplicateSkuFlag → List (Text × Text)
  flagged_of supplier_id flags =
      map duplicate_descriptions (filter (λ flag. flag.supplier_id == supplier_id) flags)

  -- The new flags, the table of flags and the audit log. With fewer than two rows there is no pair.
  unfoldable pub scan_supplier_for_duplicate_skus :
      ℕ
      → List Row
      → List Row
      → List DuplicateSkuFlag
      → List ScanAudit
      → List DuplicateSkuFlag × List DuplicateSkuFlag × List ScanAudit
  unfolding distinct_sku_descriptions new_flags duplicate_candidate pairs_of
  scan_supplier_for_duplicate_skus supplier_id invoice_rows txn_rows flags log =
      let items = distinct_sku_descriptions invoice_rows txn_rows in
      let found =
        new_flags duplicate_descriptions (duplicate_candidate supplier_id)
          (flagged_of supplier_id flags) (pairs_of (candidates_from 0 items)) in
      (found, found ++ flags, audit_if_any found (duplicate_sku_scan_flagged supplier_id) log)

  -- A row of one supplier and a row of another.
  abbrev pub SupplierRow : Type 0
  SupplierRow = ℕ × Row

  unfoldable pub consolidation_candidate : SupplierRow × SupplierRow → Option NewConsolidationFlag
  unfolding score_pair
  consolidation_candidate ((supplier_a_id, (sku_a, desc_a)), (supplier_b_id, (sku_b, desc_b))) =
      let (score, method) =
        score_pair combined_description_score (row_item (b'a' ∷ []) (sku_a, desc_a))
          (row_item (b'b' ∷ []) (sku_b, desc_b)) in
      if ltb score review_recommended_threshold
      then none
      else some (record {
        supplier_a_id = supplier_a_id;
        supplier_b_id = supplier_b_id;
        description_a = desc_a;
        description_b = desc_b;
        similarity_score = score;
        match_method = method;
      })

  abbrev pub consolidation_descriptions : NewConsolidationFlag → Text × Text
  consolidation_descriptions flag = (flag.description_a, flag.description_b)

  abbrev rows_of : (ℕ → List Row) → ℕ → List SupplierRow
  rows_of items_by_supplier supplier_id =
      map (λ row. (supplier_id, row)) (items_by_supplier supplier_id)

  -- The rows of every supplier with those of each later one.
  unfoldable pub supplier_pairs : (ℕ → List Row) → List (ℕ × ℕ) → List (SupplierRow × SupplierRow)
  unfolding product_of
  supplier_pairs items_by_supplier [] = []
  supplier_pairs items_by_supplier ((a, b) ∷ pairs) =
      product_of (rows_of items_by_supplier a) (rows_of items_by_supplier b)
      ++ supplier_pairs items_by_supplier pairs

  -- The new flags, what is flagged afterwards, and the audit log.
  unfoldable pub scan_for_supplier_consolidation :
      List ℕ
      → (ℕ → List Row)
      → List (Text × Text)
      → List ScanAudit
      → List NewConsolidationFlag × List (Text × Text) × List ScanAudit
  unfolding new_flags consolidation_candidate supplier_pairs pairs_of
  scan_for_supplier_consolidation suppliers items_by_supplier already log =
      let found =
        new_flags consolidation_descriptions consolidation_candidate already
          (supplier_pairs items_by_supplier (pairs_of suppliers)) in
      (
        found,
        map consolidation_descriptions found ++ already,
        audit_if_any found supplier_consolidation_scan_flagged log,
      )

-- `review_duplicate_sku_flag`
unfoldable pub review_duplicate_sku_flag : ℕ → ℕ → Bool → DuplicateSkuFlag → DuplicateSkuFlag
review_duplicate_sku_flag user_id now confirmed flag = record flag {
  status = if confirmed then confirmed_duplicate else rejected;
  reviewed_by_user_id = some user_id;
  reviewed_at = some now;
}
