-- ===== src/Consolidation/Scan/Again.antt =====
-- Scans run again on what an earlier scan has left.
use procure_foundation.Prelude.{
  ℕ, ◌≡◌, refl, ap, inl, inr, Bool, true, false, Bool-cases, Option, Option-cases, none, some, List,
  [], ◌∷◌, ◌++◌, map, All, All-map, arith, ◌==◌, if◌then◌else◌,
}
use procure_foundation.Matching.Text.{Text, eq_text_refl}
use procure_foundation.Matching.Scorer.{CandidateItem}
use procure_foundation.Consolidation.Scan.{
  DuplicateSkuFlag, Row, is_flagged, unless_flagged, new_flags, pairs_of, candidates_from,
  distinct_sku_descriptions, ScanAudit, duplicate_candidate, duplicate_descriptions, flagged_of,
  scan_supplier_for_duplicate_skus, consolidation_candidate, consolidation_descriptions,
  supplier_pairs, scan_for_supplier_consolidation,
}

is_flagged_head : (p : Text × Text) (ps : List (Text × Text)) → is_flagged (p ∷ ps) p ≡ true
unfolding is_flagged
is_flagged_head (a, b) ps = rw (eq_text_refl a, eq_text_refl b) refl

is_flagged-cons :
    (x p : Text × Text) (ps : List (Text × Text))
    → is_flagged ps p ≡ true
    → is_flagged (x ∷ ps) p ≡ true
unfolding is_flagged
is_flagged-cons (c, d) (a, b) ps h = ground (arith, h)

is_flagged-right :
    (xs ys : List (Text × Text)) (p : Text × Text)
    → is_flagged ys p ≡ true
    → is_flagged (xs ++ ys) p ≡ true
is_flagged-right [] ys p h = h
is_flagged-right (x ∷ xs) ys p h = is_flagged-cons x p (xs ++ ys) (is_flagged-right xs ys p h)

module _ {Pair Flag : Type 0} (descriptions : Flag → Text × Text)
    (candidate : Pair → Option Flag) where
  abbrev IsCoveredBy : List (Text × Text) → Option Flag → Type 0
  IsCoveredBy already none = Unit
  IsCoveredBy already (some flag) = is_flagged already (descriptions flag) ≡ true

  abbrev IsCovered : List (Text × Text) → Pair → Type 0
  IsCovered already pair = IsCoveredBy already (candidate pair)

  cons-IsCoveredBy :
      (x : Text × Text) (already : List (Text × Text)) (c : Option Flag)
      → IsCoveredBy already c
      → IsCoveredBy (x ∷ already) c
  cons-IsCoveredBy x already none h = tt
  cons-IsCoveredBy x already (some flag) h = is_flagged-cons x (descriptions flag) already h

  new_flags-none :
      (already : List (Text × Text)) (pairs : List Pair)
      → All (IsCovered already) pairs
      → new_flags descriptions candidate already pairs ≡ []
  unfolding new_flags
  new_flags-none already [] h = refl
  new_flags-none already (pair ∷ pairs) h = elim (Option-cases (candidate pair)) [
    | inl e ↦ rw e (new_flags-none already pairs h.1)
    | inr (flag, e) ↦
        let k : is_flagged already (descriptions flag) ≡ true = rw e at h.0 in
        rw (e, k) (new_flags-none already pairs h.1)
  ]

  abbrev after : List (Text × Text) → List Pair → List (Text × Text)
  after already pairs = map descriptions (new_flags descriptions candidate already pairs) ++ already

  -- What a flag leaves covered: its own pair, and the pairs that were covered.
  abbrev KeepsCovered : List (Text × Text) → Option Flag → List Pair → List Flag → Type 0
  KeepsCovered already c pairs flags =
      let all = map descriptions flags ++ already in IsCoveredBy all c × All (IsCovered all) pairs

  cover_if :
      (already : List (Text × Text)) (flag : Flag) (rest : List Flag) (pairs : List Pair) (b : Bool)
      → is_flagged already (descriptions flag) ≡ b
      → All (IsCovered (map descriptions rest ++ already)) pairs
      → KeepsCovered already (some flag) pairs (if b then rest else flag ∷ rest)
  cover_if already flag rest pairs true old h =
      (is_flagged-right (map descriptions rest) already (descriptions flag) old, h)
  cover_if already flag rest pairs false new h =
      let all = map descriptions rest ++ already in
      (
        is_flagged_head (descriptions flag) all,
        All-map
            (λ p (k : IsCovered all p). cons-IsCoveredBy (descriptions flag) all (candidate p) k)
            pairs h,
      )

  cover_step :
      (already : List (Text × Text)) (c : Option Flag) (rest : List Flag) (pairs : List Pair)
      → All (IsCovered (map descriptions rest ++ already)) pairs
      → KeepsCovered already c pairs (unless_flagged descriptions candidate already c rest)
  cover_step already none rest pairs h = (tt, h)
  cover_step already (some flag) rest pairs h =
      cover_if already flag rest pairs (is_flagged already (descriptions flag)) refl h

  after-IsCovered :
      (already : List (Text × Text)) (pairs : List Pair)
      → All (IsCovered (after already pairs)) pairs
  unfolding new_flags
  after-IsCovered already [] = tt
  after-IsCovered already (pair ∷ pairs) =
      cover_step already (candidate pair) (new_flags descriptions candidate already pairs) pairs
        (after-IsCovered already pairs)

  pub new_flags-again :
      (already : List (Text × Text)) (pairs : List Pair)
      → new_flags descriptions candidate
          (map descriptions (new_flags descriptions candidate already pairs) ++ already)
          pairs
        ≡ []
  new_flags-again already pairs =
      new_flags-none (after already pairs) pairs (after-IsCovered already pairs)

  -- A property that candidates have, new flags have.
  new_flags-All :
      (P : Flag → Type 0)
      → ((pair : Pair) (flag : Flag) → candidate pair ≡ some flag → P flag)
      → (already : List (Text × Text)) (pairs : List Pair)
      → All P (new_flags descriptions candidate already pairs)
  unfolding new_flags
  new_flags-All P keep already [] = tt
  new_flags-All P keep already (pair ∷ pairs) =
      let rest = new_flags-All P keep already pairs in
      elim (Option-cases (candidate pair)) [
        | inl e ↦ rw e rest
        | inr (flag, e) ↦ elim (Bool-cases (is_flagged already (descriptions flag))) [
          | inl old ↦ rw (e, old) rest
          | inr new ↦ rw (e, new) (keep pair flag e, rest)
        ]
      ]

module _ (description_score : Text → Text → ℕ) where
  candidate_supplier :
      (supplier_id : ℕ) (pair : CandidateItem × CandidateItem) (flag : DuplicateSkuFlag)
      → duplicate_candidate description_score supplier_id pair ≡ some flag
      → flag.supplier_id ≡ supplier_id
  unfolding duplicate_candidate
  candidate_supplier supplier_id (item_a, item_b) flag h = ground arith

  -- The flags of the supplier are the new ones and those of before.
  flagged_of-append :
      (supplier_id : ℕ) (found flags : List DuplicateSkuFlag)
      → All (λ flag. flag.supplier_id ≡ supplier_id) found
      → flagged_of description_score supplier_id (found ++ flags)
        ≡ map (duplicate_descriptions description_score) found
          ++ flagged_of description_score supplier_id flags
  flagged_of-append supplier_id [] flags h = refl
  flagged_of-append supplier_id (flag ∷ found) flags h =
      let same : (flag.supplier_id == supplier_id) ≡ true = ground arith in
      rw same (
        ap (◌∷◌ (duplicate_descriptions description_score flag))
          (flagged_of-append supplier_id found flags h.1))

-- For every way to score descriptions: a scan of a supplier for duplicate SKUs, run again on the
-- same rows and on the flags that it has left, finds nothing, and changes neither the flags nor the
-- audit log; so does a scan for consolidation.
pub scan-again :
    (description_score : Text → Text → ℕ) (supplier_id : ℕ) (invoice_rows txn_rows : List Row)
    (flags : List DuplicateSkuFlag) (suppliers : List ℕ) (items_by_supplier : ℕ → List Row)
    (already : List (Text × Text)) (log : List ScanAudit)
    → let scan =
        scan_supplier_for_duplicate_skus description_score supplier_id invoice_rows txn_rows in
      let scan_all =
        scan_for_supplier_consolidation description_score suppliers items_by_supplier in
      let (found, flags', log') = scan flags log in
      let (found_all, already', log_all) = scan_all already log in
      (scan flags' log' ≡ ([], flags', log'))
      × (scan_all already' log_all ≡ ([], already', log_all))
unfolding scan_supplier_for_duplicate_skus scan_for_supplier_consolidation
scan-again description_score supplier_id invoice_rows txn_rows flags suppliers items_by_supplier
      already log =
    let candidate = duplicate_candidate description_score supplier_id in
    let descriptions = duplicate_descriptions description_score in
    let pairs = pairs_of (candidates_from 0 (distinct_sku_descriptions invoice_rows txn_rows)) in
    let old = flagged_of description_score supplier_id flags in
    let found = new_flags descriptions candidate old pairs in
    let ours =
      new_flags-All descriptions candidate _ (candidate_supplier description_score supplier_id) old
        pairs in
    let none_new = new_flags-again descriptions candidate old pairs in
    (
      rw (flagged_of-append description_score supplier_id found flags ours, none_new) refl,
      rw
          (new_flags-again (consolidation_descriptions description_score)
            (consolidation_candidate description_score) already
            (supplier_pairs description_score items_by_supplier (pairs_of suppliers)))
          refl,
    )
