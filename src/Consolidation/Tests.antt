-- ===== src/Consolidation/Tests.antt =====
-- Runs of the scans, the reviews and the graph, and the theorems at concrete inputs.
use procure_foundation.Prelude.{ℕ, ◌≡◌, ◌+◌, ◌≤◌, refl, none, some, List, [], ◌∷◌, length, All}
use procure_foundation.Result.{ok, err, unknown_supplier, invalid_consolidation_transition}
use procure_foundation.Decimal.{decimal}
use procure_foundation.Matching.Text.{Text, codes, str_of}
use procure_foundation.Matching.Scorer.{fuzzy}
use procure_foundation.Matching.Normalize.{normalize_description}
use procure_foundation.Consolidation.Model.{
  SupplierConsolidationFlag, ConsolidationStatus, mark_under_review, recommend_consolidation,
  reject, review_consolidation_flag,
}
use procure_foundation.Consolidation.Review.{Review, reviews, reviews_left, reviews_bound}
use procure_foundation.Consolidation.Graph.{
  SupplierInput, ConsolidationFlagInput, DomainGraph, supplier_by_id,
  build_supplier_consolidation_graph,
}
use procure_foundation.Consolidation.Graph.Closed.{
  HasSuppliers, IsClosed, build_supplier_consolidation_graph-IsClosed,
}
use procure_foundation.Consolidation.Scan.{
  Row, scan_supplier_for_duplicate_skus, scan_for_supplier_consolidation,
}
use procure_foundation.Consolidation.Scan.Again.{scan-again}

abbrev flag : SupplierConsolidationFlag
flag = record {
  id = 1;
  public_id = "f1";
  supplier_a_id = 3;
  supplier_b_id = 4;
  description_a = codes "Milk 2L";
  description_b = codes "Milk 2 l";
  similarity_score = 9100;
  combined_spend = none;
  match_method = fuzzy;
  status = ConsolidationStatus.flagged;
  review_notes = none;
  reviewed_by_user_id = none;
  reviewed_at = none;
}

abbrev twice : List Review
twice =
    record { user_id = 7; now = 100; action = mark_under_review; notes = none }
    ∷ record { user_id = 8; now = 120; action = reject; notes = some "too far away" }
    ∷ []

abbrev decided : SupplierConsolidationFlag
decided = record flag {
  status = ConsolidationStatus.rejected;
  review_notes = some "too far away";
  reviewed_by_user_id = some 8;
  reviewed_at = some 120;
}

both_succeed : reviews twice flag ≡ ok decided
unfolding review_consolidation_flag
both_succeed = refl

a_decision_is_final :
    review_consolidation_flag 7 130 recommend_consolidation none decided
    ≡ err invalid_consolidation_transition
unfolding review_consolidation_flag
a_decision_is_final = refl

reviews_bound_example : length twice + reviews_left decided.status ≤ reviews_left flag.status
reviews_bound_example = reviews_bound twice flag both_succeed

abbrev suppliers : List SupplierInput
suppliers =
    record { id = 3; public_id = "s3"; name = "North" }
    ∷ record { id = 4; public_id = "s4"; name = "South" }
    ∷ []

abbrev edge_flag : ConsolidationFlagInput
edge_flag = record {
  supplier_a_id = 3;
  supplier_b_id = 4;
  similarity_score = decimal 91 2;
  combined_spend = some (decimal 500 0);
  status = ConsolidationStatus.flagged;
  match_method = fuzzy;
}

abbrev edge_flags : List ConsolidationFlagInput
edge_flags = edge_flag ∷ edge_flag ∷ []

known : All (HasSuppliers suppliers) edge_flags
unfolding supplier_by_id
known = (((_, refl), (_, refl)), (((_, refl), (_, refl)), tt))

build_supplier_consolidation_graph-IsClosed_example :
    (g : DomainGraph) × (build_supplier_consolidation_graph suppliers edge_flags ≡ ok g)
    × IsClosed suppliers g
    × (length g.edges ≡ length edge_flags)
build_supplier_consolidation_graph-IsClosed_example =
    build_supplier_consolidation_graph-IsClosed suppliers edge_flags known

refuses_an_unknown_supplier :
    build_supplier_consolidation_graph [] edge_flags ≡ err unknown_supplier
unfolding build_supplier_consolidation_graph
refuses_an_unknown_supplier = refl

abbrev always_close : Text → Text → ℕ
always_close a b = 9000

abbrev rows : List Row
rows =
    (some (codes "A1"), codes "Milk 2L")
    ∷ (some (codes "A2"), codes "Fresh Milk 2L")
    ∷ (some (codes "A1"), codes "Milk two")
    ∷ []

flags_two_pairs : length (scan_supplier_for_duplicate_skus always_close 3 [] rows [] []).0 ≡ 2
unfolding scan_supplier_for_duplicate_skus normalize_description str_of
flags_two_pairs = refl

scan-again_example :
    let scan = scan_supplier_for_duplicate_skus always_close 3 rows rows in
    let scan_all = scan_for_supplier_consolidation always_close (3 ∷ 4 ∷ []) (λ s. rows) in
    let (found, flags', log') = scan [] [] in
    let (found_all, already', log_all) = scan_all [] [] in
    (scan flags' log' ≡ ([], flags', log')) × (scan_all already' log_all ≡ ([], already', log_all))
scan-again_example = scan-again always_close 3 rows rows [] (3 ∷ 4 ∷ []) (λ s. rows) [] []
