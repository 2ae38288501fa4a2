-- ===== src/Consolidation/Graph.antt =====
-- `build_supplier_consolidation_graph` of backend/app/analytics/domain_graph.py. The statuses and
-- methods are those of the flags; the empty metadata of a node is left out.
pub mod Closed
use Prim.Native.String.{String}
use procure_foundation.Prelude.{
  ℕ, Bool, true, false, ◌||◌, ◌==◌, Option, none, some, List, [], ◌∷◌, append_one, if◌then◌else◌,
}
use procure_foundation.Result.{Result, ok, err, unknown_supplier, ◌>>=◌}
use procure_foundation.Decimal.{Decimal}
use procure_foundation.Matching.Scorer.{MatchMethod}
use procure_foundation.Consolidation.Model.{ConsolidationStatus}

pub record SupplierInput : Type 0 where
  pub id : ℕ
  pub public_id : String
  pub name : String

pub record ConsolidationFlagInput : Type 0 where
  pub supplier_a_id : ℕ
  pub supplier_b_id : ℕ
  pub similarity_score : Decimal
  pub combined_spend : Option Decimal
  pub status : ConsolidationStatus
  pub match_method : MatchMethod

pub record GraphNode : Type 0 where
  pub id : String
  pub label : String
  pub node_type : String
  pub source : String

pub record GraphEdge : Type 0 where
  pub source_id : String
  pub target_id : String
  pub weight : Decimal
  pub similarity_score : Decimal
  pub combined_spend : Option Decimal
  pub match_method : MatchMethod
  pub status : ConsolidationStatus
  pub source : String

pub record DomainGraph : Type 0 where
  pub nodes : List GraphNode
  pub edges : List GraphEdge

-- `suppliers_by_id`: of two suppliers with one id the later one counts.
abbrev pub later_or : SupplierInput → ℕ → Option SupplierInput → Option SupplierInput
later_or s id none = if s.id == id then some s else none
later_or s id (some t) = some t

unfoldable pub supplier_by_id : List SupplierInput → ℕ → Option SupplierInput
supplier_by_id [] id = none
supplier_by_id (s ∷ suppliers) id = later_or s id (supplier_by_id suppliers id)

abbrev pub contains_id : List ℕ → ℕ → Bool
contains_id [] id = false
contains_id (i ∷ ids) id = (i == id) || contains_id ids id

abbrev pub supplier_node : SupplierInput → GraphNode
supplier_node s = record {
  id = s.public_id;
  label = s.name;
  node_type = "supplier";
  source = "suppliers";
}

-- The nodes so far and `seen_supplier_ids`.
pub record Seen : Type 0 where
  pub nodes : List GraphNode
  pub seen_supplier_ids : List ℕ

abbrev pub found : Option SupplierInput → Result SupplierInput
found none = err unknown_supplier
found (some s) = ok s

abbrev pub add_node : SupplierInput → ℕ → Seen → Seen
add_node s id seen = if contains_id seen.seen_supplier_ids id then seen else record {
  nodes = append_one seen.nodes (supplier_node s);
  seen_supplier_ids = append_one seen.seen_supplier_ids id;
}

abbrev or_score : Decimal → Option Decimal → Decimal
or_score score none = score
or_score score (some spend) = spend

abbrev pub edge_of : SupplierInput → SupplierInput → ConsolidationFlagInput → GraphEdge
edge_of a b flag = record {
  source_id = a.public_id;
  target_id = b.public_id;
  weight = or_score flag.similarity_score flag.combined_spend;
  similarity_score = flag.similarity_score;
  combined_spend = flag.combined_spend;
  match_method = flag.match_method;
  status = flag.status;
  source = "supplier_consolidation_flags";
}

-- The loop over the flags.
unfoldable pub graph_from :
    List SupplierInput → Seen → List GraphEdge → List ConsolidationFlagInput → Result DomainGraph
unfolding supplier_by_id
graph_from suppliers seen edges [] = ok (record { nodes = seen.nodes; edges = edges })
graph_from suppliers seen edges (flag ∷ flags) = do
  a ← found (supplier_by_id suppliers flag.supplier_a_id)
  let with_a = add_node a flag.supplier_a_id seen
  b ← found (supplier_by_id suppliers flag.supplier_b_id)
  let with_b = add_node b flag.supplier_b_id with_a
  graph_from suppliers with_b (append_one edges (edge_of a b flag)) flags

unfoldable pub build_supplier_consolidation_graph :
    List SupplierInput → List ConsolidationFlagInput → Result DomainGraph
unfolding graph_from
build_supplier_consolidation_graph suppliers flags =
    graph_from suppliers (record { nodes = []; seen_supplier_ids = [] }) [] flags
