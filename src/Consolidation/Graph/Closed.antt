-- ===== src/Consolidation/Graph/Closed.antt =====
-- The nodes and the edges of the graph of the consolidation flags.
use Prim.Native.String.{String}
use procure_foundation.Prelude.{
  ℕ, ◌+◌, ◌≡◌, refl, sym, ap, ◌∙◌, inl, inr, true, false, ◌||◌, Bool-cases, some, List, [], ◌∷◌,
  ◌++◌, length, length-append, append_one, All, All-map, All-append, Member, arith, ◌==◌,
}
use procure_foundation.Result.{ok}
use procure_foundation.Consolidation.Graph.{
  SupplierInput, ConsolidationFlagInput, GraphNode, GraphEdge, DomainGraph, supplier_by_id,
  contains_id, supplier_node, Seen, add_node, edge_of, graph_from,
  build_supplier_consolidation_graph,
}

module _ (suppliers : List SupplierInput) where
  -- The seen suppliers are known and all different, and the nodes are theirs, in that order.
  abbrev pub AreNodes : List ℕ → List GraphNode → Type 0
  AreNodes [] [] = Unit
  AreNodes [] (n ∷ ns) = ⊥
  AreNodes (i ∷ ids) [] = ⊥
  AreNodes (i ∷ ids) (n ∷ ns) =
      ((s : SupplierInput) × (supplier_by_id suppliers i ≡ some s) × (n ≡ supplier_node s))
      × AreNodes ids ns

  abbrev pub IsNew : ℕ → List ℕ → Type 0
  IsNew i ids = contains_id ids i ≡ false

  AreNodes-append :
      (ids : List ℕ) (ns : List GraphNode) (i : ℕ) (s : SupplierInput)
      → supplier_by_id suppliers i ≡ some s
      → AreNodes ids ns
      → AreNodes (append_one ids i) (append_one ns (supplier_node s))
  AreNodes-append [] [] i s e h = ((s, e, refl), tt)
  AreNodes-append [] (n ∷ ns) i s e h = absurd h
  AreNodes-append (j ∷ ids) [] i s e h = absurd h
  AreNodes-append (j ∷ ids) (n ∷ ns) i s e h = (h.0, AreNodes-append ids ns i s e h.1)

  -- A seen supplier has its node.
  seen-node :
      (ids : List ℕ) (ns : List GraphNode) (i : ℕ) (s : SupplierInput)
      → supplier_by_id suppliers i ≡ some s
      → AreNodes ids ns
      → contains_id ids i ≡ true
      → Member (supplier_node s) ns
  seen-node [] ns i s e h c = cc
  seen-node (j ∷ ids) [] i s e h c = absurd h
  seen-node (j ∷ ids) (n ∷ ns) i s e h c = elim (Bool-cases (j == i)) [
    | inl same ↦
        let (t, k, is_node) = h.0 in
        let ji : j ≡ i = ground arith in
        let st : s ≡ t = cc in inl (ap supplier_node st ∙ sym is_node)
    | inr differs ↦ inr (seen-node ids ns i s e h.1 (rw differs at c))
  ]

  abbrev pub AreDistinct : List ℕ → Type 0
  AreDistinct [] = Unit
  AreDistinct (i ∷ ids) = IsNew i ids × AreDistinct ids

  contains_id-append :
      (ids : List ℕ) (i j : ℕ) → contains_id (append_one ids i) j ≡ (contains_id ids j || i == j)
  contains_id-append [] i j = ground arith
  contains_id-append (k ∷ ids) i j = rw (contains_id-append ids i j) (ground arith)

  AreDistinct-append :
      (ids : List ℕ) (i : ℕ) → IsNew i ids → AreDistinct ids → AreDistinct (append_one ids i)
  AreDistinct-append [] i new h = (refl, tt)
  AreDistinct-append (j ∷ ids) i new h =
      let apart : ((j == i) ≡ false) × (contains_id ids i ≡ false) = ground arith in
      (rw (contains_id-append ids i j) (ground arith), AreDistinct-append ids i apart.1 h.1)

  abbrev pub HasNode : List GraphNode → String → Type 0
  HasNode ns public_id = (n : GraphNode) × Member n ns × (n.id ≡ public_id)

  abbrev pub IsBetween : List GraphNode → GraphEdge → Type 0
  IsBetween ns e = HasNode ns e.source_id × HasNode ns e.target_id

  Member-left : (n : GraphNode) (ns ms : List GraphNode) → Member n ns → Member n (ns ++ ms)
  Member-left n [] ms m = absurd m
  Member-left n (k ∷ ns) ms (inl e) = inl e
  Member-left n (k ∷ ns) ms (inr m) = inr (Member-left n ns ms m)

  Member-right : (n : GraphNode) (ns : List GraphNode) → Member n (append_one ns n)
  Member-right n [] = inl refl
  Member-right n (k ∷ ns) = inr (Member-right n ns)

  abbrev IsGrown : Seen → Seen → Type 0
  IsGrown old new = (n : GraphNode) → Member n old.nodes → Member n new.nodes

  abbrev AreSeen : Seen → Type 0
  AreSeen seen = AreNodes seen.seen_supplier_ids seen.nodes × AreDistinct seen.seen_supplier_ids

  add_node_lem :
      (i : ℕ) (s : SupplierInput) (seen : Seen)
      → supplier_by_id suppliers i ≡ some s
      → AreSeen seen
      → let new = add_node s i seen in
        AreSeen new × Member (supplier_node s) new.nodes × IsGrown seen new
  add_node_lem i s seen e h = elim (Bool-cases (contains_id seen.seen_supplier_ids i)) [
    | inl old ↦ rw old (h, seen-node seen.seen_supplier_ids seen.nodes i s e h.0 old, λ n m. m)
    | inr new ↦ rw new (
      (
        AreNodes-append seen.seen_supplier_ids seen.nodes i s e h.0,
        AreDistinct-append seen.seen_supplier_ids i new h.1,
      ),
      Member-right (supplier_node s) seen.nodes,
      λ n m. Member-left n seen.nodes (supplier_node s ∷ []) m,
    )
  ]

  abbrev pub IsKnown : ℕ → Type 0
  IsKnown i = (s : SupplierInput) × (supplier_by_id suppliers i ≡ some s)

  abbrev pub HasSuppliers : ConsolidationFlagInput → Type 0
  HasSuppliers flag = IsKnown flag.supplier_a_id × IsKnown flag.supplier_b_id

  -- The nodes are those of different suppliers, and the edges lie between nodes.
  abbrev pub IsClosed : DomainGraph → Type 0
  IsClosed g =
      ((ids : List ℕ) × AreDistinct ids × AreNodes ids g.nodes) × All (IsBetween g.nodes) g.edges

  HasNode-grown :
      (old new : Seen) (public_id : String)
      → IsGrown old new
      → HasNode old.nodes public_id
      → HasNode new.nodes public_id
  HasNode-grown old new public_id grown (n, m, e) = (n, grown n m, e)

  graph_from_lem :
      (seen : Seen) (edges : List GraphEdge) (flags : List ConsolidationFlagInput)
      → AreSeen seen
      → All (IsBetween seen.nodes) edges
      → All HasSuppliers flags
      → (g : DomainGraph) × (graph_from suppliers seen edges flags ≡ ok g)
        × IsClosed g
        × (length g.edges ≡ length edges + length flags)
  unfolding graph_from
  graph_from_lem seen edges [] h between known =
      (_, refl, ((seen.seen_supplier_ids, h.1, h.0), between), omega arith)
  graph_from_lem seen edges (flag ∷ flags) h between known =
      let (a, ea) = known.0.0 in
      let (b, eb) = known.0.1 in
      let with_a = add_node a flag.supplier_a_id seen in
      let with_b = add_node b flag.supplier_b_id with_a in
      let (seen_a, node_a, grown_a) = add_node_lem flag.supplier_a_id a seen ea h in
      let (seen_b, node_b, grown_b) = add_node_lem flag.supplier_b_id b with_a eb seen_a in
      let grown : IsGrown seen with_b = λ n m. grown_b n (grown_a n m) in
      let kept : All (IsBetween with_b.nodes) edges =
        All-map
          (λ x (k : IsBetween seen.nodes x).
            (HasNode-grown seen with_b _ grown k.0, HasNode-grown seen with_b _ grown k.1))
          edges between in
      let edge = edge_of a b flag in
      let new : IsBetween with_b.nodes edge =
        ((supplier_node a, grown_b _ node_a, refl), (supplier_node b, node_b, refl)) in
      let (g, e, closed, count) =
        graph_from_lem with_b (append_one edges edge) flags seen_b
          (All-append (IsBetween with_b.nodes) edges _ kept (new, tt)) known.1 in
      (g, rw (ea, eb) e, closed, omega (arith, length-append edges (edge ∷ [])))

-- Where the suppliers of all flags are in the list, the graph is built: it has one edge for each
-- flag, each edge joins two nodes of the graph, and the nodes are those of different suppliers.
pub build_supplier_consolidation_graph-IsClosed :
    (suppliers : List SupplierInput) (flags : List ConsolidationFlagInput)
    → All (HasSuppliers suppliers) flags
    → (g : DomainGraph) × (build_supplier_consolidation_graph suppliers flags ≡ ok g)
      × IsClosed suppliers g
      × (length g.edges ≡ length flags)
unfolding build_supplier_consolidation_graph
build_supplier_consolidation_graph-IsClosed suppliers flags known =
    let (g, e, closed, count) =
      graph_from_lem suppliers (record { nodes = []; seen_supplier_ids = [] }) [] flags (tt, tt) tt
        known in
    (g, e, closed, omega (arith, count))
