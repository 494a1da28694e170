-- ===== src/Graph/Document/Accepted.antt =====
-- Which documents Import accepts (internal/graph/query.go).
use interactivecodebase.Base.{
  ℕ, suc, ◌≡◌, ◌≢◌, refl, ◌⊎◌, inl, inr, String, ◌==◌, string_eq, nat_eq, true, false, ◌||◌, none,
  List, [], ◌∷◌, map, ok, arith, contains, any, All, Bool-cases, Result-cases, >>=-eq-ok, All-map,
  ◌++◌,
}
use interactivecodebase.Graph.Kinds.{node_kind_valid, edge_kind_valid}
use interactivecodebase.Graph.Model.{Node, Edge, Json, encode_attrs}
use interactivecodebase.Graph.Store.{
  Tables, has_node, upsert, insert_edge, same_key, last_id, node_row, edge_row, add_node, add_edge,
  run_script, Faults, write,
}
use interactivecodebase.Graph.Store.Integrity.{has_node-upsert}
use interactivecodebase.Graph.Query.{get_node}
use interactivecodebase.Graph.Query.Lookup.{get_node_absent, get_node_present}
use interactivecodebase.Graph.Document.{
  Document, format_version, check_end, check_ends, add_edges, add_all, import_document,
}

abbrev pub ids : List Node → List String
ids = map (λ n. n.id)

-- An end that the document lists or the graph can read.
abbrev pub IsKnown : Json → List String → Tables → String → Type 0
IsKnown j listed t end = (contains listed end ≡ true) ⊎ ((n : Node) × (get_node j end t ≡ ok n))

module _ (j : Json) (t : Tables) where
  -- The set of known ids only grows.
  abbrev Extends : List String → List String → Type 0
  Extends known known' = (k : String) → contains known k ≡ true → contains known' k ≡ true

  check_end_known :
      (i : ℕ) (end : String) (known : List String)
      → IsKnown j known t end
      → (known' : List String) × (check_end j i end t known ≡ ok known') × Extends known known'
  unfolding check_end contains
  check_end_known i end known (inl listed) = (known, rw listed, λ k h. h)
  check_end_known i end known (inr (n, found)) = elim (Bool-cases (contains known end)) [
    | inl listed ↦ (known, rw listed, λ k h. h)
    | inr new ↦ (end ∷ known, rw (new, found), λ k h. ground arith)
  ]

  IsKnown-Extends :
      (known known' : List String) (end : String)
      → Extends known known'
      → IsKnown j known t end
      → IsKnown j known' t end
  IsKnown-Extends known known' end more (inl h) = inl (more end h)
  IsKnown-Extends known known' end more (inr h) = inr h

  abbrev pub AllKnown : List String → List Edge → Type 0
  AllKnown known = All (λ e. IsKnown j known t e.from × IsKnown j known t e.to)

  AllKnown-Extends :
      (known known' : List String) (edges : List Edge)
      → Extends known known'
      → AllKnown known edges
      → AllKnown known' edges
  AllKnown-Extends known known' [] more h = tt
  AllKnown-Extends known known' (e ∷ edges) more h = (
    (IsKnown-Extends known known' e.from more h.0.0, IsKnown-Extends known known' e.to more h.0.1),
    AllKnown-Extends known known' edges more h.1,
  )

  pub check_ends_known :
      (i : ℕ) (edges : List Edge) (known : List String)
      → AllKnown known edges
      → (known' : List String) × (check_ends j i edges t known ≡ ok known')
  unfolding check_ends
  check_ends_known i [] known h = (known, refl)
  check_ends_known i (e ∷ edges) known h =
      let (k1, first, more1) = check_end_known i e.from known h.0.0 in
      let (k2, second, more2) =
        check_end_known i e.to k1 (IsKnown-Extends known k1 e.to more1 h.0.1) in
      let rest = AllKnown-Extends k1 k2 edges more2 (AllKnown-Extends known k1 edges more1 h.1) in
      let (k3, last) = check_ends_known (suc i) edges k2 rest in (k3, rw (first, second) last)

  -- An id that is neither known nor in the graph stays unknown, and as an end it is an error.
  check_end_unknown :
      (i : ℕ) (end x : String) (known known' : List String)
      → has_node x t.nodes ≡ false
      → contains known x ≡ false
      → check_end j i end t known ≡ ok known'
      → (end ≢ x) × (contains known' x ≡ false)
  unfolding check_end contains
  check_end_unknown i end x known known' absent new h =
      ground (arith, get_node_absent j x t absent, get_node_absent j end t)

  check_ends_unknown :
      (i : ℕ) (edges : List Edge) (x : String) (known known' : List String)
      → has_node x t.nodes ≡ false
      → contains known x ≡ false
      → check_ends j i edges t known ≡ ok known'
      → any (λ e. e.from == x || e.to == x) edges ≡ false
  unfolding check_ends any
  check_ends_unknown i [] x known known' absent new h = refl
  check_ends_unknown i (e ∷ edges) x known known' absent new h =
      let (k1, first, h1) = >>=-eq-ok (check_end j i e.from t known) _ h in
      let (k2, second, h2) = >>=-eq-ok (check_end j i e.to t k1) _ h1 in
      let (ne1, new1) = check_end_unknown i e.from x known k1 absent new first in
      let (ne2, new2) = check_end_unknown i e.to x k1 k2 absent new1 second in
      let rest = check_ends_unknown (suc i) edges x k2 known' absent new2 h2 in ground arith

  -- A document with an edge that names a node which is neither listed nor in the graph is refused,
  -- and the graph is unchanged.
  pub import_document-unknown_end :
      (f : Faults j) (doc : Document) (x : String)
      → contains (ids doc.nodes) x ≡ false
      → has_node x t.nodes ≡ false
      → any (λ e. e.from == x || e.to == x) doc.edges ≡ true
      → ((import_document j f (ok doc) t).0 ≢ []) × ((import_document j f (ok doc) t).1 ≡ t)
  unfolding import_document
  import_document-unknown_end f doc x new absent named =
      elim (Result-cases (check_ends j 0 doc.edges t (ids doc.nodes))) [
        | inl (e, refused) ↦ ground arith
        | inr (known, passed) ↦
            let clean = check_ends_unknown 0 doc.edges x (ids doc.nodes) known absent new passed in
            absurd (ground arith)
      ]

module _ (j : Json) where
  -- The database reports nothing.
  abbrev pub no_faults : Faults j
  no_faults = record {
    begin_tx = none;
    prepare_node = none;
    prepare_edge = none;
    commit = none;
    rollback = none;
  }

  -- What the writer checks of a node and of an edge.
  abbrev pub IsValidNode : Node → Type 0
  IsValidNode n =
      (n.id ≢ "")
      × (node_kind_valid n.kind ≡ true)
      × ((s : String) × (encode_attrs j n.attrs ≡ ok s))

  abbrev pub IsValidEdge : Edge → Type 0
  IsValidEdge e = (edge_kind_valid e.kind ≡ true) × ((s : String) × (encode_attrs j e.attrs ≡ ok s))

  abbrev pub HasBoth : Tables → Edge → Type 0
  HasBoth t e = (has_node e.from t.nodes ≡ true) × (has_node e.to t.nodes ≡ true)

  add_node_valid :
      (n : Node) (t : Tables)
      → IsValidNode n
      → (s : String) × (add_node j n t ≡ ok (record t { nodes = upsert (node_row n s) t.nodes }))
  unfolding add_node
  add_node_valid n t (named, known, (s, coded)) = (s, ground arith)

  add_edge_valid :
      (e : Edge) (t : Tables)
      → IsValidEdge e
      → HasBoth t e
      → (t' : Tables) × (add_edge j e t ≡ ok t') × (t'.nodes ≡ t.nodes)
  unfolding add_edge insert_edge
  add_edge_valid e t (known, (s, coded)) ends =
      elim (Bool-cases (any (same_key (edge_row e s)) t.edges)) [
        | inl old ↦ (t, ground arith, refl)
        | inr new ↦ (
          record t { edges = t.edges ++ record (edge_row e s) { id = suc (last_id t.edges) } ∷ [] },
          ground arith,
          refl,
        )
      ]

  add_edges_valid :
      (edges : List Edge) (t : Tables)
      → All IsValidEdge edges
      → All (HasBoth t) edges
      → (run_script j (add_edges j edges) t).0 ≡ none
  unfolding run_script add_edges
  add_edges_valid [] t v h = refl
  add_edges_valid (e ∷ edges) t v h =
      let (t', added, same) = add_edge_valid e t v.0 h.0 in
      let moved : All (HasBoth t') edges =
        All-map (HasBoth t) (HasBoth t') edges (λ x b. rw same b) h.1 in
      rw (added, run_script) (add_edges_valid edges t' v.1 moved)

  -- Each end is a node that is still to be added or one that is there.
  abbrev IsComing : List Node → Tables → String → Type 0
  IsComing nodes t end = (contains (ids nodes) end ≡ true) ⊎ (has_node end t.nodes ≡ true)

  abbrev AllComing : List Node → Tables → List Edge → Type 0
  AllComing nodes t = All (λ e. IsComing nodes t e.from × IsComing nodes t e.to)

  IsComing-upsert :
      (n : Node) (nodes : List Node) (t : Tables) (s end : String)
      → IsComing (n ∷ nodes) t end
      → IsComing nodes (record t { nodes = upsert (node_row n s) t.nodes }) end
  unfolding contains
  IsComing-upsert n nodes t s end h = ground (arith, has_node-upsert end (node_row n s) t.nodes)

  add_all_valid :
      (nodes : List Node) (edges : List Edge) (t : Tables)
      → All IsValidNode nodes
      → All IsValidEdge edges
      → AllComing nodes t edges
      → (run_script j (add_all j nodes edges) t).0 ≡ none
  unfolding run_script add_all contains
  add_all_valid [] edges t vn ve h =
      add_edges_valid edges t ve (All-map _ (HasBoth t) edges (λ e b. ground arith) h)
  add_all_valid (n ∷ nodes) edges t vn ve h =
      let (s, added) = add_node_valid n t vn.0 in
      let t' : Tables = record t { nodes = upsert (node_row n s) t.nodes } in
      let moved : AllComing nodes t' edges =
        All-map _ _ edges
          (λ e b. (IsComing-upsert n nodes t s e.from b.0, IsComing-upsert n nodes t s e.to b.1))
          h in
      rw (added, run_script) (add_all_valid nodes edges t' vn.1 ve moved)

  IsComing-of_IsKnown :
      (nodes : List Node) (t : Tables) (end : String)
      → IsKnown j (ids nodes) t end
      → IsComing nodes t end
  IsComing-of_IsKnown nodes t end (inl listed) = inl listed
  IsComing-of_IsKnown nodes t end (inr (n, found)) = inr (get_node_present j end t n found)

  -- A document of valid nodes and edges, each end of which is listed or can be read from the graph,
  -- is imported without an error when the database reports none.
  pub import_document_valid :
      (doc : Document) (t : Tables)
      → (doc.version ≡ 0) ⊎ (doc.version ≡ format_version)
      → All IsValidNode doc.nodes
      → All IsValidEdge doc.edges
      → AllKnown j t (ids doc.nodes) doc.edges
      → import_document j no_faults (ok doc) t
        ≡ ([], (run_script j (add_all j doc.nodes doc.edges) t).1)
  unfolding import_document write
  import_document_valid doc t version vn ve h =
      let (known, passed) = check_ends_known j t 0 doc.edges (ids doc.nodes) h in
      let coming : AllComing doc.nodes t doc.edges =
        All-map _ _ doc.edges
          (λ e b.
            (IsComing-of_IsKnown doc.nodes t e.from b.0, IsComing-of_IsKnown doc.nodes t e.to b.1))
          h in
      ground (arith, add_all_valid doc.nodes doc.edges t vn ve coming)
