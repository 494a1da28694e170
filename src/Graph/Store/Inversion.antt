-- ===== src/Graph/Store/Inversion.antt =====
-- What a call of the writer that succeeds has checked and done (internal/graph/graph.go).
use interactivecodebase.Base.{◌≡◌, ◌≢◌, String, true, ok, arith, Result-cases, inl, inr}
use interactivecodebase.Graph.Kinds.{node_kind_valid, edge_kind_valid}
use interactivecodebase.Graph.Model.{Node, Edge, Json, encode_attrs}
use interactivecodebase.Graph.Store.{
  Tables, upsert, insert_edge, node_row, edge_row, add_node, add_edge,
}

module _ (j : Json) where
  pub add_node-eq-ok :
      (n : Node) (t t' : Tables)
      → add_node j n t ≡ ok t'
      → (s : String) × (encode_attrs j n.attrs ≡ ok s)
        × (n.id ≢ "")
        × (node_kind_valid n.kind ≡ true)
        × (t' ≡ record t { nodes = upsert (node_row n s) t.nodes })
  unfolding add_node
  add_node-eq-ok n t t' h = elim (Result-cases (encode_attrs j n.attrs)) [
    | inl (e, bad) ↦ absurd (ground arith)
    | inr (s, good) ↦ (s, good, ground arith, ground arith, ground arith)
  ]

  pub add_edge-eq-ok :
      (e : Edge) (t t' : Tables)
      → add_edge j e t ≡ ok t'
      → (s : String) × (encode_attrs j e.attrs ≡ ok s)
        × (edge_kind_valid e.kind ≡ true)
        × (insert_edge (edge_row e s) t ≡ ok t')
  unfolding add_edge
  add_edge-eq-ok e t t' h = elim (Result-cases (encode_attrs j e.attrs)) [
    | inl (x, bad) ↦ absurd (ground arith)
    | inr (s, good) ↦ (s, good, ground arith, ground arith)
  ]
