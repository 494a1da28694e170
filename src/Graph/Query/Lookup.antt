-- ===== src/Graph/Query/Lookup.antt =====
-- Node after AddNode (internal/graph/graph.go, internal/graph/query.go).
use interactivecodebase.Base.{
  ◌≡◌, ◌≢◌, refl, String, ◌==◌, string_eq, none, some, List, [], ◌∷◌, ok, err, true, false, any,
  inl, inr, Option-cases, arith, find, if◌then◌else◌,
}
use interactivecodebase.Graph.Model.{Node, not_found, Json, ReadsBack, decode_attrs-encode_attrs}
use interactivecodebase.Graph.Store.{NodeRow, Tables, has_node, upsert, node_row, add_node}
use interactivecodebase.Graph.Store.Inversion.{add_node-eq-ok}
use interactivecodebase.Graph.Query.{scan_node, get_node}

pub find-upsert :
    (k : String) (r : NodeRow) (rows : List NodeRow)
    → find (λ s. s.id == k) (upsert r rows)
      ≡ (if r.id == k then some r else find (λ s. s.id == k) rows)
unfolding find upsert
find-upsert k r [] = refl
find-upsert k r (s ∷ rows) = ground (arith, find-upsert k r rows)

module _ (j : Json) where
  -- After AddNode has succeeded, the node reads back as it was given, every other id reads as
  -- before, and the edges are the same. The node's attributes must survive encoding/json.
  pub get_node-add_node :
      (n : Node) (t t' : Tables)
      → ReadsBack j n.attrs
      → add_node j n t ≡ ok t'
      → (get_node j n.id t' ≡ ok n)
        × ((k : String) → k ≢ n.id → get_node j k t' ≡ get_node j k t)
        × (t'.edges ≡ t.edges)
  unfolding get_node scan_node
  get_node-add_node n t t' back h =
      let (s, coded, _, _, e) = add_node-eq-ok j n t t' h in
      rw e (
        ground
            (arith, find-upsert n.id (node_row n s) t.nodes, decode_attrs-encode_attrs j n.attrs s),
        λ k other. ground (arith, find-upsert k (node_row n s) t.nodes),
        refl,
      )

  find_absent :
      (k : String) (rows : List NodeRow)
      → has_node k rows ≡ false
      → find (λ s. s.id == k) rows ≡ none
  unfolding find has_node any
  find_absent k [] h = refl
  find_absent k (r ∷ rows) h = ground (arith, find_absent k rows)

  pub get_node_absent :
      (k : String) (t : Tables) → has_node k t.nodes ≡ false → get_node j k t ≡ err (not_found k)
  unfolding get_node
  get_node_absent k t h = rw (find_absent k t.nodes h, get_node)

  find_present :
      (k : String) (rows : List NodeRow) (r : NodeRow)
      → find (λ s. s.id == k) rows ≡ some r
      → has_node k rows ≡ true
  unfolding find has_node any
  find_present k [] r h = cc
  find_present k (s ∷ rows) r h = ground (arith, find_present k rows r)

  pub get_node_present :
      (k : String) (t : Tables) (n : Node) → get_node j k t ≡ ok n → has_node k t.nodes ≡ true
  unfolding get_node
  get_node_present k t n h = elim (Option-cases (find (λ s. s.id == k) t.nodes)) [
    | inl e ↦ absurd (ground arith)
    | inr (r, e) ↦ find_present k t.nodes r e
  ]
