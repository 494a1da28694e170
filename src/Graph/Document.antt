-- ===== src/Graph/Document.antt =====
-- The JSON document of Export and Import (internal/graph/query.go). Reading and writing JSON text is
-- encoding/json's, so the model starts and ends at the decoded document.
pub mod Accepted
pub mod Rows
pub mod RoundTrip
use interactivecodebase.Base.{
  ℕ, zero, suc, String, ◌==◌, string_eq, nat_eq, Bool, true, false, ◌||◌, Option, none, some, List,
  [], ◌∷◌, ◌++◌, map, Result, ok, err, ◌>>=◌, contains, leb, if◌then◌else◌,
}
use interactivecodebase.Base.Sort.{sort_by}
use interactivecodebase.Graph.Model.{
  Node, Edge, GraphError, not_found, unsupported_version, unknown_node, Json,
}
use interactivecodebase.Graph.Store.{Tables, Script, return, node, edge, Faults, write}
use interactivecodebase.Graph.Query.{scan_all, scan_edge, get_node, get_nodes, no_filter}

-- `FormatVersion`
abbrev pub format_version : ℕ
format_version = 1

pub record Document : Type 0 where
  pub version : ℕ
  pub nodes : List Node
  pub edges : List Edge

module _ (j : Json) where
  -- `Graph.Export`, up to the encoder: edges ORDER BY e.id.
  unfoldable pub export_document : Tables → Result GraphError Document
  export_document t = do
    nodes ← get_nodes j no_filter t
    edges ← scan_all (scan_edge j) (sort_by (λ a b. leb a.id b.id) t.edges)
    ok (record { version = format_version; nodes = nodes; edges = edges })

  -- One end of the edge at index `i`: it must be in the document or in the graph.
  unfoldable pub check_end : ℕ → String → Tables → List String → Result GraphError (List String)
  check_end i end t known = if contains known end then ok known else elim (get_node j end t) [
    | ok n ↦ ok (end ∷ known)
    | err (not_found id) ↦ err (unknown_node i end)
    | err e ↦ err e
  ]

  -- The loop over `doc.Edges`.
  unfoldable pub check_ends : ℕ → List Edge → Tables → List String → Result GraphError (List String)
  check_ends i [] t known = ok known
  check_ends i (e ∷ edges) t known = do
    known' ← check_end i e.from t known
    known'' ← check_end i e.to t known'
    check_ends (suc i) edges t known''

  -- The callback of `Write`: the first error ends it.
  unfoldable pub add_edges : List Edge → Script j
  add_edges [] = return none
  add_edges (e ∷ edges) =
      edge e (λ failed. elim failed [ none ↦ add_edges edges | some x ↦ return (some x) ])

  unfoldable pub add_all : List Node → List Edge → Script j
  add_all [] edges = add_edges edges
  add_all (n ∷ nodes) edges =
      node n (λ failed. elim failed [ none ↦ add_all nodes edges | some x ↦ return (some x) ])

  -- `Graph.Import`, from the decoder's result on.
  unfoldable pub import_document :
      Faults j → Result GraphError Document → Tables → List GraphError × Tables
  import_document f (err e) t = (e ∷ [], t)
  import_document f (ok doc) t =
      if doc.version == 0 || doc.version == format_version
      then (elim (check_ends 0 doc.edges t (map (λ n. n.id) doc.nodes)) [
        | err e ↦ (e ∷ [], t)
        | ok known ↦ write j f (add_all doc.nodes doc.edges) t
      ])
      else (unsupported_version doc.version ∷ [], t)
