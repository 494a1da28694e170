-- ===== src/Views.antt =====
-- The ER diagram around a table (internal/views/views.go, ER).
pub mod Nearby
pub mod Drawn
pub mod Routes
use interactivecodebase.Base.{
  ℕ, zero, suc, String, ◌==◌, string_eq, Bool, true, false, not, Option, none, some, List, [], ◌∷◌,
  ◌++◌, map, contains, Result, ok, err, ◌>>=◌, if◌then◌else◌,
}
use interactivecodebase.Graph.Kinds.{sql_table, fk, has_column}
use interactivecodebase.Graph.Model.{Node, Edge, GraphError, node_id}
use interactivecodebase.Graph.Query.{Direction, Neighbor, out, into}
use interactivecodebase.Graph.Reader.{Reader}
use interactivecodebase.Mermaid.{Diagram}
use interactivecodebase.Mermaid.Er.{Table, er}

-- The set `include`, and `next`.
pub record Found : Type 0 where
  pub include : List String
  pub next : List String

unfoldable pub add_neighbors : List Neighbor → Found → Found
add_neighbors [] f = f
add_neighbors (nb ∷ nbs) f = add_neighbors nbs (
    if contains f.include nb.node.id
    then f
    else record { include = nb.node.id ∷ f.include; next = f.next ++ nb.node.id ∷ [] })

module _ (g : Reader) where
  -- The neighbours of one id, in both directions.
  unfoldable pub add_around : String → Found → Result GraphError Found
  add_around id f = g.adjacent id out (fk ∷ []) >>= λ outs.
      g.adjacent id into (fk ∷ []) >>= λ ins. ok (add_neighbors ins (add_neighbors outs f))

  unfoldable pub add_frontier : List String → Found → Result GraphError Found
  add_frontier [] f = ok f
  add_frontier (id ∷ ids) f = add_around id f >>= λ f'. add_frontier ids f'

  -- The loop over the depth.
  unfoldable pub widen : ℕ → List String → List String → Result GraphError (List String)
  widen zero include frontier = ok include
  widen (suc depth) include frontier =
      add_frontier frontier (record { include = include; next = [] }) >>= λ f.
      widen depth f.include f.next

  -- The ids of the tables to draw.
  unfoldable pub included : String → ℕ → List Node → Result GraphError (List String)
  included table depth all =
      if table == ""
      then ok (map (λ t. t.id) all)
      else (g.node (node_id sql_table table) >>= λ start.
          widen depth (node_id sql_table table ∷ []) (node_id sql_table table ∷ []))

  unfoldable pub edges_inside : List String → List Neighbor → List Edge
  edges_inside include [] = []
  edges_inside include (nb ∷ nbs) =
      let rest = edges_inside include nbs in
      if contains include nb.node.id then nb.edge ∷ rest else rest

  -- The loop over the tables.
  unfoldable pub collect : List String → List Node → Result GraphError (List Table × List Edge)
  collect include [] = ok ([], [])
  collect include (t ∷ ts) =
      let rest = collect include ts in
      if not (contains include t.id)
      then rest
      else (g.adjacent t.id out (has_column ∷ []) >>= λ cols.
          g.adjacent t.id out (fk ∷ []) >>= λ outs. rest >>= λ (tables, fks). ok (
            record { node = t; columns = map (λ c. c.node) cols } ∷ tables,
            edges_inside include outs ++ fks,
          ))

  -- `ER`
  unfoldable pub er_around : String → ℕ → Result GraphError Diagram
  er_around table depth = g.nodes (sql_table ∷ []) >>= λ all.
      included table depth all >>= λ include.
      collect include all >>= λ (tables, fks). ok (er tables fks)
