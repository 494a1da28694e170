-- ===== src/Views/Routes.antt =====
-- The routes that reach each table (internal/views/views.go, TableRoutes).
use interactivecodebase.Base.{
  ℕ, String, ◌==◌, string_eq, nat_eq, Bool, ◌&&◌, List, [], ◌∷◌, ◌++◌, ltb, any, Result, ok, ◌>>=◌,
  if◌then◌else◌,
}
use interactivecodebase.Base.Text.{text_le}
use interactivecodebase.Base.Sort.{sort_by}
use interactivecodebase.Graph.Kinds.{route, sql_table}
use interactivecodebase.Graph.Model.{Node, attr}
use interactivecodebase.Graph.Reader.{Reader}
use interactivecodebase.Flow.Tree.{Step, info, visit}
use interactivecodebase.Flow.Build.{Options, prune_sinks, FlowError, in_graph, build}

pub record TableRoute : Type 0 where
  pub route_name : String
  pub op : String

abbrev pub TableRoutes : Type 0
TableRoutes = List (String × List TableRoute)

-- By file, then by line, then by id.
unfoldable pub registered_le : Node → Node → Bool
registered_le a b =
    if a.pos.file == b.pos.file
    then (if a.pos.start_line == b.pos.start_line
        then text_le a.id b.id
        else ltb a.pos.start_line b.pos.start_line)
    else text_le a.pos.file b.pos.file

unfoldable pub add_route : String → TableRoute → TableRoutes → TableRoutes
add_route table r [] = (table, r ∷ []) ∷ []
add_route table r ((t, rs) ∷ more) =
    if t == table then (t, rs ++ r ∷ []) ∷ more else (t, rs) ∷ add_route table r more

abbrev pub was_seen : String → String → List (String × String) → Bool
was_seen table op seen = any (λ s. s.0 == table && s.1 == op) seen

-- The visits of one tree; the pairs of table and operation that were seen.
unfoldable pub add_visits :
    String → List (Step × ℕ) → List (String × String) → TableRoutes → TableRoutes
add_visits name [] seen found = found
add_visits name ((s, depth) ∷ vs) seen found =
    let table = (info s).node.name in
    let op = attr (info s).edge.attrs "op" in
    let skip = add_visits name vs seen found in
    let added =
      add_visits name vs ((table, op) ∷ seen)
        (add_route table (record { route_name = name; op = op }) found) in
    if (info s).node.kind == sql_table
    then (if was_seen table op seen then skip else added)
    else skip

abbrev pub default_options : Options
default_options = record { method = ""; max_depth = 0; prune = prune_sinks }

module _ (g : Reader) where
  unfoldable pub add_routes : List Node → TableRoutes → Result FlowError TableRoutes
  add_routes [] found = ok found
  add_routes (n ∷ ns) found = build g n.id default_options >>= λ tree.
      add_routes ns (add_visits n.name (visit 0 tree) [] found)

  -- `TableRoutes`
  unfoldable pub table_routes : Result FlowError TableRoutes
  table_routes =
      in_graph (g.nodes (route ∷ [])) >>= λ nodes. add_routes (sort_by registered_le nodes) []
