-- ===== src/Tests/Totals.antt =====
-- Counts of what is in the sample: nodes and edges by kind (internal/graph/query.go), and the lines of the
-- text of a flow (internal/flow/text.go).
use interactivecodebase.Base.{
  ◌<>◌, refl, [], String, ◌≡◌, ◌==◌, string_eq, nat_eq, map, keep, length,
}
use interactivecodebase.Flow.Tree.{Step, step, nil, cons, plain, no_edge}
use interactivecodebase.Flow.Text.{write_text, write_child}
use interactivecodebase.Graph.Query.Counts.{counts, count_of, counts_lem}
use interactivecodebase.Tests.Sample.{shop, node_of}

two_functions :
    count_of (counts shop).nodes "func"
    ≡ length (keep (λ j. j == "func") (map (λ r. r.kind) shop.nodes))
two_functions = (counts_lem shop "func").0

abbrev quote : String → String
quote s = "\"" <> (s <> "\"")

abbrev chain : Step
chain = step (plain (node_of "route:GET /" "route" []) no_edge) (
    cons
      (step (plain (node_of "func:app.list" "func" []) no_edge)
        (cons (step (plain (node_of "sink:app.list" "sink.sql" []) no_edge) nil) nil))
      nil)

chain_lines : length (write_text quote chain) ≡ 3
unfolding write_text write_child
chain_lines = refl
