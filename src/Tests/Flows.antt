-- ===== src/Tests/Flows.antt =====
-- The flow trees (internal/flow) of the sample.
use interactivecodebase.Graph.Query.{Neighbor}
use interactivecodebase.Base.{
  ◌≡◌, subst, inl, inr, In, All-In, Bool-cases, Result, ok-inj, ◌≤◌, ◌+◌, refl, ◌==◌, if◌then◌else◌,
  List, [], ◌∷◌, map, ok, All,
}
use mathlib.Core.List.{Perm}
use interactivecodebase.Base.Ints.{atoi}
use interactivecodebase.Graph.Model.{Node, Edge}
use interactivecodebase.Graph.Kinds.{calls}
use interactivecodebase.Graph.Reader.{Reader}
use interactivecodebase.Flow.Tree.{Step, step, nil, plain, visit, children, id_of}
use interactivecodebase.Flow.Branches.{branch_le, group_parallel}
use interactivecodebase.Flow.Branches.Grouped.{group_parallel-perm}
use interactivecodebase.Flow.Build.{Options, prune_sinks, with_defaults, build}
use interactivecodebase.Flow.Build.Depth.{build_depth}
use interactivecodebase.Flow.Build.Pruned.{IsCoherent, IsKept, build-IsKept}
use interactivecodebase.Tests.Sample.{get, node_of, edge_of_sample}
use interactivecodebase.Base.{String, err, string_eq, nat_eq, contains, any}
use interactivecodebase.Base.Text.{has_prefix, split}
use interactivecodebase.Graph.Model.{no_pos, attr, not_found, GraphError}
use interactivecodebase.Flow.Tree.{cons, no_edge, is_sink}
use interactivecodebase.Flow.Branches.{fill}
use interactivecodebase.Flow.Build.{
  expand_handlers, expand, shallow, descend, expand_calls, add_tables, mark_lead, count_call, runs,
}

abbrev call_in : String → String → Step
call_in branch id =
    step
      (plain (node_of id "func" []) (record {
        id = 0;
        from = "h";
        to = id;
        kind = calls;
        pos = no_pos;
        attrs = ("parallel", "g") ∷ ("branch", branch) ∷ [];
      }))
      nil

abbrev two_branches : List Step
two_branches = call_in "2" "a" ∷ call_in "1" "b" ∷ []

by_branch : map id_of (group_parallel two_branches) ≡ "b" ∷ "a" ∷ []
unfolding group_parallel any string_eq attr fill interactivecodebase.Flow.Branches.outline contains
    interactivecodebase.Base.Sort.sort_by interactivecodebase.Flow.Branches.members
    interactivecodebase.Base.keep branch_le interactivecodebase.Flow.Branches.compare_branch atoi
    nat_eq native.Mathlib.Decide.ℕ_discrete interactivecodebase.Base.Ints.int_compare
by_branch = refl

group_parallel-perm_example : Perm (group_parallel two_branches) two_branches
group_parallel-perm_example = group_parallel-perm two_branches ((λ h. cc), ((λ h. cc), tt))

abbrev sinks : Options
sinks = record { method = ""; max_depth = 0; prune = prune_sinks }

abbrev route_node : Node
route_node = node_of "r" "route" get

abbrev handler : Node
handler = node_of "h" "func" []

abbrev sink : Node
sink = node_of "s" "sink.sql" []

abbrev reporter : Node
reporter = node_of "m" "func" []

abbrev stored : Node
stored = node_of "t" "sql_table" []

abbrev handled : Edge
handled = edge_of_sample 1 "r" "h" "handled_by"

abbrev read : Edge
read = edge_of_sample 2 "h" "s" "calls"

abbrev asked : Edge
asked = edge_of_sample 3 "s" "t" "queries"

abbrev reported : Edge
reported = edge_of_sample 4 "h" "m" "calls"

-- A graph of one route: its handler reads a table, and calls a function that reaches no sink.
abbrev site : Reader
site = record {
  node = λ id.
      if id == "r"
      then ok route_node
      else if id == "h"
      then ok handler
      else if id == "m"
      then ok reporter
      else if id == "s"
      then ok sink
      else if id == "t"
      then ok stored
      else err (not_found id);
  nodes = λ kinds. ok [];
  adjacent = λ id dir kinds.
      if id == "r"
      then ok (record { edge = handled; node = handler } ∷ [])
      else if id == "h"
      then ok
          (record { edge = reported; node = reporter } ∷ record { edge = read; node = sink } ∷ [])
      else if id == "s"
      then ok (record { edge = asked; node = stored } ∷ [])
      else ok [];
}

abbrev tree : Step
tree = step (plain route_node no_edge) (
    cons
      (step (plain handler handled)
        (cons (step (plain sink read) (cons (step (plain stored asked) nil) nil)) nil))
      nil)

built : build site "r" sinks ≡ ok tree
unfolding build expand_handlers expand shallow descend expand_calls add_tables mark_lead count_call
    runs group_parallel fill with_defaults string_eq nat_eq contains is_sink has_prefix attr any
    split native.Mathlib.Decide.ℕ_discrete
built = refl

root_read : site.node "r" ≡ ok route_node
unfolding string_eq
root_read = refl

build_depth_example :
    All (λ v. v.1 ≤ (if sinks.max_depth == 0 then 16 else sinks.max_depth) + 1) (visit 0 tree)
build_depth_example = build_depth site "r" sinks tree built

abbrev IsThere : Neighbor → Type 0
IsThere nb = site.node nb.node.id ≡ ok nb.node

handler-IsThere : IsThere (record { edge = handled; node = handler })
unfolding string_eq
handler-IsThere = refl

called-IsThere :
    IsThere (record { edge = reported; node = reporter })
    × IsThere (record { edge = read; node = sink })
unfolding string_eq
called-IsThere = (refl, refl)

table-IsThere : IsThere (record { edge = asked; node = stored })
unfolding string_eq
table-IsThere = refl

some_of :
    (all nbs : List Neighbor) (nb : Neighbor)
    → All IsThere all
    → ◌≡◌ {A = Result GraphError (List Neighbor)} (ok all) (ok nbs)
    → In nb nbs
    → IsThere nb
some_of all nbs nb there h m = All-In IsThere nb nbs (subst (All IsThere) (ok-inj h) there) m

site-IsCoherent : IsCoherent site
site-IsCoherent id dir kinds nbs nb h m = elim (Bool-cases (id == "r")) [
  | inl r ↦
      some_of (record { edge = handled; node = handler } ∷ []) nbs nb (handler-IsThere, tt)
        (rw r at h) m
  | inr not_r ↦ elim (Bool-cases (id == "h")) [
    | inl is_h ↦
        some_of
          (record { edge = reported; node = reporter } ∷ record { edge = read; node = sink } ∷ [])
          nbs nb (called-IsThere.0, (called-IsThere.1, tt)) (rw (not_r, is_h) at h) m
    | inr not_h ↦ elim (Bool-cases (id == "s")) [
      | inl is_s ↦
          some_of (record { edge = asked; node = stored } ∷ []) nbs nb (table-IsThere, tt)
            (rw (not_r, not_h, is_s) at h) m
      | inr not_s ↦ some_of [] nbs nb tt (rw (not_r, not_h, not_s) at h) m
    ]
  ]
]

build-IsKept_example : All (IsKept site (with_defaults route_node sinks).method) (children tree)
build-IsKept_example =
    build-IsKept site "r" sinks route_node tree site-IsCoherent refl root_read built
