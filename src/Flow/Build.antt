-- ===== src/Flow/Build.antt =====
-- Building and pruning a flow tree (internal/flow/flow.go): runs, expand, addTables and Build.
pub mod Cases
pub mod Depth
pub mod Pruned
use interactivecodebase.Base.{
  ℕ, zero, suc, ◌-◌, max, String, ◌==◌, string_eq, nat_eq, Bool, true, false, not, ◌&&◌, ◌||◌,
  Option, none, some, List, [], ◌∷◌, ◌++◌, map, any, contains, Result, ok, err, ◌>>=◌,
  if◌then◌else◌,
}
use interactivecodebase.Base.Text.{split}
use interactivecodebase.Graph.Kinds.{
  route, entry, interface_call, calls, dispatches_to, handled_by, queries,
}
use interactivecodebase.Graph.Model.{Node, Edge, GraphError, attr}
use interactivecodebase.Graph.Query.{Neighbor, out}
use interactivecodebase.Graph.Reader.{Reader}
use interactivecodebase.Flow.Tree.{
  Info, Step, step, Steps, nil, of_list, info, id_of, no_edge, plain, is_sink,
}
use interactivecodebase.Flow.Branches.{group_parallel}

pub data Prune : Type 0 where
  prune_sinks prune_module prune_none : Prune

pub record Options : Type 0 where
  pub method : String
  pub max_depth : ℕ
  pub prune : Prune

pub data FlowError : Type 0 where
  graph : GraphError → FlowError
  not_route : String → FlowError

abbrev pub in_graph : {A : Type 0} → Result GraphError A → Result FlowError A
in_graph (ok a) = ok a
in_graph (err e) = err (graph e)

-- The maps `expanded` and `leads` of the builder.
pub record Marks : Type 0 where
  pub expanded : List String
  pub leads : List String

abbrev pub Built : Type 0
Built = Result FlowError (Option Step × Marks)

abbrev pub keeps_only_sinks : Prune → Bool
keeps_only_sinks prune_sinks = true
keeps_only_sinks prune_module = false
keeps_only_sinks prune_none = false

abbrev pub keeps_all : Prune → Bool
keeps_all prune_sinks = false
keeps_all prune_module = false
keeps_all prune_none = true

-- `runs`, of the caller's and the edge's attributes.
unfoldable pub runs : String → Node → Edge → Bool
runs method caller e =
    let methods = attr e.attrs "methods" in
    if methods == "" || (method == "" || method == "ANY")
    then true
    else if contains (split b',' methods) method
    then true
    else contains (split b',' methods) "*"
      && not (contains (split b',' (attr caller.attrs "methodBranches")) method)

-- One more call site reaches a child that is there already.
unfoldable pub count_call : String → List Step → List Step
count_call id [] = []
count_call id (step i ss ∷ rest) =
    let counted : Info = record i { calls = suc (max i.calls 1) } in
    if i.node.id == id then step counted ss ∷ rest else step i ss ∷ count_call id rest

abbrev pub is_external : Node → Bool
is_external n = attr n.attrs "external" == "true" && not (n.kind == interface_call)

module _ (g : Reader) (opts : Options) where
  -- `addTables`
  unfoldable pub add_tables : Info → Result FlowError Step
  add_tables i = in_graph (g.adjacent i.node.id out (queries ∷ [])) >>= λ nbs.
      ok (step i (of_list (map (λ nb. step (plain nb.node nb.edge) nil) nbs)))

  -- The cases of the switch in `expand` before the depth limit; `none` if no case applies.
  unfoldable pub shallow : Node → Edge → List String → Marks → Option Built
  shallow n e path m =
      if contains path n.id
      then some (
          ok (
            if keeps_only_sinks opts.prune
                then none
                else some (step (record (plain n e) { cycle = true }) nil),
            m,
          ))
      else if is_sink n
      then some (add_tables (plain n e) >>= λ s. ok (some s, m))
      else if is_external n
      then some (ok (if keeps_all opts.prune then some (step (plain n e) nil) else none, m))
      else if contains m.expanded n.id
      then some (
          ok (
            if keeps_only_sinks opts.prune && not (contains m.leads n.id)
                then none
                else some (step (record (plain n e) { ref = true }) nil),
            m,
          ))
      else none

  -- What a kept child says of its caller.
  unfoldable pub mark_lead : Node → Step → Marks → Marks
  mark_lead n child m =
      if is_sink (info child).node || contains m.leads (id_of child)
      then record m { leads = n.id ∷ m.leads }
      else m

  -- The loop over the neighbours: the children so far, and the marks.
  unfoldable pub expand_calls :
      (Node → Edge → List String → Marks → Built)
      → Node
      → List String
      → List Neighbor
      → List Step
      → Marks
      → Result FlowError (List Step × Marks)
  expand_calls expand_one n path [] kids m = ok (kids, m)
  expand_calls expand_one n path (nb ∷ nbs) kids m =
      let skip = expand_calls expand_one n path nbs kids m in
      let counted = expand_calls expand_one n path nbs (count_call nb.node.id kids) m in
      if not (runs opts.method n nb.edge)
      then skip
      else if any (λ c. id_of c == nb.node.id) kids
      then counted
      else (expand_one nb.node nb.edge path m >>= λ (child, m'). elim child [
        | none ↦ expand_calls expand_one n path nbs kids m'
        | some s ↦ expand_calls expand_one n path nbs (kids ++ s ∷ []) (mark_lead n s m')
      ])

  -- After the switch: mark, walk the calls, prune, and group.
  unfoldable pub descend :
      (Node → Edge → List String → Marks → Built) → Node → Edge → List String → Marks → Built
  descend expand_one n e path m =
      in_graph (g.adjacent n.id out (calls ∷ dispatches_to ∷ [])) >>= λ nbs.
      expand_calls expand_one n (path ++ n.id ∷ []) nbs []
        (record m { expanded = n.id ∷ m.expanded })
      >>= λ (kids, m'). ok (
        if keeps_only_sinks opts.prune && not (contains m'.leads n.id)
            then none
            else some (step (plain n e) (of_list (group_parallel kids))),
        m',
      )

  -- `expand` where `room` is MaxDepth - depth; at zero the depth limit cuts the step off.
  unfoldable pub expand : ℕ → Node → Edge → List String → Marks → Built
  expand zero n e path m = elim (shallow n e path m) [
    | some r ↦ r
    | none ↦ ok (some (step (record (plain n e) { truncated = true }) nil), m)
  ]
  expand (suc room) n e path m = elim (shallow n e path m) [
    | some r ↦ r
    | none ↦ descend (expand room) n e path m
  ]

  -- The loop of `Build` over the handlers.
  unfoldable pub expand_handlers :
      ℕ → String → List Neighbor → List Step → Marks → Result FlowError (List Step)
  expand_handlers room root [] kids m = ok kids
  expand_handlers room root (h ∷ hs) kids m =
      expand room h.node h.edge (root ∷ []) m >>= λ (child, m'). elim child [
        | none ↦ expand_handlers room root hs kids m'
        | some s ↦ expand_handlers room root hs (kids ++ s ∷ []) m'
      ]

-- The defaults of the options.
unfoldable pub with_defaults : Node → Options → Options
with_defaults root o = record {
  method = if o.method == "" then attr root.attrs "method" else o.method;
  max_depth = if o.max_depth == 0 then 16 else o.max_depth;
  prune = o.prune;
}

abbrev pub no_marks : Marks
no_marks = record { expanded = []; leads = [] }

-- `Build`
unfoldable pub build : Reader → String → Options → Result FlowError Step
build g id opts = in_graph (g.node id) >>= λ root.
    if not (root.kind == route) && not (root.kind == entry)
    then err (not_route id)
    else (in_graph (g.adjacent root.id out (handled_by ∷ [])) >>= λ handlers.
        let o = with_defaults root opts in
        expand_handlers g o (o.max_depth - 1) root.id handlers [] no_marks >>= λ kids.
        ok (step (plain root no_edge) (of_list kids)))
