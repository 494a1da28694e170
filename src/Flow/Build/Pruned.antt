-- ===== src/Flow/Build/Pruned.antt =====
-- What pruning to sinks leaves of a flow tree (internal/flow/flow.go, PruneSinks).
use interactivecodebase.Base.{
  ok-inj, ℕ, ◌-◌, ◌≡◌, refl, ◌⊎◌, ◌∙◌, ap, subst, sym, inl, inr, String, ◌==◌, ==_iff, string_eq,
  true, Option, none, some, List, [], ◌∷◌, map, contains, All, All-append, In, arith, ok, err,
  >>=-eq-ok, Result-cases, Bool-cases,
}
use interactivecodebase.Graph.Kinds.{EdgeKind, handled_by, calls, dispatches_to, queries}
use interactivecodebase.Graph.Model.{Node, Edge}
use interactivecodebase.Graph.Query.{Direction, Neighbor, out}
use interactivecodebase.Graph.Reader.{Reader}
use interactivecodebase.Flow.Tree.{
  Info, Step, step, Steps, nil, cons, of_list, info, id_of, children, to_list-of_list, plain,
  is_sink,
}
use interactivecodebase.Flow.Branches.{group_parallel}
use interactivecodebase.Flow.Branches.Grouped.{group_parallel-All}
use interactivecodebase.Flow.Build.{
  Options, prune_sinks, in_graph, Marks, Built, keeps_only_sinks, runs, is_external, count_call,
  add_tables, shallow, mark_lead, no_marks, with_defaults, expand_handlers, build,
}
use interactivecodebase.Flow.Build.Cases.{
  in_graph-eq-ok, Spec, callees, finished, expand_handlers_rule, build-eq-ok,
}

-- A neighbour is the node that the graph has for its id.
abbrev pub IsCoherent : Reader → Type 0
IsCoherent g =
    (id : String) (dir : Direction) (kinds : List EdgeKind) (nbs : List Neighbor) (nb : Neighbor)
    → g.adjacent id dir kinds ≡ ok nbs
    → In nb nbs
    → g.node nb.node.id ≡ ok nb.node

-- A chain of calls that run for the method leads from the graph's node with this id to a sink.
pub data LeadsToSink (g : Reader) (method : String) : String → Type 0 where
  to_sink :
      (n : Node) (nbs : List Neighbor) (nb : Neighbor)
      → g.node n.id ≡ ok n
      → g.adjacent n.id out (calls ∷ dispatches_to ∷ []) ≡ ok nbs
      → In nb nbs
      → runs method n nb.edge ≡ true
      → is_sink nb.node ≡ true
      → LeadsToSink g method n.id
  to_lead :
      (n : Node) (nbs : List Neighbor) (nb : Neighbor)
      → g.node n.id ≡ ok n
      → g.adjacent n.id out (calls ∷ dispatches_to ∷ []) ≡ ok nbs
      → In nb nbs
      → runs method n nb.edge ≡ true
      → LeadsToSink g method nb.node.id
      → LeadsToSink g method n.id

contains-All :
    (P : String → Type 0) (xs : List String) (a : String) → contains xs a ≡ true → All P xs → P a
unfolding contains
contains-All P (x ∷ xs) a h ps = elim (Bool-cases (a == x)) [
  | inl same ↦ subst P (sym ((==_iff a x).0 same)) ps.0
  | inr differ ↦ contains-All P xs a (rw differ at h) ps.1
]
contains-All P [] a h ps = ground arith

module _ (g : Reader) (method : String) where
  -- A sink, below which are the tables that it queries and nothing else, or a function that was cut off or leads to a sink, with such steps below.
  unfoldable mutual
    pub IsKept : Step → Type 0
    IsKept (step i ss) =
        ((nbs : List Neighbor) × (is_sink i.node ≡ true)
          × (g.adjacent i.node.id out (queries ∷ []) ≡ ok nbs)
          × (ss ≡ of_list (map (λ nb. step (plain nb.node nb.edge) nil) nbs)))
        ⊎ (((i.truncated ≡ true) ⊎ LeadsToSink g method i.node.id) × AllKept ss)

    pub AllKept : Steps → Type 0
    AllKept nil = Unit
    AllKept (cons s ss) = IsKept s × AllKept ss

  AllKept-of_list : (ss : List Step) → All IsKept ss → AllKept (of_list ss)
  unfolding IsKept
  AllKept-of_list [] h = tt
  AllKept-of_list (s ∷ ss) h = (h.0, AllKept-of_list ss h.1)

  count_call-IsKept : (id : String) (ss : List Step) → All IsKept ss → All IsKept (count_call id ss)
  unfolding count_call IsKept
  count_call-IsKept id [] h = tt
  count_call-IsKept id (step i ss ∷ rest) h = elim (Bool-cases (i.node.id == id)) [
    | inl same ↦ rw (same, count_call, IsKept) h
    | inr differ ↦ rw (differ, count_call, IsKept) (h.0, count_call-IsKept id rest h.1)
  ]

  abbrev Leads : Marks → Type 0
  Leads m = All (LeadsToSink g method) m.leads

  -- What a call on `n` returned, if it returned a step.
  abbrev KeptOf : Node → Option Step → Type 0
  KeptOf n none = Unit
  KeptOf n (some s) = IsKept s × ((info s).node ≡ n)

module _ (g : Reader) (opts : Options) (only : opts.prune ≡ prune_sinks)
    (coherent : IsCoherent g) where
  sinks_only : keeps_only_sinks opts.prune ≡ true
  sinks_only = ap keeps_only_sinks only

  add_tables-kept :
      (n : Node) (e : Edge) (t : Step)
      → is_sink n ≡ true
      → add_tables g opts (plain n e) ≡ ok t
      → KeptOf g opts.method n (some t)
  unfolding add_tables IsKept
  add_tables-kept n e t sink h =
      let (nbs, listed, made) = >>=-eq-ok (in_graph (g.adjacent n.id out (queries ∷ []))) _ h in
      subst (λ x. KeptOf g opts.method n (some x)) (ok-inj made)
        (
          inl (nbs, sink, in_graph-eq-ok (g.adjacent n.id out (queries ∷ [])) nbs listed, refl),
          refl,
        )

  led_step :
      (i : Info) (ss : Steps) (m : Marks)
      → contains m.leads i.node.id ≡ true
      → Leads g opts.method m
      → AllKept g opts.method ss
      → IsKept g opts.method (step i ss)
  unfolding IsKept
  led_step i ss m led leads below =
      inr (inr (contains-All (LeadsToSink g opts.method) m.leads i.node.id led leads), below)

  cut_step : (i : Info) → i.truncated ≡ true → IsKept g opts.method (step i nil)
  unfolding IsKept
  cut_step i cut = inr (inl cut, tt)

  abbrev Fine : Node → Option Built → Type 0
  Fine n none = Unit
  Fine n (some (err e)) = Unit
  Fine n (some (ok (o, m))) = Leads g opts.method m × KeptOf g opts.method n o

  shallow-Fine :
      (n : Node) (e : Edge) (path : List String) (m : Marks)
      → Leads g opts.method m
      → Fine n (shallow g opts n e path m)
  unfolding shallow AllKept
  shallow-Fine n e path m leads = elim (Bool-cases (contains path n.id)) [
    | inl cycle ↦ rw (cycle, sinks_only) (leads, tt)
    | inr straight ↦ elim (Bool-cases (is_sink n)) [
      | inl sink ↦ elim (Result-cases (add_tables g opts (plain n e))) [
        | inl (x, failed) ↦ rw (straight, sink, failed) tt
        | inr (t, added) ↦ rw (straight, sink, added) (leads, add_tables-kept n e t sink added)
      ]
      | inr inner ↦ elim (Bool-cases (is_external n)) [
        | inl external ↦ rw (straight, inner, external, only) (leads, tt)
        | inr own ↦ elim (Bool-cases (contains m.expanded n.id)) [
          | inr new ↦ rw (straight, inner, own, new) tt
          | inl again ↦ elim (Bool-cases (contains m.leads n.id)) [
            | inr dry ↦ rw (straight, inner, own, again, dry, sinks_only) (leads, tt)
            | inl led ↦
                rw (straight, inner, own, again, led, sinks_only)
                  (leads, (led_step (record (plain n e) { ref = true }) nil m led leads tt, refl))
          ]
        ]
      ]
    ]
  ]

  shallow-kept :
      (n : Node) (e : Edge) (path : List String) (m m' : Marks) (o : Option Step)
      → Leads g opts.method m
      → shallow g opts n e path m ≡ some (ok (o, m'))
      → Leads g opts.method m' × KeptOf g opts.method n o
  shallow-kept n e path m m' o leads h = subst (Fine n) h (shallow-Fine n e path m leads)

  mark_lead-kept :
      (n : Node) (nbs : List Neighbor) (nb : Neighbor) (s : Step) (m : Marks)
      → g.node n.id ≡ ok n
      → callees g opts n.id ≡ ok nbs
      → In nb nbs
      → runs opts.method n nb.edge ≡ true
      → (info s).node ≡ nb.node
      → Leads g opts.method m
      → Leads g opts.method (mark_lead g opts n s m)
  unfolding mark_lead
  mark_lead-kept n nbs nb s m read listed here run same leads =
      elim (Bool-cases (is_sink (info s).node)) [
        | inl sink ↦
            rw (sink, mark_lead)
              (to_sink n nbs nb read listed here run (ap is_sink (sym same) ∙ sink), leads)
        | inr inner ↦ elim (Bool-cases (contains m.leads (id_of s))) [
          | inl led ↦
              let below = contains-All (LeadsToSink g opts.method) m.leads (id_of s) led leads in
              rw (inner, led, mark_lead)
                (
                  to_lead n nbs nb read listed here run
                      (subst (λ x. LeadsToSink g opts.method x.id) same below),
                  leads,
                )
          | inr dry ↦ rw (inner, dry, mark_lead) leads
        ]
      ]

  finished-kept :
      (n : Node) (e : Edge) (kids : List Step) (m : Marks)
      → Leads g opts.method m
      → All (IsKept g opts.method) kids
      → KeptOf g opts.method n (finished g opts n e kids m)
  finished-kept n e kids m leads kept = elim (Bool-cases (contains m.leads n.id)) [
    | inl led ↦
        rw (sinks_only, led)
          (
            led_step (plain n e) (of_list (group_parallel kids)) m led leads (
                AllKept-of_list g opts.method (group_parallel kids)
                  (group_parallel-All (IsKept g opts.method) kids kept)),
            refl,
          )
    | inr dry ↦ rw (sinks_only, dry) tt
  ]

  keeps : Spec g opts
  keeps = record {
    Post = λ room n m o m'.
        g.node n.id ≡ ok n
        → Leads g opts.method m
        → Leads g opts.method m' × KeptOf g opts.method n o;
    Loop = λ room n m kids m'.
        g.node n.id ≡ ok n
        → Leads g opts.method m
        → Leads g opts.method m' × All (IsKept g opts.method) kids;
    on_shallow = λ room n e path m m' o h read leads. shallow-kept n e path m m' o leads h;
    on_limit = λ n e m read leads.
        (leads, (cut_step (record (plain n e) { truncated = true }) refl, refl));
    on_start = λ room n m new read leads. (leads, tt);
    on_count = λ room n m m' kids id loop read leads.
        ((loop read leads).0, count_call-IsKept g opts.method id kids (loop read leads).1);
    on_none = λ room n m m1 m2 kids nbs nb listed here loop call read leads. (
      (call (coherent n.id out (calls ∷ dispatches_to ∷ []) nbs nb listed here)
          (loop read leads).0).0,
      (loop read leads).1,
    );
    on_some = λ room n m m1 m2 kids nbs nb s listed here run first loop call read leads.
        let (leads', (kept, same)) =
          call (coherent n.id out (calls ∷ dispatches_to ∷ []) nbs nb listed here)
            (loop read leads).0 in
        (
          mark_lead-kept n nbs nb s m2 read listed here run same leads',
          All-append (IsKept g opts.method) kids (s ∷ []) (loop read leads).1 (kept, tt),
        );
    on_end = λ room n e m m' kids loop read leads.
        let (leads', kept) = loop read leads in (leads', finished-kept n e kids m' leads' kept);
  }

  handlers-IsKept :
      (room : ℕ) (root : String) (hs : List Neighbor) (kids : List Step)
      → ((nb : Neighbor) → In nb hs → g.node nb.node.id ≡ ok nb.node)
      → expand_handlers g opts room root hs [] no_marks ≡ ok kids
      → All (IsKept g opts.method) kids
  unfolding keeps
  handlers-IsKept room root hs kids there h =
      (expand_handlers_rule g opts keeps
        (λ k m. Leads g opts.method m × All (IsKept g opts.method) k) room root hs
        (λ nb k m m' here inv p. ((p (there nb here) inv.0).0, inv.1))
        (λ nb k m m' s here inv p.
          let (leads, (kept, same)) = p (there nb here) inv.0 in
          (leads, All-append (IsKept g opts.method) k (s ∷ []) inv.1 (kept, tt)))
        hs [] kids no_marks (λ nb here. here) (tt, tt) h).1.1

-- With PruneSinks, over a graph whose neighbours are the nodes that it has for their ids, each step below the root of
-- a tree that `build` returns is a sink with the tables that it queries below it, or was cut off at the depth limit, or
-- is a function from which a chain of calls that run for the flow's method leads to a sink.
pub build-IsKept :
    (g : Reader) (id : String) (opts : Options) (root : Node) (s : Step)
    → IsCoherent g
    → opts.prune ≡ prune_sinks
    → g.node id ≡ ok root
    → build g id opts ≡ ok s
    → All (IsKept g (with_defaults root opts).method) (children s)
unfolding with_defaults
build-IsKept g id opts root s coherent only read h =
    let b = build-eq-ok g id opts s h in
    let o = with_defaults root opts in
    let same : b.root ≡ root = ok-inj (sym b.read ∙ read) in
    let walked =
      subst
        (λ r.
          expand_handlers g (with_defaults r opts) ((with_defaults r opts).max_depth - 1) r.id
            b.handlers [] no_marks
          ≡ ok b.kids)
        same b.walked in
    let kept =
      handlers-IsKept g o only coherent (o.max_depth - 1) root.id b.handlers b.kids
        (λ nb here. coherent b.root.id out (handled_by ∷ []) b.handlers nb b.listed here) walked in
    let below : children s ≡ b.kids = ap children b.tree ∙ to_list-of_list b.kids in
    subst (All (IsKept g o.method)) (sym below) kept
