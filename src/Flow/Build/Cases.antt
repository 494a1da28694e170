-- ===== src/Flow/Build/Cases.antt =====
-- The rule for statements about what `expand` returns (internal/flow/flow.go): a postcondition of
-- each call, and an invariant of the loop over the neighbours.
use interactivecodebase.Base.{
  ok-inj, ℕ, ◌-◌, zero, suc, ◌≡◌, refl, ◌∙◌, subst, sym, ap, inl, inr, String, ◌==◌, string_eq,
  Bool, true, false, not, ◌&&◌, Option, none, some, List, [], ◌∷◌, ◌++◌, any, contains, In, arith,
  Result, ok, err, >>=-eq-ok, Result-cases, Option-cases, Bool-cases, if◌then◌else◌,
}
use interactivecodebase.Graph.Kinds.{calls, dispatches_to, handled_by}
use interactivecodebase.Graph.Model.{Node, Edge, GraphError}
use interactivecodebase.Graph.Query.{Neighbor, out}
use interactivecodebase.Graph.Reader.{Reader}
use interactivecodebase.Flow.Tree.{Step, step, nil, of_list, id_of, plain, no_edge}
use interactivecodebase.Flow.Branches.{group_parallel}
use interactivecodebase.Flow.Build.{
  Options, FlowError, not_route, in_graph, Marks, Built, keeps_only_sinks, runs, count_call,
  mark_lead, shallow, expand_calls, descend, expand, expand_handlers, with_defaults, no_marks,
  build,
}

pub in_graph-eq-ok : {A : Type 0} (r : Result GraphError A) (a : A) → in_graph r ≡ ok a → r ≡ ok a
in_graph-eq-ok (ok b) a h = ground arith
in_graph-eq-ok (err e) a h = cc

ok-ne-err : {E A : Type 0} {a : A} {e : E} → ok a ≡ err e → ⊥
ok-ne-err h = cc

ok-pair :
    {E A B : Type 0} {a a' : A} {b b' : B} {x y : Result E (A × B)}
    → x ≡ y
    → x ≡ ok (a, b)
    → y ≡ ok (a', b')
    → (a ≡ a') × (b ≡ b')
ok-pair h left right = (cc, cc)

module _ (g : Reader) (opts : Options) where
  -- The edges that `expand` follows.
  abbrev pub callees : String → Result GraphError (List Neighbor)
  callees id = g.adjacent id out (calls ∷ dispatches_to ∷ [])

  abbrev pub finished : Node → Edge → List Step → Marks → Option Step
  finished n e kids m =
      if keeps_only_sinks opts.prune && not (contains m.leads n.id)
      then none
      else some (step (plain n e) (of_list (group_parallel kids)))

  module _ (one : Node → Edge → List String → Marks → Built) (n : Node) (path : List String) where
    calls_nil :
        (kids kids' : List Step) (m m' : Marks)
        → expand_calls g opts one n path [] kids m ≡ ok (kids', m')
        → (kids ≡ kids') × (m ≡ m')
    unfolding expand_calls
    calls_nil kids kids' m m' h = ground arith

    module _ (nb : Neighbor) (nbs : List Neighbor) (kids : List Step) (m : Marks) where
      abbrev here_calls : Result FlowError (List Step × Marks)
      here_calls = expand_calls g opts one n path (nb ∷ nbs) kids m

      calls_skip :
          runs opts.method n nb.edge ≡ false
          → here_calls ≡ expand_calls g opts one n path nbs kids m
      unfolding expand_calls
      calls_skip skipped = rw (skipped, expand_calls) refl

      calls_count :
          runs opts.method n nb.edge ≡ true
          → any (λ c. id_of c == nb.node.id) kids ≡ true
          → here_calls ≡ expand_calls g opts one n path nbs (count_call nb.node.id kids) m
      unfolding expand_calls
      calls_count run again = rw (run, again, expand_calls) refl

      calls_err :
          (e : FlowError)
          → runs opts.method n nb.edge ≡ true
          → any (λ c. id_of c == nb.node.id) kids ≡ false
          → one nb.node nb.edge path m ≡ err e
          → here_calls ≡ err e
      unfolding expand_calls
      calls_err e run first failed = rw (run, first, failed, expand_calls) refl

      calls_none :
          (m' : Marks)
          → runs opts.method n nb.edge ≡ true
          → any (λ c. id_of c == nb.node.id) kids ≡ false
          → one nb.node nb.edge path m ≡ ok (none, m')
          → here_calls ≡ expand_calls g opts one n path nbs kids m'
      unfolding expand_calls
      calls_none m' run first called = rw (run, first, called, expand_calls) refl

      calls_some :
          (m' : Marks) (s : Step)
          → runs opts.method n nb.edge ≡ true
          → any (λ c. id_of c == nb.node.id) kids ≡ false
          → one nb.node nb.edge path m ≡ ok (some s, m')
          → here_calls
            ≡ expand_calls g opts one n path nbs (kids ++ s ∷ []) (mark_lead g opts n s m')
      unfolding expand_calls
      calls_some m' s run first called = rw (run, first, called, expand_calls) refl

  shallow-none :
      (n : Node) (e : Edge) (path : List String) (m : Marks)
      → shallow g opts n e path m ≡ none
      → contains m.expanded n.id ≡ false
  unfolding shallow
  shallow-none n e path m h = ground arith

  -- `Post room n m o m'`: the call on `n` with marks `m` returned `o` and the marks `m'`.
  -- `Loop room n m kids m'`: the loop of the call on `n` that began with `m` has come to `kids`, `m'`.
  pub record Spec : Type 1 where
    pub Post : ℕ → Node → Marks → Option Step → Marks → Type 0
    pub Loop : ℕ → Node → Marks → List Step → Marks → Type 0
    pub on_shallow :
        (room : ℕ) (n : Node) (e : Edge) (path : List String) (m m' : Marks) (o : Option Step)
        → shallow g opts n e path m ≡ some (ok (o, m'))
        → Post room n m o m'
    pub on_limit :
        (n : Node) (e : Edge) (m : Marks)
        → Post zero n m (some (step (record (plain n e) { truncated = true }) nil)) m
    pub on_start :
        (room : ℕ) (n : Node) (m : Marks)
        → contains m.expanded n.id ≡ false
        → Loop room n m [] (record m { expanded = n.id ∷ m.expanded })
    pub on_count :
        (room : ℕ) (n : Node) (m m' : Marks) (kids : List Step) (id : String)
        → Loop room n m kids m'
        → Loop room n m (count_call id kids) m'
    pub on_none :
        (room : ℕ) (n : Node) (m m1 m2 : Marks) (kids : List Step) (nbs : List Neighbor)
        (nb : Neighbor)
        → callees n.id ≡ ok nbs
        → In nb nbs
        → Loop room n m kids m1
        → Post room nb.node m1 none m2
        → Loop room n m kids m2
    pub on_some :
        (room : ℕ) (n : Node) (m m1 m2 : Marks) (kids : List Step) (nbs : List Neighbor)
        (nb : Neighbor) (s : Step)
        → callees n.id ≡ ok nbs
        → In nb nbs
        → runs opts.method n nb.edge ≡ true
        → any (λ c. id_of c == nb.node.id) kids ≡ false
        → Loop room n m kids m1
        → Post room nb.node m1 (some s) m2
        → Loop room n m (kids ++ s ∷ []) (mark_lead g opts n s m2)
    pub on_end :
        (room : ℕ) (n : Node) (e : Edge) (m m' : Marks) (kids : List Step)
        → Loop room n m kids m'
        → Post (suc room) n m (finished n e kids m') m'

  module _ (S : Spec) where
    open S use {Post, Loop, on_shallow, on_limit, on_start, on_count, on_none, on_some, on_end}

    abbrev OneCall : ℕ → Type 0
    OneCall room =
        (n : Node) (e : Edge) (path : List String) (m m' : Marks) (o : Option Step)
        → expand g opts room n e path m ≡ ok (o, m')
        → Post room n m o m'

    expand_calls_rule :
        (room : ℕ) (n : Node) (path : List String) (m : Marks) (all nbs : List Neighbor)
        → OneCall room
        → callees n.id ≡ ok all
        → ((nb : Neighbor) → In nb nbs → In nb all)
        → (kids kids' : List Step) (m1 m2 : Marks) → Loop room n m kids m1
        → expand_calls g opts (expand g opts room) n path nbs kids m1 ≡ ok (kids', m2)
        → Loop room n m kids' m2
    expand_calls_rule room n path m all [] one listed within kids kids' m1 m2 inv h =
        let same = calls_nil (expand g opts room) n path kids kids' m1 m2 h in
        subst (λ k. Loop room n m k m2) same.0 (subst (Loop room n m kids) same.1 inv)
    expand_calls_rule room n path m all (nb ∷ nbs) one listed within kids kids' m1 m2 inv h =
        elim (Bool-cases (runs opts.method n nb.edge)) [
          | inr skipped ↦
              expand_calls_rule room n path m all nbs one listed (λ x j. within x (inr j)) kids
                kids' m1 m2 inv
                (sym (calls_skip (expand g opts room) n path nb nbs kids m1 skipped) ∙ h)
          | inl run ↦ elim (Bool-cases (any (λ c. id_of c == nb.node.id) kids)) [
            | inl again ↦
                expand_calls_rule room n path m all nbs one listed (λ x j. within x (inr j))
                  (count_call nb.node.id kids) kids' m1 m2
                  (on_count room n m m1 kids nb.node.id inv)
                  (sym (calls_count (expand g opts room) n path nb nbs kids m1 run again) ∙ h)
            | inr first ↦ elim (Result-cases (expand g opts room nb.node nb.edge path m1)) [
              | inl (e, failed) ↦ absurd (
                  ok-ne-err (
                    sym h
                    ∙ calls_err (expand g opts room) n path nb nbs kids m1 e run first failed))
              | inr ((none, m'), called) ↦
                  expand_calls_rule room n path m all nbs one listed (λ x j. within x (inr j)) kids
                    kids' m' m2
                    (on_none room n m m1 m' kids all nb listed (within nb (inl refl)) inv
                      (one nb.node nb.edge path m1 m' none called))
                    (sym (calls_none (expand g opts room) n path nb nbs kids m1 m' run first called)
                      ∙ h)
              | inr ((some s, m'), called) ↦
                  expand_calls_rule room n path m all nbs one listed (λ x j. within x (inr j))
                    (kids ++ s ∷ []) kids' (mark_lead g opts n s m') m2
                    (on_some room n m m1 m' kids all nb s listed (within nb (inl refl)) run first
                      inv (one nb.node nb.edge path m1 m' (some s) called))
                    (sym (
                        calls_some (expand g opts room) n path nb nbs kids m1 m' s run first called)
                      ∙ h)
            ]
          ]
        ]

    descend_rule :
        (room : ℕ) (n : Node) (e : Edge) (path : List String) (m m' : Marks) (o : Option Step)
        → OneCall room
        → contains m.expanded n.id ≡ false
        → descend g opts (expand g opts room) n e path m ≡ ok (o, m')
        → Post (suc room) n m o m'
    unfolding descend
    descend_rule room n e path m m' o one new h =
        let (nbs, listed, more) = >>=-eq-ok (in_graph (callees n.id)) _ h in
        let ((kids, m1), walked, ended) =
          >>=-eq-ok
            (expand_calls g opts (expand g opts room) n (path ++ n.id ∷ []) nbs []
              (record m { expanded = n.id ∷ m.expanded }))
            _ more in
        let inv =
          expand_calls_rule room n (path ++ n.id ∷ []) m nbs nbs one
            (in_graph-eq-ok (callees n.id) nbs listed) (λ x i. i) [] kids
            (record m { expanded = n.id ∷ m.expanded }) m1 (on_start room n m new) walked in
        let same : (finished n e kids m1 ≡ o) × (m1 ≡ m') = ok-pair ended refl refl in
        subst (λ x. Post (suc room) n m x m') same.0
          (subst (Post (suc room) n m (finished n e kids m1)) same.1
            (on_end room n e m m1 kids inv))

    -- Every call of `expand` that succeeds meets the postcondition.
    pub expand_rule : (room : ℕ) → OneCall room
    unfolding expand
    expand_rule zero n e path m m' o h = elim (Option-cases (shallow g opts n e path m)) [
      | inl deep ↦
          let cut : ok (some (step (record (plain n e) { truncated = true }) nil), m) ≡ ok (o, m') =
            rw (deep, expand) at h in
          let same = ok-pair cut refl refl in
          subst (λ x. Post zero n m x m') same.0 (subst (Post zero n m _) same.1 (on_limit n e m))
      | inr (r, found) ↦ on_shallow zero n e path m m' o (found ∙ ap some (rw (found, expand) at h))
    ]
    expand_rule (suc room) n e path m m' o h = elim (Option-cases (shallow g opts n e path m)) [
      | inl deep ↦
          descend_rule room n e path m m' o (expand_rule room) (shallow-none n e path m deep)
            (rw (deep, expand) at h)
      | inr (r, found) ↦
          on_shallow (suc room) n e path m m' o (found ∙ ap some (rw (found, expand) at h))
    ]

    -- An invariant of the loop of `Build` over the handlers.
    pub expand_handlers_rule :
        (Inv : List Step → Marks → Type 0)
        → (room : ℕ) (root : String) (all : List Neighbor)
        → ((nb : Neighbor) (kids : List Step) (m m' : Marks)
            → In nb all
            → Inv kids m
            → Post room nb.node m none m'
            → Inv kids m')
        → ((nb : Neighbor) (kids : List Step) (m m' : Marks) (s : Step)
            → In nb all
            → Inv kids m
            → Post room nb.node m (some s) m'
            → Inv (kids ++ s ∷ []) m')
        → (hs : List Neighbor) (kids kids' : List Step) (m : Marks)
        → ((nb : Neighbor) → In nb hs → In nb all)
        → Inv kids m
        → expand_handlers g opts room root hs kids m ≡ ok kids'
        → (m' : Marks) × Inv kids' m'
    unfolding expand_handlers
    expand_handlers_rule Inv room root all absent present [] kids kids' m within inv h =
        (m, subst (λ k. Inv k m) (ok-inj h) inv)
    expand_handlers_rule Inv room root all absent present (nb ∷ hs) kids kids' m within inv h =
        let later : (x : Neighbor) → In x hs → In x all = λ x j. within x (inr j) in
        elim (Result-cases (expand g opts room nb.node nb.edge (root ∷ []) m)) [
          | inl (e, failed) ↦ absurd (ok-ne-err {e = e} (sym (rw (failed, expand_handlers) at h)))
          | inr ((none, m'), called) ↦
              expand_handlers_rule Inv room root all absent present hs kids kids' m' later
                (absent nb kids m m' (within nb (inl refl)) inv
                  (expand_rule room nb.node nb.edge (root ∷ []) m m' none called))
                (rw (called, expand_handlers) at h)
          | inr ((some s, m'), called) ↦
              expand_handlers_rule Inv room root all absent present hs (kids ++ s ∷ []) kids' m'
                later
                (present nb kids m m' s (within nb (inl refl)) inv
                  (expand_rule room nb.node nb.edge (root ∷ []) m m' (some s) called))
                (rw (called, expand_handlers) at h)
        ]

-- What `build` has done where it returns a tree.
pub record IsBuilt (g : Reader) (id : String) (opts : Options) (s : Step) : Type 0 where
  pub root : Node
  pub handlers : List Neighbor
  pub kids : List Step
  pub read : g.node id ≡ ok root
  pub listed : g.adjacent root.id out (handled_by ∷ []) ≡ ok handlers
  pub walked :
      expand_handlers g
        (with_defaults root opts)
        ((with_defaults root opts).max_depth - 1)
        root.id
        handlers
        []
        no_marks
      ≡ ok kids
  pub tree : s ≡ step (plain root no_edge) (of_list kids)

build_is_route :
    (id : String) (b : Bool) (r : Result FlowError Step) (s : Step)
    → (if b then err (not_route id) else r) ≡ ok s
    → r ≡ ok s
build_is_route id b r s h = ground arith

pub build-eq-ok :
    (g : Reader) (id : String) (opts : Options) (s : Step)
    → build g id opts ≡ ok s
    → IsBuilt g id opts s
unfolding build
build-eq-ok g id opts s h =
    let (root, read, checked) = >>=-eq-ok (in_graph (g.node id)) _ h in
    let (handlers, listed, more) =
      >>=-eq-ok (in_graph (g.adjacent root.id out (handled_by ∷ []))) _
        (build_is_route id _ _ s checked) in
    let o = with_defaults root opts in
    let (kids, walked, made) =
      >>=-eq-ok (expand_handlers g o (o.max_depth - 1) root.id handlers [] no_marks) _ more in
    record {
      root = root;
      handlers = handlers;
      kids = kids;
      read = in_graph-eq-ok (g.node id) root read;
      listed = in_graph-eq-ok (g.adjacent root.id out (handled_by ∷ [])) handlers listed;
      walked = walked;
      tree = sym (ok-inj made);
    }
