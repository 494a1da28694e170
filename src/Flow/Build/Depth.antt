-- ===== src/Flow/Build/Depth.antt =====
-- How deep a flow tree is (internal/flow/flow.go).
use interactivecodebase.Base.{
  ℕ, suc, ◌+◌, ◌-◌, ◌≤◌, max, ◌≡◌, subst, inl, inr, String, ◌==◌, string_eq, nat_eq, Bool, true,
  false, Option, none, some, List, [], ◌∷◌, map, All, All-append, All-map, arith, ok, >>=-eq-ok,
  Result-cases, Bool-cases, if◌then◌else◌,
}
use interactivecodebase.Graph.Kinds.{queries}
use interactivecodebase.Graph.Model.{Node, Edge}
use interactivecodebase.Graph.Query.{Neighbor, out}
use interactivecodebase.Graph.Reader.{Reader}
use interactivecodebase.Flow.Tree.{
  Info, Step, step, Steps, nil, cons, of_list, plain, is_sink, visit, visit_all,
}
use interactivecodebase.Flow.Branches.{group_parallel}
use interactivecodebase.Flow.Branches.Grouped.{group_parallel-All}
use interactivecodebase.Flow.Build.{
  Options, in_graph, Marks, count_call, add_tables, shallow, expand_handlers, with_defaults,
  no_marks, build,
}
use interactivecodebase.Flow.Build.Cases.{Spec, finished, expand_handlers_rule, build-eq-ok}

mutual
  height : Step → ℕ
  height (step i ss) = heights ss

  heights : Steps → ℕ
  heights nil = 0
  heights (cons s ss) = max (suc (height s)) (heights ss)

mutual
  unfolding height visit

  visit-height : (depth : ℕ) (s : Step) → All (λ v. v.1 ≤ depth + height s) (visit depth s)
  visit-height depth (step i ss) =
      (omega arith, visit_all-heights depth (heights ss) ss (omega arith))

  visit_all-heights :
      (depth bound : ℕ) (ss : Steps)
      → heights ss ≤ bound
      → All (λ v. v.1 ≤ depth + bound) (visit_all (suc depth) ss)
  visit_all-heights depth bound nil h = tt
  visit_all-heights depth bound (cons s ss) h =
      All-append (λ v. v.1 ≤ depth + bound) (visit (suc depth) s) (visit_all (suc depth) ss)
        (All-map (λ v. v.1 ≤ suc depth + height s) (λ v. v.1 ≤ depth + bound) (visit (suc depth) s)
          (λ v le. omega arith) (visit-height (suc depth) s))
        (visit_all-heights depth bound ss (omega arith))

abbrev AtMost : ℕ → Step → Type 0
AtMost k s = height s ≤ k

heights-of_list : (k : ℕ) (ss : List Step) → All (AtMost k) ss → heights (of_list ss) ≤ suc k
unfolding height
heights-of_list k [] h = omega arith
heights-of_list k (s ∷ ss) h = omega (arith, heights-of_list k ss h.1)

count_call-AtMost :
    (k : ℕ) (id : String) (ss : List Step) → All (AtMost k) ss → All (AtMost k) (count_call id ss)
unfolding count_call height
count_call-AtMost k id [] h = tt
count_call-AtMost k id (step i ss ∷ rest) h = ground (arith, count_call-AtMost k id rest h.1)

abbrev OptionAtMost : ℕ → Option Step → Type 0
OptionAtMost k none = Unit
OptionAtMost k (some s) = AtMost k s

leaves-AtMost :
    (nbs : List Neighbor) → All (AtMost 0) (map (λ nb. step (plain nb.node nb.edge) nil) nbs)
unfolding height
leaves-AtMost [] = tt
leaves-AtMost (nb ∷ nbs) = (omega arith, leaves-AtMost nbs)

weaken : (k l : ℕ) (o : Option Step) → k ≤ l → OptionAtMost k o → OptionAtMost l o
weaken k l none le h = tt
weaken k l (some s) le h = omega arith

cut-AtMost : (i : Info) → AtMost 1 (step i nil)
unfolding height
cut-AtMost i = omega arith

if-OptionAtMost :
    (k : ℕ) (b : Bool) (s : Step) → AtMost k s → OptionAtMost k (if b then none else some s)
if-OptionAtMost k true s h = tt
if-OptionAtMost k false s h = h

module _ (g : Reader) (opts : Options) where
  add_tables-AtMost : (i : Info) (s : Step) → add_tables g opts i ≡ ok s → AtMost 1 s
  unfolding add_tables height
  add_tables-AtMost i s h =
      let (nbs, listed, made) =
        >>=-eq-ok (in_graph (g.adjacent i.node.id out (queries ∷ []))) _ h in
      let leaves = map (λ nb. step (plain nb.node nb.edge) nil) nbs in
      let flat = heights-of_list 0 leaves (leaves-AtMost nbs) in
      let same : step i (of_list leaves) ≡ s = cc in subst (AtMost 1) same flat

  shallow-AtMost :
      (n : Node) (e : Edge) (path : List String) (m m' : Marks) (o : Option Step)
      → shallow g opts n e path m ≡ some (ok (o, m'))
      → OptionAtMost 1 o
  unfolding shallow height
  shallow-AtMost n e path m m' none h = tt
  shallow-AtMost n e path m m' (some s) h = elim (Bool-cases (is_sink n)) [
    | inl sink ↦ elim (Result-cases (add_tables g opts (plain n e))) [
      | inl (x, failed) ↦ ground arith
      | inr (t, added) ↦ let low = add_tables-AtMost (plain n e) t added in ground arith
    ]
    | inr inner ↦ ground arith
  ]

  finished-AtMost :
      (room : ℕ) (n : Node) (e : Edge) (m m' : Marks) (kids : List Step)
      → All (AtMost (suc room)) kids
      → OptionAtMost (suc (suc room)) (finished g opts n e kids m')
  unfolding height
  finished-AtMost room n e m m' kids h =
      let low =
        heights-of_list (suc room) (group_parallel kids)
          (group_parallel-All (AtMost (suc room)) kids h) in
      if-OptionAtMost (suc (suc room)) _ _ low

  depths : Spec g opts
  depths = record {
    Post = λ room n m o m'. OptionAtMost (suc room) o;
    Loop = λ room n m kids m'. All (AtMost (suc room)) kids;
    on_shallow = λ room n e path m m' o h.
        weaken 1 (suc room) o (omega arith) (shallow-AtMost n e path m m' o h);
    on_limit = λ n e m. cut-AtMost (record (plain n e) { truncated = true });
    on_start = λ room n m new. tt;
    on_count = λ room n m m' kids id h. count_call-AtMost (suc room) id kids h;
    on_none = λ room n m m1 m2 kids nbs nb listed here h p. h;
    on_some = λ room n m m1 m2 kids nbs nb s listed here run first h p.
        All-append (AtMost (suc room)) kids (s ∷ []) h (p, tt);
    on_end = finished-AtMost;
  }

  handlers-AtMost :
      (room : ℕ) (root : String) (hs : List Neighbor) (kids : List Step)
      → expand_handlers g opts room root hs [] no_marks ≡ ok kids
      → All (AtMost (suc room)) kids
  unfolding depths
  handlers-AtMost room root hs kids h =
      (expand_handlers_rule g opts depths (λ k m. All (AtMost (suc room)) k) room root hs
        (λ n k m m' here low p. low)
        (λ n k m m' s here low p. All-append (AtMost (suc room)) k (s ∷ []) low (p, tt)) hs [] kids
        no_marks (λ nb here. here) tt h).1

default_depth : (k : ℕ) → suc ((if k == 0 then 16 else k) - 1) ≡ (if k == 0 then 16 else k)
unfolding nat_eq
default_depth k = ground arith

with_defaults-depth :
    (root : Node) (opts : Options)
    → suc ((with_defaults root opts).max_depth - 1)
      ≡ (if opts.max_depth == 0 then 16 else opts.max_depth)
unfolding with_defaults
with_defaults-depth root opts = default_depth opts.max_depth

-- The steps of a tree that `build` returns are not deeper than MaxDepth + 1 (16 + 1 where MaxDepth is 0): the
-- steps at the limit are cut off, and only the tables of a sink hang one below it.
pub build_depth :
    (g : Reader) (id : String) (opts : Options) (s : Step)
    → build g id opts ≡ ok s
    → All (λ v. v.1 ≤ (if opts.max_depth == 0 then 16 else opts.max_depth) + 1) (visit 0 s)
unfolding height
build_depth g id opts s h =
    let b = build-eq-ok g id opts s h in
    let o = with_defaults b.root opts in
    let low = handlers-AtMost g o (o.max_depth - 1) b.root.id b.handlers b.kids b.walked in
    let flat = heights-of_list (suc (o.max_depth - 1)) b.kids low in
    let short : height s ≤ suc (suc (o.max_depth - 1)) = rw b.tree flat in
    All-map _ _ (visit 0 s) (λ v le. omega (arith, le, short, with_defaults-depth b.root opts))
      (visit-height 0 s)
