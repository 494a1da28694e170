-- ===== src/Graph/Paths/Walks.antt =====
-- The rows of the recursive query at the goal (internal/graph/query.go) are the simple paths.
use mathlib.Core.List.{append_assoc, append-nil}
use mathlib.Core.Logic.{if_neg}
use interactivecodebase.Base.Text.{contains_text}
use interactivecodebase.Graph.Paths.Visited.{
  is_clean, spelled, spelled-last, contains_text-spelled, spelled-In,
}
use interactivecodebase.Base.{
  ◌<>◌, All-map, All-In, All-append, contains_iff, Bool-cases, ℕ, zero, suc, ◌+◌, ◌≤◌, ◌≡◌, ◌≢◌,
  refl, sym, ap, subst, ◌∙◌, inl, inr, ◌↔◌, String, ◌==◌, string_eq, nat_eq, Bool, true, false,
  ◌&&◌, not, List, [], ◌∷◌, ◌++◌, map, arith, contains, contains-append, keep, length, All, In,
  In-keep, In-map, In-flat_map,
}
use interactivecodebase.Graph.Kinds.{EdgeKind}
use interactivecodebase.Graph.Store.{EdgeRow}
use interactivecodebase.Graph.Query.{admits}
use interactivecodebase.Graph.Paths.{
  separated, enclosed, Walk, in_time, walked, near_to, extends, walk_step, walks, start_walk, found,
}
use interactivecodebase.Graph.Paths.Near.{Leads, IsChosen, near_to_bound}

-- The id does not have the character 31.
abbrev pub IsClean : String → Type 0
IsClean id = is_clean id ≡ true

-- Each edge ends at a node that was not visited before.
abbrev pub IsFresh : List String → List EdgeRow → Type 0
IsFresh visited [] = Unit
IsFresh visited (e ∷ es) = (contains visited e.dst ≡ false) × IsFresh (visited ++ e.dst ∷ []) es

module _ (kinds : List EdgeKind) (edges : List EdgeRow) (to : String) (max : ℕ) where
  -- What remains to be walked from a row.
  pub record Rest (w : Walk) (seen : List String) (es : List EdgeRow) : Type 0 where
    pub chosen : All (IsChosen kinds edges) es
    pub leads : Leads w.node es to
    pub fresh : IsFresh seen es
    pub short : w.depth + length es ≤ max

  In-walk_step :
      (w u : Walk)
      → In u (walk_step kinds edges to max w)
      → (e : EdgeRow) × (w.node ≢ to)
        × (u ≡ walked w e)
        × In e edges
        × (extends kinds edges to max w e ≡ true)
  unfolding walk_step
  In-walk_step w u m = elim (string_eq.dec w.node to) [
    | yes same ↦ absurd (ground arith)
    | no differ ↦
        let p = extends kinds edges to max w in
        let listed : In u (map (walked w) (keep p edges)) = rw (if_neg _ differ) at m in
        let (e, kept, same) = (In-map (walked w) u (keep p edges)).0 listed in
        let (there, passes) = (In-keep p e edges).0 kept in (e, differ, same, there, passes)
  ]

  -- A node that the text does not have is not in the list that it spells.
  unseen :
      (w : Walk) (e : EdgeRow) (seen : List String)
      → w.visited ≡ spelled seen
      → contains_text w.visited (enclosed e.dst) ≡ false
      → contains seen e.dst ≡ false
  unseen w e seen spells h = elim (Bool-cases (contains seen e.dst)) [
    | inr new ↦ new
    | inl old ↦
        let there = contains_text-spelled seen e.dst ((contains_iff seen e.dst).0 old) in
        let again : contains_text w.visited (enclosed e.dst) ≡ true =
          subst (λ t. contains_text t (enclosed e.dst) ≡ true) (sym spells) there in
        cc
  ]

  not_found :
      (w : Walk) (e : EdgeRow) (seen : List String)
      → w.visited ≡ spelled seen
      → All IsClean seen
      → IsClean e.dst
      → contains seen e.dst ≡ false
      → contains_text w.visited (enclosed e.dst) ≡ false
  not_found w e seen spells all_clean clean h =
      elim (Bool-cases (contains_text w.visited (enclosed e.dst))) [
        | inr new ↦ new
        | inl old ↦
            let there =
              spelled-In seen e.dst all_clean clean
                (subst (λ t. contains_text t (enclosed e.dst) ≡ true) spells old) in
            let again = (contains_iff seen e.dst).1 there in cc
      ]

  IsClean-ends :
      (es : List EdgeRow)
      → All (λ e. IsClean e.dst) edges
      → All (IsChosen kinds edges) es
      → All (λ e. IsClean e.dst) es
  IsClean-ends es ends chosen =
      All-map (IsChosen kinds edges) (λ e. IsClean e.dst) es
        (λ e c. All-In (λ e. IsClean e.dst) e edges ends c.0) chosen

  -- What one step has checked.
  extends-true :
      (w : Walk) (e : EdgeRow)
      → extends kinds edges to max w e ≡ true
      → (e.src ≡ w.node)
        × (contains_text w.visited (enclosed e.dst) ≡ false)
        × (admits kinds e.kind ≡ true)
        × (w.depth + 1 ≤ max)
  unfolding extends in_time
  extends-true w e h = ground arith

  stop :
      (w v : Walk) (seen : List String)
      → v ≡ w
      → v.node ≡ to
      → w.depth ≤ max
      → (es : List EdgeRow) × Rest w seen es
        × (v.path ≡ w.path ++ es)
        × (v.depth ≡ w.depth + length es)
  stop w v seen e at le = (
    [],
    record { chosen = tt; leads = sym (ap (λ x. x.node) e) ∙ at; fresh = tt; short = omega arith },
    ap (λ x. x.path) e ∙ sym (append-nil w.path),
    ap (λ x. x.depth) e ∙ omega arith,
  )

  -- A row that `walks` reaches at the goal has walked such a rest.
  walks_sound :
      (fuel : ℕ) (w v : Walk) (seen : List String)
      → w.visited ≡ spelled seen
      → In v (walks kinds edges to max fuel w)
      → v.node ≡ to
      → w.depth ≤ max
      → (es : List EdgeRow) × Rest w seen es
        × (v.path ≡ w.path ++ es)
        × (v.depth ≡ w.depth + length es)
  unfolding walks
  walks_sound zero w v seen spells (inl e) at le = stop w v seen e at le
  walks_sound zero w v seen spells (inr m) at le = absurd m
  walks_sound (suc fuel) w v seen spells (inl e) at le = stop w v seen e at le
  walks_sound (suc fuel) w v seen spells (inr m) at le =
      let (u, stepped, further) =
        (In-flat_map (walks kinds edges to max fuel) v (walk_step kinds edges to max w)).0 m in
      let (e, _, same, there, ext) = In-walk_step w u stepped in
      let (src_eq, new, admitted, in_time) = extends-true w e ext in
      let depth_eq : u.depth ≡ w.depth + 1 = ap (λ x. x.depth) same in
      let spelled_on : u.visited ≡ spelled (seen ++ e.dst ∷ []) =
        ap (λ x. x.visited) same
        ∙ (ap (λ t. t <> (e.dst <> separated "")) spells ∙ sym (spelled-last seen e.dst)) in
      let (es, rest, path_eq, length_eq) =
        walks_sound fuel u v (seen ++ e.dst ∷ []) spelled_on further at (omega arith) in
      let moved : Rest (walked w e) (seen ++ e.dst ∷ []) es =
        subst (λ x. Rest x (seen ++ e.dst ∷ []) es) same rest in
      (
        e ∷ es,
        record {
          chosen = ((there, admitted), moved.chosen);
          leads = (src_eq, moved.leads);
          fresh = (unseen w e seen spells new, moved.fresh);
          short = omega (arith, moved.short);
        },
        path_eq ∙ ap (λ x. x.path ++ es) same ∙ append_assoc w.path (e ∷ []) es,
        omega arith,
      )

  -- A rest that is not empty starts with a step, and the pruning by near lets it pass.
  extends_of_Rest :
      (w : Walk) (e : EdgeRow) (es : List EdgeRow) (seen : List String)
      → w.visited ≡ spelled seen
      → All IsClean seen
      → IsClean e.dst
      → Rest w seen (e ∷ es)
      → extends kinds edges to max w e ≡ true
  unfolding extends in_time
  extends_of_Rest w e es seen spells all_clean clean r =
      let (d, there, le) =
        near_to_bound kinds edges e.dst to max es r.chosen.1 r.leads.1 (omega (arith, r.short)) in
      let passed : in_time max w.depth (near_to kinds edges to max e.dst) ≡ true =
        rw there (ground (arith, r.short)) in
      let new = not_found w e seen spells all_clean clean r.fresh.0 in
      let admitted = r.chosen.0.1 in let from_here = r.leads.0 in ground arith

  goal_unvisited :
      (visited : List String) (e : EdgeRow) (es : List EdgeRow)
      → Leads e.dst es to
      → IsFresh visited (e ∷ es)
      → contains visited to ≡ true
      → ⊥
  goal_unvisited visited e [] leads fresh there = ground (arith, fresh.0)
  goal_unvisited visited e (f ∷ es) leads fresh there =
      goal_unvisited (visited ++ e.dst ∷ []) f es leads.1 fresh.1 (rw (contains-append, there))

  -- Before the goal the node of a row is not the goal.
  node-ne-goal :
      (w : Walk) (e : EdgeRow) (es : List EdgeRow) (seen : List String)
      → contains seen w.node ≡ true
      → Rest w seen (e ∷ es)
      → w.node ≢ to
  node-ne-goal w e es seen here r same =
      goal_unvisited seen e es r.leads.1 r.fresh (rw same at here)

  step_In :
      (w : Walk) (e : EdgeRow) (es : List EdgeRow) (seen : List String)
      → w.visited ≡ spelled seen
      → All IsClean seen
      → IsClean e.dst
      → Rest w seen (e ∷ es)
      → contains seen w.node ≡ true
      → In (walked w e) (walk_step kinds edges to max w)
  unfolding walk_step
  step_In w e es seen spells all_clean clean r here =
      rw (if_neg _ (node-ne-goal w e es seen here r)) (
        (In-map (walked w) (walked w e) (keep (extends kinds edges to max w) edges)).1 (
          e,
          (In-keep (extends kinds edges to max w) e edges).1
              ((r.chosen.0).0, extends_of_Rest w e es seen spells all_clean clean r),
          refl,
        ))

  contains_last : (visited : List String) (x : String) → contains (visited ++ x ∷ []) x ≡ true
  unfolding contains
  contains_last [] x = ground arith
  contains_last (y ∷ visited) x = ground (arith, contains_last visited x)

  walks_complete :
      (fuel : ℕ) (w : Walk) (es : List EdgeRow) (seen : List String)
      → w.visited ≡ spelled seen
      → All IsClean seen
      → All (λ e. IsClean e.dst) es
      → Rest w seen es
      → contains seen w.node ≡ true
      → length es ≤ fuel
      → (v : Walk) × In v (walks kinds edges to max fuel w)
        × (v.node ≡ to)
        × (v.path ≡ w.path ++ es)
        × (v.depth ≡ w.depth + length es)
  unfolding walks
  walks_complete zero w [] seen spells clean ends r here le =
      (w, inl refl, r.leads, sym (append-nil w.path), omega arith)
  walks_complete zero w (e ∷ es) seen spells clean ends r here le = absurd (omega arith)
  walks_complete (suc fuel) w [] seen spells clean ends r here le =
      (w, inl refl, r.leads, sym (append-nil w.path), omega arith)
  walks_complete (suc fuel) w (e ∷ es) seen spells clean ends r here le =
      let u = walked w e in
      let rest : Rest u (seen ++ e.dst ∷ []) es = record {
        chosen = r.chosen.1;
        leads = r.leads.1;
        fresh = r.fresh.1;
        short = omega (arith, r.short);
      } in
      let (v, further, at, path_eq, depth_eq) =
        walks_complete fuel u es (seen ++ e.dst ∷ [])
          (ap (λ t. t <> (e.dst <> separated "")) spells ∙ sym (spelled-last seen e.dst))
          (All-append IsClean seen (e.dst ∷ []) clean (ends.0, tt)) ends.1 rest
          (contains_last seen e.dst) (omega arith) in
      (
        v,
        inr (
            (In-flat_map (walks kinds edges to max fuel) v (walk_step kinds edges to max w)).1
              (u, step_In w e es seen spells clean ends.0 r here, further)),
        at,
        path_eq ∙ append_assoc w.path (e ∷ []) es,
        omega arith,
      )

  -- A simple path from `from` to the goal.
  pub record IsSimplePath (from : String) (es : List EdgeRow) : Type 0 where
    pub walked_some : es ≢ []
    pub chosen : All (IsChosen kinds edges) es
    pub leads : Leads from es to
    pub fresh : IsFresh (from ∷ []) es
    pub short : length es ≤ max

  abbrev at_goal : Walk → Bool
  at_goal w = w.node == to && not (w.depth == 0)

  path_not_nil : (depth : ℕ) (es : List EdgeRow) → depth ≢ 0 → depth ≡ 0 + length es → es ≢ []
  path_not_nil depth [] deep e = absurd (omega arith)
  path_not_nil depth (x ∷ es) deep e = λ h. cc

  IsSimplePath-of_Rest :
      (from : String) (es : List EdgeRow)
      → es ≢ []
      → Rest (start_walk from) (from ∷ []) es
      → IsSimplePath from es
  IsSimplePath-of_Rest from es some_walked rest = record {
    walked_some = some_walked;
    chosen = rest.chosen;
    leads = rest.leads;
    fresh = rest.fresh;
    short = omega (arith, rest.short);
  }

  pub found_depth :
      (from : String) (v : Walk) → In v (found kinds edges to max from) → v.depth ≡ length v.path
  unfolding found
  found_depth from v m =
      let (listed, test) =
        (In-keep at_goal v (walks kinds edges to max max (start_walk from))).0 m in
      let (es, rest, path_eq, depth_eq) =
        walks_sound max (start_walk from) v (from ∷ []) refl listed (ground arith) (omega arith) in
      rw path_eq (omega arith)

  pub IsSimplePath-of_found :
      (from : String) (v : Walk) → In v (found kinds edges to max from) → IsSimplePath from v.path
  unfolding found
  IsSimplePath-of_found from v m =
      let (listed, test) =
        (In-keep at_goal v (walks kinds edges to max max (start_walk from))).0 m in
      let (es, rest, path_eq, depth_eq) =
        walks_sound max (start_walk from) v (from ∷ []) refl listed (ground arith) (omega arith) in
      let deep : v.depth ≢ 0 = unfold nat_eq in ground arith in
      rw path_eq (IsSimplePath-of_Rest from es (path_not_nil v.depth es deep depth_eq) rest)

  found_of_IsSimplePath :
      (from : String) (es : List EdgeRow)
      → IsClean from
      → All (λ e. IsClean e.dst) edges
      → IsSimplePath from es
      → (v : Walk) × In v (found kinds edges to max from) × (v.path ≡ es)
  unfolding found contains
  found_of_IsSimplePath from [] clean ends h = absurd (h.walked_some refl)
  found_of_IsSimplePath from (e ∷ es) clean ends h =
      let rest : Rest (start_walk from) (from ∷ []) (e ∷ es) = record {
        chosen = h.chosen;
        leads = h.leads;
        fresh = h.fresh;
        short = omega (arith, h.short);
      } in
      let (v, listed, at, path_eq, depth_eq) =
        walks_complete max (start_walk from) (e ∷ es) (from ∷ []) refl (clean, tt)
          (IsClean-ends (e ∷ es) ends h.chosen) rest (ground arith) h.short in
      let passes : at_goal v ≡ true = unfold nat_eq in ground arith in
      (
        v,
        (In-keep at_goal v (walks kinds edges to max max (start_walk from))).1 (listed, passes),
        path_eq,
      )

  -- Where no id has the character 31, which the query sets between the ids of the visited nodes, the recursive query
  -- finds the simple paths and no others: a list of edges is the path of a row
  -- at the goal exactly if it is not empty, its edges are in the table and of admitted kinds, they
  -- lead from `from` to `to`, visit no node twice, and are at most `max` many. So skipping the nodes
  -- that cannot reach the goal in time loses no path.
  pub found_iff :
      (from : String) (es : List EdgeRow)
      → IsClean from
      → All (λ e. IsClean e.dst) edges
      → ((v : Walk) × In v (found kinds edges to max from) × (v.path ≡ es)) ↔ IsSimplePath from es
  found_iff from es clean ends = (
    λ (v, m, same). subst (IsSimplePath from) same (IsSimplePath-of_found from v m),
    found_of_IsSimplePath from es clean ends,
  )
