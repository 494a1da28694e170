-- ===== src/Graph/Paths/Near.antt =====
-- The table near (internal/graph/query.go): no node that still reaches the goal in time is left out.
use interactivecodebase.Base.{
  contains_iff, In-of_contains, ℕ, zero, suc, min, ◌+◌, ◌≤◌, ◌≡◌, refl, subst, ◌∙◌, inl, inr,
  String, string_eq, true, ◌&&◌, some, List, [], ◌∷◌, map, arith, contains, keep, length, All, In,
  In-append, In-keep, In-map, Option-cases,
}
use interactivecodebase.Graph.Kinds.{EdgeKind}
use interactivecodebase.Graph.Store.{EdgeRow}
use interactivecodebase.Graph.Query.{admits}
use interactivecodebase.Graph.Paths.{dedup, back_step, at_distance, back, near, near_to}

-- The edges `es` lead from `a` to `b`.
abbrev pub Leads : String → List EdgeRow → String → Type 0
Leads a [] b = a ≡ b
Leads a (e ∷ es) b = (e.src ≡ a) × Leads e.dst es b

-- An edge of the table, of an admitted kind.
abbrev pub IsChosen : List EdgeKind → List EdgeRow → EdgeRow → Type 0
IsChosen kinds edges e = In e edges × (admits kinds e.kind ≡ true)

contains-dedup : (x : String) (xs : List String) → contains (dedup xs) x ≡ contains xs x
unfolding contains dedup
contains-dedup x [] = refl
contains-dedup x (y ∷ xs) = ground (arith, contains-dedup x xs, contains-dedup y xs)

near_le :
    (k : String) (d : ℕ) (rows : List (String × ℕ))
    → In (k, d) rows
    → (r : ℕ) × (near rows k ≡ some r) × (r ≤ d)
unfolding near
near_le k d [] h = absurd h
near_le k d ((n, m) ∷ rows) (inl e) = elim (Option-cases (near rows k)) [
  | inl none_there ↦ (d, ground arith, omega arith)
  | inr (r, there) ↦ (min d r, ground arith, omega arith)
]
near_le k d ((n, m) ∷ rows) (inr h) =
    let (r, there, le) = near_le k d rows h in
    elim (string_eq.dec n k) [
      | yes same ↦ (min m r, ground arith, omega arith)
      | no differ ↦ (r, ground arith, le)
    ]

module _ (kinds : List EdgeKind) (edges : List EdgeRow) where
  -- `k` rounds of the recursion.
  abbrev rounds : ℕ → List String → List String
  rounds zero level = level
  rounds (suc k) level = rounds k (back_step kinds edges level)

  rounds-suc :
      (k : ℕ) (level : List String) → rounds (suc k) level ≡ back_step kinds edges (rounds k level)
  rounds-suc zero level = refl
  rounds-suc (suc k) level = rounds-suc k (back_step kinds edges level)

  contains-back_step :
      (e : EdgeRow) (level : List String)
      → IsChosen kinds edges e
      → contains level e.dst ≡ true
      → contains (back_step kinds edges level) e.src ≡ true
  unfolding back_step
  contains-back_step e level chosen there =
      let p = λ (f : EdgeRow). contains level f.dst && admits kinds f.kind in
      let kept : In e (keep p edges) = (In-keep p e edges).1 (chosen.0, ground arith) in
      contains-dedup e.src (map (λ f. f.src) (keep p edges))
      ∙ (contains_iff (map (λ f. f.src) (keep p edges)) e.src).1
          ((In-map (λ f. f.src) e.src (keep p edges)).1 (e, kept, refl))

  Leads-rounds :
      (a to : String) (es : List EdgeRow)
      → All (IsChosen kinds edges) es
      → Leads a es to
      → contains (rounds (length es) (to ∷ [])) a ≡ true
  unfolding contains
  Leads-rounds a to [] chosen h = ground arith
  Leads-rounds a to (e ∷ es) chosen h = rw (rounds-suc (length es) (to ∷ [])) (
      subst (λ x. contains (back_step kinds edges (rounds (length es) (to ∷ []))) x ≡ true) h.0
        (contains-back_step e (rounds (length es) (to ∷ [])) chosen.0
          (Leads-rounds e.dst to es chosen.1 h.1)))

  In-at_distance :
      (d : ℕ) (level : List String) (a : String)
      → contains level a ≡ true
      → In (a, d + 0) (at_distance d level)
  In-at_distance d level a h =
      subst (λ n. In (a, n) (at_distance d level)) (omega arith)
        ((In-map (λ n. (n, d)) (a, d) level).1 (a, In-of_contains a level h, refl))

  In-back :
      (rest d k : ℕ) (level : List String) (a : String)
      → k ≤ rest
      → contains (rounds k level) a ≡ true
      → In (a, d + k) (back kinds edges rest d level)
  unfolding back
  In-back zero d zero level a le h = In-at_distance d level a h
  In-back zero d (suc k) level a le h = absurd (omega arith)
  In-back (suc rest) d zero level a le h =
      (In-append (a, d + 0) (at_distance d level)
          (back kinds edges rest (suc d) (back_step kinds edges level))).1
        (inl (In-at_distance d level a h))
  In-back (suc rest) d (suc k) level a le h =
      (In-append (a, d + suc k) (at_distance d level)
          (back kinds edges rest (suc d) (back_step kinds edges level))).1
        (inr (
          subst (λ n. In (a, n) (back kinds edges rest (suc d) (back_step kinds edges level)))
            (omega arith) (In-back rest (suc d) k (back_step kinds edges level) a (omega arith) h)))

  -- A node from which the goal is reached by chosen edges, `max` at most, has a distance in near,
  -- and no greater one than their number.
  pub near_to_bound :
      (a to : String) (max : ℕ) (es : List EdgeRow)
      → All (IsChosen kinds edges) es
      → Leads a es to
      → length es ≤ max
      → (r : ℕ) × (near_to kinds edges to max a ≡ some r) × (r ≤ length es)
  unfolding near_to
  near_to_bound a to max es chosen h le = near_le a (length es) (back kinds edges max 0 (to ∷ [])) (
      subst (λ n. In (a, n) (back kinds edges max 0 (to ∷ []))) (omega arith)
        (In-back max 0 (length es) (to ∷ []) a le (Leads-rounds a to es chosen h)))
