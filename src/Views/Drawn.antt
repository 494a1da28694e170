-- ===== src/Views/Drawn.antt =====
-- The tables and the foreign keys of an ER diagram around a table (internal/views/views.go, ER).
use interactivecodebase.Base.{
  ok-inj, ℕ, ◌≡◌, ◌≢◌, refl, sym, ◌∙◌, ap, subst, inl, inr, ◌↔◌, String, string_eq, Bool, true,
  false, not, List, [], ◌∷◌, ◌++◌, map, contains, contains_iff, In, In-append, Result, ok, ◌>>=◌,
  >>=-eq-ok, if◌then◌else◌,
}
use interactivecodebase.Graph.Kinds.{fk, sql_table, has_column}
use interactivecodebase.Graph.Model.{Node, Edge, GraphError, node_id}
use interactivecodebase.Graph.Query.{Neighbor, out}
use interactivecodebase.Graph.Reader.{Reader}
use interactivecodebase.Mermaid.{Diagram}
use interactivecodebase.Mermaid.Er.{Table, er}
use interactivecodebase.Views.{included, edges_inside, collect, er_around}
use interactivecodebase.Views.Nearby.{IsNear, included_near}

module _ (g : Reader) where
  -- A table of the diagram: one of the listed ones whose id is in the set, with its columns.
  abbrev pub IsTable : List Node → (String → Type 0) → Table → Type 0
  IsTable ts Inside t =
      In t.node ts
      × Inside t.node.id
      × ((cols : List Neighbor) × (g.adjacent t.node.id out (has_column ∷ []) ≡ ok cols)
          × (t.columns ≡ map (λ c. c.node) cols))

  -- A foreign key of the diagram: from a listed table whose id is in the set to a node whose id is.
  abbrev pub IsKey : List Node → (String → Type 0) → Edge → Type 0
  IsKey ts Inside e =
      (t : Node) × (outs : List Neighbor) × (nb : Neighbor) × In t ts
      × Inside t.id
      × (g.adjacent t.id out (fk ∷ []) ≡ ok outs)
      × In nb outs
      × Inside nb.node.id
      × (nb.edge ≡ e)

  edges_inside_iff :
      (include : List String) (nbs : List Neighbor) (e : Edge)
      → In e (edges_inside g include nbs)
        ↔ ((nb : Neighbor) × In nb nbs × In nb.node.id include × (nb.edge ≡ e))
  unfolding edges_inside
  edges_inside_iff include [] e = (λ m. absurd m, λ (nb, m, i, same). absurd m)
  edges_inside_iff include (nb ∷ nbs) e =
      by_test (contains include nb.node.id) refl (edges_inside_iff include nbs e)
    where
      Listed : List Neighbor → Type 0
      Listed all = (k : Neighbor) × In k all × In k.node.id include × (k.edge ≡ e)

      by_test :
          (b : Bool)
          → contains include nb.node.id ≡ b
          → In e (edges_inside g include nbs) ↔ Listed nbs
          → In e (if b then nb.edge ∷ edges_inside g include nbs else edges_inside g include nbs)
            ↔ Listed (nb ∷ nbs)
      by_test true h rest = (
        λ m. elim m [
          | inl same ↦ (nb, inl refl, (contains_iff include nb.node.id).0 h, sym same)
          | inr later ↦ let (k, i, j, same) = rest.0 later in (k, inr i, j, same)
        ],
        λ (k, i, j, same). elim i [
          | inl this ↦ inl (sym same ∙ ap (λ x. x.edge) this)
          | inr later ↦ inr (rest.1 (k, later, j, same))
        ],
      )
      by_test false h rest = (
        λ m. let (k, i, j, same) = rest.0 m in (k, inr i, j, same),
        λ (k, i, j, same). elim i [
          | inl this ↦ absurd (
              let there =
                (contains_iff include nb.node.id).1 (subst (λ x. In x.node.id include) this j) in
              cc)
          | inr later ↦ rest.1 (k, later, j, same)
        ],
      )

  -- What the loop over the tables collects.
  Collects : List String → List Node → List Table × List Edge → Type 0
  Collects include ts found =
      ((t : Table) → In t found.0 ↔ IsTable ts (λ id. In id include) t)
      × ((e : Edge) → In e found.1 ↔ IsKey ts (λ id. In id include) e)

  collect_skips :
      (include : List String) (n : Node) (ts : List Node) (found : List Table × List Edge)
      → contains include n.id ≡ false
      → Collects include ts found
      → Collects include (n ∷ ts) found
  unfolding Collects
  collect_skips include n ts found h (tables, keys) = (
    λ t. (
      λ m. let (i, j, cols) = (tables t).0 m in (inr i, j, cols),
      λ (i, j, cols). elim i [
        | inl this ↦
            absurd (
              let there = (contains_iff include n.id).1 (subst (λ x. In x.id include) this j) in cc)
        | inr later ↦ (tables t).1 (later, j, cols)
      ],
    ),
    λ e. (
      λ m.
          let (t, outs, nb, i, j, l, k, w, same) = (keys e).0 m in
          (t, outs, nb, inr i, j, l, k, w, same),
      λ (t, outs, nb, i, j, l, k, w, same). elim i [
        | inl this ↦
            absurd (
              let there = (contains_iff include n.id).1 (subst (λ x. In x.id include) this j) in cc)
        | inr later ↦ (keys e).1 (t, outs, nb, later, j, l, k, w, same)
      ],
    ),
  )

  collect_takes :
      (include : List String) (n : Node) (ts : List Node) (cols outs : List Neighbor)
      (found : List Table × List Edge)
      → contains include n.id ≡ true
      → g.adjacent n.id out (has_column ∷ []) ≡ ok cols
      → g.adjacent n.id out (fk ∷ []) ≡ ok outs
      → Collects include ts found
      → Collects include (n ∷ ts) (
        record { node = n; columns = map (λ c. c.node) cols } ∷ found.0,
        edges_inside g include outs ++ found.1,
      )
  unfolding Collects
  collect_takes include n ts cols outs found h read joined (tables, keys) = (
    λ t. (
      λ m. elim m [
        | inl this ↦
            subst (IsTable (n ∷ ts) (λ id. In id include)) (sym this)
              (inl refl, (contains_iff include n.id).0 h, (cols, read, refl))
        | inr later ↦ let (i, j, more) = (tables t).0 later in (inr i, j, more)
      ],
      λ (i, j, more). elim i [
        | inl this ↦ inl (same_table t this more)
        | inr later ↦ inr ((tables t).1 (later, j, more))
      ],
    ),
    λ e. (
      λ m. elim ((In-append e (edges_inside g include outs) found.1).0 m) [
        | inl mine ↦
            let (nb, i, j, same) = (edges_inside_iff include outs e).0 mine in
            (n, outs, nb, inl refl, (contains_iff include n.id).0 h, joined, i, j, same)
        | inr later ↦
            let (t, os, nb, i, j, l, k, w, same) = (keys e).0 later in
            (t, os, nb, inr i, j, l, k, w, same)
      ],
      λ (t, os, nb, i, j, listed, k, inside, same).
          (In-append e (edges_inside g include outs) found.1).1 (elim i [
            | inl this ↦
                let all : os ≡ outs =
                  ok-inj (sym listed ∙ (ap (λ x. g.adjacent x.id out (fk ∷ [])) this ∙ joined)) in
                inl ((edges_inside_iff include outs e).1 (nb, subst (In nb) all k, inside, same))
            | inr later ↦ inr ((keys e).1 (t, os, nb, later, j, listed, k, inside, same))
          ]),
    ),
  )
    where
      same_table :
          (t : Table)
          → t.node ≡ n
          → ((cs : List Neighbor) × (g.adjacent t.node.id out (has_column ∷ []) ≡ ok cs)
              × (t.columns ≡ map (λ c. c.node) cs))
          → ◌≡◌ {A = Table} t (record { node = n; columns = map (λ c. c.node) cols })
      same_table t this (cs, listed, columns) =
          let all : cs ≡ cols =
            ok-inj (sym listed ∙ (ap (λ x. g.adjacent x.id out (has_column ∷ [])) this ∙ read)) in
          let cells : t.columns ≡ map (λ c. c.node) cols = columns ∙ ap (map (λ c. c.node)) all in
          cc

  collect-Collects :
      (include : List String) (ts : List Node) (found : List Table × List Edge)
      → collect g include ts ≡ ok found
      → Collects include ts found
  unfolding collect Collects
  collect-Collects include [] found h = subst (Collects include []) (ok-inj h) (
    (λ t. (λ m. absurd m, λ (i, j, c). absurd i)),
    (λ e. (λ m. absurd m, λ (t, outs, nb, i, j, l, k, w, same). absurd i)),
  )
  collect-Collects include (n ∷ ts) found h =
      by_test (contains include n.id) refl (collect-Collects include ts) h
    where
      taken : Result GraphError (List Table × List Edge)
      taken = g.adjacent n.id out (has_column ∷ []) >>= λ cols.
          g.adjacent n.id out (fk ∷ []) >>= λ outs. collect g include ts >>= λ (tables, fks). ok (
            record { node = n; columns = map (λ c. c.node) cols } ∷ tables,
            edges_inside g include outs ++ fks,
          )

      by_test :
          (b : Bool)
          → contains include n.id ≡ b
          → ((rest : List Table × List Edge)
              → collect g include ts ≡ ok rest
              → Collects include ts rest)
          → (if not b then collect g include ts else taken) ≡ ok found
          → Collects include (n ∷ ts) found
      by_test false e below h = collect_skips include n ts found e (below found h)
      by_test true e below h =
          let (cols, read, more) = >>=-eq-ok (g.adjacent n.id out (has_column ∷ [])) _ h in
          let (outs, joined, others) = >>=-eq-ok (g.adjacent n.id out (fk ∷ [])) _ more in
          let (rest, collected, made) = >>=-eq-ok (collect g include ts) _ others in
          subst (Collects include (n ∷ ts)) (ok-inj made)
            (collect_takes include n ts cols outs rest e read joined (below rest collected))

  -- The ER diagram around a table draws, of the tables of the graph, those that are at most `depth` foreign keys away
  -- from it in either direction, with the columns that the graph has of them, and the foreign keys that lead from one
  -- of them to a node that is so near.
  pub er_around_near :
      (table : String) (depth : ℕ) (all : List Node) (d : Diagram)
      → table ≢ ""
      → g.nodes (sql_table ∷ []) ≡ ok all
      → er_around g table depth ≡ ok d
      → (tables : List Table) × (keys : List Edge) × (d ≡ er tables keys)
        × ((t : Table) → In t tables ↔ IsTable all (IsNear g (node_id sql_table table) depth) t)
        × ((e : Edge) → In e keys ↔ IsKey all (IsNear g (node_id sql_table table) depth) e)
  unfolding er_around Collects
  er_around_near table depth all d named listed h =
      let (ts, read, more) = >>=-eq-ok (g.nodes (sql_table ∷ [])) _ h in
      let (include, inside, rest) = >>=-eq-ok (included g table depth ts) _ more in
      let (found, collected, made) = >>=-eq-ok (collect g include ts) _ rest in
      let same : ts ≡ all = ok-inj (sym read ∙ listed) in
      let near = included_near g table depth ts include named inside in
      let (tables, keys) =
        subst (λ x. Collects include x found) same (collect-Collects include ts found collected) in
      (
        found.0,
        found.1,
        sym (ok-inj made),
        (λ t. (
          λ m. let (i, j, c) = (tables t).0 m in (i, (near t.node.id).0 j, c),
          λ (i, j, c). (tables t).1 (i, (near t.node.id).1 j, c),
        )),
        (λ e. (
          λ m.
              let (t, outs, nb, i, j, l, k, w, x) = (keys e).0 m in
              (t, outs, nb, i, (near t.id).0 j, l, k, (near nb.node.id).0 w, x),
          λ (t, outs, nb, i, j, l, k, w, x).
              (keys e).1 (t, outs, nb, i, (near t.id).1 j, l, k, (near nb.node.id).1 w, x),
        )),
      )
