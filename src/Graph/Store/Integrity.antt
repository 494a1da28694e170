-- ===== src/Graph/Store/Integrity.antt =====
-- Referential integrity of the tables (internal/graph/graph.go, internal/graph/schema.sql): what
-- every operation of the writer keeps.
use interactivecodebase.Base.{
  ℕ, suc, max, ◌+◌, length, ◌≡◌, ◌≢◌, refl, String, ◌==◌, string_eq, nat_eq, Bool, true, false,
  ◌||◌, none, some, List, [], ◌∷◌, ◌++◌, any, All, All-map, All-append, ok, arith, Result-cases,
  inl, inr,
}
use interactivecodebase.Graph.Kinds.{node_kind_valid, edge_kind_valid}
use interactivecodebase.Graph.Model.{Node, Edge, Json}
use interactivecodebase.Graph.Store.Inversion.{add_node-eq-ok, add_edge-eq-ok}
use interactivecodebase.Graph.Store.{
  NodeRow, EdgeRow, Tables, has_node, upsert, same_key, last_id, insert_edge, node_row, edge_row,
  add_node, add_edge, Script, return, node, edge, run_script, Faults, write,
}

-- No two rows of nodes have one id.
abbrev pub DistinctIds : List NodeRow → Type 0
DistinctIds [] = Unit
DistinctIds (r ∷ rows) = (has_node r.id rows ≡ false) × DistinctIds rows

-- No two rows of edges have one key.
abbrev pub DistinctKeys : List EdgeRow → Type 0
DistinctKeys [] = Unit
DistinctKeys (e ∷ edges) = (any (λ f. same_key f e) edges ≡ false) × DistinctKeys edges

-- The ids are consecutive, from the one after `k` on.
abbrev pub Numbered : ℕ → List EdgeRow → Type 0
Numbered k [] = Unit
Numbered k (e ∷ edges) = (e.id ≡ suc k) × Numbered (suc k) edges

-- Both endpoints of an edge are rows of nodes.
abbrev pub HasEnds : List NodeRow → EdgeRow → Type 0
HasEnds rows e = (has_node e.src rows ≡ true) × (has_node e.dst rows ≡ true)

pub record IsSound (t : Tables) : Type 0 where
  pub ids : DistinctIds t.nodes
  pub names : All (λ r. r.id ≢ "") t.nodes
  pub node_kinds : All (λ r. node_kind_valid r.kind ≡ true) t.nodes
  pub ends : All (HasEnds t.nodes) t.edges
  pub keys : DistinctKeys t.edges
  pub edge_kinds : All (λ e. edge_kind_valid e.kind ≡ true) t.edges
  pub order : Numbered 0 t.edges

pub has_node-upsert :
    (k : String) (r : NodeRow) (rows : List NodeRow)
    → has_node k (upsert r rows) ≡ (k == r.id || has_node k rows)
unfolding has_node upsert any
has_node-upsert k r [] = refl
has_node-upsert k r (s ∷ rows) = ground (arith, has_node-upsert k r rows)

upsert-DistinctIds :
    (r : NodeRow) (rows : List NodeRow) → DistinctIds rows → DistinctIds (upsert r rows)
unfolding has_node upsert any
upsert-DistinctIds r [] d = (refl, tt)
upsert-DistinctIds r (s ∷ rows) d =
    ground (arith, upsert-DistinctIds r rows d.1, has_node-upsert s.id r rows)

upsert-All :
    (P : NodeRow → Type 0) (r : NodeRow) (rows : List NodeRow)
    → P r
    → All P rows
    → All P (upsert r rows)
unfolding upsert
upsert-All P r [] p h = (p, tt)
upsert-All P r (s ∷ rows) p h = ground (arith, upsert-All P r rows p h.1)

pub last_id-Numbered :
    (k : ℕ) (edges : List EdgeRow) → Numbered k edges → max k (last_id edges) ≡ k + length edges
unfolding last_id
last_id-Numbered k [] h = omega arith
last_id-Numbered k (e ∷ edges) h = omega (arith, last_id-Numbered (suc k) edges h.1)

append-Numbered :
    (k : ℕ) (edges : List EdgeRow) (e : EdgeRow)
    → Numbered k edges
    → e.id ≡ suc (k + length edges)
    → Numbered k (edges ++ e ∷ [])
append-Numbered k [] e h n = (omega arith, tt)
append-Numbered k (f ∷ edges) e h n = (h.0, append-Numbered (suc k) edges e h.1 (omega arith))

any-append_one :
    (p : EdgeRow → Bool) (edges : List EdgeRow) (e : EdgeRow)
    → any p (edges ++ e ∷ []) ≡ (any p edges || p e)
unfolding any
any-append_one p [] e = ground arith
any-append_one p (f ∷ edges) e = ground (arith, any-append_one p edges e)

-- The id is no part of the key.
same_key-next : (e f : EdgeRow) (n : ℕ) → same_key (record e { id = n }) f ≡ same_key e f
unfolding same_key
same_key-next e f n = refl

append-DistinctKeys :
    (edges : List EdgeRow) (e : EdgeRow)
    → DistinctKeys edges
    → any (same_key e) edges ≡ false
    → DistinctKeys (edges ++ e ∷ [])
unfolding any
append-DistinctKeys [] e d h = (refl, tt)
append-DistinctKeys (f ∷ edges) e d h =
    ground (arith, append-DistinctKeys edges e d.1, any-append_one (λ g. same_key g f) edges e)

ends-upsert :
    (r : NodeRow) (rows : List NodeRow) (edges : List EdgeRow)
    → All (HasEnds rows) edges
    → All (HasEnds (upsert r rows)) edges
ends-upsert r rows edges =
    All-map (HasEnds rows) (HasEnds (upsert r rows)) edges
      λ e h. ground (arith, has_node-upsert e.src r rows, has_node-upsert e.dst r rows)

upsert-IsSound :
    (r : NodeRow) (t : Tables)
    → r.id ≢ ""
    → node_kind_valid r.kind ≡ true
    → IsSound t
    → IsSound (record t { nodes = upsert r t.nodes })
upsert-IsSound r t named k s = record {
  ids = upsert-DistinctIds r t.nodes s.ids;
  names = upsert-All (λ n. n.id ≢ "") r t.nodes named s.names;
  node_kinds = upsert-All (λ n. node_kind_valid n.kind ≡ true) r t.nodes k s.node_kinds;
  ends = ends-upsert r t.nodes t.edges s.ends;
  keys = s.keys;
  edge_kinds = s.edge_kinds;
  order = s.order;
}

append-IsSound :
    (e : EdgeRow) (t : Tables)
    → edge_kind_valid e.kind ≡ true
    → any (same_key e) t.edges ≡ false
    → HasEnds t.nodes e
    → IsSound t
    → IsSound (record t { edges = t.edges ++ record e { id = suc (last_id t.edges) } ∷ [] })
unfolding same_key
append-IsSound e t k new ends s =
    let e' = record e { id = suc (last_id t.edges) } in
    record {
      ids = s.ids;
      names = s.names;
      node_kinds = s.node_kinds;
      ends = All-append (HasEnds t.nodes) t.edges (e' ∷ []) s.ends (ends, tt);
      keys = append-DistinctKeys t.edges e' s.keys new;
      edge_kinds =
          All-append (λ f. edge_kind_valid f.kind ≡ true) t.edges (e' ∷ []) s.edge_kinds (k, tt);
      order =
          append-Numbered 0 t.edges e' s.order (omega (arith, last_id-Numbered 0 t.edges s.order));
    }

insert_edge-IsSound :
    (e : EdgeRow) (t t' : Tables)
    → edge_kind_valid e.kind ≡ true
    → IsSound t
    → insert_edge e t ≡ ok t'
    → IsSound t'
unfolding insert_edge
insert_edge-IsSound e t t' k s h = ground (arith, append-IsSound e t k)

module _ (j : Json) where
  add_node-IsSound : (n : Node) (t t' : Tables) → IsSound t → add_node j n t ≡ ok t' → IsSound t'
  add_node-IsSound n t t' s h =
      let (a, _, named, known, e) = add_node-eq-ok j n t t' h in
      rw e (upsert-IsSound (node_row n a) t named known s)

  add_edge-IsSound : (e : Edge) (t t' : Tables) → IsSound t → add_edge j e t ≡ ok t' → IsSound t'
  add_edge-IsSound e t t' s h =
      let (a, _, known, inserted) = add_edge-eq-ok j e t t' h in
      insert_edge-IsSound (edge_row e a) t t' known s inserted

  run_script-IsSound : (c : Script j) (t : Tables) → IsSound t → IsSound (run_script j c t).1
  unfolding run_script
  run_script-IsSound (return e) t s = s
  run_script-IsSound (node n k) t s = elim (Result-cases (add_node j n t)) [
    | inl (e, h) ↦ rw (h, run_script) (run_script-IsSound (k (some e)) t s)
    | inr (t', h) ↦
        rw (h, run_script) (run_script-IsSound (k none) t' (add_node-IsSound n t t' s h))
  ]
  run_script-IsSound (edge x k) t s = elim (Result-cases (add_edge j x t)) [
    | inl (e, h) ↦ rw (h, run_script) (run_script-IsSound (k (some e)) t s)
    | inr (t', h) ↦
        rw (h, run_script) (run_script-IsSound (k none) t' (add_edge-IsSound x t t' s h))
  ]

  -- Whatever the callback does and whatever the database reports, a write keeps the tables sound:
  -- node ids are distinct and not empty, edge keys are distinct, kinds are known, both ends of every
  -- edge are nodes, and the edges are numbered from 1 in the order of their insertion.
  pub write-IsSound :
      (f : Faults j) (c : Script j) (t : Tables) → IsSound t → IsSound (write j f c t).1
  unfolding write
  write-IsSound f c t s = ground (arith, run_script-IsSound c t s)

  -- A write that reports an error leaves the tables as they were. One that reports none leaves
  -- them as the callback made them, and the callback itself returned no error.
  pub write_atomic :
      (f : Faults j) (c : Script j) (t : Tables)
      → ((write j f c t).0 ≢ [] → (write j f c t).1 ≡ t)
        × ((write j f c t).0 ≡ []
            → (run_script j c t).0 ≡ none × (write j f c t).1 ≡ (run_script j c t).1)
  unfolding write
  write_atomic f c t = ground arith
