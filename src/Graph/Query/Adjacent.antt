-- ===== src/Graph/Query/Adjacent.antt =====
-- What Neighbors returns (internal/graph/query.go), over sound tables.
use mathlib.Core.List.{Perm}
use mathlib.Core.List.Perm
use interactivecodebase.Base.{
  ◌≡◌, refl, ap, String, ◌==◌, string_eq, Bool, true, false, List, [], ◌∷◌, map, arith, keep, any,
  All,
}
use interactivecodebase.Base.Sort.{sort_by-perm, sort_by-All, sort_by-IsSorted, IsSorted}
use interactivecodebase.Graph.Kinds.{EdgeKind}
use interactivecodebase.Graph.Store.{NodeRow, EdgeRow, Tables, has_node}
use interactivecodebase.Graph.Store.Integrity.{DistinctIds, HasEnds, IsSound}
use interactivecodebase.Graph.Query.{
  Direction, out, into, other_end, selects, Joined, joined_le, join, neighbor_rows,
}
use interactivecodebase.Graph.Query.Order.{joined_le_total, joined_le_trans}

abbrev pub edge_of : Joined → EdgeRow
edge_of (e, _) = e

keep_absent :
    (k : String) (rows : List NodeRow) → has_node k rows ≡ false → keep (λ r. r.id == k) rows ≡ []
unfolding has_node keep any
keep_absent k [] h = refl
keep_absent k (r ∷ rows) h = ground (arith, keep_absent k rows)

-- An id that is there is there once.
keep_present :
    (k : String) (rows : List NodeRow)
    → DistinctIds rows
    → has_node k rows ≡ true
    → (r : NodeRow) × (keep (λ s. s.id == k) rows ≡ r ∷ []) × (r.id ≡ k)
unfolding has_node keep any
keep_present k [] d h = absurd (ground arith)
keep_present k (r ∷ rows) d h = elim (string_eq.dec r.id k) [
  | yes e ↦ (r, ground (arith, keep_absent k rows), e)
  | no differ ↦ let (s, one, e) = keep_present k rows d.1 (ground arith) in (s, ground arith, e)
]

abbrev IsJoined : Direction → Joined → Type 0
IsJoined dir (e, r) = r.id ≡ other_end dir e

join_lem :
    (dir : Direction) (edges : List EdgeRow) (nodes : List NodeRow)
    → DistinctIds nodes
    → All (HasEnds nodes) edges
    → (map edge_of (join dir edges nodes) ≡ edges) × All (IsJoined dir) (join dir edges nodes)
unfolding join
join_lem dir [] nodes d h = (refl, tt)
join_lem dir (e ∷ edges) nodes d h =
    let (r, one, named) = keep_present (other_end dir e) nodes d (present dir) in
    let (same, rest) = join_lem dir edges nodes d h.1 in rw one (ap (◌∷◌ e) same, (named, rest))
  where
    present : (dir : Direction) → has_node (other_end dir e) nodes ≡ true
    present out = unfold other_end in h.0.1
    present into = unfold other_end in h.0.0

keep-All :
    (P : EdgeRow → Type 0) (p : EdgeRow → Bool) (edges : List EdgeRow)
    → All P edges
    → All P (keep p edges)
unfolding keep
keep-All P p [] h = tt
keep-All P p (e ∷ edges) h = ground (arith, keep-All P p edges h.1)

-- Over sound tables Neighbors returns each edge that leaves (or enters) the node and has one of the
-- kinds exactly once, with the node at its other end, in the order of call sites.
pub neighbor_rows_lem :
    (id : String) (dir : Direction) (kinds : List EdgeKind) (t : Tables)
    → IsSound t
    → Perm (map edge_of (neighbor_rows id dir kinds t)) (keep (selects id dir kinds) t.edges)
      × All (λ n. (n.1).id ≡ other_end dir n.0) (neighbor_rows id dir kinds t)
      × IsSorted joined_le (neighbor_rows id dir kinds t)
unfolding neighbor_rows
neighbor_rows_lem id dir kinds t s =
    let chosen = keep (selects id dir kinds) t.edges in
    let (same, joined) =
      join_lem dir chosen t.nodes s.ids
        (keep-All (HasEnds t.nodes) (selects id dir kinds) t.edges s.ends) in
    (
      subst_perm same (Perm.map edge_of (sort_by-perm joined_le (join dir chosen t.nodes))),
      sort_by-All joined_le (IsJoined dir) (join dir chosen t.nodes) joined,
      sort_by-IsSorted joined_le joined_le_total joined_le_trans (join dir chosen t.nodes),
    )
  where
    subst_perm : {xs ys zs : List EdgeRow} → ys ≡ zs → Perm xs ys → Perm xs zs
    subst_perm e p = rw e at p
