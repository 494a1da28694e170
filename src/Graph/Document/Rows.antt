-- ===== src/Graph/Document/Rows.antt =====
-- Rows that are sorted, appended and looked up (internal/graph/query.go, internal/graph/graph.go):
-- the steps of the round trip.
use interactivecodebase.Base.{
  ◌≡◌, refl, ◌∙◌, String, ◌==◌, string_eq, nat_eq, Bool, false, ◌||◌, List, [], ◌∷◌, ◌++◌, arith,
  any,
}
use interactivecodebase.Base.Text.{text_le}
use interactivecodebase.Base.Sort.{insert_by, sort_by}
use interactivecodebase.Graph.Store.{NodeRow, EdgeRow, has_node, upsert, same_key}
use interactivecodebase.Graph.Store.Integrity.{DistinctIds, DistinctKeys}

-- ORDER BY n.id
abbrev pub by_id : NodeRow → NodeRow → Bool
by_id a b = text_le a.id b.id

has_node-insert_by :
    (k : String) (r : NodeRow) (rows : List NodeRow)
    → has_node k (insert_by by_id r rows) ≡ (k == r.id || has_node k rows)
unfolding has_node any insert_by
has_node-insert_by k r [] = refl
has_node-insert_by k r (s ∷ rows) = ground (arith, has_node-insert_by k r rows)

pub has_node-sort_by :
    (k : String) (rows : List NodeRow) → has_node k (sort_by by_id rows) ≡ has_node k rows
unfolding has_node any sort_by
has_node-sort_by k [] = refl
has_node-sort_by k (r ∷ rows) =
    ground (arith, has_node-insert_by k r (sort_by by_id rows), has_node-sort_by k rows)

insert_by-DistinctIds :
    (r : NodeRow) (rows : List NodeRow)
    → has_node r.id rows ≡ false
    → DistinctIds rows
    → DistinctIds (insert_by by_id r rows)
unfolding has_node any insert_by
insert_by-DistinctIds r [] new d = (refl, tt)
insert_by-DistinctIds r (s ∷ rows) new d =
    ground (arith, insert_by-DistinctIds r rows, has_node-insert_by s.id r rows)

pub sort_by-DistinctIds :
    (rows : List NodeRow) → DistinctIds rows → DistinctIds (sort_by by_id rows)
unfolding sort_by
sort_by-DistinctIds [] d = tt
sort_by-DistinctIds (r ∷ rows) d =
    insert_by-DistinctIds r (sort_by by_id rows) (has_node-sort_by r.id rows ∙ d.0)
      (sort_by-DistinctIds rows d.1)

-- A row whose id is new is appended.
pub upsert_new :
    (r : NodeRow) (rows : List NodeRow)
    → has_node r.id rows ≡ false
    → upsert r rows ≡ rows ++ r ∷ []
unfolding has_node any upsert
upsert_new r [] new = refl
upsert_new r (s ∷ rows) new = ground (arith, upsert_new r rows)

pub has_node_middle :
    (before : List NodeRow) (r : NodeRow) (after : List NodeRow)
    → DistinctIds (before ++ r ∷ after)
    → has_node r.id before ≡ false
unfolding has_node any
has_node_middle [] r after d = refl
has_node_middle (s ∷ before) r after d =
    ground (arith, has_node_middle before r after d.1, has_node_last s before r after)
  where
    has_node_last :
        (s : NodeRow) (before : List NodeRow) (r : NodeRow) (after : List NodeRow)
        → has_node s.id (before ++ r ∷ after) ≡ false
        → (r.id == s.id) ≡ false
    has_node_last s [] r after h = ground arith
    has_node_last s (x ∷ before) r after h = has_node_last s before r after (ground arith)

pub any_middle :
    (before : List EdgeRow) (e : EdgeRow) (after : List EdgeRow)
    → DistinctKeys (before ++ e ∷ after)
    → any (same_key e) before ≡ false
unfolding any
any_middle [] e after d = refl
any_middle (f ∷ before) e after d =
    ground (arith, any_middle before e after d.1, any_last (λ g. same_key g f) before e after)
  where
    any_last :
        (p : EdgeRow → Bool) (before : List EdgeRow) (e : EdgeRow) (after : List EdgeRow)
        → any p (before ++ e ∷ after) ≡ false
        → p e ≡ false
    any_last p [] e after h = ground arith
    any_last p (x ∷ before) e after h = any_last p before e after (ground arith)
