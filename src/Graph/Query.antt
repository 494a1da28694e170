-- ===== src/Graph/Query.antt =====
-- The queries of the graph (internal/graph/query.go): Node, Nodes and Neighbors, each as what its
-- SELECT statement asks for.
pub mod Counts
pub mod Order
pub mod Lookup
pub mod Adjacent
use interactivecodebase.Base.{
  ℕ, ◌≡◌, refl, ◌↔◌, arith, >>=-eq-ok, String, ◌==◌, string_eq, nat_eq, Bool, true, false, ◌&&◌,
  Option, none, some, List, [], ◌∷◌, ◌++◌, map, Result, ok, err, ◌>>=◌, keep, find, contains,
  if◌then◌else◌, ltb, leb,
}
use interactivecodebase.Base.Text.{text_le}
use interactivecodebase.Base.Sort.{sort_by}
use interactivecodebase.Graph.Kinds.{NodeKind, EdgeKind}
use interactivecodebase.Graph.Model.{Pos, Node, Edge, GraphError, not_found, Json, decode_attrs}
use interactivecodebase.Graph.Store.{NodeRow, EdgeRow, Tables}

-- `rows.Next` and `Scan` over a result: the first row that fails ends the loop.
unfoldable pub scan_all : {E A B : Type 0} → (A → Result E B) → List A → Result E (List B)
scan_all f [] = ok []
scan_all f (x ∷ xs) = f x >>= λ y. scan_all f xs >>= λ ys. ok (y ∷ ys)

-- Row by row, what a scan without a failure has read.
abbrev pub Scanned : {E A B : Type 0} → (A → Result E B) → List A → List B → Type 0
Scanned f [] [] = Unit
Scanned f [] (y ∷ ys) = ⊥
Scanned f (x ∷ xs) [] = ⊥
Scanned f (x ∷ xs) (y ∷ ys) = (f x ≡ ok y) × Scanned f xs ys

pub scan_all-eq-ok :
    {E A B : Type 0} (f : A → Result E B) (xs : List A) (ys : List B)
    → (scan_all f xs ≡ ok ys) ↔ Scanned f xs ys
unfolding scan_all
scan_all-eq-ok f [] [] = (λ _. tt, λ _. refl)
scan_all-eq-ok f [] (y ∷ ys) = (λ h. cc, λ h. absurd h)
scan_all-eq-ok f (x ∷ xs) [] = (
  λ h.
      let (y, _, more) = >>=-eq-ok (f x) _ h in
      let (rest, _, e) = >>=-eq-ok (scan_all f xs) _ more in cc,
  λ h. absurd h,
)
scan_all-eq-ok f (x ∷ xs) (y ∷ ys) = (
  λ h.
      let (z, first, more) = >>=-eq-ok (f x) _ h in
      let (rest, scanned, e) = >>=-eq-ok (scan_all f xs) _ more in
      ground (arith, (scan_all-eq-ok f xs ys).0),
  λ h. rw (h.0, (scan_all-eq-ok f xs ys).1 h.1),
)

-- An empty list of kinds admits every kind.
unfoldable pub admits : List String → String → Bool
admits [] k = true
admits (a ∷ more) k = contains (a ∷ more) k

pub record NodeFilter : Type 0 where
  pub kinds : List NodeKind
  pub package_path : String

abbrev pub no_filter : NodeFilter
no_filter = record { kinds = []; package_path = "" }

unfoldable pub matches : NodeFilter → NodeRow → Bool
matches f r =
    admits f.kinds r.kind
    && (if f.package_path == "" then true else r.package_path == f.package_path)

pub data Direction : Type 0 where
  out into : Direction

-- The columns `self` and `other` of `Neighbors`.
unfoldable pub self_end : Direction → EdgeRow → String
self_end out e = e.src
self_end into e = e.dst

unfoldable pub other_end : Direction → EdgeRow → String
other_end out e = e.dst
other_end into e = e.src

-- `callSiteOrder`
unfoldable pub call_site_le : EdgeRow → EdgeRow → Bool
call_site_le a b =
    if a.pos.file == b.pos.file
    then (if a.pos.start_line == b.pos.start_line
        then (if a.pos.start_col == b.pos.start_col
            then leb a.id b.id
            else ltb a.pos.start_col b.pos.start_col)
        else ltb a.pos.start_line b.pos.start_line)
    else text_le a.pos.file b.pos.file

abbrev pub Joined : Type 0
Joined = EdgeRow × NodeRow

unfoldable pub joined_le : Joined → Joined → Bool
joined_le (a, _) (b, _) = call_site_le a b

-- `JOIN nodes n ON n.id = other`
unfoldable pub join : Direction → List EdgeRow → List NodeRow → List Joined
join dir [] nodes = []
join dir (e ∷ edges) nodes =
    map (λ r. (e, r)) (keep (λ r. r.id == other_end dir e) nodes) ++ join dir edges nodes

-- `WHERE self = ? AND e.kind IN (…)`
unfoldable pub selects : String → Direction → List EdgeKind → EdgeRow → Bool
selects id dir kinds e = self_end dir e == id && admits kinds e.kind

unfoldable pub neighbor_rows : String → Direction → List EdgeKind → Tables → List Joined
neighbor_rows id dir kinds t =
    sort_by joined_le (join dir (keep (selects id dir kinds) t.edges) t.nodes)

pub record Neighbor : Type 0 where
  pub edge : Edge
  pub node : Node

module _ (j : Json) where
  -- `scanNode`
  unfoldable pub scan_node : NodeRow → Result GraphError Node
  scan_node r = decode_attrs j r.attrs >>= λ a. ok (record {
    id = r.id;
    kind = r.kind;
    name = r.name;
    package_path = r.package_path;
    detail = r.detail;
    pos = r.pos;
    attrs = a;
  })

  -- `edgeDest` and `decodeAttrs`
  unfoldable pub scan_edge : EdgeRow → Result GraphError Edge
  scan_edge e = decode_attrs j e.attrs >>= λ a.
      ok (record { id = e.id; from = e.src; to = e.dst; kind = e.kind; pos = e.pos; attrs = a })

  unfoldable pub scan_neighbor : Joined → Result GraphError Neighbor
  scan_neighbor (e, r) = do n ← scan_node r; x ← scan_edge e; ok (record { edge = x; node = n })

  -- `Graph.Node`
  unfoldable pub get_node : String → Tables → Result GraphError Node
  get_node id t = elim (find (λ r. r.id == id) t.nodes) [
    | none ↦ err (not_found id)
    | some r ↦ scan_node r
  ]

  -- `Graph.Nodes`: ORDER BY n.id
  unfoldable pub get_nodes : NodeFilter → Tables → Result GraphError (List Node)
  get_nodes f t = scan_all scan_node (sort_by (λ a b. text_le a.id b.id) (keep (matches f) t.nodes))

  -- `Graph.Neighbors`
  unfoldable pub neighbors :
      String → Direction → List EdgeKind → Tables → Result GraphError (List Neighbor)
  neighbors id dir kinds t = scan_all scan_neighbor (neighbor_rows id dir kinds t)
