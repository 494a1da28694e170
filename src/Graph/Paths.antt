-- ===== src/Graph/Paths.antt =====
-- Paths (internal/graph/query.go): the recursive query, the order and the limit of its rows, and
-- resolvePaths. The column visited is the text that the query builds; edge_ids is kept as a list of edge rows.
pub mod Near
pub mod Visited
pub mod Walks
pub mod Limited
use interactivecodebase.Base.{
  ℕ, zero, suc, min, ◌+◌, String, ◌<>◌, ◌==◌, string_eq, nat_eq, Bool, true, false, not, ◌&&◌,
  Option, none, some, List, [], ◌∷◌, ◌++◌, map, Result, ok, ◌>>=◌, keep, find, take, flat_map,
  length, contains, leb, ltb, if◌then◌else◌,
}
use interactivecodebase.Base.Text.{text_le, decimal, contains_text}
use interactivecodebase.Base.Sort.{sort_by}
use interactivecodebase.Graph.Kinds.{EdgeKind}
use interactivecodebase.Graph.Model.{Edge, GraphError, Json, no_pos}
use interactivecodebase.Graph.Store.{EdgeRow, Tables}
use interactivecodebase.Graph.Query.{admits, scan_all, scan_edge}

pub record PathOptions : Type 0 where
  pub edge_kinds : List EdgeKind
  pub max_depth : ℕ
  pub limit : ℕ

-- The defaults, at zero.
unfoldable pub or_ten : ℕ → ℕ
or_ten n = if n == 0 then 10 else n

-- UNION keeps one of equal rows.
unfoldable pub dedup : List String → List String
dedup [] = []
dedup (x ∷ xs) = let rest = dedup xs in if contains rest x then rest else x ∷ rest

-- `SELECT e.src FROM back b JOIN edges e ON e.dst = b.node`, for the rows of one distance.
unfoldable pub back_step : List EdgeKind → List EdgeRow → List String → List String
back_step kinds edges level =
    dedup (map (λ e. e.src) (keep (λ e. contains level e.dst && admits kinds e.kind) edges))

abbrev pub at_distance : ℕ → List String → List (String × ℕ)
at_distance d = map (λ n. (n, d))

-- The table `back`: the rows at distance `d` and those of `rest` more rounds.
unfoldable pub back : List EdgeKind → List EdgeRow → ℕ → ℕ → List String → List (String × ℕ)
back kinds edges zero d level = at_distance d level
back kinds edges (suc rest) d level =
    at_distance d level ++ back kinds edges rest (suc d) (back_step kinds edges level)

-- The table `near`: the least distance of a node.
unfoldable pub near : List (String × ℕ) → String → Option ℕ
near [] k = none
near ((n, d) ∷ rows) k =
    let rest = near rows k in
    if n == k then (elim rest [ none ↦ some d | some r ↦ some (min d r) ]) else rest

-- A row of `walk`. Its depth is the number of edges walked.
pub record Walk : Type 0 where
  pub node : String
  pub depth : ℕ
  pub visited : String
  pub path : List EdgeRow

-- `w.depth + 1 + r.dist <= ?`, where the join finds a row of near.
unfoldable pub in_time : ℕ → ℕ → Option ℕ → Bool
in_time max depth none = false
in_time max depth (some dist) = leb (depth + 1 + dist) max

-- `char(31) || s`, and an id between two of these characters.
abbrev pub separated : String → String
separated s = String.◌∷◌ "\u{1f}" s

abbrev pub enclosed : String → String
enclosed id = separated (id <> separated "")

abbrev pub walked : Walk → EdgeRow → Walk
walked w e = record {
  node = e.dst;
  depth = w.depth + 1;
  visited = w.visited <> (e.dst <> separated "");
  path = w.path ++ e ∷ [];
}

abbrev pub start_walk : String → Walk
start_walk from = record { node = from; depth = 0; visited = enclosed from; path = [] }

module _ (kinds : List EdgeKind) (edges : List EdgeRow) (to : String) (max : ℕ) where
  unfoldable pub near_to : String → Option ℕ
  near_to = near (back kinds edges max 0 (to ∷ []))

  unfoldable pub extends : Walk → EdgeRow → Bool
  extends w e =
      e.src == w.node
      && (in_time max w.depth (near_to e.dst)
          && (not (contains_text w.visited (enclosed e.dst)) && admits kinds e.kind))

  -- The rows that one row adds: none at `to`.
  unfoldable pub walk_step : Walk → List Walk
  walk_step w = if w.node == to then [] else map (walked w) (keep (extends w) edges)

  -- The rows that come from one row by at most `fuel` steps.
  unfoldable pub walks : ℕ → Walk → List Walk
  walks zero w = w ∷ []
  walks (suc fuel) w = w ∷ flat_map (walks fuel) (walk_step w)

  -- `WHERE node = ? AND depth > 0`. The depth grows with each step and stays within `max`.
  unfoldable pub found : String → List Walk
  found from = keep (λ w. w.node == to && not (w.depth == 0)) (walks max (start_walk from))

-- The text of edge_ids.
unfoldable pub edge_ids : List EdgeRow → String
edge_ids [] = ""
edge_ids (e ∷ path) = decimal e.id <> "," <> edge_ids path

-- `ORDER BY depth, edge_ids`
unfoldable pub walk_le : Walk → Walk → Bool
walk_le a b =
    if a.depth == b.depth then text_le (edge_ids a.path) (edge_ids b.path) else ltb a.depth b.depth

unfoldable pub path_rows : String → String → PathOptions → Tables → List (List EdgeRow)
path_rows from to opts t =
    map (λ w. w.path)
      (take (or_ten opts.limit)
        (sort_by walk_le (found opts.edge_kinds t.edges to (or_ten opts.max_depth) from)))

-- `byID[id]`: the zero edge where the id is missing.
unfoldable pub by_edge_id : List Edge → ℕ → Edge
by_edge_id edges id = elim (find (λ e. e.id == id) edges) [
  | some e ↦ e
  | none ↦ record { id = 0; from = ""; to = ""; kind = ""; pos = no_pos; attrs = [] }
]

-- The ids in the order of their first appearance.
unfoldable pub distinct_ids : List ℕ → List ℕ → List ℕ
distinct_ids seen [] = seen
distinct_ids seen (id ∷ ids) = distinct_ids (if contains seen id then seen else seen ++ id ∷ []) ids

module _ (j : Json) where
  -- `resolvePaths`
  unfoldable pub resolve_paths : List (List ℕ) → Tables → Result GraphError (List (List Edge))
  resolve_paths id_paths t = elim (distinct_ids [] (flat_map (λ p. p) id_paths)) [
    | [] ↦ ok []
    | id ∷ ids ↦ scan_all (scan_edge j) (keep (λ e. contains (id ∷ ids) e.id) t.edges) >>= λ edges.
        ok (map (map (by_edge_id edges)) id_paths)
  ]

  -- `Graph.Paths`
  unfoldable pub paths :
      String → String → PathOptions → Tables → Result GraphError (List (List Edge))
  paths from to opts t = resolve_paths (map (map (λ e. e.id)) (path_rows from to opts t)) t
