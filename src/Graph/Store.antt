-- ===== src/Graph/Store.antt =====
-- The tables nodes and edges (internal/graph/schema.sql) and the writer (internal/graph/graph.go):
-- the two SQL statements as functions on the tables, AddNode, AddEdge, and Write.
pub mod Inversion
pub mod Integrity
use interactivecodebase.Base.{
  ℕ, suc, max, String, ◌==◌, string_eq, nat_eq, Bool, ◌&&◌, not, Option, none, some, List, [], ◌∷◌,
  ◌++◌, any, Result, ok, err, ◌>>=◌, if◌then◌else◌,
}
use interactivecodebase.Graph.Kinds.{NodeKind, EdgeKind, node_kind_valid, edge_kind_valid}
use interactivecodebase.Graph.Model.{
  Pos, Node, Edge, GraphError, empty_id, unknown_node_kind, unknown_edge_kind, foreign_key, Json,
  encode_attrs,
}

-- A row of nodes, its attributes as stored.
pub record NodeRow : Type 0 where
  pub id : String
  pub kind : NodeKind
  pub name : String
  pub package_path : String
  pub detail : String
  pub pos : Pos
  pub attrs : String

pub record EdgeRow : Type 0 where
  pub id : ℕ
  pub src : String
  pub dst : String
  pub kind : EdgeKind
  pub pos : Pos
  pub attrs : String

-- The rows in rowid order.
pub record Tables : Type 0 where
  pub nodes : List NodeRow
  pub edges : List EdgeRow

-- After `Open` both tables are empty.
abbrev pub empty_tables : Tables
empty_tables = record { nodes = []; edges = [] }

-- Whether a REFERENCES nodes (id) constraint is met.
unfoldable pub has_node : String → List NodeRow → Bool
has_node k rows = any (λ r. k == r.id) rows

-- `upsertNodeSQL`: on a conflict of the id every other column is replaced.
unfoldable pub upsert : NodeRow → List NodeRow → List NodeRow
upsert r [] = r ∷ []
upsert r (s ∷ rows) = if r.id == s.id then r ∷ rows else s ∷ upsert r rows

-- UNIQUE (src, dst, kind, file, start_line, start_col)
unfoldable pub same_key : EdgeRow → EdgeRow → Bool
same_key a b =
    a.src == b.src
    && (a.dst == b.dst
        && (a.kind == b.kind
            && (a.pos.file == b.pos.file
                && (a.pos.start_line == b.pos.start_line && a.pos.start_col == b.pos.start_col))))

-- INTEGER PRIMARY KEY: one more than the largest id.
unfoldable pub last_id : List EdgeRow → ℕ
last_id [] = 0
last_id (e ∷ edges) = max e.id (last_id edges)

-- `insertEdgeSQL`: a conflict inserts nothing, and a missing endpoint fails the statement.
unfoldable pub insert_edge : EdgeRow → Tables → Result GraphError Tables
insert_edge e t =
    if any (same_key e) t.edges
    then ok t
    else if has_node e.src t.nodes && has_node e.dst t.nodes
    then ok (record t { edges = t.edges ++ record e { id = suc (last_id t.edges) } ∷ [] })
    else err (foreign_key e.src e.dst)

abbrev pub node_row : Node → String → NodeRow
node_row n attrs = record {
  id = n.id;
  kind = n.kind;
  name = n.name;
  package_path = n.package_path;
  detail = n.detail;
  pos = n.pos;
  attrs = attrs;
}

-- The id is given by the table.
abbrev pub edge_row : Edge → String → EdgeRow
edge_row e attrs = record {
  id = 0;
  src = e.from;
  dst = e.to;
  kind = e.kind;
  pos = e.pos;
  attrs = attrs;
}

module _ (j : Json) where
  -- `Writer.AddNode`
  unfoldable pub add_node : Node → Tables → Result GraphError Tables
  add_node n t =
      if n.id == ""
      then err empty_id
      else if not (node_kind_valid n.kind)
      then err (unknown_node_kind n.kind)
      else (encode_attrs j n.attrs >>= λ s. ok (record t { nodes = upsert (node_row n s) t.nodes }))

  -- `Writer.AddEdge`
  unfoldable pub add_edge : Edge → Tables → Result GraphError Tables
  add_edge e t =
      if not (edge_kind_valid e.kind)
      then err (unknown_edge_kind e.kind)
      else (encode_attrs j e.attrs >>= λ s. insert_edge (edge_row e s) t)

  -- The callback that `Write` is given: it adds nodes and edges one by one, sees the error of each
  -- call, and returns an error or nil.
  pub data Script : Type 0 where
    return : Option GraphError → Script
    node : Node → (Option GraphError → Script) → Script
    edge : Edge → (Option GraphError → Script) → Script

  -- A statement that fails changes nothing.
  unfoldable pub run_script : Script → Tables → Option GraphError × Tables
  run_script (return e) t = (e, t)
  run_script (node n k) t = elim (add_node n t) [
    | ok t' ↦ run_script (k none) t'
    | err e ↦ run_script (k (some e)) t
  ]
  run_script (edge x k) t = elim (add_edge x t) [
    | ok t' ↦ run_script (k none) t'
    | err e ↦ run_script (k (some e)) t
  ]

  -- What the database may report at each step of a transaction.
  pub record Faults : Type 0 where
    pub begin_tx : Option GraphError
    pub prepare_node : Option GraphError
    pub prepare_edge : Option GraphError
    pub commit : Option GraphError
    pub rollback : Option GraphError

  abbrev errors : GraphError → Option GraphError → List GraphError
  errors e none = e ∷ []
  errors e (some r) = e ∷ r ∷ []

  -- `Graph.Write`: the errors that are joined ([] for nil), and the tables that readers see.
  unfoldable pub write : Faults → Script → Tables → List GraphError × Tables
  write f s t = elim f.begin_tx [
    | some e ↦ (e ∷ [], t)
    | none ↦ elim f.prepare_node [
      | some e ↦ (errors e f.rollback, t)
      | none ↦ elim f.prepare_edge [
        | some e ↦ (errors e f.rollback, t)
        | none ↦
            let (failed, t') = run_script s t in
            elim failed [
              | some e ↦ (errors e f.rollback, t)
              | none ↦ elim f.commit [ some e ↦ (errors e f.rollback, t) | none ↦ ([], t') ]
            ]
      ]
    ]
  ]
