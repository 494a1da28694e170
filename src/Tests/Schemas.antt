-- ===== src/Tests/Schemas.antt =====
-- The ER diagram around a table (internal/views/views.go) of a small schema.
use interactivecodebase.Base.{
  ◌≡◌, ◌≢◌, ◌↔◌, refl, String, ◌==◌, string_eq, contains, List, [], ◌∷◌, In, ok, if◌then◌else◌,
}
use interactivecodebase.Graph.Query.{Direction, out, into, Neighbor}
use interactivecodebase.Graph.Reader.{Reader}
use interactivecodebase.Graph.Kinds.{fk, sql_table}
use interactivecodebase.Graph.Model.{Node, Edge}
use interactivecodebase.Mermaid.{Diagram}
use interactivecodebase.Mermaid.Er.{Table, er}
use interactivecodebase.Views.{included, er_around}
use interactivecodebase.Views.Drawn.{IsTable, IsKey, er_around_near}
use interactivecodebase.Views.Nearby.{IsNear}
use interactivecodebase.Tests.Sample.{node_of, edge_of_sample}

abbrev users : String
users = "users"

-- Comments refer to notes, and notes to users.
abbrev joined : String → Direction → List Neighbor
joined id out =
    if id == "sql_table:comments"
    then record {
      edge = edge_of_sample 1 id "sql_table:notes" "fk";
      node = node_of "sql_table:notes" "sql_table" [];
    }
      ∷ []
    else if id == "sql_table:notes"
    then record {
      edge = edge_of_sample 2 id "sql_table:users" "fk";
      node = node_of "sql_table:users" "sql_table" [];
    }
      ∷ []
    else []
joined id into =
    if id == "sql_table:users"
    then record {
      edge = edge_of_sample 2 "sql_table:notes" id "fk";
      node = node_of "sql_table:notes" "sql_table" [];
    }
      ∷ []
    else if id == "sql_table:notes"
    then record {
      edge = edge_of_sample 1 "sql_table:comments" id "fk";
      node = node_of "sql_table:comments" "sql_table" [];
    }
      ∷ []
    else []

abbrev tables_of_schema : List Node
tables_of_schema =
    node_of "sql_table:comments" "sql_table" []
    ∷ node_of "sql_table:notes" "sql_table" []
    ∷ node_of "sql_table:users" "sql_table" []
    ∷ []

abbrev schema : Reader
schema = record {
  node = λ id. ok (node_of id "sql_table" []);
  nodes = λ kinds. ok tables_of_schema;
  adjacent = λ id dir kinds. if contains kinds fk then ok (joined id dir) else ok [];
}

near_users : included schema users 1 [] ≡ ok ("sql_table:notes" ∷ "sql_table:users" ∷ [])
unfolding included string_eq interactivecodebase.Views.widen interactivecodebase.Views.add_frontier
    interactivecodebase.Views.add_around interactivecodebase.Views.add_neighbors contains
near_users = refl

users_named : users ≢ ""
users_named h = cc

abbrev drawn : Diagram
drawn =
    er
      (record { node = node_of "sql_table:notes" "sql_table" []; columns = [] }
        ∷ record { node = node_of "sql_table:users" "sql_table" []; columns = [] }
        ∷ [])
      (edge_of_sample 2 "sql_table:notes" "sql_table:users" "fk" ∷ [])

draws_two : er_around schema users 1 ≡ ok drawn
unfolding er_around included string_eq interactivecodebase.Views.widen
    interactivecodebase.Views.add_frontier interactivecodebase.Views.add_around contains
    interactivecodebase.Views.collect interactivecodebase.Views.add_neighbors
    interactivecodebase.Views.edges_inside
draws_two = refl

schema_listed : schema.nodes (sql_table ∷ []) ≡ ok tables_of_schema
schema_listed = refl

er_around_near_example :
    (tables : List Table) × (keys : List Edge) × (drawn ≡ er tables keys)
    × ((t : Table)
        → In t tables ↔ IsTable schema tables_of_schema (IsNear schema "sql_table:users" 1) t)
    × ((e : Edge) → In e keys ↔ IsKey schema tables_of_schema (IsNear schema "sql_table:users" 1) e)
er_around_near_example =
    er_around_near schema users 1 tables_of_schema drawn users_named schema_listed draws_two
