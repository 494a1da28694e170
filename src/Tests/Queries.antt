-- ===== src/Tests/Queries.antt =====
-- The migration files of a directory, and what a query does (internal/sqlparse).
use interactivecodebase.Base.{
  ℕ, ◌≡◌, refl, arith, String, Option, none, some, List, [], ◌∷◌, ok, err, Bool, true, false, In,
  ◌↔◌, Result,
}
use interactivecodebase.Base.Text.{text_le}
use interactivecodebase.Base.Sort.{sort_by, IsSorted}
use interactivecodebase.Base.Distinct.{IsDistinct}
use interactivecodebase.Sqlparse.{RangeVar}
use interactivecodebase.Sqlparse.Goose.{goose_up}
use interactivecodebase.Sqlparse.Migrations.{
  Entry, regular, directory, migration_files, chosen, flyway, is_undo, flyway_le, flyway_version,
}
use interactivecodebase.Sqlparse.Migrations.Order.{IsInVersionOrder, migration_files_order}
use interactivecodebase.Sqlparse.Query.{
  Relation, Statement, query, insert_stmt, insert, range, column_ref, text,
}
use interactivecodebase.Sqlparse.Query.Tables.{names, query-IsDistinct}

abbrev file : String → Entry
file name = record { name = name; kind = regular }

abbrev entries : List Entry
entries =
    file "R__views.sql"
    ∷ file "U2__drop.sql"
    ∷ file "V10__more.sql"
    ∷ file "V2__init.sql"
    ∷ file "README"
    ∷ []

version_of_two : flyway_version "V1_20__more.sql" ≡ some (1 ∷ 20 ∷ [])
unfolding flyway_version interactivecodebase.Sqlparse.Migrations.flyway_name
    interactivecodebase.Base.nat_eq native.Mathlib.Decide.ℕ_discrete
    interactivecodebase.Sqlparse.Migrations.version_parts interactivecodebase.Base.Text.has_prefix
version_of_two = refl

applied_in_order : migration_files entries ≡ "V2__init.sql" ∷ "V10__more.sql" ∷ "R__views.sql" ∷ []
unfolding migration_files flyway sort_by chosen interactivecodebase.Base.keep
    interactivecodebase.Base.Text.has_suffix interactivecodebase.Base.string_eq text_le
    interactivecodebase.Base.any interactivecodebase.Sqlparse.Migrations.flyway_name
    interactivecodebase.Base.nat_eq native.Mathlib.Decide.ℕ_discrete
    interactivecodebase.Base.Text.has_prefix interactivecodebase.Sqlparse.Migrations.version_parts
    flyway_le flyway_version interactivecodebase.Sqlparse.Migrations.compare_versions
applied_in_order = refl

up_only : goose_up "-- +goose Up\na\n-- +goose Down\nb" ≡ "\na\n\n"
unfolding goose_up interactivecodebase.Base.Text.contains_text
    interactivecodebase.Base.Text.has_prefix interactivecodebase.Base.nat_eq
    native.Mathlib.Decide.ℕ_discrete interactivecodebase.Sqlparse.Goose.up_lines
    interactivecodebase.Base.Text.split interactivecodebase.Sqlparse.Goose.is_down
    interactivecodebase.Base.Text.trim_space interactivecodebase.Base.Text.trim_right
    interactivecodebase.Base.Text.trim_left interactivecodebase.Base.Text.is_blank
    interactivecodebase.Base.string_eq
up_only = refl

migration_files_order_example :
    let sorted = sort_by text_le (chosen entries) in
    (flyway sorted ≡ true → IsInVersionOrder (migration_files entries))
    × (flyway sorted ≡ false → IsSorted text_le (migration_files entries))
    × ((n : String)
        → In n (migration_files entries)
          ↔ (In n (chosen entries) × (flyway sorted ≡ true → is_undo n ≡ false)))
migration_files_order_example = migration_files_order entries

abbrev first_word : String → Option String
first_word sql = none

abbrev table_words : String → List (String × String)
table_words sql = []

abbrev lower : String → String
lower s = s

abbrev users : ℕ → Relation
users id = record { id = id; range = record { schema_name = ""; rel_name = "users"; alias = "u" } }

-- INSERT INTO users (name) SELECT u.name FROM users u
abbrev copies : List (Statement × ℕ)
copies =
    (
      record {
        kind = insert_stmt;
        messages =
            insert (users 0) ("name" ∷ [])
            ∷ range (users 0)
            ∷ column_ref (record { qualifiers = text "u" ∷ []; last = text "id" })
            ∷ range (users 1)
            ∷ [];
      },
      0,
    )
    ∷ []

abbrev pg_parse : String → Result ℕ (List (Statement × ℕ))
pg_parse sql = ok copies

copied :
    (query first_word table_words lower pg_parse "").tables
    ≡ record { name = "users"; op = "insert"; columns = "name" ∷ "id" ∷ [] } ∷ []
unfolding query interactivecodebase.Sqlparse.parse interactivecodebase.Sqlparse.Query.analyze_all
    interactivecodebase.Sqlparse.Query.analyze_stmt interactivecodebase.Sqlparse.Query.gather
    interactivecodebase.Sqlparse.Query.gather_one interactivecodebase.Sqlparse.Query.use_rels
    interactivecodebase.Sqlparse.Query.use_table interactivecodebase.Sqlparse.Query.target_of
    interactivecodebase.Sqlparse.Query.written_of interactivecodebase.Sqlparse.Query.union
    interactivecodebase.Sqlparse.Query.add_refs interactivecodebase.Sqlparse.Query.table_of
    interactivecodebase.Sqlparse.Query.table_names interactivecodebase.Sqlparse.Query.add_column
    interactivecodebase.Sqlparse.rel_name_of interactivecodebase.Sqlparse.Query.merged
    interactivecodebase.Base.string_eq interactivecodebase.Base.contains
    interactivecodebase.Base.nat_eq native.Mathlib.Decide.ℕ_discrete interactivecodebase.Mermaid.get
    interactivecodebase.Mermaid.put
copied = refl

query-IsDistinct_example :
    IsDistinct (names (query first_word table_words lower pg_parse "").tables)
query-IsDistinct_example = query-IsDistinct first_word table_words lower pg_parse ""
