-- ===== src/Tests/Sql.antt =====
-- Two migrations (internal/sqlparse).
use interactivecodebase.Base.{
  ℕ, ◌≡◌, refl, arith, String, Option, none, some, List, [], ◌∷◌, map, ok, err, true, false, In,
  inl, inr,
}
use interactivecodebase.Sqlparse.{RangeVar, parser_text, bind_params}
use interactivecodebase.Sqlparse.Statements.{
  Element, column, Statement, create, rename, table_object,
}
use interactivecodebase.Sqlparse.Ddl.{run_all}
use interactivecodebase.Sqlparse.Ddl.Named.{IsValid, table_names}
use interactivecodebase.Sqlparse.Ddl.Valid.{AllGiveNew, run_all-IsValid}

abbrev named : String → Option RangeVar
named name = some (record { schema_name = ""; rel_name = name; alias = "" })

abbrev text_column : String → Element
text_column name = column (record {
  name = name;
  type_name = record { names = some "text" ∷ []; array_bounds = 0 };
  is_not_null = true;
  constraints = [];
})

abbrev migration : List (Statement × ℕ)
migration =
    (create (named "user") (text_column "id" ∷ text_column "name" ∷ []), 0)
    ∷ (rename table_object (named "user") "person" "", 40)
    ∷ []

abbrev migration_text : String
migration_text = "CREATE TABLE user (id text, name text);\nALTER TABLE user RENAME TO person;"

run_all_renames : table_names (run_all "1.sql" migration_text migration []) ≡ "person" ∷ []
unfolding run_all interactivecodebase.Sqlparse.Ddl.run
    interactivecodebase.Sqlparse.Schema.table_named interactivecodebase.Base.find
    interactivecodebase.Sqlparse.Schema.create_table interactivecodebase.Base.string_eq
    interactivecodebase.Sqlparse.Schema.add_elements interactivecodebase.Sqlparse.Schema.add_column
    interactivecodebase.Sqlparse.Schema.add_column_constraints
    interactivecodebase.Sqlparse.rel_name_of interactivecodebase.Sqlparse.Ddl.rename_object
    interactivecodebase.Sqlparse.Schema.update_table
run_all_renames = refl

migration_gives_new : AllGiveNew "1.sql" migration_text migration []
unfolding run_all interactivecodebase.Sqlparse.Ddl.run
    interactivecodebase.Sqlparse.Schema.table_named interactivecodebase.Base.find
    interactivecodebase.Sqlparse.Schema.create_table interactivecodebase.Base.string_eq
    interactivecodebase.Sqlparse.Schema.add_elements interactivecodebase.Sqlparse.Schema.add_column
    interactivecodebase.Sqlparse.Schema.add_column_constraints
    interactivecodebase.Sqlparse.rel_name_of interactivecodebase.Sqlparse.Ddl.rename_object
    interactivecodebase.Sqlparse.Schema.update_table
migration_gives_new = (
  (λ m. elim m [ inl e ↦ differ e | inr n ↦ n ], (λ m. m, tt)),
  (λ m. elim m [ inl e ↦ differ' e | inr n ↦ n ], tt),
)
  where
    differ : ◌≡◌ {A = String} "id" "name" → ⊥
    differ e = cc

    differ' : ◌≡◌ {A = String} "person" "user" → ⊥
    differ' e = cc

run_all-IsValid_example : IsValid (run_all "1.sql" migration_text migration [])
run_all-IsValid_example =
    run_all-IsValid "1.sql" migration_text migration [] migration_gives_new (tt, tt)

unknown_parts : parser_text "SELECT {?} WHERE id = ${?}{?}" ≡ "SELECT icb_unknown WHERE id = $1"
unfolding parser_text interactivecodebase.Base.Text.replace_from bind_params
    interactivecodebase.Base.nat_eq native.Mathlib.Decide.ℕ_discrete
    interactivecodebase.Base.Text.has_prefix
unknown_parts = refl

-- A table of another schema that is renamed loses the schema, and has the name of another table.
abbrev two_schemas : List (Statement × ℕ)
two_schemas =
    (create (named "people") [], 0)
    ∷ (create (some (record { schema_name = "app"; rel_name = "users"; alias = "" })) [], 10)
    ∷ (
      rename table_object (some (record { schema_name = "app"; rel_name = "users"; alias = "" }))
          "people" "",
      40,
    )
    ∷ []

same_name_twice : table_names (run_all "1.sql" "" two_schemas []) ≡ "people" ∷ "people" ∷ []
unfolding run_all interactivecodebase.Sqlparse.Ddl.run
    interactivecodebase.Sqlparse.Schema.table_named interactivecodebase.Base.find
    interactivecodebase.Sqlparse.Schema.create_table interactivecodebase.Base.string_eq
    interactivecodebase.Sqlparse.Schema.add_elements interactivecodebase.Sqlparse.rel_name_of
    interactivecodebase.Sqlparse.Ddl.rename_object interactivecodebase.Sqlparse.Schema.update_table
same_name_twice = refl
