-- ===== src/Sqlparse/Ddl.antt =====
-- The other statements that change the schema, and Apply (internal/sqlparse/schema.go).
pub mod Columns
pub mod Valid
pub mod Named
use Prim.Native.Char.{code}
use interactivecodebase.Base.{
  ℕ, zero, suc, ◌+◌, ◌-◌, String, ◌<>◌, ◌==◌, string_eq, nat_eq, Bool, true, false, not, ◌&&◌, ◌||◌,
  Option, none, some, List, [], ◌∷◌, ◌++◌, map, any, keep, find, contains, length, ltb, Result, ok,
  err, if◌then◌else◌,
}
use interactivecodebase.Base.Text.{has_prefix}
use interactivecodebase.Mermaid.Sequence.{utf8_length}
use interactivecodebase.Sqlparse.{RangeVar, rel_name_of, strs, line_at, parse}
use interactivecodebase.Sqlparse.Statements.{
  Nodes, ConstraintType, not_null, primary, unique, foreign, other_constraint, Constraint, TypeName,
  ColumnDef, Element, column, constraint, other_element, AlterType, add_column_type, drop_column,
  add_constraint_type, drop_constraint, other_alter, AlterCmd, ObjectType, table_object,
  index_object, column_object, other_object, Statement, create, alter, drop, rename, index,
  other_statement,
}
use interactivecodebase.Sqlparse.Schema.{
  Pos, Column, ForeignKey, Index, Table, Schema, table_named, column_named, update_table,
  leading_space, join_dots, add_constraint, add_column, create_table,
}

abbrev pub alter_add_column : Pos → Element → Table → Table
alter_add_column pos (column cd) t = elim (column_named cd.name t.columns) [
  | none ↦ add_column cd pos t
  | some c ↦ t
]
alter_add_column pos (constraint con) t = t
alter_add_column pos other_element t = t

abbrev pub alter_add_constraint : Pos → Element → Table → Table
alter_add_constraint pos (constraint con) t = add_constraint con [] pos t
alter_add_constraint pos (column cd) t = t
alter_add_constraint pos other_element t = t

-- One command of ALTER TABLE.
unfoldable pub alter_one : Pos → AlterCmd → Table → Table
alter_one pos cmd t = elim cmd.subtype [
  | add_column_type ↦ alter_add_column pos cmd.definition t
  | drop_column ↦ record t {
    columns = keep (λ c. not (c.name == cmd.name)) t.columns;
    foreign_keys = keep (λ fk. not (contains fk.columns cmd.name)) t.foreign_keys;
  }
  | add_constraint_type ↦ alter_add_constraint pos cmd.definition t
  | drop_constraint ↦ record t {
    foreign_keys = keep (λ fk. not (fk.name == cmd.name)) t.foreign_keys;
    indexes = keep (λ ix. not (ix.name == cmd.name)) t.indexes;
  }
  | other_alter ↦ t
]

-- `alter`, on the table that it names.
unfoldable pub alter_all : Pos → List (Option AlterCmd) → Table → Table
alter_all pos [] t = t
alter_all pos (none ∷ cmds) t = alter_all pos cmds t
alter_all pos (some cmd ∷ cmds) t = alter_all pos cmds (alter_one pos cmd t)

-- `drop`
unfoldable pub drop_tables : List Nodes → List Table → List Table
drop_tables [] ts = ts
drop_tables (obj ∷ objs) ts = drop_tables objs (keep (λ t. not (t.name == join_dots (strs obj))) ts)

abbrev pub last_name : List String → Option String
last_name [] = none
last_name (x ∷ []) = some x
last_name (x ∷ y ∷ more) = last_name (y ∷ more)

abbrev pub without_index : String → Table → Table
without_index name t = record t { indexes = keep (λ ix. not (ix.name == name)) t.indexes }

unfoldable pub drop_indexes : List Nodes → List Table → List Table
drop_indexes [] ts = ts
drop_indexes (obj ∷ objs) ts = elim (last_name (strs obj)) [
  | none ↦ drop_indexes objs ts
  | some name ↦ drop_indexes objs (map (without_index name) ts)
]

abbrev pub repoint : String → String → ForeignKey → ForeignKey
repoint old new fk = if fk.ref_table == old then record fk { ref_table = new } else fk

abbrev pub repoint_keys : String → String → Table → Table
repoint_keys old new t = record t { foreign_keys = map (repoint old new) t.foreign_keys }

unfoldable pub rename_column : String → String → List Column → List Column
rename_column old new [] = []
rename_column old new (c ∷ cs) =
    let rest = rename_column old new cs in
    if c.name == old then record c { name = new } ∷ cs else c ∷ rest

-- `rename`, where the table is there.
unfoldable pub rename_object : ObjectType → String → String → String → List Table → List Table
rename_object table_object old new sub ts =
    map (repoint_keys old new) (update_table old (λ t. record t { name = new }) ts)
rename_object column_object old new sub ts =
    update_table old (λ t. record t { columns = rename_column sub new t.columns }) ts
rename_object index_object old new sub ts = ts
rename_object other_object old new sub ts = ts

unfoldable pub index_columns : List (Option String) → List String
index_columns [] = []
index_columns (none ∷ ps) = index_columns ps
index_columns (some name ∷ ps) =
    let rest = index_columns ps in if name == "" then rest else name ∷ rest

-- `index`
unfoldable pub add_index : String → List (Option String) → Bool → Pos → Table → Table
add_index name params is_unique pos t = record t {
  indexes =
      t.indexes
      ++ record { name = name; columns = index_columns params; is_unique = is_unique; pos = pos }
        ∷ [];
}

-- What one statement does to the tables.
unfoldable pub run : Pos → Statement → List Table → List Table
run pos (create rel elements) ts = create_table (rel_name_of rel) elements pos ts
run pos (alter rel cmds) ts = update_table (rel_name_of rel) (alter_all pos cmds) ts
run pos (drop table_object objs) ts = drop_tables objs ts
run pos (drop index_object objs) ts = drop_indexes objs ts
run pos (drop column_object objs) ts = ts
run pos (drop other_object objs) ts = ts
run pos (rename kind rel new sub) ts = elim (table_named (rel_name_of rel) ts) [
  | none ↦ ts
  | some t ↦ rename_object kind (rel_name_of rel) new sub ts
]
run pos (index rel name params is_unique) ts =
    update_table (rel_name_of rel) (add_index name params is_unique pos) ts
run pos other_statement ts = ts

unfoldable pub drop_bytes : ℕ → String → String
drop_bytes zero s = s
drop_bytes (suc n) String.[] = ""
drop_bytes (suc n) (String.◌∷◌ c s) = drop_bytes (suc n - utf8_length (code c)) s

abbrev pub pos_of : String → String → ℕ → Pos
pos_of file sql offset = record {
  file = file;
  line = line_at sql (offset + leading_space false (drop_bytes offset sql));
}

unfoldable pub run_all : String → String → List (Statement × ℕ) → List Table → List Table
run_all file sql [] ts = ts
run_all file sql ((st, offset) ∷ sts) ts = run_all file sql sts (run (pos_of file sql offset) st ts)

module _ {E : Type 0} (pg_parse : String → Result E (List (Statement × ℕ))) where
  -- `Apply`
  unfoldable pub apply : String → String → Schema E → Schema E
  apply file sql s = elim (parse pg_parse sql).0 [
    | err e ↦ record s { errors = s.errors ++ (file, e) ∷ [] }
    | ok sts ↦ record s { tables = run_all file sql sts s.tables }
  ]
