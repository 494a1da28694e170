-- ===== src/Sqlparse/Schema.antt =====
-- The schema that migrations make (internal/sqlparse/schema.go): its data, and CREATE TABLE.
use Prim.Native.Char.{code}
use interactivecodebase.Base.{
  ℕ, ◌+◌, String, ◌<>◌, ◌==◌, string_eq, nat_eq, Bool, true, false, ◌||◌, Option, none, some, List,
  [], ◌∷◌, ◌++◌, find, ltb, if◌then◌else◌,
}
use interactivecodebase.Base.Text.{has_prefix}
use interactivecodebase.Mermaid.Sequence.{utf8_length}
use interactivecodebase.Sqlparse.{rel_name_of, strs}
use interactivecodebase.Sqlparse.Statements.{
  ConstraintType, not_null, primary, unique, foreign, other_constraint, Constraint, TypeName,
  ColumnDef, Element, column, constraint, other_element,
}

pub record Pos : Type 0 where
  pub file : String
  pub line : ℕ

pub record Column : Type 0 where
  pub name : String
  pub type_text : String
  pub not_null : Bool
  pub pos : Pos

pub record ForeignKey : Type 0 where
  pub name : String
  pub columns : List String
  pub ref_table : String
  pub ref_columns : List String
  pub on_delete : String
  pub pos : Pos

pub record Index : Type 0 where
  pub name : String
  pub columns : List String
  pub is_unique : Bool
  pub pos : Pos

pub record Table : Type 0 where
  pub name : String
  pub columns : List Column
  pub primary_key : List String
  pub foreign_keys : List ForeignKey
  pub indexes : List Index
  pub pos : Pos

-- The errors of the parser stand in `E`.
pub record Schema (E : Type 0) : Type 0 where
  pub tables : List Table
  pub errors : List (String × E)

-- `Schema.Table` and `Table.Column`
unfoldable pub table_named : String → List Table → Option Table
table_named name ts = find (λ t. t.name == name) ts

unfoldable pub column_named : String → List Column → Option Column
column_named name cs = find (λ c. c.name == name) cs

-- A change through the pointer to the first table of that name.
unfoldable pub update_table : String → (Table → Table) → List Table → List Table
update_table name f [] = []
update_table name f (t ∷ ts) =
    let rest = update_table name f ts in if t.name == name then f t ∷ ts else t ∷ rest

-- `leadingSpace`; the flag says that a comment goes on to the end of its line.
unfoldable pub leading_space : Bool → String → ℕ
leading_space comment String.[] = 0
leading_space comment (String.◌∷◌ c s) =
    let in_line = utf8_length (code c) + leading_space true s in
    let after = utf8_length (code c) + leading_space false s in
    if comment
    then (if code c == 10 then after else in_line)
    else if code c == 32 || (code c == 9 || (code c == 10 || code c == 13))
    then after
    else if has_prefix (String.◌∷◌ c s) "--"
    then in_line
    else 0

unfoldable pub join_dots : List String → String
join_dots [] = ""
join_dots (x ∷ []) = x
join_dots (x ∷ y ∷ more) = x <> ("." <> join_dots (y ∷ more))

abbrev pub without_catalog : List String → List String
without_catalog (x ∷ y ∷ more) = if x == "pg_catalog" then y ∷ more else x ∷ y ∷ more
without_catalog (x ∷ []) = x ∷ []
without_catalog [] = []

-- `typeName`
unfoldable pub type_name_of : TypeName → String
type_name_of tn =
    join_dots (without_catalog (strs tn.names)) <> (if ltb 0 tn.array_bounds then "[]" else "")

unfoldable pub fk_action : String → String
fk_action a =
    if a == "c"
    then "cascade"
    else if a == "n"
    then "set null"
    else if a == "d"
    then "set default"
    else if a == "r"
    then "restrict"
    else ""

-- The columns that a constraint names, or else those that it stands at.
abbrev pub or_owning : List String → List String → List String
or_owning [] columns = columns
or_owning (k ∷ ks) columns = k ∷ ks

-- `addConstraint`
unfoldable pub add_constraint : Constraint → List String → Pos → Table → Table
add_constraint con columns pos t = elim con.contype [
  | primary ↦ record t { primary_key = or_owning (strs con.keys) columns }
  | unique ↦ record t {
    indexes =
        t.indexes
        ++ record {
          name = con.name;
          columns = or_owning (strs con.keys) columns;
          is_unique = true;
          pos = pos;
        }
          ∷ [];
  }
  | foreign ↦ record t {
    foreign_keys =
        t.foreign_keys
        ++ record {
          name = con.name;
          columns = or_owning (strs con.fk_attrs) columns;
          ref_table = rel_name_of con.pk_table;
          ref_columns = strs con.pk_attrs;
          on_delete = fk_action con.del_action;
          pos = pos;
        }
          ∷ [];
  }
  | not_null ↦ t
  | other_constraint ↦ t
]

abbrev pub forbids_null : ConstraintType → Bool
forbids_null not_null = true
forbids_null primary = true
forbids_null unique = false
forbids_null foreign = false
forbids_null other_constraint = false

-- The constraints of a column, in order; whether one of them forbids NULL.
unfoldable pub add_column_constraints :
    String → Pos → List (Option Constraint) → Table → Bool → Table × Bool
add_column_constraints name pos [] t forbidden = (t, forbidden)
add_column_constraints name pos (none ∷ cs) t forbidden =
    add_column_constraints name pos cs t forbidden
add_column_constraints name pos (some con ∷ cs) t forbidden =
    add_column_constraints name pos cs (add_constraint con (name ∷ []) pos t)
      (forbidden || forbids_null con.contype)

-- `addColumn`
unfoldable pub add_column : ColumnDef → Pos → Table → Table
add_column cd pos t =
    let (done, forbidden) = add_column_constraints cd.name pos cd.constraints t cd.is_not_null in
    record done {
      columns =
          done.columns
          ++ record {
            name = cd.name;
            type_text = type_name_of cd.type_name;
            not_null = forbidden;
            pos = pos;
          }
            ∷ [];
    }

unfoldable pub add_elements : Pos → List Element → Table → Table
add_elements pos [] t = t
add_elements pos (column cd ∷ es) t = add_elements pos es (add_column cd pos t)
add_elements pos (constraint con ∷ es) t = add_elements pos es (add_constraint con [] pos t)
add_elements pos (other_element ∷ es) t = add_elements pos es t

abbrev pub new_table : String → Pos → Table
new_table name pos = record {
  name = name;
  columns = [];
  primary_key = [];
  foreign_keys = [];
  indexes = [];
  pos = pos;
}

-- `create`
unfoldable pub create_table : String → List Element → Pos → List Table → List Table
create_table name elements pos ts = elim (table_named name ts) [
  | none ↦ ts ++ add_elements pos elements (new_table name pos) ∷ []
  | some t ↦ ts
]
