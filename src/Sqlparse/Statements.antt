-- ===== src/Sqlparse/Statements.antt =====
-- What is read of a statement: the values that the getters of the parser's tree give
-- (internal/sqlparse/schema.go). A node that is no text, or no constraint or command, is `none`.
use interactivecodebase.Base.{ℕ, String, string_eq, nat_eq, Bool, Option, List}
use interactivecodebase.Sqlparse.{RangeVar}

abbrev pub Nodes : Type 0
Nodes = List (Option String)

pub data ConstraintType : Type 0 where
  not_null primary unique foreign other_constraint : ConstraintType

pub record Constraint : Type 0 where
  pub contype : ConstraintType
  pub name : String
  pub keys : Nodes
  pub fk_attrs : Nodes
  pub pk_table : Option RangeVar
  pub pk_attrs : Nodes
  pub del_action : String

pub record TypeName : Type 0 where
  pub names : Nodes
  pub array_bounds : ℕ

pub record ColumnDef : Type 0 where
  pub name : String
  pub type_name : TypeName
  pub is_not_null : Bool
  pub constraints : List (Option Constraint)

pub data Element : Type 0 where
  column : ColumnDef → Element
  constraint : Constraint → Element
  other_element : Element

pub data AlterType : Type 0 where
  add_column_type drop_column add_constraint_type drop_constraint other_alter : AlterType

pub record AlterCmd : Type 0 where
  pub subtype : AlterType
  pub name : String
  pub definition : Element

pub data ObjectType : Type 0 where
  table_object index_object column_object other_object : ObjectType

pub data Statement : Type 0 where
  create : Option RangeVar → List Element → Statement
  alter : Option RangeVar → List (Option AlterCmd) → Statement
  drop : ObjectType → List Nodes → Statement
  rename : ObjectType → Option RangeVar → String → String → Statement
  index : Option RangeVar → String → List (Option String) → Bool → Statement
  other_statement : Statement
