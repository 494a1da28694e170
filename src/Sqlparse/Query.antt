-- ===== src/Sqlparse/Query.antt =====
-- What a query does (internal/sqlparse/query.go): the operations of its statements, and the tables and
-- columns that they touch. A statement is the list of the messages of the parser's tree that walk visits,
-- in its order; a relation has a number, which stands for its address. What the regular expressions find
-- in a text that does not parse, and the lower case of a keyword, are parameters.
pub mod Tables
use interactivecodebase.Base.{
  ℕ, String, ◌<>◌, ◌==◌, nat_eq, string_eq, Bool, true, false, not, ◌&&◌, ◌||◌, Option, none, some,
  List, [], ◌∷◌, ◌++◌, contains, any, Result, ok, err, if◌then◌else◌,
}
use interactivecodebase.Mermaid.{Texts, get, put}
use interactivecodebase.Sqlparse.{RangeVar, rel_name_of, unknown_ident, parse}

abbrev pub op_select : String
op_select = "select"

abbrev pub op_insert : String
op_insert = "insert"

abbrev pub op_update : String
op_update = "update"

abbrev pub op_delete : String
op_delete = "delete"

abbrev pub op_merge : String
op_merge = "merge"

abbrev pub op_ddl : String
op_ddl = "ddl"

abbrev pub op_other : String
op_other = "other"

pub record TableUse : Type 0 where
  pub name : String
  pub op : String
  pub columns : List String

pub record Query (E : Type 0) : Type 0 where
  pub ops : List String
  pub tables : List TableUse
  pub is_partial : Bool
  pub error : Option E

pub record Relation : Type 0 where
  pub id : ℕ
  pub range : RangeVar

pub data Field : Type 0 where
  star : Field
  text : String → Field

-- A column reference has at least one field; `last` is its last.
pub record ColumnRef : Type 0 where
  pub qualifiers : List Field
  pub last : Field

pub data StatementKind : Type 0 where
  select_stmt insert_stmt update_stmt delete_stmt merge_stmt ddl_stmt other_stmt : StatementKind

pub data Message : Type 0 where
  insert update : Relation → List String → Message
  delete merge define : Relation → Message
  truncate : List Relation → Message
  common_table : String → Message
  range : Relation → Message
  column_ref : ColumnRef → Message
  other_message : Message

pub record Statement : Type 0 where
  pub kind : StatementKind
  pub messages : List Message

-- `stmtOp`
unfoldable pub stmt_op : StatementKind → String
stmt_op select_stmt = op_select
stmt_op insert_stmt = op_insert
stmt_op update_stmt = op_update
stmt_op delete_stmt = op_delete
stmt_op merge_stmt = op_merge
stmt_op ddl_stmt = op_ddl
stmt_op other_stmt = op_other

-- `union`
unfoldable pub union : List String → List String → List String
union xs [] = xs
union xs (y ∷ ys) = union (if not (y == "") && not (contains xs y) then xs ++ y ∷ [] else xs) ys

-- A write replaces an earlier select.
unfoldable pub merged : String → TableUse → TableUse
merged op u = if u.op == op_select && not (op == op_select) then record u { op = op } else u

-- `Query.use`, and what follows on the use that it returns.
unfoldable pub use_table : String → String → (TableUse → TableUse) → List TableUse → List TableUse
use_table name op change [] = change (record { name = name; op = op; columns = [] }) ∷ []
use_table name op change (u ∷ us) =
    let rest = use_table name op change us in
    if u.name == name then change (merged op u) ∷ us else u ∷ rest

-- What a statement's messages say, gathered.
pub record Gathered : Type 0 where
  pub targets : List (ℕ × String)
  pub ctes : List String
  pub rels : List Relation
  pub col_refs : List ColumnRef
  pub written : List (ℕ × List String)

abbrev pub nothing : Gathered
nothing = record { targets = []; ctes = []; rels = []; col_refs = []; written = [] }

-- The last value that was given to a number.
unfoldable pub target_of : List (ℕ × String) → ℕ → Option String
target_of [] id = none
target_of ((i, op) ∷ more) id = let rest = target_of more id in if i == id then some op else rest

unfoldable pub written_of : List (ℕ × List String) → ℕ → List String
written_of [] id = []
written_of ((i, cols) ∷ more) id =
    if i == id then written_of more id ++ cols else written_of more id

abbrev pub targeted : Relation → String → Gathered → Gathered
targeted r op g = record g { targets = (r.id, op) ∷ g.targets }

abbrev pub writing : Relation → List String → Gathered → Gathered
writing r cols g = record g { written = (r.id, cols) ∷ g.written }

unfoldable pub truncated : List Relation → Gathered → Gathered
truncated [] g = g
truncated (r ∷ rs) g = truncated rs (targeted r op_ddl g)

unfoldable pub gather_one : Message → Gathered → Gathered
gather_one (insert r cols) g = writing r cols (targeted r op_insert g)
gather_one (update r cols) g = writing r cols (targeted r op_update g)
gather_one (delete r) g = targeted r op_delete g
gather_one (merge r) g = targeted r op_merge g
gather_one (define r) g = targeted r op_ddl g
gather_one (truncate rs) g = truncated rs g
gather_one (common_table name) g = record g { ctes = name ∷ g.ctes }
gather_one (range r) g = record g { rels = g.rels ++ r ∷ [] }
gather_one (column_ref c) g = record g { col_refs = g.col_refs ++ c ∷ [] }
gather_one other_message g = g

unfoldable pub gather : List Message → Gathered → Gathered
gather [] g = g
gather (m ∷ ms) g = gather ms (gather_one m g)

abbrev pub rel_name : Relation → String
rel_name r = rel_name_of (some r.range)

abbrev pub or_select : Option String → String
or_select none = op_select
or_select (some op) = op

abbrev pub with_columns : List String → TableUse → TableUse
with_columns cols u = record u { columns = union u.columns cols }

abbrev pub with_alias : Relation → Texts → Texts
with_alias r aliases =
    let named = put (rel_name r) (rel_name r) aliases in
    if r.range.alias == "" then named else put r.range.alias (rel_name r) named

-- The tables that the relations name; a bare name of a common table expression is none.
unfoldable pub use_rels : Gathered → List Relation → Texts → List TableUse → Texts × List TableUse
use_rels g [] aliases us = (aliases, us)
use_rels g (r ∷ rs) aliases us =
    let is_cte = r.range.schema_name == "" && contains g.ctes (rel_name r) in
    use_rels g rs (if is_cte then aliases else with_alias r aliases) (
      if is_cte
      then us
      else use_table (rel_name r) (or_select (target_of g.targets r.id))
          (with_columns (written_of g.written r.id)) us)

unfoldable pub table_names : Gathered → List Relation → List String → List String
table_names g [] names = names
table_names g (r ∷ rs) names = table_names g rs (
    if not (contains g.ctes (rel_name r)) && not (contains names (rel_name r))
    then names ++ rel_name r ∷ []
    else names)

abbrev pub field_text : Field → String
field_text star = ""
field_text (text s) = s

abbrev pub column_of : Field → String
column_of star = "*"
column_of (text s) = s

abbrev pub last_field : Field → List Field → Field
last_field f [] = f
last_field f (g ∷ gs) = last_field g gs

abbrev pub or_empty : Option String → String
or_empty none = ""
or_empty (some s) = s

-- The table of a column: by its alias, or the only table for a bare one.
unfoldable pub table_of : Texts → List String → List Field → String
table_of aliases tables (f ∷ fs) = or_empty (get aliases (field_text (last_field f fs)))
table_of aliases (t ∷ []) [] = t
table_of aliases (t ∷ u ∷ ts) [] = ""
table_of aliases [] [] = ""

unfoldable pub add_column : String → String → List TableUse → List TableUse
add_column table col [] = []
add_column table col (u ∷ us) =
    let rest = add_column table col us in
    if u.name == table then with_columns (col ∷ []) u ∷ us else u ∷ rest

unfoldable pub add_refs : Texts → List String → List ColumnRef → List TableUse → List TableUse
add_refs aliases tables [] us = us
add_refs aliases tables (c ∷ cs) us =
    let col = column_of c.last in
    let table = table_of aliases tables c.qualifiers in
    add_refs aliases tables cs
      (if table == "" || (col == "" || col == unknown_ident) then us else add_column table col us)

-- `analyzeStmt`
unfoldable pub analyze_stmt : List Message → List TableUse → List TableUse
analyze_stmt ms us =
    let g = gather ms nothing in
    let used = use_rels g g.rels [] us in
    add_refs used.0 (table_names g g.rels []) g.col_refs used.1

unfoldable pub analyze_all :
    List (Statement × ℕ) → List String → List TableUse → List String × List TableUse
analyze_all [] ops us = (ops, us)
analyze_all ((st, offset) ∷ sts) ops us =
    analyze_all sts (ops ++ stmt_op st.kind ∷ []) (analyze_stmt st.messages us)

module _ (first_word : String → Option String) (table_words : String → List (String × String))
    (lower : String → String) where
  abbrev scanned_op : Option String → String
  scanned_op none = op_other
  scanned_op (some w) =
      if contains ("create" ∷ "alter" ∷ "drop" ∷ "truncate" ∷ []) (lower w) then op_ddl else lower w

  abbrev word_op : String → String → String
  word_op op word =
      if word == "into"
      then op
      else if word == "update"
      then op_update
      else if word == "table"
      then op_ddl
      else if word == "from" && op == op_delete
      then op_delete
      else op_select

  unfoldable pub scan_words : String → List (String × String) → List TableUse → List TableUse
  scan_words op [] us = us
  scan_words op ((word, name) ∷ more) us = scan_words op more (
      if name == unknown_ident || lower name == "select"
      then us
      else use_table name (word_op op (lower word)) (λ u. u) us)

  -- `scanTables`; the names of `table_words` are without quotes.
  unfoldable pub scan_tables : String → List String × List TableUse
  scan_tables sql =
      let op = scanned_op (first_word sql) in (op ∷ [], scan_words op (table_words sql) [])

  module _ {E : Type 0} (pg_parse : String → Result E (List (Statement × ℕ))) where
    abbrev scanned : String → E → Query E
    scanned sql e = record {
      ops = (scan_tables sql).0;
      tables = (scan_tables sql).1;
      is_partial = true;
      error = some e;
    }

    abbrev analyzed : List (Statement × ℕ) → Bool → Query E
    analyzed sts is_partial = record {
      ops = (analyze_all sts [] []).0;
      tables = (analyze_all sts [] []).1;
      is_partial = is_partial;
      error = none;
    }

    -- `postgres.Query`
    unfoldable pub query : String → Query E
    query sql = elim (parse pg_parse sql).0 [
      | err e ↦ scanned sql e
      | ok sts ↦ analyzed sts (parse pg_parse sql).1
    ]
