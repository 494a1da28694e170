-- ===== src/Mermaid/Er.antt =====
-- The ER diagram (internal/mermaid/er.go).
pub mod Tables
use Prim.Native.Char.{code}
use interactivecodebase.Base.{
  ℕ, String, ◌<>◌, ◌==◌, string_eq, nat_eq, Bool, true, false, ◌&&◌, ◌||◌, Option, none, some, List,
  [], ◌∷◌, ◌++◌, contains, if◌then◌else◌,
}
use interactivecodebase.Base.Text.{split}
use interactivecodebase.Graph.Model.{Node, Edge, attr}
use interactivecodebase.Mermaid.{
  Texts, get, put, Diagram, Builder, new_builder, line, id_of, diagram, label, ident,
}

pub record Table : Type 0 where
  pub node : Node
  pub columns : List Node

-- The columns of the foreign keys of a table.
unfoldable pub fk_columns : String → List Edge → List String
fk_columns id [] = []
fk_columns id (e ∷ fks) =
    let rest = fk_columns id fks in
    if e.from == id then split b',' (attr e.attrs "columns") ++ rest else rest

-- `strings.ReplaceAll(s, "[]", "_array")`; the flag is set after a bracket that is not written yet.
unfoldable pub arrays : Bool → String → String
arrays opened String.[] = if opened then "[" else ""
arrays opened (String.◌∷◌ c s) =
    let after_open = arrays true s in
    let after_other = arrays false s in
    if opened
    then (if code c == 93
        then "_array" <> after_other
        else if code c == 91
        then "[" <> after_open
        else "[" <> String.◌∷◌ c after_other)
    else if code c == 91
    then after_open
    else String.◌∷◌ c after_other

abbrev pub join_keys : Bool → Bool → String
join_keys true true = "PK,FK"
join_keys true false = "PK"
join_keys false true = "FK"
join_keys false false = ""

unfoldable pub column_line : List String → Node → String
column_line fks c =
    "    "
    <> (ident (arrays false c.detail)
        <> (" "
            <> (ident c.name
                <> (" " <> join_keys (attr c.attrs "primaryKey" == "true") (contains fks c.name)))))

unfoldable pub column_lines : List String → List Node → Builder → Builder
column_lines fks [] b = b
column_lines fks (c ∷ cs) b = column_lines fks cs (line (column_line fks c) b)

-- The loop over the tables: the builder, and the names by id.
unfoldable pub draw_tables : List Edge → List Table → Builder → Texts → Builder × Texts
draw_tables fks [] b names = (b, names)
draw_tables fks (t ∷ ts) b names =
    let name = ident t.node.name in
    let begun = line ("  " <> (name <> " {")) (id_of t.node.id b).1 in
    draw_tables fks ts (line "  }" (column_lines (fk_columns t.node.id fks) t.columns begun))
      (put t.node.id name names)

unfoldable pub fk_text : Edge → String
fk_text e =
    let deleted = attr e.attrs "onDelete" in
    if deleted == ""
    then attr e.attrs "columns"
    else attr e.attrs "columns" <> (" on delete " <> deleted)

-- The loop over the foreign keys.
unfoldable pub draw_fks : Texts → List Edge → Builder → Builder
draw_fks names [] b = b
draw_fks names (e ∷ fks) b = elim (get names e.from) [
  | none ↦ draw_fks names fks b
  | some child ↦ elim (get names e.to) [
    | none ↦ draw_fks names fks b
    | some parent ↦ draw_fks names fks (
        line
          ("  " <> (child <> (" }o--|| " <> (parent <> (" : \"" <> (label (fk_text e) <> "\""))))))
          b)
  ]
]

-- `ER`
unfoldable pub er : List Table → List Edge → Diagram
er tables fks =
    let (b, names) = draw_tables fks tables (new_builder "erDiagram" "t") [] in
    diagram (draw_fks names fks b)
