-- ===== src/Flow/Text.antt =====
-- The flow tree as text (internal/flow/text.go): the lines that WriteText writes to a writer that takes
-- them all. A detail is cut between characters.
pub mod Lines
use interactivecodebase.Base.{
  ℕ, suc, none, some, ◌+◌, ◌≡◌, refl, String, ◌<>◌, ◌==◌, string_eq, Bool, true, false, not, ◌&&◌,
  List, [], ◌∷◌, ◌++◌, ltb, length, if◌then◌else◌, ap, arith,
}
use interactivecodebase.Base.Text.{decimal, cut_prefix, split}
use interactivecodebase.Graph.Kinds.{route, entry, sql_table, interface_call, dispatches_to}
use interactivecodebase.Graph.Model.{Node, attr}
use interactivecodebase.Flow.Tree.{Info, Step, step, Steps, nil, cons, is_sink, visit, visit_all}
use interactivecodebase.Mermaid.Sequence.{collapse, bytes, first_bytes, last_part}

abbrev pub max_len : ℕ
max_len = 90

-- `summary`
unfoldable pub step_summary : String → String
step_summary s =
    let words = collapse false false s in
    if ltb max_len (bytes words) then first_bytes max_len words <> "…" else words

-- A name under its package, which stands before the receiver of a method.
abbrev pub qualified : String → String → String → String
qualified before pkg rest = before <> (pkg <> ("." <> rest))

unfoldable pub short_name : Node → String
short_name n =
    let pkg = last_part (split b'/' n.package_path) in
    if pkg == "" then n.name else (elim (cut_prefix n.name "(*") [
      | some rest ↦ qualified "(*" pkg rest
      | none ↦ elim (cut_prefix n.name "(") [
        | some rest ↦ qualified "(" pkg rest
        | none ↦ qualified "" pkg n.name
      ]
    ])

-- The position behind a step, which a table does not have.
unfoldable pub place : Node → String
place n =
    if not (n.pos.file == "") && not (n.kind == sql_table)
    then "  " <> (n.pos.file <> (":" <> decimal n.pos.start_line))
    else ""

unfoldable pub state_note : Info → String
state_note i =
    if i.cycle
    then "  (recursive)"
    else if i.ref
    then "  (see above)"
    else if i.truncated
    then "  (depth limit)"
    else ""

-- `%q` is a parameter.
module _ (quote : String → String) where
  -- What a step is, by its kind.
  unfoldable pub kind_text : Info → String
  kind_text i =
      let n = i.node in
      let columns = attr i.edge.attrs "columns" in
      let detail = step_summary n.detail in
      if n.kind == route
      then n.name
      else if n.kind == entry
      then attr n.attrs "entryKind" <> (" " <> n.name)
      else if n.kind == sql_table
      then "table "
        <> (n.name
            <> (" ("
                <> (attr i.edge.attrs "op"
                    <> ((if columns == "" then "" else ": " <> columns) <> ")"))))
      else if is_sink n
      then n.kind <> (" " <> (n.name <> (if detail == "" then "" else " " <> quote detail)))
      else if n.kind == interface_call
      then "interface " <> n.name
      else short_name n

  -- `label`
  unfoldable pub step_label : Info → String
  step_label i =
      let branch = attr i.edge.attrs "branch" in
      kind_text i
      <> ((if i.edge.kind == dispatches_to then " [impl]" else "")
          <> ((if ltb 1 i.calls then " ×" <> decimal i.calls else "")
              <> ((if branch == "" then "" else " ∥" <> branch) <> (place i.node <> state_note i))))

  -- A step that is not the root, under its prefix; the last of its parent's children ends the branch.
  unfoldable mutual
    pub write_child : String → Bool → Step → List String
    write_child prefix last (step i ss) =
        (prefix <> ((if last then "└─ " else "├─ ") <> step_label i))
        ∷ write_children (prefix <> (if last then "   " else "│  ")) ss

    pub write_children : String → Steps → List String
    write_children prefix nil = []
    write_children prefix (cons s nil) = write_child prefix true s
    write_children prefix (cons s (cons t more)) =
        write_child prefix false s ++ write_children prefix (cons t more)

  -- `WriteText`
  unfoldable pub write_text : Step → List String
  write_text (step i ss) = step_label i ∷ write_children "" ss
