-- ===== src/Mermaid/Classes.antt =====
-- The class diagram (internal/mermaid/class.go).
pub mod Aliases
use Prim.Native.Char.{code}
use interactivecodebase.Base.{
  ℕ, String, ◌<>◌, ◌==◌, string_eq, nat_eq, Bool, true, false, not, ◌||◌, Option, none, some, List,
  [], ◌∷◌, map, if◌then◌else◌,
}
use interactivecodebase.Base.Sort.{sort_by}
use interactivecodebase.Mermaid.{
  Texts, get, put, Diagram, Builder, new_builder, line, diagram, ident,
}
use interactivecodebase.Mermaid.SiteMap.{key_le}

pub record Member : Type 0 where
  pub name : String
  pub of_type : String
  pub exported : Bool

pub record TypeInfo : Type 0 where
  pub id : String
  pub name : String
  pub kind : String
  pub fields : List Member
  pub methods : List Member
  pub implements : List String
  pub uses : List String

unfoldable pub visibility : Member → String
visibility m = if m.exported then "+" else "-"

-- `memberText`
unfoldable pub member_text : String → String
member_text String.[] = ""
member_text (String.◌∷◌ c s) =
    let rest = member_text s in
    if code c == 123 || code c == 125
    then " " <> rest
    else if code c == 126
    then "-" <> rest
    else String.◌∷◌ c rest

unfoldable pub field_lines : List Member → Builder → Builder
field_lines [] b = b
field_lines (f ∷ fs) b =
    field_lines fs
      (line ("    " <> (visibility f <> (member_text f.of_type <> (" " <> member_text f.name)))) b)

unfoldable pub method_lines : List Member → Builder → Builder
method_lines [] b = b
method_lines (m ∷ ms) b =
    method_lines ms
      (line ("    " <> (visibility m <> (member_text m.name <> member_text m.of_type))) b)

unfoldable pub class_head : TypeInfo → Builder → Builder
class_head t b =
    let begun = line ("  class " <> (ident t.name <> " {")) b in
    if t.kind == "interface" then line "    <<interface>>" begun else begun

abbrev pub enter : TypeInfo → Builder → Builder
enter t b = record b {
  ids = put (ident t.name) t.id b.ids;
  by_node = put t.id (ident t.name) b.by_node;
}

-- The loop over the types: the builder, and the aliases by name.
unfoldable pub draw_types : List TypeInfo → Builder → Texts → Builder × Texts
draw_types [] b names = (b, names)
draw_types (t ∷ ts) b names =
    draw_types ts
      (line "  }" (method_lines t.methods (field_lines t.fields (class_head t (enter t b)))))
      (put t.name (ident t.name) names)

abbrev pub alias : Texts → String → String
alias names name = elim (get names name) [ none ↦ "" | some a ↦ a ]

unfoldable pub implements_lines : Texts → String → List String → Builder → Builder
implements_lines names name [] b = b
implements_lines names name (i ∷ is) b = elim (get names i) [
  | none ↦ implements_lines names name is b
  | some to ↦
      implements_lines names name is (line ("  " <> (alias names name <> (" ..|> " <> to))) b)
]

unfoldable pub uses_lines : Texts → String → List String → Builder → Builder
uses_lines names name [] b = b
uses_lines names name (u ∷ us) b = elim (get names u) [
  | none ↦ uses_lines names name us b
  | some to ↦
      uses_lines names name us (
        if to == alias names name
        then b
        else line ("  " <> (alias names name <> (" --> " <> to))) b)
]

unfoldable pub draw_relations : Texts → List TypeInfo → Builder → Builder
draw_relations names [] b = b
draw_relations names (t ∷ ts) b =
    draw_relations names ts
      (uses_lines names t.name t.uses (implements_lines names t.name t.implements b))

unfoldable pub draw_class_clicks : List String → Builder → Builder
draw_class_clicks [] b = b
draw_class_clicks (id ∷ ids) b =
    draw_class_clicks ids (line ("  click " <> (id <> " call icbClick()")) b)

-- `Classes`
unfoldable pub classes : List TypeInfo → Diagram
classes types =
    let (b, names) = draw_types types (new_builder "classDiagram" "c") [] in
    let related = draw_relations names types b in
    diagram (draw_class_clicks (sort_by key_le (map (λ e. e.0) related.ids)) related)
