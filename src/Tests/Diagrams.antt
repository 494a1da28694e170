-- ===== src/Tests/Diagrams.antt =====
-- Diagrams (internal/mermaid) of a few nodes.
use interactivecodebase.Base.{◌≡◌, ◌↔◌, refl, String, true, some, [], ◌∷◌, In, string_eq, nat_eq}
use interactivecodebase.Graph.Model.{Node}
use interactivecodebase.Mermaid.{Builder, new_builder, get, id_of, label, ident}
use interactivecodebase.Mermaid.Labels.{all_codes, is_harmless, label_harmless}
use interactivecodebase.Mermaid.Ids.{IsConsistent, HasId, new_builder-IsConsistent, id_of-HasId}
use interactivecodebase.Mermaid.Er.{Table}
use interactivecodebase.Mermaid.SiteMap.{SiteMapOptions, site_map}
use interactivecodebase.Mermaid.SiteMap.Drawn.{IsShown, site_map_ids}
use interactivecodebase.Base.Sort.{sort_by, insert_by}
use interactivecodebase.Mermaid.{diagram, line, put, squeeze, trim_left, trim_right, is_word}
use interactivecodebase.Mermaid.Classes.{
  TypeInfo, classes, draw_class_clicks, draw_relations, uses_lines, implements_lines, draw_types,
  class_head, field_lines, method_lines,
}
use interactivecodebase.Tests.Sample.{node_of}

quoted : label "a \"b\" <c>" ≡ "a #quot;b#quot; #lt;c#gt;"
unfolding label interactivecodebase.Mermaid.escape nat_eq native.Mathlib.Decide.ℕ_discrete
quoted = refl

starts_low : ident "2nd: user-name_" ≡ "_2nd_user_name"
unfolding ident interactivecodebase.Mermaid.trim_right interactivecodebase.Mermaid.trim_left
    interactivecodebase.Mermaid.squeeze interactivecodebase.Mermaid.is_word nat_eq
    native.Mathlib.Decide.ℕ_discrete string_eq
starts_low = refl

abbrev quoted_text : String
quoted_text = "a \"b\" <c>"

label_harmless_example :
    (all_codes is_harmless (label quoted_text) ≡ true)
    × (all_codes is_harmless quoted_text ≡ true → label quoted_text ≡ quoted_text)
label_harmless_example = label_harmless quoted_text

abbrev empty_er : Builder
empty_er = new_builder "erDiagram" "t"

empty_er-IsConsistent : IsConsistent empty_er
empty_er-IsConsistent = new_builder-IsConsistent "erDiagram" "t"

id_of-HasId_example : HasId "users" empty_er (id_of "users" empty_er)
id_of-HasId_example = id_of-HasId "users" empty_er empty_er-IsConsistent

abbrev users : Table
users = record {
  node = node_of "users" "sql_table" [];
  columns = node_of "users.id" "sql_column" (("primaryKey", "true") ∷ []) ∷ [];
}

abbrev home : Node
home = node_of "home" "route" (("method", "GET") ∷ ("access", "public") ∷ [])

abbrev login : Node
login = node_of "login" "route" (("method", "POST") ∷ ("access", "guest") ∷ [])

abbrev pages_only : SiteMapOptions
pages_only = record { get_only = true; access = []; match_text = "" }

abbrev lower : String → String
lower s = s

site_map_ids_example :
    ((i : String) × (get (site_map lower (home ∷ login ∷ []) [] pages_only).ids i ≡ some "home"))
    ↔ ((r : Node) × In r (home ∷ login ∷ []) × IsShown lower pages_only r × (r.id ≡ "home"))
site_map_ids_example = site_map_ids lower (home ∷ login ∷ []) [] pages_only "home"

abbrev note : TypeInfo
note = record {
  id = "type:app.Note";
  name = "app.Note";
  kind = "struct";
  fields = [];
  methods = [];
  implements = [];
  uses = [];
}

clickable : get (classes (note ∷ [])).ids "app_Note" ≡ some "type:app.Note"
unfolding classes diagram draw_class_clicks sort_by insert_by draw_relations uses_lines
    implements_lines draw_types class_head field_lines method_lines line new_builder get put ident
    squeeze trim_left trim_right is_word string_eq nat_eq native.Mathlib.Decide.ℕ_discrete
clickable = refl
