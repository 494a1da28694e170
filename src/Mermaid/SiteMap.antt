-- ===== src/Mermaid/SiteMap.antt =====
-- The site map (internal/mermaid/sitemap.go). `lower` stands for strings.ToLower. Nodes of one name, which
-- slices.SortFunc may order in any way, stay in their order.
pub mod Drawn
use Prim.Native.Char.{code}
use interactivecodebase.Base.{
  ℕ, ◌+◌, ◌-◌, String, ◌<>◌, ◌==◌, string_eq, nat_eq, Bool, true, false, not, ◌&&◌, ◌||◌, Option,
  none, some, List, [], ◌∷◌, ◌++◌, map, keep, contains, leb, ltb, length, if◌then◌else◌,
}
use interactivecodebase.Base.Text.{text_le, code_units, contains_text}
use interactivecodebase.Base.Sort.{sort_by}
use interactivecodebase.Graph.Model.{Node, Edge, attr}
use interactivecodebase.Mermaid.{
  Texts, get, Diagram, Builder, new_builder, line, id_of, diagram, label,
}

-- `accessOrder`
abbrev pub access_order : Texts
access_order =
    ("public", "Public")
    ∷ ("optional", "Public, session-aware")
    ∷ ("guest", "Guest")
    ∷ ("authenticated", "Signed in")
    ∷ ("admin", "Admin")
    ∷ []

pub record SiteMapOptions : Type 0 where
  pub get_only : Bool
  pub access : List String
  pub match_text : String

unfoldable pub group_of : Node → String
group_of r =
    if attr r.attrs "access" == "public" && attr r.attrs "optionalAuth" == "true"
    then "optional"
    else attr r.attrs "access"

unfoldable pub skipped : SiteMapOptions → Node → Bool
skipped o r = o.get_only && not (attr r.attrs "method" == "GET")

abbrev pub is_empty : List String → Bool
is_empty [] = true
is_empty (x ∷ xs) = false

unfoldable pub dropped : (String → String) → SiteMapOptions → Node → Bool
dropped lower o r =
    (not (is_empty o.access) && not (contains o.access (group_of r)))
    || (not (o.match_text == "") && not (contains_text (lower r.name) (lower o.match_text)))

-- The set `keep` after the loop over the routes.
unfoldable pub kept_ids : (String → String) → SiteMapOptions → List Node → List String → List String
kept_ids lower o [] ids = ids
kept_ids lower o (r ∷ rs) ids = kept_ids lower o rs (
    if skipped o r
    then ids
    else if dropped lower o r
    then keep (λ x. not (x == r.id)) ids
    else r.id ∷ ids)

-- `groups[key]`
unfoldable pub members : (String → String) → SiteMapOptions → String → List Node → List Node
members lower o key rs =
    keep (λ r. not (skipped o r) && (not (dropped lower o r) && group_of r == key)) rs

unfoldable pub route_line : String → Node → String
route_line id r =
    if attr r.attrs "method" == "GET"
    then "    " <> (id <> ("(\"" <> (label r.name <> "\")")))
    else "    " <> (id <> ("[/\"" <> (label r.name <> "\"/]")))

unfoldable pub draw_routes : List Node → Builder → Builder
draw_routes [] b = b
draw_routes (r ∷ rs) b = draw_routes rs (line (route_line (id_of r.id b).0 r) (id_of r.id b).1)

-- One group: nothing if it is empty.
unfoldable pub draw_group : String → String → List Node → Builder → Builder
draw_group key title [] b = b
draw_group key title (r ∷ rs) b = line "  end" (
    draw_routes (sort_by (λ x y. text_le x.name y.name) (r ∷ rs))
      (line ("  subgraph " <> (key <> ("[\"" <> (title <> "\"]")))) b))

unfoldable pub draw_groups :
    (String → String) → SiteMapOptions → List Node → Texts → Builder → Builder
draw_groups lower o rs [] b = b
draw_groups lower o rs ((key, title) ∷ more) b =
    draw_groups lower o rs more (draw_group key title (members lower o key rs) b)

-- `b.byNode[id]`, empty where the node has no id.
abbrev pub node_text : Builder → String → String
node_text b id = elim (get b.by_node id) [ none ↦ "" | some i ↦ i ]

unfoldable pub arrow : String → String
arrow trigger =
    if trigger == "form"
    then " ==> "
    else if trigger == "redirect"
    then " -.-> "
    else if trigger == "hx-redirect"
    then " -.->|hx| "
    else " --> "

unfoldable pub nav_line : Builder → Edge → String
nav_line b e = "  " <> (node_text b e.from <> (arrow (attr e.attrs "trigger") <> node_text b e.to))

unfoldable pub draw_nav : List String → List Edge → Builder → Builder
draw_nav kept [] b = b
draw_nav kept (e ∷ nav) b = draw_nav kept nav (
    if not (contains kept e.from) || (not (contains kept e.to) || e.from == e.to)
    then b
    else line (nav_line b e) b)

-- `sortedKeys`: by length, then by text.
abbrev pub key_le : String → String → Bool
key_le a b =
    let m = length (code_units a) in
    let n = length (code_units b) in if m == n then text_le a b else ltb m n

unfoldable pub draw_clicks : List String → Builder → Builder
draw_clicks [] b = b
draw_clicks (id ∷ ids) b = draw_clicks ids (line ("  click " <> (id <> " icbClick")) b)

-- `SiteMap`
unfoldable pub site_map : (String → String) → List Node → List Edge → SiteMapOptions → Diagram
site_map lower routes nav o =
    let b = draw_groups lower o routes access_order (new_builder "flowchart LR" "r") in
    let linked = draw_nav (kept_ids lower o routes []) nav b in
    diagram (draw_clicks (sort_by key_le (map (λ e. e.0) linked.ids)) linked)
