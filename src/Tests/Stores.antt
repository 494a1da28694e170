-- ===== src/Tests/Stores.antt =====
-- The store and the queries (internal/graph) on the sample.
use interactivecodebase.Base.{
  ◌≡◌, refl, inl, inr, true, false, none, some, [], ◌∷◌, ok, length, string_eq, nat_eq, contains,
  All,
}
use mathlib.Core.List.{Perm}
use interactivecodebase.Base.{String, ◌==◌, ◌||◌, ◌≢◌, any, keep}
use interactivecodebase.Graph.Kinds.{calls, sql_table, node_kind_valid, edge_kind_valid}
use interactivecodebase.Base.Sort.{sort_by, insert_by}
use interactivecodebase.Base.Text.{text_le}
use interactivecodebase.Graph.Model.{
  encode_attrs, decode_attrs, Json, Node, no_pos, GraphError, driver, unknown_node, node_id,
}
use interactivecodebase.Graph.Store.{
  add_edge, insert_edge, last_id, same_key, upsert, NodeRow, EdgeRow, Tables, node_row, has_node,
  empty_tables, Script, return, node, edge, Faults, write, run_script, add_node,
}
use interactivecodebase.Graph.Store.Integrity.{IsSound, write-IsSound, write_atomic}
use interactivecodebase.Graph.Query.{
  get_nodes, scan_all, admits, matches, scan_edge, scan_node, get_node,
}
use interactivecodebase.Graph.Query.Lookup.{get_node-add_node}
use interactivecodebase.Graph.Document.{
  add_all, add_edges, Document, import_document, export_document, format_version,
}
use interactivecodebase.Graph.Document.Accepted.{
  no_faults, ids, IsValidNode, IsValidEdge, AllKnown, import_document-unknown_end,
  import_document_valid,
}
use interactivecodebase.Graph.Document.RoundTrip.{IsCanonical, import_document-export_document}
use interactivecodebase.Tests.Sample.{
  code, get_text, get, node_of, edge_of_sample, nodes, edges, fill_shop, shop, empty-IsSound,
  get-ReadsBack,
}

commit_fails : Faults code
commit_fails = record (no_faults code) { commit = some (driver "disk full") }

fill_writes : (write code (no_faults code) fill_shop empty_tables).0 ≡ []
unfolding write string_eq nat_eq run_script interactivecodebase.Graph.Document.add_all add_node
    interactivecodebase.Graph.Kinds.node_kind_valid interactivecodebase.Graph.Model.encode_attrs
    interactivecodebase.Graph.Document.add_edges interactivecodebase.Graph.Store.add_edge
    interactivecodebase.Graph.Kinds.edge_kind_valid interactivecodebase.Graph.Store.insert_edge any
    has_node interactivecodebase.Graph.Store.upsert interactivecodebase.Graph.Store.same_key
fill_writes = refl

shop_edges : length shop.edges ≡ 5
unfolding write string_eq nat_eq run_script interactivecodebase.Graph.Document.add_all add_node
    interactivecodebase.Graph.Kinds.node_kind_valid interactivecodebase.Graph.Model.encode_attrs
    interactivecodebase.Graph.Document.add_edges interactivecodebase.Graph.Store.add_edge
    interactivecodebase.Graph.Kinds.edge_kind_valid interactivecodebase.Graph.Store.insert_edge any
    has_node interactivecodebase.Graph.Store.upsert interactivecodebase.Graph.Store.same_key
shop_edges = refl

shop-IsSound : IsSound shop
shop-IsSound = write-IsSound code (no_faults code) fill_shop empty_tables empty-IsSound

write-IsSound_example : IsSound (write code (no_faults code) fill_shop empty_tables).1
write-IsSound_example = write-IsSound code (no_faults code) fill_shop empty_tables empty-IsSound

write_atomic_example :
    ((write code commit_fails fill_shop empty_tables).0 ≢ []
      → (write code commit_fails fill_shop empty_tables).1 ≡ empty_tables)
    × ((write code commit_fails fill_shop empty_tables).0 ≡ []
        → (run_script code fill_shop empty_tables).0 ≡ none
          × (write code commit_fails fill_shop empty_tables).1
            ≡ (run_script code fill_shop empty_tables).1)
write_atomic_example = write_atomic code commit_fails fill_shop empty_tables

-- The route again, under another name: the row is replaced.
abbrev renamed : Node
renamed = node_of "r" "route" get

abbrev with_route : Tables
with_route = record { nodes = node_row renamed get_text ∷ []; edges = [] }

added : add_node code renamed empty_tables ≡ ok with_route
unfolding add_node string_eq interactivecodebase.Graph.Kinds.node_kind_valid
    interactivecodebase.Graph.Model.encode_attrs interactivecodebase.Graph.Store.upsert
added = refl

get_node-add_node_example :
    (get_node code "r" with_route ≡ ok renamed)
    × ((k : String) → k ≢ "r" → get_node code k with_route ≡ get_node code k empty_tables)
    × (with_route.edges ≡ [])
get_node-add_node_example =
    get_node-add_node code renamed empty_tables with_route get-ReadsBack added

abbrev dangling : Document
dangling = record { version = 1; nodes = nodes; edges = edge_of_sample 1 "h" "lost" calls ∷ [] }

not_listed : contains (ids dangling.nodes) "lost" ≡ false
unfolding contains string_eq
not_listed = refl

not_stored : has_node "lost" empty_tables.nodes ≡ false
unfolding has_node any
not_stored = refl

mentioned : any (λ e. e.from == "lost" || e.to == "lost") dangling.edges ≡ true
unfolding any string_eq
mentioned = refl

import_document-unknown_end_example :
    ((import_document code (no_faults code) (ok dangling) empty_tables).0 ≢ [])
    × ((import_document code (no_faults code) (ok dangling) empty_tables).1 ≡ empty_tables)
import_document-unknown_end_example =
    import_document-unknown_end code empty_tables (no_faults code) dangling "lost" not_listed
      not_stored mentioned

abbrev whole : Document
whole = record { version = 1; nodes = nodes; edges = edges }

whole-AllKnown : AllKnown code empty_tables (ids nodes) edges
unfolding contains string_eq
whole-AllKnown = (
  (inl refl, inl refl),
  (
    (inl refl, inl refl),
    ((inl refl, inl refl), ((inl refl, inl refl), ((inl refl, inl refl), tt))),
  ),
)

valid_nodes : All (IsValidNode code) nodes
unfolding node_kind_valid contains string_eq encode_attrs
valid_nodes = (
  (λ h. cc, refl, (get_text, refl)),
  (
    (λ h. cc, refl, ("", refl)),
    ((λ h. cc, refl, ("", refl)), ((λ h. cc, refl, ("", refl)), ((λ h. cc, refl, ("", refl)), tt))),
  ),
)

valid_edges : All (IsValidEdge code) edges
unfolding edge_kind_valid contains string_eq encode_attrs
valid_edges = (
  (refl, ("", refl)),
  ((refl, ("", refl)), ((refl, ("", refl)), ((refl, ("", refl)), ((refl, ("", refl)), tt)))),
)

import_document_valid_example :
    import_document code (no_faults code) (ok whole) empty_tables ≡ ([], shop)
unfolding write run_script interactivecodebase.Graph.Document.add_all add_node string_eq
    interactivecodebase.Graph.Kinds.node_kind_valid interactivecodebase.Graph.Model.encode_attrs
    interactivecodebase.Graph.Document.add_edges interactivecodebase.Graph.Store.add_edge
    interactivecodebase.Graph.Kinds.edge_kind_valid interactivecodebase.Graph.Store.insert_edge any
    has_node interactivecodebase.Graph.Store.upsert interactivecodebase.Graph.Store.same_key
import_document_valid_example =
    import_document_valid code whole empty_tables (inr refl) valid_nodes valid_edges whole-AllKnown

abbrev exported_shop : Document
exported_shop = record {
  version = 1;
  nodes =
      node_of "h" "func" []
      ∷ node_of "m" "func" []
      ∷ node_of "r" "route" get
      ∷ node_of "s" "sink.sql" []
      ∷ node_of "t" sql_table []
      ∷ [];
  edges = edges;
}

exported : export_document code shop ≡ ok exported_shop
unfolding export_document get_nodes scan_all sort_by keep write run_script add_all add_node
    string_eq node_kind_valid encode_attrs add_edges add_edge edge_kind_valid insert_edge any
    has_node contains nat_eq insert_by text_le decode_attrs admits matches scan_edge scan_node
    last_id same_key upsert
exported = refl

IsCanonical-nodes : All (λ r. IsCanonical code r.attrs) shop.nodes
unfolding write run_script add_all add_node string_eq node_kind_valid encode_attrs add_edges
    add_edge edge_kind_valid insert_edge any has_node contains nat_eq last_id same_key upsert
    decode_attrs
IsCanonical-nodes = (
  (get, refl, refl),
  (([], refl, refl), (([], refl, refl), (([], refl, refl), (([], refl, refl), tt)))),
)

IsCanonical-edges : All (λ e. IsCanonical code e.attrs) shop.edges
unfolding write run_script add_all add_node string_eq node_kind_valid encode_attrs add_edges
    add_edge edge_kind_valid insert_edge any has_node contains nat_eq last_id same_key upsert
    decode_attrs
IsCanonical-edges = (
  ([], refl, refl),
  (([], refl, refl), (([], refl, refl), (([], refl, refl), (([], refl, refl), tt)))),
)

import_document-export_document_example :
    (t' : Tables) × (import_document code (no_faults code) (ok exported_shop) empty_tables
      ≡ ([], t'))
    × Perm t'.nodes shop.nodes
    × (t'.edges ≡ shop.edges)
    × (export_document code t' ≡ ok exported_shop)
import_document-export_document_example =
    import_document-export_document code shop exported_shop shop-IsSound IsCanonical-nodes
      IsCanonical-edges exported
