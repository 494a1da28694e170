-- ===== src/Graph/Kinds.antt =====
-- Node and edge kinds (internal/graph/kinds.go). A kind is a string, and the known ones are listed.
use interactivecodebase.Base.{String, Bool, List, [], ◌∷◌, contains, string_eq}

abbrev pub NodeKind : Type 0
NodeKind = String

abbrev pub EdgeKind : Type 0
EdgeKind = String

abbrev pub route : NodeKind
route = "route"

abbrev pub entry : NodeKind
entry = "entry"

abbrev pub func : NodeKind
func = "func"

abbrev pub method : NodeKind
method = "method"

abbrev pub interface_call : NodeKind
interface_call = "interface_call"

abbrev pub type_kind : NodeKind
type_kind = "type"

abbrev pub sql_table : NodeKind
sql_table = "sql_table"

abbrev pub node_kinds : List NodeKind
node_kinds =
    route ∷ entry ∷ "page" ∷ "htmx_call" ∷ "static_asset" ∷ "template" ∷ "handler" ∷ func ∷ method
    ∷ interface_call ∷ "sink.sql" ∷ "sink.file" ∷ "sink.http" ∷ "sink.smtp" ∷ "sink.exec"
    ∷ "sink.env" ∷ type_kind ∷ sql_table ∷ "sql_column" ∷ []

-- `NodeKind.Valid`
unfoldable pub node_kind_valid : NodeKind → Bool
unfolding contains
node_kind_valid k = contains node_kinds k

abbrev pub calls : EdgeKind
calls = "calls"

abbrev pub handled_by : EdgeKind
handled_by = "handled_by"

abbrev pub dispatches_to : EdgeKind
dispatches_to = "dispatches_to"

abbrev pub queries : EdgeKind
queries = "queries"

abbrev pub has_column : EdgeKind
has_column = "has_column"

abbrev pub fk : EdgeKind
fk = "fk"

abbrev pub edge_kinds : List EdgeKind
edge_kinds =
    "navigates_to" ∷ "requests" ∷ "loads" ∷ handled_by ∷ calls ∷ "implements" ∷ dispatches_to
    ∷ "renders" ∷ "uses_type" ∷ queries ∷ has_column ∷ fk ∷ "guarded_by" ∷ "runs" ∷ []

-- `EdgeKind.Valid`
unfoldable pub edge_kind_valid : EdgeKind → Bool
unfolding contains
edge_kind_valid k = contains edge_kinds k
