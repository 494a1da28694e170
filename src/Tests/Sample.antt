-- ===== src/Tests/Sample.antt =====
-- A small graph: a route whose handler reads and writes a table.
use interactivecodebase.Base.{
  ℕ, ◌≡◌, ◌≢◌, refl, subst, String, ◌==◌, string_eq, Option, none, some, List, [], ◌∷◌,
  if◌then◌else◌,
}
use interactivecodebase.Graph.Kinds.{NodeKind, EdgeKind, sql_table}
use interactivecodebase.Graph.Model.{Attrs, no_pos, Node, Edge, Json, ReadsBack}
use interactivecodebase.Graph.Store.{Tables, empty_tables, Script, write}
use interactivecodebase.Graph.Store.Integrity.{IsSound}
use interactivecodebase.Graph.Document.{add_all}
use interactivecodebase.Graph.Document.Accepted.{no_faults}

abbrev pub get : Attrs
get = ("method", "GET") ∷ []

abbrev pub get_text : String
get_text = "{method: GET}"

-- A coding of the two lists of attributes of the sample.
abbrev pub written : Attrs → Option String
written [] = some "{}"
written (a ∷ more) = some get_text

abbrev pub code : Json
code = record {
  marshal = written;
  unmarshal = λ s. if s == "{}" then some [] else if s == get_text then some get else none;
}

abbrev pub node_of : String → NodeKind → Attrs → Node
node_of id kind attrs = record {
  id = id;
  kind = kind;
  name = id;
  package_path = "shop";
  detail = "";
  pos = no_pos;
  attrs = attrs;
}

abbrev pub edge_of_sample : ℕ → String → String → EdgeKind → Edge
edge_of_sample id from to kind = record {
  id = id;
  from = from;
  to = to;
  kind = kind;
  pos = no_pos;
  attrs = [];
}

abbrev pub nodes : List Node
nodes =
    node_of "r" "route" get
    ∷ node_of "h" "func" []
    ∷ node_of "m" "func" []
    ∷ node_of "s" "sink.sql" []
    ∷ node_of "t" sql_table []
    ∷ []

abbrev pub edges : List Edge
edges =
    edge_of_sample 1 "r" "h" "handled_by"
    ∷ edge_of_sample 2 "h" "m" "calls"
    ∷ edge_of_sample 3 "m" "s" "calls"
    ∷ edge_of_sample 4 "h" "s" "calls"
    ∷ edge_of_sample 5 "s" "t" "queries"
    ∷ []

abbrev pub fill_shop : Script code
fill_shop = add_all code nodes edges

abbrev pub shop : Tables
shop = (write code (no_faults code) fill_shop empty_tables).1

pub empty-IsSound : IsSound empty_tables
empty-IsSound = record {
  ids = tt;
  names = tt;
  node_kinds = tt;
  ends = tt;
  keys = tt;
  edge_kinds = tt;
  order = tt;
}

some-inj : {A : Type 0} {a b : A} → some a ≡ some b → a ≡ b
some-inj h = cc

text_ne : get_text ≢ ""
text_ne h = cc

pub get-ReadsBack : ReadsBack code get
unfolding string_eq
get-ReadsBack s e =
    let same : get_text ≡ s = some-inj e in
    (subst (λ x. x ≢ "") same text_ne, subst (λ x. code.unmarshal x ≡ some get) same refl)
