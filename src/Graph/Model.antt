-- ===== src/Graph/Model.antt =====
-- Positions, nodes and edges (internal/graph/graph.go), and what the store needs of encoding/json.
use interactivecodebase.Base.{
  ℕ, arith, Option-cases, inl, inr, ◌≡◌, ◌≢◌, String, ◌<>◌, ◌==◌, string_eq, Option, none, some,
  List, [], ◌∷◌, Result, ok, err, if◌then◌else◌,
}
use interactivecodebase.Graph.Kinds.{NodeKind, EdgeKind}

-- `map[string]string`. A missing key reads as the empty text.
abbrev pub Attrs : Type 0
Attrs = List (String × String)

unfoldable pub attr : Attrs → String → String
attr [] k = ""
attr ((j, v) ∷ m) k = let rest = attr m k in if j == k then v else rest

-- Lines and columns are 1-based; zero means unknown.
pub record Pos : Type 0 where
  pub file : String
  pub start_line : ℕ
  pub start_col : ℕ
  pub end_line : ℕ
  pub end_col : ℕ

abbrev pub no_pos : Pos
no_pos = record { file = ""; start_line = 0; start_col = 0; end_line = 0; end_col = 0 }

pub record Node : Type 0 where
  pub id : String
  pub kind : NodeKind
  pub name : String
  pub package_path : String
  pub detail : String
  pub pos : Pos
  pub attrs : Attrs

pub record Edge : Type 0 where
  pub id : ℕ
  pub from : String
  pub to : String
  pub kind : EdgeKind
  pub pos : Pos
  pub attrs : Attrs

-- `NodeID`
abbrev pub node_id : NodeKind → String → String
node_id kind name = kind <> ":" <> name

pub data GraphError : Type 0 where
  empty_id : GraphError
  unknown_node_kind unknown_edge_kind : String → GraphError
  encoding decoding : GraphError
  foreign_key : String → String → GraphError
  not_found : String → GraphError
  ambiguous : String → List String → GraphError
  unsupported_version : ℕ → GraphError
  unknown_node : ℕ → String → GraphError
  driver : String → GraphError

-- `json.Marshal` and `json.Unmarshal` on `map[string]string`.
pub record Json : Type 0 where
  pub marshal : Attrs → Option String
  pub unmarshal : String → Option Attrs

-- What is marshalled is not empty and is read back.
abbrev pub ReadsBack : Json → Attrs → Type 0
ReadsBack j a = (s : String) → j.marshal a ≡ some s → (s ≢ "") × (j.unmarshal s ≡ some a)

-- `encodeAttrs`: no attributes are stored as the empty text.
unfoldable pub encode_attrs : Json → Attrs → Result GraphError String
encode_attrs j [] = ok ""
encode_attrs j (a ∷ more) = elim (j.marshal (a ∷ more)) [ none ↦ err encoding | some s ↦ ok s ]

-- `decodeAttrs`
unfoldable pub decode_attrs : Json → String → Result GraphError Attrs
decode_attrs j s =
    if s == "" then ok [] else elim (j.unmarshal s) [ none ↦ err decoding | some a ↦ ok a ]

pub decode_attrs-encode_attrs :
    (j : Json) (a : Attrs) (s : String)
    → ReadsBack j a
    → encode_attrs j a ≡ ok s
    → decode_attrs j s ≡ ok a
unfolding encode_attrs decode_attrs
decode_attrs-encode_attrs j [] s h e = ground arith
decode_attrs-encode_attrs j (x ∷ more) s h e = elim (Option-cases (j.marshal (x ∷ more))) [
  | inl none_written ↦ absurd (ground arith)
  | inr (w, written) ↦ ground (arith, h w written)
]
