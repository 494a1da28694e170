-- ===== src/Config/Options.antt =====
-- What a config asks of the analysis (internal/config/config.go): Options, ScalaOptions, ProjectLang, Load.
use interactivecodebase.Base.{
  String, ◌==◌, string_eq, Bool, false, not, ◌&&◌, ◌||◌, Option, none, some, List, [], ◌∷◌, ◌++◌,
  map, Result, ok, err, if◌then◌else◌,
}
use interactivecodebase.Base.Ints.{ℤ, negsuc}
use interactivecodebase.Graph.Kinds.{NodeKind}
use interactivecodebase.Mermaid.{Texts, get, put}
use interactivecodebase.Config.{
  Config, Sink, Guard, sink_kinds, access_authenticated, lang_go, lang_scala, Decoded, ConfigError,
  not_read, parse,
}

pub record SinkRule : Type 0 where
  pub kind : NodeKind
  pub func : String
  pub arg : ℤ
  pub rebind : Bool
  pub label : String

-- The fields that a config sets; `none` is a nil slice.
pub record Options : Type 0 where
  pub exclude : Option (List String)
  pub tests : Bool
  pub extra_sinks : List SinkRule
  pub auth_funcs : List String
  pub migration_dirs : Option (List String)
  pub patterns : Option (List String)
  pub auth_roles : Texts
  pub role_fields : Texts
  pub values : List (String × List String)

-- `DefaultExclude`
abbrev pub default_exclude : List String
default_exclude =
    "bytes" ∷ "cmp" ∷ "context" ∷ "errors" ∷ "fmt" ∷ "iter" ∷ "log" ∷ "maps" ∷ "math" ∷ "reflect"
    ∷ "runtime" ∷ "slices" ∷ "sort" ∷ "strconv" ∷ "strings" ∷ "sync" ∷ "time" ∷ "unicode" ∷ "unsafe"
    ∷ "internal" ∷ "go.opentelemetry.io" ∷ []

abbrev pub no_options : Options
no_options = record {
  exclude = none;
  tests = false;
  extra_sinks = [];
  auth_funcs = [];
  migration_dirs = none;
  patterns = none;
  auth_roles = [];
  role_fields = [];
  values = [];
}

-- The kind of an unknown name is the zero value of its map.
abbrev pub text_or_empty : Option String → String
text_or_empty none = ""
text_or_empty (some s) = s

abbrev pub arg_or_none : Option ℤ → ℤ
arg_or_none none = negsuc 0
arg_or_none (some n) = n

abbrev pub sink_rule : Sink → SinkRule
sink_rule s = record {
  kind = text_or_empty (get sink_kinds s.kind);
  func = s.func;
  arg = arg_or_none s.arg;
  rebind = false;
  label = s.label;
}

abbrev pub is_default_role : String → Bool
is_default_role role = role == "" || role == access_authenticated

unfoldable pub auth_funcs : List Guard → List String
auth_funcs [] = []
auth_funcs (g ∷ gs) =
    let rest = auth_funcs gs in if is_default_role g.role then g.func ∷ rest else rest

unfoldable pub auth_roles : List Guard → Texts → Texts
auth_roles [] found = found
auth_roles (g ∷ gs) found =
    auth_roles gs (if is_default_role g.role then found else put g.func g.role found)

abbrev pub exclude : Config → Option (List String)
exclude c =
    if c.no_default_exclude
    then some c.exclude
    else (elim c.exclude [ [] ↦ none | e ∷ es ↦ some (default_exclude ++ e ∷ es) ])

-- `Options`, of a config or of none.
unfoldable pub options : Option Config → Options
options none = no_options
options (some c) = record {
  exclude = exclude c;
  tests = c.tests;
  extra_sinks = map sink_rule c.sinks;
  auth_funcs = auth_funcs c.auth.guards;
  migration_dirs = c.migrations;
  patterns = c.packages;
  auth_roles = auth_roles c.auth.guards [];
  role_fields = c.auth.role_fields;
  values = c.values;
}

pub record ScalaOptions : Type 0 where
  pub extractor : String
  pub sbt : String
  pub projects : List String
  pub migration_dirs : Option (List String)
  pub guards : Texts
  pub server : String

unfoldable pub scala_guards : List Guard → Texts → Texts
scala_guards [] found = found
scala_guards (g ∷ gs) found =
    scala_guards gs (put g.func (if g.role == "" then access_authenticated else g.role) found)

-- `ScalaOptions`
unfoldable pub scala_options : Option Config → ScalaOptions
scala_options none = record {
  extractor = "";
  sbt = "";
  projects = [];
  migration_dirs = none;
  guards = [];
  server = "";
}
scala_options (some c) = record {
  extractor = c.scala.extractor;
  sbt = c.scala.sbt;
  projects = c.scala.projects;
  migration_dirs = c.migrations;
  guards = scala_guards c.auth.guards [];
  server = c.scala.server;
}

abbrev pub found_lang : Bool → Bool → String
found_lang has_go_mod has_build_sbt =
    if not has_go_mod && has_build_sbt then lang_scala else lang_go

-- `ProjectLang`, by whether the directory has a go.mod and a build.sbt.
unfoldable pub project_lang : Option Config → Bool → Bool → String
project_lang none has_go_mod has_build_sbt = found_lang has_go_mod has_build_sbt
project_lang (some c) has_go_mod has_build_sbt =
    if not (c.lang == "") then c.lang else found_lang has_go_mod has_build_sbt

pub data ReadFailure : Type 0 where
  not_exist other : ReadFailure

module _ (decode : String → Decoded) (read_file : String → Result ReadFailure String) where
  abbrev pub parsed : String → String → Result ConfigError (Option Config × String)
  parsed path text = elim (parse decode text) [ ok c ↦ ok (some c, path) | err e ↦ err e ]

  -- `Load`, of the path that is given or else of the path of icb.yaml in the directory.
  unfoldable pub load : String → String → Result ConfigError (Option Config × String)
  load in_dir path =
      if path == ""
      then (elim (read_file in_dir) [
        | ok text ↦ parsed in_dir text
        | err not_exist ↦ ok (none, "")
        | err other ↦ err not_read
      ])
      else (elim (read_file path) [ ok text ↦ parsed path text | err failure ↦ err not_read ])
