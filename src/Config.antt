-- ===== src/Config.antt =====
-- The settings of a project (internal/config/config.go): Config, Parse, validate, Options, ScalaOptions,
-- ProjectLang and Load. The YAML decoder and the file system are parameters. A map is a list of pairs.
pub mod Checked
pub mod Options
use interactivecodebase.Base.{
  ℕ, zero, suc, String, ◌==◌, string_eq, Bool, true, false, not, ◌&&◌, ◌||◌, Option, none, some,
  List, [], ◌∷◌, ◌++◌, map, contains, Result, ok, err, if◌then◌else◌,
}
use interactivecodebase.Base.Ints.{ℤ, pos, negsuc}
use interactivecodebase.Graph.Kinds.{NodeKind}
use interactivecodebase.Mermaid.{Texts, get, put}

pub record Scala : Type 0 where
  pub extractor : String
  pub sbt : String
  pub projects : List String
  pub server : String

pub record Sink : Type 0 where
  pub kind : String
  pub func : String
  pub arg : Option ℤ
  pub label : String

pub record Guard : Type 0 where
  pub func : String
  pub role : String

pub record Auth : Type 0 where
  pub guards : List Guard
  pub role_fields : Texts

-- `none` is a nil slice, where the analysis tells it from an empty one.
pub record Config : Type 0 where
  pub lang : String
  pub scala : Scala
  pub packages : Option (List String)
  pub tests : Bool
  pub exclude : List String
  pub no_default_exclude : Bool
  pub sinks : List Sink
  pub auth : Auth
  pub migrations : Option (List String)
  pub dialect : String
  pub values : List (String × List String)

abbrev pub lang_go : String
lang_go = "go"

abbrev pub lang_scala : String
lang_scala = "scala"

abbrev pub access_authenticated : String
access_authenticated = "authenticated"

abbrev pub access_admin : String
access_admin = "admin"

abbrev pub access_guest : String
access_guest = "guest"

-- `sinkKinds`
abbrev pub sink_kinds : Texts
sink_kinds =
    ("sql", "sink.sql")
    ∷ ("http", "sink.http")
    ∷ ("file", "sink.file")
    ∷ ("smtp", "sink.smtp")
    ∷ ("exec", "sink.exec")
    ∷ ("env", "sink.env")
    ∷ []

pub data Problem : Type 0 where
  bad_lang bad_server bad_dialect bad_role_field : String → Problem
  bad_kind bad_role : ℕ → String → Problem
  no_func negative_arg no_guard_func : ℕ → Problem

abbrev pub when : Bool → Problem → List Problem
when bad p = if bad then p ∷ [] else []

abbrev pub is_negative : Option ℤ → Bool
is_negative (some (negsuc n)) = true
is_negative (some (pos n)) = false
is_negative none = false

unfoldable pub is_some {ℓ} : {A : Type ℓ} → Option A → Bool
is_some none = false
is_some (some a) = true

unfoldable pub sink_problems : ℕ → List Sink → List Problem
sink_problems i [] = []
sink_problems i (s ∷ ss) =
    when (not (is_some (get sink_kinds s.kind))) (bad_kind i s.kind)
    ++ (when (s.func == "") (no_func i)
        ++ (when (is_negative s.arg) (negative_arg i) ++ sink_problems (suc i) ss))

abbrev pub roles : List String
roles = "" ∷ access_authenticated ∷ access_admin ∷ access_guest ∷ []

unfoldable pub guard_problems : ℕ → List Guard → List Problem
guard_problems i [] = []
guard_problems i (g ∷ gs) =
    when (g.func == "") (no_guard_func i)
    ++ (when (not (contains roles g.role)) (bad_role i g.role) ++ guard_problems (suc i) gs)

unfoldable pub role_problems : Texts → List Problem
role_problems [] = []
role_problems ((role, pattern_text) ∷ more) =
    when (not (role == access_admin) && not (role == access_guest)) (bad_role_field role)
    ++ role_problems more

abbrev pub langs : List String
langs = "" ∷ lang_go ∷ lang_scala ∷ []

abbrev pub servers : List String
servers = "" ∷ "reuse" ∷ "start" ∷ "off" ∷ []

-- `validate`
unfoldable pub validate : Config → List Problem
validate c =
    when (not (contains langs c.lang)) (bad_lang c.lang)
    ++ (when (not (contains servers c.scala.server)) (bad_server c.scala.server)
        ++ (when (not (c.dialect == "") && not (c.dialect == "postgres")) (bad_dialect c.dialect)
            ++ (sink_problems 0 c.sinks
                ++ (guard_problems 0 c.auth.guards ++ role_problems c.auth.role_fields))))

-- The zero value.
abbrev pub empty_config : Config
empty_config = record {
  lang = "";
  scala = record { extractor = ""; sbt = ""; projects = []; server = "" };
  packages = none;
  tests = false;
  exclude = [];
  no_default_exclude = false;
  sinks = [];
  auth = record { guards = []; role_fields = [] };
  migrations = none;
  dialect = "";
  values = [];
}

-- What the decoder of known fields makes of a text.
pub data Decoded : Type 0 where
  fields : Config → Decoded
  end_of_file malformed : Decoded

pub data ConfigError : Type 0 where
  not_yaml : ConfigError
  invalid : List Problem → ConfigError
  not_read : ConfigError

abbrev pub checked : Config → Result ConfigError Config
checked c = elim (validate c) [ [] ↦ ok c | p ∷ ps ↦ err (invalid (p ∷ ps)) ]

-- `Parse`
unfoldable pub parse : (String → Decoded) → String → Result ConfigError Config
parse decode text = elim (decode text) [
  | fields c ↦ checked c
  | end_of_file ↦ checked empty_config
  | malformed ↦ err not_yaml
]
