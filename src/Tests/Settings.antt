-- ===== src/Tests/Settings.antt =====
-- The settings of a small project (internal/config/config.go).
use interactivecodebase.Base.{
  ◌≡◌, refl, ◌↔◌, String, ◌==◌, string_eq, Option, none, some, List, [], ◌∷◌, ok, err, true, false,
  if◌then◌else◌, All, In,
}
use interactivecodebase.Base.Ints.{pos, negsuc}
use interactivecodebase.Config.{
  Config, Decoded, fields, malformed, empty_config, parse, validate, no_func, bad_kind,
  negative_arg, invalid,
}
use interactivecodebase.Config.Checked.{Means, IsValid, parse_iff}
use interactivecodebase.Config.Options.{options}

abbrev project : Config
project = record empty_config {
  lang = "go";
  sinks = record { kind = "http"; func = "app.Charge"; arg = some (pos 1); label = "" } ∷ [];
}

abbrev broken : Config
broken = record empty_config {
  sinks = record { kind = "queue"; func = ""; arg = some (negsuc 0); label = "" } ∷ [];
}

abbrev decode : String → Decoded
decode text = if text == "lang: go" then fields project else fields broken

parse_iff_example :
    (parse decode "lang: go" ≡ ok project) ↔ (Means (decode "lang: go") project × IsValid project)
parse_iff_example = parse_iff decode "lang: go" project

broken_refused :
    parse decode "" ≡ err (invalid (bad_kind 0 "queue" ∷ no_func 0 ∷ negative_arg 0 ∷ []))
unfolding parse string_eq validate interactivecodebase.Base.contains
    interactivecodebase.Config.sink_problems interactivecodebase.Config.is_some
    interactivecodebase.Mermaid.get interactivecodebase.Config.guard_problems
    interactivecodebase.Config.role_problems
broken_refused = refl

project_kind :
    (options (some project)).extra_sinks
    ≡ record { kind = "sink.http"; func = "app.Charge"; arg = pos 1; rebind = false; label = "" }
      ∷ []
unfolding options interactivecodebase.Mermaid.get string_eq
project_kind = refl
