-- ===== src/Sqlparse.antt =====
-- Reading SQL (internal/sqlparse/parse.go): the text that goes to the parser, and positions in it. The
-- parser is a parameter; offsets are in bytes, and fall between characters.
pub mod Statements
pub mod Schema
pub mod Ddl
pub mod Migrations
pub mod Goose
pub mod Query
use Prim.Native.Char.{code}
use interactivecodebase.Base.{
  ℕ, zero, suc, ◌+◌, ◌-◌, String, ◌<>◌, ◌==◌, string_eq, nat_eq, Bool, true, false, ◌&&◌, ◌||◌,
  Option, none, some, List, [], ◌∷◌, Result, ok, err, if◌then◌else◌,
}
use interactivecodebase.Base.Text.{has_prefix, contains_text, replace_from}
use interactivecodebase.Mermaid.Sequence.{utf8_length}

abbrev pub unknown : String
unknown = "{?}"

abbrev pub unknown_ident : String
unknown_ident = "icb_unknown"

-- `unknownParamRE`: a dollar sign and the unknown parts behind it become `$1`. The flag says that such
-- parts are being left out.
unfoldable pub bind_params : ℕ → Bool → String → String
bind_params skip inside String.[] = ""
bind_params (suc skip) inside (String.◌∷◌ c s) = bind_params skip inside s
bind_params zero inside (String.◌∷◌ c s) =
    let next = bind_params 2 true s in
    let param = "$1" <> bind_params zero true s in
    let other = String.◌∷◌ c (bind_params zero false s) in
    if inside && has_prefix (String.◌∷◌ c s) unknown
    then next
    else if code c == 36 && has_prefix s unknown
    then param
    else other

unfoldable pub parser_text : String → String
parser_text sql = replace_from 2 zero unknown unknown_ident (bind_params zero false sql)

module _ {Tree E : Type 0} (pg_parse : String → Result E (List (Tree × ℕ))) where
  -- `parse`: the statements with their offsets; whether parts were unknown.
  unfoldable pub parse : String → Result E (List (Tree × ℕ)) × Bool
  parse sql = (pg_parse (parser_text sql), contains_text sql unknown)

pub record RangeVar : Type 0 where
  pub schema_name : String
  pub rel_name : String
  pub alias : String

-- `relName`
unfoldable pub rel_name_of : Option RangeVar → String
rel_name_of none = ""
rel_name_of (some rv) =
    if rv.schema_name == "" then rv.rel_name else rv.schema_name <> ("." <> rv.rel_name)

-- `strs`, of nodes of which those that are texts have one.
unfoldable pub strs : List (Option String) → List String
strs [] = []
strs (none ∷ ns) = strs ns
strs (some s ∷ ns) = s ∷ strs ns

-- `lineAt`
unfoldable pub newlines_before : ℕ → String → ℕ
newlines_before zero s = 0
newlines_before (suc off) String.[] = 0
newlines_before (suc off) (String.◌∷◌ c s) =
    (if code c == 10 then 1 else 0) + newlines_before (suc off - utf8_length (code c)) s

unfoldable pub line_at : String → ℕ → ℕ
line_at text off = newlines_before off text + 1
