-- ===== src/Mermaid.antt =====
-- The diagrams (internal/mermaid): the builder, and the text that goes into a diagram.
pub mod Labels
pub mod Decimals
pub mod Ids
pub mod Er
pub mod SiteMap
pub mod Classes
pub mod Sequence
use Prim.Native.Char.{code}
use interactivecodebase.Base.{
  ℕ, ◌+◌, String, ◌<>◌, ◌==◌, string_eq, nat_eq, Bool, true, false, not, ◌&&◌, ◌||◌, Option, none,
  some, List, [], ◌∷◌, ◌++◌, map, leb, length, if◌then◌else◌,
}
use interactivecodebase.Base.Text.{decimal}

-- A map of texts; `put` gives a key a value, and the value that is found is the last one given.
abbrev pub Texts : Type 0
Texts = List (String × String)

unfoldable pub get : Texts → String → Option String
get [] k = none
get ((j, v) ∷ more) k = let rest = get more k in if j == k then some v else rest

unfoldable pub put : String → String → Texts → Texts
put k v [] = (k, v) ∷ []
put k v ((j, w) ∷ more) = if j == k then (k, v) ∷ more else (j, w) ∷ put k v more

pub record Diagram : Type 0 where
  pub mermaid : String
  pub ids : Texts

-- `builder`
pub record Builder : Type 0 where
  pub lines : List String
  pub ids : Texts
  pub by_node : Texts
  pub prefix : String

unfoldable pub new_builder : String → String → Builder
new_builder header prefix = record { lines = header ∷ []; ids = []; by_node = []; prefix = prefix }

-- `line`, of the formatted text.
unfoldable pub line : String → Builder → Builder
line text b = record b { lines = b.lines ++ text ∷ [] }

abbrev pub fresh_id : Builder → String
fresh_id b = b.prefix <> decimal (length b.by_node)

-- `id`
unfoldable pub id_of : String → Builder → String × Builder
id_of graph b = elim (get b.by_node graph) [
  | some id ↦ (id, b)
  | none ↦ (
    fresh_id b,
    record b { by_node = put graph (fresh_id b) b.by_node; ids = put (fresh_id b) graph b.ids },
  )
]

abbrev pub join_lines : List String → String
join_lines [] = ""
join_lines (l ∷ []) = l
join_lines (l ∷ m ∷ more) = l <> "\n" <> join_lines (m ∷ more)

-- `diagram`
unfoldable pub diagram : Builder → Diagram
diagram b = record { mermaid = join_lines b.lines <> "\n"; ids = b.ids }

-- `label`, by one character.
unfoldable pub escape : ℕ → String → String
escape c this =
    if c == 34
    then "#quot;"
    else if c == 10
    then " "
    else if c == 60
    then "#lt;"
    else if c == 62
    then "#gt;"
    else this

unfoldable pub label : String → String
label String.[] = ""
label (String.◌∷◌ c s) = escape (code c) (String.◌∷◌ c String.[]) <> label s

-- [A-Za-z0-9_]
abbrev pub is_digit : ℕ → Bool
is_digit c = leb 48 c && leb c 57

unfoldable pub is_word : ℕ → Bool
is_word c = is_digit c || ((leb 65 c && leb c 90) || ((leb 97 c && leb c 122) || c == 95))

-- `nonWord.ReplaceAllString(s, "_")`; the flag is set inside of a run.
unfoldable pub squeeze : Bool → String → String
squeeze in_run String.[] = ""
squeeze in_run (String.◌∷◌ c s) =
    let after_word = squeeze false s in
    let after_other = squeeze true s in
    if is_word (code c)
    then String.◌∷◌ c after_word
    else if in_run
    then after_other
    else "_" <> after_other

unfoldable pub trim_left : String → String
trim_left String.[] = ""
trim_left (String.◌∷◌ c s) = let rest = trim_left s in if code c == 95 then rest else String.◌∷◌ c s

unfoldable pub trim_right : String → String
trim_right String.[] = ""
trim_right (String.◌∷◌ c s) =
    let rest = trim_right s in if rest == "" && code c == 95 then "" else String.◌∷◌ c rest

abbrev pub named : String → String
named String.[] = "x"
named (String.◌∷◌ c s) = if is_digit (code c) then "_" <> String.◌∷◌ c s else String.◌∷◌ c s

-- `ident`
unfoldable pub ident : String → String
ident s = named (trim_right (trim_left (squeeze false s)))
