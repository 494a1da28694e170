-- ===== src/Analysis/Routes.antt =====
-- The routes of a program (internal/analysis/routes.go): the patterns of a registration, grouped, and the
-- list of all routes. A function has a number, which stands for its address; what the detectors of the
-- router libraries find, and the handler that is behind a value, are parameters.
pub mod Merged
use Prim.Native.Char.{code}
use Prim.Native.Nat.{compare, Ordering}
use interactivecodebase.Base.{
  ℕ, zero, suc, ◌+◌, String, ◌<>◌, ◌==◌, string_eq, nat_eq, Bool, true, false, not, ◌&&◌, ◌||◌, leb,
  ltb, Option, none, some, List, [], ◌∷◌, ◌++◌, map, any, flat_map, if◌then◌else◌,
}
use interactivecodebase.Base.Text.{has_prefix, has_suffix, cut_prefix, contains_text, text_le}
use interactivecodebase.Base.Sort.{sort_by}
use interactivecodebase.Analysis.Values.{unknown, union}

pub record Route : Type 0 where
  pub method : String
  pub pattern : String
  pub variants : List String
  pub handler : Option ℕ
  pub middleware : List ℕ
  pub mux_middleware : List ℕ
  pub is_static : Bool
  pub pos : ℕ

-- `Route.Key`
abbrev pub key : Route → String
key r = r.method <> (" " <> r.pattern)

-- `Route.Conditional`
unfoldable pub is_conditional : Route → Bool
is_conditional r = contains_text r.pattern unknown

unfoldable pub handler_name : (ℕ → String) → Route → String
handler_name name r = elim r.handler [ none ↦ unknown | some f ↦ name f ]

-- `strings.Cut` at a character.
unfoldable pub cut : ℕ → String → Option (String × String)
cut sep String.[] = none
cut sep (String.◌∷◌ c s) =
    let rest = cut sep s in
    if code c == sep
    then some ("", s)
    else elim rest [ none ↦ none | some halves ↦ some (String.◌∷◌ c halves.0, halves.1) ]

abbrev without_spaces : String → String
without_spaces String.[] = ""
without_spaces (String.◌∷◌ c s) =
    let rest = without_spaces s in if code c == 32 then rest else String.◌∷◌ c s

-- `splitPattern`
unfoldable pub split_pattern : String → String × String
split_pattern p = elim (cut 32 p) [
  | none ↦ ("ANY", p)
  | some halves ↦
      if not (has_prefix halves.0 "/") then (halves.0, without_spaces halves.1) else ("ANY", p)
]

abbrev is_lower : ℕ → Bool
is_lower c = leb 97 c && leb c 122

abbrev is_letter : ℕ → Bool
is_letter c = is_lower c || (leb 65 c && leb c 90)

abbrev letters : String → Option ℕ
letters String.[] = some 0
letters (String.◌∷◌ c s) =
    let rest = letters s in
    if is_letter (code c) then elim rest [ none ↦ none | some n ↦ some (suc n) ] else none

abbrev two_to_four : Option ℕ → Bool
two_to_four none = false
two_to_four (some n) = leb 2 n && leb n 4

abbrev region : String → Bool
region String.[] = true
region (String.◌∷◌ c s) = code c == 45 && two_to_four (letters s)

-- `langSegment`: two small letters, and a hyphen with two to four letters.
unfoldable pub lang_segment : String → Bool
lang_segment String.[] = false
lang_segment (String.◌∷◌ c String.[]) = false
lang_segment (String.◌∷◌ c (String.◌∷◌ d s)) = is_lower (code c) && (is_lower (code d) && region s)

abbrev cut_path : String → String × String
cut_path rest = elim (cut 47 rest) [ none ↦ (rest, "") | some halves ↦ halves ]

-- `collapseLang`: the path with `{lang}` for its first segment, none if that is not a language.
unfoldable pub collapse_lang : String → Option String
collapse_lang path = elim (cut_prefix path "/") [
  | none ↦ none
  | some rest ↦
      if not (lang_segment (cut_path rest).0)
      then none
      else if (cut_path rest).1 == "" && not (has_suffix rest "/")
      then some "/{lang}"
      else some ("/{lang}/" <> (cut_path rest).1)
]

-- The patterns of a registration that differ in their language only.
pub record Group : Type 0 where
  pub method : String
  pub pattern : String
  pub variants : List String

abbrev pub collapsed : String → Option String → String
collapsed path none = path
collapsed path (some pattern) = pattern

abbrev pub variant : String → Option String → List String
variant path none = []
variant path (some pattern) = path ∷ []

unfoldable pub add_to_group : String → String → List String → List Group → List Group
add_to_group method pattern vs [] =
    record { method = method; pattern = pattern; variants = vs } ∷ []
add_to_group method pattern vs (g ∷ gs) =
    let rest = add_to_group method pattern vs gs in
    if g.method == method && g.pattern == pattern
    then record g { variants = g.variants ++ vs } ∷ gs
    else g ∷ rest

unfoldable pub group_one : String → List Group → List Group
group_one p gs =
    let (method, path) = split_pattern p in
    let lang = collapse_lang path in
    add_to_group method (collapsed path lang) (variant path lang) gs

unfoldable pub group_all : List String → List Group → List Group
group_all [] gs = gs
group_all (p ∷ ps) gs = group_all ps (group_one p gs)

-- What a registration has beside its patterns.
pub record Registration : Type 0 where
  pub handler : Option ℕ
  pub middleware : List ℕ
  pub mux_middleware : List ℕ
  pub is_static : Bool
  pub pos : ℕ

abbrev pub route_pattern : Group → String × List String
route_pattern g = elim g.variants [
  | [] ↦ (g.pattern, [])
  | v ∷ vs ↦ elim vs [ [] ↦ (v, []) | w ∷ ws ↦ (g.pattern, v ∷ w ∷ ws) ]
]

abbrev pub route_of : Registration → Group → Route
route_of r g = record {
  method = g.method;
  pattern = (route_pattern g).0;
  variants = (route_pattern g).1;
  handler = r.handler;
  middleware = r.middleware;
  mux_middleware = r.mux_middleware;
  is_static = r.is_static;
  pos = r.pos;
}

-- `registrationRoutes`, of the patterns that the argument may be.
unfoldable pub registration_routes : Registration → List String → List Route
registration_routes r patterns = map (route_of r) (group_all patterns [])

-- The first route with a key gets the variants of the others.
unfoldable pub merge_one : Route → List Route → List Route
merge_one rt [] = rt ∷ []
merge_one rt (out ∷ outs) =
    let rest = merge_one rt outs in
    if key out == key rt
    then record out { variants = union out.variants rt.variants } ∷ outs
    else out ∷ rest

unfoldable pub merge_all : List Route → List Route → List Route
merge_all [] out = out
merge_all (rt ∷ rts) out = merge_all rts (merge_one rt out)

-- `mergeDuplicates`
unfoldable pub merge_duplicates : List Route → List Route
merge_duplicates routes = merge_all routes []

unfoldable pub route_le : Route → Route → Bool
route_le a b = elim (compare a.pos b.pos) [
  | Ordering.lt ↦ true
  | Ordering.eq ↦ text_le (key a) (key b)
  | Ordering.gt ↦ false
]

-- `discoverRoutes`, of what each of the detectors finds.
unfoldable pub discover_routes : List (List Route) → List Route
discover_routes found = merge_duplicates (sort_by route_le (flat_map (λ rs. rs) found))
