-- ===== src/Analysis/Pages.antt =====
-- What a page renders, and the routes that its URLs go to (internal/analysis/pages.go): the parts that do
-- not read the program's code.
pub mod Included
pub mod Best
pub mod Listed
pub mod Literal
use Prim.Native.Char.{code}
use interactivecodebase.Base.{
  ℕ, zero, suc, ◌+◌, ◌-◌, String, ◌<>◌, ◌==◌, string_eq, nat_eq, Bool, true, false, not, ◌&&◌, ◌||◌,
  ltb, Option, none, some, List, [], ◌∷◌, ◌++◌, contains, length, if◌then◌else◌,
}
use interactivecodebase.Base.Text.{has_prefix, has_suffix, contains_text, replace_from, split}
use interactivecodebase.Base.Visit.{each, visit}
use interactivecodebase.Analysis.Values.{unknown}
use interactivecodebase.Analysis.Routes.{Route, key}

-- The element and the attribute of a URL in a template.
pub record UrlRef : Type 0 where
  pub element : String
  pub attr : String

-- `URLRef.Trigger`
unfoldable pub trigger : UrlRef → String
trigger u =
    if has_prefix u.attr "hx-" then u.attr else if u.element == "form" then "form" else u.element

-- `URLRef.Kind`
unfoldable pub kind : UrlRef → String
kind u =
    if has_prefix u.attr "hx-" || (u.element == "form" && u.attr == "action")
    then "request"
    else if u.element == "script"
        || (u.element == "img" || (u.element == "link" || u.element == "source"))
    then "asset"
    else if u.element == "a" && u.attr == "href"
    then "link"
    else ""

-- A template, with the templates that each of those that it defines includes.
pub record Template : Type 0 where
  pub file : String
  pub uses : List (String × List String)

unfoldable pub uses_at : List (String × List String) → String → List String
uses_at [] name = []
uses_at ((n, used) ∷ more) name = let rest = uses_at more name in if n == name then used else rest

unfoldable pub defined : List (String × Template) → String → Option Template
defined [] name = none
defined ((n, t) ∷ more) name = let rest = defined more name in if n == name then some t else rest

unfoldable pub used_by : List (String × Template) → String → Option (List String)
used_by defines name = elim (defined defines name) [
  | none ↦ none
  | some t ↦ some (uses_at t.uses name)
]

-- `includedDefines`, with fuel for each definition.
unfoldable pub included_defines : List String → List (String × Template) → List String
included_defines names defines = each (visit (used_by defines) (suc (length defines))) names []

abbrev masked : String
masked = "\0"

-- The text before the query or the fragment.
unfoldable pub before_query : String → String
before_query String.[] = ""
before_query (String.◌∷◌ c s) =
    let rest = String.◌∷◌ c (before_query s) in if code c == 63 || code c == 35 then "" else rest

abbrev without_query : String → String
without_query u =
    replace_from 0 zero masked unknown (before_query (replace_from 2 zero unknown masked u))

abbrev path_of : String → String
path_of u =
    if contains_text u "://" || has_prefix u "//"
    then ""
    else if has_prefix u (unknown <> "/")
    then "/" <> u
    else if not (has_prefix u "/")
    then ""
    else u

-- `urlPath`
unfoldable pub url_path : String → String
url_path u = path_of (without_query u)

unfoldable pub trim_start : String → String
trim_start String.[] = ""
trim_start (String.◌∷◌ c s) =
    let rest = trim_start s in if code c == 47 then rest else String.◌∷◌ c s

unfoldable pub trim_end : String → String
trim_end String.[] = ""
trim_end (String.◌∷◌ c s) =
    let rest = trim_end s in if code c == 47 && rest == "" then "" else String.◌∷◌ c rest

-- The parts of a pattern or a path between slashes.
unfoldable pub segments : String → List String
segments s = split 47 (trim_end (trim_start s))

abbrev pub is_wildcard : String → Bool
is_wildcard p = has_prefix p "{" && has_suffix p "}"

unfoldable pub tail_score : List String → List String → ℕ → ℕ
tail_score [] us literals = literals
tail_score (p ∷ ps) [] literals = literals
tail_score (p ∷ ps) (u ∷ us) literals =
    let same = tail_score ps us (suc literals) in
    let other = tail_score ps us literals in
    if u == p
    then same
    else if (is_wildcard p && not (u == "")) || contains_text u unknown
    then other
    else 0

unfoldable pub drop : ℕ → List String → List String
drop zero xs = xs
drop (suc n) [] = []
drop (suc n) (x ∷ xs) = drop n xs

-- `suffixScore`
unfoldable pub suffix_score : List String → List String → ℕ
suffix_score ps [] = 0
suffix_score ps (u ∷ []) = 0
suffix_score ps (first ∷ u ∷ us) =
    if not (first == unknown) || ltb (length ps) (length (first ∷ u ∷ us))
    then 0
    else tail_score (drop (length ps - length us - 1) ps) (u ∷ us) 0

-- The score of the segments that are left, where `otherwise` is that of the suffix.
unfoldable pub score_from : ℕ → List String → List String → ℕ → ℕ → ℕ
score_from otherwise [] [] score literals = if literals == 0 then otherwise else score
score_from otherwise [] (u ∷ us) score literals = otherwise
score_from otherwise (p ∷ ps) [] score literals =
    if is_wildcard p && has_suffix p "...}" then 0 else otherwise
score_from otherwise (p ∷ ps) (u ∷ us) score literals =
    let same = score_from otherwise ps us (score + 3) (suc literals) in
    let held = score_from otherwise ps us (score + 2) literals in
    let guessed = score_from otherwise ps us (score + 1) literals in
    if is_wildcard p && has_suffix p "...}"
    then (if literals == 0 then 0 else score + 1)
    else if u == p
    then same
    else if is_wildcard p && not (u == "")
    then held
    else if contains_text u unknown
    then guessed
    else otherwise

-- `matchScore`
unfoldable pub match_score : String → String → ℕ
match_score pattern path =
    if pattern == "/" || pattern == "/{$}"
    then (if path == "/" then 3 else 0)
    else score_from (suffix_score (segments pattern) (segments path)) (segments pattern)
        (segments path) 0 0

abbrev pub better : String × ℕ → String × ℕ → String × ℕ
better found best = if ltb best.1 found.1 then found else best

unfoldable pub try_patterns : String → String → List String → String × ℕ → String × ℕ
try_patterns k path [] best = best
try_patterns k path (p ∷ ps) best = try_patterns k path ps (better (k, match_score p path) best)

-- Whether a route serves requests with a method; a link has none.
abbrev pub serves : String → Route → Bool
serves method rt =
    rt.method == method || (rt.method == "ANY" || (method == "" && rt.method == "GET"))

unfoldable pub try_routes : String → String → List Route → String × ℕ → String × ℕ
try_routes method path [] best = best
try_routes method path (rt ∷ rts) best =
    try_routes method path rts (
      if serves method rt then try_patterns (key rt) path (rt.pattern ∷ rt.variants) best else best)

unfoldable pub try_values : List Route → String → List String → String × ℕ → String × ℕ
try_values routes method [] best = best
try_values routes method (v ∷ vs) best =
    try_values routes method vs
      (if url_path v == "" then best else try_routes method (url_path v) routes best)

-- `matchRoute`
unfoldable pub match_route : List Route → String → List String → String
match_route routes method values = (try_values routes method values ("", 0)).0

unfoldable pub match_from : List Route → String → List String → List String → List String
match_from routes method [] out = out
match_from routes method (v ∷ vs) out =
    let found = match_route routes method (v ∷ []) in
    match_from routes method vs
      (if found == "" then out else if contains out found then out else out ++ found ∷ [])

-- `matchRoutes`
unfoldable pub match_routes : List Route → String → List String → List String
match_routes routes method values = match_from routes method values []
