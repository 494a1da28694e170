-- ===== src/Tests/Pages.antt =====
-- The routes of a small program and the URLs of its pages (internal/analysis/routes.go and pages.go).
use interactivecodebase.Base.{
  ℕ, ◌<◌, ◌≤◌, ◌≡◌, ◌≢◌, ◌↔◌, ◌⊎◌, refl, string_eq, nat_eq, arith, String, Bool, true, false,
  Option, none, some, List, [], ◌∷◌, In, flat_map,
}
use interactivecodebase.Base.Distinct.{IsDistinct}
use interactivecodebase.Base.Visit.Reached.{Reached}
use interactivecodebase.Analysis.Routes.{
  Route, Registration, registration_routes, discover_routes, merge_duplicates, key,
}
use interactivecodebase.Analysis.Routes.Merged.{keys, Has, discover_routes_lem}
use interactivecodebase.Analysis.Pages.{
  Template, used_by, included_defines, url_path, match_score, match_route, match_routes, segments,
}
use interactivecodebase.Analysis.Pages.Included.{included_defines_iff}
use interactivecodebase.Analysis.Pages.Best.{scores, match_route_best}
use interactivecodebase.Analysis.Pages.Literal.{match_score-Shared}

abbrev registration : Registration
registration = record {
  handler = some 1;
  middleware = [];
  mux_middleware = [];
  is_static = false;
  pos = 7;
}

abbrev patterns : List String
patterns = "GET /en/notes" ∷ "GET /de/notes" ∷ "POST  /notes" ∷ "/go" ∷ []

grouped :
    registration_routes registration patterns
    ≡ record {
      method = "GET";
      pattern = "/{lang}/notes";
      variants = "/en/notes" ∷ "/de/notes" ∷ [];
      handler = some 1;
      middleware = [];
      mux_middleware = [];
      is_static = false;
      pos = 7;
    }
      ∷ record {
        method = "POST";
        pattern = "/notes";
        variants = [];
        handler = some 1;
        middleware = [];
        mux_middleware = [];
        is_static = false;
        pos = 7;
      }
      ∷ record {
        method = "ANY";
        pattern = "/go";
        variants = [];
        handler = some 1;
        middleware = [];
        mux_middleware = [];
        is_static = false;
        pos = 7;
      }
      ∷ []
unfolding registration_routes interactivecodebase.Analysis.Routes.group_all
    interactivecodebase.Analysis.Routes.group_one interactivecodebase.Analysis.Routes.add_to_group
    string_eq interactivecodebase.Analysis.Routes.split_pattern
    interactivecodebase.Analysis.Routes.cut nat_eq native.Mathlib.Decide.ℕ_discrete
    interactivecodebase.Base.Text.has_prefix interactivecodebase.Analysis.Routes.collapse_lang
    interactivecodebase.Base.Text.cut_prefix interactivecodebase.Analysis.Routes.lang_segment
    interactivecodebase.Base.Text.has_suffix
grouped = refl

abbrev plain : String → String → Route
plain method pattern = record {
  method = method;
  pattern = pattern;
  variants = [];
  handler = none;
  middleware = [];
  mux_middleware = [];
  is_static = false;
  pos = 3;
}

abbrev routes : List Route
routes =
    plain "GET" "/notes/{id}" ∷ plain "GET" "/notes/new" ∷ plain "POST" "/notes/{id}/rename" ∷ []

query_left_out : url_path "{?}/notes?tab={?}" ≡ "/{?}/notes"
unfolding url_path interactivecodebase.Base.Text.contains_text
    interactivecodebase.Base.Text.replace_from interactivecodebase.Analysis.Pages.before_query
    interactivecodebase.Base.Text.has_prefix nat_eq native.Mathlib.Decide.ℕ_discrete string_eq
query_left_out = refl

literal_first : match_route routes "GET" ("/notes/new#top" ∷ []) ≡ "GET /notes/new"
unfolding match_route interactivecodebase.Analysis.Pages.try_values string_eq url_path
    interactivecodebase.Base.Text.contains_text interactivecodebase.Base.Text.replace_from
    interactivecodebase.Analysis.Pages.before_query interactivecodebase.Base.Text.has_prefix nat_eq
    native.Mathlib.Decide.ℕ_discrete interactivecodebase.Analysis.Pages.try_routes
    interactivecodebase.Analysis.Pages.try_patterns match_score
    interactivecodebase.Analysis.Pages.score_from segments interactivecodebase.Base.Text.split
    interactivecodebase.Analysis.Pages.trim_end interactivecodebase.Analysis.Pages.suffix_score
    interactivecodebase.Analysis.Pages.trim_start interactivecodebase.Base.Text.has_suffix
literal_first = refl

by_suffix : match_score "/notes/{id}/rename" "/{?}/rename" ≡ 1
unfolding match_score string_eq interactivecodebase.Analysis.Pages.score_from segments
    interactivecodebase.Base.Text.split interactivecodebase.Analysis.Pages.trim_end
    interactivecodebase.Analysis.Pages.trim_start nat_eq native.Mathlib.Decide.ℕ_discrete
    interactivecodebase.Base.Text.has_prefix interactivecodebase.Base.Text.contains_text
    interactivecodebase.Base.Text.has_suffix interactivecodebase.Analysis.Pages.suffix_score
    interactivecodebase.Analysis.Pages.tail_score interactivecodebase.Analysis.Pages.drop
by_suffix = refl

match_route_best_example :
    ((match_route routes "GET" ("/notes/7" ∷ []) ≡ "")
      × ((c : String × ℕ) → In c (scores routes "GET" ("/notes/7" ∷ [])) → c.1 ≡ 0))
    ⊎ ((n : ℕ) × In
          (match_route routes "GET" ("/notes/7" ∷ []), n)
          (scores routes "GET" ("/notes/7" ∷ []))
        × (0 < n)
        × ((c : String × ℕ) → In c (scores routes "GET" ("/notes/7" ∷ [])) → c.1 ≤ n))
match_route_best_example = match_route_best routes "GET" ("/notes/7" ∷ [])

abbrev rename_pattern : String
rename_pattern = "/notes/{id}/rename"

abbrev rename_path : String
rename_path = "/{?}/rename"

suffix_matches : 0 < match_score rename_pattern rename_path
suffix_matches = rw by_suffix (omega arith)

match_score-Shared_example :
    (((rename_pattern ≡ "/") ⊎ (rename_pattern ≡ "/{$}")) × (rename_path ≡ "/"))
    ⊎ ((s : String) × In s (segments rename_pattern) × In s (segments rename_path))
match_score-Shared_example = match_score-Shared rename_pattern rename_path suffix_matches

abbrev found : List (List Route)
found = routes ∷ (plain "GET" "/notes/new" ∷ []) ∷ []

discover_routes_lem_example :
    IsDistinct (keys (discover_routes found))
    × ((k : String) → In k (keys (discover_routes found)) ↔ In k (keys (flat_map (λ rs. rs) found)))
    × ((k v : String) → Has (flat_map (λ rs. rs) found) k v → Has (discover_routes found) k v)
discover_routes_lem_example = discover_routes_lem found

abbrev defines : List (String × Template)
defines =
    ("page", record { file = "page.html"; uses = ("page", "nav" ∷ "missing" ∷ []) ∷ [] })
    ∷ ("nav", record { file = "nav.html"; uses = ("nav", "page" ∷ []) ∷ [] })
    ∷ []

includes_nav : included_defines ("page" ∷ []) defines ≡ "page" ∷ "nav" ∷ []
unfolding included_defines interactivecodebase.Base.Visit.each interactivecodebase.Base.Visit.visit
    used_by interactivecodebase.Analysis.Pages.defined string_eq interactivecodebase.Base.contains
    interactivecodebase.Analysis.Pages.uses_at
includes_nav = refl

included_defines_iff_example :
    IsDistinct (included_defines ("page" ∷ []) defines)
    × ((name : String)
        → In name (included_defines ("page" ∷ []) defines)
          ↔ Reached (used_by defines) ("page" ∷ []) name)
included_defines_iff_example = included_defines_iff ("page" ∷ []) defines
