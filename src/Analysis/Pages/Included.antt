-- ===== src/Analysis/Pages/Included.antt =====
-- The templates that a page includes (internal/analysis/pages.go, includedDefines).
use interactivecodebase.Base.{
  suc, ◌≡◌, refl, ◌↔◌, String, string_eq, Option, none, some, List, [], ◌∷◌, map, length, In, arith,
}
use interactivecodebase.Base.Distinct.{IsDistinct}
use interactivecodebase.Base.Visit.Reached.{IsKnown, Reached}
use interactivecodebase.Base.Visit.Complete.{each-visit_iff}
use interactivecodebase.Analysis.Pages.{Template, defined, used_by, included_defines}

length-names :
    (defines : List (String × Template)) → length (map (λ d. d.0) defines) ≡ length defines
length-names [] = refl
length-names (d ∷ defines) = ground (arith, length-names defines)

defined_listed :
    (defines : List (String × Template)) (name : String) (t : Template)
    → defined defines name ≡ some t
    → In name (map (λ d. d.0) defines)
unfolding defined
defined_listed [] name t h = cc
defined_listed ((n, s) ∷ defines) name t h = ground (arith, defined_listed defines name t)

used_by_listed :
    (defines : List (String × Template)) (name : String)
    → IsKnown (used_by defines) name
    → In name (map (λ d. d.0) defines)
unfolding used_by
used_by_listed defines name (ys, e) = by_template (defined defines name) refl
  where
    by_template :
        (o : Option Template) → defined defines name ≡ o → In name (map (λ d. d.0) defines)
    by_template none k = ground arith
    by_template (some t) k = defined_listed defines name t k

-- The search for the included templates ends, and finds those that are reached from the rendered ones over templates
-- that are defined, each once, however the templates include one another.
pub included_defines_iff :
    (names : List String) (defines : List (String × Template))
    → IsDistinct (included_defines names defines)
      × ((name : String)
          → In name (included_defines names defines) ↔ Reached (used_by defines) names name)
unfolding included_defines
included_defines_iff names defines =
    each-visit_iff (used_by defines) (map (λ d. d.0) defines) (used_by_listed defines)
      (suc (length defines)) names (omega (arith, length-names defines))
