-- ===== src/Tests/Redirects.antt =====
-- A handler that redirects by a helper (internal/analysis/navigation.go).
use interactivecodebase.Base.{
  ℕ, ◌≡◌, refl, ◌↔◌, String, Option, none, some, List, [], ◌∷◌, map, true, contains, nat_eq,
}
use interactivecodebase.Analysis.Navigation.{Callee, Call, Instr, call, Func, redirecting_funcs}
use interactivecodebase.Analysis.Navigation.Redirecting.{Redirects}
use interactivecodebase.Analysis.Navigation.Rounds.{redirecting_funcs_iff}
use interactivecodebase.Analysis.Navigation.Edges.{Route, build_navigation}
use interactivecodebase.Analysis.Navigation.Valid.{IsValid, build_navigation-IsValid}

abbrev calling : ℕ → String → Call
calling id name = record { callee = some (record { id = id; name = name }); key = none; pos = 7 }

abbrev func : ℕ → String → Call → Func
func id name c = record { id = id; name = name; blocks = (call c ∷ []) ∷ [] }

abbrev own : List Func
own =
    func 1 "app.handle" (calling 2 "app.goHome")
    ∷ func 2 "app.goHome" (calling 9 "net/http.Redirect")
    ∷ func 3 "app.other" (calling 8 "fmt.Println")
    ∷ []

finds_helper : redirecting_funcs own ≡ some (1 ∷ 2 ∷ [])
unfolding redirecting_funcs interactivecodebase.Analysis.Navigation.rounds
    interactivecodebase.Analysis.Navigation.one_round contains
    interactivecodebase.Analysis.Navigation.func_redirects interactivecodebase.Base.any
    interactivecodebase.Analysis.Navigation.instr_redirects
    interactivecodebase.Analysis.Navigation.redirects interactivecodebase.Base.string_eq nat_eq
    native.Mathlib.Decide.ℕ_discrete
finds_helper = refl

redirecting_funcs_iff_example :
    (out : List ℕ) × (redirecting_funcs own ≡ some out)
    × ((i : ℕ) → (contains out i ≡ true) ↔ Redirects own i)
redirecting_funcs_iff_example = redirecting_funcs_iff own

abbrev login : Route
login = record { key = "POST /login"; page = none; handler = some 1; method = "POST" }

abbrev reached : ℕ → String → List (ℕ × Call)
reached id method = (1, calling 2 "app.goHome") ∷ (2, calling 9 "net/http.Redirect") ∷ []

build_navigation-IsValid_example : IsValid (
    build_navigation
      (λ c. "/" ∷ [])
      (λ c. "/" ∷ [])
      (λ paths. "GET /" ∷ [])
      reached
      (2 ∷ [])
      (login ∷ [])
      [])
build_navigation-IsValid_example =
    build_navigation-IsValid (λ c. "/" ∷ []) (λ c. "/" ∷ []) (λ paths. "GET /" ∷ []) reached
      (2 ∷ []) (login ∷ []) [] (tt, tt)

one_edge :
    map
      (λ n. n.to)
      (build_navigation
        (λ c. "/" ∷ [])
        (λ c. "/" ∷ [])
        (λ paths. "GET /" ∷ [])
        reached
        (2 ∷ [])
        (login ∷ [])
        [])
    ≡ "GET /" ∷ []
unfolding build_navigation interactivecodebase.Analysis.Navigation.Edges.add_calls
    interactivecodebase.Base.string_eq interactivecodebase.Analysis.Navigation.Edges.redirect_target
    interactivecodebase.Analysis.Navigation.Edges.add_targets
    interactivecodebase.Analysis.Navigation.Edges.add interactivecodebase.Base.any contains nat_eq
    native.Mathlib.Decide.ℕ_discrete
one_edge = refl
