-- ===== src/Analysis/Navigation/Valid.antt =====
-- The navigation edges have ends and are not repeated (internal/analysis/navigation.go, buildNavigation).
use interactivecodebase.Base.{
  ℕ, String, ◌==◌, ◌≢◌, string_eq, nat_eq, ap, Bool, true, false, ◌||◌, Option, none, some, List,
  [], ◌∷◌, ◌++◌, any, map, All, All-append, subst, sym, In, ◌≡◌, refl, inl, inr, arith,
  if◌then◌else◌,
}
use mathlib.Core.List.{map-append}
use interactivecodebase.Base.Distinct.{IsDistinct, append-IsDistinct}
use interactivecodebase.Analysis.Navigation.{Call}
use interactivecodebase.Analysis.Navigation.Edges.{
  Ref, Route, Navigation, same_edge, add, ref_trigger, ref_edge, add_targets, add_refs,
  redirect_target, redirect_edge, add_calls, build_navigation,
}

-- An edge that has an end.
abbrev pub IsEdge : Navigation → Type 0
IsEdge n = n.to ≢ ""

abbrev pub key : Navigation → String × String × String
key n = (n.from, n.to, n.trigger)

-- Every edge has an end, and no two edges have the same ends and trigger.
abbrev pub IsValid : List Navigation → Type 0
IsValid found = All IsEdge found × IsDistinct (map key found)

all_append :
    (n : Navigation) (found : List Navigation)
    → All IsEdge found
    → IsEdge n
    → All IsEdge (found ++ n ∷ [])
all_append n found a e = All-append IsEdge found (n ∷ []) a (e, tt)

not_there :
    (n : Navigation) (found : List Navigation)
    → any (λ m. same_edge m n) found ≡ false
    → In (key n) (map key found)
    → ⊥
unfolding any
not_there n [] h m = m
not_there n (x ∷ found) h (inl e) = ground (
  arith,
  ap (λ (k : String × String × String). k.0) e,
  ap (λ (k : String × String × String). k.1) e,
  ap (λ (k : String × String × String). k.2) e,
)
not_there n (x ∷ found) h (inr m) = not_there n found (ground arith) m

add-IsValid : (n : Navigation) (found : List Navigation) → IsValid found → IsValid (add n found)
unfolding add
add-IsValid n found v = by_test (n.to == "" || any (λ m. same_edge m n) found) refl
  where
    by_test :
        (b : Bool)
        → (n.to == "" || any (λ m. same_edge m n) found) ≡ b
        → IsValid (if b then found else found ++ n ∷ [])
    by_test true e = v
    by_test false e = (
      all_append n found v.0 (ground arith),
      subst IsDistinct (sym (map-append key found (n ∷ [])))
          (append-IsDistinct (key n) (map key found) v.1 (not_there n found (ground arith))),
    )

add_targets-IsValid :
    (edge : String → Navigation) (ts : List String) (found : List Navigation)
    → IsValid found
    → IsValid (add_targets edge ts found)
unfolding add_targets
add_targets-IsValid edge [] found v = v
add_targets-IsValid edge (t ∷ ts) found v =
    add_targets-IsValid edge ts _ (add-IsValid (edge t) found v)

add_refs-IsValid :
    (rt : Route) (refs : List Ref) (found : List Navigation)
    → IsValid found
    → IsValid (add_refs rt refs found)
unfolding add_refs
add_refs-IsValid rt [] found v = v
add_refs-IsValid rt (ref ∷ refs) found v =
    add_refs-IsValid rt refs _ (chosen (ref_trigger ref == ""))
  where
    chosen :
        (b : Bool) → IsValid (if b then found else add_targets (ref_edge rt ref) ref.targets found)
    chosen true = v
    chosen false = add_targets-IsValid (ref_edge rt ref) ref.targets found v

module _ (url_values : Call → List String) (call_values : Call → List String)
    (match_routes : List String → List String) (reached : ℕ → String → List (ℕ × Call)) where
  add_calls-IsValid :
      (redirectors : List ℕ) (rt : Route) (cs : List (ℕ × Call)) (found : List Navigation)
      → IsValid found
      → IsValid (add_calls url_values call_values match_routes reached redirectors rt cs found)
  unfolding add_calls
  add_calls-IsValid redirectors rt [] found v = v
  add_calls-IsValid redirectors rt ((via, c) ∷ cs) found v =
      let (trigger, values) =
        redirect_target url_values call_values match_routes reached redirectors c in
      add_calls-IsValid redirectors rt cs _ (chosen trigger values)
    where
      chosen :
          (trigger : String) (values : List String)
          → IsValid (
              if trigger == ""
              then found
              else add_targets
                  (redirect_edge url_values call_values match_routes reached rt via c trigger)
                  (match_routes values)
                  found)
      chosen trigger values =
          elim (trigger == "")
            as (λ b. IsValid (
              if b
              then found
              else add_targets
                  (redirect_edge url_values call_values match_routes reached rt via c trigger)
                  (match_routes values) found)) [
                    | true ↦ v
                    | false ↦
                        add_targets-IsValid
                          (redirect_edge url_values call_values match_routes reached rt via c
                            trigger)
                          (match_routes values) found v
                  ]

  page_edges-IsValid :
      (rt : Route) (o : Option (List Ref)) (found : List Navigation)
      → IsValid found
      → IsValid (elim o [ none ↦ found | some refs ↦ add_refs rt refs found ])
  page_edges-IsValid rt none found v = v
  page_edges-IsValid rt (some refs) found v = add_refs-IsValid rt refs found v

  handler_edges-IsValid :
      (redirectors : List ℕ) (rt : Route) (o : Option ℕ) (found : List Navigation)
      → IsValid found
      → IsValid (elim o [
        | none ↦ found
        | some h ↦
            add_calls url_values call_values match_routes reached redirectors rt
              (reached h rt.method)
              found
      ])
  handler_edges-IsValid redirectors rt none found v = v
  handler_edges-IsValid redirectors rt (some h) found v =
      add_calls-IsValid redirectors rt (reached h rt.method) found v

  -- Each navigation edge has an end, and there is one edge at most between two routes for one trigger.
  pub build_navigation-IsValid :
      (redirectors : List ℕ) (rts : List Route) (found : List Navigation)
      → IsValid found
      → IsValid (build_navigation url_values call_values match_routes reached redirectors rts found)
  unfolding build_navigation
  build_navigation-IsValid redirectors [] found v = v
  build_navigation-IsValid redirectors (rt ∷ rts) found v =
      build_navigation-IsValid redirectors rts _
        (handler_edges-IsValid redirectors rt rt.handler _ (page_edges-IsValid rt rt.page found v))
