-- ===== src/Analysis/Pages/Best.antt =====
-- The route that a URL goes to (internal/analysis/pages.go, matchRoute and matchRoutes).
use interactivecodebase.Base.{
  ℕ, ◌<◌, ◌≤◌, ltb, ◌≡◌, refl, sym, ap, subst, ◌∙◌, ◌⊎◌, inl, inr, String, ◌==◌, string_eq, Bool,
  true, false, List, [], ◌∷◌, ◌++◌, map, flat_map, keep, In, arith, if◌then◌else◌,
}
use interactivecodebase.Analysis.Routes.{Route, key}
use interactivecodebase.Analysis.Pages.{
  url_path, match_score, better, try_patterns, serves, try_routes, try_values, match_route,
}

-- The scores of a route's patterns, those of the routes that serve a method, and those of all values.
abbrev pub route_scores : String → Route → List (String × ℕ)
route_scores path rt = map (λ p. (key rt, match_score p path)) (rt.pattern ∷ rt.variants)

abbrev pub scores : List Route → String → List String → List (String × ℕ)
scores routes method values =
    flat_map (λ v. flat_map (route_scores (url_path v)) (keep (serves method) routes))
      (keep (λ v. if url_path v == "" then false else true) values)

abbrev best_of : List (String × ℕ) → String × ℕ → String × ℕ
best_of [] best = best
best_of (c ∷ cs) best = best_of cs (better c best)

best_of-append :
    (cs ds : List (String × ℕ)) (best : String × ℕ)
    → best_of (cs ++ ds) best ≡ best_of ds (best_of cs best)
best_of-append [] ds best = refl
best_of-append (c ∷ cs) ds best = best_of-append cs ds (better c best)

try_patterns_lem :
    (k path : String) (ps : List String) (best : String × ℕ)
    → try_patterns k path ps best ≡ best_of (map (λ p. (k, match_score p path)) ps) best
unfolding try_patterns
try_patterns_lem k path [] best = refl
try_patterns_lem k path (p ∷ ps) best =
    try_patterns_lem k path ps (better (k, match_score p path) best)

try_routes_lem :
    (method path : String) (rts : List Route) (best : String × ℕ)
    → try_routes method path rts best
      ≡ best_of (flat_map (route_scores path) (keep (serves method) rts)) best
unfolding try_routes flat_map keep
try_routes_lem method path [] best = refl
try_routes_lem method path (rt ∷ rts) best =
    by_test (serves method rt) (try_routes_lem method path rts)
  where
    by_test :
        (b : Bool)
        → ((next : String × ℕ)
            → try_routes method path rts next
              ≡ best_of (flat_map (route_scores path) (keep (serves method) rts)) next)
        → try_routes method path rts
            (if b then try_patterns (key rt) path (rt.pattern ∷ rt.variants) best else best)
          ≡ best_of
              (flat_map
                (route_scores path)
                (if b then rt ∷ keep (serves method) rts else keep (serves method) rts))
              best
    by_test true rest =
        rest (try_patterns (key rt) path (rt.pattern ∷ rt.variants) best)
        ∙ (ap (best_of (flat_map (route_scores path) (keep (serves method) rts)))
              (try_patterns_lem (key rt) path (rt.pattern ∷ rt.variants) best)
            ∙ sym (
                best_of-append (route_scores path rt)
                  (flat_map (route_scores path) (keep (serves method) rts)) best))
    by_test false rest = rest best

try_values_lem :
    (routes : List Route) (method : String) (vs : List String) (best : String × ℕ)
    → try_values routes method vs best ≡ best_of (scores routes method vs) best
unfolding try_values flat_map keep
try_values_lem routes method [] best = refl
try_values_lem routes method (v ∷ vs) best =
    by_test (url_path v == "") (try_values_lem routes method vs)
  where
    here : List (String × ℕ)
    here = flat_map (route_scores (url_path v)) (keep (serves method) routes)

    by_test :
        (b : Bool)
        → ((next : String × ℕ)
            → try_values routes method vs next ≡ best_of (scores routes method vs) next)
        → try_values routes method vs
            (if b then best else try_routes method (url_path v) routes best)
          ≡ best_of
              (flat_map
                (λ u. flat_map (route_scores (url_path u)) (keep (serves method) routes))
                (if (if b then false else true)
                  then v ∷ keep (λ u. if url_path u == "" then false else true) vs
                  else keep (λ u. if url_path u == "" then false else true) vs))
              best
    by_test true rest = rest best
    by_test false rest =
        rest (try_routes method (url_path v) routes best)
        ∙ (ap (best_of (scores routes method vs)) (try_routes_lem method (url_path v) routes best)
            ∙ sym (best_of-append here (scores routes method vs) best))

-- The best of some scores is as good as each, and one of them if it is not what was there before.
best_of_lem :
    (cs : List (String × ℕ)) (best : String × ℕ)
    → (best.1 ≤ (best_of cs best).1)
      × ((c : String × ℕ) → In c cs → c.1 ≤ (best_of cs best).1)
      × ((best_of cs best ≡ best) ⊎ (In (best_of cs best) cs × (best.1 < (best_of cs best).1)))
best_of_lem [] best = (omega arith, (λ c m. absurd m), inl refl)
best_of_lem (c ∷ cs) best = by_test (ltb best.1 c.1) refl (best_of_lem cs)
  where
    Best : String × ℕ → Type 0
    Best now =
        (best.1 ≤ (best_of cs now).1)
        × ((d : String × ℕ) → In d (c ∷ cs) → d.1 ≤ (best_of cs now).1)
        × ((best_of cs now ≡ best) ⊎ (In (best_of cs now) (c ∷ cs) × (best.1 < (best_of cs now).1)))

    Rest : Type 0
    Rest =
        (now : String × ℕ)
        → (now.1 ≤ (best_of cs now).1)
          × ((d : String × ℕ) → In d cs → d.1 ≤ (best_of cs now).1)
          × ((best_of cs now ≡ now) ⊎ (In (best_of cs now) cs × (now.1 < (best_of cs now).1)))

    by_test : (b : Bool) → ltb best.1 c.1 ≡ b → Rest → Best (if b then c else best)
    by_test true h rest =
        let (up, all, from) = rest c in
        (
          ground arith,
          (λ d m. elim m [
            | inl same ↦ subst (λ x. x.1 ≤ (best_of cs c).1) (sym same) up
            | inr n ↦ all d n
          ]),
          elim from [
            | inl same ↦ inr (inl same, ground arith)
            | inr there ↦ inr (inr there.0, ground arith)
          ],
        )
    by_test false h rest =
        let (up, all, from) = rest best in
        (
          up,
          (λ d m. elim m [
            | inl same ↦ subst (λ x. x.1 ≤ (best_of cs best).1) (sym same) (ground arith)
            | inr n ↦ all d n
          ]),
          elim from [ inl same ↦ inl same | inr there ↦ inr (inr there.0, there.1) ],
        )

-- A URL goes to a route with the best of the scores, and to none if all scores are 0.
pub match_route_best :
    (routes : List Route) (method : String) (values : List String)
    → ((match_route routes method values ≡ "")
        × ((c : String × ℕ) → In c (scores routes method values) → c.1 ≡ 0))
      ⊎ ((n : ℕ) × In (match_route routes method values, n) (scores routes method values)
          × (0 < n)
          × ((c : String × ℕ) → In c (scores routes method values) → c.1 ≤ n))
unfolding match_route
match_route_best routes method values =
    rw (try_values_lem routes method values ("", 0), match_route) found
  where
    all : List (String × ℕ)
    all = scores routes method values

    best : String × ℕ
    best = best_of all ("", 0)

    found :
        ((best.0 ≡ "") × ((c : String × ℕ) → In c all → c.1 ≡ 0))
        ⊎ ((n : ℕ) × In (best.0, n) all × (0 < n) × ((c : String × ℕ) → In c all → c.1 ≤ n))
    found =
        let (up, each_less, from) = best_of_lem all ("", 0) in
        elim from [
          | inl same ↦ inl (
            ap (λ x. x.0) same,
            λ c m.
                let less = each_less c m in
                let nothing : best.1 ≡ 0 = ap (λ x. x.1) same in omega (arith, less, nothing),
          )
          | inr there ↦ inr (best.1, there.0, there.1, each_less)
        ]
