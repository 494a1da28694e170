-- ===== src/Analysis/Pages/Listed.antt =====
-- The routes that the values of a URL go to (internal/analysis/pages.go, matchRoutes).
use interactivecodebase.Base.{
  ◌≡◌, ◌≢◌, refl, sym, ap, ◌∙◌, ◌↔◌, ◌⊎◌, inl, inr, String, ◌==◌, ==_iff, string_eq, Bool, true,
  false, List, [], ◌∷◌, In, if◌then◌else◌,
}
use interactivecodebase.Base.Distinct.{IsDistinct, with_last, with_last-IsDistinct, In-with_last}
use interactivecodebase.Analysis.Routes.{Route}
use interactivecodebase.Analysis.Pages.{match_route, match_from, match_routes}

match_from_lem :
    (routes : List Route) (method : String) (vs out : List String)
    → (IsDistinct out → IsDistinct (match_from routes method vs out))
      × ((k : String)
          → In k (match_from routes method vs out) ↔ (
              In k out
              ⊎ ((k ≢ "") × (v : String) × In v vs × (match_route routes method (v ∷ []) ≡ k))))
unfolding match_from
match_from_lem routes method [] out = (
  λ d. d,
  λ k. (inl, λ h. elim h [ inl m ↦ m | inr found ↦ let (filled, v, m, e) = found in absurd m ]),
)
match_from_lem routes method (v ∷ vs) out =
    by_test (match_route routes method (v ∷ []) == "") refl (match_from_lem routes method vs)
  where
    found : String
    found = match_route routes method (v ∷ [])

    Led : List String → String → Type 0
    Led ws k = (k ≢ "") × (w : String) × In w ws × (match_route routes method (w ∷ []) ≡ k)

    Joins : List String → List String → List String → Type 0
    Joins ws start all =
        (IsDistinct start → IsDistinct all) × ((k : String) → In k all ↔ (In k start ⊎ Led ws k))

    led_later : (k : String) → Led vs k → Led (v ∷ vs) k
    led_later k (filled, w, m, e) = (filled, w, inr m, e)

    by_test :
        (b : Bool)
        → (found == "") ≡ b
        → ((start : List String) → Joins vs start (match_from routes method vs start))
        → Joins (v ∷ vs) out (match_from routes method vs (if b then out else with_last found out))
    by_test true h rest =
        let (distinct, members) = rest out in
        (
          distinct,
          λ k. (
            λ m. elim ((members k).0 m) [ inl i ↦ inl i | inr led ↦ inr (led_later k led) ],
            λ m. (members k).1 (elim m [
              | inl i ↦ inl i
              | inr led ↦
                  let (filled, w, i, e) = led in
                  elim i [
                    | inl same ↦ absurd (
                        filled (
                          sym e
                          ∙ (ap (λ x. match_route routes method (x ∷ [])) same
                              ∙ (==_iff found "").0 h)))
                    | inr j ↦ inr (filled, w, j, e)
                  ]
            ]),
          ),
        )
    by_test false h rest =
        let (distinct, members) = rest (with_last found out) in
        let filled : found ≢ "" = λ e. let empty = (==_iff found "").1 e in cc in
        (
          λ d. distinct (with_last-IsDistinct found out d),
          λ k. (
            λ m. elim ((members k).0 m) [
              | inl i ↦ elim ((In-with_last k found out).0 i) [
                | inl old ↦ inl old
                | inr same ↦ inr ((λ e. filled (sym same ∙ e)), v, inl refl, sym same)
              ]
              | inr led ↦ inr (led_later k led)
            ],
            λ m. (members k).1 (elim m [
              | inl i ↦ inl ((In-with_last k found out).1 (inl i))
              | inr led ↦
                  let (some_key, w, i, e) = led in
                  elim i [
                    | inl same ↦ inl (
                        (In-with_last k found out).1
                          (inr (sym e ∙ ap (λ x. match_route routes method (x ∷ [])) same)))
                    | inr j ↦ inr (some_key, w, j, e)
                  ]
            ]),
          ),
        )

-- The routes that the values of a URL go to are listed once each.
pub match_routes_iff :
    (routes : List Route) (method : String) (values : List String)
    → IsDistinct (match_routes routes method values)
      × ((k : String)
          → In k (match_routes routes method values)
            ↔ ((k ≢ "") × (v : String) × In v values × (match_route routes method (v ∷ []) ≡ k)))
unfolding match_routes
match_routes_iff routes method values =
    let (distinct, members) = match_from_lem routes method values [] in
    (
      distinct tt,
      λ k. (
        λ m. elim ((members k).0 m) [ inl f ↦ absurd f | inr led ↦ led ],
        λ led. (members k).1 (inr led),
      ),
    )
