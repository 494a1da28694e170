-- ===== src/Analysis/Routes/Merged.antt =====
-- Routes with one key become one (internal/analysis/routes.go, mergeDuplicates).
use interactivecodebase.Base.{
  String, ◌==◌, ==_iff, string_eq, Bool, true, false, ◌≡◌, refl, sym, ap, subst, ◌∙◌, ◌↔◌, ◌⊎◌, inl,
  inr, List, [], ◌∷◌, map, contains, In, In-map, arith, if◌then◌else◌, flat_map,
}
use interactivecodebase.Base.Distinct.{IsDistinct, with_last, with_last-IsDistinct, In-with_last}
use interactivecodebase.Base.Sort.{sort_by, In-sort_by}
use interactivecodebase.Analysis.Values.{union, union_lem}
use interactivecodebase.Analysis.Routes.{
  Route, key, merge_one, merge_all, merge_duplicates, route_le, discover_routes,
}

abbrev pub keys : List Route → List String
keys rs = map key rs

keys-merge_one :
    (rt : Route) (out : List Route) → keys (merge_one rt out) ≡ with_last (key rt) (keys out)
unfolding merge_one contains
keys-merge_one rt [] = refl
keys-merge_one rt (r ∷ out) = ground (arith, keys-merge_one rt out)

keys-merge_all :
    (rts out : List Route)
    → (IsDistinct (keys out) → IsDistinct (keys (merge_all rts out)))
      × ((k : String) → In k (keys (merge_all rts out)) ↔ (In k (keys out) ⊎ In k (keys rts)))
unfolding merge_all
keys-merge_all [] out = (λ d. d, λ k. (inl, λ h. elim h [ inl m ↦ m | inr f ↦ absurd f ]))
keys-merge_all (rt ∷ rts) out =
    let (distinct, members) = keys-merge_all rts (merge_one rt out) in
    let step = keys-merge_one rt out in
    (
      λ d. distinct (subst IsDistinct (sym step) (with_last-IsDistinct (key rt) (keys out) d)),
      λ k. (
        λ h. elim ((members k).0 h) [
          | inl i ↦ elim ((In-with_last k (key rt) (keys out)).0 (subst (In k) step i)) [
            | inl old ↦ inl old
            | inr same ↦ inr (inl same)
          ]
          | inr i ↦ inr (inr i)
        ],
        λ h. (members k).1 (elim h [
          | inl i ↦ inl (subst (In k) (sym step) ((In-with_last k (key rt) (keys out)).1 (inl i)))
          | inr i ↦ elim i [
            | inl same ↦
                inl (subst (In k) (sym step) ((In-with_last k (key rt) (keys out)).1 (inr same)))
            | inr j ↦ inr j
          ]
        ]),
      ),
    )

-- A route of the list has a key, and a variant among its own.
pub Has : List Route → String → String → Type 0
Has out k v = (r : Route) × In r out × (key r ≡ k) × In v r.variants

merge_one_keeps :
    (rt : Route) (out : List Route) (k v : String) → Has out k v → Has (merge_one rt out) k v
unfolding Has merge_one
merge_one_keeps rt [] k v (r, m, e, i) = absurd m
merge_one_keeps rt (s ∷ out) k v (r, inr m, e, i) =
    by_test (merge_one_keeps rt out k v (r, m, e, i)) (key s == key rt)
  where
    by_test :
        Has (merge_one rt out) k v
        → (b : Bool)
        → Has
            (if b
              then record s { variants = union s.variants rt.variants } ∷ out
              else s ∷ merge_one rt out)
            k
            v
    by_test later true = (r, inr m, e, i)
    by_test (t, n, f, j) false = (t, inr n, f, j)
merge_one_keeps rt (s ∷ out) k v (r, inl same, e, i) = by_test (key s == key rt)
  where
    by_test :
        (b : Bool)
        → Has
            (if b
              then record s { variants = union s.variants rt.variants } ∷ out
              else s ∷ merge_one rt out)
            k
            v
    by_test true = (
      record s { variants = union s.variants rt.variants },
      inl refl,
      sym (ap key same) ∙ e,
      ((union_lem s.variants rt.variants).1 v).1 (inl (subst (λ x. In v x.variants) same i)),
    )
    by_test false = (s, inl refl, sym (ap key same) ∙ e, subst (λ x. In v x.variants) same i)

merge_one_adds :
    (rt : Route) (out : List Route) (v : String)
    → In v rt.variants
    → Has (merge_one rt out) (key rt) v
unfolding Has merge_one
merge_one_adds rt [] v i = (rt, inl refl, refl, i)
merge_one_adds rt (s ∷ out) v i = by_test (merge_one_adds rt out v i) (key s == key rt) refl
  where
    by_test :
        Has (merge_one rt out) (key rt) v
        → (b : Bool) → (key s == key rt) ≡ b
        → Has
            (if b
              then record s { variants = union s.variants rt.variants } ∷ out
              else s ∷ merge_one rt out)
            (key rt)
            v
    by_test later true e = (
      record s { variants = union s.variants rt.variants },
      inl refl,
      (==_iff (key s) (key rt)).0 e,
      ((union_lem s.variants rt.variants).1 v).1 (inr i),
    )
    by_test (t, n, f, j) false e = (t, inr n, f, j)

merge_all-Has :
    (rts out : List Route) (k v : String)
    → (Has out k v ⊎ Has rts k v)
    → Has (merge_all rts out) k v
unfolding Has merge_all
merge_all-Has [] out k v (inl h) = h
merge_all-Has [] out k v (inr (r, m, e, i)) = absurd m
merge_all-Has (rt ∷ rts) out k v (inl h) =
    merge_all-Has rts (merge_one rt out) k v (inl (merge_one_keeps rt out k v h))
merge_all-Has (rt ∷ rts) out k v (inr (r, inr m, e, i)) =
    merge_all-Has rts (merge_one rt out) k v (inr (r, m, e, i))
merge_all-Has (rt ∷ rts) out k v (inr (r, inl same, e, i)) =
    merge_all-Has rts (merge_one rt out) k v (
      inl (
        subst (λ x. Has (merge_one rt out) x v) (sym (ap key same) ∙ e)
          (merge_one_adds rt out v (subst (λ x. In v x.variants) same i))))

-- The routes of a program have distinct keys, which are those of the routes that the detectors find, and no variant
-- of a route that they find is lost.
pub discover_routes_lem :
    (found : List (List Route))
    → let all = flat_map (λ rs. rs) found in
      IsDistinct (keys (discover_routes found))
      × ((k : String) → In k (keys (discover_routes found)) ↔ In k (keys all))
      × ((k v : String) → Has all k v → Has (discover_routes found) k v)
unfolding discover_routes merge_duplicates Has
discover_routes_lem found = (
  merged.0 tt,
  λ k. (
    λ m. elim ((merged.1 k).0 m) [ inl f ↦ absurd f | inr i ↦ (In-keys k).0 i ],
    λ m. (merged.1 k).1 (inr ((In-keys k).1 m)),
  ),
  λ k v (r, m, e, i).
      merge_all-Has (sort_by route_le all) [] k v (inr (r, (In-sort_by route_le r all).1 m, e, i)),
)
  where
    all : List Route
    all = flat_map (λ rs. rs) found

    merged :
        (IsDistinct (keys []) → IsDistinct (keys (merge_all (sort_by route_le all) [])))
        × ((k : String)
            → In k (keys (merge_all (sort_by route_le all) []))
              ↔ (In k (keys []) ⊎ In k (keys (sort_by route_le all))))
    merged = keys-merge_all (sort_by route_le all) []

    In-keys : (k : String) → In k (keys (sort_by route_le all)) ↔ In k (keys all)
    In-keys k = (
      λ h.
          let (r, m, e) = (In-map key k (sort_by route_le all)).0 h in
          (In-map key k all).1 (r, (In-sort_by route_le r all).0 m, e),
      λ h.
          let (r, m, e) = (In-map key k all).0 h in
          (In-map key k (sort_by route_le all)).1 (r, (In-sort_by route_le r all).1 m, e),
    )
