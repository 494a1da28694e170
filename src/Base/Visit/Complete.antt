-- ===== src/Base/Visit/Complete.antt =====
-- With fuel for each node, a search in depth finds exactly the nodes that are reached.
use mathlib.Core.Path.{◌≡◌, refl}
use mathlib.Core.Logic.{◌↔◌, inl, inr}
use mathlib.Core.Bool.{Bool, true, false}
use mathlib.Core.Option.{Option, none, some}
use mathlib.Core.List.{List, [], ◌∷◌, ◌++◌}
use Prim.Native.Nat.{ℕ, zero, suc, ◌<◌}
use native.Mathlib.Omega.{arith}
use interactivecodebase.Base.Equality.{Eq, contains, if◌then◌else◌}
use interactivecodebase.Base.Lists.{In, length, contains_iff, In-append}
use interactivecodebase.Base.Distinct.{IsDistinct}
use interactivecodebase.Base.Visit.{each, visit}
use interactivecodebase.Base.Visit.Reached.{
  IsKnown, Reached, root, below, Grows, Grows-none, Grows-both, Grows-new, missing, missing-le,
  missing_less, missing_grow,
}

module _ {A : Type 0} ⦃e : Eq A⦄ (succs : A → Option (List A)) (all : List A)
    (listed : (x : A) → IsKnown succs x → In x all) where
  -- The fuel is enough for the nodes that were not come to.
  each-Grows :
      (n : ℕ)
      → ((x : A) (out : List A)
          → missing all out < n
          → Grows succs (x ∷ []) out (visit succs n x out))
      → (xs out : List A) → missing all out < n
      → Grows succs xs out (each (visit succs n) xs out)
  unfolding each
  each-Grows n one [] out h = Grows-none succs out
  each-Grows n one (x ∷ xs) out h =
      let first = one x out h in
      Grows-both succs x xs out (visit succs n x out) _ first (
        each-Grows n one xs (visit succs n x out)
          (omega (arith, missing_grow all out (visit succs n x out) first.keeps)))

  visit-Grows :
      (n : ℕ) (x : A) (out : List A)
      → missing all out < n
      → Grows succs (x ∷ []) out (visit succs n x out)
  unfolding visit
  visit-Grows zero x out h = absurd (elim h [ ])
  visit-Grows (suc n) x out h = by_known (visit-Grows n) (succs x) refl
    where
      there : IsKnown succs x → contains out x ≡ true → Grows succs (x ∷ []) out out
      there k seen = record {
        keeps = λ y m. m;
        finds = λ y m j. elim m [
          | inl same ↦ (contains_iff out y).0 (let eq : contains out y ≡ true = cc in eq)
          | inr f ↦ absurd f
        ];
        closed = λ y m. inl m;
        only = λ y m. inl m;
        distinct = λ d. d;
      }

      unknown : succs x ≡ none → Grows succs (x ∷ []) out out
      unknown e₀ = record {
        keeps = λ y m. m;
        finds = λ y m j. elim m [
          | inl same ↦ absurd (let eq : succs y ≡ none = cc in let both = j.1 in cc)
          | inr f ↦ absurd f
        ];
        closed = λ y m. inl m;
        only = λ y m. inl m;
        distinct = λ d. d;
      }

      Searches : Type 0
      Searches =
          (y : A) (seen : List A)
          → missing all seen < n
          → Grows succs (y ∷ []) seen (visit succs n y seen)

      by_seen :
          Searches
          → (ys : List A) → succs x ≡ some ys
          → (b : Bool) → contains out x ≡ b
          → Grows succs (x ∷ []) out (if b then out else each (visit succs n) ys (out ++ x ∷ []))
      by_seen deeper ys k true seen = there (ys, k) seen
      by_seen deeper ys k false new =
          Grows-new succs x ys out _ k (λ m. let yes = (contains_iff out x).1 m in cc)
            (each-Grows n deeper ys (out ++ x ∷ []) (
              omega (
                arith,
                missing_less x all out (out ++ x ∷ []) (λ y m. (In-append y out (x ∷ [])).1 (inl m))
                    (listed x (ys, k)) new
                    ((contains_iff (out ++ x ∷ []) x).1
                      ((In-append x out (x ∷ [])).1 (inr (inl refl)))),
              )))

      by_known :
          Searches
          → (k : Option (List A)) → succs x ≡ k
          → Grows succs (x ∷ []) out (elim k [
            | none ↦ out
            | some ys ↦ if contains out x then out else each (visit succs n) ys (out ++ x ∷ [])
          ])
      by_known deeper none e₀ = unknown e₀
      by_known deeper (some ys) k = by_seen deeper ys k (contains out x) refl

  -- From nothing, the search comes to the nodes that are reached, and to each once.
  pub each-visit_iff :
      (n : ℕ) (roots : List A)
      → length all < n
      → IsDistinct (each (visit succs n) roots [])
        × ((x : A) → In x (each (visit succs n) roots []) ↔ Reached succs roots x)
  each-visit_iff n roots h = (grown.distinct tt, λ x. (sound x, complete x))
    where
      grown : Grows succs roots [] (each (visit succs n) roots [])
      grown = each-Grows n (visit-Grows n) roots [] (omega (arith, missing-le all []))

      sound : (x : A) → In x (each (visit succs n) roots []) → Reached succs roots x
      sound x m = elim (grown.only x m) [ inl f ↦ absurd f | inr r ↦ r ]

      complete : (x : A) → Reached succs roots x → In x (each (visit succs n) roots [])
      complete _ (root x m k) = grown.finds x m k
      complete _ (below x y ys r e m k) = elim (grown.closed y (complete y r)) [
        | inl f ↦ absurd f
        | inr follows ↦ follows ys x e m k
      ]
