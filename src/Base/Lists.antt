-- ===== src/Base/Lists.antt =====
-- Lists: native lengths, predicates on all elements, and filters by Boolean tests.
use Prim.Native.Nat.{ℕ, zero, suc, ◌+◌}
use mathlib.Core.Path.{◌≡◌, refl, sym, ap, subst, ◌∙◌}
use mathlib.Core.Logic.{◌⊎◌, inl, inr, ◌↔◌}
use mathlib.Core.Bool.{Bool, true, false, ◌||◌}
use mathlib.Core.List.{List, [], ◌∷◌, ◌++◌, map}
use mathlib.Core.Option.{Option, none, some}
use native.Mathlib.Omega.{arith}
use interactivecodebase.Base.Equality.{Eq, contains, Bool-cases, if◌then◌else◌}

module _ {ℓ} {A : Type ℓ} where
  abbrev pub length : List A → ℕ
  length [] = 0
  length (x ∷ xs) = suc (length xs)

  abbrev pub All {κ} : (A → Type κ) → List A → Type κ
  All Q (a ∷ more) = Q a × All Q more
  All Q [] = Unit

  -- `slices.ContainsFunc` and the tests that hold of every element.
  unfoldable pub any : (A → Bool) → List A → Bool
  any p [] = false
  any p (x ∷ xs) = p x || any p xs

  unfoldable pub keep : (A → Bool) → List A → List A
  keep p [] = []
  keep p (x ∷ xs) = let rest = keep p xs in if p x then x ∷ rest else rest

  -- `slices.IndexFunc`, as the first element that passes.
  unfoldable pub find : (A → Bool) → List A → Option A
  find p [] = none
  find p (x ∷ xs) = let rest = find p xs in if p x then some x else rest

  unfoldable pub take : ℕ → List A → List A
  take zero xs = []
  take (suc n) [] = []
  take (suc n) (x ∷ xs) = x ∷ take n xs

  pub length-append : (xs ys : List A) → length (xs ++ ys) ≡ length xs + length ys
  length-append [] ys = omega arith
  length-append (x ∷ xs) ys = omega (arith, length-append xs ys)

  pub All-append {κ} :
      (Q : A → Type κ) (first second : List A)
      → All Q first
      → All Q second
      → All Q (first ++ second)
  All-append Q (a ∷ more) second all rest = (all.0, All-append Q more second all.1 rest)
  All-append Q [] second all rest = rest

  pub All-map {κ μ} :
      (P : A → Type κ) (Q : A → Type μ) (xs : List A) → ((x : A) → P x → Q x) → All P xs → All Q xs
  All-map P Q [] f h = tt
  All-map P Q (x ∷ xs) f h = (f x h.0, All-map P Q xs f h.1)

module _ {A : Type 0} where
  -- Membership, by recursion, so that the tactics read it.
  abbrev pub In : A → List A → Type 0
  In x [] = ⊥
  In x (y ∷ ys) = (x ≡ y) ⊎ In x ys

  pub In-append : (x : A) (xs ys : List A) → In x (xs ++ ys) ↔ (In x xs ⊎ In x ys)
  In-append x [] ys = (inr, λ h. elim h [ inl e ↦ absurd e | inr m ↦ m ])
  In-append x (y ∷ xs) ys = ground (arith, In-append x xs ys)

  pub In-keep : (p : A → Bool) (x : A) (xs : List A) → In x (keep p xs) ↔ (In x xs × (p x ≡ true))
  unfolding keep
  In-keep p x [] = (λ h. absurd h, λ h. absurd h.0)
  In-keep p x (y ∷ xs) = elim (Bool-cases (p y)) [
    | inl h ↦ rw h (
      λ m. elim m [
        | inl e ↦ (inl e, rw e h)
        | inr r ↦ (inr ((In-keep p x xs).0 r).0, ((In-keep p x xs).0 r).1)
      ],
      λ m. elim m.0 [ inl e ↦ inl e | inr r ↦ inr ((In-keep p x xs).1 (r, m.1)) ],
    )
    | inr h ↦ rw h (
      λ m. (inr ((In-keep p x xs).0 m).0, ((In-keep p x xs).0 m).1),
      λ m. elim m.0 [
        | inl e ↦ absurd (true-ne-false (sym m.1 ∙ ap p e ∙ h))
        | inr r ↦ (In-keep p x xs).1 (r, m.1)
      ],
    )
  ]
    where
      true-ne-false : true ≡ false → ⊥
      true-ne-false e = cc

  pub All-In : (P : A → Type 0) (x : A) (xs : List A) → All P xs → In x xs → P x
  All-In P x [] h m = absurd m
  All-In P x (y ∷ xs) h (inl e) = rw e h.0
  All-In P x (y ∷ xs) h (inr m) = All-In P x xs h.1 m

  pub All_of_In : (P : A → Type 0) (xs : List A) → ((x : A) → In x xs → P x) → All P xs
  All_of_In P [] f = tt
  All_of_In P (x ∷ xs) f = (f x (inl refl), All_of_In P xs (λ y m. f y (inr m)))

module _ {A B : Type 0} where
  unfoldable pub flat_map : (A → List B) → List A → List B
  flat_map f [] = []
  flat_map f (x ∷ xs) = f x ++ flat_map f xs

  pub In-flat_map :
      (f : A → List B) (y : B) (xs : List A)
      → In y (flat_map f xs) ↔ ((x : A) × In x xs × In y (f x))
  unfolding flat_map
  In-flat_map f y [] = (λ h. absurd h, λ h. absurd h.1)
  In-flat_map f y (x ∷ xs) = (
    λ h. elim ((In-append y (f x) (flat_map f xs)).0 h) [
      | inl m ↦ (x, inl refl, m)
      | inr m ↦ let (z, mz, my) = (In-flat_map f y xs).0 m in (z, inr mz, my)
    ],
    λ (z, mz, my). (In-append y (f x) (flat_map f xs)).1 (elim mz [
      | inl e ↦ inl (subst (λ w. In y (f w)) e my)
      | inr m ↦ inr ((In-flat_map f y xs).1 (z, m, my))
    ]),
  )

  pub In-map : (f : A → B) (y : B) (xs : List A) → In y (map f xs) ↔ ((x : A) × In x xs × (y ≡ f x))
  In-map f y [] = (λ h. absurd h, λ h. absurd h.1)
  In-map f y (x ∷ xs) = (
    λ h. elim h [
      | inl e ↦ (x, inl refl, e)
      | inr m ↦ let (z, mz, e) = (In-map f y xs).0 m in (z, inr mz, e)
    ],
    λ (z, mz, e). elim mz [
      | inl same ↦ inl (e ∙ ap f same)
      | inr m ↦ inr ((In-map f y xs).1 (z, m, e))
    ],
  )

module _ {A : Type 0} ⦃e : Eq A⦄ where
  pub contains_iff : (xs : List A) (x : A) → (contains xs x ≡ true) ↔ In x xs
  unfolding contains
  contains_iff [] x = (λ h. cc, λ h. absurd h)
  contains_iff (y ∷ xs) x = ground (arith, contains_iff xs x)

  pub In-of_contains : (x : A) (xs : List A) → contains xs x ≡ true → In x xs
  In-of_contains x xs = (contains_iff xs x).0
