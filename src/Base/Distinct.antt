-- ===== src/Base/Distinct.antt =====
-- Lists without repeated elements.
use mathlib.Core.Path.{◌≡◌, refl, sym, subst}
use mathlib.Core.Logic.{◌⊎◌, ◌↔◌, inl, inr}
use mathlib.Core.Bool.{Bool, true, false}
use mathlib.Core.List.{List, [], ◌∷◌, ◌++◌, map}
use native.Mathlib.Omega.{arith}
use interactivecodebase.Base.Equality.{Eq, ◌==◌, if◌then◌else◌, Bool-cases, contains}
use interactivecodebase.Base.Lists.{In, keep, In-append, In-keep, In-map, contains_iff}

module _ {A : Type 0} where
  abbrev pub IsDistinct : List A → Type 0
  IsDistinct [] = Unit
  IsDistinct (x ∷ xs) = (In x xs → ⊥) × IsDistinct xs

  pub append-IsDistinct :
      (x : A) (xs : List A) → IsDistinct xs → (In x xs → ⊥) → IsDistinct (xs ++ x ∷ [])
  append-IsDistinct x [] d new = (λ h. h, tt)
  append-IsDistinct x (y ∷ xs) d new = (
    λ h. elim ((In-append y xs (x ∷ [])).0 h) [
      | inl m ↦ d.0 m
      | inr m ↦ elim m [ inl e ↦ new (inl (sym e)) | inr none_left ↦ none_left ]
    ],
    append-IsDistinct x xs d.1 (λ m. new (inr m)),
  )

  -- The second list stays distinct when the first is put in front of it.
  pub append_right-IsDistinct : (xs ys : List A) → IsDistinct (xs ++ ys) → IsDistinct ys
  append_right-IsDistinct [] ys d = d
  append_right-IsDistinct (x ∷ xs) ys d = append_right-IsDistinct xs ys d.1

module _ {A : Type 0} ⦃e : Eq A⦄ where
  -- A list with an element put at its end, if it does not have it.
  abbrev pub with_last : A → List A → List A
  with_last x xs = if contains xs x then xs else xs ++ x ∷ []

  pub with_last-IsDistinct : (x : A) (xs : List A) → IsDistinct xs → IsDistinct (with_last x xs)
  with_last-IsDistinct x xs d = by_test (contains xs x) refl
    where
      by_test : (b : Bool) → contains xs x ≡ b → IsDistinct (if b then xs else xs ++ x ∷ [])
      by_test true h = d
      by_test false h = append-IsDistinct x xs d (λ m. let there = (contains_iff xs x).1 m in cc)

  pub In-with_last : (z x : A) (xs : List A) → In z (with_last x xs) ↔ (In z xs ⊎ (z ≡ x))
  In-with_last z x xs = by_test (contains xs x) refl
    where
      by_test :
          (b : Bool)
          → contains xs x ≡ b
          → In z (if b then xs else xs ++ x ∷ []) ↔ (In z xs ⊎ (z ≡ x))
      by_test true h = (
        inl,
        λ m. elim m [
          | inl i ↦ i
          | inr same ↦ subst (λ y. In y xs) (sym same) ((contains_iff xs x).0 h)
        ],
      )
      by_test false h = (
        λ m. elim ((In-append z xs (x ∷ [])).0 m) [
          | inl i ↦ inl i
          | inr last ↦ elim last [ inl same ↦ inr same | inr f ↦ absurd f ]
        ],
        λ m. (In-append z xs (x ∷ [])).1 (elim m [ inl i ↦ inl i | inr same ↦ inr (inl same) ]),
      )

module _ {A B : Type 0} (f : A → B) where
  pub In-map_keep :
      (p : A → Bool) (y : B) (xs : List A) → In y (map f (keep p xs)) → In y (map f xs)
  In-map_keep p y xs h =
      let (x, m, e) = (In-map f y (keep p xs)).0 h in
      (In-map f y xs).1 (x, ((In-keep p x xs).0 m).0, e)

  pub keep-IsDistinct :
      (p : A → Bool) (xs : List A) → IsDistinct (map f xs) → IsDistinct (map f (keep p xs))
  unfolding keep
  keep-IsDistinct p [] d = tt
  keep-IsDistinct p (x ∷ xs) d = elim (Bool-cases (p x)) [
    | inl h ↦ rw h ((λ m. d.0 (In-map_keep p (f x) xs m), keep-IsDistinct p xs d.1))
    | inr h ↦ rw h (keep-IsDistinct p xs d.1)
  ]

module _ {A : Type 0} ⦃e : Eq A⦄ where
  -- The first occurrence gives way to another element.
  unfoldable pub replace_first : A → A → List A → List A
  replace_first old new [] = []
  replace_first old new (x ∷ xs) =
      let rest = replace_first old new xs in if x == old then new ∷ xs else x ∷ rest

  In-replace_first :
      (old new y : A) (xs : List A) → In y (replace_first old new xs) → (y ≡ new) ⊎ In y xs
  unfolding replace_first
  In-replace_first old new y [] h = inr h
  In-replace_first old new y (x ∷ xs) h = ground (arith, In-replace_first old new y xs)

  pub replace_first-IsDistinct :
      (old new : A) (xs : List A)
      → IsDistinct xs
      → (In new xs → ⊥)
      → IsDistinct (replace_first old new xs)
  unfolding replace_first
  replace_first-IsDistinct old new [] d fresh = tt
  replace_first-IsDistinct old new (x ∷ xs) d fresh = elim (Bool-cases (x == old)) [
    | inl h ↦ rw h (λ m. fresh (inr m), d.1)
    | inr h ↦ rw h (
      λ m. elim (In-replace_first old new x xs m) [
        | inl same ↦ fresh (inl (sym same))
        | inr old_one ↦ d.0 old_one
      ],
      replace_first-IsDistinct old new xs d.1 (λ m. fresh (inr m)),
    )
  ]
