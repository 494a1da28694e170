-- ===== src/Base/Sort.antt =====
-- Stable sorting by a Boolean order: ORDER BY, `slices.SortStableFunc` and `slices.Sort`.
use mathlib.Core.Path.{◌≡◌, refl}
use mathlib.Core.Logic.{◌⊎◌, inl, inr, ◌↔◌}
use mathlib.Core.Bool.{Bool, true}
use mathlib.Core.List.{List, [], ◌∷◌, Perm}
use mathlib.Core.List.Perm
use native.Mathlib.Omega.{arith}
use interactivecodebase.Base.Equality.{Bool-cases, if◌then◌else◌}
use interactivecodebase.Base.Lists.{All, All-map, In}

module _ {A : Type 0} (le : A → A → Bool) where
  unfoldable pub insert_by : A → List A → List A
  insert_by x [] = x ∷ []
  insert_by x (y ∷ ys) = if le x y then x ∷ y ∷ ys else y ∷ insert_by x ys

  unfoldable pub sort_by : List A → List A
  unfolding insert_by
  sort_by [] = []
  sort_by (x ∷ xs) = insert_by x (sort_by xs)

  abbrev pub IsSorted : List A → Type 0
  IsSorted [] = Unit
  IsSorted (x ∷ xs) = All (λ y. le x y ≡ true) xs × IsSorted xs

  insert_by-perm : (x : A) (ys : List A) → Perm (insert_by x ys) (x ∷ ys)
  unfolding insert_by
  insert_by-perm x [] = Perm.refl (x ∷ [])
  insert_by-perm x (y ∷ ys) = elim (Bool-cases (le x y)) [
    | inl h ↦ rw h (Perm.refl (x ∷ y ∷ ys))
    | inr h ↦ rw h (Perm.trans (Perm.cons y (insert_by-perm x ys)) (Perm.swap x y ys))
  ]

  pub sort_by-perm : (xs : List A) → Perm (sort_by xs) xs
  unfolding sort_by
  sort_by-perm [] = Perm.refl []
  sort_by-perm (x ∷ xs) = Perm.trans (insert_by-perm x (sort_by xs)) (Perm.cons x (sort_by-perm xs))

  In-insert_by : (z x : A) (ys : List A) → In z (insert_by x ys) ↔ ((z ≡ x) ⊎ In z ys)
  unfolding insert_by
  In-insert_by z x [] = (λ m. m, λ m. m)
  In-insert_by z x (y ∷ ys) = ground (arith, In-insert_by z x ys)

  pub In-sort_by : (z : A) (xs : List A) → In z (sort_by xs) ↔ In z xs
  unfolding sort_by
  In-sort_by z [] = (λ m. m, λ m. m)
  In-sort_by z (x ∷ xs) = ground (arith, In-insert_by z x (sort_by xs), In-sort_by z xs)

  insert_by-All : (P : A → Type 0) (x : A) (ys : List A) → P x → All P ys → All P (insert_by x ys)
  unfolding insert_by
  insert_by-All P x [] p h = (p, tt)
  insert_by-All P x (y ∷ ys) p h = ground (arith, insert_by-All P x ys p h.1)

  pub sort_by-All : (P : A → Type 0) (xs : List A) → All P xs → All P (sort_by xs)
  unfolding sort_by
  sort_by-All P [] h = tt
  sort_by-All P (x ∷ xs) h = insert_by-All P x (sort_by xs) h.0 (sort_by-All P xs h.1)

  -- A list in strict ascending order stays as it is.
  insert_by_first : (x : A) (ys : List A) → All (λ y. le x y ≡ true) ys → insert_by x ys ≡ x ∷ ys
  unfolding insert_by
  insert_by_first x [] h = refl
  insert_by_first x (y ∷ ys) h = rw h.0

  pub sort_by_sorted : (xs : List A) → IsSorted xs → sort_by xs ≡ xs
  unfolding sort_by
  sort_by_sorted [] s = refl
  sort_by_sorted (x ∷ xs) s = rw (sort_by_sorted xs s.1) (insert_by_first x xs s.0)

  module _ (total : (x y : A) → (le x y ≡ true) ⊎ (le y x ≡ true))
      (trans : (x y z : A) → le x y ≡ true → le y z ≡ true → le x z ≡ true) where
    insert_by-IsSorted : (x : A) (ys : List A) → IsSorted ys → IsSorted (insert_by x ys)
    unfolding insert_by
    insert_by-IsSorted x [] s = (tt, tt)
    insert_by-IsSorted x (y ∷ ys) s = elim (Bool-cases (le x y)) [
      | inl h ↦
          rw h
            ((h, All-map (λ z. le y z ≡ true) (λ z. le x z ≡ true) ys (λ z. trans x y z h) s.0), s)
      | inr h ↦ rw h (
        insert_by-All (λ z. le y z ≡ true) x ys (ground (arith, total x y)) s.0,
        insert_by-IsSorted x ys s.1,
      )
    ]

    pub sort_by-IsSorted : (xs : List A) → IsSorted (sort_by xs)
    unfolding sort_by
    sort_by-IsSorted [] = tt
    sort_by-IsSorted (x ∷ xs) = insert_by-IsSorted x (sort_by xs) (sort_by-IsSorted xs)
