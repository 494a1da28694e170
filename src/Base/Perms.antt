-- ===== src/Base/Perms.antt =====
-- Filters and permutations.
use mathlib.Core.List.{List, [], ◌∷◌, ◌++◌, Perm, perm_middle}
use mathlib.Core.List.Perm
use mathlib.Core.Bool.{Bool, true, false}
use mathlib.Core.Path.{◌≡◌, ◌∙◌}
use interactivecodebase.Base.Equality.{Bool-cases}
use mathlib.Core.Logic.{inl, inr}
use interactivecodebase.Base.Lists.{keep}

module _ {A : Type 0} where
  pub keep_yes : (p : A → Bool) (x : A) (xs : List A) → p x ≡ true → keep p (x ∷ xs) ≡ x ∷ keep p xs
  unfolding keep
  keep_yes p x xs h = rw h

  pub keep_no : (p : A → Bool) (x : A) (xs : List A) → p x ≡ false → keep p (x ∷ xs) ≡ keep p xs
  unfolding keep
  keep_no p x xs h = rw h

  -- A filter is split in two by a test.
  pub keep_split :
      (p q r : A → Bool) (xs : List A)
      → ((x : A) → p x ≡ true → (q x ≡ false) × (r x ≡ true))
      → ((x : A) → p x ≡ false → q x ≡ r x)
      → Perm (keep p xs ++ keep q xs) (keep r xs)
  unfolding keep
  keep_split p q r [] picked left = Perm.refl []
  keep_split p q r (x ∷ xs) picked left =
      let rest = keep_split p q r xs picked left in
      elim (Bool-cases (p x)) [
        | inl h ↦ rw (h, (picked x h).0, (picked x h).1) (Perm.cons x rest)
        | inr h ↦ elim (Bool-cases (r x)) [
          | inl k ↦
              rw (h, left x h ∙ k, k)
                (Perm.trans (perm_middle (keep p xs) (keep q xs)) (Perm.cons x rest))
          | inr k ↦ rw (h, left x h ∙ k, k) rest
        ]
      ]
