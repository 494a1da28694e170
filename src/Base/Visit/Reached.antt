-- ===== src/Base/Visit/Reached.antt =====
-- A search in depth comes to the nodes that are reached from where it starts, each once.
use mathlib.Core.Path.{◌≡◌, refl, subst}
use mathlib.Core.Logic.{◌⊎◌, inl, inr}
use mathlib.Core.Bool.{true, false}
use mathlib.Core.Option.{Option, some}
use mathlib.Core.List.{List, [], ◌∷◌, ◌++◌}
use Prim.Native.Nat.{ℕ, ◌+◌, ◌<◌, ◌≤◌}
use native.Mathlib.Omega.{arith}
use interactivecodebase.Base.Equality.{Eq, contains, if◌then◌else◌}
use interactivecodebase.Base.Lists.{In, length, contains_iff, In-append}
use interactivecodebase.Base.Distinct.{IsDistinct, append-IsDistinct}

module _ {A : Type 0} (succs : A → Option (List A)) where
  abbrev pub IsKnown : A → Type 0
  IsKnown x = (ys : List A) × (succs x ≡ some ys)

  pub data Reached (roots : List A) : A → Type 0 where
    root : (x : A) → In x roots → IsKnown x → Reached roots x
    below :
        (x y : A) (ys : List A)
        → Reached roots y
        → succs y ≡ some ys
        → In x ys
        → IsKnown x
        → Reached roots x

  Reached_from :
      (roots others : List A)
      → ((z : A) → In z roots → IsKnown z → Reached others z)
      → (x : A) → Reached roots x
      → Reached others x
  Reached_from roots others first _ (root x m k) = first x m k
  Reached_from roots others first _ (below x y ys r e m k) =
      below x y ys (Reached_from roots others first y r) e m k

  -- What a search from `xs` adds to the nodes that were come to before.
  pub record Grows (xs out after : List A) : Type 0 where
    pub keeps : (x : A) → In x out → In x after
    pub finds : (x : A) → In x xs → IsKnown x → In x after
    pub closed :
        (y : A)
        → In y after
        → In y out ⊎ ((ys : List A) (z : A) → succs y ≡ some ys → In z ys → IsKnown z → In z after)
    pub only : (y : A) → In y after → In y out ⊎ Reached xs y
    pub distinct : IsDistinct out → IsDistinct after

  pub Grows-none : (out : List A) → Grows [] out out
  Grows-none out = record {
    keeps = λ x m. m;
    finds = λ x m k. absurd m;
    closed = λ y m. inl m;
    only = λ y m. inl m;
    distinct = λ d. d;
  }

  pub Grows-both :
      (x : A) (xs out mid after : List A)
      → Grows (x ∷ []) out mid
      → Grows xs mid after
      → Grows (x ∷ xs) out after
  Grows-both x xs out mid after g h = record {
    keeps = λ y m. h.keeps y (g.keeps y m);
    finds = λ y m k. elim m [ inl e ↦ h.keeps y (g.finds y (inl e) k) | inr n ↦ h.finds y n k ];
    closed = λ y m. elim (h.closed y m) [
      | inr all ↦ inr all
      | inl n ↦ elim (g.closed y n) [
        | inl o ↦ inl o
        | inr all ↦ inr (λ ys z e i k. h.keeps z (all ys z e i k))
      ]
    ];
    only = λ y m. elim (h.only y m) [
      | inr r ↦ inr (Reached_from xs (x ∷ xs) (λ z i k. root z (inr i) k) y r)
      | inl n ↦ elim (g.only y n) [
        | inl o ↦ inl o
        | inr r ↦ inr (
            Reached_from (x ∷ []) (x ∷ xs)
              (λ z i k. root z (elim i [ inl e ↦ inl e | inr f ↦ absurd f ]) k) y r)
      ]
    ];
    distinct = λ d. h.distinct (g.distinct d);
  }

  -- A node that is new, with all that is found below it.
  pub Grows-new :
      (x : A) (ys out after : List A)
      → succs x ≡ some ys
      → (In x out → ⊥)
      → Grows ys (out ++ x ∷ []) after
      → Grows (x ∷ []) out after
  Grows-new x ys out after e new h = record {
    keeps = λ y m. h.keeps y ((In-append y out (x ∷ [])).1 (inl m));
    finds = λ y m k. elim m [
      | inl same ↦ h.keeps y ((In-append y out (x ∷ [])).1 (inr (inl same)))
      | inr f ↦ absurd f
    ];
    closed = λ y m. elim (h.closed y m) [
      | inr all ↦ inr all
      | inl n ↦ elim ((In-append y out (x ∷ [])).0 n) [
        | inl o ↦ inl o
        | inr last ↦ elim last [
          | inr f ↦ absurd f
          | inl same ↦ inr (λ zs z ez i k. h.finds z (let eq : zs ≡ ys = cc in subst (In z) eq i) k)
        ]
      ]
    ];
    only = λ y m. elim (h.only y m) [
      | inr r ↦
          inr
            (Reached_from ys (x ∷ []) (λ z i k. below z x ys (root x (inl refl) (ys, e)) e i k) y r)
      | inl n ↦ elim ((In-append y out (x ∷ [])).0 n) [
        | inl o ↦ inl o
        | inr last ↦ elim last [
          | inr f ↦ absurd f
          | inl same ↦ inr (root y (inl same) (ys, let eq : succs y ≡ some ys = cc in eq))
        ]
      ]
    ];
    distinct = λ d. h.distinct (append-IsDistinct x out d new);
  }

module _ {A : Type 0} ⦃e : Eq A⦄ where
  -- How many nodes of a list were not come to.
  abbrev pub missing : List A → List A → ℕ
  missing [] out = 0
  missing (x ∷ xs) out = (if contains out x then 0 else 1) + missing xs out

  pub missing-le : (xs out : List A) → missing xs out ≤ length xs
  missing-le [] out = omega arith
  missing-le (x ∷ xs) out = ground (arith, missing-le xs out)

  contains_grow :
      (out after : List A) (x : A)
      → ((y : A) → In y out → In y after)
      → contains out x ≡ true
      → contains after x ≡ true
  contains_grow out after x keeps h = (contains_iff after x).1 (keeps x ((contains_iff out x).0 h))

  pub missing_grow :
      (xs out after : List A)
      → ((y : A) → In y out → In y after)
      → missing xs after ≤ missing xs out
  missing_grow [] out after keeps = omega arith
  missing_grow (x ∷ xs) out after keeps =
      ground (arith, missing_grow xs out after keeps, contains_grow out after x keeps)

  pub missing_less :
      (x : A) (xs out after : List A)
      → ((y : A) → In y out → In y after)
      → In x xs
      → contains out x ≡ false
      → contains after x ≡ true
      → missing xs after < missing xs out
  missing_less x [] out after keeps m h k = absurd m
  missing_less x (y ∷ xs) out after keeps (inl same) h k =
      ground (arith, missing_grow xs out after keeps)
  missing_less x (y ∷ xs) out after keeps (inr m) h k =
      ground (arith, missing_less x xs out after keeps m h k, contains_grow out after y keeps)
