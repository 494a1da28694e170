-- ===== src/Sqlparse/Migrations/Order.antt =====
-- The order of migrations (internal/sqlparse/migrations.go, compareFlyway).
use Prim.Native.Nat.{compare, Ordering}
use interactivecodebase.Base.{
  ℕ, ◌<◌, All, All-map, subst, ◌≡◌, refl, ◌⊎◌, inl, inr, String, Bool, true, false, not, List, [],
  ◌∷◌, Option, none, some, arith, keep, In, In-keep, ◌↔◌, if◌then◌else◌,
}
use interactivecodebase.Base.Text.{text_le, text_le_total, text_le_trans}
use interactivecodebase.Base.Sort.{sort_by, IsSorted, sort_by-IsSorted, In-sort_by}
use interactivecodebase.Sqlparse.Migrations.{
  Entry, is_undo, version_le, compare_versions, flyway_le, flyway_version, migration_files, chosen,
  flyway,
}

versions_swap :
    (v w : List ℕ)
    → (compare_versions v w ≡ Ordering.gt → compare_versions w v ≡ Ordering.lt)
      × (compare_versions v w ≡ Ordering.eq → compare_versions w v ≡ Ordering.eq)
unfolding compare_versions
versions_swap [] [] = (λ h. cc, λ h. refl)
versions_swap [] (y ∷ w) = (λ h. cc, λ h. cc)
versions_swap (x ∷ v) [] = (λ h. refl, λ h. cc)
versions_swap (x ∷ v) (y ∷ w) =
    let (gt_lt, eq_eq) = versions_swap v w in (λ h. ground arith, λ h. ground arith)

versions_equal : (v w : List ℕ) → compare_versions v w ≡ Ordering.eq → v ≡ w
unfolding compare_versions
versions_equal [] [] h = refl
versions_equal [] (y ∷ w) h = cc
versions_equal (x ∷ v) [] h = cc
versions_equal (x ∷ v) (y ∷ w) h = ground (arith, versions_equal v w)

versions_trans :
    (u v w : List ℕ)
    → compare_versions u v ≡ Ordering.lt
    → compare_versions v w ≡ Ordering.lt
    → compare_versions u w ≡ Ordering.lt
unfolding compare_versions
versions_trans [] [] w h k = cc
versions_trans [] (y ∷ v) [] h k = cc
versions_trans [] (y ∷ v) (z ∷ w) h k = refl
versions_trans (x ∷ u) [] w h k = cc
versions_trans (x ∷ u) (y ∷ v) [] h k = cc
versions_trans (x ∷ u) (y ∷ v) (z ∷ w) h k = ground (arith, versions_trans u v w)

version_le_total :
    (v w : Option (List ℕ)) (p q : Bool)
    → (p ≡ true) ⊎ (q ≡ true)
    → (version_le v w p ≡ true) ⊎ (version_le w v q ≡ true)
version_le_total none none p q h = h
version_le_total none (some w) p q h = inr refl
version_le_total (some v) none p q h = inl refl
version_le_total (some v) (some w) p q h =
    let (gt_lt, eq_eq) = versions_swap v w in by_order (compare_versions v w) refl gt_lt eq_eq
  where
    by_order :
        (o : Ordering)
        → compare_versions v w ≡ o
        → (o ≡ Ordering.gt → compare_versions w v ≡ Ordering.lt)
        → (o ≡ Ordering.eq → compare_versions w v ≡ Ordering.eq)
        → ((elim o [ Ordering.lt ↦ true | Ordering.eq ↦ p | Ordering.gt ↦ false ]) ≡ true)
          ⊎ (version_le (some w) (some v) q ≡ true)
    by_order Ordering.lt e g f = inl refl
    by_order Ordering.eq e g f = elim h [
      | inl yes_p ↦ inl yes_p
      | inr yes_q ↦ inr (let back = f refl in ground arith)
    ]
    by_order Ordering.gt e g f = inr (let back = g refl in ground arith)

version_le_trans :
    (u v w : Option (List ℕ)) (p q r : Bool)
    → (p ≡ true → q ≡ true → r ≡ true)
    → version_le u v p ≡ true
    → version_le v w q ≡ true
    → version_le u w r ≡ true
version_le_trans none none none p q r f h k = f h k
version_le_trans none none (some w) p q r f h k = k
version_le_trans none (some v) w p q r f h k = cc
version_le_trans (some u) v none p q r f h k = refl
version_le_trans (some u) none (some w) p q r f h k = cc
version_le_trans (some u) (some v) (some w) p q r f h k =
    ground (arith, versions_trans u v w, versions_equal u v, versions_equal v w)

flyway_le_total : (a b : String) → (flyway_le a b ≡ true) ⊎ (flyway_le b a ≡ true)
unfolding flyway_le
flyway_le_total a b = version_le_total (flyway_version a) (flyway_version b) _ _ (text_le_total a b)

flyway_le_trans :
    (a b c : String) → flyway_le a b ≡ true → flyway_le b c ≡ true → flyway_le a c ≡ true
unfolding flyway_le
flyway_le_trans a b c =
    version_le_trans (flyway_version a) (flyway_version b) (flyway_version c) _ _ _
      (text_le_trans a b c)

-- One list of numbers is less than another, at the first place where they differ.
pub data IsLess : List ℕ → List ℕ → Type 0 where
  shorter : (y : ℕ) (w : List ℕ) → IsLess [] (y ∷ w)
  at_head : (x y : ℕ) (v w : List ℕ) → x < y → IsLess (x ∷ v) (y ∷ w)
  at_tail : (x : ℕ) (v w : List ℕ) → IsLess v w → IsLess (x ∷ v) (x ∷ w)

-- A file may come before another: by its version, or with the same version by its name; the files without a version,
-- which are repeatable, come after those with one, by their names.
abbrev pub MayPrecede : String → String → Type 0
MayPrecede a b =
    ((v : List ℕ) × (w : List ℕ) × (flyway_version a ≡ some v)
      × (flyway_version b ≡ some w)
      × (IsLess v w ⊎ ((v ≡ w) × (text_le a b ≡ true))))
    ⊎ (((v : List ℕ) × (flyway_version a ≡ some v) × (flyway_version b ≡ none))
        ⊎ ((flyway_version a ≡ none) × (flyway_version b ≡ none) × (text_le a b ≡ true)))

abbrev pub IsInVersionOrder : List String → Type 0
IsInVersionOrder [] = Unit
IsInVersionOrder (a ∷ files) = All (MayPrecede a) files × IsInVersionOrder files

compare-lt : (x y : ℕ) → compare x y ≡ Ordering.lt → x < y
compare-lt x y h = ground arith

compare-eq : (x y : ℕ) → compare x y ≡ Ordering.eq → x ≡ y
compare-eq x y h = ground arith

versions-IsLess : (v w : List ℕ) → compare_versions v w ≡ Ordering.lt → IsLess v w
unfolding compare_versions
versions-IsLess [] [] h = cc
versions-IsLess [] (y ∷ w) h = shorter y w
versions-IsLess (x ∷ v) [] h = cc
versions-IsLess (x ∷ v) (y ∷ w) h = by_head (versions-IsLess v w) (compare x y) refl h
  where
    by_head :
        (compare_versions v w ≡ Ordering.lt → IsLess v w)
        → (o : Ordering) → compare x y ≡ o
        → (elim o [
          | Ordering.lt ↦ Ordering.lt
          | Ordering.eq ↦ compare_versions v w
          | Ordering.gt ↦ Ordering.gt
        ])
          ≡ Ordering.lt
        → IsLess (x ∷ v) (y ∷ w)
    by_head tail Ordering.lt e k = at_head x y v w (compare-lt x y e)
    by_head tail Ordering.eq e k =
        subst (λ z. IsLess (x ∷ v) (z ∷ w)) (compare-eq x y e) (at_tail x v w (tail k))
    by_head tail Ordering.gt e k = cc

version_order :
    (v w : List ℕ) (p : Bool)
    → version_le (some v) (some w) p ≡ true
    → IsLess v w ⊎ ((v ≡ w) × (p ≡ true))
version_order v w p = by_order (compare_versions v w) refl
  where
    by_order :
        (o : Ordering)
        → compare_versions v w ≡ o
        → (elim o [ Ordering.lt ↦ true | Ordering.eq ↦ p | Ordering.gt ↦ false ]) ≡ true
        → IsLess v w ⊎ ((v ≡ w) × (p ≡ true))
    by_order Ordering.lt k m = inl (versions-IsLess v w k)
    by_order Ordering.eq k m = inr (versions_equal v w k, m)
    by_order Ordering.gt k m = cc

flyway_le-MayPrecede : (a b : String) → flyway_le a b ≡ true → MayPrecede a b
unfolding flyway_le
flyway_le-MayPrecede a b = by_versions (flyway_version a) (flyway_version b) refl refl
  where
    by_versions :
        (p q : Option (List ℕ))
        → flyway_version a ≡ p
        → flyway_version b ≡ q
        → version_le p q (text_le a b) ≡ true
        → MayPrecede a b
    by_versions none none e f h = inr (inr (e, f, h))
    by_versions none (some w) e f h = cc
    by_versions (some v) none e f h = inr (inl (v, e, f))
    by_versions (some v) (some w) e f h = inl (v, w, e, f, version_order v w (text_le a b) h)

IsInVersionOrder-of_sorted :
    (files : List String) → IsSorted flyway_le files → IsInVersionOrder files
IsInVersionOrder-of_sorted [] h = tt
IsInVersionOrder-of_sorted (a ∷ files) h = (
  All-map (λ b. flyway_le a b ≡ true) (MayPrecede a) files (flyway_le-MayPrecede a) h.0,
  IsInVersionOrder-of_sorted files h.1,
)

-- The files are in the order of their names, or for Flyway in the order of their versions, those of one version by
-- their names, and the ones without a version last; they are those that were chosen, without the undo migrations
-- of Flyway.
pub migration_files_order :
    (es : List Entry)
    → let names = sort_by text_le (chosen es) in
      (flyway names ≡ true → IsInVersionOrder (migration_files es))
      × (flyway names ≡ false → IsSorted text_le (migration_files es))
      × ((n : String)
          → In n (migration_files es)
            ↔ (In n (chosen es) × (flyway names ≡ true → is_undo n ≡ false)))
unfolding migration_files
migration_files_order es = by_test (flyway (sort_by text_le (chosen es)))
  where
    names : List String
    names = sort_by text_le (chosen es)

    by_test :
        (b : Bool)
        → (b ≡ true
            → IsInVersionOrder
                (if b then sort_by flyway_le (keep (λ n. not (is_undo n)) names) else names))
          × (b ≡ false
              → IsSorted text_le
                  (if b then sort_by flyway_le (keep (λ n. not (is_undo n)) names) else names))
          × ((n : String)
              → In n (if b then sort_by flyway_le (keep (λ n. not (is_undo n)) names) else names)
                ↔ (In n (chosen es) × (b ≡ true → is_undo n ≡ false)))
    by_test true = (
      λ h. IsInVersionOrder-of_sorted (sort_by flyway_le (keep (λ n. not (is_undo n)) names)) (
          sort_by-IsSorted flyway_le flyway_le_total flyway_le_trans
            (keep (λ n. not (is_undo n)) names)),
      λ h. cc,
      λ n. (
        λ m.
            let (in_names, passes) =
              (In-keep (λ n. not (is_undo n)) n names).0
                ((In-sort_by flyway_le n (keep (λ n. not (is_undo n)) names)).0 m) in
            ((In-sort_by text_le n (chosen es)).0 in_names, λ h. ground arith),
        λ (m, no_undo). (In-sort_by flyway_le n (keep (λ n. not (is_undo n)) names)).1 (
            (In-keep (λ n. not (is_undo n)) n names).1
              ((In-sort_by text_le n (chosen es)).1 m, let plain = no_undo refl in ground arith)),
      ),
    )
    by_test false = (
      λ h. cc,
      λ h. sort_by-IsSorted text_le text_le_total text_le_trans (chosen es),
      λ n. (
        λ m. ((In-sort_by text_le n (chosen es)).0 m, λ h. cc),
        λ (m, anything). (In-sort_by text_le n (chosen es)).1 m,
      ),
    )
