-- ===== src/Analysis/Navigation/Rounds.antt =====
-- The rounds of redirectingFuncs come to an end (internal/analysis/navigation.go), and what they find.
use interactivecodebase.Base.{
  ℕ, zero, suc, ◌+◌, ◌≤◌, ◌<◌, string_eq, nat_eq, Bool, true, false, not, ◌&&◌, ◌||◌, Option, some,
  List, [], ◌∷◌, contains, In, length, ◌≡◌, refl, ◌↔◌, inl, inr, ap, subst, arith, Bool-cases,
  if◌then◌else◌,
}
use interactivecodebase.Analysis.Navigation.{
  Func, func_redirects, one_round, rounds, redirecting_funcs,
}
use interactivecodebase.Analysis.Navigation.Redirecting.{
  Redirects, by_itself, through, call_found, grow_redirects, redirects_through, IsSound, Part,
  one_round-IsSound, IsClosed, unchanged,
}

-- The functions that were not found.
abbrev missing : List Func → List ℕ → ℕ
missing [] out = 0
missing (f ∷ fs) out = (if contains out f.id then 0 else 1) + missing fs out

missing_grow : (fs : List Func) (i : ℕ) (out : List ℕ) → missing fs (i ∷ out) ≤ missing fs out
unfolding contains
missing_grow [] i out = omega arith
missing_grow (f ∷ fs) i out = ground (arith, missing_grow fs i out)

missing_drop :
    (f : Func) (fs : List Func) (out : List ℕ)
    → In f fs
    → contains out f.id ≡ false
    → missing fs (f.id ∷ out) < missing fs out
unfolding contains
missing_drop f [] out m h = absurd m
missing_drop f (g ∷ fs) out (inl e) h = ground (arith, missing_grow fs f.id out)
missing_drop f (g ∷ fs) out (inr m) h = ground (arith, missing_drop f fs out m h)

missing-one_round :
    (own fs : List Func) (out : List ℕ) (changed : Bool)
    → Part fs own
    → missing own (one_round fs out changed).0 ≤ missing own out
unfolding one_round
missing-one_round own [] out changed part = omega arith
missing-one_round own (f ∷ fs) out changed part =
    by_test (λ seen b. missing-one_round own fs seen b (λ g m. part g (inr m)))
      (not (contains out f.id) && func_redirects out f)
  where
    by_test :
        ((seen : List ℕ) (b : Bool) → missing own (one_round fs seen b).0 ≤ missing own seen)
        → (new : Bool)
        → missing own (one_round fs (if new then f.id ∷ out else out) (changed || new)).0
          ≤ missing own out
    by_test rest true =
        omega (arith, rest (f.id ∷ out) (changed || true), missing_grow own f.id out)
    by_test rest false = rest out (changed || false)

one_round_progress :
    (own fs : List Func) (out : List ℕ)
    → Part fs own
    → (one_round fs out false).1 ≡ true
    → missing own (one_round fs out false).0 < missing own out
unfolding one_round
one_round_progress own [] out part h = cc
one_round_progress own (f ∷ fs) out part h =
    by_test (one_round_progress own fs out (λ g m. part g (inr m)))
      (not (contains out f.id) && func_redirects out f) refl h
  where
    by_test :
        ((one_round fs out false).1 ≡ true
          → missing own (one_round fs out false).0 < missing own out)
        → (new : Bool) → (not (contains out f.id) && func_redirects out f) ≡ new
        → (one_round fs (if new then f.id ∷ out else out) new).1 ≡ true
        → missing own (one_round fs (if new then f.id ∷ out else out) new).0 < missing own out
    by_test rest true e k = omega (
      arith,
      missing-one_round own fs (f.id ∷ out) true (λ g m. part g (inr m)),
      missing_drop f own out (part f (inl refl)) (ground arith),
    )
    by_test rest false e k = rest k

-- What the rounds come to: found functions redirect, and no other function does.
Found : List Func → Option (List ℕ) → Type 0
Found own r = (out : List ℕ) × (r ≡ some out) × IsSound own out × IsClosed own out

rounds_found :
    (fuel : ℕ) (own : List Func) (out : List ℕ)
    → missing own out < fuel
    → IsSound own out
    → Found own (rounds fuel own out)
unfolding rounds Found
rounds_found zero own out h sound = elim h [ ]
rounds_found (suc fuel) own out h sound = elim (Bool-cases (one_round own out false).1) [
  | inl changed ↦ rw changed (
      rounds_found fuel own (one_round own out false).0
        (omega (arith, one_round_progress own own out (λ f m. m) changed))
        (one_round-IsSound own own out false (λ f m. m) sound))
  | inr done ↦
      let (same, closed) = unchanged own out done in rw done (out, ap some same, sound, closed)
]

missing-le : (fs : List Func) (out : List ℕ) → missing fs out ≤ length fs
missing-le [] out = omega arith
missing-le (f ∷ fs) out = ground (arith, missing-le fs out)

complete :
    (own : List Func) (out : List ℕ)
    → IsClosed own out
    → (i : ℕ) → Redirects own i
    → contains out i ≡ true
complete own out closed _ (by_itself i f c m e has q) =
    subst (λ j. contains out j ≡ true) e
      (closed f m (call_found out f c has (grow_redirects out c q)))
complete own out closed _ (through i f c g m e has calls_g r) =
    subst (λ j. contains out j ≡ true) e
      (closed f m (
        call_found out f c has
          (redirects_through out c g calls_g (complete own out closed g.id r))))

-- The search for functions that redirect comes to an end within a round for each function and one more, and
-- finds exactly the functions that redirect by themselves or through others.
pub redirecting_funcs_iff :
    (own : List Func)
    → (out : List ℕ) × (redirecting_funcs own ≡ some out)
      × ((i : ℕ) → (contains out i ≡ true) ↔ Redirects own i)
unfolding redirecting_funcs Found contains
redirecting_funcs_iff own =
    let (out, e, sound, closed) =
      rounds_found (suc (length own)) own [] (omega (arith, missing-le own [])) none_yet in
    (out, e, λ i. (sound i, complete own out closed i))
  where
    false-ne-true : false ≡ true → ⊥
    false-ne-true h = cc

    none_yet : IsSound own []
    none_yet i h = absurd (false-ne-true h)
