-- ===== src/Analysis/Methods/Runs.antt =====
-- The blocks that run under a request's method (internal/analysis/methods.go).
use interactivecodebase.Base.{
  ℕ, zero, suc, ◌≡◌, refl, sym, ap, subst, ◌∙◌, ◌↔◌, String, string_eq, nat_eq, Bool, true, false,
  Option, none, some, List, [], ◌∷◌, ◌++◌, contains, contains_iff, map, In, In-append, arith,
  if◌then◌else◌, inl, inr,
}
use interactivecodebase.Base.Visit.Reached.{Reached, root, below}
use interactivecodebase.Analysis.Methods.{
  other_method, Exit, branch, leave, Func, MethodCond, block_at, successors, entries,
  reachable_blocks, condition_of, method_conditions, compared_methods, next_blocks, decided,
}
use interactivecodebase.Analysis.Methods.Decided.{
  outcome, stands_for, outcome_lem, ComparedIn, decided_at, outcome_at, found_outcome,
  conditions_from,
}
use interactivecodebase.Analysis.Methods.Scopes.{block_known, reachable_blocks_iff}

abbrev pub outcome_of : String → Exit → Option Bool
outcome_of q (leave succs) = none
outcome_of q (branch c first second) = outcome q c

-- The blocks that a request with a method may run: a branch on the comparison of its method with a constant
-- goes where the comparison says, any other goes both ways.
pub data Runs (f : Func) (q : String) : ℕ → Type 0 where
  enters : (i : ℕ) (b : Exit) → In i (entries f) → block_at f.blocks i ≡ some b → Runs f q i
  goes_on :
      (i j : ℕ) (b c : Exit)
      → Runs f q j
      → block_at f.blocks j ≡ some b
      → In i (next_blocks (outcome_of q b) b)
      → block_at f.blocks i ≡ some c
      → Runs f q i

compared_grow :
    (cs : List MethodCond) (out : List String) (m : String)
    → In m out
    → In m (compared_methods cs out)
unfolding compared_methods
compared_grow [] out m h = h
compared_grow (c ∷ cs) out m h =
    compared_grow cs (if contains out c.method then out else out ++ c.method ∷ []) m
      (by_test (contains out c.method))
  where
    by_test : (b : Bool) → In m (if b then out else out ++ c.method ∷ [])
    by_test true = h
    by_test false = (In-append m out (c.method ∷ [])).1 (inl h)

-- Each method that a condition compares with is among those compared.
compared_all :
    (cs : List MethodCond) (out : List String) (m : String)
    → In m (map (λ c. c.method) cs)
    → In m (compared_methods cs out)
unfolding compared_methods
compared_all [] out m h = absurd h
compared_all (c ∷ cs) out m (inr h) = compared_all cs _ m h
compared_all (c ∷ cs) out m (inl h) =
    compared_grow cs (if contains out c.method then out else out ++ c.method ∷ []) m
      (by_test (contains out c.method) refl)
  where
    by_test :
        (b : Bool) → contains out c.method ≡ b → In m (if b then out else out ++ c.method ∷ [])
    by_test true e = subst (λ x. In x out) (sym h) ((contains_iff out c.method).0 e)
    by_test false e = (In-append m out (c.method ∷ [])).1 (inr (inl h))

AmongConditions : List MethodCond → Option (String × Bool) → Type 0
AmongConditions cs none = Unit
AmongConditions cs (some c) = In c.0 (map (λ d. d.method) cs)

among_more :
    (d : MethodCond) (cs : List MethodCond) (c : Option (String × Bool))
    → AmongConditions cs c
    → AmongConditions (d ∷ cs) c
unfolding AmongConditions
among_more d cs none h = tt
among_more d cs (some c) h = inr h

condition_found :
    (k : ℕ) (bs : List Exit) (i : ℕ) (b : Exit)
    → block_at bs i ≡ some b
    → AmongConditions (method_conditions k bs) (condition_of b)
unfolding method_conditions block_at AmongConditions
condition_found k [] i b h = cc
condition_found k (c ∷ bs) zero b h =
    subst (λ x. AmongConditions (conditions_from k bs (condition_of c)) (condition_of x))
      (let same : c ≡ b = cc in same) (by_condition (condition_of c))
  where
    by_condition : (d : Option (String × Bool)) → AmongConditions (conditions_from k bs d) d
    by_condition none = tt
    by_condition (some d) = inl refl
condition_found k (c ∷ bs) (suc i) b h =
    by_condition (condition_found (suc k) bs i b h) (condition_of c)
  where
    by_condition :
        AmongConditions (method_conditions (suc k) bs) (condition_of b)
        → (d : Option (String × Bool)) → AmongConditions (conditions_from k bs d) (condition_of b)
    by_condition later none = later
    by_condition later (some d) =
        among_more (record { block = k; method = d.0; is_equal = d.1 })
          (method_conditions (suc k) bs) (condition_of b) later

-- The methods that a function compares with, as they are when it has conditions.
abbrev pub conditions : Func → List MethodCond
conditions f = method_conditions 0 f.blocks

abbrev pub methods_of : Func → List String
methods_of f = compared_methods (conditions f) []

compared_in :
    (f : Func) (c : Option (String × Bool))
    → AmongConditions (conditions f) c
    → ComparedIn (methods_of f) c
unfolding AmongConditions
compared_in f none h = tt
compared_in f (some c) h =
    (contains_iff (methods_of f) c.0).1 (compared_all (conditions f) [] c.0 h)

successors_lem :
    (f : Func) (q : String) (i : ℕ) (b : Exit)
    → contains (methods_of f) other_method ≡ false
    → block_at f.blocks i ≡ some b
    → successors f (conditions f) (stands_for (methods_of f) q) i
      ≡ some (next_blocks (outcome_of q b) b)
unfolding successors
successors_lem f q i (leave succs) other h = rw (h, successors) refl
successors_lem f q i (branch c first second) other h =
    rw (h, successors)
      (ap (λ d. some (next_blocks d (branch c first second)))
        (decision
          ∙ outcome_lem (methods_of f) q c first second other (
              compared_in f (condition_of (branch c first second))
                (condition_found 0 f.blocks i (branch c first second) h))))
  where
    decision :
        decided (conditions f) (stands_for (methods_of f) q) i
        ≡ found_outcome (stands_for (methods_of f) q) (condition_of (branch c first second))
    decision =
        subst
          (λ j.
            decided (conditions f) (stands_for (methods_of f) q) j
            ≡ outcome_at (stands_for (methods_of f) q) (block_at f.blocks i))
          (omega arith) (decided_at 0 f.blocks (stands_for (methods_of f) q) i)
        ∙ ap (outcome_at (stands_for (methods_of f) q)) h

module _ (f : Func) (q : String) (other : contains (methods_of f) other_method ≡ false) where
  Found : ℕ → Type 0
  Found i = Reached (successors f (conditions f) (stands_for (methods_of f) q)) (entries f) i

  found-Runs : (i : ℕ) → Found i → Runs f q i
  unfolding Found
  found-Runs _ (root i m k) =
      let (b, e) = block_known f (conditions f) (stands_for (methods_of f) q) i k in enters i b m e
  found-Runs _ (below i j ys r e m k) =
      let (b, eb) = block_known f (conditions f) (stands_for (methods_of f) q) j (ys, e) in
      let (c, ec) = block_known f (conditions f) (stands_for (methods_of f) q) i k in
      let same : ys ≡ next_blocks (outcome_of q b) b =
        (let it = successors_lem f q j b other eb in cc) in
      goes_on i j b c (found-Runs j r) eb (subst (In i) same m) ec

  Runs-found : (i : ℕ) → Runs f q i → Found i
  unfolding Found
  Runs-found _ (enters i b m e) =
      root i m (next_blocks (outcome_of q b) b, successors_lem f q i b other e)
  Runs-found _ (goes_on i j b c r eb m ec) =
      below i j (next_blocks (outcome_of q b) b) (Runs-found j r) (successors_lem f q j b other eb)
        m (next_blocks (outcome_of q c) c, successors_lem f q i c other ec)

  pub Runs-reachable_blocks :
      (i : ℕ) → Runs f q i ↔ In i (reachable_blocks f (conditions f) (stands_for (methods_of f) q))
  unfolding Found
  Runs-reachable_blocks i =
      let iff = (reachable_blocks_iff f (conditions f) (stands_for (methods_of f) q)).1 i in
      (λ r. iff.1 (Runs-found i r), λ m. found-Runs i (iff.0 m))
