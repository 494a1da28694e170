-- ===== src/Analysis/Methods/Under.antt =====
-- The methods of an instruction (internal/analysis/methods.go) are those of the requests that may run it.
use interactivecodebase.Base.{
  ℕ, ◌+◌, ◌≤◌, ◌≡◌, ◌≢◌, refl, sym, ap, subst, ◌∙◌, ◌↔◌, ◌⊎◌, String, ◌==◌, string_eq, nat_eq, Bool,
  true, false, none, some, List, [], ◌∷◌, ◌++◌, contains, contains_iff, ==_iff, length,
  length-append, keep, In, In-keep, In-append, arith, if◌then◌else◌, Bool-cases, inl, inr,
}
use interactivecodebase.Analysis.Methods.{
  other_method, Func, MethodCond, MethodScope, reachable_blocks, methods_at, compared_methods,
  method_scope, scope_from, methods,
}
use interactivecodebase.Analysis.Methods.Decided.{stands_for}
use interactivecodebase.Analysis.Methods.Scopes.{methods_at-reachable_under}
use interactivecodebase.Analysis.Methods.Runs.{Runs, Runs-reachable_blocks, conditions, methods_of}

-- A scope is that of all the conditions of its function.
scope_lem :
    (f : Func) (s : MethodScope)
    → method_scope f ≡ some s
    → s ≡ scope_from f (conditions f) (methods_of f)
unfolding method_scope
scope_lem f s = by_conditions (conditions f)
  where
    by_conditions :
        (cs : List MethodCond)
        → (elim cs [
          | [] ↦ none
          | c ∷ ds ↦ some (scope_from f (c ∷ ds) (compared_methods (c ∷ ds) []))
        ])
          ≡ some s
        → s ≡ scope_from f cs (compared_methods cs [])
    by_conditions [] h = cc
    by_conditions (c ∷ ds) h = cc

abbrev runs_under : Func → ℕ → String → Bool
runs_under f i m = contains (reachable_blocks f (conditions f) m) i

methods_at_lem :
    (f : Func) (s : MethodScope) (i : ℕ)
    → method_scope f ≡ some s
    → methods_at s.reachable i ≡ keep (runs_under f i) (methods_of f ++ other_method ∷ [])
unfolding methods_at
methods_at_lem f s i h =
    ap (λ t. methods_at t.reachable i) (scope_lem f s h)
    ∙ methods_at-reachable_under f (conditions f) (methods_of f ++ other_method ∷ []) [] i

stands_for_known : (cs : List String) (q : String) → In (stands_for cs q) (cs ++ other_method ∷ [])
stands_for_known cs q = by_test (contains cs q) refl
  where
    by_test :
        (b : Bool)
        → contains cs q ≡ b
        → In (if b then q else other_method) (cs ++ other_method ∷ [])
    by_test true e = (In-append q cs (other_method ∷ [])).1 (inl ((contains_iff cs q).0 e))
    by_test false e = (In-append other_method cs (other_method ∷ [])).1 (inr (inl refl))

-- Requests run a block if it has the method that they stand for.
scope-Runs :
    (f : Func) (s : MethodScope) (q : String) (i : ℕ)
    → method_scope f ≡ some s
    → contains (methods_of f) other_method ≡ false
    → Runs f q i ↔ In (stands_for (methods_of f) q) (methods_at s.reachable i)
scope-Runs f s q i h other =
    let runs = Runs-reachable_blocks f q other i in
    let known = contains_iff (reachable_blocks f (conditions f) (stands_for (methods_of f) q)) i in
    let kept =
      In-keep (runs_under f i) (stands_for (methods_of f) q) (methods_of f ++ other_method ∷ []) in
    let all = methods_at_lem f s i h in
    (
      λ r.
          subst (In (stands_for (methods_of f) q)) (sym all)
            (kept.1 (stands_for_known (methods_of f) q, known.1 (runs.0 r))),
      λ m. runs.1 (known.0 (kept.0 (subst (In (stands_for (methods_of f) q)) all m)).1),
    )

length-keep : {A : Type 0} → (p : A → Bool) (xs : List A) → length (keep p xs) ≤ length xs
unfolding keep
length-keep p [] = omega arith
length-keep p (x ∷ xs) = ground (arith, length-keep p xs)

keep_all :
    {A : Type 0}
    → (p : A → Bool) (xs : List A) (x : A) → length (keep p xs) ≡ length xs
    → In x xs
    → In x (keep p xs)
unfolding keep
keep_all p [] x h m = m
keep_all p (y ∷ xs) x h m = elim (Bool-cases (p y)) [
  | inr fails ↦ absurd (let short = length-keep p xs in ground arith)
  | inl passes ↦
      rw passes (elim m [ inl e ↦ inl e | inr n ↦ inr (keep_all p xs x (ground arith) n) ])
]

-- For a function whose conditions compare with no method "*": if the methods of a block are given, requests run
-- the block whose method is among them or stands for the others; if none is given, all requests run it or none does.
pub methods_lem :
    (f : Func) (s : MethodScope) (i : ℕ)
    → method_scope f ≡ some s
    → contains (methods_of f) other_method ≡ false
    → (methods (some s) i ≢ []
        → (q : String) → Runs f q i ↔ In (stands_for (methods_of f) q) (methods (some s) i))
      × (methods (some s) i ≡ [] → ((q : String) → Runs f q i) ⊎ ((q : String) → Runs f q i → ⊥))
unfolding methods
methods_lem f s i h other =
    by_length (length (methods_at s.reachable i) == length s.compared + 1) refl
  where
    all_pass :
        (length (methods_at s.reachable i) == length s.compared + 1) ≡ true
        → length (keep (runs_under f i) (methods_of f ++ other_method ∷ []))
          ≡ length (methods_of f ++ other_method ∷ [])
    all_pass e =
        sym (ap length (methods_at_lem f s i h))
        ∙ ((==_iff (length (methods_at s.reachable i)) (length s.compared + 1)).0 e
            ∙ (ap (λ t. length t.compared + 1) (scope_lem f s h)
                ∙ sym (length-append (methods_of f) (other_method ∷ []))))

    by_length :
        (b : Bool)
        → (length (methods_at s.reachable i) == length s.compared + 1) ≡ b
        → ((if b then [] else methods_at s.reachable i) ≢ []
            → (q : String)
            → Runs f q i
              ↔ In (stands_for (methods_of f) q) (if b then [] else methods_at s.reachable i))
          × ((if b then [] else methods_at s.reachable i) ≡ []
              → ((q : String) → Runs f q i) ⊎ ((q : String) → Runs f q i → ⊥))
    by_length true e = (
      λ no. absurd (no refl),
      λ _. inl (λ q. (scope-Runs f s q i h other).1 (
          subst (In _) (sym (methods_at_lem f s i h)) (
            keep_all (runs_under f i) (methods_of f ++ other_method ∷ []) _ (all_pass e)
              (stands_for_known (methods_of f) q)))),
    )
    by_length false e = (
      λ _ q. scope-Runs f s q i h other,
      λ empty. inr (λ q r.
          subst (In (stands_for (methods_of f) q)) empty ((scope-Runs f s q i h other).0 r)),
    )
