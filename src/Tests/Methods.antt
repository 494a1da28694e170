-- ===== src/Tests/Methods.antt =====
-- A handler that branches on the method of its request (internal/analysis/methods.go).
use interactivecodebase.Base.{
  ◌≡◌, ◌≢◌, ◌↔◌, ◌⊎◌, refl, string_eq, nat_eq, true, String, Option, none, some, false, List, [],
  ◌∷◌, In, contains, ℕ,
}
use interactivecodebase.Analysis.Methods.{
  Func, branch, leave, bin_op, eql, neq, field_load, const_text, other_cond, methods, method_scope,
  MethodScope, other_method, Value,
}
use interactivecodebase.Analysis.Methods.Decided.{stands_for}
use interactivecodebase.Analysis.Methods.Runs.{Runs, methods_of}
use interactivecodebase.Analysis.Methods.Under.{methods_lem}

abbrev request_method : Value
request_method = field_load true "Method"

-- if r.Method == "POST" { 1 } else if "GET" != r.Method { 2 } else { 3 }; 4
abbrev handler : Func
handler = record {
  id = 0;
  blocks =
      branch (bin_op eql request_method (const_text "POST")) 1 5
      ∷ leave (4 ∷ [])
      ∷ leave (4 ∷ [])
      ∷ leave (4 ∷ [])
      ∷ leave []
      ∷ branch (bin_op neq (const_text "GET") request_method) 2 3
      ∷ [];
  recover = none;
}

abbrev handler_scope : MethodScope
handler_scope = record {
  compared = "POST" ∷ "GET" ∷ [];
  reachable =
      (0, "POST" ∷ "GET" ∷ "*" ∷ [])
      ∷ (1, "POST" ∷ [])
      ∷ (4, "POST" ∷ "GET" ∷ "*" ∷ [])
      ∷ (5, "GET" ∷ "*" ∷ [])
      ∷ (3, "GET" ∷ [])
      ∷ (2, "*" ∷ [])
      ∷ [];
}

has_scope : method_scope handler ≡ some handler_scope
unfolding method_scope interactivecodebase.Analysis.Methods.method_conditions
    interactivecodebase.Analysis.Methods.condition_of
    interactivecodebase.Analysis.Methods.either_method
    interactivecodebase.Analysis.Methods.compared_method
    interactivecodebase.Analysis.Methods.compared_methods
    interactivecodebase.Analysis.Methods.reachable_under
    interactivecodebase.Analysis.Methods.append_blocks
    interactivecodebase.Analysis.Methods.append_at
    interactivecodebase.Analysis.Methods.reachable_blocks
    interactivecodebase.Analysis.Methods.successors interactivecodebase.Analysis.Methods.block_at
    interactivecodebase.Analysis.Methods.decided interactivecodebase.Base.Visit.each
    interactivecodebase.Base.Visit.visit contains string_eq nat_eq native.Mathlib.Decide.ℕ_discrete
has_scope = refl

none_is_star : contains (methods_of handler) other_method ≡ false
unfolding contains interactivecodebase.Analysis.Methods.compared_methods
    interactivecodebase.Analysis.Methods.method_conditions
    interactivecodebase.Analysis.Methods.condition_of
    interactivecodebase.Analysis.Methods.either_method
    interactivecodebase.Analysis.Methods.compared_method string_eq
none_is_star = refl

posts : methods (some handler_scope) 1 ≡ "POST" ∷ []
unfolding methods interactivecodebase.Base.nat_eq native.Mathlib.Decide.ℕ_discrete
    interactivecodebase.Analysis.Methods.methods_at
posts = refl

every_method : methods (some handler_scope) 4 ≡ []
unfolding methods interactivecodebase.Base.nat_eq native.Mathlib.Decide.ℕ_discrete
    interactivecodebase.Analysis.Methods.methods_at
every_method = refl

methods_lem_example :
    (methods (some handler_scope) 1 ≢ []
      → (q : String)
      → Runs handler q 1 ↔ In (stands_for (methods_of handler) q) (methods (some handler_scope) 1))
    × (methods (some handler_scope) 1 ≡ []
        → ((q : String) → Runs handler q 1) ⊎ ((q : String) → Runs handler q 1 → ⊥))
methods_lem_example = methods_lem handler handler_scope 1 has_scope none_is_star
