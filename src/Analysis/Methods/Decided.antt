-- ===== src/Analysis/Methods/Decided.antt =====
-- The conditions of a function decide the branches as the method of a request does.
use interactivecodebase.Base.{
  ℕ, zero, suc, ◌+◌, ◌<◌, ◌≡◌, refl, ap, subst, ◌∙◌, String, ◌==◌, string_eq, nat_eq, Bool, true,
  false, not, ◌&&◌, Option, none, some, List, [], ◌∷◌, contains, arith, if◌then◌else◌,
}
use interactivecodebase.Analysis.Methods.{
  other_method, Value, const_text, other_const, field_load, other_value, eql, neq, other_op, Cond,
  bin_op, other_cond, Exit, branch, MethodCond, compared_method, either_method, condition_of,
  with_equal, method_conditions, same, decided, block_at,
}

-- What the comparison of two values comes to for a request's method, if it is the method with a constant.
abbrev pub equals : String → Value → Value → Option Bool
equals q (field_load is_request name) (const_text s) =
    if is_request && name == "Method" then some (s == q) else none
equals q (const_text s) (field_load is_request name) =
    if is_request && name == "Method" then some (s == q) else none
equals q (const_text s) (const_text t) = none
equals q (const_text s) other_const = none
equals q (const_text s) other_value = none
equals q (field_load is_request name) other_const = none
equals q (field_load is_request name) other_value = none
equals q (field_load is_request name) (field_load also other) = none
equals q other_const y = none
equals q other_value y = none

abbrev negated : Option Bool → Option Bool
negated none = none
negated (some b) = some (not b)

abbrev pub outcome : String → Cond → Option Bool
outcome q (bin_op eql x y) = equals q x y
outcome q (bin_op neq x y) = negated (equals q x y)
outcome q (bin_op other_op x y) = none
outcome q other_cond = none

-- What a method decides of a condition that was found.
abbrev pub found_outcome : String → Option (String × Bool) → Option Bool
found_outcome m none = none
found_outcome m (some c) = some (same (c.0 == m) c.1)

-- The methods that one is taken for: itself if it is compared with.
abbrev pub stands_for : List String → String → String
stands_for cs q = if contains cs q then q else other_method

-- The conditions from a block on, given that of the block.
abbrev pub conditions_from : ℕ → List Exit → Option (String × Bool) → List MethodCond
conditions_from k bs none = method_conditions (suc k) bs
conditions_from k bs (some found) =
    record { block = k; method = found.0; is_equal = found.1 } ∷ method_conditions (suc k) bs

decided-none :
    (k : ℕ) (bs : List Exit) (m : String) (i : ℕ)
    → i < k
    → decided (method_conditions k bs) m i ≡ none
unfolding decided method_conditions
decided-none k [] m i h = refl
decided-none k (b ∷ bs) m i h =
    by_condition (decided-none (suc k) bs m i (omega (arith, h))) (condition_of b)
  where
    by_condition :
        decided (method_conditions (suc k) bs) m i ≡ none
        → (c : Option (String × Bool)) → decided (conditions_from k bs c) m i ≡ none
    by_condition later none = later
    by_condition later (some found) = ground (arith, later)

abbrev pub outcome_at : String → Option Exit → Option Bool
outcome_at m none = none
outcome_at m (some b) = found_outcome m (condition_of b)

pub decided_at :
    (k : ℕ) (bs : List Exit) (m : String) (j : ℕ)
    → decided (method_conditions k bs) m (k + j) ≡ outcome_at m (block_at bs j)
unfolding decided method_conditions block_at
decided_at k [] m j = refl
decided_at k (b ∷ bs) m zero =
    by_condition (decided-none (suc k) bs m (k + 0) (omega arith)) (condition_of b)
  where
    by_condition :
        decided (method_conditions (suc k) bs) m (k + 0) ≡ none
        → (c : Option (String × Bool))
        → decided (conditions_from k bs c) m (k + 0) ≡ found_outcome m c
    by_condition later none = later
    by_condition later (some found) = ground (arith, later)
decided_at k (b ∷ bs) m (suc j) =
    by_condition
      (subst (λ i. decided (method_conditions (suc k) bs) m i ≡ outcome_at m (block_at bs j))
        (omega arith) (decided_at (suc k) bs m j))
      (condition_of b)
  where
    by_condition :
        decided (method_conditions (suc k) bs) m (k + suc j) ≡ outcome_at m (block_at bs j)
        → (c : Option (String × Bool))
        → decided (conditions_from k bs c) m (k + suc j) ≡ outcome_at m (block_at bs j)
    by_condition later none = later
    by_condition later (some found) = ground (arith, later)

stands_for_same :
    (cs : List String) (q s : String)
    → contains cs s ≡ true
    → contains cs other_method ≡ false
    → (s == stands_for cs q) ≡ (s == q)
stands_for_same cs q s h other = by_test (contains cs q) refl
  where
    by_test : (b : Bool) → contains cs q ≡ b → (s == (if b then q else other_method)) ≡ (s == q)
    by_test true e = refl
    by_test false e = ground arith

-- A branch whose method is among those compared is decided by what the request's method stands for.
abbrev pub ComparedIn : List String → Option (String × Bool) → Type 0
ComparedIn cs none = Unit
ComparedIn cs (some c) = contains cs c.0 ≡ true

abbrev MethodIn : List String → Option String → Type 0
MethodIn cs none = Unit
MethodIn cs (some s) = contains cs s ≡ true

abbrev against : String → Option String → Option Bool
against m none = none
against m (some s) = some (s == m)

against_method :
    (cs : List String) (q s : String) (b : Bool)
    → contains cs other_method ≡ false
    → MethodIn cs (if b then some s else none)
    → against (stands_for cs q) (if b then some s else none) ≡ (if b then some (s == q) else none)
against_method cs q s true other h = ap some (stands_for_same cs q s h other)
against_method cs q s false other h = refl

equals_lem :
    (cs : List String) (q : String) (x y : Value)
    → contains cs other_method ≡ false
    → MethodIn cs (either_method x y)
    → against (stands_for cs q) (either_method x y) ≡ equals q x y
unfolding either_method compared_method
equals_lem cs q (field_load r n) (const_text s) other h = by_test (r && n == "Method") h
  where
    by_test :
        (b : Bool)
        → MethodIn cs (elim (if b then some s else none) as (λ _. Option String) [
          | some t ↦ some t
          | none ↦ none
        ])
        → against (stands_for cs q) (elim (if b then some s else none) as (λ _. Option String) [
          | some t ↦ some t
          | none ↦ none
        ])
          ≡ (if b then some (s == q) else none)
    by_test true h = against_method cs q s true other h
    by_test false h = refl
equals_lem cs q (const_text s) (field_load r n) other h =
    against_method cs q s (r && n == "Method") other h
equals_lem cs q (const_text s) (const_text t) other h = refl
equals_lem cs q (const_text s) other_const other h = refl
equals_lem cs q (const_text s) other_value other h = refl
equals_lem cs q (field_load r n) other_const other h = refl
equals_lem cs q (field_load r n) other_value other h = refl
equals_lem cs q (field_load r n) (field_load r' n') other h = refl
equals_lem cs q other_const (const_text t) other h = refl
equals_lem cs q other_const other_const other h = refl
equals_lem cs q other_const other_value other h = refl
equals_lem cs q other_const (field_load r n) other h = refl
equals_lem cs q other_value (const_text t) other h = refl
equals_lem cs q other_value other_const other h = refl
equals_lem cs q other_value other_value other h = refl
equals_lem cs q other_value (field_load r n) other h = refl

same-true : (b : Bool) → same b true ≡ b
same-true true = refl
same-true false = refl

same-false : (b : Bool) → same b false ≡ not b
same-false true = refl
same-false false = refl

pub outcome_lem :
    (cs : List String) (q : String) (c : Cond) (i j : ℕ)
    → contains cs other_method ≡ false
    → ComparedIn cs (condition_of (branch c i j))
    → found_outcome (stands_for cs q) (condition_of (branch c i j)) ≡ outcome q c
unfolding condition_of
outcome_lem cs q (bin_op eql x y) i j other h =
    by_method (either_method x y) (equals_lem cs q x y other) h
  where
    by_method :
        (m : Option String)
        → (MethodIn cs m → against (stands_for cs q) m ≡ equals q x y)
        → ComparedIn cs (with_equal true m)
        → found_outcome (stands_for cs q) (with_equal true m) ≡ equals q x y
    by_method none e h = e tt
    by_method (some s) e h = ap some (same-true (s == stands_for cs q)) ∙ e h
outcome_lem cs q (bin_op neq x y) i j other h =
    by_method (either_method x y) (equals_lem cs q x y other) h
  where
    by_method :
        (m : Option String)
        → (MethodIn cs m → against (stands_for cs q) m ≡ equals q x y)
        → ComparedIn cs (with_equal false m)
        → found_outcome (stands_for cs q) (with_equal false m) ≡ negated (equals q x y)
    by_method none e h = ap negated (e tt)
    by_method (some s) e h = ap some (same-false (s == stands_for cs q)) ∙ ap negated (e h)
outcome_lem cs q (bin_op other_op x y) i j other h = refl
outcome_lem cs q other_cond i j other h = refl
