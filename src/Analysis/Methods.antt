-- ===== src/Analysis/Methods.antt =====
-- The request methods under which the blocks of a function run (internal/analysis/methods.go). Of the SSA
-- form it has what the analysis reads: a block, which goes by its index, is the instruction that it ends in.
pub mod Decided
pub mod Scopes
pub mod Runs
pub mod Under
use interactivecodebase.Base.{
  ℕ, zero, suc, ◌+◌, String, ◌==◌, string_eq, nat_eq, Bool, true, false, not, ◌&&◌, Option, none,
  some, List, [], ◌∷◌, ◌++◌, contains, length, if◌then◌else◌,
}
use interactivecodebase.Base.Visit.{each, visit}

abbrev pub other_method : String
other_method = "*"

-- A value: a constant text, another constant, the load of a field of a net/http Request or of another
-- struct, or something else.
pub data Value : Type 0 where
  const_text : String → Value
  other_const : Value
  field_load : Bool → String → Value
  other_value : Value

pub data Op : Type 0 where
  eql neq other_op : Op

pub data Cond : Type 0 where
  bin_op : Op → Value → Value → Cond
  other_cond : Cond

pub data Exit : Type 0 where
  branch : Cond → ℕ → ℕ → Exit
  leave : List ℕ → Exit

pub record Func : Type 0 where
  pub id : ℕ
  pub blocks : List Exit
  pub recover : Option ℕ

-- `methodCond`
pub record MethodCond : Type 0 where
  pub block : ℕ
  pub method : String
  pub is_equal : Bool

-- `methodScope`
pub record MethodScope : Type 0 where
  pub compared : List String
  pub reachable : List (ℕ × List String)

abbrev constant_text : Value → Option String
constant_text (const_text s) = some s
constant_text other_const = none
constant_text (field_load is_request name) = none
constant_text other_value = none

abbrev is_method : Value → Bool
is_method (const_text s) = false
is_method other_const = false
is_method (field_load is_request name) = is_request && name == "Method"
is_method other_value = false

-- `comparedMethod`
unfoldable pub compared_method : Value → Value → Option String
compared_method field c = elim (constant_text c) [
  | none ↦ none
  | some s ↦ if is_method field then some s else none
]

unfoldable pub either_method : Value → Value → Option String
either_method x y = elim (compared_method x y) [ some s ↦ some s | none ↦ compared_method y x ]

abbrev pub with_equal : Bool → Option String → Option (String × Bool)
with_equal is_equal none = none
with_equal is_equal (some method) = some (method, is_equal)

unfoldable pub condition_of : Exit → Option (String × Bool)
condition_of (leave succs) = none
condition_of (branch other_cond first second) = none
condition_of (branch (bin_op other_op x y) first second) = none
condition_of (branch (bin_op eql x y) first second) = with_equal true (either_method x y)
condition_of (branch (bin_op neq x y) first second) = with_equal false (either_method x y)

-- `methodConditions`, of the blocks from an index on.
unfoldable pub method_conditions : ℕ → List Exit → List MethodCond
method_conditions i [] = []
method_conditions i (b ∷ bs) = elim (condition_of b) [
  | none ↦ method_conditions (suc i) bs
  | some found ↦
      record { block = i; method = found.0; is_equal = found.1 } ∷ method_conditions (suc i) bs
]

abbrev pub same : Bool → Bool → Bool
same true b = b
same false b = not b

-- Whether a condition that is decided for a method holds; the last one of a block counts.
unfoldable pub decided : List MethodCond → String → ℕ → Option Bool
decided [] m i = none
decided (c ∷ cs) m i = elim (decided cs m i) [
  | some b ↦ some b
  | none ↦ if c.block == i then some (same (c.method == m) c.is_equal) else none
]

unfoldable pub block_at : List Exit → ℕ → Option Exit
block_at [] i = none
block_at (b ∷ bs) zero = some b
block_at (b ∷ bs) (suc i) = block_at bs i

abbrev pub taken : Option Bool → ℕ → ℕ → List ℕ
taken none first second = first ∷ second ∷ []
taken (some true) first second = first ∷ []
taken (some false) first second = second ∷ []

abbrev pub next_blocks : Option Bool → Exit → List ℕ
next_blocks d (leave succs) = succs
next_blocks d (branch c first second) = taken d first second

-- The blocks that follow one, none for a block that the function does not have.
unfoldable pub successors : Func → List MethodCond → String → ℕ → Option (List ℕ)
successors f conds m i = elim (block_at f.blocks i) [
  | none ↦ none
  | some b ↦ some (next_blocks (decided conds m i) b)
]

abbrev entry_of : List Exit → List ℕ
entry_of [] = []
entry_of (b ∷ bs) = 0 ∷ []

abbrev recover_of : Option ℕ → List ℕ
recover_of none = []
recover_of (some i) = i ∷ []

abbrev pub entries : Func → List ℕ
entries f = entry_of f.blocks ++ recover_of f.recover

-- `reachableBlocks`, with fuel for each block.
unfoldable pub reachable_blocks : Func → List MethodCond → String → List ℕ
reachable_blocks f conds m =
    each (visit (successors f conds m) (suc (length f.blocks))) (entries f) []

unfoldable pub compared_methods : List MethodCond → List String → List String
compared_methods [] out = out
compared_methods (c ∷ cs) out =
    compared_methods cs (if contains out c.method then out else out ++ c.method ∷ [])

-- The methods of a block in the map of a scope.
unfoldable pub methods_at : List (ℕ × List String) → ℕ → List String
methods_at [] i = []
methods_at ((j, ms) ∷ r) i = let rest = methods_at r i in if j == i then ms else rest

unfoldable pub append_at : ℕ → String → List (ℕ × List String) → List (ℕ × List String)
append_at i m [] = (i, m ∷ []) ∷ []
append_at i m ((j, ms) ∷ r) =
    let rest = append_at i m r in if j == i then (j, ms ++ m ∷ []) ∷ r else (j, ms) ∷ rest

unfoldable pub append_blocks : String → List ℕ → List (ℕ × List String) → List (ℕ × List String)
append_blocks m [] r = r
append_blocks m (i ∷ is) r = append_blocks m is (append_at i m r)

unfoldable pub reachable_under :
    Func → List MethodCond → List String → List (ℕ × List String) → List (ℕ × List String)
reachable_under f conds [] r = r
reachable_under f conds (m ∷ ms) r =
    reachable_under f conds ms (append_blocks m (reachable_blocks f conds m) r)

abbrev pub scope_from : Func → List MethodCond → List String → MethodScope
scope_from f conds compared = record {
  compared = compared;
  reachable = reachable_under f conds (compared ++ other_method ∷ []) [];
}

-- What `methodScopes` finds for a function.
unfoldable pub method_scope : Func → Option MethodScope
method_scope f = elim (method_conditions 0 f.blocks) [
  | [] ↦ none
  | c ∷ cs ↦ some (scope_from f (c ∷ cs) (compared_methods (c ∷ cs) []))
]

abbrev with_scope : ℕ → Option MethodScope → List (ℕ × MethodScope) → List (ℕ × MethodScope)
with_scope id none rest = rest
with_scope id (some s) rest = (id, s) ∷ rest

unfoldable pub method_scopes : List Func → List (ℕ × MethodScope)
method_scopes [] = []
method_scopes (f ∷ fs) = with_scope f.id (method_scope f) (method_scopes fs)

abbrev pub unless_all : List String → ℕ → List String
unless_all ms n = if length ms == n then [] else ms

-- `methodScope.methods` of an instruction in a block; the empty list stands for every method.
unfoldable pub methods : Option MethodScope → ℕ → List String
methods none i = []
methods (some s) i = unless_all (methods_at s.reachable i) (length s.compared + 1)
