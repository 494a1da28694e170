-- ===== src/Analysis/Methods/Scopes.antt =====
-- What a scope says of a block (internal/analysis/methods.go, methodScopes).
use mathlib.Core.List.{append-nil, append_assoc}
use interactivecodebase.Base.{
  ℕ, zero, suc, ◌+◌, ◌≡◌, refl, sym, ap, subst, ◌∙◌, ◌↔◌, String, ◌==◌, string_eq, nat_eq, Bool,
  true, false, ◌||◌, Option, none, some, List, [], ◌∷◌, ◌++◌, contains, contains_iff, length, keep,
  In, arith, if◌then◌else◌, Bool-cases, inl, inr,
}
use interactivecodebase.Base.Distinct.{IsDistinct}
use interactivecodebase.Base.Visit.Reached.{IsKnown, Reached}
use interactivecodebase.Base.Visit.Complete.{each-visit_iff}
use interactivecodebase.Analysis.Methods.{
  Exit, Func, MethodCond, block_at, successors, entries, reachable_blocks, methods_at, append_at,
  append_blocks, reachable_under,
}

-- The numbers of the blocks, from one on.
abbrev indices : ℕ → List Exit → List ℕ
indices k [] = []
indices k (b ∷ bs) = k ∷ indices (suc k) bs

length-indices : (k : ℕ) (bs : List Exit) → length (indices k bs) ≡ length bs
length-indices k [] = refl
length-indices k (b ∷ bs) = ap suc (length-indices (suc k) bs)

indices_all :
    (k : ℕ) (bs : List Exit) (i : ℕ) (b : Exit) → block_at bs i ≡ some b → In (k + i) (indices k bs)
unfolding block_at
indices_all k [] i b h = cc
indices_all k (c ∷ bs) zero b h = inl (omega arith)
indices_all k (c ∷ bs) (suc i) b h =
    inr (subst (λ j. In j (indices (suc k) bs)) (omega arith) (indices_all (suc k) bs i b h))

pub block_known :
    (f : Func) (conds : List MethodCond) (m : String) (i : ℕ)
    → IsKnown (successors f conds m) i
    → (b : Exit) × (block_at f.blocks i ≡ some b)
unfolding successors
block_known f conds m i (ys, e) = by_block (block_at f.blocks i) refl
  where
    by_block :
        (o : Option Exit) → block_at f.blocks i ≡ o → (b : Exit) × (block_at f.blocks i ≡ some b)
    by_block none k = ground arith
    by_block (some b) k = (b, k)

-- The search ends, having found the blocks that are reached, each once.
pub reachable_blocks_iff :
    (f : Func) (conds : List MethodCond) (m : String)
    → IsDistinct (reachable_blocks f conds m)
      × ((i : ℕ) → In i (reachable_blocks f conds m) ↔ Reached (successors f conds m) (entries f) i)
unfolding reachable_blocks
reachable_blocks_iff f conds m =
    each-visit_iff (successors f conds m) (indices 0 f.blocks)
      (λ i k.
        let (b, e) = block_known f conds m i k in
        subst (λ j. In j (indices 0 f.blocks)) (omega arith) (indices_all 0 f.blocks i b e))
      (suc (length f.blocks)) (entries f) (omega (arith, length-indices 0 f.blocks))

abbrev one_if : Bool → String → List String
one_if b m = if b then m ∷ [] else []

methods_at-append_at :
    (i j : ℕ) (m : String) (r : List (ℕ × List String))
    → methods_at (append_at i m r) j ≡ methods_at r j ++ one_if (i == j) m
unfolding methods_at append_at
methods_at-append_at i j m [] = ground arith
methods_at-append_at i j m ((k, ms) ∷ r) =
    ground (arith, methods_at-append_at i j m r, append-nil ms, append-nil (methods_at r j))

methods_at-append_blocks :
    (m : String) (is : List ℕ) (r : List (ℕ × List String)) (j : ℕ)
    → IsDistinct is
    → methods_at (append_blocks m is r) j ≡ methods_at r j ++ one_if (contains is j) m
unfolding append_blocks contains
methods_at-append_blocks m [] r j d = sym (append-nil (methods_at r j))
methods_at-append_blocks m (i ∷ is) r j d =
    methods_at-append_blocks m is (append_at i m r) j d.1
    ∙ (ap (λ ms. ms ++ one_if (contains is j) m) (methods_at-append_at i j m r)
        ∙ (append_assoc (methods_at r j) (one_if (i == j) m) (one_if (contains is j) m)
            ∙ ap (λ ms. methods_at r j ++ ms) joined))
  where
    joined : one_if (i == j) m ++ one_if (contains is j) m ≡ one_if (j == i || contains is j) m
    joined = elim (Bool-cases (contains is j)) [
      | inl there ↦
          let first : (i == j) ≡ true → ⊥ = λ h.
            let same : i ≡ j = ground arith in
            d.0 (subst (λ x. In x is) (sym same) ((contains_iff is j).0 there)) in
          ground arith
      | inr absent ↦ ground arith
    ]

-- The methods of a block are those under which it is reached, in their order.
pub methods_at-reachable_under :
    (f : Func) (conds : List MethodCond) (ms : List String) (r : List (ℕ × List String)) (i : ℕ)
    → methods_at (reachable_under f conds ms r) i
      ≡ methods_at r i ++ keep (λ m. contains (reachable_blocks f conds m) i) ms
unfolding reachable_under keep
methods_at-reachable_under f conds [] r i = sym (append-nil (methods_at r i))
methods_at-reachable_under f conds (m ∷ ms) r i =
    methods_at-reachable_under f conds ms (append_blocks m (reachable_blocks f conds m) r) i
    ∙ (ap (λ xs. xs ++ keep (λ n. contains (reachable_blocks f conds n) i) ms)
          (methods_at-append_blocks m (reachable_blocks f conds m) r i
            (reachable_blocks_iff f conds m).0)
        ∙ (append_assoc (methods_at r i) _ _
            ∙ ap (λ xs. methods_at r i ++ xs) (by_test (contains (reachable_blocks f conds m) i))))
  where
    by_test :
        (b : Bool)
        → one_if b m ++ keep (λ n. contains (reachable_blocks f conds n) i) ms ≡ (
            if b
            then m ∷ keep (λ n. contains (reachable_blocks f conds n) i) ms
            else keep (λ n. contains (reachable_blocks f conds n) i) ms)
    by_test true = refl
    by_test false = refl
