-- ===== src/Analysis/Navigation/Redirecting.antt =====
-- The functions that redirect (internal/analysis/navigation.go, redirectingFuncs).
use interactivecodebase.Base.{
  ℕ, ◌==◌, string_eq, nat_eq, Bool, true, false, not, ◌&&◌, Option, none, some, List, [], ◌∷◌, any,
  contains, In, ◌≡◌, refl, sym, ◌∙◌, inl, inr, ◌⊎◌, arith, Bool-cases, if◌then◌else◌,
}
use interactivecodebase.Analysis.Navigation.{
  Callee, Call, Instr, call, other_instr, Func, redirects, instr_redirects, func_redirects,
  one_round,
}

-- A function has a call, in one of its blocks.
abbrev pub Calls : Func → Call → Type 0
Calls f c = (b : List Instr) × In b f.blocks × In (call c) b

-- A function of the module redirects if it has a call that redirects by itself, or a call of a function
-- that redirects.
pub data Redirects (own : List Func) : ℕ → Type 0 where
  by_itself :
      (i : ℕ) (f : Func) (c : Call)
      → In f own
      → f.id ≡ i
      → Calls f c
      → redirects [] c ≡ true
      → Redirects own i
  through :
      (i : ℕ) (f : Func) (c : Call) (g : Callee)
      → In f own
      → f.id ≡ i
      → Calls f c
      → c.callee ≡ some g
      → Redirects own g.id
      → Redirects own i

any_In :
    {A : Type 0} (p : A → Bool) (xs : List A) → any p xs ≡ true → (x : A) × In x xs × (p x ≡ true)
unfolding any
any_In p [] h = cc
any_In p (x ∷ xs) h = elim (Bool-cases (p x)) [
  | inl yes_here ↦ (x, inl refl, yes_here)
  | inr no_here ↦ let (y, m, q) = any_In p xs (ground arith) in (y, inr m, q)
]

In_any : {A : Type 0} (p : A → Bool) (x : A) (xs : List A) → In x xs → p x ≡ true → any p xs ≡ true
unfolding any
In_any p x [] m q = absurd m
In_any p x (y ∷ xs) (inl e) q = ground arith
In_any p x (y ∷ xs) (inr m) q = ground (arith, In_any p x xs m q)

-- A function that a round finds has a call that redirects.
found_call :
    (out : List ℕ) (f : Func)
    → func_redirects out f ≡ true
    → (c : Call) × Calls f c × (redirects out c ≡ true)
unfolding func_redirects instr_redirects
found_call out f h =
    let (b, in_blocks, some_instr) = any_In (any (instr_redirects out)) f.blocks h in
    let (instr, in_block, q) = any_In (instr_redirects out) b some_instr in
    of_instr b in_blocks instr in_block q
  where
    of_instr :
        (b : List Instr)
        → In b f.blocks
        → (instr : Instr) → In instr b
        → instr_redirects out instr ≡ true
        → (c : Call) × Calls f c × (redirects out c ≡ true)
    of_instr b in_blocks (call c) in_block q = (c, (b, in_blocks, in_block), q)
    of_instr b in_blocks other_instr in_block q = cc

pub call_found :
    (out : List ℕ) (f : Func) (c : Call)
    → Calls f c
    → redirects out c ≡ true
    → func_redirects out f ≡ true
unfolding func_redirects instr_redirects
call_found out f c (b, in_blocks, in_block) q =
    In_any (any (instr_redirects out)) b f.blocks in_blocks
      (In_any (instr_redirects out) (call c) b in_block q)

-- A call that redirects does so by itself, or calls a function that was found.
redirects_cases :
    (out : List ℕ) (c : Call)
    → redirects out c ≡ true
    → (redirects [] c ≡ true) ⊎ ((g : Callee) × (c.callee ≡ some g) × (contains out g.id ≡ true))
unfolding redirects contains
redirects_cases out c h = by_callee c.callee refl
  where
    by_callee :
        (o : Option Callee)
        → c.callee ≡ o
        → (redirects [] c ≡ true)
          ⊎ ((g : Callee) × (c.callee ≡ some g) × (contains out g.id ≡ true))
    by_callee none e = ground arith
    by_callee (some g) e = elim (Bool-cases (contains out g.id)) [
      | inl known ↦ inr (g, e, known)
      | inr new ↦ inl (ground arith)
    ]

pub grow_redirects : (out : List ℕ) (c : Call) → redirects [] c ≡ true → redirects out c ≡ true
unfolding redirects contains
grow_redirects out c h = ground arith

pub redirects_through :
    (out : List ℕ) (c : Call) (g : Callee)
    → c.callee ≡ some g
    → contains out g.id ≡ true
    → redirects out c ≡ true
unfolding redirects
redirects_through out c g e h = ground arith

-- Every function that is found redirects.
abbrev pub IsSound : List Func → List ℕ → Type 0
IsSound own out = (i : ℕ) → contains out i ≡ true → Redirects own i

step-IsSound :
    (own : List Func) (f : Func) (out : List ℕ)
    → In f own
    → IsSound own out
    → func_redirects out f ≡ true
    → IsSound own (f.id ∷ out)
unfolding contains
step-IsSound own f out m sound h i k = elim (Bool-cases (f.id == i)) [
  | inl same ↦
      let (c, has, q) = found_call out f h in
      elim (redirects_cases out c q) [
        | inl alone ↦ by_itself i f c m (ground arith) has alone
        | inr (g, e, known) ↦ through i f c g m (ground arith) has e (sound g.id known)
      ]
  | inr other ↦ sound i (ground arith)
]

abbrev pub Part : List Func → List Func → Type 0
Part fs own = (f : Func) → In f fs → In f own

pub one_round-IsSound :
    (own fs : List Func) (out : List ℕ) (changed : Bool)
    → Part fs own
    → IsSound own out
    → IsSound own (one_round fs out changed).0
unfolding one_round
one_round-IsSound own [] out changed part sound = sound
one_round-IsSound own (f ∷ fs) out changed part sound =
    one_round-IsSound own fs _ _ (λ g m. part g (inr m))
      (step (not (contains out f.id) && func_redirects out f) refl)
  where
    step :
        (is_new : Bool)
        → (not (contains out f.id) && func_redirects out f) ≡ is_new
        → IsSound own (if is_new then f.id ∷ out else out)
    step true e = step-IsSound own f out (part f (inl refl)) sound (ground arith)
    step false e = sound

-- A round that changes nothing has seen no new function.
pub still_changed : (fs : List Func) (out : List ℕ) → (one_round fs out true).1 ≡ true
unfolding one_round
still_changed [] out = refl
still_changed (f ∷ fs) out = still_changed fs _

abbrev pub IsClosed : List Func → List ℕ → Type 0
IsClosed own out = (f : Func) → In f own → func_redirects out f ≡ true → contains out f.id ≡ true

pub unchanged :
    (fs : List Func) (out : List ℕ)
    → (one_round fs out false).1 ≡ false
    → ((one_round fs out false).0 ≡ out) × IsClosed fs out
unfolding one_round
unchanged [] out h = (refl, λ f m. absurd m)
unchanged (f ∷ fs) out h =
    by_test (unchanged fs out) (not (contains out f.id) && func_redirects out f) refl h
  where
    by_test :
        ((one_round fs out false).1 ≡ false → ((one_round fs out false).0 ≡ out) × IsClosed fs out)
        → (is_new : Bool) → (not (contains out f.id) && func_redirects out f) ≡ is_new
        → (one_round fs (if is_new then f.id ∷ out else out) is_new).1 ≡ false
        → ((one_round fs (if is_new then f.id ∷ out else out) is_new).0 ≡ out)
          × IsClosed (f ∷ fs) out
    by_test rest true e k = absurd (true-ne-false (sym (still_changed fs (f.id ∷ out)) ∙ k))
      where
        true-ne-false : true ≡ false → ⊥
        true-ne-false q = cc
    by_test rest false e k =
        let (same, closed) = rest k in
        (same, λ g m q. elim m [ inl here ↦ ground arith | inr later ↦ closed g later q ])
