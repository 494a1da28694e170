-- ===== src/Flow/Branches/Order.antt =====
-- compareBranch (internal/flow/flow.go) is a total order of the branch labels.
use Prim.Native.Nat.{Ordering}
use interactivecodebase.Base.{
  ◌≡◌, refl, ◌⊎◌, inl, inr, String, string_eq, Bool, true, false, Option, none, some, arith,
  Option-cases,
}
use interactivecodebase.Base.Text.{text_le, text_le_total, text_le_trans, text_le_antisymm}
use interactivecodebase.Base.Ints.{ℤ, int_compare, atoi}
use interactivecodebase.Flow.Branches.{text_compare, compare_branch, branch_le}

abbrev int_le : ℤ → ℤ → Bool
int_le a b = elim (int_compare a b) [ Ordering.gt ↦ false | _ ↦ true ]

int_le_total : (a b : ℤ) → (int_le a b ≡ true) ⊎ (int_le b a ≡ true)
unfolding int_compare
int_le_total a b = ground arith

int_le_trans : (a b c : ℤ) → int_le a b ≡ true → int_le b c ≡ true → int_le a c ≡ true
unfolding int_compare
int_le_trans a b c h k = ground arith

-- The order in words: numbers first, by value, then the other labels by their text.
abbrev pub label_le : Option ℤ → Option ℤ → String → String → Bool
label_le (some m) (some n) a b = int_le m n
label_le (some m) none a b = true
label_le none (some n) a b = false
label_le none none a b = text_le a b

label_le_total :
    (p q : Option ℤ) (a b : String) → (label_le p q a b ≡ true) ⊎ (label_le q p b a ≡ true)
label_le_total (some m) (some n) a b = int_le_total m n
label_le_total (some m) none a b = inl refl
label_le_total none (some n) a b = inr refl
label_le_total none none a b = text_le_total a b

label_le_trans :
    (p q r : Option ℤ) (a b c : String)
    → label_le p q a b ≡ true
    → label_le q r b c ≡ true
    → label_le p r a c ≡ true
label_le_trans (some l) (some m) (some n) a b c h k = int_le_trans l m n h k
label_le_trans (some l) q none a b c h k = refl
label_le_trans (some l) none (some n) a b c h k = cc
label_le_trans none (some m) r a b c h k = cc
label_le_trans none none (some n) a b c h k = cc
label_le_trans none none none a b c h k = text_le_trans a b c h k

-- Branch labels that are numbers stand in the order of the numbers and before all others, which
-- stand in the order of their text.
pub branch_le-label : (a b : String) → branch_le a b ≡ label_le (atoi a) (atoi b) a b
unfolding branch_le compare_branch text_compare
branch_le-label a b = elim (Option-cases (atoi a)) [
  | inl e ↦ elim (Option-cases (atoi b)) [
    | inl f ↦
        rw (e, f, branch_le, compare_branch, label_le)
          (ground (arith, text_le_total a b, text_le_antisymm a b))
    | inr (n, f) ↦ rw (e, f, branch_le, compare_branch, label_le) refl
  ]
  | inr (m, e) ↦ elim (Option-cases (atoi b)) [
    | inl f ↦ rw (e, f, branch_le, compare_branch, label_le) refl
    | inr (n, f) ↦ rw (e, f, branch_le, compare_branch, label_le) refl
  ]
]

pub branch_le_total : (a b : String) → (branch_le a b ≡ true) ⊎ (branch_le b a ≡ true)
branch_le_total a b =
    rw (branch_le-label a b, branch_le-label b a) (label_le_total (atoi a) (atoi b) a b)

pub branch_le_trans :
    (a b c : String) → branch_le a b ≡ true → branch_le b c ≡ true → branch_le a c ≡ true
branch_le_trans a b c h k = rw (branch_le-label a c) (
    label_le_trans (atoi a) (atoi b) (atoi c) a b c (rw (branch_le-label a b) at h)
      (rw (branch_le-label b c) at k))
