-- ===== src/Graph/Paths/Visited.antt =====
-- The text of the visited nodes (internal/graph/query.go, column visited) and the list that it spells.
use text.Mathlib.TextLemmas.{nil-append, cons-append, append_assoc}
use text.Mathlib.TextEquality.{Char-path}
use Prim.Native.Char.{code}
use interactivecodebase.Base.{
  ◌≡◌, refl, sym, ap, ap₂, subst, ◌∙◌, inl, inr, String, ◌<>◌, ◌==◌, ==_iff, string_eq, nat_eq,
  Bool, true, false, not, ◌&&◌, List, [], ◌∷◌, ◌++◌, All, In, Bool-cases, arith,
}
use interactivecodebase.Base.Text.{has_prefix, contains_text, contains_text_iff}
use interactivecodebase.Graph.Paths.{separated, enclosed}

-- The text does not have the character 31.
unfoldable pub is_clean : String → Bool
is_clean String.[] = true
is_clean (String.◌∷◌ c s) = not (code c == 31) && is_clean s

abbrev rest_of : List String → String
rest_of [] = ""
rest_of (x ∷ xs) = x <> separated (rest_of xs)

abbrev pub spelled : List String → String
spelled xs = separated (rest_of xs)

pub spelled-last :
    (xs : List String) (y : String) → spelled (xs ++ y ∷ []) ≡ spelled xs <> (y <> separated "")
spelled-last [] y =
    sym
      (cons-append "\u{1f}" "" (y <> separated "") ∙ ap separated (nil-append (y <> separated "")))
spelled-last (x ∷ xs) y =
    ap (λ t. separated (x <> t)) (spelled-last xs y)
    ∙ (ap separated (sym (append_assoc x (spelled xs) (y <> separated "")))
        ∙ sym (cons-append "\u{1f}" (x <> spelled xs) (y <> separated "")))

-- A node of the list is found in the text.
pub contains_text-spelled :
    (xs : List String) (x : String) → In x xs → contains_text (spelled xs) (enclosed x) ≡ true
contains_text-spelled xs x m = (contains_text_iff (spelled xs) (enclosed x)).1 (around xs m)
  where
    around :
        (ys : List String)
        → In x ys
        → (before : String) × (after : String) × (spelled ys ≡ before <> (enclosed x <> after))
    around [] m = absurd m
    around (y ∷ ys) (inl same) = (
      "",
      rest_of ys,
      ap (λ z. separated (z <> spelled ys)) (sym same)
          ∙ sym (
              nil-append (enclosed x <> rest_of ys)
              ∙ (cons-append "\u{1f}" (x <> separated "") (rest_of ys)
                  ∙ ap separated (
                      append_assoc x (separated "") (rest_of ys)
                      ∙ ap (λ t. x <> t)
                          (cons-append "\u{1f}" "" (rest_of ys)
                            ∙ ap separated (nil-append (rest_of ys)))))),
    )
    around (y ∷ ys) (inr later) =
        let (b, a, e) = around ys later in
        (
          separated (y <> b),
          a,
          ap (λ t. separated (y <> t)) e
              ∙ sym (
                  cons-append "\u{1f}" (y <> b) (enclosed x <> a)
                  ∙ ap separated (append_assoc y b (enclosed x <> a))),
        )

prefix_item :
    (y x r : String)
    → is_clean y ≡ true
    → is_clean x ≡ true
    → has_prefix (y <> separated r) (x <> separated "") ≡ true
    → y ≡ x
unfolding has_prefix is_clean
prefix_item String.[] String.[] r cy cx h = refl
prefix_item String.[] (String.◌∷◌ d x) r cy cx h = absurd (
    let k : has_prefix (separated r) (String.◌∷◌ d (x <> separated "")) ≡ true =
      rw (nil-append, cons-append) at h in
    ground arith)
prefix_item (String.◌∷◌ c y) String.[] r cy cx h = absurd (
    let k : has_prefix (String.◌∷◌ c (y <> separated r)) (separated "") ≡ true =
      rw (nil-append, cons-append) at h in
    ground arith)
prefix_item (String.◌∷◌ c y) (String.◌∷◌ d x) r cy cx h =
    let k : has_prefix (String.◌∷◌ c (y <> separated r)) (String.◌∷◌ d (x <> separated "")) ≡ true =
      rw (cons-append, cons-append) at h in
    ap₂ String.◌∷◌ (Char-path c d (ground arith))
      (prefix_item y x r (ground arith) (ground arith) (ground arith))

skip_item :
    (y r p : String)
    → is_clean y ≡ true
    → contains_text (y <> separated r) (separated p) ≡ true
    → contains_text (separated r) (separated p) ≡ true
unfolding contains_text has_prefix is_clean
skip_item String.[] r p cy h =
    subst (λ t. contains_text t (separated p) ≡ true) (nil-append (separated r)) h
skip_item (String.◌∷◌ c y) r p cy h =
    let k : contains_text (String.◌∷◌ c (y <> separated r)) (separated p) ≡ true =
      subst (λ t. contains_text t (separated p) ≡ true) (cons-append c y (separated r)) h in
    skip_item y r p (ground arith) (ground arith)

nothing_left : (x : String) → has_prefix "" (x <> separated "") ≡ false
unfolding has_prefix
nothing_left String.[] = ap (has_prefix "") (nil-append (separated ""))
nothing_left (String.◌∷◌ d x) = ap (has_prefix "") (cons-append d x (separated ""))

not_nothing : (s : String) → (separated s == "") ≡ true → ⊥
not_nothing s h = let e = (==_iff (separated s) "").0 h in cc

nothing_enclosed : (x : String) → contains_text (separated "") (enclosed x) ≡ true → ⊥
unfolding contains_text has_prefix
nothing_enclosed x h = elim (Bool-cases (enclosed x == "")) [
  | inl e ↦ not_nothing (x <> separated "") e
  | inr e ↦ let k = nothing_left x in ground arith
]

-- A clean node that is found in the text of clean nodes is in the list.
pub spelled-In :
    (xs : List String) (x : String)
    → All (λ y. is_clean y ≡ true) xs
    → is_clean x ≡ true
    → contains_text (spelled xs) (enclosed x) ≡ true
    → In x xs
unfolding contains_text has_prefix
spelled-In [] x cs c h = absurd (nothing_enclosed x h)
spelled-In (y ∷ ys) x cs c h =
    elim (Bool-cases (has_prefix (y <> spelled ys) (x <> separated ""))) [
      | inl here ↦ inl (sym (prefix_item y x (rest_of ys) cs.0 c here))
      | inr later ↦ inr (
          spelled-In ys x cs.1 c (skip_item y (rest_of ys) (x <> separated "") cs.0 (ground arith)))
    ]
