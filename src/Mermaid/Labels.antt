-- ===== src/Mermaid/Labels.antt =====
-- Which characters the text of a diagram has (internal/mermaid/mermaid.go, label and ident).
use Prim.Native.Char.{code}
use text.Mathlib.TextLemmas.{nil-append, cons-append}
use interactivecodebase.Base.{
  ℕ, ◌≡◌, refl, ◌∙◌, ap, inl, inr, String, ◌<>◌, ◌==◌, string_eq, nat_eq, Bool, true, false, not,
  ◌&&◌, ◌||◌, Bool-cases, arith,
}
use interactivecodebase.Mermaid.{
  escape, label, is_digit, is_word, squeeze, trim_left, trim_right, named, ident,
}

-- A test of every character.
unfoldable pub all_codes : (ℕ → Bool) → String → Bool
all_codes p String.[] = true
all_codes p (String.◌∷◌ c s) = p (code c) && all_codes p s

all_codes-append :
    (p : ℕ → Bool) (s t : String) → all_codes p (s <> t) ≡ (all_codes p s && all_codes p t)
unfolding all_codes
all_codes-append p String.[] t = ap (all_codes p) (nil-append t)
all_codes-append p (String.◌∷◌ c s) t =
    ap (all_codes p) (cons-append c s t) ∙ ground (arith, all_codes-append p s t)

-- What may stand between the quotes of a label: no quote, line feed or angle bracket.
abbrev pub is_harmless : ℕ → Bool
is_harmless c = not (c == 34 || (c == 10 || (c == 60 || c == 62)))

entities :
    (all_codes is_harmless "#quot;" ≡ true)
    × (all_codes is_harmless " " ≡ true)
    × (all_codes is_harmless "#lt;" ≡ true)
    × (all_codes is_harmless "#gt;" ≡ true)
unfolding all_codes nat_eq native.Mathlib.Decide.ℕ_discrete
entities = (refl, refl, refl, refl)

escape-harmless :
    (c : ℕ) (this : String)
    → (is_harmless c ≡ true → all_codes is_harmless this ≡ true)
    → all_codes is_harmless (escape c this) ≡ true
unfolding escape
escape-harmless c this h = elim (Bool-cases (c == 34)) [
  | inl e ↦ rw e entities.0
  | inr n1 ↦ elim (Bool-cases (c == 10)) [
    | inl e ↦ rw (n1, e) entities.1
    | inr n2 ↦ elim (Bool-cases (c == 60)) [
      | inl e ↦ rw (n1, n2, e) entities.2
      | inr n3 ↦ elim (Bool-cases (c == 62)) [
        | inl e ↦ rw (n1, n2, n3, e) entities.3
        | inr n4 ↦ rw (n1, n2, n3, n4) (h (rw (n1, n2, n3, n4) refl))
      ]
    ]
  ]
]

harmless_label : (s : String) → all_codes is_harmless (label s) ≡ true
unfolding label all_codes
harmless_label String.[] = refl
harmless_label (String.◌∷◌ c s) =
    let here = escape-harmless (code c) (String.◌∷◌ c String.[]) (λ h. ground arith) in
    all_codes-append is_harmless (escape (code c) (String.◌∷◌ c String.[])) (label s)
    ∙ ground (arith, harmless_label s)

escape_same : (c : ℕ) (this : String) → is_harmless c ≡ true → escape c this ≡ this
unfolding escape
escape_same c this h = ground arith

label_same : (s : String) → all_codes is_harmless s ≡ true → label s ≡ s
unfolding label all_codes
label_same String.[] h = refl
label_same (String.◌∷◌ c s) h =
    ap (λ t. t <> label s) (escape_same (code c) (String.◌∷◌ c String.[]) (ground arith))
    ∙ (cons-append c String.[] (label s)
        ∙ ap (String.◌∷◌ c) (nil-append (label s) ∙ label_same s (ground arith)))

-- The text of a label has no quote, line feed or angle bracket, and a text without these is its own label.
pub label_harmless :
    (s : String)
    → (all_codes is_harmless (label s) ≡ true) × (all_codes is_harmless s ≡ true → label s ≡ s)
label_harmless s = (harmless_label s, label_same s)

underscore-cons : (t : String) → "_" <> t ≡ String.◌∷◌ "_" t
underscore-cons t = cons-append "_" String.[] t ∙ ap (String.◌∷◌ "_") (nil-append t)

underscore-word : is_word 95 ≡ true
unfolding is_word nat_eq native.Mathlib.Decide.ℕ_discrete
underscore-word = refl

underscore-all : (t : String) → all_codes is_word ("_" <> t) ≡ all_codes is_word t
unfolding all_codes
underscore-all t = ap (all_codes is_word) (underscore-cons t) ∙ rw underscore-word refl

squeeze-word : (in_run : Bool) (s : String) → all_codes is_word (squeeze in_run s) ≡ true
unfolding squeeze all_codes
squeeze-word in_run String.[] = refl
squeeze-word in_run (String.◌∷◌ c s) = elim (Bool-cases (is_word (code c))) [
  | inl word ↦ rw word (rw word (squeeze-word false s))
  | inr other ↦ elim (Bool-cases in_run) [
    | inl inside ↦ rw (other, inside) (squeeze-word true s)
    | inr outside ↦ rw (other, outside) (underscore-all (squeeze true s) ∙ squeeze-word true s)
  ]
]

trim_left-all :
    (p : ℕ → Bool) (s : String) → all_codes p s ≡ true → all_codes p (trim_left s) ≡ true
unfolding trim_left all_codes
trim_left-all p String.[] h = refl
trim_left-all p (String.◌∷◌ c s) h = ground (arith, trim_left-all p s)

trim_right-all :
    (p : ℕ → Bool) (s : String) → all_codes p s ≡ true → all_codes p (trim_right s) ≡ true
unfolding trim_right all_codes
trim_right-all p String.[] h = refl
trim_right-all p (String.◌∷◌ c s) h = ground (arith, trim_right-all p s)

-- An identifier of Mermaid: word characters, the first of them no digit.
unfoldable pub is_identifier : String → Bool
is_identifier String.[] = false
is_identifier (String.◌∷◌ c s) = not (is_digit (code c)) && all_codes is_word (String.◌∷◌ c s)

x_identifier : is_identifier "x" ≡ true
unfolding is_identifier all_codes is_word nat_eq native.Mathlib.Decide.ℕ_discrete
x_identifier = refl

underscore-first : (t : String) → is_identifier (String.◌∷◌ "_" t) ≡ all_codes is_word t
unfolding is_identifier all_codes
underscore-first t = rw underscore-word refl

named-identifier : (s : String) → all_codes is_word s ≡ true → is_identifier (named s) ≡ true
unfolding is_identifier all_codes
named-identifier String.[] h = x_identifier
named-identifier (String.◌∷◌ c s) h = elim (Bool-cases (is_digit (code c))) [
  | inl digit ↦
      rw digit (
        ap is_identifier (underscore-cons (String.◌∷◌ c s)) ∙ underscore-first (String.◌∷◌ c s) ∙ h)
  | inr letter ↦ rw letter (rw letter h)
]

-- Every text is turned into an identifier.
pub ident_valid : (s : String) → is_identifier (ident s) ≡ true
unfolding ident
ident_valid s =
    let words = squeeze-word false s in
    named-identifier (trim_right (trim_left (squeeze false s))) (
      trim_right-all is_word (trim_left (squeeze false s))
        (trim_left-all is_word (squeeze false s) words))
