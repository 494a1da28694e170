-- ===== src/Base/Text.antt =====
-- Text, for the functions of package strings and the orders that the program uses. Characters are
-- compared by code point, which for valid UTF-8 is the order of the bytes.
use Prim.Native.Char.{Char, code}
use Prim.Native.Nat.{ℕ, zero, suc, ◌/◌, ◌%◌, compare, Ordering}
use Prim.Native.String.{String, ◌++◌ as ◌<>◌}
use mathlib.Core.Path.{◌≡◌, refl, sym, ap, ap₂, ◌∙◌}
use mathlib.Core.Logic.{◌⊎◌, inl, inr, ◌↔◌, ◌≢◌}
use mathlib.Core.Bool.{Bool, true, false, ◌&&◌, ◌||◌}
use mathlib.Core.List.{List, [], ◌∷◌}
use mathlib.Core.Option.{Option, none, some}
use native.Mathlib.Decide.{ℕ_discrete}
use native.Mathlib.Omega.{arith}
use text.Mathlib.TextLemmas.{nil-append, cons-append}
use text.Mathlib.TextEquality.{Char-path}
use interactivecodebase.Base.Equality.{==_iff, Bool-cases, ◌==◌, string_eq, nat_eq, if◌then◌else◌}
use interactivecodebase.Base.Tests.{ltb, leb}

-- `a <= b` on texts, as ORDER BY, `cmp.Compare` and `slices.Sort` order them.
unfoldable pub text_le : String → String → Bool
text_le String.[] t = true
text_le (String.◌∷◌ c s) String.[] = false
text_le (String.◌∷◌ c s) (String.◌∷◌ d t) = elim (compare (code c) (code d)) [
  | Ordering.lt ↦ true
  | Ordering.eq ↦ text_le s t
  | Ordering.gt ↦ false
]

pub text_le_total : (s t : String) → (text_le s t ≡ true) ⊎ (text_le t s ≡ true)
unfolding text_le
text_le_total String.[] t = inl refl
text_le_total (String.◌∷◌ c s) String.[] = inr refl
text_le_total (String.◌∷◌ c s) (String.◌∷◌ d t) = ground (arith, text_le_total s t)

pub text_le_trans : (s t u : String) → text_le s t ≡ true → text_le t u ≡ true → text_le s u ≡ true
unfolding text_le
text_le_trans String.[] t u h k = refl
text_le_trans (String.◌∷◌ c s) String.[] u h k = cc
text_le_trans (String.◌∷◌ c s) (String.◌∷◌ d t) String.[] h k = cc
text_le_trans (String.◌∷◌ c s) (String.◌∷◌ d t) (String.◌∷◌ e u) h k =
    ground (arith, text_le_trans s t u)

pub text_le_antisymm : (s t : String) → text_le s t ≡ true → text_le t s ≡ true → s ≡ t
unfolding text_le
text_le_antisymm String.[] String.[] h k = refl
text_le_antisymm String.[] (String.◌∷◌ d t) h k = cc
text_le_antisymm (String.◌∷◌ c s) String.[] h k = cc
text_le_antisymm (String.◌∷◌ c s) (String.◌∷◌ d t) h k =
    ap₂ String.◌∷◌ (Char-path c d (ground arith))
      (text_le_antisymm s t (ground arith) (ground arith))

-- `strings.HasPrefix`
unfoldable pub has_prefix : String → String → Bool
has_prefix s String.[] = true
has_prefix String.[] (String.◌∷◌ d p) = false
has_prefix (String.◌∷◌ c s) (String.◌∷◌ d p) = code c == code d && has_prefix s p

-- `strings.HasSuffix`
unfoldable pub has_suffix : String → String → Bool
has_suffix String.[] p = "" == p
has_suffix (String.◌∷◌ c s) p = String.◌∷◌ c s == p || has_suffix s p

-- `strings.Contains`
unfoldable pub contains_text : String → String → Bool
contains_text String.[] t = t == ""
contains_text (String.◌∷◌ c s) t = has_prefix (String.◌∷◌ c s) t || contains_text s t

-- `strings.ReplaceAll` of a text of `suc rest` characters; `skip` of them are still to be left out.
unfoldable pub replace_from : ℕ → ℕ → String → String → String → String
replace_from rest skip old new String.[] = ""
replace_from rest (suc skip) old new (String.◌∷◌ c s) = replace_from rest skip old new s
replace_from rest zero old new (String.◌∷◌ c s) =
    let found = new <> replace_from rest rest old new s in
    let other = String.◌∷◌ c (replace_from rest zero old new s) in
    if has_prefix (String.◌∷◌ c s) old then found else other

abbrev push_char : Char → List String → List String
push_char c [] = String.◌∷◌ c String.[] ∷ []
push_char c (w ∷ ws) = String.◌∷◌ c w ∷ ws

-- `strings.Split` by one character.
unfoldable pub split : ℕ → String → List String
split sep String.[] = "" ∷ []
split sep (String.◌∷◌ c s) =
    let rest = split sep s in if code c == sep then "" ∷ rest else push_char c rest

-- The last decimal digit.
unfoldable pub digit : ℕ → String
digit n =
    if n == 0
    then "0"
    else if n == 1
    then "1"
    else if n == 2
    then "2"
    else if n == 3
    then "3"
    else if n == 4
    then "4"
    else if n == 5
    then "5"
    else if n == 6
    then "6"
    else if n == 7
    then "7"
    else if n == 8
    then "8"
    else "9"

-- `strconv.Itoa` of a number that is not negative. A number has at most as many digits as itself
-- plus one, so the fuel never runs out.
unfoldable pub decimal_fuel : ℕ → ℕ → String
decimal_fuel zero n = ""
decimal_fuel (suc f) n =
    let front = decimal_fuel f (n / 10) in if ltb n 10 then digit n else front <> digit (n % 10)

unfoldable pub decimal : ℕ → String
unfolding decimal_fuel digit
decimal n = decimal_fuel (suc n) n

-- `strings.CutPrefix(s, prefix)`
unfoldable pub cut_prefix : String → String → Option String
cut_prefix s String.[] = some s
cut_prefix String.[] (String.◌∷◌ d p) = none
cut_prefix (String.◌∷◌ c s) (String.◌∷◌ d p) =
    let rest = cut_prefix s p in if code c == code d then rest else none

some-inj : {A : Type 0} {a b : A} → some a ≡ some b → a ≡ b
some-inj h = cc

nil-ne-cons : {c : Char} {s : String} → String.[] ≢ String.◌∷◌ c s
nil-ne-cons h = cc

head_eq : {c d : Char} {s t : String} → String.◌∷◌ c s ≡ String.◌∷◌ d t → c ≡ d
head_eq h = cc

tail_eq : {c d : Char} {s t : String} → String.◌∷◌ c s ≡ String.◌∷◌ d t → s ≡ t
tail_eq h = cc

-- Cutting succeeds just on the texts that start with the prefix, and leaves what follows it.
pub cut_prefix_iff : (s p r : String) → (cut_prefix s p ≡ some r) ↔ (s ≡ p <> r)
unfolding cut_prefix
cut_prefix_iff s String.[] r =
    (λ h. some-inj h ∙ sym (nil-append r), λ h. ap some (h ∙ nil-append r))
cut_prefix_iff String.[] (String.◌∷◌ d p) r =
    (λ h. cc, λ h. absurd (nil-ne-cons (h ∙ cons-append d p r)))
cut_prefix_iff (String.◌∷◌ c s) (String.◌∷◌ d p) r = elim (ℕ_discrete (code c) (code d)) [
  | yes same ↦ (
    λ h.
        ap₂ String.◌∷◌ (Char-path c d same) ((cut_prefix_iff s p r).0 (ground arith))
        ∙ sym (cons-append d p r),
    λ h. let rest = (cut_prefix_iff s p r).1 (tail_eq (h ∙ cons-append d p r)) in ground arith,
  )
  | no differ ↦
      (λ h. ground arith, λ h. absurd (differ (ap code (head_eq (h ∙ cons-append d p r)))))
]

-- A text contains another just if that stands somewhere in it.
has_prefix_iff : (s p : String) → (has_prefix s p ≡ true) ↔ ((r : String) × (s ≡ p <> r))
unfolding has_prefix
has_prefix_iff s String.[] = (λ h. (s, sym (nil-append s)), λ h. refl)
has_prefix_iff String.[] (String.◌∷◌ d p) =
    (λ h. cc, λ (r, h). absurd (nil-ne-cons (h ∙ cons-append d p r)))
has_prefix_iff (String.◌∷◌ c s) (String.◌∷◌ d p) = (
  λ h.
      let (r, e) = (has_prefix_iff s p).0 (ground arith) in
      let same : code c ≡ code d = ground arith in
      (r, ap₂ String.◌∷◌ (Char-path c d same) e ∙ sym (cons-append d p r)),
  λ (r, h).
      let rest = (has_prefix_iff s p).1 (r, tail_eq (h ∙ cons-append d p r)) in
      let same : code c ≡ code d = ap code (head_eq (h ∙ cons-append d p r)) in ground arith,
)

nothing_around : (t a b : String) → String.[] ≡ a <> (t <> b) → t ≡ String.[]
nothing_around String.[] a b h = refl
nothing_around (String.◌∷◌ d t) String.[] b h =
    absurd (nil-ne-cons (h ∙ (nil-append (String.◌∷◌ d t <> b) ∙ cons-append d t b)))
nothing_around (String.◌∷◌ d t) (String.◌∷◌ c a) b h =
    absurd (nil-ne-cons (h ∙ cons-append c a (String.◌∷◌ d t <> b)))

at_front_or_later :
    (c : Char) (s t a b : String)
    → String.◌∷◌ c s ≡ a <> (t <> b)
    → (has_prefix (String.◌∷◌ c s) t ≡ true) ⊎ ((before : String) × (s ≡ before <> (t <> b)))
at_front_or_later c s t String.[] b h =
    inl ((has_prefix_iff (String.◌∷◌ c s) t).1 (b, h ∙ nil-append (t <> b)))
at_front_or_later c s t (String.◌∷◌ d a) b h = inr (a, tail_eq (h ∙ cons-append d a (t <> b)))

pub contains_text_iff :
    (s t : String)
    → (contains_text s t ≡ true)
      ↔ ((before : String) × (after : String) × (s ≡ before <> (t <> after)))
unfolding contains_text
contains_text_iff String.[] t = (
  λ h.
      let same : t ≡ String.[] = (==_iff t String.[]).0 h in
      (
        String.[],
        String.[],
        sym (nil-append (t <> String.[]) ∙ (ap (λ x. x <> String.[]) same ∙ nil-append String.[])),
      ),
  λ (a, b, h). (==_iff t String.[]).1 (nothing_around t a b h),
)
contains_text_iff (String.◌∷◌ c s) t = (
  λ h. elim (Bool-cases (has_prefix (String.◌∷◌ c s) t)) [
    | inl here ↦
        let (r, e) = (has_prefix_iff (String.◌∷◌ c s) t).0 here in
        (String.[], r, e ∙ sym (nil-append (t <> r)))
    | inr later ↦
        let (a, b, e) = (contains_text_iff s t).0 (ground arith) in
        (String.◌∷◌ c a, b, ap (String.◌∷◌ c) e ∙ sym (cons-append c a (t <> b)))
  ],
  λ (a, b, h). elim (at_front_or_later c s t a b h) [
    | inl here ↦ ground arith
    | inr (before, e) ↦ let later = (contains_text_iff s t).1 (before, b, e) in ground arith
  ],
)

-- The codes of the characters.
unfoldable pub code_units : String → List ℕ
code_units String.[] = []
code_units (String.◌∷◌ c s) = code c ∷ code_units s

unfoldable pub is_blank : ℕ → Bool
is_blank c = c == 32 || (leb 9 c && leb c 13)

unfoldable pub trim_left : String → String
trim_left String.[] = ""
trim_left (String.◌∷◌ c s) =
    let rest = trim_left s in if is_blank (code c) then rest else String.◌∷◌ c s

unfoldable pub trim_right : String → String
trim_right String.[] = ""
trim_right (String.◌∷◌ c s) =
    let rest = trim_right s in if rest == "" && is_blank (code c) then "" else String.◌∷◌ c rest

-- `strings.TrimSpace`, for blanks in ASCII.
unfoldable pub trim_space : String → String
trim_space s = trim_right (trim_left s)
