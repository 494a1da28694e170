-- ===== src/Lsp/Frames/Headers.antt =====
-- The header of a frame is read back (internal/lsp/lsp.go).
use Prim.Native.Char.{code, Char}
use text.Mathlib.TextLemmas.{nil-append, cons-append, append-nil, append_assoc}
use interactivecodebase.Base.{
  ℕ, ◌≡◌, ◌≢◌, refl, sym, ap, ◌∙◌, String, ◌<>◌, nat_eq, string_eq, false, none, some, arith,
  length,
}
use interactivecodebase.Base.Text.{cut_prefix, cut_prefix_iff}
use interactivecodebase.Base.Ints.{ℤ, pos, atoi}
use interactivecodebase.Lsp.Frames.{length_key, header_length, read_header, or_zero}
use interactivecodebase.Base.Text.{is_blank, trim_left, trim_right, trim_space}
use interactivecodebase.Lsp.Frames.Numbers.{IsDigits, Numeral, append_ne}

-- A text in one line.
abbrev IsLine : String → Type 0
IsLine String.[] = Unit
IsLine (String.◌∷◌ c s) = (code c ≢ 10) × IsLine s

digits-IsLine : (s t : String) → IsDigits s → IsLine t → IsLine (s <> t)
digits-IsLine String.[] t d h = rw nil-append h
digits-IsLine (String.◌∷◌ c s) t d h =
    rw (cons-append c s t) (λ e. absurd (omega arith), digits-IsLine s t d.2 h)

-- The characters of a line are gathered.
gather_one :
    (c : Char) (line : String) (length : ℤ) (s : String)
    → code c ≢ 10
    → read_header line length (String.◌∷◌ c s) ≡ read_header (line <> String.◌∷◌ c "") length s
unfolding read_header
gather_one c line length s h = ground arith

gather :
    (w line : String) (length : ℤ) (s : String)
    → IsLine w
    → read_header line length (w <> s) ≡ read_header (line <> w) length s
gather String.[] line length s h =
    ap (read_header line length) (nil-append s)
    ∙ ap (λ l. read_header l length s) (sym (append-nil line))
gather (String.◌∷◌ c w) line length s h =
    ap (read_header line length) (cons-append c w s)
    ∙ gather_one c line length (w <> s) h.0
    ∙ gather w (line <> String.◌∷◌ c "") length s h.1
    ∙ ap (λ l. read_header l length s)
        (append_assoc line (String.◌∷◌ c "") w
          ∙ ap (λ t. line <> t) (cons-append c "" w ∙ ap (String.◌∷◌ c) (nil-append w)))

trim_right-append : (p x : String) → trim_right x ≢ "" → trim_right (p <> x) ≡ p <> trim_right x
unfolding trim_right
trim_right-append String.[] x h = ap trim_right (nil-append x) ∙ sym (nil-append (trim_right x))
trim_right-append (String.◌∷◌ c p) x h =
    let rest = trim_right-append p x h in
    let solid = append_ne p (trim_right x) h in
    rw (cons-append c p x, cons-append c p (trim_right x)) (ground arith)

trim_right_digits : (s : String) → IsDigits s → (trim_right s ≡ s) × (trim_right (s <> "\r") ≡ s)
unfolding trim_right is_blank string_eq nat_eq native.Mathlib.Decide.ℕ_discrete
trim_right_digits String.[] d = (refl, refl)
trim_right_digits (String.◌∷◌ c s) d =
    let (alone, before) = trim_right_digits s d.2 in
    (ground arith, rw (cons-append c s "\r") (ground arith))

trim_left_digits : (s : String) → IsDigits s → trim_left s ≡ s
unfolding trim_left is_blank
trim_left_digits String.[] d = refl
trim_left_digits (String.◌∷◌ c s) d = ground arith

abbrev pub key_line : String → String
key_line d = length_key <> (" " <> d)

trim_left_solid :
    (c : Char) (s : String)
    → is_blank (code c) ≡ false
    → trim_left (String.◌∷◌ c s) ≡ String.◌∷◌ c s
unfolding trim_left
trim_left_solid c s h = rw h

trim_left_key : (x : String) → trim_left (length_key <> x) ≡ length_key <> x
unfolding is_blank
trim_left_key x =
    let cons_form : length_key <> x ≡ String.◌∷◌ "C" ("ontent-Length:" <> x) =
      cons-append "C" "ontent-Length:" x in
    ap trim_left cons_form
    ∙ trim_left_solid "C" ("ontent-Length:" <> x) (ground arith)
    ∙ sym cons_form

trim_key_line : (d : String) → Numeral d → trim_space (key_line (d <> "\r")) ≡ key_line d
unfolding trim_space
trim_key_line d (digits, solid) =
    let ends = (trim_right_digits d digits).1 in
    let inner : trim_right (" " <> (d <> "\r")) ≡ " " <> d =
      trim_right-append " " (d <> "\r") (rw ends solid) ∙ ap (λ t. " " <> t) ends in
    ap trim_right (trim_left_key (" " <> (d <> "\r")))
    ∙ trim_right-append length_key (" " <> (d <> "\r")) (rw inner (append_ne " " d solid))
    ∙ ap (λ t. length_key <> t) inner

trim_left_space : (d : String) → trim_left (String.◌∷◌ " " d) ≡ trim_left d
unfolding trim_left is_blank
trim_left_space d = ground arith

trim_value : (d : String) → Numeral d → trim_space (" " <> d) ≡ d
unfolding trim_space
trim_value d (digits, solid) =
    ap (λ t. trim_right (trim_left t)) (cons-append " " "" d ∙ ap (String.◌∷◌ " ") (nil-append d))
    ∙ ap trim_right (trim_left_space d ∙ trim_left_digits d digits)
    ∙ (trim_right_digits d digits).0

header_length_cut :
    (line v : String) (length : ℤ)
    → cut_prefix line length_key ≡ some v
    → header_length line length ≡ or_zero (atoi (trim_space v))
unfolding header_length
header_length_cut line v length e =
    ap (λ o. elim o [ none ↦ length | some v ↦ or_zero (atoi (trim_space v)) ]) e

header_length-key_line :
    (d : String) (n : ℕ) (length : ℤ)
    → Numeral d
    → atoi d ≡ some (pos n)
    → header_length (key_line d) length ≡ pos n
header_length-key_line d n length h e =
    header_length_cut (key_line d) (" " <> d) length
      ((cut_prefix_iff (key_line d) length_key (" " <> d)).1 refl)
    ∙ ap (λ t. or_zero (atoi t)) (trim_value d h)
    ∙ ap or_zero e

-- The end of the header line, and the empty line.
line_ends :
    (line : String) (length : ℤ) (s : String)
    → trim_space line ≢ ""
    → read_header line length (String.◌∷◌ "\n" s)
      ≡ read_header "" (header_length (trim_space line) length) s
unfolding read_header
line_ends line length s h = ground arith

blank_ends :
    (line : String) (length : ℤ) (s : String)
    → trim_space line ≡ ""
    → read_header line length (String.◌∷◌ "\n" s) ≡ some (length, s)
unfolding read_header
blank_ends line length s h = ground arith

blank_return : trim_space "\r" ≡ ""
unfolding trim_space trim_left trim_right is_blank string_eq nat_eq native.Mathlib.Decide.ℕ_discrete
blank_return = refl

header_ends : (length : ℤ) (s : String) → read_header "" length ("\r\n" <> s) ≡ some (length, s)
header_ends length s =
    ap (read_header "" length) (
      cons-append "\r" "\n" s
      ∙ ap (String.◌∷◌ "\r") (cons-append "\n" "" s ∙ ap (String.◌∷◌ "\n") (nil-append s)))
    ∙ gather_one "\r" "" length (String.◌∷◌ "\n" s) (omega arith)
    ∙ ap (λ l. read_header l length (String.◌∷◌ "\n" s)) (nil-append "\r")
    ∙ blank_ends "\r" length s blank_return

append-IsLine : (s t : String) → IsLine s → IsLine t → IsLine (s <> t)
append-IsLine String.[] t h k = rw nil-append k
append-IsLine (String.◌∷◌ c s) t h k = rw (cons-append c s t) (h.0, append-IsLine s t h.1 k)

key_line-IsLine : (d : String) → IsDigits d → IsLine (key_line (d <> "\r"))
key_line-IsLine d digits =
    append-IsLine length_key _ (omega arith)
      (append-IsLine " " _ (omega arith) (digits-IsLine d "\r" digits (omega arith)))

key_line_ne : (d : String) → d ≢ "" → key_line d ≢ ""
key_line_ne d h = append_ne length_key _ (append_ne " " d h)

pub read_header-frame :
    (d : String) (n : ℕ) (s : String)
    → Numeral d
    → atoi d ≡ some (pos n)
    → read_header "" (pos 0) (key_line (d <> "\r") <> String.◌∷◌ "\n" ("\r\n" <> s))
      ≡ some (pos n, s)
read_header-frame d n s h e =
    let line = key_line (d <> "\r") in
    gather line "" (pos 0) (String.◌∷◌ "\n" ("\r\n" <> s)) (key_line-IsLine d h.0)
    ∙ ap (λ l. read_header l (pos 0) (String.◌∷◌ "\n" ("\r\n" <> s))) (nil-append line)
    ∙ line_ends line (pos 0) ("\r\n" <> s) (rw (trim_key_line d h) (key_line_ne d h.1))
    ∙ ap (λ l. read_header "" (header_length l (pos 0)) ("\r\n" <> s)) (trim_key_line d h)
    ∙ ap (λ l. read_header "" l ("\r\n" <> s)) (header_length-key_line d n (pos 0) h e)
    ∙ header_ends (pos n) s
