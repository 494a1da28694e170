-- ===== src/Lsp/Columns.antt =====
-- Columns in bytes and in UTF-16 code units (internal/lsp/lsp.go, utf16Col and byteCol).
use Prim.Native.Char.{code}
use interactivecodebase.Base.{ℕ, ◌+◌, ◌≤◌, ◌≡◌, String, ◌<>◌, leb, if◌then◌else◌, refl, arith}
use text.Mathlib.TextLemmas.{nil-append, cons-append}
use interactivecodebase.Mermaid.Sequence.{utf8_length, bytes}

-- The code units of a character.
unfoldable pub units : ℕ → ℕ
units c = if leb 65536 c then 2 else 1

unfoldable pub units_of : String → ℕ
units_of String.[] = 0
units_of (String.◌∷◌ c s) = units (code c) + units_of s

-- `utf16Col`, from the character at byte `i`.
unfoldable pub utf16_from : ℕ → String → ℕ → ℕ
utf16_from i String.[] byte_offset = 0
utf16_from i (String.◌∷◌ c s) byte_offset =
    let more = units (code c) + utf16_from (i + utf8_length (code c)) s byte_offset in
    if leb byte_offset i then 0 else more

unfoldable pub utf16_col : String → ℕ → ℕ
utf16_col line byte_offset = utf16_from 0 line byte_offset

-- `byteCol`, from the character at byte `i` and code unit `n`.
unfoldable pub byte_from : ℕ → ℕ → String → ℕ → ℕ
byte_from i n String.[] wanted = i
byte_from i n (String.◌∷◌ c s) wanted =
    let more = byte_from (i + utf8_length (code c)) (n + units (code c)) s wanted in
    if leb wanted n then i else more

unfoldable pub byte_col : String → ℕ → ℕ
byte_col line wanted = byte_from 0 0 line wanted

utf8_pos : (c : ℕ) → 1 ≤ utf8_length c
unfolding utf8_length
utf8_pos c = ground arith

units_pos : (c : ℕ) → 1 ≤ units c
unfolding units
units_pos c = ground arith

utf16_prefix :
    (i j : ℕ) (before after : String)
    → j ≡ i + bytes before
    → utf16_from i (before <> after) j ≡ units_of before
unfolding utf16_from units_of bytes
utf16_prefix i j String.[] String.[] h = refl
utf16_prefix i j String.[] (String.◌∷◌ c s) h = rw (nil-append (String.◌∷◌ c s)) (ground arith)
utf16_prefix i j (String.◌∷◌ c s) after h =
    rw (cons-append c s after)
      (ground (arith, utf8_pos (code c), utf16_prefix (i + utf8_length (code c)) j s after))

byte_prefix :
    (i n m : ℕ) (before after : String)
    → m ≡ n + units_of before
    → byte_from i n (before <> after) m ≡ i + bytes before
unfolding byte_from units_of bytes
byte_prefix i n m String.[] String.[] h = omega arith
byte_prefix i n m String.[] (String.◌∷◌ c s) h = rw (nil-append (String.◌∷◌ c s)) (ground arith)
byte_prefix i n m (String.◌∷◌ c s) after h = rw (cons-append c s after) (
    ground (
      arith,
      units_pos (code c),
      byte_prefix (i + utf8_length (code c)) (n + units (code c)) m s after,
    ))

-- At a place between two characters of a line, the column in bytes and the column in code units lead to one
-- another.
pub columns_round_trip :
    (before after : String)
    → (utf16_col (before <> after) (bytes before) ≡ units_of before)
      × (byte_col (before <> after) (units_of before) ≡ bytes before)
unfolding utf16_col byte_col
columns_round_trip before after = (
  utf16_prefix 0 (bytes before) before after (omega arith),
  let h = byte_prefix 0 0 (units_of before) before after (omega arith) in omega (arith, h),
)
