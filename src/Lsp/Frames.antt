-- ===== src/Lsp/Frames.antt =====
-- Messages on the pipe to gopls (internal/lsp/lsp.go, send and the reading of frames in read). A text
-- stands for its bytes: each character is one byte.
pub mod Numbers
pub mod Headers
pub mod RoundTrip
use Prim.Native.Char.{code}
use interactivecodebase.Base.{
  ℕ, zero, suc, String, ◌<>◌, ◌==◌, nat_eq, string_eq, Bool, true, false, ◌&&◌, ◌||◌, leb, Option,
  none, some, List, [], ◌∷◌, if◌then◌else◌,
}
use interactivecodebase.Base.Text.{decimal, cut_prefix, trim_space}
use interactivecodebase.Base.Ints.{ℤ, pos, negsuc, atoi}

-- `len`
unfoldable pub size : String → ℕ
size String.[] = 0
size (String.◌∷◌ c s) = suc (size s)

abbrev pub length_key : String
length_key = "Content-Length:"

-- `send`, of a message in JSON.
unfoldable pub frame : String → String
frame body = length_key <> (" " <> (decimal (size body) <> ("\r\n\r\n" <> body)))

abbrev pub or_zero : Option ℤ → ℤ
or_zero none = pos 0
or_zero (some n) = n

-- What a header line says of the length.
unfoldable pub header_length : String → ℤ → ℤ
header_length line length = elim (cut_prefix line length_key) [
  | none ↦ length
  | some v ↦ or_zero (atoi (trim_space v))
]

-- The header of a frame, up to its empty line: the length, and what comes behind it. `line` is the line so
-- far. `none`: the pipe ends.
unfoldable pub read_header : String → ℤ → String → Option (ℤ × String)
read_header line length String.[] = none
read_header line length (String.◌∷◌ c s) =
    let next_line = read_header "" (header_length (trim_space line) length) s in
    let same_line = read_header (line <> String.◌∷◌ c "") length s in
    if code c == 10
    then (if trim_space line == "" then some (length, s) else next_line)
    else same_line

-- `io.ReadFull`
unfoldable pub read_full : ℕ → String → Option (String × String)
read_full zero s = some ("", s)
read_full (suc n) String.[] = none
read_full (suc n) (String.◌∷◌ c s) = elim (read_full n s) [
  | none ↦ none
  | some (body, rest) ↦ some (String.◌∷◌ c body, rest)
]

-- A frame, with what comes behind it; the end of the pipe; or a length below zero, on which `make` panics.
pub data Frame : Type 0 where
  body : String → String → Frame
  pipe_ends panics : Frame

abbrev pub of_length : ℤ → String → Frame
of_length (negsuc n) s = panics
of_length (pos n) s = elim (read_full n s) [ none ↦ pipe_ends | some (b, rest) ↦ body b rest ]

unfoldable pub read_frame : String → Frame
read_frame s = elim (read_header "" (pos 0) s) [
  | none ↦ pipe_ends
  | some (length, rest) ↦ of_length length rest
]

-- How the reading of frames comes to its end.
pub data End : Type 0 where
  at_end at_panic out_of_fuel : End

-- The frames that `read` takes from the pipe, in order.
unfoldable pub read_frames : ℕ → String → List String × End
read_frames zero s = ([], out_of_fuel)
read_frames (suc fuel) s = elim (read_frame s) [
  | pipe_ends ↦ ([], at_end)
  | panics ↦ ([], at_panic)
  | body b rest ↦ let (bodies, end) = read_frames fuel rest in (b ∷ bodies, end)
]
