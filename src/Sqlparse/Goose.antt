-- ===== src/Sqlparse/Goose.antt =====
-- The Up section of a goose migration (internal/sqlparse/migrations.go, gooseUp).
use interactivecodebase.Base.{
  suc, String, ◌<>◌, ◌≡◌, refl, string_eq, Bool, true, false, ◌||◌, List, [], ◌∷◌, length, ap,
  if◌then◌else◌,
}
use interactivecodebase.Base.Text.{has_prefix, split, trim_space, contains_text}

-- Whether the lines from here on are in a Down section.
unfoldable pub is_down : Bool → String → Bool
is_down down line =
    let trimmed = trim_space line in
    if has_prefix trimmed "-- +goose Down"
    then true
    else if has_prefix trimmed "-- +goose Up"
    then false
    else down

abbrev pub is_directive : String → Bool
is_directive line = has_prefix (trim_space line) "-- +goose"

unfoldable pub up_lines : Bool → List String → List String
up_lines down [] = []
up_lines down (line ∷ lines) =
    (if is_down down line || is_directive line then "" else line)
    ∷ up_lines (is_down down line) lines

abbrev join_lines : List String → String
join_lines [] = ""
join_lines (l ∷ []) = l
join_lines (l ∷ m ∷ more) = l <> ("\n" <> join_lines (m ∷ more))

-- `gooseUp`
unfoldable pub goose_up : String → String
goose_up sql =
    if contains_text sql "+goose Up" then join_lines (up_lines false (split 10 sql)) else sql

-- Leaving the Down sections out keeps the numbers of the lines.
pub length-up_lines :
    (down : Bool) (lines : List String) → length (up_lines down lines) ≡ length lines
unfolding up_lines
length-up_lines down [] = refl
length-up_lines down (line ∷ lines) = ap suc (length-up_lines (is_down down line) lines)
