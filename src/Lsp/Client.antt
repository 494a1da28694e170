-- ===== src/Lsp/Client.antt =====
-- The requests of the client (internal/lsp/lsp.go, Client). The file system, the paths and URIs of the
-- libraries, the environment and the start of a process are parameters.
use interactivecodebase.Base.{
  ℕ, zero, suc, ◌+◌, ◌-◌, String, ◌==◌, string_eq, nat_eq, Bool, ◌||◌, Option, none, some, List, [],
  ◌∷◌, Result, ok, err, ◌>>=◌, or_fail, ltb, length, if◌then◌else◌,
}
use interactivecodebase.Base.Text.{has_prefix, split}
use interactivecodebase.Lsp.Columns.{utf16_col, byte_col}
use interactivecodebase.Base.Text.{trim_space}

pub data LspError : Type 0 where
  unavailable no_module_file not_read no_line not_started : LspError

-- Lines and columns from one, columns in bytes.
pub record Location : Type 0 where
  pub file : String
  pub start_line : ℕ
  pub start_col : ℕ
  pub end_line : ℕ
  pub end_col : ℕ
  pub text : String

-- Lines and characters from zero, characters in code units.
pub record LspLocation : Type 0 where
  pub uri : String
  pub start_line : ℕ
  pub start_character : ℕ
  pub end_line : ℕ
  pub end_character : ℕ

-- The surroundings: `filepath.Clean`, `IsAbs`, `Join` and `Rel`, `os.ReadFile`, and URIs of files.
pub record World : Type 0 where
  pub clean : String → String
  pub is_abs : String → Bool
  pub join : String → String → String
  pub rel : String → String → Option String
  pub read_file : String → Option String
  pub is_file : String → Bool
  pub parse_uri : String → Option (String × String)
  pub file_uri : String → String
  pub look_path : Option String
  pub go_path : String
  pub home : Option String

unfoldable pub line_at : List String → ℕ → String
line_at [] i = ""
line_at (l ∷ ls) zero = l
line_at (l ∷ ls) (suc i) = line_at ls i

-- What a position request asks gopls: the document, its text, and the position.
pub record Asked : Type 0 where
  pub uri : String
  pub content : String
  pub line : ℕ
  pub character : ℕ

-- `binary`: the path that is known, or else the one that is found, with the path to remember.
module _ (w : World) where
  abbrev go_dir : String
  go_dir =
      if w.go_path == ""
      then (elim w.home [ none ↦ "" | some home ↦ w.join home "go" ])
      else w.go_path

  abbrev in_go_dir : Result LspError String
  in_go_dir =
      let p = w.join (w.join go_dir "bin") "gopls" in if w.is_file p then ok p else err unavailable

  unfoldable pub binary : String → Result LspError String
  binary known =
      if known == "" then (elim w.look_path [ some p ↦ ok p | none ↦ in_go_dir ]) else ok known

  -- `moduleFile`
  unfoldable pub module_file : String → String → Result LspError String
  module_file dir file =
      let clean = w.clean file in
      if w.is_abs clean || (clean == ".." || has_prefix clean "../")
      then err no_module_file
      else ok (w.join dir clean)

  -- `positionRequest`, up to the connection.
  unfoldable pub asked : String → String → ℕ → ℕ → Result LspError Asked
  asked dir file line col = module_file dir file >>= λ abs.
      or_fail not_read (w.read_file abs) >>= λ content.
      let lines = split 10 content in
      if ltb line 1 || ltb (length lines) line
      then err no_line
      else ok (record {
        uri = w.file_uri abs;
        content = content;
        line = line - 1;
        character = utf16_col (line_at lines (line - 1)) (col - 1);
      })

  -- `readLines`
  unfoldable pub read_lines : String → List String
  read_lines path = elim (w.read_file path) [ none ↦ [] | some content ↦ split 10 content ]

  abbrev located : String → String → LspLocation → Location
  located file path l =
      let lines = read_lines path in
      record {
        file = file;
        start_line = l.start_line + 1;
        start_col = byte_col (line_at lines l.start_line) l.start_character + 1;
        end_line = l.end_line + 1;
        end_col = byte_col (line_at lines l.end_line) l.end_character + 1;
        text = trim_space (line_at lines l.start_line);
      }

  abbrev in_module : String → String → String
  in_module dir path = elim (w.rel dir path) [
    | none ↦ path
    | some rel ↦ if has_prefix rel ".." then path else rel
  ]

  -- `fromLSP`
  unfoldable pub from_lsp : String → LspLocation → Option Location
  from_lsp dir l = elim (w.parse_uri l.uri) [
    | none ↦ none
    | some (scheme, path) ↦
        if scheme == "file" then some (located (in_module dir path) path l) else none
  ]

  -- `locations`, of what gopls answered.
  unfoldable pub locations : String → List LspLocation → List Location
  locations dir [] = []
  locations dir (l ∷ ls) = elim (from_lsp dir l) [
    | none ↦ locations dir ls
    | some loc ↦ loc ∷ locations dir ls
  ]

  -- `connection`, with the connection that is kept: it is used while it lives, or else another is started.
  module _ {C : Type 0} (dead : C → Bool) (start : String → Option C) where
    abbrev started : String → Result LspError C
    started known = binary known >>= λ path. or_fail not_started (start path)

    unfoldable pub connection : String → Option C → Result LspError C × Option C
    connection known none = elim (started known) [ ok c ↦ (ok c, some c) | err e ↦ (err e, none) ]
    connection known (some c) =
        if dead c
        then (elim (started known) [ ok d ↦ (ok d, some d) | err e ↦ (err e, some c) ])
        else (ok c, some c)

  -- `Close`: the connection to shut down, and none is kept.
  abbrev pub close_client : {C : Type 0} → Option C → Option C × Option C
  close_client kept = (kept, none)
