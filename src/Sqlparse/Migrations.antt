-- ===== src/Sqlparse/Migrations.antt =====
-- The migration files of a directory, in order, and the schema that they make
-- (internal/sqlparse/migrations.go). The file system and the parser are parameters; the files of one
-- directory go by their names, which order them as their paths do.
pub mod Order
use Prim.Native.Char.{code}
use Prim.Native.Nat.{◌^◌, compare, Ordering}
use interactivecodebase.Base.{
  ℕ, zero, suc, ◌+◌, ◌-◌, ◌*◌, min, String, ◌<>◌, ◌==◌, nat_eq, string_eq, Bool, true, false, not,
  ◌&&◌, ◌||◌, Option, none, some, List, [], ◌∷◌, ◌++◌, map, keep, any, leb, Result, ok, err, ◌>>=◌,
  if◌then◌else◌,
}
use interactivecodebase.Base.Text.{has_prefix, has_suffix, text_le}
use interactivecodebase.Base.Sort.{sort_by}
use interactivecodebase.Sqlparse.Statements.{Statement}
use interactivecodebase.Sqlparse.Schema.{Schema}
use interactivecodebase.Sqlparse.Ddl.{apply}
use interactivecodebase.Sqlparse.Goose.{goose_up}

-- An entry of a directory.
pub data EntryType : Type 0 where
  regular directory special : EntryType

pub record Entry : Type 0 where
  pub name : String
  pub kind : EntryType

abbrev is_digit : ℕ → Bool
is_digit c = leb 48 c && leb c 57

abbrev starts_digit : String → Bool
starts_digit String.[] = false
starts_digit (String.◌∷◌ c s) = is_digit (code c)

-- `strconv.Atoi` of digits, which stops at the greatest `int`.
abbrev capped : ℕ → ℕ
capped n = min n (2 ^ 63 - 1)

-- The numbers of a version up to `__`. `n` is the number so far; a number needs a digit.
unfoldable pub version_parts : ℕ → Bool → String → Option (List ℕ)
version_parts n started String.[] = none
version_parts n started (String.◌∷◌ c s) =
    let digit = version_parts (n * 10 + (code c - 48)) true s in
    let next : Option (List ℕ) = elim (version_parts 0 false s) [
      | none ↦ none
      | some v ↦ some (capped n ∷ v)
    ] in
    if is_digit (code c)
    then digit
    else if not started
    then none
    else if (code c == 46 || code c == 95) && starts_digit s
    then next
    else if code c == 95 && has_prefix s "_"
    then some (capped n ∷ [])
    else none

-- What the name of a Flyway migration says.
pub data FlywayName : Type 0 where
  version : List ℕ → FlywayName
  repeatable other_name : FlywayName

abbrev versioned : Option (List ℕ) → FlywayName
versioned none = other_name
versioned (some v) = version v

-- `flywayName`
unfoldable pub flyway_name : String → FlywayName
flyway_name String.[] = other_name
flyway_name (String.◌∷◌ c s) =
    if code c == 86 || code c == 85
    then versioned (version_parts 0 false s)
    else if code c == 82 && has_prefix s "__"
    then repeatable
    else other_name

abbrev is_flyway : String → Bool
is_flyway name = elim (flyway_name name) [
  | version v ↦ true
  | repeatable ↦ true
  | other_name ↦ false
]

abbrev is_empty {ℓ} : {A : Type ℓ} → List A → Bool
is_empty [] = true
is_empty (x ∷ xs) = false

-- `flyway`
unfoldable pub flyway : List String → Bool
flyway names = not (is_empty names) && not (any (λ n. not (is_flyway n)) names)

-- `flywayVersion`
unfoldable pub flyway_version : String → Option (List ℕ)
flyway_version name = elim (flyway_name name) [
  | version v ↦ some v
  | repeatable ↦ none
  | other_name ↦ none
]

-- `slices.Compare`
unfoldable pub compare_versions : List ℕ → List ℕ → Ordering
compare_versions [] [] = Ordering.eq
compare_versions [] (y ∷ ys) = Ordering.lt
compare_versions (x ∷ xs) [] = Ordering.gt
compare_versions (x ∷ xs) (y ∷ ys) = elim (compare x y) [
  | Ordering.lt ↦ Ordering.lt
  | Ordering.eq ↦ compare_versions xs ys
  | Ordering.gt ↦ Ordering.gt
]

abbrev version_le : Option (List ℕ) → Option (List ℕ) → Bool → Bool
version_le none none by_name = by_name
version_le none (some w) by_name = false
version_le (some v) none by_name = true
version_le (some v) (some w) by_name = elim (compare_versions v w) [
  | Ordering.lt ↦ true
  | Ordering.eq ↦ by_name
  | Ordering.gt ↦ false
]

-- `compareFlyway`: whether a file does not come after another.
unfoldable pub flyway_le : String → String → Bool
flyway_le a b = version_le (flyway_version a) (flyway_version b) (text_le a b)

abbrev is_file : EntryType → Bool
is_file regular = true
is_file directory = false
is_file special = false

abbrev is_sql : Entry → Bool
is_sql e = is_file e.kind && has_suffix e.name ".sql"

abbrev is_up : Entry → Bool
is_up e = is_sql e && has_suffix e.name ".up.sql"

abbrev is_plain : Entry → Bool
is_plain e = is_sql e && (not (has_suffix e.name ".up.sql") && not (has_suffix e.name ".down.sql"))

abbrev names_of : (Entry → Bool) → List Entry → List String
names_of p es = map (λ e. e.name) (keep p es)

unfoldable pub chosen : List Entry → List String
chosen es = elim (names_of is_up es) [ [] ↦ names_of is_plain es | n ∷ ns ↦ n ∷ ns ]

abbrev pub is_undo : String → Bool
is_undo name = has_prefix name "U"

abbrev in_order : List String → List String
in_order names =
    if flyway names then sort_by flyway_le (keep (λ n. not (is_undo n)) names) else names

-- `migrationFiles`, of the entries of the directory.
unfoldable pub migration_files : List Entry → List String
migration_files es = in_order (sort_by text_le (chosen es))

abbrev pub default_migration_dirs : List String
default_migration_dirs =
    "migrations" ∷ "db/migrations" ∷ "sql/migrations" ∷ "internal/migrations" ∷ "schema" ∷ []

pub data DirFailure : Type 0 where
  no_dir unreadable : DirFailure

module _ (read_dir : String → Result DirFailure (List Entry)) where
  unfoldable pub files_in : String → Result DirFailure (List String)
  files_in dir = elim (read_dir dir) [
    | ok es ↦ ok (migration_files es)
    | err no_dir ↦ ok []
    | err unreadable ↦ err unreadable
  ]

  module _ {E : Type 0} (read_file : String → String → Result DirFailure String)
      (pg_parse : String → Result E (List (Statement × ℕ))) where
    unfoldable pub apply_files : String → List String → Schema E → Result DirFailure (Schema E)
    apply_files dir [] s = ok s
    apply_files dir (f ∷ fs) s = read_file dir f >>= λ text.
        apply_files dir fs (apply pg_parse (dir <> ("/" <> f)) (goose_up text) s)

    unfoldable pub load_dirs : List String → Schema E → Result DirFailure (Schema E × List String)
    load_dirs [] s = ok (s, [])
    load_dirs (dir ∷ dirs) s = files_in dir >>= λ files. apply_files dir files s >>= λ done.
        load_dirs dirs done >>= λ rest. ok (rest.0, if is_empty files then rest.1 else dir ∷ rest.1)

    -- `LoadMigrations`, of the directories that are given or of the default ones.
    unfoldable pub load_migrations :
        Option (List String) → Result DirFailure (Schema E × List String)
    load_migrations none = load_dirs default_migration_dirs (record { tables = []; errors = [] })
    load_migrations (some dirs) = load_dirs dirs (record { tables = []; errors = [] })

  -- The directories below that hold migrations, up to one for PostgreSQL, which alone is taken.
  module _ (lower : String → String) where
    unfoldable pub flyway_subs : String → List Entry → List String → Result DirFailure (List String)
    flyway_subs dir [] subs = ok subs
    flyway_subs dir (e ∷ es) subs =
        let sub = dir <> ("/" <> e.name) in
        let skip = flyway_subs dir es subs in
        let more = flyway_subs dir es (subs ++ sub ∷ []) in
        elim e.kind [
          | regular ↦ skip
          | special ↦ skip
          | directory ↦ files_in sub >>= λ files.
              if is_empty files
              then skip
              else if has_prefix (lower e.name) "postgres"
              then ok (sub ∷ [])
              else more
        ]

    -- `flywayDir`
    unfoldable pub flyway_dir : String → Result DirFailure (List String)
    flyway_dir dir = elim (files_in dir) [
      | err failure ↦ err failure
      | ok (f ∷ fs) ↦ ok (dir ∷ [])
      | ok [] ↦ read_dir dir >>= λ es. flyway_subs dir es []
    ]
