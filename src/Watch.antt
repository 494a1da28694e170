-- ===== src/Watch.antt =====
-- Noticing changed files (internal/watch/watch.go).
pub mod Changes
pub mod Reports
pub mod Walk
use Prim.Native.Char.{code}
use interactivecodebase.Base.{
  ℕ, ◌+◌, ◌<◌, String, ◌<>◌, ◌==◌, string_eq, nat_eq, Bool, true, false, not, ◌&&◌, ◌||◌, Option,
  none, some, List, [], ◌∷◌, ◌++◌, map, any, keep, contains, ltb, min, if◌then◌else◌,
}
use interactivecodebase.Base.Text.{text_le, has_prefix, has_suffix, split}
use interactivecodebase.Base.Sort.{sort_by}

pub record Options : Type 0 where
  pub interval : ℕ
  pub quiet : ℕ
  pub lang : String

abbrev pub lang_scala : String
lang_scala = "scala"

-- `filepath.Ext` of a name: what starts at its last dot.
unfoldable pub extension : String → String
extension String.[] = ""
extension (String.◌∷◌ c s) =
    let rest = extension s in
    if rest == "" then (if code c == 46 then String.◌∷◌ c s else "") else rest

-- `relevant`
unfoldable pub relevant : String → String → Bool
relevant lang name =
    if name == "icb.yaml" || extension name == ".sql"
    then true
    else if lang == lang_scala
    then contains (".scala" ∷ ".sbt" ∷ []) (extension name) || name == "build.properties"
    else contains (".go" ∷ ".html" ∷ ".tmpl" ∷ ".gohtml" ∷ []) (extension name)
      || (name == "go.mod" || name == "go.sum")

abbrev pub last_of : List String → String
last_of [] = ""
last_of (x ∷ []) = x
last_of (x ∷ y ∷ ys) = last_of (y ∷ ys)

-- `path.Base` of a relative path in its shortest form.
unfoldable pub base : String → String
base rel = last_of (split b'/' rel)

-- `skipDir`
unfoldable pub skip_dir : String → String → Bool
skip_dir lang rel =
    if base rel == "node_modules"
      || (base rel == "testdata" || (has_prefix (base rel) "." && not (base rel == ".")))
    then true
    else if lang == lang_scala
    then base rel == "target"
      || (has_suffix ("/" <> rel) "/src/test" || has_suffix ("/" <> rel) "/src/it")
    else base rel == "vendor"

-- A modification time is a number that stands for the instant.
pub record FileState : Type 0 where
  pub size : ℕ
  pub mod_time : ℕ

abbrev pub same_state : FileState → FileState → Bool
same_state a b = a.size == b.size && a.mod_time == b.mod_time

-- A map from paths.
abbrev pub Snapshot : Type 0
Snapshot = List (String × FileState)

unfoldable pub state_of : Snapshot → String → Option FileState
state_of [] p = none
state_of ((q, s) ∷ more) p = let rest = state_of more p in if q == p then some s else rest

abbrev pub differs : Option FileState → FileState → Bool
differs none s = true
differs (some old) s = not (same_state old s)

abbrev pub is_none : Option FileState → Bool
is_none none = true
is_none (some s) = false

-- `diff`: what is new or changed in `b`, and what `b` lacks, in order.
unfoldable pub diff : Snapshot → Snapshot → List String
diff a b = sort_by text_le (
    map (λ e. e.0) (keep (λ e. differs (state_of a e.0) e.1) b)
    ++ map (λ e. e.0) (keep (λ e. is_none (state_of b e.0)) a))

-- The defaults, in nanoseconds.
unfoldable pub with_defaults : Options → Options
with_defaults o = record {
  interval = if o.interval == 0 then 1000000000 else o.interval;
  quiet =
      if o.quiet == 0 then (if o.lang == lang_scala then 1000000000 else 500000000) else o.quiet;
  lang = o.lang;
}

-- The variables of `Run`.
pub record State : Type 0 where
  pub last : Snapshot
  pub pending : List String
  pub settle_at : ℕ
  pub next_scan : ℕ

abbrev pub start : Options → Snapshot → ℕ → State
start o first now = record {
  last = first;
  pending = [];
  settle_at = 0;
  next_scan = now + o.interval;
}

unfoldable pub add_new : List String → List String → List String
add_new pending [] = pending
add_new pending (p ∷ ps) = add_new (if contains pending p then pending else pending ++ p ∷ []) ps

abbrev pub is_empty : List String → Bool
is_empty [] = true
is_empty (p ∷ ps) = false

-- The scan of a tick: the changes since the last scan are pending, and put off the report.
unfoldable pub scan : Options → State → ℕ → Snapshot → State
scan o s now cur =
    if is_empty (diff s.last cur) then record s { next_scan = now + o.interval } else record {
      last = cur;
      pending = add_new s.pending (diff s.last cur);
      settle_at = now + o.quiet;
      next_scan = now + o.interval;
    }

-- One tick at `now`, where a scan sees `cur`: the next state, and the call of `changed` (`[]` for none).
unfoldable pub tick : Options → State → ℕ → Snapshot → State × List String
tick o s now cur =
    if ltb now s.next_scan && (is_empty s.pending || ltb now s.settle_at)
    then (s, [])
    else if is_empty (scan o s now cur).pending || ltb now (scan o s now cur).settle_at
    then (scan o s now cur, [])
    else (record (scan o s now cur) { pending = [] }, (scan o s now cur).pending)

-- The ticks of `Run`: the last state, and the calls of `changed`.
unfoldable pub run : Options → State → List (ℕ × Snapshot) → State × List (List String)
run o s [] = (s, [])
run o s ((now, cur) ∷ ticks) =
    let (s', report) = tick o s now cur in
    let (last, reports) = run o s' ticks in (last, report ∷ reports)
