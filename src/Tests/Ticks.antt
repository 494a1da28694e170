-- ===== src/Tests/Ticks.antt =====
-- The watcher (internal/watch/watch.go) over a few ticks.
use interactivecodebase.Base.{
  ℕ, ◌<◌, ◌≤◌, ◌≡◌, ◌≢◌, ◌⊎◌, ◌↔◌, refl, sym, inl, inr, String, true, false, some, none, List, [],
  ◌∷◌, In, All, flat_map, string_eq, nat_eq, arith,
}
use interactivecodebase.Base.Sort.{IsSorted}
use interactivecodebase.Base.Text.{text_le}
use interactivecodebase.Watch.{
  Options, FileState, Snapshot, State, state_of, diff, relevant, skip_dir, start, tick, run,
}
use interactivecodebase.Watch.Changes.{IsMap}
use interactivecodebase.Watch.Reports.{tick_report, run_covers}

abbrev file : ℕ → FileState
file n = record { size = n; mod_time = n }

abbrev before : Snapshot
before = ("a.go", file 1) ∷ ("b.go", file 1) ∷ []

abbrev later : Snapshot
later = ("a.go", file 2) ∷ ("c.go", file 1) ∷ []

abbrev opts : Options
opts = record { interval = 10; quiet = 5; lang = "go" }

goes : relevant "go" "main.go" ≡ true
unfolding relevant string_eq interactivecodebase.Watch.extension nat_eq
    native.Mathlib.Decide.ℕ_discrete interactivecodebase.Base.contains
goes = refl

skips : skip_dir "go" "web/node_modules" ≡ true
unfolding skip_dir string_eq interactivecodebase.Watch.base interactivecodebase.Base.Text.split
    nat_eq native.Mathlib.Decide.ℕ_discrete
skips = refl

three_changes : diff before later ≡ "a.go" ∷ "b.go" ∷ "c.go" ∷ []
unfolding diff interactivecodebase.Base.Sort.sort_by interactivecodebase.Base.keep state_of
    string_eq nat_eq native.Mathlib.Decide.ℕ_discrete text_le
three_changes = refl

before-IsMap : IsMap before
unfolding state_of string_eq
before-IsMap = (refl, (refl, tt))

later-IsMap : IsMap later
unfolding state_of string_eq
later-IsMap = (refl, (refl, tt))

abbrev waits : State
waits = record { last = later; pending = "a.go" ∷ []; settle_at = 20; next_scan = 30 }

tick_report_example :
    (((tick opts waits 25 later).1 ≢ [])
      ↔ ((waits.pending ≢ []) × (20 ≤ 25) × (diff later later ≡ [])))
    × ((tick opts waits 25 later).1 ≢ []
        → ((tick opts waits 25 later).1 ≡ "a.go" ∷ [])
          × ((tick opts waits 25 later).0.pending ≡ []))
tick_report_example = tick_report opts waits 25 later (omega arith)

abbrev two_ticks : List (ℕ × Snapshot)
two_ticks = (10, later) ∷ (15, later) ∷ []

told_once : (run opts (start opts before 0) two_ticks).1 ≡ [] ∷ ("a.go" ∷ "b.go" ∷ "c.go" ∷ []) ∷ []
unfolding run tick interactivecodebase.Watch.scan diff interactivecodebase.Base.Sort.sort_by
    interactivecodebase.Base.keep state_of string_eq nat_eq native.Mathlib.Decide.ℕ_discrete text_le
    interactivecodebase.Watch.add_new interactivecodebase.Base.contains
told_once = refl

run_covers_example :
    In "a.go" (run opts waits two_ticks).0.pending
    ⊎ In "a.go" (flat_map (λ r. r) (run opts waits two_ticks).1)
run_covers_example =
    run_covers opts waits two_ticks "a.go" later-IsMap (later-IsMap, (later-IsMap, tt))
      (inl (inl refl))
