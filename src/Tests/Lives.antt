-- ===== src/Tests/Lives.antt =====
-- The current analysis (internal/live/live.go) while it is replaced once.
use interactivecodebase.Base.{◌≡◌, refl, inl, some, In, All}
use interactivecodebase.Live.{
  State, Reachable, at_start, after, reading, beginning, ending, subscribing, new, begin_read,
  begin_analysis, end_analysis, subscribe, set_status,
}
use interactivecodebase.Live.Owners.{HeldOnce, held_once, readers_safe}
use interactivecodebase.Live.Told.{TellsTruth, IsLatest, status-TellsTruth, subscribers-IsLatest}

-- A reader is at work while the next analysis is made.
abbrev read_on : State
read_on = end_analysis (begin_analysis 5 (begin_read 0 (subscribe 7 (new 0 3))))

read_on-Reachable : Reachable read_on
unfolding new subscribe begin_read begin_analysis end_analysis set_status
read_on-Reachable =
    after (after (after (after (at_start 0 3) (subscribing 7)) (reading 0 refl)) (beginning 5 refl))
      (ending refl)

held_once_example : HeldOnce 1 read_on
held_once_example = held_once read_on 1 read_on-Reachable

In-readers : In 0 read_on.readers
unfolding new subscribe begin_read begin_analysis end_analysis set_status
In-readers = inl refl

readers_safe_example : (read_on.current ≡ some 0) × (In 0 read_on.released → ⊥)
readers_safe_example = readers_safe read_on 0 read_on-Reachable In-readers

status-TellsTruth_example : TellsTruth read_on
status-TellsTruth_example = status-TellsTruth read_on read_on-Reachable

subscribers-IsLatest_example : All (IsLatest read_on.status) read_on.subs
subscribers-IsLatest_example = subscribers-IsLatest read_on read_on-Reachable
