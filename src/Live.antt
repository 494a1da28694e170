-- ===== src/Live.antt =====
-- The current analysis of a project, read while it is replaced (internal/live/live.go). An analysis is
-- a number, given in the order in which they are made.
pub mod Owners
pub mod Told
use interactivecodebase.Base.{
  ℕ, zero, suc, ◌+◌, ◌≡◌, String, Bool, true, false, Option, none, some, List, [], ◌∷◌, ◌++◌, map,
  keep, ◌==◌, nat_eq, not, if◌then◌else◌,
}

pub record Status : Type 0 where
  pub generation : ℕ
  pub analyzing : Bool
  pub updated_at : ℕ
  pub duration_ms : ℕ
  pub error : Option String

-- Where a call of Reanalyze is; the lock `reanalyzing` is free at `idle`.
pub data Phase : Type 0 where
  idle analyzing : Phase
  analyzed : ℕ → Phase
  swapped told : ℕ → Phase

-- A subscriber and what its channel, of capacity 1, holds.
abbrev pub Subscriber : Type 0
Subscriber = ℕ × Option Status

-- `Current`, with the analyses that calls of With are using, the number made, and those released.
pub record State : Type 0 where
  pub current : Option ℕ
  pub readers : List ℕ
  pub gen : ℕ
  pub phase : Phase
  pub status : Status
  pub subs : List Subscriber
  pub made : ℕ
  pub released : List ℕ

-- `New`
unfoldable pub new : ℕ → ℕ → State
new now ms = record {
  current = some 0;
  readers = [];
  gen = 1;
  phase = idle;
  status = record {
    generation = 1;
    analyzing = false;
    updated_at = now;
    duration_ms = ms;
    error = none;
  };
  subs = [];
  made = 1;
  released = [];
}

-- `setStatus`: a stale status is dropped from each channel, and the new one put there.
unfoldable pub set_status : (Status → Status) → ℕ → State → State
set_status update now s =
    let status' : Status = record (update s.status) { updated_at = now } in
    record s { status = status'; subs = map (λ c. (c.0, some status')) s.subs }

-- `Subscribe` and its function to unsubscribe, for the channel `c`.
unfoldable pub subscribe : ℕ → State → State
subscribe c s = record s { subs = (c, none) ∷ s.subs }

unfoldable pub unsubscribe : ℕ → State → State
unsubscribe c s = record s { subs = keep (λ x. not (x.0 == c)) s.subs }

abbrev pub forget : ℕ → Subscriber → Subscriber
forget c (d, held) = if d == c then (d, none) else (d, held)

-- A subscriber reads its channel.
unfoldable pub receive : ℕ → State → State
receive c s = record s { subs = map (forget c) s.subs }

-- The parts of Reanalyze between its locks.
unfoldable pub begin_analysis : ℕ → State → State
begin_analysis now s =
    set_status (λ t. record t { analyzing = true }) now (record s { phase = analyzing })

unfoldable pub fail_analysis : String → ℕ → State → State
fail_analysis e now s =
    set_status (λ t. record t { analyzing = false; error = some e }) now (record s { phase = idle })

unfoldable pub end_analysis : State → State
end_analysis s = record s { phase = analyzed s.made; made = suc s.made }

unfoldable pub swap : ℕ → ℕ → State → State
swap next old s = record s { phase = swapped old; current = some next; gen = suc s.gen }

-- Closed in the meantime: the new analysis is closed.
unfoldable pub discard : ℕ → State → State
discard next s = record s { phase = idle; released = next ∷ s.released }

unfoldable pub tell : ℕ → ℕ → ℕ → State → State
tell old now ms s =
    set_status
      (λ t. record {
        generation = s.gen;
        analyzing = false;
        updated_at = 0;
        duration_ms = ms;
        error = none;
      })
      now (record s { phase = told old })

unfoldable pub release : ℕ → State → State
release old s = record s { phase = idle; released = old ∷ s.released }

-- `Close`
unfoldable pub close : ℕ → State → State
close old s = record s { current = none; released = old ∷ s.released }

-- A call of With begins with the analysis that is current, and ends.
unfoldable pub begin_read : ℕ → State → State
begin_read p s = record s { readers = p ∷ s.readers }

-- The calls and the parts of calls that may run next. The lock `mu` is held by readers together, or
-- by one writer alone, so `current` is written only where there are no readers.
pub data Step (s : State) : State → Type 0 where
  subscribing : (c : ℕ) → Step s (subscribe c s)
  unsubscribing : (c : ℕ) → Step s (unsubscribe c s)
  receiving : (c : ℕ) → Step s (receive c s)
  reading : (p : ℕ) → s.current ≡ some p → Step s (begin_read p s)
  read :
      (front back : List ℕ) (p : ℕ)
      → s.readers ≡ front ++ p ∷ back
      → Step s (record s { readers = front ++ back })
  beginning : (now : ℕ) → s.phase ≡ idle → Step s (begin_analysis now s)
  failing : (e : String) (now : ℕ) → s.phase ≡ analyzing → Step s (fail_analysis e now s)
  ending : s.phase ≡ analyzing → Step s (end_analysis s)
  swapping :
      (next old : ℕ)
      → s.phase ≡ analyzed next
      → s.readers ≡ []
      → s.current ≡ some old
      → Step s (swap next old s)
  discarding :
      (next : ℕ)
      → s.phase ≡ analyzed next
      → s.readers ≡ []
      → s.current ≡ none
      → Step s (discard next s)
  telling : (old now ms : ℕ) → s.phase ≡ swapped old → Step s (tell old now ms s)
  releasing : (old : ℕ) → s.phase ≡ told old → Step s (release old s)
  closing : (old : ℕ) → s.readers ≡ [] → s.current ≡ some old → Step s (close old s)

-- What can come about, from New on.
pub data Reachable : State → Type 0 where
  at_start : (now ms : ℕ) → Reachable (new now ms)
  after : {s s' : State} → Reachable s → Step s s' → Reachable s'
