-- ===== src/Live/Told.antt =====
-- What the status and the channels of the subscribers say (internal/live/live.go).
use interactivecodebase.Base.{
  ℕ, ◌==◌, nat_eq, ◌+◌, ◌≡◌, refl, inl, inr, ◌⊎◌, Bool, true, false, not, none, some, List, [], ◌∷◌,
  map, keep, All, Bool-cases, arith,
}
use interactivecodebase.Live.{
  Status, Phase, idle, analyzing, analyzed, swapped, told, subscribing, unsubscribing, receiving,
  reading, read, beginning, failing, ending, swapping, discarding, telling, releasing, closing,
  at_start, after, State, Subscriber, Step, Reachable, new, forget, set_status, subscribe,
  unsubscribe, receive, begin_read, begin_analysis, fail_analysis, end_analysis, swap, discard,
  tell, release, close,
}

-- Whether Reanalyze is at work, and by how much the generation that was told is behind.
abbrev pub at_work : Phase → Bool
at_work idle = false
at_work analyzing = true
at_work (analyzed n) = true
at_work (swapped n) = true
at_work (told n) = false

abbrev pub behind : Phase → ℕ
behind idle = 0
behind analyzing = 0
behind (analyzed n) = 0
behind (swapped n) = 1
behind (told n) = 0

abbrev pub TellsTruth : State → Type 0
TellsTruth s =
    (s.current ≡ none)
    ⊎ ((s.status.analyzing ≡ at_work s.phase) × (s.gen ≡ behind s.phase + s.status.generation))

step-TellsTruth : (s s' : State) → Step s s' → TellsTruth s → TellsTruth s'
unfolding set_status subscribe unsubscribe receive begin_read begin_analysis fail_analysis
    end_analysis swap discard tell release close
step-TellsTruth s s' (subscribing c) h = h
step-TellsTruth s s' (unsubscribing c) h = h
step-TellsTruth s s' (receiving c) h = h
step-TellsTruth s s' (reading p e) h = h
step-TellsTruth s s' (read front back p e) h = h
step-TellsTruth s s' (beginning now e) h = let k = (rw e at h) in ground arith
step-TellsTruth s s' (failing m now e) h = let k = (rw e at h) in ground arith
step-TellsTruth s s' (ending e) h = rw e at h
step-TellsTruth s s' (swapping next old e free c) h = let k = (rw (e, c) at h) in ground arith
step-TellsTruth s s' (discarding next e free c) h = inl c
step-TellsTruth s s' (telling old now ms e) h = inr (refl, omega arith)
step-TellsTruth s s' (releasing old e) h = rw e at h
step-TellsTruth s s' (closing old free c) h = inl refl

-- Until Close, the status says that an analysis is at work from its beginning until its end is told, and gives the
-- generation that is current, or the one before it between the swap and its announcement.
pub status-TellsTruth : (s : State) → Reachable s → TellsTruth s
unfolding new
status-TellsTruth s (at_start now ms) = inr (refl, refl)
status-TellsTruth s' (after {s} r st) = step-TellsTruth s s' st (status-TellsTruth s r)

abbrev pub IsLatest : Status → Subscriber → Type 0
IsLatest t c = (c.1 ≡ none) ⊎ (c.1 ≡ some t)

all-IsLatest :
    (t : Status) (subs : List Subscriber) → All (IsLatest t) (map (λ c. (c.0, some t)) subs)
all-IsLatest t [] = tt
all-IsLatest t (c ∷ subs) = (inr refl, all-IsLatest t subs)

kept-IsLatest :
    (t : Status) (p : Subscriber → Bool) (subs : List Subscriber)
    → All (IsLatest t) subs
    → All (IsLatest t) (keep p subs)
unfolding keep
kept-IsLatest t p [] h = tt
kept-IsLatest t p (c ∷ subs) h = ground (arith, kept-IsLatest t p subs h.1)

forgot-IsLatest :
    (t : Status) (x : ℕ) (subs : List Subscriber)
    → All (IsLatest t) subs
    → All (IsLatest t) (map (forget x) subs)
forgot-IsLatest t x [] h = tt
forgot-IsLatest t x (c ∷ subs) h = elim (Bool-cases (c.0 == x)) [
  | inl same ↦ (rw same (inl refl), forgot-IsLatest t x subs h.1)
  | inr differ ↦ (rw differ h.0, forgot-IsLatest t x subs h.1)
]

-- A channel of a subscriber never holds a status that is out of date.
pub subscribers-IsLatest : (s : State) → Reachable s → All (IsLatest s.status) s.subs
unfolding new set_status subscribe unsubscribe receive begin_read begin_analysis fail_analysis
    end_analysis swap discard tell release close
subscribers-IsLatest s (at_start now ms) = tt
subscribers-IsLatest s' (after {s} r (subscribing c)) = (inl refl, subscribers-IsLatest s r)
subscribers-IsLatest s' (after {s} r (unsubscribing c)) =
    kept-IsLatest s.status (λ x. not (x.0 == c)) s.subs (subscribers-IsLatest s r)
subscribers-IsLatest s' (after {s} r (receiving c)) =
    forgot-IsLatest s.status c s.subs (subscribers-IsLatest s r)
subscribers-IsLatest s' (after {s} r (reading p e)) = subscribers-IsLatest s r
subscribers-IsLatest s' (after {s} r (read front back p e)) = subscribers-IsLatest s r
subscribers-IsLatest s' (after {s} r (beginning now e)) = all-IsLatest _ s.subs
subscribers-IsLatest s' (after {s} r (failing m now e)) = all-IsLatest _ s.subs
subscribers-IsLatest s' (after {s} r (ending e)) = subscribers-IsLatest s r
subscribers-IsLatest s' (after {s} r (swapping next old e free c)) = subscribers-IsLatest s r
subscribers-IsLatest s' (after {s} r (discarding next e free c)) = subscribers-IsLatest s r
subscribers-IsLatest s' (after {s} r (telling old now ms e)) = all-IsLatest _ s.subs
subscribers-IsLatest s' (after {s} r (releasing old e)) = subscribers-IsLatest s r
subscribers-IsLatest s' (after {s} r (closing old free c)) = subscribers-IsLatest s r
