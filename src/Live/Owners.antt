-- ===== src/Live/Owners.antt =====
-- Who holds an analysis (internal/live/live.go).
use interactivecodebase.Base.{
  ℕ, ◌==◌, nat_eq, if◌then◌else◌, suc, ◌≤◌, ◌<◌, ◌+◌, ◌≡◌, Option, none, some, List, [], ◌∷◌, ◌++◌,
  All, In, All-In, arith,
}
use interactivecodebase.Live.{
  Phase, idle, analyzing, analyzed, swapped, told, subscribing, unsubscribing, receiving, reading,
  read, beginning, failing, ending, swapping, discarding, telling, releasing, closing, at_start,
  after, State, Step, Reachable, new, set_status, subscribe, unsubscribe, receive, begin_read,
  begin_analysis, fail_analysis, end_analysis, swap, discard, tell, release, close,
}

abbrev pub phase_held : Phase → List ℕ
phase_held idle = []
phase_held analyzing = []
phase_held (analyzed n) = n ∷ []
phase_held (swapped old) = old ∷ []
phase_held (told old) = old ∷ []

abbrev pub current_held : Option ℕ → List ℕ
current_held none = []
current_held (some p) = p ∷ []

unfoldable pub count : ℕ → List ℕ → ℕ
count x [] = 0
count x (y ∷ ys) = let rest = count x ys in if x == y then suc rest else rest

-- How often an analysis is in hand, current or released.
abbrev pub holders : ℕ → State → ℕ
holders x s = count x (phase_held s.phase) + (count x (current_held s.current) + count x s.released)

-- Those made are held once, and no others.
abbrev pub HeldOnce : ℕ → State → Type 0
HeldOnce x s = (x < s.made → holders x s ≡ 1) × (s.made ≤ x → holders x s ≡ 0)

step-HeldOnce : (x : ℕ) (s s' : State) → Step s s' → HeldOnce x s → HeldOnce x s'
unfolding set_status subscribe unsubscribe receive begin_read begin_analysis fail_analysis
    end_analysis swap discard tell release close count nat_eq
step-HeldOnce x s s' (subscribing c) h = h
step-HeldOnce x s s' (unsubscribing c) h = h
step-HeldOnce x s s' (receiving c) h = h
step-HeldOnce x s s' (reading p e) h = h
step-HeldOnce x s s' (read front back p e) h = h
step-HeldOnce x s s' (beginning now e) h = rw e at h
step-HeldOnce x s s' (failing m now e) h = rw e at h
step-HeldOnce x s s' (ending e) h = let k = (rw e at h) in ground arith
step-HeldOnce x s s' (swapping next old e free c) h = let k = (rw (e, c) at h) in ground arith
step-HeldOnce x s s' (discarding next e free c) h = let k = (rw (e, c) at h) in rw c (ground arith)
step-HeldOnce x s s' (telling old now ms e) h = rw e at h
step-HeldOnce x s s' (releasing old e) h = let k = (rw e at h) in ground arith
step-HeldOnce x s s' (closing old free c) h = let k = (rw c at h) in ground arith

-- Each analysis that was made is held exactly once: it is the one that Reanalyze has in hand, or the current one, or
-- it was released, and only once.
pub held_once : (s : State) (x : ℕ) → Reachable s → HeldOnce x s
unfolding new count nat_eq
held_once s x (at_start now ms) = ground arith
held_once s' x (after {s} r st) = step-HeldOnce x s s' st (held_once s x r)

abbrev Reading : State → Type 0
Reading s = All (λ r. s.current ≡ some r) s.readers

All-removed :
    (P : ℕ → Type 0) (front back : List ℕ) (p : ℕ)
    → All P (front ++ p ∷ back)
    → All P (front ++ back)
All-removed P [] back p h = h.1
All-removed P (x ∷ front) back p h = (h.0, All-removed P front back p h.1)

none_read : (P : ℕ → Type 0) (rs : List ℕ) → rs ≡ [] → All P rs
none_read P rs e = rw e tt

step-Reading : (s s' : State) → Step s s' → Reading s → Reading s'
unfolding set_status subscribe unsubscribe receive begin_read begin_analysis fail_analysis
    end_analysis swap discard tell release close
step-Reading s s' (subscribing c) h = h
step-Reading s s' (unsubscribing c) h = h
step-Reading s s' (receiving c) h = h
step-Reading s s' (reading p e) h = (e, h)
step-Reading s s' (read front back p e) h =
    All-removed (λ r. s.current ≡ some r) front back p (rw e at h)
step-Reading s s' (beginning now e) h = h
step-Reading s s' (failing m now e) h = h
step-Reading s s' (ending e) h = h
step-Reading s s' (swapping next old e free c) h =
    none_read (λ r. some next ≡ some r) s.readers free
step-Reading s s' (discarding next e free c) h = h
step-Reading s s' (telling old now ms e) h = h
step-Reading s s' (releasing old e) h = h
step-Reading s s' (closing old free c) h = none_read (λ r. none ≡ some r) s.readers free

Reading-of_Reachable : (s : State) → Reachable s → Reading s
unfolding new
Reading-of_Reachable s (at_start now ms) = tt
Reading-of_Reachable s' (after {s} r st) = step-Reading s s' st (Reading-of_Reachable s r)

count-In : (x : ℕ) (xs : List ℕ) → In x xs → 0 < count x xs
unfolding count nat_eq
count-In x [] m = absurd m
count-In x (y ∷ ys) m = ground (arith, count-In x ys)

-- What a call of With reads is the current analysis, and was not released.
pub readers_safe :
    (s : State) (p : ℕ)
    → Reachable s
    → In p s.readers
    → (s.current ≡ some p) × (In p s.released → ⊥)
unfolding count nat_eq
readers_safe s p r m =
    let c = All-In (λ q. s.current ≡ some q) p s.readers (Reading-of_Reachable s r) m in
    let once : HeldOnce p s = held_once s p r in
    (c, λ there. let k = (rw c at once) in ground (arith, count-In p s.released there))
