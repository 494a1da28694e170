-- ===== src/Watch/Reports.antt =====
-- When changes are reported (internal/watch/watch.go, Run).
use interactivecodebase.Base.{
  In-of_contains, ℕ, ◌≤◌, ◌<◌, ◌+◌, ◌≡◌, ◌≢◌, refl, sym, ◌∙◌, ap, inl, inr, ◌↔◌, ◌⊎◌, String, true,
  false, ◌&&◌, ◌||◌, ltb, Option, none, some, List, [], ◌∷◌, ◌++◌, contains, string_eq, flat_map,
  All, In, In-append, Bool-cases, arith,
}
use interactivecodebase.Watch.{
  Options, FileState, Snapshot, State, state_of, diff, add_new, is_empty, same_state, scan, tick,
  run,
}
use interactivecodebase.Watch.Changes.{IsMap, same_state_iff, diff_iff}

is_empty_iff : (ps : List String) → (is_empty ps ≡ true) ↔ (ps ≡ [])
is_empty_iff [] = (λ h. refl, λ h. refl)
is_empty_iff (p ∷ ps) = (λ h. cc, λ h. cc)

In-add_new :
    (p : String) (pending ps : List String) → In p (add_new pending ps) ↔ (In p pending ⊎ In p ps)
unfolding add_new
In-add_new p pending [] = (λ m. inl m, λ m. elim m [ inl x ↦ x | inr e ↦ absurd e ])
In-add_new p pending (q ∷ ps) = elim (Bool-cases (contains pending q)) [
  | inl there ↦ rw there (
    λ m. elim ((In-add_new p pending ps).0 m) [ inl x ↦ inl x | inr x ↦ inr (inr x) ],
    λ m. (In-add_new p pending ps).1 (elim m [
      | inl x ↦ inl x
      | inr (inl same) ↦ inl (rw same (In-of_contains q pending there))
      | inr (inr x) ↦ inr x
    ]),
  )
  | inr new ↦ rw new (
    λ m. elim ((In-add_new p (pending ++ q ∷ []) ps).0 m) [
      | inl x ↦ elim ((In-append p pending (q ∷ [])).0 x) [
        | inl y ↦ inl y
        | inr (inl same) ↦ inr (inl same)
        | inr (inr y) ↦ absurd y
      ]
      | inr x ↦ inr (inr x)
    ],
    λ m. (In-add_new p (pending ++ q ∷ []) ps).1 (elim m [
      | inl x ↦ inl ((In-append p pending (q ∷ [])).1 (inl x))
      | inr (inl same) ↦ inl ((In-append p pending (q ∷ [])).1 (inr (inl same)))
      | inr (inr x) ↦ inr x
    ]),
  )
]

-- What a scan has done.
data Scanned (o : Options) (s : State) (now : ℕ) (cur : Snapshot) (s' : State) : Type 0 where
  unchanged :
      diff s.last cur ≡ []
      → s'.last ≡ s.last
      → s'.pending ≡ s.pending
      → s'.settle_at ≡ s.settle_at
      → Scanned o s now cur s'
  changed :
      diff s.last cur ≢ []
      → s'.last ≡ cur
      → s'.pending ≡ add_new s.pending (diff s.last cur)
      → s'.settle_at ≡ now + o.quiet
      → Scanned o s now cur s'

scan-cases :
    (o : Options) (s : State) (now : ℕ) (cur : Snapshot) → Scanned o s now cur (scan o s now cur)
unfolding scan
scan-cases o s now cur = elim (Bool-cases (is_empty (diff s.last cur))) [
  | inl none_new ↦
      rw none_new (unchanged ((is_empty_iff (diff s.last cur)).0 none_new) refl refl refl)
  | inr new ↦ rw new (changed (λ e. ground (arith, is_empty_iff (diff s.last cur))) refl refl refl)
]

-- What a tick has done.
data Ticked (o : Options) (s : State) (now : ℕ) (cur : Snapshot)
    : State × List String → Type 0 where
  idle : (s.pending ≡ []) ⊎ (now < s.settle_at) → Ticked o s now cur (s, [])
  waiting :
      ((scan o s now cur).pending ≡ []) ⊎ (now < (scan o s now cur).settle_at)
      → Ticked o s now cur (scan o s now cur, [])
  reported :
      (scan o s now cur).pending ≢ []
      → (scan o s now cur).settle_at ≤ now
      → Ticked o s now cur (record (scan o s now cur) { pending = [] }, (scan o s now cur).pending)

empty_or_early :
    (ps : List String) (now at : ℕ)
    → ((is_empty ps || ltb now at) ≡ true → (ps ≡ []) ⊎ (now < at))
      × ((is_empty ps || ltb now at) ≡ false → (ps ≢ []) × (at ≤ now))
empty_or_early ps now at = (ground (arith, is_empty_iff ps), ground (arith, is_empty_iff ps))

tick-cases :
    (o : Options) (s : State) (now : ℕ) (cur : Snapshot) → Ticked o s now cur (tick o s now cur)
unfolding tick
tick-cases o s now cur =
    let before = empty_or_early s.pending now s.settle_at in
    let after = empty_or_early (scan o s now cur).pending now (scan o s now cur).settle_at in
    elim (Bool-cases (ltb now s.next_scan && (is_empty s.pending || ltb now s.settle_at))) [
      | inl early ↦ rw early (idle (before.0 (ground arith)))
      | inr due ↦
          elim (Bool-cases
            (is_empty (scan o s now cur).pending || ltb now (scan o s now cur).settle_at)) [
              | inl wait ↦ rw (due, wait) (waiting (after.0 wait))
              | inr settled ↦ rw (due, settled) (reported (after.1 settled).0 (after.1 settled).1)
            ]
    ]

-- Where changes wait for some time, a tick calls `changed` exactly if some wait, their time has come, and a scan finds
-- nothing new; then with all that wait, and none waits after it.
pub tick_report :
    (o : Options) (s : State) (now : ℕ) (cur : Snapshot)
    → 0 < o.quiet
    → (((tick o s now cur).1 ≢ [])
        ↔ ((s.pending ≢ []) × (s.settle_at ≤ now) × (diff s.last cur ≡ [])))
      × ((tick o s now cur).1 ≢ []
          → ((tick o s now cur).1 ≡ s.pending) × ((tick o s now cur).0.pending ≡ []))
tick_report o s now cur quiet = ticked (tick o s now cur) (tick-cases o s now cur)
  where
    ticked :
        (r : State × List String)
        → Ticked o s now cur r
        → ((r.1 ≢ []) ↔ ((s.pending ≢ []) × (s.settle_at ≤ now) × (diff s.last cur ≡ [])))
          × (r.1 ≢ [] → (r.1 ≡ s.pending) × (r.0.pending ≡ []))
    ticked r (idle h) = ground arith
    ticked r (waiting h) = elim (scan-cases o s now cur) [
      | unchanged none_new last pending settle ↦ ground arith
      | changed new last pending settle ↦ ground arith
    ]
    ticked r (reported some_wait settled) = elim (scan-cases o s now cur) [
      | unchanged none_new last pending settle ↦ ground arith
      | changed new last pending settle ↦ ground arith
    ]

some-inj : {A : Type 0} {a b : A} → some a ≡ some b → a ≡ b
some-inj h = cc

state-cases : (a b : Option FileState) → (a ≡ b) ⊎ (a ≢ b)
state-cases none none = inl refl
state-cases none (some b) = inr (λ e. cc)
state-cases (some a) none = inr (λ e. cc)
state-cases (some a) (some b) = elim (Bool-cases (same_state a b)) [
  | inl same ↦ inl (ap some ((same_state_iff a b).0 same))
  | inr differ ↦ inr (λ e. ground (arith, (same_state_iff a b).1 (some-inj e)))
]

-- A path whose state a scan sees changed waits after it, and so does one that waited.
scan_covers :
    (o : Options) (s : State) (now : ℕ) (cur : Snapshot) (p : String)
    → IsMap s.last
    → IsMap cur
    → In p s.pending ⊎ (state_of s.last p ≢ state_of (scan o s now cur).last p)
    → In p (scan o s now cur).pending
scan_covers o s now cur p m mc h = elim (scan-cases o s now cur) [
  | unchanged none_new last pending settle ↦ rw pending (elim h [
    | inl waits ↦ waits
    | inr differ ↦ absurd (differ (ap (λ x. state_of x p) (sym last)))
  ])
  | changed new last pending settle ↦ rw pending (
      (In-add_new p s.pending (diff s.last cur)).1 (elim h [
        | inl waits ↦ inl waits
        | inr differ ↦ inr ((diff_iff s.last cur p m mc).0.1 (rw last at differ))
      ]))
]

tick_covers :
    (o : Options) (s : State) (now : ℕ) (cur : Snapshot) (p : String)
    → IsMap s.last
    → IsMap cur
    → In p s.pending ⊎ (state_of s.last p ≢ state_of (tick o s now cur).0.last p)
    → In p (tick o s now cur).0.pending ⊎ In p (tick o s now cur).1
tick_covers o s now cur p m mc = covered (tick o s now cur) (tick-cases o s now cur)
  where
    covered :
        (r : State × List String)
        → Ticked o s now cur r
        → In p s.pending ⊎ (state_of s.last p ≢ state_of r.0.last p)
        → In p r.0.pending ⊎ In p r.1
    covered r (idle early) (inl waits) = inl waits
    covered r (idle early) (inr differ) = absurd (differ refl)
    covered r (waiting early) h = inl (scan_covers o s now cur p m mc h)
    covered r (reported some_wait settled) h = inr (scan_covers o s now cur p m mc h)

scan-IsMap :
    (o : Options) (s : State) (now : ℕ) (cur : Snapshot)
    → IsMap s.last
    → IsMap cur
    → IsMap (scan o s now cur).last
scan-IsMap o s now cur m mc = elim (scan-cases o s now cur) [
  | unchanged none_new last pending settle ↦ rw last m
  | changed new last pending settle ↦ rw last mc
]

tick-IsMap :
    (o : Options) (s : State) (now : ℕ) (cur : Snapshot)
    → IsMap s.last
    → IsMap cur
    → IsMap (tick o s now cur).0.last
tick-IsMap o s now cur m mc = mapped (tick o s now cur) (tick-cases o s now cur)
  where
    mapped : (r : State × List String) → Ticked o s now cur r → IsMap r.0.last
    mapped r (idle early) = m
    mapped r (waiting early) = scan-IsMap o s now cur m mc
    mapped r (reported some_wait settled) = scan-IsMap o s now cur m mc

-- No change is lost: a path that waits when the ticks begin, or whose state differs between the first scan and the
-- last one, is waiting at the end or was reported.
pub run_covers :
    (o : Options) (s : State) (ticks : List (ℕ × Snapshot)) (p : String)
    → IsMap s.last
    → All (λ t. IsMap t.1) ticks
    → In p s.pending ⊎ (state_of s.last p ≢ state_of (run o s ticks).0.last p)
    → In p (run o s ticks).0.pending ⊎ In p (flat_map (λ r. r) (run o s ticks).1)
unfolding run flat_map
run_covers o s [] p m ms h = ground arith
run_covers o s ((now, cur) ∷ ticks) p m ms h =
    let s' = (tick o s now cur).0 in
    let report = (tick o s now cur).1 in
    let m' = tick-IsMap o s now cur m ms.0 in
    let rest = run_covers o s' ticks p m' ms.1 in
    let all = (In-append p report (flat_map (λ r. r) (run o s' ticks).1)).1 in
    let later : In p s'.pending ⊎ (state_of s'.last p ≢ state_of (run o s' ticks).0.last p)
        → In p (run o s' ticks).0.pending ⊎ In p (report ++ flat_map (λ r. r) (run o s' ticks).1) =
      λ k. elim (rest k) [ inl waits ↦ inl waits | inr told ↦ inr (all (inr told)) ] in
    let now_covered : In p s.pending ⊎ (state_of s.last p ≢ state_of s'.last p)
        → In p (run o s' ticks).0.pending ⊎ In p (report ++ flat_map (λ r. r) (run o s' ticks).1) =
      λ k. elim (tick_covers o s now cur p m ms.0 k) [
        | inl waits ↦ later (inl waits)
        | inr told ↦ inr (all (inl told))
      ] in
    elim h [
      | inl waits ↦ now_covered (inl waits)
      | inr differ ↦ elim (state-cases (state_of s.last p) (state_of s'.last p)) [
        | inl equal ↦ later (inr (λ e. differ (equal ∙ e)))
        | inr moved ↦ now_covered (inr moved)
      ]
    ]
