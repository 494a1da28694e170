-- ===== src/Watch/Changes.antt =====
-- What a comparison of two snapshots lists (internal/watch/watch.go, diff).
use interactivecodebase.Base.{
  ◌≡◌, ◌≢◌, refl, sym, ◌∙◌, ap, ap₂, inl, inr, ◌↔◌, ◌⊎◌, String, ◌==◌, ==_iff, nat_eq, string_eq,
  Bool, true, not, Option, none, some, [], ◌∷◌, ◌++◌, map, keep, In, In-append, In-keep, In-map,
  Bool-cases, arith,
}
use interactivecodebase.Base.Sort.{IsSorted, sort_by-IsSorted, In-sort_by}
use interactivecodebase.Base.Text.{text_le, text_le_total, text_le_trans}
use interactivecodebase.Watch.{FileState, same_state, Snapshot, state_of, differs, is_none, diff}

-- A map has each path once.
abbrev pub IsMap : Snapshot → Type 0
IsMap [] = Unit
IsMap ((p, s) ∷ more) = (state_of more p ≡ none) × IsMap more

some-inj : {A : Type 0} {a b : A} → some a ≡ some b → a ≡ b
some-inj h = cc

none-ne-some : {A : Type 0} {a : A} → none ≢ some a
none-ne-some h = cc

In-state_of :
    (snap : Snapshot) (p : String) (s : FileState) → state_of snap p ≡ some s → In (p, s) snap
unfolding state_of
In-state_of [] p s h = cc
In-state_of ((q, t) ∷ more) p s h = elim (Bool-cases (q == p)) [
  | inl same ↦
      inl (
        ap₂ (λ x y. (x, y)) (sym ((==_iff q p).0 same)) (sym (some-inj (rw (same, state_of) at h))))
  | inr differ ↦ inr (In-state_of more p s (rw (differ, state_of) at h))
]

state_of-In :
    (snap : Snapshot) (p : String) (s : FileState)
    → IsMap snap
    → In (p, s) snap
    → state_of snap p ≡ some s
unfolding state_of
state_of-In [] p s m here = absurd here
state_of-In ((q, t) ∷ more) p s m here = elim here [
  | inl e ↦
      let same : (q == p) ≡ true = (==_iff q p).1 (sym (ap (λ x. x.0) e)) in
      rw (same, state_of) (ap some (sym (ap (λ x. x.1) e)))
  | inr later ↦ elim (Bool-cases (q == p)) [
    | inr differ ↦ rw (differ, state_of) (state_of-In more p s m.1 later)
    | inl same ↦
        let found = state_of-In more p s m.1 later in
        absurd (none-ne-some (sym m.0 ∙ rw (sym ((==_iff q p).0 same)) at found))
  ]
]

same_fields : (a b : FileState) → a.size ≡ b.size → a.mod_time ≡ b.mod_time → a ≡ b
same_fields a b size time = ap₂ (λ x y. record { size = x; mod_time = y }) size time

pub same_state_iff : (a b : FileState) → (same_state a b ≡ true) ↔ (a ≡ b)
same_state_iff a b = (λ h. same_fields a b (ground arith) (ground arith), λ e. ground arith)

true-ne-false : {b : Bool} → b ≡ true → not b ≡ true → ⊥
true-ne-false h k = ground arith

listed_iff :
    (test : String → FileState → Bool) (snap : Snapshot) (p : String)
    → IsMap snap
    → In p (map (λ e. e.0) (keep (λ e. test e.0 e.1) snap))
      ↔ ((s : FileState) × (state_of snap p ≡ some s) × (test p s ≡ true))
listed_iff test snap p m = (
  λ here.
      let ((q, s), kept, named) = (In-map (λ e. e.0) p (keep (λ e. test e.0 e.1) snap)).0 here in
      let (there, passed) = (In-keep (λ e. test e.0 e.1) (q, s) snap).0 kept in
      (s, rw named (state_of-In snap q s m there), rw named passed),
  λ (s, found, passed). (In-map (λ e. e.0) p (keep (λ e. test e.0 e.1) snap)).1 (
    (p, s),
    (In-keep (λ e. test e.0 e.1) (p, s) snap).1 (In-state_of snap p s found, passed),
    refl,
  ),
)

-- The two reasons to list a path, and the comparison of its states.
listed_or_gone :
    (o n : Option FileState)
    → (((s : FileState) × (n ≡ some s) × (differs o s ≡ true))
        ⊎ ((s : FileState) × (o ≡ some s) × (is_none n ≡ true)))
      ↔ (o ≢ n)
listed_or_gone none none = (
  λ h. elim h [ inl x ↦ absurd (none-ne-some x.1) | inr x ↦ absurd (none-ne-some x.1) ],
  λ h. absurd (h refl),
)
listed_or_gone none (some t) = (λ h. none-ne-some, λ h. inl (t, refl, refl))
listed_or_gone (some u) none = (λ h e. none-ne-some (sym e), λ h. inr (u, refl, refl))
listed_or_gone (some u) (some t) = (
  λ h e. elim h [
    | inl (s, same, differ) ↦
        absurd (true-ne-false ((same_state_iff u s).1 (some-inj (e ∙ same))) differ)
    | inr (s, _, absent) ↦ cc
  ],
  λ h. elim (Bool-cases (same_state u t)) [
    | inl same ↦ absurd (h (ap some ((same_state_iff u t).0 same)))
    | inr differ ↦ inl (t, refl, rw differ refl)
  ],
)

-- The changed paths of two scans are those whose state is not the same: new, removed or modified ones, in order.
pub diff_iff :
    (a b : Snapshot) (p : String)
    → IsMap a
    → IsMap b
    → ((In p (diff a b)) ↔ (state_of a p ≢ state_of b p)) × IsSorted text_le (diff a b)
unfolding diff
diff_iff a b p ma mb =
    let news = listed_iff (λ q s. differs (state_of a q) s) b p mb in
    let gone = listed_iff (λ q s. is_none (state_of b q)) a p ma in
    let listed = listed_or_gone (state_of a p) (state_of b p) in
    let first = map (λ e. e.0) (keep (λ e. differs (state_of a e.0) e.1) b) in
    let second = map (λ e. e.0) (keep (λ e. is_none (state_of b e.0)) a) in
    let sorted = In-sort_by text_le p (first ++ second) in
    let both = In-append p first second in
    (
      (
        λ here.
            listed.0
              (elim (both.0 (sorted.0 here)) [ inl x ↦ inl (news.0 x) | inr x ↦ inr (gone.0 x) ]),
        λ h.
            sorted.1
              (both.1 (elim (listed.1 h) [ inl x ↦ inl (news.1 x) | inr x ↦ inr (gone.1 x) ])),
      ),
      sort_by-IsSorted text_le text_le_total text_le_trans (first ++ second),
    )
