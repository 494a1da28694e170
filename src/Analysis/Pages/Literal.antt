-- ===== src/Analysis/Pages/Literal.antt =====
-- A pattern matches a path only by a literal segment (internal/analysis/pages.go, matchScore).
use interactivecodebase.Base.{
  ℕ, zero, suc, ◌+◌, ◌-◌, ◌<◌, ltb, ◌≡◌, refl, sym, ◌⊎◌, inl, inr, String, ◌==◌, ==_iff, string_eq,
  nat_eq, Bool, true, false, not, ◌&&◌, ◌||◌, List, [], ◌∷◌, length, In, arith, Bool-cases,
  if◌then◌else◌,
}
use interactivecodebase.Base.Text.{has_suffix, contains_text}
use interactivecodebase.Analysis.Values.{unknown}
use interactivecodebase.Analysis.Pages.{
  is_wildcard, tail_score, drop, suffix_score, score_from, match_score, segments,
}

Shared : List String → List String → Type 0
Shared ps us = (s : String) × In s ps × In s us

Shared-later : (p u : String) (ps us : List String) → Shared ps us → Shared (p ∷ ps) (u ∷ us)
unfolding Shared
Shared-later p u ps us (s, m, n) = (s, inr m, inr n)

Shared-first : (p u : String) (ps us : List String) → (u == p) ≡ true → Shared (p ∷ ps) (u ∷ us)
unfolding Shared
Shared-first p u ps us h = (p, inl refl, inl (sym ((==_iff u p).0 h)))

tail_score-Shared : (ps us : List String) (n : ℕ) → 0 < tail_score ps us n → (0 < n) ⊎ Shared ps us
unfolding tail_score
tail_score-Shared [] us n h = inl h
tail_score-Shared (p ∷ ps) [] n h = inl h
tail_score-Shared (p ∷ ps) (u ∷ us) n h =
    by_test (tail_score-Shared ps us n) (u == p)
      ((is_wildcard p && not (u == "")) || contains_text u unknown) refl h
  where
    by_test :
        (0 < tail_score ps us n → (0 < n) ⊎ Shared ps us)
        → (same other : Bool) → (u == p) ≡ same
        → 0 < (if same then tail_score ps us (suc n) else if other then tail_score ps us n else 0)
        → (0 < n) ⊎ Shared (p ∷ ps) (u ∷ us)
    by_test rest true other e k = inr (Shared-first p u ps us e)
    by_test rest false true e k = elim (rest k) [
      | inl pos ↦ inl pos
      | inr later ↦ inr (Shared-later p u ps us later)
    ]
    by_test rest false false e k = absurd (elim k [ ])

In-drop : (n : ℕ) (xs : List String) (x : String) → In x (drop n xs) → In x xs
unfolding drop
In-drop zero xs x m = m
In-drop (suc n) [] x m = m
In-drop (suc n) (y ∷ xs) x m = inr (In-drop n xs x m)

suffix_score-Shared : (ps us : List String) → 0 < suffix_score ps us → Shared ps us
unfolding suffix_score Shared
suffix_score-Shared ps [] h = absurd (elim h [ ])
suffix_score-Shared ps (u ∷ []) h = absurd (elim h [ ])
suffix_score-Shared ps (first ∷ u ∷ us) h =
    by_test (not (first == unknown) || ltb (length ps) (length (first ∷ u ∷ us))) h
  where
    by_test :
        (b : Bool)
        → 0 < (if b then 0 else tail_score (drop (length ps - length us - 1) ps) (u ∷ us) 0)
        → (s : String) × In s ps × In s (first ∷ u ∷ us)
    by_test true k = absurd (elim k [ ])
    by_test false k = elim (tail_score-Shared (drop (length ps - length us - 1) ps) (u ∷ us) 0 k) [
      | inl none_yet ↦ absurd (elim none_yet [ ])
      | inr later ↦ let (s, m, n) = later in (s, In-drop (length ps - length us - 1) ps s m, inr n)
    ]

score_from-Shared :
    (otherwise : ℕ) (ps us : List String) (score n : ℕ)
    → 0 < score_from otherwise ps us score n
    → (0 < otherwise) ⊎ ((0 < n) ⊎ Shared ps us)
unfolding score_from
score_from-Shared otherwise [] [] score n h = ground arith
score_from-Shared otherwise [] (u ∷ us) score n h = inl h
score_from-Shared otherwise (p ∷ ps) [] score n h = ground arith
score_from-Shared otherwise (p ∷ ps) (u ∷ us) score n h =
    by_test (λ more. score_from-Shared otherwise ps us more n)
      (is_wildcard p && has_suffix p "...}") (u == p) (is_wildcard p && not (u == ""))
      (contains_text u unknown) refl h
  where
    Rests : Type 0
    Rests =
        (more : ℕ)
        → 0 < score_from otherwise ps us more n
        → (0 < otherwise) ⊎ ((0 < n) ⊎ Shared ps us)

    later :
        ((0 < otherwise) ⊎ ((0 < n) ⊎ Shared ps us))
        → (0 < otherwise) ⊎ ((0 < n) ⊎ Shared (p ∷ ps) (u ∷ us))
    later found = elim found [
      | inl o ↦ inl o
      | inr more ↦ elim more [
        | inl pos ↦ inr (inl pos)
        | inr s ↦ inr (inr (Shared-later p u ps us s))
      ]
    ]

    by_test :
        Rests
        → (all same held guessed : Bool) → (u == p) ≡ same
        → 0 < (
            if all
            then (if n == 0 then 0 else score + 1)
            else if same
            then score_from otherwise ps us (score + 3) (suc n)
            else if held
            then score_from otherwise ps us (score + 2) n
            else if guessed
            then score_from otherwise ps us (score + 1) n
            else otherwise)
        → (0 < otherwise) ⊎ ((0 < n) ⊎ Shared (p ∷ ps) (u ∷ us))
    by_test rest true same held guessed e k = inr (inl (ground arith))
    by_test rest false true held guessed e k = inr (inr (Shared-first p u ps us e))
    by_test rest false false true guessed e k = later (rest (score + 2) k)
    by_test rest false false false true e k = later (rest (score + 1) k)
    by_test rest false false false false e k = inl k

-- A pattern that matches a path is that of the root, as is the path, or has a segment that is written in the path.
pub match_score-Shared :
    (pattern path : String)
    → 0 < match_score pattern path
    → (((pattern ≡ "/") ⊎ (pattern ≡ "/{$}")) × (path ≡ "/"))
      ⊎ ((s : String) × In s (segments pattern) × In s (segments path))
unfolding match_score Shared
match_score-Shared pattern path = by_test (pattern == "/" || pattern == "/{$}") refl
  where
    scored : ℕ
    scored =
        score_from (suffix_score (segments pattern) (segments path)) (segments pattern)
          (segments path) 0 0

    by_test :
        (b : Bool)
        → (pattern == "/" || pattern == "/{$}") ≡ b
        → 0 < (if b then (if path == "/" then 3 else 0) else scored)
        → (((pattern ≡ "/") ⊎ (pattern ≡ "/{$}")) × (path ≡ "/"))
          ⊎ ((s : String) × In s (segments pattern) × In s (segments path))
    by_test true e k = inl (
      (elim (Bool-cases (pattern == "/")) [
        | inl h ↦ inl ((==_iff pattern "/").0 h)
        | inr h ↦ inr ((==_iff pattern "/{$}").0 (ground arith))
      ]),
      elim (Bool-cases (path == "/")) [
        | inl h ↦ (==_iff path "/").0 h
        | inr h ↦ absurd (ground arith)
      ],
    )
    by_test false e k =
        inr
          (elim (score_from-Shared (suffix_score (segments pattern) (segments path))
            (segments pattern) (segments path) 0 0 k) [
              | inl suffix ↦ suffix_score-Shared (segments pattern) (segments path) suffix
              | inr found ↦ elim found [ inl none_yet ↦ absurd (elim none_yet [ ]) | inr s ↦ s ]
            ])
