-- ===== src/Graph/Resolve/Meaning.antt =====
-- What Resolve returns (internal/graph/resolve.go).
use interactivecodebase.Base.{
  All, Option, ◌↔◌, arith, ok-inj, ℕ, ◌≡◌, refl, ◌∙◌, ap, inl, inr, ◌⊎◌, String, none, some, List,
  [], ◌∷◌, keep, Result, ok, err, >>=-eq-ok, Result-cases,
}
use interactivecodebase.Base.Text.{has_suffix}
use interactivecodebase.Graph.Model.{Node, GraphError, not_found}
use interactivecodebase.Graph.Reader.{Reader}
use interactivecodebase.Graph.Resolve.{
  candidates, or_next, unique, first_found, by_suffix, pick, resolve,
}

err-ne-ok : {E A : Type 0} {e : E} {a : A} → ◌≡◌ {A = Result E A} (err e) (ok a) → ⊥
err-ne-ok h = cc

some-inj : {A : Type 0} {a b : A} → some a ≡ some b → a ≡ b
some-inj h = cc

or_next-ok :
    {A : Type 0} (e : GraphError) (r : Result GraphError A) (a : A)
    → or_next e r ≡ ok a
    → ((id : String) × (e ≡ not_found id)) × (r ≡ ok a)
or_next-ok (not_found id) r a h = ((id, refl), h)
or_next-ok e r a h = cc

one_match :
    (all : List Node) (ids : List String) (ref : String) (n : Node)
    → unique ref ids all ≡ ok n
    → all ≡ n ∷ []
one_match [] ids ref n h = cc
one_match (m ∷ []) ids ref n h = ap (λ x. x ∷ []) (ok-inj h)
one_match (m ∷ k ∷ more) ids ref n h = cc

module _ (g : Reader) (search : String → ℕ → Result GraphError (List Node)) where
  -- The graph has no node for the id.
  abbrev pub IsMissing : String → Type 0
  IsMissing id = (missing : String) × (g.node id ≡ err (not_found missing))

  -- The node that the graph gives for the first of the ids for which it has one.
  abbrev pub IsFirst : List String → Node → Type 0
  IsFirst [] n = ⊥
  IsFirst (id ∷ ids) n = (g.node id ≡ ok n) ⊎ (IsMissing id × IsFirst ids n)

  -- Among the nodes that a search gives, which are at most eleven, it is the only one, or the only one whose id ends
  -- with the text.
  abbrev pub IsOnlyHit : String → Node → Type 0
  IsOnlyHit ref n =
      (nodes : List Node) × (search ref 11 ≡ ok nodes)
      × ((nodes ≡ n ∷ []) ⊎ (keep (λ m. has_suffix m.id ref) nodes ≡ n ∷ []))

  first_found-some :
      (ids : List String) (n : Node) → first_found g search ids ≡ ok (some n) → IsFirst ids n
  unfolding first_found
  first_found-some [] n h = cc
  first_found-some (id ∷ ids) n h = elim (Result-cases (g.node id)) [
    | inr (m, found) ↦ inl (found ∙ ap ok (some-inj (ok-inj (rw (found, first_found) at h))))
    | inl (e, failed) ↦
        let ((missing, same), rest) =
          or_next-ok e (first_found g search ids) (some n) (rw (failed, first_found) at h) in
        inr ((missing, failed ∙ ap err same), first_found-some ids n rest)
  ]

  IsFirst-first_found :
      (ids : List String) (n : Node) → IsFirst ids n → first_found g search ids ≡ ok (some n)
  unfolding first_found
  IsFirst-first_found [] n h = absurd h
  IsFirst-first_found (id ∷ ids) n (inl h) = rw (h, first_found) refl
  IsFirst-first_found (id ∷ ids) n (inr ((missing, h), rest)) =
      rw (h, first_found) (IsFirst-first_found ids n rest)

  first_found-none : (ids : List String) → (first_found g search ids ≡ ok none) ↔ All IsMissing ids
  unfolding first_found
  first_found-none [] = (λ h. tt, λ h. refl)
  first_found-none (id ∷ ids) = (
    λ h. elim (Result-cases (g.node id)) [
      | inr (m, found) ↦ absurd (
          let it : ◌≡◌ {A = Result GraphError (Option Node)} (ok (some m)) (ok none) =
            rw (found, first_found) at h in
          cc)
      | inl (e, failed) ↦
          let ((missing, same), rest) =
            or_next-ok e (first_found g search ids) none (rw (failed, first_found) at h) in
          ((missing, failed ∙ ap err same), (first_found-none ids).0 rest)
    ],
    λ ((missing, h), rest). rw (h, first_found) ((first_found-none ids).1 rest),
  )

  pick_iff :
      (ref : String) (nodes : List Node) (n : Node)
      → (pick g search ref nodes ≡ ok n)
        ↔ ((nodes ≡ n ∷ []) ⊎ (keep (λ m. has_suffix m.id ref) nodes ≡ n ∷ []))
  unfolding pick by_suffix keep
  pick_iff ref [] n = (λ h. cc, λ h. elim h [ inl e ↦ cc | inr e ↦ cc ])
  pick_iff ref (m ∷ []) n = (
    λ h. inl (ap (λ x. x ∷ []) (ok-inj h)),
    λ h. ap ok (elim h [ inl e ↦ cc | inr e ↦ ground arith ]),
  )
  pick_iff ref (m ∷ k ∷ more) n = (
    λ h. inr (one_match (keep (λ x. has_suffix x.id ref) (m ∷ k ∷ more)) _ ref n h),
    λ h. elim h [ inl e ↦ cc | inr e ↦ ap (unique ref _) e ],
  )

  -- Resolve returns a node exactly if the graph gives it for the first of the ids that it has a node for, of the text
  -- itself and of the text behind the prefix of a kind; or if it has a node for none of them, and of the nodes that
  -- the search gives, which it asks for eleven of, it is the only one, or the only one whose id ends with the text.
  pub resolve_iff :
      (ref : String) (n : Node)
      → (resolve g search ref ≡ ok n)
        ↔ (IsFirst (candidates ref) n ⊎ (All IsMissing (candidates ref) × IsOnlyHit ref n))
  unfolding resolve
  resolve_iff ref n = (
    λ h. elim (Result-cases (first_found g search (candidates ref))) [
      | inl (e, failed) ↦ absurd (err-ne-ok (rw (failed, resolve) at h))
      | inr (some m, tried) ↦ inl (
          first_found-some (candidates ref) n
            (tried ∙ ap (λ x. ok (some x)) (ok-inj (rw (tried, resolve) at h))))
      | inr (none, tried) ↦
          let (nodes, searched, picked) = >>=-eq-ok (search ref 11) _ (rw (tried, resolve) at h) in
          inr (
            (first_found-none (candidates ref)).0 tried,
            (nodes, searched, (pick_iff ref nodes n).0 picked),
          )
    ],
    λ h. elim h [
      | inl first ↦
          let tried = IsFirst-first_found (candidates ref) n first in rw (tried, resolve) refl
      | inr (none_there, (nodes, searched, only)) ↦
          let tried = (first_found-none (candidates ref)).1 none_there in
          rw (tried, searched, resolve) ((pick_iff ref nodes n).1 only)
    ],
  )

  -- An id that is in the graph means its node, whatever the search would find.
  pub resolve_exact : (id : String) (n : Node) → g.node id ≡ ok n → resolve g search id ≡ ok n
  unfolding resolve first_found
  resolve_exact id n h = rw h refl
