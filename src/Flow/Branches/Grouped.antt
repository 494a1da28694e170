-- ===== src/Flow/Branches/Grouped.antt =====
-- groupParallel (internal/flow/flow.go) keeps the steps and puts each group together.
use mathlib.Core.List.{Perm}
use mathlib.Core.List.Perm
use interactivecodebase.Base.{
  ◌≡◌, ◌≢◌, refl, ap, ◌∙◌, subst, inl, inr, String, ◌==◌, string_eq, true, false, not, List, [],
  ◌∷◌, ◌++◌, arith, keep, any, contains, All, All-append, Bool-cases,
}
use interactivecodebase.Base.Sort.{sort_by, sort_by-perm, sort_by-All}
use interactivecodebase.Base.Perms.{keep_yes, keep_no, keep_split}
use interactivecodebase.Graph.Model.{attr}
use interactivecodebase.Flow.Tree.{Step, id_of, group_of}
use interactivecodebase.Flow.Branches.{step_le, placeholder, outline, members, fill, group_parallel}

placeholder_group : (g : String) → group_of (placeholder g) ≡ g
unfolding attr
placeholder_group g = ground arith

-- The steps whose group is not in `seen`.
abbrev fresh : List String → List Step → List Step
fresh seen = keep (λ s. not (contains seen (group_of s)))

members_split :
    (g : String) (seen : List String) (ss : List Step)
    → contains seen g ≡ false
    → Perm (members g ss ++ fresh (g ∷ seen) ss) (fresh seen ss)
unfolding members contains
members_split g seen ss new =
    keep_split (λ s. group_of s == g) (λ s. not (contains (g ∷ seen) (group_of s)))
      (λ s. not (contains seen (group_of s))) ss (λ s h. (ground arith, ground arith))
      (λ s h. ground arith)

outline_alone :
    (seen : List String) (s : Step) (ss : List Step)
    → group_of s ≡ ""
    → outline seen (s ∷ ss) ≡ s ∷ outline seen ss
unfolding outline
outline_alone seen s ss h = ground arith

outline_old :
    (seen : List String) (s : Step) (ss : List Step)
    → group_of s ≢ ""
    → contains seen (group_of s) ≡ true
    → outline seen (s ∷ ss) ≡ outline seen ss
unfolding outline
outline_old seen s ss h old = ground arith

outline_new :
    (seen : List String) (s : Step) (ss : List Step)
    → group_of s ≢ ""
    → contains seen (group_of s) ≡ false
    → outline seen (s ∷ ss) ≡ placeholder (group_of s) ∷ outline (group_of s ∷ seen) ss
unfolding outline
outline_new seen s ss h new = ground arith

members_ne :
    (g : String) (s : Step) (ss : List Step) → g ≢ group_of s → members g (s ∷ ss) ≡ members g ss
unfolding members keep
members_ne g s ss h = ground arith

-- The group of the first step with all that is fresh beside it.
members_fresh :
    (seen : List String) (s : Step) (ss : List Step)
    → contains seen (group_of s) ≡ false
    → Perm (members (group_of s) (s ∷ ss) ++ fresh (group_of s ∷ seen) ss) (fresh seen (s ∷ ss))
unfolding members contains
members_fresh seen s ss new =
    rw
      (
        keep_yes (λ x. group_of x == group_of s) s ss (ground arith),
        keep_yes (λ x. not (contains seen (group_of x))) s ss (ground arith),
      )
      (Perm.cons s (members_split (group_of s) seen ss new))

module _ (all : List Step) where
  fill_step : (s : Step) (out : List Step) → id_of s ≢ "" → fill all (s ∷ out) ≡ s ∷ fill all out
  unfolding fill
  fill_step s out h = ground arith

  fill-placeholder :
      (g : String) (out : List Step)
      → fill all (placeholder g ∷ out) ≡ sort_by step_le (members g all) ++ fill all out
  unfolding fill
  fill-placeholder g out = ground (arith, placeholder_group g)

  -- Groups that were not seen have all their members still to come.
  abbrev AllToCome : List String → List Step → Type 0
  AllToCome seen ss = (g : String) → g ≢ "" → contains seen g ≡ false → members g all ≡ members g ss

  fill-outline :
      (seen : List String) (ss : List Step)
      → All (λ s. id_of s ≢ "") ss
      → contains seen "" ≡ false
      → AllToCome seen ss
      → Perm (fill all (outline seen ss)) (fresh seen ss)
  unfolding contains
  fill-outline seen [] named no_blank come = unfold fill outline keep in Perm.refl []
  fill-outline seen (s ∷ ss) named no_blank come = elim (string_eq.dec (group_of s) "") [
    | yes alone ↦
        rw
          (
            outline_alone seen s ss alone,
            fill_step s (outline seen ss) named.0,
            keep_yes (λ x. not (contains seen (group_of x))) s ss (ground arith),
          )
          (Perm.cons s (
            fill-outline seen ss named.1 no_blank
              (λ g ne new. come g ne new ∙ members_ne g s ss (λ e. ne (e ∙ alone)))))
    | no grouped ↦ elim (Bool-cases (contains seen (group_of s))) [
      | inl old ↦
          rw
            (
              outline_old seen s ss grouped old,
              keep_no (λ x. not (contains seen (group_of x))) s ss (ground arith),
            )
            (fill-outline seen ss named.1 no_blank
              (λ g ne new. come g ne new ∙ members_ne g s ss (λ e. ground arith)))
      | inr new ↦
          let rest =
            fill-outline (group_of s ∷ seen) ss named.1 (ground arith)
              (λ g ne unseen. come g ne (ground arith) ∙ members_ne g s ss (λ e. ground arith)) in
          rw
            (
              outline_new seen s ss grouped new,
              fill-placeholder (group_of s) (outline (group_of s ∷ seen) ss),
              come (group_of s) grouped new,
            )
            (Perm.trans (Perm.append (sort_by-perm step_le (members (group_of s) (s ∷ ss))) rest)
              (members_fresh seen s ss new))
    ]
  ]

fresh_all : (ss : List Step) → fresh [] ss ≡ ss
unfolding keep contains
fresh_all [] = refl
fresh_all (s ∷ ss) = ap (◌∷◌ s) (fresh_all ss)

-- groupParallel gives back the same steps in another order, if each has a node id (which the graph
-- does not let be empty).
pub group_parallel-perm :
    (ss : List Step) → All (λ s. id_of s ≢ "") ss → Perm (group_parallel ss) ss
unfolding group_parallel
group_parallel-perm ss named = elim (Bool-cases (any (λ s. not (group_of s == "")) ss)) [
  | inl some_group ↦ rw some_group (
      subst (Perm (fill ss (outline [] ss))) (fresh_all ss)
        (fill-outline ss [] ss named (unfold contains in refl) (λ g ne new. refl)))
  | inr no_group ↦ rw no_group (Perm.refl ss)
]

module _ (P : Step → Type 0) where
  members-All : (g : String) (ss : List Step) → All P ss → All P (members g ss)
  unfolding members keep
  members-All g [] h = tt
  members-All g (s ∷ ss) h = ground (arith, members-All g ss h.1)

  outline-All :
      (seen : List String) (ss : List Step)
      → All P ss
      → All (λ s. id_of s ≢ "" → P s) (outline seen ss)
  unfolding outline
  outline-All seen [] h = tt
  outline-All seen (s ∷ ss) h = elim (string_eq.dec (group_of s) "") [
    | yes alone ↦ rw (outline_alone seen s ss alone) ((λ _. h.0), outline-All seen ss h.1)
    | no grouped ↦ elim (Bool-cases (contains seen (group_of s))) [
      | inl old ↦ rw (outline_old seen s ss grouped old) (outline-All seen ss h.1)
      | inr new ↦
          rw (outline_new seen s ss grouped new)
            ((λ named. absurd (named refl)), outline-All (group_of s ∷ seen) ss h.1)
    ]
  ]

  fill-All :
      (all out : List Step) → All P all → All (λ s. id_of s ≢ "" → P s) out → All P (fill all out)
  unfolding fill
  fill-All all [] h k = tt
  fill-All all (s ∷ out) h k = elim (string_eq.dec (id_of s) "") [
    | yes blank ↦ rw (filled_blank s out blank) (
        All-append P (sort_by step_le (members (group_of s) all)) (fill all out)
          (sort_by-All step_le P (members (group_of s) all) (members-All (group_of s) all h))
          (fill-All all out h k.1))
    | no named ↦ rw (fill_step all s out named) (k.0 named, fill-All all out h k.1)
  ]
    where
      filled_blank :
          (s : Step) (out : List Step)
          → id_of s ≡ ""
          → fill all (s ∷ out) ≡ sort_by step_le (members (group_of s) all) ++ fill all out
      filled_blank s out blank = ground arith

  -- What holds of all steps holds of the grouped ones.
  pub group_parallel-All : (ss : List Step) → All P ss → All P (group_parallel ss)
  unfolding group_parallel
  group_parallel-All ss h = elim (Bool-cases (any (λ s. not (group_of s == "")) ss)) [
    | inl some_group ↦ rw some_group (fill-All ss (outline [] ss) h (outline-All [] ss h))
    | inr no_group ↦ rw no_group h
  ]
