-- ===== src/Flow/Branches.antt =====
-- Parallel groups of calls (internal/flow/flow.go): compareBranch and groupParallel.
pub mod Order
pub mod Grouped
use Prim.Native.Nat.{Ordering}
use interactivecodebase.Base.{
  ◌≡◌, String, ◌==◌, string_eq, Bool, true, false, not, Option, none, some, List, [], ◌∷◌, ◌++◌,
  keep, any, contains, if◌then◌else◌,
}
use interactivecodebase.Base.Text.{text_le}
use interactivecodebase.Base.Ints.{int_compare, atoi}
use interactivecodebase.Base.Sort.{sort_by}
use interactivecodebase.Graph.Model.{attr}
use interactivecodebase.Flow.Tree.{
  Step, step, nil, plain, no_node, no_edge, info, id_of, group_of, branch_of,
}

-- `strings.Compare`
unfoldable pub text_compare : String → String → Ordering
text_compare a b = if a == b then Ordering.eq else if text_le a b then Ordering.lt else Ordering.gt

-- `compareBranch`
unfoldable pub compare_branch : String → String → Ordering
compare_branch a b = elim (atoi a) [
  | some m ↦ elim (atoi b) [ some n ↦ int_compare m n | none ↦ Ordering.lt ]
  | none ↦ elim (atoi b) [ some n ↦ Ordering.gt | none ↦ text_compare a b ]
]

-- What `SortStableFunc` asks: that the first is not after the second.
unfoldable pub branch_le : String → String → Bool
branch_le a b = elim (compare_branch a b) [ Ordering.gt ↦ false | _ ↦ true ]

abbrev pub step_le : Step → Step → Bool
step_le a b = branch_le (branch_of a) (branch_of b)

-- The step that stands for a group, until its members are put there.
abbrev pub placeholder : String → Step
placeholder g = step (plain no_node (record no_edge { attrs = ("parallel", g) ∷ [] })) nil

-- The first loop: the steps outside the groups, and a placeholder where a group first appears.
unfoldable pub outline : List String → List Step → List Step
outline seen [] = []
outline seen (s ∷ ss) =
    let same = outline seen ss in
    let more = outline (group_of s ∷ seen) ss in
    if group_of s == ""
    then s ∷ same
    else if contains seen (group_of s)
    then same
    else placeholder (group_of s) ∷ more

-- `groups[g]`: the steps of a group, in their order.
unfoldable pub members : String → List Step → List Step
members g ss = keep (λ s. group_of s == g) ss

-- The second loop.
unfoldable pub fill : List Step → List Step → List Step
fill all [] = []
fill all (s ∷ out) =
    if not (id_of s == "")
    then s ∷ fill all out
    else sort_by step_le (members (group_of s) all) ++ fill all out

-- `groupParallel`
unfoldable pub group_parallel : List Step → List Step
group_parallel ss = if any (λ s. not (group_of s == "")) ss then fill ss (outline [] ss) else ss
