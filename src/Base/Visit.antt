-- ===== src/Base/Visit.antt =====
-- A search in depth over what is known of each node: the nodes in the order in which they are come to.
-- Fuel counts the nodes that the search may go down; Visit.Reached says how much is enough.
pub mod Reached
pub mod Complete
use mathlib.Core.Bool.{Bool}
use mathlib.Core.Option.{Option, none, some}
use mathlib.Core.List.{List, [], ◌∷◌, ◌++◌}
use Prim.Native.Nat.{ℕ, zero, suc}
use interactivecodebase.Base.Equality.{Eq, contains, if◌then◌else◌}

unfoldable pub each : {A : Type 0} → (A → List A → List A) → List A → List A → List A
each f [] out = out
each f (x ∷ xs) out = each f xs (f x out)

module _ {A : Type 0} ⦃e : Eq A⦄ where
  -- A node that is not known, or was come to before, is left alone.
  unfoldable pub visit : (A → Option (List A)) → ℕ → A → List A → List A
  visit succs zero x out = out
  visit succs (suc n) x out = elim (succs x) [
    | none ↦ out
    | some ys ↦ if contains out x then out else each (visit succs n) ys (out ++ x ∷ [])
  ]
