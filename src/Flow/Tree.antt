-- ===== src/Flow/Tree.antt =====
-- Flow trees (internal/flow/flow.go): Step, Parallel, isSink, and the depths that Walk visits.
use interactivecodebase.Base.{ℕ, suc, ◌≡◌, refl, String, Bool, false, List, [], ◌∷◌, ◌++◌, ap}
use interactivecodebase.Base.Text.{has_prefix}
use interactivecodebase.Graph.Model.{Node, Edge, attr, no_pos}

-- A step without its children.
pub record Info : Type 0 where
  pub node : Node
  pub edge : Edge
  pub cycle : Bool
  pub ref : Bool
  pub truncated : Bool
  pub calls : ℕ

mutual
  pub data Step : Type 0 where
    step : Info → Steps → Step

  pub data Steps : Type 0 where
    nil : Steps
    cons : Step → Steps → Steps

abbrev pub of_list : List Step → Steps
of_list [] = nil
of_list (s ∷ ss) = cons s (of_list ss)

abbrev pub to_list : Steps → List Step
to_list nil = []
to_list (cons s ss) = s ∷ to_list ss

pub to_list-of_list : (ss : List Step) → to_list (of_list ss) ≡ ss
to_list-of_list [] = refl
to_list-of_list (s ∷ ss) = ap (◌∷◌ s) (to_list-of_list ss)

abbrev pub info : Step → Info
info (step i ss) = i

abbrev pub children : Step → List Step
children (step i ss) = to_list ss

abbrev pub id_of : Step → String
id_of s = (info s).node.id

-- The zero values of Go.
abbrev pub no_node : Node
no_node = record {
  id = "";
  kind = "";
  name = "";
  package_path = "";
  detail = "";
  pos = no_pos;
  attrs = [];
}

abbrev pub no_edge : Edge
no_edge = record { id = 0; from = ""; to = ""; kind = ""; pos = no_pos; attrs = [] }

abbrev pub plain : Node → Edge → Info
plain n e = record { node = n; edge = e; cycle = false; ref = false; truncated = false; calls = 0 }

-- `Parallel`
abbrev pub group_of : Step → String
group_of s = attr (info s).edge.attrs "parallel"

abbrev pub branch_of : Step → String
branch_of s = attr (info s).edge.attrs "branch"

-- `isSink`
unfoldable pub is_sink : Node → Bool
is_sink n = has_prefix n.kind "sink."

-- `Walk` calls its function with each step and its depth: the pairs, in order.
unfoldable mutual
  pub visit : ℕ → Step → List (Step × ℕ)
  visit depth (step i ss) = (step i ss, depth) ∷ visit_all (suc depth) ss

  pub visit_all : ℕ → Steps → List (Step × ℕ)
  visit_all depth nil = []
  visit_all depth (cons s ss) = visit depth s ++ visit_all depth ss
