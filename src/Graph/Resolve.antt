-- ===== src/Graph/Resolve.antt =====
-- Which node a user's text means (internal/graph/resolve.go). Search is a parameter.
pub mod Meaning
use interactivecodebase.Base.{
  ℕ, String, ◌==◌, string_eq, Bool, true, false, Option, none, some, List, [], ◌∷◌, map, keep, take,
  Result, ok, err, ◌>>=◌,
}
use interactivecodebase.Base.Text.{has_suffix}
use interactivecodebase.Graph.Kinds.{route, method, func, interface_call, type_kind, sql_table}
use interactivecodebase.Graph.Model.{Node, GraphError, not_found, ambiguous, node_id}
use interactivecodebase.Graph.Reader.{Reader}

abbrev pub max_candidates : ℕ
max_candidates = 10

abbrev pub candidates : String → List String
candidates ref =
    ref
    ∷ map (λ k. node_id k ref) (route ∷ method ∷ func ∷ interface_call ∷ type_kind ∷ sql_table ∷ [])

-- What an error of Node means for the loop: only ErrNotFound goes on.
abbrev pub or_next : {A : Type 0} → GraphError → Result GraphError A → Result GraphError A
or_next (not_found id) rest = rest
or_next e rest = err e

-- The only node of a list; otherwise the text is ambiguous.
abbrev pub unique : String → List String → List Node → Result GraphError Node
unique ref ids [] = err (ambiguous ref ids)
unique ref ids (n ∷ []) = ok n
unique ref ids (n ∷ m ∷ more) = err (ambiguous ref ids)

module _ (g : Reader) (search : String → ℕ → Result GraphError (List Node)) where
  -- The loop over the candidates: `none` where none of them is there.
  unfoldable pub first_found : List String → Result GraphError (Option Node)
  first_found [] = ok none
  first_found (id ∷ ids) =
      let rest = first_found ids in elim (g.node id) [ ok n ↦ ok (some n) | err e ↦ or_next e rest ]

  -- Several nodes match: the one whose id ends with the text, if it is the only one.
  unfoldable pub by_suffix : String → List Node → Result GraphError Node
  by_suffix ref nodes =
      unique ref (take max_candidates (map (λ n. n.id) nodes))
        (keep (λ n. has_suffix n.id ref) nodes)

  unfoldable pub pick : String → List Node → Result GraphError Node
  pick ref [] = err (not_found ref)
  pick ref (n ∷ []) = ok n
  pick ref (n ∷ m ∷ more) = by_suffix ref (n ∷ m ∷ more)

  -- `Resolve`
  unfoldable pub resolve : String → Result GraphError Node
  resolve ref = first_found (candidates ref) >>= λ found. elim found [
    | some n ↦ ok n
    | none ↦ search ref 11 >>= λ nodes. pick ref nodes
  ]
