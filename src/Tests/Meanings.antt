-- ===== src/Tests/Meanings.antt =====
-- What a text means (internal/graph/resolve.go) in a graph of one function.
use interactivecodebase.Base.{
  ℕ, ◌≡◌, ◌⊎◌, ◌↔◌, All, refl, String, ◌==◌, string_eq, List, [], ◌∷◌, Result, ok, err,
  if◌then◌else◌,
}
use interactivecodebase.Graph.Model.{Node, GraphError, not_found}
use interactivecodebase.Graph.Reader.{Reader}
use interactivecodebase.Graph.Resolve.{resolve, candidates, first_found, pick}
use interactivecodebase.Graph.Resolve.Meaning.{IsFirst, IsMissing, IsOnlyHit, resolve_iff}
use interactivecodebase.Tests.Sample.{node_of}

abbrev main : Node
main = node_of "func:app.main" "func" []

abbrev program : Reader
program = record {
  node = λ id. if id == "func:app.main" then ok main else err (not_found id);
  nodes = λ kinds. ok [];
  adjacent = λ id dir kinds. ok [];
}

abbrev search : String → ℕ → Result GraphError (List Node)
search text limit = ok (main ∷ [])

searched : resolve program search "mai" ≡ ok main
unfolding resolve first_found pick string_eq
searched = refl

abbrev text : String
text = "mai"

resolve_iff_example : (resolve program search text ≡ ok main) ↔ (
    IsFirst program search (candidates text) main
    ⊎ (All (IsMissing program search) (candidates text) × IsOnlyHit program search text main))
resolve_iff_example = resolve_iff program search text main
