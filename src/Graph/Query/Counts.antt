-- ===== src/Graph/Query/Counts.antt =====
-- The numbers of nodes and edges by kind (internal/graph/query.go, Counts).
use interactivecodebase.Base.{
  ℕ, suc, ◌≡◌, refl, String, ◌==◌, string_eq, List, [], ◌∷◌, map, keep, length, if◌then◌else◌,
  arith,
}
use interactivecodebase.Graph.Store.{Tables}

abbrev pub KindCounts : Type 0
KindCounts = List (String × ℕ)

pub record Counts : Type 0 where
  pub nodes : KindCounts
  pub edges : KindCounts

unfoldable pub count_one : String → KindCounts → KindCounts
count_one k [] = (k, 1) ∷ []
count_one k ((j, n) ∷ more) = if j == k then (j, suc n) ∷ more else (j, n) ∷ count_one k more

-- `SELECT kind, count(*) … GROUP BY kind`
unfoldable pub count_by : List String → KindCounts
count_by [] = []
count_by (k ∷ ks) = count_one k (count_by ks)

-- `Graph.Counts`
unfoldable pub counts : Tables → Counts
counts t = record {
  nodes = count_by (map (λ r. r.kind) t.nodes);
  edges = count_by (map (λ e. e.kind) t.edges);
}

-- The count of a kind; a kind that is not listed has none.
unfoldable pub count_of : KindCounts → String → ℕ
count_of [] k = 0
count_of ((j, n) ∷ more) k = let rest = count_of more k in if j == k then n else rest

count_of-count_one :
    (k j : String) (c : KindCounts)
    → count_of (count_one k c) j ≡ (if k == j then suc (count_of c j) else count_of c j)
unfolding count_of count_one
count_of-count_one k j [] = ground arith
count_of-count_one k j ((i, n) ∷ more) = ground (arith, count_of-count_one k j more)

count_of-count_by :
    (k : String) (ks : List String) → count_of (count_by ks) k ≡ length (keep (λ j. j == k) ks)
unfolding count_by count_of keep
count_of-count_by k [] = refl
count_of-count_by k (j ∷ ks) =
    ground (arith, count_of-count_one j k (count_by ks), count_of-count_by k ks)

-- Each count is the number of the rows of that kind.
pub counts_lem :
    (t : Tables) (k : String)
    → (count_of (counts t).nodes k ≡ length (keep (λ j. j == k) (map (λ r. r.kind) t.nodes)))
      × (count_of (counts t).edges k ≡ length (keep (λ j. j == k) (map (λ e. e.kind) t.edges)))
unfolding counts
counts_lem t k = (
  count_of-count_by k (map (λ r. r.kind) t.nodes),
  count_of-count_by k (map (λ e. e.kind) t.edges),
)
