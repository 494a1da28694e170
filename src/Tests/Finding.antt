-- ===== src/Tests/Finding.antt =====
-- Paths (internal/graph/query.go) on the sample.
use interactivecodebase.Base.{◌≡◌, ◌↔◌, ◌≤◌, refl, List, [], ◌∷◌, map, leb, length, In, All}
use interactivecodebase.Base.{take, keep, string_eq, nat_eq, any, contains, flat_map}
use interactivecodebase.Base.Sort.{IsSorted, sort_by, insert_by}
use interactivecodebase.Base.Text.{text_le, decimal, decimal_fuel, digit}
use interactivecodebase.Graph.Kinds.{node_kind_valid, edge_kind_valid}
use interactivecodebase.Graph.Model.{encode_attrs}
use interactivecodebase.Graph.Store.{
  write, run_script, add_node, add_edge, insert_edge, has_node, last_id, same_key, upsert,
}
use interactivecodebase.Graph.Document.{add_all, add_edges}
use interactivecodebase.Graph.Query.{admits}
use interactivecodebase.Graph.Paths.{
  walks, walk_step, extends, near_to, near, in_time, back, back_step, dedup, edge_ids, walk_le,
}
use interactivecodebase.Graph.Kinds.{calls}
use interactivecodebase.Graph.Paths.{PathOptions, Walk, found, path_rows, or_ten}
use interactivecodebase.Graph.Paths.Walks.{IsClean, IsSimplePath, found_iff}
use interactivecodebase.Graph.Paths.Visited.{is_clean}
use interactivecodebase.Graph.Paths.Limited.{path_rows_lem}
use interactivecodebase.Tests.Sample.{shop, edge_of_sample}
use interactivecodebase.Graph.Store.{EdgeRow, edge_row}

abbrev calls_only : PathOptions
calls_only = record { edge_kinds = calls ∷ []; max_depth = 5; limit = 0 }

-- The direct call of the sink comes before the call by way of `m`.
two_ways : map (map (λ e. e.id)) (path_rows "h" "s" calls_only shop) ≡ (4 ∷ []) ∷ (2 ∷ 3 ∷ []) ∷ []
unfolding path_rows found walks walk_step extends near_to near in_time back back_step dedup take
    sort_by or_ten edge_ids walk_le keep write run_script add_all add_node string_eq node_kind_valid
    encode_attrs add_edges add_edge edge_kind_valid insert_edge any has_node contains nat_eq
    insert_by text_le admits last_id same_key upsert flat_map decimal decimal_fuel digit
    native.Mathlib.Decide.ℕ_discrete interactivecodebase.Base.Text.contains_text
    interactivecodebase.Base.Text.has_prefix
two_ways = refl

abbrev direct : List EdgeRow
direct = record (edge_row (edge_of_sample 4 "h" "s" calls) "") { id = 4 } ∷ []

-- The direct call is a path that the query finds.
direct-found : map (λ w. w.path) (found (calls ∷ []) shop.edges "s" 1 "h") ≡ direct ∷ []
unfolding path_rows found walks walk_step extends near_to near in_time back back_step dedup take
    sort_by or_ten edge_ids walk_le keep write run_script add_all add_node string_eq node_kind_valid
    encode_attrs add_edges add_edge edge_kind_valid insert_edge any has_node contains nat_eq
    insert_by text_le admits last_id same_key upsert flat_map decimal decimal_fuel digit
    native.Mathlib.Decide.ℕ_discrete interactivecodebase.Base.Text.contains_text
    interactivecodebase.Base.Text.has_prefix
direct-found = refl

IsClean-edges : All (λ e. IsClean e.dst) shop.edges
unfolding path_rows found walks walk_step extends near_to near in_time back back_step dedup take
    sort_by or_ten edge_ids walk_le keep write run_script add_all add_node string_eq node_kind_valid
    encode_attrs add_edges add_edge edge_kind_valid insert_edge any has_node contains nat_eq
    insert_by text_le admits last_id same_key upsert flat_map decimal decimal_fuel digit
    native.Mathlib.Decide.ℕ_discrete is_clean
IsClean-edges = (refl, (refl, (refl, (refl, (refl, tt)))))

IsClean-start : IsClean "h"
unfolding is_clean nat_eq native.Mathlib.Decide.ℕ_discrete
IsClean-start = refl

found_iff_example :
    ((v : Walk) × In v (found (calls ∷ []) shop.edges "s" 5 "h") × (v.path ≡ direct))
    ↔ IsSimplePath (calls ∷ []) shop.edges "s" 5 "h" direct
found_iff_example = found_iff (calls ∷ []) shop.edges "s" 5 "h" direct IsClean-start IsClean-edges

-- An id that has the character 31 is taken for two ids, and the path over it is lost.
abbrev odd_edges : List EdgeRow
odd_edges =
    edge_row (edge_of_sample 1 "s" "x" calls) ""
    ∷ edge_row (edge_of_sample 2 "x" "s\u{1f}x" calls) ""
    ∷ edge_row (edge_of_sample 3 "s\u{1f}x" "t" calls) ""
    ∷ []

path_lost : found [] odd_edges "t" 5 "s" ≡ []
unfolding path_rows found walks walk_step extends near_to near in_time back back_step dedup take
    sort_by or_ten edge_ids walk_le keep write run_script add_all add_node string_eq node_kind_valid
    encode_attrs add_edges add_edge edge_kind_valid insert_edge any has_node contains nat_eq
    insert_by text_le admits last_id same_key upsert flat_map decimal decimal_fuel digit
    native.Mathlib.Decide.ℕ_discrete interactivecodebase.Base.Text.contains_text
    interactivecodebase.Base.Text.has_prefix
path_lost = refl

path_rows_lem_example :
    (length (path_rows "h" "s" calls_only shop) ≤ or_ten 0)
    × All
        (IsSimplePath (calls ∷ []) shop.edges "s" (or_ten 5) "h")
        (path_rows "h" "s" calls_only shop)
    × IsSorted (λ p q. leb (length p) (length q)) (path_rows "h" "s" calls_only shop)
path_rows_lem_example = path_rows_lem "h" "s" calls_only shop
