-- ===== src/Graph/Paths/Limited.antt =====
-- What Paths keeps of the rows it finds (internal/graph/query.go): the shortest, up to the limit.
use interactivecodebase.Base.{
  ℕ, zero, suc, ◌≤◌, ◌≡◌, refl, ◌⊎◌, String, nat_eq, true, List, [], ◌∷◌, map, arith, take, length,
  ap, leb, Bool, All, All_of_In,
}
use interactivecodebase.Base.Text.{text_le_total, text_le_trans}
use interactivecodebase.Base.Sort.{sort_by, sort_by-All, sort_by-IsSorted, IsSorted}
use interactivecodebase.Graph.Store.{Tables}
use interactivecodebase.Graph.Paths.{Walk, PathOptions, or_ten, found, edge_ids, walk_le, path_rows}
use interactivecodebase.Graph.Paths.Walks.{IsSimplePath, IsSimplePath-of_found, found_depth}

walk_le_total : (a b : Walk) → (walk_le a b ≡ true) ⊎ (walk_le b a ≡ true)
unfolding walk_le nat_eq
walk_le_total a b = ground (arith, text_le_total (edge_ids a.path) (edge_ids b.path))

walk_le_trans : (a b c : Walk) → walk_le a b ≡ true → walk_le b c ≡ true → walk_le a c ≡ true
unfolding walk_le nat_eq
walk_le_trans a b c h k =
    ground (arith, text_le_trans (edge_ids a.path) (edge_ids b.path) (edge_ids c.path))

take-All {ℓ} : {A : Type 0} (P : A → Type ℓ) (n : ℕ) (xs : List A) → All P xs → All P (take n xs)
unfolding take
take-All P zero xs h = tt
take-All P (suc n) [] h = tt
take-All P (suc n) (x ∷ xs) h = (h.0, take-All P n xs h.1)

length-take-le : {A : Type 0} (n : ℕ) (xs : List A) → length (take n xs) ≤ n
unfolding take
length-take-le zero xs = omega arith
length-take-le (suc n) [] = omega arith
length-take-le (suc n) (x ∷ xs) = omega (arith, length-take-le n xs)

IsSorted-lengths :
    (ws : List Walk)
    → All (λ w. w.depth ≡ length w.path) ws
    → IsSorted walk_le ws
    → IsSorted (λ p q. leb (length p) (length q)) (map (λ w. w.path) ws)
unfolding walk_le nat_eq
IsSorted-lengths [] d s = tt
IsSorted-lengths (w ∷ ws) d s = (later w ws d.0 d.1 s.0, IsSorted-lengths ws d.1 s.1)
  where
    later :
        (w : Walk) (ws : List Walk)
        → w.depth ≡ length w.path
        → All (λ v. v.depth ≡ length v.path) ws
        → All (λ v. walk_le w v ≡ true) ws
        → All (λ q. leb (length w.path) (length q) ≡ true) (map (λ v. v.path) ws)
    later w [] e d h = tt
    later w (v ∷ ws) e d h = (ground arith, later w ws e d.1 h.1)

take-IsSorted :
    {A : Type 0} (le : A → A → Bool) (n : ℕ) (xs : List A)
    → IsSorted le xs
    → IsSorted le (take n xs)
unfolding take
take-IsSorted le zero xs s = tt
take-IsSorted le (suc n) [] s = tt
take-IsSorted le (suc n) (x ∷ xs) s =
    (take-All (λ y. le x y ≡ true) n xs s.0, take-IsSorted le n xs s.1)

map-All :
    {A B : Type 0} (P : B → Type 0) (f : A → B) (xs : List A)
    → All (λ x. P (f x)) xs
    → All P (map f xs)
map-All P f [] h = tt
map-All P f (x ∷ xs) h = (h.0, map-All P f xs h.1)

length-map : {A B : Type 0} (f : A → B) (xs : List A) → length (map f xs) ≡ length xs
length-map f [] = refl
length-map f (x ∷ xs) = ap suc (length-map f xs)

-- The rows that Paths resolves are at most `Limit` (10 at zero), each of them is a simple path of at
-- most `MaxDepth` (10 at zero) edges of admitted kinds, and no later one is shorter.
pub path_rows_lem :
    (from to : String) (opts : PathOptions) (t : Tables)
    → (length (path_rows from to opts t) ≤ or_ten opts.limit)
      × All
          (IsSimplePath opts.edge_kinds t.edges to (or_ten opts.max_depth) from)
          (path_rows from to opts t)
      × IsSorted (λ p q. leb (length p) (length q)) (path_rows from to opts t)
unfolding path_rows
path_rows_lem from to opts t =
    let depth = or_ten opts.max_depth in
    let rows = found opts.edge_kinds t.edges to depth from in
    let kept = take (or_ten opts.limit) (sort_by walk_le rows) in
    let simple =
      All_of_In (λ v. IsSimplePath opts.edge_kinds t.edges to depth from v.path) rows
        (λ v m. IsSimplePath-of_found opts.edge_kinds t.edges to depth from v m) in
    let deep =
      All_of_In (λ v. v.depth ≡ length v.path) rows
        (λ v m. found_depth opts.edge_kinds t.edges to depth from v m) in
    (
      omega (
        arith,
        length-map (λ w. w.path) kept,
        length-take-le (or_ten opts.limit) (sort_by walk_le rows),
      ),
      map-All _ (λ w. w.path) kept
          (take-All _ (or_ten opts.limit) (sort_by walk_le rows)
            (sort_by-All walk_le _ rows simple)),
      IsSorted-lengths kept
          (take-All _ (or_ten opts.limit) (sort_by walk_le rows) (sort_by-All walk_le _ rows deep))
          (take-IsSorted walk_le (or_ten opts.limit) (sort_by walk_le rows)
            (sort_by-IsSorted walk_le walk_le_total walk_le_trans rows)),
    )
