-- ===== src/Views/Nearby.antt =====
-- Which tables an ER diagram draws (internal/views/views.go, ER).
use interactivecodebase.Base.{
  ok-inj, In-of_contains, ℕ, ◌+◌, zero, suc, ◌≡◌, ◌≢◌, refl, sym, ◌∙◌, ap, subst, inl, inr, ◌⊎◌,
  ◌↔◌, String, string_eq, false, List, [], ◌∷◌, ◌++◌, contains, In, In-append, ok, ◌>>=◌, >>=-eq-ok,
  Bool-cases, if◌then◌else◌, arith,
}
use interactivecodebase.Graph.Kinds.{fk, sql_table}
use interactivecodebase.Graph.Model.{Node, node_id}
use interactivecodebase.Graph.Query.{Direction, Neighbor, out, into}
use interactivecodebase.Graph.Reader.{Reader}
use interactivecodebase.Views.{Found, add_neighbors, add_around, add_frontier, widen, included}

module _ (g : Reader) where
  -- A foreign key joins the two, in one direction or the other.
  abbrev pub IsJoined : String → String → Type 0
  IsJoined x y =
      (dir : Direction) × (nbs : List Neighbor) × (nb : Neighbor) × (g.adjacent x dir (fk ∷ [])
        ≡ ok nbs)
      × In nb nbs
      × (nb.node.id ≡ y)

  -- At most so many foreign keys away.
  pub data IsNear (start : String) : ℕ → String → Type 0 where
    at_start : (n : ℕ) → IsNear start n start
    further : (n : ℕ) (x y : String) → IsNear start n x → IsJoined x y → IsNear start (suc n) y

  -- What a part of a round adds: it loses nothing, and what is new is next and has a cause.
  record Grows (Cause : String → Type 0) (f f' : Found) : Type 0 where
    include : (x : String) → In x f.include → In x f'.include
    next : (x : String) → In x f.next → In x f'.next
    cause : (x : String) → In x f'.include → In x f.include ⊎ (In x f'.next × Cause x)
    within :
        ((x : String) → In x f.next → In x f.include)
        → (x : String) → In x f'.next
        → In x f'.include

  Grows-refl : (Cause : String → Type 0) (f : Found) → Grows Cause f f
  Grows-refl Cause f = record {
    include = λ x m. m;
    next = λ x m. m;
    cause = λ x m. inl m;
    within = λ w x m. w x m;
  }

  Grows-trans :
      (A B C : String → Type 0) (f f' f'' : Found)
      → ((x : String) → A x → C x)
      → ((x : String) → B x → C x)
      → Grows A f f'
      → Grows B f' f''
      → Grows C f f''
  Grows-trans A B C f f' f'' a b first second = record {
    include = λ x m. second.include x (first.include x m);
    next = λ x m. second.next x (first.next x m);
    cause = λ x m. elim (second.cause x m) [
      | inl old ↦ elim (first.cause x old) [
        | inl older ↦ inl older
        | inr (n, why) ↦ inr (second.next x n, a x why)
      ]
      | inr (n, why) ↦ inr (n, b x why)
    ];
    within = λ w. second.within (first.within w);
  }

  abbrev Listed : List Neighbor → String → Type 0
  Listed nbs x = (nb : Neighbor) × In nb nbs × (nb.node.id ≡ x)

  one_more :
      (f : Found) (x : String)
      → contains f.include x ≡ false
      → Grows (λ y. y ≡ x) f (record { include = x ∷ f.include; next = f.next ++ x ∷ [] })
  one_more f x new = record {
    include = λ y m. inr m;
    next = λ y m. (In-append y f.next (x ∷ [])).1 (inl m);
    cause = λ y m. elim m [
      | inl same ↦ inr ((In-append y f.next (x ∷ [])).1 (inr (inl same)), same)
      | inr old ↦ inl old
    ];
    within = λ w y m. elim ((In-append y f.next (x ∷ [])).0 m) [
      | inl old ↦ inr (w y old)
      | inr (inl same) ↦ inl same
      | inr (inr e) ↦ absurd e
    ];
  }

  abbrev with_one : String → Found → Found
  with_one x f =
      if contains f.include x
      then f
      else record { include = x ∷ f.include; next = f.next ++ x ∷ [] }

  with_one-Grows :
      (x : String) (f : Found) → Grows (λ y. y ≡ x) f (with_one x f) × In x (with_one x f).include
  with_one-Grows x f = elim (Bool-cases (contains f.include x)) [
    | inl old ↦ rw old (Grows-refl (λ y. y ≡ x) f, In-of_contains x f.include old)
    | inr new ↦ rw new (one_more f x new, inl refl)
  ]

  add_neighbors-Grows :
      (nbs : List Neighbor) (f : Found)
      → Grows (Listed nbs) f (add_neighbors nbs f)
        × ((x : String) → Listed nbs x → In x (add_neighbors nbs f).include)
  unfolding add_neighbors
  add_neighbors-Grows [] f = (Grows-refl (Listed []) f, λ x l. absurd l.1)
  add_neighbors-Grows (nb ∷ nbs) f =
      let x = nb.node.id in
      let first = with_one-Grows x f in
      let rest = add_neighbors-Grows nbs (with_one x f) in
      (
        Grows-trans (λ y. y ≡ x) (Listed nbs) (Listed (nb ∷ nbs)) f (with_one x f)
            (add_neighbors nbs (with_one x f)) (λ y same. (nb, inl refl, sym same))
            (λ y (n, m, same). (n, inr m, same)) first.0 rest.0,
        λ y (n, m, same). elim m [
          | inl this ↦ rest.0.include y (
              subst (λ z. In z (with_one x f).include) (sym (ap (λ k. k.node.id) this) ∙ same)
                first.1)
          | inr later ↦ rest.1 y (n, later, same)
        ],
      )

  joined_from :
      (id : String) (outs ins : List Neighbor) (P : String → Type 0)
      → g.adjacent id out (fk ∷ []) ≡ ok outs
      → g.adjacent id into (fk ∷ []) ≡ ok ins
      → ((x : String) → Listed outs x → P x)
      → ((x : String) → Listed ins x → P x)
      → (x : String) → IsJoined id x
      → P x
  joined_from id outs ins P first second p q x (out, nbs, nb, e, m, same) =
      p x (nb, subst (In nb) (ok-inj (sym e ∙ first)) m, same)
  joined_from id outs ins P first second p q x (into, nbs, nb, e, m, same) =
      q x (nb, subst (In nb) (ok-inj (sym e ∙ second)) m, same)

  add_around-Grows :
      (id : String) (f f' : Found)
      → add_around g id f ≡ ok f'
      → Grows (IsJoined id) f f' × ((x : String) → IsJoined id x → In x f'.include)
  unfolding add_around
  add_around-Grows id f f' h =
      let (outs, first, more) = >>=-eq-ok (g.adjacent id out (fk ∷ [])) _ h in
      let (ins, second, done) = >>=-eq-ok (g.adjacent id into (fk ∷ [])) _ more in
      let f1 = add_neighbors outs f in
      let a = add_neighbors-Grows outs f in
      let b = add_neighbors-Grows ins f1 in
      let result : add_neighbors ins f1 ≡ f' = ok-inj done in
      subst (λ r. Grows (IsJoined id) f r × ((x : String) → IsJoined id x → In x r.include)) result
        (
          Grows-trans (Listed outs) (Listed ins) (IsJoined id) f f1 (add_neighbors ins f1)
              (λ x (nb, m, same). (out, outs, nb, first, m, same))
              (λ x (nb, m, same). (into, ins, nb, second, m, same)) a.0 b.0,
          joined_from id outs ins (λ x. In x (add_neighbors ins f1).include) first second
              (λ x l. b.0.include x (a.1 x l)) b.1,
        )

  add_frontier-Grows :
      (ids : List String) (f f' : Found)
      → add_frontier g ids f ≡ ok f'
      → Grows (λ x. (y : String) × In y ids × IsJoined y x) f f'
        × ((y x : String) → In y ids → IsJoined y x → In x f'.include)
  unfolding add_frontier
  add_frontier-Grows [] f f' h =
      subst
        (λ r.
          Grows (λ x. (y : String) × In y [] × IsJoined y x) f r
          × ((y x : String) → In y [] → IsJoined y x → In x r.include))
        (ok-inj h) (Grows-refl _ f, λ y x m. absurd m)
  add_frontier-Grows (id ∷ ids) f f' h =
      let (f1, first, more) = >>=-eq-ok (add_around g id f) _ h in
      let a = add_around-Grows id f f1 first in
      let b = add_frontier-Grows ids f1 f' more in
      (
        Grows-trans (IsJoined id) (λ x. (y : String) × In y ids × IsJoined y x)
            (λ x. (y : String) × In y (id ∷ ids) × IsJoined y x) f f1 f' (λ x j. (id, inl refl, j))
            (λ x (y, m, j). (y, inr m, j)) a.0 b.0,
        λ y x m j. elim m [
          | inl same ↦ b.0.include x (a.1 x (subst (λ z. IsJoined z x) same j))
          | inr later ↦ b.1 y x later j
        ],
      )

  -- The state of the rounds: those so near are included, and all that is joined to an included one
  -- is included unless the one is on the frontier.
  record Round (start : String) (n : ℕ) (include frontier : List String) : Type 0 where
    near : (x : String) → In x include ↔ IsNear start n x
    closed : (x y : String) → In x include → IsJoined x y → In x frontier ⊎ In y include
    inside : (x : String) → In x frontier → In x include

  near-suc : (start : String) (n : ℕ) (x : String) → IsNear start n x → IsNear start (suc n) x
  near-suc start n x (at_start k) = at_start (suc n)
  near-suc start n y (further m x z p j) = further (suc m) x z (near-suc start m x p) j

  near-cases :
      (start : String) (n : ℕ) (x : String) (P : String → Type 0)
      → P start
      → ((y z : String) → IsNear start n y → IsJoined y z → P z)
      → IsNear start (suc n) x
      → P x
  near-cases start n x P first later (at_start m) = first
  near-cases start n y P first later (further m x z p j) = later x z p j

  next-Round :
      (start : String) (n : ℕ) (include frontier : List String) (f : Found)
      → Round start n include frontier
      → add_frontier g frontier (record { include = include; next = [] }) ≡ ok f
      → Round start (suc n) f.include f.next
  next-Round start n include frontier f r h =
      let (grows, all) =
        add_frontier-Grows frontier (record { include = include; next = [] }) f h in
      record {
        near = λ x. (
          λ m. elim (grows.cause x m) [
            | inl old ↦ near-suc start n x ((r.near x).0 old)
            | inr (_, (y, on, j)) ↦ further n y x ((r.near y).0 (r.inside y on)) j
          ],
          λ p.
              near-cases start n x (λ z. In z f.include)
                (grows.include start ((r.near start).1 (at_start n)))
                (λ y z q j. elim (r.closed y z ((r.near y).1 q) j) [
                  | inl on ↦ all y z on j
                  | inr old ↦ grows.include z old
                ])
                p,
        );
        closed = λ x y m j. elim (grows.cause x m) [
          | inl old ↦ elim (r.closed x y old j) [
            | inl on ↦ inr (all x y on j)
            | inr older ↦ inr (grows.include y older)
          ]
          | inr (new, _) ↦ inl new
        ];
        inside = grows.within (λ x m. absurd m);
      }

  widen-Round :
      (start : String) (depth n total : ℕ) (include frontier found : List String)
      → total ≡ depth + n
      → Round start n include frontier
      → widen g depth include frontier ≡ ok found
      → (x : String) → In x found ↔ IsNear start total x
  unfolding widen
  widen-Round start zero n total include frontier found sum r h x =
      subst (λ f. In x f ↔ IsNear start total x) (ok-inj h)
        (subst (λ k. In x include ↔ IsNear start k x) (omega arith) (r.near x))
  widen-Round start (suc depth) n total include frontier found sum r h x =
      let (f, round, more) =
        >>=-eq-ok (add_frontier g frontier (record { include = include; next = [] })) _ h in
      widen-Round start depth (suc n) total f.include f.next found (omega arith)
        (next-Round start n include frontier f r round) more x

  near-zero : (start x : String) → IsNear start 0 x → x ≡ start
  near-zero start x (at_start n) = refl

  first-Round : (start : String) → Round start 0 (start ∷ []) (start ∷ [])
  first-Round start = record {
    near = λ x. (
      λ m. elim m [ inl same ↦ subst (IsNear start 0) (sym same) (at_start 0) | inr e ↦ absurd e ],
      λ p. inl (near-zero start x p),
    );
    closed = λ x y m j. inl m;
    inside = λ x m. m;
  }

  pub widen_near :
      (start : String) (depth : ℕ) (found : List String)
      → widen g depth (start ∷ []) (start ∷ []) ≡ ok found
      → (x : String) → In x found ↔ IsNear start depth x
  widen_near start depth found h x =
      widen-Round start depth 0 depth (start ∷ []) (start ∷ []) found (omega arith)
        (first-Round start) h x

  -- The ER diagram around a table is made of the tables that are at most `depth` foreign keys away from it, in either
  -- direction, and of no others.
  pub included_near :
      (table : String) (depth : ℕ) (all : List Node) (found : List String)
      → table ≢ ""
      → included g table depth all ≡ ok found
      → (x : String) → In x found ↔ IsNear (node_id sql_table table) depth x
  unfolding included
  included_near table depth all found named h =
      let widened : (g.node (node_id sql_table table) >>= λ start.
      widen g depth (node_id sql_table table ∷ []) (node_id sql_table table ∷ []))
          ≡ ok found =
        ground arith in
      let (start, read, more) = >>=-eq-ok (g.node (node_id sql_table table)) _ widened in
      widen_near (node_id sql_table table) depth found more
