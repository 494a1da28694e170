-- ===== src/Mermaid/Er/Tables.antt =====
-- Which nodes an ER diagram stands for (internal/mermaid/er.go).
use interactivecodebase.Base.{
  ℕ, ◌<◌, ◌<>◌, length, ◌≡◌, refl, sym, ◌∙◌, ap, subst, inl, inr, String, some, List, [], ◌∷◌, In,
  Option-cases,
}
use interactivecodebase.Base.Text.{decimal}
use interactivecodebase.Graph.Model.{Node, Edge}
use interactivecodebase.Mermaid.{Texts, put, ident, get, Builder, new_builder, line, id_of, diagram}
use interactivecodebase.Mermaid.Ids.{
  IsConsistent, id_of-HasId, line-IsConsistent, new_builder-IsConsistent,
}
use interactivecodebase.Mermaid.Er.{Table, fk_columns, column_lines, draw_tables, draw_fks, er}

-- Drawing lines leaves the ids alone.
abbrev SameIds : Builder → Builder → Type 0
SameIds b b' = (b'.ids ≡ b.ids) × (b'.by_node ≡ b.by_node) × (b'.prefix ≡ b.prefix)

column_lines-SameIds :
    (fks : List String) (cs : List Node) (b : Builder) → SameIds b (column_lines fks cs b)
unfolding column_lines line
column_lines-SameIds fks [] b = (refl, refl, refl)
column_lines-SameIds fks (c ∷ cs) b = column_lines-SameIds fks cs (line _ b)

draw_fks-SameIds :
    (names : Texts) (fks : List Edge) (b : Builder) → SameIds b (draw_fks names fks b)
unfolding draw_fks line
draw_fks-SameIds names [] b = (refl, refl, refl)
draw_fks-SameIds names (e ∷ fks) b = elim (Option-cases (get names e.from)) [
  | inl unnamed ↦ rw (unnamed, draw_fks) (draw_fks-SameIds names fks b)
  | inr (child, first) ↦ elim (Option-cases (get names e.to)) [
    | inl unnamed ↦ rw (first, unnamed, draw_fks) (draw_fks-SameIds names fks b)
    | inr (parent, second) ↦ rw (first, second, draw_fks) (draw_fks-SameIds names fks (line _ b))
  ]
]

-- What the ids were before a drawing, they are after it.
abbrev Keeps : Builder → Builder → Type 0
Keeps b b' =
    IsConsistent b' × ((g i : String) → get b.by_node g ≡ some i → get b'.by_node g ≡ some i)

renumbered :
    (b b' : Builder)
    → SameIds b b'
    → IsConsistent b
    → (g i : String) → get b'.by_node g ≡ some i
    → (k : ℕ) × (k < length b'.by_node) × (i ≡ b'.prefix <> decimal k)
renumbered b b' same c g i h =
    let (k, low, made) = c.numbered g i (rw same.1 at h) in
    (k, subst (λ m. k < length m) (sym same.1) low, made ∙ ap (λ p. p <> decimal k) (sym same.2))

SameIds-Keeps : (b b' : Builder) → SameIds b b' → IsConsistent b → Keeps b b'
SameIds-Keeps b b' same c = (
  record {
    back = λ g i h. rw same.0 (c.back g i (rw same.1 at h));
    forth = λ g i h. rw same.1 (c.forth g i (rw same.0 at h));
    numbered = λ g i h. renumbered b b' same c g i h;
  },
  λ g i h. rw same.1 h,
)

draw_tables-Keeps :
    (fks : List Edge) (ts : List Table) (b : Builder) (names : Texts)
    → IsConsistent b
    → Keeps b (draw_tables fks ts b names).0
      × ((t : Table)
          → In t ts
          → (i : String) × (get (draw_tables fks ts b names).0.by_node t.node.id ≡ some i))
unfolding draw_tables line
draw_tables-Keeps fks [] b names c = ((c, λ g i h. h), λ t m. absurd m)
draw_tables-Keeps fks (t ∷ ts) b names c =
    let (c1, here, back, kept, _) = id_of-HasId t.node.id b c in
    let name = ident t.node.name in
    let begun = line ("  " <> (name <> " {")) (id_of t.node.id b).1 in
    let drawn = column_lines (fk_columns t.node.id fks) t.columns begun in
    let filled =
      SameIds-Keeps begun drawn (column_lines-SameIds (fk_columns t.node.id fks) t.columns begun)
        (line-IsConsistent ("  " <> (name <> " {")) (id_of t.node.id b).1 c1) in
    let rest =
      draw_tables-Keeps fks ts (line "  }" drawn) (put t.node.id name names)
        (line-IsConsistent "  }" drawn filled.0) in
    (
      (rest.0.0, λ g i h. rest.0.1 g i (filled.1 g i (kept g i h))),
      λ u m. elim m [
        | inl same ↦
            ((id_of t.node.id b).0, rest.0.1 u.node.id _ (filled.1 u.node.id _ (rw same here)))
        | inr later ↦ rest.1 u later
      ],
    )

-- Each table of an ER diagram has an id, which leads back to the table.
pub er_ids :
    (tables : List Table) (fks : List Edge) (t : Table)
    → In t tables
    → (i : String) × (get (er tables fks).ids i ≡ some t.node.id)
unfolding er diagram
er_ids tables fks t m =
    let start = new_builder "erDiagram" "t" in
    let drawn = draw_tables-Keeps fks tables start [] (new_builder-IsConsistent "erDiagram" "t") in
    let (b, names) = draw_tables fks tables start [] in
    let same = draw_fks-SameIds names fks b in
    let (i, found) = drawn.1 t m in
    (i, subst (λ x. get x i ≡ some t.node.id) (sym same.0) (drawn.0.0.back t.node.id i found))
