-- ===== src/Mermaid/Ids.antt =====
-- The short ids of a diagram's nodes (internal/mermaid/mermaid.go, builder.id).
use text.Mathlib.TextLemmas.{append_cancel_left}
use interactivecodebase.Base.{
  ℕ, suc, ◌<◌, ◌≡◌, ◌≢◌, refl, sym, ◌∙◌, ap, subst, inl, inr, ◌⊎◌, String, ◌<>◌, ◌==◌, ==_iff,
  string_eq, true, false, none, some, [], ◌∷◌, length, Bool-cases, Option-cases, if◌then◌else◌,
  arith,
}
use interactivecodebase.Base.Text.{decimal}
use interactivecodebase.Mermaid.{Texts, get, put, Builder, new_builder, line, fresh_id, id_of}
use interactivecodebase.Mermaid.Decimals.{decimal_injective}

pub get-put :
    (k v j : String) (m : Texts) → get (put k v m) j ≡ (if k == j then some v else get m j)
unfolding get put
get-put k v j [] = refl
get-put k v j ((i, w) ∷ more) = ground (arith, get-put k v j more)

none-ne-some : {A : Type 0} {a : A} → none ≢ some a
none-ne-some h = cc

some-inj : {A : Type 0} {a b : A} → some a ≡ some b → a ≡ b
some-inj h = cc

length-put : (k v : String) (m : Texts) → get m k ≡ none → length (put k v m) ≡ suc (length m)
unfolding get put
length-put k v [] h = refl
length-put k v ((i, w) ∷ more) h = ground (arith, length-put k v more)

-- Each node's id leads back to it and each id comes from its node, and an id was made from one of the numbers below that of the nodes.
pub record IsConsistent (b : Builder) : Type 0 where
  pub back : (g id : String) → get b.by_node g ≡ some id → get b.ids id ≡ some g
  pub forth : (g id : String) → get b.ids id ≡ some g → get b.by_node g ≡ some id
  pub numbered :
      (g id : String)
      → get b.by_node g ≡ some id
      → (k : ℕ) × (k < length b.by_node) × (id ≡ b.prefix <> decimal k)

pub new_builder-IsConsistent : (header prefix : String) → IsConsistent (new_builder header prefix)
unfolding new_builder get
new_builder-IsConsistent header prefix = record {
  back = λ g id h. cc;
  forth = λ g id h. cc;
  numbered = λ g id h. cc;
}

pub line-IsConsistent : (text : String) (b : Builder) → IsConsistent b → IsConsistent (line text b)
unfolding line
line-IsConsistent text b c = record { back = c.back; forth = c.forth; numbered = c.numbered }

-- The next number has not been used.
fresh :
    (b : Builder) (g id : String)
    → IsConsistent b
    → get b.by_node g ≡ some id
    → (fresh_id b == id) ≡ false
fresh b g id c h = elim (Bool-cases (fresh_id b == id)) [
  | inr differ ↦ differ
  | inl same ↦
      let (k, low, made) = c.numbered g id h in
      let equal = decimal_injective (length b.by_node) k (
        append_cancel_left b.prefix (decimal (length b.by_node)) (decimal k)
          ((==_iff (fresh_id b) id).0 same ∙ made)) in
      absurd (omega arith)
]

self : (g : String) → (g == g) ≡ true
self g = (==_iff g g).1 refl

other :
    (g h i : String) (b : Builder)
    → get b.by_node g ≡ none
    → get b.by_node h ≡ some i
    → (g == h) ≡ false
other g h i b new old = elim (Bool-cases (g == h)) [
  | inr differ ↦ differ
  | inl same ↦ absurd (none-ne-some (sym new ∙ ap (get b.by_node) ((==_iff g h).0 same) ∙ old))
]

abbrev named_new : String → Builder → Builder
named_new g b = record b { by_node = put g (fresh_id b) b.by_node; ids = put (fresh_id b) g b.ids }

id_of_known : (g id : String) (b : Builder) → get b.by_node g ≡ some id → id_of g b ≡ (id, b)
unfolding id_of
id_of_known g id b h = rw (h, id_of) refl

id_of_new :
    (g : String) (b : Builder) → get b.by_node g ≡ none → id_of g b ≡ (fresh_id b, named_new g b)
unfolding id_of
id_of_new g b h = rw (h, id_of) refl

named_new-back :
    (g : String) (b : Builder)
    → IsConsistent b
    → (h id : String) → get (named_new g b).by_node h ≡ some id
    → get (named_new g b).ids id ≡ some h
named_new-back g b c h id found = elim (Bool-cases (g == h)) [
  | inl same ↦
      let id_eq : fresh_id b ≡ id =
        some-inj (sym (get-put g (fresh_id b) h b.by_node ∙ rw same refl) ∙ found) in
      get-put (fresh_id b) g id b.ids
      ∙ rw ((==_iff (fresh_id b) id).1 id_eq) (ap some ((==_iff g h).0 same))
  | inr differ ↦
      let old : get b.by_node h ≡ some id =
        sym (get-put g (fresh_id b) h b.by_node ∙ rw differ refl) ∙ found in
      get-put (fresh_id b) g id b.ids ∙ rw (fresh b h id c old) (c.back h id old)
]

named_new-forth :
    (g : String) (b : Builder)
    → IsConsistent b
    → get b.by_node g ≡ none
    → (h id : String) → get (named_new g b).ids id ≡ some h
    → get (named_new g b).by_node h ≡ some id
named_new-forth g b c new h id found = elim (Bool-cases (fresh_id b == id)) [
  | inl same ↦
      let g_eq : g ≡ h = some-inj (sym (get-put (fresh_id b) g id b.ids ∙ rw same refl) ∙ found) in
      get-put g (fresh_id b) h b.by_node
      ∙ rw ((==_iff g h).1 g_eq) (ap some ((==_iff (fresh_id b) id).0 same))
  | inr differ ↦
      let old : get b.ids id ≡ some h =
        sym (get-put (fresh_id b) g id b.ids ∙ rw differ refl) ∙ found in
      let named = c.forth h id old in
      get-put g (fresh_id b) h b.by_node ∙ rw (other g h id b new named) named
]

named_new-numbered :
    (g : String) (b : Builder)
    → IsConsistent b
    → get b.by_node g ≡ none
    → (h id : String) → get (named_new g b).by_node h ≡ some id
    → (k : ℕ) × (k < length (named_new g b).by_node) × (id ≡ b.prefix <> decimal k)
named_new-numbered g b c new h id found = elim (Bool-cases (g == h)) [
  | inl same ↦
      let id_eq : fresh_id b ≡ id =
        some-inj (sym (get-put g (fresh_id b) h b.by_node ∙ rw same refl) ∙ found) in
      (length b.by_node, omega (arith, length-put g (fresh_id b) b.by_node new), sym id_eq)
  | inr differ ↦
      let old : get b.by_node h ≡ some id =
        sym (get-put g (fresh_id b) h b.by_node ∙ rw differ refl) ∙ found in
      let (k, low, made) = c.numbered h id old in
      (k, omega (arith, length-put g (fresh_id b) b.by_node new), made)
]

new_or_old :
    (g : String) (b : Builder) (h i : String)
    → get (named_new g b).by_node h ≡ some i
    → (h ≡ g) ⊎ (get b.by_node h ≡ some i)
new_or_old g b h i found = elim (Bool-cases (g == h)) [
  | inl same ↦ inl (sym ((==_iff g h).0 same))
  | inr differ ↦ inr (sym (get-put g (fresh_id b) h b.by_node ∙ rw differ refl) ∙ found)
]

-- What asking for an id has given.
abbrev pub HasId : String → Builder → String × Builder → Type 0
HasId g b (id, b') =
    IsConsistent b'
    × (get b'.by_node g ≡ some id)
    × (get b'.ids id ≡ some g)
    × ((h i : String) → get b.by_node h ≡ some i → get b'.by_node h ≡ some i)
    × ((h i : String) → get b'.by_node h ≡ some i → (h ≡ g) ⊎ (get b.by_node h ≡ some i))

-- Asking for the id of a node keeps the ids consistent, gives an id that leads to the node, and neither
-- changes an id that was given before nor names another node.
pub id_of-HasId : (g : String) (b : Builder) → IsConsistent b → HasId g b (id_of g b)
id_of-HasId g b c = elim (Option-cases (get b.by_node g)) [
  | inr (id, known) ↦
      subst (HasId g b) (sym (id_of_known g id b known))
        (c, known, c.back g id known, λ h i k. k, λ h i k. inr k)
  | inl new ↦ subst (HasId g b) (sym (id_of_new g b new)) (
    record {
      back = named_new-back g b c;
      forth = named_new-forth g b c new;
      numbered = named_new-numbered g b c new;
    },
    get-put g (fresh_id b) g b.by_node ∙ rw (self g) refl,
    get-put (fresh_id b) g (fresh_id b) b.ids ∙ rw (self (fresh_id b)) refl,
    λ h i old. get-put g (fresh_id b) h b.by_node ∙ rw (other g h i b new old) old,
    new_or_old g b,
  )
]

-- Two nodes do not have one id.
pub ids_distinct :
    (b : Builder) (g h id : String)
    → IsConsistent b
    → get b.by_node g ≡ some id
    → get b.by_node h ≡ some id
    → g ≡ h
ids_distinct b g h id c first second = some-inj (sym (c.back g id first) ∙ c.back h id second)
