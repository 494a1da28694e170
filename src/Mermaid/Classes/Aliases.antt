-- ===== src/Mermaid/Classes/Aliases.antt =====
-- Which types the aliases of a class diagram stand for (internal/mermaid/class.go).
use interactivecodebase.Base.{
  ◌≡◌, refl, sym, ◌∙◌, ap, inl, inr, ◌⊎◌, String, ◌==◌, ==_iff, string_eq, Bool, true, false, some,
  List, [], ◌∷◌, map, In, Bool-cases, Option-cases, if◌then◌else◌, arith,
}
use interactivecodebase.Base.Sort.{sort_by}
use interactivecodebase.Mermaid.{Texts, get, put, Builder, new_builder, line, diagram, ident}
use interactivecodebase.Mermaid.Ids.{get-put}
use interactivecodebase.Mermaid.SiteMap.{key_le}
use interactivecodebase.Mermaid.Classes.{
  Member, TypeInfo, class_head, field_lines, method_lines, enter, draw_types, implements_lines,
  uses_lines, draw_relations, draw_class_clicks, classes, alias,
}

field_lines-ids : (fs : List Member) (b : Builder) → (field_lines fs b).ids ≡ b.ids
unfolding field_lines line
field_lines-ids [] b = refl
field_lines-ids (f ∷ fs) b = field_lines-ids fs (line _ b)

method_lines-ids : (ms : List Member) (b : Builder) → (method_lines ms b).ids ≡ b.ids
unfolding method_lines line
method_lines-ids [] b = refl
method_lines-ids (m ∷ ms) b = method_lines-ids ms (line _ b)

class_head-ids : (t : TypeInfo) (b : Builder) → (class_head t b).ids ≡ b.ids
unfolding class_head line
class_head-ids t b = ground arith

implements_lines-ids :
    (names : Texts) (n : String) (is : List String) (b : Builder)
    → (implements_lines names n is b).ids ≡ b.ids
unfolding implements_lines line
implements_lines-ids names n [] b = refl
implements_lines-ids names n (i ∷ is) b = elim (Option-cases (get names i)) [
  | inl unnamed ↦ rw (unnamed, implements_lines) (implements_lines-ids names n is b)
  | inr (to, named) ↦ rw (named, implements_lines) (implements_lines-ids names n is (line _ b))
]

if-ids : (skip : Bool) (b : Builder) (text : String) → (if skip then b else line text b).ids ≡ b.ids
unfolding line
if-ids true b text = refl
if-ids false b text = refl

uses_lines-ids :
    (names : Texts) (n : String) (us : List String) (b : Builder)
    → (uses_lines names n us b).ids ≡ b.ids
unfolding uses_lines
uses_lines-ids names n [] b = refl
uses_lines-ids names n (u ∷ us) b = elim (Option-cases (get names u)) [
  | inl unnamed ↦ rw (unnamed, uses_lines) (uses_lines-ids names n us b)
  | inr (to, named) ↦
      rw (named, uses_lines) (uses_lines-ids names n us _ ∙ if-ids (to == alias names n) b _)
]

draw_relations-ids :
    (names : Texts) (ts : List TypeInfo) (b : Builder) → (draw_relations names ts b).ids ≡ b.ids
unfolding draw_relations
draw_relations-ids names [] b = refl
draw_relations-ids names (t ∷ ts) b =
    draw_relations-ids names ts _
    ∙ uses_lines-ids names t.name t.uses _
    ∙ implements_lines-ids names t.name t.implements b

draw_class_clicks-ids : (ids : List String) (b : Builder) → (draw_class_clicks ids b).ids ≡ b.ids
unfolding draw_class_clicks line
draw_class_clicks-ids [] b = refl
draw_class_clicks-ids (i ∷ ids) b = draw_class_clicks-ids ids (line _ b)

-- The alias is that of a type of the list.
abbrev pub IsAliasOf : List TypeInfo → String → String → Type 0
IsAliasOf types a id = (t : TypeInfo) × In t types × (ident t.name ≡ a) × (t.id ≡ id)

drawn-ids :
    (t : TypeInfo) (b : Builder)
    → (line "  }" (method_lines t.methods (field_lines t.fields (class_head t (enter t b))))).ids
      ≡ put (ident t.name) t.id b.ids
unfolding line
drawn-ids t b =
    method_lines-ids t.methods _ ∙ field_lines-ids t.fields _ ∙ class_head-ids t (enter t b)

some-inj : {A : Type 0} {a b : A} → some a ≡ some b → a ≡ b
some-inj h = cc

nothing_aliased : (a id : String) → get (new_builder "classDiagram" "c").ids a ≡ some id → ⊥
unfolding new_builder get
nothing_aliased a id h = cc

draw_types-ids :
    (ts : List TypeInfo) (b : Builder) (names : Texts) (a id : String)
    → get (draw_types ts b names).0.ids a ≡ some id
    → IsAliasOf ts a id ⊎ (get b.ids a ≡ some id)
unfolding draw_types
draw_types-ids [] b names a id h = inr h
draw_types-ids (t ∷ ts) b names a id h = elim (draw_types-ids ts _ _ a id h) [
  | inl (u, m, named, same) ↦ inl (u, inr m, named, same)
  | inr old ↦
      let before : (if ident t.name == a then some t.id else get b.ids a) ≡ some id =
        sym (get-put (ident t.name) t.id a b.ids) ∙ ap (λ x. get x a) (sym (drawn-ids t b)) ∙ old in
      elim (Bool-cases (ident t.name == a)) [
        | inl same ↦
            inl (t, inl refl, (==_iff (ident t.name) a).0 same, some-inj (rw same at before))
        | inr differ ↦ inr (rw differ at before)
      ]
]

-- A click on a class leads to a type of the diagram that has the alias of that class.
pub classes_ids :
    (types : List TypeInfo) (a id : String)
    → get (classes types).ids a ≡ some id
    → IsAliasOf types a id
unfolding classes diagram
classes_ids types a id h =
    let (b, names) = draw_types types (new_builder "classDiagram" "c") [] in
    let related = draw_relations names types b in
    let same =
      draw_class_clicks-ids (sort_by key_le (map (λ e. e.0) related.ids)) related
      ∙ draw_relations-ids names types b in
    let before : get b.ids a ≡ some id = ap (λ x. get x a) (sym same) ∙ h in
    elim (draw_types-ids types (new_builder "classDiagram" "c") [] a id before) [
      | inl found ↦ found
      | inr old ↦ absurd (nothing_aliased a id old)
    ]
