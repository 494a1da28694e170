-- ===== src/Mermaid/SiteMap/Drawn.antt =====
-- Which routes a site map draws (internal/mermaid/sitemap.go).
use interactivecodebase.Base.{
  ◌≡◌, refl, sym, ◌∙◌, ap, subst, inl, inr, ◌⊎◌, ◌↔◌, String, ◌<>◌, ◌==◌, ==_iff, string_eq, Bool,
  true, false, not, ◌&&◌, some, List, [], ◌∷◌, map, contains, contains_iff, Bool-cases, ◌||◌, In,
  In-map, In-keep, if◌then◌else◌, arith,
}
use interactivecodebase.Base.Sort.{sort_by, In-sort_by}
use interactivecodebase.Base.Text.{text_le, contains_text, contains_text_iff}
use interactivecodebase.Graph.Model.{Node, Edge, attr}
use interactivecodebase.Mermaid.{Texts, get, Builder, new_builder, line, id_of, diagram}
use interactivecodebase.Mermaid.Ids.{
  IsConsistent, id_of-HasId, line-IsConsistent, new_builder-IsConsistent,
}
use interactivecodebase.Mermaid.SiteMap.{
  access_order, SiteMapOptions, group_of, skipped, dropped, is_empty, kept_ids, members,
  draw_routes, draw_group, draw_groups, draw_nav, draw_clicks, key_le, site_map, route_line,
  nav_line,
}

-- The node has an id.
abbrev pub IsNamed : Builder → String → Type 0
IsNamed b g = (i : String) × (get b.by_node g ≡ some i)

-- A drawing keeps the ids consistent and gives ids to the nodes of `P`, and to no others.
abbrev Adds : (String → Type 0) → Builder → Builder → Type 0
Adds P b b' = IsConsistent b' × ((g : String) → IsNamed b' g ↔ (P g ⊎ IsNamed b g))

abbrev IdIn : List Node → String → Type 0
IdIn rs g = (r : Node) × In r rs × (r.id ≡ g)

id_of-Adds : (x : String) (b : Builder) → IsConsistent b → Adds (λ g. g ≡ x) b (id_of x b).1
id_of-Adds x b c =
    let (c1, here, back, kept, fewer) = id_of-HasId x b c in
    (
      c1,
      λ g. (
        λ (i, named). elim (fewer g i named) [ inl same ↦ inl same | inr old ↦ inr (i, old) ],
        λ h. elim h [
          | inl same ↦ ((id_of x b).0, rw same here)
          | inr (i, named) ↦ (i, kept g i named)
        ],
      ),
    )

draw_routes-Adds :
    (rs : List Node) (b : Builder) → IsConsistent b → Adds (IdIn rs) b (draw_routes rs b)
unfolding draw_routes line
draw_routes-Adds [] b c =
    (c, λ g. (λ h. inr h, λ h. elim h [ inl (r, m, _) ↦ absurd m | inr x ↦ x ]))
draw_routes-Adds (r ∷ rs) b c =
    let first = id_of-Adds r.id b c in
    let text = route_line (id_of r.id b).0 r in
    let rest =
      draw_routes-Adds rs (line text (id_of r.id b).1)
        (line-IsConsistent text (id_of r.id b).1 first.0) in
    (
      rest.0,
      λ g. (
        λ h. elim ((rest.1 g).0 h) [
          | inl (u, m, same) ↦ inl (u, inr m, same)
          | inr named ↦ elim ((first.1 g).0 named) [
            | inl same ↦ inl (r, inl refl, sym same)
            | inr old ↦ inr old
          ]
        ],
        λ h. (rest.1 g).1 (elim h [
          | inl (u, inl this, same) ↦ inr ((first.1 g).1 (inl (sym same ∙ ap (λ n. n.id) this)))
          | inl (u, inr m, same) ↦ inl (u, m, same)
          | inr old ↦ inr ((first.1 g).1 (inr old))
        ]),
      ),
    )

draw_group-Adds :
    (key title : String) (rs : List Node) (b : Builder)
    → IsConsistent b
    → Adds (IdIn rs) b (draw_group key title rs b)
unfolding draw_group line
draw_group-Adds key title [] b c =
    (c, λ g. (λ h. inr h, λ h. elim h [ inl (r, m, _) ↦ absurd m | inr x ↦ x ]))
draw_group-Adds key title (r ∷ rs) b c =
    let sorted = sort_by (λ x y. text_le x.name y.name) (r ∷ rs) in
    let begun = line ("  subgraph " <> (key <> ("[\"" <> (title <> "\"]")))) b in
    let drawn = draw_routes-Adds sorted begun (line-IsConsistent _ b c) in
    (
      line-IsConsistent "  end" (draw_routes sorted begun) drawn.0,
      λ g. (
        λ h. elim ((drawn.1 g).0 h) [
          | inl (u, m, same) ↦
              inl (u, (In-sort_by (λ x y. text_le x.name y.name) u (r ∷ rs)).0 m, same)
          | inr old ↦ inr old
        ],
        λ h. (drawn.1 g).1 (elim h [
          | inl (u, m, same) ↦
              inl (u, (In-sort_by (λ x y. text_le x.name y.name) u (r ∷ rs)).1 m, same)
          | inr old ↦ inr old
        ]),
      ),
    )

-- The routes of the groups in a list.
abbrev InGroups : (String → String) → SiteMapOptions → List Node → Texts → String → Type 0
InGroups lower o rs groups g = (k : String × String) × In k groups × IdIn (members lower o k.0 rs) g

draw_groups-Adds :
    (lower : String → String) (o : SiteMapOptions) (rs : List Node) (groups : Texts) (b : Builder)
    → IsConsistent b
    → Adds (InGroups lower o rs groups) b (draw_groups lower o rs groups b)
unfolding draw_groups
draw_groups-Adds lower o rs [] b c =
    (c, λ g. (λ h. inr h, λ h. elim h [ inl (k, m, _) ↦ absurd m | inr x ↦ x ]))
draw_groups-Adds lower o rs ((key, title) ∷ more) b c =
    let first = draw_group-Adds key title (members lower o key rs) b c in
    let rest =
      draw_groups-Adds lower o rs more (draw_group key title (members lower o key rs) b) first.0 in
    (
      rest.0,
      λ g. (
        λ h. elim ((rest.1 g).0 h) [
          | inl (k, m, r) ↦ inl (k, inr m, r)
          | inr named ↦ elim ((first.1 g).0 named) [
            | inl r ↦ inl ((key, title), inl refl, r)
            | inr old ↦ inr old
          ]
        ],
        λ h. (rest.1 g).1 (elim h [
          | inl (k, inl this, r) ↦ inr (
              (first.1 g).1
                (inl (subst (λ x. IdIn (members lower o x rs) g) (ap (λ x. x.0) this) r)))
          | inl (k, inr m, r) ↦ inl (k, m, r)
          | inr old ↦ inr ((first.1 g).1 (inr old))
        ]),
      ),
    )

if-ids : (skip : Bool) (b : Builder) (text : String) → (if skip then b else line text b).ids ≡ b.ids
unfolding line
if-ids true b text = refl
if-ids false b text = refl

draw_nav-ids :
    (kept : List String) (nav : List Edge) (b : Builder) → (draw_nav kept nav b).ids ≡ b.ids
unfolding draw_nav line
draw_nav-ids kept [] b = refl
draw_nav-ids kept (e ∷ nav) b =
    draw_nav-ids kept nav (
      if not (contains kept e.from) || (not (contains kept e.to) || e.from == e.to)
      then b
      else line (nav_line b e) b)
    ∙ if-ids (not (contains kept e.from) || (not (contains kept e.to) || e.from == e.to)) b
        (nav_line b e)

draw_clicks-ids : (ids : List String) (b : Builder) → (draw_clicks ids b).ids ≡ b.ids
unfolding draw_clicks line
draw_clicks-ids [] b = refl
draw_clicks-ids (i ∷ ids) b = draw_clicks-ids ids (line _ b)

-- Whether a route passes, by the program's own tests.
abbrev Passes : (String → String) → SiteMapOptions → Node → Type 0
Passes lower o r =
    (skipped o r ≡ false)
    × (dropped lower o r ≡ false)
    × In (group_of r) (map (λ k. k.0) access_order)

passes_iff :
    (skip drop : Bool) (a b : String)
    → ((not skip && (not drop && a == b)) ≡ true) ↔ ((skip ≡ false) × (drop ≡ false) × (a ≡ b))
passes_iff skip drop a b = ground (arith, ==_iff a b)

nothing_named : (g i : String) → get (new_builder "flowchart LR" "r").by_node g ≡ some i → ⊥
unfolding new_builder get
nothing_named g i h = cc

InGroups-iff :
    (lower : String → String) (o : SiteMapOptions) (rs : List Node) (g : String)
    → InGroups lower o rs access_order g ↔ ((r : Node) × In r rs × Passes lower o r × (r.id ≡ g))
unfolding members
InGroups-iff lower o rs g = (
  λ (k, listed, (r, m, same)).
      let (here, passed) =
        (In-keep (λ r. not (skipped o r) && (not (dropped lower o r) && group_of r == k.0)) r rs).0
          m in
      let (on, wanted, key) =
        (passes_iff (skipped o r) (dropped lower o r) (group_of r) k.0).0 passed in
      (
        r,
        here,
        (on, wanted, (In-map (λ j. j.0) (group_of r) access_order).1 (k, listed, key)),
        same,
      ),
  λ (r, m, (on, in_time, grouped), same).
      let (k, listed, key) = (In-map (λ k. k.0) (group_of r) access_order).0 grouped in
      (
        k,
        listed,
        (
          r,
          (In-keep (λ r. not (skipped o r) && (not (dropped lower o r) && group_of r == k.0)) r
                rs).1
              (
                m,
                (passes_iff (skipped o r) (dropped lower o r) (group_of r) k.0).1
                    (on, in_time, key),
              ),
          same,
        ),
      ),
)

-- The group of a route: public routes that look at the session form one of their own.
abbrev pub IsOfGroup : Node → String → Type 0
IsOfGroup r k =
    ((attr r.attrs "access" ≡ "public") × (attr r.attrs "optionalAuth" ≡ "true") × (k ≡ "optional"))
    ⊎ (((attr r.attrs "access" ≡ "public") × (attr r.attrs "optionalAuth" ≡ "true") → ⊥)
        × (k ≡ attr r.attrs "access"))

-- A route is shown if it is a GET route, where only these are wanted, its group is one of the five and one of those
-- that are wanted, where some are named, and its name in small letters contains the text that is looked for.
pub record IsShown (lower : String → String) (o : SiteMapOptions) (r : Node) : Type 0 where
  pub group : String
  pub of_group : IsOfGroup r group
  pub known : In group ("public" ∷ "optional" ∷ "guest" ∷ "authenticated" ∷ "admin" ∷ [])
  pub read_only : o.get_only ≡ true → attr r.attrs "method" ≡ "GET"
  pub wanted : (o.access ≡ []) ⊎ In group o.access
  pub matches :
      (o.match_text ≡ "")
      ⊎ ((before : String) × (after : String) × (lower r.name
            ≡ before <> (lower o.match_text <> after)))

group_of-IsOfGroup : (r : Node) → IsOfGroup r (group_of r)
unfolding group_of
group_of-IsOfGroup r =
    elim (Bool-cases (attr r.attrs "access" == "public" && attr r.attrs "optionalAuth" == "true")) [
      | inl h ↦ rw h (inl (ground arith, ground arith, refl))
      | inr h ↦ rw h (inr ((λ both. let (a, b) = both in ground arith), refl))
    ]

IsOfGroup-group_of : (r : Node) (k : String) → IsOfGroup r k → k ≡ group_of r
unfolding group_of
IsOfGroup-group_of r k (inl (a, b, e)) = ground arith
IsOfGroup-group_of r k (inr (n, e)) =
    elim (Bool-cases (attr r.attrs "access" == "public" && attr r.attrs "optionalAuth" == "true")) [
      | inl h ↦ absurd (n (ground arith, ground arith))
      | inr h ↦ rw h e
    ]

skipped_iff :
    (o : SiteMapOptions) (r : Node)
    → (skipped o r ≡ false) ↔ (o.get_only ≡ true → attr r.attrs "method" ≡ "GET")
unfolding skipped
skipped_iff o r = ground arith

not_dropped :
    (access : List String) (text group : String) (found : Bool)
    → (((not (is_empty access) && not (contains access group)) || (not (text == "") && not found))
        ≡ false)
      ↔ (((access ≡ []) ⊎ In group access) × ((text ≡ "") ⊎ (found ≡ true)))
not_dropped [] text group found = (λ h. (inl refl, ground arith), λ (any, m). ground arith)
not_dropped (x ∷ access) text group found =
    let there = contains_iff (x ∷ access) group in
    (
      λ h. (inr (there.0 (ground arith)), ground arith),
      λ (any, m). elim any [ inl none_named ↦ cc | inr i ↦ let yes = there.1 i in ground arith ],
    )

Passes-IsShown :
    (lower : String → String) (o : SiteMapOptions) (r : Node) → Passes lower o r → IsShown lower o r
unfolding dropped
Passes-IsShown lower o r (on, wanted, grouped) =
    let (access, text) =
      (not_dropped o.access o.match_text (group_of r)
          (contains_text (lower r.name) (lower o.match_text))).0
        wanted in
    record {
      group = group_of r;
      of_group = group_of-IsOfGroup r;
      known = grouped;
      read_only = (skipped_iff o r).0 on;
      wanted = access;
      matches = elim text [
        | inl all ↦ inl all
        | inr found ↦ inr ((contains_text_iff (lower r.name) (lower o.match_text)).0 found)
      ];
    }

IsShown-Passes :
    (lower : String → String) (o : SiteMapOptions) (r : Node) → IsShown lower o r → Passes lower o r
unfolding dropped
IsShown-Passes lower o r s =
    let same = IsOfGroup-group_of r s.group s.of_group in
    (
      (skipped_iff o r).1 s.read_only,
      (not_dropped o.access o.match_text (group_of r)
            (contains_text (lower r.name) (lower o.match_text))).1
          (
            subst (λ k. (o.access ≡ []) ⊎ In k o.access) same s.wanted,
            elim s.matches [
              | inl all ↦ inl all
              | inr found ↦ inr ((contains_text_iff (lower r.name) (lower o.match_text)).1 found)
            ],
          ),
      subst (λ k. In k ("public" ∷ "optional" ∷ "guest" ∷ "authenticated" ∷ "admin" ∷ [])) same
          s.known,
    )

-- A site map has an id for exactly the routes that are shown: GET routes, where only these are wanted, whose group
-- is one of the five and one of those that are wanted, and whose name, small letters for capitals, contains the text
-- that is looked for.
pub site_map_ids :
    (lower : String → String) (routes : List Node) (nav : List Edge) (o : SiteMapOptions)
    (g : String)
    → ((i : String) × (get (site_map lower routes nav o).ids i ≡ some g))
      ↔ ((r : Node) × In r routes × IsShown lower o r × (r.id ≡ g))
unfolding site_map diagram
site_map_ids lower routes nav o g =
    let start = new_builder "flowchart LR" "r" in
    let b = draw_groups lower o routes access_order start in
    let added =
      draw_groups-Adds lower o routes access_order start
        (new_builder-IsConsistent "flowchart LR" "r") in
    let linked = draw_nav (kept_ids lower o routes []) nav b in
    let same =
      draw_clicks-ids (sort_by key_le (map (λ e. e.0) linked.ids)) linked
      ∙ draw_nav-ids (kept_ids lower o routes []) nav b in
    (
      λ (i, found). elim ((added.1 g).0 (i, added.0.forth g i (rw same at found))) [
        | inl grouped ↦
            let (r, m, passes, same_id) = (InGroups-iff lower o routes g).0 grouped in
            (r, m, Passes-IsShown lower o r passes, same_id)
        | inr (j, none_named) ↦ absurd (nothing_named g j none_named)
      ],
      λ (r, m, shown, same_id).
          let (i, named) = (added.1 g).1 (
            inl (
              (InGroups-iff lower o routes g).1 (r, m, IsShown-Passes lower o r shown, same_id))) in
          (i, subst (λ x. get x i ≡ some g) (sym same) (added.0.back g i named)),
    )
