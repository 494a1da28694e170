-- ===== src/Mermaid/Sequence.antt =====
-- The sequence diagram of a flow (internal/mermaid/sequence.go). A text is cut between characters, and the
-- lanes are gone through in the order in which they were made.
use Prim.Native.Char.{code}
use interactivecodebase.Base.{
  ℕ, suc, ◌+◌, ◌-◌, String, ◌<>◌, ◌==◌, string_eq, nat_eq, Bool, true, false, not, ◌&&◌, ◌||◌, none,
  some, List, [], ◌∷◌, map, leb, ltb, length, contains, if◌then◌else◌,
}
use interactivecodebase.Base.Text.{decimal, has_prefix, split}
use interactivecodebase.Graph.Kinds.{route, entry, interface_call}
use interactivecodebase.Graph.Model.{Node, attr}
use interactivecodebase.Flow.Tree.{Info, Step, step, Steps, nil, cons, to_list, info}
use interactivecodebase.Mermaid.{
  Texts, get, put, Diagram, Builder, new_builder, line, diagram, label, ident,
}

-- `sinkLanes`
abbrev pub sink_lanes : Texts
sink_lanes =
    ("sink.sql", "Database")
    ∷ ("sink.file", "Files")
    ∷ ("sink.http", "External API")
    ∷ ("sink.smtp", "Mail server")
    ∷ ("sink.exec", "Process")
    ∷ ("sink.env", "Environment")
    ∷ []

unfoldable pub starter : Node → String
starter n =
    let kind = attr n.attrs "entryKind" in
    if not (n.kind == entry)
    then "Browser"
    else if kind == "worker" || kind == "job"
    then "Scheduler"
    else if kind == "command"
    then "CLI"
    else if kind == "rpc"
    then "Client"
    else if kind == "consumer"
    then "Broker"
    else "Caller"

-- `sequence`
pub record Drawing : Type 0 where
  pub builder : Builder
  pub lanes : Texts
  pub msgs : ℕ

abbrev pub draw : String → Drawing → Drawing
draw text d = record d { builder = line text d.builder }

unfoldable pub numbered : String → Drawing → Drawing
numbered graph d = record d {
  msgs = suc d.msgs;
  builder = record (d.builder) { ids = put (decimal (suc d.msgs)) graph (d.builder).ids };
}

-- An alias that is in use gets the number of the lanes behind it.
unfoldable pub unused : ℕ → String → Texts → String
unused n alias [] = alias
unused n alias ((title, used) ∷ more) =
    unused n (if used == alias then alias <> ("_" <> decimal n) else alias) more

abbrev pub new_alias : String → Drawing → String
new_alias title d = unused (length d.lanes) (ident title) d.lanes

unfoldable pub lane : String → Drawing → String × Drawing
lane title d = elim (get d.lanes title) [
  | some alias ↦ (alias, d)
  | none ↦ (
    new_alias title d,
    draw ("  participant " <> (new_alias title d <> (" as " <> label title)))
        (record d { lanes = put title (new_alias title d) d.lanes }),
  )
]

abbrev pub last_part : List String → String
last_part [] = ""
last_part (x ∷ []) = x
last_part (x ∷ y ∷ ys) = last_part (y ∷ ys)

unfoldable pub lane_title : Node → String
lane_title n = elim (get sink_lanes n.kind) [
  | some title ↦ title
  | none ↦ let pkg = last_part (split b'/' n.package_path) in if pkg == "" then "external" else pkg
]

-- `laneOf`
unfoldable pub lane_of : Node → Drawing → String × Drawing
lane_of n d = lane (lane_title n) d

unfoldable pub branch_title : String → String
branch_title branch = if branch == "each" then "each element" else "branch " <> branch

-- `strings.Fields`
unfoldable pub is_space : ℕ → Bool
is_space c =
    (leb 9 c && leb c 13)
    || (contains (32 ∷ 133 ∷ 160 ∷ 5760 ∷ 8232 ∷ 8233 ∷ 8239 ∷ 8287 ∷ 12288 ∷ []) c
        || (leb 8192 c && leb c 8202))

-- The words joined by one space; the flags: whether a word was written, and whether a space is due.
unfoldable pub collapse : Bool → Bool → String → String
collapse begun due String.[] = ""
collapse begun due (String.◌∷◌ c s) =
    let after_space = collapse begun true s in
    let after_word = collapse true false s in
    if is_space (code c)
    then after_space
    else if begun && due
    then " " <> String.◌∷◌ c after_word
    else String.◌∷◌ c after_word

unfoldable pub utf8_length : ℕ → ℕ
utf8_length c = if ltb c 128 then 1 else if ltb c 2048 then 2 else if ltb c 65536 then 3 else 4

unfoldable pub bytes : String → ℕ
bytes String.[] = 0
bytes (String.◌∷◌ c s) = utf8_length (code c) + bytes s

unfoldable pub first_bytes : ℕ → String → String
first_bytes n String.[] = ""
first_bytes n (String.◌∷◌ c s) =
    let rest = first_bytes (n - utf8_length (code c)) s in
    if leb (utf8_length (code c)) n then String.◌∷◌ c rest else ""

unfoldable pub summary : String → String
summary s =
    let words = collapse false false s in
    if ltb 60 (bytes words) then first_bytes 60 words <> "…" else words

unfoldable pub state_text : Info → String
state_text i =
    if i.cycle
    then " (recursive)"
    else if i.ref
    then " (as above)"
    else if i.truncated
    then " (…)"
    else ""

unfoldable pub calls_text : Info → String
calls_text i = if ltb 1 i.calls then " ×" <> decimal i.calls else ""

abbrev pub send : String → String → String → Node → Drawing → Drawing
send from to text n d =
    draw ("  " <> (from <> ("->>" <> (to <> (": " <> label text))))) (numbered n.id d)

-- `message`
unfoldable pub message : String → Info → String → Drawing → Drawing
message from i text d =
    let full = text <> (state_text i <> calls_text i) in
    if i.node.kind == route || i.node.kind == entry
    then send from from full i.node d
    else send from (lane_of i.node d).0 full i.node (lane_of i.node d).1

abbrev pub join_tables : List String → String
join_tables [] = ""
join_tables (t ∷ []) = t
join_tables (t ∷ u ∷ more) = t <> (", " <> join_tables (u ∷ more))

-- `strings.ToUpper` is a parameter.
module _ (upper : String → String) where
  -- `sink`; the tables are the children.
  unfoldable pub sink_text : Info → List Step → String
  sink_text i [] =
      if i.node.detail == "" then i.node.name else i.node.name <> (" " <> summary i.node.detail)
  sink_text i (t ∷ ts) =
      join_tables
        (map (λ c. upper (attr (info c).edge.attrs "op") <> (" " <> (info c).node.name)) (t ∷ ts))

  unfoldable pub sink : String → Info → List Step → Drawing → Drawing
  sink from i tables d =
      send from (lane_of i.node d).0 (sink_text i tables) i.node (lane_of i.node d).1

  -- The par block before a child: its end, its beginning, or its next branch.
  unfoldable pub blocks : String → String → String → String → Drawing → Drawing
  blocks group branch g br d =
      if not (g == group)
      then (let ended = if group == "" then d else draw "  end" d in
          if g == "" then ended else draw ("  par " <> branch_title br) ended)
      else if not (g == "") && not (br == branch)
      then draw ("  and " <> branch_title br) d
      else d

  abbrev pub is_sink_kind : Node → Bool
  is_sink_kind n = has_prefix n.kind "sink."

  -- One of several implementations, before its own calls.
  abbrev pub announce : String → String → String → Step → Drawing → Drawing
  announce from name keyword impl d =
      message from (info impl) (name <> (" → " <> (info impl).node.name))
        (draw ("  " <> (keyword <> (" " <> label (info impl).node.name))) d)

  -- `walk`, and its loop over the children with the open block and branch.
  unfoldable mutual
    pub walk : Step → Drawing → Drawing
    walk (step i ss) d = walk_children (lane_of i.node d).0 "" "" ss (lane_of i.node d).1

    pub walk_children : String → String → String → Steps → Drawing → Drawing
    walk_children from group branch nil d = if group == "" then d else draw "  end" d
    walk_children from group branch (cons (step i ss) more) d =
        let g = attr i.edge.attrs "parallel" in
        let br = attr i.edge.attrs "branch" in
        let opened = blocks group branch g br d in
        let dispatched = walk_dispatch from i ss opened in
        let called =
          walk_children (lane_of i.node (message from i i.node.name opened)).0 "" "" ss
            (lane_of i.node (message from i i.node.name opened)).1 in
        let drawn =
          if i.node.kind == interface_call
          then dispatched
          else if is_sink_kind i.node
          then sink from i (to_list ss) opened
          else called in
        walk_children from g br more drawn

    -- A call through an interface: alone, to its implementation, or to one of several.
    pub walk_dispatch : String → Info → Steps → Drawing → Drawing
    walk_dispatch from i nil d = message from i ("interface " <> i.node.name) d
    walk_dispatch from i (cons impl nil) d =
        walk impl (message from (info impl) (i.node.name <> (" → " <> (info impl).node.name)) d)
    walk_dispatch from i (cons impl (cons other more)) d =
        let first = walk impl (announce from i.node.name "alt" impl d) in
        draw "  end" (walk_choices from i.node.name (cons other more) first)

    pub walk_choices : String → String → Steps → Drawing → Drawing
    walk_choices from name nil d = d
    walk_choices from name (cons impl more) d =
        walk_choices from name more (walk impl (announce from name "else" impl d))

  unfoldable pub draw_handlers : String → Node → List Step → Drawing → Drawing
  draw_handlers actor root [] d = d
  draw_handlers actor root (h ∷ hs) d =
      draw_handlers actor root hs
        (walk h (message actor (info h) (root.name <> (" → " <> (info h).node.name)) d))

  -- `Sequence`
  unfoldable pub sequence : Step → Diagram
  sequence (step i ss) =
      let begun : Drawing = record {
        builder = new_builder "sequenceDiagram" "p";
        lanes = [];
        msgs = 0;
      } in
      let ready = draw "  autonumber" (draw ("  actor " <> starter i.node) begun) in
      diagram (draw_handlers (starter i.node) i.node (to_list ss) ready).builder
