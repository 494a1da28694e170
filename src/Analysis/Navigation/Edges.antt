-- ===== src/Analysis/Navigation/Edges.antt =====
-- The navigation edges (internal/analysis/navigation.go, buildNavigation and redirectTarget). What the
-- arguments may be, the routes that match a path, and the calls that a handler reaches are parameters.
use interactivecodebase.Base.{
  ℕ, String, ◌==◌, string_eq, nat_eq, Bool, ◌&&◌, ◌||◌, Option, none, some, List, [], ◌∷◌, ◌++◌,
  any, contains, if◌then◌else◌,
}
use interactivecodebase.Analysis.Navigation.{Call, header_setters}

-- A reference on a page, with its kind and the routes that it may lead to.
pub record Ref : Type 0 where
  pub kind : String
  pub element : String
  pub attr : String
  pub targets : List String
  pub defined_in : String
  pub file : String
  pub line : ℕ

pub record Route : Type 0 where
  pub key : String
  pub page : Option (List Ref)
  pub handler : Option ℕ
  pub method : String

pub record Navigation : Type 0 where
  pub from : String
  pub to : String
  pub trigger : String
  pub template : String
  pub via : Option ℕ
  pub file : String
  pub line : ℕ
  pub pos : ℕ

abbrev pub same_edge : Navigation → Navigation → Bool
same_edge m n = m.from == n.from && (m.to == n.to && m.trigger == n.trigger)

-- `add`: an edge without an end, or one that is there, is left out.
unfoldable pub add : Navigation → List Navigation → List Navigation
add n found = if n.to == "" || any (λ m. same_edge m n) found then found else found ++ n ∷ []

abbrev pub ref_trigger : Ref → String
ref_trigger ref =
    if ref.kind == "link"
    then "link"
    else if ref.element == "form" && ref.attr == "action"
    then "form"
    else ""

abbrev pub ref_edge : Route → Ref → String → Navigation
ref_edge rt ref target = record {
  from = rt.key;
  to = target;
  trigger = ref_trigger ref;
  template = ref.defined_in;
  via = none;
  file = ref.file;
  line = ref.line;
  pos = 0;
}

unfoldable pub add_targets : (String → Navigation) → List String → List Navigation → List Navigation
add_targets edge [] found = found
add_targets edge (target ∷ targets) found = add_targets edge targets (add (edge target) found)

unfoldable pub add_refs : Route → List Ref → List Navigation → List Navigation
add_refs rt [] found = found
add_refs rt (ref ∷ refs) found =
    add_refs rt refs
      (if ref_trigger ref == "" then found else add_targets (ref_edge rt ref) ref.targets found)

module _ (url_values : Call → List String) (call_values : Call → List String)
    (match_routes : List String → List String) (reached : ℕ → String → List (ℕ × Call)) where
  abbrev header_target : Option String → Call → String × List String
  header_target none c = ("", [])
  header_target (some key) c =
      if key == "HX-Redirect" || key == "HX-Location"
      then ("hx-redirect", url_values c)
      else if key == "Location"
      then ("redirect", url_values c)
      else ("", [])

  abbrev own_target : Call → String × List String
  own_target c = elim (call_values c) [
    | [] ↦ ("redirect", [])
    | p ∷ [] ↦ if p == "{?}" then ("", []) else ("redirect", p ∷ [])
    | p ∷ q ∷ ps ↦ ("redirect", p ∷ q ∷ ps)
  ]

  -- `redirectTarget`
  unfoldable pub redirect_target : List ℕ → Call → String × List String
  redirect_target redirectors c = elim c.callee [
    | none ↦ ("", [])
    | some callee ↦
        if callee.name == "net/http.Redirect"
        then ("redirect", url_values c)
        else if contains header_setters callee.name
        then header_target c.key c
        else if contains redirectors callee.id
        then own_target c
        else ("", [])
  ]

  abbrev pub redirect_edge : Route → ℕ → Call → String → String → Navigation
  redirect_edge rt via c trigger target = record {
    from = rt.key;
    to = target;
    trigger = trigger;
    template = "";
    via = some via;
    file = "";
    line = 0;
    pos = c.pos;
  }

  unfoldable pub add_calls : List ℕ → Route → List (ℕ × Call) → List Navigation → List Navigation
  add_calls redirectors rt [] found = found
  add_calls redirectors rt ((via, c) ∷ calls) found =
      let (trigger, values) = redirect_target redirectors c in
      add_calls redirectors rt calls (
        if trigger == ""
        then found
        else add_targets (redirect_edge rt via c trigger) (match_routes values) found)

  abbrev pub page_edges : Route → List Navigation → List Navigation
  page_edges rt found = elim rt.page [ none ↦ found | some refs ↦ add_refs rt refs found ]

  abbrev pub handler_edges : List ℕ → Route → List Navigation → List Navigation
  handler_edges redirectors rt found = elim rt.handler [
    | none ↦ found
    | some h ↦ add_calls redirectors rt (reached h rt.method) found
  ]

  -- `buildNavigation`
  unfoldable pub build_navigation : List ℕ → List Route → List Navigation → List Navigation
  build_navigation redirectors [] found = found
  build_navigation redirectors (rt ∷ rts) found =
      build_navigation redirectors rts (handler_edges redirectors rt (page_edges rt found))
