-- ===== src/Config/Checked.antt =====
-- What validate accepts (internal/config/config.go).
use interactivecodebase.Base.{
  ℕ, suc, ◌≡◌, ◌≢◌, ◌↔◌, refl, String, ◌==◌, string_eq, Bool, false, not, ◌&&◌, Option, none, some,
  List, [], ◌∷◌, ◌++◌, contains, contains_iff, sym, ap, subst, inl, inr, All, In, ok, err, arith,
  Bool-cases,
}
use interactivecodebase.Base.Ints.{ℤ, pos, negsuc}
use interactivecodebase.Mermaid.{Texts, get}
use interactivecodebase.Config.{
  Config, Sink, Guard, Problem, when, is_negative, is_some, sink_problems, guard_problems,
  role_problems, validate, sink_kinds, roles, langs, servers, checked, invalid, not_yaml, parse,
  Decoded, fields, end_of_file, malformed, empty_config, access_admin, access_guest,
}

abbrev IsSinkName : String → Type 0
IsSinkName kind = In kind ("sql" ∷ "http" ∷ "file" ∷ "smtp" ∷ "exec" ∷ "env" ∷ [])

abbrev pub IsArg : Option ℤ → Type 0
IsArg none = Unit
IsArg (some (pos n)) = Unit
IsArg (some (negsuc n)) = ⊥

abbrev pub IsValidSink : Sink → Type 0
IsValidSink s = IsSinkName s.kind × (s.func ≢ "") × IsArg s.arg

abbrev pub IsValidGuard : Guard → Type 0
IsValidGuard g = (g.func ≢ "") × In g.role ("" ∷ "authenticated" ∷ "admin" ∷ "guest" ∷ [])

-- What the settings must be.
pub record IsValid (c : Config) : Type 0 where
  pub lang : In c.lang ("" ∷ "go" ∷ "scala" ∷ [])
  pub server : In c.scala.server ("" ∷ "reuse" ∷ "start" ∷ "off" ∷ [])
  pub dialect : In c.dialect ("" ∷ "postgres" ∷ [])
  pub sinks : All IsValidSink c.sinks
  pub guards : All IsValidGuard c.auth.guards
  pub roles : All (λ r. In r.0 ("admin" ∷ "guest" ∷ [])) c.auth.role_fields

-- Nothing is reported exactly if the test passes and nothing else is reported.
module _ (bad : Bool) (p : Problem) (rest : List Problem) where
  first_passes : when bad p ++ rest ≡ [] → bad ≡ false
  first_passes h = elim (Bool-cases bad) [
    | inl t ↦ cc (subst (λ b. when b p ++ rest ≡ []) t h)
    | inr f ↦ f
  ]

  rest_passes : when bad p ++ rest ≡ [] → rest ≡ []
  rest_passes h = elim (Bool-cases bad) [
    | inl t ↦ cc (subst (λ b. when b p ++ rest ≡ []) t h)
    | inr f ↦ subst (λ b. when b p ++ rest ≡ []) f h
  ]

  all_pass : bad ≡ false → rest ≡ [] → when bad p ++ rest ≡ []
  all_pass f r = rw (f, r)

not-contains_iff : (xs : List String) (x : String) → (not (contains xs x) ≡ false) ↔ In x xs
not-contains_iff xs x = ground (arith, contains_iff xs x)

empty_iff : (s : String) → ((s == "") ≡ false) ↔ (s ≢ "")
empty_iff s = ground arith

kind_iff : (kind : String) → (not (is_some (get sink_kinds kind)) ≡ false) ↔ IsSinkName kind
unfolding get is_some
kind_iff kind = ground arith

IsArg-iff : (arg : Option ℤ) → (is_negative arg ≡ false) ↔ IsArg arg
IsArg-iff none = (λ h. tt, λ h. refl)
IsArg-iff (some (pos n)) = (λ h. tt, λ h. refl)
IsArg-iff (some (negsuc n)) = (λ h. cc, λ h. absurd h)

sinks_iff : (i : ℕ) (ss : List Sink) → (sink_problems i ss ≡ []) ↔ All IsValidSink ss
unfolding sink_problems
sinks_iff i [] = (λ h. tt, λ h. refl)
sinks_iff i (s ∷ ss) = (
  λ h.
      let h1 = rest_passes _ _ _ h in
      let h2 = rest_passes _ _ _ h1 in
      (
        (
          (kind_iff s.kind).0 (first_passes _ _ _ h),
          (empty_iff s.func).0 (first_passes _ _ _ h1),
          (IsArg-iff s.arg).0 (first_passes _ _ _ h2),
        ),
        (sinks_iff (suc i) ss).0 (rest_passes _ _ _ h2),
      ),
  λ v. all_pass _ _ _ ((kind_iff s.kind).1 v.0.0) (
      all_pass _ _ _ ((empty_iff s.func).1 v.0.1)
        (all_pass _ _ _ ((IsArg-iff s.arg).1 v.0.2) ((sinks_iff (suc i) ss).1 v.1))),
)

guards_iff : (i : ℕ) (gs : List Guard) → (guard_problems i gs ≡ []) ↔ All IsValidGuard gs
unfolding guard_problems
guards_iff i [] = (λ h. tt, λ h. refl)
guards_iff i (g ∷ gs) = (
  λ h.
      let h1 = rest_passes _ _ _ h in
      (
        (
          (empty_iff g.func).0 (first_passes _ _ _ h),
          (not-contains_iff roles g.role).0 (first_passes _ _ _ h1),
        ),
        (guards_iff (suc i) gs).0 (rest_passes _ _ _ h1),
      ),
  λ v.
      all_pass _ _ _ ((empty_iff g.func).1 v.0.0)
        (all_pass _ _ _ ((not-contains_iff roles g.role).1 v.0.1) ((guards_iff (suc i) gs).1 v.1)),
)

role_iff :
    (r : String)
    → ((not (r == access_admin) && not (r == access_guest)) ≡ false) ↔ In r ("admin" ∷ "guest" ∷ [])
role_iff r = ground arith

roles_iff : (rs : Texts) → (role_problems rs ≡ []) ↔ All (λ r. In r.0 ("admin" ∷ "guest" ∷ [])) rs
unfolding role_problems
roles_iff [] = (λ h. tt, λ h. refl)
roles_iff ((r, p) ∷ rs) = (
  λ h. ((role_iff r).0 (first_passes _ _ _ h), (roles_iff rs).0 (rest_passes _ _ _ h)),
  λ v. all_pass _ _ _ ((role_iff r).1 v.0) ((roles_iff rs).1 v.1),
)

dialect_iff :
    (d : String) → ((not (d == "") && not (d == "postgres")) ≡ false) ↔ In d ("" ∷ "postgres" ∷ [])
dialect_iff d = ground arith

append_nil : {A : Type 0} (xs ys : List A) → (xs ++ ys ≡ []) ↔ ((xs ≡ []) × (ys ≡ []))
append_nil [] ys = (λ h. (refl, h), λ h. h.1)
append_nil (x ∷ xs) ys = (λ h. cc, λ h. cc h.0)

validate-IsValid : (c : Config) → validate c ≡ [] → IsValid c
unfolding validate
validate-IsValid c h =
    let h1 = rest_passes _ _ _ h in
    let h2 = rest_passes _ _ _ h1 in
    let (no_sink, h3) = (append_nil _ _).0 (rest_passes _ _ _ h2) in
    let (no_guard, no_role) = (append_nil _ _).0 h3 in
    record {
      lang = (not-contains_iff langs c.lang).0 (first_passes _ _ _ h);
      server = (not-contains_iff servers c.scala.server).0 (first_passes _ _ _ h1);
      dialect = (dialect_iff c.dialect).0 (first_passes _ _ _ h2);
      sinks = (sinks_iff 0 c.sinks).0 no_sink;
      guards = (guards_iff 0 c.auth.guards).0 no_guard;
      roles = (roles_iff c.auth.role_fields).0 no_role;
    }

IsValid-validate : (c : Config) → IsValid c → validate c ≡ []
unfolding validate
IsValid-validate c v = all_pass _ _ _ ((not-contains_iff langs c.lang).1 v.lang) (
    all_pass _ _ _ ((not-contains_iff servers c.scala.server).1 v.server) (
      all_pass _ _ _ ((dialect_iff c.dialect).1 v.dialect) (
        (append_nil _ _).1 (
          (sinks_iff 0 c.sinks).1 v.sinks,
          (append_nil _ _).1
              ((guards_iff 0 c.auth.guards).1 v.guards, (roles_iff c.auth.role_fields).1 v.roles),
        ))))

checked_iff : (c d : Config) → (checked c ≡ ok d) ↔ ((c ≡ d) × (validate c ≡ []))
checked_iff c d =
    elim (validate c)
      as (λ ps.
        ((elim ps [ [] ↦ ok c | p ∷ qs ↦ err (invalid (p ∷ qs)) ]) ≡ ok d)
        ↔ ((c ≡ d) × (ps ≡ []))) [
          | [] ↦ (λ h. (cc, refl), λ h. ap ok h.0)
          | p ∷ ps ↦ (λ h. cc, λ h. cc h.1)
        ]

-- The config that a text stands for: its fields, or the zero value for an empty text.
abbrev pub Means : Decoded → Config → Type 0
Means (fields c) d = c ≡ d
Means end_of_file d = empty_config ≡ d
Means malformed d = ⊥

-- Parse accepts a text exactly if the decoder reads it and its settings are what they must be, and then
-- returns them.
pub parse_iff :
    (decode : String → Decoded) (text : String) (c : Config)
    → (parse decode text ≡ ok c) ↔ (Means (decode text) c × IsValid c)
unfolding parse
parse_iff decode text c =
    elim (decode text)
      as (λ r.
        ((elim r [
          | fields d ↦ checked d
          | end_of_file ↦ checked empty_config
          | malformed ↦ err not_yaml
        ])
          ≡ ok c)
        ↔ (Means r c × IsValid c)) [
          | fields d ↦ accepted d
          | end_of_file ↦ accepted empty_config
          | malformed ↦ (λ h. cc, λ h. absurd h.0)
        ]
  where
    accepted : (d : Config) → (checked d ≡ ok c) ↔ ((d ≡ c) × IsValid c)
    accepted d = (
      λ h.
          let (same, none_found) = (checked_iff d c).0 h in
          (same, subst IsValid same (validate-IsValid d none_found)),
      λ (same, v). (checked_iff d c).1 (same, IsValid-validate d (subst IsValid (sym same) v)),
    )
