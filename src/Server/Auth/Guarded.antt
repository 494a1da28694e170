-- ===== src/Server/Auth/Guarded.antt =====
-- Who gets past the access token (internal/server/auth.go).
use interactivecodebase.Base.{
  ◌≡◌, ◌≢◌, refl, ap, ◌↔◌, ◌⊎◌, ◌<>◌, String, string_eq, true, false, Option, none, some, [], ◌∷◌,
  any, keep, arith,
}
use interactivecodebase.Base.Text.{cut_prefix, cut_prefix_iff}
use interactivecodebase.Server.Auth.{
  AuthConfig, Values, Request, Cookie, pass, see_other, has, first_value, get_value, del, valid,
  set_cookie, option_valid, refuse, log_in, require_token, token_cookie,
}

-- The header or the first cookie of the name is the token.
abbrev pub Carries : AuthConfig → Request → Type 0
Carries cfg r =
    (r.authorization ≡ "Bearer " <> cfg.token)
    ⊎ (first_value r.cookies token_cookie ≡ some cfg.token)

valid_iff :
    (cfg : AuthConfig) (t : String) → (valid cfg t ≡ true) ↔ ((cfg.token ≢ "") × (t ≡ cfg.token))
unfolding valid
valid_iff cfg t = ground arith

some-inj : {A : Type 0} {a b : A} → some a ≡ some b → a ≡ b
some-inj h = cc

option_valid_iff :
    (cfg : AuthConfig) (o : Option String)
    → (option_valid cfg o ≡ true) ↔ ((cfg.token ≢ "") × (o ≡ some cfg.token))
option_valid_iff cfg none = (λ h. cc, λ h. cc)
option_valid_iff cfg (some t) = (
  λ h. let (some_token, same) = (valid_iff cfg t).0 h in (some_token, ap some same),
  λ h. (valid_iff cfg t).1 (h.0, some-inj h.1),
)

refuse-ne-pass : (r : Request) → refuse r ≢ pass
unfolding refuse
refuse-ne-pass r h = ground arith

log_in-ne-pass : (cfg : AuthConfig) (r : Request) → log_in cfg r ≢ pass
unfolding log_in
log_in-ne-pass cfg r h = ground (arith, refuse-ne-pass r)

-- A request reaches the handler behind RequireToken exactly if a token is configured and the request carries it, as
-- its bearer token or in the cookie.
pub require_token-pass :
    (cfg : AuthConfig) (r : Request)
    → (require_token cfg r ≡ pass) ↔ ((cfg.token ≢ "") × Carries cfg r)
unfolding require_token
require_token-pass cfg r =
    let header = option_valid_iff cfg (cut_prefix r.authorization "Bearer ") in
    let cookie = option_valid_iff cfg (first_value r.cookies token_cookie) in
    let cut = cut_prefix_iff r.authorization "Bearer " cfg.token in
    ground (arith, header, cookie, cut, log_in-ne-pass cfg r)

has-del : (vs : Values) (k : String) → has (del vs k) k ≡ false
unfolding has del any keep
has-del [] k = refl
has-del (v ∷ vs) k = ground (arith, has-del vs k)

refuse-ne-see_other :
    (r : Request) (c : Cookie) (path : String) (query : Values) → refuse r ≢ see_other c path query
unfolding refuse
refuse-ne-see_other r c path query h = ground arith

log_in-see_other :
    (cfg : AuthConfig) (r : Request) (c : Cookie) (path : String) (query : Values)
    → log_in cfg r ≡ see_other c path query
    → (cfg.token ≢ "")
      × (c ≡ set_cookie cfg)
      × (has query "token" ≡ false)
      × (((r.method ≡ "GET") × (get_value r.query "token" ≡ cfg.token) × (path ≡ r.path))
          ⊎ ((r.method ≡ "POST")
              × (r.path ≡ "/login")
              × (get_value r.form "token" ≡ cfg.token)
              × (path ≡ "/")))
unfolding log_in has any
log_in-see_other cfg r c path query h = ground (
  arith,
  refuse-ne-see_other r c path query,
  has-del r.query "token",
  (valid_iff cfg (get_value r.query "token")).0,
  (valid_iff cfg (get_value r.form "token")).0,
)

-- The cookie is set only for a request that gives the token, in the query of a GET or in the form that is posted to
-- /login; it holds the token; and the request is sent to the same path without the token in its query, or to the root.
pub require_token-see_other :
    (cfg : AuthConfig) (r : Request) (c : Cookie) (path : String) (query : Values)
    → require_token cfg r ≡ see_other c path query
    → (cfg.token ≢ "")
      × (c ≡ set_cookie cfg)
      × (has query "token" ≡ false)
      × (((r.method ≡ "GET") × (get_value r.query "token" ≡ cfg.token) × (path ≡ r.path))
          ⊎ ((r.method ≡ "POST")
              × (r.path ≡ "/login")
              × (get_value r.form "token" ≡ cfg.token)
              × (path ≡ "/")))
unfolding require_token
require_token-see_other cfg r c path query h =
    let later : log_in cfg r ≡ see_other c path query = ground arith in
    log_in-see_other cfg r c path query later
