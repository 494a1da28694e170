-- ===== src/Server/Auth.antt =====
-- The access token of the server (internal/server/auth.go).
pub mod Guarded
use interactivecodebase.Base.{
  ℕ, ◌≡◌, String, ◌==◌, string_eq, Bool, true, false, not, ◌&&◌, Option, none, some, List, [], ◌∷◌,
  any, keep, find, if◌then◌else◌,
}
use interactivecodebase.Base.Text.{has_prefix, cut_prefix}

abbrev pub token_cookie : String
token_cookie = "icb_token"

pub record AuthConfig : Type 0 where
  pub token : String
  pub secure : Bool

-- The pairs of a query or a form, decoded, in their order.
abbrev pub Values : Type 0
Values = List (String × String)

-- What RequireToken reads of a request. `cookies` has the names and values of its cookies.
pub record Request : Type 0 where
  pub method : String
  pub path : String
  pub authorization : String
  pub cookies : Values
  pub query : Values
  pub form : Values

pub record Cookie : Type 0 where
  pub name : String
  pub value : String
  pub path : String
  pub http_only : Bool
  pub secure : Bool
  pub same_site_strict : Bool
  pub max_age : ℕ

-- What is done: the request is handed on, or an answer is written. A redirect gives the path and
-- the query that it leads to.
pub data Answer : Type 0 where
  pass : Answer
  see_other : Cookie → String → Values → Answer
  sign_in : ℕ → String → Answer
  json plain : ℕ → String → Answer

-- `Values.Has`
unfoldable pub has : Values → String → Bool
has vs k = any (λ v. v.0 == k) vs

-- `Values.Get` and `Request.Cookie`, by the first pair of the name.
unfoldable pub first_value : Values → String → Option String
first_value [] k = none
first_value ((n, v) ∷ vs) k = let rest = first_value vs k in if n == k then some v else rest

unfoldable pub get_value : Values → String → String
get_value vs k = elim (first_value vs k) [ none ↦ "" | some v ↦ v ]

-- `Values.Del`
unfoldable pub del : Values → String → Values
del vs k = keep (λ v. not (v.0 == k)) vs

-- The function `valid`.
unfoldable pub valid : AuthConfig → String → Bool
valid cfg t = not (t == "") && t == cfg.token

-- The function `setCookie`: 30 days.
abbrev pub set_cookie : AuthConfig → Cookie
set_cookie cfg = record {
  name = token_cookie;
  value = cfg.token;
  path = "/";
  http_only = true;
  secure = cfg.secure;
  same_site_strict = true;
  max_age = 2592000;
}

abbrev pub option_valid : AuthConfig → Option String → Bool
option_valid cfg none = false
option_valid cfg (some t) = valid cfg t

abbrev pub invalid_text : String
invalid_text = "That token is not valid."

abbrev pub required_text : String
required_text = "authentication required: send Authorization: Bearer <token>"

-- The answer where no token is given.
unfoldable pub refuse : Request → Answer
refuse r =
    if has_prefix r.path "/api/"
    then json 401 required_text
    else if has_prefix r.path "/mcp"
    then plain 401 required_text
    else sign_in 401 ""

-- The answer to a request whose header and cookie do not carry the token.
unfoldable pub log_in : AuthConfig → Request → Answer
log_in cfg r =
    if r.method == "GET" && has r.query "token"
    then (if valid cfg (get_value r.query "token")
        then see_other (set_cookie cfg) r.path (del r.query "token")
        else sign_in 401 invalid_text)
    else if r.method == "POST" && r.path == "/login"
    then (if valid cfg (get_value r.form "token")
        then see_other (set_cookie cfg) "/" []
        else sign_in 401 invalid_text)
    else refuse r

-- `RequireToken`
unfoldable pub require_token : AuthConfig → Request → Answer
require_token cfg r =
    if option_valid cfg (cut_prefix r.authorization "Bearer ")
    then pass
    else if option_valid cfg (first_value r.cookies token_cookie)
    then pass
    else log_in cfg r
