-- ===== src/Tests/Tokens.antt =====
-- The access token (internal/server/auth.go) on a few requests.
use interactivecodebase.Base.{
  ◌≡◌, ◌≢◌, ◌⊎◌, ◌↔◌, refl, String, ◌<>◌, true, false, some, List, [], ◌∷◌, string_eq, any,
}
use interactivecodebase.Server.Auth.{
  AuthConfig, Request, Answer, pass, see_other, sign_in, has, get_value, first_value, set_cookie,
  require_token,
}
use interactivecodebase.Server.Auth.Guarded.{Carries, require_token-pass, require_token-see_other}

abbrev secret : AuthConfig
secret = record { token = "s3cret"; secure = true }

abbrev ask : Request
ask = record {
  method = "GET";
  path = "/api/graph";
  authorization = "";
  cookies = [];
  query = [];
  form = [];
}

abbrev root : String
root = "/"

abbrev with_header : Request
with_header = record ask { authorization = "Bearer s3cret" }

abbrev with_query : Request
with_query = record ask { path = "/"; query = ("view", "er") ∷ ("token", "s3cret") ∷ [] }

abbrev with_cookie : Request
with_cookie = record ask { cookies = ("icb_token", "s3cret") ∷ [] }

redirected :
    require_token secret with_query ≡ see_other (set_cookie secret) "/" (("view", "er") ∷ [])
unfolding require_token interactivecodebase.Base.Text.cut_prefix first_value
    interactivecodebase.Server.Auth.log_in string_eq has any interactivecodebase.Server.Auth.valid
    get_value interactivecodebase.Server.Auth.del interactivecodebase.Base.keep
redirected = refl

require_token-pass_example :
    (require_token secret with_header ≡ pass) ↔ ((secret.token ≢ "") × Carries secret with_header)
require_token-pass_example = require_token-pass secret with_header

require_token-see_other_example :
    (secret.token ≢ "")
    × (set_cookie secret ≡ set_cookie secret)
    × (has (("view", "er") ∷ []) "token" ≡ false)
    × (((with_query.method ≡ "GET")
          × (get_value with_query.query "token" ≡ secret.token)
          × (root ≡ with_query.path))
        ⊎ ((with_query.method ≡ "POST")
            × (with_query.path ≡ "/login")
            × (get_value with_query.form "token" ≡ secret.token)
            × (root ≡ "/")))
require_token-see_other_example =
    require_token-see_other secret with_query (set_cookie secret) "/" (("view", "er") ∷ [])
      redirected
