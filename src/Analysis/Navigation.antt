-- ===== src/Analysis/Navigation.antt =====
-- The ways from one route to another (internal/analysis/navigation.go). A function of the program has a
-- number, which stands for its address, and a name; the values of arguments, the routes that match them
-- and the functions that a handler reaches are parameters.
pub mod Redirecting
pub mod Rounds
pub mod Edges
pub mod Valid
use interactivecodebase.Base.{
  ℕ, zero, suc, String, ◌==◌, string_eq, nat_eq, Bool, true, false, not, ◌&&◌, ◌||◌, Option, none,
  some, List, [], ◌∷◌, ◌++◌, any, contains, length, if◌then◌else◌,
}

-- A function that is called: its address and its name.
pub record Callee : Type 0 where
  pub id : ℕ
  pub name : String

-- A call: what it calls, if that is known, and its second argument, if that is a constant text.
pub record Call : Type 0 where
  pub callee : Option Callee
  pub key : Option String
  pub pos : ℕ

pub data Instr : Type 0 where
  call : Call → Instr
  other_instr : Instr

pub record Func : Type 0 where
  pub id : ℕ
  pub name : String
  pub blocks : List (List Instr)

abbrev pub redirect_keys : List String
redirect_keys = "HX-Redirect" ∷ "HX-Location" ∷ "Location" ∷ []

-- `isRedirectHeader`
unfoldable pub is_redirect_header : Call → Bool
is_redirect_header c = elim c.key [ none ↦ false | some key ↦ contains redirect_keys key ]

abbrev pub header_setters : List String
header_setters = "(net/http.Header).Set" ∷ "(net/http.Header).Add" ∷ []

-- A call redirects by itself, or by a function that is known to.
unfoldable pub redirects : List ℕ → Call → Bool
redirects out c = elim c.callee [
  | none ↦ false
  | some callee ↦
      callee.name == "net/http.Redirect"
      || (contains out callee.id || (contains header_setters callee.name && is_redirect_header c))
]

unfoldable pub instr_redirects : List ℕ → Instr → Bool
instr_redirects out (call c) = redirects out c
instr_redirects out other_instr = false

unfoldable pub func_redirects : List ℕ → Func → Bool
func_redirects out f = any (any (instr_redirects out)) f.blocks

-- One round over the functions: those that redirect, and whether there are new ones.
unfoldable pub one_round : List Func → List ℕ → Bool → List ℕ × Bool
one_round [] out changed = (out, changed)
one_round (f ∷ fs) out changed =
    let is_new = not (contains out f.id) && func_redirects out f in
    one_round fs (if is_new then f.id ∷ out else out) (changed || is_new)

-- Rounds until nothing changes.
unfoldable pub rounds : ℕ → List Func → List ℕ → Option (List ℕ)
rounds zero own out = none
rounds (suc fuel) own out =
    let (found, changed) = one_round own out false in
    let more = rounds fuel own found in if changed then more else some found

-- `redirectingFuncs`, with a round for each function and one more.
unfoldable pub redirecting_funcs : List Func → Option (List ℕ)
redirecting_funcs own = rounds (suc (length own)) own []
