-- ===== src/Lsp/Conn.antt =====
-- The calls over one connection to gopls (internal/lsp/lsp.go, conn), as steps between takings of its lock.
-- A call's channel has the number of the call. `pending` are the numbers whose channels are registered,
-- `held` the answer that the reader took out of the map and has not sent yet, `sent` what was sent on the
-- channels, and `ended` the channels that were closed.
pub mod Answers
use interactivecodebase.Base.{
  ℕ, suc, ◌+◌, ◌≡◌, ◌≤◌, String, ◌==◌, nat_eq, string_eq, Bool, true, false, not, Option, none,
  some, List, [], ◌∷◌, ◌++◌, keep, contains, In, if◌then◌else◌,
}

pub data Response : Type 0 where
  answer refusal : String → Response

-- How a call returns.
pub data Outcome : Type 0 where
  returned : Response → Outcome
  unavailable not_sent timed_out : Outcome

pub record Conn : Type 0 where
  pub next_id : ℕ
  pub pending : List ℕ
  pub opened : List String
  pub closed : Bool
  pub held : Option (ℕ × Response)
  pub sent : List (ℕ × Response)
  pub ended : List ℕ
  pub waiting : List ℕ
  pub outcomes : List (ℕ × Outcome)

abbrev pub new_conn : Conn
new_conn = record {
  next_id = 0;
  pending = [];
  opened = [];
  closed = false;
  held = none;
  sent = [];
  ended = [];
  waiting = [];
  outcomes = [];
}

-- `delete(cn.pending, id)`, and a call that returns waits no more.
unfoldable pub without : ℕ → List ℕ → List ℕ
without id ids = keep (λ i. not (i == id)) ids

-- `call`, up to its request. A connection that is closed refuses it.
unfoldable pub begin_call : Conn → Conn
begin_call cn = record cn {
  next_id = suc cn.next_id;
  pending = suc cn.next_id ∷ cn.pending;
  waiting = suc cn.next_id ∷ cn.waiting;
}

unfoldable pub return_call : ℕ → Outcome → Conn → Conn
return_call id outcome cn = record cn {
  waiting = without id cn.waiting;
  outcomes = (id, outcome) ∷ cn.outcomes;
}

-- `ctx.Done` in `call`
unfoldable pub cancel_call : ℕ → Conn → Conn
cancel_call id cn = return_call id timed_out (record cn { pending = without id cn.pending })

-- `read` with an answer: it takes the channel out of the map, if it is there.
unfoldable pub take_answer : ℕ → Response → Conn → Conn
take_answer id r cn =
    if contains cn.pending id
    then record cn { pending = without id cn.pending; held = some (id, r) }
    else cn

-- What a message of gopls is: an answer, a request of its own, or neither (a notification, a text that is not
-- JSON, an id that is no number).
pub data Message : Type 0 where
  response : ℕ → Response → Message
  server_request other_message : Message

-- `read`, with one message; a request is answered with nothing.
unfoldable pub read_message : Message → Conn → Conn
read_message (response id r) cn = take_answer id r cn
read_message server_request cn = cn
read_message other_message cn = cn

-- `ch <- msg.response`
unfoldable pub send_answer : ℕ → Response → Conn → Conn
send_answer id r cn = record cn { held = none; sent = (id, r) ∷ cn.sent }

-- `fail`
unfoldable pub fail : Conn → Conn
fail cn =
    if cn.closed
    then cn
    else record cn { closed = true; pending = []; ended = cn.pending ++ cn.ended }

-- `open`, up to its notification: whether gopls is to be told.
unfoldable pub open_file : String → Conn → Conn × Bool
open_file uri cn =
    if contains cn.opened uri then (cn, false) else (record cn { opened = uri ∷ cn.opened }, true)

-- What may happen next: calls and the reader go on in any order, and gopls may end at any time.
pub data Step : Conn → Conn → Type 0 where
  begin : (cn : Conn) → cn.closed ≡ false → Step cn (begin_call cn)
  write_fails : (cn : Conn) (id : ℕ) → In id cn.waiting → Step cn (return_call id not_sent cn)
  take : (cn : Conn) (m : Message) → cn.held ≡ none → Step cn (read_message m cn)
  send :
      (cn : Conn) (id : ℕ) (r : Response) → cn.held ≡ some (id, r) → Step cn (send_answer id r cn)
  receive :
      (cn : Conn) (id : ℕ) (r : Response)
      → In id cn.waiting
      → In (id, r) cn.sent
      → Step cn (return_call id (returned r) cn)
  receive_closed :
      (cn : Conn) (id : ℕ)
      → In id cn.waiting
      → In id cn.ended
      → Step cn (return_call id unavailable cn)
  cancel : (cn : Conn) (id : ℕ) → In id cn.waiting → Step cn (cancel_call id cn)
  exit : (cn : Conn) → Step cn (fail cn)
  did_open : (cn : Conn) (uri : String) → Step cn (open_file uri cn).0

pub data Reachable : Conn → Type 0 where
  start : Reachable new_conn
  next : {cn cn' : Conn} → Reachable cn → Step cn cn' → Reachable cn'
