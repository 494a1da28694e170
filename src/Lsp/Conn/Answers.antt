-- ===== src/Lsp/Conn/Answers.antt =====
-- Every call is answered at most once, and no call waits for a gopls that is gone (internal/lsp/lsp.go).
use interactivecodebase.Base.{
  ℕ, ◌+◌, ◌≡◌, ◌≤◌, ◌<◌, ◌==◌, nat_eq, Bool, true, false, not, Option, none, some, List, [], ◌∷◌,
  ◌++◌, keep, contains, contains_iff, In, In-keep, map, refl, ap, ◌∙◌, inl, inr, ◌⊎◌, arith,
  if◌then◌else◌, Bool-cases, ltb, String, string_eq,
}
use interactivecodebase.Lsp.Conn.{
  Conn, Response, Outcome, Message, response, server_request, other_message, read_message, new_conn,
  without, begin_call, return_call, cancel_call, take_answer, send_answer, fail, open_file, Step,
  begin, write_fails, take, send, receive, receive_closed, cancel, exit, did_open, Reachable, start,
  next,
}

abbrev pub count : ℕ → List ℕ → ℕ
count i [] = 0
count i (j ∷ js) = (if j == i then 1 else 0) + count i js

abbrev pub count_held : ℕ → Option (ℕ × Response) → ℕ
count_held i none = 0
count_held i (some h) = if h.0 == i then 1 else 0

abbrev pub numbers : List (ℕ × Response) → List ℕ
numbers sent = map (λ s. s.0) sent

-- How often a channel is registered, held, sent on, or closed.
abbrev pub uses : ℕ → Conn → ℕ
uses i cn = count i cn.pending + count_held i cn.held + count i (numbers cn.sent) + count i cn.ended

pub record IsSound (cn : Conn) : Type 0 where
  pub once : (i : ℕ) → uses i cn ≤ 1
  pub known : (i : ℕ) → cn.next_id < i → uses i cn ≡ 0
  pub awake : (i : ℕ) → In i cn.waiting → uses i cn ≡ 1
  pub emptied : cn.closed ≡ true → cn.pending ≡ []

count-without :
    (id i : ℕ) (js : List ℕ) → count i (without id js) ≡ (if id == i then 0 else count i js)
unfolding without keep
count-without id i [] = ground arith
count-without id i (j ∷ js) = ground (arith, count-without id i js)

count-append : (i : ℕ) (xs ys : List ℕ) → count i (xs ++ ys) ≡ count i xs + count i ys
count-append i [] ys = omega arith
count-append i (x ∷ xs) ys = omega (arith, count-append i xs ys)

count_pos : (i : ℕ) (xs : List ℕ) → In i xs → 1 ≤ count i xs
count_pos i [] m = absurd m
count_pos i (x ∷ xs) (inl e) = ground arith
count_pos i (x ∷ xs) (inr m) = omega (arith, count_pos i xs m)

In_of_count : (i : ℕ) (xs : List ℕ) → 1 ≤ count i xs → In i xs
In_of_count i [] h = absurd (omega arith)
In_of_count i (x ∷ xs) h = elim (Bool-cases (x == i)) [
  | inl same ↦ inl (ground arith)
  | inr other ↦ inr (In_of_count i xs (ground arith))
]

In-without : (id i : ℕ) (js : List ℕ) → In i (without id js) → In i js × (id ≡ i → ⊥)
unfolding without
In-without id i js m =
    let (m', other) = (In-keep (λ j. not (j == id)) i js).0 m in (m', λ e. ground arith)

without_nil : (id : ℕ) (js : List ℕ) → js ≡ [] → without id js ≡ []
unfolding without keep
without_nil id [] e = refl
without_nil id (j ∷ js) e = cc

begin-IsSound : (cn : Conn) → cn.closed ≡ false → IsSound cn → IsSound (begin_call cn)
unfolding begin_call
begin-IsSound cn o s = record {
  once = λ i. ground (arith, s.once i, s.known i);
  known = λ i h. ground (arith, s.known i);
  awake = λ i m. elim m [
    | inl e ↦ ground (arith, s.known i)
    | inr m' ↦ ground (arith, s.awake i m', s.known i)
  ];
  emptied = λ h. cc;
}

return-IsSound : (cn : Conn) (id : ℕ) (o : Outcome) → IsSound cn → IsSound (return_call id o cn)
unfolding return_call
return-IsSound cn id o s = record {
  once = s.once;
  known = s.known;
  awake = λ i m. s.awake i (In-without id i cn.waiting m).0;
  emptied = s.emptied;
}

cancel-IsSound : (cn : Conn) (id : ℕ) → IsSound cn → IsSound (cancel_call id cn)
unfolding cancel_call return_call
cancel-IsSound cn id s = record {
  once = λ i. ground (arith, s.once i, count-without id i cn.pending);
  known = λ i h. ground (arith, s.known i h, count-without id i cn.pending);
  awake = λ i m.
      let (m', other) = In-without id i cn.waiting m in
      ground (arith, s.awake i m', count-without id i cn.pending);
  emptied = λ h. without_nil id cn.pending (s.emptied h);
}

take-IsSound :
    (cn : Conn) (id : ℕ) (r : Response)
    → cn.held ≡ none
    → IsSound cn
    → IsSound (take_answer id r cn)
unfolding take_answer
take-IsSound cn id r h s = elim (Bool-cases (contains cn.pending id)) [
  | inl there ↦ rw there (taken (count_pos id cn.pending ((contains_iff cn.pending id).0 there)))
  | inr gone ↦ rw gone s
]
  where
    taken :
        1 ≤ count id cn.pending
        → IsSound (record cn { pending = without id cn.pending; held = some (id, r) })
    taken p = record {
      once = λ i. ground (arith, s.once i, count-without id i cn.pending);
      known = λ i k. ground (arith, s.known i k, count-without id i cn.pending);
      awake = λ i m. ground (arith, s.awake i m, s.once i, count-without id i cn.pending);
      emptied = λ c. without_nil id cn.pending (s.emptied c);
    }

read-IsSound : (cn : Conn) (m : Message) → cn.held ≡ none → IsSound cn → IsSound (read_message m cn)
unfolding read_message
read-IsSound cn (response id r) h s = take-IsSound cn id r h s
read-IsSound cn server_request h s = s
read-IsSound cn other_message h s = s

send-IsSound :
    (cn : Conn) (id : ℕ) (r : Response)
    → cn.held ≡ some (id, r)
    → IsSound cn
    → IsSound (send_answer id r cn)
unfolding send_answer
send-IsSound cn id r h s = record {
  once = λ i. ground (arith, s.once i, ap (count_held i) h);
  known = λ i k. ground (arith, s.known i k, ap (count_held i) h);
  awake = λ i m. ground (arith, s.awake i m, ap (count_held i) h);
  emptied = s.emptied;
}

fail-IsSound : (cn : Conn) → IsSound cn → IsSound (fail cn)
unfolding fail
fail-IsSound cn s = by_test cn.closed refl
  where
    failed : Conn
    failed = record cn { closed = true; pending = []; ended = cn.pending ++ cn.ended }

    by_test : (b : Bool) → cn.closed ≡ b → IsSound (if b then cn else failed)
    by_test true e = s
    by_test false e = record {
      once = λ i. ground (arith, s.once i, count-append i cn.pending cn.ended);
      known = λ i k. ground (arith, s.known i k, count-append i cn.pending cn.ended);
      awake = λ i m. ground (arith, s.awake i m, count-append i cn.pending cn.ended);
      emptied = λ c. refl;
    }

open-IsSound : (cn : Conn) (uri : String) → IsSound cn → IsSound (open_file uri cn).0
unfolding open_file
open-IsSound cn uri s = by_test (contains cn.opened uri)
  where
    by_test :
        (b : Bool)
        → let p : Conn × Bool =
            if b then (cn, false) else (record cn { opened = uri ∷ cn.opened }, true) in
          IsSound p.0
    by_test true = s
    by_test false = record { once = s.once; known = s.known; awake = s.awake; emptied = s.emptied }

step-IsSound : {cn cn' : Conn} → Step cn cn' → IsSound cn → IsSound cn'
step-IsSound (begin cn o) s = begin-IsSound cn o s
step-IsSound (write_fails cn id w) s = return-IsSound cn id _ s
step-IsSound (take cn m h) s = read-IsSound cn m h s
step-IsSound (send cn id r h) s = send-IsSound cn id r h s
step-IsSound (receive cn id r w m) s = return-IsSound cn id _ s
step-IsSound (receive_closed cn id w m) s = return-IsSound cn id _ s
step-IsSound (cancel cn id w) s = cancel-IsSound cn id s
step-IsSound (exit cn) s = fail-IsSound cn s
step-IsSound (did_open cn uri) s = open-IsSound cn uri s

new-IsSound : IsSound new_conn
new-IsSound = record {
  once = λ i. omega arith;
  known = λ i h. refl;
  awake = λ i m. absurd m;
  emptied = λ h. refl;
}

reachable-IsSound : {cn : Conn} → Reachable cn → IsSound cn
reachable-IsSound start = new-IsSound
reachable-IsSound (next r st) = step-IsSound st (reachable-IsSound r)

-- The channel of a call is registered, or held by the reader, or sent on, or closed, and one of these once at
-- most: an answer never meets a channel that is full or closed, and no channel is closed twice.
pub channels_used_once : (cn : Conn) → Reachable cn → (i : ℕ) → uses i cn ≤ 1
channels_used_once cn r i = (reachable-IsSound r).once i

-- Once gopls is gone, each call that still waits has a channel that is closed, or has its answer, or the
-- reader holds the answer and sends it next.
pub no_call_left :
    (cn : Conn)
    → Reachable cn
    → cn.closed ≡ true
    → (i : ℕ) → In i cn.waiting
    → In i cn.ended ⊎ In i (numbers cn.sent) ⊎ ((r : Response) × (cn.held ≡ some (i, r)))
no_call_left cn r c i m = by_held cn.held refl
  where
    sound : IsSound cn
    sound = reachable-IsSound r

    no_pending : count i cn.pending ≡ 0
    no_pending = ap (count i) (sound.emptied c)

    by_held :
        (h : Option (ℕ × Response))
        → cn.held ≡ h
        → In i cn.ended ⊎ In i (numbers cn.sent) ⊎ ((r : Response) × (cn.held ≡ some (i, r)))
    by_held h e = elim (Bool-cases (ltb 0 (count i cn.ended))) [
      | inl closed_one ↦ inl (In_of_count i cn.ended (ground arith))
      | inr open_one ↦ elim (Bool-cases (ltb 0 (count i (numbers cn.sent)))) [
        | inl sent_one ↦ inr (inl (In_of_count i (numbers cn.sent) (ground arith)))
        | inr not_sent_one ↦
            inr (inr (holds h e (ground (arith, sound.awake i m, no_pending, ap (count_held i) e))))
      ]
    ]
      where
        holds :
            (h : Option (ℕ × Response))
            → cn.held ≡ h
            → count_held i h ≡ 1
            → (r : Response) × (cn.held ≡ some (i, r))
        holds none e k = absurd (omega arith)
        holds (some (j, r)) e k =
            let same : j ≡ i = ground arith in (r, e ∙ ap (λ j. some (j, r)) same)
