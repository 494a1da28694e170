-- ===== src/Tests/Gopls.antt =====
-- A short exchange with gopls (internal/lsp/lsp.go).
use interactivecodebase.Base.{
  ℕ, suc, ◌≡◌, ◌≤◌, ◌<◌, refl, String, ◌<>◌, Option, none, some, List, [], ◌∷◌, length, In, ◌⊎◌,
  inl, inr, arith, true, false,
}
use interactivecodebase.Mermaid.Sequence.{bytes}
use interactivecodebase.Lsp.Columns.{utf16_col, byte_col, units_of, columns_round_trip}
use interactivecodebase.Lsp.Frames.{size, frame, read_frames, at_end}
use interactivecodebase.Lsp.Frames.RoundTrip.{pipe, AllFit, read_frames-pipe}
use interactivecodebase.Lsp.Conn.{
  Conn, new_conn, begin_call, fail, Response, Reachable, start, next, begin, exit,
}
use interactivecodebase.Lsp.Conn.Answers.{uses, numbers, channels_used_once, no_call_left}

columns_round_trip_example :
    (utf16_col ("é𝄞" <> "x") (bytes "é𝄞") ≡ units_of "é𝄞")
    × (byte_col ("é𝄞" <> "x") (units_of "é𝄞") ≡ bytes "é𝄞")
columns_round_trip_example = columns_round_trip "é𝄞" "x"

three_units : units_of "é𝄞" ≡ 3
unfolding units_of interactivecodebase.Lsp.Columns.units
three_units = refl

abbrev messages : List String
messages = "{\"id\": 1}" ∷ "" ∷ "a\r\n\r\nb" ∷ []

messages_fit : AllFit messages
unfolding size
messages_fit = omega arith

read_frames-pipe_example : read_frames 4 (pipe messages) ≡ (messages, at_end)
read_frames-pipe_example = read_frames-pipe messages messages_fit

one_frame : frame "{}" ≡ "Content-Length: 2\r\n\r\n{}"
unfolding frame interactivecodebase.Base.Text.decimal size interactivecodebase.Base.nat_eq
    native.Mathlib.Decide.ℕ_discrete
one_frame = refl

-- A call is begun, gopls ends, and the call still waits.
abbrev ended : Conn
ended = fail (begin_call new_conn)

ended_Reachable : Reachable ended
ended_Reachable = next (next start (begin new_conn refl)) (exit (begin_call new_conn))

channels_used_once_example : uses 1 ended ≤ 1
channels_used_once_example = channels_used_once ended ended_Reachable 1

is_closed : ended.closed ≡ true
unfolding fail begin_call
is_closed = refl

waits : In 1 ended.waiting
unfolding fail begin_call
waits = inl refl

no_call_left_example :
    In 1 ended.ended ⊎ In 1 (numbers ended.sent) ⊎ ((r : Response) × (ended.held ≡ some (1, r)))
no_call_left_example = no_call_left ended ended_Reachable is_closed 1 waits
