-- ===== src/Lsp/Frames/RoundTrip.antt =====
-- What send writes, read reads back (internal/lsp/lsp.go).
use Prim.Native.Nat.{◌^◌}
use text.Mathlib.TextLemmas.{nil-append, cons-append, append_assoc}
use interactivecodebase.Base.{
  suc, ◌<◌, ◌≡◌, refl, sym, ap, ◌∙◌, String, ◌<>◌, nat_eq, string_eq, none, some, List, [], ◌∷◌,
  All, length,
}
use interactivecodebase.Base.Text.{decimal}
use interactivecodebase.Lsp.Frames.{
  size, length_key, frame, read_header, read_full, End, body, pipe_ends, panics, at_panic,
  of_length, read_frame, read_frames, at_end,
}
use interactivecodebase.Lsp.Frames.Numbers.{decimal-Numeral, atoi-decimal}
use interactivecodebase.Lsp.Frames.Headers.{key_line, read_header-frame}

read_full-append : (b rest : String) → read_full (size b) (b <> rest) ≡ some (b, rest)
unfolding read_full size
read_full-append String.[] rest = rw nil-append refl
read_full-append (String.◌∷◌ c b) rest = rw (cons-append c b rest, read_full-append b rest) refl

-- The bytes of a frame, put together in another way.
regroup :
    (d b rest : String)
    → (length_key <> (" " <> (d <> ("\r\n\r\n" <> b)))) <> rest
      ≡ key_line (d <> "\r") <> String.◌∷◌ "\n" ("\r\n" <> (b <> rest))
regroup d b rest =
    simp append_assoc (ap (λ t. length_key <> (" " <> (d <> t))) (blank_line (b <> rest)))
  where
    blank_line : (t : String) → "\r\n\r\n" <> t ≡ "\r" <> String.◌∷◌ "\n" ("\r\n" <> t)
    blank_line t =
        cons-append "\r" "\n\r\n" t
        ∙ ap (String.◌∷◌ "\r") (cons-append "\n" "\r\n" t)
        ∙ sym (
            cons-append "\r" "" (String.◌∷◌ "\n" ("\r\n" <> t))
            ∙ ap (String.◌∷◌ "\r") (nil-append _))

read_frame-frame : (b rest : String) → size b < 2 ^ 63 → read_frame (frame b <> rest) ≡ body b rest
unfolding read_frame frame
read_frame-frame b rest h =
    let d = decimal (size b) in
    let header =
      read_header-frame d (size b) (b <> rest) (decimal-Numeral (size b))
        (atoi-decimal (size b) h) in
    ap read_frame (regroup d b rest)
    ∙ ap (λ o. elim o [ none ↦ pipe_ends | some (length, s) ↦ of_length length s ]) header
    ∙ ap (λ o. elim o [ none ↦ pipe_ends | some (b, s) ↦ body b s ]) (read_full-append b rest)

-- What is on the pipe after messages were sent.
abbrev pub pipe : List String → String
pipe [] = ""
pipe (b ∷ bs) = frame b <> pipe bs

abbrev pub AllFit : List String → Type 0
AllFit bs = All (λ b. size b < 2 ^ 63) bs

-- The messages that were sent, of any bytes but each below 2^63 bytes long, are read back one by one and in
-- order, and then the pipe is at its end; a unit of fuel for each and one more are enough.
pub read_frames-pipe :
    (bs : List String) → AllFit bs → read_frames (suc (length bs)) (pipe bs) ≡ (bs, at_end)
unfolding read_frames read_frame read_header
read_frames-pipe [] h = nothing_left
  where
    nothing_left : read_frames 1 "" ≡ ([], at_end)
    nothing_left = refl
read_frames-pipe (b ∷ bs) h =
    ap
      (λ f. elim f [
        | pipe_ends ↦ ([], at_end)
        | panics ↦ ([], at_panic)
        | body b rest ↦ let (bodies, end) = read_frames (suc (length bs)) rest in (b ∷ bodies, end)
      ])
      (read_frame-frame b (pipe bs) h.0)
    ∙ ap (λ (r : List String × End). (b ∷ r.0, r.1)) (read_frames-pipe bs h.1)
