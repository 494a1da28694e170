-- ===== src/Lsp/Frames/Numbers.antt =====
-- strconv.Itoa and strconv.Atoi, for the length of a message (internal/lsp/lsp.go).
use Prim.Native.Char.{code, Char}
use Prim.Native.Nat.{◌^◌, ◌/◌, ◌%◌}
use text.Mathlib.TextLemmas.{nil-append, cons-append}
use interactivecodebase.Base.{
  ℕ, zero, suc, ◌+◌, ◌*◌, ◌-◌, ◌<◌, ◌≤◌, ◌≡◌, ◌≢◌, refl, sym, ap, ◌∙◌, String, ◌<>◌, nat_eq,
  string_eq, Bool, true, false, ltb, some, if◌then◌else◌, arith, inl, inr, Bool-cases,
}
use interactivecodebase.Base.Text.{digit, decimal_fuel, decimal}
use interactivecodebase.Base.Ints.{pos, atoi, read_digits}

-- A text of digits.
abbrev pub IsDigits : String → Type 0
IsDigits String.[] = Unit
IsDigits (String.◌∷◌ c s) = (48 ≤ code c) × (code c ≤ 57) × IsDigits s

append-IsDigits : (s t : String) → IsDigits s → IsDigits t → IsDigits (s <> t)
append-IsDigits String.[] t d e = rw nil-append e
append-IsDigits (String.◌∷◌ c s) t d e =
    rw (cons-append c s t) (d.0, d.1, append-IsDigits s t d.2 e)

abbrev pub Numeral : String → Type 0
Numeral s = IsDigits s × (s ≢ "")

choose : (b : Bool) {s t : String} → Numeral s → Numeral t → Numeral (if b then s else t)
choose true h k = h
choose false h k = k

numeral : (c : Char) → 48 ≤ code c → code c ≤ 57 → Numeral (String.◌∷◌ c "")
numeral c h k = ((h, k, tt), λ e. cc)

digit-Numeral : (n : ℕ) → Numeral (digit n)
unfolding digit
digit-Numeral n = choose _ (numeral "0" (omega arith) (omega arith)) (
    choose _ (numeral "1" (omega arith) (omega arith)) (
      choose _ (numeral "2" (omega arith) (omega arith)) (
        choose _ (numeral "3" (omega arith) (omega arith)) (
          choose _ (numeral "4" (omega arith) (omega arith)) (
            choose _ (numeral "5" (omega arith) (omega arith)) (
              choose _ (numeral "6" (omega arith) (omega arith)) (
                choose _ (numeral "7" (omega arith) (omega arith)) (
                  choose _ (numeral "8" (omega arith) (omega arith))
                    (numeral "9" (omega arith) (omega arith))))))))))

pub append_ne : (s t : String) → t ≢ "" → (s <> t) ≢ ""
append_ne String.[] t h = rw nil-append h
append_ne (String.◌∷◌ c s) t h =
    λ e. let e' : String.◌∷◌ c (s <> t) ≡ "" = sym (cons-append c s t) ∙ e in cc

decimal_fuel-Numeral : (f n : ℕ) → n < f → Numeral (decimal_fuel f n)
unfolding decimal_fuel
decimal_fuel-Numeral zero n h = absurd (omega arith)
decimal_fuel-Numeral (suc f) n h = elim (Bool-cases (ltb n 10)) [
  | inl small ↦ rw small (digit-Numeral n)
  | inr large ↦
      let front = decimal_fuel-Numeral f (n / 10) (ground arith) in
      let last = digit-Numeral (n % 10) in
      rw large (append-IsDigits _ _ front.0 last.0, append_ne _ _ last.1)
]

numerals :
    (acc : ℕ)
    → (read_digits acc "0" ≡ some (acc * 10 + 0))
      × (read_digits acc "1" ≡ some (acc * 10 + 1))
      × (read_digits acc "2" ≡ some (acc * 10 + 2))
      × (read_digits acc "3" ≡ some (acc * 10 + 3))
      × (read_digits acc "4" ≡ some (acc * 10 + 4))
      × (read_digits acc "5" ≡ some (acc * 10 + 5))
      × (read_digits acc "6" ≡ some (acc * 10 + 6))
      × (read_digits acc "7" ≡ some (acc * 10 + 7))
      × (read_digits acc "8" ≡ some (acc * 10 + 8))
      × (read_digits acc "9" ≡ some (acc * 10 + 9))
unfolding read_digits
numerals acc = (refl, refl, refl, refl, refl, refl, refl, refl, refl, refl)

read_digits-digit : (acc n : ℕ) → n < 10 → read_digits acc (digit n) ≡ some (acc * 10 + n)
unfolding digit
read_digits-digit acc n h = ground (arith, numerals acc)

read_digits-append :
    (acc v : ℕ) (s t : String)
    → read_digits acc s ≡ some v
    → read_digits acc (s <> t) ≡ read_digits v t
unfolding read_digits
read_digits-append acc v String.[] t h = rw nil-append (ground arith)
read_digits-append acc v (String.◌∷◌ c s) t h =
    rw (cons-append c s t) (ground (arith, read_digits-append (acc * 10 + (code c - 48)) v s t))

read_digits-decimal_fuel : (f n : ℕ) → n < f → read_digits 0 (decimal_fuel f n) ≡ some n
unfolding decimal_fuel
read_digits-decimal_fuel zero n h = absurd (omega arith)
read_digits-decimal_fuel (suc f) n h = elim (Bool-cases (ltb n 10)) [
  | inl small ↦ rw small (read_digits-digit 0 n (ground arith) ∙ ap some (omega arith))
  | inr large ↦
      let front = read_digits-decimal_fuel f (n / 10) (ground arith) in
      rw large (
        read_digits-append 0 (n / 10) (decimal_fuel f (n / 10)) (digit (n % 10)) front
        ∙ read_digits-digit (n / 10) (n % 10) (omega arith)
        ∙ ap some (omega arith))
]

atoi_digits :
    (s : String) (n : ℕ) → Numeral s → read_digits 0 s ≡ some n → n < 2 ^ 63 → atoi s ≡ some (pos n)
unfolding atoi
atoi_digits String.[] n d h small = absurd (d.1 refl)
atoi_digits (String.◌∷◌ c s) n d h small = ground arith

pub decimal-Numeral : (n : ℕ) → Numeral (decimal n)
unfolding decimal
decimal-Numeral n = decimal_fuel-Numeral (suc n) n (omega arith)

pub atoi-decimal : (n : ℕ) → n < 2 ^ 63 → atoi (decimal n) ≡ some (pos n)
unfolding decimal
atoi-decimal n small =
    atoi_digits _ n (decimal-Numeral n) (read_digits-decimal_fuel (suc n) n (omega arith)) small
