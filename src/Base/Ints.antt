-- ===== src/Base/Ints.antt =====
-- Signed integers and `strconv.Atoi` on a 64-bit platform.
use Prim.Native.Char.{code}
use Prim.Native.Nat.{ℕ, zero, suc, ◌+◌, ◌-◌, ◌*◌, ◌^◌, compare, Ordering}
use Prim.Native.String.{String}
use mathlib.Core.Bool.{◌&&◌}
use mathlib.Core.Option.{Option, none, some}
use interactivecodebase.Base.Equality.{◌==◌, nat_eq, if◌then◌else◌}
use interactivecodebase.Base.Tests.{ltb, leb}

-- `negsuc n` is -(n + 1).
pub data ℤ : Type 0 where
  pos : ℕ → ℤ
  negsuc : ℕ → ℤ

unfoldable pub int_compare : ℤ → ℤ → Ordering
int_compare (pos a) (pos b) = compare a b
int_compare (pos a) (negsuc b) = Ordering.gt
int_compare (negsuc a) (pos b) = Ordering.lt
int_compare (negsuc a) (negsuc b) = compare b a

-- The digits from the left, onto what was read before.
unfoldable pub read_digits : ℕ → String → Option ℕ
read_digits acc String.[] = some acc
read_digits acc (String.◌∷◌ c s) =
    let rest = read_digits (acc * 10 + (code c - b'0')) s in
    if leb b'0' (code c) && leb (code c) b'9' then rest else none

unfoldable pub read_number : String → Option ℕ
unfolding read_digits
read_number String.[] = none
read_number (String.◌∷◌ c s) = read_digits 0 (String.◌∷◌ c s)

abbrev read_positive : String → Option ℤ
read_positive s = elim (read_number s) [
  | none ↦ none
  | some n ↦ if ltb n (2 ^ 63) then some (pos n) else none
]

abbrev read_negative : String → Option ℤ
read_negative s = elim (read_number s) [
  | none ↦ none
  | some zero ↦ some (pos 0)
  | some (suc n) ↦ if ltb n (2 ^ 63) then some (negsuc n) else none
]

-- `strconv.Atoi`: `none` for an error.
unfoldable pub atoi : String → Option ℤ
unfolding read_number
atoi String.[] = none
atoi (String.◌∷◌ c s) =
    if code c == b'-'
    then read_negative s
    else if code c == b'+'
    then read_positive s
    else read_positive (String.◌∷◌ c s)
