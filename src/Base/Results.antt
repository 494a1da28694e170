-- ===== src/Base/Results.antt =====
-- A Go result `(T, error)`: the value, or the error that is not nil.
use mathlib.Core.Path.{◌≡◌, refl}
use mathlib.Core.Option.{Option, none, some}
use mathlib.Core.Logic.{◌⊎◌, inl, inr}

pub data Result (E : Type 0) (A : Type 0) : Type 0 where
  ok : A → Result E A
  err : E → Result E A

-- `if err != nil { return err }`, and what follows it.
infixl 5 ◌>>=◌
abbrev pub ◌>>=◌ : {E : Type 0} {A B : Type 0} → Result E A → (A → Result E B) → Result E B
err failure >>= next = err failure
ok value >>= next = next value

abbrev pub or_fail : {E A : Type 0} → E → Option A → Result E A
or_fail e none = err e
or_fail e (some a) = ok a

-- To split on a computed result and keep the equation.
pub Result-cases :
    {E A : Type 0} (r : Result E A) → ((e : E) × (r ≡ err e)) ⊎ ((a : A) × (r ≡ ok a))
Result-cases (err failure) = inl (failure, refl)
Result-cases (ok value) = inr (value, refl)

-- The parts of a bind that succeeds.
pub >>=-eq-ok :
    {E A B : Type 0} (r : Result E A) (next : A → Result E B) {b : B}
    → (r >>= next) ≡ ok b
    → (a : A) × (r ≡ ok a) × (next a ≡ ok b)
>>=-eq-ok (err failure) next h = cc
>>=-eq-ok (ok value) next h = (value, refl, h)

pub ok-inj : {E A : Type 0} {a b : A} → ◌≡◌ {A = Result E A} (ok a) (ok b) → a ≡ b
ok-inj h = cc
