-- ===== src/Mermaid/Decimals.antt =====
-- Different numbers are written differently, so that the short ids of a diagram differ.
use Prim.Native.Char.{code}
use Prim.Native.Nat.{◌/◌, ◌%◌}
use text.Mathlib.TextLemmas.{nil-append, cons-append}
use interactivecodebase.Base.{
  ℕ, zero, suc, ◌+◌, ◌-◌, ◌*◌, ◌<◌, ◌≡◌, refl, sym, ◌∙◌, ap, inl, inr, String, ◌<>◌, nat_eq, ltb,
  Bool-cases, arith,
}
use interactivecodebase.Base.Text.{digit, decimal_fuel, decimal}

-- The number that digits after `acc` stand for.
unfoldable value : ℕ → String → ℕ
value acc String.[] = acc
value acc (String.◌∷◌ c s) = value (acc * 10 + (code c - 48)) s

value-append : (acc : ℕ) (s t : String) → value acc (s <> t) ≡ value (value acc s) t
unfolding value
value-append acc String.[] t = ap (value acc) (nil-append t)
value-append acc (String.◌∷◌ c s) t =
    ap (value acc) (cons-append c s t) ∙ value-append (acc * 10 + (code c - 48)) s t

numerals :
    (acc : ℕ)
    → (value acc "0" ≡ acc * 10 + 0)
      × (value acc "1" ≡ acc * 10 + 1)
      × (value acc "2" ≡ acc * 10 + 2)
      × (value acc "3" ≡ acc * 10 + 3)
      × (value acc "4" ≡ acc * 10 + 4)
      × (value acc "5" ≡ acc * 10 + 5)
      × (value acc "6" ≡ acc * 10 + 6)
      × (value acc "7" ≡ acc * 10 + 7)
      × (value acc "8" ≡ acc * 10 + 8)
      × (value acc "9" ≡ acc * 10 + 9)
unfolding value
numerals acc = (refl, refl, refl, refl, refl, refl, refl, refl, refl, refl)

value-digit : (acc n : ℕ) → n < 10 → value acc (digit n) ≡ acc * 10 + n
unfolding digit
value-digit acc n h = ground (arith, numerals acc)

value-decimal_fuel : (f n : ℕ) → n < f → value 0 (decimal_fuel f n) ≡ n
unfolding decimal_fuel
value-decimal_fuel zero n h = absurd (omega arith)
value-decimal_fuel (suc f) n h = elim (Bool-cases (ltb n 10)) [
  | inl small ↦ rw small (value-digit 0 n (ground arith) ∙ omega arith)
  | inr large ↦
      let big : 9 < n = ground arith in
      let front = value-decimal_fuel f (n / 10) (omega arith) in
      rw large (
        value-append 0 (decimal_fuel f (n / 10)) (digit (n % 10))
        ∙ ap (λ a. value a (digit (n % 10))) front
        ∙ value-digit (n / 10) (n % 10) (omega arith)
        ∙ omega arith)
]

pub decimal_injective : (m n : ℕ) → decimal m ≡ decimal n → m ≡ n
unfolding decimal
decimal_injective m n h =
    sym (value-decimal_fuel (suc m) m (omega arith))
    ∙ ap (value 0) h
    ∙ value-decimal_fuel (suc n) n (omega arith)
