-- ===== src/Prelude/Decimal.antt =====
-- Numbers printed in decimal, as `%d` prints them.
use Prim.Native.Nat.{ℕ, zero, suc, ◌+◌, ◌-◌, ◌*◌, ◌/◌, ◌%◌, ◌≤◌}
use mathlib.Core.Path.{◌≡◌, refl, sym, ap, ◌∙◌}
use mathlib.Core.Logic.{◌≢◌, inl, inr}
use mathlib.Core.List.{[], ◌∷◌, ◌++◌}
use native.Mathlib.Omega.{arith}
use freecloud.Prelude.Tests.{ltb, if◌then◌else◌, Bool-cases}
use freecloud.Prelude.Lists.{All, All-append}
use freecloud.Prelude.Text.{Bytes}

-- `fuel` is at least the number printed, so it never runs out.
digits_from : ℕ → ℕ → Bytes
digits_from zero n = (b'0' + n) ∷ []
digits_from (suc fuel) n =
    let rest = digits_from fuel (n / 10) in
    if ltb n 10 then (b'0' + n) ∷ [] else rest ++ (b'0' + n % 10) ∷ []

unfoldable pub decimal : ℕ → Bytes
unfolding digits_from
decimal n = digits_from n n

-- Reading a decimal back, digit by digit.
unfoldable pub decimal_value : ℕ → Bytes → ℕ
decimal_value acc [] = acc
decimal_value acc (c ∷ s) = decimal_value (acc * 10 + (c - b'0')) s

decimal_value-append :
    (acc : ℕ) (s : Bytes) (c : ℕ)
    → decimal_value acc (s ++ c ∷ []) ≡ decimal_value acc s * 10 + (c - b'0')
unfolding decimal_value
decimal_value-append acc [] c = refl
decimal_value-append acc (d ∷ s) c = decimal_value-append (acc * 10 + (d - b'0')) s c

decimal_value-digits_from : (fuel n : ℕ) → n ≤ fuel → decimal_value 0 (digits_from fuel n) ≡ n
unfolding digits_from decimal_value
decimal_value-digits_from zero n h = omega arith
decimal_value-digits_from (suc fuel) n h = elim (Bool-cases (ltb n 10)) [
  | inl small ↦ rw small (omega arith)
  | inr large ↦
      rw (large, decimal_value-append 0 (digits_from fuel (n / 10)) (b'0' + n % 10))
        (ground (arith, decimal_value-digits_from fuel (n / 10)))
]

-- Printing then reading gives the number back.
pub decimal_value-decimal : (n : ℕ) → decimal_value 0 (decimal n) ≡ n
unfolding decimal
decimal_value-decimal n = decimal_value-digits_from n n (omega arith)

pub decimal_injective : (m n : ℕ) → decimal m ≡ decimal n → m ≡ n
decimal_injective m n h =
    sym (decimal_value-decimal m) ∙ ap (decimal_value 0) h ∙ decimal_value-decimal n

abbrev pub IsDigit : ℕ → Type 0
IsDigit c = (b'0' ≤ c) × (c ≤ b'9')

digits_from-IsDigit : (fuel n : ℕ) → n ≤ fuel → All IsDigit (digits_from fuel n)
unfolding digits_from
digits_from-IsDigit zero n h = omega arith
digits_from-IsDigit (suc fuel) n h = elim (Bool-cases (ltb n 10)) [
  | inl small ↦ rw small (ground arith)
  | inr large ↦ rw large (
      All-append IsDigit (digits_from fuel (n / 10)) ((b'0' + n % 10) ∷ [])
        (digits_from-IsDigit fuel (n / 10) (omega arith)) (omega arith))
]

pub decimal-IsDigit : (n : ℕ) → All IsDigit (decimal n)
unfolding decimal
decimal-IsDigit n = digits_from-IsDigit n n (omega arith)

ends-ne-nil : (s : Bytes) (c : ℕ) → s ++ c ∷ [] ≢ []
ends-ne-nil [] c h = cc
ends-ne-nil (d ∷ s) c h = cc

digits_from-ne-nil : (fuel n : ℕ) → digits_from fuel n ≢ []
unfolding digits_from
digits_from-ne-nil zero n h = cc
digits_from-ne-nil (suc fuel) n h = elim (Bool-cases (ltb n 10)) [
  | inl small ↦ absurd (ground arith)
  | inr large ↦ ends-ne-nil (digits_from fuel (n / 10)) (b'0' + n % 10) (ground arith)
]

pub decimal-ne-nil : (n : ℕ) → decimal n ≢ []
unfolding decimal
decimal-ne-nil n = digits_from-ne-nil n n
