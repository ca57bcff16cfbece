-- ===== src/Prelude/Decimal.antt =====
-- Decimal numerals as `std::to_string` prints them, and their reading.
use Prim.Native.Nat.{ℕ, zero, suc, ◌+◌, ◌-◌, ◌*◌, ◌/◌, ◌%◌, ◌<◌}
use mathlib.Core.Path.{◌≡◌, refl, sym, ◌∙◌, ap}
use mathlib.Core.Logic.{inl, inr}
use mathlib.Core.Bool.{false}
use mathlib.Core.List.{[], ◌∷◌}
use native.Mathlib.Omega.{arith}
use qds_data_interface.Prelude.Tests.{ltb, Bool-cases}
use qds_data_interface.Prelude.Str.{Str, decimal_digits, to_string}

-- The number that a numeral goes on with behind `n`.
unfoldable pub read_decimal : ℕ → Str → ℕ
read_decimal n [] = n
read_decimal n (c ∷ s) = read_decimal (n * 10 + (c - 48)) s

last_digit : (n : ℕ) → 0 * 10 + (48 + n - 48) ≡ n
last_digit n = omega arith

next_digit : (n : ℕ) → n / 10 * 10 + (48 + n % 10 - 48) ≡ n
next_digit n = omega arith

shorter : (n fuel : ℕ) → n < suc fuel → ltb n 10 ≡ false → n / 10 < fuel
shorter n fuel h z = ground arith

-- More fuel than the number is enough.
read_decimal-decimal_digits :
    (fuel n : ℕ) (acc : Str)
    → n < fuel
    → read_decimal 0 (decimal_digits fuel n acc) ≡ read_decimal n acc
unfolding decimal_digits read_decimal
read_decimal-decimal_digits zero n acc h = absurd (omega arith)
read_decimal-decimal_digits (suc fuel) n acc h = elim (Bool-cases (ltb n 10)) [
  | inl y ↦ rw y (ap (λ m. read_decimal m acc) (last_digit n))
  | inr z ↦ rw z (
      read_decimal-decimal_digits fuel (n / 10) ((48 + n % 10) ∷ acc) (shorter n fuel h z)
      ∙ ap (λ m. read_decimal m acc) (next_digit n))
]

pub read_decimal-to_string : (n : ℕ) → read_decimal 0 (to_string n) ≡ n
unfolding to_string
read_decimal-to_string n =
    read_decimal-decimal_digits (suc n) n [] (omega arith) ∙ (unfold read_decimal in refl)

pub to_string_injective : (m n : ℕ) → to_string m ≡ to_string n → m ≡ n
to_string_injective m n h =
    sym (read_decimal-to_string m) ∙ ap (read_decimal 0) h ∙ read_decimal-to_string n
