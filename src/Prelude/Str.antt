-- ===== src/Prelude/Str.antt =====
-- `std::string` as its bytes, and what the program uses of the standard library on it.
use Prim.Native.Nat.{ℕ, zero, suc, ◌+◌, ◌/◌, ◌%◌}
use Prim.Native.Char.{code}
use Prim.Native.String.{String}
use mathlib.Core.Path.{◌≡◌}
use mathlib.Core.Logic.{◌↔◌}
use mathlib.Core.Bool.{Bool, true, false, ◌&&◌}
use mathlib.Core.List.{List, [], ◌∷◌}
use native.Mathlib.Omega.{arith}
use qds_data_interface.Prelude.Tests.{ltb, ◌==◌, if◌then◌else◌}
use qds_data_interface.Prelude.Int.{ℤ, pos, negsuc}

abbrev pub Str : Type 0
Str = List ℕ

-- A string literal. It stays shut in proofs, which never look into a message.
unfoldable pub str : String → Str
str String.[] = []
str (String.◌∷◌ c s) = code c ∷ str s

infix 50 ◌==s◌
unfoldable pub ◌==s◌ : Str → Str → Bool
[] ==s [] = true
[] ==s (y ∷ ys) = false
(x ∷ xs) ==s [] = false
(x ∷ xs) ==s (y ∷ ys) = x == y && xs ==s ys

pub ==s_iff : (s t : Str) → ((s ==s t) ≡ true) ↔ (s ≡ t)
unfolding ◌==s◌
==s_iff [] [] = ground arith
==s_iff [] (y ∷ ys) = ground arith
==s_iff (x ∷ xs) [] = ground arith
==s_iff (x ∷ xs) (y ∷ ys) = ground (arith, ==s_iff xs ys)

-- The decimal digits of `n` before `acc`; the fuel is the number itself plus one, and each round
-- divides by ten.
unfoldable pub decimal_digits : ℕ → ℕ → Str → Str
decimal_digits zero n acc = acc
decimal_digits (suc fuel) n acc =
    let rest = decimal_digits fuel (n / 10) ((48 + n % 10) ∷ acc) in
    if ltb n 10 then (48 + n) ∷ acc else rest

-- `std::to_string` of an unsigned number.
unfoldable pub to_string : ℕ → Str
unfolding decimal_digits
to_string n = decimal_digits (suc n) n []

-- `std::to_string` of a signed number.
unfoldable pub to_string_ℤ : ℤ → Str
to_string_ℤ (pos n) = to_string n
to_string_ℤ (negsuc n) = b'-' ∷ to_string (suc n)
