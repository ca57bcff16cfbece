-- ===== src/Prelude/Double.antt =====
-- A C++ `double` as its IEEE 754 pattern of 64 bits: what the program asks of one.
use Prim.Native.Nat.{ℕ, zero, suc, ◌+◌, ◌-◌, ◌*◌, ◌/◌, ◌%◌, ◌^◌}
use mathlib.Core.Bool.{Bool, ◌&&◌, ◌||◌}
use mathlib.Core.List.{[], ◌∷◌, ◌++◌}
use qds_data_interface.Prelude.Tests.{ltb, leb, ◌==◌, if◌then◌else◌}
use qds_data_interface.Prelude.Str.{Str, str, to_string}

abbrev sign_bit : ℕ → ℕ
sign_bit bits = bits / 2 ^ 63

abbrev exponent : ℕ → ℕ
exponent bits = bits / 2 ^ 52 % 2 ^ 11

abbrev fraction : ℕ → ℕ
fraction bits = bits % 2 ^ 52

-- The pattern of `double(std::numeric_limits<float>::max())`, (2 - 2^-23) * 2^127, and of +infinity.
abbrev pub float_max : ℕ
float_max = 0x47EFFFFFE0000000

abbrev pub infinity : ℕ
infinity = 0x7FF0000000000000

-- `value > std::numeric_limits<float>::max()`. The patterns of the non-negative numbers are ordered
-- as the numbers are; those above +infinity are no numbers, and compare as false.
unfoldable pub exceeds_float_max : ℕ → Bool
exceeds_float_max bits = ltb float_max bits && leb bits infinity

-- The nearest integer to `n / d`, the even one if there are two.
round_div : ℕ → ℕ → ℕ
round_div n d =
    let q = n / d in
    let r = n % d in if ltb d (2 * r) || (2 * r == d && q % 2 == 1) then q + 1 else q

-- The digits of `n` with leading zeros, `width` of them.
padded : ℕ → ℕ → Str
padded zero n = []
padded (suc width) n = padded width (n / 10) ++ (48 + n % 10) ∷ []

-- The magnitude in millionths, rounded. A number is m * 2^(e - 1075).
millionths : ℕ → ℕ
unfolding round_div
millionths bits =
    let m = if exponent bits == 0 then 2 * fraction bits else 2 ^ 52 + fraction bits in
    let e = if exponent bits == 0 then 0 else exponent bits in
    if leb 1075 e then m * 1000000 * 2 ^ (e - 1075) else round_div (m * 1000000) (2 ^ (1075 - e))

unfoldable pub minus_sign : ℕ → Str
minus_sign bits = if sign_bit bits == 1 then b'-' ∷ [] else []

magnitude : ℕ → Str
unfolding millionths padded
magnitude bits =
    if exponent bits == 2047
    then (if fraction bits == 0 then str "inf" else str "nan")
    else to_string (millionths bits / 1000000) ++ b'.' ∷ padded 6 (millionths bits % 1000000)

-- `std::to_string(double)`, which prints by `%f`.
unfoldable pub to_string_double : ℕ → Str
unfolding magnitude minus_sign
to_string_double bits = minus_sign bits ++ magnitude bits
