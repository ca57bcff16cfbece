-- ===== src/Validator/Typed.antt =====
-- The values of the types of include/measurement.hpp, apart from the checks of
-- `DataValidator::OnObjectEnd`, src/parsing/data_validator.cpp, which let some others through.
use qds_data_interface.Prelude.{
  ℕ, ◌+◌, Bool-cases, ◌≤◌, ◌<◌, true, false, some, [], List, ◌≡◌, ◌≢◌, ◌⊎◌, inl, inr, arith, length,
  All, All-imp,
}
use qds_data_interface.Prelude.Int.{ltb_ℤ, ltb_ℤ-true, ltb_ℤ-false, ℤ, negsuc, ◌≤ℤ◌, ◌<ℤ◌}
use qds_data_interface.Prelude.Str.{Str}
use qds_data_interface.Prelude.Double.{float_max, infinity, exceeds_float_max}
use qds_data_interface.Exception.{Exception, ok}
use qds_data_interface.Measurement.{
  Measurement, MeasurementType, string, integer, float, long, double, bool, word, timestamp, ref,
  foreign_key, Value, text, int64, float64, boolean,
}
use qds_data_interface.Validator.Timestamp.{is_timestamp}
use qds_data_interface.Validator.{ParsingState, int32_max, is_hex_digit, initial}
use qds_data_interface.Validator.Values.{parser_callback}
use qds_data_interface.Validator.Complete.{Fits, IsComplete}
use qds_data_interface.Validator.Parsed.{NeverStops, opened, closed, parse-IsComplete}
use qds_data_interface.Parser.{BasicParser, parse}

-- `std::numeric_limits<int32_t>::min()`
abbrev pub int32_min : ℤ
int32_min = negsuc 2147483647

-- The pattern of -0.0: the negative numbers are behind it, by their magnitude.
abbrev pub minus_zero : ℕ
minus_zero = 0x8000000000000000

-- A value of the type: an INTEGER has 32 bits, a FLOAT is a number between the least and the greatest
-- float, a WORD has four hexadecimal digits.
abbrev pub HasType : MeasurementType → Value → Type 0
HasType string (text s) = Unit
HasType integer (int64 n) = (int32_min ≤ℤ n) × (n ≤ℤ int32_max)
HasType float (float64 d) = (d ≤ float_max) ⊎ ((minus_zero ≤ d) × (d ≤ minus_zero + float_max))
HasType long (int64 n) = Unit
HasType double (float64 d) = Unit
HasType bool (boolean b) = Unit
HasType word (text s) = (length s ≡ 4) × All (λ c. is_hex_digit c ≡ true) s
HasType timestamp (text s) = is_timestamp s ≡ true
HasType ref (text s) = Unit
HasType foreign_key (text s) = Unit
HasType _ _ = ⊥

-- An INTEGER below the least of 32 bits; a FLOAT that is no number, or below the least float.
abbrev pub IsTooSmall : MeasurementType → Value → Type 0
IsTooSmall integer (int64 n) = n <ℤ int32_min
IsTooSmall float (float64 d) = ((infinity < d) × (d < minus_zero)) ⊎ (minus_zero + float_max < d)
IsTooSmall _ _ = ⊥

-- The measurement has a name, a type and a value of that type, or one that is too small for it.
abbrev pub IsTyped : Measurement → Type 0
IsTyped d = (d.name ≢ []) × (HasType d.type d.value ⊎ IsTooSmall d.type d.value)

float_cases :
    (d : ℕ) → exceeds_float_max d ≡ false → HasType float (float64 d) ⊎ IsTooSmall float (float64 d)
unfolding exceeds_float_max
float_cases d h = ground arith

Fits-HasType : (t : MeasurementType) (v : Value) → Fits t v → HasType t v ⊎ IsTooSmall t v
Fits-HasType integer (int64 n) h = elim (Bool-cases (ltb_ℤ n int32_min)) [
  | inl y ↦ inr (ltb_ℤ-true n int32_min y)
  | inr m ↦ inl (ltb_ℤ-false n int32_min m, h)
]
Fits-HasType float (float64 d) h = float_cases d h
Fits-HasType string (text s) h = inl h
Fits-HasType long (int64 n) h = inl h
Fits-HasType double (float64 d) h = inl h
Fits-HasType bool (boolean b) h = inl h
Fits-HasType word (text s) h = inl h
Fits-HasType timestamp (text s) h = inl h
Fits-HasType ref (text s) h = inl h
Fits-HasType foreign_key (text s) h = inl h
Fits-HasType t v h = absurd h

IsComplete-IsTyped : (d : Measurement) → IsComplete d → IsTyped d
IsComplete-IsTyped d c = (c.named, Fits-HasType d.type d.value c.fits)

pub All-IsTyped : (ms : List Measurement) → All IsComplete ms → All IsTyped ms
All-IsTyped = All-imp IsComplete IsTyped IsComplete-IsTyped

-- If `Parse` reports success on a text whose objects are all closed and that has no null, then every
-- measurement in the state has a name, a type and a value of that type, or one that is too small for
-- it: an INTEGER below the least of 32 bits, or a FLOAT that is below the least float or no number.
pub parse-IsTyped :
    (p : BasicParser) (json : Str) (message : Str) (st : ParsingState)
    → NeverStops (p.calls json)
    → opened (p.calls json) ≡ closed (p.calls json)
    → parse parser_callback p json initial ≡ (ok (true, message), some st)
    → All IsTyped st.measurements
parse-IsTyped p json message st a e h =
    All-IsTyped st.measurements (parse-IsComplete p json message st a e h)
