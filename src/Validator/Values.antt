-- ===== src/Validator/Values.antt =====
-- `DataValidator::OnValue`, the functions of `BuildParseValidation` and `ParserCallback`,
-- src/parsing/data_validator.cpp.
use Prim.Native.String.{String}
use qds_data_interface.Prelude.{
  ℕ, ◌-◌, ◌^◌, Bool, true, false, not, Option, none, some, [], ◌++◌, is_empty, ltb, if◌then◌else◌,
}
use qds_data_interface.Prelude.Int.{ℤ, pos, negsuc}
use qds_data_interface.Prelude.Str.{Str, str}
use qds_data_interface.Exception.{Exception, Exec, Result, ok, thrown, throw}
use qds_data_interface.Measurement.{
  Measurement, Value, text, int64, float64, boolean, set_type_from_string,
}
use qds_data_interface.Validator.{
  ParserEvent, on_object_begin, on_object_end, on_key, on_string, on_int64, on_uint64, on_double,
  on_bool, value_as_string, value_is_null, Key, name_key, type_key, unit_key, value_key,
  decimals_key, ParsingState, parsing_exception, quoted, update_back, is_not_set, is_blank, current,
  handle_object_begin, handle_object_end, handle_key,
}

-- `event_map`; `operator[]` makes an empty text for the other events.
unfoldable pub event_name : ParserEvent → Str
event_name (on_string s) = str "string"
event_name (on_int64 n s) = str "int64_t"
event_name (on_uint64 n s) = str "uint64_t"
event_name (on_double d s) = str "double"
event_name (on_bool b s) = str "bool"
event_name _ = []

-- `ThrowWrongTypeError`, always with `kOnString` as the expected event.
unfoldable pub wrong_type : String → ParserEvent → Exception
wrong_type key_name event =
    parsing_exception
      (str key_name
        ++ quoted " value " (value_as_string event) " has wrong type ("
        ++ event_name event
        ++ str "), should be "
        ++ str "string")
      "DataValidator::ThrowWrongTypeError"

abbrev build_scope : String
build_scope = "DataValidator::BuildParseValidation"

-- `*static_cast<const std::int64_t*>(value)` of a `uint64_t`: the same 64 bits.
unfoldable pub reinterpret_int64 : ℕ → ℤ
reinterpret_int64 n = if ltb n (2 ^ 63) then pos n else negsuc (2 ^ 64 - 1 - n)

-- The value of an event, where the switch of the VALUE entry has a case for it.
unfoldable pub event_value : ParserEvent → Option Value
event_value (on_string s) = some (text s)
event_value (on_int64 n s) = some (int64 n)
event_value (on_uint64 n s) = some (int64 (reinterpret_int64 n))
event_value (on_double d s) = some (float64 d)
event_value (on_bool b s) = some (boolean b)
event_value _ = none

abbrev is_string : ParserEvent → Bool
is_string (on_string s) = true
is_string _ = false

unfoldable pub set_value : ParserEvent → Measurement → Measurement
set_value event d = elim (event_value event) [ none ↦ d | some v ↦ record d { value = v } ]

unfoldable pub set_type : ParserEvent → Measurement → Result Measurement
set_type event d =
    let d' = set_type_from_string (value_as_string event) d in
    if is_not_set d'.type
    then thrown
        (parsing_exception (quoted "Invalid TYPE value " (value_as_string event) "") build_scope)
    else ok d'

-- The function of each key.
unfoldable pub validate : Key → ParserEvent → Measurement → Result Measurement
validate name_key event d =
    if not (is_string event)
    then thrown (wrong_type "NAME" event)
    else if not (is_empty d.name)
    then thrown (parsing_exception (str "Duplicate NAME key") build_scope)
    else ok (record d { name = value_as_string event })
validate type_key event d =
    if not (is_string event)
    then thrown (wrong_type "TYPE" event)
    else if not (is_not_set d.type)
    then thrown (parsing_exception (str "Duplicate TYPE key") build_scope)
    else set_type event d
validate unit_key event d =
    if not (is_string event)
    then thrown (wrong_type "UNIT" event)
    else if not (is_empty d.unit)
    then thrown (parsing_exception (str "Duplicate UNIT key") build_scope)
    else ok (record d { unit = value_as_string event })
validate value_key event d =
    if value_is_null event
    then thrown (parsing_exception (str "value is null") build_scope)
    else if not (is_blank d.value)
    then thrown (parsing_exception (str "Duplicate VALUE key") build_scope)
    else ok (set_value event d)
validate decimals_key event d = ok d

-- `if (state.validator_) state.validator_(event, data, ...)`
unfoldable pub run_validator : Option Key → ParserEvent → Measurement → Result Measurement
run_validator none event d = ok d
run_validator (some k) event d = validate k event d

-- What a validated value leaves behind.
unfoldable pub store_value : Result Measurement → Exec ParsingState Unit
store_value (thrown e) st = throw e st
store_value (ok d) st = (
  ok tt,
  record st {
    measurements = update_back (λ _. d) st.measurements;
    has_key = false;
    validator = none;
  },
)

abbrev value_scope : String
value_scope = "DataValidator::OnValue"

unfoldable pub handle_value : ParserEvent → Exec ParsingState Unit
handle_value event st = elim (current st) [
  | none ↦
      throw
        (parsing_exception (quoted "Entry " (value_as_string event) " is not an object")
          value_scope)
        st
  | some d ↦
      if not st.has_key
      then throw
          (parsing_exception (quoted "Missing key for value " (value_as_string event) "")
            value_scope)
          st
      else store_value (run_validator st.validator event d) st
]

-- `ParserCallback`; a null state is an error of its own.
unfoldable pub dispatch : ParserEvent → Exec ParsingState Unit
dispatch on_object_begin st = handle_object_begin st
dispatch on_object_end st = handle_object_end st
dispatch (on_key s) st = handle_key s st
dispatch event st = handle_value event st

unfoldable pub parser_callback : ParserEvent → Exec (Option ParsingState) Unit
parser_callback event none =
    throw (parsing_exception (str "state is null") "DataValidator::ParserCallback") none
parser_callback event (some st) = ((dispatch event st).0, some (dispatch event st).1)
