-- ===== src/Validator.antt =====
-- src/parsing/data_validator.hpp and src/parsing/data_validator.cpp: the callbacks that turn the
-- events of a JSON parser into measurements, or throw.
pub mod Timestamp
pub mod Values
pub mod Complete
pub mod Typed
pub mod Objects
pub mod Parsed
pub mod Keys
pub mod Throws
mod Tests
use Timestamp.{is_timestamp}
use Prim.Native.String.{String}
use qds_data_interface.Prelude.{
  ℕ, zero, suc, ◌-◌, ◌^◌, Bool, true, false, not, ◌&&◌, ◌||◌, Option, none, some, List, [], ◌∷◌,
  ◌++◌, length, is_empty, back, leb, ltb, ◌==◌, if◌then◌else◌,
}
use qds_data_interface.Prelude.Int.{ℤ, pos, negsuc, ltb_ℤ}
use qds_data_interface.Prelude.Str.{Str, str, to_string_ℤ}
use qds_data_interface.Prelude.Double.{exceeds_float_max, to_string_double}
use qds_data_interface.Exception.{
  Exception, Exec, Result, ok, thrown, parsing, return, throw, ◌>>=◌, ◌>>◌,
}
use qds_data_interface.Measurement.{
  Measurement, MeasurementType, not_set, string, integer, float, long, double, bool, word,
  timestamp, ref, foreign_key, Value, blank, text, int64, float64, boolean, blank_measurement,
  set_type_from_string,
}

-- `ParserEvent` with what the handler passes beside it: the key or value as a text, and the value
-- behind the `void*`, which is null for an object's begin and end and for a key.
pub data ParserEvent : Type 0 where
  on_object_begin on_object_end : ParserEvent
  on_key on_string : Str → ParserEvent
  on_int64 : ℤ → Str → ParserEvent
  on_uint64 on_double : ℕ → Str → ParserEvent
  on_bool : Bool → Str → ParserEvent

abbrev pub value_as_string : ParserEvent → Str
value_as_string on_object_begin = []
value_as_string on_object_end = []
value_as_string (on_key s) = s
value_as_string (on_string s) = s
value_as_string (on_int64 n s) = s
value_as_string (on_uint64 n s) = s
value_as_string (on_double d s) = s
value_as_string (on_bool b s) = s

abbrev pub value_is_null : ParserEvent → Bool
value_is_null on_object_begin = true
value_is_null on_object_end = true
value_is_null (on_key s) = true
value_is_null _ = false

-- The entries of `BuildParseValidation`, in their order.
pub data Key : Type 0 where
  name_key type_key unit_key value_key decimals_key : Key

-- `validator_` is null or the function of one key.
pub record ParsingState : Type 0 where
  pub measurements : List Measurement
  pub validator : Option Key
  pub has_key : Bool
  pub current_element_completed : Bool

unfoldable pub initial : ParsingState
initial = record {
  measurements = [];
  validator = none;
  has_key = false;
  current_element_completed = false;
}

unfoldable pub parsing_exception : Str → String → Exception
parsing_exception msg scope = record { class = parsing; msg = msg; scope = str scope }

abbrev end_scope : String
end_scope = "DataValidator::OnObjectEnd"

-- before + "'" + s + "'" + after
pub quoted : String → Str → String → Str
quoted before s after = str before ++ b'\'' ∷ s ++ b'\'' ∷ str after

-- `data.` changed through `state.data_->back()`.
unfoldable pub update_back : (Measurement → Measurement) → List Measurement → List Measurement
update_back f [] = []
update_back f (d ∷ []) = f d ∷ []
update_back f (d ∷ e ∷ ds) = d ∷ update_back f (e ∷ ds)

-- `std::rotate(begin, end - 1, end)`: the last measurement moves to the front.
unfoldable pub without_back : List Measurement → List Measurement
without_back [] = []
without_back (d ∷ []) = []
without_back (d ∷ e ∷ ds) = d ∷ without_back (e ∷ ds)

unfoldable pub back_to_front : List Measurement → List Measurement
back_to_front ds = elim (back ds) [ none ↦ ds | some d ↦ d ∷ without_back ds ]

unfoldable pub handle_object_begin : Exec ParsingState Unit
handle_object_begin st = (
  ok tt,
  record st {
    measurements = st.measurements ++ blank_measurement ∷ [];
    current_element_completed = false;
  },
)

abbrev pub int32_max : ℤ
int32_max = pos (2 ^ 31 - 1)

unfoldable pub is_hex_digit : ℕ → Bool
is_hex_digit c =
    (leb b'0' c && leb c b'9') || (leb b'a' c && leb c b'f') || (leb b'A' c && leb c b'F')

unfoldable pub all_hex : Str → Bool
unfolding is_hex_digit
all_hex [] = true
all_hex (c ∷ s) = is_hex_digit c && all_hex s

-- The verdict of the switch over the type: fine, fine and to be moved to the front, or the message.
pub data Verdict : Type 0 where
  accepted moved_to_front mismatched : Verdict
  refused : Str → Verdict

-- One case for each type; `boost::get` of another alternative throws `bad_get`, which is caught and
-- makes the message "VALUE of ... does not match its TYPE".
unfoldable pub check_value : MeasurementType → Value → Verdict
check_value not_set v = refused (str "Measurement has bad TYPE")
check_value string (text s) = accepted
check_value integer (int64 n) =
    if ltb_ℤ int32_max n
    then refused (quoted "Invalid INTEGER value " (to_string_ℤ n) "")
    else accepted
check_value float (float64 d) =
    if exceeds_float_max d
    then refused (quoted "Invalid FLOAT value " (to_string_double d) "")
    else accepted
check_value long (int64 n) = accepted
check_value double (float64 d) = accepted
check_value bool (boolean b) = accepted
check_value word (text s) =
    if not (length s == 4) || not (all_hex s)
    then refused (quoted "Invalid WORD value " s "")
    else accepted
check_value timestamp (text s) =
    if is_timestamp s then moved_to_front else refused (quoted "Invalid TIMESTAMP value " s "")
check_value ref (text s) = accepted
check_value foreign_key (text s) = accepted
check_value _ v = mismatched

complete : ParsingState → ParsingState
complete st = record st { current_element_completed = true }

-- The end of `OnObjectEnd` by the verdict.
unfoldable pub conclude : Verdict → Str → Exec ParsingState Unit
unfolding complete
conclude accepted name st = (ok tt, complete st)
conclude moved_to_front name st =
    (ok tt, complete (record st { measurements = back_to_front st.measurements }))
conclude mismatched name st =
    throw (parsing_exception (quoted "VALUE of " name " does not match its TYPE") end_scope) st
conclude (refused msg) name st = throw (parsing_exception msg end_scope) st

unfoldable pub is_not_set : MeasurementType → Bool
is_not_set not_set = true
is_not_set _ = false

unfoldable pub is_blank : Value → Bool
is_blank blank = true
is_blank _ = false

-- The checks of `OnObjectEnd` on `state.data_->back()`.
unfoldable pub finish_measurement : Measurement → Exec ParsingState Unit
finish_measurement d st =
    if is_empty d.name
    then throw (parsing_exception (str "Measurement missing NAME") end_scope) st
    else if is_not_set d.type
    then throw (parsing_exception (str "Measurement missing TYPE") end_scope) st
    else if is_blank d.value
    then throw (parsing_exception (str "Measurement missing VALUE") end_scope) st
    else conclude (check_value d.type d.value) d.name st

-- `state.data_->empty() || state.current_element_completed_`, the guard of three callbacks, with the
-- measurement that they work on.
unfoldable pub current : ParsingState → Option Measurement
current st = if st.current_element_completed then none else back st.measurements

unfoldable pub handle_object_end : Exec ParsingState Unit
handle_object_end st = elim (current st) [
  | none ↦ throw (parsing_exception (str "Invalid JSON") end_scope) st
  | some d ↦ finish_measurement d st
]

-- `strncmp(entry, key, len) == 0` for a key of `len` bytes: the comparison ends after `len` bytes, or
-- where both texts have a zero byte; the entry has one behind its last byte.
unfoldable pub strncmp_eq : Str → Str → Bool
strncmp_eq entry [] = true
strncmp_eq [] (c ∷ key) = c == 0
strncmp_eq (e ∷ entry) (c ∷ key) = e == c && strncmp_eq entry key

-- The names of the validation entries, in the order in which `OnKey` compares them.
unfoldable pub validation : List (Str × Key)
validation =
    (str "NAME", name_key)
    ∷ (str "TYPE", type_key)
    ∷ (str "UNIT", unit_key)
    ∷ (str "VALUE", value_key)
    ∷ (str "DECIMALS", decimals_key)
    ∷ []

unfoldable pub find_key : Str → List (Str × Key) → Option Key
find_key s [] = none
find_key s ((name, k) ∷ entries) = if strncmp_eq name s then some k else find_key s entries

abbrev key_scope : String
key_scope = "DataValidator::OnKey"

unfoldable pub handle_key : Str → Exec ParsingState Unit
handle_key s st = elim (current st) [
  | none ↦ throw (parsing_exception (quoted "Entry " s " is not an object") key_scope) st
  | some d ↦ elim (find_key s validation) [
    | none ↦ throw (parsing_exception (quoted "Invalid key " s "") key_scope) st
    | some k ↦ (ok tt, record st { has_key = true; validator = some k })
  ]
]
