-- ===== src/Validator/Tests.antt =====
-- Parses with the callbacks of src/parsing/data_validator.cpp, and the theorems at such inputs.
use qds_data_interface.Prelude.{true, some, [], ◌∷◌, ◌≡◌, ◌↔◌, ◌&&◌, ltb, refl, arith, All}
use qds_data_interface.Exception.{Exception, ok}
use qds_data_interface.Measurement.{Measurement}
use qds_data_interface.Validator.{current, handle_key, validation}
use qds_data_interface.Validator.Typed.{IsTyped, parse-IsTyped}
use qds_data_interface.Validator.Keys.{BeginsOne, handle_key-BeginsOne}
use qds_data_interface.Validator.Timestamp.{is_timestamp}
use qds_data_interface.Validator.Timestamp.Calendar.{is_date, utc, is_timestamp-utc}
use qds_data_interface.Parser.Door.{
  door_parser, door, open_state, door_parsed, door_calls-NeverStops, door_balanced,
}

parse-IsTyped_example : All IsTyped (door ∷ [])
parse-IsTyped_example =
    parse-IsTyped door_parser [] [] (record open_state { current_element_completed = true })
      door_calls-NeverStops door_balanced door_parsed

open_current : current open_state ≡ some door
unfolding current
open_current = refl

handle_key-BeginsOne_example :
    ((handle_key (86 ∷ []) open_state).0 ≡ ok tt) ↔ BeginsOne (86 ∷ []) validation
handle_key-BeginsOne_example =
    handle_key-BeginsOne (86 ∷ []) open_state door ((λ e. cc), tt) open_current

is_timestamp-utc_example :
    is_timestamp (utc 2024 2 29 23 59 58)
    ≡ (is_date 2024 2 29 && (ltb 23 24 && (ltb 59 60 && ltb 58 60)))
is_timestamp-utc_example =
    is_timestamp-utc 2024 2 29 23 59 58 (omega arith) (omega arith) (omega arith) (omega arith)
      (omega arith) (omega arith)
