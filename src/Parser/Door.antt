-- ===== src/Parser/Door.antt =====
-- One document and its parse, src/parsing/json_parser.hpp.
use qds_data_interface.Prelude.{true, false, none, some, List, [], ◌∷◌, ◌≡◌, refl, ◌≢◌, length}
use qds_data_interface.Prelude.Str.{str, ◌==s◌}
use qds_data_interface.Exception.{ok}
use qds_data_interface.Measurement.{
  Measurement, bool, boolean, type_from_string, set_type_from_string, find_type, types_map,
}
use qds_data_interface.Validator.{
  ParserEvent, ParsingState, initial, current, check_value, handle_object_begin, handle_object_end,
  finish_measurement, conclude, handle_key, is_not_set, is_blank, strncmp_eq, find_key, validation,
  update_back,
}
use qds_data_interface.Validator.Values.{
  parser_callback, dispatch, handle_value, run_validator, store_value, validate, set_type,
  set_value, event_value,
}
use qds_data_interface.Validator.Parsed.{NeverStops, opened, closed}
use qds_data_interface.Parser.{
  HandlerCall, key_call, string_call, bool_call, object_begin_call, object_end_call, stop, react,
  pass_on, BasicParser, parse, feed, finish_parse, final_error, parse_result,
}

-- {"NAME": "door", "TYPE": "BOOL", "VALUE": true}
abbrev pub door_calls : List HandlerCall
door_calls =
    object_begin_call
    ∷ key_call (str "NAME")
    ∷ string_call (str "door")
    ∷ key_call (str "TYPE")
    ∷ string_call (str "BOOL")
    ∷ key_call (str "VALUE")
    ∷ bool_call true
    ∷ object_end_call
    ∷ []

-- A parser that takes every text for this one.
abbrev pub door_parser : BasicParser
door_parser = record {
  calls = λ text. door_calls;
  ending = λ text n. (length text, none);
  extra_data = str "extra data";
}

abbrev pub door : Measurement
door = record { name = str "door"; type = bool; unit = []; value = boolean true }

abbrev pub open_state : ParsingState
open_state = record {
  measurements = door ∷ [];
  validator = none;
  has_key = false;
  current_element_completed = false;
}

pub door_parsed :
    parse parser_callback door_parser [] initial
    ≡ (ok (true, []), some (record open_state { current_element_completed = true }))
unfolding parse feed react parser_callback dispatch handle_object_begin handle_object_end handle_key
    handle_value current finish_measurement conclude check_value is_not_set is_blank strncmp_eq
    find_key validation update_back run_validator store_value validate set_type set_value
    event_value finish_parse final_error parse_result initial str type_from_string
    set_type_from_string find_type types_map ◌==s◌
door_parsed = refl

differs : {e : ParserEvent} → pass_on e ≢ stop
differs h = cc

pub door_calls-NeverStops : NeverStops door_calls
unfolding react
door_calls-NeverStops =
    (differs, (differs, (differs, (differs, (differs, (differs, (differs, (differs, tt))))))))

pub door_balanced : opened door_calls ≡ closed door_calls
unfolding opened closed react
door_balanced = refl
