-- ===== src/Parser/Tests.antt =====
-- `ToJson` and `Parse` at two measurements, include/measurement.hpp and src/parsing/json_parser.hpp.
use qds_data_interface.Prelude.{
  true, none, some, List, [], ◌∷◌, ◌≡◌, ◌≢◌, ◌↔◌, refl, map, length, All, false,
}
use qds_data_interface.Prelude.Str.{Str, str}
use qds_data_interface.Exception.{Exception, ok, thrown}
use qds_data_interface.Measurement.{Measurement, MeasurementType, foreign_key, text}
use qds_data_interface.Measurement.Json.{JsonObject, measurement_object, to_json}
use qds_data_interface.Validator.{
  ParsingState, initial, on_object_begin, on_object_end, on_key, on_string,
}
use qds_data_interface.Validator.Values.{parser_callback}
use qds_data_interface.Parser.{
  HandlerCall, object_begin_call, object_end_call, key_call, string_call, string_part_call, react,
  BasicParser, parse,
}
use qds_data_interface.Parser.Passed.{passed, run, parse-passed}
use qds_data_interface.Parser.Door.{door}
use qds_data_interface.Parser.Reading.{array_calls}
use qds_data_interface.Parser.RoundTrip.{IsTextual, arranged, parse-to_json}
use qds_data_interface.Parser.Refused.{is_text, mismatch, parse-to_json_refused}

abbrev part : Measurement
part = record { name = str "Part"; type = foreign_key; unit = str "id"; value = text (str "A7") }

abbrev other : Measurement
other = record { name = str "Order"; type = MeasurementType.string; unit = []; value = text [] }

abbrev listed : List Measurement
listed = part ∷ other ∷ []

-- Some text.
abbrev serialize : List JsonObject → Str
serialize os = str "[...]"

-- A parser that takes every text for the document of these measurements.
abbrev reader : List Measurement → BasicParser
reader ms = record {
  calls = λ json. array_calls (map measurement_object ms);
  ending = λ json n. (length json, none);
  extra_data = str "extra data";
}

part-named : part.name ≢ []
unfolding str
part-named h = cc h

other-named : other.name ≢ []
unfolding str
other-named h = cc h

door-named : door.name ≢ []
unfolding str
door-named h = cc h

listed-IsTextual : All IsTextual listed
listed-IsTextual = (
  (record { named = part-named; fits = tt }, (str "A7", refl)),
  ((record { named = other-named; fits = tt }, ([], refl)), tt),
)

parse-to_json_example :
    (st : ParsingState) × (parse parser_callback (reader listed) (to_json serialize listed) initial
      ≡ (ok (true, []), some st))
    × (st.measurements ≡ arranged [] listed)
parse-to_json_example = parse-to_json serialize (reader listed) listed listed-IsTextual refl refl

door_not_text : is_text door.value ≡ false
unfolding is_text
door_not_text = refl

parse-to_json_refused_example :
    (parse parser_callback (reader (door ∷ [])) (to_json serialize (door ∷ [])) initial).0
    ≡ thrown (mismatch door.name)
parse-to_json_refused_example =
    parse-to_json_refused serialize (reader (door ∷ [])) door []
      (record { named = door-named; fits = tt }) door_not_text refl

-- {"NAME": "door"} where the parser hands out the name in two parts.
abbrev split_calls : List HandlerCall
split_calls =
    object_begin_call
    ∷ key_call (str "NAME")
    ∷ string_part_call (str "do")
    ∷ string_call (str "or")
    ∷ object_end_call
    ∷ []

abbrev splitter : BasicParser
splitter = record {
  calls = λ json. split_calls;
  ending = λ json n. (length json, none);
  extra_data = str "extra data";
}

-- The first part is lost.
split_passed :
    passed split_calls
    ≡ on_object_begin ∷ on_key (str "NAME") ∷ on_string (str "or") ∷ on_object_end ∷ []
unfolding passed react
split_passed = refl

parse-passed_example :
    ((parse parser_callback splitter [] initial).1
      ≡ (run parser_callback (passed split_calls) (some initial)).1)
    × ((e : Exception)
        → ((parse parser_callback splitter [] initial).0 ≡ thrown e)
          ↔ ((run parser_callback (passed split_calls) (some initial)).0 ≡ thrown e))
parse-passed_example = parse-passed parser_callback splitter [] initial
