-- ===== src/Parser/Members.antt =====
-- The members of an object that `Measurement::ToJson` has written, include/measurement.hpp, through
-- the callbacks of src/parsing/data_validator.cpp.
use qds_data_interface.Prelude.{Bool, false, none, some, List, [], ◌∷◌, ◌≡◌, refl}
use qds_data_interface.Prelude.Str.{Str, str}
use qds_data_interface.Exception.{ok}
use qds_data_interface.Measurement.{
  Measurement, MeasurementType, blank, text, type_to_string, value_to_string, blank_measurement,
}
use qds_data_interface.Measurement.Json.{measurement_object}
use qds_data_interface.Validator.{
  on_object_begin, ParsingState, name_key, type_key, unit_key, value_key, validation, find_key,
  strncmp_eq, handle_object_begin, is_not_set,
}
use qds_data_interface.Validator.Values.{dispatch}
use qds_data_interface.Parser.{HandlerCall, key_call, string_call}
use qds_data_interface.Parser.Reading.{
  member_calls, reading, Feeds, trans_Feeds, member-Feeds, measured, name-valid, type-valid,
  unit-valid, value-valid,
}

found_name : find_key (str "NAME") validation ≡ some name_key
unfolding find_key validation strncmp_eq str
found_name = refl

found_type : find_key (str "TYPE") validation ≡ some type_key
unfolding find_key validation strncmp_eq str
found_type = refl

found_unit : find_key (str "UNIT") validation ≡ some unit_key
unfolding find_key validation strncmp_eq str
found_unit = refl

found_value : find_key (str "VALUE") validation ≡ some value_key
unfolding find_key validation strncmp_eq str
found_value = refl

named-Feeds :
    (acc : List Measurement) (name : Str) (t : MeasurementType) (cs : List HandlerCall)
    → is_not_set t ≡ false
    → Feeds
        (key_call (str "NAME")
          ∷ string_call name
          ∷ key_call (str "TYPE")
          ∷ string_call (type_to_string t)
          ∷ cs)
        (reading acc blank_measurement none false)
        cs
        (reading acc (measured name t [] blank) none false)
named-Feeds acc name t cs h =
    trans_Feeds _ _ cs _ _ _ (member-Feeds acc _ _ _ name name_key _ found_name (name-valid name))
      (member-Feeds acc _ _ _ _ type_key cs found_type (type-valid name t h))

pub members-Feeds :
    (acc : List Measurement) (name unit s : Str) (t : MeasurementType) (cs : List HandlerCall)
    → is_not_set t ≡ false
    → Feeds
        (member_calls (measurement_object (measured name t unit (text s))) cs)
        (reading acc blank_measurement none false)
        cs
        (reading acc (measured name t unit (text s)) none false)
unfolding measurement_object member_calls value_to_string
members-Feeds acc name [] s t cs h =
    trans_Feeds _ _ cs _ _ _ (named-Feeds acc name t _ h)
      (member-Feeds acc _ _ _ s value_key cs found_value (value-valid name [] s t))
members-Feeds acc name (u ∷ unit) s t cs h = trans_Feeds _ _ cs _ _ _ (named-Feeds acc name t _ h) (
    trans_Feeds _ _ cs _ _ _
      (member-Feeds acc _ _ _ (u ∷ unit) unit_key _ found_unit (unit-valid name (u ∷ unit) t))
      (member-Feeds acc _ _ _ s value_key cs found_value (value-valid name (u ∷ unit) s t)))

-- Between two objects.
abbrev pub between : List Measurement → Bool → ParsingState
between acc b = record {
  measurements = acc;
  validator = none;
  has_key = false;
  current_element_completed = b;
}

pub begin-reading :
    (acc : List Measurement) (b : Bool)
    → dispatch on_object_begin (between acc b) ≡ (ok tt, reading acc blank_measurement none false)
unfolding dispatch handle_object_begin
begin-reading acc b = refl
