-- ===== src/Measurement/Json.antt =====
-- `Measurement::ToJson`, include/measurement.hpp. An object of Boost.JSON is the list of its keys and
-- texts in the order of their insertion; `boost::json::serialize` is a parameter.
use qds_data_interface.Prelude.{List, [], ◌∷◌, ◌++◌, map, is_empty, if◌then◌else◌}
use qds_data_interface.Prelude.Str.{Str, str}
use qds_data_interface.Measurement.{Measurement, type_to_string, value_to_string}

abbrev pub JsonObject : Type 0
JsonObject = List (Str × Str)

unfoldable pub measurement_object : Measurement → JsonObject
measurement_object d =
    (str "NAME", d.name)
    ∷ (str "TYPE", type_to_string d.type)
    ∷ ((if is_empty d.unit then [] else (str "UNIT", d.unit) ∷ [])
        ++ (str "VALUE", value_to_string d.value) ∷ [])

unfoldable pub to_json : (List JsonObject → Str) → List Measurement → Str
to_json serialize list = serialize (map measurement_object list)
