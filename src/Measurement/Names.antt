-- ===== src/Measurement/Names.antt =====
-- The names of the measurement types, include/measurement.hpp.
use qds_data_interface.Prelude.{◌≡◌, refl}
use qds_data_interface.Measurement.{MeasurementType, not_set, type_to_string, type_from_string}

-- Reading the name of a type gives the type back; the missing type has the empty name, which no type
-- has.
pub type_from_string-type_to_string :
    (t : MeasurementType) → type_from_string (type_to_string t) ≡ t
unfolding type_from_string type_to_string
type_from_string-type_to_string not_set = refl
type_from_string-type_to_string t = refl
