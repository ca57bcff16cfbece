-- ===== src/Measurement.antt =====
-- include/measurement.hpp: the types of a measurement. A `double` is its 64-bit pattern.
pub mod Names
pub mod Json
use qds_data_interface.Prelude.{ℕ, Bool, true, false, List, [], ◌∷◌, if◌then◌else◌}
use qds_data_interface.Prelude.Int.{ℤ}
use qds_data_interface.Prelude.Str.{Str, str, ◌==s◌, to_string_ℤ}
use qds_data_interface.Prelude.Double.{to_string_double}

pub data MeasurementType : Type 0 where
  not_set string integer float long double bool word timestamp ref foreign_key : MeasurementType

-- `boost::variant<boost::blank, std::string, std::int64_t, double, bool>`
pub data Value : Type 0 where
  blank : Value
  text : Str → Value
  int64 : ℤ → Value
  float64 : ℕ → Value
  boolean : Bool → Value

pub record Measurement : Type 0 where
  pub name : Str
  pub type : MeasurementType
  pub unit : Str
  pub value : Value

-- `Measurement{}`
abbrev pub blank_measurement : Measurement
blank_measurement = record { name = []; type = not_set; unit = []; value = blank }

unfoldable pub type_to_string : MeasurementType → Str
unfolding str
type_to_string not_set = []
type_to_string string = str "STRING"
type_to_string integer = str "INTEGER"
type_to_string float = str "FLOAT"
type_to_string long = str "LONG"
type_to_string double = str "DOUBLE"
type_to_string bool = str "BOOL"
type_to_string word = str "WORD"
type_to_string timestamp = str "TIMESTAMP"
type_to_string ref = str "REF"
type_to_string foreign_key = str "FOREIGN_KEY"

-- `types_map` of `SetTypeFromString`.
unfoldable pub types_map : List (Str × MeasurementType)
unfolding str
types_map =
    (str "STRING", string)
    ∷ (str "INTEGER", integer)
    ∷ (str "INT", integer)
    ∷ (str "FLOAT", float)
    ∷ (str "LONG", long)
    ∷ (str "DOUBLE", double)
    ∷ (str "BOOL", bool)
    ∷ (str "WORD", word)
    ∷ (str "TIMESTAMP", timestamp)
    ∷ (str "REF", ref)
    ∷ (str "FOREIGN_KEY", foreign_key)
    ∷ []

-- `find`, and `kNotSet` where the name is not in the map.
unfoldable pub find_type : Str → List (Str × MeasurementType) → MeasurementType
find_type s [] = not_set
find_type s ((t, ty) ∷ m) = if t ==s s then ty else find_type s m

unfoldable pub type_from_string : Str → MeasurementType
unfolding types_map find_type ◌==s◌
type_from_string s = find_type s types_map

unfoldable pub set_type_from_string : Str → Measurement → Measurement
set_type_from_string s d = record d { type = type_from_string s }

-- `VariantValueAsString`
unfoldable pub value_to_string : Value → Str
value_to_string blank = []
value_to_string (text s) = s
value_to_string (int64 n) = to_string_ℤ n
value_to_string (float64 bits) = to_string_double bits
value_to_string (boolean true) = str "true"
value_to_string (boolean false) = str "false"
