-- ===== src/Validator/Complete.antt =====
-- A measurement that passes the checks of `DataValidator::OnObjectEnd`, src/parsing/data_validator.cpp.
use qds_data_interface.Prelude.{
  Bool, true, false, not, ◌&&◌, none, some, [], ◌∷◌, ◌≡◌, ◌≢◌, ◌⊎◌, inl, inr, refl, ◌∙◌, arith,
  length, is_empty, All, Bool-cases, Option-cases,
}
use qds_data_interface.Prelude.Int.{◌≤ℤ◌, ltb_ℤ-false, ltb_ℤ-true}
use qds_data_interface.Prelude.Str.{Str, str}
use qds_data_interface.Prelude.Double.{exceeds_float_max}
use qds_data_interface.Exception.{Exception, ok, thrown}
use qds_data_interface.Measurement.{
  Measurement, MeasurementType, not_set, string, integer, float, long, double, bool, word,
  timestamp, ref, foreign_key, Value, blank, text, int64, float64, boolean,
}
use qds_data_interface.Validator.Timestamp.{is_timestamp}
use qds_data_interface.Validator.{
  ParsingState, parsing_exception, int32_max, is_hex_digit, all_hex, Verdict, accepted,
  moved_to_front, mismatched, refused, check_value, conclude, is_not_set, is_blank,
  finish_measurement, current, handle_object_end, back_to_front,
}

-- What a value of each type has to be.
abbrev pub Fits : MeasurementType → Value → Type 0
Fits string (text s) = Unit
Fits integer (int64 n) = n ≤ℤ int32_max
Fits float (float64 d) = exceeds_float_max d ≡ false
Fits long (int64 n) = Unit
Fits double (float64 d) = Unit
Fits bool (boolean b) = Unit
Fits word (text s) = (length s ≡ 4) × All (λ c. is_hex_digit c ≡ true) s
Fits timestamp (text s) = is_timestamp s ≡ true
Fits ref (text s) = Unit
Fits foreign_key (text s) = Unit
Fits _ _ = ⊥

pub record IsComplete (d : Measurement) : Type 0 where
  pub named : d.name ≢ []
  pub fits : Fits d.type d.value

abbrev pub passes : Verdict → Bool
passes accepted = true
passes moved_to_front = true
passes mismatched = false
passes (refused m) = false

all_hex-All : (s : Str) → all_hex s ≡ true → All (λ c. is_hex_digit c ≡ true) s
unfolding all_hex
all_hex-All [] h = tt
all_hex-All (c ∷ s) h = ground (arith, all_hex-All s)

All-all_hex : (s : Str) → All (λ c. is_hex_digit c ≡ true) s → all_hex s ≡ true
unfolding all_hex
All-all_hex [] h = refl
All-all_hex (c ∷ s) h = ground (arith, All-all_hex s)

passes-Fits : (t : MeasurementType) (v : Value) → passes (check_value t v) ≡ true → Fits t v
unfolding check_value
passes-Fits integer (int64 n) h = ground (arith, ltb_ℤ-false int32_max n)
passes-Fits float (float64 d) h = ground arith
passes-Fits word (text s) h = ground (arith, all_hex-All s)
passes-Fits timestamp (text s) h = ground arith
passes-Fits t v h = ground arith

pub Fits-passes : (t : MeasurementType) (v : Value) → Fits t v → passes (check_value t v) ≡ true
unfolding check_value
Fits-passes integer (int64 n) h = ground (arith, ltb_ℤ-true int32_max n)
Fits-passes float (float64 d) h = ground arith
Fits-passes word (text s) h = ground (arith, All-all_hex s)
Fits-passes timestamp (text s) h = ground arith
Fits-passes t v h = ground arith

-- The checks of `OnObjectEnd` as one test.
unfoldable pub is_complete : Measurement → Bool
is_complete d = not (is_empty d.name) && passes (check_value d.type d.value)

not_set_refused : (v : Value) → passes (check_value not_set v) ≡ false
unfolding check_value
not_set_refused v = refl

blank_refused : (t : MeasurementType) → passes (check_value t blank) ≡ false
unfolding check_value
blank_refused not_set = refl
blank_refused t = refl

pub is_complete-IsComplete : (d : Measurement) → is_complete d ≡ true → IsComplete d
unfolding is_complete
is_complete-IsComplete d h = record {
  named = ground arith;
  fits = passes-Fits d.type d.value (ground arith);
}

pub IsComplete-is_complete : (d : Measurement) → IsComplete d → is_complete d ≡ true
unfolding is_complete
IsComplete-is_complete d c = ground (arith, Fits-passes d.type d.value c.fits, c.named)

passes-set :
    (t : MeasurementType) (v : Value)
    → passes (check_value t v) ≡ true
    → (is_not_set t ≡ false) × (is_blank v ≡ false)
unfolding is_not_set is_blank
passes-set not_set v h = cc (not_set_refused v)
passes-set t blank h = cc (blank_refused t)
passes-set t v h = (refl, refl)

-- The state behind the end of an object that does not throw, by the verdict.
abbrev pub ended : Verdict → ParsingState → ParsingState
ended moved_to_front st = record st {
  measurements = back_to_front st.measurements;
  current_element_completed = true;
}
ended _ st = record st { current_element_completed = true }

conclude-passes :
    (v : Verdict) (name : Str) (st : ParsingState)
    → passes v ≡ true
    → conclude v name st ≡ (ok tt, ended v st)
unfolding conclude
conclude-passes accepted name st h = refl
conclude-passes moved_to_front name st h = refl
conclude-passes mismatched name st h = cc
conclude-passes (refused m) name st h = cc

conclude_fails :
    (v : Verdict) (name : Str) (st : ParsingState)
    → passes v ≡ false
    → (e : Exception) × (conclude v name st ≡ (thrown e, st))
unfolding conclude
conclude_fails accepted name st h = cc
conclude_fails moved_to_front name st h = cc
conclude_fails mismatched name st h = (_, refl)
conclude_fails (refused m) name st h = (_, refl)

pub finish_complete :
    (d : Measurement) (st : ParsingState)
    → is_complete d ≡ true
    → finish_measurement d st ≡ (ok tt, ended (check_value d.type d.value) st)
unfolding finish_measurement is_complete
finish_complete d st h =
    ground
      (arith, passes-set d.type d.value, conclude-passes (check_value d.type d.value) d.name st)

finish_incomplete :
    (d : Measurement) (st : ParsingState)
    → is_complete d ≡ false
    → (e : Exception) × (finish_measurement d st ≡ (thrown e, st))
unfolding finish_measurement is_complete
finish_incomplete d st h = elim (Bool-cases (is_empty d.name)) [
  | inl e ↦ simp e (_, refl)
  | inr e ↦ elim (Bool-cases (is_not_set d.type)) [
    | inl n ↦ simp (e, n) (_, refl)
    | inr n ↦ elim (Bool-cases (is_blank d.value)) [
      | inl b ↦ simp (e, n, b) (_, refl)
      | inr b ↦
          simp (e, n, b) (conclude_fails (check_value d.type d.value) d.name st (ground arith))
    ]
  ]
]

object_end_none :
    (st : ParsingState)
    → current st ≡ none
    → (e : Exception) × (handle_object_end st ≡ (thrown e, st))
unfolding handle_object_end
object_end_none st h =
    (parsing_exception (str "Invalid JSON") "DataValidator::OnObjectEnd", rw (h, handle_object_end))

object_end_some :
    (st : ParsingState) (d : Measurement)
    → current st ≡ some d
    → handle_object_end st ≡ finish_measurement d st
unfolding handle_object_end
object_end_some st d h = rw (h, handle_object_end)

-- The end of an object succeeds exactly if there is an open measurement with a name, a type and a
-- value of that type; then it is marked as completed, and else nothing changes.
pub object_end_outcome :
    (st : ParsingState)
    → ((d : Measurement) × (current st ≡ some d)
        × IsComplete d
        × (handle_object_end st ≡ (ok tt, ended (check_value d.type d.value) st)))
      ⊎ ((e : Exception) × ((d : Measurement) → current st ≡ some d → ¬ IsComplete d)
          × (handle_object_end st ≡ (thrown e, st)))
object_end_outcome st = elim (Option-cases (current st)) [
  | inl e ↦
      let (x, q) : (x : Exception) × (handle_object_end st ≡ (thrown x, st)) =
        object_end_none st e in
      inr (x, (λ d p. cc (e, p)), q)
  | inr (d, p) ↦ elim (Bool-cases (is_complete d)) [
    | inl c ↦
        inl (d, p, is_complete-IsComplete d c, object_end_some st d p ∙ finish_complete d st c)
    | inr i ↦
        let (e, q) : (e : Exception) × (finish_measurement d st ≡ (thrown e, st)) =
          finish_incomplete d st i in
        inr
          (e, (λ d' p' c'. cc (i, p, p', IsComplete-is_complete d' c')), object_end_some st d p ∙ q)
  ]
]
