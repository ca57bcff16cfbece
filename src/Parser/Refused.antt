-- ===== src/Parser/Refused.antt =====
-- The parse of a number or a Boolean that `Measurement::ToJson` has written, as a text:
-- include/measurement.hpp, src/parsing/json_parser.hpp and src/parsing/data_validator.cpp.
use qds_data_interface.Prelude.{
  Option, ℕ, Bool, true, false, none, some, List, [], ◌∷◌, map, ◌≡◌, ◌≢◌, refl, ◌∙◌, ap, arith,
}
use qds_data_interface.Prelude.Str.{Str}
use qds_data_interface.Exception.{Exception, Result, ok, thrown}
use qds_data_interface.Measurement.{Measurement, MeasurementType, Value, text, value_to_string}
use qds_data_interface.Measurement.Json.{JsonObject, measurement_object, to_json}
use qds_data_interface.Validator.{
  on_object_begin, on_object_end, ParsingState, initial, handle_object_end, is_not_set, is_blank,
  mismatched, check_value, conclude, finish_measurement, parsing_exception, quoted,
}
use qds_data_interface.Validator.Values.{dispatch, parser_callback}
use qds_data_interface.Validator.Complete.{IsComplete, Fits}
use qds_data_interface.Validator.Parsed.{feed_go_on, feed_thrown}
use qds_data_interface.Parser.{
  HandlerCall, object_begin_call, object_end_call, document_begin_call, document_end_call,
  array_begin_call, array_end_call, react, feed, BasicParser, parse, finish_parse,
}
use qds_data_interface.Parser.Reading.{
  member_calls, object_calls, array_calls, reading, current-reading, trans_Feeds, one-Feeds,
  measured,
}
use qds_data_interface.Parser.Members.{members-Feeds, begin-reading, between}
use qds_data_interface.Parser.RoundTrip.{type_is_set}

unfoldable pub is_text : Value → Bool
is_text (text s) = true
is_text _ = false

-- "VALUE of '...' does not match its TYPE"
abbrev pub mismatch : Str → Exception
mismatch name =
    parsing_exception (quoted "VALUE of " name " does not match its TYPE")
      "DataValidator::OnObjectEnd"

text_mismatched :
    (t : MeasurementType) (v : Value) (s : Str)
    → Fits t v
    → is_text v ≡ false
    → check_value t (text s) ≡ mismatched
unfolding check_value is_text
text_mismatched t v s h n = ground arith

finish_mismatched :
    (name unit s : Str) (t : MeasurementType) (st : ParsingState)
    → name ≢ []
    → is_not_set t ≡ false
    → check_value t (text s) ≡ mismatched
    → finish_measurement (measured name t unit (text s)) st ≡ (thrown (mismatch name), st)
unfolding finish_measurement is_blank conclude
finish_mismatched [] unit s t st named set m = absurd (named refl)
finish_mismatched (c ∷ name) unit s t st named set m = rw (set, m, finish_measurement) refl

end_mismatched :
    (acc : List Measurement) (name unit s : Str) (t : MeasurementType)
    → name ≢ []
    → is_not_set t ≡ false
    → check_value t (text s) ≡ mismatched
    → (dispatch on_object_end (reading acc (measured name t unit (text s)) none false)).0
      ≡ thrown (mismatch name)
unfolding dispatch handle_object_end
end_mismatched acc name unit s t named set m =
    rw (current-reading acc (measured name t unit (text s)) none false, dispatch, handle_object_end)
      (ap (λ r. r.0) (finish_mismatched name unit s t _ named set m))

object_mismatched :
    (d : Measurement) (cs : List HandlerCall) (n : ℕ)
    → IsComplete d
    → is_text d.value ≡ false
    → (feed parser_callback
        (object_begin_call ∷ member_calls (measurement_object d) (object_end_call ∷ cs))
        n
        (some (between [] false))).0
      ≡ thrown (mismatch d.name)
unfolding react measurement_object value_to_string
object_mismatched d cs n c not_text =
    let s : Str = value_to_string d.value in
    let set : is_not_set d.type ≡ false = type_is_set d.type d.value c.fits in
    let (m, e, count) =
      trans_Feeds _ _ (object_end_call ∷ cs) _ _ _
        (one-Feeds object_begin_call on_object_begin _ _ _ refl (begin-reading [] false))
        (members-Feeds [] d.name d.unit s d.type (object_end_call ∷ cs) set) n in
    ap (λ r. r.0)
      (e
        ∙ feed_thrown object_end_call cs m _ on_object_end (mismatch d.name) refl (
            end_mismatched [] d.name d.unit s d.type c.named set
              (text_mismatched d.type d.value s c.fits not_text)))

-- `Parse` of what `ToJson` writes of complete measurements, of which the first has a number or a
-- Boolean as its value, throws that its value does not match its type, if the parser hands out the
-- keys and texts of the document whole.
pub parse-to_json_refused :
    (serialize : List JsonObject → Str) (p : BasicParser) (d : Measurement) (ms : List Measurement)
    → IsComplete d
    → is_text d.value ≡ false
    → p.calls (to_json serialize (d ∷ ms)) ≡ array_calls (map measurement_object (d ∷ ms))
    → (parse parser_callback p (to_json serialize (d ∷ ms)) initial).0 ≡ thrown (mismatch d.name)
unfolding parse react initial object_calls finish_parse
parse-to_json_refused serialize p d ms c not_text calls =
    let rest : List HandlerCall =
      object_calls (map measurement_object ms) (array_end_call ∷ document_end_call ∷ []) in
    let fed =
      ap (λ cs. (feed parser_callback cs 0 (some initial)).0) calls
      ∙ ap (λ r. r.0)
          (feed_go_on document_begin_call
              (array_begin_call
                ∷ object_calls (map measurement_object (d ∷ ms))
                    (array_end_call ∷ document_end_call ∷ []))
              0 initial refl
            ∙ feed_go_on array_begin_call
                (object_calls (map measurement_object (d ∷ ms))
                  (array_end_call ∷ document_end_call ∷ []))
                1 initial refl)
      ∙ object_mismatched d rest 2 c not_text in
    passed p (to_json serialize (d ∷ ms)) (mismatch d.name) _ fed
  where
    passed :
        (p : BasicParser) (json : Str) (x : Exception) (r : Result ℕ × Option ParsingState)
        → r.0 ≡ thrown x
        → (finish_parse p json r).0 ≡ thrown x
    passed p json x (ok n, s) h = cc h
    passed p json x (thrown y, s) h = ap thrown (cc h)
