-- ===== src/Parser/RoundTrip.antt =====
-- The parse of what `Measurement::ToJson` has written: include/measurement.hpp,
-- src/parsing/json_parser.hpp and src/parsing/data_validator.cpp.
use qds_data_interface.Prelude.{
  ℕ, suc, Bool, true, false, none, some, List, [], ◌∷◌, ◌++◌, map, ◌≡◌, refl, sym, ◌∙◌, ap, subst,
  arith, All, length, back-append, Option, if◌then◌else◌, ltb,
}
use qds_data_interface.Prelude.Str.{Str}
use qds_data_interface.Exception.{ok}
use qds_data_interface.Measurement.{
  Measurement, MeasurementType, Value, text, blank_measurement, timestamp,
}
use qds_data_interface.Measurement.Json.{JsonObject, measurement_object, to_json}
use qds_data_interface.Validator.{
  on_object_begin, on_object_end, ParsingState, initial, handle_object_end, is_not_set, accepted,
  moved_to_front, check_value, back_to_front,
}
use qds_data_interface.Validator.Values.{dispatch, parser_callback}
use qds_data_interface.Validator.Complete.{
  IsComplete, Fits, ended, passes, Fits-passes, finish_complete, IsComplete-is_complete,
}
use qds_data_interface.Validator.Objects.{without_back-append}
use qds_data_interface.Validator.Parsed.{feed_go_on}
use qds_data_interface.Parser.{
  HandlerCall, object_begin_call, object_end_call, document_begin_call, document_end_call,
  array_begin_call, array_end_call, react, feed, BasicParser, parse, finish_parse, final_error,
  parse_result,
}
use qds_data_interface.Parser.Members.{members-Feeds, between, begin-reading}
use qds_data_interface.Parser.Reading.{
  member_calls, object_calls, array_calls, reading, current-reading, Feeds, trans_Feeds, one-Feeds,
  measured,
}

unfoldable pub is_timestamp_type : MeasurementType → Bool
is_timestamp_type timestamp = true
is_timestamp_type _ = false

-- What the measurements become in the order of the document: a timestamp goes to the front.
unfoldable pub arranged : List Measurement → List Measurement → List Measurement
arranged acc [] = acc
arranged acc (d ∷ ds) = arranged (if is_timestamp_type d.type then d ∷ acc else acc ++ d ∷ []) ds

text_verdict :
    (t : MeasurementType) (s : Str)
    → passes (check_value t (text s)) ≡ true
    → check_value t (text s) ≡ (if is_timestamp_type t then moved_to_front else accepted)
unfolding check_value is_timestamp_type
text_verdict t s h = ground arith

back_to_front-append :
    (acc : List Measurement) (d : Measurement) → back_to_front (acc ++ d ∷ []) ≡ d ∷ acc
unfolding back_to_front
back_to_front-append acc d = rw (back-append acc d, without_back-append acc d, back_to_front) refl

ended-reading :
    (acc : List Measurement) (d : Measurement) (b : Bool)
    → ended (if b then moved_to_front else accepted) (reading acc d none false)
      ≡ between (if b then d ∷ acc else acc ++ d ∷ []) true
ended-reading acc d true = ap (λ ms. between ms true) (back_to_front-append acc d)
ended-reading acc d false = refl

-- A measurement that passes the checks and whose value is a text.
abbrev pub IsTextual : Measurement → Type 0
IsTextual d = IsComplete d × ((s : Str) × (d.value ≡ text s))

end-reading :
    (acc : List Measurement) (d : Measurement) (s : Str)
    → IsComplete d
    → d.value ≡ text s
    → dispatch on_object_end (reading acc d none false)
      ≡ (ok tt, between (if is_timestamp_type d.type then d ∷ acc else acc ++ d ∷ []) true)
unfolding dispatch handle_object_end
end-reading acc d s c e =
    let verdict : check_value d.type d.value
        ≡ (if is_timestamp_type d.type then moved_to_front else accepted) =
      rw e (text_verdict d.type s (rw e at (Fits-passes d.type d.value c.fits))) in
    rw (current-reading acc d none false, dispatch, handle_object_end)
      (finish_complete d (reading acc d none false) (IsComplete-is_complete d c)
        ∙ ap (λ v. (ok tt, ended v (reading acc d none false))) verdict
        ∙ ap (λ st. (ok tt, st)) (ended-reading acc d (is_timestamp_type d.type)))

pub type_is_set : (t : MeasurementType) (v : Value) → Fits t v → is_not_set t ≡ false
unfolding is_not_set
type_is_set t v h = ground arith

object-Feeds :
    (acc : List Measurement) (d : Measurement) (b : Bool) (cs : List HandlerCall)
    → IsTextual d
    → Feeds
        (object_begin_call ∷ member_calls (measurement_object d) (object_end_call ∷ cs))
        (between acc b)
        cs
        (between (if is_timestamp_type d.type then d ∷ acc else acc ++ d ∷ []) true)
unfolding react
object-Feeds acc d b cs (c, (s, e)) =
    trans_Feeds _ _ cs _ _ _
      (one-Feeds object_begin_call on_object_begin _ _ _ refl (begin-reading acc b))
      (trans_Feeds _ _ cs _ _ _
        (subst
          (λ v.
            Feeds
              (member_calls (measurement_object (measured d.name d.type d.unit v))
                (object_end_call ∷ cs))
              (reading acc blank_measurement none false) (object_end_call ∷ cs)
              (reading acc (measured d.name d.type d.unit v) none false))
          (sym e)
          (members-Feeds acc d.name d.unit s d.type (object_end_call ∷ cs)
            (type_is_set d.type d.value c.fits)))
        (one-Feeds object_end_call on_object_end cs _ _ refl (end-reading acc d s c e)))

objects-Feeds :
    (ms acc : List Measurement) (b : Bool) (cs : List HandlerCall)
    → All IsTextual ms
    → (last : Bool) × Feeds
        (object_calls (map measurement_object ms) cs)
        (between acc b)
        cs
        (between (arranged acc ms) last)
unfolding object_calls arranged
objects-Feeds [] acc b cs a = (b, λ n. (n, refl, refl))
objects-Feeds (d ∷ ms) acc b cs a =
    let (last, f) =
      objects-Feeds ms (if is_timestamp_type d.type then d ∷ acc else acc ++ d ∷ []) true cs
        (a.1) in
    (last, trans_Feeds _ _ cs _ _ _ (object-Feeds acc d b _ (a.0)) f)

feed_nil : (n : ℕ) (s : Option ParsingState) → feed parser_callback [] n s ≡ (ok n, s)
unfolding feed
feed_nil n s = refl

finish_whole :
    (p : BasicParser) (json : Str) (n : ℕ) (s : Option ParsingState)
    → p.ending json n ≡ (length json, none)
    → finish_parse p json (ok n, s) ≡ (ok (true, []), s)
unfolding finish_parse final_error parse_result
finish_whole p json n s e = rw (e, final_error) (ground (arith, ltb_irrefl (length json)))
  where
    ltb_irrefl : (n : ℕ) → ltb n n ≡ false
    ltb_irrefl n = ground arith

array_feed :
    (ms : List Measurement)
    → All IsTextual ms
    → (last : Bool) × (feed parser_callback
          (array_calls (map measurement_object ms))
          0
          (some initial)
        ≡ (
          ok (length (array_calls (map measurement_object ms))),
          some (between (arranged [] ms) last),
        ))
unfolding react initial
array_feed ms a =
    let tail : List HandlerCall = array_end_call ∷ document_end_call ∷ [] in
    let (last, f) = objects-Feeds ms [] false tail a in
    let (m, e, count) = f 2 in
    (
      last,
      feed_go_on document_begin_call _ 0 initial refl
          ∙ feed_go_on array_begin_call _ 1 initial refl
          ∙ e
          ∙ feed_go_on array_end_call _ m _ refl
          ∙ feed_go_on document_end_call [] (suc m) _ refl
          ∙ feed_nil _ _
          ∙ ap (λ k. (ok k, some (between (arranged [] ms) last))) (omega (arith, count)),
    )

-- `Parse` of what `ToJson` writes of complete measurements whose values are texts gives the
-- measurements back, each timestamp moved to the front, if the parser hands out the keys and texts of
-- the document whole and consumes it without an error.
pub parse-to_json :
    (serialize : List JsonObject → Str) (p : BasicParser) (ms : List Measurement)
    → All IsTextual ms
    → p.calls (to_json serialize ms) ≡ array_calls (map measurement_object ms)
    → p.ending (to_json serialize ms) (length (p.calls (to_json serialize ms)))
      ≡ (length (to_json serialize ms), none)
    → (st : ParsingState) × (parse parser_callback p (to_json serialize ms) initial
        ≡ (ok (true, []), some st))
      × (st.measurements ≡ arranged [] ms)
unfolding parse
parse-to_json serialize p ms a calls whole =
    let (last, fed) = array_feed ms a in
    (
      between (arranged [] ms) last,
      ap (λ cs. finish_parse p (to_json serialize ms) (feed parser_callback cs 0 (some initial)))
            calls
          ∙ ap (finish_parse p (to_json serialize ms)) fed
          ∙ finish_whole p (to_json serialize ms) _ _ (
              subst
                (λ cs.
                  p.ending (to_json serialize ms) (length cs)
                  ≡ (length (to_json serialize ms), none))
                calls whole),
      refl,
    )
