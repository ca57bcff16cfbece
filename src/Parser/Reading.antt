-- ===== src/Parser/Reading.antt =====
-- The parse of what `Measurement::ToJson` has written: include/measurement.hpp,
-- src/parsing/json_parser.hpp and src/parsing/data_validator.cpp.
use qds_data_interface.Prelude.{
  ℕ, suc, ◌+◌, Bool, true, false, none, some, List, [], ◌∷◌, ◌++◌, ◌≡◌, refl, ◌∙◌, ap, arith,
  length, back-append, Option,
}
use qds_data_interface.Prelude.Str.{Str}
use qds_data_interface.Exception.{ok}
use qds_data_interface.Measurement.{
  Measurement, MeasurementType, not_set, Value, blank, text, type_to_string, blank_measurement,
  set_type_from_string,
}
use qds_data_interface.Measurement.Names.{type_from_string-type_to_string}
use qds_data_interface.Measurement.Json.{JsonObject}
use qds_data_interface.Validator.{
  ParserEvent, on_key, on_string, ParsingState, Key, name_key, type_key, unit_key, value_key,
  validation, find_key, current, handle_key, update_back, is_not_set, is_blank,
}
use qds_data_interface.Validator.Values.{
  dispatch, parser_callback, handle_value, run_validator, store_value, validate, set_type,
  set_value, event_value,
}
use qds_data_interface.Validator.Parsed.{feed_passed}
use qds_data_interface.Parser.{
  pass_on, HandlerCall, key_call, string_call, object_begin_call, object_end_call,
  document_begin_call, document_end_call, array_begin_call, array_end_call, react, feed,
}

-- The calls for an object of texts, and for a document that is an array of such objects.
unfoldable pub member_calls : JsonObject → List HandlerCall → List HandlerCall
member_calls [] cs = cs
member_calls ((k, v) ∷ o) cs = key_call k ∷ string_call v ∷ member_calls o cs

unfoldable pub object_calls : List JsonObject → List HandlerCall → List HandlerCall
object_calls [] cs = cs
object_calls (o ∷ os) cs = object_begin_call ∷ member_calls o (object_end_call ∷ object_calls os cs)

abbrev pub array_calls : List JsonObject → List HandlerCall
array_calls os =
    document_begin_call
    ∷ array_begin_call
    ∷ object_calls os (array_end_call ∷ document_end_call ∷ [])

update_back-append :
    (acc : List Measurement) (d : Measurement) (f : Measurement → Measurement)
    → update_back f (acc ++ d ∷ []) ≡ acc ++ f d ∷ []
unfolding update_back
update_back-append [] d f = refl
update_back-append (x ∷ []) d f = refl
update_back-append (x ∷ y ∷ acc) d f = ap (◌∷◌ x) (update_back-append (y ∷ acc) d f)

-- Within an object: the measurement that is being read stands behind those read before.
abbrev pub reading : List Measurement → Measurement → Option Key → Bool → ParsingState
reading acc d v k = record {
  measurements = acc ++ d ∷ [];
  validator = v;
  has_key = k;
  current_element_completed = false;
}

pub current-reading :
    (acc : List Measurement) (d : Measurement) (v : Option Key) (k : Bool)
    → current (reading acc d v k) ≡ some d
unfolding current
current-reading acc d v k = back-append acc d

key-reading :
    (acc : List Measurement) (d : Measurement) (s : Str) (k : Key)
    → find_key s validation ≡ some k
    → dispatch (on_key s) (reading acc d none false) ≡ (ok tt, reading acc d (some k) true)
unfolding dispatch handle_key
key-reading acc d s k e = rw (current-reading acc d none false, e, dispatch, handle_key) refl

value-reading :
    (acc : List Measurement) (d d' : Measurement) (s : Str) (k : Key)
    → validate k (on_string s) d ≡ ok d'
    → dispatch (on_string s) (reading acc d (some k) true) ≡ (ok tt, reading acc d' none false)
unfolding dispatch handle_value run_validator store_value
value-reading acc d d' s k e =
    rw
      (
        current-reading acc d (some k) true,
        e,
        update_back-append acc d (λ _. d'),
        dispatch,
        handle_value,
      )
      refl

-- Feeding `xs` comes to feeding `ys`, with the calls between counted.
abbrev pub Feeds : List HandlerCall → ParsingState → List HandlerCall → ParsingState → Type 0
Feeds xs st ys st' =
    (n : ℕ)
    → (m : ℕ) × (feed parser_callback xs n (some st) ≡ feed parser_callback ys m (some st'))
      × (m + length ys ≡ n + length xs)

pub trans_Feeds :
    (xs ys zs : List HandlerCall) (s t u : ParsingState)
    → Feeds xs s ys t
    → Feeds ys t zs u
    → Feeds xs s zs u
trans_Feeds xs ys zs s t u f g n = let (m, e, a) = f n in let (k, h, b) = g m in (k, e ∙ h, b ∙ a)

pub one-Feeds :
    (x : HandlerCall) (e : ParserEvent) (cs : List HandlerCall) (st st' : ParsingState)
    → react x ≡ pass_on e
    → dispatch e st ≡ (ok tt, st')
    → Feeds (x ∷ cs) st cs st'
one-Feeds x e cs st st' p h n = (
  suc n,
  feed_passed x cs n st e p (ap (λ r. r.0) h)
      ∙ ap (λ r. feed parser_callback cs (suc n) (some r.1)) h,
  omega arith,
)

pub member-Feeds :
    (acc : List Measurement) (d d' : Measurement) (s v : Str) (k : Key) (cs : List HandlerCall)
    → find_key s validation ≡ some k
    → validate k (on_string v) d ≡ ok d'
    → Feeds
        (key_call s ∷ string_call v ∷ cs)
        (reading acc d none false)
        cs
        (reading acc d' none false)
unfolding react
member-Feeds acc d d' s v k cs e f =
    trans_Feeds _ _ cs _ _ _
      (one-Feeds (key_call s) (on_key s) (string_call v ∷ cs) _ _ refl (key-reading acc d s k e))
      (one-Feeds (string_call v) (on_string v) cs _ _ refl (value-reading acc d d' v k f))

abbrev pub measured : Str → MeasurementType → Str → Value → Measurement
measured name t unit v = record { name = name; type = t; unit = unit; value = v }

pub name-valid :
    (name : Str)
    → validate name_key (on_string name) blank_measurement ≡ ok (measured name not_set [] blank)
unfolding validate
name-valid name = refl

pub type-valid :
    (name : Str) (t : MeasurementType)
    → is_not_set t ≡ false
    → validate type_key (on_string (type_to_string t)) (measured name not_set [] blank)
      ≡ ok (measured name t [] blank)
unfolding validate set_type is_not_set set_type_from_string
type-valid name t h = rw (type_from_string-type_to_string t, h) refl

pub unit-valid :
    (name unit : Str) (t : MeasurementType)
    → validate unit_key (on_string unit) (measured name t [] blank)
      ≡ ok (measured name t unit blank)
unfolding validate
unit-valid name unit t = refl

pub value-valid :
    (name unit s : Str) (t : MeasurementType)
    → validate value_key (on_string s) (measured name t unit blank)
      ≡ ok (measured name t unit (text s))
unfolding validate set_value event_value is_blank
value-valid name unit s t = refl
