-- ===== src/Validator/Throws.antt =====
-- The exceptions that a parse throws, src/parsing/data_validator.cpp under src/parsing/json_parser.hpp.
use qds_data_interface.Prelude.{
  ℕ, suc, Option, none, some, List, [], ◌∷◌, ◌≡◌, inl, inr, refl, arith, subst, is_empty,
  Bool-cases, Option-cases,
}
use qds_data_interface.Prelude.Str.{Str}
use qds_data_interface.Exception.{Result-cases, parsing, Result, ok, thrown}
use qds_data_interface.Measurement.{Measurement}
use qds_data_interface.Validator.{
  ParserEvent, on_object_begin, on_object_end, on_key, Key, name_key, type_key, unit_key, value_key,
  decimals_key, ParsingState, parsing_exception, Verdict, accepted, moved_to_front, mismatched,
  refused, check_value, conclude, is_not_set, is_blank, finish_measurement, current,
  handle_object_begin, handle_object_end, find_key, validation, handle_key,
}
use qds_data_interface.Validator.Values.{
  wrong_type, set_type, validate, run_validator, store_value, handle_value, dispatch,
  parser_callback,
}
use qds_data_interface.Parser.{
  Reaction-cases, HandlerCall, react, feed, BasicParser, finish_parse, parse,
}

-- Whatever is thrown is a `ParsingException`.
abbrev pub ThrowsParsing : {A : Type 0} → Result A → Type 0
ThrowsParsing (ok a) = Unit
ThrowsParsing (thrown e) = e.class ≡ parsing

conclude-ThrowsParsing :
    (v : Verdict) (name : Str) (st : ParsingState) → ThrowsParsing (conclude v name st).0
unfolding conclude parsing_exception
conclude-ThrowsParsing accepted name st = tt
conclude-ThrowsParsing moved_to_front name st = tt
conclude-ThrowsParsing mismatched name st = refl
conclude-ThrowsParsing (refused m) name st = refl

finish-ThrowsParsing :
    (d : Measurement) (st : ParsingState) → ThrowsParsing (finish_measurement d st).0
unfolding finish_measurement parsing_exception
finish-ThrowsParsing d st = elim (Bool-cases (is_empty d.name)) [
  | inl e ↦ rw (e, finish_measurement) refl
  | inr e ↦ elim (Bool-cases (is_not_set d.type)) [
    | inl n ↦ rw (e, n, finish_measurement) refl
    | inr n ↦ elim (Bool-cases (is_blank d.value)) [
      | inl b ↦ rw (e, n, b, finish_measurement) refl
      | inr b ↦
          rw (e, n, b, finish_measurement)
            (conclude-ThrowsParsing (check_value d.type d.value) d.name st)
    ]
  ]
]

object_end-ThrowsParsing : (st : ParsingState) → ThrowsParsing (handle_object_end st).0
unfolding handle_object_end parsing_exception
object_end-ThrowsParsing st = elim (Option-cases (current st)) [
  | inl e ↦ rw (e, handle_object_end) refl
  | inr (d, e) ↦ rw (e, handle_object_end) (finish-ThrowsParsing d st)
]

key-ThrowsParsing : (s : Str) (st : ParsingState) → ThrowsParsing (handle_key s st).0
unfolding handle_key parsing_exception
key-ThrowsParsing s st = elim (Option-cases (current st)) [
  | inl e ↦ rw (e, handle_key) refl
  | inr (d, e) ↦ elim (Option-cases (find_key s validation)) [
    | inl f ↦ rw (e, f, handle_key) refl
    | inr (k, f) ↦ rw (e, f, handle_key) tt
  ]
]

type-ThrowsParsing : (event : ParserEvent) (d : Measurement) → ThrowsParsing (set_type event d)
unfolding set_type parsing_exception
type-ThrowsParsing event d = ground arith

validate-ThrowsParsing :
    (k : Key) (event : ParserEvent) (d : Measurement) → ThrowsParsing (validate k event d)
unfolding validate wrong_type parsing_exception
validate-ThrowsParsing name_key event d = ground arith
validate-ThrowsParsing type_key event d = ground (arith, type-ThrowsParsing event d)
validate-ThrowsParsing unit_key event d = ground arith
validate-ThrowsParsing value_key event d = ground arith
validate-ThrowsParsing decimals_key event d = tt

store-ThrowsParsing :
    (r : Result Measurement) (st : ParsingState)
    → ThrowsParsing r
    → ThrowsParsing (store_value r st).0
unfolding store_value
store-ThrowsParsing (ok d) st h = tt
store-ThrowsParsing (thrown e) st h = h

run-ThrowsParsing :
    (v : Option Key) (event : ParserEvent) (d : Measurement)
    → ThrowsParsing (run_validator v event d)
unfolding run_validator
run-ThrowsParsing none event d = tt
run-ThrowsParsing (some k) event d = validate-ThrowsParsing k event d

value-ThrowsParsing :
    (event : ParserEvent) (st : ParsingState) → ThrowsParsing (handle_value event st).0
unfolding handle_value parsing_exception
value-ThrowsParsing event st = elim (Option-cases (current st)) [
  | inl e ↦ rw (e, handle_value) refl
  | inr (d, e) ↦ elim (Bool-cases st.has_key) [
    | inr n ↦ rw (e, n, handle_value) refl
    | inl y ↦
        rw (e, y, handle_value) (store-ThrowsParsing _ _ (run-ThrowsParsing st.validator event d))
  ]
]

pub callback-ThrowsParsing :
    (event : ParserEvent) (s : Option ParsingState) → ThrowsParsing (parser_callback event s).0
unfolding parser_callback dispatch handle_object_begin parsing_exception
callback-ThrowsParsing event none = refl
callback-ThrowsParsing on_object_begin (some st) = tt
callback-ThrowsParsing on_object_end (some st) = object_end-ThrowsParsing st
callback-ThrowsParsing (on_key s) (some st) = key-ThrowsParsing s st
callback-ThrowsParsing event (some st) = value-ThrowsParsing event st

feed-ThrowsParsing :
    (cs : List HandlerCall) (n : ℕ) (s : Option ParsingState)
    → ThrowsParsing (feed parser_callback cs n s).0
unfolding feed
feed-ThrowsParsing [] n s = tt
feed-ThrowsParsing (c ∷ cs) n s = elim (Reaction-cases (react c)) [
  | inl (event, e) ↦ elim (Result-cases (parser_callback event s).0) [
    | inl (done, f) ↦ rw (e, f, feed) (feed-ThrowsParsing cs (suc n) (parser_callback event s).1)
    | inr (x, f) ↦ rw (e, f, feed) (subst ThrowsParsing f (callback-ThrowsParsing event s))
  ]
  | inr (inl e) ↦ rw (e, feed) (feed-ThrowsParsing cs (suc n) s)
  | inr (inr e) ↦ rw (e, feed) tt
]

finish_parse-ThrowsParsing :
    (p : BasicParser) (text : Str) (r : Result ℕ × Option ParsingState)
    → ThrowsParsing r.0
    → ThrowsParsing (finish_parse p text r).0
unfolding finish_parse
finish_parse-ThrowsParsing p text (ok n, s) h = tt
finish_parse-ThrowsParsing p text (thrown e, s) h = h

pub parse-ThrowsParsing :
    (p : BasicParser) (text : Str) (st : ParsingState)
    → ThrowsParsing (parse parser_callback p text st).0
unfolding parse
parse-ThrowsParsing p text st =
    finish_parse-ThrowsParsing p text _ (feed-ThrowsParsing (p.calls text) 0 (some st))
