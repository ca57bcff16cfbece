-- ===== src/Parser.antt =====
-- src/parsing/json_parser.hpp: the handler that passes the calls of Boost's `basic_parser` on to a
-- callback, and `Parse`. The parser itself is not code of this repository: it is a parameter, which
-- says of a text the handler's methods that it calls, in order, and how a parse ends.
mod Tests
pub mod Door
pub mod Reading
pub mod Members
pub mod RoundTrip
pub mod Refused
pub mod Passed
use qds_data_interface.Prelude.{
  ◌≡◌, ◌⊎◌, inl, inr, refl, ℕ, suc, Bool, true, false, Option, none, some, List, [], ◌∷◌, ◌++◌,
  length, ltb, if◌then◌else◌,
}
use qds_data_interface.Prelude.Int.{ℤ}
use qds_data_interface.Prelude.Str.{Str, str}
use qds_data_interface.Exception.{Exec, Result, ok, thrown}
use qds_data_interface.Validator.{
  ParserEvent, on_object_begin, on_object_end, on_key, on_string, on_int64, on_uint64, on_double,
  on_bool,
}

-- The calls of the handler's methods, with the arguments that the handler reads.
pub data HandlerCall : Type 0 where
  key_call string_call : Str → HandlerCall
  int64_call : ℤ → Str → HandlerCall
  uint64_call double_call : ℕ → Str → HandlerCall
  bool_call : Bool → HandlerCall
  object_begin_call object_end_call : HandlerCall
  document_begin_call document_end_call array_begin_call array_end_call null_call : HandlerCall
  key_part_call string_part_call number_part_call comment_part_call comment_call : Str → HandlerCall

-- What a method does: pass an event on and go on, go on, or stop the parser by `return false`.
pub data Reaction : Type 0 where
  pass_on : ParserEvent → Reaction
  go_on stop : Reaction

unfoldable pub react : HandlerCall → Reaction
react (key_call s) = pass_on (on_key s)
react (string_call s) = pass_on (on_string s)
react (int64_call n s) = pass_on (on_int64 n s)
react (uint64_call n s) = pass_on (on_uint64 n s)
react (double_call d s) = pass_on (on_double d s)
react (bool_call b) = pass_on (on_bool b (if b then str "true" else str "false"))
react object_begin_call = pass_on on_object_begin
react object_end_call = pass_on on_object_end
react null_call = stop
react _ = go_on

-- `write_some` on a whole text.
pub record BasicParser : Type 0 where
  -- The methods that are called if none of them stops the parser.
  pub calls : Str → List HandlerCall
  -- How many characters were consumed, and the message of the error code if there is one, where the
  -- parser ends behind so many calls.
  pub ending : Str → ℕ → ℕ × Option Str
  -- The message of `boost::json::error::extra_data`.
  pub extra_data : Str

-- The error code after `Parse`'s own test for extra data.
unfoldable pub final_error : BasicParser → Str → ℕ × Option Str → Option Str
final_error p text (n, some message) = some message
final_error p text (n, none) = if ltb n (length text) then some p.extra_data else none

unfoldable pub parse_result : Option Str → Bool × Str
parse_result none = (true, [])
parse_result (some message) = (false, str "Parsing error: " ++ message)

-- What `Parse` makes of the end of `write_some`; an exception passes through it.
unfoldable pub finish_parse :
    {S : Type 0} → BasicParser → Str → Result ℕ × Option S → Result (Bool × Str) × Option S
finish_parse p text (ok n, s) = (ok (parse_result (final_error p text (p.ending text n))), s)
finish_parse p text (thrown e, s) = (thrown e, s)

module _ {S : Type 0} (callback : ParserEvent → Exec (Option S) Unit) where
  -- The calls, until a method returns false or the callback throws; the number of calls made.
  unfoldable pub feed : List HandlerCall → ℕ → Exec (Option S) ℕ
  feed [] n s = (ok n, s)
  feed (c ∷ cs) n s = elim (react c) [
    | pass_on event ↦ elim (callback event s).0 [
      | ok done ↦ feed cs (suc n) (callback event s).1
      | thrown e ↦ (thrown e, (callback event s).1)
    ]
    | go_on ↦ feed cs (suc n) s
    | stop ↦ (ok (suc n), s)
  ]

  -- `Parse`: the state is set for the parse and taken back after it, which a throw skips.
  unfoldable pub parse : BasicParser → Str → S → Result (Bool × Str) × Option S
  parse p text state = finish_parse p text (feed (p.calls text) 0 (some state))

pub Reaction-cases :
    (r : Reaction) → ((e : ParserEvent) × (r ≡ pass_on e)) ⊎ ((r ≡ go_on) ⊎ (r ≡ stop))
Reaction-cases (pass_on e) = inl (e, refl)
Reaction-cases go_on = inr (inl refl)
Reaction-cases stop = inr (inr refl)
