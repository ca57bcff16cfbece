-- ===== src/Parser/Passed.antt =====
-- What `Parse` of src/parsing/json_parser.hpp makes of the calls of the handler's methods.
use qds_data_interface.Prelude.{
  true, false, ℕ, suc, Option, some, List, [], ◌∷◌, ◌≡◌, ◌↔◌, inl, inr, refl, subst,
}
use qds_data_interface.Prelude.Str.{Str, str}
use qds_data_interface.Exception.{Exception, Exec, Result, ok, thrown, Result-cases}
use qds_data_interface.Validator.{
  ParserEvent, on_object_begin, on_object_end, on_key, on_string, on_int64, on_uint64, on_double,
  on_bool,
}
use qds_data_interface.Parser.{
  HandlerCall, key_call, string_call, int64_call, uint64_call, double_call, bool_call,
  object_begin_call, object_end_call, null_call, document_begin_call, document_end_call,
  array_begin_call, array_end_call, key_part_call, string_part_call, number_part_call,
  comment_part_call, comment_call, Reaction, pass_on, go_on, stop, react, Reaction-cases,
  BasicParser, feed, finish_parse, parse,
}

-- The events that calls come to, up to a null, which stops the parser: the ends of arrays and
-- documents, comments, and parts come to none.
unfoldable pub passed : List HandlerCall → List ParserEvent
passed [] = []
passed (key_call s ∷ cs) = on_key s ∷ passed cs
passed (string_call s ∷ cs) = on_string s ∷ passed cs
passed (int64_call n s ∷ cs) = on_int64 n s ∷ passed cs
passed (uint64_call n s ∷ cs) = on_uint64 n s ∷ passed cs
passed (double_call d s ∷ cs) = on_double d s ∷ passed cs
passed (bool_call true ∷ cs) = on_bool true (str "true") ∷ passed cs
passed (bool_call false ∷ cs) = on_bool false (str "false") ∷ passed cs
passed (object_begin_call ∷ cs) = on_object_begin ∷ passed cs
passed (object_end_call ∷ cs) = on_object_end ∷ passed cs
passed (null_call ∷ cs) = []
passed (document_begin_call ∷ cs) = passed cs
passed (document_end_call ∷ cs) = passed cs
passed (array_begin_call ∷ cs) = passed cs
passed (array_end_call ∷ cs) = passed cs
passed (key_part_call s ∷ cs) = passed cs
passed (string_part_call s ∷ cs) = passed cs
passed (number_part_call s ∷ cs) = passed cs
passed (comment_part_call s ∷ cs) = passed cs
passed (comment_call s ∷ cs) = passed cs

-- What the handler's method passes on, before the events of the calls behind it.
abbrev reacted : Reaction → List ParserEvent → List ParserEvent
reacted (pass_on e) es = e ∷ es
reacted go_on es = es
reacted stop es = []

passed-react :
    (c : HandlerCall) (cs : List HandlerCall) → passed (c ∷ cs) ≡ reacted (react c) (passed cs)
unfolding passed react
passed-react (bool_call true) cs = refl
passed-react (bool_call false) cs = refl
passed-react c cs = refl

-- The result of a parse but for the number of calls.
abbrev erased : {X : Type 0} → Result ℕ × X → Result {0} Unit × X
erased (ok n, s) = (ok tt, s)
erased (thrown e, s) = (thrown e, s)

module _ {S : Type 0} (callback : ParserEvent → Exec (Option S) Unit) where
  -- The callback on one event after the other, until it throws.
  unfoldable pub run : List ParserEvent → Exec (Option S) Unit
  run [] s = (ok tt, s)
  run (e ∷ es) s = elim (callback e s).0 [
    | ok done ↦ run es (callback e s).1
    | thrown x ↦ (thrown x, (callback e s).1)
  ]

  feed-run :
      (cs : List HandlerCall) (n : ℕ) (s : Option S)
      → erased (feed callback cs n s) ≡ run (passed cs) s
  unfolding feed run
  feed-run [] n s = unfold passed in refl
  feed-run (c ∷ cs) n s = elim (Reaction-cases (react c)) [
    | inl (e, r) ↦ elim (Result-cases (callback e s).0) [
      | inl (done, o) ↦
          rw (passed-react c cs, r, o, erased, feed, run) (feed-run cs (suc n) (callback e s).1)
      | inr (x, t) ↦ rw (passed-react c cs, r, t, erased, feed, run) refl
    ]
    | inr (inl g) ↦ rw (passed-react c cs, g, erased, feed) (feed-run cs (suc n) s)
    | inr (inr t) ↦ rw (passed-react c cs, t, erased, feed, run) refl
  ]

  finished :
      (p : BasicParser) (text : Str) (r : Result ℕ × Option S)
      → ((finish_parse p text r).1 ≡ (erased r).1)
        × ((e : Exception) → ((finish_parse p text r).0 ≡ thrown e) ↔ ((erased r).0 ≡ thrown e))
  unfolding finish_parse
  finished p text (ok n, s) = (refl, λ e. ((λ h. cc h), (λ h. cc h)))
  finished p text (thrown x, s) = (refl, λ e. ((λ h. cc h), (λ h. cc h)))

  -- The state that `Parse` leaves, and the exception that it lets through, are those of the events
  -- alone: the ends of arrays and documents, comments, and the parts of a key, a text or a number
  -- that is delivered in several, have no effect.
  pub parse-passed :
      (p : BasicParser) (text : Str) (state : S)
      → ((parse callback p text state).1 ≡ (run (passed (p.calls text)) (some state)).1)
        × ((e : Exception)
            → ((parse callback p text state).0 ≡ thrown e)
              ↔ ((run (passed (p.calls text)) (some state)).0 ≡ thrown e))
  unfolding parse
  parse-passed p text state =
      subst
        (λ r.
          ((parse callback p text state).1 ≡ r.1)
          × ((e : Exception) → ((parse callback p text state).0 ≡ thrown e) ↔ (r.0 ≡ thrown e)))
        (feed-run (p.calls text) 0 (some state))
        (finished p text (feed callback (p.calls text) 0 (some state)))
