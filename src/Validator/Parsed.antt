-- ===== src/Validator/Parsed.antt =====
-- What a successful parse has made, src/parsing/json_parser.hpp over src/parsing/data_validator.cpp.
use native.Mathlib.Nat.{zero-add}
use qds_data_interface.Prelude.{
  ℕ, suc, ◌+◌, Bool, true, Option, none, some, List, [], ◌∷◌, ◌≡◌, ◌≢◌, inl, inr, refl, subst, ap,
  arith, All, Bool-cases,
}
use qds_data_interface.Prelude.Str.{Str}
use qds_data_interface.Exception.{Result-cases, Exception, Result, ok, thrown}
use qds_data_interface.Validator.{
  ParserEvent, on_object_begin, on_object_end, on_key, ParsingState, initial, check_value,
  handle_object_end,
}
use qds_data_interface.Validator.Values.{dispatch, parser_callback}
use qds_data_interface.Validator.Complete.{IsComplete, object_end_outcome}
use qds_data_interface.Validator.Objects.{
  incomplete-zero, Counted, begin-Counted, ended-Counted, key-Counted, value-Counted,
}
use qds_data_interface.Parser.{
  Reaction-cases, HandlerCall, Reaction, pass_on, go_on, stop, react, feed, BasicParser,
  finish_parse, parse,
}

abbrev begins : Reaction → ℕ
begins (pass_on on_object_begin) = 1
begins _ = 0

abbrev ends : Reaction → ℕ
ends (pass_on on_object_end) = 1
ends _ = 0

-- The objects that the calls open and close.
unfoldable pub opened : List HandlerCall → ℕ
opened [] = 0
opened (c ∷ cs) = begins (react c) + opened cs

unfoldable pub closed : List HandlerCall → ℕ
closed [] = 0
closed (c ∷ cs) = ends (react c) + closed cs

-- No call stops the parser: the text has no `null`.
abbrev pub NeverStops : List HandlerCall → Type 0
NeverStops = All (λ c. react c ≢ stop)

-- The event keeps the count, with what it opens and closes.
abbrev Keeps : ParserEvent → ℕ → ℕ → ParsingState → Type 0
Keeps event o c st =
    (dispatch event st).0 ≡ ok tt
    → Counted (begins (pass_on event) + o) (ends (pass_on event) + c) (dispatch event st).1

one_more : (n : ℕ) → 1 + n ≡ suc n
one_more n = omega arith

end-Counted :
    (o c : ℕ) (st : ParsingState)
    → Counted o c st
    → (handle_object_end st).0 ≡ ok tt
    → Counted o (suc c) (handle_object_end st).1
end-Counted o c st k h = elim (object_end_outcome st) [
  | inl (d, p, w, q) ↦ rw q (ended-Counted o c st d (check_value d.type d.value) k p w)
  | inr (e, w, q) ↦ cc (h, ap (λ r. r.0) q)
]

same_count : (o c : ℕ) (st : ParsingState) → Counted o c st → Counted (0 + o) (0 + c) st
same_count o c st k = rw (zero-add, zero-add) k

dispatch-Counted :
    (o c : ℕ) (event : ParserEvent) (st : ParsingState) → Counted o c st → Keeps event o c st
unfolding dispatch
dispatch-Counted o c on_object_begin st k h = rw (one_more o, zero-add) (begin-Counted o c st k)
dispatch-Counted o c on_object_end st k h = rw (one_more c, zero-add) (end-Counted o c st k h)
dispatch-Counted o c (on_key s) st k h = same_count o c _ (key-Counted o c s st k)
dispatch-Counted o c event st k h = same_count o c _ (value-Counted o c event st k)

-- What is fed without a throw keeps the count.
abbrev Fed : List HandlerCall → ℕ → ℕ → Result ℕ × Option ParsingState → Type 0
Fed cs o c (ok n, some st) = Counted (opened cs + o) (closed cs + c) st
Fed cs o c (ok n, none) = ⊥
Fed cs o c (thrown e, s) = Unit

module _ (x : HandlerCall) (cs : List HandlerCall) (n : ℕ) (st : ParsingState) where
  pub feed_go_on :
      react x ≡ go_on
      → feed parser_callback (x ∷ cs) n (some st) ≡ feed parser_callback cs (suc n) (some st)
  unfolding feed
  feed_go_on g = rw (g, feed)

  pub feed_passed :
      (e : ParserEvent)
      → react x ≡ pass_on e
      → (dispatch e st).0 ≡ ok tt
      → feed parser_callback (x ∷ cs) n (some st)
        ≡ feed parser_callback cs (suc n) (some (dispatch e st).1)
  unfolding feed parser_callback
  feed_passed e p h = rw (p, h, feed)

  pub feed_thrown :
      (e : ParserEvent) (error : Exception)
      → react x ≡ pass_on e
      → (dispatch e st).0 ≡ thrown error
      → feed parser_callback (x ∷ cs) n (some st) ≡ (thrown error, some (dispatch e st).1)
  unfolding feed parser_callback
  feed_thrown e error p h = rw (p, h, feed)

-- The counts of one more call.
Fed-cons :
    (x : HandlerCall) (cs : List HandlerCall) (o c : ℕ) (r : Result ℕ × Option ParsingState)
    → Fed cs (begins (react x) + o) (ends (react x) + c) r
    → Fed (x ∷ cs) o c r
unfolding opened closed
Fed-cons x cs o c (ok n, some st) h =
    rw (move (begins (react x)) (opened cs) o, move (ends (react x)) (closed cs) c) h
  where
    move : (a b d : ℕ) → a + b + d ≡ b + (a + d)
    move a b d = omega arith
Fed-cons x cs o c (ok n, none) h = h
Fed-cons x cs o c (thrown e, s) h = tt

feed-Counted :
    (cs : List HandlerCall) (n o c : ℕ) (st : ParsingState)
    → NeverStops cs
    → Counted o c st
    → Fed cs o c (feed parser_callback cs n (some st))
feed-Counted [] n o c st a k = unfold feed opened closed in same_count o c st k
feed-Counted (x ∷ cs) n o c st a k = Fed-cons x cs o c _ (elim (Reaction-cases (react x)) [
  | inl (e, p) ↦ elim (Result-cases (dispatch e st).0) [
    | inl (done, h) ↦
        rw (feed_passed x cs n st e p h, p)
          (feed-Counted cs (suc n) _ _ (dispatch e st).1 a.1 (dispatch-Counted o c e st k h))
    | inr (error, h) ↦ rw (feed_thrown x cs n st e error p h) tt
  ]
  | inr (inl g) ↦
      rw (feed_go_on x cs n st g, g) (feed-Counted cs (suc n) _ _ st a.1 (same_count o c st k))
  | inr (inr s) ↦ absurd (a.0 s)
])

-- A document whose objects are closed, parsed without an exception, leaves complete measurements
-- alone.
balanced-IsComplete :
    (o c : ℕ) (st : ParsingState) → o ≡ c → Counted o c st → All IsComplete st.measurements
balanced-IsComplete o c st e k = elim (Bool-cases st.current_element_completed) [
  | inl t ↦ incomplete-zero st.measurements (omega (arith, k.between t))
  | inr f ↦ elim (k.within f) [ inl n ↦ rw n tt | inr l ↦ absurd (omega arith) ]
]

finished :
    (p : BasicParser) (json : Str) (cs : List HandlerCall) (o c : ℕ) (answer : Bool × Str)
    (r : Result ℕ × Option ParsingState) (st : ParsingState)
    → Fed cs o c r
    → finish_parse p json r ≡ (ok answer, some st)
    → Counted (opened cs + o) (closed cs + c) st
unfolding finish_parse
finished p json cs o c answer (ok n, some st') st f h =
    subst (Counted (opened cs + o) (closed cs + c)) (cc (ap (λ r. r.1) h)) f
finished p json cs o c answer (ok n, none) st f h = absurd f
finished p json cs o c answer (thrown e, s) st f h = cc (ap (λ r. r.0) h)

Counted-initial : Counted 0 0 initial
unfolding initial
Counted-initial = record { ordered = omega arith; between = λ h. cc; within = λ h. inl refl }

-- If `Parse` reports success on a text whose objects are all closed and that has no null, then every
-- measurement in the state has a name, a type and a value of that type.
pub parse-IsComplete :
    (p : BasicParser) (json : Str) (message : Str) (st : ParsingState)
    → NeverStops (p.calls json)
    → opened (p.calls json) ≡ closed (p.calls json)
    → parse parser_callback p json initial ≡ (ok (true, message), some st)
    → All IsComplete st.measurements
unfolding parse
parse-IsComplete p json message st a e h = balanced-IsComplete _ _ st (ap (λ n. n + 0) e) (
    finished p json (p.calls json) 0 0 _ _ st
      (feed-Counted (p.calls json) 0 0 0 initial a Counted-initial) h)
