-- ===== src/Source/Added.antt =====
-- `Add` from the text to the ring buffer, src/data_source_internal.cpp.
use qds_data_interface.Prelude.{
  ℕ, Bool, true, Option, none, some, List, [], ◌∷◌, ◌++◌, ◌≡◌, inl, inr, refl, ◌∙◌, ap, All,
  Bool-cases,
}
use qds_data_interface.Prelude.Int.{ℤ, pos, negsuc}
use qds_data_interface.Prelude.Str.{Str}
use qds_data_interface.Exception.{Result-cases, Result, ok, thrown, ◌>>=◌}
use qds_data_interface.Measurement.{Measurement}
use qds_data_interface.Types.{BufferEntry}
use qds_data_interface.Ring
use qds_data_interface.Ring.{World, push_back, after_discard}
use qds_data_interface.Ring.Push.{insert_cases, push_cases}
use qds_data_interface.Ring.Stored.{stored}
use qds_data_interface.Validator.{ParsingState, initial}
use qds_data_interface.Validator.Values.{parser_callback}
use qds_data_interface.Validator.Typed.{IsTyped, All-IsTyped}
use qds_data_interface.Validator.Complete.{IsComplete}
use qds_data_interface.Validator.Parsed.{NeverStops, opened, closed, parse-IsComplete}
use qds_data_interface.Parser.{BasicParser, parse}
use qds_data_interface.Source.{
  ReferenceContainer, ContainerLaws, FileSystem, DataSource, Mapping, Config,
}
use qds_data_interface.Source.Refs.{process_ref_mapping}
use qds_data_interface.Source.Operations.{
  add, add_parsed, push_or_forget, push_measurements, parsed,
}
use qds_data_interface.Source.Owned.{on_delete}
use qds_data_interface.Source.Settle.{push_or_forget_rule}
use qds_data_interface.Source.Mapped.{process-IsComplete}

module _ {C F : Type 0} (refs : ReferenceContainer C) (laws : ContainerLaws refs)
    (fs : FileSystem F) (time : ℕ → ℕ) (config : Config) (id : ℤ) where
  -- The last entry is an unlocked one of this id with these measurements.
  abbrev pub EndsWith : List Measurement → List BufferEntry → Type 0
  EndsWith ms es =
      (before : List BufferEntry) × ((t : ℕ) × (es ≡ before ++ stored time id ms t ∷ []))

  abbrev pub Last : List Measurement → Result ℤ × World (Mapping C) → Type 0
  Last ms (ok (pos n), w) = EndsWith ms w.ring.buffer
  Last ms (ok (negsuc n), w) = Unit
  Last ms (thrown e, w) = Unit

  push_back-Last :
      (ms : List Measurement) (w : World (Mapping C))
      → EndsWith ms (push_back time id ms w).ring.buffer
  unfolding push_back
  push_back-Last ms w = (w.ring.buffer, (w.readings, refl))

  insert-Last :
      (ms : List Measurement) (n : ℕ) (w : World (Mapping C))
      → Last ms (Ring.insert time (on_delete refs laws config time) id ms n w)
  insert-Last ms n w =
      insert_cases time (on_delete refs laws config time) (Last ms) id ms n w (λ _ _. tt)
        (λ _ _. push_back-Last ms w) (λ _ _. tt) (λ _ _ _ _. push_back-Last ms _)

  push-Last :
      (ms : List Measurement) (w : World (Mapping C))
      → Last ms (Ring.push time (on_delete refs laws config time) id ms w)
  push-Last ms w =
      push_cases time (on_delete refs laws config time) (Last ms) id ms w (λ _ _. tt) (λ _ _ _. tt)
        (λ _ _ _. insert-Last ms _ _) (λ _. insert-Last ms 0 w)

  abbrev pub LastData : List Measurement → Result ℤ × DataSource C F → Type 0
  LastData ms p = Last ms (p.0, p.1.world)

  pub push_or_forget-Last :
      (ms : List Measurement) (ds : DataSource C F)
      → LastData ms (push_or_forget refs fs time config id ms ds)
  unfolding push_measurements
  push_or_forget-Last ms ds =
      push_or_forget_rule refs fs time config id (LastData ms) (LastData ms) (λ n ds' h. h)
        (λ n ds' h. tt) (λ e ds' h. tt) ms ds (push-Last ms ds.world)

  pub last_entry :
      (ms : List Measurement) (n : ℕ) (p : Result ℤ × DataSource C F)
      → LastData ms p
      → p.0 ≡ ok (pos n)
      → EndsWith ms p.1.world.ring.buffer
  last_entry ms n (ok (pos m), ds) l e = l
  last_entry ms n (ok (negsuc m), ds) l e = cc e
  last_entry ms n (thrown x, ds) l e = cc e

  abbrev pub EndsComplete : DataSource C F → Type 0
  EndsComplete ds = (ms : List Measurement) × All IsComplete ms × EndsWith ms ds.world.ring.buffer

  add_parsed-EndsComplete :
      (ms : List Measurement) (n : ℕ) (ds : DataSource C F)
      → All IsComplete ms
      → (add_parsed refs fs time config id ms ds).0 ≡ ok (pos n)
      → EndsComplete (add_parsed refs fs time config id ms ds).1
  unfolding add_parsed
  add_parsed-EndsComplete ms n ds a = elim (Result-cases (process_ref_mapping refs fs id ms ds).0) [
    | inr (x, e) ↦ rw (e, add_parsed, ◌>>=◌) (λ h. cc h)
    | inl (ms', e) ↦
        rw (e, add_parsed, ◌>>=◌)
          (λ h. (
            ms',
            process-IsComplete refs fs id ms ms' ds e a,
            last_entry ms' n
                (push_or_forget refs fs time config id ms' (process_ref_mapping refs fs id ms ds).1)
                (push_or_forget-Last ms' _) h,
          ))
  ]

  pub parsed-IsComplete :
      (p : BasicParser) (json message : Str) (r : Result (Bool × Str) × Option ParsingState)
      → NeverStops (p.calls json)
      → opened (p.calls json) ≡ closed (p.calls json)
      → parse parser_callback p json initial ≡ r
      → r.0 ≡ ok (true, message)
      → All IsComplete (parsed r.1)
  unfolding parsed
  parsed-IsComplete p json message (a, none) s b e g = tt
  parsed-IsComplete p json message (a, some st) s b e g =
      parse-IsComplete p json message st s b (e ∙ ap (λ x. (x, some st)) g)

  add-EndsComplete :
      (p : BasicParser) (json : Str) (n : ℕ) (ds : DataSource C F)
      → NeverStops (p.calls json)
      → opened (p.calls json) ≡ closed (p.calls json)
      → (add refs fs time config p id json ds).0 ≡ ok (pos n)
      → EndsComplete (add refs fs time config p id json ds).1
  unfolding add
  add-EndsComplete p json n ds s b = elim (Result-cases (parse parser_callback p json initial).0) [
    | inr (x, e) ↦ rw (e, add) (λ h. cc h)
    | inl ((good, message), e) ↦ elim (Bool-cases good) [
      | inr f ↦ rw (e, f, add) (λ h. cc h)
      | inl t ↦
          rw (e, t, add)
            (add_parsed-EndsComplete _ n ds
              (parsed-IsComplete p json message _ s b refl (e ∙ ap (λ g. ok (g, message)) t)))
    ]
  ]

  -- The last entry is of this id, unlocked, and of typed measurements.
  abbrev pub EndsTyped : DataSource C F → Type 0
  EndsTyped ds = (ms : List Measurement) × All IsTyped ms × EndsWith ms ds.world.ring.buffer

  -- If the text has no null and closes its objects, and `Add` returns a number of deletions, then the
  -- last entry of the buffer is an unlocked one of this id whose measurements all have a name, a type
  -- and a value of that type, or one that is too small for it: an INTEGER below the least of 32 bits,
  -- or a FLOAT that is below the least float or no number.
  pub add-EndsTyped :
      (p : BasicParser) (json : Str) (n : ℕ) (ds : DataSource C F)
      → NeverStops (p.calls json)
      → opened (p.calls json) ≡ closed (p.calls json)
      → (add refs fs time config p id json ds).0 ≡ ok (pos n)
      → EndsTyped (add refs fs time config p id json ds).1
  add-EndsTyped p json n ds s b h =
      let (ms, a, e) = add-EndsComplete p json n ds s b h in (ms, All-IsTyped ms a, e)
