-- ===== src/Source/Counted.antt =====
-- What `Add` returns in counter mode 0, src/data_source_internal.cpp: the number of entries that it
-- has deleted.
use qds_data_interface.Prelude.{
  ℕ, ◌+◌, true, false, Option, List, [], ◌∷◌, ◌≡◌, inl, inr, subst, ◌∙◌, ap, arith, length,
  length-append, Bool-cases,
}
use qds_data_interface.Prelude.Int.{ℤ, pos, negsuc, ==ℤ_iff}
use qds_data_interface.Prelude.Str.{Str}
use qds_data_interface.Exception.{Result-cases, Result, ok, thrown, ◌>>=◌}
use qds_data_interface.Measurement.{Measurement}
use qds_data_interface.Types.{BufferEntry}
use qds_data_interface.Ring
use qds_data_interface.Ring.{
  World, is_mode_0, push_back, discarded, after_discard, OnDeleteCallback,
}
use qds_data_interface.Ring.Discard.{discard_first, length-unlocked}
use qds_data_interface.Ring.Push.{insert_cases, push_cases, discarded_lem}
use qds_data_interface.Validator.{initial}
use qds_data_interface.Validator.Values.{parser_callback}
use qds_data_interface.Parser.{BasicParser, parse}
use qds_data_interface.Source.{ReferenceContainer, ContainerLaws, FileSystem, DataSource, Config}
use qds_data_interface.Source.Refs.{process_ref_mapping}
use qds_data_interface.Source.Operations
use qds_data_interface.Source.Operations.{add, add_parsed, push_or_forget, push_measurements}
use qds_data_interface.Source.Owned.{on_delete}
use qds_data_interface.Source.Settle.{push_or_forget_rule}
use qds_data_interface.Source.Frame.{process-Untouched}

-- From `size` entries, as many have left as the result says, and one has come.
abbrev Counted : {S : Type 0} → ℕ → Result ℤ × World S → Type 0
Counted size (ok (pos n), w) = length w.ring.buffer + n ≡ size + 1
Counted size (ok (negsuc n), w) = Unit
Counted size (thrown e, w) = Unit

module _ {S : Type 0} (time : ℕ → ℕ) (callback : Option (OnDeleteCallback S)) (id : ℤ)
    (ms : List Measurement) where
  push_back-Counted :
      (size n : ℕ) (w : World S)
      → length w.ring.buffer + n ≡ size
      → length (push_back time id ms w).ring.buffer + n ≡ size + 1
  unfolding push_back
  push_back-Counted size n w h = omega (arith, h, length-append w.ring.buffer (new_entry ∷ []))
    where
      new_entry : BufferEntry
      new_entry = record {
        id = id;
        measurements = ms;
        timestamp_ms = time w.readings;
        locked = false;
      }

  insert-Counted :
      (size n : ℕ) (w : World S)
      → is_mode_0 w.ring ≡ true
      → length w.ring.buffer + n ≡ size
      → Counted size (Ring.insert time callback id ms n w)
  insert-Counted size n w m h =
      insert_cases time callback (Counted size) id ms n w (λ _ _. tt)
        (λ _ _. push_back-Counted size n w h) (λ _ _. tt) (λ z _ _ _. cc (m, z))

  -- What the discarding loop counts has left the buffer.
  discarded-count :
      (w : World S)
      → length (discarded time callback w).kept + (discarded time callback w).deletions
        ≡ length w.ring.buffer
  discarded-count w = rw discarded_lem (unfold discard_first in length-unlocked _ w.ring.buffer)

  push-Counted :
      (w : World S)
      → is_mode_0 w.ring ≡ true
      → Counted (length w.ring.buffer) (Ring.push time callback id ms w)
  push-Counted w m =
      push_cases time callback (Counted (length w.ring.buffer)) id ms w (λ _ _. tt) (λ _ _ _. tt)
        (λ _ _ _. insert-Counted _ _ (after_discard time callback w) m (discarded-count w))
        (λ _. insert-Counted _ 0 w m (omega arith))

module _ {C F : Type 0} (refs : ReferenceContainer C) (laws : ContainerLaws refs)
    (fs : FileSystem F) (time : ℕ → ℕ) (config : Config) (id : ℤ) where
  abbrev CountedData : ℕ → Result ℤ × DataSource C F → Type 0
  CountedData size p = Counted size (p.0, p.1.world)

  counted :
      (size n : ℕ) (p : Result ℤ × DataSource C F)
      → CountedData size p
      → p.0 ≡ ok (pos n)
      → Operations.get_size p.1 + n ≡ size + 1
  unfolding Operations.get_size Ring.get_size
  counted size n (ok (pos m), ds) l e = cc (l, e)
  counted size n (ok (negsuc m), ds) l e = cc e
  counted size n (thrown x, ds) l e = cc e

  push_or_forget-Counted :
      (ms : List Measurement) (ds : DataSource C F)
      → is_mode_0 ds.world.ring ≡ true
      → CountedData (length ds.world.ring.buffer) (push_or_forget refs fs time config id ms ds)
  unfolding push_measurements
  push_or_forget-Counted ms ds m =
      push_or_forget_rule refs fs time config id (CountedData (length ds.world.ring.buffer))
        (CountedData (length ds.world.ring.buffer)) (λ n ds' h. h) (λ n ds' h. tt) (λ e ds' h. tt)
        ms ds (push-Counted time (on_delete refs laws config time) id ms ds.world m)

  -- The loop over the measurements leaves the buffer as it is.
  processed-Counted :
      (ms ms' : List Measurement) (ds : DataSource C F)
      → is_mode_0 ds.world.ring ≡ true
      → CountedData
          (length ds.world.ring.buffer)
          (push_or_forget refs fs time config id ms' (process_ref_mapping refs fs id ms ds).1)
  processed-Counted ms ms' ds m =
      let same = (process-Untouched refs fs id ms ds).0 in
      subst
        (λ r.
          CountedData (length r.buffer)
            (push_or_forget refs fs time config id ms' (process_ref_mapping refs fs id ms ds).1))
        same
        (push_or_forget-Counted ms' (process_ref_mapping refs fs id ms ds).1
          (ap (λ r. is_mode_0 r) same ∙ m))

  add_parsed-count :
      (ms : List Measurement) (n : ℕ) (ds : DataSource C F)
      → is_mode_0 ds.world.ring ≡ true
      → (add_parsed refs fs time config id ms ds).0 ≡ ok (pos n)
      → Operations.get_size (add_parsed refs fs time config id ms ds).1 + n
        ≡ length ds.world.ring.buffer + 1
  unfolding add_parsed
  add_parsed-count ms n ds m = elim (Result-cases (process_ref_mapping refs fs id ms ds).0) [
    | inr (x, e) ↦ rw (e, add_parsed, ◌>>=◌) (λ h. cc h)
    | inl (ms', e) ↦
        rw (e, add_parsed, ◌>>=◌) (λ h. counted _ n _ (processed-Counted ms ms' ds m) h)
  ]

  pub add-count :
      (p : BasicParser) (json : Str) (n : ℕ) (ds : DataSource C F)
      → Operations.get_counter_mode ds ≡ pos 0
      → (add refs fs time config p id json ds).0 ≡ ok (pos n)
      → Operations.get_size (add refs fs time config p id json ds).1 + n
        ≡ Operations.get_size ds + 1
  unfolding add
  add-count p json n ds m = elim (Result-cases (parse parser_callback p json initial).0) [
    | inr (x, e) ↦ rw (e, add) (λ h. cc h)
    | inl ((good, message), e) ↦ elim (Bool-cases good) [
      | inr f ↦ rw (e, f, add) (λ h. cc h)
      | inl t ↦
          rw (e, t, add)
            (unfold Operations.get_counter_mode Operations.get_size Ring.get_counter_mode
                Ring.get_size in
              add_parsed-count _ n ds ((==ℤ_iff _ _).1 m))
    ]
  ]
