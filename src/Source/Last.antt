-- ===== src/Source/Last.antt =====
-- The last id after `Add`, src/data_source_internal.cpp.
use qds_data_interface.Prelude.{
  ℕ, some, List, ◌≡◌, inl, inr, refl, ◌∙◌, ap, back, back-append, Bool-cases,
}
use qds_data_interface.Prelude.Int.{ℤ, pos}
use qds_data_interface.Prelude.Str.{Str}
use qds_data_interface.Exception.{ok, ◌>>=◌, Result-cases}
use qds_data_interface.Measurement.{Measurement}
use qds_data_interface.Ring
use qds_data_interface.Ring.Stored.{stored}
use qds_data_interface.Validator.{initial}
use qds_data_interface.Validator.Values.{parser_callback}
use qds_data_interface.Parser.{BasicParser, parse}
use qds_data_interface.Source.{ReferenceContainer, ContainerLaws, FileSystem, DataSource, Config}
use qds_data_interface.Source.Refs.{process_ref_mapping}
use qds_data_interface.Source.Operations
use qds_data_interface.Source.Operations.{add, add_parsed, push_or_forget, parsed}
use qds_data_interface.Source.Added.{EndsWith, last_entry, push_or_forget-Last}

module _ {C F : Type 0} (refs : ReferenceContainer C) (laws : ContainerLaws refs)
    (fs : FileSystem F) (time : ℕ → ℕ) (config : Config) (id : ℤ) where
  EndsWith-last_id :
      (ms : List Measurement) (ds : DataSource C F)
      → EndsWith refs laws fs time config id ms ds.world.ring.buffer
      → Operations.get_last_id ds ≡ id
  unfolding Operations.get_last_id Ring.get_last_id
  EndsWith-last_id ms ds (before, (t, e)) =
      let last : back ds.world.ring.buffer ≡ some (stored time id ms t) =
        ap back e ∙ back-append before (stored time id ms t) in
      rw (last, Ring.get_last_id) refl

  add_parsed-last_id :
      (ms : List Measurement) (n : ℕ) (ds : DataSource C F)
      → (add_parsed refs fs time config id ms ds).0 ≡ ok (pos n)
      → Operations.get_last_id (add_parsed refs fs time config id ms ds).1 ≡ id
  unfolding add_parsed
  add_parsed-last_id ms n ds = elim (Result-cases (process_ref_mapping refs fs id ms ds).0) [
    | inr (x, e) ↦ rw (e, add_parsed, ◌>>=◌) (λ h. cc h)
    | inl (ms', e) ↦
        rw (e, add_parsed, ◌>>=◌)
          (λ h. EndsWith-last_id ms' _ (
            last_entry refs laws fs time config id ms' n
              (push_or_forget refs fs time config id ms' (process_ref_mapping refs fs id ms ds).1)
              (push_or_forget-Last refs laws fs time config id ms' _) h))
  ]

  pub add-last_id :
      (p : BasicParser) (json : Str) (n : ℕ) (ds : DataSource C F)
      → (add refs fs time config p id json ds).0 ≡ ok (pos n)
      → Operations.get_last_id (add refs fs time config p id json ds).1 ≡ id
  unfolding add
  add-last_id p json n ds = elim (Result-cases (parse parser_callback p json initial).0) [
    | inr (x, e) ↦ rw (e, add) (λ h. cc h)
    | inl ((good, message), e) ↦ elim (Bool-cases good) [
      | inr f ↦ rw (e, f, add) (λ h. cc h)
      | inl t ↦ rw (e, t, add) (add_parsed-last_id _ n ds)
    ]
  ]
