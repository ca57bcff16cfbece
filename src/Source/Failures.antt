-- ===== src/Source/Failures.antt =====
-- What `Add` leaves behind where it stores nothing, src/data_source_internal.cpp.
use qds_data_interface.Prelude.{ℕ, false, some, ◌≡◌, ◌⊎◌}
use qds_data_interface.Prelude.Int.{ℤ, pos, negsuc, ◌==ℤ◌}
use qds_data_interface.Prelude.Str.{Str}
use qds_data_interface.Exception.{
  Exception, parsing, ring_buffer, ring_buffer_overflow, Result, ok, thrown,
}
use qds_data_interface.Measurement.{Measurement}
use qds_data_interface.Types.{ReferenceData}
use qds_data_interface.Ring
use qds_data_interface.Ring.{World}
use qds_data_interface.Source.{
  ReferenceContainer, ContainerLaws, FileSystem, DataSource, Mapping, Config, references,
}
use qds_data_interface.Source.Frame.{Untouched}
use qds_data_interface.Source.Errors.{IsReferenceError}

abbrev pub IsBufferError : Exception → Type 0
IsBufferError e = (e.class ≡ ring_buffer) ⊎ (e.class ≡ ring_buffer_overflow)

module _ {C F : Type 0} (refs : ReferenceContainer C) (laws : ContainerLaws refs)
    (fs : FileSystem F) (time : ℕ → ℕ) (config : Config) (id : ℤ) where
  -- No reference has the id.
  abbrev pub NoReference : World (Mapping C) → Type 0
  NoReference w =
      (r : Str) (d : ReferenceData)
      → refs.find r w.owner.references ≡ some d
      → (d.id ==ℤ id) ≡ false

  -- What `Push` returns where it stores nothing.
  abbrev Refused : Result ℤ × World (Mapping C) → Type 0
  Refused (ok (pos n), w) = Unit
  Refused (ok (negsuc n), w) = n ≡ 0
  Refused (thrown e, w) = IsBufferError e

  -- The same of `push_or_forget`, which forgets the references then.
  abbrev Forgotten : Result ℤ × DataSource C F → Type 0
  Forgotten (ok (pos n), ds) = Unit
  Forgotten (ok (negsuc n), ds) = (n ≡ 0) × NoReference ds.world
  Forgotten (thrown e, ds) = IsBufferError e × NoReference ds.world

  -- What `Add` leaves of `ds`, by its result.
  abbrev pub Failed : DataSource C F → Result ℤ × DataSource C F → Type 0
  Failed ds (ok (pos n), ds') = Unit
  Failed ds (ok (negsuc n), ds') = (n ≡ 0) × NoReference ds'.world
  Failed ds (thrown e, ds') =
      ((e.class ≡ parsing) × (ds' ≡ ds))
      ⊎ ((IsReferenceError e × Untouched ds ds') ⊎ (IsBufferError e × NoReference ds'.world))
