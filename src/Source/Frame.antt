-- ===== src/Source/Frame.antt =====
-- What `ProcessRefMapping` does not touch, src/data_source_internal.cpp: it changes the references, the
-- counter of their names and the files.
use qds_data_interface.Prelude.{ℕ, List, [], ◌∷◌, ◌≡◌, inl, inr, refl, Bool-cases, Option-cases}
use qds_data_interface.Prelude.Int.{ℤ, pos, ◌==ℤ◌}
use qds_data_interface.Prelude.Str.{Str}
use qds_data_interface.Exception.{Result-cases, Result, ok, thrown}
use qds_data_interface.Measurement.{Measurement, Value, text}
use qds_data_interface.Types.{ReferenceData}
use qds_data_interface.Source.{
  ReferenceContainer, FileSystem, DataSource, references, with_references, is_ref,
}
use qds_data_interface.Source.Refs.{
  load_file, take_reference, keep_content, load_reference, process_ref, process_measurement,
  process_ref_mapping, prepend_measurement,
}

-- A property that no change of the references, their counter or the files affects.
module _ {C F : Type 0} (refs : ReferenceContainer C) (fs : FileSystem F) (id : ℤ)
    (P : DataSource C F → Type 0)
    (on_references : (c : C) (ds : DataSource C F) → P ds → P (with_references c ds))
    (on_counter : (n : ℕ) (ds : DataSource C F) → P ds → P (record ds { ref_counter = n }))
    (on_files : (n : ℕ) (f : F) (ds : DataSource C F)
      → P ds
      → P (record ds { ref_counter = n; files = f })) where
  take_frame :
      (value : Str) (r : ReferenceData) (d : Measurement) (ds : DataSource C F)
      → P ds
      → P (take_reference refs fs id value r d ds).1
  unfolding take_reference
  take_frame value r d ds h = elim (Bool-cases (r.id ==ℤ pos 0)) [
    | inl free ↦ rw (free, take_reference) (on_references _ ds h)
    | inr used ↦ rw (used, take_reference) h
  ]

  load_frame :
      (path : Str) (d : Measurement) (ds : DataSource C F)
      → P ds
      → P (load_reference refs fs id path d ds).1
  unfolding load_reference keep_content
  load_frame path d ds h = elim (Bool-cases (fs.can_fopen path ds.files)) [
    | inr missing ↦ rw (missing, load_reference) h
    | inl there ↦ elim (Result-cases (load_file refs fs path ds.files).0) [
      | inl (content, e) ↦ rw (there, e, load_reference) (on_references _ _ (on_files _ _ ds h))
      | inr (x, e) ↦ rw (there, e, load_reference) (on_counter _ ds h)
    ]
  ]

  process_ref_frame :
      (value : Str) (d : Measurement) (ds : DataSource C F)
      → P ds
      → P (process_ref refs fs id value d ds).1
  unfolding process_ref
  process_ref_frame value d ds h = elim (Option-cases (refs.find value (references ds))) [
    | inl e ↦ rw (e, process_ref) (load_frame value d ds h)
    | inr (r, e) ↦ rw (e, process_ref) (take_frame value r d ds h)
  ]

  pub measurement_frame :
      (d : Measurement) (v : Value) (ds : DataSource C F)
      → P ds
      → P (process_measurement refs fs id d v ds).1
  unfolding process_measurement
  measurement_frame d (text s) ds h = elim (Bool-cases (is_ref d.type)) [
    | inl y ↦ rw (y, process_measurement) (process_ref_frame s d ds h)
    | inr n ↦ rw (n, process_measurement) h
  ]
  measurement_frame d v ds h = elim (Bool-cases (is_ref d.type)) [
    | inl y ↦ rw (y, process_measurement) h
    | inr n ↦ rw (n, process_measurement) h
  ]

  prepend_frame :
      (d : Measurement) (p : Result (List Measurement) × DataSource C F)
      → P p.1
      → P (prepend_measurement refs fs d p).1
  prepend_frame d (ok ms, ds) h = h
  prepend_frame d (thrown e, ds) h = h

  pub process_frame :
      (ms : List Measurement) (ds : DataSource C F)
      → P ds
      → P (process_ref_mapping refs fs id ms ds).1
  unfolding process_ref_mapping
  process_frame [] ds h = h
  process_frame (d ∷ ms) ds h =
      let h' : P (process_measurement refs fs id d d.value ds).1 =
        measurement_frame d d.value ds h in
      elim (Result-cases (process_measurement refs fs id d d.value ds).0) [
        | inr (x, e) ↦ rw (e, process_ref_mapping) h'
        | inl ((goes_on, d'), e) ↦ elim (Bool-cases goes_on) [
          | inl y ↦ rw (e, y, process_ref_mapping) (prepend_frame d' _ (process_frame ms _ h'))
          | inr n ↦ rw (e, n, process_ref_mapping) h'
        ]
      ]

-- The buffer, and the lists of deletions and resets.
abbrev pub Untouched : {C F : Type 0} → DataSource C F → DataSource C F → Type 0
Untouched ds ds' =
    (ds'.world.ring ≡ ds.world.ring)
    × (ds'.world.readings ≡ ds.world.readings)
    × (ds'.world.owner.deletion_information ≡ ds.world.owner.deletion_information)
    × (ds'.reset_information ≡ ds.reset_information)

pub process-Untouched :
    {C F : Type 0} (refs : ReferenceContainer C) (fs : FileSystem F) (id : ℤ)
    (ms : List Measurement) (ds : DataSource C F)
    → Untouched ds (process_ref_mapping refs fs id ms ds).1
process-Untouched refs fs id ms ds =
    process_frame refs fs id (Untouched ds) (λ c ds' h. h) (λ n ds' h. h) (λ n f ds' h. h) ms ds
      (refl, refl, refl, refl)
