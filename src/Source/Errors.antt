-- ===== src/Source/Errors.antt =====
-- The exceptions of `ProcessRefMapping`, src/data_source_internal.cpp.
use qds_data_interface.Prelude.{
  Bool, true, false, List, [], ◌∷◌, ◌≡◌, ◌⊎◌, inl, inr, refl, arith, subst, All, Bool-cases,
  Option-cases, ◌==◌,
}
use qds_data_interface.Prelude.Int.{ℤ, pos, ◌==ℤ◌}
use qds_data_interface.Prelude.Str.{Str}
use qds_data_interface.Exception.{Exception, ref, file_io, Result, ok, thrown, Result-cases}
use qds_data_interface.Measurement.{
  Measurement, MeasurementType, Value, blank, text, int64, float64, boolean,
}
use qds_data_interface.Types.{ReferenceData}
use qds_data_interface.Validator.Complete.{IsComplete, Fits}
use qds_data_interface.Source.{
  ReferenceContainer, FileSystem, DataSource, references, is_ref, ref_exception, file_exception,
}
use qds_data_interface.Source.Refs.{
  load_file, take_reference, keep_content, load_reference, process_ref, process_measurement,
  process_ref_mapping, prepend_measurement,
}

-- A `RefException` or a `FileIoException`.
abbrev pub IsReferenceError : Exception → Type 0
IsReferenceError e = (e.class ≡ ref) ⊎ (e.class ≡ file_io)

abbrev pub ThrowsReference : {A : Type 0} → Result A → Type 0
ThrowsReference (ok a) = Unit
ThrowsReference (thrown e) = IsReferenceError e

abbrev is_text : Value → Bool
is_text (text s) = true
is_text v = false

-- A value of another alternative than text fits no reference.
fitting : (t : MeasurementType) (v : Value) → is_text v ≡ false → Fits t v → is_ref t ≡ false
unfolding is_ref
fitting t (text s) n f = cc
fitting t (int64 k) n f = ground arith
fitting t (float64 k) n f = ground arith
fitting t (boolean b) n f = ground arith
fitting t blank n f = ground arith

module _ {C F : Type 0} (refs : ReferenceContainer C) (fs : FileSystem F) (id : ℤ) where
  file-ThrowsReference : (path : Str) (f : F) → ThrowsReference (load_file refs fs path f).0
  unfolding load_file file_exception
  file-ThrowsReference path f = elim (Bool-cases (fs.can_open path f)) [
    | inr n ↦ rw (n, load_file) (inr refl)
    | inl y ↦ elim (Bool-cases (fs.size path f == 0)) [
      | inl z ↦ rw (y, z, load_file) (inr refl)
      | inr z ↦ elim (Option-cases (fs.read path (fs.size path f) f)) [
        | inl e ↦ rw (y, z, e, load_file) (inr refl)
        | inr (content, e) ↦ elim (Option-cases (fs.remove path f)) [
          | inl g ↦ rw (y, z, e, g, load_file) (inr refl)
          | inr (f', g) ↦ rw (y, z, e, g, load_file) tt
        ]
      ]
    ]
  ]

  take-ThrowsReference :
      (value : Str) (r : ReferenceData) (d : Measurement) (ds : DataSource C F)
      → ThrowsReference (take_reference refs fs id value r d ds).0
  unfolding take_reference ref_exception
  take-ThrowsReference value r d ds = elim (Bool-cases (r.id ==ℤ pos 0)) [
    | inl free ↦ rw (free, take_reference) tt
    | inr used ↦ rw (used, take_reference) (inl refl)
  ]

  load-ThrowsReference :
      (path : Str) (d : Measurement) (ds : DataSource C F)
      → ThrowsReference (load_reference refs fs id path d ds).0
  unfolding load_reference keep_content ref_exception
  load-ThrowsReference path d ds = elim (Bool-cases (fs.can_fopen path ds.files)) [
    | inr missing ↦ rw (missing, load_reference) (inl refl)
    | inl there ↦ elim (Result-cases (load_file refs fs path ds.files).0) [
      | inl (content, e) ↦ rw (there, e, load_reference) tt
      | inr (x, e) ↦
          rw (there, e, load_reference)
            (subst ThrowsReference e (file-ThrowsReference path ds.files))
    ]
  ]

  process_ref-ThrowsReference :
      (value : Str) (d : Measurement) (ds : DataSource C F)
      → ThrowsReference (process_ref refs fs id value d ds).0
  unfolding process_ref
  process_ref-ThrowsReference value d ds = elim (Option-cases (refs.find value (references ds))) [
    | inl e ↦ rw (e, process_ref) (load-ThrowsReference value d ds)
    | inr (r, e) ↦ rw (e, process_ref) (take-ThrowsReference value r d ds)
  ]

  measurement-ThrowsReference :
      (d : Measurement) (v : Value) (ds : DataSource C F)
      → Fits d.type v
      → ThrowsReference (process_measurement refs fs id d v ds).0
  unfolding process_measurement
  measurement-ThrowsReference d (text s) ds f = elim (Bool-cases (is_ref d.type)) [
    | inl y ↦ rw (y, process_measurement) (process_ref-ThrowsReference s d ds)
    | inr n ↦ rw (n, process_measurement) tt
  ]
  measurement-ThrowsReference d v ds f = rw (fitting d.type v refl f, process_measurement) tt

  prepend-ThrowsReference :
      (d : Measurement) (p : Result (List Measurement) × DataSource C F)
      → ThrowsReference p.0
      → ThrowsReference (prepend_measurement refs fs d p).0
  prepend-ThrowsReference d (ok ms, ds) h = tt
  prepend-ThrowsReference d (thrown e, ds) h = h

  pub process-ThrowsReference :
      (ms : List Measurement) (ds : DataSource C F)
      → All IsComplete ms
      → ThrowsReference (process_ref_mapping refs fs id ms ds).0
  unfolding process_ref_mapping
  process-ThrowsReference [] ds h = tt
  process-ThrowsReference (d ∷ ms) ds (c, h) =
      let t : ThrowsReference (process_measurement refs fs id d d.value ds).0 =
        measurement-ThrowsReference d d.value ds c.fits in
      elim (Result-cases (process_measurement refs fs id d d.value ds).0) [
        | inr (x, e) ↦ rw (e, process_ref_mapping) (subst ThrowsReference e t)
        | inl ((goes_on, d'), e) ↦ elim (Bool-cases goes_on) [
          | inl y ↦
              rw (e, y, process_ref_mapping)
                (prepend-ThrowsReference d' _ (process-ThrowsReference ms _ h))
          | inr n ↦ rw (e, n, process_ref_mapping) tt
        ]
      ]
