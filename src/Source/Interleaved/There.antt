-- ===== src/Source/Interleaved/There.antt =====
-- A reference that is in use, src/data_source_internal.cpp: `ProcessRefMapping` and `SetReference` leave
-- it as it is.
use qds_data_interface.Prelude.{false, some, ◌≡◌, inl, inr, refl, ◌∙◌, Bool-cases, Option-cases}
use qds_data_interface.Prelude.Int.{ℤ, pos, ◌==ℤ◌}
use qds_data_interface.Prelude.Str.{Str, ◌==s◌, ==s_iff}
use qds_data_interface.Exception.{Result-cases}
use qds_data_interface.Measurement.{Measurement, Value, text}
use qds_data_interface.Types.{ReferenceData}
use qds_data_interface.Source.{
  ReferenceContainer, ContainerLaws, FileSystem, DataSource, references, is_present, set_reference,
  is_ref,
}
use qds_data_interface.Source.Refs.{
  load_file, take_reference, keep_content, load_reference, process_ref, process_measurement,
}

module _ {C F : Type 0} (refs : ReferenceContainer C) (laws : ContainerLaws refs)
    (fs : FileSystem F) (r : Str) (d : ReferenceData) (used : (d.id ==ℤ pos 0) ≡ false) where
  -- The reference is there.
  abbrev pub IsThere : DataSource C F → Type 0
  IsThere ds = refs.find r (references ds) ≡ some d

  take-IsThere :
      (id : ℤ) (value : Str) (x : ReferenceData) (m : Measurement) (ds : DataSource C F)
      → refs.find value (references ds) ≡ some x
      → IsThere ds
      → IsThere (take_reference refs fs id value x m ds).1
  unfolding take_reference
  take-IsThere id value x m ds f h = elim (Bool-cases (x.id ==ℤ pos 0)) [
    | inr n ↦ rw (n, take_reference) h
    | inl free ↦
        rw (free, take_reference)
          (laws.find-modify_id r value id (references ds) ∙ elim (Bool-cases (value ==s r)) [
            | inr n ↦ rw n h
            | inl y ↦ cc (f, h, free, used, (==s_iff value r).0 y)
          ])
  ]

  emplaced-IsThere :
      (x : ReferenceData) (ds : DataSource C F)
      → IsThere ds
      → refs.find r (refs.emplace x (references ds)) ≡ some d
  emplaced-IsThere x ds h =
      laws.find-emplace r x (references ds)
      ∙ elim (Bool-cases (x.ref ==s r)) [ inl y ↦ rw (y, h) refl | inr n ↦ rw (n, h) refl ]

  load-IsThere :
      (id : ℤ) (path : Str) (m : Measurement) (ds : DataSource C F)
      → IsThere ds
      → IsThere (load_reference refs fs id path m ds).1
  unfolding load_reference keep_content
  load-IsThere id path m ds h = elim (Bool-cases (fs.can_fopen path ds.files)) [
    | inr missing ↦ rw (missing, load_reference) h
    | inl there ↦ elim (Result-cases (load_file refs fs path ds.files).0) [
      | inl (content, e) ↦ rw (there, e, load_reference) (emplaced-IsThere _ ds h)
      | inr (x, e) ↦ rw (there, e, load_reference) h
    ]
  ]

  process_ref-IsThere :
      (id : ℤ) (value : Str) (m : Measurement) (ds : DataSource C F)
      → IsThere ds
      → IsThere (process_ref refs fs id value m ds).1
  unfolding process_ref
  process_ref-IsThere id value m ds h = elim (Option-cases (refs.find value (references ds))) [
    | inl e ↦ rw (e, process_ref) (load-IsThere id value m ds h)
    | inr (x, e) ↦ rw (e, process_ref) (take-IsThere id value x m ds e h)
  ]

  pub process_measurement-IsThere :
      (id : ℤ) (m : Measurement) (v : Value) (ds : DataSource C F)
      → IsThere ds
      → IsThere (process_measurement refs fs id m v ds).1
  unfolding process_measurement
  process_measurement-IsThere id m (text s) ds h = elim (Bool-cases (is_ref m.type)) [
    | inl y ↦ rw (y, process_measurement) (process_ref-IsThere id s m ds h)
    | inr n ↦ rw (n, process_measurement) h
  ]
  process_measurement-IsThere id m v ds h = elim (Bool-cases (is_ref m.type)) [
    | inl y ↦ rw (y, process_measurement) h
    | inr n ↦ rw (n, process_measurement) h
  ]

  pub set_reference-IsThere :
      (name contents format : Str) (ds : DataSource C F)
      → IsThere ds
      → IsThere (set_reference refs name contents format ds).1
  unfolding set_reference
  set_reference-IsThere name contents format ds h =
      elim (Bool-cases (is_present (refs.find name (references ds)))) [
        | inl y ↦ rw (y, set_reference) h
        | inr n ↦ rw (n, set_reference) (emplaced-IsThere _ ds h)
      ]
