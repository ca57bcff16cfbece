-- ===== src/Source/Mapped.antt =====
-- What `ProcessRefMapping` makes of the measurements of a data set, src/data_source_internal.cpp.
use qds_data_interface.Prelude.{
  Bool, true, false, List, [], ◌∷◌, map, ◌≡◌, inl, inr, refl, ◌∙◌, ap, arith, subst, Bool-cases,
  Option-cases, if◌then◌else◌, All,
}
use qds_data_interface.Prelude.Int.{ℤ, pos, ◌==ℤ◌}
use qds_data_interface.Prelude.Str.{Str}
use qds_data_interface.Exception.{Result-cases, Result, ok, thrown}
use qds_data_interface.Measurement.{Measurement, MeasurementType, Value, blank, text}
use qds_data_interface.Types.{ReferenceData}
use qds_data_interface.Validator.Complete.{IsComplete, Fits}
use qds_data_interface.Source.{ReferenceContainer, FileSystem, DataSource, references, is_ref}
use qds_data_interface.Source.Refs.{
  load_file, take_reference, keep_content, load_reference, process_ref, process_measurement,
  process_ref_mapping, prepend_measurement,
}

-- Two lists of one length, related item by item.
abbrev Pointwise :
    (Measurement → Measurement → Type 0) → List Measurement → List Measurement → Type 0
Pointwise R [] [] = Unit
Pointwise R (d ∷ ds) (e ∷ es) = R d e × Pointwise R ds es
Pointwise R _ _ = ⊥

-- A relation that holds between a measurement and itself, and between a reference and the same with
-- another name of a reference.
module _ {C F : Type 0} (refs : ReferenceContainer C) (fs : FileSystem F) (id : ℤ)
    (R : Measurement → Measurement → Type 0) (same : (d : Measurement) → R d d)
    (renamed : (d : Measurement) (s : Str)
      → is_ref d.type ≡ true
      → R d (record d { value = text s })) where
  abbrev Related : Measurement → Result (Bool × Measurement) → Type 0
  Related d (ok (goes_on, d')) = R d d'
  Related d (thrown e) = Unit

  take-Related :
      (value : Str) (r : ReferenceData) (d : Measurement) (ds : DataSource C F)
      → Related d (take_reference refs fs id value r d ds).0
  unfolding take_reference
  take-Related value r d ds = elim (Bool-cases (r.id ==ℤ pos 0)) [
    | inl free ↦ rw free (same d)
    | inr used ↦ rw used tt
  ]

  load-Related :
      (path : Str) (d : Measurement) (ds : DataSource C F)
      → is_ref d.type ≡ true
      → Related d (load_reference refs fs id path d ds).0
  unfolding load_reference keep_content
  load-Related path d ds y = elim (Bool-cases (fs.can_fopen path ds.files)) [
    | inr missing ↦ rw missing tt
    | inl there ↦ elim (Result-cases (load_file refs fs path ds.files).0) [
      | inl (content, e) ↦ rw (there, e) (renamed d _ y)
      | inr (x, e) ↦ rw (there, e) tt
    ]
  ]

  process_ref-Related :
      (value : Str) (d : Measurement) (ds : DataSource C F)
      → is_ref d.type ≡ true
      → Related d (process_ref refs fs id value d ds).0
  unfolding process_ref
  process_ref-Related value d ds y = elim (Option-cases (refs.find value (references ds))) [
    | inl e ↦ rw (e, process_ref) (load-Related value d ds y)
    | inr (r, e) ↦ rw (e, process_ref) (take-Related value r d ds)
  ]

  process_measurement-Related :
      (d : Measurement) (v : Value) (ds : DataSource C F)
      → Related d (process_measurement refs fs id d v ds).0
  unfolding process_measurement
  process_measurement-Related d (text s) ds = elim (Bool-cases (is_ref d.type)) [
    | inl y ↦ rw (y, process_measurement) (process_ref-Related s d ds y)
    | inr n ↦ rw (n, process_measurement) (same d)
  ]
  process_measurement-Related d v ds = elim (Bool-cases (is_ref d.type)) [
    | inl y ↦ rw (y, process_measurement) tt
    | inr n ↦ rw (n, process_measurement) (same d)
  ]

  abbrev AllRelated : List Measurement → Result (List Measurement) → Type 0
  AllRelated ms (ok ms') = Pointwise R ms ms'
  AllRelated ms (thrown e) = Unit

  prepend-AllRelated :
      (d d' : Measurement) (ms : List Measurement) (p : Result (List Measurement) × DataSource C F)
      → R d d'
      → AllRelated ms p.0
      → AllRelated (d ∷ ms) (prepend_measurement refs fs d' p).0
  prepend-AllRelated d d' ms (ok ms', ds) s k = (s, k)
  prepend-AllRelated d d' ms (thrown e, ds) s k = tt

  Pointwise-refl : (ms : List Measurement) → Pointwise R ms ms
  Pointwise-refl [] = tt
  Pointwise-refl (d ∷ ms) = (same d, Pointwise-refl ms)

  process-AllRelated :
      (ms : List Measurement) (ds : DataSource C F)
      → AllRelated ms (process_ref_mapping refs fs id ms ds).0
  unfolding process_ref_mapping
  process-AllRelated [] ds = tt
  process-AllRelated (d ∷ ms) ds =
      elim (Result-cases (process_measurement refs fs id d d.value ds).0) [
        | inr (x, e) ↦ rw (e, process_ref_mapping) tt
        | inl ((goes_on, d'), e) ↦
            let s : R d d' = subst (Related d) e (process_measurement-Related d d.value ds) in
            elim (Bool-cases goes_on) [
              | inl y ↦
                  rw (e, y, process_ref_mapping)
                    (prepend-AllRelated d d' ms _ s (process-AllRelated ms _))
              | inr n ↦ rw (e, n, process_ref_mapping) (s, Pointwise-refl ms)
            ]
      ]

  process-Pointwise :
      (ms ms' : List Measurement) (ds : DataSource C F)
      → (process_ref_mapping refs fs id ms ds).0 ≡ ok ms'
      → Pointwise R ms ms'
  process-Pointwise ms ms' ds e = subst (AllRelated ms) e (process-AllRelated ms ds)

-- A measurement without its value, if that is a reference.
abbrev pub without_reference : Measurement → Measurement
without_reference d = record d { value = if is_ref d.type then blank else d.value }

Pointwise-map :
    (ms ms' : List Measurement)
    → Pointwise (λ d e. without_reference e ≡ without_reference d) ms ms'
    → map without_reference ms' ≡ map without_reference ms
Pointwise-map [] [] h = refl
Pointwise-map [] (e ∷ es) h = absurd h
Pointwise-map (d ∷ ds) [] h = absurd h
Pointwise-map (d ∷ ds) (e ∷ es) (h, k) = cc (h, Pointwise-map ds es k)

Pointwise-All :
    (ms ms' : List Measurement)
    → Pointwise (λ d e. IsComplete d → IsComplete e) ms ms'
    → All IsComplete ms
    → All IsComplete ms'
Pointwise-All [] [] h a = tt
Pointwise-All [] (e ∷ es) h a = absurd h
Pointwise-All (d ∷ ds) [] h a = absurd h
Pointwise-All (d ∷ ds) (e ∷ es) (h, k) (a, b) = (h a, Pointwise-All ds es k b)

renamed-same :
    (d : Measurement) (s : Str)
    → is_ref d.type ≡ true
    → without_reference (record d { value = text s }) ≡ without_reference d
renamed-same d s y = rw y refl

reference-Fits : (t : MeasurementType) (s : Str) → is_ref t ≡ true → Fits t (text s)
unfolding is_ref
reference-Fits MeasurementType.ref s y = tt
reference-Fits t s y = ground arith

renamed-IsComplete :
    (d : Measurement) (s : Str)
    → is_ref d.type ≡ true
    → IsComplete d
    → IsComplete (record d { value = text s })
renamed-IsComplete d s y c = record { named = c.named; fits = reference-Fits d.type s y }

module _ {C F : Type 0} (refs : ReferenceContainer C) (fs : FileSystem F) (id : ℤ) where
  -- Where the loop does not throw, the measurements are those of the data set, in their order, with
  -- name, type and unit; only the value of a reference may be another.
  process-without_reference :
      (ms ms' : List Measurement) (ds : DataSource C F)
      → (process_ref_mapping refs fs id ms ds).0 ≡ ok ms'
      → map without_reference ms' ≡ map without_reference ms
  process-without_reference ms ms' ds e = Pointwise-map ms ms' (
      process-Pointwise refs fs id (λ d d'. without_reference d' ≡ without_reference d) (λ d. refl)
        renamed-same ms ms' ds e)

  -- Complete measurements stay complete.
  pub process-IsComplete :
      (ms ms' : List Measurement) (ds : DataSource C F)
      → (process_ref_mapping refs fs id ms ds).0 ≡ ok ms'
      → All IsComplete ms
      → All IsComplete ms'
  process-IsComplete ms ms' ds e = Pointwise-All ms ms' (
      process-Pointwise refs fs id (λ d d'. IsComplete d → IsComplete d') (λ d c. c)
        renamed-IsComplete ms ms' ds e)

  plain_measurement :
      (d : Measurement) (v : Value) (ds : DataSource C F)
      → is_ref d.type ≡ false
      → process_measurement refs fs id d v ds ≡ (ok (true, d), ds)
  unfolding process_measurement
  plain_measurement d (text s) ds n = rw n refl
  plain_measurement d v ds n = rw n refl

  -- A data set without references is left as it is, and so is the data source.
  pub process_plain :
      (ms : List Measurement) (ds : DataSource C F)
      → All (λ d. is_ref d.type ≡ false) ms
      → process_ref_mapping refs fs id ms ds ≡ (ok ms, ds)
  unfolding process_ref_mapping
  process_plain [] ds h = refl
  process_plain (d ∷ ms) ds (n, h) =
      rw (plain_measurement d d.value ds n, process_ref_mapping)
        (ap (λ p. prepend_measurement refs fs d (process_ref_mapping refs fs id ms p.1))
            (plain_measurement d d.value ds n)
          ∙ ap (prepend_measurement refs fs d) (process_plain ms ds h))
