-- ===== src/Source/Process.antt =====
-- The references that `ProcessRefMapping` takes and makes, src/data_source_internal.cpp, and
-- the entries that own them.
use qds_data_interface.Prelude.{
  ℕ, Bool, Option, none, some, List, [], ◌∷◌, ◌≡◌, ◌⊎◌, inl, inr, sym, ◌∙◌, ap, arith, Bool-cases,
  Option-cases, if◌then◌else◌,
}
use qds_data_interface.Prelude.Int.{ℤ, pos, ◌==ℤ◌}
use qds_data_interface.Prelude.Str.{Str, ◌==s◌}
use qds_data_interface.Exception.{Result-cases, Exception, Result, ok, thrown, ◌>>=◌}
use qds_data_interface.Measurement.{Measurement, Value, text}
use qds_data_interface.Types.{ReferenceData}
use qds_data_interface.Source.{
  ReferenceContainer, ContainerLaws, FileSystem, DataSource, Config, references, is_present,
  with_id, is_ref,
}
use qds_data_interface.Source.Refs.{
  load_file, take_reference, keep_content, load_reference, process_ref, process_measurement,
  process_ref_mapping, prepend_measurement,
}
use qds_data_interface.Source.Operations.{add_parsed}
use qds_data_interface.Source.Integrity.{Owned, OwnedBut, push_or_forget-Owned}

with_id_cases :
    (id : ℤ) (o : Option ReferenceData) (b : Bool) (d : ReferenceData)
    → (if b then with_id id o else o) ≡ some d
    → (d.id ≡ id) ⊎ (o ≡ some d)
with_id_cases id none b d h = ground arith
with_id_cases id (some x) b d h = ground arith

pub emplace_cases :
    (o : Option ReferenceData) (b : Bool) (x d : ReferenceData)
    → (if b then (if is_present o then o else some x) else o) ≡ some d
    → (d ≡ x) ⊎ (o ≡ some d)
emplace_cases none b x d h = ground arith
emplace_cases (some y) b x d h = ground arith

module _ {C F : Type 0} (refs : ReferenceContainer C) (laws : ContainerLaws refs)
    (fs : FileSystem F) (time : ℕ → ℕ) (config : Config) (Free : ℤ → Type 0) (id : ℤ) where
  abbrev pub Keeps : DataSource C F → Type 0
  Keeps ds = OwnedBut refs laws fs time config Free id ds.world

  take-Keeps :
      (value : Str) (r : ReferenceData) (d : Measurement) (ds : DataSource C F)
      → Keeps ds
      → Keeps (take_reference refs fs id value r d ds).1
  unfolding take_reference
  take-Keeps value r d ds o = elim (Bool-cases (r.id ==ℤ pos 0)) [
    | inl free ↦ rw free (λ s x h.
        elim (with_id_cases id (refs.find s (references ds)) (value ==s s) x
          (sym (laws.find-modify_id s value id (references ds)) ∙ h)) [
            | inl e ↦ inl e
            | inr b ↦ o s x b
          ])
    | inr used ↦ rw used o
  ]

  keep-Keeps :
      (path content : Str) (d : Measurement) (n : ℕ) (ds : DataSource C F)
      → Keeps ds
      → Keeps (keep_content refs fs id path content d n ds).1
  unfolding keep_content
  keep-Keeps path content d n ds o s x h =
      elim (emplace_cases (refs.find s (references ds)) _ _ x
        (sym (laws.find-emplace s _ (references ds)) ∙ h)) [
          | inl e ↦ inl (ap (λ y. y.id) e)
          | inr b ↦ o s x b
        ]

  load-Keeps :
      (path : Str) (d : Measurement) (ds : DataSource C F)
      → Keeps ds
      → Keeps (load_reference refs fs id path d ds).1
  unfolding load_reference
  load-Keeps path d ds o = elim (Bool-cases (fs.can_fopen path ds.files)) [
    | inr missing ↦ rw missing o
    | inl there ↦ elim (Result-cases (load_file refs fs path ds.files).0) [
      | inl (content, e) ↦ rw (there, e) (keep-Keeps path content d _ _ o)
      | inr (x, e) ↦ rw (there, e) o
    ]
  ]

  process_ref-Keeps :
      (value : Str) (d : Measurement) (ds : DataSource C F)
      → Keeps ds
      → Keeps (process_ref refs fs id value d ds).1
  unfolding process_ref
  process_ref-Keeps value d ds o = elim (Option-cases (refs.find value (references ds))) [
    | inl e ↦ rw (e, process_ref) (load-Keeps value d ds o)
    | inr (r, e) ↦ rw (e, process_ref) (take-Keeps value r d ds o)
  ]

  pub process_measurement-Keeps :
      (d : Measurement) (v : Value) (ds : DataSource C F)
      → Keeps ds
      → Keeps (process_measurement refs fs id d v ds).1
  unfolding process_measurement
  process_measurement-Keeps d (text s) ds o = elim (Bool-cases (is_ref d.type)) [
    | inl y ↦ rw y (process_ref-Keeps s d ds o)
    | inr n ↦ rw n o
  ]
  process_measurement-Keeps d v ds o = elim (Bool-cases (is_ref d.type)) [
    | inl y ↦ rw y o
    | inr n ↦ rw n o
  ]

  prepend-Keeps :
      (d : Measurement) (p : Result (List Measurement) × DataSource C F)
      → Keeps p.1
      → Keeps (prepend_measurement refs fs d p).1
  prepend-Keeps d (ok ms, ds) o = o
  prepend-Keeps d (thrown e, ds) o = o

  pub process-Keeps :
      (ms : List Measurement) (ds : DataSource C F)
      → Keeps ds
      → Keeps (process_ref_mapping refs fs id ms ds).1
  unfolding process_ref_mapping
  process-Keeps [] ds o = o
  process-Keeps (d ∷ ms) ds o =
      let o' : Keeps (process_measurement refs fs id d d.value ds).1 =
        process_measurement-Keeps d d.value ds o in
      elim (Result-cases (process_measurement refs fs id d d.value ds).0) [
        | inr (x, e) ↦ rw (e, process_ref_mapping) o'
        | inl ((goes_on, d'), e) ↦ elim (Bool-cases goes_on) [
          | inl y ↦ rw (e, y, process_ref_mapping) (prepend-Keeps d' _ (process-Keeps ms _ o'))
          | inr n ↦ rw (e, n, process_ref_mapping) o'
        ]
      ]

-- The id 0 stands for no entry.
abbrev pub IsFree : ℤ → Type 0
IsFree i = i ≡ pos 0

module _ {C F : Type 0} (refs : ReferenceContainer C) (laws : ContainerLaws refs)
    (fs : FileSystem F) (time : ℕ → ℕ) (config : Config) (id : ℤ) where
  -- `Add` behind the parser, from a state in which every reference that is in use has an entry: so
  -- it is afterwards, unless the loop over the measurements throws; then the references of this id
  -- may be without one.
  pub add_parsed-Owned :
      (ms : List Measurement) (ds : DataSource C F)
      → Owned refs laws fs time config IsFree ds.world
      → Owned refs laws fs time config IsFree (add_parsed refs fs time config id ms ds).1.world
        ⊎ ((e : Exception) × ((process_ref_mapping refs fs id ms ds).0 ≡ thrown e)
            × Keeps refs laws fs time config IsFree id (add_parsed refs fs time config id ms ds).1)
  unfolding add_parsed
  add_parsed-Owned ms ds o =
      let o' : Keeps refs laws fs time config IsFree id (process_ref_mapping refs fs id ms ds).1 =
        process-Keeps refs laws fs time config IsFree id ms ds (λ r d h. inr (o r d h)) in
      elim (Result-cases (process_ref_mapping refs fs id ms ds).0) [
        | inr (x, e) ↦ inr (x, e, rw (e, add_parsed, ◌>>=◌) o')
        | inl (ms', e) ↦ inl (
            rw (e, add_parsed, ◌>>=◌)
              (push_or_forget-Owned refs laws fs time config IsFree id ms' _ o'))
      ]
