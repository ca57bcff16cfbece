-- ===== src/Source/Refs.antt =====
-- `DataSourceInternal::ProcessRefMapping`, src/data_source_internal.cpp.
use qds_data_interface.Prelude.{
  ℕ, ◌+◌, ◌^◌, ◌%◌, Bool, true, false, not, none, some, List, [], ◌∷◌, ◌++◌, ◌==◌, if◌then◌else◌,
}
use qds_data_interface.Prelude.Int.{ℤ, pos, ◌==ℤ◌}
use qds_data_interface.Prelude.Str.{Str, str}
use qds_data_interface.Exception.{Exec, Result, ok, thrown, return, throw}
use qds_data_interface.Measurement.{Measurement, Value, text}
use qds_data_interface.Types.{ReferenceData}
use qds_data_interface.Source.{
  ReferenceContainer, FileSystem, DataSource, references, with_references, ref_exception,
  file_exception, bad_get_exception, format_of, ref_name, is_ref,
}

abbrev process_scope : Str
process_scope = str "DataSourceInternal::ProcessRefMapping"

-- `ref_counter_++` of a `uint64_t`.
unfoldable pub count_up : ℕ → ℕ
count_up n = (n + 1) % 2 ^ 64

module _ {C F : Type 0} (refs : ReferenceContainer C) (fs : FileSystem F) where
  -- The file's content is read, and the file removed.
  unfoldable pub load_file : Str → Exec F Str
  load_file path f =
      if not (fs.can_open path f)
      then throw (file_exception (str "Could not open file " ++ path)) f
      else if fs.size path f == 0
      then throw (file_exception (str "File size is 0 bytes")) f
      else elim (fs.read path (fs.size path f) f) [
        | none ↦ throw (file_exception (str "Could not read from file " ++ path)) f
        | some content ↦ elim (fs.remove path f) [
          | none ↦ throw (file_exception (str "Could not delete file " ++ path)) f
          | some f' ↦ (ok content, f')
        ]
      ]

  -- A valid reference exists: it is taken if it is free, and the loop ends (`false`).
  unfoldable pub take_reference :
      ℤ → Str → ReferenceData → Measurement → Exec (DataSource C F) (Bool × Measurement)
  take_reference id value r d ds =
      if r.id ==ℤ pos 0
      then return (false, d) (with_references (refs.modify_id value id (references ds)) ds)
      else throw
          (ref_exception (str "The reference '" ++ value ++ str "' is already in use")
            process_scope)
          ds

  -- The content of a file becomes a reference of a new name, which replaces the value.
  unfoldable pub keep_content :
      ℤ → Str → Str → Measurement → ℕ → Exec (DataSource C F) (Bool × Measurement)
  keep_content id path content d n ds =
      return (true, record d { value = text (ref_name n) })
        (with_references
          (refs.emplace
            (record { id = id; ref = ref_name n; format = format_of path; content = content })
            (references ds))
          ds)

  unfoldable pub load_reference : ℤ → Str → Measurement → Exec (DataSource C F) (Bool × Measurement)
  load_reference id path d ds =
      if not (fs.can_fopen path ds.files)
      then throw
          (ref_exception
            (str "The reference of '"
              ++ d.name
              ++ str "' is neither an existing file, nor an existing reference")
            process_scope)
          ds
      else elim (load_file path ds.files).0 [
        | thrown e ↦ (thrown e, record ds { ref_counter = count_up ds.ref_counter })
        | ok content ↦ keep_content id path content d ds.ref_counter (record ds {
          ref_counter = count_up ds.ref_counter;
          files = (load_file path ds.files).1;
        })
      ]

  -- The loop's body; the Boolean says whether the loop goes on.
  unfoldable pub process_ref : ℤ → Str → Measurement → Exec (DataSource C F) (Bool × Measurement)
  process_ref id value d ds = elim (refs.find value (references ds)) [
    | some r ↦ take_reference id value r d ds
    | none ↦ load_reference id value d ds
  ]

  unfoldable pub process_measurement :
      ℤ → Measurement → Value → Exec (DataSource C F) (Bool × Measurement)
  process_measurement id d (text value) ds =
      if is_ref d.type then process_ref id value d ds else return (true, d) ds
  process_measurement id d v ds =
      if is_ref d.type then throw bad_get_exception ds else return (true, d) ds

  abbrev pub prepend_measurement :
      Measurement
      → Result (List Measurement) × DataSource C F
      → Result (List Measurement) × DataSource C F
  prepend_measurement d (ok ms, ds) = (ok (d ∷ ms), ds)
  prepend_measurement d (thrown e, ds) = (thrown e, ds)

  unfoldable pub process_ref_mapping :
      ℤ → List Measurement → Exec (DataSource C F) (List Measurement)
  process_ref_mapping id [] ds = return [] ds
  process_ref_mapping id (d ∷ ms) ds = elim (process_measurement id d d.value ds).0 [
    | thrown e ↦ (thrown e, (process_measurement id d d.value ds).1)
    | ok (goes_on, d') ↦ elim goes_on [
      | true ↦
          prepend_measurement d' (process_ref_mapping id ms (process_measurement id d d.value ds).1)
      | false ↦ return (d' ∷ ms) (process_measurement id d d.value ds).1
    ]
  ]
