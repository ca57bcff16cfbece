-- ===== src/Source.antt =====
-- src/data_source_internal.hpp and src/data_source_internal.cpp. The reference container (of Boost),
-- the file system, the JSON parser and the clock are parameters.
pub mod Refs
pub mod Information
pub mod Owned
pub mod Integrity
pub mod Process
pub mod Run
pub mod Errors
pub mod Settle
pub mod Failures
pub mod Good
pub mod Counted
pub mod Last
pub mod Provided
pub mod Frame
pub mod Resets
pub mod Added
pub mod Mapped
pub mod References
pub mod Threads
pub mod Accounted
pub mod Interleaved
pub mod Freed
pub mod Copied
pub mod Window
pub mod Contents
pub mod Sequential
mod Tests
pub mod Operations
use qds_data_interface.Prelude.{
  ℕ, zero, suc, ◌+◌, ◌^◌, ◌%◌, Bool, true, false, not, Option, none, some, List, [], ◌∷◌, ◌++◌, ◌≡◌,
  length, is_empty, ltb, ◌==◌, if◌then◌else◌,
}
use qds_data_interface.Prelude.Int.{ℤ, pos, negsuc, ltb_ℤ, ◌==ℤ◌}
use qds_data_interface.Prelude.Str.{Str, str, ◌==s◌, to_string}
use qds_data_interface.Exception.{
  Exception, Class, Exec, Result, ok, thrown, parsing, ref, file_io, bad_get, return, throw,
  rethrow_after, ◌>>=◌, ◌>>◌,
}
use qds_data_interface.Measurement.{Measurement, MeasurementType, Value, text}
use qds_data_interface.Types.{
  BufferEntry, ResetReason, ResetInformation, DeletionInformation, InformationList, ReferenceData,
}
use qds_data_interface.Ring
use qds_data_interface.Ring.{RingBuffer, World, OnDeleteCallback, minus_one}
use qds_data_interface.Validator.{ParsingState, initial}
use qds_data_interface.Validator.Values.{parser_callback}
use qds_data_interface.Parser.{BasicParser, parse}

-- `ReferenceContainer`, a container of Boost.MultiIndex with an index by id that allows equal keys,
-- and one by reference name that does not: its operations, and what they are documented to do.
pub record ReferenceContainer (C : Type 0) : Type 0 where
  pub empty : C
  -- `get<ref>().find(ref)`
  pub find : Str → C → Option ReferenceData
  -- `emplace`, which refuses an element whose name is there
  pub emplace : ReferenceData → C → C
  -- `get<ref>().modify(find(ref), ...)` of the id
  pub modify_id : Str → ℤ → C → C
  -- `get<id>().erase` of the equal range of an id
  pub erase_id : ℤ → C → C
  pub clear : C → C

abbrev pub is_present : Option ReferenceData → Bool
is_present none = false
is_present (some d) = true

abbrev with_id : ℤ → Option ReferenceData → Option ReferenceData
with_id id none = none
with_id id (some d) = some (record d { id = id })

abbrev unless_id : ℤ → Option ReferenceData → Option ReferenceData
unless_id id none = none
unless_id id (some d) = if d.id ==ℤ id then none else some d

pub record ContainerLaws {C : Type 0} (refs : ReferenceContainer C) : Type 0 where
  pub find-empty : (r : Str) → refs.find r refs.empty ≡ none
  pub find-clear : (r : Str) (c : C) → refs.find r (refs.clear c) ≡ none
  pub find-emplace :
      (r : Str) (d : ReferenceData) (c : C)
      → refs.find r (refs.emplace d c) ≡ (
          if d.ref ==s r
          then (if is_present (refs.find r c) then refs.find r c else some d)
          else refs.find r c)
  pub find-modify_id :
      (r s : Str) (id : ℤ) (c : C)
      → refs.find r (refs.modify_id s id c)
        ≡ (if s ==s r then with_id id (refs.find r c) else refs.find r c)
  pub find-erase_id :
      (r : Str) (id : ℤ) (c : C) → refs.find r (refs.erase_id id c) ≡ unless_id id (refs.find r c)

-- The file system `F`, as `ProcessRefMapping` uses it.
pub record FileSystem (F : Type 0) : Type 0 where
  -- does `fopen(path, "r")` succeed?
  pub can_fopen : Str → F → Bool
  -- does `std::ifstream` open the path?
  pub can_open : Str → F → Bool
  pub size : Str → F → ℕ
  -- `read` of so many bytes; `none` if it fails
  pub read : Str → ℕ → F → Option Str
  -- `std::remove`; `none` if it fails
  pub remove : Str → F → Option F

-- The members that the delete callback changes.
pub record Mapping (C : Type 0) : Type 0 where
  pub references : C
  pub deletion_information : InformationList DeletionInformation

-- The data source, with the file system and the clock's reading that it works in.
pub record DataSource (C F : Type 0) : Type 0 where
  pub world : World (Mapping C)
  pub ref_counter : ℕ
  pub reset_information : InformationList ResetInformation
  pub files : F

-- The constructor's constants.
pub record Config : Type 0 where
  pub buffer_size : ℕ
  pub counter_mode : ℤ
  pub allow_overflow : Bool
  pub reset_information_size : ℕ
  pub deletion_information_size : ℕ
  pub enable_memory_info_logging : Bool

abbrev pub no_information : {A : Type 0} → InformationList A
no_information = record { list = []; exceeded_max_entries = false }

abbrev pop_front {ℓ} : {A : Type ℓ} → List A → List A
pop_front [] = []
pop_front (x ∷ xs) = xs

-- `emplace_back`, and `pop_front` with the flag set where the list has overflown.
unfoldable pub drop_oldest : {A : Type 0} → ℕ → InformationList A → InformationList A
drop_oldest size l =
    if ltb size (length l.list)
    then record { list = pop_front l.list; exceeded_max_entries = true }
    else l

unfoldable pub emplace_back : {A : Type 0} → A → InformationList A → InformationList A
emplace_back a l = record l { list = l.list ++ a ∷ [] }

unfoldable pub ref_exception : Str → Str → Exception
ref_exception msg scope = record { class = ref; msg = msg; scope = scope }

unfoldable pub file_exception : Str → Exception
file_exception msg = record {
  class = file_io;
  msg = msg;
  scope = str "DataSourceInternal::ProcessRefMapping";
}

-- `value.find_last_of(".")` and `substr`: what stands behind the last dot.
unfoldable pub extension : Str → Option Str
extension [] = none
extension (c ∷ s) = elim (extension s) [
  | some e ↦ some e
  | none ↦ if c == b'.' then some s else none
]

unfoldable pub format_of : Str → Str
unfolding extension
format_of path = elim (extension path) [ none ↦ str "unknown" | some e ↦ e ]

-- "ref-" + std::to_string(n)
unfoldable pub ref_name : ℕ → Str
ref_name n = str "ref-" ++ to_string n

-- `boost::get<std::string>` of another alternative.
unfoldable pub bad_get_exception : Exception
bad_get_exception = record { class = bad_get; msg = str "boost::bad_get"; scope = [] }

unfoldable pub is_ref : MeasurementType → Bool
is_ref MeasurementType.ref = true
is_ref _ = false

module _ {C F : Type 0} where
  abbrev pub references : DataSource C F → C
  references ds = ds.world.owner.references

  abbrev pub with_references : C → DataSource C F → DataSource C F
  with_references c ds = record ds {
    world = record ds.world { owner = record ds.world.owner { references = c } };
  }

unfoldable pub delete_ref_mapping :
    {C : Type 0} → ReferenceContainer C → ℤ → Bool → Mapping C → Mapping C
delete_ref_mapping refs id clear m = record m {
  references = if clear then refs.clear m.references else refs.erase_id id m.references;
}

unfoldable pub note_deletion : {C : Type 0} → ℕ → BufferEntry → ℕ → Mapping C → Mapping C
note_deletion size e t m = record m {
  deletion_information = drop_oldest size (
      emplace_back (record { deletion_time_ms = t; data_set_time_ms = e.timestamp_ms })
        m.deletion_information);
}

module _ {C : Type 0} (refs : ReferenceContainer C) where
  unfoldable pub on_delete_callback : Config → OnDeleteCallback (Mapping C)
  on_delete_callback config none clear t m = delete_ref_mapping refs (pos 0) clear m
  on_delete_callback config (some e) clear t m =
      delete_ref_mapping refs e.id clear (note_deletion config.deletion_information_size e t m)

  -- The constructor, in a file system and at a reading of the clock.
  unfoldable pub new : {F : Type 0} → Config → F → ℕ → DataSource C F
  new config files readings = record {
    world = record {
      ring = Ring.new config.buffer_size config.counter_mode config.allow_overflow;
      readings = readings;
      owner = record { references = refs.empty; deletion_information = no_information };
    };
    ref_counter = 0;
    reset_information = no_information;
    files = files;
  }

  unfoldable pub set_reference : {F : Type 0} → Str → Str → Str → Exec (DataSource C F) Unit
  set_reference r contents data_format ds =
      if is_present (refs.find r (references ds))
      then throw
          (ref_exception (str "Reference " ++ r ++ str " exists already")
            (str "DataSourceInternal::SetRef"))
          ds
      else return tt (
          with_references
            (refs.emplace (record { id = pos 0; ref = r; format = data_format; content = contents })
              (references ds))
            ds)

  unfoldable pub get_reference : {F : Type 0} → Str → DataSource C F → Result ReferenceData
  get_reference r ds = elim (refs.find r (references ds)) [
    | some d ↦ ok d
    | none ↦ thrown (
        ref_exception (str "Reference " ++ r ++ str " not found")
          (str "DataSourceInternal::GetRef"))
  ]
