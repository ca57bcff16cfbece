-- ===== src/Source/Tests.antt =====
-- Histories of a data source (src/data_source_internal.cpp) over a table of references and a disk
-- with one file, and the theorems at them.
mod Provided
mod Interleaved
mod Lasting
mod Contents
mod Freed
mod Copied
use qds_data_interface.Prelude.{
  ◌≢◌, ◌++◌, arith, ℕ, ◌+◌, Bool, true, false, Option, none, some, List, [], ◌∷◌, ◌≡◌, ◌⊎◌, refl,
  length, if◌then◌else◌,
}
use qds_data_interface.Prelude.Int.{pos, ltb_ℤ, ◌==ℤ◌}
use qds_data_interface.Prelude.Str.{Str, str, ◌==s◌}
use qds_data_interface.Exception.{Exception, ok, thrown}
use qds_data_interface.Measurement.{Measurement, MeasurementType, word, text}
use qds_data_interface.Types.{user, BufferEntry, ReferenceData}
use qds_data_interface.Source.{
  references, ref_name, ReferenceContainer, ContainerLaws, FileSystem, DataSource, Mapping, Config,
  new, is_present, with_id, unless_id, no_information, set_reference, get_reference, is_ref,
}
use qds_data_interface.Source.Refs.{
  process_ref_mapping, process_measurement, process_ref, take_reference,
}
use qds_data_interface.Source.Operations.{
  reset, add, parsed, add_parsed, push_or_forget, push_measurements, forget_if_rejected,
}
use qds_data_interface.Source.Resets.{noted, reset-Recent}
use qds_data_interface.Source.Added.{EndsTyped, add-EndsTyped}
use qds_data_interface.Parser.Door.{door_parser, door_parsed, door_calls-NeverStops, door_balanced}
use qds_data_interface.Ring
use qds_data_interface.Source.Information.{Recent-none, Recent}
use qds_data_interface.Source.Process.{IsFree, Keeps, add_parsed-Owned}
use qds_data_interface.Source.References.{
  already_there, free_reference, ref_name_injective, set_reference-get_reference,
}
use qds_data_interface.Source.Mapped.{without_reference, process_plain}
use qds_data_interface.Source.Run.{Tidy, Reach, here, next, called, referenced, added, run-Owned}

-- A reference container as a function from names.
abbrev Table : Type 0
Table = Str → Option ReferenceData

abbrev table : ReferenceContainer Table
table = record {
  empty = λ r. none;
  find = λ r c. c r;
  emplace = λ d c r. if d.ref ==s r then (if is_present (c r) then c r else some d) else c r;
  modify_id = λ s id c r. if s ==s r then with_id id (c r) else c r;
  erase_id = λ id c r. unless_id id (c r);
  clear = λ c r. none;
}

table_laws : ContainerLaws table
table_laws = record {
  find-empty = λ r. refl;
  find-clear = λ r c. refl;
  find-emplace = λ r d c. refl;
  find-modify_id = λ r s id c. refl;
  find-erase_id = λ r id c. refl;
}

-- At most one file, by its path and content.
abbrev Disk : Type 0
Disk = Option (Str × Str)

abbrev holds : Str → Disk → Bool
holds path none = false
holds path (some (p, content)) = p ==s path

abbrev content_of : Disk → Str
content_of none = []
content_of (some (p, content)) = content

abbrev disk : FileSystem Disk
disk = record {
  can_fopen = holds;
  can_open = holds;
  size = λ path d. length (content_of d);
  read = λ path n d. some (content_of d);
  remove = λ path d. some none;
}

abbrev clock : ℕ → ℕ
clock n = 100 + n

abbrev config : Config
config = record {
  buffer_size = 2;
  counter_mode = pos 0;
  allow_overflow = true;
  reset_information_size = 3;
  deletion_information_size = 1;
  enable_memory_info_logging = false;
}

abbrev empty_source : DataSource Table Disk
empty_source = new table config none 0

-- A user's reference "manual".
abbrev with_manual : DataSource Table Disk
with_manual = (set_reference table (str "manual") (str "text") (str "txt") empty_source).1

abbrev manual : Measurement
manual = record {
  name = str "Manual";
  type = MeasurementType.ref;
  unit = [];
  value = text (str "manual");
}

pub manual_processed :
    (process_ref_mapping table disk (pos 7) (manual ∷ []) with_manual).0 ≡ ok (manual ∷ [])
unfolding process_ref_mapping process_measurement process_ref take_reference is_ref set_reference
    new ◌==s◌ ◌==ℤ◌ str
manual_processed = refl

abbrev with_entry : DataSource Table Disk
with_entry = (add_parsed table disk clock config (pos 7) (manual ∷ []) with_manual).1

abbrev history : Reach table table_laws disk clock config empty_source with_entry
history =
    next (next here (called (referenced (str "manual") (str "text") (str "txt"))))
      (added (pos 7) (manual ∷ []) (manual ∷ []) manual_processed)

run-Owned_example : Tidy table table_laws disk clock config IsFree with_entry
run-Owned_example = run-Owned table table_laws disk clock config none 0 history

empty-Tidy : Tidy table table_laws disk clock config IsFree empty_source
empty-Tidy = run-Owned table table_laws disk clock config none 0 here

abbrev first_entry : BufferEntry
first_entry = record { id = pos 1; measurements = []; timestamp_ms = 7; locked = false }

abbrev no_mapping : Mapping Table
no_mapping = record { references = λ r. none; deletion_information = no_information }

abbrev two_deletions : List (BufferEntry × ℕ)
two_deletions = (first_entry, 20) ∷ (record first_entry { id = pos 2 }, 30) ∷ []

set_reference-get_reference_example :
    ((is_present (table.find (str "a") (references with_manual)) ≡ true)
      × (set_reference table (str "a") (str "b") (str "c") with_manual
          ≡ (thrown (already_there (str "a")), with_manual)))
    ⊎ ((is_present (table.find (str "a") (references with_manual)) ≡ false)
        × ((set_reference table (str "a") (str "b") (str "c") with_manual).0 ≡ ok tt)
        × ((s : Str)
            → get_reference table s
                (set_reference table (str "a") (str "b") (str "c") with_manual).1
              ≡ (if str "a" ==s s
                  then ok (free_reference (str "a") (str "b") (str "c"))
                  else get_reference table s with_manual)))
set_reference-get_reference_example =
    set_reference-get_reference table table_laws (str "a") (str "b") (str "c") with_manual

door_added : (add table disk clock config door_parser (pos 7) [] empty_source).0 ≡ ok (pos 0)
unfolding add parsed add_parsed process_ref_mapping process_measurement is_ref push_or_forget
    push_measurements forget_if_rejected new Ring.new Ring.push Ring.insert Ring.last_id_ge
    Ring.push_back ltb_ℤ ◌==ℤ◌
door_added = rw (door_parsed, add, door_parsed) refl

add-EndsTyped_example :
    EndsTyped table table_laws disk clock config
      (pos 7)
      (add table disk clock config door_parser (pos 7) [] empty_source).1
add-EndsTyped_example =
    add-EndsTyped table table_laws disk clock config (pos 7) door_parser [] 0 empty_source
      door_calls-NeverStops door_balanced door_added

-- One entry, and no reset so far.
abbrev one_entry : DataSource Table Disk
one_entry = record {
  world = record {
    ring = record {
      max_size = 2;
      counter_mode = pos 0;
      allow_overflow = true;
      buffer = first_entry ∷ [];
    };
    readings = 1;
    owner = no_mapping;
  };
  ref_counter = 0;
  reset_information = no_information;
  files = none;
}

reset-Recent_example :
    Recent 3
      ([] ++ noted table disk clock config user one_entry)
      (reset table disk clock config user one_entry).reset_information
reset-Recent_example =
    reset-Recent table disk clock config user [] one_entry (omega arith) (Recent-none 3)
