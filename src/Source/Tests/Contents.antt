-- ===== src/Source/Tests/Contents.antt =====
-- A file that becomes a reference, and a reset, src/data_source_internal.cpp, at an example.
use qds_data_interface.Prelude.{true, none, some, ◌≡◌, ◌⊎◌, is_empty, false}
use qds_data_interface.Prelude.Str.{Str, str}
use qds_data_interface.Exception.{Exception}
use qds_data_interface.Types.{user}
use qds_data_interface.Source.{DataSource, get_reference}
use qds_data_interface.Source.Operations.{reset}
use qds_data_interface.Source.References.{looked_up}
use qds_data_interface.Source.Contents.{reset-get_reference}
use qds_data_interface.Source.Tests.{Table, Disk, table, table_laws, disk, clock, config, one_entry}

-- A disk with the file "manual".
abbrev with_file : DataSource Table Disk
with_file = record one_entry { files = some (str "manual", str "text") }

reset-get_reference_example :
    ((is_empty one_entry.world.ring.buffer ≡ true)
      × ((reset table disk clock config user one_entry).world ≡ one_entry.world))
    ⊎ ((is_empty one_entry.world.ring.buffer ≡ false)
        × ((r : Str)
            → get_reference table r (reset table disk clock config user one_entry)
              ≡ looked_up r none))
reset-get_reference_example = reset-get_reference table table_laws disk clock config user one_entry
