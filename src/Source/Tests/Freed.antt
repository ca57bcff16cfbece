-- ===== src/Source/Tests/Freed.antt =====
-- The deletion of a data set with a reference, src/data_source_internal.cpp, at an example.
use qds_data_interface.Prelude.{true, ◌≡◌, refl, arith}
use qds_data_interface.Prelude.Int.{pos, ◌==ℤ◌}
use qds_data_interface.Ring.Valid.{IsValid}
use qds_data_interface.Source.Operations.{delete}
use qds_data_interface.Source.Owned.{has_id}
use qds_data_interface.Source.Failures.{NoReference}
use qds_data_interface.Source.Freed.{delete-NoReference}
use qds_data_interface.Source.Tests.{table, table_laws, disk, clock, config, one_entry}

one_entry-IsValid : IsValid one_entry.world.ring
one_entry-IsValid = record { bounded = omega arith; distinct = (tt, tt); ascending = λ m. (tt, tt) }

one_entry_held : has_id (pos 1) one_entry.world.ring.buffer ≡ true
unfolding has_id ◌==ℤ◌
one_entry_held = refl

delete-NoReference_example :
    NoReference table table_laws disk clock config
      (pos 1)
      (delete table disk clock config (pos 1) one_entry).world
delete-NoReference_example =
    delete-NoReference table table_laws disk clock config (pos 1) one_entry one_entry-IsValid
      one_entry_held
