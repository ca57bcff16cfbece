-- ===== src/Source/Tests/Lasting.antt =====
-- The reference of a stored data set, src/data_source_internal.cpp, at an example: another data set is
-- pushed.
use qds_data_interface.Prelude.{true, false, none, [], ◌≡◌, refl}
use qds_data_interface.Prelude.Int.{pos, ltb_ℤ, leb_ℤ, ◌==ℤ◌}
use qds_data_interface.Prelude.Str.{str, ◌==s◌}
use qds_data_interface.Exception.{ok}
use qds_data_interface.Types.{ReferenceData}
use qds_data_interface.Ring
use qds_data_interface.Ring.Valid.{IsValid}
use qds_data_interface.Source.{DataSource, get_reference, new, set_reference, is_ref}
use qds_data_interface.Source.Refs.{
  process_ref_mapping, process_measurement, process_ref, take_reference,
}
use qds_data_interface.Source.Operations.{
  add_parsed, push_or_forget, push_measurements, forget_if_rejected,
}
use qds_data_interface.Source.Owned.{has_id}
use qds_data_interface.Source.Threads.{has_task, begun, finished}
use qds_data_interface.Source.Interleaved.{
  pushes, holds, acts_of_calls, interleaved, with_buffer, push_run, push_entered, advanced, Reach,
  here, next,
}
use qds_data_interface.Source.Interleaved.Bounded.{run-IsBounded}
use qds_data_interface.Source.Interleaved.Refined.{atomic-Reach}
use qds_data_interface.Source.Interleaved.Lasting.{run-get_reference}
use qds_data_interface.Source.Tests.{
  Table, Disk, table, table_laws, disk, clock, config, with_entry,
}
use qds_data_interface.Source.Tests.Interleaved.{before_delete}

abbrev reference : ReferenceData
reference = record { id = pos 7; ref = str "manual"; format = str "txt"; content = str "text" }

in_use : (pos 7 ==ℤ pos 0) ≡ false
unfolding ◌==ℤ◌
in_use = refl

with_entry-IsValid : IsValid with_entry.world.ring
with_entry-IsValid =
    (run-IsBounded table disk clock config none 0
      (atomic-Reach table disk clock config before_delete)).1

has_reference : get_reference table (str "manual") with_entry ≡ ok reference
unfolding add_parsed process_ref_mapping process_measurement process_ref take_reference is_ref
    set_reference new push_or_forget push_measurements forget_if_rejected Ring.new Ring.push
    Ring.insert Ring.last_id_ge Ring.push_back ltb_ℤ ◌==ℤ◌ ◌==s◌ str get_reference
has_reference = refl

abbrev after_push : DataSource Table Disk
after_push = with_buffer (push_run table disk clock config (pos 8) [] with_entry).1 with_entry

entry_stays : has_id (pos 7) after_push.world.ring.buffer ≡ true
unfolding add_parsed process_ref_mapping process_measurement process_ref take_reference is_ref
    set_reference new push_or_forget push_measurements forget_if_rejected Ring.new Ring.push
    Ring.insert Ring.last_id_ge Ring.push_back ltb_ℤ leb_ℤ ◌==ℤ◌ ◌==s◌ str has_id
entry_stays = refl

abbrev history : Reach table disk clock config (interleaved with_entry [] none) (
    interleaved after_push [] (
      holds
        (acts_of_calls (push_run table disk clock config (pos 8) [] with_entry).1.owner)
        (pushes (pos 8) [] (push_run table disk clock config (pos 8) [] with_entry).0)))
history =
    next
      (next (next here (advanced (begun (pos 8) []))) (advanced (finished (pos 8) [] [] [] refl)))
      (push_entered (pos 8) [] [] [] refl refl)

run-get_reference_example : get_reference table (str "manual") after_push ≡ ok reference
unfolding has_task ◌==ℤ◌
run-get_reference_example =
    run-get_reference table table_laws disk clock config (str "manual") reference in_use history
      (((tt, refl), tt), tt) with_entry-IsValid refl refl has_reference entry_stays
