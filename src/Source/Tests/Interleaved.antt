-- ===== src/Source/Tests/Interleaved.antt =====
-- Calls that are under way at once, src/data_source_internal.cpp, down to the accesses of the delete
-- callback, at an example: a call of `Delete` has noted the deletion of an entry and has still to
-- delete its reference, and a call of `Add` begins.
use qds_data_interface.Prelude.{◌≤◌, length, none, [], ◌∷◌, ◌≡◌, List, refl, false, ap, subst}
use qds_data_interface.Prelude.Int.{pos, ltb_ℤ, ◌==ℤ◌}
use qds_data_interface.Prelude.Str.{str, ◌==s◌}
use qds_data_interface.Exception.{Result}
use qds_data_interface.Measurement.{Measurement}
use qds_data_interface.Types.{BufferEntry}
use qds_data_interface.Ring
use qds_data_interface.Source.{DataSource, new, set_reference, is_ref}
use qds_data_interface.Source.Refs.{
  process_ref_mapping, process_measurement, process_ref, take_reference,
}
use qds_data_interface.Source.Operations.{
  add_parsed, push_or_forget, push_measurements, forget_if_rejected,
}
use qds_data_interface.Source.Run.{Method}
use qds_data_interface.Source.Threads
use qds_data_interface.Source.Threads.{processing, system, begun, called}
use qds_data_interface.Source.Sequential.{Runs, after_loop, trans_Runs, add_parsed-Runs}
use qds_data_interface.Source.Interleaved.{
  noted, erased, deletes, holds, acts_of, acts_of_calls, interleaved, with_buffer, with_mapping,
  delete_run, do_act, delete_entered, acted, advanced, Reach, next,
}
use qds_data_interface.Source.Interleaved.Invariant.{AllAccounted, run-AllAccounted}
use qds_data_interface.Source.Interleaved.Bounded.{HasShortLists, run-IsBounded}
use qds_data_interface.Ring.Valid.{IsValid}
use qds_data_interface.Source.Interleaved.Refined.{atomic-Reach}
use qds_data_interface.Source.Tests.{
  Table, Disk, table, table_laws, disk, clock, config, empty_source, with_manual, manual,
  manual_processed, with_entry,
}

abbrev entry : BufferEntry
entry = record { id = pos 7; measurements = manual ∷ []; timestamp_ms = 100; locked = false }

delete_acts :
    acts_of_calls (delete_run table disk clock config (pos 7) with_entry).owner
    ≡ noted entry 0 ∷ erased (pos 7) false ∷ []
unfolding acts_of_calls acts_of add_parsed process_ref_mapping process_measurement process_ref
    take_reference is_ref set_reference new push_or_forget push_measurements forget_if_rejected
    Ring.new Ring.push Ring.insert Ring.last_id_ge Ring.push_back Ring.delete Ring.delete_from
    Ring.notify ltb_ℤ ◌==ℤ◌ ◌==s◌ str
delete_acts = refl

-- The data set is added before; each use of the buffer is one step.
abbrev pub before_delete :
    Threads.Reach table disk clock config (system empty_source []) (system with_entry [])
before_delete =
    trans_Runs table disk clock config (pos 7) (system empty_source []) (system with_manual [])
      (system with_entry [])
      (Threads.next Threads.here
        (called (Method.referenced (str "manual") (str "text") (str "txt"))))
      (subst
        (λ (r : Result (List Measurement)).
          Runs table disk clock config (pos 7) (system with_manual [])
            (system with_entry (after_loop table disk clock config (pos 7) r [])))
        manual_processed
        (add_parsed-Runs table disk clock config (pos 7) (manual ∷ []) with_manual []))

abbrev in_delete : DataSource Table Disk
in_delete =
    with_mapping (do_act table config (noted entry 0))
      (with_buffer (delete_run table disk clock config (pos 7) with_entry) with_entry)

abbrev history : Reach table disk clock config (interleaved empty_source [] none) (
    interleaved in_delete
      (processing (pos 8) [] [] ∷ [])
      (holds (erased (pos 7) false ∷ []) deletes))
history =
    next
      (next
        (next (atomic-Reach table disk clock config before_delete) (delete_entered (pos 7) refl))
        (acted (noted entry 0) (erased (pos 7) false ∷ []) deletes
          (ap (λ l. holds l deletes) delete_acts)))
      (advanced (begun (pos 8) []))

run-AllAccounted_example :
    AllAccounted table table_laws disk clock config
      (holds (erased (pos 7) false ∷ []) deletes)
      (processing (pos 8) [] [] ∷ [])
      in_delete
run-AllAccounted_example = run-AllAccounted table table_laws disk clock config none 0 history

run-IsBounded_example :
    (length in_delete.world.ring.buffer ≤ 2)
    × IsValid in_delete.world.ring
    × HasShortLists table disk clock config in_delete
run-IsBounded_example = run-IsBounded table disk clock config none 0 history
