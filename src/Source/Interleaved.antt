-- ===== src/Source/Interleaved.antt =====
-- Calls that are under way at once, src/data_source_internal.cpp, down to the mutexes that the delete
-- callback takes: `RingBuffer::Push`, `Delete` and `Reset` hold the buffer's mutex while they call it,
-- and between two of its accesses to the deletion list and the references other calls access them.
-- The buffer, which no other call sees before the mutex is released, is changed at once where the
-- call gets the mutex, with what the call of `Reset` notes of it; the callback's calls are those that
-- a callback that writes its arguments down sees.
pub mod Pending
pub mod Leaving
pub mod Stored
pub mod There
pub mod Invariant
pub mod Others
pub mod Lasting
pub mod Linear
pub mod Bounded
pub mod Refined
use qds_data_interface.Prelude.{ℕ, Bool, true, false, Option, none, some, List, [], ◌∷◌, ◌++◌, ◌≡◌}
use qds_data_interface.Prelude.Int.{ℤ, pos}
use qds_data_interface.Prelude.Str.{Str}
use qds_data_interface.Exception.{Result}
use qds_data_interface.Measurement.{Measurement}
use qds_data_interface.Types.{BufferEntry, ResetReason}
use qds_data_interface.Ring
use qds_data_interface.Ring.{World}
use qds_data_interface.Ring.Replay.{DeleteCall, record_call, with_owner}
use qds_data_interface.Source.{
  ReferenceContainer, FileSystem, DataSource, Mapping, Config, delete_ref_mapping, note_deletion,
  set_reference,
}
use qds_data_interface.Source.Operations.{reset, acknowledge_overflow, acknowledge_reset, lock_data}
use qds_data_interface.Source.Threads
use qds_data_interface.Source.Threads.{Task, pushing, after_push, system, Advance}

-- What the delete callback does while it holds a mutex: it notes the deletion of an entry, or deletes
-- references (`DeleteRefMapping`).
pub data Act : Type 0 where
  noted : BufferEntry → ℕ → Act
  erased : ℤ → Bool → Act

unfoldable pub acts_of : DeleteCall → List Act
acts_of (none, clear, t) = erased (pos 0) clear ∷ []
acts_of (some e, clear, t) = noted e t ∷ erased e.id clear ∷ []

unfoldable pub acts_of_calls : List DeleteCall → List Act
acts_of_calls [] = []
acts_of_calls (c ∷ calls) = acts_of c ++ acts_of_calls calls

-- The call that holds the buffer's mutex; of a push, with its result.
pub data Call : Type 0 where
  pushes : ℤ → List Measurement → Result ℤ → Call
  deletes : Call
  resets : Call

-- What is left of the callback's calls.
pub record Holder : Type 0 where
  pub acts : List Act
  pub call : Call

abbrev pub holds : List Act → Call → Option Holder
holds acts call = some (record { acts = acts; call = call })

-- `Reset` holds the mutex of the list of resets too.
unfoldable pub is_resetting : Option Holder → Bool
is_resetting none = false
is_resetting (some h) = elim h.call [ pushes id ms r ↦ false | deletes ↦ false | resets ↦ true ]

-- The tasks after the mutex is released; the last argument is what follows the task of a push.
unfoldable pub after_call : Call → List Task → List Task
after_call (pushes id ms r) rest = after_push id r rest
after_call deletes rest = rest
after_call resets rest = rest

pub record System (C F : Type 0) : Type 0 where
  pub shared : DataSource C F
  pub tasks : List Task
  pub holder : Option Holder

module _ {C F : Type 0} where
  abbrev pub interleaved : DataSource C F → List Task → Option Holder → System C F
  interleaved ds ts h = record { shared = ds; tasks = ts; holder = h }

  -- The buffer and the clock as they are after the call, the owner's state as it is before.
  abbrev pub with_buffer : {S : Type 0} → World S → DataSource C F → DataSource C F
  with_buffer w ds = record ds { world = with_owner ds.world.owner w }

  abbrev pub with_mapping : (Mapping C → Mapping C) → DataSource C F → DataSource C F
  with_mapping f ds = record ds { world = record ds.world { owner = f ds.world.owner } }

module _ {C : Type 0} (refs : ReferenceContainer C) (config : Config) where
  unfoldable pub do_act : Act → Mapping C → Mapping C
  do_act (noted e t) m = note_deletion config.deletion_information_size e t m
  do_act (erased id clear) m = delete_ref_mapping refs id clear m

module _ {C F : Type 0} (refs : ReferenceContainer C) (fs : FileSystem F) (time : ℕ → ℕ)
    (config : Config) where
  -- The runs of the ring buffer's methods with a callback that writes its arguments down.
  abbrev pub push_run : ℤ → List Measurement → DataSource C F → Result ℤ × World (List DeleteCall)
  push_run id ms ds = Ring.push time (some record_call) id ms (with_owner [] ds.world)

  abbrev pub delete_run : ℤ → DataSource C F → World (List DeleteCall)
  delete_run id ds = Ring.delete time (some record_call) id (with_owner [] ds.world)

  abbrev pub reset_run : ResetReason → DataSource C F → World (List DeleteCall)
  reset_run reason ds = (Ring.reset time (some record_call) reason (with_owner [] ds.world)).1

  pub data Step (s : System C F) : System C F → Type 0 where
    advanced :
        {v : Threads.System C F}
        → Advance refs fs time config (system s.shared s.tasks) v
        → Step s (interleaved v.shared v.tasks s.holder)
    push_entered :
        (id : ℤ) (ms : List Measurement) (before after : List Task)
        → s.holder ≡ none
        → s.tasks ≡ before ++ pushing id ms ∷ after
        → Step s (
            interleaved (with_buffer (push_run id ms s.shared).1 s.shared) (before ++ after) (
              holds
                (acts_of_calls (push_run id ms s.shared).1.owner)
                (pushes id ms (push_run id ms s.shared).0)))
    delete_entered :
        (id : ℤ)
        → s.holder ≡ none
        → Step s (
            interleaved
              (with_buffer (delete_run id s.shared) s.shared)
              s.tasks
              (holds (acts_of_calls (delete_run id s.shared).owner) deletes))
    reset_entered :
        (reason : ResetReason)
        → s.holder ≡ none
        → Step s (
            interleaved
              (with_buffer (reset_run reason s.shared) (record s.shared {
                reset_information = (reset refs fs time config reason s.shared).reset_information;
              }))
              s.tasks
              (holds (acts_of_calls (reset_run reason s.shared).owner) resets))
    acted :
        (a : Act) (acts : List Act) (call : Call)
        → s.holder ≡ holds (a ∷ acts) call
        → Step s
            (interleaved (with_mapping (do_act refs config a) s.shared) s.tasks (holds acts call))
    left :
        (call : Call) (before after : List Task)
        → s.holder ≡ holds [] call
        → s.tasks ≡ before ++ after
        → Step s (interleaved s.shared (before ++ after_call call after) none)
    referenced :
        (r contents format : Str)
        → Step s (interleaved (set_reference refs r contents format s.shared).1 s.tasks s.holder)
    overflow_acknowledged :
        Step s (interleaved (acknowledge_overflow refs fs time config s.shared).1 s.tasks s.holder)
    reset_acknowledged :
        is_resetting s.holder ≡ false
        → Step s (interleaved (acknowledge_reset s.shared).1 s.tasks s.holder)
    locked :
        (i : ℕ) → s.holder ≡ none → Step s (interleaved (lock_data i s.shared) s.tasks s.holder)

  pub data Reach (s : System C F) : System C F → Type 0 where
    here : Reach s s
    next : {u v : System C F} → Reach s u → Step u v → Reach s v
