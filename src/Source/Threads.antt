-- ===== src/Source/Threads.antt =====
-- Calls of `Add` that are under way at once, src/data_source_internal.cpp: each holds its id and its
-- measurements, and what it shares with the others it reads and writes under the mutexes of the
-- data source. A step is what runs while the outermost of them is held: the body of the loop of
-- `ProcessRefMapping` for one measurement, `buffer_.Push` with its callbacks, `DeleteRefMapping`.
use qds_data_interface.Prelude.{ℕ, Bool, true, false, ◌||◌, List, [], ◌∷◌, ◌++◌, ◌≡◌, ◌⊎◌}
use qds_data_interface.Prelude.Int.{ℤ, pos, negsuc, ◌==ℤ◌}
use qds_data_interface.Exception.{Exception, Result, ok, thrown}
use qds_data_interface.Measurement.{Measurement}
use qds_data_interface.Source.{ReferenceContainer, FileSystem, DataSource, Config}
use qds_data_interface.Source.Refs.{process_measurement}
use qds_data_interface.Source.Operations.{push_measurements, forget_references}
use qds_data_interface.Source.Run.{Method}

-- Where a call of `Add` is: in the loop over its measurements (those it is done with, and those to
-- come), before the push, before the references of its id are deleted, or over by an exception of
-- the loop, which leaves the references that the call has taken.
pub data Task : Type 0 where
  processing : ℤ → List Measurement → List Measurement → Task
  pushing : ℤ → List Measurement → Task
  forgetting : ℤ → Task
  abandoned : ℤ → Task

unfoldable pub task_id : Task → ℤ
task_id (processing id done todo) = id
task_id (pushing id ms) = id
task_id (forgetting id) = id
task_id (abandoned id) = id

-- Some task has the id.
unfoldable pub has_task : ℤ → List Task → Bool
has_task id [] = false
has_task id (t ∷ ts) = (task_id t ==ℤ id) || has_task id ts

-- The loop's next round, or its end at a reference that was there.
unfoldable pub next_round : Bool → ℤ → List Measurement → Measurement → List Measurement → Task
next_round true id done d todo = processing id (done ++ d ∷ []) todo
next_round false id done d todo = pushing id (done ++ d ∷ todo)

-- After the push: the call is over, or its references are to be deleted. The last argument is what
-- follows the task.
unfoldable pub after_push : ℤ → Result ℤ → List Task → List Task
after_push id (ok (pos n)) rest = rest
after_push id (ok (negsuc n)) rest = forgetting id ∷ rest
after_push id (thrown e) rest = forgetting id ∷ rest

pub record System (C F : Type 0) : Type 0 where
  pub shared : DataSource C F
  pub tasks : List Task

abbrev pub system : {C F : Type 0} → DataSource C F → List Task → System C F
system ds ts = record { shared = ds; tasks = ts }

-- An id that needs no entry: one of a given sort, or the id of a task.
abbrev pub IsFreeOr : (ℤ → Type 0) → List Task → ℤ → Type 0
IsFreeOr Base ts i = Base i ⊎ (has_task i ts ≡ true)

-- The id 0, or the id of a task.
abbrev pub IsFreeOf : List Task → ℤ → Type 0
IsFreeOf = IsFreeOr (λ i. i ≡ pos 0)

module _ {C F : Type 0} (refs : ReferenceContainer C) (fs : FileSystem F) (time : ℕ → ℕ)
    (config : Config) where
  -- A step of some task, wherever it stands, that does not use the buffer.
  pub data Advance (s : System C F) : System C F → Type 0 where
    begun :
        (id : ℤ) (ms : List Measurement)
        → Advance s (system s.shared (processing id [] ms ∷ s.tasks))
    processed :
        (id : ℤ) (done todo : List Measurement) (d d' : Measurement) (goes_on : Bool)
        (before after : List Task)
        → s.tasks ≡ before ++ processing id done (d ∷ todo) ∷ after
        → (process_measurement refs fs id d d.value s.shared).0 ≡ ok (goes_on, d')
        → Advance s (
            system
              (process_measurement refs fs id d d.value s.shared).1
              (before ++ next_round goes_on id done d' todo ∷ after))
    failed :
        (id : ℤ) (done todo : List Measurement) (d : Measurement) (e : Exception)
        (before after : List Task)
        → s.tasks ≡ before ++ processing id done (d ∷ todo) ∷ after
        → (process_measurement refs fs id d d.value s.shared).0 ≡ thrown e
        → Advance s (
            system
              (process_measurement refs fs id d d.value s.shared).1
              (before ++ abandoned id ∷ after))
    finished :
        (id : ℤ) (done : List Measurement) (before after : List Task)
        → s.tasks ≡ before ++ processing id done [] ∷ after
        → Advance s (system s.shared (before ++ pushing id done ∷ after))
    forgotten :
        (id : ℤ) (before after : List Task)
        → s.tasks ≡ before ++ forgetting id ∷ after
        → Advance s (system (forget_references refs fs time config id s.shared) (before ++ after))

  -- A step of some task, or a call of another method.
  pub data Step (s : System C F) : System C F → Type 0 where
    advanced : {v : System C F} → Advance s v → Step s v
    pushed :
        (id : ℤ) (ms : List Measurement) (before after : List Task)
        → s.tasks ≡ before ++ pushing id ms ∷ after
        → Step s (
            system (push_measurements refs fs time config id ms s.shared).1 (
              before
              ++ after_push id (push_measurements refs fs time config id ms s.shared).0 after))
    called :
        {ds : DataSource C F} → Method refs fs time config s.shared ds → Step s (system ds s.tasks)

  pub data Reach (s : System C F) : System C F → Type 0 where
    here : Reach s s
    next : {u v : System C F} → Reach s u → Step u v → Reach s v
