-- ===== src/Source/Interleaved/Others.antt =====
-- The tasks of the other calls of `Add`, src/data_source_internal.cpp: a step changes none of their ids,
-- and none begins with a given one.
use qds_data_interface.Prelude.{
  Bool, ◌++◌, ◌||◌, [], ℕ, true, false, List, ◌∷◌, ◌≡◌, sym, ◌∙◌, subst, arith,
}
use qds_data_interface.Prelude.Int.{ℤ, pos, negsuc, ◌==ℤ◌}
use qds_data_interface.Exception.{ok, thrown}
use qds_data_interface.Measurement.{Measurement}
use qds_data_interface.Source.Accounted.{has_task-middle}
use qds_data_interface.Source.{ReferenceContainer, FileSystem, Config}
use qds_data_interface.Source.Threads
use qds_data_interface.Source.Threads.{
  Task, pushing, forgetting, task_id, has_task, next_round, after_push, Advance, begun, processed,
  failed, finished, forgotten,
}
use qds_data_interface.Source.Interleaved.{
  after_call, Call, pushes, deletes, resets, holds, System, Step, advanced, Reach, here, next,
}
use qds_data_interface.Source.Interleaved.Stored.{holder_tasks}

module _ (id : ℤ) where
  pub without_task :
      (before after : List Task) (t : Task) (ts : List Task)
      → ts ≡ before ++ t ∷ after
      → has_task id ts ≡ false
      → ((task_id t ==ℤ id) ≡ false) × (has_task id (before ++ after) ≡ false)
  without_task before after t ts e h =
      let m : (task_id t ==ℤ id) || has_task id (before ++ after) ≡ false =
        sym (has_task-middle before after t id) ∙ subst (λ x. has_task id x ≡ false) e h in
      (ground arith, ground arith)

  pub with_task :
      (before after : List Task) (t : Task)
      → (task_id t ==ℤ id) ≡ false
      → has_task id (before ++ after) ≡ false
      → has_task id (before ++ t ∷ after) ≡ false
  with_task before after t o h = has_task-middle before after t id ∙ ground arith

  pub with_next_round :
      (before after : List Task) (goes_on : Bool) (i : ℤ) (done todo : List Measurement)
      (m : Measurement)
      → (i ==ℤ id) ≡ false
      → has_task id (before ++ after) ≡ false
      → has_task id (before ++ next_round goes_on i done m todo ∷ after) ≡ false
  unfolding next_round task_id
  with_next_round before after true i done todo m o h = with_task before after _ o h
  with_next_round before after false i done todo m o h = with_task before after _ o h

  pub with_after_call :
      (call : Call) (before after : List Task)
      → has_task id (holder_tasks (holds [] call)) ≡ false
      → has_task id (before ++ after) ≡ false
      → has_task id (before ++ after_call call after) ≡ false
  unfolding after_call has_task task_id after_push
  with_after_call deletes before after o h = h
  with_after_call resets before after o h = h
  with_after_call (pushes i ms (ok (pos n))) before after o h = h
  with_after_call (pushes i ms (ok (negsuc n))) before after o h =
      with_task before after (forgetting i) (ground arith) h
  with_after_call (pushes i ms (thrown e)) before after o h =
      with_task before after (forgetting i) (ground arith) h

module _ {C F : Type 0} (refs : ReferenceContainer C) (fs : FileSystem F) (time : ℕ → ℕ)
    (config : Config) (id : ℤ) where
  abbrev pub AdvanceAvoids : {u v : Threads.System C F} → Advance refs fs time config u v → Type 0
  AdvanceAvoids (begun i ms) = (i ==ℤ id) ≡ false
  AdvanceAvoids _ = Unit

  abbrev pub StepAvoids : {u v : System C F} → Step refs fs time config u v → Type 0
  StepAvoids (advanced a) = AdvanceAvoids a
  StepAvoids _ = Unit

  -- No call of `Add` with the id begins.
  abbrev pub Avoids : {u v : System C F} → Reach refs fs time config u v → Type 0
  Avoids here = Unit
  Avoids (next r s) = Avoids r × StepAvoids s

  pub Advance-tasks :
      {u v : Threads.System C F} (a : Advance refs fs time config u v)
      → AdvanceAvoids a
      → has_task id u.tasks ≡ false
      → has_task id v.tasks ≡ false
  unfolding has_task task_id
  Advance-tasks (begun i ms) o h = ground arith
  Advance-tasks {u} (processed i done todo m m' goes_on before after e p) o h =
      let (other, rest) = without_task id before after _ u.tasks e h in
      with_next_round id before after goes_on i done todo m' other rest
  Advance-tasks {u} (failed i done todo m x before after e p) o h =
      let (other, rest) = without_task id before after _ u.tasks e h in
      with_task id before after _ other rest
  Advance-tasks {u} (finished i done before after e) o h =
      let (other, rest) = without_task id before after _ u.tasks e h in
      with_task id before after _ other rest
  Advance-tasks {u} (forgotten i before after e) o h =
      (without_task id before after _ u.tasks e h).1
