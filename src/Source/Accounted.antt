-- ===== src/Source/Accounted.antt =====
-- References, the entries of the buffer and the calls of `Add` that are under way,
-- src/data_source_internal.cpp.
use qds_data_interface.Prelude.{
  ℕ, Bool, true, false, ◌||◌, List, [], ◌∷◌, ◌++◌, ◌≡◌, inl, inr, refl, ◌∙◌, subst, arith,
}
use qds_data_interface.Prelude.Int.{ℤ, pos, negsuc, ◌==ℤ◌, ==ℤ_iff}
use qds_data_interface.Exception.{Result, ok, thrown}
use qds_data_interface.Measurement.{Measurement}
use qds_data_interface.Source.{
  ReferenceContainer, ContainerLaws, FileSystem, DataSource, Config, new,
}
use qds_data_interface.Source.Refs.{process_measurement}
use qds_data_interface.Source.Operations.{push_measurements, forget_references}
use qds_data_interface.Source.Integrity.{OwnedBut, Stored, push-Stored, forget-Owned}
use qds_data_interface.Source.Process.{IsFree, process_measurement-Keeps}
use qds_data_interface.Source.Run.{Tidy, Method-Tidy, new-Tidy}
use qds_data_interface.Source.Threads.{
  Task, processing, pushing, forgetting, task_id, has_task, next_round, after_push, System, system,
  abandoned, Advance, Step, begun, processed, failed, finished, advanced, pushed, forgotten, called,
  Reach, here, next, IsFreeOr, IsFreeOf,
}

pub has_task-middle :
    (before after : List Task) (t : Task) (id : ℤ)
    → has_task id (before ++ t ∷ after) ≡ (task_id t ==ℤ id) || has_task id (before ++ after)
unfolding has_task
has_task-middle [] after t id = refl
has_task-middle (x ∷ before) after t id = ground (arith, has_task-middle before after t id)

module _ {C F : Type 0} (refs : ReferenceContainer C) (laws : ContainerLaws refs)
    (fs : FileSystem F) (time : ℕ → ℕ) (config : Config) (Base : ℤ → Type 0) where
  -- Each reference has an id of the sort, or the id of a task or of an entry.
  abbrev pub AccountedBy : List Task → DataSource C F → Type 0
  AccountedBy ts ds = Tidy refs laws fs time config (IsFreeOr Base ts) ds

  -- The same, but for the references of one id.
  abbrev pub AccountedBut : List Task → ℤ → DataSource C F → Type 0
  AccountedBut ts id ds = OwnedBut refs laws fs time config (IsFreeOr Base ts) id ds.world

  -- A step on one task leaves the rest what it was: the references of the rest and of the task's id
  -- are accounted for before, so all others are by the rest.
  pub others-AccountedBut :
      (before after : List Task) (t : Task) (ts : List Task) (ds : DataSource C F)
      → ts ≡ before ++ t ∷ after
      → AccountedBy ts ds
      → AccountedBut (before ++ after) (task_id t) ds
  others-AccountedBut before after t ts ds e h r d f = elim (h r d f) [
    | inr i ↦ inr (inr i)
    | inl (inl z) ↦ inr (inl (inl z))
    | inl (inr i) ↦ ground (
      arith,
      has_task-middle before after t d.id,
      subst (λ u. has_task d.id u ≡ true) e i,
      ==ℤ_iff (task_id t) d.id,
    )
  ]

  -- The task's next state accounts for its id again.
  pub with_task-AccountedBy :
      (before after : List Task) (t : Task) (ds : DataSource C F)
      → AccountedBut (before ++ after) (task_id t) ds
      → AccountedBy (before ++ t ∷ after) ds
  with_task-AccountedBy before after t ds h r d f =
      let m : has_task d.id (before ++ t ∷ after)
          ≡ (task_id t ==ℤ d.id) || has_task d.id (before ++ after) =
        has_task-middle before after t d.id in
      elim (h r d f) [
        | inl own ↦ inl (inr (m ∙ ground (arith, ==ℤ_iff (task_id t) d.id)))
        | inr (inr i) ↦ inr i
        | inr (inl (inl z)) ↦ inl (inl z)
        | inr (inl (inr i)) ↦ inl (inr (m ∙ ground arith))
      ]

  task_id-next_round :
      (goes_on : Bool) (id : ℤ) (done : List Measurement) (d : Measurement)
      (todo : List Measurement)
      → task_id (next_round goes_on id done d todo) ≡ id
  unfolding task_id next_round
  task_id-next_round true id done d todo = refl
  task_id-next_round false id done d todo = refl

  pub pushed-AccountedBy :
      (before after : List Task) (id : ℤ) (p : Result ℤ × DataSource C F)
      → Stored refs laws fs time config (IsFreeOr Base (before ++ after)) id (p.0, p.1.world)
      → AccountedBy (before ++ after_push id p.0 after) p.1
  unfolding after_push task_id
  pushed-AccountedBy before after id (ok (pos n), ds) h = h
  pushed-AccountedBy before after id (ok (negsuc n), ds) h =
      with_task-AccountedBy before after (forgetting id) ds h
  pushed-AccountedBy before after id (thrown e, ds) h =
      with_task-AccountedBy before after (forgetting id) ds h

  -- One round of a loop, whatever the task is after it.
  round-AccountedBy :
      (before after : List Task) (t t' : Task) (ts : List Task) (d : Measurement)
      (ds : DataSource C F)
      → ts ≡ before ++ t ∷ after
      → task_id t' ≡ task_id t
      → AccountedBy ts ds
      → AccountedBy (before ++ t' ∷ after) (process_measurement refs fs (task_id t) d d.value ds).1
  round-AccountedBy before after t t' ts d ds e same h =
      with_task-AccountedBy before after t' (process_measurement refs fs (task_id t) d d.value ds).1
        (rw same (
          process_measurement-Keeps refs laws fs time config (IsFreeOr Base (before ++ after))
            (task_id t) d d.value ds (others-AccountedBut before after t ts ds e h)))

  pub Advance-AccountedBy :
      {u v : System C F}
      → Advance refs fs time config u v
      → AccountedBy u.tasks u.shared
      → AccountedBy v.tasks v.shared
  unfolding task_id has_task forget_references
  Advance-AccountedBy {u} (begun id ms) h =
      with_task-AccountedBy [] u.tasks (processing id [] ms) u.shared (λ r d f. inr (h r d f))
  Advance-AccountedBy {u} (processed id done todo d d' goes_on before after e p) h =
      round-AccountedBy before after (processing id done (d ∷ todo))
        (next_round goes_on id done d' todo) u.tasks d u.shared e
        (task_id-next_round goes_on id done d' todo) h
  Advance-AccountedBy {u} (failed id done todo d x before after e p) h =
      round-AccountedBy before after (processing id done (d ∷ todo)) (abandoned id) u.tasks d
        u.shared e refl h
  Advance-AccountedBy {u} (finished id done before after e) h =
      with_task-AccountedBy before after (pushing id done) u.shared
        (others-AccountedBut before after (processing id done []) u.tasks u.shared e h)
  Advance-AccountedBy {u} (forgotten id before after e) h =
      forget-Owned refs laws fs time config _ id u.shared.world
        (others-AccountedBut before after (forgetting id) u.tasks u.shared e h)

module _ {C F : Type 0} (refs : ReferenceContainer C) (laws : ContainerLaws refs)
    (fs : FileSystem F) (time : ℕ → ℕ) (config : Config) where
  abbrev pub IsAccounted : System C F → Type 0
  IsAccounted s = Tidy refs laws fs time config (IsFreeOf s.tasks) s.shared

  Step-IsAccounted :
      {u v : System C F} → Step refs fs time config u v → IsAccounted u → IsAccounted v
  unfolding push_measurements task_id
  Step-IsAccounted (advanced a) h = Advance-AccountedBy refs laws fs time config IsFree a h
  Step-IsAccounted {u} (pushed id ms before after e) h =
      pushed-AccountedBy refs laws fs time config IsFree before after id
        (push_measurements refs fs time config id ms u.shared)
        (push-Stored refs laws fs time config _ id ms u.shared.world (
          others-AccountedBut refs laws fs time config IsFree before after (pushing id ms) u.tasks
            u.shared e h))
  Step-IsAccounted {u} (called m) h =
      Method-Tidy refs laws fs time config (IsFreeOf u.tasks) (inl refl) m h

  Reach-IsAccounted :
      {u v : System C F} → Reach refs fs time config u v → IsAccounted u → IsAccounted v
  Reach-IsAccounted here h = h
  Reach-IsAccounted (next r s) h = Step-IsAccounted s (Reach-IsAccounted r h)

  -- From a new data source, in any interleaving of calls of `Add`, of the other methods and of locks
  -- of entries, each reference is free, or has the id of an entry of the buffer, of a call of `Add`
  -- under way, or of one whose loop over the measurements has thrown.
  run-IsAccounted :
      (files : F) (n : ℕ) {s : System C F}
      → Reach refs fs time config (system (new refs config files n) []) s
      → IsAccounted s
  run-IsAccounted files n r =
      Reach-IsAccounted r (new-Tidy refs laws fs time config (IsFreeOf []) files n)
