-- ===== src/Source/Interleaved/Refined.antt =====
-- The calls of src/data_source_internal.cpp whose delete callbacks no other call comes between, as
-- runs of the steps down to the accesses of the callback.
use qds_data_interface.Prelude.{ℕ, none, some, List, [], ◌∷◌, ◌++◌, ◌≡◌, refl, sym, subst}
use qds_data_interface.Ring.Replay.{DeleteCall, replay, push-replay, delete-replay, reset-replay}
use qds_data_interface.Source.{
  ReferenceContainer, FileSystem, DataSource, Mapping, Config, on_delete_callback,
}
use qds_data_interface.Source.Operations.{push_measurements, delete, reset}
use qds_data_interface.Source.Run.{Method}
use qds_data_interface.Source.Threads
use qds_data_interface.Source.Threads.{Task, pushing, system}
use qds_data_interface.Source.Interleaved.{
  Act, acts_of, acts_of_calls, Call, pushes, deletes, resets, holds, after_call, System,
  interleaved, with_mapping, do_act, push_run, delete_run, reset_run, advanced, push_entered,
  delete_entered, reset_entered, acted, left, referenced, overflow_acknowledged, reset_acknowledged,
  locked, is_resetting, Reach, here, next,
}

module _ {C : Type 0} (refs : ReferenceContainer C) (config : Config) where
  unfoldable do_acts : List Act → Mapping C → Mapping C
  do_acts [] m = m
  do_acts (a ∷ acts) m = do_acts acts (do_act refs config a m)

  do_acts-replay :
      (calls : List DeleteCall) (m : Mapping C)
      → do_acts (acts_of_calls calls) m ≡ replay (on_delete_callback refs config) calls m
  unfolding do_acts acts_of_calls acts_of do_act replay on_delete_callback
  do_acts-replay [] m = refl
  do_acts-replay ((none, clear, t) ∷ calls) m = do_acts-replay calls _
  do_acts-replay ((some e, clear, t) ∷ calls) m = do_acts-replay calls _

module _ {C F : Type 0} (refs : ReferenceContainer C) (fs : FileSystem F) (time : ℕ → ℕ)
    (config : Config) where
  abbrev Runs : System C F → System C F → Type 0
  Runs = Reach refs fs time config

  acts-Runs :
      (acts : List Act) (call : Call) (ts : List Task) (ds : DataSource C F) (s : System C F)
      → Runs s (interleaved ds ts (holds acts call))
      → Runs s (interleaved (with_mapping (do_acts refs config acts) ds) ts (holds [] call))
  unfolding do_acts
  acts-Runs [] call ts ds s r = r
  acts-Runs (a ∷ acts) call ts ds s r =
      acts-Runs acts call ts (with_mapping (do_act refs config a) ds) s
        (next r (acted a acts call refl))

  -- From where a call has got the mutex to where it has released it.
  left-Runs :
      (calls : List DeleteCall) (call : Call) (before after : List Task) (ds : DataSource C F)
      (s : System C F)
      → Runs s (interleaved ds (before ++ after) (holds (acts_of_calls calls) call))
      → Runs s (
          interleaved
            (with_mapping (replay (on_delete_callback refs config) calls) ds)
            (before ++ after_call call after)
            none)
  left-Runs calls call before after ds s r =
      subst
        (λ m.
          Runs s (interleaved (with_mapping (λ x. m) ds) (before ++ after_call call after) none))
        (do_acts-replay refs config calls ds.world.owner)
        (next (acts-Runs (acts_of_calls calls) call (before ++ after) ds s r)
          (left call before after refl refl))

  Method-Runs :
      (ts : List Task) (s : System C F) {ds ds' : DataSource C F}
      → Method refs fs time config ds ds'
      → Runs s (interleaved ds ts none)
      → Runs s (interleaved ds' ts none)
  unfolding delete reset after_call is_resetting
  Method-Runs ts s {ds} (Method.deleted id) r =
      rw (delete-replay time (on_delete_callback refs config) id ds.world) (
        left-Runs (delete_run refs fs time config id ds).owner deletes [] ts _ s
          (next r (delete_entered id refl)))
  Method-Runs ts s {ds} (Method.emptied reason) r =
      subst
        (λ p. Runs s (
          interleaved
            (record ds {
              world = p.1;
              reset_information = (reset refs fs time config reason ds).reset_information;
            })
            ts none))
        (sym (reset-replay time (on_delete_callback refs config) reason ds.world))
        (left-Runs (reset_run refs fs time config reason ds).owner resets [] ts _ s
          (next r (reset_entered reason refl)))
  Method-Runs ts s (Method.referenced n contents format) r = next r (referenced n contents format)
  Method-Runs ts s Method.overflow_acknowledged r = next r overflow_acknowledged
  Method-Runs ts s Method.reset_acknowledged r = next r (reset_acknowledged refl)
  Method-Runs ts s (Method.locked i) r = next r (locked i refl)

  Step-Runs :
      (s : System C F) {u v : Threads.System C F}
      → Threads.Step refs fs time config u v
      → Runs s (interleaved u.shared u.tasks none)
      → Runs s (interleaved v.shared v.tasks none)
  unfolding push_measurements after_call
  Step-Runs s (Threads.advanced a) r = next r (advanced a)
  Step-Runs s {u} (Threads.called m) r = Method-Runs u.tasks s m r
  Step-Runs s {u} (Threads.pushed id ms before after e) r =
      rw (push-replay time (on_delete_callback refs config) id ms u.shared.world) (
        left-Runs (push_run refs fs time config id ms u.shared).1.owner
          (pushes id ms (push_run refs fs time config id ms u.shared).0) before after _ s
          (next r (push_entered id ms before after refl e)))

  -- Every run of calls in which each use of the buffer, with its callbacks, is one step is a run of
  -- the steps down to the accesses of the callbacks, from and to states in which no call holds the
  -- buffer's mutex.
  pub atomic-Reach :
      {u v : Threads.System C F}
      → Threads.Reach refs fs time config u v
      → Reach refs fs time config
          (interleaved u.shared u.tasks none)
          (interleaved v.shared v.tasks none)
  atomic-Reach Threads.here = here
  atomic-Reach {u} (Threads.next r step) =
      Step-Runs (interleaved u.shared u.tasks none) step (atomic-Reach r)
