-- ===== src/Source/Interleaved/Lasting.antt =====
-- The references of a stored data set, src/data_source_internal.cpp: how long they last while other
-- calls are under way.
use qds_data_interface.Prelude.{
  ℕ, true, false, Option, none, some, List, ◌∷◌, ◌≡◌, refl, sym, ◌∙◌, subst, arith, inl, inr,
  Option-cases,
}
use qds_data_interface.Prelude.Int.{ℤ, pos, ◌==ℤ◌, ==ℤ_iff}
use qds_data_interface.Prelude.Str.{Str}
use qds_data_interface.Exception.{ok}
use qds_data_interface.Types.{ReferenceData}
use qds_data_interface.Ring.{World, lock}
use qds_data_interface.Ring.Valid.{IsValid}
use qds_data_interface.Ring.Run.{Reach-IsValid}
use qds_data_interface.Ring.Replay.{DeleteCall}
use qds_data_interface.Source.{
  ReferenceContainer, ContainerLaws, FileSystem, DataSource, Config, references, delete_ref_mapping,
  note_deletion, set_reference, get_reference,
}
use qds_data_interface.Source.Operations.{
  forget_references, acknowledge_overflow, acknowledge_reset, lock_data,
}
use qds_data_interface.Source.Owned.{has_id}
use qds_data_interface.Source.Run.{has_id-lock_entry}
use qds_data_interface.Source.Threads
use qds_data_interface.Source.Threads.{
  Task, pushing, forgetting, task_id, has_task, next_round, after_push, Advance, begun, processed,
  failed, finished, forgotten,
}
use qds_data_interface.Source.Interleaved.{
  Act, noted, erased, acts_of_calls, Call, pushes, deletes, resets, Holder, holds, System,
  with_buffer, with_mapping, do_act, push_run, delete_run, reset_run, Step, advanced, push_entered,
  delete_entered, reset_entered, acted, left, referenced, overflow_acknowledged, reset_acknowledged,
  locked, Reach, here, next,
}
use qds_data_interface.Source.Interleaved.Pending.{pending}
use qds_data_interface.Source.Interleaved.Stored.{
  holder_acts, holder_tasks, buffer_of, Advance-buffer_of, set_reference-buffer_of,
}
use qds_data_interface.Source.Interleaved.Linear.{ignore, Reach-BufferRuns}
use qds_data_interface.Source.Interleaved.Leaving.{Stays, push-Stays, delete-Stays, reset-Stays}
use qds_data_interface.Source.Interleaved.There.{
  IsThere, process_measurement-IsThere, set_reference-IsThere,
}
use qds_data_interface.Source.Interleaved.Others.{
  without_task, with_after_call, StepAvoids, Avoids, Advance-tasks,
}

module _ {C F : Type 0} (refs : ReferenceContainer C) (laws : ContainerLaws refs)
    (fs : FileSystem F) (time : ℕ → ℕ) (config : Config) (r : Str) (d : ReferenceData)
    (used : (d.id ==ℤ pos 0) ≡ false) where
  abbrev Has : DataSource C F → Type 0
  Has = IsThere refs laws fs r d used

  -- Where an entry has the reference's id, the callback is not to delete it, and it is there.
  abbrev Holds : Option Holder → DataSource C F → Type 0
  Holds h ds =
      has_id d.id ds.world.ring.buffer ≡ true → (pending d.id (holder_acts h) ≡ false) × Has ds

  -- No call of `Add` with the reference's id is under way, and `Holds`.
  abbrev Lasts : System C F → Type 0
  Lasts s =
      (has_task d.id s.tasks ≡ false)
      × (has_task d.id (holder_tasks s.holder) ≡ false)
      × Holds s.holder s.shared

  erased-Has :
      (id : ℤ) (ds : DataSource C F)
      → (id ==ℤ d.id) ≡ false
      → Has ds
      → Has (with_mapping (delete_ref_mapping refs id false) ds)
  unfolding delete_ref_mapping
  erased-Has id ds o h =
      laws.find-erase_id r id (references ds)
      ∙ rw (h) (ground (arith, o, ==ℤ_iff id d.id, ==ℤ_iff d.id id))

  Advance-Has :
      {u v : Threads.System C F}
      → Advance refs fs time config u v
      → has_task d.id u.tasks ≡ false
      → Has u.shared
      → Has v.shared
  unfolding forget_references task_id
  Advance-Has (begun i ms) h k = k
  Advance-Has {u} (processed i done todo m m' goes_on before after e p) h k =
      process_measurement-IsThere refs laws fs r d used i m m.value u.shared k
  Advance-Has {u} (failed i done todo m x before after e p) h k =
      process_measurement-IsThere refs laws fs r d used i m m.value u.shared k
  Advance-Has (finished i done before after e) h k = k
  Advance-Has {u} (forgotten i before after e) h k =
      erased-Has i u.shared (without_task d.id before after _ u.tasks e h).0 k

  -- The buffer is as it was, and so is the reference if it was there.
  same_buffer :
      (h : Option Holder) (ds ds' : DataSource C F)
      → buffer_of ds' ≡ buffer_of ds
      → (Has ds → Has ds')
      → Holds h ds
      → Holds h ds'
  same_buffer h ds ds' e f k i =
      let (p, q) = k (subst (λ w. has_id d.id w.ring.buffer ≡ true) e i) in (p, f q)

  acted-Holds :
      (a : Act) (acts : List Act) (call : Call) (ds : DataSource C F)
      → Holds (holds (a ∷ acts) call) ds
      → Holds (holds acts call) (with_mapping (do_act refs config a) ds)
  unfolding do_act pending note_deletion
  acted-Holds (noted e t) acts call ds k i = k i
  acted-Holds (erased id true) acts call ds k i = cc ((k i).0)
  acted-Holds (erased id false) acts call ds k i =
      let (p, q) = k i in (ground arith, erased-Has id ds (ground arith) q)

  entered-Holds :
      (call : Call) (w : World (List DeleteCall)) (ds : DataSource C F)
      → Stays ds.world.ring.buffer w d.id
      → Holds none ds
      → Holds (holds (acts_of_calls w.owner) call) (with_buffer w ds)
  entered-Holds call w ds st k i = let (b, p) = st i in (p, (k b).1)

  Step-Lasts :
      {u v : System C F} (s : Step refs fs time config u v)
      → StepAvoids refs fs time config d.id s
      → IsValid u.shared.world.ring
      → Lasts u
      → Lasts v
  unfolding has_task task_id pending acknowledge_overflow acknowledge_reset lock_data lock
  Step-Lasts {u} (advanced {v = w} a) o v (t, h, k) = (
    Advance-tasks refs fs time config d.id a o t,
    h,
    same_buffer u.holder u.shared w.shared (Advance-buffer_of refs fs time config a)
        (Advance-Has a t) k,
  )
  Step-Lasts {u} (push_entered id ms before after n e) o v (t, h, k) =
      let (other, rest) = without_task d.id before after _ u.tasks e t in
      (
        rest,
        ground arith,
        entered-Holds (pushes id ms (push_run refs fs time config id ms u.shared).0)
            (push_run refs fs time config id ms u.shared).1 u.shared
            (push-Stays time u.shared.world v.distinct id ms d.id other)
            (subst (λ x. Holds x u.shared) n k),
      )
  Step-Lasts {u} (delete_entered id n) o v (t, h, k) = (
    t,
    refl,
    entered-Holds deletes (delete_run refs fs time config id u.shared) u.shared
        (delete-Stays time u.shared.world v.distinct id d.id) (subst (λ x. Holds x u.shared) n k),
  )
  Step-Lasts {u} (reset_entered reason n) o v (t, h, k) = (
    t,
    refl,
    entered-Holds resets (reset_run refs fs time config reason u.shared) u.shared
        (reset-Stays time u.shared.world v.distinct reason d.id)
        (subst (λ x. Holds x u.shared) n k),
  )
  Step-Lasts {u} (acted a acts call e) o v (t, h, k) = (
    t,
    subst (λ x. has_task d.id (holder_tasks x) ≡ false) e h,
    acted-Holds a acts call u.shared (subst (λ x. Holds x u.shared) e k),
  )
  Step-Lasts {u} (left call before after e q) o v (t, h, k) = (
    with_after_call d.id call before after (subst (λ x. has_task d.id (holder_tasks x) ≡ false) e h)
        (subst (λ x. has_task d.id x ≡ false) q t),
    refl,
    λ i. (refl, (k i).1),
  )
  Step-Lasts {u} (referenced name contents format) o v (t, h, k) = (
    t,
    h,
    same_buffer u.holder u.shared (set_reference refs name contents format u.shared).1
        (set_reference-buffer_of refs fs time config name contents format u.shared)
        (set_reference-IsThere refs laws fs r d used name contents format u.shared) k,
  )
  Step-Lasts overflow_acknowledged o v (t, h, k) = (t, h, k)
  Step-Lasts (reset_acknowledged n) o v (t, h, k) = (t, h, k)
  Step-Lasts {u} (locked j n) o v (t, h, k) =
      (t, h, λ i. k (sym (has_id-lock_entry d.id j u.shared.world.ring.buffer) ∙ i))

  Reach-Lasts :
      {u v : System C F} (run : Reach refs fs time config u v)
      → Avoids refs fs time config d.id run
      → IsValid u.shared.world.ring
      → Lasts u
      → Lasts v
  Reach-Lasts here o v h = h
  Reach-Lasts (next run s) o v h =
      Step-Lasts s o.1
        (Reach-IsValid time (some ignore) (Reach-BufferRuns refs fs time config run) v)
        (Reach-Lasts run o.0 v h)

  Has-get_reference : (ds : DataSource C F) → Has ds → get_reference refs r ds ≡ ok d
  unfolding get_reference
  Has-get_reference ds h = rw (h, get_reference) refl

  get_reference-Has : (ds : DataSource C F) → get_reference refs r ds ≡ ok d → Has ds
  unfolding get_reference
  get_reference-Has ds = elim (Option-cases (refs.find r (references ds))) [
    | inl e ↦ rw (e, get_reference) (λ h. cc h)
    | inr (x, e) ↦ rw (e, get_reference) (λ h. cc h)
  ]

  -- From a state with a valid buffer in which no call holds its mutex: while no call of `Add` with the
  -- id of a reference that is in use is under way or begins, and an entry has that id, `GetReference`
  -- returns the reference as it did, however the other calls are interleaved.
  pub run-get_reference :
      {u v : System C F} (run : Reach refs fs time config u v)
      → Avoids refs fs time config d.id run
      → IsValid u.shared.world.ring
      → u.holder ≡ none
      → has_task d.id u.tasks ≡ false
      → get_reference refs r u.shared ≡ ok d
      → has_id d.id v.shared.world.ring.buffer ≡ true
      → get_reference refs r v.shared ≡ ok d
  unfolding pending has_task
  run-get_reference {u} {v} run o valid n t h i = Has-get_reference v.shared (
      ((Reach-Lasts run o valid (
        t,
        subst (λ x. has_task d.id (holder_tasks x) ≡ false) (sym n) refl,
        subst (λ x. Holds x u.shared) (sym n) (λ j. (refl, get_reference-Has u.shared h)),
      )).2
        i).1)
