-- ===== src/Source/Interleaved/Invariant.antt =====
-- References, the entries of the buffer and the calls under way, down to the mutexes that the delete
-- callback takes, src/data_source_internal.cpp.
use qds_data_interface.Prelude.{
  ℕ, true, false, Option, none, some, List, [], ◌∷◌, ◌++◌, ◌≡◌, ◌⊎◌, inl, inr, refl, sym, ◌∙◌,
  subst, arith,
}
use qds_data_interface.Prelude.Int.{ℤ, pos, negsuc, ==ℤ_iff}
use qds_data_interface.Prelude.Str.{Str}
use qds_data_interface.Exception.{Result, ok, thrown}
use qds_data_interface.Types.{ReferenceData}
use qds_data_interface.Ring.{World}
use qds_data_interface.Ring.Replay.{DeleteCall, record_call, with_owner}
use qds_data_interface.Source.{
  ReferenceContainer, ContainerLaws, FileSystem, DataSource, Config, references, new,
  delete_ref_mapping, note_deletion,
}
use qds_data_interface.Source.Operations.{acknowledge_overflow, acknowledge_reset, lock_data}
use qds_data_interface.Source.Owned.{has_id, survives}
use qds_data_interface.Source.Integrity.{OwnedBut, Stored}
use qds_data_interface.Source.Run.{Method, Method-Tidy, new-Tidy}
use qds_data_interface.Source.Threads.{Task, pushing, task_id, has_task, IsFreeOr}
use qds_data_interface.Source.Accounted.{
  AccountedBy, others-AccountedBut, pushed-AccountedBy, Advance-AccountedBy,
}
use qds_data_interface.Source.Interleaved.{
  Act, noted, erased, acts_of_calls, Call, pushes, deletes, resets, Holder, holds, after_call,
  System, interleaved, with_buffer, with_mapping, do_act, push_run, delete_run, reset_run, Step,
  advanced, push_entered, delete_entered, reset_entered, acted, left, referenced,
  overflow_acknowledged, reset_acknowledged, locked, Reach, here, next,
}
use qds_data_interface.Source.Interleaved.Stored.{
  HasStored, push-HasStored, HasStored-imp, HolderStored, holder_acts, holder_tasks,
  Advance-buffer_of, HolderStored-buffer_of, set_reference-buffer_of,
}
use qds_data_interface.Source.Interleaved.Pending.{
  pending, KeepsOrErases, push-KeepsOrErases, delete-KeepsOrErases, reset-KeepsOrErases,
}

-- The id 0, one whose references the callback has still to delete, or the one that is pushed.
abbrev pub IsHeld : Option Holder → ℤ → Type 0
IsHeld h i =
    (i ≡ pos 0) ⊎ ((pending i (holder_acts h) ≡ true) ⊎ (has_task i (holder_tasks h) ≡ true))

module _ {C F : Type 0} (refs : ReferenceContainer C) (laws : ContainerLaws refs)
    (fs : FileSystem F) (time : ℕ → ℕ) (config : Config) where
  abbrev pub AllAccounted : Option Holder → List Task → DataSource C F → Type 0
  AllAccounted h ts ds = AccountedBy refs laws fs time config (IsHeld h) ts ds

  abbrev pub IsAccounted : System C F → Type 0
  IsAccounted s = AllAccounted s.holder s.tasks s.shared × HolderStored s.holder s.shared

  -- A call gets the mutex: what the buffer loses, the callback has still to delete the references of.
  entered-AllAccounted :
      (call : Call) (ts : List Task) (w : World (List DeleteCall)) (ds : DataSource C F)
      → KeepsOrErases ds.world.ring.buffer w
      → ((r : Str) (d : ReferenceData)
          → refs.find r (references ds) ≡ some d
          → (has_task d.id (holder_tasks (holds [] call)) ≡ true)
            ⊎ (IsFreeOr (IsHeld none) ts d.id ⊎ (has_id d.id ds.world.ring.buffer ≡ true)))
      → AllAccounted (holds (acts_of_calls w.owner) call) ts (with_buffer w ds)
  unfolding pending has_task
  entered-AllAccounted call ts w ds k h r d f = elim (h r d f) [
    | inl own ↦ inl (inl (inr (inr own)))
    | inr (inl (inl (inl z))) ↦ inl (inl (inl z))
    | inr (inl (inl (inr (inl p)))) ↦ cc p
    | inr (inl (inl (inr (inr p)))) ↦ cc p
    | inr (inl (inr i)) ↦ inl (inr i)
    | inr (inr i) ↦ elim (k d.id i) [ inl y ↦ inr y | inr p ↦ inl (inl (inr (inl p))) ]
  ]

  -- One access of the callback.
  acted-AllAccounted :
      (a : Act) (acts : List Act) (call : Call) (ts : List Task) (ds : DataSource C F)
      → AllAccounted (holds (a ∷ acts) call) ts ds
      → AllAccounted (holds acts call) ts (with_mapping (do_act refs config a) ds)
  unfolding do_act pending note_deletion delete_ref_mapping
  acted-AllAccounted (noted e t) acts call ts ds h r d f = h r d f
  acted-AllAccounted (erased id true) acts call ts ds h r d f =
      cc (f, laws.find-clear r (references ds))
  acted-AllAccounted (erased id false) acts call ts ds h r d f =
      let (before, other) =
        survives id (refs.find r (references ds)) d
          (sym (laws.find-erase_id r id (references ds)) ∙ f) in
      elim (h r d before) [
        | inl (inl (inl z)) ↦ inl (inl (inl z))
        | inl (inl (inr (inl p))) ↦
            inl (inl (inr (inl (ground (arith, ==ℤ_iff id d.id, ==ℤ_iff d.id id)))))
        | inl (inl (inr (inr t))) ↦ inl (inl (inr (inr t)))
        | inl (inr t) ↦ inl (inr t)
        | inr i ↦ inr i
      ]

  -- The mutex is released.
  left-AllAccounted :
      (call : Call) (before after : List Task) (ds : DataSource C F)
      → AllAccounted (holds [] call) (before ++ after) ds
      → HolderStored (holds [] call) ds
      → AllAccounted none (before ++ after_call call after) ds
  unfolding after_call pending has_task task_id
  left-AllAccounted deletes before after ds h i = h
  left-AllAccounted resets before after ds h i = h
  left-AllAccounted (pushes id ms r) before after ds h i =
      pushed-AccountedBy refs laws fs time config (IsHeld none) before after id (r, ds)
        (pushed-Stored r but i)
    where
      but : OwnedBut refs laws fs time config (IsFreeOr (IsHeld none) (before ++ after)) id ds.world
      but r d f = elim (h r d f) [
        | inl (inl (inl z)) ↦ inr (inl (inl (inl z)))
        | inl (inl (inr (inl p))) ↦ cc p
        | inl (inl (inr (inr t))) ↦ inl (ground (arith, ==ℤ_iff id d.id, t))
        | inl (inr t) ↦ inr (inl (inr t))
        | inr e ↦ inr (inr e)
      ]

      pushed-Stored :
          (x : Result ℤ)
          → OwnedBut refs laws fs time config (IsFreeOr (IsHeld none) (before ++ after)) id ds.world
          → HasStored id (x, ds.world)
          → Stored refs laws fs time config
              (IsFreeOr (IsHeld none) (before ++ after))
              id
              (x, ds.world)
      pushed-Stored (ok (negsuc n)) b j = b
      pushed-Stored (thrown e) b j = b
      pushed-Stored (ok (pos n)) b j = λ r d f. elim (b r d f) [
        | inl own ↦ inr (subst (λ k. has_id k ds.world.ring.buffer ≡ true) (sym own) j)
        | inr k ↦ k
      ]

  -- A call of another method that does not use the buffer.
  method-AllAccounted :
      (h : Option Holder) (ts : List Task) {ds ds' : DataSource C F}
      → Method refs fs time config ds ds'
      → AllAccounted h ts ds
      → AllAccounted h ts ds'
  method-AllAccounted h ts m k =
      Method-Tidy refs laws fs time config (IsFreeOr (IsHeld h) ts) (inl (inl refl)) m k

  Step-IsAccounted :
      {u v : System C F} → Step refs fs time config u v → IsAccounted u → IsAccounted v
  unfolding task_id has_task acknowledge_overflow acknowledge_reset
  Step-IsAccounted {u} (advanced a) (h, i) = (
    Advance-AccountedBy refs laws fs time config (IsHeld u.holder) a h,
    HolderStored-buffer_of refs fs time config u.holder u.shared _
        (Advance-buffer_of refs fs time config a) i,
  )
  Step-IsAccounted {u} (push_entered id ms before after n e) (h, i) = (
    entered-AllAccounted (pushes id ms (push_run refs fs time config id ms u.shared).0)
        (before ++ after) (push_run refs fs time config id ms u.shared).1 u.shared
        (push-KeepsOrErases time u.shared.world id ms)
        (λ r d f.
          elim (others-AccountedBut refs laws fs time config (IsHeld none) before after
            (pushing id ms) u.tasks u.shared e (subst (λ x. AllAccounted x u.tasks u.shared) n h) r
            d f) [ inl own ↦ inl (ground (arith, ==ℤ_iff id d.id, own)) | inr k ↦ inr k ]),
    HasStored-imp id _ (push_run refs fs time config id ms u.shared).1 _ (λ k. k)
        (push-HasStored time (some record_call) id ms (with_owner [] u.shared.world)),
  )
  Step-IsAccounted {u} (delete_entered id n) (h, i) = (
    entered-AllAccounted deletes u.tasks (delete_run refs fs time config id u.shared) u.shared
        (delete-KeepsOrErases time u.shared.world id)
        (λ r d f. inr (subst (λ x. AllAccounted x u.tasks u.shared) n h r d f)),
    tt,
  )
  Step-IsAccounted {u} (reset_entered reason n) (h, i) = (
    entered-AllAccounted resets u.tasks (reset_run refs fs time config reason u.shared) u.shared
        (reset-KeepsOrErases time u.shared.world reason)
        (λ r d f. inr (subst (λ x. AllAccounted x u.tasks u.shared) n h r d f)),
    tt,
  )
  Step-IsAccounted {u} (acted a acts call e) (h, i) =
      let (k, j) : IsAccounted (interleaved u.shared u.tasks (holds (a ∷ acts) call)) =
        subst (λ x. IsAccounted (interleaved u.shared u.tasks x)) e (h, i) in
      (
        acted-AllAccounted a acts call u.tasks u.shared k,
        HolderStored-buffer_of refs fs time config (holds acts call) u.shared
            (with_mapping (do_act refs config a) u.shared) refl j,
      )
  Step-IsAccounted {u} (left call before after e t) (h, i) =
      let (k, j) : IsAccounted (interleaved u.shared u.tasks (holds [] call)) =
        subst (λ x. IsAccounted (interleaved u.shared u.tasks x)) e (h, i) in
      (
        left-AllAccounted call before after u.shared
            (subst (λ ts. AllAccounted (holds [] call) ts u.shared) t k) j,
        tt,
      )
  Step-IsAccounted {u} (referenced r contents format) (h, i) = (
    method-AllAccounted u.holder u.tasks (Method.referenced r contents format) h,
    HolderStored-buffer_of refs fs time config u.holder u.shared _
        (set_reference-buffer_of refs fs time config r contents format u.shared) i,
  )
  Step-IsAccounted {u} overflow_acknowledged (h, i) = (
    method-AllAccounted u.holder u.tasks {ds = u.shared} Method.overflow_acknowledged h,
    HolderStored-buffer_of refs fs time config u.holder u.shared _ refl i,
  )
  Step-IsAccounted {u} (reset_acknowledged n) (h, i) = (
    method-AllAccounted u.holder u.tasks {ds = u.shared} Method.reset_acknowledged h,
    HolderStored-buffer_of refs fs time config u.holder u.shared _ refl i,
  )
  Step-IsAccounted {u} (locked j n) (h, i) = (
    method-AllAccounted u.holder u.tasks (Method.locked j) h,
    subst (λ x. HolderStored x (lock_data j u.shared)) (sym n) tt,
  )

  Reach-IsAccounted :
      {u v : System C F} → Reach refs fs time config u v → IsAccounted u → IsAccounted v
  Reach-IsAccounted here h = h
  Reach-IsAccounted (next r s) h = Step-IsAccounted s (Reach-IsAccounted r h)

  -- From a new data source, however the calls under way are interleaved, down to the accesses of the
  -- delete callback, each reference is free, or has the id of an entry of the buffer, of a call of
  -- `Add` under way or ended by an exception of its loop, or of an entry that has left the buffer and
  -- whose references the callback has still to delete.
  pub run-AllAccounted :
      (files : F) (n : ℕ) {s : System C F}
      → Reach refs fs time config (interleaved (new refs config files n) [] none) s
      → AllAccounted s.holder s.tasks s.shared
  run-AllAccounted files n r =
      (Reach-IsAccounted r
        (new-Tidy refs laws fs time config (IsFreeOr (IsHeld none) []) files n, tt)).0
