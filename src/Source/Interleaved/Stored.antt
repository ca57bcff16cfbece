-- ===== src/Source/Interleaved/Stored.antt =====
-- A push that has stored its entry and still holds the buffer's mutex, src/data_source_internal.cpp.
use qds_data_interface.Prelude.{
  ◌∷◌, ℕ, true, Option, none, some, List, [], ◌≡◌, inl, inr, refl, ap, Bool-cases,
}
use qds_data_interface.Prelude.Int.{ℤ, pos, negsuc, ==ℤ_iff}
use qds_data_interface.Prelude.Str.{Str}
use qds_data_interface.Exception.{Result, ok, thrown}
use qds_data_interface.Measurement.{Measurement}
use qds_data_interface.Ring.{OnDeleteCallback, World, push_back, insert, push}
use qds_data_interface.Ring.Push.{insert_cases, push_cases}
use qds_data_interface.Ring.Replay.{with_owner}
use qds_data_interface.Source.{
  ReferenceContainer, FileSystem, DataSource, Config, references, is_present, set_reference,
}
use qds_data_interface.Source.Operations.{forget_references}
use qds_data_interface.Source.Owned.{has_id, has_id-append_new}
use qds_data_interface.Source.Frame.{measurement_frame}
use qds_data_interface.Source.Threads
use qds_data_interface.Source.Threads.{
  Task, pushing, task_id, has_task, system, IsFreeOr, Advance, begun, processed, failed, finished,
  forgotten,
}
use qds_data_interface.Source.Interleaved.{Act, Call, pushes, deletes, resets, Holder, holds}

abbrev pub holder_acts : Option Holder → List Act
holder_acts none = []
holder_acts (some h) = h.acts

-- The task whose push holds the buffer's mutex.
abbrev pub holder_tasks : Option Holder → List Task
holder_tasks none = []
holder_tasks (some h) = elim h.call [
  | pushes id ms r ↦ pushing id ms ∷ []
  | deletes ↦ []
  | resets ↦ []
]

-- After a push that has stored, an entry has the id.
abbrev pub HasStored : {S : Type 0} → ℤ → Result ℤ × World S → Type 0
HasStored id (ok (pos n), w) = has_id id w.ring.buffer ≡ true
HasStored id (ok (negsuc n), w) = Unit
HasStored id (thrown e, w) = Unit

module _ {S : Type 0} (time : ℕ → ℕ) (callback : Option (OnDeleteCallback S)) (id : ℤ)
    (ms : List Measurement) where
  push_back-has_id : (w : World S) → has_id id (push_back time id ms w).ring.buffer ≡ true
  unfolding push_back
  push_back-has_id w = has_id-append_new w.ring.buffer _ id (rw ((==ℤ_iff id id).1 refl) refl)

  insert-HasStored : (n : ℕ) (w : World S) → HasStored id (insert time callback id ms n w)
  insert-HasStored n w =
      insert_cases time callback (HasStored id) id ms n w (λ _ _. tt) (λ _ _. push_back-has_id w)
        (λ _ _. tt) (λ _ es s e. push_back-has_id _)

  pub push-HasStored : (w : World S) → HasStored id (push time callback id ms w)
  push-HasStored w =
      push_cases time callback (HasStored id) id ms w (λ _ _. tt) (λ _ _ _. tt)
        (λ _ _ _. insert-HasStored _ _) (λ _. insert-HasStored 0 w)

abbrev pub HolderStored : {C F : Type 0} → Option Holder → DataSource C F → Type 0
HolderStored none ds = Unit
HolderStored (some h) ds = elim h.call [
  | pushes id ms r ↦ HasStored id (r, ds.world)
  | deletes ↦ Unit
  | resets ↦ Unit
]

pub HasStored-imp :
    {S T : Type 0} (id : ℤ) (r : Result ℤ) (w : World S) (u : World T)
    → (has_id id w.ring.buffer ≡ true → has_id id u.ring.buffer ≡ true)
    → HasStored id (r, w)
    → HasStored id (r, u)
HasStored-imp id (ok (pos n)) w u f h = f h
HasStored-imp id (ok (negsuc n)) w u f h = tt
HasStored-imp id (thrown e) w u f h = tt

-- The buffer, and how often its clock has been read.
abbrev pub buffer_of : {C F : Type 0} → DataSource C F → World Unit
buffer_of ds = with_owner tt ds.world

module _ {C F : Type 0} (refs : ReferenceContainer C) (fs : FileSystem F) (time : ℕ → ℕ)
    (config : Config) where
  -- The steps of the tasks do not change the buffer.
  pub Advance-buffer_of :
      {u v : Threads.System C F}
      → Advance refs fs time config u v
      → buffer_of v.shared ≡ buffer_of u.shared
  unfolding forget_references
  Advance-buffer_of (begun id ms) = refl
  Advance-buffer_of {u} (processed id done todo d d' goes_on before after e p) =
      measurement_frame refs fs id (λ ds. buffer_of ds ≡ buffer_of u.shared) (λ c ds h. h)
        (λ n ds h. h) (λ n f ds h. h) d d.value u.shared refl
  Advance-buffer_of {u} (failed id done todo d x before after e p) =
      measurement_frame refs fs id (λ ds. buffer_of ds ≡ buffer_of u.shared) (λ c ds h. h)
        (λ n ds h. h) (λ n f ds h. h) d d.value u.shared refl
  Advance-buffer_of (finished id done before after e) = refl
  Advance-buffer_of (forgotten id before after e) = refl

  pub HolderStored-buffer_of :
      (h : Option Holder) (ds ds' : DataSource C F)
      → buffer_of ds' ≡ buffer_of ds
      → HolderStored h ds
      → HolderStored h ds'
  HolderStored-buffer_of none ds ds' e i = tt
  HolderStored-buffer_of (some h) ds ds' e i = call_map h.call i
    where
      call_map : (c : Call) → HolderStored (holds [] c) ds → HolderStored (holds [] c) ds'
      call_map (pushes id ms r) j =
          HasStored-imp id r ds.world ds'.world (λ k. rw (ap (λ w. w.ring) e) k) j
      call_map deletes j = tt
      call_map resets j = tt

  pub set_reference-buffer_of :
      (r contents format : Str) (ds : DataSource C F)
      → buffer_of (set_reference refs r contents format ds).1 ≡ buffer_of ds
  unfolding set_reference
  set_reference-buffer_of r contents format ds =
      elim (Bool-cases (is_present (refs.find r (references ds)))) [
        | inl y ↦ rw y refl
        | inr n ↦ rw n refl
      ]
