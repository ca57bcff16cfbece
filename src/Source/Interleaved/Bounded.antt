-- ===== src/Source/Interleaved/Bounded.antt =====
-- The sizes that a data source is made with, src/data_source_internal.cpp and src/ring_buffer.cpp,
-- while its calls are under way at once.
use qds_data_interface.Prelude.{
  ℕ, suc, ◌≤◌, ◌-◌, Bool, none, some, List, [], ◌∷◌, ◌≡◌, refl, ◌∙◌, subst, arith, length,
  length-append, inl, inr, Bool-cases, if◌then◌else◌, ◌==◌,
}
use qds_data_interface.Prelude.Str.{Str}
use qds_data_interface.Types.{ResetReason, ResetInformation, InformationList}
use qds_data_interface.Ring
use qds_data_interface.Ring.{OnDeleteCallback, RingBuffer, World, lock}
use qds_data_interface.Ring.Run
use qds_data_interface.Ring.Valid.{IsValid}
use qds_data_interface.Ring.Run.{new-IsValid, Reach-IsValid}
use qds_data_interface.Ring.Options.{
  KeepsOptions, push-KeepsOptions, delete-KeepsOptions, reset-KeepsOptions,
}
use qds_data_interface.Source.{
  ReferenceContainer, FileSystem, DataSource, Config, references, new, is_present, pop_front,
  drop_oldest, emplace_back, note_deletion, delete_ref_mapping, set_reference,
}
use qds_data_interface.Source.Operations.{
  callback, pop_back, reset, forget_references, lock_data, acknowledge_overflow, acknowledge_reset,
}
use qds_data_interface.Source.Frame.{measurement_frame}
use qds_data_interface.Source.Threads
use qds_data_interface.Source.Threads.{Advance, begun, processed, failed, finished, forgotten}
use qds_data_interface.Source.Interleaved.{
  noted, erased, System, interleaved, do_act, Step, advanced, push_entered, delete_entered,
  reset_entered, acted, left, referenced, overflow_acknowledged, reset_acknowledged, locked, Reach,
  here, next,
}
use qds_data_interface.Source.Interleaved.Linear.{ignore, Reach-BufferRuns}
use qds_data_interface.Source.Interleaved.Stored.{buffer_of}

module _ {A : Type 0} where
  length-pop_front : (xs : List A) → length (pop_front xs) ≡ length xs - 1
  length-pop_front [] = omega arith
  length-pop_front (x ∷ xs) = omega arith

  length-pop_back-le : (xs : List A) → length (pop_back xs) ≤ length xs
  unfolding pop_back
  length-pop_back-le [] = omega arith
  length-pop_back-le (x ∷ []) = omega arith
  length-pop_back-le (x ∷ y ∷ ys) = omega (arith, length-pop_back-le (y ∷ ys))

  length-drop_oldest-le :
      (size : ℕ) (l : InformationList A)
      → length l.list ≤ suc size
      → length (drop_oldest size l).list ≤ size
  unfolding drop_oldest
  length-drop_oldest-le size l h = ground (arith, length-pop_front l.list)

  length-emplace_back :
      (a : A) (l : InformationList A) → length (emplace_back a l).list ≡ suc (length l.list)
  unfolding emplace_back
  length-emplace_back a l = omega (arith, length-append l.list (a ∷ []))

  length-shortened-le :
      (b : Bool) (n : ℕ) (l : InformationList A)
      → length l.list ≤ n
      → length (if b then record l { list = pop_back l.list } else l).list ≤ n
  length-shortened-le b n l h = ground (arith, length-pop_back-le l.list)

module _ {C F : Type 0} (refs : ReferenceContainer C) (fs : FileSystem F) (time : ℕ → ℕ)
    (config : Config) where
  -- The lists of deletions and resets are not longer than their sizes.
  abbrev pub HasShortLists : DataSource C F → Type 0
  HasShortLists ds =
      (length ds.world.owner.deletion_information.list ≤ config.deletion_information_size)
      × (length ds.reset_information.list ≤ config.reset_information_size)

  Advance-HasShortLists :
      {u v : Threads.System C F}
      → Advance refs fs time config u v
      → HasShortLists u.shared
      → HasShortLists v.shared
  unfolding forget_references delete_ref_mapping
  Advance-HasShortLists (begun id ms) h = h
  Advance-HasShortLists {u} (processed id done todo d d' goes_on before after e p) h =
      measurement_frame refs fs id HasShortLists (λ c ds k. k) (λ n ds k. k) (λ n f ds k. k) d
        d.value u.shared h
  Advance-HasShortLists {u} (failed id done todo d x before after e p) h =
      measurement_frame refs fs id HasShortLists (λ c ds k. k) (λ n ds k. k) (λ n f ds k. k) d
        d.value u.shared h
  Advance-HasShortLists (finished id done before after e) h = h
  Advance-HasShortLists (forgotten id before after e) h = h

  set_reference-HasShortLists :
      (r contents format : Str) (ds : DataSource C F)
      → HasShortLists ds
      → HasShortLists (set_reference refs r contents format ds).1
  unfolding set_reference
  set_reference-HasShortLists r contents format ds h =
      elim (Bool-cases (is_present (refs.find r (references ds)))) [
        | inl y ↦ rw y h
        | inr n ↦ rw n h
      ]

  length-reset-le :
      (reason : ResetReason) (ds : DataSource C F)
      → length ds.reset_information.list ≤ config.reset_information_size
      → length (reset refs fs time config reason ds).reset_information.list
        ≤ config.reset_information_size
  unfolding reset
  length-reset-le reason ds h =
      let info : ResetInformation =
        (Ring.reset time (callback refs fs time config) reason ds.world).0 in
      length-drop_oldest-le config.reset_information_size _ (
        length-shortened-le (info.reset_time_ms == 0) (suc config.reset_information_size)
          (emplace_back info ds.reset_information)
          (omega (arith, length-emplace_back info ds.reset_information)))

  Step-HasShortLists :
      {u v : System C F}
      → Step refs fs time config u v
      → HasShortLists u.shared
      → HasShortLists v.shared
  unfolding do_act note_deletion delete_ref_mapping lock_data lock acknowledge_overflow
      acknowledge_reset
  Step-HasShortLists (advanced a) h = Advance-HasShortLists a h
  Step-HasShortLists (push_entered id ms before after n e) h = h
  Step-HasShortLists (delete_entered id n) h = h
  Step-HasShortLists {u} (reset_entered reason n) h = (h.0, length-reset-le reason u.shared h.1)
  Step-HasShortLists {u} (acted (noted e t) acts call p) h = (
    length-drop_oldest-le config.deletion_information_size _
        (omega (arith, length-emplace_back _ u.shared.world.owner.deletion_information, h.0)),
    h.1,
  )
  Step-HasShortLists (acted (erased id clear) acts call p) h = h
  Step-HasShortLists (left call before after e t) h = h
  Step-HasShortLists {u} (referenced n contents format) h =
      set_reference-HasShortLists n contents format u.shared h
  Step-HasShortLists overflow_acknowledged h = (omega arith, h.1)
  Step-HasShortLists (reset_acknowledged n) h = (h.0, omega arith)
  Step-HasShortLists (locked i n) h = h

  Reach-HasShortLists :
      {u v : System C F}
      → Reach refs fs time config u v
      → HasShortLists u.shared
      → HasShortLists v.shared
  Reach-HasShortLists here h = h
  Reach-HasShortLists (next r s) h = Step-HasShortLists s (Reach-HasShortLists r h)

  Run-KeepsOptions :
      {u v : World Unit} → Run.Reach time (some ignore) u v → KeepsOptions u.ring v.ring
  Run-KeepsOptions Run.here = (refl, refl, refl)
  Run-KeepsOptions (Run.next r s) =
      let (a, b, c) = Run-KeepsOptions r in
      let (x, y, z) = Step-KeepsOptions s in (x ∙ a, y ∙ b, z ∙ c)
    where
      Step-KeepsOptions :
          {u v : World Unit} → Run.Step time (some ignore) u v → KeepsOptions u.ring v.ring
      Step-KeepsOptions {u} (Run.pushed id ms) = push-KeepsOptions time (some ignore) id ms u
      Step-KeepsOptions {u} (Run.deleted id) = delete-KeepsOptions time (some ignore) id u
      Step-KeepsOptions {u} (Run.emptied reason) = reset-KeepsOptions time (some ignore) reason u
      Step-KeepsOptions {u} (Run.locked i) = unfold lock in (refl, refl, refl)

  -- However the calls on a new data source are interleaved, down to the accesses of the delete
  -- callback: its buffer, its list of deletions and its list of resets are never longer than the
  -- sizes it was made with, and the buffer's ids are distinct and, in counter mode 0, ascending.
  pub run-IsBounded :
      (files : F) (n : ℕ) {s : System C F}
      → Reach refs fs time config (interleaved (new refs config files n) [] none) s
      → (length s.shared.world.ring.buffer ≤ config.buffer_size)
        × IsValid s.shared.world.ring
        × HasShortLists s.shared
  unfolding new Ring.new
  run-IsBounded files n {s} r =
      let run : Run.Reach time (some ignore) (buffer_of (new refs config files n))
          (buffer_of s.shared) =
        Reach-BufferRuns refs fs time config r in
      let v : IsValid s.shared.world.ring =
        Reach-IsValid time (some ignore) run (new-IsValid _ _ _) in
      (
        subst (λ m. length s.shared.world.ring.buffer ≤ m) (Run-KeepsOptions run).0 v.bounded,
        v,
        Reach-HasShortLists r (omega arith, omega arith),
      )
