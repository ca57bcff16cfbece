-- ===== src/Ring/Calls.antt =====
-- The calls that `Push` and `Delete` of src/ring_buffer.cpp make of the delete callback: each is for
-- an entry, and none asks to clear.
use qds_data_interface.Prelude.{
  ℕ, Bool, false, ◌&&◌, Option, none, some, List, [], ◌∷◌, subst, inl, inr, Bool-cases,
}
use qds_data_interface.Prelude.Int.{ℤ, ltb_ℤ, ◌==ℤ◌}
use qds_data_interface.Measurement.{Measurement}
use qds_data_interface.Types.{BufferEntry}
use qds_data_interface.Ring.{
  OnDeleteCallback, World, is_mode_0, notify, notify_now, replace, prepend, after_discard,
  push_back, insert, push, delete_from, delete,
}
use qds_data_interface.Ring.Discard.{discard_first, notify_each}
use qds_data_interface.Ring.Valid.{replace_locked, replace_unlocked, replace_miss}
use qds_data_interface.Ring.Push.{insert_cases, push_cases, discarded_lem}

-- A property of the owner's state that a call for an entry keeps.
module _ {S : Type 0} (time : ℕ → ℕ) (f : OnDeleteCallback S) (P : S → Type 0)
    (keeps : (e : BufferEntry) (t : ℕ) (s : S) → P s → P (f (some e) false t s)) where
  notify_each-Keeps :
      (es : List BufferEntry) (n : ℕ) (s : S) → P s → P (notify_each time (some f) es n s)
  unfolding notify_each notify_now
  notify_each-Keeps [] n s h = h
  notify_each-Keeps (e ∷ es) n s h = notify_each-Keeps es _ _ (keeps e (time n) s h)

  discarded-Keeps : (w : World S) → P w.owner → P (after_discard time (some f) w).owner
  discarded-Keeps w h =
      rw discarded_lem (unfold discard_first in notify_each-Keeps _ w.readings w.owner h)

  abbrev OnOwner : Option (List BufferEntry × S) → Type 0
  OnOwner none = Unit
  OnOwner (some (es, s)) = P s

  prepend-OnOwner :
      (e : BufferEntry) (o : Option (List BufferEntry × S)) → OnOwner o → OnOwner (prepend e o)
  prepend-OnOwner e none h = tt
  prepend-OnOwner e (some (es, s)) h = h

  replace-OnOwner :
      (id : ℤ) (es : List BufferEntry) (s : S) → P s → OnOwner (replace time (some f) id es s)
  replace-OnOwner id [] s h = unfold replace in h
  replace-OnOwner id (e ∷ es) s h = elim (Bool-cases (e.id ==ℤ id)) [
    | inr miss ↦
        rw (replace_miss time (some f) id e es s miss)
          (prepend-OnOwner e _ (replace-OnOwner id es s h))
    | inl hit ↦ elim (Bool-cases e.locked) [
      | inl l ↦ rw (replace_locked time (some f) id e es s hit l) tt
      | inr u ↦ rw (replace_unlocked time (some f) id e es s hit u) (unfold notify in keeps e 0 s h)
    ]
  ]

  insert-Keeps :
      (id : ℤ) (ms : List Measurement) (n : ℕ) (w : World S)
      → P w.owner
      → P (insert time (some f) id ms n w).1.owner
  unfolding push_back
  insert-Keeps id ms n w h =
      insert_cases time (some f) (λ r. P r.1.owner) id ms n w (λ _ _. h) (λ _ _. h) (λ _ _. h)
        (λ _ es s e. subst OnOwner e (replace-OnOwner id w.ring.buffer w.owner h))

  pub push-Keeps :
      (id : ℤ) (ms : List Measurement) (w : World S)
      → P w.owner
      → P (push time (some f) id ms w).1.owner
  push-Keeps id ms w h =
      push_cases time (some f) (λ r. P r.1.owner) id ms w (λ _ _. h) (λ _ _ _. discarded-Keeps w h)
        (λ _ _ _. insert-Keeps id ms _ _ (discarded-Keeps w h)) (λ _. insert-Keeps id ms 0 w h)

  delete_from-Keeps :
      (sorted : Bool) (id : ℤ) (es : List BufferEntry) (s : S)
      → P s
      → P (delete_from time (some f) sorted id es s).1
  unfolding delete_from notify
  delete_from-Keeps sorted id [] s h = h
  delete_from-Keeps sorted id (e ∷ es) s h = elim (Bool-cases (e.id ==ℤ id)) [
    | inl hit ↦ rw hit (keeps e 0 s h)
    | inr miss ↦ elim (Bool-cases (sorted && ltb_ℤ id e.id)) [
      | inl past ↦ rw (miss, past) h
      | inr before ↦ rw (miss, before) (delete_from-Keeps sorted id es s h)
    ]
  ]

  pub delete-Keeps : (id : ℤ) (w : World S) → P w.owner → P (delete time (some f) id w).owner
  unfolding delete
  delete-Keeps id w h = delete_from-Keeps (is_mode_0 w.ring) id w.ring.buffer w.owner h
