-- ===== src/Ring/Account.antt =====
-- The delete callback of the ring buffer, src/ring_buffer.cpp, with an owner that writes down
-- the entries that it is told of.
use mathlib.Core.List.{Perm, perm_middle, append_assoc, append-nil}
use mathlib.Core.List.Perm
use qds_data_interface.Prelude.{
  ℕ, Bool, Option, none, some, List, [], ◌∷◌, ◌++◌, ◌≡◌, sym, subst, Bool-cases, inl, inr, ◌&&◌,
  ◌∙◌,
}
use qds_data_interface.Prelude.Int.{ℤ, pos, negsuc, ◌==ℤ◌, ltb_ℤ}
use qds_data_interface.Exception.{Result, ok, thrown}
use qds_data_interface.Measurement.{Measurement}
use qds_data_interface.Types.{BufferEntry}
use qds_data_interface.Ring.{
  OnDeleteCallback, World, is_mode_0, notify, notify_now, replace, prepend, after_discard,
  push_back, insert, push, delete, delete_from,
}
use qds_data_interface.Ring.Discard.{discard_first, unlocked-Perm, notify_each}
use qds_data_interface.Ring.Valid.{replace_locked, replace_unlocked, replace_miss}
use qds_data_interface.Ring.Push.{insert_cases, push_cases, discarded_lem}
use qds_data_interface.Ring.Stored.{stored}

-- The owner's log: the entries of the callback's calls, oldest call first.
abbrev pub write_down : OnDeleteCallback (List BufferEntry)
write_down none clear t log = log
write_down (some e) clear t log = log ++ e ∷ []

abbrev pub Log : Type 0
Log = World (List BufferEntry)

-- All entries that the buffer and the log hold.
abbrev pub known : Log → List BufferEntry
known w = w.owner ++ w.ring.buffer

-- Moving one entry from the front of the list to the end of the log changes the order only.
move_front :
    (log : List BufferEntry) (e : BufferEntry) (es : List BufferEntry)
    → Perm ((log ++ e ∷ []) ++ es) (log ++ e ∷ es)
move_front log e es = rw append_assoc (Perm.refl _)

cons_both :
    (e : BufferEntry) (log log' es es' : List BufferEntry)
    → Perm (log' ++ es') (log ++ es)
    → Perm (log' ++ e ∷ es') (log ++ e ∷ es)
cons_both e log log' es es' p =
    Perm.trans (perm_middle log' es') (Perm.trans (Perm.cons e p) (Perm.symm (perm_middle log es)))

module _ (time : ℕ → ℕ) where
  notify_each-append :
      (es : List BufferEntry) (n : ℕ) (log : List BufferEntry)
      → notify_each time (some write_down) es n log ≡ log ++ es
  unfolding notify_each notify_now
  notify_each-append [] n log = sym (append-nil log)
  notify_each-append (e ∷ es) n log =
      notify_each-append es _ (log ++ e ∷ []) ∙ append_assoc log (e ∷ []) es

  discarded-known : (w : Log) → Perm (known (after_discard time (some write_down) w)) (known w)
  discarded-known w = rw discarded_lem (
      unfold discard_first in
      rw (notify_each-append, append_assoc)
        (Perm.append_left w.owner (unlocked-Perm _ w.ring.buffer)))

  -- A search hands back the entries that there were, in the buffer or in the log.
  abbrev SameKnown :
      List BufferEntry → List BufferEntry → Option (List BufferEntry × List BufferEntry) → Type 0
  SameKnown es log none = Unit
  SameKnown es log (some (r, log')) = Perm (log' ++ r) (log ++ es)

  prepend-SameKnown :
      (e : BufferEntry) (es log : List BufferEntry)
      (o : Option (List BufferEntry × List BufferEntry))
      → SameKnown es log o
      → SameKnown (e ∷ es) log (prepend e o)
  prepend-SameKnown e es log none h = tt
  prepend-SameKnown e es log (some (r, log')) h = cons_both e log log' es r h

  replace-SameKnown :
      (id : ℤ) (es log : List BufferEntry)
      → SameKnown es log (replace time (some write_down) id es log)
  replace-SameKnown id [] log = unfold replace in Perm.refl _
  replace-SameKnown id (e ∷ es) log = elim (Bool-cases (e.id ==ℤ id)) [
    | inl hit ↦ elim (Bool-cases e.locked) [
      | inl l ↦ rw (replace_locked time (some write_down) id e es log hit l) tt
      | inr u ↦
          rw (replace_unlocked time (some write_down) id e es log hit u)
            (unfold notify in move_front log e es)
    ]
    | inr miss ↦
        rw (replace_miss time (some write_down) id e es log miss)
          (prepend-SameKnown e es log _ (replace-SameKnown id es log))
  ]

  delete_from-known :
      (sorted : Bool) (id : ℤ) (es log : List BufferEntry)
      → let r = delete_from time (some write_down) sorted id es log in Perm (r.1 ++ r.0) (log ++ es)
  unfolding delete_from notify
  delete_from-known sorted id [] log = Perm.refl _
  delete_from-known sorted id (e ∷ es) log = elim (Bool-cases (e.id ==ℤ id)) [
    | inl hit ↦ simp hit (move_front log e es)
    | inr miss ↦ elim (Bool-cases (sorted && ltb_ℤ id e.id)) [
      | inl stop ↦ simp (miss, stop) (Perm.refl _)
      | inr go ↦ simp (miss, go) (cons_both e log _ es _ (delete_from-known sorted id es log))
    ]
  ]

  -- `Push` stores the one new entry if it returns a number of deletions, and nothing otherwise.
  abbrev pub Accounted : ℤ → List Measurement → Log → Result ℤ × Log → Type 0
  Accounted id ms w (ok (pos n), w') =
      (t : ℕ) × Perm (known w') (known w ++ stored time id ms t ∷ [])
  Accounted id ms w (ok (negsuc k), w') = Perm (known w') (known w)
  Accounted id ms w (thrown e, w') = Perm (known w') (known w)

  push_back-known :
      (id : ℤ) (ms : List Measurement) (w u : Log)
      → Perm (known u) (known w)
      → Perm (known (push_back time id ms u)) (known w ++ stored time id ms u.readings ∷ [])
  unfolding push_back
  push_back-known id ms w u p =
      rw (sym (append_assoc u.owner u.ring.buffer (stored time id ms u.readings ∷ [])))
        (Perm.append_right _ p)

  insert-Accounted :
      (id : ℤ) (ms : List Measurement) (n : ℕ) (w u : Log)
      → Perm (known u) (known w)
      → Accounted id ms w (insert time (some write_down) id ms n u)
  insert-Accounted id ms n w u p =
      insert_cases time (some write_down) (Accounted id ms w) id ms n u (λ _ _. p)
        (λ _ _. (u.readings, push_back-known id ms w u p)) (λ _ _. p)
        (λ _ es s e. (
          u.readings,
          push_back-known id ms w _ (
              Perm.trans
                (subst (SameKnown u.ring.buffer u.owner) e
                  (replace-SameKnown id u.ring.buffer u.owner))
                p),
        ))

  -- No entry leaves the buffer but by a call of the callback, and none is made up: after `Push`, the
  -- buffer and the log hold what they held, and the new entry exactly if it was stored.
  pub push-Accounted :
      (id : ℤ) (ms : List Measurement) (w : Log)
      → Accounted id ms w (push time (some write_down) id ms w)
  push-Accounted id ms w =
      push_cases time (some write_down) (Accounted id ms w) id ms w (λ _ _. Perm.refl _)
        (λ _ _ _. discarded-known w) (λ _ _ _. insert-Accounted id ms _ w _ (discarded-known w))
        (λ _. insert-Accounted id ms 0 w w (Perm.refl _))

  -- The same of `Delete`: the buffer and the log hold what they held.
  pub delete-known :
      (id : ℤ) (w : Log) → Perm (known (delete time (some write_down) id w)) (known w)
  unfolding delete
  delete-known id w = delete_from-known (is_mode_0 w.ring) id w.ring.buffer w.owner
