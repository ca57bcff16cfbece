-- ===== src/Ring/Stored.antt =====
-- What the result of `RingBuffer::Push` (src/ring_buffer.cpp) says of the buffer.
use mathlib.Core.List.{Mem, mem-cons_self, mem-cons_of_mem}
use qds_data_interface.Prelude.{
  ℕ, suc, ◌-◌, ◌≤◌, ◌<◌, true, false, Option, none, some, List, [], ◌∷◌, ◌++◌, ◌≡◌, refl, sym,
  subst, ◌∙◌, ap, length, Bool-cases, inl, inr, arith, if◌then◌else◌, All, ◌⊎◌,
}
use qds_data_interface.Prelude.Int.{ℤ, pos, negsuc, ◌==ℤ◌}
use qds_data_interface.Exception.{Result, ok, thrown, overflow_exception}
use qds_data_interface.Measurement.{Measurement}
use qds_data_interface.Types.{BufferEntry}
use qds_data_interface.Ring.{
  OnDeleteCallback, Discarded, World, is_mode_0, bad_id, replace, prepend, discarded, after_discard,
  last_id_ge, push_back, insert, push,
}
use qds_data_interface.Ring.Discard.{
  discard_first, notify_each, readings_each, without_unlocked, first_unlocked, length-unlocked,
  length-first_unlocked-le, without_unlocked_found, without_unlocked_none, first_unlocked-short,
}
use qds_data_interface.Ring.Valid.{
  IsValid, Distinct, Lacks, others-Lacks, last_id-Lacks, replace_locked, replace_unlocked,
  replace_miss,
}
use qds_data_interface.Ring.Push.{insert_cases, push_cases, discarded_lem, after_discard-IsValid}

-- The entries of other ids.
unfoldable pub without_id : ℤ → List BufferEntry → List BufferEntry
without_id id [] = []
without_id id (e ∷ es) = if e.id ==ℤ id then without_id id es else e ∷ without_id id es

without_id_absent : (id : ℤ) (es : List BufferEntry) → Lacks id es → without_id id es ≡ es
unfolding without_id
without_id_absent id [] h = refl
without_id_absent id (e ∷ es) h = ground (arith, without_id_absent id es)

-- The entry that a push at reading `n` of the clock stores.
abbrev pub stored : (ℕ → ℕ) → ℤ → List Measurement → ℕ → BufferEntry
stored time id ms n = record { id = id; measurements = ms; timestamp_ms = time n; locked = false }

-- A locked entry of this id is in the buffer.
abbrev pub HoldsLocked : ℤ → List BufferEntry → Type 0
HoldsLocked id es = (e : BufferEntry) × Mem e es × (e.locked ≡ true) × ((e.id ==ℤ id) ≡ true)

module _ {S : Type 0} (time : ℕ → ℕ) (callback : Option (OnDeleteCallback S)) where
  -- What `replace` says of the buffer, by its result.
  abbrev pub Outcome : ℤ → List BufferEntry → Option (List BufferEntry × S) → Type 0
  Outcome id es none = HoldsLocked id es
  Outcome id es (some (r, s)) = r ≡ without_id id es

  prepend-Outcome :
      (id : ℤ) (e : BufferEntry) (es : List BufferEntry) (o : Option (List BufferEntry × S))
      → (e.id ==ℤ id) ≡ false
      → Outcome id es o
      → Outcome id (e ∷ es) (prepend e o)
  unfolding without_id
  prepend-Outcome id e es none m (f, i, l, h) = (f, mem-cons_of_mem e i, l, h)
  prepend-Outcome id e es (some (r, s)) m h = ground arith

  pub replace-Outcome :
      (id : ℤ) (es : List BufferEntry) (s : S)
      → Distinct es
      → Outcome id es (replace time callback id es s)
  replace-Outcome id [] s d = unfold replace without_id in refl
  replace-Outcome id (e ∷ es) s d = elim (Bool-cases (e.id ==ℤ id)) [
    | inl hit ↦ elim (Bool-cases e.locked) [
      | inl l ↦ rw (replace_locked time callback id e es s hit l) (e, mem-cons_self, l, hit)
      | inr u ↦ rw (replace_unlocked time callback id e es s hit u) (
          unfold without_id in
          simp hit (sym (without_id_absent id es (others-Lacks id e es hit d.0))))
    ]
    | inr miss ↦
        rw (replace_miss time callback id e es s miss)
          (prepend-Outcome id e es _ miss (replace-Outcome id es s d.1))
  ]

  -- What the discarding loop leaves, by the number of entries that it took out.
  kept_lem :
      (w : World S)
      → (discarded time callback w).kept
        ≡ without_unlocked (discarded time callback w).deletions w.ring.buffer
  kept_lem w =
      rw discarded_lem (unfold discard_first in sym (without_unlocked_found _ w.ring.buffer))

  pub deletions-le : (w : World S) → IsValid w.ring → (discarded time callback w).deletions ≤ 1
  deletions-le w v = rw discarded_lem (
      unfold discard_first in
      omega (
        arith,
        length-first_unlocked-le (suc (length w.ring.buffer) - w.ring.max_size) w.ring.buffer,
        v.bounded,
      ))

  abbrev restored : World S → Discarded S → World S
  restored w d = record {
    ring = record w.ring { buffer = d.kept };
    readings = d.readings;
    owner = d.owner;
  }

  -- A buffer with room loses nothing in the loop.
  discarded_free :
      (w : World S)
      → length w.ring.buffer < w.ring.max_size
      → discarded time callback w
        ≡ record { kept = w.ring.buffer; deletions = 0; readings = w.readings; owner = w.owner }
  discarded_free w h =
      discarded_lem time callback w
      ∙ rw none_over
          (unfold discard_first without_unlocked first_unlocked notify_each readings_each in refl)
    where
      none_over : suc (length w.ring.buffer) - w.ring.max_size ≡ 0
      none_over = omega arith

  -- Where the loop finds too little room, it found nothing to discard.
  pub stuck_locked :
      (w : World S)
      → IsValid w.ring
      → w.ring.max_size ≤ length w.ring.buffer
      → w.ring.max_size ≤ length (discarded time callback w).kept
      → All (λ e. e.locked ≡ true) w.ring.buffer
        × ((discarded time callback w).kept ≡ w.ring.buffer)
  stuck_locked w v full = rw discarded_lem (
      unfold discard_first in
      λ h.
        let none_found : length (first_unlocked excess w.ring.buffer) ≡ 0 =
          omega (arith, length-unlocked excess w.ring.buffer, v.bounded) in
        let same = without_unlocked_none excess w.ring.buffer none_found in
        (
          subst (All (λ e. e.locked ≡ true)) same
              (first_unlocked-short excess w.ring.buffer (omega arith)),
          same,
        ))
    where
      excess : ℕ
      excess = suc (length w.ring.buffer) - w.ring.max_size

  -- What `Push` leaves behind, by its result.
  abbrev pub Pushed : ℤ → List Measurement → World S → Result ℤ × World S → Type 0
  Pushed id ms w (ok (pos n), w') =
      (n ≤ 1)
      × (w'.ring.buffer
          ≡ without_id id (without_unlocked n w.ring.buffer)
            ++ stored time id ms (discarded time callback w).readings ∷ [])
  Pushed id ms w (ok (negsuc k), w') =
      (k ≡ 0)
      × ((All (λ e. e.locked ≡ true) w.ring.buffer × (w'.ring.buffer ≡ w.ring.buffer))
          ⊎ ((n : ℕ) × (n ≤ 1)
              × (is_mode_0 w.ring ≡ false)
              × (w'.ring.buffer ≡ without_unlocked n w.ring.buffer)
              × HoldsLocked id w'.ring.buffer))
  Pushed id ms w (thrown e, w') =
      ((e ≡ overflow_exception)
        × (w.ring.max_size ≤ length w.ring.buffer)
        × (w.ring.allow_overflow ≡ false)
        × (w' ≡ w))
      ⊎ ((n : ℕ) × (e ≡ bad_id)
          × (n ≤ 1)
          × (is_mode_0 w.ring ≡ true)
          × (w'.ring.buffer ≡ without_unlocked n w.ring.buffer)
          × (last_id_ge id w'.ring.buffer ≡ true))

  insert-Pushed :
      (id : ℤ) (ms : List Measurement) (w : World S)
      → IsValid w.ring
      → Pushed id ms w (
          insert time callback id ms
            (discarded time callback w).deletions
            (after_discard time callback w))
  insert-Pushed id ms w v =
      insert_cases time callback (Pushed id ms w) id ms _ (after_discard time callback w)
        (λ m g.
          inr ((discarded time callback w).deletions, refl, deletions-le w v, m, kept_lem w, g))
        (λ m l. (
          deletions-le w v,
          rw (← kept_lem w) (
              unfold push_back in
              ap (λ es. es ++ new_entry ∷ [])
                (sym (without_id_absent id _ (last_id-Lacks id _ (valid.ascending m) l)))),
        ))
        (λ m e. (
          refl,
          inr (
            (discarded time callback w).deletions,
            deletions-le w v,
            m,
            kept_lem w,
            subst (Outcome id (discarded time callback w).kept) e
                (found (discarded time callback w).owner),
          ),
        ))
        (λ m es s e. (
          deletions-le w v,
          rw (← kept_lem w) (
              unfold push_back in
              ap (λ r. r ++ new_entry ∷ [])
                (subst (Outcome id (discarded time callback w).kept) e
                  (found (discarded time callback w).owner))),
        ))
    where
      valid : IsValid (after_discard time callback w).ring
      valid = after_discard-IsValid time callback w v

      new_entry : BufferEntry
      new_entry = stored time id ms (discarded time callback w).readings

      found :
          (s : S)
          → Outcome id
              (discarded time callback w).kept
              (replace time callback id (discarded time callback w).kept s)
      found s = replace-Outcome id (discarded time callback w).kept s valid.distinct

  -- Under the invariant, every result of `Push` says what the buffer is afterwards. A number of
  -- deletions, at most one: so many of the first unlocked entries are gone, an entry of the id as well,
  -- and the data set is the last one. -1: all entries are locked and the buffer is as it was; or, in
  -- counter mode 1, at most the first unlocked entry is gone, and a locked one of the id is there. An
  -- overflow: nothing has changed. A bad id: at most the first unlocked entry is gone, and the last id
  -- is not less than the one given.
  pub push-Pushed :
      (id : ℤ) (ms : List Measurement) (w : World S)
      → IsValid w.ring
      → Pushed id ms w (push time callback id ms w)
  push-Pushed id ms w v =
      push_cases time callback (Pushed id ms w) id ms w (λ f o. inl (refl, f, o, refl))
        (λ f o k. (refl, inl (stuck_locked w v f k))) (λ f o k. insert-Pushed id ms w v)
        (λ k.
          subst (λ d. Pushed id ms w (insert time callback id ms d.deletions (restored w d)))
            (discarded_free w k) (insert-Pushed id ms w v))
