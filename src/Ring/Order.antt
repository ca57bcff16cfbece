-- ===== src/Ring/Order.antt =====
-- The timestamps of the entries of a ring buffer, src/ring_buffer.cpp, where the clock never goes
-- back.
use qds_data_interface.Prelude.{
  Sublistᴰ, ℕ, suc, ◌≤◌, Option, List, [], ◌∷◌, ◌≡◌, refl, subst, back, is_empty, arith, All,
  AllPairs, All-append, All-Sublist, All-imp, AllPairs-Sublist, AllPairs-append_one, Bool-cases,
  inl, inr,
}
use qds_data_interface.Prelude.Int.{ℤ}
use qds_data_interface.Measurement.{Measurement}
use qds_data_interface.Types.{BufferEntry, ResetReason, ResetInformation}
use qds_data_interface.Ring.{
  OnDeleteCallback, World, is_mode_0, after_discard, push_back, insert, push, delete, reset, lock,
  read_for_callback, timestamp_or_0,
}
use qds_data_interface.Ring.Discard.{discard_first, readings_each}
use qds_data_interface.Ring.Valid.{IsValid, OnSome, Replaced, replace-Replaced, delete_from-Sublist}
use qds_data_interface.Ring.Push.{
  insert_cases, push_cases, discarded_lem, kept-Sublist, after_discard-IsValid,
}
use qds_data_interface.Ring.Run.{
  Step, pushed, deleted, emptied, locked, Reach, here, next, Reach-IsValid, All-lock_entry,
  AllPairs-lock_entry,
}

module _ {S : Type 0} (time : ℕ → ℕ) (callback : Option (OnDeleteCallback S))
    (monotone : (m n : ℕ) → m ≤ n → time m ≤ time n) where
  -- No entry is from the future, and the entries stand in the order of their timestamps.
  pub record IsChronological (w : World S) : Type 0 where
    pub past : All (λ e. e.timestamp_ms ≤ time w.readings) w.ring.buffer
    pub ordered : AllPairs (λ a b. a.timestamp_ms ≤ b.timestamp_ms) w.ring.buffer

  later :
      (m n : ℕ) (es : List BufferEntry)
      → m ≤ n
      → All (λ e. e.timestamp_ms ≤ time m) es
      → All (λ e. e.timestamp_ms ≤ time n) es
  later m n es h =
      All-imp (λ e. e.timestamp_ms ≤ time m) (λ e. e.timestamp_ms ≤ time n)
        (λ e k. omega (arith, k, monotone m n h)) es

  part-IsChronological :
      (w u : World S)
      → IsChronological w
      → Sublistᴰ u.ring.buffer w.ring.buffer
      → w.readings ≤ u.readings
      → IsChronological u
  part-IsChronological w u c p h = record {
    past = later w.readings u.readings _ h (All-Sublist _ p c.past);
    ordered = AllPairs-Sublist _ p c.ordered;
  }

  push_back-IsChronological :
      (id : ℤ) (ms : List Measurement) (w : World S)
      → IsChronological w
      → IsChronological (push_back time id ms w)
  unfolding push_back
  push_back-IsChronological id ms w c = record {
    past =
        later w.readings (suc w.readings) _ (omega arith)
          (All-append _ w.ring.buffer _ c.past (omega arith, tt));
    ordered = AllPairs-append_one _ w.ring.buffer _ c.ordered c.past;
  }

  insert-IsChronological :
      (id : ℤ) (ms : List Measurement) (n : ℕ) (w : World S)
      → IsValid w.ring
      → IsChronological w
      → IsChronological (insert time callback id ms n w).1
  insert-IsChronological id ms n w v c =
      insert_cases time callback (λ r. IsChronological r.1) id ms n w (λ _ _. c)
        (λ _ _. push_back-IsChronological id ms w c) (λ _ _. c)
        (λ m es s e.
          let (part, lacks) : Replaced time callback id w.ring.buffer es =
            subst (OnSome (Replaced time callback id w.ring.buffer)) e
              (replace-Replaced time callback id w.ring.buffer w.owner v.distinct) in
          push_back-IsChronological id ms
            (record w { ring = record w.ring { buffer = es }; owner = s })
            (part-IsChronological w _ c part (omega arith)))

  read_for_callback-ge : (n : ℕ) → n ≤ read_for_callback time callback n
  unfolding read_for_callback
  read_for_callback-ge n = ground arith

  readings_each-ge : (es : List BufferEntry) (n : ℕ) → n ≤ readings_each time callback es n
  unfolding readings_each
  readings_each-ge [] n = omega arith
  readings_each-ge (e ∷ es) n =
      omega (arith, read_for_callback-ge n, readings_each-ge es (read_for_callback time callback n))

  discarded-IsChronological :
      (w : World S) → IsChronological w → IsChronological (after_discard time callback w)
  discarded-IsChronological w c =
      part-IsChronological w _ c (kept-Sublist time callback w)
        (rw discarded_lem (unfold discard_first in readings_each-ge _ w.readings))

  push-IsChronological :
      (id : ℤ) (ms : List Measurement) (w : World S)
      → IsValid w.ring
      → IsChronological w
      → IsChronological (push time callback id ms w).1
  push-IsChronological id ms w v c =
      let c' : IsChronological (after_discard time callback w) = discarded-IsChronological w c in
      push_cases time callback (λ r. IsChronological r.1) id ms w (λ _ _. c) (λ _ _ _. c')
        (λ _ _ _. insert-IsChronological id ms _ _ (after_discard-IsValid time callback w v) c')
        (λ _. insert-IsChronological id ms 0 w v c)

  delete-IsChronological :
      (id : ℤ) (w : World S) → IsChronological w → IsChronological (delete time callback id w)
  unfolding delete
  delete-IsChronological id w c =
      part-IsChronological w _ c
        (delete_from-Sublist time callback id (is_mode_0 w.ring) w.ring.buffer w.owner)
        (omega arith)

  reset-IsChronological :
      (reason : ResetReason) (w : World S)
      → IsChronological w
      → IsChronological (reset time callback reason w).1
  unfolding reset
  reset-IsChronological reason w c = elim (Bool-cases (is_empty w.ring.buffer)) [
    | inl e ↦ simp e c
    | inr e ↦ simp e (record { past = tt; ordered = tt })
  ]

  lock-IsChronological : (i : ℕ) (w : World S) → IsChronological w → IsChronological (lock i w)
  unfolding lock
  lock-IsChronological i w c = record {
    past = All-lock_entry _ (λ a h. h) i w.ring.buffer c.past;
    ordered = AllPairs-lock_entry _ (λ a b h. h) (λ a b h. h) i w.ring.buffer c.ordered;
  }

  Step-IsChronological :
      {u v : World S}
      → Step time callback u v
      → IsValid u.ring
      → IsChronological u
      → IsChronological v
  Step-IsChronological {u} (pushed id ms) v c = push-IsChronological id ms u v c
  Step-IsChronological {u} (deleted id) v c = delete-IsChronological id u c
  Step-IsChronological {u} (emptied reason) v c = reset-IsChronological reason u c
  Step-IsChronological {u} (locked i) v c = lock-IsChronological i u c

  -- Where the clock never goes back, the entries of a buffer that any sequence of Push, Delete,
  -- Reset and locks of entries has made from a valid buffer in the order of time stand in that
  -- order, and none is from the future.
  pub Reach-IsChronological :
      {u v : World S}
      → Reach time callback u v
      → IsValid u.ring
      → IsChronological u
      → IsChronological v
  Reach-IsChronological here v c = c
  Reach-IsChronological (next r s) v c =
      Step-IsChronological s (Reach-IsValid time callback r v) (Reach-IsChronological r v c)

  front-le-back :
      (x : BufferEntry) (xs : List BufferEntry)
      → AllPairs (λ a b. a.timestamp_ms ≤ b.timestamp_ms) (x ∷ xs)
      → x.timestamp_ms ≤ timestamp_or_0 (back (x ∷ xs))
  front-le-back x [] h = omega arith
  front-le-back x (y ∷ ys) ((le, les), h) = omega (arith, le, front-le-back y ys h)

  back-le :
      (n : ℕ) (xs : List BufferEntry)
      → All (λ e. e.timestamp_ms ≤ n) xs
      → timestamp_or_0 (back xs) ≤ n
  back-le n [] h = omega arith
  back-le n (x ∷ []) h = h.0
  back-le n (x ∷ y ∷ ys) h = back-le n (y ∷ ys) h.1

  abbrev pub InOrder : ResetInformation → Type 0
  InOrder r =
      (r.oldest_dataset_time_ms ≤ r.newest_dataset_time_ms)
      × (r.newest_dataset_time_ms ≤ r.reset_time_ms)

  reset_entries-InOrder :
      (reason : ResetReason) (es : List BufferEntry) (w : World S)
      → w.ring.buffer ≡ es
      → IsChronological w
      → InOrder (reset time callback reason w).0
  unfolding reset
  reset_entries-InOrder reason [] w e c = rw e (omega arith, omega arith)
  reset_entries-InOrder reason (x ∷ xs) w e c = rw e (
    front-le-back x xs (subst (AllPairs (λ a b. a.timestamp_ms ≤ b.timestamp_ms)) e c.ordered),
    back-le (time w.readings) (x ∷ xs)
        (subst (All (λ a. a.timestamp_ms ≤ time w.readings)) e c.past),
  )

  -- On a buffer in the order of time, the oldest timestamp that Reset reports is at most the newest,
  -- and that at most the time of the reset.
  pub reset-InOrder :
      (reason : ResetReason) (w : World S)
      → IsChronological w
      → InOrder (reset time callback reason w).0
  reset-InOrder reason w = reset_entries-InOrder reason w.ring.buffer w refl
