-- ===== src/Ring/Push.antt =====
-- `RingBuffer::Push` of src/ring_buffer.cpp on every branch, and the validity of the buffer.
use qds_data_interface.Prelude.{
  ℕ, suc, ◌-◌, ◌≤◌, ◌<◌, true, false, Option, none, some, List, [], ◌∷◌, ◌≡◌, subst, length,
  length-append, length-Sublist-le, Bool-cases, inl, inr, arith, Option-cases, AllPairs-Sublist,
  Sublistᴰ,
}
use qds_data_interface.Prelude.Int.{ℤ, pos}
use qds_data_interface.Exception.{Result, ok, thrown, overflow_exception}
use qds_data_interface.Measurement.{Measurement}
use qds_data_interface.Types.{BufferEntry}
use qds_data_interface.Ring.{
  OnDeleteCallback, RingBuffer, World, is_mode_0, minus_one, bad_id, replace, discarded,
  after_discard, last_id_ge, push_back, insert, push,
}
use qds_data_interface.Ring.Discard.{
  discard_first, discard-eq-discard_first, without_unlocked-Sublist,
}
use qds_data_interface.Ring.Valid.{
  IsValid, Lacks, OnSome, Replaced, last_id-Lacks, replace-Replaced, append-Ascending,
  append-Distinct,
}

module _ {S : Type 0} (time : ℕ → ℕ) (callback : Option (OnDeleteCallback S)) where
  -- Every outcome of `Push`, with the tests that lead to it.
  module _ (P : Result ℤ × World S → Type 0) (id : ℤ) (ms : List Measurement) where
    pub insert_cases :
        (n : ℕ) (w : World S)
        → (is_mode_0 w.ring ≡ true → last_id_ge id w.ring.buffer ≡ true → P (thrown bad_id, w))
        → (is_mode_0 w.ring ≡ true
            → last_id_ge id w.ring.buffer ≡ false
            → P (ok (pos n), push_back time id ms w))
        → (is_mode_0 w.ring ≡ false
            → replace time callback id w.ring.buffer w.owner ≡ none
            → P (ok minus_one, w))
        → (is_mode_0 w.ring ≡ false
            → (es : List BufferEntry) (s : S)
            → replace time callback id w.ring.buffer w.owner ≡ some (es, s)
            → P (
              ok (pos n),
              push_back time id ms (record w { ring = record w.ring { buffer = es }; owner = s }),
            ))
        → P (insert time callback id ms n w)
    unfolding insert
    insert_cases n w bad good held fresh = elim (Bool-cases (is_mode_0 w.ring)) [
      | inl m ↦ elim (Bool-cases (last_id_ge id w.ring.buffer)) [
        | inl g ↦ simp (m, g) (bad m g)
        | inr l ↦ simp (m, l) (good m l)
      ]
      | inr m ↦ elim (Option-cases (replace time callback id w.ring.buffer w.owner)) [
        | inl e ↦ simp (m, e) (held m e)
        | inr ((es, s), e) ↦ simp (m, e) (fresh m es s e)
      ]
    ]

    pub push_cases :
        (w : World S)
        → (w.ring.max_size ≤ length w.ring.buffer
            → w.ring.allow_overflow ≡ false
            → P (thrown overflow_exception, w))
        → (w.ring.max_size ≤ length w.ring.buffer
            → w.ring.allow_overflow ≡ true
            → w.ring.max_size ≤ length (discarded time callback w).kept
            → P (ok minus_one, after_discard time callback w))
        → (w.ring.max_size ≤ length w.ring.buffer
            → w.ring.allow_overflow ≡ true
            → length (discarded time callback w).kept < w.ring.max_size
            → P (
                insert time callback id ms
                  (discarded time callback w).deletions
                  (after_discard time callback w)))
        → (length w.ring.buffer < w.ring.max_size → P (insert time callback id ms 0 w))
        → P (push time callback id ms w)
    unfolding push
    push_cases w full stuck room free = ground arith

  push_back-IsValid :
      (id : ℤ) (ms : List Measurement) (w : World S)
      → IsValid w.ring
      → length w.ring.buffer < w.ring.max_size
      → Lacks id w.ring.buffer
      → (is_mode_0 w.ring ≡ true → last_id_ge id w.ring.buffer ≡ false)
      → IsValid (push_back time id ms w).ring
  unfolding push_back
  push_back-IsValid id ms w v room lacks above = record {
    bounded = omega (arith, length-append w.ring.buffer (new_entry ∷ []));
    distinct = append-Distinct w.ring.buffer new_entry v.distinct lacks;
    ascending = λ m. append-Ascending w.ring.buffer new_entry (v.ascending m) (above m);
  }
    where
      new_entry : BufferEntry
      new_entry = record {
        id = id;
        measurements = ms;
        timestamp_ms = time w.readings;
        locked = false;
      }

  -- A part of a valid buffer makes a valid buffer.
  pub part-IsValid :
      (r : RingBuffer) (es : List BufferEntry)
      → IsValid r
      → Sublistᴰ es r.buffer
      → IsValid (record r { buffer = es })
  part-IsValid r es v p = record {
    bounded = omega (arith, length-Sublist-le p, v.bounded);
    distinct = AllPairs-Sublist _ p v.distinct;
    ascending = λ m. AllPairs-Sublist _ p (v.ascending m);
  }

  insert-IsValid :
      (id : ℤ) (ms : List Measurement) (n : ℕ) (w : World S)
      → IsValid w.ring
      → length w.ring.buffer < w.ring.max_size
      → IsValid (insert time callback id ms n w).1.ring
  insert-IsValid id ms n w v room =
      insert_cases (λ r. IsValid r.1.ring) id ms n w (λ m g. v)
        (λ m l.
          push_back-IsValid id ms w v room (last_id-Lacks id w.ring.buffer (v.ascending m) l)
            (λ _. l))
        (λ m h. v)
        λ m es s e.
          let (part, lacks) : Replaced time callback id w.ring.buffer es =
            subst (OnSome (Replaced time callback id w.ring.buffer)) e
              (replace-Replaced time callback id w.ring.buffer w.owner v.distinct) in
          push_back-IsValid id ms (record w { ring = record w.ring { buffer = es }; owner = s })
            (part-IsValid w.ring es v part) (omega (arith, length-Sublist-le part)) lacks
            (λ z. cc (m, z))

  -- What the discarding loop makes of the whole buffer.
  pub discarded_lem :
      (w : World S)
      → discarded time callback w
        ≡ discard_first time callback
            (suc (length w.ring.buffer) - w.ring.max_size)
            w.ring.buffer
            w.readings
            w.owner
  discarded_lem w =
      discard-eq-discard_first time callback w.ring.max_size (length w.ring.buffer) w.ring.buffer
        w.readings w.owner (omega arith)

  pub kept-Sublist : (w : World S) → Sublistᴰ (discarded time callback w).kept w.ring.buffer
  kept-Sublist w =
      rw discarded_lem (unfold discard_first in without_unlocked-Sublist _ w.ring.buffer)

  pub after_discard-IsValid :
      (w : World S) → IsValid w.ring → IsValid (after_discard time callback w).ring
  after_discard-IsValid w v = part-IsValid w.ring _ v (kept-Sublist w)

  -- Whatever `Push` returns or throws, the buffer stays within its size, its ids stay distinct, and
  -- in counter mode 0 they stay ascending.
  pub push-IsValid :
      (id : ℤ) (ms : List Measurement) (w : World S)
      → IsValid w.ring
      → IsValid (push time callback id ms w).1.ring
  push-IsValid id ms w v =
      push_cases (λ r. IsValid r.1.ring) id ms w (λ f o. v) (λ f o k. (after_discard-IsValid w v))
        (λ f o k.
          insert-IsValid id ms _ (after_discard time callback w) (after_discard-IsValid w v) k)
        (λ k. insert-IsValid id ms 0 w v k)
