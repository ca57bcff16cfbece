-- ===== src/Ring/Run.antt =====
-- Histories of a ring buffer (src/ring_buffer.cpp): its methods, and the lock that a consumer sets
-- on an entry through the iterators, as the steps of a relation.
use qds_data_interface.Prelude.{
  ℕ, zero, suc, Bool, true, false, Option, List, [], ◌∷◌, ◌≡◌, refl, ap, length, Bool-cases, inl,
  inr, arith, All, All-imp, AllPairs, is_empty,
}
use qds_data_interface.Prelude.Int.{ℤ, ◌==ℤ◌, ◌<ℤ◌}
use qds_data_interface.Measurement.{Measurement}
use qds_data_interface.Types.{BufferEntry, ResetReason}
use qds_data_interface.Ring.{
  OnDeleteCallback, World, is_mode_0, new, push, delete, delete_from, reset, lock, lock_entry,
}
use qds_data_interface.Ring.Valid.{
  IsValid, Lacks, delete_from-Sublist, delete_from-Lacks, delete_from_sorted,
}
use qds_data_interface.Ring.Push.{part-IsValid, push-IsValid}

length-lock_entry : (i : ℕ) (es : List BufferEntry) → length (lock_entry i es) ≡ length es
unfolding lock_entry
length-lock_entry i [] = refl
length-lock_entry zero (e ∷ es) = refl
length-lock_entry (suc i) (e ∷ es) = ap suc (length-lock_entry i es)

abbrev pub as_locked : BufferEntry → BufferEntry
as_locked e = record e { locked = true }

pub All-lock_entry :
    (P : BufferEntry → Type 0)
    → ((a : BufferEntry) → P a → P (as_locked a))
    → (i : ℕ) (es : List BufferEntry) → All P es
    → All P (lock_entry i es)
unfolding lock_entry
All-lock_entry P keeps i [] h = tt
All-lock_entry P keeps zero (e ∷ es) h = (keeps e h.0, h.1)
All-lock_entry P keeps (suc i) (e ∷ es) h = (h.0, All-lock_entry P keeps i es h.1)

pub AllPairs-lock_entry :
    (R : BufferEntry → BufferEntry → Type 0)
    → ((a b : BufferEntry) → R a b → R (as_locked a) b)
    → ((a b : BufferEntry) → R a b → R a (as_locked b))
    → (i : ℕ) (es : List BufferEntry) → AllPairs R es
    → AllPairs R (lock_entry i es)
unfolding lock_entry
AllPairs-lock_entry R left right i [] h = tt
AllPairs-lock_entry R left right zero (e ∷ es) h =
    (All-imp (R e) (R (as_locked e)) (left e) es h.0, h.1)
AllPairs-lock_entry R left right (suc i) (e ∷ es) h =
    (All-lock_entry (R e) (right e) i es h.0, AllPairs-lock_entry R left right i es h.1)

module _ {S : Type 0} (time : ℕ → ℕ) (callback : Option (OnDeleteCallback S)) where
  pub lock-IsValid : (i : ℕ) (w : World S) → IsValid w.ring → IsValid (lock i w).ring
  unfolding lock
  lock-IsValid i w v = record {
    bounded = rw (length-lock_entry i w.ring.buffer) v.bounded;
    distinct =
        AllPairs-lock_entry (λ a b. (a.id ==ℤ b.id) ≡ false) (λ a b h. h) (λ a b h. h) i
          w.ring.buffer v.distinct;
    ascending = λ m.
        AllPairs-lock_entry (λ a b. a.id <ℤ b.id) (λ a b h. h) (λ a b h. h) i w.ring.buffer
          (v.ascending m);
  }

  pub delete-IsValid :
      (id : ℤ) (w : World S) → IsValid w.ring → IsValid (delete time callback id w).ring
  unfolding delete
  delete-IsValid id w v =
      part-IsValid time callback w.ring _ v
        (delete_from-Sublist time callback id (is_mode_0 w.ring) w.ring.buffer w.owner)

  pub reset-IsValid :
      (reason : ResetReason) (w : World S)
      → IsValid w.ring
      → IsValid (reset time callback reason w).1.ring
  unfolding reset
  reset-IsValid reason w v = elim (Bool-cases (is_empty w.ring.buffer)) [
    | inl e ↦ simp e v
    | inr e ↦ simp e (record { bounded = omega arith; distinct = tt; ascending = λ m. tt })
  ]

  -- Counter mode 0 stops the search early; on a valid buffer `Delete` is the plain search all the
  -- same.
  pub delete-eq-plain :
      (id : ℤ) (w : World S)
      → IsValid w.ring
      → delete_from time callback (is_mode_0 w.ring) id w.ring.buffer w.owner
        ≡ delete_from time callback false id w.ring.buffer w.owner
  delete-eq-plain id w v = elim (Bool-cases (is_mode_0 w.ring)) [
    | inl m ↦ simp m (delete_from_sorted time callback id w.ring.buffer w.owner (v.ascending m))
    | inr m ↦ simp m
  ]

  -- After `Delete` no entry has the id.
  delete-Lacks :
      (id : ℤ) (w : World S) → IsValid w.ring → Lacks id (delete time callback id w).ring.buffer
  unfolding delete
  delete-Lacks id w v =
      rw (delete-eq-plain id w v)
        (delete_from-Lacks time callback id w.ring.buffer w.owner v.distinct)

  pub data Step (w : World S) : World S → Type 0 where
    pushed : (id : ℤ) (ms : List Measurement) → Step w (push time callback id ms w).1
    deleted : (id : ℤ) → Step w (delete time callback id w)
    emptied : (reason : ResetReason) → Step w (reset time callback reason w).1
    locked : (i : ℕ) → Step w (lock i w)

  pub data Reach (w : World S) : World S → Type 0 where
    here : Reach w w
    next : {u v : World S} → Reach w u → Step u v → Reach w v

  Step-IsValid : {u v : World S} → Step u v → IsValid u.ring → IsValid v.ring
  Step-IsValid {u} (pushed id ms) h = push-IsValid time callback id ms u h
  Step-IsValid {u} (deleted id) h = delete-IsValid id u h
  Step-IsValid {u} (emptied reason) h = reset-IsValid reason u h
  Step-IsValid {u} (locked i) h = lock-IsValid i u h

  pub Reach-IsValid : {u v : World S} → Reach u v → IsValid u.ring → IsValid v.ring
  Reach-IsValid here h = h
  Reach-IsValid (next r s) h = Step-IsValid s (Reach-IsValid r h)

pub new-IsValid :
    (size : ℕ) (counter_mode : ℤ) (allow_overflow : Bool)
    → IsValid (new size counter_mode allow_overflow)
unfolding new
new-IsValid size counter_mode allow_overflow = record {
  bounded = omega arith;
  distinct = tt;
  ascending = λ m. tt;
}
