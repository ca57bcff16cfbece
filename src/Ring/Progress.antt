-- ===== src/Ring/Progress.antt =====
-- When `RingBuffer::Push` of src/ring_buffer.cpp stores the data set.
use mathlib.Core.List.Sublist
use qds_data_interface.Prelude.{
  Sublistᴰ, ℕ, ◌≤◌, ◌<◌, true, false, Option, List, [], ◌∷◌, ◌++◌, ◌≡◌, ◌⊎◌, inl, inr, refl, subst,
  arith, length, All, All-Sublist, Bool-cases,
}
use qds_data_interface.Prelude.Int.{ℤ, pos, negsuc, ◌<ℤ◌, leb_ℤ, leb_ℤ-true}
use qds_data_interface.Exception.{Result, ok, thrown}
use qds_data_interface.Measurement.{Measurement}
use qds_data_interface.Types.{BufferEntry}
use qds_data_interface.Ring.{
  OnDeleteCallback, World, discarded, is_mode_0, after_discard, last_id_ge, insert, push,
}
use qds_data_interface.Ring.Discard.{without_unlocked}
use qds_data_interface.Ring.Valid.{IsValid, last_id_bound}
use qds_data_interface.Ring.Push.{insert_cases, push_cases, kept-Sublist, after_discard-IsValid}
use qds_data_interface.Ring.Stored.{
  without_id, stored, Pushed, push-Pushed, HoldsLocked, Outcome, replace-Outcome, stuck_locked,
  deletions-le,
}

pub below-last_id_ge :
    (id : ℤ) (es : List BufferEntry) → All (λ a. a.id <ℤ id) es → last_id_ge id es ≡ false
unfolding last_id_ge
below-last_id_ge id [] h = refl
below-last_id_ge id (e ∷ []) h = elim (Bool-cases (leb_ℤ id e.id)) [
  | inl y ↦ absurd (omega (arith, leb_ℤ-true id e.id y, h.0))
  | inr n ↦ n
]
below-last_id_ge id (e ∷ f ∷ es) h = below-last_id_ge id (f ∷ es) h.1

module _ {S : Type 0} (time : ℕ → ℕ) (callback : Option (OnDeleteCallback S)) (id : ℤ)
    (ms : List Measurement) where
  -- A number of deletions, at most one.
  abbrev IsCount : Result ℤ → Type 0
  IsCount r = (n : ℕ) × (n ≤ 1) × (r ≡ ok (pos n))

  insert-IsCount :
      (n : ℕ) (u : World S)
      → n ≤ 1
      → IsValid u.ring
      → (is_mode_0 u.ring ≡ true → last_id_ge id u.ring.buffer ≡ false)
      → (is_mode_0 u.ring ≡ false → ¬ HoldsLocked id u.ring.buffer)
      → IsCount (insert time callback id ms n u).0
  insert-IsCount n u le v greater free =
      insert_cases time callback (λ r. IsCount r.0) id ms n u (λ m g. cc (g, greater m))
        (λ _ _. (n, le, refl))
        (λ m e. absurd (
          free m (
            subst (Outcome time callback id u.ring.buffer) e
              (replace-Outcome time callback id u.ring.buffer u.owner v.distinct))))
        (λ _ _ _ _. (n, le, refl))

  part-HoldsLocked :
      (es r : List BufferEntry) → Sublistᴰ r es → HoldsLocked id r → HoldsLocked id es
  part-HoldsLocked es r p (f, i, l, h) = (f, Sublist.subset ∣ p ∣₁ f i, l, h)

  part-last_id_ge :
      (w : World S)
      → IsValid w.ring
      → (r : List BufferEntry) → Sublistᴰ r w.ring.buffer
      → is_mode_0 w.ring ≡ true
      → last_id_ge id w.ring.buffer ≡ false
      → last_id_ge id r ≡ false
  part-last_id_ge w v r p m g =
      below-last_id_ge id r (All-Sublist _ p (last_id_bound id w.ring.buffer (v.ascending m) g))

  push-IsCount :
      (w : World S)
      → IsValid w.ring
      → (length w.ring.buffer < w.ring.max_size)
        ⊎ ((w.ring.allow_overflow ≡ true) × (¬ All (λ e. e.locked ≡ true) w.ring.buffer))
      → (is_mode_0 w.ring ≡ true → last_id_ge id w.ring.buffer ≡ false)
      → (is_mode_0 w.ring ≡ false → ¬ HoldsLocked id w.ring.buffer)
      → IsCount (push time callback id ms w).0
  push-IsCount w v room greater free =
      push_cases time callback (λ r. IsCount r.0) id ms w
        (λ f o. elim room [ inl h ↦ absurd (omega arith) | inr (a, u) ↦ cc (o, a) ])
        (λ f o k. elim room [
          | inl h ↦ absurd (omega arith)
          | inr (a, u) ↦ absurd (u (stuck_locked time callback w v f k).0)
        ])
        (λ f o k.
          insert-IsCount _ (after_discard time callback w) (deletions-le time callback w v)
            (after_discard-IsValid time callback w v)
            (λ m. part-last_id_ge w v _ (kept-Sublist time callback w) m (greater m))
            (λ m h. free m (part-HoldsLocked _ _ (kept-Sublist time callback w) h)))
        (λ k. insert-IsCount 0 w (omega arith) v greater free)

  -- The data set is the last entry, unlocked; of the others at most one unlocked entry is gone, and in
  -- counter mode 1 one of the same id.
  abbrev pub IsStored : World S → Result ℤ × World S → Type 0
  IsStored w p =
      (n : ℕ) × (t : ℕ) × (n ≤ 1)
      × (p.0 ≡ ok (pos n))
      × (p.1.ring.buffer
          ≡ without_id id (without_unlocked n w.ring.buffer) ++ stored time id ms t ∷ [])

  counted-IsStored :
      (w : World S) (p : Result ℤ × World S)
      → IsCount p.0
      → Pushed time callback id ms w p
      → IsStored w p
  counted-IsStored w (ok (pos n), u) (m, le, e) (le', h) =
      (n, (discarded time callback w).readings, le', refl, h)
  counted-IsStored w (ok (negsuc n), u) (m, le, e) h = cc e
  counted-IsStored w (thrown x, u) (m, le, e) h = cc e

  -- `Push` puts the data set, unlocked, behind the entries that are left, and discards at most the
  -- first unlocked entry and one of the same id, if the buffer has room, or may overflow and has an
  -- entry that is not locked; in counter mode 0 the id has to be greater than the last one, and in
  -- counter mode 1 no locked entry may have it.
  pub push-IsStored :
      (w : World S)
      → IsValid w.ring
      → (length w.ring.buffer < w.ring.max_size)
        ⊎ ((w.ring.allow_overflow ≡ true) × (¬ All (λ e. e.locked ≡ true) w.ring.buffer))
      → (is_mode_0 w.ring ≡ true → last_id_ge id w.ring.buffer ≡ false)
      → (is_mode_0 w.ring ≡ false → ¬ HoldsLocked id w.ring.buffer)
      → IsStored w (push time callback id ms w)
  push-IsStored w v room greater free =
      counted-IsStored w (push time callback id ms w) (push-IsCount w v room greater free)
        (push-Pushed time callback id ms w v)
