-- ===== src/Ring/Options.antt =====
-- `kMaxSize_`, `kCounterMode_` and `kAllowOverflow_` of src/ring_buffer.hpp, which are `const`.
use qds_data_interface.Prelude.{ℕ, Option, List, ◌≡◌, inl, inr, refl, Bool-cases, is_empty}
use qds_data_interface.Prelude.Int.{ℤ}
use qds_data_interface.Measurement.{Measurement}
use qds_data_interface.Types.{ResetReason}
use qds_data_interface.Ring
use qds_data_interface.Ring.{OnDeleteCallback, RingBuffer, World, push_back}
use qds_data_interface.Ring.Push.{insert_cases, push_cases}

-- The options of a ring buffer are those of another.
abbrev pub KeepsOptions : RingBuffer → RingBuffer → Type 0
KeepsOptions r r' =
    (r'.max_size ≡ r.max_size)
    × (r'.counter_mode ≡ r.counter_mode)
    × (r'.allow_overflow ≡ r.allow_overflow)

module _ {S : Type 0} (time : ℕ → ℕ) (callback : Option (OnDeleteCallback S)) where
  pub push-KeepsOptions :
      (id : ℤ) (ms : List Measurement) (w : World S)
      → KeepsOptions w.ring (Ring.push time callback id ms w).1.ring
  unfolding push_back
  push-KeepsOptions id ms w =
      push_cases time callback (λ r. KeepsOptions w.ring r.1.ring) id ms w (λ _ _. same)
        (λ _ _ _. same) (λ _ _ _. inserted _ _ same) (λ _. inserted 0 w same)
    where
      same : KeepsOptions w.ring w.ring
      same = (refl, refl, refl)

      inserted :
          (n : ℕ) (v : World S)
          → KeepsOptions w.ring v.ring
          → KeepsOptions w.ring (Ring.insert time callback id ms n v).1.ring
      inserted n v h =
          insert_cases time callback (λ r. KeepsOptions w.ring r.1.ring) id ms n v (λ _ _. h)
            (λ _ _. h) (λ _ _. h) (λ _ _ _ _. h)

  pub delete-KeepsOptions :
      (id : ℤ) (w : World S) → KeepsOptions w.ring (Ring.delete time callback id w).ring
  unfolding Ring.delete
  delete-KeepsOptions id w = (refl, refl, refl)

  pub reset-KeepsOptions :
      (reason : ResetReason) (w : World S)
      → KeepsOptions w.ring (Ring.reset time callback reason w).1.ring
  unfolding Ring.reset
  reset-KeepsOptions reason w = elim (Bool-cases (is_empty w.ring.buffer)) [
    | inl e ↦ rw e (refl, refl, refl)
    | inr e ↦ rw e (refl, refl, refl)
  ]
