-- ===== src/Ring/Locked.antt =====
-- Locked entries of the ring buffer, src/ring_buffer.cpp through `Push`.
use mathlib.Core.Logic.{∥∥₁_elim}
use mathlib.Core.List.{Memᴰ, Mem, Mem-prop, mem-cons_self, mem-cons_of_mem, mem-append_left}
use qds_data_interface.Prelude.{
  ℕ, true, Option, none, some, List, [], ◌∷◌, ◌≡◌, sym, subst, Bool-cases, inl, inr,
}
use qds_data_interface.Prelude.Int.{ℤ, ◌==ℤ◌}
use qds_data_interface.Measurement.{Measurement}
use qds_data_interface.Types.{BufferEntry}
use qds_data_interface.Ring.{
  OnDeleteCallback, World, replace, prepend, discarded, after_discard, push_back, insert, push,
}
use qds_data_interface.Ring.Discard.{discard_first, locked-mem-without_unlocked}
use qds_data_interface.Ring.Valid.{OnSome, replace_locked, replace_unlocked, replace_miss}
use qds_data_interface.Ring.Push.{insert_cases, push_cases, discarded_lem}

module _ {S : Type 0} (time : ℕ → ℕ) (callback : Option (OnDeleteCallback S)) (a : BufferEntry)
    (locked : a.locked ≡ true) where
  prepend-mem :
      (e : BufferEntry) (o : Option (List BufferEntry × S))
      → OnSome (Mem a) o
      → OnSome (Mem a) (prepend e o)
  prepend-mem e none h = tt
  prepend-mem e (some (r, s)) h = mem-cons_of_mem e h

  prepend-mem_self : (o : Option (List BufferEntry × S)) → OnSome (Mem a) (prepend a o)
  prepend-mem_self none = tt
  prepend-mem_self (some (r, s)) = mem-cons_self

  replace-mem :
      (id : ℤ) (es : List BufferEntry) (s : S)
      → Memᴰ a es
      → OnSome (Mem a) (replace time callback id es s)
  replace-mem id [] s m = elim m [ ]
  replace-mem id (e ∷ es) s (Memᴰ.head p) = elim (Bool-cases (e.id ==ℤ id)) [
    | inl hit ↦ rw (replace_locked time callback id e es s hit (rw (sym p) locked)) tt
    | inr miss ↦
        rw (replace_miss time callback id e es s miss)
          (rw (sym p) (prepend-mem_self (replace time callback id es s)))
  ]
  replace-mem id (e ∷ es) s (Memᴰ.tail d) = elim (Bool-cases (e.id ==ℤ id)) [
    | inl hit ↦ elim (Bool-cases e.locked) [
      | inl l ↦ rw (replace_locked time callback id e es s hit l) tt
      | inr u ↦ rw (replace_unlocked time callback id e es s hit u) (∣ d ∣₁)
    ]
    | inr miss ↦
        rw (replace_miss time callback id e es s miss) (prepend-mem e _ (replace-mem id es s d))
  ]

  replace_keeps :
      (id : ℤ) (es : List BufferEntry) (s : S) (r : List BufferEntry) (s' : S)
      → replace time callback id es s ≡ some (r, s')
      → Mem a es
      → Mem a r
  replace_keeps id es s r s' e m =
      ∥∥₁_elim m Mem-prop (λ d. subst (OnSome (Mem a)) e (replace-mem id es s d))

  discarded-mem : (w : World S) → Mem a w.ring.buffer → Mem a (discarded time callback w).kept
  discarded-mem w m =
      rw discarded_lem
        (unfold discard_first in locked-mem-without_unlocked _ w.ring.buffer a locked m)

  insert-mem :
      (id : ℤ) (ms : List Measurement) (n : ℕ) (w : World S)
      → Mem a w.ring.buffer
      → Mem a (insert time callback id ms n w).1.ring.buffer
  insert-mem id ms n w m =
      insert_cases time callback (λ r. Mem a r.1.ring.buffer) id ms n w (λ _ _. m)
        (λ _ _. unfold push_back in mem-append_left _ m) (λ _ _. m)
        (λ _ es s e.
          unfold push_back in mem-append_left _ (replace_keeps id w.ring.buffer w.owner es s e m))

  -- An entry that is locked when `Push` is called is in the buffer afterwards, whatever `Push`
  -- returns or throws.
  pub locked-mem-push :
      (id : ℤ) (ms : List Measurement) (w : World S)
      → Mem a w.ring.buffer
      → Mem a (push time callback id ms w).1.ring.buffer
  locked-mem-push id ms w m =
      push_cases time callback (λ r. Mem a r.1.ring.buffer) id ms w (λ _ _. m)
        (λ _ _ _. discarded-mem w m)
        (λ _ _ _. insert-mem id ms _ (after_discard time callback w) (discarded-mem w m))
        (λ _. insert-mem id ms 0 w m)
