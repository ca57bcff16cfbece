-- ===== src/Source/Interleaved/Pending.antt =====
-- The entries that leave the buffer in a call that holds its mutex, src/ring_buffer.cpp, and the
-- references that the delete callback has still to delete, src/data_source_internal.cpp.
use mathlib.Core.List.Perm
use mathlib.Core.List.{Mem, not-mem-nil, mem-cons, mem-cons_of_mem, mem-cons_self, Perm}
use mathlib.Core.Logic.Or
use qds_data_interface.Prelude.{
  ℕ, Bool, true, false, ◌||◌, Option, none, some, List, [], ◌∷◌, ◌++◌, ◌≡◌, ◌⊎◌, inl, inr, refl, ap,
  subst, arith, Bool-cases, is_empty,
}
use qds_data_interface.Prelude.Int.{ℤ, pos, negsuc, ◌==ℤ◌}
use qds_data_interface.Exception.{Result, ok, thrown}
use qds_data_interface.Measurement.{Measurement}
use qds_data_interface.Types.{BufferEntry, ResetReason}
use qds_data_interface.Ring.{World, push, delete, reset, notify_clear}
use qds_data_interface.Ring.Replay.{
  DeleteCall, record_call, with_owner, map_owner, push-natural, delete-natural,
}
use qds_data_interface.Ring.Account.{write_down, known, Accounted, push-Accounted, delete-known}
use qds_data_interface.Ring.Stored.{stored}
use qds_data_interface.Source.Owned.{has_id}
use qds_data_interface.Source.Interleaved.{Act, noted, erased, acts_of, acts_of_calls}

-- The references of the id are still to be deleted.
unfoldable pub pending : ℤ → List Act → Bool
pending id [] = false
pending id (noted e t ∷ acts) = pending id acts
pending id (erased i clear ∷ acts) = (clear || (i ==ℤ id)) || pending id acts

-- The entries of the callback's calls.
unfoldable pub entries_of : List DeleteCall → List BufferEntry
entries_of [] = []
entries_of ((none, clear, t) ∷ calls) = entries_of calls
entries_of ((some e, clear, t) ∷ calls) = e ∷ entries_of calls

pub entries_of-append :
    (o : Option BufferEntry) (clear : Bool) (t : ℕ) (calls : List DeleteCall)
    → write_down o clear t (entries_of calls) ≡ entries_of (record_call o clear t calls)
unfolding entries_of
entries_of-append none clear t [] = refl
entries_of-append (some e) clear t [] = refl
entries_of-append none clear t ((none, c, u) ∷ calls) = entries_of-append none clear t calls
entries_of-append (some e) clear t ((none, c, u) ∷ calls) = entries_of-append (some e) clear t calls
entries_of-append none clear t ((some x, c, u) ∷ calls) =
    ap (λ l. x ∷ l) (entries_of-append none clear t calls)
entries_of-append (some e) clear t ((some x, c, u) ∷ calls) =
    ap (λ l. x ∷ l) (entries_of-append (some e) clear t calls)

pending-entries_of :
    (id : ℤ) (calls : List DeleteCall)
    → has_id id (entries_of calls) ≡ true
    → pending id (acts_of_calls calls) ≡ true
unfolding has_id entries_of pending acts_of_calls acts_of
pending-entries_of id [] h = h
pending-entries_of id ((none, clear, t) ∷ calls) h = ground (arith, pending-entries_of id calls)
pending-entries_of id ((some e, clear, t) ∷ calls) h = ground (arith, pending-entries_of id calls)

has_id-append :
    (id : ℤ) (es fs : List BufferEntry) → has_id id (es ++ fs) ≡ has_id id es || has_id id fs
unfolding has_id
has_id-append id [] fs = refl
has_id-append id (e ∷ es) fs = ground (arith, has_id-append id es fs)

has_id-Mem :
    (id : ℤ) (es : List BufferEntry)
    → has_id id es ≡ true
    → (e : BufferEntry) × Mem e es × ((e.id ==ℤ id) ≡ true)
unfolding has_id
has_id-Mem id [] h = cc h
has_id-Mem id (e ∷ es) h = elim (Bool-cases (e.id ==ℤ id)) [
  | inl y ↦ (e, mem-cons_self, y)
  | inr n ↦ let (x, m, y) = has_id-Mem id es (ground arith) in (x, mem-cons_of_mem e m, y)
]

Mem-has_id :
    (id : ℤ) (es : List BufferEntry) (e : BufferEntry)
    → (e.id ==ℤ id) ≡ true
    → Mem e es
    → has_id id es ≡ true
unfolding has_id
Mem-has_id id [] e y m = absurd (not-mem-nil m)
Mem-has_id id (x ∷ es) e y m =
    Or.elim (hlevel) (mem-cons.0 m) (λ p. ground (arith, p))
      (λ i. ground (arith, Mem-has_id id es e y i))

has_id-Perm :
    (id : ℤ) (es fs : List BufferEntry) → Perm es fs → has_id id fs ≡ true → has_id id es ≡ true
has_id-Perm id es fs p h =
    let (e, m, y) = has_id-Mem id fs h in Mem-has_id id es e y ((Perm.mem_iff p).1 m)

-- An id that the list has is, after a call, that of an entry of the buffer, or its references are
-- still to be deleted.
abbrev pub KeepsOrErases : List BufferEntry → World (List DeleteCall) → Type 0
KeepsOrErases es w =
    (id : ℤ)
    → has_id id es ≡ true
    → (has_id id w.ring.buffer ≡ true) ⊎ (pending id (acts_of_calls w.owner) ≡ true)

known-KeepsOrErases :
    (es : List BufferEntry) (w : World (List DeleteCall))
    → ((id : ℤ) → has_id id es ≡ true → has_id id (known (map_owner entries_of w)) ≡ true)
    → KeepsOrErases es w
known-KeepsOrErases es w f id h = elim (Bool-cases (has_id id w.ring.buffer)) [
  | inl y ↦ inl y
  | inr n ↦ inr (
      pending-entries_of id w.owner
        (ground (arith, f id h, has_id-append id (entries_of w.owner) w.ring.buffer, n)))
]

Accounted-has_id :
    (time : ℕ → ℕ) (id : ℤ) (ms : List Measurement) (w : World (List BufferEntry))
    (p : Result ℤ × World (List BufferEntry))
    → Accounted time id ms w p
    → (i : ℤ) → has_id i (known w) ≡ true
    → has_id i (known p.1) ≡ true
Accounted-has_id time id ms w (ok (pos n), u) (t, p) i h =
    has_id-Perm i (known u) (known w ++ stored time id ms t ∷ []) p
      (ground (arith, has_id-append i (known w) (stored time id ms t ∷ []), h))
Accounted-has_id time id ms w (ok (negsuc n), u) p i h = has_id-Perm i (known u) (known w) p h
Accounted-has_id time id ms w (thrown e, u) p i h = has_id-Perm i (known u) (known w) p h

module _ {S : Type 0} (time : ℕ → ℕ) (w : World S) where
  pub push-KeepsOrErases :
      (id : ℤ) (ms : List Measurement)
      → KeepsOrErases w.ring.buffer (push time (some record_call) id ms (with_owner [] w)).1
  unfolding entries_of
  push-KeepsOrErases id ms =
      known-KeepsOrErases w.ring.buffer (push time (some record_call) id ms (with_owner [] w)).1 (
        Accounted-has_id time id ms (with_owner [] w) _ (
          subst (Accounted time id ms (with_owner [] w))
            (push-natural time record_call write_down entries_of entries_of-append id ms
              (with_owner [] w))
            (push-Accounted time id ms (with_owner [] w))))

  pub delete-KeepsOrErases :
      (id : ℤ) → KeepsOrErases w.ring.buffer (delete time (some record_call) id (with_owner [] w))
  unfolding entries_of
  delete-KeepsOrErases id =
      known-KeepsOrErases w.ring.buffer (delete time (some record_call) id (with_owner [] w))
        (λ i h.
          has_id-Perm i _ w.ring.buffer
            (subst (λ u. Perm (known u) w.ring.buffer)
              (delete-natural time record_call write_down entries_of entries_of-append id
                (with_owner [] w))
              (delete-known time id (with_owner [] w)))
            h)

  pub reset-KeepsOrErases :
      (reason : ResetReason)
      → KeepsOrErases w.ring.buffer (reset time (some record_call) reason (with_owner [] w)).1
  unfolding reset notify_clear acts_of_calls acts_of pending
  reset-KeepsOrErases reason = elim (Bool-cases (is_empty w.ring.buffer)) [
    | inl e ↦ rw (e, reset) (λ id h. inl h)
    | inr e ↦ rw (e, reset) (λ id h. inr refl)
  ]
