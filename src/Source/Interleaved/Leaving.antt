-- ===== src/Source/Interleaved/Leaving.antt =====
-- The ids of the entries that leave the buffer, src/ring_buffer.cpp: none of them has an entry in the
-- buffer afterwards, unless it is the id of the push.
use mathlib.Core.List.{Perm, Permᴰ}
use mathlib.Core.Logic.{∥∥₁_elim}
use qds_data_interface.Prelude.{
  ℕ, suc, ◌+◌, ◌≤◌, true, false, none, some, List, [], ◌∷◌, ◌++◌, ◌≡◌, inl, inr, refl, sym, ◌∙◌,
  subst, arith, Bool-cases, is_empty, All, All-append, if◌then◌else◌,
}
use qds_data_interface.Prelude.Int.{ℤ, pos, negsuc, ◌==ℤ◌, ==ℤ_iff}
use qds_data_interface.Exception.{Result, ok, thrown}
use qds_data_interface.Measurement.{Measurement}
use qds_data_interface.Types.{BufferEntry, ResetReason}
use qds_data_interface.Ring.{World, push, delete, reset}
use qds_data_interface.Ring.Valid.{Distinct}
use qds_data_interface.Ring.Calls.{push-Keeps, delete-Keeps}
use qds_data_interface.Ring.Replay.{
  DeleteCall, record_call, with_owner, map_owner, push-natural, delete-natural,
}
use qds_data_interface.Ring.Account.{write_down, known, Accounted, push-Accounted, delete-known}
use qds_data_interface.Ring.Stored.{stored}
use qds_data_interface.Source.Owned.{has_id}
use qds_data_interface.Source.Interleaved.{acts_of, acts_of_calls}
use qds_data_interface.Source.Interleaved.Pending.{pending, entries_of, entries_of-append}

-- How many entries have the id.
unfoldable count_id : ℤ → List BufferEntry → ℕ
count_id id [] = 0
count_id id (e ∷ es) = if e.id ==ℤ id then suc (count_id id es) else count_id id es

count_id-append :
    (id : ℤ) (es fs : List BufferEntry) → count_id id (es ++ fs) ≡ count_id id es + count_id id fs
unfolding count_id
count_id-append id [] fs = omega arith
count_id-append id (e ∷ es) fs = ground (arith, count_id-append id es fs)

count_id-Permᴰ : (id : ℤ) {es fs : List BufferEntry} → Permᴰ es fs → count_id id es ≡ count_id id fs
unfolding count_id
count_id-Permᴰ id Permᴰ.nil = refl
count_id-Permᴰ id (Permᴰ.cons {a = a} e p) = rw (sym e) (ground (arith, count_id-Permᴰ id p))
count_id-Permᴰ id (Permᴰ.swap {a = a} {b = b} {l = l} e f) = rw (sym e, sym f) (ground arith)
count_id-Permᴰ id (Permᴰ.trans p q) = count_id-Permᴰ id p ∙ count_id-Permᴰ id q

count_id-Perm : (id : ℤ) {es fs : List BufferEntry} → Perm es fs → count_id id es ≡ count_id id fs
count_id-Perm id p = ∥∥₁_elim p (hlevel) (count_id-Permᴰ id)

count_id-has_id : (id : ℤ) (es : List BufferEntry) → has_id id es ≡ true → 1 ≤ count_id id es
unfolding count_id has_id
count_id-has_id id [] h = cc h
count_id-has_id id (e ∷ es) h = ground (arith, count_id-has_id id es)

has_id-count_id : (id : ℤ) (es : List BufferEntry) → 1 ≤ count_id id es → has_id id es ≡ true
unfolding count_id has_id
has_id-count_id id [] h = absurd (omega (arith, h))
has_id-count_id id (e ∷ es) h = ground (arith, has_id-count_id id es)

count_id-other :
    (id : ℤ) (e : BufferEntry) (es : List BufferEntry)
    → (e.id ==ℤ id) ≡ true
    → All (λ b. (e.id ==ℤ b.id) ≡ false) es
    → count_id id es ≡ 0
unfolding count_id
count_id-other id e [] h a = refl
count_id-other id e (x ∷ es) h a =
    ground (
      arith,
      count_id-other id e es h a.1,
      a.0,
      ==ℤ_iff e.id id,
      ==ℤ_iff x.id id,
      ==ℤ_iff e.id x.id,
    )

count_id-Distinct-le : (id : ℤ) (es : List BufferEntry) → Distinct es → count_id id es ≤ 1
unfolding count_id
count_id-Distinct-le id [] d = omega arith
count_id-Distinct-le id (e ∷ es) d = elim (Bool-cases (e.id ==ℤ id)) [
  | inl y ↦ rw (y, count_id-other id e es y d.0) (omega arith)
  | inr n ↦ rw n (count_id-Distinct-le id es d.1)
]

-- A call for an entry that does not ask to clear.
abbrev IsEntryCall : DeleteCall → Type 0
IsEntryCall (none, clear, t) = ⊥
IsEntryCall (some e, clear, t) = clear ≡ false

pending-eq-has_id :
    (id : ℤ) (calls : List DeleteCall)
    → All IsEntryCall calls
    → pending id (acts_of_calls calls) ≡ has_id id (entries_of calls)
unfolding pending acts_of_calls acts_of has_id entries_of
pending-eq-has_id id [] a = refl
pending-eq-has_id id ((none, clear, t) ∷ calls) a = absurd a.0
pending-eq-has_id id ((some e, clear, t) ∷ calls) a =
    ground (arith, a.0, pending-eq-has_id id calls a.1)

record_call-keeps :
    (e : BufferEntry) (t : ℕ) (calls : List DeleteCall)
    → All IsEntryCall calls
    → All IsEntryCall (record_call (some e) false t calls)
record_call-keeps e t calls a = All-append IsEntryCall calls _ a (refl, tt)

-- An id that the buffer has after a call was there before, and its references are not deleted by the
-- callback.
abbrev pub Stays : List BufferEntry → World (List DeleteCall) → ℤ → Type 0
Stays es w id =
    has_id id w.ring.buffer ≡ true
    → (has_id id es ≡ true) × (pending id (acts_of_calls w.owner) ≡ false)

count_id-Stays :
    (es : List BufferEntry) (w : World (List DeleteCall)) (id : ℤ)
    → Distinct es
    → All IsEntryCall w.owner
    → count_id id (known (map_owner entries_of w)) ≡ count_id id es
    → Stays es w id
count_id-Stays es w id d a e h =
    let total : count_id id (entries_of w.owner) + count_id id w.ring.buffer ≡ count_id id es =
      sym (count_id-append id (entries_of w.owner) w.ring.buffer) ∙ e in
    let here : 1 ≤ count_id id w.ring.buffer = count_id-has_id id w.ring.buffer h in
    let most : count_id id es ≤ 1 = count_id-Distinct-le id es d in
    (
      has_id-count_id id es (omega (arith, total, here)),
      pending-eq-has_id id w.owner a ∙ elim (Bool-cases (has_id id (entries_of w.owner))) [
        | inr n ↦ n
        | inl y ↦
            absurd (omega (arith, total, here, most, count_id-has_id id (entries_of w.owner) y))
      ],
    )

Accounted-count_id :
    (time : ℕ → ℕ) (id : ℤ) (ms : List Measurement) (w : World (List BufferEntry))
    (p : Result ℤ × World (List BufferEntry)) (i : ℤ)
    → (id ==ℤ i) ≡ false
    → Accounted time id ms w p
    → count_id i (known p.1) ≡ count_id i (known w)
unfolding count_id
Accounted-count_id time id ms w (ok (pos n), u) i o (t, p) =
    count_id-Perm i p ∙ count_id-append i (known w) (stored time id ms t ∷ []) ∙ rw o (omega arith)
Accounted-count_id time id ms w (ok (negsuc n), u) i o p = count_id-Perm i p
Accounted-count_id time id ms w (thrown e, u) i o p = count_id-Perm i p

module _ {S : Type 0} (time : ℕ → ℕ) (w : World S) (d : Distinct w.ring.buffer) where
  pub push-Stays :
      (id : ℤ) (ms : List Measurement) (i : ℤ)
      → (id ==ℤ i) ≡ false
      → Stays w.ring.buffer (push time (some record_call) id ms (with_owner [] w)).1 i
  unfolding entries_of
  push-Stays id ms i o =
      count_id-Stays w.ring.buffer (push time (some record_call) id ms (with_owner [] w)).1 i d
        (push-Keeps time record_call (All IsEntryCall) record_call-keeps id ms (with_owner [] w) tt)
        (Accounted-count_id time id ms (with_owner [] w) _ i o (
          subst (Accounted time id ms (with_owner [] w))
            (push-natural time record_call write_down entries_of entries_of-append id ms
              (with_owner [] w))
            (push-Accounted time id ms (with_owner [] w))))

  pub delete-Stays :
      (id i : ℤ) → Stays w.ring.buffer (delete time (some record_call) id (with_owner [] w)) i
  unfolding entries_of
  delete-Stays id i =
      count_id-Stays w.ring.buffer (delete time (some record_call) id (with_owner [] w)) i d
        (delete-Keeps time record_call (All IsEntryCall) record_call-keeps id (with_owner [] w) tt)
        (count_id-Perm i (
          subst (λ u. Perm (known u) w.ring.buffer)
            (delete-natural time record_call write_down entries_of entries_of-append id
              (with_owner [] w))
            (delete-known time id (with_owner [] w))))

  pub reset-Stays :
      (reason : ResetReason) (i : ℤ)
      → Stays w.ring.buffer (reset time (some record_call) reason (with_owner [] w)).1 i
  unfolding reset acts_of_calls pending has_id
  reset-Stays reason i = elim (Bool-cases (is_empty w.ring.buffer)) [
    | inl e ↦ rw (e, reset) (λ h. (h, refl))
    | inr e ↦ rw (e, reset) (λ h. cc h)
  ]
