-- ===== src/Ring/Replay.antt =====
-- The delete callback of src/ring_buffer.cpp apart from the buffer: its calls as data.
use qds_data_interface.Prelude.{
  ℕ, Bool, not, ◌&&◌, ◌-◌, Option, none, some, List, [], ◌∷◌, ◌++◌, ◌≡◌, refl, sym, inl, inr,
  Bool-cases, Option-cases, length, leb, is_empty,
}
use qds_data_interface.Prelude.Int.{ℤ, ltb_ℤ, ◌==ℤ◌}
use qds_data_interface.Measurement.{Measurement}
use qds_data_interface.Types.{BufferEntry, ResetReason}
use qds_data_interface.Ring.{
  OnDeleteCallback, World, Discarded, is_mode_0, last_id_ge, discard, notify, notify_now, replace,
  prepend, discarded, after_discard, push_back, insert, push, delete_from, delete, reset,
  notify_clear, read_for_callback,
}

-- The state of another owner in place of the owner's.
abbrev pub with_owner : {S T : Type 0} → T → World S → World T
with_owner t w = record { ring = w.ring; readings = w.readings; owner = t }

abbrev pub map_owner : {S T : Type 0} → (S → T) → World S → World T
map_owner h w = with_owner (h w.owner) w

abbrev map_discarded : {S T : Type 0} → (S → T) → Discarded S → Discarded T
map_discarded h d = record {
  kept = d.kept;
  deletions = d.deletions;
  readings = d.readings;
  owner = h d.owner;
}

abbrev map_replaced :
    {S T : Type 0} → (S → T) → Option (List BufferEntry × S) → Option (List BufferEntry × T)
map_replaced h none = none
map_replaced h (some (es, s)) = some (es, h s)

-- Two owners, whose callbacks do the same up to a map of their states.
module _ {S T : Type 0} (time : ℕ → ℕ) (f : OnDeleteCallback S) (g : OnDeleteCallback T) (h : S → T)
    (hom : (o : Option BufferEntry) (clear : Bool) (t : ℕ) (s : S)
      → g o clear t (h s) ≡ h (f o clear t s)) where
  discard-natural :
      (m size : ℕ) (es : List BufferEntry) (n : ℕ) (s : S)
      → discard time (some g) m size es n (h s)
        ≡ map_discarded h (discard time (some f) m size es n s)
  unfolding discard notify_now read_for_callback
  discard-natural m size [] n s = refl
  discard-natural m size (e ∷ es) n s = elim (Bool-cases (leb m size)) [
    | inr room ↦ rw (room, discard) refl
    | inl full ↦ elim (Bool-cases e.locked) [
      | inl l ↦ rw (full, l, discard, discard-natural m size es n s) refl
      | inr u ↦ rw (full, u, discard, hom, discard-natural m (size - 1) es _ _) refl
    ]
  ]

  prepend-natural :
      (e : BufferEntry) (o : Option (List BufferEntry × S))
      → prepend e (map_replaced h o) ≡ map_replaced h (prepend e o)
  prepend-natural e none = refl
  prepend-natural e (some (es, s)) = refl

  replace-natural :
      (id : ℤ) (es : List BufferEntry) (s : S)
      → replace time (some g) id es (h s) ≡ map_replaced h (replace time (some f) id es s)
  unfolding replace notify
  replace-natural id [] s = refl
  replace-natural id (e ∷ es) s = elim (Bool-cases (e.id ==ℤ id)) [
    | inr miss ↦ rw (miss, replace, replace-natural id es s) (prepend-natural e _)
    | inl hit ↦ elim (Bool-cases e.locked) [
      | inl l ↦ rw (hit, l, replace) refl
      | inr u ↦ rw (hit, u, replace, hom) refl
    ]
  ]

  insert-natural :
      (id : ℤ) (ms : List Measurement) (n : ℕ) (w : World S)
      → insert time (some g) id ms n (map_owner h w)
        ≡ ((insert time (some f) id ms n w).0, map_owner h (insert time (some f) id ms n w).1)
  unfolding insert push_back
  insert-natural id ms n w = elim (Bool-cases (is_mode_0 w.ring)) [
    | inl m ↦ elim (Bool-cases (last_id_ge id w.ring.buffer)) [
      | inl b ↦ rw (m, b, insert) refl
      | inr a ↦ rw (m, a, insert) refl
    ]
    | inr m ↦ elim (Option-cases (replace time (some f) id w.ring.buffer w.owner)) [
      | inl e ↦ rw (m, replace-natural id w.ring.buffer w.owner, e, insert) refl
      | inr ((es, s), e) ↦ rw (m, replace-natural id w.ring.buffer w.owner, e, insert) refl
    ]
  ]

  pub push-natural :
      (id : ℤ) (ms : List Measurement) (w : World S)
      → push time (some g) id ms (map_owner h w)
        ≡ ((push time (some f) id ms w).0, map_owner h (push time (some f) id ms w).1)
  unfolding push
  push-natural id ms w =
      let d : discarded time (some g) (map_owner h w)
          ≡ map_discarded h (discarded time (some f) w) =
        discard-natural w.ring.max_size (length w.ring.buffer) w.ring.buffer w.readings w.owner in
      elim (Bool-cases (leb w.ring.max_size (length w.ring.buffer))) [
        | inr room ↦ rw (room, push) (insert-natural id ms 0 w)
        | inl full ↦ elim (Bool-cases (not w.ring.allow_overflow)) [
          | inl x ↦ rw (full, x, push) refl
          | inr o ↦
              rw (full, o, push, d)
                (elim (Bool-cases (leb w.ring.max_size (length (discarded time (some f) w).kept))) [
                  | inl stuck ↦ rw stuck refl
                  | inr free ↦ rw free (insert-natural id ms _ (after_discard time (some f) w))
                ])
        ]
      ]

  delete_from-natural :
      (sorted : Bool) (id : ℤ) (es : List BufferEntry) (s : S)
      → delete_from time (some g) sorted id es (h s) ≡ (
        (delete_from time (some f) sorted id es s).0,
        h (delete_from time (some f) sorted id es s).1,
      )
  unfolding delete_from notify
  delete_from-natural sorted id [] s = refl
  delete_from-natural sorted id (e ∷ es) s = elim (Bool-cases (e.id ==ℤ id)) [
    | inl hit ↦ rw (hit, delete_from, hom) refl
    | inr miss ↦ elim (Bool-cases (sorted && ltb_ℤ id e.id)) [
      | inl past ↦ rw (miss, past, delete_from) refl
      | inr before ↦ rw (miss, before, delete_from, delete_from-natural sorted id es s) refl
    ]
  ]

  pub delete-natural :
      (id : ℤ) (w : World S)
      → delete time (some g) id (map_owner h w) ≡ map_owner h (delete time (some f) id w)
  unfolding delete
  delete-natural id w =
      rw (delete, delete_from-natural (is_mode_0 w.ring) id w.ring.buffer w.owner) refl

  pub reset-natural :
      (reason : ResetReason) (w : World S)
      → reset time (some g) reason (map_owner h w)
        ≡ ((reset time (some f) reason w).0, map_owner h (reset time (some f) reason w).1)
  unfolding reset notify_clear
  reset-natural reason w = elim (Bool-cases (is_empty w.ring.buffer)) [
    | inl e ↦ rw (e, reset) refl
    | inr e ↦ rw (e, reset, hom) refl
  ]

-- The arguments of a call of the callback.
abbrev pub DeleteCall : Type 0
DeleteCall = Option BufferEntry × Bool × ℕ

abbrev pub record_call : OnDeleteCallback (List DeleteCall)
record_call o clear t log = log ++ (o, clear, t) ∷ []

-- The calls, in their order.
unfoldable pub replay : {S : Type 0} → OnDeleteCallback S → List DeleteCall → S → S
replay f [] s = s
replay f ((o, clear, t) ∷ calls) s = replay f calls (f o clear t s)

pub replay-append :
    {S : Type 0} (f : OnDeleteCallback S) (l m : List DeleteCall) (s : S)
    → replay f (l ++ m) s ≡ replay f m (replay f l s)
unfolding replay
replay-append f [] m s = refl
replay-append f ((o, clear, t) ∷ l) m s = replay-append f l m (f o clear t s)

module _ {S : Type 0} (time : ℕ → ℕ) (f : OnDeleteCallback S) where
  replay-record_call :
      (s : S) (o : Option BufferEntry) (clear : Bool) (t : ℕ) (log : List DeleteCall)
      → f o clear t (replay f log s) ≡ replay f (record_call o clear t log) s
  unfolding replay
  replay-record_call s o clear t log = sym (replay-append f log ((o, clear, t) ∷ []) s)

  -- What `Push` returns or throws, the buffer it leaves and the calls that it makes of the callback
  -- do not depend on what the callback does: they are those of a callback that writes its arguments
  -- down, and its owner's state is what the calls, one after the other, make of it.
  pub push-replay :
      (id : ℤ) (ms : List Measurement) (w : World S)
      → let r = push time (some record_call) id ms (with_owner [] w) in
        push time (some f) id ms w ≡ (r.0, with_owner (replay f r.1.owner w.owner) r.1)
  unfolding replay
  push-replay id ms w =
      push-natural time record_call f (λ log. replay f log w.owner) (replay-record_call w.owner) id
        ms (with_owner [] w)

  -- The same of `Delete`.
  pub delete-replay :
      (id : ℤ) (w : World S)
      → let r = delete time (some record_call) id (with_owner [] w) in
        delete time (some f) id w ≡ with_owner (replay f r.owner w.owner) r
  unfolding replay
  delete-replay id w =
      delete-natural time record_call f (λ log. replay f log w.owner) (replay-record_call w.owner)
        id (with_owner [] w)

  -- The same of `Reset`.
  pub reset-replay :
      (reason : ResetReason) (w : World S)
      → let r = reset time (some record_call) reason (with_owner [] w) in
        reset time (some f) reason w ≡ (r.0, with_owner (replay f r.1.owner w.owner) r.1)
  unfolding replay
  reset-replay reason w =
      reset-natural time record_call f (λ log. replay f log w.owner) (replay-record_call w.owner)
        reason (with_owner [] w)
