-- ===== src/Ring.antt =====
-- src/ring_buffer.hpp and src/ring_buffer.cpp. The delete callback changes a state of its owner's,
-- here a type `S`; `time n` is the reading of the system clock at its n-th use, in milliseconds.
-- Every method holds the buffer's mutex from its first line to its last, so a method is one step.
pub mod Options
pub mod Discard
pub mod Valid
pub mod Push
pub mod Locked
pub mod Account
pub mod Run
pub mod Order
pub mod Progress
pub mod Replay
pub mod Calls
mod Tests
pub mod Stored
pub mod Window
use qds_data_interface.Prelude.{
  ℕ, zero, suc, ◌+◌, ◌-◌, ◌%◌, ◌^◌, Bool, true, false, ◌&&◌, not, Option, none, some, List, [], ◌∷◌,
  ◌++◌, length, front, back, is_empty, leb, if◌then◌else◌,
}
use qds_data_interface.Prelude.Int.{ℤ, pos, negsuc, ltb_ℤ, leb_ℤ, ◌==ℤ◌}
use qds_data_interface.Prelude.Str.{str}
use qds_data_interface.Exception.{
  Exception, Exec, ring_buffer, overflow_exception, return, throw, ◌>>=◌,
}
use qds_data_interface.Measurement.{Measurement}
use qds_data_interface.Types.{BufferEntry, ResetReason, ResetInformation, unknown}

-- `const BufferEntry*` (null if absent), `clear`, `timestamp_ms`; the owner's state before and after.
abbrev pub OnDeleteCallback : Type 0 → Type 0
OnDeleteCallback S = Option BufferEntry → Bool → ℕ → S → S

pub record RingBuffer : Type 0 where
  pub max_size : ℕ
  pub counter_mode : ℤ
  pub allow_overflow : Bool
  pub buffer : List BufferEntry

-- The buffer, the number of clock readings so far, and the owner's state.
pub record World (S : Type 0) : Type 0 where
  pub ring : RingBuffer
  pub readings : ℕ
  pub owner : S

-- `counter_mode == 0`
abbrev pub is_mode_0 : RingBuffer → Bool
is_mode_0 r = r.counter_mode ==ℤ pos 0

abbrev pub minus_one : ℤ
minus_one = negsuc 0

-- The constructor: an empty buffer. The callback is a parameter of the methods.
unfoldable pub new : ℕ → ℤ → Bool → RingBuffer
new size counter_mode allow_overflow = record {
  max_size = size;
  counter_mode = counter_mode;
  allow_overflow = allow_overflow;
  buffer = [];
}

unfoldable pub bad_id : Exception
bad_id = record { class = ring_buffer; msg = str "Bad Id"; scope = str "RingBuffer::Push" }

-- What the discarding loop of `Push` leaves.
pub record Discarded (S : Type 0) : Type 0 where
  pub kept : List BufferEntry
  pub deletions : ℕ
  pub readings : ℕ
  pub owner : S

abbrev keep_entry : {S : Type 0} → BufferEntry → Discarded S → Discarded S
keep_entry e d = record d { kept = e ∷ d.kept }

abbrev count_deletion : {S : Type 0} → Discarded S → Discarded S
count_deletion d = record d { deletions = suc d.deletions }

-- Counter mode 0: is the last id of the buffer at least the new one?
unfoldable pub last_id_ge : ℤ → List BufferEntry → Bool
last_id_ge id es = elim (back es) [ none ↦ false | some e ↦ leb_ℤ id e.id ]

abbrev pub no_reset : ResetInformation
no_reset = record {
  reset_time_ms = 0;
  reset_reason = unknown;
  oldest_dataset_time_ms = 0;
  newest_dataset_time_ms = 0;
  deleted_datasets_count = 0;
}

abbrev pub timestamp_or_0 : Option BufferEntry → ℕ
timestamp_or_0 none = 0
timestamp_or_0 (some e) = e.timestamp_ms

-- `buffer_.push_back(BufferEntry{id, measurement, GetCurrentTimeMs(), false})`
unfoldable pub push_back : {S : Type 0} → (ℕ → ℕ) → ℤ → List Measurement → World S → World S
push_back time id measurement w = record w {
  ring = record w.ring {
    buffer =
        w.ring.buffer
        ++ record {
          id = id;
          measurements = measurement;
          timestamp_ms = time w.readings;
          locked = false;
        }
          ∷ [];
  };
  readings = suc w.readings;
}

abbrev pub prepend :
    {S : Type 0} → BufferEntry → Option (List BufferEntry × S) → Option (List BufferEntry × S)
prepend e none = none
prepend e (some (es, s)) = some (e ∷ es, s)

module _ {S : Type 0} (time : ℕ → ℕ) (callback : Option (OnDeleteCallback S)) where
  -- `if (on_delete_callback_) on_delete_callback_(&entry, false, 0)`
  unfoldable pub notify : BufferEntry → S → S
  notify e s = elim callback [ none ↦ s | some f ↦ f (some e) false 0 s ]

  -- The callback of the discarding loop reads the clock; without a callback nothing does.
  unfoldable pub notify_now : BufferEntry → ℕ → S → S
  notify_now e n s = elim callback [ none ↦ s | some f ↦ f (some e) false (time n) s ]

  unfoldable pub read_for_callback : ℕ → ℕ
  read_for_callback n = elim callback [ none ↦ n | some f ↦ suc n ]

  -- `while (it < buffer_.end() && buffer_.size() >= kMaxSize_)`: `size` is the size of the whole
  -- buffer, and the list what lies from `it` to the end.
  unfoldable pub discard : (max_size size : ℕ) → List BufferEntry → ℕ → S → Discarded S
  discard max_size size [] n s = record { kept = []; deletions = 0; readings = n; owner = s }
  discard max_size size (e ∷ es) n s = elim (leb max_size size) [
    | true ↦ elim e.locked [
      | true ↦ keep_entry e (discard max_size size es n s)
      | false ↦
          count_deletion (discard max_size (size - 1) es (read_for_callback n) (notify_now e n s))
    ]
    | false ↦ record { kept = e ∷ es; deletions = 0; readings = n; owner = s }
  ]

  -- The search of counter mode 1 for an entry of the same id: `none` if it is locked.
  unfoldable pub replace : ℤ → List BufferEntry → S → Option (List BufferEntry × S)
  replace id [] s = some ([], s)
  replace id (e ∷ es) s = elim (e.id ==ℤ id) [
    | true ↦ elim e.locked [ true ↦ none | false ↦ some (es, notify e s) ]
    | false ↦ prepend e (replace id es s)
  ]

  -- The second half of `Push`, from the test on the counter mode.
  unfoldable pub insert : ℤ → List Measurement → ℕ → Exec (World S) ℤ
  insert id measurement deletions w =
      if is_mode_0 w.ring
      then (if last_id_ge id w.ring.buffer
          then throw bad_id w
          else return (pos deletions) (push_back time id measurement w))
      else elim (replace id w.ring.buffer w.owner) [
        | none ↦ return minus_one w
        | some (es, s) ↦ return (pos deletions) (
            push_back time id measurement
              (record w { ring = record w.ring { buffer = es }; owner = s }))
      ]

  -- The state after the discarding loop.
  abbrev pub discarded : World S → Discarded S
  discarded w = discard w.ring.max_size (length w.ring.buffer) w.ring.buffer w.readings w.owner

  abbrev pub after_discard : World S → World S
  after_discard w = record {
    ring = record w.ring { buffer = (discarded w).kept };
    readings = (discarded w).readings;
    owner = (discarded w).owner;
  }

  unfoldable pub push : ℤ → List Measurement → Exec (World S) ℤ
  push id measurement w =
      if leb w.ring.max_size (length w.ring.buffer)
      then (if not w.ring.allow_overflow
          then throw overflow_exception w
          else if leb w.ring.max_size (length (discarded w).kept)
          then return minus_one (after_discard w)
          else insert id measurement (discarded w).deletions (after_discard w))
      else insert id measurement 0 w

  -- The loop of `Delete`; `sorted` is `kCounterMode_ == 0`.
  unfoldable pub delete_from : Bool → ℤ → List BufferEntry → S → List BufferEntry × S
  delete_from sorted id [] s = ([], s)
  delete_from sorted id (e ∷ es) s =
      if e.id ==ℤ id
      then (es, notify e s)
      else if sorted && ltb_ℤ id e.id
      then (e ∷ es, s)
      else let (r, s') = delete_from sorted id es s in (e ∷ r, s')

  unfoldable pub delete : ℤ → World S → World S
  delete id w =
      let (es, s) = delete_from (is_mode_0 w.ring) id w.ring.buffer w.owner in
      record w { ring = record w.ring { buffer = es }; owner = s }

  -- `on_delete_callback_(0, true, 0)`
  unfoldable pub notify_clear : S → S
  notify_clear s = elim callback [ none ↦ s | some f ↦ f none true 0 s ]

  unfoldable pub reset : ResetReason → World S → ResetInformation × World S
  reset reason w = if is_empty w.ring.buffer then (no_reset, w) else (
    record {
      reset_time_ms = time w.readings;
      reset_reason = reason;
      oldest_dataset_time_ms = timestamp_or_0 (front w.ring.buffer);
      newest_dataset_time_ms = timestamp_or_0 (back w.ring.buffer);
      deleted_datasets_count = length w.ring.buffer % 2 ^ 32;
    },
    record {
      ring = record w.ring { buffer = [] };
      readings = suc w.readings;
      owner = notify_clear w.owner;
    },
  )

unfoldable pub get_size : RingBuffer → ℕ
get_size r = length r.buffer

unfoldable pub get_max_size : RingBuffer → ℕ
get_max_size r = r.max_size

unfoldable pub get_last_id : RingBuffer → ℤ
get_last_id r = elim (back r.buffer) [ none ↦ minus_one | some e ↦ e.id ]

unfoldable pub get_counter_mode : RingBuffer → ℤ
get_counter_mode r = r.counter_mode

unfoldable pub get_allow_overflow : RingBuffer → Bool
get_allow_overflow r = r.allow_overflow

-- `begin()` and `end()` hand out the entries themselves: a consumer that iterates sets `locked_` of
-- the i-th one.
unfoldable pub lock_entry : ℕ → List BufferEntry → List BufferEntry
lock_entry i [] = []
lock_entry zero (e ∷ es) = record e { locked = true } ∷ es
lock_entry (suc i) (e ∷ es) = e ∷ lock_entry i es

unfoldable pub lock : {S : Type 0} → ℕ → World S → World S
unfolding lock_entry
lock i w = record w { ring = record w.ring { buffer = lock_entry i w.ring.buffer } }
