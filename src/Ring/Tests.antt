-- ===== src/Ring/Tests.antt =====
-- Runs of the ring buffer of src/ring_buffer.cpp, and the theorems about it at such inputs.
use mathlib.Core.List.{mem-cons_self, mem-cons_of_mem, Mem}
use qds_data_interface.Prelude.{
  ℕ, ◌+◌, ◌≤◌, true, false, inr, All, Option, some, map, List, [], ◌∷◌, ◌≡◌, refl, arith,
}
use qds_data_interface.Prelude.Int.{pos, ◌==ℤ◌, leb_ℤ}
use qds_data_interface.Exception.{ok}
use qds_data_interface.Types.{BufferEntry}
use qds_data_interface.Ring.{
  OnDeleteCallback, discard, push, delete_from, lock, is_mode_0, last_id_ge, insert, push_back,
  notify_now, read_for_callback,
}
use qds_data_interface.Ring.Valid.{IsValid}
use qds_data_interface.Ring.Stored.{Pushed, push-Pushed}
use qds_data_interface.Ring.Locked.{locked-mem-push}
use qds_data_interface.Ring.Account.{Log, write_down, Accounted, push-Accounted}
use qds_data_interface.Ring.Progress.{IsStored, push-IsStored}
use qds_data_interface.Ring.Window.{DataSet, Accepts, content, recent}
use qds_data_interface.Ring.Window.Pushes.{pushes, pushes-recent}
use qds_data_interface.Ring.Order.{IsChronological, Reach-IsChronological}
use qds_data_interface.Ring.Run.{Reach, here, next, pushed, locked, Reach-IsValid, delete-eq-plain}

abbrev clock : ℕ → ℕ
clock n = 100 + n

abbrev old_entry : BufferEntry
old_entry = record { id = pos 1; measurements = []; timestamp_ms = 7; locked = false }

abbrev locked_entry : BufferEntry
locked_entry = record { id = pos 2; measurements = []; timestamp_ms = 8; locked = true }

-- A full buffer of two entries in counter mode 0, the second locked.
abbrev full : Log
full = record {
  ring = record {
    max_size = 2;
    counter_mode = pos 0;
    allow_overflow = true;
    buffer = old_entry ∷ locked_entry ∷ [];
  };
  readings = 0;
  owner = [];
}

abbrev notes : Option (OnDeleteCallback (List BufferEntry))
notes = some write_down

full-IsValid : IsValid full.ring
unfolding ◌==ℤ◌
full-IsValid = record {
  bounded = omega arith;
  distinct = ((refl, tt), (tt, tt));
  ascending = λ m. omega arith;
}

push_discards : (push clock notes (pos 5) [] full).0 ≡ ok (pos 1)
unfolding push insert discard last_id_ge leb_ℤ ◌==ℤ◌ read_for_callback notify_now push_back
push_discards = refl

-- An id that is not greater is refused, and the oldest entry is gone all the same.
bad_push_discards : (push clock notes (pos 2) [] full).1.ring.buffer ≡ locked_entry ∷ []
unfolding push insert discard last_id_ge leb_ℤ ◌==ℤ◌ read_for_callback notify_now push_back
bad_push_discards = refl

push-Pushed_example : Pushed clock notes (pos 5) [] full (push clock notes (pos 5) [] full)
push-Pushed_example = push-Pushed clock notes (pos 5) [] full full-IsValid

locked-mem-push_example : Mem locked_entry (push clock notes (pos 5) [] full).1.ring.buffer
locked-mem-push_example =
    locked-mem-push clock notes locked_entry refl (pos 5) [] full
      (mem-cons_of_mem old_entry mem-cons_self)

push-Accounted_example : Accounted clock (pos 5) [] full (push clock notes (pos 5) [] full)
push-Accounted_example = push-Accounted clock (pos 5) [] full

delete-eq-plain_example :
    delete_from clock notes (is_mode_0 full.ring) (pos 1) full.ring.buffer []
    ≡ delete_from clock notes false (pos 1) full.ring.buffer []
delete-eq-plain_example = delete-eq-plain clock notes (pos 1) full full-IsValid

abbrev history : Reach clock notes full (lock 0 (push clock notes (pos 5) [] full).1)
history = next (next here (pushed (pos 5) [])) (locked 0)

Reach-IsValid_example : IsValid (lock 0 (push clock notes (pos 5) [] full).1).ring
Reach-IsValid_example = Reach-IsValid clock notes history full-IsValid

clock-monotone : (m n : ℕ) → m ≤ n → clock m ≤ clock n
clock-monotone m n h = omega arith

full-IsChronological : IsChronological clock notes clock-monotone full
full-IsChronological = record {
  past = (omega arith, (omega arith, tt));
  ordered = ((omega arith, tt), (tt, tt));
}

Reach-IsChronological_example :
    IsChronological clock notes clock-monotone (lock 0 (push clock notes (pos 5) [] full).1)
Reach-IsChronological_example =
    Reach-IsChronological clock notes clock-monotone history full-IsValid full-IsChronological

-- The oldest entry can make room.
full-unlocked : ¬ All (λ e. e.locked ≡ true) full.ring.buffer
full-unlocked h = cc (h.0)

five_greater : is_mode_0 full.ring ≡ true → last_id_ge (pos 5) full.ring.buffer ≡ false
unfolding last_id_ge leb_ℤ
five_greater m = refl

full_mode_0 : ¬ (is_mode_0 full.ring ≡ false)
unfolding ◌==ℤ◌
full_mode_0 m = cc m

push-IsStored_example : IsStored clock notes (pos 5) [] full (push clock notes (pos 5) [] full)
push-IsStored_example =
    push-IsStored clock notes (pos 5) [] full full-IsValid (inr (refl, full-unlocked)) five_greater
      (λ m. absurd (full_mode_0 m))

-- An empty buffer of two entries in counter mode 0, and three data sets for it.
abbrev empty : Log
empty = record {
  ring = record { max_size = 2; counter_mode = pos 0; allow_overflow = true; buffer = [] };
  readings = 0;
  owner = [];
}

abbrev three : List DataSet
three = (pos 4, []) ∷ (pos 5, []) ∷ (pos 9, []) ∷ []

three-Accepts : Accepts three empty.ring
unfolding ◌==ℤ◌
three-Accepts = record {
  allowed = refl;
  positive = omega arith;
  bounded = omega arith;
  unlocked = tt;
  follows = (
    ((refl, λ m. omega arith), ((refl, λ m. omega arith), tt)),
    (((refl, λ m. omega arith), tt), (tt, tt)),
  );
}

pushes-recent_example : map content (pushes clock notes three empty).ring.buffer ≡ recent 2 three
pushes-recent_example = pushes-recent clock notes three empty three-Accepts
