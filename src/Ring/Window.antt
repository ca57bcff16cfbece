-- ===== src/Ring/Window.antt =====
-- A ring buffer (src/ring_buffer.cpp) that may overflow, as a window on what was pushed.
pub mod Pushes
use mathlib.Core.List.{append-nil, append_assoc}
use qds_data_interface.Prelude.{
  ℕ, zero, suc, ◌+◌, ◌-◌, ◌≤◌, ◌<◌, Bool, true, false, Option, none, some, List, [], ◌∷◌, ◌++◌, map,
  ◌≡◌, inl, inr, refl, sym, ◌∙◌, ap, subst, arith, length, length-append, length-drop, drop,
  drop-append, drop-drop, leb, Bool-cases, All, AllPairs, All-imp, All-Sublist, All-append,
}
use qds_data_interface.Prelude.Int.{ℤ, pos, ◌==ℤ◌, ◌<ℤ◌}
use qds_data_interface.Exception.{Result, ok}
use qds_data_interface.Measurement.{Measurement}
use qds_data_interface.Types.{BufferEntry}
use qds_data_interface.Ring.{
  OnDeleteCallback, RingBuffer, World, is_mode_0, push_back, insert, push, last_id_ge, replace,
  discarded, after_discard,
}
use qds_data_interface.Ring.Discard.{discard_first, without_unlocked, first_unlocked}
use qds_data_interface.Ring.Valid.{Lacks, replace-none}
use qds_data_interface.Ring.Push.{insert_cases, push_cases, discarded_lem, kept-Sublist}
use qds_data_interface.Ring.Stored.{stored}
use qds_data_interface.Ring.Progress.{below-last_id_ge}

-- What a producer pushes, and a consumer reads.
abbrev pub DataSet : Type 0
DataSet = ℤ × List Measurement

abbrev pub content : BufferEntry → DataSet
content e = (e.id, e.measurements)

-- The last ones of a list.
unfoldable pub recent : ℕ → List DataSet → List DataSet
recent n ds = drop (length ds - n) ds

-- A data set may be pushed after another: it has another id, in counter mode 0 a greater one.
abbrev pub MayFollow : Bool → DataSet → DataSet → Type 0
MayFollow mode_0 a b = ((a.0 ==ℤ b.0) ≡ false) × (mode_0 ≡ true → a.0 <ℤ b.0)

abbrev pub Unlocked : List BufferEntry → Type 0
Unlocked = All (λ e. e.locked ≡ false)

-- The first unlocked ones of unlocked entries are the first ones.
without_unlocked-drop :
    (k : ℕ) (es : List BufferEntry) → Unlocked es → without_unlocked k es ≡ drop k es
unfolding without_unlocked
without_unlocked-drop zero es h = refl
without_unlocked-drop (suc k) [] h = refl
without_unlocked-drop (suc k) (e ∷ es) (u, h) = simp u (without_unlocked-drop k es h)

-- A buffer that takes these data sets in turn: it may overflow, no entry is locked, and each data set
-- may follow those before it.
pub record Accepts (ds : List DataSet) (r : RingBuffer) : Type 0 where
  pub allowed : r.allow_overflow ≡ true
  pub positive : 1 ≤ r.max_size
  pub bounded : length r.buffer ≤ r.max_size
  pub unlocked : Unlocked r.buffer
  pub follows : AllPairs (MayFollow (is_mode_0 r)) (map content r.buffer ++ ds)

All-drop : (P : BufferEntry → Type 0) (k : ℕ) (es : List BufferEntry) → All P es → All P (drop k es)
All-drop P zero es h = h
All-drop P (suc k) [] h = tt
All-drop P (suc k) (e ∷ es) h = All-drop P k es h.1

AllPairs-drop :
    (R : DataSet → DataSet → Type 0) (k : ℕ) (ds : List DataSet)
    → AllPairs R ds
    → AllPairs R (drop k ds)
AllPairs-drop R zero ds h = h
AllPairs-drop R (suc k) [] h = tt
AllPairs-drop R (suc k) (d ∷ ds) h = AllPairs-drop R k ds h.1

-- The next data set may follow each entry.
next_follows :
    (R : DataSet → DataSet → Type 0) (es : List BufferEntry) (d : DataSet) (ds : List DataSet)
    → AllPairs R (map content es ++ d ∷ ds)
    → All (λ e. R (content e) d) es
next_follows R [] d ds h = tt
next_follows R (e ∷ es) d ds h = (first es h.0, next_follows R es d ds h.1)
  where
    first :
        (es : List BufferEntry) → All (R (content e)) (map content es ++ d ∷ ds) → R (content e) d
    first [] a = a.0
    first (x ∷ es) a = first es a.1

shifted_contents :
    (k : ℕ) (es : List BufferEntry) (e : BufferEntry) (ds : List DataSet)
    → k ≤ length es
    → map content (drop k es ++ e ∷ []) ++ ds ≡ drop k (map content es ++ content e ∷ ds)
shifted_contents zero [] e ds l = refl
shifted_contents zero (x ∷ es) e ds l =
    ap (◌∷◌ (content x)) (shifted_contents zero es e ds (omega arith))
shifted_contents (suc k) [] e ds l = absurd (omega (arith, l))
shifted_contents (suc k) (x ∷ es) e ds l = shifted_contents k es e ds (omega (arith, l))

length-contents :
    (es : List BufferEntry) (ds : List DataSet)
    → length (map content es ++ ds) ≡ length es + length ds
length-contents [] ds = omega arith
length-contents (e ∷ es) ds = omega (arith, length-contents es ds)

recent_all : (m : ℕ) (ds : List DataSet) → length ds ≤ m → recent m ds ≡ ds
unfolding recent
recent_all m ds l = rw none_before refl
  where
    none_before : length ds - m ≡ 0
    none_before = omega (arith, l)

-- What the window has lost before it is not among the last ones later.
recent-drop : (m k : ℕ) (ds : List DataSet) → k ≤ length ds - m → recent m (drop k ds) ≡ recent m ds
unfolding recent
recent-drop m k ds l = drop-drop (length (drop k ds) - m) k ds ∙ ap (λ n. drop n ds) same
  where
    same : length (drop k ds) - m + k ≡ length ds - m
    same = omega (arith, length-drop k ds, l)

Accepts-shifted :
    (d : DataSet) (ds : List DataSet) (r : RingBuffer) (e : BufferEntry)
    → e.locked ≡ false
    → content e ≡ d
    → Accepts (d ∷ ds) r
    → Accepts ds
        (record r { buffer = drop (suc (length r.buffer) - r.max_size) r.buffer ++ e ∷ [] })
Accepts-shifted d ds r e u c a = record {
  allowed = a.allowed;
  positive = a.positive;
  bounded = omega (
    arith,
    length-append (drop excess r.buffer) (e ∷ []),
    length-drop excess r.buffer,
    a.positive,
    a.bounded,
  );
  unlocked =
      All-append _ (drop excess r.buffer) (e ∷ []) (All-drop _ excess r.buffer a.unlocked) (u, tt);
  follows =
      subst (AllPairs (MayFollow (is_mode_0 r))) (sym contents)
        (AllPairs-drop _ excess _ a.follows);
}
  where
    excess : ℕ
    excess = suc (length r.buffer) - r.max_size

    contents :
        map content (drop excess r.buffer ++ e ∷ []) ++ ds
        ≡ drop excess (map content r.buffer ++ d ∷ ds)
    contents =
        shifted_contents excess r.buffer e ds (omega (arith, a.positive))
        ∙ ap (λ x. drop excess (map content r.buffer ++ x ∷ ds)) c
