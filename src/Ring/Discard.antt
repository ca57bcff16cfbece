-- ===== src/Ring/Discard.antt =====
-- The loop of `RingBuffer::Push` that discards old unlocked data, src/ring_buffer.cpp.
use mathlib.Core.List.{Mem-prop, Mem, mem-cons, mem-cons_of_mem, mem-cons_self, Perm, perm_middle}
use mathlib.Core.List.Sublistᴰ
use mathlib.Core.List.Perm
use mathlib.Core.Logic.Or
use qds_data_interface.Prelude.{
  Sublistᴰ, ℕ, zero, suc, ◌+◌, ◌-◌, ◌≤◌, ◌<◌, true, false, Option, List, [], ◌∷◌, ◌++◌, ◌≡◌, refl,
  sym, ◌∙◌, length, All, Bool-cases, inl, inr, arith,
}
use qds_data_interface.Types.{BufferEntry}
use qds_data_interface.Ring.{OnDeleteCallback, Discarded, discard, notify_now, read_for_callback}

-- The entries that are left when the first `k` unlocked ones are taken out.
unfoldable pub without_unlocked : ℕ → List BufferEntry → List BufferEntry
without_unlocked zero es = es
without_unlocked (suc k) [] = []
without_unlocked (suc k) (e ∷ es) = elim e.locked [
  | true ↦ e ∷ without_unlocked (suc k) es
  | false ↦ without_unlocked k es
]

-- The first `k` unlocked entries.
unfoldable pub first_unlocked : ℕ → List BufferEntry → List BufferEntry
first_unlocked zero es = []
first_unlocked (suc k) [] = []
first_unlocked (suc k) (e ∷ es) = elim e.locked [
  | true ↦ first_unlocked (suc k) es
  | false ↦ e ∷ first_unlocked k es
]

module _ {S : Type 0} (time : ℕ → ℕ) (callback : Option (OnDeleteCallback S)) where
  -- The callback's calls for a list of discarded entries, oldest first, and the clock readings that
  -- they make.
  unfoldable pub notify_each : List BufferEntry → ℕ → S → S
  notify_each [] n s = s
  notify_each (e ∷ es) n s =
      notify_each es (read_for_callback time callback n) (notify_now time callback e n s)

  unfoldable pub readings_each : List BufferEntry → ℕ → ℕ
  readings_each [] n = n
  readings_each (e ∷ es) n = readings_each es (read_for_callback time callback n)

  -- The loop by its meaning: it takes out the first `k` unlocked entries.
  unfoldable pub discard_first : ℕ → List BufferEntry → ℕ → S → Discarded S
  discard_first k es n s = record {
    kept = without_unlocked k es;
    deletions = length (first_unlocked k es);
    readings = readings_each (first_unlocked k es) n;
    owner = notify_each (first_unlocked k es) n s;
  }

  discard_by_count :
      (max_size size k : ℕ) (es : List BufferEntry) (n : ℕ) (s : S)
      → length es ≤ size
      → k ≡ suc size - max_size
      → discard time callback max_size size es n s ≡ discard_first k es n s
  unfolding discard discard_first without_unlocked first_unlocked notify_each readings_each
  discard_by_count m size zero [] n s h e = refl
  discard_by_count m size (suc k) [] n s h e = refl
  discard_by_count m size zero (x ∷ es) n s h e = ground arith
  discard_by_count m size (suc k) (x ∷ es) n s h e = ground (
    arith,
    discard_by_count m size (suc k) es n s,
    discard_by_count m (size - 1) k es (read_for_callback time callback n)
        (notify_now time callback x n s),
  )

  pub discard-eq-discard_first :
      (max_size size : ℕ) (es : List BufferEntry) (n : ℕ) (s : S)
      → length es ≤ size
      → discard time callback max_size size es n s ≡ discard_first (suc size - max_size) es n s
  discard-eq-discard_first m size es n s h = discard_by_count m size _ es n s h refl

pub without_unlocked-Sublist : (k : ℕ) (es : List BufferEntry) → Sublistᴰ (without_unlocked k es) es
unfolding without_unlocked
without_unlocked-Sublist zero es = Sublistᴰ.refl es
without_unlocked-Sublist (suc k) [] = Sublistᴰ.slnil
without_unlocked-Sublist (suc k) (e ∷ es) = elim (Bool-cases e.locked) [
  | inl l ↦ simp l (Sublistᴰ.cons-cons refl (without_unlocked-Sublist (suc k) es))
  | inr u ↦ simp u (Sublistᴰ.cons (without_unlocked-Sublist k es))
]

-- What is left and what is taken out make up what there was.
pub unlocked-Perm :
    (k : ℕ) (es : List BufferEntry) → Perm (first_unlocked k es ++ without_unlocked k es) es
unfolding without_unlocked first_unlocked
unlocked-Perm zero es = Perm.refl es
unlocked-Perm (suc k) [] = Perm.nil
unlocked-Perm (suc k) (e ∷ es) = elim (Bool-cases e.locked) [
  | inl l ↦ simp l (
      Perm.trans (perm_middle (first_unlocked (suc k) es) (without_unlocked (suc k) es))
        (Perm.cons e (unlocked-Perm (suc k) es)))
  | inr u ↦ simp u (Perm.cons e (unlocked-Perm k es))
]

-- Locked entries stay.
pub locked-mem-without_unlocked :
    (k : ℕ) (es : List BufferEntry) (a : BufferEntry)
    → a.locked ≡ true
    → Mem a es
    → Mem a (without_unlocked k es)
unfolding without_unlocked
locked-mem-without_unlocked zero es a l m = m
locked-mem-without_unlocked (suc k) [] a l m = m
locked-mem-without_unlocked (suc k) (e ∷ es) a l m = elim (Bool-cases e.locked) [
  | inl h ↦
      rw (h, without_unlocked)
        (Or.elim (Mem-prop) (mem-cons.0 m) (λ p. rw p mem-cons_self)
          (λ i. mem-cons_of_mem e (locked-mem-without_unlocked (suc k) es a l i)))
  | inr h ↦
      rw (h, without_unlocked)
        (Or.elim (Mem-prop) (mem-cons.0 m) (λ p. ground (arith, p))
          (λ i. locked-mem-without_unlocked k es a l i))
]

pub length-unlocked :
    (k : ℕ) (es : List BufferEntry)
    → length (without_unlocked k es) + length (first_unlocked k es) ≡ length es
unfolding without_unlocked first_unlocked
length-unlocked zero es = omega arith
length-unlocked (suc k) [] = omega arith
length-unlocked (suc k) (e ∷ es) = ground (arith, length-unlocked (suc k) es, length-unlocked k es)

pub length-first_unlocked-le : (k : ℕ) (es : List BufferEntry) → length (first_unlocked k es) ≤ k
unfolding first_unlocked
length-first_unlocked-le zero es = omega arith
length-first_unlocked-le (suc k) [] = omega arith
length-first_unlocked-le (suc k) (e ∷ es) =
    ground (arith, length-first_unlocked-le (suc k) es, length-first_unlocked-le k es)

-- Fewer than asked for are found only if everything else is locked.
pub first_unlocked-short :
    (k : ℕ) (es : List BufferEntry)
    → length (first_unlocked k es) < k
    → All (λ e. e.locked ≡ true) (without_unlocked k es)
unfolding without_unlocked first_unlocked
first_unlocked-short zero es h = absurd (omega arith)
first_unlocked-short (suc k) [] h = tt
first_unlocked-short (suc k) (e ∷ es) h =
    ground (arith, first_unlocked-short (suc k) es, first_unlocked-short k es)

pub All-first_unlocked :
    (k : ℕ) (es : List BufferEntry) → All (λ e. e.locked ≡ false) (first_unlocked k es)
unfolding first_unlocked
All-first_unlocked zero es = tt
All-first_unlocked (suc k) [] = tt
All-first_unlocked (suc k) (e ∷ es) =
    ground (arith, All-first_unlocked (suc k) es, All-first_unlocked k es)

without_unlocked_locked :
    (k : ℕ) (e : BufferEntry) (es : List BufferEntry)
    → e.locked ≡ true
    → without_unlocked k (e ∷ es) ≡ e ∷ without_unlocked k es
unfolding without_unlocked
without_unlocked_locked zero e es h = refl
without_unlocked_locked (suc k) e es h = ground arith

-- Asking for the entries that are found gives the same.
pub without_unlocked_found :
    (k : ℕ) (es : List BufferEntry)
    → without_unlocked (length (first_unlocked k es)) es ≡ without_unlocked k es
unfolding without_unlocked first_unlocked
without_unlocked_found zero es = refl
without_unlocked_found (suc k) [] = refl
without_unlocked_found (suc k) (e ∷ es) = ground (
  arith,
  without_unlocked_found (suc k) es,
  without_unlocked_found k es,
  without_unlocked_locked (length (first_unlocked (suc k) es)) e es,
)

-- Where all entries are locked none is taken out.
pub without_unlocked_none :
    (k : ℕ) (es : List BufferEntry) → length (first_unlocked k es) ≡ 0 → without_unlocked k es ≡ es
without_unlocked_none k es h =
    sym (without_unlocked_found k es) ∙ rw h (unfold without_unlocked in refl)
