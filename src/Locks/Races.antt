-- ===== src/Locks/Races.antt =====
-- What threads that call the methods of src/parsing/json_parser.hpp, src/ring_buffer.cpp and
-- src/data_source_internal.cpp read and write at the same time.
use qds_data_interface.Prelude.{
  false, ◌||◌, arith, true, List, ◌∷◌, ◌++◌, ◌≡◌, ◌≢◌, ◌⊎◌, inl, inr, refl, subst,
}
use qds_data_interface.Locks.{
  Mutex, Mode, shared, Member, parser, reset_information_list, entries, locked_flags,
  deletion_information_list, ref_mapping, reference_data, ref_counter, Action, access, Thread,
  thread, Reach, SharedMutex,
}
use qds_data_interface.Locks.Calls.{Call}
use qds_data_interface.Locks.Order.{guard, needs, holds, unguarded}
use qds_data_interface.Locks.Progress.{AllOrdered, starting, starting-AllOrdered, Reach-AllOrdered}
use qds_data_interface.Locks.Apart.{
  Apart, two-shared, two-All, two-Compatible, starting-Apart, Reach-Apart,
}

read_only :
    (f : Member) (mode : Mode) → needs f mode ≡ shared → (f ≡ locked_flags) ⊎ (mode ≡ shared)
unfolding needs
read_only parser mode e = inr e
read_only reset_information_list mode e = inr e
read_only entries mode e = inr e
read_only locked_flags mode e = inl refl
read_only deletion_information_list mode e = inr e
read_only ref_mapping mode e = inr e
read_only reference_data mode e = inr e
read_only ref_counter mode e = inr e

-- Two threads, wherever they stand, the first before or behind the other.
abbrev Both : List Thread → Thread → Thread → Type 0
Both ts t u =
    (before : List Thread) × (between : List Thread) × (after : List Thread) × ((ts
        ≡ before ++ t ∷ (between ++ u ∷ after))
      ⊎ (ts ≡ before ++ u ∷ (between ++ t ∷ after)))

-- What an access that needs its mutex holds.
needed :
    (f : Member) (mode : Mode) (held : List (Mutex × Mode))
    → unguarded f mode ≡ false
    → unguarded f mode || holds (guard f) (needs f mode) held ≡ true
    → holds (guard f) (needs f mode) held ≡ true
needed f mode held n h = ground arith

-- While a thread holds the mutex of a member, another thread that is about to access the member, but
-- not to read an element of the references, finds it held by a shared lock and only reads it, or the
-- member is the flags `locked_`.
held-RaceFree :
    (mutexes : SharedMutex) (css : List (List Call)) {ts : List Thread} (f : Member) (a b : Mode)
    (t : Thread) (held : List (Mutex × Mode)) (rest : List Action)
    → unguarded f b ≡ false
    → Reach mutexes (starting css) ts
    → Both ts t (thread held (access f b ∷ rest))
    → holds (guard f) a t.held ≡ true
    → (a ≡ shared) × ((f ≡ locked_flags) ⊎ (b ≡ shared))
held-RaceFree mutexes css {ts} f a b t held rest n r (before, between, after, place) h =
    elim place [
      | inl e ↦
          let (x, y) = two-All _ before between after t u (subst AllOrdered e ordered) in
          let (p, q) =
            two-shared (guard f) a (needs f b) t.held held
              (two-Compatible before between after t u (subst Apart e apart)) h
              (needed f b held n y.0) in
          (p, read_only f b q)
      | inr e ↦
          let (y, x) = two-All _ before between after u t (subst AllOrdered e ordered) in
          let (q, p) =
            two-shared (guard f) (needs f b) a held t.held
              (two-Compatible before between after u t (subst Apart e apart))
              (needed f b held n y.0) h in
          (p, read_only f b q)
    ]
  where
    u : Thread
    u = thread held (access f b ∷ rest)

    ordered : AllOrdered ts
    ordered = Reach-AllOrdered mutexes r (starting-AllOrdered css)

    apart : Apart ts
    apart = Reach-Apart mutexes r (starting-Apart css)

other_read :
    (f : Member) (mode : Mode)
    → f ≢ locked_flags
    → (f ≡ locked_flags) ⊎ (mode ≡ shared)
    → mode ≡ shared
other_read f mode n (inl e) = absurd (n e)
other_read f mode n (inr e) = e

-- Whatever threads that call the methods have done, and however they were scheduled: where two of them
-- are about to access the same member, both only read it, unless it is the flags `locked_` of the
-- entries, or one of them is about to read an element of the references, which `GetReference` hands
-- out. In particular two threads are never about to write such an element.
pub calls-RaceFree :
    (mutexes : SharedMutex) (css : List (List Call)) (f : Member) (a b : Mode)
    (held held' : List (Mutex × Mode)) (rest rest' : List Action)
    (before between after : List Thread)
    → f ≢ locked_flags
    → unguarded f a ≡ false
    → unguarded f b ≡ false
    → Reach mutexes (starting css) (
        before
        ++ thread held (access f a ∷ rest) ∷ (between ++ thread held' (access f b ∷ rest') ∷ after))
    → (a ≡ shared) × (b ≡ shared)
calls-RaceFree mutexes css f a b held held' rest rest' before between after n g g' r =
    let t = thread held (access f a ∷ rest) in
    let (o, _) =
      two-All _ before between after t (thread held' (access f b ∷ rest'))
        (Reach-AllOrdered mutexes r (starting-AllOrdered css)) in
    let (p, q) =
      held-RaceFree mutexes css f (needs f a) b t held' rest' g' r
        (before, between, after, inl refl) (needed f a held g o.0) in
    (other_read f a n (read_only f a p), other_read f b n q)
