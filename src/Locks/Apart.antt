-- ===== src/Locks/Apart.antt =====
-- What threads hold at the same time of the mutexes of src/parsing/json_parser.hpp, src/ring_buffer.cpp
-- and src/data_source_internal.cpp.
use qds_data_interface.Prelude.{
  true, false, List, [], ◌∷◌, ◌++◌, ◌==◌, ◌&&◌, ◌≡◌, inl, inr, refl, subst, arith, All, All-imp,
  AllPairs, Bool-cases,
}
use qds_data_interface.Locks.{
  Mutex, Mode, unique, shared, Thread, thread, rank, conflicts, any_conflicts, blocked, Step,
  acquired, released, accessed, Reach, here, next, SharedMutex,
}
use qds_data_interface.Locks.Calls.{Call}
use qds_data_interface.Locks.Order.{suffices, holds}
use qds_data_interface.Locks.Progress.{All-middle, All-replace, starting}

-- No mutex of the ones stands in the way of one of the others.
abbrev pub Compatible : List (Mutex × Mode) → List (Mutex × Mode) → Type 0
Compatible hs ks = All (λ h. All (λ k. conflicts h.0 h.1 k ≡ false) ks) hs

-- What threads hold is compatible with what the others hold.
abbrev pub Apart : List Thread → Type 0
Apart = AllPairs (λ t u. Compatible t.held u.held)

conflicts-symmetric :
    (h k : Mutex × Mode) → conflicts h.0 h.1 k ≡ false → conflicts k.0 k.1 h ≡ false
unfolding conflicts
conflicts-symmetric (m, unique) (n, unique) e = ground arith
conflicts-symmetric (m, unique) (n, shared) e = ground arith
conflicts-symmetric (m, shared) (n, unique) e = ground arith
conflicts-symmetric (m, shared) (n, shared) e = refl

-- A mutex that no held one stands in the way of.
abbrev Free : Mutex → Mode → Thread → Type 0
Free m mode t = any_conflicts m mode t.held ≡ false

free-Compatible :
    (m : Mutex) (mode : Mode) (hs : List (Mutex × Mode))
    → any_conflicts m mode hs ≡ false
    → All (λ k. conflicts m mode k ≡ false) hs
unfolding any_conflicts
free-Compatible m mode [] e = tt
free-Compatible m mode (h ∷ hs) e = elim (Bool-cases (conflicts m mode h)) [
  | inl y ↦ cc (rw y at e)
  | inr n ↦ (n, free-Compatible m mode hs (rw n at e))
]

blocked-Free :
    (m : Mutex) (mode : Mode) (ts : List Thread) → blocked m mode ts ≡ false → All (Free m mode) ts
unfolding blocked
blocked-Free m mode [] e = tt
blocked-Free m mode (t ∷ ts) e = elim (Bool-cases (any_conflicts m mode t.held)) [
  | inl y ↦ cc (rw y at e)
  | inr n ↦ (n, blocked-Free m mode ts (rw n at e))
]

-- A further mutex, or one less, of two threads.
Compatible-cons :
    (m : Mutex) (mode : Mode) (hs ks : List (Mutex × Mode))
    → All (λ k. conflicts m mode k ≡ false) hs
    → Compatible hs ks
    → Compatible hs ((m, mode) ∷ ks)
Compatible-cons m mode [] ks f c = tt
Compatible-cons m mode (h ∷ hs) ks (e, f) (a, c) =
    ((conflicts-symmetric (m, mode) h e, a), Compatible-cons m mode hs ks f c)

Compatible-tail :
    (hs ks : List (Mutex × Mode)) (k : Mutex × Mode) → Compatible hs (k ∷ ks) → Compatible hs ks
Compatible-tail hs ks k c = All-imp _ _ (λ h a. a.1) hs c

All-both :
    (P Q R : Thread → Type 0) (ts : List Thread)
    → ((x : Thread) → P x → Q x → R x)
    → All P ts
    → All Q ts
    → All R ts
All-both P Q R [] f p q = tt
All-both P Q R (t ∷ ts) f p q = (f t (p.0) (q.0), All-both P Q R ts f (p.1) (q.1))

-- One thread is put in another's place, where each thread of the rest is compatible with it as well.
Apart-replace :
    (P : Thread → Type 0) (t u : Thread) (before after : List Thread)
    → ((x : Thread) → P x → Compatible x.held t.held → Compatible x.held u.held)
    → ((x : Thread) → P x → Compatible t.held x.held → Compatible u.held x.held)
    → All P (before ++ t ∷ after)
    → Apart (before ++ t ∷ after)
    → Apart (before ++ u ∷ after)
Apart-replace P t u [] after f g p a = (All-both P _ _ after g (p.1) (a.0), a.1)
Apart-replace P t u (x ∷ before) after f g p a = (
  All-replace (λ y. Compatible x.held y.held) before after t u (a.0)
      (f x (p.0) (All-middle (λ y. Compatible x.held y.held) before after t (a.0))),
  Apart-replace P t u before after f g (p.1) (a.1),
)

All-trivial : (ts : List Thread) → All {0, 0} (λ t. Unit) ts
All-trivial [] = tt
All-trivial (t ∷ ts) = (tt, All-trivial ts)

Step-Apart :
    (mutexes : SharedMutex) {ts us : List Thread} → Step mutexes ts us → Apart ts → Apart us
Step-Apart mutexes {ts} (acquired m mode held rest before after e granted) a =
    Apart-replace (Free m mode) _ (thread ((m, mode) ∷ held) rest) before after
      (λ x q c. Compatible-cons m mode x.held held (free-Compatible m mode x.held q) c)
      (λ x q c. (free-Compatible m mode x.held q, c)) (subst (All (Free m mode)) e free)
      (subst Apart e a)
  where
    free : All (Free m mode) ts
    free = elim (Bool-cases (blocked m mode ts)) [
      | inl y ↦ cc (granted, mutexes.grants-blocked m mode ts y)
      | inr n ↦ blocked-Free m mode ts n
    ]
Step-Apart mutexes (released m mode held rest before after e) a =
    Apart-replace (λ x. Unit) _ (thread held rest) before after
      (λ x q c. Compatible-tail x.held held (m, mode) c) (λ x q c. c.1) (All-trivial _)
      (subst Apart e a)
Step-Apart mutexes (accessed f mode held rest before after e) a =
    Apart-replace (λ x. Unit) _ (thread held rest) before after (λ x q c. c) (λ x q c. c)
      (All-trivial _) (subst Apart e a)

pub starting-Apart : (css : List (List Call)) → Apart (starting css)
starting-Apart [] = tt
starting-Apart (cs ∷ css) = (idle-All css, starting-Apart css)
  where
    idle-All : (css : List (List Call)) → All (λ u. Compatible [] u.held) (starting css)
    idle-All [] = tt
    idle-All (cs ∷ css) = (tt, idle-All css)

pub Reach-Apart :
    (mutexes : SharedMutex) {ts us : List Thread} → Reach mutexes ts us → Apart ts → Apart us
Reach-Apart mutexes here a = a
Reach-Apart mutexes (next r s) a = Step-Apart mutexes s (Reach-Apart mutexes r a)

-- Two of a list of threads that are apart.
pub two-Compatible :
    (before between after : List Thread) (t u : Thread)
    → Apart (before ++ t ∷ (between ++ u ∷ after))
    → Compatible t.held u.held
two-Compatible [] between after t u a =
    All-middle (λ x. Compatible t.held x.held) between after u (a.0)
two-Compatible (x ∷ before) between after t u a = two-Compatible before between after t u (a.1)

two-conflict :
    (m h k : Mutex) (a b hm km : Mode)
    → conflicts h hm (k, km) ≡ false
    → rank m ≡ rank h
    → rank m ≡ rank k
    → suffices a hm ≡ true
    → suffices b km ≡ true
    → (a ≡ shared) × (b ≡ shared)
unfolding conflicts suffices
two-conflict m h k shared shared hm km c e f s t = (refl, refl)
two-conflict m h k unique b unique km c e f s t = absurd (ground (arith, e, f, c))
two-conflict m h k unique b shared km c e f s t = cc s
two-conflict m h k shared unique unique unique c e f s t = absurd (ground (arith, e, f, c))
two-conflict m h k shared unique shared unique c e f s t = absurd (ground (arith, e, f, c))
two-conflict m h k shared unique hm shared c e f s t = cc t

one-conflict :
    (m h : Mutex) (a b hm : Mode) (ks : List (Mutex × Mode))
    → All (λ k. conflicts h hm k ≡ false) ks
    → rank m ≡ rank h
    → suffices a hm ≡ true
    → holds m b ks ≡ true
    → (a ≡ shared) × (b ≡ shared)
unfolding holds
one-conflict m h a b hm [] c e s t = cc t
one-conflict m h a b hm ((k, km) ∷ ks) (c, cs) e s t =
    elim (Bool-cases (rank m == rank k && suffices b km)) [
      | inl y ↦ two-conflict m h k a b hm km c e (ground (arith, y)) s (ground (arith, y))
      | inr n ↦ one-conflict m h a b hm ks cs e s (rw n at t)
    ]

-- Where the mutex of one member is held twice, it is shared.
pub two-shared :
    (m : Mutex) (a b : Mode) (hs ks : List (Mutex × Mode))
    → Compatible hs ks
    → holds m a hs ≡ true
    → holds m b ks ≡ true
    → (a ≡ shared) × (b ≡ shared)
unfolding holds
two-shared m a b [] ks c s t = cc s
two-shared m a b ((h, hm) ∷ hs) ks (c, cs) s t =
    elim (Bool-cases (rank m == rank h && suffices a hm)) [
      | inl y ↦ one-conflict m h a b hm ks c (ground (arith, y)) (ground (arith, y)) t
      | inr n ↦ two-shared m a b hs ks cs (rw n at s) t
    ]

pub two-All :
    (P : Thread → Type 0) (before between after : List Thread) (t u : Thread)
    → All P (before ++ t ∷ (between ++ u ∷ after))
    → P t × P u
two-All P [] between after t u a = (a.0, All-middle P between after u (a.1))
two-All P (x ∷ before) between after t u a = two-All P before between after t u (a.1)
