-- ===== src/Locks/Progress.antt =====
-- Threads that call the methods of src/data_source_internal.cpp, as far as the mutexes go: whether
-- they can go on, and for how long.
use qds_data_interface.Prelude.{
  ℕ, zero, suc, ◌+◌, ◌≤◌, ◌<◌, true, false, List, [], ◌∷◌, ◌++◌, ◌≡◌, ◌⊎◌, inl, inr, refl, ◌∙◌, ap,
  subst, arith, All, Bool-cases, map, length, ltb,
}
use qds_data_interface.Locks.{
  Mutex, Mode, unique, shared, Action, acquire, release, access, Thread, thread, rank, conflicts,
  any_conflicts, blocked, Step, acquired, released, accessed, Reach, here, next, SharedMutex,
}
use qds_data_interface.Locks.Calls.{Call, program}
use qds_data_interface.Locks.Order.{AllBelow, Ordered}
use qds_data_interface.Locks.Program.{program-Ordered}

abbrev pub AllOrdered : List Thread → Type 0
AllOrdered = All (λ t. Ordered t.held t.rest)

-- What all threads have left to do.
unfoldable pub remaining : List Thread → ℕ
remaining [] = 0
remaining (t ∷ ts) = length t.rest + remaining ts

pub All-middle :
    (P : Thread → Type 0) (before after : List Thread) (t : Thread)
    → All P (before ++ t ∷ after)
    → P t
All-middle P [] after t a = a.0
All-middle P (x ∷ before) after t a = All-middle P before after t (a.1)

pub All-replace :
    (P : Thread → Type 0) (before after : List Thread) (t u : Thread)
    → All P (before ++ t ∷ after)
    → P u
    → All P (before ++ u ∷ after)
All-replace P [] after t u a p = (p, a.1)
All-replace P (x ∷ before) after t u a p = (a.0, All-replace P before after t u (a.1) p)

remaining-middle :
    (before after : List Thread) (t u : Thread)
    → length t.rest ≡ suc (length u.rest)
    → remaining (before ++ t ∷ after) ≡ suc (remaining (before ++ u ∷ after))
unfolding remaining
remaining-middle [] after t u e = omega (arith, e)
remaining-middle (x ∷ before) after t u e = omega (arith, remaining-middle before after t u e)

pub Step-AllOrdered :
    (mutexes : SharedMutex) {ts us : List Thread}
    → Step mutexes ts us
    → AllOrdered ts
    → AllOrdered us
Step-AllOrdered mutexes (acquired m mode held rest before after e free) a =
    let a' : AllOrdered (before ++ thread held (acquire m mode ∷ rest) ∷ after) =
      subst AllOrdered e a in
    All-replace _ before after _ _ a' ((All-middle _ before after _ a').1)
Step-AllOrdered mutexes (released m mode held rest before after e) a =
    let a' : AllOrdered (before ++ thread ((m, mode) ∷ held) (release m ∷ rest) ∷ after) =
      subst AllOrdered e a in
    All-replace _ before after _ _ a' ((All-middle _ before after _ a').1)
Step-AllOrdered mutexes (accessed f mode held rest before after e) a =
    let a' : AllOrdered (before ++ thread held (access f mode ∷ rest) ∷ after) =
      subst AllOrdered e a in
    All-replace _ before after _ _ a' ((All-middle _ before after _ a').1)

pub Step-remaining :
    (mutexes : SharedMutex) {ts us : List Thread}
    → Step mutexes ts us
    → remaining ts ≡ suc (remaining us)
Step-remaining mutexes (acquired m mode held rest before after e free) =
    ap remaining e ∙ remaining-middle before after _ _ refl
Step-remaining mutexes (released m mode held rest before after e) =
    ap remaining e ∙ remaining-middle before after _ _ refl
Step-remaining mutexes (accessed f mode held rest before after e) =
    ap remaining e ∙ remaining-middle before after _ _ refl

conflicts-rank :
    (m : Mutex) (mode : Mode) (h : Mutex × Mode) → conflicts m mode h ≡ true → rank m ≡ rank h.0
unfolding conflicts
conflicts-rank m unique (h, held) e = ground arith
conflicts-rank m shared (h, unique) e = ground arith
conflicts-rank m shared (h, shared) e = ground arith

conflict-below :
    (m : Mutex) (mode : Mode) (hs : List (Mutex × Mode)) (r : ℕ)
    → any_conflicts m mode hs ≡ true
    → AllBelow r hs
    → rank m < r
unfolding any_conflicts
conflict-below m mode [] r e b = cc e
conflict-below m mode (h ∷ hs) r e b = elim (Bool-cases (conflicts m mode h)) [
  | inl y ↦ omega (arith, conflicts-rank m mode h y, b.0)
  | inr n ↦ conflict-below m mode hs r (rw n at e) (b.1)
]

-- The thread that stands in the way of a request.
holder :
    (m : Mutex) (mode : Mode) (ts : List Thread)
    → blocked m mode ts ≡ true
    → (before : List Thread) × (t : Thread) × (after : List Thread) × (ts ≡ before ++ t ∷ after)
      × (any_conflicts m mode t.held ≡ true)
unfolding blocked
holder m mode [] e = cc e
holder m mode (t ∷ ts) e = elim (Bool-cases (any_conflicts m mode t.held)) [
  | inl y ↦ ([], t, ts, refl, y)
  | inr n ↦
      let (before, u, after, f, c) = holder m mode ts (rw n at e) in
      (t ∷ before, u, after, ap (◌∷◌ t) f, c)
]

abbrev pub CanStep : SharedMutex → List Thread → Type 0
CanStep mutexes ts = (us : List Thread) × Step mutexes ts us

-- A thread that is done, can go on, or asks for a mutex.
thread_cases :
    (mutexes : SharedMutex) (held : List (Mutex × Mode)) (rest : List Action)
    (before after ts : List Thread)
    → ts ≡ before ++ thread held rest ∷ after
    → Ordered held rest
    → ((held ≡ []) × (rest ≡ []))
      ⊎ (CanStep mutexes ts
          ⊎ ((m : Mutex) × (mode : Mode) × (rest' : List Action) × (rest ≡ acquire m mode ∷ rest')
              × AllBelow (rank m) held))
thread_cases mutexes [] [] before after ts e o = inl (refl, refl)
thread_cases mutexes (h ∷ hs) [] before after ts e o = absurd o
thread_cases mutexes held (acquire m mode ∷ rest) before after ts e o =
    inr (inr (m, mode, rest, refl, o.0))
thread_cases mutexes held (access f mode ∷ rest) before after ts e o =
    inr (inl (_, accessed f mode held rest before after e))
thread_cases mutexes [] (release m ∷ rest) before after ts e o = absurd o
thread_cases mutexes ((x, mode) ∷ hs) (release m ∷ rest) before after ts e o = inr (
    inl (
      _,
      released m mode hs rest before after
          (e ∙ ap (λ y. before ++ thread ((y, mode) ∷ hs) (release m ∷ rest) ∷ after) (o.0)),
    ))

rank-lt : (m : Mutex) → rank m < 5
unfolding rank
rank-lt m = ground arith

idle :
    (m : Mutex) (mode : Mode) (hs : List (Mutex × Mode)) → hs ≡ [] → any_conflicts m mode hs ≡ false
unfolding any_conflicts
idle m mode hs e = ap (any_conflicts m mode) e

-- A request is granted, or the thread in its way can go on: it asks for a mutex of a higher place.
waiting-CanStep :
    (mutexes : SharedMutex) (fuel : ℕ) (m : Mutex) (mode : Mode) (held : List (Mutex × Mode))
    (rest : List Action) (before after ts : List Thread)
    → ts ≡ before ++ thread held (acquire m mode ∷ rest) ∷ after
    → AllOrdered ts
    → 5 ≤ rank m + fuel
    → CanStep mutexes ts
waiting-CanStep mutexes zero m mode held rest before after ts e a le =
    absurd (omega (arith, rank-lt m))
waiting-CanStep mutexes (suc fuel) m mode held rest before after ts e a le =
    elim (Bool-cases (blocked m unique ts)) [
      | inr free ↦
          (_, acquired m mode held rest before after e (mutexes.grants-free m mode ts free))
      | inl y ↦
          let (b, t, c, f, conflict) = holder m unique ts y in
          elim (thread_cases mutexes t.held t.rest b c ts f
            (All-middle _ b c t (subst AllOrdered f a))) [
              | inl (none_held, done) ↦ cc (idle m unique t.held none_held, conflict)
              | inr (inl step) ↦ step
              | inr (inr (m', mode', rest', g, below)) ↦
                  waiting-CanStep mutexes fuel m' mode' t.held rest' b c ts
                    (f ∙ ap (λ r. b ++ thread t.held r ∷ c) g) a
                    (omega (arith, conflict-below m unique t.held (rank m') conflict below))
            ]
    ]

unfinished :
    (ts : List Thread)
    → (remaining ts ≡ 0)
      ⊎ ((before : List Thread) × (t : Thread) × (after : List Thread) × (ts ≡ before ++ t ∷ after)
          × (0 < length t.rest))
unfolding remaining
unfinished [] = inl refl
unfinished (t ∷ ts) = elim (unfinished ts) [
  | inr (before, u, after, e, l) ↦ inr (t ∷ before, u, after, ap (◌∷◌ t) e, l)
  | inl z ↦ elim (Bool-cases (ltb 0 (length t.rest))) [
    | inl y ↦ inr ([], t, ts, refl, ground arith)
    | inr n ↦ inl (ground (arith, z))
  ]
]

pub progress :
    (mutexes : SharedMutex) (ts : List Thread)
    → AllOrdered ts
    → (remaining ts ≡ 0) ⊎ CanStep mutexes ts
progress mutexes ts a = elim (unfinished ts) [
  | inl z ↦ inl z
  | inr (before, t, after, e, l) ↦
      elim (thread_cases mutexes t.held t.rest before after ts e
        (All-middle _ before after t (subst AllOrdered e a))) [
          | inl (none_held, done) ↦ absurd (omega (arith, l, ap length done))
          | inr (inl step) ↦ inr step
          | inr (inr (m, mode, rest, g, below)) ↦ inr (
              waiting-CanStep mutexes 5 m mode t.held rest before after ts
                (e ∙ ap (λ r. before ++ thread t.held r ∷ after) g) a (omega arith))
        ]
]

-- Threads at the start of their calls.
abbrev pub starting : List (List Call) → List Thread
starting css = map (λ cs. thread [] (program cs)) css

pub starting-AllOrdered : (css : List (List Call)) → AllOrdered (starting css)
starting-AllOrdered [] = tt
starting-AllOrdered (cs ∷ css) = (program-Ordered cs, starting-AllOrdered css)

pub Reach-AllOrdered :
    (mutexes : SharedMutex) {ts us : List Thread}
    → Reach mutexes ts us
    → AllOrdered ts
    → AllOrdered us
Reach-AllOrdered mutexes here a = a
Reach-AllOrdered mutexes (next r s) a = Step-AllOrdered mutexes s (Reach-AllOrdered mutexes r a)

-- However threads that call the methods are scheduled, there is no deadlock: until nothing remains to
-- be done, some thread can take its next step.
pub calls-CanStep :
    (mutexes : SharedMutex) (css : List (List Call)) {ts : List Thread}
    → Reach mutexes (starting css) ts
    → (remaining ts ≡ 0) ⊎ CanStep mutexes ts
calls-CanStep mutexes css {ts} r =
    progress mutexes ts (Reach-AllOrdered mutexes r (starting-AllOrdered css))
