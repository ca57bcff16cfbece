-- ===== src/Locks/Order.antt =====
-- The order in which code takes the mutexes, and what it holds where it reads and writes.
use qds_data_interface.Prelude.{
  ℕ, zero, suc, ◌≤◌, ◌<◌, Bool, true, false, ◌&&◌, ◌||◌, List, [], ◌∷◌, ◌==◌, ◌≡◌, refl, arith, All,
  All-imp,
}
use mathlib.Core.Bool.{or-true}
use qds_data_interface.Locks.{
  Mutex, parser_mutex, reset_information_mutex, buffer_mutex, deletion_information_mutex,
  ref_mapping_mutex, Mode, unique, shared, Member, parser, reset_information_list, entries,
  locked_flags, deletion_information_list, ref_mapping, ref_counter, Action, acquire, release,
  access, reference_data, Trace, locked, repeated, when, rank,
}

-- The mutex that a member belongs to.
unfoldable pub guard : Member → Mutex
guard parser = parser_mutex
guard reset_information_list = reset_information_mutex
guard entries = buffer_mutex
guard locked_flags = buffer_mutex
guard deletion_information_list = deletion_information_mutex
guard ref_mapping = ref_mapping_mutex
guard reference_data = ref_mapping_mutex
guard ref_counter = ref_mapping_mutex

-- A write needs the mutex for itself, but for that of a flag `locked_`.
unfoldable pub needs : Member → Mode → Mode
needs locked_flags mode = shared
needs f mode = mode

-- Is nothing held for this access: a read of an element of the references?
unfoldable pub unguarded : Member → Mode → Bool
unguarded reference_data shared = true
unguarded f mode = false

-- A mode that is needed, and one that is held.
unfoldable pub suffices : Mode → Mode → Bool
suffices unique shared = false
suffices needed mode = true

unfoldable pub holds : Mutex → Mode → List (Mutex × Mode) → Bool
holds m needed [] = false
holds m needed (h ∷ hs) = (rank m == rank h.0 && suffices needed h.1) || holds m needed hs

-- Every mutex held comes before this place in the order.
abbrev pub AllBelow : ℕ → List (Mutex × Mode) → Type 0
AllBelow r = All (λ h. rank h.0 < r)

-- From these mutexes held: each further one comes behind them in the order, each release is of the
-- one taken last, what is read or written is a member whose mutex is held, and no mutex is held at the
-- end. An element of the references may be read without the mutex.
abbrev pub Ordered : List (Mutex × Mode) → List Action → Type 0
Ordered [] [] = Unit
Ordered (h ∷ hs) [] = ⊥
Ordered hs (acquire m mode ∷ rest) = AllBelow (rank m) hs × Ordered ((m, mode) ∷ hs) rest
Ordered hs (access f mode ∷ rest) =
    (unguarded f mode || holds (guard f) (needs f mode) hs ≡ true) × Ordered hs rest
Ordered [] (release m ∷ rest) = ⊥
Ordered (h ∷ hs) (release m ∷ rest) = (h.0 ≡ m) × Ordered hs rest

abbrev pub AllHeld : List (Mutex × Mode) → List (Mutex × Mode) → Type 0
AllHeld held = All (λ h. holds h.0 h.1 held ≡ true)

-- A piece of code that, where these mutexes are held, takes mutexes from this place in the order on,
-- and gives all of them back.
abbrev pub From : List (Mutex × Mode) → ℕ → Trace → Type 0
From ms r f =
    (held : List (Mutex × Mode)) (rest : List Action)
    → AllBelow r held
    → AllHeld held ms
    → Ordered held rest
    → Ordered held (f rest)

suffices_trans : (a b c : Mode) → suffices a b ≡ true → suffices b c ≡ true → suffices a c ≡ true
unfolding suffices
suffices_trans unique unique unique h k = refl
suffices_trans unique unique shared h k = k
suffices_trans unique shared c h k = cc h
suffices_trans shared b c h k = refl

suffices_refl : (a : Mode) → suffices a a ≡ true
unfolding suffices
suffices_refl unique = refl
suffices_refl shared = refl

weaker-holds :
    (m h : Mutex) (a b : Mode) (hs : List (Mutex × Mode))
    → rank m ≡ rank h
    → suffices a b ≡ true
    → holds h b hs ≡ true
    → holds m a hs ≡ true
unfolding holds
weaker-holds m h a b [] e s k = k
weaker-holds m h a b (x ∷ hs) e s k =
    ground (arith, weaker-holds m h a b hs e s, suffices_trans a b x.1)

-- What is among mutexes that are held is held.
listed-holds :
    (m : Mutex) (a : Mode) (held ms : List (Mutex × Mode))
    → AllHeld held ms
    → holds m a ms ≡ true
    → holds m a held ≡ true
unfolding holds
listed-holds m a held [] h k = cc k
listed-holds m a held (x ∷ ms) (y, h) k =
    ground (arith, listed-holds m a held ms h, weaker-holds m x.0 a x.1 held)

cons-AllHeld :
    (h : Mutex × Mode) (held ms : List (Mutex × Mode)) → AllHeld held ms → AllHeld (h ∷ held) ms
unfolding holds
cons-AllHeld h held ms = All-imp _ _ (λ m k. rw k (or-true _)) ms

holds_head :
    (m : Mutex) (mode : Mode) (hs : List (Mutex × Mode)) → holds m mode ((m, mode) ∷ hs) ≡ true
unfolding holds
holds_head m mode hs = ground (arith, suffices_refl mode)

module _ (ms : List (Mutex × Mode)) (r : ℕ) where
  pub access-From :
      (f : Member) (mode : Mode)
      → holds (guard f) (needs f mode) ms ≡ true
      → From ms r (λ rest. access f mode ∷ rest)
  access-From f mode h held rest b k o =
      (rw (listed-holds (guard f) (needs f mode) held ms k h) (or-true _), o)

  -- A read or a write, and what comes behind it.
  pub access_then-From :
      (f : Member) (mode : Mode) (block : Trace)
      → holds (guard f) (needs f mode) ms ≡ true
      → From ms r block
      → From ms r (λ rest. access f mode ∷ block rest)
  access_then-From f mode block h c held rest b k o =
      (rw (listed-holds (guard f) (needs f mode) held ms k h) (or-true _), c held rest b k o)

  -- The same of a read that needs no mutex.
  pub unguarded-From :
      (f : Member) (mode : Mode)
      → unguarded f mode ≡ true
      → From ms r (λ rest. access f mode ∷ rest)
  unguarded-From f mode u held rest b k o = (rw u refl, o)

  pub seq-From : (f g : Trace) → From ms r f → From ms r g → From ms r (λ rest. f (g rest))
  seq-From f g a c held rest b k o = a held (g rest) b k (c held rest b k o)

  pub locked-From :
      (m : Mutex) (mode : Mode) (block : Trace)
      → r ≤ rank m
      → From ((m, mode) ∷ ms) (suc (rank m)) block
      → From ms r (locked m mode block)
  unfolding locked
  locked-From m mode block le f held rest b k o = (
    All-imp _ _ (λ h l. omega (arith, l)) held b,
    f ((m, mode) ∷ held) (release m ∷ rest)
        (omega arith, All-imp _ _ (λ h l. omega (arith, l)) held b)
        (holds_head m mode held, cons-AllHeld (m, mode) held ms k) (refl, o),
  )

  pub repeated-From : (n : ℕ) (block : Trace) → From ms r block → From ms r (repeated n block)
  unfolding repeated
  repeated-From zero block f held rest b k o = o
  repeated-From (suc n) block f held rest b k o =
      f held (repeated n block rest) b k (repeated-From n block f held rest b k o)

  pub when-From : (c : Bool) (block : Trace) → From ms r block → From ms r (when c block)
  unfolding when
  when-From true block f held rest b k o = f held rest b k o
  when-From false block f held rest b k o = o
