-- ===== src/Locks.antt =====
-- The mutexes of src/parsing/json_parser.hpp, src/ring_buffer.cpp and src/data_source_internal.cpp, the
-- members that threads share, and threads that take the ones and read and write the others. What each
-- method does is in Locks/Calls.
pub mod Calls
pub mod Order
pub mod Progress
pub mod Program
pub mod Apart
pub mod Races
mod Tests
use qds_data_interface.Prelude.{
  ℕ, zero, suc, Bool, true, false, ◌&&◌, ◌||◌, List, [], ◌∷◌, ◌++◌, ◌==◌, ◌≡◌,
}

pub data Mutex : Type 0 where
  parser_mutex reset_information_mutex buffer_mutex deletion_information_mutex ref_mapping_mutex :
      Mutex

-- `unique_lock` and `shared_lock`; and a write and a read.
pub data Mode : Type 0 where
  unique shared : Mode

-- What the threads share: the parser and its handler's state, the list of resets, the entries of the
-- buffer, their flags `locked_`, the list of deletions, the container of the references, the elements
-- of it (`ReferenceData`), which `GetReference` hands out, and the counter of their names.
pub data Member : Type 0 where
  parser reset_information_list entries locked_flags deletion_information_list ref_mapping
        reference_data ref_counter :
      Member

pub data Action : Type 0 where
  acquire : Mutex → Mode → Action
  release : Mutex → Action
  access : Member → Mode → Action

-- What a piece of code does, before what comes after it.
abbrev pub Trace : Type 0
Trace = List Action → List Action

-- A block that holds a mutex.
unfoldable pub locked : Mutex → Mode → Trace → Trace
locked m mode block rest = acquire m mode ∷ block (release m ∷ rest)

abbrev pub reads : Member → Trace
reads f rest = access f shared ∷ rest

abbrev pub writes : Member → Trace
writes f rest = access f unique ∷ rest

unfoldable pub repeated : ℕ → Trace → Trace
repeated zero block rest = rest
repeated (suc n) block rest = block (repeated n block rest)

unfoldable pub when : Bool → Trace → Trace
when true block rest = block rest
when false block rest = rest

-- A thread: the mutexes that it holds, the last one first, and what it has left to do.
pub record Thread : Type 0 where
  pub held : List (Mutex × Mode)
  pub rest : List Action

abbrev pub thread : List (Mutex × Mode) → List Action → Thread
thread held rest = record { held = held; rest = rest }

-- The place in the order in which the mutexes are taken.
unfoldable pub rank : Mutex → ℕ
rank parser_mutex = 0
rank reset_information_mutex = 1
rank buffer_mutex = 2
rank deletion_information_mutex = 3
rank ref_mapping_mutex = 4

-- A held mutex stands in the way of a request: another mode than shared on one side.
unfoldable pub conflicts : Mutex → Mode → Mutex × Mode → Bool
conflicts m shared (h, shared) = false
conflicts m mode (h, held_mode) = rank m == rank h

unfoldable pub any_conflicts : Mutex → Mode → List (Mutex × Mode) → Bool
any_conflicts m mode [] = false
any_conflicts m mode (h ∷ hs) = conflicts m mode h || any_conflicts m mode hs

unfoldable pub blocked : Mutex → Mode → List Thread → Bool
blocked m mode [] = false
blocked m mode (t ∷ ts) = any_conflicts m mode t.held || blocked m mode ts

-- `boost::shared_mutex`: whether a request is granted while the threads hold what they hold. Which one
-- of several requests is granted first is left open.
pub record SharedMutex : Type 0 where
  pub grants : Mutex → Mode → List Thread → Bool
  -- A request for a mutex that nobody holds is granted.
  pub grants-free :
      (m : Mutex) (mode : Mode) (ts : List Thread)
      → blocked m unique ts ≡ false
      → grants m mode ts ≡ true
  -- A request that a lock held stands in the way of is not.
  pub grants-blocked :
      (m : Mutex) (mode : Mode) (ts : List Thread)
      → blocked m mode ts ≡ true
      → grants m mode ts ≡ false

module _ (mutexes : SharedMutex) where
  -- A step of some thread, wherever it stands.
  pub data Step (ts : List Thread) : List Thread → Type 0 where
    acquired :
        (m : Mutex) (mode : Mode) (held : List (Mutex × Mode)) (rest : List Action)
        (before after : List Thread)
        → ts ≡ before ++ thread held (acquire m mode ∷ rest) ∷ after
        → mutexes.grants m mode ts ≡ true
        → Step ts (before ++ thread ((m, mode) ∷ held) rest ∷ after)
    released :
        (m : Mutex) (mode : Mode) (held : List (Mutex × Mode)) (rest : List Action)
        (before after : List Thread)
        → ts ≡ before ++ thread ((m, mode) ∷ held) (release m ∷ rest) ∷ after
        → Step ts (before ++ thread held rest ∷ after)
    accessed :
        (f : Member) (mode : Mode) (held : List (Mutex × Mode)) (rest : List Action)
        (before after : List Thread)
        → ts ≡ before ++ thread held (access f mode ∷ rest) ∷ after
        → Step ts (before ++ thread held rest ∷ after)

  pub data Reach (ts : List Thread) : List Thread → Type 0 where
    here : Reach ts ts
    next : {us vs : List Thread} → Reach ts us → Step us vs → Reach ts vs
