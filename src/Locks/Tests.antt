-- ===== src/Locks/Tests.antt =====
-- Two threads and their mutexes, src/data_source_internal.cpp.
use qds_data_interface.Prelude.{
  Bool, false, true, not, ap, List, [], ◌∷◌, ◌≡◌, ◌≢◌, ◌⊎◌, refl, arith,
}
use qds_data_interface.Locks.{
  Mutex, Mode, parser_mutex, buffer_mutex, unique, shared, parser, entries, locked_flags, Action,
  release, access, Thread, thread, locked, conflicts, blocked, any_conflicts, SharedMutex, Step,
  acquired, Reach, here, next,
}
use qds_data_interface.Locks.Calls.{
  pushed, Call, add, reset, get_size, trace, program, parse_trace, loop_trace, push_trace,
}
use qds_data_interface.Locks.Progress.{remaining, CanStep, starting, calls-CanStep}
use qds_data_interface.Locks.Races.{calls-RaceFree}
use qds_data_interface.Locks.Order.{unguarded}

negated : {b c : Bool} → b ≡ c → not b ≡ not c
negated e = ap not e

conflicts-weaker :
    (m : Mutex) (mode : Mode) (h : Mutex × Mode)
    → conflicts m unique h ≡ false
    → conflicts m mode h ≡ false
unfolding conflicts
conflicts-weaker m unique h e = e
conflicts-weaker m shared (h, unique) e = e
conflicts-weaker m shared (h, shared) e = refl

any_free :
    (m : Mutex) (mode : Mode) (hs : List (Mutex × Mode))
    → any_conflicts m unique hs ≡ false
    → any_conflicts m mode hs ≡ false
unfolding any_conflicts
any_free m mode [] e = refl
any_free m mode (h ∷ hs) e = ground (arith, any_free m mode hs, conflicts-weaker m mode h)

free_for :
    (m : Mutex) (mode : Mode) (ts : List Thread)
    → blocked m unique ts ≡ false
    → blocked m mode ts ≡ false
unfolding blocked
free_for m mode [] e = refl
free_for m mode (t ∷ ts) e = ground (arith, free_for m mode ts, any_free m mode t.held)

-- What is asked for is granted if no lock held stands in the way.
abbrev mutexes : SharedMutex
mutexes = record {
  grants = λ m mode ts. not (blocked m mode ts);
  grants-free = λ m mode ts e. negated (free_for m mode ts e);
  grants-blocked = λ m mode ts e. negated e;
}

-- A producer that adds a data set, and one that resets.
abbrev two : List (List Call)
two = (add (pushed 1 false) 1 ∷ []) ∷ (reset true ∷ []) ∷ []

abbrev add_rest : List Action
add_rest =
    access parser unique
    ∷ release parser_mutex
    ∷ loop_trace (pushed 1 false) 1 (push_trace (pushed 1 false) [])

abbrev parsing : List Thread
parsing = thread ((parser_mutex, unique) ∷ []) add_rest ∷ thread [] (program (reset true ∷ [])) ∷ []

first_step : Step mutexes (starting two) parsing
unfolding program trace parse_trace locked blocked any_conflicts
first_step = acquired parser_mutex unique [] add_rest [] _ refl refl

calls-CanStep_example : (remaining parsing ≡ 0) ⊎ CanStep mutexes parsing
calls-CanStep_example = calls-CanStep mutexes two (next here first_step)

-- Two consumers that ask for the size.
abbrev sizing : List (List Call)
sizing = (get_size ∷ []) ∷ (get_size ∷ []) ∷ []

abbrev size_rest : List Action
size_rest = release buffer_mutex ∷ []

abbrev reading : Thread
reading = thread ((buffer_mutex, shared) ∷ []) (access entries shared ∷ size_rest)

both_reading : Reach mutexes (starting sizing) (reading ∷ reading ∷ [])
unfolding program trace locked blocked any_conflicts conflicts
both_reading =
    next
      (next here
        (acquired buffer_mutex shared [] (access entries shared ∷ size_rest) [] _ refl refl))
      (acquired buffer_mutex shared [] (access entries shared ∷ size_rest) (reading ∷ []) [] refl
        refl)

entries_differ : entries ≢ locked_flags
entries_differ e = cc e

entries_guarded : unguarded entries shared ≡ false
unfolding unguarded
entries_guarded = refl

calls-RaceFree_example : (shared ≡ shared) × (shared ≡ shared)
calls-RaceFree_example =
    calls-RaceFree mutexes sizing entries shared shared ((buffer_mutex, shared) ∷ [])
      ((buffer_mutex, shared) ∷ []) size_rest size_rest [] [] [] entries_differ entries_guarded
      entries_guarded both_reading
