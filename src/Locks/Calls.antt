-- ===== src/Locks/Calls.antt =====
-- What each method of src/parsing/json_parser.hpp, src/ring_buffer.cpp and
-- src/data_source_internal.cpp takes, gives back, reads and writes, in order. How often a loop runs and
-- where an exception ends a method are arguments; a write that hangs on the values is taken to happen;
-- the destructor of a lock gives the mutex back on either way.
use qds_data_interface.Prelude.{ℕ, Bool, not, List, [], ◌∷◌}
use qds_data_interface.Locks.{
  parser_mutex, reset_information_mutex, buffer_mutex, deletion_information_mutex,
  ref_mapping_mutex, unique, shared, parser, reset_information_list, entries, locked_flags,
  deletion_information_list, ref_mapping, reference_data, ref_counter, Action, Trace, locked, reads,
  writes, repeated, when,
}

-- `Parse`
unfoldable pub parse_trace : Trace
parse_trace = locked parser_mutex unique (writes parser)

-- `DeleteRefMapping`, which destroys the elements that it erases.
unfoldable pub delete_ref_mapping_trace : Trace
delete_ref_mapping_trace =
    locked ref_mapping_mutex unique (λ r. writes reference_data (writes ref_mapping r))

-- `OnDeleteCallback` for an entry, whose id and timestamp it reads.
unfoldable pub on_delete_trace : Trace
on_delete_trace rest =
    locked deletion_information_mutex unique
      (λ r. reads entries (writes deletion_information_list r)) (delete_ref_mapping_trace rest)

-- An entry is deleted: its flag is read, the callback called, and the entry erased.
unfoldable pub discard_trace : Trace
discard_trace rest = reads locked_flags (on_delete_trace (writes entries rest))

-- Where an `Add` ends: at the parser, in the loop over the measurements, or behind the push.
pub data AddEnd : Type 0 where
  at_parser in_loop : AddEnd
  pushed : (callbacks : ℕ) → (rejected : Bool) → AddEnd

-- `Push`, under its mutex.
unfoldable pub push_block : ℕ → Bool → Trace
push_block callbacks rejected rest = reads entries (
    repeated callbacks discard_trace
      (reads locked_flags (when (not rejected) (writes entries) rest)))

unfoldable pub push_trace : AddEnd → Trace
push_trace (pushed callbacks rejected) rest =
    locked buffer_mutex unique (push_block callbacks rejected)
      (when rejected delete_ref_mapping_trace rest)
push_trace _ rest = rest

-- One measurement that is a reference, in the loop of `ProcessRefMapping`: the id of an element is
-- read, and changed, or a new element made.
unfoldable pub process_ref_trace : Trace
process_ref_trace = locked ref_mapping_mutex unique (λ r.
    reads ref_mapping
      (reads reference_data (writes ref_counter (writes reference_data (writes ref_mapping r)))))

unfoldable pub loop_trace : AddEnd → ℕ → Trace
loop_trace at_parser references rest = rest
loop_trace _ references rest = repeated references process_ref_trace rest

-- `GetReference` returns a reference to an element, which the caller reads behind the lock's release.
unfoldable pub get_reference_trace : Trace
get_reference_trace rest =
    locked ref_mapping_mutex shared (reads ref_mapping) (reads reference_data rest)

-- `RingBuffer::Reset`, under its mutex; the callback has no entry.
unfoldable pub clear_block : Bool → Trace
clear_block has_entries rest =
    reads entries (when has_entries (λ r. delete_ref_mapping_trace (writes entries r)) rest)

pub data Call : Type 0 where
  add : AddEnd → (references : ℕ) → Call
  set_reference get_reference : Call
  reset : (has_entries : Bool) → Call
  delete : (found : Bool) → Call
  is_reset acknowledge_reset is_overflown acknowledge_overflow get_size get_last_id : Call
  -- A consumer that holds the buffer's mutex while it reads entries and references, and may lock
  -- entries.
  read_entries : (references : ℕ) → (locks : Bool) → Call

unfoldable pub trace : Call → Trace
trace (add end references) rest = parse_trace (loop_trace end references (push_trace end rest))
trace set_reference rest =
    locked ref_mapping_mutex unique
      (λ r. reads ref_mapping (writes reference_data (writes ref_mapping r))) rest
trace get_reference rest = get_reference_trace rest
trace (reset has_entries) rest =
    locked reset_information_mutex unique
      (λ r. locked buffer_mutex unique (clear_block has_entries) (writes reset_information_list r))
      rest
trace (delete found) rest =
    locked buffer_mutex unique
      (λ r. reads entries (when found (λ q. on_delete_trace (writes entries q)) r)) rest
trace is_reset rest = locked reset_information_mutex shared (reads reset_information_list) rest
trace acknowledge_reset rest =
    locked reset_information_mutex unique (writes reset_information_list) rest
trace is_overflown rest =
    locked deletion_information_mutex shared (reads deletion_information_list) rest
trace acknowledge_overflow rest =
    locked deletion_information_mutex unique (writes deletion_information_list) rest
trace get_size rest = locked buffer_mutex shared (reads entries) rest
trace get_last_id rest = locked buffer_mutex shared (reads entries) rest
trace (read_entries references locks) rest =
    locked buffer_mutex shared
      (λ r.
        reads entries
          (repeated references get_reference_trace (when locks (writes locked_flags) r)))
      rest

-- The calls of one thread, one after the other.
unfoldable pub program : List Call → List Action
program [] = []
program (c ∷ cs) = trace c (program cs)
