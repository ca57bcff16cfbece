-- ===== src/Locks/Program.antt =====
-- The order in which the methods of src/parsing/json_parser.hpp, src/ring_buffer.cpp and
-- src/data_source_internal.cpp take the mutexes, and what they hold where they read and write.
use qds_data_interface.Prelude.{ℕ, suc, ◌≤◌, Bool, true, not, List, [], ◌∷◌, ◌≡◌, refl, arith}
use qds_data_interface.Locks.{
  Mutex, parser_mutex, reset_information_mutex, buffer_mutex, deletion_information_mutex,
  ref_mapping_mutex, Mode, unique, shared, Member, parser, reset_information_list, entries,
  locked_flags, deletion_information_list, ref_mapping, reference_data, ref_counter, Action, access,
  Trace, locked, reads, writes, repeated, when, rank,
}
use qds_data_interface.Locks.Calls.{
  parse_trace, delete_ref_mapping_trace, on_delete_trace, discard_trace, AddEnd, at_parser, in_loop,
  pushed, push_block, push_trace, process_ref_trace, loop_trace, get_reference_trace, clear_block,
  Call, add, set_reference, get_reference, reset, delete, is_reset, acknowledge_reset, is_overflown,
  acknowledge_overflow, get_size, get_last_id, read_entries, trace, program,
}
use qds_data_interface.Locks.Order.{
  guard, needs, unguarded, unguarded-From, suffices, holds, Ordered, From, access-From,
  access_then-From, seq-From, locked-From, repeated-From, when-From,
}

-- A block that reads or writes the one member of its mutex.
access_block-From :
    (ms : List (Mutex × Mode)) (r : ℕ) (m : Mutex) (mode : Mode) (f : Member) (access_mode : Mode)
    → r ≤ rank m
    → holds (guard f) (needs f access_mode) ((m, mode) ∷ ms) ≡ true
    → From ms r (locked m mode (λ rest. access f access_mode ∷ rest))
access_block-From ms r m mode f access_mode le h =
    locked-From ms r m mode _ le (access-From ((m, mode) ∷ ms) (suc (rank m)) f access_mode h)

module _ (ms : List (Mutex × Mode)) (r : ℕ) (le : r ≤ 4) where
  forget-From : From ms r delete_ref_mapping_trace
  unfolding rank holds guard needs suffices delete_ref_mapping_trace
  forget-From = locked-From ms r ref_mapping_mutex unique _ le (
      access_then-From ((ref_mapping_mutex, unique) ∷ ms) 5 reference_data unique
        (writes ref_mapping) refl
        (access-From ((ref_mapping_mutex, unique) ∷ ms) 5 ref_mapping unique refl))

  -- A block that reads the references and writes them at its end.
  mapping_block-From :
      (block : Trace)
      → From ((ref_mapping_mutex, unique) ∷ ms) 5 block
      → From ms r (locked ref_mapping_mutex unique (λ q. reads ref_mapping (block q)))
  unfolding rank holds guard needs suffices
  mapping_block-From block f =
      locked-From ms r ref_mapping_mutex unique _ le
        (access_then-From ((ref_mapping_mutex, unique) ∷ ms) 5 ref_mapping shared block refl f)

  write_mapping-From :
      From ((ref_mapping_mutex, unique) ∷ ms) 5 (λ q. writes reference_data (writes ref_mapping q))
  unfolding rank holds guard needs suffices
  write_mapping-From =
      access_then-From ((ref_mapping_mutex, unique) ∷ ms) 5 reference_data unique
        (writes ref_mapping) refl
        (access-From ((ref_mapping_mutex, unique) ∷ ms) 5 ref_mapping unique refl)

  process_ref-From : From ms r process_ref_trace
  unfolding rank holds guard needs suffices process_ref_trace
  process_ref-From = mapping_block-From _ (
      access_then-From ((ref_mapping_mutex, unique) ∷ ms) 5 reference_data shared
        (λ q. writes ref_counter (writes reference_data (writes ref_mapping q))) refl
        (access_then-From ((ref_mapping_mutex, unique) ∷ ms) 5 ref_counter unique
          (λ q. writes reference_data (writes ref_mapping q)) refl write_mapping-From))

  get_reference-From : From ms r get_reference_trace
  unfolding rank holds guard needs suffices unguarded get_reference_trace
  get_reference-From =
      seq-From ms r (locked ref_mapping_mutex shared (reads ref_mapping)) (reads reference_data)
        (access_block-From ms r ref_mapping_mutex shared ref_mapping shared le refl)
        (unguarded-From ms r reference_data shared refl)

abbrev in_push : List (Mutex × Mode)
in_push = (buffer_mutex, unique) ∷ []

abbrev in_callback : List (Mutex × Mode)
in_callback = (deletion_information_mutex, unique) ∷ in_push

on_delete-From : From in_push 3 on_delete_trace
unfolding rank holds guard needs suffices on_delete_trace
on_delete-From =
    seq-From in_push 3 _ delete_ref_mapping_trace
      (locked-From in_push 3 deletion_information_mutex unique _ (omega arith) (
        access_then-From in_callback 4 entries shared (writes deletion_information_list) refl
          (access-From in_callback 4 deletion_information_list unique refl)))
      (forget-From in_push 3 (omega arith))

write_entries-From : From in_push 3 (writes entries)
unfolding holds guard needs suffices rank
write_entries-From = access-From in_push 3 entries unique refl

discard-From : From in_push 3 discard_trace
unfolding rank holds guard needs suffices discard_trace
discard-From =
    access_then-From in_push 3 locked_flags shared _ refl
      (seq-From in_push 3 on_delete_trace (writes entries) on_delete-From write_entries-From)

push_block-From : (n : ℕ) (rejected : Bool) → From in_push 3 (push_block n rejected)
unfolding rank holds guard needs suffices push_block
push_block-From n rejected = access_then-From in_push 3 entries shared _ refl (
    seq-From in_push 3 (repeated n discard_trace) _
      (repeated-From in_push 3 n discard_trace discard-From)
      (access_then-From in_push 3 locked_flags shared (when (not rejected) (writes entries)) refl
        (when-From in_push 3 (not rejected) (writes entries) write_entries-From)))

push_trace-From : (end : AddEnd) → From [] 1 (push_trace end)
unfolding push_trace rank
push_trace-From at_parser = λ held rest b k o. o
push_trace-From in_loop = λ held rest b k o. o
push_trace-From (pushed n rejected) =
    seq-From [] 1 (locked buffer_mutex unique (push_block n rejected)) _
      (locked-From [] 1 buffer_mutex unique _ (omega arith) (push_block-From n rejected))
      (when-From [] 1 rejected delete_ref_mapping_trace (forget-From [] 1 (omega arith)))

loop_trace-From : (end : AddEnd) (n : ℕ) → From [] 1 (loop_trace end n)
unfolding loop_trace
loop_trace-From at_parser n = λ held rest b k o. o
loop_trace-From in_loop n =
    repeated-From [] 1 n process_ref_trace (process_ref-From [] 1 (omega arith))
loop_trace-From (pushed callbacks rejected) n =
    repeated-From [] 1 n process_ref_trace (process_ref-From [] 1 (omega arith))

clear_block-From :
    (ms : List (Mutex × Mode)) (has_entries : Bool)
    → holds (guard entries) unique ms ≡ true
    → holds (guard entries) shared ms ≡ true
    → From ms 3 (clear_block has_entries)
unfolding clear_block holds guard needs suffices rank
clear_block-From ms has_entries h k = access_then-From ms 3 entries shared (when has_entries _) k (
    when-From ms 3 has_entries _ (
      seq-From ms 3 delete_ref_mapping_trace (writes entries) (forget-From ms 3 (omega arith))
        (access-From ms 3 entries unique h)))

abbrev in_reset : List (Mutex × Mode)
in_reset = (buffer_mutex, unique) ∷ (reset_information_mutex, unique) ∷ []

reset-From : (has_entries : Bool) → From [] 0 (trace (reset has_entries))
unfolding trace rank holds guard needs suffices
reset-From has_entries = locked-From [] 0 reset_information_mutex unique _ (omega arith) (
    seq-From ((reset_information_mutex, unique) ∷ []) 2
      (locked buffer_mutex unique (clear_block has_entries)) (writes reset_information_list)
      (locked-From ((reset_information_mutex, unique) ∷ []) 2 buffer_mutex unique _ (omega arith)
        (clear_block-From in_reset has_entries refl refl))
      (access-From ((reset_information_mutex, unique) ∷ []) 2 reset_information_list unique refl))

delete-From : (found : Bool) → From [] 0 (trace (delete found))
unfolding trace rank holds guard needs suffices
delete-From found = locked-From [] 0 buffer_mutex unique _ (omega arith) (
    access_then-From in_push 3 entries shared (when found _) refl (
      when-From in_push 3 found _
        (seq-From in_push 3 on_delete_trace (writes entries) on_delete-From write_entries-From)))

abbrev in_reading : List (Mutex × Mode)
in_reading = (buffer_mutex, shared) ∷ []

read_entries-From : (n : ℕ) (locks : Bool) → From [] 0 (trace (read_entries n locks))
unfolding trace rank holds guard needs suffices
read_entries-From n locks = locked-From [] 0 buffer_mutex shared _ (omega arith) (
    access_then-From in_reading 3 entries shared _ refl (
      seq-From in_reading 3 (repeated n get_reference_trace) _
        (repeated-From in_reading 3 n get_reference_trace
          (get_reference-From in_reading 3 (omega arith)))
        (when-From in_reading 3 locks (writes locked_flags)
          (access-From in_reading 3 locked_flags unique refl))))

-- A method that only takes one mutex, for one member.
single-Ordered :
    (m : Mutex) (mode : Mode) (f : Member) (access_mode : Mode) (rest : List Action)
    → holds (guard f) (needs f access_mode) ((m, mode) ∷ []) ≡ true
    → Ordered [] rest
    → Ordered [] (locked m mode (λ r. access f access_mode ∷ r) rest)
single-Ordered m mode f access_mode rest h o =
    access_block-From [] 0 m mode f access_mode (omega arith) h [] rest tt tt o

trace-Ordered : (c : Call) (rest : List Action) → Ordered [] rest → Ordered [] (trace c rest)
unfolding trace parse_trace get_reference_trace rank holds guard needs suffices
trace-Ordered (add end references) rest o =
    single-Ordered parser_mutex unique parser unique _ refl
      (loop_trace-From end references [] _ tt tt (push_trace-From end [] rest tt tt o))
trace-Ordered set_reference rest o =
    mapping_block-From [] 0 (omega arith) (λ q. writes reference_data (writes ref_mapping q))
      (write_mapping-From [] 0 (omega arith)) [] rest tt tt o
trace-Ordered get_reference rest o = get_reference-From [] 0 (omega arith) [] rest tt tt o
trace-Ordered (reset has_entries) rest o = reset-From has_entries [] rest tt tt o
trace-Ordered (delete found) rest o = delete-From found [] rest tt tt o
trace-Ordered is_reset rest o =
    single-Ordered reset_information_mutex shared reset_information_list shared rest refl o
trace-Ordered acknowledge_reset rest o =
    single-Ordered reset_information_mutex unique reset_information_list unique rest refl o
trace-Ordered is_overflown rest o =
    single-Ordered deletion_information_mutex shared deletion_information_list shared rest refl o
trace-Ordered acknowledge_overflow rest o =
    single-Ordered deletion_information_mutex unique deletion_information_list unique rest refl o
trace-Ordered get_size rest o = single-Ordered buffer_mutex shared entries shared rest refl o
trace-Ordered get_last_id rest o = single-Ordered buffer_mutex shared entries shared rest refl o
trace-Ordered (read_entries n locks) rest o = read_entries-From n locks [] rest tt tt o

pub program-Ordered : (cs : List Call) → Ordered [] (program cs)
unfolding program
program-Ordered [] = tt
program-Ordered (c ∷ cs) = trace-Ordered c (program cs) (program-Ordered cs)
