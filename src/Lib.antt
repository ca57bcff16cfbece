-- ===== src/Lib.antt =====
-- A data source for quality data, written in C++: a producer adds data sets as JSON texts, a consumer
-- reads them and deletes them. This library models the code below src/ and include/ and proves
-- properties of it.
--
-- Prelude holds the shared notation, Boolean tests on the native numbers, integers, texts as lists of
-- bytes, doubles as their 64-bit patterns and decimal numerals. The fuel of a numeral's printing is
-- the number plus one, which is enough since each round divides by ten (Prelude/Decimal).
--
-- Exception  include/exception.hpp. Code that may throw is a function from a state to a result and the
--   state that the return or the throw leaves.
-- Measurement  include/measurement.hpp; Measurement/Json is ToJson over a parameter that stands for
--   boost::json::serialize.
-- Types  include/types.hpp and ReferenceData of include/i_data_source_out.hpp.
-- Interface  include/i_data_source_in.hpp, include/i_data_source_out.hpp and
--   include/i_data_source_in_out.hpp: the abstract classes as records of operations,
--   Interface/Promises promises after their comments, Interface/Calls sequences of calls.
-- Ring  src/ring_buffer.cpp: push, delete, reset, the getters, and lock for what a consumer does
--   through begin() and end(). The callback is a function on a state of its owner's, a parameter; the
--   clock is a function from the number of its use to its reading. Ring/Discard is the discarding loop
--   by its meaning, Ring/Valid and Ring/Push the invariant, Ring/Stored the outcomes, Ring/Locked the
--   locked entries, Ring/Account, Ring/Replay and Ring/Calls the callback's calls, Ring/Run the
--   histories, Ring/Order the timestamps, Ring/Progress when Push stores, Ring/Window any number of
--   pushes, Ring/Options the constants.
-- Validator  src/parsing/data_validator.cpp: handle_object_begin, handle_object_end, handle_key and
--   handle_value (Validator/Values) behind parser_callback; Validator/Complete, Validator/Parsed and
--   Validator/Typed are about the measurements that come of them; and the regular expression of a
--   timestamp (Validator/Timestamp), which Validator/Timestamp/Calendar and the modules beside it compare
--   with a calendar.
-- Parser  src/parsing/json_parser.hpp: parse over a BasicParser, which stands for Boost's
--   basic_parser and says of a text the calls of the handler that it makes and how it ends.
--   Parser/Reading, Parser/Members, Parser/RoundTrip and Parser/Refused are about the parse of what
--   ToJson has written, Parser/Passed about the calls of the handler.
-- Source  src/data_source_internal.cpp: the data source over a ReferenceContainer, which stands for
--   Boost's multi-index container with the laws ContainerLaws, and a FileSystem. Source/Refs is
--   ProcessRefMapping, Source/Operations the other methods; Source/Owned, Source/Integrity,
--   Source/Process and Source/Run are about references and entries, Source/References, Source/Mapped and
--   Source/Contents about the references by their names, Source/Freed about those of a deleted entry,
--   Source/Added, Source/Counted, Source/Last, Source/Copied and Source/Window about Add as a whole,
--   Source/Information and Source/Resets about the lists of deletions and resets. Source/Settle is the
--   try block of Add, Source/Errors and Source/Failures are about its exceptions. Source/Provided is the data source as an
--   implementation of the interfaces, in the states of Source/Good. Source/Threads has the calls of Add
--   that are under way at once, Source/Accounted their references, Source/Sequential the one call.
--   Source/Interleaved takes the calls that hold the buffer's mutex apart into the accesses of their
--   delete callbacks, between which other calls take their steps. Its steps use the runs of the ring
--   buffer's methods with a callback that writes its arguments down, which Ring/Replay relates to those
--   with any other callback. Its child modules are about the references and their entries (Invariant,
--   with Pending, Stored), about how long a reference lasts (Lasting, with Leaving, There, Others), about
--   the buffer alone (Linear), about the sizes (Bounded), and about the coarser steps (Refined).
-- Factory  include/data_source_factory.hpp and src/data_source_factory.cpp.
-- Locks  threads and their mutexes. Locks/Calls is what each method takes, reads and writes, in order;
--   Locks/Order and Locks/Program are about the order of the mutexes and about the mutex of each member,
--   Locks/Progress, Locks/Apart and Locks/Races about threads.
--   boost::shared_mutex is the parameter SharedMutex, which grants what nobody holds and refuses what a
--   lock held stands in the way of. The getters of constants take no mutex and read what no method
--   writes. What GetReference returns is an element of the container, which its caller reads behind the
--   lock's release. A consumer reads entries, references and flags, and sets flags, under a shared lock,
--   as README.md shows.
--
-- Add hands its text to the parser, whose events the validator turns into measurements; the data source
-- then maps the references in them and pushes them into the ring buffer, which tells it by the callback
-- of each entry that leaves.
--
-- A method that holds one mutex from its first line to its last is one step. Add takes several, one
-- after the other: in Source/Threads a step is what runs while the outermost of them is held, so the
-- callbacks of a Push, which take further mutexes within that of the buffer, are part of the step of
-- the Push. In Source/Interleaved they are not: a Push, Delete or Reset is a step that takes the mutex,
-- one for each access of its callbacks, and one that gives the mutex back. The buffer changes in the
-- first of these, since no other call sees it before the last. A call of Add whose loop over the
-- measurements throws is over, but the references it has taken keep its id.
--
-- Not modelled: the printing of the heap's statistics, which is output only.
pub mod Prelude
pub mod Exception
pub mod Measurement
pub mod Types
pub mod Interface
pub mod Ring
pub mod Validator
pub mod Parser
pub mod Source
pub mod Factory
pub mod Locks
