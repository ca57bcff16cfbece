-- ===== src/Source/Tests/Provided.antt =====
-- A data source as its clients see it, src/data_source_internal.cpp, at an example.
use qds_data_interface.Prelude.{[], ◌≡◌, refl, ◌≤◌, arith, none, true}
use qds_data_interface.Prelude.Int.{pos}
use qds_data_interface.Interface.Calls.{Calls, no_call, then_call, add_call}
use qds_data_interface.Interface.Promises.{Promises, consume}
use qds_data_interface.Factory.{create_data_source, create-bounded, default_config}
use qds_data_interface.Parser.Door.{door_parser}
use qds_data_interface.Source.Operations.{
  add, get_size, get_max_size, get_counter_mode, get_allow_overflow,
}
use qds_data_interface.Source.Good.{IsGood}
use qds_data_interface.Source.Provided.{data_source, data_source-Promises, consume-data_source}
use qds_data_interface.Source.Tests.{table, table_laws, disk, clock, config, one_entry}

one_entry-IsGood : IsGood config one_entry
unfolding qds_data_interface.Ring.new
one_entry-IsGood = (
  record { bounded = omega arith; distinct = (tt, tt); ascending = λ m. (tt, tt) },
  (refl, refl, refl),
)

data_source-Promises_example :
    Promises (data_source table disk clock config door_parser) (IsGood config)
data_source-Promises_example = data_source-Promises table table_laws disk clock config door_parser

consume-data_source_example :
    (consume (data_source table disk clock config door_parser).output one_entry).world.ring.buffer
    ≡ []
consume-data_source_example =
    consume-data_source table table_laws disk clock config door_parser one_entry one_entry-IsGood

abbrev added_calls :
    Calls
      (data_source table disk clock default_config door_parser)
      (create_data_source table default_config none)
      (add table disk clock default_config door_parser
        (pos 7)
        []
        (create_data_source table default_config none)).1
added_calls = then_call no_call (add_call (pos 7) [])

create-bounded_example :
    (get_size
        (add table disk clock default_config door_parser
          (pos 7)
          []
          (create_data_source table default_config none)).1
      ≤ 100)
    × (get_max_size
          (add table disk clock default_config door_parser
            (pos 7)
            []
            (create_data_source table default_config none)).1
        ≡ 100)
    × (get_counter_mode
          (add table disk clock default_config door_parser
            (pos 7)
            []
            (create_data_source table default_config none)).1
        ≡ pos 0)
    × (get_allow_overflow
          (add table disk clock default_config door_parser
            (pos 7)
            []
            (create_data_source table default_config none)).1
        ≡ true)
create-bounded_example =
    create-bounded table table_laws disk clock default_config door_parser none added_calls
