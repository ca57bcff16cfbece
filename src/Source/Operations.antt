-- ===== src/Source/Operations.antt =====
-- The methods of `IDataSourceIn` and `IDataSourceOut` that use the ring buffer,
-- src/data_source_internal.cpp. `print_heap_stats`, which only prints, is left out of `Add`.
use qds_data_interface.Prelude.{
  ℕ, Bool, true, false, not, Option, none, some, List, [], ◌∷◌, is_empty, ◌==◌, if◌then◌else◌,
}
use qds_data_interface.Prelude.Int.{ℤ, pos, ltb_ℤ}
use qds_data_interface.Prelude.Str.{Str}
use qds_data_interface.Exception.{Exec, ok, thrown, return, throw, rethrow_after, ◌>>=◌}
use qds_data_interface.Measurement.{Measurement}
use qds_data_interface.Types.{ResetReason, ResetInformation, DeletionInformation, InformationList}
use qds_data_interface.Ring
use qds_data_interface.Ring.{World}
use qds_data_interface.Validator.{ParsingState, initial, parsing_exception}
use qds_data_interface.Validator.Values.{parser_callback}
use qds_data_interface.Parser.{BasicParser, parse}
use qds_data_interface.Source.{
  ReferenceContainer, FileSystem, DataSource, Mapping, Config, no_information, drop_oldest,
  emplace_back, delete_ref_mapping, on_delete_callback,
}
use qds_data_interface.Source.Refs.{process_ref_mapping}

unfoldable pub pop_back {ℓ} : {A : Type ℓ} → List A → List A
pop_back [] = []
pop_back (x ∷ []) = []
pop_back (x ∷ y ∷ ys) = x ∷ pop_back (y ∷ ys)

-- The measurements that `Parse` has left in the local state.
unfoldable pub parsed : Option ParsingState → List Measurement
parsed none = []
parsed (some st) = st.measurements

module _ {C F : Type 0} (refs : ReferenceContainer C) (fs : FileSystem F) (time : ℕ → ℕ)
    (config : Config) where
  abbrev pub callback : Option (Ring.OnDeleteCallback (Mapping C))
  callback = some (on_delete_callback refs config)

  -- `DeleteRefMapping(id, false)`
  unfoldable pub forget_references : ℤ → DataSource C F → DataSource C F
  forget_references id ds = record ds {
    world = record ds.world { owner = delete_ref_mapping refs id false ds.world.owner };
  }

  unfoldable pub push_measurements : ℤ → List Measurement → Exec (DataSource C F) ℤ
  push_measurements id ms ds =
      let r = Ring.push time callback id ms ds.world in (r.0, record ds { world = r.1 })

  -- `if (deletion_count < 0) DeleteRefMapping(id, false)`
  unfoldable pub forget_if_rejected : ℤ → ℤ → Exec (DataSource C F) ℤ
  forget_if_rejected id count ds =
      if ltb_ℤ count (pos 0) then return count (forget_references id ds) else return count ds

  -- The `try` block of `Add` and its handler.
  unfoldable pub push_or_forget : ℤ → List Measurement → Exec (DataSource C F) ℤ
  push_or_forget id ms =
      rethrow_after (forget_references id)
        do count ← push_measurements id ms; forget_if_rejected id count

  -- `Add` behind the parser.
  unfoldable pub add_parsed : ℤ → List Measurement → Exec (DataSource C F) ℤ
  add_parsed id ms = do ms' ← process_ref_mapping refs fs id ms; push_or_forget id ms'

  unfoldable pub add : BasicParser → ℤ → Str → Exec (DataSource C F) ℤ
  add p id json ds =
      let r = parse parser_callback p json initial in
      elim r.0 [
        | thrown e ↦ throw e ds
        | ok (good, message) ↦ elim good [
          | true ↦ add_parsed id (parsed r.1) ds
          | false ↦ throw (parsing_exception message "DataSourceInternal::Add") ds
        ]
      ]

  unfoldable pub delete : ℤ → DataSource C F → DataSource C F
  delete id ds = record ds { world = Ring.delete time callback id ds.world }

  unfoldable pub reset : ResetReason → DataSource C F → DataSource C F
  unfolding pop_back
  reset reason ds =
      let (info, w) = Ring.reset time callback reason ds.world in
      let filled = emplace_back info ds.reset_information in
      let kept =
        if info.reset_time_ms == 0 then record filled { list = pop_back filled.list } else filled in
      record ds { world = w; reset_information = drop_oldest config.reset_information_size kept }

  unfoldable pub acknowledge_overflow :
      DataSource C F → InformationList DeletionInformation × DataSource C F
  acknowledge_overflow ds = (
    ds.world.owner.deletion_information,
    record ds {
      world = record ds.world {
        owner = record ds.world.owner { deletion_information = no_information };
      };
    },
  )

module _ {C F : Type 0} where
  unfoldable pub is_reset : DataSource C F → Bool
  is_reset ds = not (is_empty ds.reset_information.list)

  unfoldable pub acknowledge_reset :
      DataSource C F → InformationList ResetInformation × DataSource C F
  acknowledge_reset ds = (ds.reset_information, record ds { reset_information = no_information })

  unfoldable pub is_overflown : DataSource C F → Bool
  is_overflown ds = not (is_empty ds.world.owner.deletion_information.list)

  unfoldable pub get_size : DataSource C F → ℕ
  get_size ds = Ring.get_size ds.world.ring

  unfoldable pub get_max_size : DataSource C F → ℕ
  get_max_size ds = Ring.get_max_size ds.world.ring

  unfoldable pub get_last_id : DataSource C F → ℤ
  get_last_id ds = Ring.get_last_id ds.world.ring

  unfoldable pub get_counter_mode : DataSource C F → ℤ
  get_counter_mode ds = Ring.get_counter_mode ds.world.ring

  unfoldable pub get_allow_overflow : DataSource C F → Bool
  get_allow_overflow ds = Ring.get_allow_overflow ds.world.ring

  -- `begin()` and `end()`: a consumer that iterates locks an entry.
  unfoldable pub lock_data : ℕ → DataSource C F → DataSource C F
  lock_data i ds = record ds { world = Ring.lock i ds.world }
