-- ===== src/Interface.antt =====
-- include/i_data_source_in.hpp, include/i_data_source_out.hpp and include/i_data_source_in_out.hpp:
-- the abstract classes as records of operations on a state `S`. The buffer's shared mutex, which a
-- consumer holds while it iterates, is no operation on the state.
pub mod Promises
pub mod Calls
use qds_data_interface.Prelude.{ℕ, Bool, List}
use qds_data_interface.Prelude.Int.{ℤ}
use qds_data_interface.Prelude.Str.{Str}
use qds_data_interface.Exception.{Exec, Result}
use qds_data_interface.Types.{
  BufferEntry, ReferenceData, ResetReason, ResetInformation, DeletionInformation, InformationList,
}

-- The methods that both interfaces declare.
pub record SharedMethods (S : Type 0) : Type 0 where
  pub get_size : S → ℕ
  pub get_max_size : S → ℕ
  pub get_last_id : S → ℤ
  pub get_counter_mode : S → ℤ
  pub get_allow_overflow : S → Bool

pub record IDataSourceIn (S : Type 0) : Type 0 where
  pub add : ℤ → Str → Exec S ℤ
  pub set_reference : Str → Str → Str → Exec S Unit
  pub reset : ResetReason → S → S
  pub shared : SharedMethods S

-- `begin()` and `end()` give access to the entries: they can be read, and locked one by one.
pub record IDataSourceOut (S : Type 0) : Type 0 where
  pub delete : ℤ → S → S
  pub is_reset : S → Bool
  pub acknowledge_reset : S → InformationList ResetInformation × S
  pub is_overflown : S → Bool
  pub acknowledge_overflow : S → InformationList DeletionInformation × S
  pub entries : S → List BufferEntry
  pub lock_entry : ℕ → S → S
  pub get_reference : Str → S → Result ReferenceData
  pub shared : SharedMethods S

-- The shared methods are those of `IDataSourceIn`.
pub record IDataSourceInOut (S : Type 0) : Type 0 where
  pub input : IDataSourceIn S
  pub output : IDataSourceOut S
  pub get_deletion_information_size : S → ℕ
  pub get_reset_information_size : S → ℕ
  pub get_enable_memory_info_logging : S → Bool
