-- ===== src/Types.antt =====
-- include/types.hpp, and `ReferenceData` of include/i_data_source_out.hpp.
use qds_data_interface.Prelude.{ℕ, Bool, List}
use qds_data_interface.Prelude.Int.{ℤ}
use qds_data_interface.Prelude.Str.{Str}
use qds_data_interface.Measurement.{Measurement}

pub record BufferEntry : Type 0 where
  pub id : ℤ
  pub measurements : List Measurement
  pub timestamp_ms : ℕ
  pub locked : Bool

pub data ResetReason : Type 0 where
  unknown system user : ResetReason

pub record ResetInformation : Type 0 where
  pub reset_time_ms : ℕ
  pub reset_reason : ResetReason
  pub oldest_dataset_time_ms : ℕ
  pub newest_dataset_time_ms : ℕ
  pub deleted_datasets_count : ℕ

pub record DeletionInformation : Type 0 where
  pub deletion_time_ms : ℕ
  pub data_set_time_ms : ℕ

-- `ResetInformationList` and `DeletionInformationList`, which differ in their items alone.
pub record InformationList (A : Type 0) : Type 0 where
  pub list : List A
  pub exceeded_max_entries : Bool

pub record ReferenceData : Type 0 where
  pub id : ℤ
  pub ref : Str
  pub format : Str
  pub content : Str
