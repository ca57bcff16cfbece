-- ===== src/Factory.antt =====
-- include/data_source_factory.hpp and src/data_source_factory.cpp: `CreateDataSource` and the default
-- values of its parameters.
use qds_data_interface.Prelude.{ℕ, ◌≤◌, true, false, ◌≡◌, refl, subst, length}
use qds_data_interface.Prelude.Int.{pos}
use qds_data_interface.Interface.Calls.{Calls, Calls-IsGood}
use qds_data_interface.Parser.{BasicParser}
use qds_data_interface.Ring
use qds_data_interface.Ring.Run.{new-IsValid}
use qds_data_interface.Source.{
  ReferenceContainer, ContainerLaws, FileSystem, DataSource, Config, new,
}
use qds_data_interface.Source.Operations.{
  get_size, get_max_size, get_counter_mode, get_allow_overflow,
}
use qds_data_interface.Source.Provided.{data_source, data_source-Promises}
use qds_data_interface.Source.Good.{IsGood}

-- The defaults of the parameters of `CreateDataSource`.
abbrev pub default_config : Config
default_config = record {
  buffer_size = 100;
  counter_mode = pos 0;
  allow_overflow = true;
  reset_information_size = 100;
  deletion_information_size = 100;
  enable_memory_info_logging = false;
}

module _ {C F : Type 0} (refs : ReferenceContainer C) where
  unfoldable pub create_data_source : Config → F → DataSource C F
  create_data_source config files = new refs config files 0

module _ {C F : Type 0} (refs : ReferenceContainer C) (laws : ContainerLaws refs)
    (fs : FileSystem F) (time : ℕ → ℕ) (config : Config) (p : BasicParser) where
  create-IsGood : (files : F) → IsGood config (create_data_source refs config files)
  unfolding create_data_source new Ring.new
  create-IsGood files = (new-IsValid _ _ _, (refl, refl, refl))

  -- Whatever methods are called on a data source that the factory has made, with whatever arguments,
  -- it has at most as many entries as the buffer size it was made with, and its size, counter mode
  -- and permission to overflow are those it was made with.
  pub create-bounded :
      (files : F) {ds : DataSource C F}
      → Calls (data_source refs fs time config p) (create_data_source refs config files) ds
      → (get_size ds ≤ config.buffer_size)
        × (get_max_size ds ≡ config.buffer_size)
        × (get_counter_mode ds ≡ config.counter_mode)
        × (get_allow_overflow ds ≡ config.allow_overflow)
  unfolding get_size get_max_size get_counter_mode get_allow_overflow Ring.get_size
      Ring.get_max_size Ring.get_counter_mode Ring.get_allow_overflow Ring.new
  create-bounded files {ds} r =
      let (v, (size, mode, overflow)) : IsGood config ds =
        Calls-IsGood (data_source refs fs time config p) (IsGood config)
          (data_source-Promises refs laws fs time config p) r (create-IsGood files) in
      (subst (λ n. length ds.world.ring.buffer ≤ n) size v.bounded, size, mode, overflow)
