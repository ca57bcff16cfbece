-- ===== src/Source/Good.antt =====
-- The good states of a data source, and that `Add` and `SetReference` keep to them,
-- src/data_source_internal.cpp.
use qds_data_interface.Prelude.{ℕ, List, inl, inr, sym, ◌∙◌, subst, Bool-cases}
use qds_data_interface.Prelude.Int.{ℤ}
use qds_data_interface.Prelude.Str.{Str}
use qds_data_interface.Exception.{◌>>=◌, Result-cases}
use qds_data_interface.Measurement.{Measurement}
use qds_data_interface.Ring
use qds_data_interface.Ring.{RingBuffer, World, is_mode_0, delete_from}
use qds_data_interface.Ring.Options.{KeepsOptions, push-KeepsOptions}
use qds_data_interface.Ring.Valid.{IsValid}
use qds_data_interface.Ring.Push.{push-IsValid}
use qds_data_interface.Validator.{initial}
use qds_data_interface.Validator.Values.{parser_callback}
use qds_data_interface.Parser.{BasicParser, parse}
use qds_data_interface.Source.{
  ReferenceContainer, FileSystem, DataSource, Config, references, is_present, set_reference,
}
use qds_data_interface.Source.Refs.{process_ref_mapping}
use qds_data_interface.Source.Operations.{
  add, add_parsed, push_or_forget, push_measurements, forget_references, callback,
}
use qds_data_interface.Source.Settle.{push_or_forget_rule}
use qds_data_interface.Source.Frame.{process-Untouched}

-- The ring buffer is valid, and has the options of the data source.
abbrev pub IsGoodRing : Config → RingBuffer → Type 0
IsGoodRing config r =
    IsValid r
    × KeepsOptions (Ring.new config.buffer_size config.counter_mode config.allow_overflow) r

abbrev pub IsGood : {C F : Type 0} → Config → DataSource C F → Type 0
IsGood config ds = IsGoodRing config ds.world.ring

pub still-IsGoodRing :
    (config : Config) (r r' : RingBuffer)
    → IsGoodRing config r
    → IsValid r'
    → KeepsOptions r r'
    → IsGoodRing config r'
still-IsGoodRing config r r' (v, (a, b, c)) v' (d, e, f) = (v', (d ∙ a, e ∙ b, f ∙ c))

module _ {C F : Type 0} (refs : ReferenceContainer C) (fs : FileSystem F) (time : ℕ → ℕ)
    (config : Config) (p : BasicParser) where
  push_or_forget-IsGood :
      (id : ℤ) (ms : List Measurement) (ds : DataSource C F)
      → IsGood config ds
      → IsGood config (push_or_forget refs fs time config id ms ds).1
  unfolding push_measurements forget_references
  push_or_forget-IsGood id ms ds v =
      push_or_forget_rule refs fs time config id (λ q. IsGood config q.1) (λ q. IsGood config q.1)
        (λ n ds' h. h) (λ n ds' h. h) (λ e ds' h. h) ms ds
        (still-IsGoodRing config _ _ v
          (push-IsValid time (callback refs fs time config) id ms ds.world (v.0))
          (push-KeepsOptions time (callback refs fs time config) id ms ds.world))

  process-IsGood :
      (id : ℤ) (ms : List Measurement) (ds : DataSource C F)
      → IsGood config ds
      → IsGood config (process_ref_mapping refs fs id ms ds).1
  process-IsGood id ms ds v =
      subst (IsGoodRing config) (sym (process-Untouched refs fs id ms ds).0) v

  add_parsed-IsGood :
      (id : ℤ) (ms : List Measurement) (ds : DataSource C F)
      → IsGood config ds
      → IsGood config (add_parsed refs fs time config id ms ds).1
  unfolding add_parsed
  add_parsed-IsGood id ms ds v = elim (Result-cases (process_ref_mapping refs fs id ms ds).0) [
    | inr (x, e) ↦ rw (e, add_parsed, ◌>>=◌) (process-IsGood id ms ds v)
    | inl (ms', e) ↦
        rw (e, add_parsed, ◌>>=◌) (push_or_forget-IsGood id ms' _ (process-IsGood id ms ds v))
  ]

  pub add-IsGood :
      (id : ℤ) (json : Str) (ds : DataSource C F)
      → IsGood config ds
      → IsGood config (add refs fs time config p id json ds).1
  unfolding add
  add-IsGood id json ds v = elim (Result-cases (parse parser_callback p json initial).0) [
    | inr (x, e) ↦ rw (e, add) v
    | inl ((good, message), e) ↦ elim (Bool-cases good) [
      | inr f ↦ rw (e, f, add) v
      | inl t ↦ rw (e, t, add) (add_parsed-IsGood id _ ds v)
    ]
  ]

  pub set_reference-IsGood :
      (r contents format : Str) (ds : DataSource C F)
      → IsGood config ds
      → IsGood config (set_reference refs r contents format ds).1
  unfolding set_reference
  set_reference-IsGood r contents format ds v =
      elim (Bool-cases (is_present (refs.find r (references ds)))) [
        | inl y ↦ rw y v
        | inr n ↦ rw n v
      ]
