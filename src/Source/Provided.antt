-- ===== src/Source/Provided.antt =====
-- `DataSourceInternal` of src/data_source_internal.cpp as an implementation of `IDataSourceInOut`.
use qds_data_interface.Prelude.{
  ℕ, true, false, Option, some, List, [], ◌∷◌, ◌≡◌, inl, inr, refl, sym, ◌∙◌, ap, arith, back,
  is_empty, Bool-cases,
}
use qds_data_interface.Prelude.Int.{ℤ, ◌==ℤ◌}
use qds_data_interface.Prelude.Str.{Str}
use qds_data_interface.Types.{BufferEntry, ResetReason}
use qds_data_interface.Interface.{SharedMethods, IDataSourceInOut}
use qds_data_interface.Interface.Promises.{Promises, without_id, consume, consume-entries}
use qds_data_interface.Ring
use qds_data_interface.Ring.{RingBuffer, World, is_mode_0, delete_from}
use qds_data_interface.Ring.Options.{delete-KeepsOptions, reset-KeepsOptions}
use qds_data_interface.Ring.Valid.{Distinct, Lacks, others-Lacks}
use qds_data_interface.Ring.Run.{delete-IsValid, reset-IsValid, lock-IsValid, delete-eq-plain}
use qds_data_interface.Parser.{BasicParser}
use qds_data_interface.Source.{
  ReferenceContainer, ContainerLaws, FileSystem, DataSource, Config, set_reference, get_reference,
  references, is_present,
}
use qds_data_interface.Source.Operations
use qds_data_interface.Source.Operations.{
  add, add_parsed, push_or_forget, push_measurements, forget_if_rejected, forget_references, parsed,
  delete, reset, acknowledge_overflow, acknowledge_reset, is_reset, is_overflown, callback,
  lock_data,
}
use qds_data_interface.Source.Counted.{add-count}
use qds_data_interface.Source.Last.{add-last_id}
use qds_data_interface.Source.References.{
  get_reference-thrown, set_reference-found, set_reference-thrown, set_reference-exists,
}
use qds_data_interface.Source.Good.{IsGood, still-IsGoodRing, add-IsGood, set_reference-IsGood}

-- The interface over a data source of this configuration.
module _ {C F : Type 0} (refs : ReferenceContainer C) (fs : FileSystem F) (time : ℕ → ℕ)
    (config : Config) (p : BasicParser) where
  abbrev pub shared_methods : SharedMethods (DataSource C F)
  shared_methods = record {
    get_size = Operations.get_size;
    get_max_size = Operations.get_max_size;
    get_last_id = Operations.get_last_id;
    get_counter_mode = Operations.get_counter_mode;
    get_allow_overflow = Operations.get_allow_overflow;
  }

  abbrev pub data_source : IDataSourceInOut (DataSource C F)
  data_source = record {
    input = record {
      add = λ id json. add refs fs time config p id json;
      set_reference = λ r contents format. set_reference refs r contents format;
      reset = λ reason ds. reset refs fs time config reason ds;
      shared = shared_methods;
    };
    output = record {
      delete = λ id ds. delete refs fs time config id ds;
      is_reset = is_reset;
      acknowledge_reset = acknowledge_reset;
      is_overflown = is_overflown;
      acknowledge_overflow = λ ds. acknowledge_overflow refs fs time config ds;
      entries = λ ds. ds.world.ring.buffer;
      lock_entry = λ i ds. lock_data i ds;
      get_reference = λ r ds. get_reference refs r ds;
      shared = shared_methods;
    };
    get_deletion_information_size = λ ds. config.deletion_information_size;
    get_reset_information_size = λ ds. config.reset_information_size;
    get_enable_memory_info_logging = λ ds. config.enable_memory_info_logging;
  }

-- On distinct ids the plain search of `Delete` leaves the entries of other ids.
delete_from-without_id :
    {S : Type 0} (time : ℕ → ℕ) (callback : Option (Ring.OnDeleteCallback S)) (id : ℤ)
    (es : List BufferEntry) (s : S)
    → Distinct es
    → (delete_from time callback false id es s).0 ≡ without_id id es
unfolding delete_from without_id
delete_from-without_id time callback id [] s d = refl
delete_from-without_id time callback id (e ∷ es) s d = elim (Bool-cases (e.id ==ℤ id)) [
  | inl y ↦ rw (y, without_id) (sym (absent es (others-Lacks id e es y d.0)))
  | inr n ↦ rw (n, without_id) (ap (◌∷◌ e) (delete_from-without_id time callback id es s d.1))
]
  where
    absent : (es : List BufferEntry) → Lacks id es → without_id id es ≡ es
    absent [] h = refl
    absent (e ∷ es) h = ground (arith, absent es h.1)

module _ {C F : Type 0} (refs : ReferenceContainer C) (laws : ContainerLaws refs)
    (fs : FileSystem F) (time : ℕ → ℕ) (config : Config) (p : BasicParser) where
  empty_of : (es : List BufferEntry) → is_empty es ≡ true → es ≡ []
  empty_of [] h = refl
  empty_of (e ∷ es) h = cc h

  reset-entries :
      (reason : ResetReason) (ds : DataSource C F)
      → (reset refs fs time config reason ds).world.ring.buffer ≡ []
  unfolding reset Ring.reset
  reset-entries reason ds = elim (Bool-cases (is_empty ds.world.ring.buffer)) [
    | inl e ↦ rw e (empty_of _ e)
    | inr e ↦ rw e refl
  ]

  delete-entries :
      (id : ℤ) (ds : DataSource C F)
      → IsGood config ds
      → (delete refs fs time config id ds).world.ring.buffer ≡ without_id id ds.world.ring.buffer
  unfolding delete Ring.delete
  delete-entries id ds v =
      ap (λ r. r.0) (delete-eq-plain time (callback refs fs time config) id ds.world (v.0))
      ∙ delete_from-without_id time (callback refs fs time config) id ds.world.ring.buffer
          ds.world.owner (v.0).distinct

  last_id-entries :
      (e : BufferEntry) (ds : DataSource C F)
      → back ds.world.ring.buffer ≡ some e
      → Operations.get_last_id ds ≡ e.id
  unfolding Operations.get_last_id Ring.get_last_id
  last_id-entries e ds h = rw (h, Ring.get_last_id) refl

  set_reference-entries :
      (r contents format : Str) (ds : DataSource C F)
      → (set_reference refs r contents format ds).1.world.ring.buffer ≡ ds.world.ring.buffer
  unfolding set_reference
  set_reference-entries r contents format ds =
      elim (Bool-cases (is_present (refs.find r (references ds)))) [
        | inl y ↦ rw (y, set_reference) refl
        | inr n ↦ rw (n, set_reference) refl
      ]

  -- `DataSourceInternal` fills `Promises`, in all states in which its ring buffer is valid and has the
  -- options that the data source was made with. Every method keeps the state so. The size is the number
  -- of the entries, and within the size of the buffer; the last id is that of the last entry. After an
  -- `Add` that does not throw or return a negative number the given id is the last one, and in counter
  -- mode 0 the number is that of the deleted data. `SetReference` throws a RefException and changes
  -- nothing where the name is found; where it does not throw, `GetReference` finds what was set, and of
  -- other names what it found before, and the entries are as they were. `GetReference` throws nothing but
  -- a RefException. `Reset` deletes all data, `Delete` the data set of the id and nothing else. Each
  -- acknowledgement clears the list that it returns and leaves the entries, and `IsReset` and
  -- `IsOverflown` say whether this list has elements.
  pub data_source-Promises : Promises (data_source refs fs time config p) (IsGood config)
  unfolding delete reset acknowledge_reset acknowledge_overflow is_reset is_overflown
      Operations.get_size Operations.get_max_size Ring.get_size Ring.get_max_size lock_data
      Ring.lock
  data_source-Promises = record {
    add-IsGood = add-IsGood refs fs time config p;
    set_reference-IsGood = set_reference-IsGood refs fs time config p;
    reset-IsGood = λ reason ds v.
        still-IsGoodRing config _ _ v
          (reset-IsValid time (callback refs fs time config) reason ds.world (v.0))
          (reset-KeepsOptions time (callback refs fs time config) reason ds.world);
    delete-IsGood = λ id ds v.
        still-IsGoodRing config _ _ v
          (delete-IsValid time (callback refs fs time config) id ds.world (v.0))
          (delete-KeepsOptions time (callback refs fs time config) id ds.world);
    lock_entry-IsGood = λ n ds v.
        still-IsGoodRing config _ _ v
          (lock-IsValid time (callback refs fs time config) n ds.world (v.0)) (refl, refl, refl);
    acknowledge_reset-IsGood = λ ds v. v;
    acknowledge_overflow-IsGood = λ ds v. v;
    size-entries = λ ds. refl;
    size-le = λ ds v. (v.0).bounded;
    last_id-entries = last_id-entries;
    add-count = λ id. add-count refs laws fs time config id p;
    add-last_id = λ id. add-last_id refs laws fs time config id p;
    set_reference-get_reference = set_reference-found refs laws;
    set_reference-exists = set_reference-exists refs laws;
    set_reference-thrown = set_reference-thrown refs laws;
    set_reference-entries = set_reference-entries;
    get_reference-thrown = get_reference-thrown refs laws;
    reset-entries = reset-entries;
    delete-entries = delete-entries;
    acknowledge_reset-is_reset = λ ds. refl;
    is_reset-acknowledge_reset = λ ds. refl;
    acknowledge_overflow-is_overflown = λ ds. refl;
    is_overflown-acknowledge_overflow = λ ds. refl;
    acknowledge_reset-entries = λ ds. refl;
    acknowledge_overflow-entries = λ ds. refl;
  }

  -- A consumer that reads the entries of a data source with a valid ring buffer, of the options that it
  -- was made with, and calls `Delete` for the id of each leaves its buffer empty.
  pub consume-data_source :
      (ds : DataSource C F)
      → IsGood config ds
      → (consume (data_source refs fs time config p).output ds).world.ring.buffer ≡ []
  consume-data_source =
      consume-entries (data_source refs fs time config p) (IsGood config) data_source-Promises
