-- ===== src/Source/Run.antt =====
-- Histories of a data source, src/data_source_internal.cpp: its methods and the locks of a consumer
-- as the steps of a relation.
use qds_data_interface.Prelude.{
  ℕ, zero, suc, Bool, true, ◌&&◌, ◌||◌, subst, List, [], ◌∷◌, ◌≡◌, inl, inr, refl, sym, ◌∙◌, ap,
  arith, is_empty, Bool-cases,
}
use qds_data_interface.Prelude.Int.{ℤ, pos, ◌==ℤ◌, ==ℤ_iff, ltb_ℤ}
use qds_data_interface.Prelude.Str.{Str}
use qds_data_interface.Exception.{ok}
use qds_data_interface.Measurement.{Measurement}
use qds_data_interface.Types.{BufferEntry, ReferenceData, ResetReason}
use qds_data_interface.Ring
use qds_data_interface.Ring.{World, notify, notify_clear, delete_from, is_mode_0, lock_entry, lock}
use qds_data_interface.Source.{
  ReferenceContainer, ContainerLaws, FileSystem, DataSource, Mapping, Config, references, new,
  is_present, set_reference, on_delete_callback, delete_ref_mapping,
}
use qds_data_interface.Source.Refs.{process_ref_mapping}
use qds_data_interface.Source.Operations.{
  lock_data, add_parsed, delete, reset, acknowledge_overflow, acknowledge_reset,
}
use qds_data_interface.Source.Owned.{has_id, on_delete, Finds, called_once}
use qds_data_interface.Source.Integrity.{Owned}
use qds_data_interface.Source.Process.{IsFree, add_parsed-Owned, emplace_cases}

pub has_id-lock_entry :
    (id : ℤ) (i : ℕ) (es : List BufferEntry) → has_id id (lock_entry i es) ≡ has_id id es
unfolding has_id lock_entry
has_id-lock_entry id i [] = refl
has_id-lock_entry id zero (e ∷ es) = refl
has_id-lock_entry id (suc i) (e ∷ es) = ap (λ b. (e.id ==ℤ id) || b) (has_id-lock_entry id i es)

module _ {C F : Type 0} (refs : ReferenceContainer C) (fs : FileSystem F) (time : ℕ → ℕ)
    (config : Config) where
  -- A call of a method other than `Add`, or a lock of an entry by a consumer.
  pub data Method (ds : DataSource C F) : DataSource C F → Type 0 where
    deleted : (id : ℤ) → Method ds (delete refs fs time config id ds)
    emptied : (reason : ResetReason) → Method ds (reset refs fs time config reason ds)
    referenced : (r contents format : Str) → Method ds (set_reference refs r contents format ds).1
    overflow_acknowledged : Method ds (acknowledge_overflow refs fs time config ds).1
    reset_acknowledged : Method ds (acknowledge_reset ds).1
    locked : (i : ℕ) → Method ds (lock_data i ds)

module _ {C F : Type 0} (refs : ReferenceContainer C) (laws : ContainerLaws refs)
    (fs : FileSystem F) (time : ℕ → ℕ) (config : Config) (Free : ℤ → Type 0) where
  -- A reference that the loop of `Delete` leaves was there, and if its entry was in the list, that is
  -- left too.
  delete_from-Finds :
      (sorted : Bool) (id : ℤ) (es : List BufferEntry) (m : Mapping C) (r : Str) (d : ReferenceData)
      → Finds refs laws config time
          (delete_from time (on_delete refs laws config time) sorted id es m).1
          r
          d
      → Finds refs laws config time m r d
        × (has_id d.id es ≡ true
            → has_id d.id (delete_from time (on_delete refs laws config time) sorted id es m).0
              ≡ true)
  unfolding delete_from has_id notify
  delete_from-Finds sorted id [] m r d = λ h. (h, λ i. i)
  delete_from-Finds sorted id (e ∷ es) m r d = elim (Bool-cases (e.id ==ℤ id)) [
    | inl hit ↦ rw hit (λ h.
        let (before, other) = called_once refs laws config time e 0 m r d h in
        (before, λ i. ground (arith, other, ==ℤ_iff e.id d.id, ==ℤ_iff d.id e.id)))
    | inr miss ↦ elim (Bool-cases (sorted && ltb_ℤ id e.id)) [
      | inl past ↦ rw (miss, past) (λ h. (h, λ i. i))
      | inr before ↦
          rw (miss, before)
            (λ h.
              let (was, stays) = delete_from-Finds sorted id es m r d h in
              (was, λ i. ground (arith, stays)))
    ]
  ]

  abbrev pub Tidy : DataSource C F → Type 0
  Tidy ds = Owned refs laws fs time config Free ds.world

  delete-Tidy : (id : ℤ) (ds : DataSource C F) → Tidy ds → Tidy (delete refs fs time config id ds)
  unfolding delete Ring.delete
  delete-Tidy id ds o r d h =
      let (was, stays) =
        delete_from-Finds (is_mode_0 ds.world.ring) id ds.world.ring.buffer ds.world.owner r d h in
      elim (o r d was) [ inl z ↦ inl z | inr i ↦ inr (stays i) ]

  reset-Tidy :
      (reason : ResetReason) (ds : DataSource C F)
      → Tidy ds
      → Tidy (reset refs fs time config reason ds)
  unfolding reset Ring.reset notify_clear on_delete_callback delete_ref_mapping
  reset-Tidy reason ds o = elim (Bool-cases (is_empty ds.world.ring.buffer)) [
    | inl e ↦ rw e o
    | inr e ↦ rw e (λ r d h. cc (h, laws.find-clear r (references ds)))
  ]

  set_reference-Tidy :
      (r contents format : Str) (ds : DataSource C F)
      → Free (pos 0)
      → Tidy ds
      → Tidy (set_reference refs r contents format ds).1
  unfolding set_reference
  set_reference-Tidy r contents format ds z o =
      elim (Bool-cases (is_present (refs.find r (references ds)))) [
        | inl y ↦ rw y o
        | inr n ↦ rw n (λ s d h.
            elim (emplace_cases (refs.find s (references ds)) _ _ d
              (sym (laws.find-emplace s _ (references ds)) ∙ h)) [
                | inl e ↦ inl (subst Free (sym (ap (λ x. x.id) e)) z)
                | inr b ↦ o s d b
              ])
      ]

  lock-Tidy : (i : ℕ) (ds : DataSource C F) → Tidy ds → Tidy (lock_data i ds)
  unfolding lock_data lock
  lock-Tidy i ds o r d h = elim (o r d h) [
    | inl z ↦ inl z
    | inr e ↦ inr (has_id-lock_entry d.id i ds.world.ring.buffer ∙ e)
  ]

  pub new-Tidy : (files : F) (n : ℕ) → Tidy (new refs config files n)
  unfolding new
  new-Tidy files n r d h = cc (h, laws.find-empty r)

  pub Method-Tidy :
      {u v : DataSource C F} → Free (pos 0) → Method refs fs time config u v → Tidy u → Tidy v
  unfolding acknowledge_overflow acknowledge_reset
  Method-Tidy {u} z (deleted id) h = delete-Tidy id u h
  Method-Tidy {u} z (emptied reason) h = reset-Tidy reason u h
  Method-Tidy {u} z (referenced r contents format) h = set_reference-Tidy r contents format u z h
  Method-Tidy z overflow_acknowledged h = h
  Method-Tidy z reset_acknowledged h = h
  Method-Tidy {u} z (locked i) h = lock-Tidy i u h

module _ {C F : Type 0} (refs : ReferenceContainer C) (laws : ContainerLaws refs)
    (fs : FileSystem F) (time : ℕ → ℕ) (config : Config) where
  -- A call. `added` is one of `Add` behind the parser, in which the loop over the measurements has
  -- not thrown; its push may.
  pub data Step (ds : DataSource C F) : DataSource C F → Type 0 where
    added :
        (id : ℤ) (ms ms' : List Measurement)
        → (process_ref_mapping refs fs id ms ds).0 ≡ ok ms'
        → Step ds (add_parsed refs fs time config id ms ds).1
    called : {u : DataSource C F} → Method refs fs time config ds u → Step ds u

  pub data Reach (ds : DataSource C F) : DataSource C F → Type 0 where
    here : Reach ds ds
    next : {u v : DataSource C F} → Reach ds u → Step u v → Reach ds v

  added-Tidy :
      (id : ℤ) (ms ms' : List Measurement) (ds : DataSource C F)
      → (process_ref_mapping refs fs id ms ds).0 ≡ ok ms'
      → Tidy refs laws fs time config IsFree ds
      → Tidy refs laws fs time config IsFree (add_parsed refs fs time config id ms ds).1
  added-Tidy id ms ms' ds e o = elim (add_parsed-Owned refs laws fs time config id ms ds o) [
    | inl h ↦ h
    | inr (x, p, k) ↦ cc (e, p)
  ]

  Step-Tidy :
      {u v : DataSource C F}
      → Step u v
      → Tidy refs laws fs time config IsFree u
      → Tidy refs laws fs time config IsFree v
  Step-Tidy {u} (added id ms ms' e) h = added-Tidy id ms ms' u e h
  Step-Tidy (called m) h = Method-Tidy refs laws fs time config IsFree refl m h

  Reach-Tidy :
      {u v : DataSource C F}
      → Reach u v
      → Tidy refs laws fs time config IsFree u
      → Tidy refs laws fs time config IsFree v
  Reach-Tidy here h = h
  Reach-Tidy (next r s) h = Step-Tidy s (Reach-Tidy r h)

  -- From a new data source, calls of the methods and locks of entries in which no loop over
  -- measurements throws lead to a state in which each reference is free or has the id of an entry of
  -- the buffer.
  pub run-Owned :
      (files : F) (n : ℕ) {ds : DataSource C F}
      → Reach (new refs config files n) ds
      → Tidy refs laws fs time config IsFree ds
  run-Owned files n r = Reach-Tidy r (new-Tidy refs laws fs time config IsFree files n)
