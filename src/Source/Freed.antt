-- ===== src/Source/Freed.antt =====
-- The references of a data set that is deleted, src/data_source_internal.cpp.
use qds_data_interface.Prelude.{
  ℕ, true, false, List, [], ◌∷◌, ◌≡◌, inl, inr, subst, arith, Bool-cases,
}
use qds_data_interface.Prelude.Int.{ℤ, ◌==ℤ◌, ==ℤ_iff}
use qds_data_interface.Prelude.Str.{Str}
use qds_data_interface.Types.{BufferEntry, ReferenceData}
use qds_data_interface.Ring
use qds_data_interface.Ring.{delete_from, notify, is_mode_0}
use qds_data_interface.Ring.Valid.{IsValid}
use qds_data_interface.Ring.Run.{delete-eq-plain}
use qds_data_interface.Source.{
  ReferenceContainer, ContainerLaws, FileSystem, DataSource, Mapping, Config,
}
use qds_data_interface.Source.Operations.{delete}
use qds_data_interface.Source.Owned.{has_id, on_delete, Finds, called_once}
use qds_data_interface.Source.Failures.{NoReference}

module _ {C F : Type 0} (refs : ReferenceContainer C) (laws : ContainerLaws refs)
    (fs : FileSystem F) (time : ℕ → ℕ) (config : Config) where
  delete_from-Finds_none :
      (id : ℤ) (es : List BufferEntry) (m : Mapping C) (r : Str) (d : ReferenceData)
      → has_id id es ≡ true
      → Finds refs laws config time
          (delete_from time (on_delete refs laws config time) false id es m).1
          r
          d
      → (d.id ==ℤ id) ≡ false
  unfolding delete_from has_id notify
  delete_from-Finds_none id [] m r d = λ h f. cc h
  delete_from-Finds_none id (e ∷ es) m r d = elim (Bool-cases (e.id ==ℤ id)) [
    | inl hit ↦ rw hit (λ h f.
        let (before, other) = called_once refs laws config time e 0 m r d f in
        ground (arith, other, hit, ==ℤ_iff e.id id, ==ℤ_iff d.id id, ==ℤ_iff e.id d.id))
    | inr miss ↦ rw miss (λ h f. delete_from-Finds_none id es m r d h f)
  ]

  -- After `Delete` of an id that an entry of a valid buffer has, no reference has that id.
  pub delete-NoReference :
      (id : ℤ) (ds : DataSource C F)
      → IsValid ds.world.ring
      → has_id id ds.world.ring.buffer ≡ true
      → NoReference refs laws fs time config id (delete refs fs time config id ds).world
  unfolding delete Ring.delete
  delete-NoReference id ds v i r d h =
      delete_from-Finds_none id ds.world.ring.buffer ds.world.owner r d i (
        subst (λ p. Finds refs laws config time p.1 r d)
          (delete-eq-plain time (on_delete refs laws config time) id ds.world v) h)
