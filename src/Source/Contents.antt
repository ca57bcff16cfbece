-- ===== src/Source/Contents.antt =====
-- The content of a file that becomes a reference, and what `Reset` does to references,
-- src/data_source_internal.cpp.
use qds_data_interface.Prelude.{
  some, ◌≢◌, ℕ, true, false, none, ◌≡◌, ◌⊎◌, inl, inr, refl, ◌∙◌, ap, is_empty, Bool-cases,
}
use qds_data_interface.Prelude.Int.{ℤ}
use qds_data_interface.Prelude.Str.{Str}
use qds_data_interface.Exception.{Exception, Result, ok, thrown}
use qds_data_interface.Measurement.{Measurement}
use qds_data_interface.Types.{ReferenceData, ResetReason}
use qds_data_interface.Ring
use qds_data_interface.Ring.{notify_clear}
use qds_data_interface.Source.{
  ReferenceContainer, ContainerLaws, FileSystem, DataSource, Config, references, get_reference,
  ref_name, format_of, on_delete_callback, delete_ref_mapping,
}
use qds_data_interface.Source.Operations.{reset}
use qds_data_interface.Source.References.{looked_up, get_reference_lem}

module _ {C F : Type 0} (refs : ReferenceContainer C) (laws : ContainerLaws refs)
    (fs : FileSystem F) where
  -- A file's content as a reference.
  abbrev pub file_reference : ℤ → Str → Str → ℕ → ReferenceData
  file_reference id path content n = record {
    id = id;
    ref = ref_name n;
    format = format_of path;
    content = content;
  }

  -- What stands in the way of taking a file's content: it cannot be opened, is empty, or cannot be
  -- read or removed.
  abbrev pub Obstructed : Str → F → Type 0
  Obstructed path f =
      (fs.can_fopen path f ≡ false)
      ⊎ ((fs.can_open path f ≡ false)
          ⊎ ((fs.size path f ≡ 0)
              ⊎ ((fs.read path (fs.size path f) f ≡ none) ⊎ (fs.remove path f ≡ none))))

  -- The file was opened, and all of it read; then it was removed.
  abbrev pub Taken : Str → Str → F → F → Type 0
  Taken path content f f' =
      (fs.can_fopen path f ≡ true)
      × (fs.can_open path f ≡ true)
      × (fs.size path f ≢ 0)
      × (fs.read path (fs.size path f) f ≡ some content)
      × (fs.remove path f ≡ some f')

  abbrev Loaded : Str → F → Result Str × F → Type 0
  Loaded path f (thrown e, f') =
      (fs.can_open path f ≡ false)
      ⊎ ((fs.size path f ≡ 0)
          ⊎ ((fs.read path (fs.size path f) f ≡ none) ⊎ (fs.remove path f ≡ none)))
  Loaded path f (ok content, f') =
      (fs.can_open path f ≡ true)
      × (fs.size path f ≢ 0)
      × (fs.read path (fs.size path f) f ≡ some content)
      × (fs.remove path f ≡ some f')

  -- `Reset` leaves the data source's buffer, references and deletions as they are if the buffer is
  -- empty; else `GetReference` throws for every name afterwards.
  pub reset-get_reference :
      (time : ℕ → ℕ) (config : Config) (reason : ResetReason) (ds : DataSource C F)
      → ((is_empty ds.world.ring.buffer ≡ true)
          × ((reset refs fs time config reason ds).world ≡ ds.world))
        ⊎ ((is_empty ds.world.ring.buffer ≡ false)
            × ((r : Str)
                → get_reference refs r (reset refs fs time config reason ds) ≡ looked_up r none))
  unfolding reset Ring.reset notify_clear on_delete_callback delete_ref_mapping
  reset-get_reference time config reason ds = elim (Bool-cases (is_empty ds.world.ring.buffer)) [
    | inl e ↦ inl (e, rw e refl)
    | inr e ↦ inr (
      e,
      λ r.
          rw e (
            get_reference_lem refs laws r _ ∙ ap (looked_up r) (laws.find-clear r (references ds))),
    )
  ]
