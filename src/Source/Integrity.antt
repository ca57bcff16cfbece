-- ===== src/Source/Integrity.antt =====
-- References in use and the entries of the buffer: the push of `Add` and what `Add` does where it is
-- rejected, src/data_source_internal.cpp.
use qds_data_interface.Prelude.{
  ℕ, true, false, some, List, ◌≡◌, ◌⊎◌, inl, inr, refl, sym, ◌∙◌, subst, Bool-cases,
}
use mathlib.Core.Bool.{or-true}
use qds_data_interface.Prelude.Int.{ℤ, pos, negsuc, ◌==ℤ◌, ==ℤ_iff}
use qds_data_interface.Prelude.Str.{Str}
use qds_data_interface.Exception.{Result, ok, thrown}
use qds_data_interface.Measurement.{Measurement}
use qds_data_interface.Types.{BufferEntry, ReferenceData}
use qds_data_interface.Ring
use qds_data_interface.Ring.{
  World, after_discard, discarded, push_back, is_mode_0, replace, last_id_ge, insert,
}
use qds_data_interface.Ring.Push.{insert_cases, push_cases}
use qds_data_interface.Source.{
  ReferenceContainer, ContainerLaws, FileSystem, DataSource, Mapping, Config, delete_ref_mapping,
}
use qds_data_interface.Source.Operations.{push_or_forget, push_measurements, forget_references}
use qds_data_interface.Source.Owned.{
  has_id, has_id-append_new, survives, on_delete, discarded-Finds, Kept, replace-Kept,
}
use qds_data_interface.Source.Settle.{push_or_forget_rule}

module _ {C F : Type 0} (refs : ReferenceContainer C) (laws : ContainerLaws refs)
    (fs : FileSystem F) (time : ℕ → ℕ) (config : Config) (Free : ℤ → Type 0) where
  -- Each reference is free (the id 0 is), or its id is that of an entry.
  abbrev pub Owned : World (Mapping C) → Type 0
  Owned w =
      (r : Str) (d : ReferenceData)
      → refs.find r w.owner.references ≡ some d
      → Free d.id ⊎ (has_id d.id w.ring.buffer ≡ true)

  -- The same, but for the references of one id.
  abbrev pub OwnedBut : ℤ → World (Mapping C) → Type 0
  OwnedBut id w =
      (r : Str) (d : ReferenceData)
      → refs.find r w.owner.references ≡ some d
      → (d.id ≡ id) ⊎ (Free d.id ⊎ (has_id d.id w.ring.buffer ≡ true))

  discarded-OwnedBut :
      (id : ℤ) (w : World (Mapping C))
      → OwnedBut id w
      → OwnedBut id (after_discard time (on_delete refs laws config time) w)
  discarded-OwnedBut id w o r d h =
      let (before, kept) = discarded-Finds refs laws config time w r d h in
      elim (o r d before) [
        | inl e ↦ inl e
        | inr (inl z) ↦ inr (inl z)
        | inr (inr i) ↦ inr (inr (kept i))
      ]

  -- After a push that stores, the id has an entry.
  abbrev pub Stored : ℤ → Result ℤ × World (Mapping C) → Type 0
  Stored id (ok (pos n), w) = Owned w
  Stored id (ok (negsuc n), w) = OwnedBut id w
  Stored id (thrown e, w) = OwnedBut id w

  push_back-Owned :
      (id : ℤ) (ms : List Measurement) (w : World (Mapping C))
      → OwnedBut id w
      → Owned (push_back time id ms w)
  unfolding push_back
  push_back-Owned id ms w o r d h = elim (o r d h) [
    | inl e ↦ inr (has_id-append_new w.ring.buffer _ d.id (rw ((==ℤ_iff id d.id).1 (sym e)) refl))
    | inr (inl z) ↦ inl z
    | inr (inr i) ↦ inr (has_id-append_new w.ring.buffer _ d.id (rw i (or-true _)))
  ]

  insert-Stored :
      (id : ℤ) (ms : List Measurement) (n : ℕ) (w : World (Mapping C))
      → OwnedBut id w
      → Stored id (insert time (on_delete refs laws config time) id ms n w)
  insert-Stored id ms n w o =
      insert_cases time (on_delete refs laws config time) (Stored id) id ms n w (λ _ _. o)
        (λ _ _. push_back-Owned id ms w o) (λ _ _. o)
        (λ _ es m e.
          push_back-Owned id ms (record w { ring = record w.ring { buffer = es }; owner = m })
            (replaced es m e))
    where
      replaced :
          (es : List BufferEntry) (m : Mapping C)
          → replace time (on_delete refs laws config time) id w.ring.buffer w.owner ≡ some (es, m)
          → OwnedBut id (record w { ring = record w.ring { buffer = es }; owner = m })
      replaced es m e r d h =
          let (was, stays) : Kept refs laws config time id w.ring.buffer w.owner (some (es, m)) =
            subst (Kept refs laws config time id w.ring.buffer w.owner) e
              (replace-Kept refs laws config time id w.ring.buffer w.owner) in
          elim (Bool-cases (id ==ℤ d.id)) [
            | inl y ↦ inl (sym ((==ℤ_iff id d.id).0 y))
            | inr n ↦ elim (o r d (was r d h)) [
              | inl y ↦ inl y
              | inr (inl z) ↦ inr (inl z)
              | inr (inr i) ↦ inr (inr (stays d.id n i))
            ]
          ]

  pub push-Stored :
      (id : ℤ) (ms : List Measurement) (w : World (Mapping C))
      → OwnedBut id w
      → Stored id (Ring.push time (on_delete refs laws config time) id ms w)
  push-Stored id ms w o =
      push_cases time (on_delete refs laws config time) (Stored id) id ms w (λ _ _. o)
        (λ _ _ _. discarded-OwnedBut id w o)
        (λ _ _ _. insert-Stored id ms _ _ (discarded-OwnedBut id w o))
        (λ _. insert-Stored id ms 0 w o)

  pub forget-Owned :
      (id : ℤ) (w : World (Mapping C))
      → OwnedBut id w
      → Owned (record w { owner = delete_ref_mapping refs id false w.owner })
  unfolding delete_ref_mapping
  forget-Owned id w o r d h =
      let (before, other) =
        survives id (refs.find r w.owner.references) d
          (sym (laws.find-erase_id r id w.owner.references) ∙ h) in
      elim (o r d before) [ inl e ↦ cc (other, (==ℤ_iff d.id id).1 e) | inr k ↦ k ]

  -- Whatever becomes of the push, `Add` leaves no reference without an entry: where nothing is
  -- stored, the references of its id are forgotten.
  pub push_or_forget-Owned :
      (id : ℤ) (ms : List Measurement) (ds : DataSource C F)
      → OwnedBut id ds.world
      → Owned (push_or_forget refs fs time config id ms ds).1.world
  unfolding push_measurements forget_references
  push_or_forget-Owned id ms ds o =
      push_or_forget_rule refs fs time config id (λ p. Stored id (p.0, p.1.world))
        (λ p. Owned p.1.world) (λ n ds' h. h) (λ n ds' h. forget-Owned id ds'.world h)
        (λ e ds' h. forget-Owned id ds'.world h) ms ds (push-Stored id ms ds.world o)
