-- ===== src/Source/Owned.antt =====
-- References and the entries that own them, src/data_source_internal.cpp: what the delete callback
-- does to the references while the ring buffer changes.
use qds_data_interface.Prelude.{
  ℕ, zero, suc, Bool, true, false, ◌||◌, Option, none, some, List, [], ◌∷◌, ◌++◌, ◌≡◌, inl, inr,
  refl, sym, ◌∙◌, arith, Bool-cases,
}
use qds_data_interface.Prelude.Int.{ℤ, ◌==ℤ◌, ==ℤ_iff}
use qds_data_interface.Prelude.Str.{Str}
use qds_data_interface.Types.{BufferEntry, ReferenceData}
use qds_data_interface.Ring.{
  OnDeleteCallback, World, notify, notify_now, replace, prepend, discarded,
}
use qds_data_interface.Ring.Discard.{discard_first, first_unlocked, without_unlocked, notify_each}
use qds_data_interface.Ring.Valid.{replace_locked, replace_unlocked, replace_miss}
use qds_data_interface.Ring.Push.{discarded_lem}
use qds_data_interface.Source.{
  ReferenceContainer, ContainerLaws, Mapping, Config, unless_id, delete_ref_mapping, note_deletion,
  on_delete_callback,
}

-- An entry of the list has the id.
unfoldable pub has_id : ℤ → List BufferEntry → Bool
has_id id [] = false
has_id id (e ∷ es) = (e.id ==ℤ id) || has_id id es

pub has_id-append_new :
    (es : List BufferEntry) (e : BufferEntry) (id : ℤ)
    → (e.id ==ℤ id) || has_id id es ≡ true
    → has_id id (es ++ e ∷ []) ≡ true
unfolding has_id
has_id-append_new [] e id h = ground arith
has_id-append_new (x ∷ es) e id h = ground (arith, has_id-append_new es e id)

has_id-unlocked :
    (k : ℕ) (es : List BufferEntry) (id : ℤ)
    → has_id id es ≡ true
    → has_id id (first_unlocked k es) ≡ false
    → has_id id (without_unlocked k es) ≡ true
unfolding has_id first_unlocked without_unlocked
has_id-unlocked zero es id h f = h
has_id-unlocked (suc k) [] id h f = h
has_id-unlocked (suc k) (e ∷ es) id h f =
    ground (arith, has_id-unlocked (suc k) es id, has_id-unlocked k es id)

pub survives :
    (id : ℤ) (o : Option ReferenceData) (d : ReferenceData)
    → unless_id id o ≡ some d
    → (o ≡ some d) × ((d.id ==ℤ id) ≡ false)
survives id none d h = cc
survives id (some x) d h = ground arith

module _ {C : Type 0} (refs : ReferenceContainer C) (laws : ContainerLaws refs) (config : Config)
    (time : ℕ → ℕ) where
  abbrev pub on_delete : Option (OnDeleteCallback (Mapping C))
  on_delete = some (on_delete_callback refs config)

  abbrev pub Finds : Mapping C → Str → ReferenceData → Type 0
  Finds m r d = refs.find r m.references ≡ some d

  -- A reference that is left by a call for an entry was there, under another id.
  pub called_once :
      (e : BufferEntry) (t : ℕ) (m : Mapping C) (r : Str) (d : ReferenceData)
      → Finds (on_delete_callback refs config (some e) false t m) r d
      → Finds m r d × ((d.id ==ℤ e.id) ≡ false)
  unfolding on_delete_callback delete_ref_mapping note_deletion
  called_once e t m r d h =
      survives e.id (refs.find r m.references) d (sym (laws.find-erase_id r e.id m.references) ∙ h)

  eq_comm : (a b : ℤ) → (a ==ℤ b) ≡ (b ==ℤ a)
  unfolding ◌==ℤ◌
  eq_comm a b = ground arith

  notify_each-Finds :
      (es : List BufferEntry) (n : ℕ) (m : Mapping C) (r : Str) (d : ReferenceData)
      → Finds (notify_each time on_delete es n m) r d
      → Finds m r d × (has_id d.id es ≡ false)
  unfolding notify_each notify_now has_id
  notify_each-Finds [] n m r d h = (h, refl)
  notify_each-Finds (e ∷ es) n m r d h =
      let (later, others) = notify_each-Finds es _ _ r d h in
      let (before, other) = called_once e (time n) m r d later in
      (before, ground (arith, others, other, eq_comm e.id d.id))

  -- A reference that the discarding loop leaves was there, and if its entry was in the buffer, that
  -- is left too.
  pub discarded-Finds :
      (w : World (Mapping C)) (r : Str) (d : ReferenceData)
      → Finds (discarded time on_delete w).owner r d
      → Finds w.owner r d
        × (has_id d.id w.ring.buffer ≡ true → has_id d.id (discarded time on_delete w).kept ≡ true)
  discarded-Finds w r d = rw discarded_lem (
      unfold discard_first in
      λ h.
        let (before, others) = notify_each-Finds _ _ w.owner r d h in
        (before, λ i. has_id-unlocked _ w.ring.buffer d.id i others))

  -- The same of the search of counter mode 1, but for the id that is to be stored anew.
  abbrev pub Kept :
      ℤ → List BufferEntry → Mapping C → Option (List BufferEntry × Mapping C) → Type 0
  Kept id es m none = Unit
  Kept id es m (some (es', m')) =
      ((r : Str) (d : ReferenceData) → Finds m' r d → Finds m r d)
      × ((i : ℤ) → (id ==ℤ i) ≡ false → has_id i es ≡ true → has_id i es' ≡ true)

  prepend-Kept :
      (id : ℤ) (e : BufferEntry) (es : List BufferEntry) (m : Mapping C)
      (o : Option (List BufferEntry × Mapping C))
      → Kept id es m o
      → Kept id (e ∷ es) m (prepend e o)
  unfolding has_id
  prepend-Kept id e es m none k = tt
  prepend-Kept id e es m (some (es', m')) k = (k.0, λ i n h. ground (arith, k.1 i n))

  pub replace-Kept :
      (id : ℤ) (es : List BufferEntry) (m : Mapping C)
      → Kept id es m (replace time on_delete id es m)
  replace-Kept id [] m = unfold replace in ((λ r d h. h), (λ i n h. h))
  replace-Kept id (e ∷ es) m = elim (Bool-cases (e.id ==ℤ id)) [
    | inl hit ↦ elim (Bool-cases e.locked) [
      | inl l ↦ rw (replace_locked time on_delete id e es m hit l) tt
      | inr u ↦ rw (replace_unlocked time on_delete id e es m hit u) (
        (λ r d h. (called_once e 0 m r d (unfold notify in h)).0),
        (λ i n h. unfold has_id in ground (arith, (==ℤ_iff e.id id).0 hit)),
      )
    ]
    | inr miss ↦
        rw (replace_miss time on_delete id e es m miss)
          (prepend-Kept id e es m _ (replace-Kept id es m))
  ]
