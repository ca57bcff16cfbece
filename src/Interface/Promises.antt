-- ===== src/Interface/Promises.antt =====
-- Promises of the methods of include/i_data_source_in.hpp and include/i_data_source_out.hpp, after the
-- comments there, and what a client that knows no more can rely on. Of the comments three are no
-- promises here: in counter mode 1, that `Add` returns the number of deleted data; that `Delete` throws;
-- and what makes an overflow, beyond that the list of deletions is not empty.
use mathlib.Core.Bool.{or-true}
use qds_data_interface.Prelude.{
  ◌||◌, All, All-imp, Bool-cases, inl, inr, ℕ, ◌≤◌, Bool, true, false, not, List, [], ◌∷◌, map, ◌≡◌,
  refl, ◌∙◌, ap, length, is_empty, ◌+◌, back, some, if◌then◌else◌,
}
use qds_data_interface.Prelude.Int.{ℤ, pos, ◌==ℤ◌, ==ℤ_iff}
use qds_data_interface.Prelude.Str.{Str, ◌==s◌}
use qds_data_interface.Exception.{Exception, ref, ok, thrown}
use qds_data_interface.Types.{BufferEntry, ReferenceData, ResetReason}
use qds_data_interface.Interface.{IDataSourceOut, IDataSourceInOut}

-- The entries of other ids, in their order.
unfoldable pub without_id : ℤ → List BufferEntry → List BufferEntry
without_id id [] = []
without_id id (e ∷ es) = elim (e.id ==ℤ id) [
  | true ↦ without_id id es
  | false ↦ e ∷ without_id id es
]

-- The promises, for the states that `IsGood` holds of.
pub record Promises {S : Type 0} (i : IDataSourceInOut S) (IsGood : S → Type 0) : Type 0 where
  -- Every method keeps the state good, a throw included.
  pub add-IsGood : (id : ℤ) (json : Str) (s : S) → IsGood s → IsGood (i.input.add id json s).1
  pub set_reference-IsGood :
      (r contents format : Str) (s : S)
      → IsGood s
      → IsGood (i.input.set_reference r contents format s).1
  pub reset-IsGood : (reason : ResetReason) (s : S) → IsGood s → IsGood (i.input.reset reason s)
  pub delete-IsGood : (id : ℤ) (s : S) → IsGood s → IsGood (i.output.delete id s)
  pub lock_entry-IsGood : (n : ℕ) (s : S) → IsGood s → IsGood (i.output.lock_entry n s)
  pub acknowledge_reset-IsGood : (s : S) → IsGood s → IsGood (i.output.acknowledge_reset s).1
  pub acknowledge_overflow-IsGood : (s : S) → IsGood s → IsGood (i.output.acknowledge_overflow s).1
  -- The number of elements is that of the entries, and within the size of the buffer.
  pub size-entries : (s : S) → i.input.shared.get_size s ≡ length (i.output.entries s)
  pub size-le : (s : S) → IsGood s → i.input.shared.get_size s ≤ i.input.shared.get_max_size s
  -- The last id is that of the last entry.
  pub last_id-entries :
      (e : BufferEntry) (s : S)
      → back (i.output.entries s) ≡ some e
      → i.input.shared.get_last_id s ≡ e.id
  -- In counter mode 0, `Add` returns the number of deleted data, or a negative number.
  pub add-count :
      (id : ℤ) (json : Str) (n : ℕ) (s : S)
      → i.input.shared.get_counter_mode s ≡ pos 0
      → (i.input.add id json s).0 ≡ ok (pos n)
      → i.input.shared.get_size (i.input.add id json s).1 + n ≡ i.input.shared.get_size s + 1
  -- A data set that is added is the last one.
  pub add-last_id :
      (id : ℤ) (json : Str) (n : ℕ) (s : S)
      → (i.input.add id json s).0 ≡ ok (pos n)
      → i.input.shared.get_last_id (i.input.add id json s).1 ≡ id
  -- A reference that is set is found, of no data set so far, and the others are as they were.
  pub set_reference-get_reference :
      (r contents format t : Str) (s : S)
      → (i.input.set_reference r contents format s).0 ≡ ok tt
      → i.output.get_reference t (i.input.set_reference r contents format s).1 ≡ (
          if r ==s t
          then ok (record { id = pos 0; ref = r; format = format; content = contents })
          else i.output.get_reference t s)
  -- `SetReference` throws where the name is found, a RefException, and changes nothing then.
  pub set_reference-exists :
      (r contents format : Str) (d : ReferenceData) (s : S)
      → i.output.get_reference r s ≡ ok d
      → (x : Exception) × ((i.input.set_reference r contents format s).0 ≡ thrown x)
  pub set_reference-thrown :
      (r contents format : Str) (x : Exception) (s : S)
      → (i.input.set_reference r contents format s).0 ≡ thrown x
      → (x.class ≡ ref) × ((i.input.set_reference r contents format s).1 ≡ s)
  pub set_reference-entries :
      (r contents format : Str) (s : S)
      → i.output.entries (i.input.set_reference r contents format s).1 ≡ i.output.entries s
  -- `GetReference` throws nothing but a RefException.
  pub get_reference-thrown :
      (r : Str) (x : Exception) (s : S) → i.output.get_reference r s ≡ thrown x → x.class ≡ ref
  -- `Reset` deletes all data.
  pub reset-entries :
      (reason : ResetReason) (s : S) → i.output.entries (i.input.reset reason s) ≡ []
  -- `Delete` takes out the data set of the id, and nothing else.
  pub delete-entries :
      (id : ℤ) (s : S)
      → IsGood s
      → i.output.entries (i.output.delete id s) ≡ without_id id (i.output.entries s)
  -- An acknowledgement clears what it returns, and leaves the entries.
  pub acknowledge_reset-is_reset :
      (s : S) → i.output.is_reset (i.output.acknowledge_reset s).1 ≡ false
  pub is_reset-acknowledge_reset :
      (s : S) → i.output.is_reset s ≡ not (is_empty (i.output.acknowledge_reset s).0.list)
  pub acknowledge_overflow-is_overflown :
      (s : S) → i.output.is_overflown (i.output.acknowledge_overflow s).1 ≡ false
  pub is_overflown-acknowledge_overflow :
      (s : S) → i.output.is_overflown s ≡ not (is_empty (i.output.acknowledge_overflow s).0.list)
  pub acknowledge_reset-entries :
      (s : S) → i.output.entries (i.output.acknowledge_reset s).1 ≡ i.output.entries s
  pub acknowledge_overflow-entries :
      (s : S) → i.output.entries (i.output.acknowledge_overflow s).1 ≡ i.output.entries s

-- A consumer that deletes the data sets of these ids, one after the other.
unfoldable pub delete_each : {S : Type 0} → IDataSourceOut S → List ℤ → S → S
delete_each o [] s = s
delete_each o (id ∷ ids) s = delete_each o ids (o.delete id s)

unfoldable pub without_each : List ℤ → List BufferEntry → List BufferEntry
without_each [] es = es
without_each (id ∷ ids) es = without_each ids (without_id id es)

-- A consumer that reads all entries and deletes each.
unfoldable pub consume : {S : Type 0} → IDataSourceOut S → S → S
consume o s = delete_each o (map (λ e. e.id) (o.entries s)) s

unfoldable listed : ℤ → List ℤ → Bool
listed id [] = false
listed id (j ∷ ids) = (id ==ℤ j) || listed id ids

abbrev AllListed : List ℤ → List BufferEntry → Type 0
AllListed ids = All (λ e. listed e.id ids ≡ true)

AllListed-cons :
    (id : ℤ) (ids : List ℤ) (es : List BufferEntry) → AllListed ids es → AllListed (id ∷ ids) es
AllListed-cons id ids = All-imp _ _ (λ e h. unfold listed in rw h (or-true _))

AllListed-map : (es : List BufferEntry) → AllListed (map (λ e. e.id) es) es
AllListed-map [] = tt
AllListed-map (e ∷ es) = (
  unfold listed in rw ((==ℤ_iff e.id e.id).1 refl) refl,
  AllListed-cons e.id _ es (AllListed-map es),
)

AllListed-without_id :
    (id : ℤ) (ids : List ℤ) (es : List BufferEntry)
    → AllListed (id ∷ ids) es
    → AllListed ids (without_id id es)
unfolding without_id listed
AllListed-without_id id ids [] h = tt
AllListed-without_id id ids (e ∷ es) (h, k) = elim (Bool-cases (e.id ==ℤ id)) [
  | inl y ↦ rw (y, without_id) (AllListed-without_id id ids es k)
  | inr n ↦ rw (n, without_id) (rw n at h, AllListed-without_id id ids es k)
]

without_each-AllListed :
    (ids : List ℤ) (es : List BufferEntry) → AllListed ids es → without_each ids es ≡ []
unfolding without_each listed
without_each-AllListed [] [] h = refl
without_each-AllListed [] (e ∷ es) h = cc (h.0)
without_each-AllListed (id ∷ ids) es h =
    without_each-AllListed ids (without_id id es) (AllListed-without_id id ids es h)

module _ {S : Type 0} (i : IDataSourceInOut S) (IsGood : S → Type 0) (p : Promises i IsGood) where
  delete_each-entries :
      (ids : List ℤ) (s : S)
      → IsGood s
      → i.output.entries (delete_each i.output ids s) ≡ without_each ids (i.output.entries s)
  unfolding delete_each without_each
  delete_each-entries [] s g = refl
  delete_each-entries (id ∷ ids) s g =
      delete_each-entries ids (i.output.delete id s) (p.delete-IsGood id s g)
      ∙ ap (without_each ids) (p.delete-entries id s g)

  -- Over any data source that keeps the promises, a consumer that reads the entries and deletes each
  -- by its id leaves the buffer empty.
  pub consume-entries : (s : S) → IsGood s → i.output.entries (consume i.output s) ≡ []
  unfolding consume
  consume-entries s g =
      delete_each-entries _ s g
      ∙ without_each-AllListed _ (i.output.entries s) (AllListed-map (i.output.entries s))
