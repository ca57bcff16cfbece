-- ===== src/Source/References.antt =====
-- `SetReference` and `GetReference`, and the names that `ProcessRefMapping` makes,
-- src/data_source_internal.cpp.
use mathlib.Core.List.{append_cancel_left}
use qds_data_interface.Prelude.{
  ℕ, Bool, true, false, Option, none, some, ◌++◌, ◌≡◌, ◌≢◌, ◌⊎◌, inl, inr, refl, sym, ◌∙◌, ap,
  arith, Bool-cases, Option-cases, if◌then◌else◌,
}
use qds_data_interface.Prelude.Int.{pos}
use qds_data_interface.Prelude.Str.{Str, str, ◌==s◌, ==s_iff, to_string}
use qds_data_interface.Prelude.Decimal.{to_string_injective}
use qds_data_interface.Exception.{Class, Exception, Result, ok, thrown}
use qds_data_interface.Types.{ReferenceData}
use qds_data_interface.Source.{
  ReferenceContainer, ContainerLaws, DataSource, references, is_present, ref_exception, ref_name,
  set_reference, get_reference,
}

-- Different numbers make different names of references.
pub ref_name_injective : (m n : ℕ) → m ≢ n → ref_name m ≢ ref_name n
unfolding ref_name
ref_name_injective m n d h =
    d (to_string_injective m n (append_cancel_left (str "ref-") (to_string m) (to_string n) h))

abbrev pub free_reference : Str → Str → Str → ReferenceData
free_reference r contents format = record {
  id = pos 0;
  ref = r;
  format = format;
  content = contents;
}

abbrev pub already_there : Str → Exception
already_there r =
    ref_exception (str "Reference " ++ r ++ str " exists already")
      (str "DataSourceInternal::SetRef")

-- What a lookup finds.
abbrev pub looked_up : Str → Option ReferenceData → Result ReferenceData
looked_up r (some d) = ok d
looked_up r none =
    thrown
      (ref_exception (str "Reference " ++ r ++ str " not found") (str "DataSourceInternal::GetRef"))

pub get_reference_cases :
    (r : Str) (o : Option ReferenceData) (b : Bool) (d : ReferenceData)
    → (b ≡ true → is_present o ≡ false)
    → looked_up r (if b then (if is_present o then o else some d) else o)
      ≡ (if b then ok d else looked_up r o)
get_reference_cases r none b d h = ground arith
get_reference_cases r (some x) b d h = ground arith

-- The class of what was thrown.
class_of : {A : Type 0} → Result A → Class
class_of (ok a) = Class.ref
class_of (thrown x) = x.class

looked_up-thrown :
    (r : Str) (o : Option ReferenceData) (x : Exception)
    → looked_up r o ≡ thrown x
    → x.class ≡ Class.ref
unfolding ref_exception class_of
looked_up-thrown r none x h = sym (ap class_of h)
looked_up-thrown r (some d) x h = cc h

present_if_found :
    (r : Str) (o : Option ReferenceData) (d : ReferenceData)
    → looked_up r o ≡ ok d
    → is_present o ≡ true
present_if_found r none d h = cc h
present_if_found r (some e) d h = refl

module _ {C F : Type 0} (refs : ReferenceContainer C) (laws : ContainerLaws refs) where
  pub get_reference_lem :
      (r : Str) (ds : DataSource C F)
      → get_reference refs r ds ≡ looked_up r (refs.find r (references ds))
  unfolding get_reference
  get_reference_lem r ds = elim (Option-cases (refs.find r (references ds))) [
    | inl e ↦ rw (e, get_reference) refl
    | inr (d, e) ↦ rw (e, get_reference) refl
  ]

  -- `SetReference` throws and changes nothing exactly if the name is there. Else `GetReference` of
  -- the name returns what was set, with id 0, and of any other name what it returned before.
  pub set_reference-get_reference :
      (r contents format : Str) (ds : DataSource C F)
      → ((is_present (refs.find r (references ds)) ≡ true)
          × (set_reference refs r contents format ds ≡ (thrown (already_there r), ds)))
        ⊎ ((is_present (refs.find r (references ds)) ≡ false)
            × ((set_reference refs r contents format ds).0 ≡ ok tt)
            × ((s : Str)
                → get_reference refs s (set_reference refs r contents format ds).1 ≡ (
                    if r ==s s
                    then ok (free_reference r contents format)
                    else get_reference refs s ds)))
  unfolding set_reference
  set_reference-get_reference r contents format ds =
      elim (Bool-cases (is_present (refs.find r (references ds)))) [
        | inl y ↦ inl (y, rw y refl)
        | inr n ↦ inr (
          n,
          rw n refl,
          λ s. rw n (
              get_reference_lem s _
              ∙ ap (looked_up s) (laws.find-emplace s _ (references ds))
              ∙ get_reference_cases s (refs.find s (references ds)) (r ==s s)
                  (free_reference r contents format) (λ q. rw (← (==s_iff r s).0 q) n)
              ∙ ap (λ g. if r ==s s then ok (free_reference r contents format) else g)
                  (sym (get_reference_lem s ds))),
        )
      ]

  pub get_reference-thrown :
      (r : Str) (x : Exception) (ds : DataSource C F)
      → get_reference refs r ds ≡ thrown x
      → x.class ≡ Class.ref
  get_reference-thrown r x ds h =
      looked_up-thrown r (refs.find r (references ds)) x (sym (get_reference_lem r ds) ∙ h)

  pub set_reference-found :
      (r contents format t : Str) (ds : DataSource C F)
      → (set_reference refs r contents format ds).0 ≡ ok tt
      → get_reference refs t (set_reference refs r contents format ds).1
        ≡ (if r ==s t then ok (free_reference r contents format) else get_reference refs t ds)
  set_reference-found r contents format t ds h =
      elim (set_reference-get_reference r contents format ds) [
        | inl (y, e) ↦ cc (ap (λ p. p.0) e, h)
        | inr (n, e, found) ↦ found t
      ]

  pub set_reference-thrown :
      (r contents format : Str) (x : Exception) (ds : DataSource C F)
      → (set_reference refs r contents format ds).0 ≡ thrown x
      → (x.class ≡ Class.ref) × ((set_reference refs r contents format ds).1 ≡ ds)
  unfolding ref_exception class_of
  set_reference-thrown r contents format x ds h =
      elim (set_reference-get_reference r contents format ds) [
        | inl (y, e) ↦ (ap class_of (sym h ∙ ap (λ p. p.0) e), ap (λ p. p.1) e)
        | inr (n, e, found) ↦ cc (e, h)
      ]

  pub set_reference-exists :
      (r contents format : Str) (d : ReferenceData) (ds : DataSource C F)
      → get_reference refs r ds ≡ ok d
      → (x : Exception) × ((set_reference refs r contents format ds).0 ≡ thrown x)
  set_reference-exists r contents format d ds h =
      elim (set_reference-get_reference r contents format ds) [
        | inl (y, e) ↦ (already_there r, ap (λ p. p.0) e)
        | inr (n, e, found) ↦ cc (n, present_if_found r _ d (sym (get_reference_lem r ds) ∙ h))
      ]
