-- ===== src/Source/Copied.antt =====
-- A data set that a consumer has written as JSON and that is added again: include/measurement.hpp,
-- src/parsing/json_parser.hpp, src/data_source_internal.cpp and src/ring_buffer.cpp together.
use qds_data_interface.Prelude.{
  ℕ, ◌≤◌, ◌<◌, true, false, none, List, [], ◌∷◌, ◌++◌, map, length, ◌≡◌, ◌⊎◌, inl, inr, sym, ◌∙◌,
  ap, subst, All, All-append, Bool-cases,
}
use qds_data_interface.Prelude.Int.{ℤ, pos}
use qds_data_interface.Prelude.Str.{Str}
use qds_data_interface.Exception.{Result, ok, ◌>>=◌}
use qds_data_interface.Measurement.{Measurement}
use qds_data_interface.Measurement.Json.{JsonObject, measurement_object, to_json}
use qds_data_interface.Parser.{BasicParser}
use qds_data_interface.Parser.Reading.{array_calls}
use qds_data_interface.Parser.RoundTrip.{IsTextual, arranged, is_timestamp_type, parse-to_json}
use qds_data_interface.Ring.{RingBuffer, is_mode_0, last_id_ge}
use qds_data_interface.Ring.Valid.{IsValid}
use qds_data_interface.Ring.Stored.{HoldsLocked}
use qds_data_interface.Ring.Progress.{push-IsStored}
use qds_data_interface.Source.{
  ReferenceContainer, ContainerLaws, FileSystem, DataSource, Config, is_ref,
}
use qds_data_interface.Source.Refs.{process_ref_mapping}
use qds_data_interface.Source.Operations.{
  add, add_parsed, parsed, push_or_forget, push_measurements, callback,
}
use qds_data_interface.Source.Settle.{push_or_forget_rule}
use qds_data_interface.Source.Mapped.{process_plain}
use qds_data_interface.Source.Added.{EndsWith, last_entry, push_or_forget-Last}

-- A buffer that can store a data set of the id.
pub record Accepts (id : ℤ) (r : RingBuffer) : Type 0 where
  pub valid : IsValid r
  pub room :
      (length r.buffer < r.max_size)
      ⊎ ((r.allow_overflow ≡ true) × (¬ All (λ e. e.locked ≡ true) r.buffer))
  pub greater : is_mode_0 r ≡ true → last_id_ge id r.buffer ≡ false
  pub unlocked : is_mode_0 r ≡ false → ¬ HoldsLocked id r.buffer

abbrev pub AllPlain : List Measurement → Type 0
AllPlain = All (λ d. is_ref d.type ≡ false)

pub arranged-AllPlain :
    (ms acc : List Measurement) → AllPlain acc → AllPlain ms → AllPlain (arranged acc ms)
unfolding arranged
arranged-AllPlain [] acc a h = a
arranged-AllPlain (d ∷ ms) acc a (n, h) = elim (Bool-cases (is_timestamp_type d.type)) [
  | inl y ↦ rw y (arranged-AllPlain ms (d ∷ acc) (n, a) h)
  | inr m ↦ rw m (arranged-AllPlain ms (acc ++ d ∷ []) (All-append _ acc (d ∷ []) a (n, tt)) h)
]

module _ {C F : Type 0} (refs : ReferenceContainer C) (laws : ContainerLaws refs)
    (fs : FileSystem F) (time : ℕ → ℕ) (config : Config) (id : ℤ) where
  -- The data set is stored as the last entry, and at most one other is discarded.
  abbrev pub Stores : List Measurement → Result ℤ × DataSource C F → Type 0
  Stores ms p =
      (n : ℕ) × (n ≤ 1)
      × (p.0 ≡ ok (pos n))
      × EndsWith refs laws fs time config id ms p.1.world.ring.buffer

  push_measurements-stored :
      (ms : List Measurement) (ds : DataSource C F)
      → Accepts id ds.world.ring
      → (n : ℕ) × (n ≤ 1) × ((push_measurements refs fs time config id ms ds).0 ≡ ok (pos n))
  unfolding push_measurements
  push_measurements-stored ms ds a =
      let (n, t, le, e, h) =
        push-IsStored time (callback refs fs time config) id ms ds.world a.valid a.room a.greater
          a.unlocked in
      (n, le, e)

  push_or_forget-stored :
      (ms : List Measurement) (n : ℕ) (ds : DataSource C F)
      → (push_measurements refs fs time config id ms ds).0 ≡ ok (pos n)
      → (push_or_forget refs fs time config id ms ds).0 ≡ ok (pos n)
  push_or_forget-stored ms n ds h =
      push_or_forget_rule refs fs time config id (λ p. p.0 ≡ ok (pos n)) (λ p. p.0 ≡ ok (pos n))
        (λ m ds' e. e) (λ m ds' e. cc e) (λ x ds' e. cc e) ms ds h

  push_or_forget-Stores :
      (ms : List Measurement) (ds : DataSource C F)
      → Accepts id ds.world.ring
      → Stores ms (push_or_forget refs fs time config id ms ds)
  push_or_forget-Stores ms ds a =
      let (n, le, e) = push_measurements-stored ms ds a in
      let stored = push_or_forget-stored ms n ds e in
      (
        n,
        le,
        stored,
        last_entry refs laws fs time config id ms n (push_or_forget refs fs time config id ms ds)
            (push_or_forget-Last refs laws fs time config id ms ds) stored,
      )

  add_parsed-Stores :
      (ms : List Measurement) (ds : DataSource C F)
      → AllPlain ms
      → Accepts id ds.world.ring
      → Stores ms (add_parsed refs fs time config id ms ds)
  unfolding add_parsed
  add_parsed-Stores ms ds plain a =
      let e : process_ref_mapping refs fs id ms ds ≡ (ok ms, ds) =
        process_plain refs fs id ms ds plain in
      rw (ap (λ r. r.0) e, add_parsed, ◌>>=◌)
        (subst (λ u. Stores ms (push_or_forget refs fs time config id ms u)) (sym (ap (λ r. r.1) e))
          (push_or_forget-Stores ms ds a))

  -- What `ToJson` writes of complete measurements whose values are texts, none of them a reference,
  -- `Add` stores as the last entry of the buffer, each timestamp moved to the front, and returns 0 or
  -- 1, if the parser hands out the keys and texts of the document whole and consumes it without an
  -- error. The buffer has to be valid and to have room, or to be allowed to overflow with an entry
  -- that is not locked; in counter mode 0 the id has to be greater than the last one, and in counter
  -- mode 1 no locked entry may have it.
  pub add-to_json :
      (serialize : List JsonObject → Str) (p : BasicParser) (ms : List Measurement)
      (ds : DataSource C F)
      → All IsTextual ms
      → AllPlain ms
      → p.calls (to_json serialize ms) ≡ array_calls (map measurement_object ms)
      → p.ending (to_json serialize ms) (length (p.calls (to_json serialize ms)))
        ≡ (length (to_json serialize ms), none)
      → Accepts id ds.world.ring
      → Stores (arranged [] ms) (add refs fs time config p id (to_json serialize ms) ds)
  unfolding add parsed
  add-to_json serialize p ms ds textual plain calls whole a =
      let (st, e, order) = parse-to_json serialize p ms textual calls whole in
      rw (ap (λ r. r.0) e, add)
        (subst (λ l. Stores (arranged [] ms) (add_parsed refs fs time config id l ds))
          (sym (ap (λ r. parsed r.1) e ∙ order))
          (add_parsed-Stores (arranged [] ms) ds (arranged-AllPlain ms [] tt plain) a))
