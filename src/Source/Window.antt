-- ===== src/Source/Window.antt =====
-- Any number of calls of `Add` and what a consumer reads then: src/data_source_internal.cpp,
-- src/parsing/json_parser.hpp, src/parsing/data_validator.cpp and src/ring_buffer.cpp together.
use qds_data_interface.Prelude.{
  ℕ, none, List, [], ◌∷◌, ◌++◌, map, length, ◌≡◌, refl, sym, ◌∙◌, ap, subst, All,
}
use qds_data_interface.Prelude.Int.{ℤ}
use qds_data_interface.Prelude.Str.{Str}
use qds_data_interface.Exception.{ok, ◌>>=◌}
use qds_data_interface.Measurement.{Measurement}
use qds_data_interface.Measurement.Json.{JsonObject, measurement_object, to_json}
use qds_data_interface.Parser.{BasicParser}
use qds_data_interface.Parser.Reading.{array_calls}
use qds_data_interface.Parser.RoundTrip.{IsTextual, arranged, parse-to_json}
use qds_data_interface.Ring
use qds_data_interface.Ring.{RingBuffer}
use qds_data_interface.Ring.Window.{DataSet, content, recent, Accepts}
use qds_data_interface.Ring.Window.Pushes.{Shifted, push-Shifted, Shifted-recent, none-recent}
use qds_data_interface.Source.{ReferenceContainer, FileSystem, DataSource, Config}
use qds_data_interface.Source.Refs.{process_ref_mapping}
use qds_data_interface.Source.Operations.{
  add, add_parsed, parsed, push_or_forget, push_measurements, forget_references, callback,
}
use qds_data_interface.Source.Settle.{push_or_forget_rule}
use qds_data_interface.Source.Mapped.{process_plain}
use qds_data_interface.Source.Copied.{AllPlain, arranged-AllPlain}

-- What is stored of a data set: its timestamps stand in front.
abbrev pub as_stored : DataSet → DataSet
as_stored d = (d.0, arranged [] d.1)

module _ (p : BasicParser) (serialize : List JsonObject → Str) where
  -- Complete measurements whose values are texts, none of them a reference, and whose document the
  -- parser hands out whole and consumes without an error.
  pub record IsReadable (ms : List Measurement) : Type 0 where
    pub textual : All IsTextual ms
    pub plain : AllPlain ms
    pub calls : p.calls (to_json serialize ms) ≡ array_calls (map measurement_object ms)
    pub whole :
        p.ending (to_json serialize ms) (length (p.calls (to_json serialize ms)))
        ≡ (length (to_json serialize ms), none)

  module _ {C F : Type 0} (refs : ReferenceContainer C) (fs : FileSystem F) (time : ℕ → ℕ)
      (config : Config) where
    -- Calls of `Add` with what `ToJson` writes of these data sets, one after the other.
    abbrev pub adds : List DataSet → DataSource C F → DataSource C F
    adds [] ds = ds
    adds (d ∷ docs) ds = adds docs (add refs fs time config p d.0 (to_json serialize d.1) ds).1

    -- The handler of `Add` leaves the world of the ring buffer alone but for the references.
    push_or_forget-ring :
        (id : ℤ) (ms : List Measurement) (ds : DataSource C F)
        → (push_or_forget refs fs time config id ms ds).1.world.ring
          ≡ (Ring.push time (callback refs fs time config) id ms ds.world).1.ring
    unfolding push_measurements forget_references
    push_or_forget-ring id ms ds =
        push_or_forget_rule refs fs time config id (λ q. q.1.world.ring ≡ pushed)
          (λ q. q.1.world.ring ≡ pushed) (λ n ds' h. h) (λ n ds' h. h) (λ e ds' h. h) ms ds refl
      where
        pushed : RingBuffer
        pushed = (Ring.push time (callback refs fs time config) id ms ds.world).1.ring

    add_parsed-plain :
        (id : ℤ) (ms : List Measurement) (ds : DataSource C F)
        → AllPlain ms
        → add_parsed refs fs time config id ms ds ≡ push_or_forget refs fs time config id ms ds
    unfolding add_parsed
    add_parsed-plain id ms ds plain =
        let e : process_ref_mapping refs fs id ms ds ≡ (ok ms, ds) =
          process_plain refs fs id ms ds plain in
        rw (ap (λ r. r.0) e, add_parsed, ◌>>=◌)
          (ap (push_or_forget refs fs time config id ms) (ap (λ r. r.1) e))

    add-readable :
        (id : ℤ) (ms : List Measurement) (ds : DataSource C F)
        → IsReadable ms
        → add refs fs time config p id (to_json serialize ms) ds
          ≡ push_or_forget refs fs time config id (arranged [] ms) ds
    unfolding add parsed
    add-readable id ms ds r =
        let (st, e, order) = parse-to_json serialize p ms r.textual r.calls r.whole in
        rw (ap (λ r. r.0) e, add)
          (ap (λ l. add_parsed refs fs time config id l ds) (ap (λ r. parsed r.1) e ∙ order)
            ∙ add_parsed-plain id (arranged [] ms) ds (arranged-AllPlain ms [] tt r.plain))

    add-Shifted :
        (d : DataSet) (docs : List DataSet) (ds : DataSource C F)
        → IsReadable d.1
        → Accepts (as_stored d ∷ docs) ds.world.ring
        → Shifted time
            (as_stored d)
            ds.world.ring
            (add refs fs time config p d.0 (to_json serialize d.1) ds).1.world.ring
    add-Shifted (id, ms) docs ds r a =
        subst (Shifted time (as_stored (id, ms)) ds.world.ring)
          (sym (push_or_forget-ring id (arranged [] ms) ds)
            ∙ sym (ap (λ q. q.1.world.ring) (add-readable id ms ds r)))
          (push-Shifted time (callback refs fs time config) (as_stored (id, ms)) docs ds.world a)

    -- However many data sets are written by `ToJson` and added, with fresh ids (in counter mode 0
    -- greater and greater ones), a consumer finds the last ones of what the buffer held and what was
    -- added, in this order, as many as the buffer's size allows. The buffer may overflow, nothing in
    -- it is locked, the measurements are complete, their values are texts and none of them is a
    -- reference, and the parser hands out each document whole and consumes it without an error.
    pub adds-recent :
        (docs : List DataSet) (ds : DataSource C F)
        → All (λ d. IsReadable d.1) docs
        → Accepts (map as_stored docs) ds.world.ring
        → map content (adds docs ds).world.ring.buffer
          ≡ recent ds.world.ring.max_size (map content ds.world.ring.buffer ++ map as_stored docs)
    adds-recent [] ds r a = none-recent ds.world.ring a
    adds-recent (d ∷ docs) ds (r, rs) a =
        let (b, e) =
          Shifted-recent time (as_stored d) (map as_stored docs) ds.world.ring _ a
            (add-Shifted d (map as_stored docs) ds r a) in
        adds-recent docs (add refs fs time config p d.0 (to_json serialize d.1) ds).1 rs b ∙ e
