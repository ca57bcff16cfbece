-- ===== src/Source/Sequential.antt =====
-- A call of `Add` that runs alone, src/data_source_internal.cpp, as steps of the calls under way.
use qds_data_interface.Prelude.{
  ℕ, Bool, true, false, List, [], ◌∷◌, ◌++◌, ◌≡◌, inl, inr, refl, sym, ◌∙◌, ap, subst, Bool-cases,
}
use mathlib.Core.List.{append_assoc, append-nil}
use qds_data_interface.Prelude.Int.{ℤ}
use qds_data_interface.Exception.{Result, ok, thrown, ◌>>=◌, Result-cases}
use qds_data_interface.Measurement.{Measurement}
use qds_data_interface.Source.{ReferenceContainer, FileSystem, DataSource, Config}
use qds_data_interface.Source.Refs.{process_measurement, process_ref_mapping, prepend_measurement}
use qds_data_interface.Source.Operations.{add_parsed, push_or_forget}
use qds_data_interface.Source.Settle.{push_or_forget_rule}
use qds_data_interface.Source.Threads.{
  Task, processing, pushing, abandoned, failed, next_round, after_push, System, system, advanced,
  begun, processed, finished, pushed, forgotten, Reach, here, next,
}

module _ {C F : Type 0} (refs : ReferenceContainer C) (fs : FileSystem F) (time : ℕ → ℕ)
    (config : Config) (id : ℤ) where
  abbrev pub Runs : System C F → System C F → Type 0
  Runs = Reach refs fs time config

  pub trans_Runs : (s u v : System C F) → Runs s u → Runs u v → Runs s v
  trans_Runs s u v r here = r
  trans_Runs s u v r (next q t) = next (trans_Runs s u _ r q) t

  round_Runs :
      (d d' : Measurement) (ms done : List Measurement) (goes_on : Bool) (ds : DataSource C F)
      (ts : List Task)
      → (process_measurement refs fs id d d.value ds).0 ≡ ok (goes_on, d')
      → Runs (system ds (processing id done (d ∷ ms) ∷ ts)) (
          system
            (process_measurement refs fs id d d.value ds).1
            (next_round goes_on id done d' ms ∷ ts))
  round_Runs d d' ms done goes_on ds ts e =
      next here (advanced (processed id done ms d d' goes_on [] ts refl e))

  -- The task after the loop, which has done some measurements before.
  abbrev loop_end : List Measurement → Result (List Measurement) → Task
  loop_end done (ok ms) = pushing id (done ++ ms)
  loop_end done (thrown e) = abandoned id

  prepend_Runs :
      (done : List Measurement) (d : Measurement) (p : Result (List Measurement) × DataSource C F)
      (ts : List Task) (s : System C F)
      → Runs s (system p.1 (loop_end (done ++ d ∷ []) p.0 ∷ ts))
      → Runs s (
          system
            (prepend_measurement refs fs d p).1
            (loop_end done (prepend_measurement refs fs d p).0 ∷ ts))
  prepend_Runs done d (ok rest, ds) ts s run =
      subst (λ r. Runs s (system ds (pushing id r ∷ ts))) (append_assoc done (d ∷ []) rest) run
  prepend_Runs done d (thrown e, ds) ts s run = run

  -- The loop over the measurements, from where a task stands in it.
  process-Runs :
      (ms done : List Measurement) (ds : DataSource C F) (ts : List Task)
      → Runs (system ds (processing id done ms ∷ ts)) (
          system
            (process_ref_mapping refs fs id ms ds).1
            (loop_end done (process_ref_mapping refs fs id ms ds).0 ∷ ts))
  unfolding process_ref_mapping next_round
  process-Runs [] done ds ts =
      subst (λ r. Runs (system ds (processing id done [] ∷ ts)) (system ds (pushing id r ∷ ts)))
        (sym (append-nil done)) (next here (advanced (finished id done [] ts refl)))
  process-Runs (d ∷ ms) done ds ts =
      elim (Result-cases (process_measurement refs fs id d d.value ds).0) [
        | inr (x, e) ↦
            rw (e, process_ref_mapping) (next here (advanced (failed id done ms d x [] ts refl e)))
        | inl ((goes_on, d'), e) ↦ elim (Bool-cases goes_on) [
          | inl y ↦
              rw (e, y, process_ref_mapping)
                (prepend_Runs done d' _ ts (system ds (processing id done (d ∷ ms) ∷ ts)) (
                  trans_Runs _ _ _ (round_Runs d d' ms done true ds ts (e ∙ ap (λ g. ok (g, d')) y))
                    (process-Runs ms (done ++ d' ∷ []) _ ts)))
          | inr n ↦
              rw (e, n, process_ref_mapping)
                (round_Runs d d' ms done false ds ts (e ∙ ap (λ g. ok (g, d')) n))
        ]
      ]

  settle-Runs :
      (ms : List Measurement) (ds : DataSource C F) (ts : List Task) (s : System C F)
      → Runs s (system ds (pushing id ms ∷ ts))
      → Runs s (system (push_or_forget refs fs time config id ms ds).1 ts)
  unfolding after_push
  settle-Runs ms ds ts s run =
      push_or_forget_rule refs fs time config id (λ p. Runs s (system p.1 (after_push id p.0 ts)))
        (λ p. Runs s (system p.1 ts)) (λ n ds' h. h)
        (λ n ds' h. next h (advanced (forgotten id [] ts refl)))
        (λ e ds' h. next h (advanced (forgotten id [] ts refl))) ms ds
        (next run (pushed id ms [] ts refl))

  -- The tasks after a call, by the outcome of its loop.
  abbrev pub after_loop : Result (List Measurement) → List Task → List Task
  after_loop (ok ms) ts = ts
  after_loop (thrown e) ts = abandoned id ∷ ts

  -- A call of `Add` behind the parser is a sequence of steps of the calls under way, from a state in
  -- which it is not among them, to one in which it is not, or, where the loop over the measurements
  -- throws, in which it is abandoned.
  pub add_parsed-Runs :
      (ms : List Measurement) (ds : DataSource C F) (ts : List Task)
      → Reach refs fs time config (system ds ts) (
          system
            (add_parsed refs fs time config id ms ds).1
            (after_loop (process_ref_mapping refs fs id ms ds).0 ts))
  unfolding add_parsed
  add_parsed-Runs ms ds ts =
      let run : Runs (system ds ts) (
          system (process_ref_mapping refs fs id ms ds).1
            (loop_end [] (process_ref_mapping refs fs id ms ds).0 ∷ ts)) =
        trans_Runs _ _ _ (next here (advanced (begun id ms))) (process-Runs ms [] ds ts) in
      elim (Result-cases (process_ref_mapping refs fs id ms ds).0) [
        | inl (ms', e) ↦
            rw (e, add_parsed, ◌>>=◌)
              (settle-Runs ms' (process_ref_mapping refs fs id ms ds).1 ts (system ds ts) (
                subst
                  (λ r.
                    Runs (system ds ts)
                      (system (process_ref_mapping refs fs id ms ds).1 (loop_end [] r ∷ ts)))
                  e run))
        | inr (x, e) ↦
            rw (e, add_parsed, ◌>>=◌)
              (subst
                (λ r.
                  Runs (system ds ts)
                    (system (process_ref_mapping refs fs id ms ds).1 (loop_end [] r ∷ ts)))
                e run)
      ]
