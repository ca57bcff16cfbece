-- ===== src/Source/Settle.antt =====
-- The `try` block of `Add` and its handler, src/data_source_internal.cpp: one rule for what they do
-- with the outcome of the push.
use qds_data_interface.Prelude.{ℕ, true, false, List, ◌≡◌, refl, sym, subst, arith}
use qds_data_interface.Prelude.Int.{ℤ, pos, negsuc, ltb_ℤ}
use qds_data_interface.Exception.{Exception, Result, ok, thrown, rethrow_after, ◌>>=◌}
use qds_data_interface.Measurement.{Measurement}
use qds_data_interface.Source.{ReferenceContainer, FileSystem, DataSource, Config}
use qds_data_interface.Source.Operations.{
  push_or_forget, push_measurements, forget_references, forget_if_rejected,
}

pos-ge_zero : (n : ℕ) → ltb_ℤ (pos n) (pos 0) ≡ false
unfolding ltb_ℤ
pos-ge_zero n = ground arith

minus-lt_zero : (n : ℕ) → ltb_ℤ (negsuc n) (pos 0) ≡ true
unfolding ltb_ℤ
minus-lt_zero n = ground arith

module _ {C F : Type 0} (refs : ReferenceContainer C) (fs : FileSystem F) (time : ℕ → ℕ)
    (config : Config) (id : ℤ) where
  forget_if_stored :
      (n : ℕ) (ds : DataSource C F)
      → forget_if_rejected refs fs time config id (pos n) ds ≡ (ok (pos n), ds)
  unfolding forget_if_rejected
  forget_if_stored n ds = rw (pos-ge_zero n) refl

  forget_if_minus :
      (n : ℕ) (ds : DataSource C F)
      → forget_if_rejected refs fs time config id (negsuc n) ds
        ≡ (ok (negsuc n), forget_references refs fs time config id ds)
  unfolding forget_if_rejected
  forget_if_minus n ds = rw (minus-lt_zero n) refl

  -- `R` says what the push has done, `P` what `Add` makes of it.
  module _ (R P : Result ℤ × DataSource C F → Type 0)
      (stored : (n : ℕ) (ds : DataSource C F) → R (ok (pos n), ds) → P (ok (pos n), ds))
      (refused : (n : ℕ) (ds : DataSource C F)
        → R (ok (negsuc n), ds)
        → P (ok (negsuc n), forget_references refs fs time config id ds))
      (failed : (e : Exception) (ds : DataSource C F)
        → R (thrown e, ds)
        → P (thrown e, forget_references refs fs time config id ds)) where
    settle_rule :
        (p : Result ℤ × DataSource C F) (ds : DataSource C F)
        → R p
        → P (
            rethrow_after
              (forget_references refs fs time config id)
              ((λ _. p) >>= forget_if_rejected refs fs time config id)
              ds)
    settle_rule (ok (pos n), ds') ds h =
        subst (λ q. P (rethrow_after (forget_references refs fs time config id) (λ _. q) ds))
          (sym (forget_if_stored n ds')) (stored n ds' h)
    settle_rule (ok (negsuc n), ds') ds h =
        subst (λ q. P (rethrow_after (forget_references refs fs time config id) (λ _. q) ds))
          (sym (forget_if_minus n ds')) (refused n ds' h)
    settle_rule (thrown e, ds') ds h = failed e ds' h

    pub push_or_forget_rule :
        (ms : List Measurement) (ds : DataSource C F)
        → R (push_measurements refs fs time config id ms ds)
        → P (push_or_forget refs fs time config id ms ds)
    unfolding push_or_forget
    push_or_forget_rule ms ds h = settle_rule (push_measurements refs fs time config id ms ds) ds h
