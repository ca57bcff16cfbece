-- ===== src/Source/Resets.antt =====
-- The list of reset information through `Reset`, src/data_source_internal.cpp.
use mathlib.Core.List.{append-nil}
use qds_data_interface.Prelude.{
  ℕ, ◌<◌, false, List, [], ◌∷◌, ◌++◌, ◌≡◌, inl, inr, refl, ap, arith, is_empty, Bool-cases, ◌==◌,
  if◌then◌else◌,
}
use qds_data_interface.Types.{ResetReason, ResetInformation}
use qds_data_interface.Ring
use qds_data_interface.Source.{ReferenceContainer, FileSystem, DataSource, Config, emplace_back}
use qds_data_interface.Source.Operations.{callback, pop_back, reset}
use qds_data_interface.Source.Information.{Recent, drop_oldest_within, add-Recent}

pop_back-append : {A : Type 0} (xs : List A) (x : A) → pop_back (xs ++ x ∷ []) ≡ xs
unfolding pop_back
pop_back-append [] x = refl
pop_back-append (y ∷ []) x = refl
pop_back-append (y ∷ z ∷ zs) x = ap (◌∷◌ y) (pop_back-append (z ∷ zs) x)

module _ {C F : Type 0} (refs : ReferenceContainer C) (fs : FileSystem F) (time : ℕ → ℕ)
    (config : Config) where
  -- What a call of `Reset` notes: the buffer's information, if there was anything to reset.
  abbrev pub noted : ResetReason → DataSource C F → List ResetInformation
  noted reason ds =
      if is_empty ds.world.ring.buffer
      then []
      else (Ring.reset time (callback refs fs time config) reason ds.world).0 ∷ []

  positive : (n : ℕ) → 0 < n → (n == 0) ≡ false
  positive n h = ground arith

  -- Where the clock is past its epoch, `Reset` keeps the list of the last `reset_information_size`
  -- resets, and the flag that says whether there were more: a reset of an empty buffer is not one.
  pub reset-Recent :
      (reason : ResetReason) (items : List ResetInformation) (ds : DataSource C F)
      → 0 < time ds.world.readings
      → Recent config.reset_information_size items ds.reset_information
      → Recent config.reset_information_size
          (items ++ noted reason ds)
          (reset refs fs time config reason ds).reset_information
  unfolding reset Ring.reset
  reset-Recent reason items ds h r = elim (Bool-cases (is_empty ds.world.ring.buffer)) [
    | inl e ↦
        rw (e, append-nil)
          (unfold emplace_back in
            rw
              (
                pop_back-append,
                drop_oldest_within config.reset_information_size items ds.reset_information r,
              )
              r)
    | inr e ↦
        rw (e, positive (time ds.world.readings) h)
          (add-Recent config.reset_information_size items ds.reset_information _ r)
  ]
