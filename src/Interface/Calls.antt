-- ===== src/Interface/Calls.antt =====
-- Any sequence of calls of the methods of include/i_data_source_in.hpp and
-- include/i_data_source_out.hpp, in any order, and what it keeps of a data source that keeps the
-- promises.
use qds_data_interface.Prelude.{ℕ}
use qds_data_interface.Prelude.Int.{ℤ}
use qds_data_interface.Prelude.Str.{Str}
use qds_data_interface.Types.{ResetReason}
use qds_data_interface.Interface.{IDataSourceInOut}
use qds_data_interface.Interface.Promises.{Promises}

module _ {S : Type 0} (i : IDataSourceInOut S) where
  pub data Call (s : S) : S → Type 0 where
    add_call : (id : ℤ) (json : Str) → Call s (i.input.add id json s).1
    set_reference_call :
        (r contents format : Str) → Call s (i.input.set_reference r contents format s).1
    reset_call : (reason : ResetReason) → Call s (i.input.reset reason s)
    delete_call : (id : ℤ) → Call s (i.output.delete id s)
    lock_call : (n : ℕ) → Call s (i.output.lock_entry n s)
    acknowledge_reset_call : Call s (i.output.acknowledge_reset s).1
    acknowledge_overflow_call : Call s (i.output.acknowledge_overflow s).1

  pub data Calls (s : S) : S → Type 0 where
    no_call : Calls s s
    then_call : {u v : S} → Calls s u → Call u v → Calls s v

  module _ (IsGood : S → Type 0) (p : Promises i IsGood) where
    Call-IsGood : {u v : S} → Call u v → IsGood u → IsGood v
    Call-IsGood {u} (add_call id json) g = p.add-IsGood id json u g
    Call-IsGood {u} (set_reference_call r contents format) g =
        p.set_reference-IsGood r contents format u g
    Call-IsGood {u} (reset_call reason) g = p.reset-IsGood reason u g
    Call-IsGood {u} (delete_call id) g = p.delete-IsGood id u g
    Call-IsGood {u} (lock_call n) g = p.lock_entry-IsGood n u g
    Call-IsGood {u} acknowledge_reset_call g = p.acknowledge_reset-IsGood u g
    Call-IsGood {u} acknowledge_overflow_call g = p.acknowledge_overflow-IsGood u g

    pub Calls-IsGood : {u v : S} → Calls u v → IsGood u → IsGood v
    Calls-IsGood no_call g = g
    Calls-IsGood (then_call r c) g = Call-IsGood c (Calls-IsGood r g)
