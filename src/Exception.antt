-- ===== src/Exception.antt =====
-- include/exception.hpp: the exceptions that the program throws, and code that may throw, as a
-- function from a state to a result and the state that the throw or the return leaves behind.
use qds_data_interface.Prelude.{Bool, true, false, ◌++◌, ◌≡◌, ◌⊎◌, inl, inr, refl}
use qds_data_interface.Prelude.Str.{Str, str}

-- The classes below `Exception`, and `boost::bad_get`.
pub data Class : Type 0 where
  parsing ring_buffer ring_buffer_overflow ref file_io bad_get : Class

pub record Exception : Type 0 where
  pub class : Class
  pub msg : Str
  pub scope : Str

-- `what_`, which the base class's constructor builds.
unfoldable pub what : Exception → Str
what e = e.msg ++ str " [" ++ e.scope ++ str "]"

unfoldable pub overflow_exception : Exception
overflow_exception = record {
  class = ring_buffer_overflow;
  msg = str "Ring buffer overflow";
  scope = str "RingBufferOverflowException";
}

pub data Result {ℓ} (A : Type ℓ) : Type ℓ where
  ok : A → Result A
  thrown : Exception → Result A

abbrev pub Exec : Type 0 → Type 0 → Type 0
Exec S A = S → Result A × S

infixl 5 ◌>>=◌ ◌>>◌
abbrev pub ◌>>=◌ : {S A B : Type 0} → Exec S A → (A → Exec S B) → Exec S B
◌>>=◌ m f s = elim (m s).0 [ ok a ↦ f a (m s).1 | thrown e ↦ (thrown e, (m s).1) ]

abbrev pub ◌>>◌ : {S A B : Type 0} → Exec S A → Exec S B → Exec S B
m >> k = m >>= λ _. k

abbrev pub return : {S A : Type 0} → A → Exec S A
return a s = (ok a, s)

abbrev pub throw : {S A : Type 0} → Exception → Exec S A
throw e s = (thrown e, s)

-- `try { m } catch (...) { cleanup; throw; }`
abbrev pub rethrow_after : {S A : Type 0} → (S → S) → Exec S A → Exec S A
rethrow_after cleanup m s = elim (m s).0 [
  | ok a ↦ (ok a, (m s).1)
  | thrown e ↦ (thrown e, cleanup (m s).1)
]

abbrev pub is_thrown {ℓ} : {A : Type ℓ} → Result A → Bool
is_thrown (ok a) = false
is_thrown (thrown e) = true

pub Result-cases :
    {A : Type 0} (r : Result A) → ((a : A) × (r ≡ ok a)) ⊎ ((e : Exception) × (r ≡ thrown e))
Result-cases (ok a) = inl (a, refl)
Result-cases (thrown e) = inr (e, refl)
