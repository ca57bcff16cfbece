-- ===== src/Validator/Keys.antt =====
-- The keys that `DataValidator::OnKey` accepts, src/parsing/data_validator.cpp.
use qds_data_interface.Prelude.{
  true, none, some, List, [], ◌∷◌, ◌++◌, ◌≡◌, ◌≢◌, ◌⊎◌, ◌↔◌, inl, inr, refl, arith, All, Bool-cases,
  Option-cases,
}
use qds_data_interface.Prelude.Str.{Str}
use qds_data_interface.Exception.{ok}
use qds_data_interface.Measurement.{Measurement}
use qds_data_interface.Validator.{
  Key, ParsingState, current, handle_key, strncmp_eq, find_key, validation,
}

-- The text is the beginning of the entry's name, or all of it.
abbrev pub Begins : Str → Str → Type 0
Begins s name = (rest : Str) × (name ≡ s ++ rest)

abbrev pub NoZeroByte : Str → Type 0
NoZeroByte = All (λ c. c ≢ 0)

strncmp_eq-Begins : (name s : Str) → NoZeroByte s → strncmp_eq name s ≡ true → Begins s name
unfolding strncmp_eq
strncmp_eq-Begins name [] z h = (name, refl)
strncmp_eq-Begins [] (c ∷ s) z h = ground arith
strncmp_eq-Begins (e ∷ name) (c ∷ s) z h =
    let (rest, p) : Begins s name = strncmp_eq-Begins name s z.1 (ground arith) in
    (rest, ground (arith, p))

strncmp_eq-append : (s rest : Str) → strncmp_eq (s ++ rest) s ≡ true
unfolding strncmp_eq
strncmp_eq-append [] rest = refl
strncmp_eq-append (c ∷ s) rest = ground (arith, strncmp_eq-append s rest)

-- The text begins the name of one of the entries.
abbrev pub BeginsOne : Str → List (Str × Key) → Type 0
BeginsOne s [] = ⊥
BeginsOne s ((name, k) ∷ entries) = Begins s name ⊎ BeginsOne s entries

find_key-BeginsOne :
    (s : Str) (entries : List (Str × Key)) (k : Key)
    → NoZeroByte s
    → find_key s entries ≡ some k
    → BeginsOne s entries
unfolding find_key
find_key-BeginsOne s [] k z h = cc
find_key-BeginsOne s ((name, j) ∷ entries) k z h = elim (Bool-cases (strncmp_eq name s)) [
  | inl y ↦ inl (strncmp_eq-Begins name s z y)
  | inr n ↦ inr (find_key-BeginsOne s entries k z (ground arith))
]

BeginsOne-find_key :
    (s : Str) (entries : List (Str × Key)) → BeginsOne s entries → find_key s entries ≢ none
unfolding find_key
BeginsOne-find_key s [] h = absurd h
BeginsOne-find_key s ((name, j) ∷ entries) (inl (rest, p)) =
    rw (p, strncmp_eq-append s rest) (λ e. cc)
BeginsOne-find_key s ((name, j) ∷ entries) (inr h) = ground (arith, BeginsOne-find_key s entries h)

accepts-find_key :
    (s : Str) (st : ParsingState) (d : Measurement)
    → current st ≡ some d
    → ((handle_key s st).0 ≡ ok tt) ↔ (find_key s validation ≢ none)
unfolding handle_key
accepts-find_key s st d e = elim (Option-cases (find_key s validation)) [
  | inl f ↦ rw (e, f, handle_key) ((λ h. cc), (λ h. absurd (h refl)))
  | inr (k, f) ↦ rw (e, f, handle_key) ((λ h p. cc), (λ h. refl))
]

-- Within an object, a key of no zero byte is accepted exactly if it begins the name of an entry: the
-- names themselves, and all of their beginnings, the empty key too.
pub handle_key-BeginsOne :
    (s : Str) (st : ParsingState) (d : Measurement)
    → NoZeroByte s
    → current st ≡ some d
    → ((handle_key s st).0 ≡ ok tt) ↔ BeginsOne s validation
handle_key-BeginsOne s st d z e = (
  (λ h. elim (Option-cases (find_key s validation)) [
    | inl f ↦ absurd ((accepts-find_key s st d e).0 h f)
    | inr (k, f) ↦ find_key-BeginsOne s validation k z f
  ]),
  (λ b. (accepts-find_key s st d e).1 (BeginsOne-find_key s validation b)),
)
