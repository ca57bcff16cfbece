-- ===== src/Validator/Timestamp/Years.antt =====
-- The leap years that `iso_8601_regex` of src/parsing/data_validator.cpp accepts.
use qds_data_interface.Prelude.{
  ℕ, ◌%◌, Bool, ◌&&◌, ◌||◌, [], ◌∷◌, ◌≡◌, ◌∙◌, ap, leb, ◌==◌, arith, if◌then◌else◌,
}
use qds_data_interface.Prelude.Str.{Str}
use qds_data_interface.Validator.Timestamp.{
  Captures, range, two, ◌⋅◌, ◌∣◌, alt, tens, one_of, match_with, digit, char, seq, leap_year,
}
use qds_data_interface.Validator.Timestamp.Matching.{pair, IsDigit, digit-All, match_with-alt}

unfoldable pub leap_tens : ℕ → Bool
leap_tens n = n % 4 == 0

module _ (c : Captures) where
  match_with-tens :
      (k : Captures → Str → Bool) (rest : Str) (x x' : ℕ)
      → IsDigit x
      → IsDigit x'
      → match_with tens c (x ∷ x' ∷ rest) k
        ≡ (leb 10 (pair x x') && leap_tens (pair x x') && k c rest)
  unfolding match_with IsDigit leap_tens
  match_with-tens k rest x x' a a' =
      digit-All
        (λ x.
          match_with tens c (x ∷ x' ∷ rest) k
          ≡ (leb 10 (pair x x') && leap_tens (pair x x') && k c rest))
        (ground arith) (ground arith) (ground arith) (ground arith) (ground arith) (ground arith)
        (ground arith) (ground arith) (ground arith) (ground arith) x a

  match_with-zero_tens :
      (k : Captures → Str → Bool) (rest : Str) (x x' : ℕ)
      → match_with (seq (char b'0') (one_of (b'4' ∷ b'8' ∷ []))) c (x ∷ x' ∷ rest) k
        ≡ (x == b'0' && (x' == b'4' || x' == b'8') && k c rest)
  unfolding match_with
  match_with-zero_tens k rest x x' = ground arith

  match_with-last_tens :
      (k : Captures → Str → Bool) (rest : Str) (x x' : ℕ)
      → IsDigit x
      → IsDigit x'
      → match_with (alt (seq (char b'0') (one_of (b'4' ∷ b'8' ∷ []))) tens) c (x ∷ x' ∷ rest) k
        ≡ (leb 1 (pair x x') && leap_tens (pair x x') && k c rest)
  unfolding IsDigit leap_tens
  match_with-last_tens k rest x x' a a' =
      match_with-alt _ _ _ _ _ (match_with-zero_tens k rest x x') (match_with-tens k rest x x' a a')
      ∙ ground arith

  match_with-ordinary :
      (k : Captures → Str → Bool) (rest : Str) (y y' z z' : ℕ)
      → IsDigit z
      → IsDigit z'
      → match_with
          (range b'1' b'9' ⋅ digit ⋅ (char b'0' ⋅ one_of (b'4' ∷ b'8' ∷ []) ∣ tens))
          c
          (y ∷ y' ∷ z ∷ z' ∷ rest)
          k
        ≡ ((leb b'1' y && leb y b'9')
            && ((leb b'0' y' && leb y' b'9')
                && (leb 1 (pair z z') && leap_tens (pair z z') && k c rest)))
  unfolding match_with
  match_with-ordinary k rest y y' z z' b b' =
      ap (λ r. (leb b'1' y && leb y b'9') && ((leb b'0' y' && leb y' b'9') && r))
        (match_with-last_tens k rest z z' b b')

  match_with-two :
      (k : Captures → Str → Bool) (rest : Str) (x x' : ℕ)
      → match_with (two b'0' b'0') c (x ∷ x' ∷ rest) k ≡ (x == b'0' && x' == b'0' && k c rest)
  unfolding match_with
  match_with-two k rest x x' = ground arith

  match_with-century :
      (k : Captures → Str → Bool) (rest : Str) (y y' z z' : ℕ)
      → IsDigit y
      → IsDigit y'
      → match_with (tens ⋅ two b'0' b'0') c (y ∷ y' ∷ z ∷ z' ∷ rest) k
        ≡ (leb 10 (pair y y') && leap_tens (pair y y') && (z == b'0' && z' == b'0' && k c rest))
  unfolding match_with
  match_with-century k rest y y' z z' a a' =
      match_with-tens (λ c' s'. match_with (two b'0' b'0') c' s' k) (z ∷ z' ∷ rest) y y' a a'
      ∙ ap (λ r. leb 10 (pair y y') && leap_tens (pair y y') && r) (match_with-two k rest z z')

  -- The years, by the century and the rest.
  pub match_with-leap_year :
      (k : Captures → Str → Bool) (rest : Str) (y y' z z' : ℕ)
      → IsDigit y
      → IsDigit y'
      → IsDigit z
      → IsDigit z'
      → match_with leap_year c (y ∷ y' ∷ z ∷ z' ∷ rest) k ≡ (
          leb 10 (pair y y')
          && (leap_tens (if pair z z' == 0 then pair y y' else pair z z') && k c rest))
  unfolding leap_year IsDigit
  match_with-leap_year k rest y y' z z' a a' b b' =
      match_with-alt _ _ _ _ _ (match_with-ordinary k rest y y' z z' b b')
        (match_with-century k rest y y' z z' a a')
      ∙ ground arith
