-- ===== src/Validator/Timestamp/Days.antt =====
-- The days of a year that `iso_8601_regex` of src/parsing/data_validator.cpp accepts, and the time of day.
use qds_data_interface.Prelude.{
  ℕ, Bool, true, false, not, ◌&&◌, ◌||◌, [], ◌∷◌, ◌≡◌, ◌∙◌, ap, leb, ltb, ◌==◌, arith,
  if◌then◌else◌,
}
use qds_data_interface.Prelude.Str.{Str}
use qds_data_interface.Validator.Timestamp.{
  Captures, captured, take, after_prefix, match_with, at_end, char, seq, time_of_day, common_day,
  last_day, month, month_of_30, month_of_31, day_to_28, day_29_or_30, two, day_of_year,
  back_reference, ◌⋅◌,
}
use qds_data_interface.Validator.Timestamp.Matching.{pair, IsDigit, match_with-alt}

-- The days of a month of a common year.
unfoldable pub days_of_month : ℕ → ℕ
days_of_month m = if m == 2 then 28 else (if m == 4 || m == 6 || m == 9 || m == 11 then 30 else 31)

-- Days that every year has, by the digits of month and day.
unfoldable pub month_ok : ℕ → ℕ → ℕ → ℕ → Bool
month_ok m m' d d' =
    leb 1 (pair m m')
    && leb (pair m m') 12
    && leb 1 (pair d d')
    && leb (pair d d') (days_of_month (pair m m'))

-- A month or a day of two digits.
module _ (c : Captures) (k : Captures → Str → Bool) (x x' : ℕ) (rest : Str) (a : IsDigit x)
    (a' : IsDigit x') where
  match_with-month :
      match_with month c (x ∷ x' ∷ rest) k ≡ (leb 1 (pair x x') && leb (pair x x') 12 && k c rest)
  unfolding match_with IsDigit
  match_with-month = ground arith

  match_with-month_of_30 :
      match_with month_of_30 c (x ∷ x' ∷ rest) k
      ≡ (leb 1 (pair x x') && leb (pair x x') 12 && not (pair x x' == 2) && k c rest)
  unfolding match_with IsDigit
  match_with-month_of_30 = ground arith

  match_with-month_of_31 :
      match_with month_of_31 c (x ∷ x' ∷ rest) k
      ≡ (leb 1 (pair x x') && leb (pair x x') 12 && days_of_month (pair x x') == 31 && k c rest)
  unfolding match_with IsDigit days_of_month
  match_with-month_of_31 = ground arith

  match_with-day_to_28 :
      match_with day_to_28 c (x ∷ x' ∷ rest) k
      ≡ (leb 1 (pair x x') && leb (pair x x') 28 && k c rest)
  unfolding match_with IsDigit
  match_with-day_to_28 = ground arith

  match_with-day_29_or_30 :
      match_with day_29_or_30 c (x ∷ x' ∷ rest) k
      ≡ (leb 29 (pair x x') && leb (pair x x') 30 && k c rest)
  unfolding match_with IsDigit
  match_with-day_29_or_30 = ground arith

  match_with-day_31 : match_with (two b'3' b'1') c (x ∷ x' ∷ rest) k ≡ (pair x x' == 31 && k c rest)
  unfolding match_with IsDigit
  match_with-day_31 = ground arith

  -- The number of a day has no dash behind two digits.
  match_with-day_of_year : match_with day_of_year c (x ∷ x' ∷ b'-' ∷ rest) k ≡ false
  unfolding match_with IsDigit
  match_with-day_of_year = ground arith

-- The days of a month come in three ways.
three_ways :
    (m d : ℕ) (b : Bool)
    → ((leb 1 m && leb m 12 && (leb 1 d && leb d 28 && b))
        || ((leb 1 m && leb m 12 && not (m == 2) && (leb 29 d && leb d 30 && b))
            || ((leb 1 m && leb m 12 && days_of_month m == 31 && (d == 31 && b)) || false)))
      ≡ (leb 1 m && leb m 12 && leb 1 d && leb d (days_of_month m) && b)
unfolding days_of_month
three_ways m d true = ground arith
three_ways m d false = ground arith

-- The three ways to write a month and a day.
module _ (k : Captures → Str → Bool) (m m' d d' : ℕ) (rest : Str) (a : IsDigit m) (a' : IsDigit m')
    (b : IsDigit d) (b' : IsDigit d') where
  abbrev dashed : Captures
  dashed = (1, b'-' ∷ []) ∷ []

  match_with-to_28 :
      match_with (month ⋅ back_reference 1 ⋅ day_to_28) dashed (m ∷ m' ∷ b'-' ∷ d ∷ d' ∷ rest) k ≡ (
        leb 1 (pair m m')
        && leb (pair m m') 12
        && (leb 1 (pair d d') && leb (pair d d') 28 && k dashed rest))
  unfolding match_with captured after_prefix
  match_with-to_28 =
      match_with-month dashed (λ c s. match_with (back_reference 1 ⋅ day_to_28) c s k) m m'
        (b'-' ∷ d ∷ d' ∷ rest) a a'
      ∙ ap (λ r. leb 1 (pair m m') && leb (pair m m') 12 && r)
          (match_with-day_to_28 dashed k d d' rest b b')

  match_with-to_30 :
      match_with
        (month_of_30 ⋅ back_reference 1 ⋅ day_29_or_30)
        dashed
        (m ∷ m' ∷ b'-' ∷ d ∷ d' ∷ rest)
        k
      ≡ (leb 1 (pair m m')
          && leb (pair m m') 12
          && not (pair m m' == 2)
          && (leb 29 (pair d d') && leb (pair d d') 30 && k dashed rest))
  unfolding match_with captured after_prefix
  match_with-to_30 =
      match_with-month_of_30 dashed (λ c s. match_with (back_reference 1 ⋅ day_29_or_30) c s k) m m'
        (b'-' ∷ d ∷ d' ∷ rest) a a'
      ∙ ap (λ r. leb 1 (pair m m') && leb (pair m m') 12 && not (pair m m' == 2) && r)
          (match_with-day_29_or_30 dashed k d d' rest b b')

  match_with-to_31 :
      match_with
        (month_of_31 ⋅ back_reference 1 ⋅ two b'3' b'1')
        dashed
        (m ∷ m' ∷ b'-' ∷ d ∷ d' ∷ rest)
        k
      ≡ (leb 1 (pair m m')
          && leb (pair m m') 12
          && days_of_month (pair m m') == 31
          && (pair d d' == 31 && k dashed rest))
  unfolding match_with captured after_prefix
  match_with-to_31 =
      match_with-month_of_31 dashed (λ c s. match_with (back_reference 1 ⋅ two b'3' b'1') c s k) m
        m' (b'-' ∷ d ∷ d' ∷ rest) a a'
      ∙ ap (λ r. leb 1 (pair m m') && leb (pair m m') 12 && days_of_month (pair m m') == 31 && r)
          (match_with-day_31 dashed k d d' rest b b')

  pub match_with-common_day :
      match_with common_day dashed (m ∷ m' ∷ b'-' ∷ d ∷ d' ∷ rest) k
      ≡ (month_ok m m' d d' && k dashed rest)
  unfolding common_day month_ok
  match_with-common_day =
      match_with-alt _ _ _ _ _ match_with-to_28 (
        match_with-alt _ _ _ _ _ match_with-to_30 (
          match_with-alt _ _ _ _ _ match_with-to_31
            (match_with-day_of_year dashed k m m' (d ∷ d' ∷ rest) a a')))
      ∙ three_ways (pair m m') (pair d d') (k dashed rest)

pub match_with-last_day :
    (k : Captures → Str → Bool) (m m' d d' : ℕ) (rest : Str)
    → IsDigit m
    → IsDigit m'
    → IsDigit d
    → IsDigit d'
    → match_with last_day [] (b'-' ∷ m ∷ m' ∷ b'-' ∷ d ∷ d' ∷ rest) k
      ≡ (pair m m' == 2 && (pair d d' == 29 && k ((2, b'-' ∷ []) ∷ []) rest))
unfolding match_with last_day captured take after_prefix IsDigit
match_with-last_day k m m' d d' rest a a' b b' = ground arith

abbrev pub time_text : ℕ → ℕ → ℕ → ℕ → ℕ → ℕ → Str
time_text h h' n n' s s' = b'T' ∷ h ∷ h' ∷ b':' ∷ n ∷ n' ∷ b':' ∷ s ∷ s' ∷ b'Z' ∷ []

pub match_with-time :
    (c : Captures) (h h' n n' s s' : ℕ)
    → IsDigit h
    → IsDigit h'
    → IsDigit n
    → IsDigit n'
    → IsDigit s
    → IsDigit s'
    → match_with (seq (char b'T') time_of_day) c (time_text h h' n n' s s') at_end
      ≡ ltb (pair h h') 24 && (ltb (pair n n') 60 && ltb (pair s s') 60)
unfolding match_with time_of_day captured take after_prefix IsDigit
match_with-time c h h' n n' s s' a a' b b' d d' = ground arith
