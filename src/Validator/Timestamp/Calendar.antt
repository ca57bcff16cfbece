-- ===== src/Validator/Timestamp/Calendar.antt =====
-- The timestamps that `iso_8601_regex` of src/parsing/data_validator.cpp accepts, beside a calendar.
use qds_data_interface.Prelude.{
  ℕ, ◌+◌, ◌*◌, ◌-◌, ◌%◌, ◌/◌, ◌<◌, Bool, true, false, not, ◌&&◌, ◌||◌, [], ◌∷◌, ◌≡◌, refl, ◌∙◌, ap,
  inl, inr, leb, ltb, ◌==◌, length, Bool-cases, arith, if◌then◌else◌,
}
use qds_data_interface.Prelude.Str.{Str}
use qds_data_interface.Validator.Timestamp.{
  Captures, any_year, group, opt, ◌⋅◌, take, match_with, at_end, char, seq, time_of_day, common_day,
  last_day, leap_day, iso_8601_regex, regex_match, is_timestamp,
}
use qds_data_interface.Validator.Timestamp.Matching.{
  pair, IsDigit, pair_lt, match_with-alt, match_with-opt,
}
use qds_data_interface.Validator.Timestamp.Days.{
  days_of_month, month_ok, match_with-common_day, match_with-last_day, time_text, match_with-time,
}
use qds_data_interface.Validator.Timestamp.Years.{leap_tens, match_with-leap_year}
use mathlib.Core.Bool.{or-false}

-- A leap year, as the calendar has it.
is_leap : ℕ → Bool
is_leap y = y % 4 == 0 && (not (y % 100 == 0) || y % 400 == 0)

days_in_month : ℕ → ℕ → ℕ
days_in_month y m = if is_leap y && m == 2 then 29 else days_of_month m

pub is_date : ℕ → ℕ → ℕ → Bool
is_date y m d = leb 1000 y && leb 1 m && leb m 12 && leb 1 d && leb d (days_in_month y m)

-- Of two pairs of digits, the years of the century are leap years by their last two, and the last of
-- them by its first two.
century_leap : (p q : ℕ) → q < 100 → leap_tens (if q == 0 then p else q) ≡ is_leap (100 * p + q)
unfolding leap_tens is_leap
century_leap p q l = elim (Bool-cases (q == 0)) [
  | inl y ↦ ground (arith, y)
  | inr n ↦ ground (arith, n)
]

-- The twenty-ninth of February of a leap year, and the days that every year has.
february :
    (m d : ℕ) (leap : Bool)
    → ((leb 1 m && leb m 12 && leb 1 d && leb d (days_of_month m)) || (leap && (m == 2 && d == 29)))
      ≡ (leb 1 m && leb m 12 && leb 1 d && leb d (if leap && m == 2 then 29 else days_of_month m))
unfolding days_of_month
february m d true = ground arith
february m d false = ground arith

date_eq :
    (p q m m' d d' : ℕ) (b : Bool)
    → q < 100
    → ((leb 10 p && (month_ok m m' d d' && b))
        || (leb 10 p
            && (leap_tens (if q == 0 then p else q) && (pair m m' == 2 && (pair d d' == 29 && b)))))
      ≡ (is_date (100 * p + q) (pair m m') (pair d d') && b)
unfolding month_ok is_date days_in_month days_of_month
date_eq p q m m' d d' b l =
    ground (arith, century_leap p q l, february (pair m m') (pair d d') (is_leap (100 * p + q)))

abbrev after_day : Captures → Str → Bool
after_day c s = match_with (seq (char b'T') time_of_day) c s at_end

-- A year of four digits, the first of which is not 0, and what comes behind it.
abbrev in_year : ℕ → ℕ → ℕ → ℕ → Bool → Bool
in_year y y' z z' b =
    (leb b'1' y && leb y b'9')
    && ((leb b'0' y' && leb y' b'9')
        && ((leb b'0' z && leb z b'9') && ((leb b'0' z' && leb z' b'9') && b)))

module _ (y y' z z' m m' d d' h h' n n' s s' : ℕ) where
  day_text : Str
  day_text = b'-' ∷ m ∷ m' ∷ b'-' ∷ d ∷ d' ∷ time_text h h' n n' s s'

  dash_day : match_with common_day ((1, []) ∷ []) day_text after_day ≡ false
  unfolding day_text match_with common_day
  dash_day = refl

  -- The group takes the dash: a day does not begin with one.
  match_with-dashed :
      match_with (group 1 (opt (char b'-')) ⋅ common_day) [] day_text after_day
      ≡ match_with common_day
          ((1, b'-' ∷ []) ∷ [])
          (m ∷ m' ∷ b'-' ∷ d ∷ d' ∷ time_text h h' n n' s s')
          after_day
  unfolding day_text match_with take
  match_with-dashed =
      match_with-opt (char b'-') [] day_text (λ c' s'.
        match_with common_day ((1, take (length day_text - length s') day_text) ∷ c') s' after_day)
      ∙ ap
          (λ r.
            match_with common_day ((1, b'-' ∷ []) ∷ [])
              (m ∷ m' ∷ b'-' ∷ d ∷ d' ∷ time_text h h' n n' s s') after_day
            || r)
          dash_day
      ∙ or-false _

  match_with-any_year :
      match_with any_year [] (y ∷ y' ∷ z ∷ z' ∷ day_text) after_day
      ≡ in_year y y' z z' (
          match_with common_day
            ((1, b'-' ∷ []) ∷ [])
            (m ∷ m' ∷ b'-' ∷ d ∷ d' ∷ time_text h h' n n' s s')
            after_day)
  unfolding match_with
  match_with-any_year = ap (in_year y y' z z') match_with-dashed

  in_day : Bool
  in_day = ltb (pair h h') 24 && (ltb (pair n n') 60 && ltb (pair s s') 60)

  module _ (th : IsDigit h) (th' : IsDigit h') (tn : IsDigit n) (tn' : IsDigit n') (ts : IsDigit s)
      (ts' : IsDigit s') (dm : IsDigit m) (dm' : IsDigit m') (dd : IsDigit d) (dd' : IsDigit d')
      (ty : IsDigit y) (ty' : IsDigit y') (tz : IsDigit z) (tz' : IsDigit z') where
    time_after : (c : Captures) → after_day c (time_text h h' n n' s s') ≡ in_day
    unfolding in_day
    time_after c = match_with-time c h h' n n' s s' th th' tn tn' ts ts'

    match_with-common :
        match_with common_day
          ((1, b'-' ∷ []) ∷ [])
          (m ∷ m' ∷ b'-' ∷ d ∷ d' ∷ (time_text h h' n n' s s'))
          after_day
        ≡ (month_ok m m' d d' && in_day)
    match_with-common =
        match_with-common_day after_day m m' d d' (time_text h h' n n' s s') dm dm' dd dd'
        ∙ ap (λ r. month_ok m m' d d' && r) (time_after _)

    match_with-leap : match_with leap_day [] (y ∷ y' ∷ z ∷ z' ∷ day_text) after_day ≡ (
        leb 10 (pair y y')
        && (leap_tens (if pair z z' == 0 then pair y y' else pair z z')
            && (pair m m' == 2 && (pair d d' == 29 && in_day))))
    unfolding leap_day match_with day_text
    match_with-leap =
        match_with-leap_year [] (λ c t. match_with last_day c t after_day) day_text y y' z z' ty ty'
          tz tz'
        ∙ ap
            (λ r.
              leb 10 (pair y y')
              && (leap_tens (if pair z z' == 0 then pair y y' else pair z z') && r))
            (match_with-last_day after_day m m' d d' (time_text h h' n n' s s') dm dm' dd dd'
              ∙ ap (λ r. pair m m' == 2 && (pair d d' == 29 && r)) (time_after _))

    match_with-year :
        match_with any_year [] (y ∷ y' ∷ z ∷ z' ∷ day_text) after_day
        ≡ (leb 10 (pair y y') && (month_ok m m' d d' && in_day))
    unfolding IsDigit
    match_with-year =
        match_with-any_year ∙ (ap (in_year y y' z z') match_with-common ∙ ground arith)

    is_timestamp-digits :
        is_timestamp (y ∷ y' ∷ z ∷ z' ∷ day_text)
        ≡ (is_date (100 * pair y y' + pair z z') (pair m m') (pair d d') && in_day)
    unfolding is_timestamp regex_match iso_8601_regex match_with
    is_timestamp-digits =
        match_with-alt any_year leap_day [] (y ∷ y' ∷ z ∷ z' ∷ day_text) after_day match_with-year
          match_with-leap
        ∙ date_eq (pair y y') (pair z z') m m' d d' in_day (pair_lt z z' tz tz')

-- The two digits of a number, before a text.
two_digits : ℕ → Str → Str
two_digits n rest = (b'0' + n / 10) ∷ (b'0' + n % 10) ∷ rest

-- The extended form of a timestamp in UTC: `YYYY-MM-DDThh:mm:ssZ`.
pub utc : (year month day hour minute second : ℕ) → Str
utc year month day hour minute second = two_digits (year / 100) (
    two_digits (year % 100) (
      b'-'
      ∷ two_digits month (
          b'-'
          ∷ two_digits day (
              b'T'
              ∷ two_digits hour
                  (b':' ∷ two_digits minute (b':' ∷ two_digits second (b'Z' ∷ [])))))))

two_digits-IsDigit : (n : ℕ) → n < 100 → IsDigit (b'0' + n / 10) × IsDigit (b'0' + n % 10)
unfolding IsDigit
two_digits-IsDigit n l = ((omega arith, omega (arith, l)), (omega arith, omega arith))

pair-two_digits : (n : ℕ) → n < 100 → pair (b'0' + n / 10) (b'0' + n % 10) ≡ n
pair-two_digits n l = omega (arith, l)

century_and_rest :
    (n : ℕ)
    → n < 10000
    → 100 * pair (b'0' + n / 100 / 10) (b'0' + n / 100 % 10)
        + pair (b'0' + n % 100 / 10) (b'0' + n % 100 % 10)
      ≡ n
century_and_rest n l = omega (arith, l)

-- Of the texts `YYYY-MM-DDThh:mm:ssZ` with digits in these places, the regular expression accepts
-- those of a date from the year 1000 on, as the calendar has it, and a time of day.
pub is_timestamp-utc :
    (year month day hour minute second : ℕ)
    → year < 10000
    → month < 100
    → day < 100
    → hour < 100
    → minute < 100
    → second < 100
    → is_timestamp (utc year month day hour minute second)
      ≡ (is_date year month day && (ltb hour 24 && (ltb minute 60 && ltb second 60)))
unfolding utc two_digits day_text in_day
is_timestamp-utc year month day hour minute second ly lm ld lh ln ls =
    let (y, y') = two_digits-IsDigit (year / 100) (omega (arith, ly)) in
    let (z, z') = two_digits-IsDigit (year % 100) (omega arith) in
    let (m, m') = two_digits-IsDigit month lm in
    let (d, d') = two_digits-IsDigit day ld in
    let (h, h') = two_digits-IsDigit hour lh in
    let (n, n') = two_digits-IsDigit minute ln in
    let (s, s') = two_digits-IsDigit second ls in
    is_timestamp-digits _ _ _ _ _ _ _ _ _ _ _ _ _ _ h h' n n' s s' m m' d d' y y' z z' ∙ (λ i.
      is_date (century_and_rest year ly i) (pair-two_digits month lm i) (pair-two_digits day ld i)
      && (ltb (pair-two_digits hour lh i) 24
          && (ltb (pair-two_digits minute ln i) 60 && ltb (pair-two_digits second ls i) 60)))
