-- ===== src/Validator/Timestamp.antt =====
-- `iso_8601_regex` of src/parsing/data_validator.cpp, and `std::regex_match` for the constructs that
-- the pattern uses: classes, groups, back references, alternatives and bounded repetition.
mod Matching
mod Days
mod Years
pub mod Calendar
use qds_data_interface.Prelude.{
  ℕ, zero, suc, ◌-◌, Bool, true, false, ◌&&◌, List, [], ◌∷◌, ◌≡◌, refl, length, leb, ◌==◌,
  if◌then◌else◌,
}
use qds_data_interface.Prelude.Str.{Str, str}

pub data Regex : Type 0 where
  nothing : Regex
  range : ℕ → ℕ → Regex
  seq alt : Regex → Regex → Regex
  opt : Regex → Regex
  group : ℕ → Regex → Regex
  back_reference : ℕ → Regex

-- What the groups matched, the latest first.
abbrev Captures : Type 0
Captures = List (ℕ × Str)

-- A group that took no part has matched the empty text.
captured : ℕ → Captures → Str
captured n [] = []
captured n ((m, s) ∷ c) = if m == n then s else captured n c

take : ℕ → Str → Str
take zero s = []
take (suc n) [] = []
take (suc n) (x ∷ s) = x ∷ take n s

after_prefix : Str → Str → (Str → Bool) → Bool
after_prefix [] s k = k s
after_prefix (x ∷ p) [] k = false
after_prefix (x ∷ p) (y ∷ s) k = x == y && after_prefix p s k

-- Matching goes on with `k` at what is left of the text; another alternative is tried if that fails.
pub match_with : Regex → Captures → Str → (Captures → Str → Bool) → Bool
unfolding captured take after_prefix
match_with nothing c s k = k c s
match_with (range lo hi) c [] k = false
match_with (range lo hi) c (x ∷ s) k = leb lo x && leb x hi && k c s
match_with (seq a b) c s k = match_with a c s (λ c' s'. match_with b c' s' k)
match_with (alt a b) c s k = elim (match_with a c s k) [ true ↦ true | false ↦ match_with b c s k ]
match_with (opt a) c s k = elim (match_with a c s k) [ true ↦ true | false ↦ k c s ]
match_with (group n a) c s k =
    match_with a c s (λ c' s'. k ((n, take (length s - length s') s) ∷ c') s')
match_with (back_reference n) c s k = after_prefix (captured n c) s (k c)

abbrev at_end : Captures → Str → Bool
at_end c [] = true
at_end c (x ∷ s) = false

-- `std::regex_match`: the whole text.
unfoldable pub regex_match : Str → Regex → Bool
unfolding match_with
regex_match s r = match_with r [] s at_end

infixr 22 ◌⋅◌
infixr 20 ◌∣◌
abbrev ◌⋅◌ : Regex → Regex → Regex
a ⋅ b = seq a b

abbrev ◌∣◌ : Regex → Regex → Regex
a ∣ b = alt a b

abbrev char : ℕ → Regex
char c = range c c

-- `\d`
abbrev digit : Regex
digit = range b'0' b'9'

-- One of these characters.
abbrev one_of : List ℕ → Regex
one_of [] = range 1 0
one_of (x ∷ []) = char x
one_of (x ∷ y ∷ ys) = char x ∣ one_of (y ∷ ys)

-- `r{n}`, and `r{1,n}` for n + 1.
abbrev times : ℕ → Regex → Regex
times zero r = nothing
times (suc n) r = r ⋅ times n r

abbrev up_to : ℕ → Regex → Regex
up_to zero r = nothing
up_to (suc n) r = opt (r ⋅ up_to n r)

abbrev two : ℕ → ℕ → Regex
two a b = char a ⋅ char b

-- `(?:0[1-9]|1[0-2])`
abbrev month : Regex
month = (char b'0' ⋅ range b'1' b'9') ∣ (char b'1' ⋅ range b'0' b'2')

-- `(?:0[13-9]|1[0-2])`: the months of at least 30 days
abbrev month_of_30 : Regex
month_of_30 = (char b'0' ⋅ (char b'1' ∣ range b'3' b'9')) ∣ (char b'1' ⋅ range b'0' b'2')

-- `(?:0[13578]|1[02])`: those of 31
abbrev month_of_31 : Regex
month_of_31 =
    (char b'0' ⋅ one_of (b'1' ∷ b'3' ∷ b'5' ∷ b'7' ∷ b'8' ∷ []))
    ∣ (char b'1' ⋅ one_of (b'0' ∷ b'2' ∷ []))

-- `(?:0[1-9]|1\d|2[0-8])`
abbrev day_to_28 : Regex
day_to_28 = (char b'0' ⋅ range b'1' b'9') ∣ (char b'1' ⋅ digit) ∣ (char b'2' ⋅ range b'0' b'8')

-- `(?:29|30)`
abbrev day_29_or_30 : Regex
day_29_or_30 = two b'2' b'9' ∣ two b'3' b'0'

-- `00[1-9]|0[1-9]\d|[12]\d{2}|3(?:[0-5]\d|6[0-5])`
abbrev day_of_year : Regex
day_of_year =
    char b'0' ⋅ char b'0' ⋅ range b'1' b'9'
    ∣ char b'0' ⋅ range b'1' b'9' ⋅ digit
    ∣ one_of (b'1' ∷ b'2' ∷ []) ⋅ times 2 digit
    ∣ char b'3' ⋅ ((range b'0' b'5' ⋅ digit) ∣ (char b'6' ⋅ range b'0' b'5'))

-- A day of any year: a month, `\1` and a day, in three ways, or the number of a day.
pub common_day : Regex
common_day =
    month ⋅ back_reference 1 ⋅ day_to_28
    ∣ month_of_30 ⋅ back_reference 1 ⋅ day_29_or_30
    ∣ month_of_31 ⋅ back_reference 1 ⋅ two b'3' b'1'
    ∣ day_of_year

-- `[2468][048]`
abbrev even_tens : Regex
even_tens = one_of (b'2' ∷ b'4' ∷ b'6' ∷ b'8' ∷ []) ⋅ one_of (b'0' ∷ b'4' ∷ b'8' ∷ [])

-- `[13579][26]`
abbrev odd_tens : Regex
odd_tens = one_of (b'1' ∷ b'3' ∷ b'5' ∷ b'7' ∷ b'9' ∷ []) ⋅ one_of (b'2' ∷ b'6' ∷ [])

-- `[2468][048]|[13579][26]`
abbrev tens : Regex
tens = even_tens ∣ odd_tens

-- `(?:[1-9]\d(?:0[48]|[2468][048]|[13579][26])|(?:[2468][048]|[13579][26])00)`
pub leap_year : Regex
leap_year =
    (range b'1' b'9' ⋅ digit ⋅ ((char b'0' ⋅ one_of (b'4' ∷ b'8' ∷ [])) ∣ tens))
    ∣ (tens ⋅ two b'0' b'0')

-- `(?:(-?)02(?:\2)29|-?366)`
pub last_day : Regex
last_day =
    (group 2 (opt (char b'-')) ⋅ two b'0' b'2' ⋅ back_reference 2 ⋅ two b'2' b'9')
    ∣ (opt (char b'-') ⋅ char b'3' ⋅ two b'6' b'6')

-- The leap day, or day 366, of a leap year.
leap_day : Regex
unfolding leap_year last_day
leap_day = leap_year ⋅ last_day

-- `(?:[01]\d|2[0-3])(:?)[0-5]\d(?:\3[0-5]\d)?(\.?\d{1,6})?(?:Z|[+-][01]\d(?:\3[0-5]\d)?)`
pub time_of_day : Regex
time_of_day =
    ((one_of (b'0' ∷ b'1' ∷ []) ⋅ digit) ∣ (char b'2' ⋅ range b'0' b'3'))
    ⋅ group 3 (opt (char b':'))
    ⋅ sixty
    ⋅ opt (back_reference 3 ⋅ sixty)
    ⋅ opt (group 4 (opt (char b'.') ⋅ digit ⋅ up_to 5 digit))
    ⋅ (char b'Z'
        ∣ (one_of (b'+' ∷ b'-' ∷ [])
            ⋅ one_of (b'0' ∷ b'1' ∷ [])
            ⋅ digit
            ⋅ opt (back_reference 3 ⋅ sixty)))
  where
    sixty : Regex
    sixty = range b'0' b'5' ⋅ digit

-- `[1-9]\d{3}(-?)` and a day of any year
abbrev any_year : Regex
any_year = range b'1' b'9' ⋅ times 3 digit ⋅ group 1 (opt (char b'-')) ⋅ common_day

-- `^(?:` a day of any year, or a leap day, `)T` and the time of day, `$`
unfoldable pub iso_8601_regex : Regex
unfolding common_day leap_day time_of_day
iso_8601_regex = (any_year ∣ leap_day) ⋅ char b'T' ⋅ time_of_day

unfoldable pub is_timestamp : Str → Bool
unfolding regex_match iso_8601_regex
is_timestamp s = regex_match s iso_8601_regex

accepts_utc : is_timestamp (str "2022-03-09T12:15:30.123Z") ≡ true
unfolding is_timestamp str
accepts_utc = refl

accepts_leap_day : is_timestamp (str "20240229T2359+0130") ≡ true
unfolding is_timestamp str
accepts_leap_day = refl

refuses_leap_day : is_timestamp (str "2023-02-29T12:00Z") ≡ false
unfolding is_timestamp str
refuses_leap_day = refl

refuses_mixed : is_timestamp (str "2022-0309T12:15:30Z") ≡ false
unfolding is_timestamp str
refuses_mixed = refl
