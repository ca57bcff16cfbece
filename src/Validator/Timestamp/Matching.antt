-- ===== src/Validator/Timestamp/Matching.antt =====
-- How the regular expressions of src/parsing/data_validator.cpp take digits and alternatives.
use qds_data_interface.Prelude.{
  ℕ, zero, suc, ◌+◌, ◌*◌, ◌-◌, ◌≤◌, ◌<◌, Bool, true, false, ◌||◌, List, [], ◌∷◌, ◌≡◌, refl, ◌∙◌,
  inl, inr, ◌==◌, Bool-cases, arith, All, subst,
}
use qds_data_interface.Prelude.Str.{Str}
use qds_data_interface.Validator.Timestamp.{Captures, Regex, opt, alt, match_with}

-- The value of two digits.
abbrev pub pair : ℕ → ℕ → ℕ
pair a b = 10 * (a - b'0') + (b - b'0')

unfoldable pub IsDigit : ℕ → Type 0
IsDigit c = (b'0' ≤ c) × (c ≤ b'9')

pub pair_lt : (a b : ℕ) → IsDigit a → IsDigit b → pair a b < 100
unfolding IsDigit
pair_lt a b h k = omega (arith, h, k)

abbrev from : ℕ → ℕ → List ℕ
from lo zero = []
from lo (suc n) = lo ∷ from (suc lo) n

-- What holds of each of some numbers in a row.
from-All : (P : ℕ → Type 0) (lo n : ℕ) → All P (from lo n) → (c : ℕ) → lo ≤ c → c < lo + n → P c
from-All P lo zero ps c l u = absurd (omega (arith, l, u))
from-All P lo (suc n) (p, ps) c l u = elim (Bool-cases (c == lo)) [
  | inl y ↦ subst P (ground (arith, y)) p
  | inr z ↦ from-All P (suc lo) n ps c (ground (arith, z, l)) (omega (arith, u))
]

-- What holds of the ten digits holds of each digit.
pub digit-All :
    (P : ℕ → Type 0)
    → P b'0'
    → P b'1'
    → P b'2'
    → P b'3'
    → P b'4'
    → P b'5'
    → P b'6'
    → P b'7'
    → P b'8'
    → P b'9'
    → (c : ℕ) → IsDigit c
    → P c
unfolding IsDigit
digit-All P p0 p1 p2 p3 p4 p5 p6 p7 p8 p9 c (l, u) =
    from-All P b'0' 10 (p0, (p1, (p2, (p3, (p4, (p5, (p6, (p7, (p8, (p9, tt)))))))))) c l
      (omega (arith, u))

else_or : (b c : Bool) → elim b [ true ↦ true | false ↦ c ] ≡ (b || c)
else_or true c = refl
else_or false c = refl

-- What the alternatives come to, each by itself.
pub match_with-alt :
    (a b : Regex) (c : Captures) (s : Str) (k : Captures → Str → Bool) {x y : Bool}
    → match_with a c s k ≡ x
    → match_with b c s k ≡ y
    → match_with (alt a b) c s k ≡ (x || y)
unfolding match_with
match_with-alt a b c s k e f = else_or (match_with a c s k) (match_with b c s k) ∙ (λ i. e i || f i)

pub match_with-opt :
    (a : Regex) (c : Captures) (s : Str) (k : Captures → Str → Bool)
    → match_with (opt a) c s k ≡ (match_with a c s k || k c s)
unfolding match_with
match_with-opt a c s k = else_or (match_with a c s k) (k c s)
