-- ===== src/Money/Digits.antt =====
-- `decimal.Decimal` as backend/apps/core/fields.py and services/fx.py use it: exact values with a
-- number of places, `quantize` by ROUND_HALF_UP (MONEY_CONTEXT), and the product and the quotient
-- in Python's default context of 28 significant digits, ROUND_HALF_EVEN.
use achr.Prelude.{
  ℕ, zero, suc, ◌+◌, ◌-◌, ◌*◌, ◌/◌, ◌%◌, ◌^◌, Bool, ◌&&◌, ◌||◌, ltb, leb, ◌==◌, if◌then◌else◌,
}

-- coef / 10 ^ places, for values that are not negative.
pub record Decimal : Type 0 where
  pub coef : ℕ
  pub places : ℕ

abbrev pub decimal : ℕ → ℕ → Decimal
decimal c p = record { coef = c; places = p }

-- A stored amount, a whole number of millionths.
abbrev pub micros : ℕ → Decimal
micros n = decimal n 6

-- n / d to the nearest whole number, a tie away from zero.
unfoldable pub round_half_up : ℕ → ℕ → ℕ
round_half_up n d = (2 * n + d) / (2 * d)

-- n / d to the nearest whole number, a tie to the even neighbour.
unfoldable pub round_half_even : ℕ → ℕ → ℕ
round_half_even n d =
    let q = n / d in
    let r = n % d in if ltb d (2 * r) || (2 * r == d && q % 2 == 1) then q + 1 else q

-- Equality of values.
unfoldable pub same_value : Decimal → Decimal → Bool
same_value a b = a.coef * 10 ^ b.places == b.coef * 10 ^ a.places

-- `ONE`
abbrev pub one : Decimal
one = decimal 1 0

-- 10 ^ 28, the first number with more than `getcontext().prec` digits.
abbrev pub precision_bound : ℕ
precision_bound = 10 ^ 28

-- The least number of digits, of at most `fuel`, to drop so that a coefficient has 28 or fewer.
unfoldable pub excess_digits : ℕ → ℕ → ℕ
excess_digits zero c = 0
excess_digits (suc fuel) c =
    let rest = excess_digits fuel (c / 10) in if ltb c precision_bound then 0 else rest + 1

-- A coefficient rounded to 28 significant digits; 64 is more than the digits of any product of an
-- amount (19 digits) and a rate (28 digits).
unfoldable pub round_digits : Decimal → Decimal
unfolding excess_digits round_half_even
round_digits a =
    let k = excess_digits 64 a.coef in
    let c = round_half_even a.coef (10 ^ k) in
    if leb k a.places then decimal c (a.places - k) else decimal (c * 10 ^ (k - a.places)) 0

-- `a * b`
unfoldable pub mul : Decimal → Decimal → Decimal
unfolding round_digits
mul a b = round_digits (decimal (a.coef * b.coef) (a.places + b.places))

-- The number of places, of at most `fuel` more than `p`, at which n / d has 28 digits.
unfoldable pub quotient_places : ℕ → ℕ → ℕ → ℕ → ℕ
quotient_places zero p n d = p
quotient_places (suc fuel) p n d =
    let rest = quotient_places fuel (p + 1) (n * 10) d in
    if leb precision_bound (n * 10 / d) then p else rest

-- `ONE / rate`
unfoldable pub reciprocal : Decimal → Decimal
unfolding quotient_places round_half_even
reciprocal a =
    let n = 10 ^ a.places in
    let p = quotient_places 64 0 n a.coef in decimal (round_half_even (n * 10 ^ p) a.coef) p
