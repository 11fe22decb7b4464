-- ===== src/Money.antt =====
-- backend/apps/core/fields.py: money, and how it is rounded. An amount of the ledger is a whole
-- number of millionths, the storage precision numeric(19,6); a rate, or a product of an amount and
-- a rate, is a `Decimal` with its own number of places.
mod Digits
pub mod Rounding
pub mod Coerce
pub mod Allocate
unfoldable pub use Digits.*
use achr.Prelude.{
  ℕ, ◌+◌, ◌-◌, ◌*◌, ◌/◌, ◌^◌, String, Bool, true, false, ◌&&◌, List, [], ◌∷◌, leb, ◌==◌,
  if◌then◌else◌,
}
use Prim.Native.Char.{code}

-- `MONEY_DECIMAL_PLACES`
abbrev pub money_places : ℕ
money_places = 6

-- `Decimal("1.000000")` in millionths
abbrev pub unit : ℕ
unit = 1_000_000

-- The characters of a currency code, and `str.upper` on them (ISO codes are ASCII).
abbrev pub codes : String → List ℕ
codes String.[] = []
codes (String.◌∷◌ c s) = code c ∷ codes s

unfoldable pub to_upper : ℕ → ℕ
to_upper c = if leb b'a' c && leb c b'z' then c - 32 else c

unfoldable pub same_code : List ℕ → List ℕ → Bool
unfolding to_upper
same_code [] [] = true
same_code (c ∷ cs) (d ∷ ds) = to_upper c == d && same_code cs ds
same_code _ _ = false

abbrev MinorUnit : Type 0
MinorUnit = String × ℕ

-- `CURRENCY_MINOR_UNITS`
abbrev currency_minor_units : List MinorUnit
currency_minor_units =
    ("JPY", 0)
    ∷ ("KRW", 0)
    ∷ ("VND", 0)
    ∷ ("CLP", 0)
    ∷ ("ISK", 0)
    ∷ ("XAF", 0)
    ∷ ("XOF", 0)
    ∷ ("BHD", 3)
    ∷ ("IQD", 3)
    ∷ ("JOD", 3)
    ∷ ("KWD", 3)
    ∷ ("LYD", 3)
    ∷ ("OMR", 3)
    ∷ ("TND", 3)
    ∷ []

-- `CURRENCY_MINOR_UNITS.get((currency or "").upper(), 2)`
unfoldable pub units_in : List MinorUnit → List ℕ → ℕ
unfolding same_code
units_in [] c = 2
units_in ((name, u) ∷ table) c = if same_code c (codes name) then u else units_in table c

unfoldable pub minor_units : String → ℕ
unfolding units_in
minor_units currency = units_in currency_minor_units (codes currency)

-- One minor unit of the currency (a cent, a fils, a yen), in millionths.
unfoldable pub minor : String → ℕ
minor currency = 10 ^ (6 - minor_units currency)

-- `quantize_currency` of an amount that is not negative, to a whole number of minor units, in
-- millionths.
unfoldable pub quantize_currency : Decimal → String → ℕ
unfolding minor
quantize_currency value currency =
    round_half_up (value.coef * 10 ^ minor_units currency) (10 ^ value.places) * minor currency

-- `quantize_currency` of a stored amount.
unfoldable pub quantize : ℕ → String → ℕ
unfolding quantize_currency
quantize amount currency = quantize_currency (micros amount) currency
