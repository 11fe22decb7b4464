-- ===== src/Money/Rounding.antt =====
-- The laws of `quantize_currency` (backend/apps/core/fields.py).
use achr.Prelude.{
  ℕ, zero, suc, ◌+◌, ◌-◌, ◌*◌, ◌/◌, ◌^◌, ◌≤◌, ◌<◌, ◌≡◌, refl, String, List, [], ◌∷◌, arith, All,
}
use achr.Money.{
  MinorUnit, currency_minor_units, units_in, codes, minor_units, minor, round_half_up,
  quantize_currency, quantize,
}

units_in-le :
    (table : List MinorUnit) (c : List ℕ) → All (λ e. e.1 ≤ 3) table → units_in table c ≤ 3
unfolding units_in
units_in-le [] c h = omega arith
units_in-le (e ∷ table) c h = ground (arith, units_in-le table c h.1)

pub minor_units-le : (currency : String) → minor_units currency ≤ 3
unfolding minor_units
minor_units-le currency = units_in-le currency_minor_units (codes currency) (omega arith)

-- `quantize` with the number of minor units written out.
abbrev pub quantize_at : ℕ → ℕ → ℕ
quantize_at u a = ((2 * (a * 10 ^ u) + 10 ^ 6) / (2 * 10 ^ 6)) * 10 ^ (6 - u)

quantize-eq :
    (a : ℕ) (currency : String) → quantize a currency ≡ quantize_at (minor_units currency) a
unfolding quantize quantize_currency round_half_up
quantize-eq a currency = omega arith

quantize_at_nearest :
    (u a : ℕ)
    → u ≤ 3
    → (2 * quantize_at u a ≤ 2 * a + 10 ^ (6 - u)) × (2 * a < 2 * quantize_at u a + 10 ^ (6 - u))
quantize_at_nearest zero a h = omega arith
quantize_at_nearest (suc zero) a h = omega arith
quantize_at_nearest (suc (suc zero)) a h = omega arith
quantize_at_nearest (suc (suc (suc zero))) a h = omega arith
quantize_at_nearest (suc (suc (suc (suc u)))) a h = absurd (omega arith)

quantize_at_exact : (u k : ℕ) → u ≤ 3 → quantize_at u (k * 10 ^ (6 - u)) ≡ k * 10 ^ (6 - u)
quantize_at_exact zero k h = omega arith
quantize_at_exact (suc zero) k h = omega arith
quantize_at_exact (suc (suc zero)) k h = omega arith
quantize_at_exact (suc (suc (suc zero))) k h = omega arith
quantize_at_exact (suc (suc (suc (suc u)))) k h = absurd (omega arith)

quantize_at_mono : (u a b : ℕ) → u ≤ 3 → a ≤ b → quantize_at u a ≤ quantize_at u b
quantize_at_mono zero a b h le = omega arith
quantize_at_mono (suc zero) a b h le = omega arith
quantize_at_mono (suc (suc zero)) a b h le = omega arith
quantize_at_mono (suc (suc (suc zero))) a b h le = omega arith
quantize_at_mono (suc (suc (suc (suc u)))) a b h le = absurd (omega arith)

pub quantize_nearest :
    (a : ℕ) (currency : String)
    → (2 * quantize a currency ≤ 2 * a + minor currency)
      × (2 * a < 2 * quantize a currency + minor currency)
unfolding minor
quantize_nearest a currency =
    rw (quantize-eq a currency)
      (quantize_at_nearest (minor_units currency) a (minor_units-le currency))

-- An amount of whole minor units is left as it is.
pub quantize-minor :
    (k : ℕ) (currency : String) → quantize (k * minor currency) currency ≡ k * minor currency
unfolding minor
quantize-minor k currency =
    rw (quantize-eq (k * 10 ^ (6 - minor_units currency)) currency)
      (quantize_at_exact (minor_units currency) k (minor_units-le currency))

pub quantize_mono :
    (a b : ℕ) (currency : String) → a ≤ b → quantize a currency ≤ quantize b currency
quantize_mono a b currency le =
    rw (quantize-eq a currency, quantize-eq b currency)
      (quantize_at_mono (minor_units currency) a b (minor_units-le currency) le)

-- What has been rounded is a whole number of minor units, so rounding it again changes nothing.
pub quantize_multiple :
    (a : ℕ) (currency : String) → (k : ℕ) × (quantize a currency ≡ k * minor currency)
unfolding quantize quantize_currency
quantize_multiple a currency = (round_half_up (a * 10 ^ minor_units currency) (10 ^ 6), refl)

pub quantize_idem :
    (a : ℕ) (currency : String) → quantize (quantize a currency) currency ≡ quantize a currency
quantize_idem a currency =
    let (k, e) = quantize_multiple a currency in rw e (quantize-minor k currency)
