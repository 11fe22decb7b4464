-- ===== src/Money/Allocate.antt =====
-- `allocate` of backend/apps/core/fields.py: a total that is not negative, over weights that are not.
pub mod Exact
use achr.Prelude.{
  ℕ, zero, suc, ◌+◌, ◌-◌, ◌*◌, ◌/◌, ◌%◌, ◌^◌, String, Bool, List, [], ◌∷◌, Outcome, ok, raise_if,
  ◌>>◌, length, sum_of, ltb, leb, ◌==◌, ◌||◌, if◌then◌else◌,
}
use achr.Money.{Decimal, decimal, round_half_up, minor, minor_units, quantize}

pub data AllocateError : Type 0 where
  zero_total_weight : AllocateError

-- The number of places, of at most `fuel` more than `p`, at which n / d has the 38 digits of
-- MONEY_CONTEXT.
unfoldable pub places_of : ℕ → ℕ → ℕ → ℕ → ℕ
places_of zero p n d = p
places_of (suc fuel) p n d =
    let rest = places_of fuel (p + 1) (n * 10) d in if leb (10 ^ 38) (n * 10 / d) then p else rest

-- `total * w / weight_total`: the product of two columns of 19 digits is exact, the quotient has 38
-- digits, to the nearest; 64 places are more than it takes.
unfoldable pub raw_share : ℕ → ℕ → ℕ → Decimal
unfolding places_of
raw_share total weight_total w =
    let p = places_of 64 0 (total * w) (weight_total * 10 ^ 6) in
    decimal (round_half_up (total * w * 10 ^ p) (weight_total * 10 ^ 6)) p

-- `r.quantize(exponent, rounding=ROUND_DOWN)`, in millionths.
unfoldable pub round_down : String → Decimal → ℕ
round_down currency r = r.coef * 10 ^ minor_units currency / 10 ^ r.places * minor currency

-- `raw[i] - floored[i]`
unfoldable pub remainder : Decimal → ℕ → Decimal
remainder r floored = decimal (r.coef * 10 ^ 6 - floored * 10 ^ r.places) (r.places + 6)

-- An index with its sort key.
abbrev pub Ranked : Type 0
Ranked = Decimal × ℕ

abbrev pub less : Decimal → Decimal → Bool
less a b = ltb (a.coef * 10 ^ b.places) (b.coef * 10 ^ a.places)

unfoldable pub insert : Ranked → List Ranked → List Ranked
insert x [] = x ∷ []
insert x (y ∷ ys) = let rest = insert x ys in if less x.0 y.0 then y ∷ rest else x ∷ y ∷ ys

-- `sorted(range(len(raw)), key=..., reverse=True)`, where equal keys keep their order.
unfoldable pub sorted : List Ranked → List Ranked
unfolding insert
sorted [] = []
sorted (x ∷ xs) = insert x (sorted xs)

-- The keys of the weights from an index on.
unfoldable pub ranked : ℕ → ℕ → String → ℕ → List ℕ → List Ranked
unfolding raw_share round_down remainder
ranked total weight_total currency index [] = []
ranked total weight_total currency index (w ∷ ws) =
    let r = raw_share total weight_total w in
    (remainder r (round_down currency r), index) ∷ ranked total weight_total currency (suc index) ws

unfoldable pub floored_shares : ℕ → ℕ → String → List ℕ → List ℕ
unfolding raw_share round_down
floored_shares total weight_total currency [] = []
floored_shares total weight_total currency (w ∷ ws) =
    round_down currency (raw_share total weight_total w)
    ∷ floored_shares total weight_total currency ws

-- `order[i]`, of an index in range.
unfoldable pub index_at : ℕ → List Ranked → ℕ
index_at i [] = 0
index_at zero (x ∷ xs) = x.1
index_at (suc i) (x ∷ xs) = index_at i xs

-- `floored[j] += step`
unfoldable pub bump : ℕ → ℕ → List ℕ → List ℕ
bump j step [] = []
bump zero step (x ∷ xs) = (x + step) ∷ xs
bump (suc j) step (x ∷ xs) = x ∷ bump j step xs

-- The `while` loop, of at most `fuel` rounds.
unfoldable pub hand_out : ℕ → ℕ → ℕ → ℕ → List Ranked → List ℕ → List ℕ
unfolding index_at bump
hand_out zero residual step i order floored = floored
hand_out (suc fuel) residual step i order floored =
    let rest =
      hand_out fuel (residual - step) step (i + 1) order
        (bump (index_at (i % length order) order) step floored) in
    if residual == 0 || length order == 0 then floored else rest

-- `allocate`. Each round hands out one minor unit, so the residual has as many rounds as minor units;
-- one that is negative has none.
unfoldable pub allocate : ℕ → List ℕ → String → Outcome AllocateError (List ℕ)
unfolding sorted ranked floored_shares hand_out
allocate total weights currency =
    let weight_total = sum_of (λ w. w) weights in
    let floored = floored_shares total weight_total currency weights in
    let residual = quantize total currency - sum_of (λ n. n) floored in
    raise_if (weight_total == 0) zero_total_weight
    >> ok (
        hand_out (residual / minor currency) residual (minor currency) 0
          (sorted (ranked total weight_total currency 0 weights)) floored)
