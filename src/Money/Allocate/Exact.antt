-- ===== src/Money/Allocate/Exact.antt =====
-- The shares of an allocation add up (backend/apps/core/fields.py).
use achr.Prelude.{
  ℕ, zero, suc, ◌+◌, ◌-◌, ◌*◌, ◌/◌, ◌%◌, ◌^◌, ◌≤◌, ◌<◌, ◌==◌, ◌||◌, ◌≡◌, refl, sym, ap, ◌∙◌, subst,
  String, false, List, [], ◌∷◌, All, length, sum_of, arith, Bool-cases, inl, inr, ok,
  raise_if-eq-ok, ok-injective,
}
use native.Mathlib.Nat.{mul_comm, mul-sub, mul-div_cancel}
use achr.Money.{minor, minor_units, quantize}
use achr.Money.Rounding.{quantize_multiple}
use achr.Money.Allocate.{
  raw_share, round_down, Ranked, less, insert, sorted, ranked, floored_shares, index_at, bump,
  hand_out, allocate, zero_total_weight,
}

abbrev total_of : List ℕ → ℕ
total_of ns = sum_of (λ (n : ℕ). n) ns

abbrev Below : ℕ → Ranked → Type 0
Below n x = x.1 < n

insert-Below :
    (n : ℕ) (x : Ranked) (ys : List Ranked)
    → Below n x
    → All (Below n) ys
    → All (Below n) (insert x ys)
unfolding insert
insert-Below n x [] h all = (h, tt)
insert-Below n x (y ∷ ys) h all = elim (Bool-cases (less x.0 y.0)) [
  | inl smaller ↦ rw (insert, smaller) (all.0, insert-Below n x ys h all.1)
  | inr other ↦ rw (insert, other) (h, all)
]

insert-length : (x : Ranked) (ys : List Ranked) → length (insert x ys) ≡ suc (length ys)
unfolding insert
insert-length x [] = refl
insert-length x (y ∷ ys) = elim (Bool-cases (less x.0 y.0)) [
  | inl smaller ↦ let rest = insert-length x ys in rw (insert, smaller) (omega (arith, rest))
  | inr other ↦ rw (insert, other) refl
]

sorted-Below : (n : ℕ) (xs : List Ranked) → All (Below n) xs → All (Below n) (sorted xs)
unfolding sorted
sorted-Below n [] all = tt
sorted-Below n (x ∷ xs) all = insert-Below n x (sorted xs) all.0 (sorted-Below n xs all.1)

sorted-length : (xs : List Ranked) → length (sorted xs) ≡ length xs
unfolding sorted
sorted-length [] = refl
sorted-length (x ∷ xs) = omega (arith, insert-length x (sorted xs), sorted-length xs)

ranked-Below :
    (total weight_total : ℕ) (currency : String) (index n : ℕ) (ws : List ℕ)
    → index + length ws ≤ n
    → All (Below n) (ranked total weight_total currency index ws)
unfolding ranked
ranked-Below total weight_total currency index n [] h = tt
ranked-Below total weight_total currency index n (w ∷ ws) h =
    (omega arith, ranked-Below total weight_total currency (suc index) n ws (omega arith))

ranked-length :
    (total weight_total : ℕ) (currency : String) (index : ℕ) (ws : List ℕ)
    → length (ranked total weight_total currency index ws) ≡ length ws
unfolding ranked
ranked-length total weight_total currency index [] = refl
ranked-length total weight_total currency index (w ∷ ws) =
    omega (arith, ranked-length total weight_total currency (suc index) ws)

floored-length :
    (total weight_total : ℕ) (currency : String) (ws : List ℕ)
    → length (floored_shares total weight_total currency ws) ≡ length ws
unfolding floored_shares
floored-length total weight_total currency [] = refl
floored-length total weight_total currency (w ∷ ws) =
    omega (arith, floored-length total weight_total currency ws)

index_at-Below : (n i : ℕ) (xs : List Ranked) → i < length xs → All (Below n) xs → index_at i xs < n
unfolding index_at
index_at-Below n i [] h all = omega arith
index_at-Below n zero (x ∷ xs) h all = all.0
index_at-Below n (suc i) (x ∷ xs) h all = index_at-Below n i xs (omega arith) all.1

bump-sum :
    (j step : ℕ) (xs : List ℕ) → j < length xs → total_of (bump j step xs) ≡ total_of xs + step
unfolding bump
bump-sum j step [] h = omega arith
bump-sum zero step (x ∷ xs) h = omega arith
bump-sum (suc j) step (x ∷ xs) h =
    let rest = bump-sum j step xs (omega arith) in omega (arith, rest)

bump-length : (j step : ℕ) (xs : List ℕ) → length (bump j step xs) ≡ length xs
unfolding bump
bump-length j step [] = refl
bump-length zero step (x ∷ xs) = refl
bump-length (suc j) step (x ∷ xs) = omega (arith, bump-length j step xs)

-- The loop hands out all of a residual of as many steps as it has fuel.
hand_out-sum :
    (fuel residual step i : ℕ) (order : List Ranked) (floored : List ℕ)
    → residual ≡ fuel * step
    → 0 < length order
    → All (Below (length floored)) order
    → (total_of (hand_out fuel residual step i order floored) ≡ total_of floored + residual)
      × (length (hand_out fuel residual step i order floored) ≡ length floored)
unfolding hand_out
hand_out-sum zero residual step i order floored h some_ all = (omega (arith, h), refl)
hand_out-sum (suc fuel) residual step i order floored h some_ all =
    elim (Bool-cases (residual == 0 || length order == 0)) [
      | inl stop ↦
          let none_left : residual ≡ 0 = ground (arith, stop, some_) in
          rw (hand_out, stop) (omega (arith, none_left), refl)
      | inr go ↦
          let j = index_at (i % length order) order in
          let inside : i % length order < length order = omega arith in
          let at = index_at-Below (length floored) (i % length order) order inside all in
          let kept = bump-length j step floored in
          let (sum, len) =
            hand_out-sum fuel (residual - step) step (i + 1) order (bump j step floored)
              (omega (arith, h)) some_ (subst (λ n. All (Below n) order) (sym kept) all) in
          let more = bump-sum j step floored at in
          rw (hand_out, go) (omega (arith, sum, more, h), len ∙ kept)
    ]

weights_some : (ws : List ℕ) → (total_of ws == 0) ≡ false → 0 < length ws
weights_some [] h = cc
weights_some (w ∷ ws) h = omega arith

pow_positive : (n : ℕ) → n ≤ 6 → 0 < 10 ^ n
pow_positive zero h = omega arith
pow_positive (suc zero) h = omega arith
pow_positive (suc (suc zero)) h = omega arith
pow_positive (suc (suc (suc zero))) h = omega arith
pow_positive (suc (suc (suc (suc zero)))) h = omega arith
pow_positive (suc (suc (suc (suc (suc zero))))) h = omega arith
pow_positive (suc (suc (suc (suc (suc (suc zero)))))) h = omega arith
pow_positive (suc (suc (suc (suc (suc (suc (suc n))))))) h = omega arith

minor_positive : (currency : String) → 0 < minor currency
unfolding minor
minor_positive currency = pow_positive (6 - minor_units currency) (omega arith)

floored_multiple :
    (total weight_total : ℕ) (currency : String) (ws : List ℕ)
    → (k : ℕ) × (total_of (floored_shares total weight_total currency ws) ≡ k * minor currency)
unfolding floored_shares round_down
floored_multiple total weight_total currency [] = (0, omega arith)
floored_multiple total weight_total currency (w ∷ ws) =
    let (k, e) = floored_multiple total weight_total currency ws in
    let r = raw_share total weight_total w in
    let q = r.coef * 10 ^ minor_units currency / 10 ^ r.places in (q + k, omega (arith, e))

-- What is left after the floors is a whole number of minor units.
residual_steps : (q f m t k : ℕ) → q ≡ t * m → f ≡ k * m → 0 < m → q - f ≡ (q - f) / m * m
residual_steps q f m t k e g positive =
    let whole : q - f ≡ (t - k) * m =
      rw (e, g)
        (ap (λ x. x - k * m) (mul_comm t m)
          ∙ ap (λ x. m * t - x) (mul_comm k m)
          ∙ sym (mul-sub m t k)
          ∙ mul_comm m (t - k)) in
    whole
    ∙ ap (λ n. n * m) (sym (mul-div_cancel (t - k) positive))
    ∙ ap (λ n. n / m * m) (sym whole)

-- The shares of an allocation that returns are as many as the weights, and add up to the total rounded
-- to the currency exactly, so the loop's rounds, one for each minor unit of the residual, suffice;
-- provided that the shares rounded down do not exceed the rounded total together.
pub allocate_exact :
    (total : ℕ) (weights : List ℕ) (currency : String) (shares : List ℕ)
    → sum_of (λ (n : ℕ). n) (floored_shares total (sum_of (λ (w : ℕ). w) weights) currency weights)
      ≤ quantize total currency
    → allocate total weights currency ≡ ok shares
    → (sum_of (λ (n : ℕ). n) shares ≡ quantize total currency) × (length shares ≡ length weights)
unfolding allocate
allocate_exact total weights currency shares fits h =
    let weight_total = total_of weights in
    let floored = floored_shares total weight_total currency weights in
    let keys = ranked total weight_total currency 0 weights in
    let residual = quantize total currency - total_of floored in
    let (nonzero, h1) = raise_if-eq-ok (weight_total == 0) zero_total_weight _ h in
    let many = floored-length total weight_total currency weights in
    let (t, e) = quantize_multiple total currency in
    let (k, g) = floored_multiple total weight_total currency weights in
    let steps =
      residual_steps (quantize total currency) (total_of floored) (minor currency) t k e g
        (minor_positive currency) in
    let some_ : 0 < length (sorted keys) = omega (
      arith,
      sorted-length keys,
      ranked-length total weight_total currency 0 weights,
      weights_some weights nonzero,
    ) in
    let below =
      ranked-Below total weight_total currency 0 (length floored) weights (omega (arith, many)) in
    let (sum, len) =
      hand_out-sum (residual / minor currency) residual (minor currency) 0 (sorted keys) floored
        steps some_ (sorted-Below (length floored) keys below) in
    let out = sym (ok-injective h1) in
    (ap total_of out ∙ sum ∙ omega (arith, fits), ap (λ (xs : List ℕ). length xs) out ∙ len ∙ many)
