-- ===== src/Tests/Shares.antt =====
-- An allocation at a concrete input (backend/apps/core/fields.py).
use achr.Prelude.{ℕ, ◌≡◌, ◌≤◌, refl, List, [], ◌∷◌, length, sum_of, arith, ok}
use achr.Money.{
  quantize, quantize_currency, minor, minor_units, units_in, same_code, to_upper, round_half_up,
}
use achr.Money.Allocate.{
  places_of, raw_share, round_down, remainder, insert, sorted, ranked, floored_shares, index_at,
  bump, hand_out, allocate,
}
use achr.Money.Allocate.Exact.{allocate_exact}

-- Ten dollars in three parts.
abbrev thirds : List ℕ
thirds = 1000000 ∷ 1000000 ∷ 1000000 ∷ []

abbrev shares : List ℕ
shares = 3340000 ∷ 3330000 ∷ 3330000 ∷ []

thirds_allocated : allocate 10000000 thirds "USD" ≡ ok shares
unfolding allocate sorted insert ranked raw_share places_of round_down remainder floored_shares
    hand_out index_at bump quantize quantize_currency minor minor_units units_in same_code to_upper
    round_half_up
thirds_allocated = refl

floors_fit :
    sum_of (λ (n : ℕ). n) (floored_shares 10000000 (sum_of (λ (w : ℕ). w) thirds) "USD" thirds)
    ≤ quantize 10000000 "USD"
unfolding raw_share places_of round_down floored_shares quantize quantize_currency minor minor_units
    units_in same_code to_upper round_half_up
floors_fit = omega arith

allocate_exact_example :
    (sum_of (λ (n : ℕ). n) shares ≡ quantize 10000000 "USD") × (length shares ≡ length thirds)
allocate_exact_example = allocate_exact 10000000 thirds "USD" shares floors_fit thirds_allocated
