-- ===== src/Ledger/Fx/Latest.antt =====
-- Which rate a foreign entry is posted at (backend/apps/accounting/services/fx.py).
use achr.Prelude.{
  ℕ, ◌≤◌, ◌≡◌, refl, sym, ap, ◌∙◌, subst, ◌⊎◌, inl, inr, String, Bool, true, false, Option, none,
  some, some-injective, List, [], ◌∷◌, ok, or_raise, or_raise-eq-ok, filter, str_eq, ltb,
  if◌then◌else◌, arith, All, Bool-cases, Option-cases,
}
use achr.Money.{Decimal, reciprocal}
use achr.Ledger.Model.{Date, stamp, ExchangeRate, Books}
use achr.Ledger.Draft.{no_exchange_rate, Rate}
use achr.Ledger.Fx.{base_currency, is_rate, latest, lookup_rate, given_rate, resolve_rate}

-- A row of a list than which none is later.
abbrev pub IsLatest : ExchangeRate → List ExchangeRate → Type 0
IsLatest best rs = All (λ (r : ExchangeRate). stamp r.rate_date ≤ stamp best.rate_date) rs

-- Membership of a list.
abbrev pub Mem : ExchangeRate → List ExchangeRate → Type 0
Mem x [] = ⊥
Mem x (r ∷ rs) = (x ≡ r) ⊎ Mem x rs

later :
    (a b : ExchangeRate) (rs : List ExchangeRate)
    → stamp a.rate_date ≤ stamp b.rate_date
    → IsLatest a rs
    → IsLatest b rs
later a b [] le h = tt
later a b (r ∷ rs) le h = ((let here = h.0 in omega arith), later a b rs le h.1)

none-latest : (rs : List ExchangeRate) → latest rs ≡ none → rs ≡ []
unfolding latest
none-latest [] h = refl
none-latest (r ∷ rs) h = ground (arith)

-- The row that the last step of `latest` picks.
picked :
    (r b best : ExchangeRate)
    → (if ltb (stamp r.rate_date) (stamp b.rate_date) then some b else some r) ≡ some best
    → ((best ≡ b) × (stamp r.rate_date ≤ stamp b.rate_date))
      ⊎ ((best ≡ r) × (stamp b.rate_date ≤ stamp r.rate_date))
picked r b best h = elim (Bool-cases (ltb (stamp r.rate_date) (stamp b.rate_date))) [
  | inl e ↦ inl (sym (some-injective _ _ (rw e at h)), ground (arith, e))
  | inr e ↦ inr (sym (some-injective _ _ (rw e at h)), ground (arith, e))
]

latest-IsLatest :
    (rs : List ExchangeRate) (best : ExchangeRate)
    → latest rs ≡ some best
    → IsLatest best rs × Mem best rs
unfolding latest
latest-IsLatest [] best h = cc
latest-IsLatest (r ∷ rs) best h = elim (Option-cases (latest rs)) [
  | inl e ↦
      let same : r ≡ best = some-injective _ _ (rw (e, latest) at h) in
      let alone = none-latest rs e in
      subst (λ b. IsLatest b (r ∷ rs) × Mem b (r ∷ rs)) same
        (subst (λ t. IsLatest r (r ∷ t) × Mem r (r ∷ t)) (sym alone) ((omega arith, tt), inl refl))
  | inr (b, e) ↦
      let (upto, among) = latest-IsLatest rs b e in
      elim (picked r b best (rw (e, latest) at h)) [
        | inl (same, le) ↦
            subst (λ x. IsLatest x (r ∷ rs) × Mem x (r ∷ rs)) (sym same) ((le, upto), inr among)
        | inr (same, le) ↦
            subst (λ x. IsLatest x (r ∷ rs) × Mem x (r ∷ rs)) (sym same)
              ((omega arith, later b r rs le upto), inl refl)
      ]
]

Mem-filter :
    (p : ExchangeRate → Bool) (rs : List ExchangeRate) (best : ExchangeRate)
    → Mem best (filter p rs)
    → (p best ≡ true) × Mem best rs
Mem-filter p [] best m = absurd m
Mem-filter p (r ∷ rs) best m = elim (Bool-cases (p r)) [
  | inl e ↦
      let split : (best ≡ r) ⊎ Mem best (filter p rs) = rw e at m in
      elim split [
        | inl same ↦ (ap p same ∙ e, inl same)
        | inr rest ↦ let (holds, among) = Mem-filter p rs best rest in (holds, inr among)
      ]
  | inr e ↦ let (holds, among) = Mem-filter p rs best (rw e at m) in (holds, inr among)
]

-- A stored rate for a pair of currencies: of the tenant, from the one to the other, dated on or before
-- the day, and with no later one of that pair among the rates.
pub IsRateOn : ℕ → String → String → Date → List ExchangeRate → ExchangeRate → Type 0
IsRateOn tenant from to day rates best =
    Mem best rates
    × (is_rate tenant from to day best ≡ true)
    × IsLatest best (filter (is_rate tenant from to day) rates)

rate-IsRateOn :
    (tenant : ℕ) (from to : String) (day : Date) (rates : List ExchangeRate) (best : ExchangeRate)
    → latest (filter (is_rate tenant from to day) rates) ≡ some best
    → IsRateOn tenant from to day rates best
unfolding IsRateOn
rate-IsRateOn tenant from to day rates best h =
    let (upto, among) = latest-IsLatest (filter (is_rate tenant from to day) rates) best h in
    let (holds, there) = Mem-filter (is_rate tenant from to day) rates best among in
    (there, holds, upto)

usable :
    (r : ExchangeRate) (rate : Decimal)
    → (if ltb 0 r.rate.coef then some (reciprocal r.rate) else none) ≡ some rate
    → rate ≡ reciprocal r.rate
usable r rate h = elim (Bool-cases (ltb 0 r.rate.coef)) [
  | inl e ↦ sym (some-injective _ _ (rw e at h))
  | inr e ↦ let none_some : ◌≡◌ {A = Option Decimal} none (some rate) = rw e at h in cc
]

lookup_rate-lem :
    (tenant : ℕ) (from to : String) (day : Date) (books : Books) (rate : Decimal)
    → str_eq from to ≡ false
    → lookup_rate tenant from to day books ≡ some rate
    → (best : ExchangeRate) × ((IsRateOn tenant from to day books.rates best × (rate ≡ best.rate))
        ⊎ ((filter (is_rate tenant from to day) books.rates ≡ [])
            × IsRateOn tenant to from day books.rates best
            × (rate ≡ reciprocal best.rate)))
unfolding lookup_rate
lookup_rate-lem tenant from to day books rate foreign h =
    elim (Option-cases (latest (filter (is_rate tenant from to day) books.rates))) [
      | inr (r, e) ↦
          let got : some r.rate ≡ some rate = rw (foreign, e, lookup_rate) at h in
          (r, inl (rate-IsRateOn tenant from to day books.rates r e, sym (some-injective _ _ got)))
      | inl e ↦ elim (Option-cases (latest (filter (is_rate tenant to from day) books.rates))) [
        | inr (r, f) ↦ (
          r,
          inr (
            none-latest (filter (is_rate tenant from to day) books.rates) e,
            rate-IsRateOn tenant to from day books.rates r f,
            usable r rate (rw (foreign, e, f, lookup_rate) at h),
          ),
        )
        | inl f ↦
            let none_some : ◌≡◌ {A = Option Decimal} none (some rate) =
              rw (foreign, e, f, lookup_rate) at h in
            cc
      ]
    ]

-- In a currency other than the base, and with no rate but 1 supplied, the rate that is resolved is
-- that of the latest stored row from the currency to the base on or before the day; or, where
-- there is no such row, the reciprocal of the latest from the base to the currency.
pub resolve_rate_foreign :
    (tenant : ℕ) (currency base : String) (day : Date) (supplied : Option Rate) (books : Books)
    (rate : Decimal)
    → base_currency tenant books ≡ ok base
    → str_eq currency base ≡ false
    → given_rate supplied ≡ none
    → resolve_rate tenant currency day supplied books ≡ ok rate
    → (best : ExchangeRate) × ((IsRateOn tenant currency base day books.rates best
          × (rate ≡ best.rate))
        ⊎ ((filter (is_rate tenant currency base day) books.rates ≡ [])
            × IsRateOn tenant base currency day books.rates best
            × (rate ≡ reciprocal best.rate)))
unfolding resolve_rate
resolve_rate_foreign tenant currency base day supplied books rate based foreign ungiven h =
    let h2 : or_raise (lookup_rate tenant currency base day books) no_exchange_rate ≡ ok rate =
      ground (arith, h, based, foreign, ungiven) in
    lookup_rate-lem tenant currency base day books rate foreign
      (or_raise-eq-ok (lookup_rate tenant currency base day books) no_exchange_rate h2)
