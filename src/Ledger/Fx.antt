-- ===== src/Ledger/Fx.antt =====
-- backend/apps/accounting/services/fx.py: the exchange rate that an entry is posted at.
pub mod Latest
use achr.Prelude.{
  ℕ, String, Bool, true, false, not, ◌&&◌, Option, none, some, List, [], ◌∷◌, Outcome, ok, err,
  ◌>>=◌, ◌>>◌, raise_if, or_raise, find, filter, str_eq, ltb, ◌==◌, if◌then◌else◌,
}
use achr.Money.{Decimal, one, same_value, reciprocal}
use achr.Ledger.Model.{Date, stamp, on_or_before, ExchangeRate, Books}
use achr.Ledger.Draft.{
  PostingError, no_base_currency, rate_on_base_currency, no_exchange_rate, Rate,
}

-- `Tenant.objects.filter(id=...)`, and `if not code` for a blank currency.
unfoldable pub base_currency : ℕ → Books → Outcome PostingError String
base_currency tenant books = do
  t ← or_raise (find (λ t. t.id == tenant) books.tenants) no_base_currency
  raise_if (str_eq t.base_currency "") no_base_currency
  ok t.base_currency

-- The rows of one pair of currencies that are dated on or before a day.
abbrev pub is_rate : ℕ → String → String → Date → ExchangeRate → Bool
is_rate tenant from to day r =
    r.tenant == tenant
    && str_eq r.from_currency from
    && str_eq r.to_currency to
    && on_or_before r.rate_date day

-- `.order_by("-rate_date").first()`: the row with the latest date.
unfoldable pub latest : List ExchangeRate → Option ExchangeRate
latest [] = none
latest (r ∷ rs) = elim (latest rs) [
  | none ↦ some r
  | some best ↦ if ltb (stamp r.rate_date) (stamp best.rate_date) then some best else some r
]

unfoldable pub lookup_rate : ℕ → String → String → Date → Books → Option Decimal
unfolding latest
lookup_rate tenant from to day books =
    if str_eq from to
    then some one
    else elim (latest (filter (is_rate tenant from to day) books.rates)) [
      | some r ↦ some r.rate
      | none ↦ elim (latest (filter (is_rate tenant to from day) books.rates)) [
        | some r ↦ if ltb 0 r.rate.coef then some (reciprocal r.rate) else none
        | none ↦ none
      ]
    ]

-- `supplied != ONE`, of a rate that was supplied.
unfoldable pub is_one : Rate → Bool
unfolding same_value
is_one r = not r.is_negative && same_value r.value one

-- The supplied rate, unless it is missing or 1.
unfoldable pub given_rate : Option Rate → Option Rate
unfolding is_one
given_rate none = none
given_rate (some r) = if is_one r then none else some r

-- `resolve_rate`. A negative rate does not get here: `validate_draft` has refused it.
unfoldable pub resolve_rate : ℕ → String → Date → Option Rate → Books → Outcome PostingError Decimal
unfolding base_currency given_rate
resolve_rate tenant currency day supplied books = do
  base ← base_currency tenant books
  elim (str_eq currency base) [
    | true ↦ elim (given_rate supplied) [ none ↦ ok one | some r ↦ err rate_on_base_currency ]
    | false ↦ elim (given_rate supplied) [
      | some r ↦ ok r.value
      | none ↦ or_raise (lookup_rate tenant currency base day books) no_exchange_rate
    ]
  ]
