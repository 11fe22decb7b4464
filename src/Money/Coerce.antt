-- ===== src/Money/Coerce.antt =====
-- `to_money` of backend/apps/core/fields.py: the gate through which every outside amount passes.
use achr.Prelude.{
  ◌+◌, ◌*◌, ◌^◌, String, Bool, Option, Outcome, ok, err, ◌>>=◌, or_raise, leb, if◌then◌else◌,
}
use achr.Prelude.Int.{ℤ, pos_part, neg_part, sub_ℕ}
use achr.Money.{Decimal, decimal, round_half_up}

-- What `Decimal(value)` can be; `negative` is the sign of a finite value.
pub data Number : Type 0 where
  finite : (negative : Bool) → Decimal → Number
  infinite nan : Number

-- A Python argument, as far as `to_money` looks at it.
pub data Argument : Type 0 where
  bool : Bool → Argument
  int : ℤ → Argument
  str : String → Argument
  dec : Number → Argument
  float other : Argument

-- ValidationErrors by their message, and the `InvalidOperation` that `quantize` raises when the
-- result has more than the context's 38 digits, which nothing here catches.
pub data MoneyError : Type 0 where
  forbidden_type not_valid not_finite precision_exceeded : MoneyError

-- `Decimal(str)` is Python's parser; `none` is its `InvalidOperation`.
module _ (parse : String → Option Number) where
  unfoldable pub to_number : Argument → Outcome MoneyError Number
  to_number (bool b) = err forbidden_type
  to_number (int n) = ok (finite (leb 1 (neg_part n)) (decimal (pos_part n + neg_part n) 0))
  to_number (str s) = or_raise (parse s) not_valid
  to_number (dec n) = ok n
  to_number float = err forbidden_type
  to_number other = err forbidden_type

  -- `dec.quantize(Decimal("0.000001"))`, in millionths.
  unfoldable pub quantize_number : Number → Outcome MoneyError ℤ
  quantize_number (finite negative a) =
      let n = round_half_up (a.coef * 10 ^ 6) (10 ^ a.places) in
      if leb (10 ^ 38) n
      then err precision_exceeded
      else ok (if negative then sub_ℕ 0 n else sub_ℕ n 0)
  quantize_number infinite = err not_finite
  quantize_number nan = err not_finite

  unfoldable pub to_money : Argument → Outcome MoneyError ℤ
  unfolding to_number quantize_number
  to_money value = do n ← to_number value; quantize_number n
