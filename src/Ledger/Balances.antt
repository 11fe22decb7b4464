-- ===== src/Ledger/Balances.antt =====
-- `_apply_to_cached_balances` of backend/apps/accounting/services/posting.py.
pub mod Net
use achr.Prelude.{
  ℕ, Bool, true, false, Option, none, some, List, [], ◌∷◌, Outcome, ok, err, ◌>>=◌, or_raise, find,
  update, ◌==◌, if◌then◌else◌,
}
use achr.Prelude.Int.{ℤ, pos, ◌+ℤ◌, ◌-ℤ◌, neg}
use achr.Ledger.Model.{Account, increases_on_debit, JournalLine}
use achr.Ledger.Draft.{PostingError, key_error, is_account}

-- The `sign` of a posting (1) or of a cancellation (-1).
pub data Sign : Type 0 where
  plus minus : Sign

abbrev pub signed : Sign → ℤ → ℤ
signed plus x = x
signed minus x = neg x

-- What a line adds to the balance of an account with this normal side.
unfoldable pub movement : Bool → JournalLine → ℤ
movement true l = pos l.debit -ℤ pos l.credit
movement false l = pos l.credit -ℤ pos l.debit

abbrev pub Delta : Type 0
Delta = List (ℕ × ℤ)

-- `delta[id] = delta.get(id, ZERO) + amount`
unfoldable pub add_delta : ℕ → ℤ → Delta → Delta
add_delta id amount [] = (id, pos 0 +ℤ amount) ∷ []
add_delta id amount ((j, x) ∷ d) =
    if j == id then (j, x +ℤ amount) ∷ d else (j, x) ∷ add_delta id amount d

-- The loop over the lines. An account that is not in the tenant is a KeyError.
unfoldable pub deltas :
    ℕ → List Account → Sign → List JournalLine → Delta → Outcome PostingError Delta
unfolding movement add_delta
deltas tenant accounts sign [] d = ok d
deltas tenant accounts sign (l ∷ ls) d = do
  a ← or_raise (find (is_account tenant l.account_id) accounts) key_error
  deltas tenant accounts sign ls
      (add_delta a.id (signed sign (movement (increases_on_debit a) l)) d)

-- One `UPDATE ... SET cached_balance = cached_balance + amount`.
unfoldable pub move_balance : ℕ → ℕ → ℤ → List Account → List Account
move_balance now id amount =
    update (λ a. a.id == id)
      λ a. record a { cached_balance = a.cached_balance +ℤ amount; cached_balance_as_of = now }

unfoldable pub move_balances : ℕ → Delta → List Account → List Account
unfolding move_balance
move_balances now [] accounts = accounts
move_balances now ((id, amount) ∷ d) accounts =
    move_balances now d (move_balance now id amount accounts)

unfoldable pub apply_to_cached_balances :
    ℕ → ℕ → Sign → List JournalLine → List Account → Outcome PostingError (List Account)
unfolding deltas move_balances
apply_to_cached_balances tenant now sign lines accounts = do
  d ← deltas tenant accounts sign lines []
  ok (move_balances now d accounts)
