-- ===== src/Ledger/Draft.antt =====
-- The draft objects and `validate_draft` of backend/apps/accounting/services/posting.py.
use achr.Prelude.{
  ℕ, String, Bool, true, false, not, ◌&&◌, ◌||◌, Option, none, some, List, [], ◌∷◌, ◌++◌, Outcome,
  ok, err, ◌>>=◌, ◌>>◌, raise_if, length, sum_of, find, ltb, leb, ◌==◌, if◌then◌else◌,
}
use achr.Prelude.Int.{ℤ, pos, pos_part, ltb_ℤ}
use achr.Money.{Decimal, quantize}
use achr.Money.Coerce.{MoneyError, Number, Argument, to_money}
use achr.Ledger.Model.{Date, Account, EntrySource, Dimensions, Books}

-- Every way in which the posting engine refuses. `constraint` is an IntegrityError, or an exception
-- of a trigger, of the database.
pub data PostingError : Type 0 where
  money : MoneyError → PostingError
  negative_line two_sided_line too_few_lines unbalanced zero_amount bad_rate : PostingError
  missing_account not_postable archived no_period period_closed no_journal : PostingError
  no_base_currency rate_on_base_currency no_exchange_rate duplicate_posting constraint :
      PostingError
  illegal_transition blank_reason not_posted already_reversed key_error : PostingError

pub record LineDraft : Type 0 where
  pub account_id : ℕ
  pub debit : ℕ
  pub credit : ℕ
  pub description : String
  pub dimensions : Dimensions

-- An exchange rate as it is supplied, before its sign is checked.
pub record Rate : Type 0 where
  pub is_negative : Bool
  pub value : Decimal

pub record JournalEntryDraft : Type 0 where
  pub journal_code : String
  pub entry_date : Date
  pub currency : String
  pub lines : List LineDraft
  pub memo : String
  pub source : EntrySource
  pub source_document_type : String
  pub source_document_id : Option ℕ
  pub exchange_rate : Rate
  pub idempotency_key : String

-- The two tests of `LineDraft.__post_init__`, on what `to_money` has returned.
unfoldable pub check_line : ℕ → ℤ → ℤ → String → Dimensions → Outcome PostingError LineDraft
check_line account debit credit description dimensions = do
  raise_if (ltb_ℤ debit (pos 0) || ltb_ℤ credit (pos 0)) negative_line
  raise_if (if ltb_ℤ (pos 0) debit then ltb_ℤ (pos 0) credit else not (ltb_ℤ (pos 0) credit))
      two_sided_line
  ok (record {
    account_id = account;
    debit = pos_part debit;
    credit = pos_part credit;
    description = description;
    dimensions = dimensions;
  })

unfoldable pub money_result : Outcome MoneyError ℤ → Outcome PostingError ℤ
money_result (ok n) = ok n
money_result (err e) = err (money e)

-- `LineDraft(account_id=..., debit=..., credit=...)`
unfoldable pub line_draft :
    (String → Option Number)
    → ℕ
    → Argument
    → Argument
    → String
    → Dimensions
    → Outcome PostingError LineDraft
unfolding check_line money_result
line_draft parse account debit credit description dimensions = do
  d ← money_result (to_money parse debit)
  c ← money_result (to_money parse credit)
  check_line account d c description dimensions

-- `JournalEntryDraft.add`
unfoldable pub add : JournalEntryDraft → LineDraft → JournalEntryDraft
add draft line = record draft { lines = draft.lines ++ (line ∷ []) }

abbrev pub total_debit : JournalEntryDraft → ℕ
total_debit draft = sum_of (λ l. l.debit) draft.lines

abbrev pub total_credit : JournalEntryDraft → ℕ
total_credit draft = sum_of (λ l. l.credit) draft.lines

-- `Account.all_tenants.filter(id=..., tenant_id=...)`
abbrev pub is_account : ℕ → ℕ → Account → Bool
is_account tenant id a = a.id == id && a.tenant == tenant

unfoldable pub has_account : ℕ → List Account → LineDraft → Bool
has_account tenant accounts line = elim (find (is_account tenant line.account_id) accounts) [
  | none ↦ false
  | some a ↦ true
]

-- `missing = account_ids - accounts.keys()` is not empty.
unfoldable pub is_missing : ℕ → List Account → List LineDraft → Bool
unfolding has_account
is_missing tenant accounts [] = false
is_missing tenant accounts (l ∷ ls) =
    not (has_account tenant accounts l) || is_missing tenant accounts ls

abbrev names_account : ℕ → List LineDraft → Bool
names_account id [] = false
names_account id (l ∷ ls) = l.account_id == id || names_account id ls

-- The loop over `accounts.values()`: the accounts of the tenant that a line names.
unfoldable pub check_accounts : ℕ → List LineDraft → List Account → Outcome PostingError (Unit {0})
check_accounts tenant lines [] = ok tt
check_accounts tenant lines (a ∷ accounts) = do
  raise_if (a.tenant == tenant && names_account a.id lines && not a.is_postable) not_postable
  raise_if (a.tenant == tenant && names_account a.id lines && not a.is_active) archived
  check_accounts tenant lines accounts

-- `draft.exchange_rate <= ZERO`
abbrev pub is_rate_positive : Rate → Bool
is_rate_positive r = not r.is_negative && ltb 0 r.value.coef

unfoldable pub validate_draft : JournalEntryDraft → ℕ → Books → Outcome PostingError (Unit {0})
unfolding is_missing check_accounts
validate_draft draft tenant books = do
  raise_if (ltb (length draft.lines) 2) too_few_lines
  let rounded_debit = quantize (total_debit draft) draft.currency
  let rounded_credit = quantize (total_credit draft) draft.currency
  raise_if (not (rounded_debit == rounded_credit)) unbalanced
  raise_if (leb rounded_debit 0) zero_amount
  raise_if (not (is_rate_positive draft.exchange_rate)) bad_rate
  raise_if (is_missing tenant books.accounts draft.lines) missing_account
  check_accounts tenant draft.lines books.accounts
