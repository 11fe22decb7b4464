-- ===== src/Invoices/Model.antt =====
-- The tables of sales documents that the invoice workflow reads and writes: backend/apps/sales/models.py
-- and PaymentApplication of backend/apps/payments/models.py. Amounts are in millionths.
use achr.Prelude.{
  ℕ, ◌+◌, ◌==◌, String, Bool, not, ◌&&◌, ◌||◌, Option, none, some, List, str_eq, true, false,
}
use achr.Status.{TransitionError}
use achr.Ledger.Model.{Date, on_or_before, DocumentNumber, Books}
use achr.Ledger.Draft.{PostingError, Rate, is_rate_positive}

pub record Customer : Type 0 where
  pub id : ℕ
  pub name : String
  pub receivable_account_id : ℕ

-- `number` is `none` while it is blank.
pub record Invoice : Type 0 where
  pub id : ℕ
  pub tenant : ℕ
  pub customer : Customer
  pub number : Option DocumentNumber
  pub issue_date : Date
  pub due_date : Date
  pub currency : String
  pub exchange_rate : Rate
  pub subtotal_amount : ℕ
  pub discount_amount : ℕ
  pub tax_amount : ℕ
  pub total_amount : ℕ
  pub amount_paid : ℕ
  pub amount_due : ℕ
  pub status : String
  pub journal_entry : Option ℕ
  pub project_id : Option ℕ
  pub sent_at : Option ℕ
  pub paid_at : Option ℕ
  pub void_reason : String
  pub written_off_at : Option ℕ
  pub updated_by : Option ℕ

pub record TaxRate : Type 0 where
  pub id : ℕ
  pub collected_account_id : ℕ

pub record InvoiceLine : Type 0 where
  pub id : ℕ
  pub tenant : ℕ
  pub invoice : ℕ
  pub item_id : Option ℕ
  pub description : String
  pub tax_rate : Option TaxRate
  pub line_subtotal : ℕ
  pub line_tax : ℕ
  pub income_account_id : ℕ
  pub project_id : Option ℕ

pub record PaymentApplication : Type 0 where
  pub tenant : ℕ
  pub invoice : ℕ
  pub amount : ℕ
  pub is_reversed : Bool

-- Each table in its default ordering, the lines by their number.
pub record Sales : Type 0 where
  pub invoices : List Invoice
  pub lines : List InvoiceLine
  pub applications : List PaymentApplication
  pub books : Books

-- ValidationErrors by their message, and the IntegrityErrors of the database.
pub data InvoiceError : Type 0 where
  posting : PostingError → InvoiceError
  transition : TransitionError → InvoiceError
  not_found no_account no_lines zero_value already_posted not_payable overpaid no_reason
        has_payments nothing_due constraint :
      InvoiceError

abbrev pub has_number : Option DocumentNumber → Bool
has_number none = false
has_number (some n) = true

-- The CHECK constraints of `Invoice`; those that no amount is negative are what ℕ says.
unfoldable pub invoice_ok : Invoice → Bool
invoice_ok i =
    i.amount_due + i.amount_paid == i.total_amount
    && i.total_amount + i.discount_amount == i.subtotal_amount + i.tax_amount
    && on_or_before i.issue_date i.due_date
    && is_rate_positive i.exchange_rate
    && (str_eq "draft" i.status || has_number i.number)
    && (not (str_eq "voided" i.status) || not (str_eq "" i.void_reason))
