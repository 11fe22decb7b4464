-- ===== src/Tests/Company.antt =====
-- A company with two accounts, one open period and one journal, for the tests of the ledger
-- (backend/apps/accounting).
use achr.Prelude.{ℕ, true, false, none, some, List, [], ◌∷◌, Outcome, ok, err}
use achr.Prelude.Int.{pos}
use achr.Money.{decimal, one}
use achr.Ledger.Model.{
  Date, AccountType, Account, PeriodStatus, FiscalPeriod, JournalKind, Journal, EntrySource,
  Dimensions, DocumentNumber, DocumentSequence, JournalEntry, ExchangeRate, Books,
}
use achr.Ledger.Draft.{LineDraft, JournalEntryDraft}
use achr.Ledger.Posting.{Context, posted_entry}
use achr.Ledger.Reports.{Query}
use achr.Ledger.Corrections.{Printing, reverse_entry, void_entry}

-- The value of an outcome, or another where it is an error.
abbrev pub value_or {ℓ κ} : {E : Type ℓ} {A : Type κ} → A → Outcome E A → A
value_or d (ok a) = a
value_or d (err e) = d

abbrev pub date : ℕ → ℕ → ℕ → Date
date y m d = record { year = y; month = m; day = d }

abbrev pub account : ℕ → AccountType → Account
account id type = record {
  id = id;
  tenant = 1;
  type = type;
  normal_balance_override = none;
  is_postable = true;
  is_active = true;
  system_key = "";
  cached_balance = pos 0;
  cached_balance_as_of = 0;
}

abbrev pub period : PeriodStatus → FiscalPeriod
period status = record {
  id = 7;
  tenant = 1;
  fiscal_year = 3;
  start_date = date 2024 1 1;
  end_date = date 2024 12 31;
  status = status;
  closed_at = none;
  closed_by = none;
}

abbrev pub journal : Journal
journal = record {
  tenant = 1;
  code = "GEN";
  kind = JournalKind.general;
  sequence_prefix = "JE";
  is_active = true;
}

abbrev pub euro_rate : ExchangeRate
euro_rate = record {
  tenant = 1;
  from_currency = "EUR";
  to_currency = "USD";
  rate = decimal 1100000 6;
  rate_date = date 2024 3 1;
}

abbrev pub books : Books
books = record {
  tenants = record { id = 1; base_currency = "USD" } ∷ [];
  accounts = account 10 AccountType.asset ∷ account 20 AccountType.income ∷ [];
  years = record { id = 3; is_closed = false } ∷ [];
  periods = period PeriodStatus.open_ ∷ [];
  journals = journal ∷ [];
  entries = [];
  sequences = [];
  rates = euro_rate ∷ [];
}

abbrev pub no_dimensions : Dimensions
no_dimensions = record {
  partner_type = "";
  partner_id = none;
  project_id = none;
  department_id = none;
  tax_rate_id = none;
}

abbrev pub line : ℕ → ℕ → ℕ → LineDraft
line account debit credit = record {
  account_id = account;
  debit = debit;
  credit = credit;
  description = "";
  dimensions = no_dimensions;
}

abbrev pub draft_of : List LineDraft → JournalEntryDraft
draft_of lines = record {
  journal_code = "GEN";
  entry_date = date 2024 5 6;
  currency = "USD";
  lines = lines;
  memo = "";
  source = EntrySource.manual;
  source_document_type = "";
  source_document_id = none;
  exchange_rate = record { is_negative = false; value = one };
  idempotency_key = "k1";
}

-- Five dollars of income.
abbrev pub sale : JournalEntryDraft
sale = draft_of (line 10 5000000 0 ∷ line 20 0 5000000 ∷ [])

abbrev pub clerk : Context
clerk = record { tenant = 1; user = some 5; fresh = 100; now = 50 }

-- What posting the sale leaves.
abbrev pub first_number : DocumentNumber
first_number = record { prefix = "JE"; year = 2024; value = 1; padding = 6 }

abbrev pub counter : DocumentSequence
counter = record {
  tenant = 1;
  scope = "journal:GEN";
  year = 2024;
  prefix = "JE";
  next_value = 2;
  padding = 6;
}

abbrev pub sale_entry : JournalEntry
sale_entry = posted_entry clerk sale (period PeriodStatus.open_) one "USD" first_number

abbrev pub moved_account : ℕ → AccountType → Account
moved_account id type = record (account id type) {
  cached_balance = pos 5000000;
  cached_balance_as_of = 50;
}

abbrev pub books_after : Books
books_after = record books {
  accounts = moved_account 10 AccountType.asset ∷ moved_account 20 AccountType.income ∷ [];
  entries = sale_entry ∷ [];
  sequences = counter ∷ [];
}

-- The run after it, by the same clerk.
abbrev pub second : Context
second = record clerk { fresh = 101; now = 60 }

abbrev pub print : Printing
print = record { show_id = λ n. "100"; show_number = λ n. "JE-2024-000001" }

abbrev pub june : Date
june = date 2024 6 1

abbrev pub this_year : Query
this_year = record {
  tenant = 1;
  include_unposted = false;
  ignore_period = false;
  date_from = some (date 2024 1 1);
  date_to = some (date 2024 12 31);
  context_from = none;
  context_to = none;
  as_of = none;
  department = none;
  project = none;
}

abbrev pub reversed : JournalEntry × Books
reversed =
    value_or (sale_entry, books_after) (reverse_entry print second sale_entry june "" books_after)

abbrev pub voided : JournalEntry × Books
voided = value_or (sale_entry, books_after) (void_entry 60 sale_entry "typo" books_after)
