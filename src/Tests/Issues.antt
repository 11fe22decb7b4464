-- ===== src/Tests/Issues.antt =====
-- An invoice that is issued and voided, at concrete inputs
-- (backend/apps/sales/services/invoice_workflow.py).
use achr.Prelude.{◌≡◌, refl, none, some, [], ◌∷◌, find, ok, is_blank}
use achr.Prelude.Int.{◌+ℤ◌, ◌-ℤ◌, neg}
use achr.Money.{
  quantize, quantize_currency, minor, round_half_up, minor_units, units_in, same_code, to_upper,
  same_value, mul, round_digits,
}
use achr.Ledger.Model.{increases_on_debit, normal_balance}
use achr.Ledger.Draft.{validate_draft, is_missing, has_account, check_accounts}
use achr.Ledger.Fx.{resolve_rate, given_rate, is_one, base_currency}
use achr.Ledger.Numbering.{allocate_number, get_or_create, save_next, journal_scope}
use achr.Ledger.Balances.{
  apply_to_cached_balances, deltas, add_delta, movement, move_balances, move_balance,
}
use achr.Ledger.Guards.{
  insert_entry, period_locked, entry_ok, same_number, lines_ok, line_ok, entry_balanced,
}
use achr.Ledger.Posting.{
  post_entry, existing, post_new, prepare, resolve_period, write_entry, posted_entry, post_lines,
  post_line, stored_rate,
}
use achr.Ledger.Model.{AccountType, Account}
use achr.Ledger.Draft.{is_account, check_line}
use achr.Ledger.Numbering.{allocate_document_number, skip_taken}
use achr.Ledger.Corrections.{
  void_entry, assert_can_transition, may_become as entry_may_become, is_period_open, void_balances,
  keeps_terminal, update_entry,
}
use achr.Status
use achr.Invoices.Model.{Invoice, Sales, invoice_ok}
use achr.Invoices.{locked_invoice, save_invoice, may_become, void_invoice}
use achr.Invoices.Issuing.{
  system_account, income_lines, add_tax, tax_by_account, tax_lines, discount_lines,
  build_invoice_entry, release_stock, issue_invoice, write_off_invoice,
}
use achr.Invoices.Undone.{void_invoice-issue_invoice}
use achr.Tests.Company.{value_or, books, clerk, second, print, journal, account}
use achr.Tests.Sales.{bill, sales, no_stock, june}

abbrev drafted : Invoice
drafted = record bill { status = "draft"; number = none }

abbrev desk : Sales
desk = record sales {
  invoices = drafted ∷ [];
  books = record books { journals = record journal { code = "SAL" } ∷ [] };
}

abbrev after_issue : Invoice × Sales
after_issue = value_or (drafted, desk) (issue_invoice no_stock print clerk 40 30 desk)

was_issued : issue_invoice no_stock print clerk 40 30 desk ≡ ok after_issue
unfolding validate_draft is_missing has_account check_accounts quantize quantize_currency minor
    round_half_up minor_units units_in same_code to_upper post_entry existing post_new prepare
    resolve_period write_entry posted_entry post_lines post_line stored_rate resolve_rate given_rate
    is_one same_value base_currency allocate_number get_or_create save_next journal_scope
    insert_entry period_locked entry_ok same_number lines_ok line_ok apply_to_cached_balances deltas
    add_delta movement move_balances move_balance increases_on_debit normal_balance entry_balanced
    mul round_digits ◌+ℤ◌ ◌-ℤ◌ neg issue_invoice locked_invoice save_invoice may_become
    Status.assert_can_transition invoice_ok build_invoice_entry discount_lines system_account
    income_lines tax_by_account add_tax tax_lines check_line release_stock allocate_document_number
    skip_taken
was_issued = refl

abbrev after_void : Invoice × Sales
after_void = value_or (drafted, desk) (void_invoice second 30 "typo" after_issue.1)

was_voided : void_invoice second 30 "typo" after_issue.1 ≡ ok after_void
unfolding validate_draft is_missing has_account check_accounts quantize quantize_currency minor
    round_half_up minor_units units_in same_code to_upper post_entry existing post_new prepare
    resolve_period write_entry posted_entry post_lines post_line stored_rate resolve_rate given_rate
    is_one same_value base_currency allocate_number get_or_create save_next journal_scope
    insert_entry period_locked entry_ok same_number lines_ok line_ok apply_to_cached_balances deltas
    add_delta movement move_balances move_balance increases_on_debit normal_balance entry_balanced
    mul round_digits ◌+ℤ◌ ◌-ℤ◌ neg issue_invoice locked_invoice save_invoice may_become
    Status.assert_can_transition invoice_ok build_invoice_entry discount_lines system_account
    income_lines tax_by_account add_tax tax_lines check_line release_stock allocate_document_number
    skip_taken void_invoice void_entry assert_can_transition entry_may_become is_period_open
    void_balances keeps_terminal update_entry is_blank
was_voided = refl

fresh_issue : existing 1 "invoice:issue:100" desk.books.entries ≡ none
unfolding existing
fresh_issue = refl

abbrev cash : Account
cash = account 10 AccountType.asset

void_invoice-issue_invoice_example :
    (b : Account) × (find (is_account 1 10) after_void.1.books.accounts ≡ some b)
    × (b.cached_balance ≡ cash.cached_balance)
void_invoice-issue_invoice_example =
    void_invoice-issue_invoice no_stock print clerk second 40 30 "typo" desk after_issue after_void
      refl tt fresh_issue refl was_issued was_voided cash refl

-- The same company with an account of bad debts, and the invoice sent.
abbrev expense : Account
expense = record (account 30 AccountType.expense) { system_key = "bad_debt_expense" }

abbrev doubtful : Sales
doubtful = record sales {
  books = record books {
    journals = record journal { code = "SAL" } ∷ [];
    accounts = cash ∷ expense ∷ [];
  };
}

abbrev after_write_off : Invoice × Sales
after_write_off = value_or (bill, doubtful) (write_off_invoice print clerk 30 "gone" june doubtful)
