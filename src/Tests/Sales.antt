-- ===== src/Tests/Sales.antt =====
-- Invoices at concrete inputs (backend/apps/sales/services/invoice_workflow.py).
use achr.Prelude.{
  ℕ, ◌≡◌, refl, Bool, true, false, Option, none, some, List, [], ◌∷◌, map, arith, ok, err, Outcome,
}
use achr.Money.{
  one, quantize, quantize_currency, minor, minor_units, units_in, same_code, to_upper,
  round_half_up,
}
use achr.Status.{illegal_transition, assert_can_transition}
use achr.Ledger.Model.{Date, Books}
use achr.Ledger.Draft.{JournalEntryDraft, check_line}
use achr.Invoices.Model.{
  Customer, Invoice, InvoiceLine, PaymentApplication, Sales, InvoiceError, invoice_ok,
}
use achr.Invoices.{
  locked_invoice, save_invoice, may_become, total_applied, derived_status, settle, apply_payment,
  refresh_overdue_status,
}
use achr.Invoices.Issuing.{
  system_account, income_lines, add_tax, tax_by_account, tax_lines, discount_lines,
  build_invoice_entry,
}
use achr.Invoices.Lateness.{
  rederived, refresh_overdue_status-rederived, refresh_overdue_status_again,
}
use achr.Invoices.Settling.{paid_of, due_of}
use achr.Invoices.Payments.{apply_payment-reversed_late}
use achr.Tests.Company.{value_or, date, books, clerk, print, draft_of}

abbrev buyer : Customer
buyer = record { id = 6; name = "Buyer"; receivable_account_id = 10 }

-- Five dollars, due in May.
abbrev pub bill : Invoice
bill = record {
  id = 30;
  tenant = 1;
  customer = buyer;
  number = some (record { prefix = "INV"; year = 2024; value = 1; padding = 6 });
  issue_date = date 2024 5 1;
  due_date = date 2024 5 31;
  currency = "USD";
  exchange_rate = record { is_negative = false; value = one };
  subtotal_amount = 4000000;
  discount_amount = 0;
  tax_amount = 1000000;
  total_amount = 5000000;
  amount_paid = 0;
  amount_due = 5000000;
  status = "sent";
  journal_entry = none;
  project_id = none;
  sent_at = none;
  paid_at = none;
  void_reason = "";
  written_off_at = none;
  updated_by = none;
}

abbrev row : InvoiceLine
row = record {
  id = 1;
  tenant = 1;
  invoice = 30;
  item_id = none;
  description = "Bolts";
  tax_rate = some (record { id = 8; collected_account_id = 20 });
  line_subtotal = 4000000;
  line_tax = 1000000;
  income_account_id = 20;
  project_id = none;
}

abbrev part : Bool → PaymentApplication
part is_reversed = record { tenant = 1; invoice = 30; amount = 2000000; is_reversed = is_reversed }

abbrev pub sales : Sales
sales = record {
  invoices = bill ∷ [];
  lines = row ∷ [];
  applications = part false ∷ [];
  books = books;
}

abbrev pub june : Date
june = date 2024 6 5

-- The stock service of the tests: no line has stock.
abbrev pub no_stock : Invoice → List InvoiceLine → Option ℕ → Books → Outcome InvoiceError Books
no_stock i lines user_id ledger = ok ledger

refresh_overdue_status-rederived_example :
    (refresh_overdue_status 1 june (bill ∷ [])).2 ≡ map (rederived 1 june) (bill ∷ [])
refresh_overdue_status-rederived_example = refresh_overdue_status-rederived 1 june (bill ∷ [])

refresh_overdue_status_again_example :
    refresh_overdue_status 1 june (refresh_overdue_status 1 june (bill ∷ [])).2
    ≡ (0, 0, (refresh_overdue_status 1 june (bill ∷ [])).2)
refresh_overdue_status_again_example = refresh_overdue_status_again 1 june (bill ∷ [])

abbrev paid : Invoice × Sales
paid = value_or (bill, sales) (apply_payment june clerk 30 sales)

three_due : paid.0.amount_due ≡ 3000000
unfolding apply_payment locked_invoice settle total_applied derived_status save_invoice may_become
    assert_can_transition invoice_ok build_invoice_entry discount_lines system_account income_lines
    tax_by_account add_tax tax_lines check_line quantize quantize_currency minor minor_units
    units_in same_code to_upper round_half_up
three_due = refl

-- The invoice once it has been paid, and the one payment reversed.
abbrev paid_bill : Invoice
paid_bill = record bill {
  status = "paid";
  amount_paid = 5000000;
  amount_due = 0;
  paid_at = some 40;
}

abbrev bounced : Sales
bounced = record sales { invoices = paid_bill ∷ []; applications = part true ∷ [] }

bounced_amounts : (paid_of clerk paid_bill bounced ≡ 0) × (due_of clerk paid_bill bounced ≡ 5000000)
unfolding apply_payment locked_invoice settle total_applied derived_status save_invoice may_become
    assert_can_transition invoice_ok build_invoice_entry discount_lines system_account income_lines
    tax_by_account add_tax tax_lines check_line quantize quantize_currency minor minor_units
    units_in same_code to_upper round_half_up
bounced_amounts = (refl, refl)

apply_payment-reversed_late_example :
    apply_payment june clerk 30 bounced
    ≡ err (InvoiceError.transition (illegal_transition "paid" "overdue"))
apply_payment-reversed_late_example =
    apply_payment-reversed_late june clerk 30 paid_bill bounced refl refl refl
      (omega (arith, bounced_amounts.0)) (omega (arith, bounced_amounts.1))

abbrev no_entry : JournalEntryDraft
no_entry = draft_of []

abbrev entry : JournalEntryDraft
entry = value_or no_entry (build_invoice_entry print bill (row ∷ []) [])
