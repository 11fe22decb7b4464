-- ===== src/Invoices/Issuing.antt =====
-- The calls that post: `build_invoice_entry`, `issue_invoice` and `write_off_invoice` of
-- backend/apps/sales/services/invoice_workflow.py.
use Prim.Native.String.{◌++◌ as str_append}
use achr.Prelude.{
  ℕ, ◌+◌, ◌==◌, String, Bool, true, false, ◌&&◌, Option, none, some, List, [], ◌∷◌, ◌++◌, find,
  filter, clip, is_blank, str_eq, leb, if◌then◌else◌, Outcome, ok, err, raise_if, or_raise, ◌>>◌,
  ◌>>=◌,
}
use achr.Prelude.Int.{pos}
use achr.Money.{quantize}
use achr.Ledger.Model.{Date, Account, EntrySource, Dimensions, Books}
use achr.Ledger.Draft.{PostingError, LineDraft, JournalEntryDraft, check_line}
use achr.Ledger.Numbering.{allocate_document_number}
use achr.Ledger.Posting.{Context, post_entry}
use achr.Ledger.Corrections.{Printing}
use achr.Invoices.Model.{Invoice, InvoiceLine, TaxRate, Sales, InvoiceError}
use achr.Invoices.{locked_invoice, save_invoice, may_become, posted}

-- `_system_account`
unfoldable pub system_account : ℕ → String → List Account → Outcome InvoiceError Account
system_account tenant key accounts =
    or_raise (find (λ a. a.tenant == tenant && str_eq a.system_key key && a.is_active) accounts)
      InvoiceError.no_account

-- The partner of every line, with the line's own dimensions.
abbrev pub of_customer : Invoice → Option ℕ → Option ℕ → Dimensions
of_customer i project tax_rate = record {
  partner_type = "customer";
  partner_id = some i.customer.id;
  project_id = project;
  department_id = none;
  tax_rate_id = tax_rate;
}

-- `draft.debit(...)` and `draft.credit(...)`, of stored amounts, which `to_money` leaves as they are.
abbrev pub debit_line : ℕ → ℕ → String → Dimensions → Outcome PostingError LineDraft
debit_line account amount description d = check_line account (pos amount) (pos 0) description d

abbrev pub credit_line : ℕ → ℕ → String → Dimensions → Outcome PostingError LineDraft
credit_line account amount description d = check_line account (pos 0) (pos amount) description d

-- The credits of the lines' income.
unfoldable pub income_lines : Invoice → List InvoiceLine → Outcome PostingError (List LineDraft)
income_lines i [] = ok []
income_lines i (l ∷ ls) =
    let rest = income_lines i ls in
    if leb l.line_subtotal 0
    then rest
    else (credit_line l.income_account_id (quantize l.line_subtotal i.currency)
          (clip 500 l.description)
          (of_customer i (elim l.project_id [ some p ↦ some p | none ↦ i.project_id ]) none)
        >>= λ d. rest >>= λ ds. ok (d ∷ ds))

-- A group of `tax_by_account`, with the first tax rate of its account.
pub record TaxGroup : Type 0 where
  pub account : ℕ
  pub amount : ℕ
  pub tax_rate : ℕ

unfoldable pub add_tax : TaxRate → ℕ → List TaxGroup → List TaxGroup
add_tax rate amount [] =
    record { account = rate.collected_account_id; amount = amount; tax_rate = rate.id } ∷ []
add_tax rate amount (g ∷ gs) =
    if g.account == rate.collected_account_id
    then record g { amount = g.amount + amount } ∷ gs
    else g ∷ add_tax rate amount gs

-- The loop that fills `tax_by_account`.
unfoldable pub tax_by_account : List InvoiceLine → List TaxGroup → List TaxGroup
unfolding add_tax
tax_by_account [] groups = groups
tax_by_account (l ∷ ls) groups = tax_by_account ls (elim l.tax_rate [
  | none ↦ groups
  | some rate ↦ if leb l.line_tax 0 then groups else add_tax rate l.line_tax groups
])

unfoldable pub tax_lines :
    Printing → Invoice → List TaxGroup → Outcome PostingError (List LineDraft)
tax_lines print i [] = ok []
tax_lines print i (g ∷ gs) = do
  d ←
      credit_line g.account (quantize g.amount i.currency)
        (str_append "Output tax on " (print.show_number i.number))
        (of_customer i none (some g.tax_rate))
  rest ← tax_lines print i gs
  ok (d ∷ rest)

-- The debit of the discount, if there is one.
unfoldable pub discount_lines :
    Printing → Invoice → List Account → Outcome InvoiceError (List LineDraft)
unfolding system_account
discount_lines print i accounts =
    if leb i.discount_amount 0
    then ok []
    else (system_account i.tenant "sales_discount" accounts >>= λ account.
        posted (
          debit_line account.id (quantize i.discount_amount i.currency)
            (str_append "Discount on " (print.show_number i.number)) (of_customer i none none))
        >>= λ d. ok (d ∷ []))

-- The draft of an entry of the sales journal.
abbrev pub sales_draft :
    Printing → Invoice → Date → String → String → List LineDraft → JournalEntryDraft
sales_draft print i day memo key lines = record {
  journal_code = "SAL";
  entry_date = day;
  currency = i.currency;
  lines = lines;
  memo = clip 500 memo;
  source = EntrySource.invoice;
  source_document_type = "sales.Invoice";
  source_document_id = some i.id;
  exchange_rate = i.exchange_rate;
  idempotency_key = str_append key (print.show_id i.id);
}

-- `build_invoice_entry`
unfoldable pub build_invoice_entry :
    Printing → Invoice → List InvoiceLine → List Account → Outcome InvoiceError JournalEntryDraft
unfolding discount_lines income_lines tax_by_account tax_lines
build_invoice_entry print i [] accounts = err InvoiceError.no_lines
build_invoice_entry print i (l ∷ ls) accounts = do
  receivable ← posted (
      debit_line i.customer.receivable_account_id (quantize i.total_amount i.currency)
        (str_append "Invoice " (print.show_number i.number)) (of_customer i none none))
  discount ← discount_lines print i accounts
  income ← posted (income_lines i (l ∷ ls))
  tax ← posted (tax_lines print i (tax_by_account (l ∷ ls) []))
  ok (
      sales_draft print i i.issue_date
        (str_append "Invoice "
          (str_append (print.show_number i.number) (str_append " — " i.customer.name)))
        "invoice:issue:" (receivable ∷ (discount ++ (income ++ tax))))

abbrev pub lines_of : ℕ → ℕ → List InvoiceLine → List InvoiceLine
lines_of tenant id lines = filter (λ l. l.tenant == tenant && l.invoice == id) lines

abbrev pub has_stock : InvoiceLine → Bool
has_stock l = elim l.item_id [ none ↦ false | some item ↦ true ]

abbrev pub is_posted : Option ℕ → Bool
is_posted none = false
is_posted (some e) = true

-- `issue_stock` of backend/apps/inventory/services/fulfilment.py, by the ledger that it leaves: it posts the
-- cost of the goods. Its arguments are the invoice, the lines with an item, and the user.
module _
    (issue_stock : Invoice → List InvoiceLine → Option ℕ → Books → Outcome InvoiceError Books) where
  -- `_release_stock_for_invoice`
  unfoldable pub release_stock :
      Invoice → List InvoiceLine → Option ℕ → Books → Outcome InvoiceError Books
  release_stock i lines user_id books = elim (filter has_stock lines) [
    | [] ↦ ok books
    | (l ∷ ls) ↦ issue_stock i (l ∷ ls) user_id books
  ]

  -- The row that `issue_invoice` leaves.
  abbrev pub issued : Option ℕ → ℕ → ℕ → Invoice → Invoice
  issued user_id sent_at entry i = record i {
    journal_entry = some entry;
    status = "sent";
    sent_at = some sent_at;
    updated_by = user_id;
  }

  -- `issue_invoice`; `sent_at` is the caller's, or else the time.
  unfoldable pub issue_invoice :
      Printing → Context → ℕ → ℕ → Sales → Outcome InvoiceError (Invoice × Sales)
  unfolding locked_invoice build_invoice_entry release_stock save_invoice
  issue_invoice print c sent_at id s = do
    i ← locked_invoice c.tenant id s.invoices
    may_become i "sent"
    raise_if (leb i.total_amount 0) InvoiceError.zero_value
    raise_if (is_posted i.journal_entry) InvoiceError.already_posted
    let (number, sequences) =
        allocate_document_number c.tenant "invoice" "INV" i.issue_date [] s.books.sequences
    let numbered : Invoice = record i { number = some number }
    let lines = lines_of c.tenant i.id s.lines
    draft ← build_invoice_entry print numbered lines s.books.accounts
    r ← posted (post_entry c draft false (record s.books { sequences = sequences }))
    books ← release_stock numbered lines c.user r.1
    let i' = issued c.user sent_at r.0.id numbered
    invoices ← save_invoice i' s.invoices
    ok (i', record s { invoices = invoices; books = books })

-- The row that `write_off_invoice` leaves.
abbrev pub written_off : Option ℕ → ℕ → String → Invoice → Invoice
written_off user_id now reason i = record i {
  amount_paid = i.total_amount;
  amount_due = 0;
  status = "written_off";
  written_off_at = some now;
  void_reason = clip 255 reason;
  updated_by = user_id;
}

-- The entry of a write-off.
unfoldable pub write_off_draft :
    Printing → Invoice → Date → String → Account → Outcome PostingError JournalEntryDraft
write_off_draft print i day reason bad_debt = do
  d ←
      debit_line bad_debt.id (quantize i.amount_due i.currency)
        (str_append "Bad debt — " (print.show_number i.number)) (of_customer i none none)
  k ←
      credit_line i.customer.receivable_account_id (quantize i.amount_due i.currency)
        (str_append "Write-off of " (print.show_number i.number)) (of_customer i none none)
  ok (
      sales_draft print i day
        (str_append "Write-off " (str_append (print.show_number i.number) (str_append ": " reason)))
        "invoice:writeoff:" (d ∷ k ∷ []))

-- `write_off_invoice`, on the day given (the caller's date, or else today).
unfoldable pub write_off_invoice :
    Printing → Context → ℕ → String → Date → Sales → Outcome InvoiceError (Invoice × Sales)
unfolding locked_invoice system_account write_off_draft save_invoice
write_off_invoice print c id reason day s = do
  i ← locked_invoice c.tenant id s.invoices
  may_become i "written_off"
  raise_if (is_blank reason) InvoiceError.no_reason
  raise_if (leb i.amount_due 0) InvoiceError.nothing_due
  bad_debt ← system_account c.tenant "bad_debt_expense" s.books.accounts
  draft ← posted (write_off_draft print i day reason bad_debt)
  r ← posted (post_entry c draft false s.books)
  let i' = written_off c.user c.now reason i
  invoices ← save_invoice i' s.invoices
  ok (i', record s { invoices = invoices; books = r.1 })
