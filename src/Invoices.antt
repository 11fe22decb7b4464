-- ===== src/Invoices.antt =====
-- The invoice workflow: backend/apps/sales/services/invoice_workflow.py over the tables of
-- sales/models.py. Every call locks the invoice and works on the row that it has read under the lock.
pub mod Model
pub mod Issuing
pub mod Lateness
pub mod Settling
pub mod Payments
pub mod Issued
pub mod Undone
pub mod BadDebt
pub mod WrittenOff
pub mod Sums
pub mod Balance
use achr.Prelude.{
  ℕ, ◌+◌, ◌-◌, ◌==◌, String, Bool, true, false, not, ◌&&◌, ◌||◌, Option, none, some, List, [], ◌∷◌,
  ◌++◌, find, filter, update, sum_of, clip, is_blank, str_eq, ltb, leb, if◌then◌else◌, Outcome, ok,
  err, raise_if, or_raise, ◌>>◌, ◌>>=◌, length,
}
use achr.Money.{quantize}
use achr.Status.{TransitionError, contains, assert_can_transition}
use achr.Status.Documents.{invoice_transitions}
use achr.Ledger.Model.{Date, stamp, JournalEntry, Books}
use achr.Ledger.Draft.{PostingError}
use achr.Ledger.Corrections.{void_entry}
use achr.Ledger.Posting.{Context}
use achr.Invoices.Model.{Invoice, PaymentApplication, Sales, InvoiceError, invoice_ok}

abbrev pub is_invoice : ℕ → ℕ → Invoice → Bool
is_invoice tenant id i = i.id == id && i.tenant == tenant

-- `_locked_invoice`
unfoldable pub locked_invoice : ℕ → ℕ → List Invoice → Outcome InvoiceError Invoice
locked_invoice tenant id invoices =
    or_raise (find (is_invoice tenant id) invoices) InvoiceError.not_found

-- `invoice.save(...)`, of the row that has been read under the lock.
unfoldable pub save_invoice : Invoice → List Invoice → Outcome InvoiceError (List Invoice)
save_invoice i invoices =
    raise_if (not (invoice_ok i)) InvoiceError.constraint
    >> ok (update (is_invoice i.tenant i.id) (λ row. i) invoices)

abbrev pub checked : Outcome TransitionError (Unit {0}) → Outcome InvoiceError (Unit {0})
checked (ok t) = ok t
checked (err e) = err (InvoiceError.transition e)

unfoldable pub may_become : Invoice → String → Outcome InvoiceError (Unit {0})
unfolding assert_can_transition
may_become i new_status = checked (
    assert_can_transition invoice_transitions
      (record { status = i.status; updated_by = i.updated_by }) new_status)

abbrev pub posted {ℓ} : {A : Type ℓ} → Outcome PostingError A → Outcome InvoiceError A
posted (ok a) = ok a
posted (err e) = err (InvoiceError.posting e)

-- `due_date < today`
abbrev pub is_late : Date → Invoice → Bool
is_late today i = ltb (stamp i.due_date) (stamp today)

-- The sum of the invoice's applications that are not reversed.
unfoldable pub total_applied : ℕ → ℕ → List PaymentApplication → ℕ
total_applied tenant id applications =
    sum_of (λ a. if a.tenant == tenant && a.invoice == id && not a.is_reversed then a.amount else 0)
      applications

-- The status that follows from the money.
unfoldable pub derived_status : Date → Invoice → ℕ → ℕ → String
derived_status today i amount_paid amount_due =
    if leb amount_due 0
    then "paid"
    else if is_late today i
    then "overdue"
    else if ltb 0 amount_paid
    then "partially_paid"
    else "sent"

-- The row that `apply_payment` leaves.
abbrev pub repaid : Date → ℕ → Option ℕ → Invoice → ℕ → ℕ → Invoice
repaid today now user_id i amount_paid amount_due = record i {
  amount_paid = amount_paid;
  amount_due = amount_due;
  status = derived_status today i amount_paid amount_due;
  paid_at =
      if leb amount_due 0 then (elim i.paid_at [ some t ↦ some t | none ↦ some now ]) else none;
  updated_by = user_id;
}

-- The states in which no payment is applied.
abbrev pub is_unpayable : String → Bool
is_unpayable status = contains status ("draft" ∷ "voided" ∷ "written_off" ∷ [])

-- `apply_payment`, from the row on.
unfoldable pub settle : Date → Context → Invoice → Sales → Outcome InvoiceError (Invoice × Sales)
unfolding total_applied derived_status save_invoice
settle today c i s =
    let amount_paid = quantize (total_applied c.tenant i.id s.applications) i.currency in
    let amount_due = quantize (i.total_amount - amount_paid) i.currency in
    let i' = repaid today c.now c.user i amount_paid amount_due in
    raise_if (is_unpayable i.status) InvoiceError.not_payable
    >> (raise_if (ltb i.total_amount amount_paid) InvoiceError.overpaid
        >> ((if str_eq i'.status i.status then ok tt else may_become i i'.status)
            >> (save_invoice i' s.invoices >>= λ invoices.
                ok (i', record s { invoices = invoices }))))

-- `apply_payment`
unfoldable pub apply_payment : Date → Context → ℕ → Sales → Outcome InvoiceError (Invoice × Sales)
unfolding locked_invoice settle
apply_payment today c id s = locked_invoice c.tenant id s.invoices >>= λ i. settle today c i s

-- The row of an invoice's entry, if it has one: `invoice.journal_entry`.
abbrev pub entry_of : Option ℕ → Books → Option JournalEntry
entry_of none books = none
entry_of (some id) books = find (λ e. e.id == id) books.entries

abbrev pub void_issue : ℕ → Invoice → String → Books → Outcome InvoiceError Books
void_issue now i reason books = elim (entry_of i.journal_entry books) [
  | none ↦ ok books
  | some e ↦ posted (void_entry now e reason books) >>= λ r. ok r.1
]

-- The row that `void_invoice` leaves.
abbrev pub voided : Option ℕ → String → Invoice → Invoice
voided user_id reason i = record i {
  status = "voided";
  void_reason = clip 255 reason;
  updated_by = user_id;
}

-- `void_invoice`
unfoldable pub void_invoice : Context → ℕ → String → Sales → Outcome InvoiceError (Invoice × Sales)
unfolding locked_invoice save_invoice
void_invoice c id reason s = do
  i ← locked_invoice c.tenant id s.invoices
  may_become i "voided"
  raise_if (is_blank reason) InvoiceError.no_reason
  raise_if (ltb 0 i.amount_paid) InvoiceError.has_payments
  books ← void_issue c.now i reason s.books
  may_become i "voided"
  invoices ← save_invoice (voided c.user reason i) s.invoices
  ok (voided c.user reason i, record s { invoices = invoices; books = books })

-- The first `UPDATE` of `refresh_overdue_status`.
abbrev pub becomes_overdue : ℕ → Date → Invoice → Bool
becomes_overdue tenant as_of i =
    i.tenant == tenant
    && contains i.status ("sent" ∷ "partially_paid" ∷ [])
    && is_late as_of i
    && ltb 0 i.amount_due

-- The second.
abbrev pub no_longer_overdue : ℕ → Date → Invoice → Bool
no_longer_overdue tenant as_of i =
    i.tenant == tenant && (not (is_late as_of i) || leb i.amount_due 0) && str_eq "overdue" i.status

-- `_status_after_overdue`
unfoldable pub status_after_overdue : Invoice → String
status_after_overdue i =
    if leb i.amount_due 0 then "paid" else if ltb 0 i.amount_paid then "partially_paid" else "sent"

-- `refresh_overdue_status`: how many rows each of the two updates has written, and the table.
unfoldable pub refresh_overdue_status : ℕ → Date → List Invoice → ℕ × ℕ × List Invoice
unfolding status_after_overdue
refresh_overdue_status tenant as_of invoices =
    let late =
      update (becomes_overdue tenant as_of) (λ i. record i { status = "overdue" }) invoices in
    (
      length (filter (becomes_overdue tenant as_of) invoices),
      length (filter (no_longer_overdue tenant as_of) late),
      update (no_longer_overdue tenant as_of) (λ i. record i { status = status_after_overdue i })
          late,
    )
