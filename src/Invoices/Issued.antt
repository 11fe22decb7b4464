-- ===== src/Invoices/Issued.antt =====
-- What issuing an invoice without stock lines has found and left
-- (backend/apps/sales/services/invoice_workflow.py).
use Prim.Native.String.{◌++◌ as str_append}
use achr.Prelude.{
  ℕ, ◌≡◌, refl, sym, ap, ◌∙◌, true, false, not, none, some, List, [], ◌∷◌, find, find_holds, filter,
  update, arith, leb, Option, ok, Outcome, or_raise-eq-ok, raise_if-eq-ok, >>=-eq-ok, ok-injective,
  ◌>>=◌,
}
use achr.Money.{quantize}
use achr.Ledger.Model.{Account, JournalEntry, Books}
use achr.Ledger.Draft.{JournalEntryDraft}
use achr.Ledger.Numbering.{allocate_document_number}
use achr.Ledger.Posting.{Context, post_entry}
use achr.Ledger.Corrections.{Printing}
use achr.Invoices.Model.{Invoice, InvoiceLine, Sales, InvoiceError, invoice_ok}
use achr.Invoices.{is_invoice, locked_invoice, save_invoice, may_become, posted}
use achr.Invoices.Issuing.{
  debit_line, of_customer, income_lines, tax_by_account, tax_lines, discount_lines,
  build_invoice_entry, lines_of, has_stock, release_stock, issued, issue_invoice, is_posted,
}
use achr.Invoices.Settling.{posted-eq-ok}
use achr.Invoices.Payments.{is_invoice_refl}

build_invoice_entry-key :
    (print : Printing) (i : Invoice) (lines : List InvoiceLine) (accounts : List Account)
    (draft : JournalEntryDraft)
    → build_invoice_entry print i lines accounts ≡ ok draft
    → draft.idempotency_key ≡ str_append "invoice:issue:" (print.show_id i.id)
unfolding build_invoice_entry
build_invoice_entry-key print i [] accounts draft h = cc
build_invoice_entry-key print i (l ∷ ls) accounts draft h =
    let (a, ha, h1) =
      >>=-eq-ok
        (posted (
          debit_line i.customer.receivable_account_id (quantize i.total_amount i.currency) _
            (of_customer i none none)))
        _ h in
    let (b, hb, h2) = >>=-eq-ok (discount_lines print i accounts) _ h1 in
    let (d, hd, h3) = >>=-eq-ok (posted (income_lines i (l ∷ ls))) _ h2 in
    let (e, he, h4) = >>=-eq-ok (posted (tax_lines print i (tax_by_account (l ∷ ls) []))) _ h3 in
    ap (λ x. x.idempotency_key) (sym (ok-injective h4))

-- What the last two statements of a call on an invoice leave.
pub finished :
    (i : Invoice) (s : Sales) (before books : Books) (table : List Invoice) (q : Invoice × Sales)
    → before ≡ books
    → save_invoice i s.invoices ≡ ok table
    → ◌≡◌ {A = Outcome InvoiceError (Invoice × Sales)}
        (ok (i, record s { invoices = table; books = books }))
        (ok q)
    → (before ≡ q.1.books)
      × (q.1.invoices ≡ update (is_invoice i.tenant i.id) (λ row. i) s.invoices)
unfolding save_invoice
finished i s before books table q left saved h =
    let (fine, h1) = raise_if-eq-ok (not (invoice_ok i)) InvoiceError.constraint _ saved in
    let e = ok-injective h in
    (left ∙ ap (λ x. x.1.books) e, ap (λ x. x.1.invoices) (sym e) ∙ sym (ok-injective h1))

module _
    (issue_stock : Invoice → List InvoiceLine → Option ℕ → Books → Outcome InvoiceError Books) where
  release_stock-none :
      (i : Invoice) (lines : List InvoiceLine) (user_id : Option ℕ) (books after : Books)
      → filter has_stock lines ≡ []
      → release_stock issue_stock i lines user_id books ≡ ok after
      → books ≡ after
  unfolding release_stock
  release_stock-none i lines user_id books after without h =
      ok-injective (rw (release_stock, without) at h)

  -- What issuing an invoice without stock has found and left.
  pub record IsIssued (print : Printing) (c : Context) (sent_at id : ℕ) (s : Sales)
      (q : Invoice × Sales) : Type 0 where
    pub i : Invoice
    pub i' : Invoice
    pub draft : JournalEntryDraft
    pub entry : JournalEntry
    pub counted : Books
    pub found : find (is_invoice c.tenant id) s.invoices ≡ some i
    pub key : draft.idempotency_key ≡ str_append "invoice:issue:" (print.show_id i.id)
    pub same_entries : counted.entries ≡ s.books.entries
    pub same_accounts : counted.accounts ≡ s.books.accounts
    pub entered : post_entry c draft false counted ≡ ok (entry, q.1.books)
    pub same_row : is_invoice i.tenant i.id i' ≡ true
    pub names_entry : i'.journal_entry ≡ some entry.id
    pub saved : q.1.invoices ≡ update (is_invoice i.tenant i.id) (λ row. i') s.invoices

  -- `issue_invoice` after its guards.
  abbrev after_guards :
      Printing → Context → ℕ → Invoice → Sales → Outcome InvoiceError (Invoice × Sales)
  after_guards print c sent_at i s =
      let taken =
        allocate_document_number c.tenant "invoice" "INV" i.issue_date [] s.books.sequences in
      let numbered : Invoice = record i { number = some taken.0 } in
      let lines = lines_of c.tenant i.id s.lines in
      build_invoice_entry print numbered lines s.books.accounts >>= λ draft.
      posted (post_entry c draft false (record s.books { sequences = taken.1 })) >>= λ r.
      release_stock issue_stock numbered lines c.user r.1 >>= λ books.
      save_invoice (issued issue_stock c.user sent_at r.0.id numbered) s.invoices >>= λ invoices.
      ok (
        issued issue_stock c.user sent_at r.0.id numbered,
        record s { invoices = invoices; books = books },
      )

  after_guards-IsIssued :
      (print : Printing) (c : Context) (sent_at id : ℕ) (i : Invoice) (s : Sales)
      (q : Invoice × Sales)
      → find (is_invoice c.tenant id) s.invoices ≡ some i
      → filter has_stock (lines_of c.tenant i.id s.lines) ≡ []
      → after_guards print c sent_at i s ≡ ok q
      → IsIssued print c sent_at id s q
  after_guards-IsIssued print c sent_at id i s q found without h =
      let taken =
        allocate_document_number c.tenant "invoice" "INV" i.issue_date [] s.books.sequences in
      let numbered : Invoice = record i { number = some taken.0 } in
      let counted : Books = record s.books { sequences = taken.1 } in
      let lines = lines_of c.tenant i.id s.lines in
      let (draft, drafted, h1) =
        >>=-eq-ok (build_invoice_entry print numbered lines s.books.accounts) _ h in
      let (r, entered, h2) = >>=-eq-ok (posted (post_entry c draft false counted)) _ h1 in
      let (books, released, h3) =
        >>=-eq-ok (release_stock issue_stock numbered lines c.user r.1) _ h2 in
      let left : r.1 ≡ books =
        release_stock-none numbered lines c.user r.1 books without released in
      let i' = issued issue_stock c.user sent_at r.0.id numbered in
      let (table, saved, h4) = >>=-eq-ok (save_invoice i' s.invoices) _ h3 in
      let (now_left, rows) = finished i' s r.1 books table q left saved h4 in
      record {
        i = i;
        i' = i';
        draft = draft;
        entry = r.0;
        counted = counted;
        found = found;
        key = build_invoice_entry-key print numbered lines s.books.accounts draft drafted;
        same_entries = refl;
        same_accounts = refl;
        entered =
            posted-eq-ok (post_entry c draft false counted) entered
            ∙ ap (λ b. ok (r.0, b)) now_left;
        same_row = is_invoice_refl i;
        names_entry = refl;
        saved = rows;
      }

  pub issue_invoice-IsIssued :
      (print : Printing) (c : Context) (sent_at id : ℕ) (s : Sales) (q : Invoice × Sales)
      → filter has_stock (lines_of c.tenant id s.lines) ≡ []
      → issue_invoice issue_stock print c sent_at id s ≡ ok q
      → IsIssued print c sent_at id s q
  unfolding issue_invoice locked_invoice
  issue_invoice-IsIssued print c sent_at id s q without h =
      let (i, locked, h1) = >>=-eq-ok (locked_invoice c.tenant id s.invoices) _ h in
      let found =
        or_raise-eq-ok (find (is_invoice c.tenant id) s.invoices) InvoiceError.not_found locked in
      let holds = find_holds (is_invoice c.tenant id) s.invoices i found in
      let mine : i.id ≡ id = ground (arith, holds) in
      let (u0, may, h2) = >>=-eq-ok (may_become i "sent") _ h1 in
      let (worth, h3) = raise_if-eq-ok (leb i.total_amount 0) InvoiceError.zero_value _ h2 in
      let (fresh, h4) =
        raise_if-eq-ok (is_posted i.journal_entry) InvoiceError.already_posted _ h3 in
      after_guards-IsIssued print c sent_at id i s q found (rw mine without) h4
