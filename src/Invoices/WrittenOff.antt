-- ===== src/Invoices/WrittenOff.antt =====
-- What writing an invoice off does to the balances and to the invoice
-- (backend/apps/sales/services/invoice_workflow.py).
use Prim.Native.String.{◌++◌ as str_append}
use achr.Prelude.{◌≡◌, String, false, ok}
use achr.Ledger.Model.{Date, Account, JournalEntry}
use achr.Ledger.Draft.{JournalEntryDraft}
use achr.Ledger.Posting.{Context, post_entry}
use achr.Ledger.Corrections.{Printing}
use achr.Invoices.Model.{Invoice, Sales}
use achr.Invoices.Issuing.{system_account, written_off, write_off_draft}

-- What a write-off has found and left.
record IsWrittenOff (print : Printing) (c : Context) (reason : String) (day : Date) (i : Invoice)
    (s : Sales) (q : Invoice × Sales) : Type 0 where
  bad_debt : Account
  draft : JournalEntryDraft
  entry : JournalEntry
  known : system_account c.tenant "bad_debt_expense" s.books.accounts ≡ ok bad_debt
  drafted : write_off_draft print i day reason bad_debt ≡ ok draft
  entered : post_entry c draft false s.books ≡ ok (entry, q.1.books)
  row : q.0 ≡ written_off c.user c.now reason i
