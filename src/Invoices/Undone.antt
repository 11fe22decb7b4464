-- ===== src/Invoices/Undone.antt =====
-- Issuing an invoice and voiding it again: the cached balances
-- (backend/apps/sales/services/invoice_workflow.py over backend/apps/accounting/services/posting.py).
use Prim.Native.String.{◌++◌ as str_append}
use achr.Prelude.{
  ℕ, ◌≡◌, refl, sym, ap, ◌∙◌, subst, String, true, false, none, some, List, [], ◌∷◌, ◌++◌, find,
  find_holds, filter, arith, ltb, is_blank, ◌==◌, inl, inr, Option, ok, Outcome, raise_if-eq-ok,
  >>=-eq-ok, ok-injective, ==_iff,
}
use achr.Prelude.Int.{int_laws}
use achr.Ledger.Model.{Account, EntryStatus, EntryStatus_eq, JournalEntry, Books}
use achr.Ledger.Draft.{JournalEntryDraft, is_account}
use achr.Ledger.Balances.{plus}
use achr.Ledger.Balances.Net.{balance-apply, find-account-id}
use achr.Ledger.Posting.{Context, existing, posted_entry, post_entry}
use achr.Ledger.Posting.Effect.{IsPosted, post_entry-cases}
use achr.Ledger.Corrections.{Printing, void_entry}
use achr.Ledger.Corrections.Rows.{IsFree}
use achr.Ledger.Corrections.Voiding.{void_entry_cached}
use achr.Invoices.Model.{Invoice, InvoiceLine, Sales, InvoiceError}
use achr.Invoices.{
  is_invoice, locked_invoice, save_invoice, may_become, posted, void_invoice, void_issue, voided,
}
use achr.Invoices.Issuing.{lines_of, has_stock, issue_invoice}
use achr.Invoices.Settling.{posted-eq-ok}
use achr.Invoices.Payments.{locked_saved}
use achr.Invoices.Issued.{IsIssued, issue_invoice-IsIssued}

-- The entry that has just been appended under a free key is found by it.
find-appended :
    (id : ℕ) (e : JournalEntry) (es : List JournalEntry)
    → IsFree id es
    → e.id ≡ id
    → find (λ x. x.id == id) (es ++ (e ∷ [])) ≡ some e
find-appended id e [] free same = let t = (==_iff e.id id).1 same in rw t refl
find-appended id e (x ∷ es) free same = rw (free.0) (find-appended id e es free.1 same)

-- A posting whose key is not used is a new one.
pub new-IsPosted :
    (c : Context) (draft : JournalEntryDraft) (books : Books) (entry : JournalEntry) (after : Books)
    → existing c.tenant draft.idempotency_key books.entries ≡ none
    → post_entry c draft false books ≡ ok (entry, after)
    → IsPosted c draft false books entry after
new-IsPosted c draft books entry after unused h =
    elim (post_entry-cases c draft false books entry after h) [
      | inl (old, same) ↦ absurd (cc (sym unused ∙ old))
      | inr (new, w) ↦ w
    ]

void_issue-void_entry :
    (now : ℕ) (i : Invoice) (entry : JournalEntry) (reason : String) (books after : Books)
    → i.journal_entry ≡ some entry.id
    → find (λ e. e.id == entry.id) books.entries ≡ some entry
    → void_issue now i reason books ≡ ok after
    → (row : JournalEntry) × (void_entry now entry reason books ≡ ok (row, after))
void_issue-void_entry now i entry reason books after named there h =
    let (r, voided_, h1) =
      >>=-eq-ok (posted (void_entry now entry reason books)) _
        (rw (void_issue, named, there) at h) in
    (
      r.0,
      posted-eq-ok (void_entry now entry reason books) voided_
          ∙ ap (λ b. ok (r.0, b)) (ok-injective h1),
    )

-- A new posting, and its entry voided.
undone_balance :
    (c : Context) (now : ℕ) (draft : JournalEntryDraft) (books : Books) (entry row : JournalEntry)
    (reason : String) (between after : Books)
    → IsPosted c draft false books entry between
    → void_entry now entry reason between ≡ ok (row, after)
    → (a : Account) → find (is_account c.tenant a.id) books.accounts ≡ some a
    → (b : Account) × (find (is_account c.tenant a.id) after.accounts ≡ some b)
      × (b.cached_balance ≡ a.cached_balance)
unfolding posted_entry
undone_balance c now draft books entry row reason between after p v a found =
    let ours : entry.tenant ≡ c.tenant = ap (λ (e : JournalEntry). e.tenant) p.is_entry in
    let live : EntryStatus_eq entry.status EntryStatus.posted ≡ true =
      ap (λ (e : JournalEntry). EntryStatus_eq e.status EntryStatus.posted) p.is_entry in
    let (m, there, up, side) =
      balance-apply c.tenant c.now plus entry.lines books.accounts p.written.accounts
        p.written.moved a found in
    let key : m.id ≡ a.id = find-account-id c.tenant a.id p.written.accounts m there in
    let here : find (is_account entry.tenant m.id) between.accounts ≡ some m =
      rw (ours, key)
        (ap (λ t. find (is_account c.tenant a.id) t.accounts) p.written.is_after ∙ there) in
    let (b, found', down) = void_entry_cached now entry row reason between after live v m here in
    (b, rw (← ours, ← key) found', down ∙ rw (key, side, up) (omega int_laws))

module _
    (issue_stock : Invoice → List InvoiceLine → Option ℕ → Books → Outcome InvoiceError Books) where
  -- The row that was issued is the one that a later call locks, and its entry the one that it voids.
  void_invoice-void_entry :
      (print : Printing) (c c' : Context) (sent_at id : ℕ) (reason : String) (s : Sales)
      (q q' : Invoice × Sales)
      → (w : IsIssued issue_stock print c sent_at id s q) → IsFree c.fresh s.books.entries
      → existing c.tenant (str_append "invoice:issue:" (print.show_id id)) s.books.entries ≡ none
      → c'.tenant ≡ c.tenant
      → void_invoice c' id reason q.1 ≡ ok q'
      → IsPosted c w.draft false w.counted w.entry q.1.books
        × (row : JournalEntry) × (void_entry c'.now w.entry reason q.1.books ≡ ok (row, q'.1.books))
  unfolding void_invoice posted_entry
  void_invoice-void_entry print c c' sent_at id reason s q q' w free unused tenant h =
      let holds = find_holds (is_invoice c.tenant id) s.invoices w.i w.found in
      let mine : w.i.id ≡ id = ground (arith, holds) in
      let ours : w.i.tenant ≡ c.tenant = ground (arith, holds) in
      let key = w.key ∙ ap (λ n. str_append "invoice:issue:" (print.show_id n)) mine in
      let open_key : existing c.tenant w.draft.idempotency_key w.counted.entries ≡ none =
        rw (key, w.same_entries) unused in
      let p = new-IsPosted c w.draft w.counted w.entry q.1.books open_key w.entered in
      let at = ap (λ (e : JournalEntry). e.id) p.is_entry in
      let there : find (λ x. x.id == w.entry.id) q.1.books.entries ≡ some w.entry =
        ap (λ b. find (λ x. x.id == w.entry.id) b.entries) p.written.is_after
        ∙ ap (λ es. find (λ x. x.id == w.entry.id) (es ++ (w.entry ∷ []))) w.same_entries
        ∙ find-appended w.entry.id w.entry s.books.entries
            (subst (λ n. IsFree n s.books.entries) (sym at) free) refl in
      let again : locked_invoice c'.tenant id q.1.invoices ≡ ok w.i' =
        rw (tenant, w.saved)
          (locked_saved c.tenant id w.i w.i' s.invoices w.found ours mine w.same_row) in
      let (j, locked, h1) = >>=-eq-ok (locked_invoice c'.tenant id q.1.invoices) _ h in
      let same : w.i' ≡ j = ok-injective (sym again ∙ locked) in
      let (u0, may, h2) = >>=-eq-ok (may_become j "voided") _ h1 in
      let (given, h3) = raise_if-eq-ok (is_blank reason) InvoiceError.no_reason _ h2 in
      let (unpaid, h4) = raise_if-eq-ok (ltb 0 j.amount_paid) InvoiceError.has_payments _ h3 in
      let (books, undone, h5) = >>=-eq-ok (void_issue c'.now j reason q.1.books) _ h4 in
      let (u1, may', h6) = >>=-eq-ok (may_become j "voided") _ h5 in
      let (table, saved, h7) =
        >>=-eq-ok (save_invoice (voided c'.user reason j) q.1.invoices) _ h6 in
      let left : books ≡ q'.1.books = ap (λ x. x.1.books) (ok-injective h7) in
      let named : j.journal_entry ≡ some w.entry.id =
        ap (λ x. x.journal_entry) (sym same) ∙ w.names_entry in
      let (row, v) =
        void_issue-void_entry c'.now j w.entry reason q.1.books books named there undone in
      (p, row, v ∙ ap (λ b. ok (row, b)) left)

  -- Issuing an invoice without stock lines and then voiding it puts every cached balance of the tenant
  -- back where it was, whoever makes the two calls: where the issue's key is not used, the key of the
  -- new entry is free, and both calls return.
  pub void_invoice-issue_invoice :
      (print : Printing) (c c' : Context) (sent_at id : ℕ) (reason : String) (s : Sales)
      (q q' : Invoice × Sales)
      → filter has_stock (lines_of c.tenant id s.lines) ≡ []
      → IsFree c.fresh s.books.entries
      → existing c.tenant (str_append "invoice:issue:" (print.show_id id)) s.books.entries ≡ none
      → c'.tenant ≡ c.tenant
      → issue_invoice issue_stock print c sent_at id s ≡ ok q
      → void_invoice c' id reason q.1 ≡ ok q'
      → (a : Account) → find (is_account c.tenant a.id) s.books.accounts ≡ some a
      → (b : Account) × (find (is_account c.tenant a.id) q'.1.books.accounts ≡ some b)
        × (b.cached_balance ≡ a.cached_balance)
  unfolding posted_entry
  void_invoice-issue_invoice print c c' sent_at id reason s q q' without free unused tenant issue
        void a found =
      let w = issue_invoice-IsIssued issue_stock print c sent_at id s q without issue in
      let (p, row, v) =
        void_invoice-void_entry print c c' sent_at id reason s q q' w free unused tenant void in
      undone_balance c c'.now w.draft w.counted w.entry row reason q.1.books q'.1.books p v a
        (rw w.same_accounts found)
