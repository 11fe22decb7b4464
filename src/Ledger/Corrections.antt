-- ===== src/Ledger/Corrections.antt =====
-- `void_entry`, `reverse_entry` and `assert_ledger_balanced` of
-- backend/apps/accounting/services/posting.py.
pub mod Rows
pub mod Voiding
pub mod Reversal
pub mod Mirror
use Prim.Native.String.{◌++◌ as str_append}
use achr.Prelude.{
  ℕ, String, Bool, true, false, not, ◌&&◌, ◌||◌, Option, none, some, List, [], ◌∷◌, Outcome, ok,
  err, ◌>>=◌, ◌>>◌, raise_if, or_raise, find, update, sum_of, str_eq, clip, is_blank, ◌==◌,
  if◌then◌else◌,
}
use achr.Prelude.Int.{pos}
use achr.Ledger.Model.{
  Date, PeriodStatus, Account, DocumentNumber, EntryStatus, EntryStatus_eq, JournalLine,
  JournalEntry, Books,
}
use achr.Ledger.Draft.{
  PostingError, illegal_transition, period_closed, blank_reason, not_posted, already_reversed,
  constraint, key_error, unbalanced, LineDraft, check_line, Rate, JournalEntryDraft,
}
use achr.Ledger.Balances.{minus, apply_to_cached_balances}
use achr.Ledger.Posting.{resolve_period, Context, post_entry}

-- `JournalEntry.ALLOWED_TRANSITIONS`
unfoldable pub may_become : EntryStatus → EntryStatus → Bool
may_become EntryStatus.draft EntryStatus.posted = true
may_become EntryStatus.draft EntryStatus.voided = true
may_become EntryStatus.posted EntryStatus.voided = true
may_become EntryStatus.posted EntryStatus.reversed = true
may_become _ _ = false

-- `JournalEntry.assert_can_transition`
unfoldable pub assert_can_transition : EntryStatus → EntryStatus → Outcome PostingError (Unit {0})
unfolding may_become
assert_can_transition from to = raise_if (not (may_become from to)) illegal_transition

-- `trg_journal_entry_immutable`, for an UPDATE of the columns that may change: a row that is voided
-- or reversed keeps its status.
unfoldable pub keeps_terminal : ℕ → EntryStatus → List JournalEntry → Bool
keeps_terminal id to [] = true
keeps_terminal id to (e ∷ es) =
    (not (e.id == id)
      || EntryStatus_eq e.status to
      || not (
          EntryStatus_eq e.status EntryStatus.voided
          || EntryStatus_eq e.status EntryStatus.reversed))
    && keeps_terminal id to es

-- `JournalEntry.all_tenants.filter(pk=...).update(...)`
unfoldable pub update_entry :
    ℕ → (JournalEntry → JournalEntry) → List JournalEntry → List JournalEntry
update_entry id f = update (λ e. e.id == id) f

abbrev pub has_id : ℕ → JournalEntry → Bool
has_id id e = e.id == id

unfoldable pub is_period_open : PeriodStatus → Bool
is_period_open PeriodStatus.open_ = true
is_period_open PeriodStatus.soft_closed = false
is_period_open PeriodStatus.closed = false

-- A POSTED entry is taken back out of the balances; a draft was never in them.
unfoldable pub void_balances : ℕ → JournalEntry → List Account → Outcome PostingError (List Account)
void_balances now entry accounts =
    if EntryStatus_eq entry.status EntryStatus.posted
    then apply_to_cached_balances entry.tenant now minus entry.lines accounts
    else ok accounts

-- `.update(status=VOIDED, void_reason=reason[:255])`
abbrev pub voided_rows : ℕ → String → List JournalEntry → List JournalEntry
voided_rows id reason =
    update_entry id λ e. record e { status = EntryStatus.voided; void_reason = clip 255 reason }

-- `void_entry`. `entry` is the row as the caller has read it.
unfoldable pub void_entry :
    ℕ → JournalEntry → String → Books → Outcome PostingError (JournalEntry × Books)
unfolding assert_can_transition keeps_terminal update_entry is_period_open void_balances
void_entry now entry reason books = do
  assert_can_transition entry.status EntryStatus.voided
  period ← resolve_period entry.tenant entry.entry_date books
  raise_if (not (is_period_open period.status)) period_closed
  raise_if (is_blank reason) blank_reason
  accounts ← void_balances now entry books.accounts
  raise_if (not (keeps_terminal entry.id EntryStatus.voided books.entries)) constraint
  row ← or_raise (find (has_id entry.id) (voided_rows entry.id reason books.entries)) key_error
  ok (
    row,
    record books { accounts = accounts; entries = voided_rows entry.id reason books.entries },
  )

-- `str(entry.id)` and `entry.number`, which are written out by Python's formatting.
pub record Printing : Type 0 where
  pub show_id : ℕ → String
  pub show_number : Option DocumentNumber → String

-- The line that cancels a posted one: its sides swapped. Its amounts are stored amounts, which
-- `to_money` leaves as they are.
unfoldable pub mirror_line : JournalLine → Outcome PostingError LineDraft
mirror_line l =
    check_line l.account_id (pos l.credit) (pos l.debit)
      (clip 500 (str_append "Reversal: " l.description)) l.dimensions

unfoldable pub mirror_lines : List JournalLine → Outcome PostingError (List LineDraft)
unfolding mirror_line
mirror_lines [] = ok []
mirror_lines (l ∷ ls) = do m ← mirror_line l; ms ← mirror_lines ls; ok (m ∷ ms)

-- `f"reversal:{entry.id}"`
unfoldable pub reversal_key : Printing → JournalEntry → String
reversal_key print entry = str_append "reversal:" (print.show_id entry.id)

unfoldable pub reversal_draft :
    Printing → JournalEntry → Date → String → Outcome PostingError JournalEntryDraft
unfolding mirror_lines
reversal_draft print entry day reason = do
  lines ← mirror_lines entry.lines
  ok (record {
    journal_code = entry.journal;
    entry_date = day;
    currency = entry.currency;
    lines = lines;
    memo = clip 500 (
        if str_eq reason ""
        then str_append "Reversal of " (print.show_number entry.number)
        else reason);
    source = entry.source;
    source_document_type = entry.source_document_type;
    source_document_id = entry.source_document_id;
    exchange_rate = record { is_negative = false; value = entry.exchange_rate };
    idempotency_key = reversal_key print entry;
  })

-- `hasattr(entry, "reversed_by")`
abbrev pub reverses : ℕ → JournalEntry → Bool
reverses id e = elim e.reversal_of [ none ↦ false | some o ↦ o == id ]

-- The two UPDATEs after the mirror is posted, and `mirror.refresh_from_db()`.
abbrev pub marked : ℕ → ℕ → List JournalEntry → List JournalEntry
marked id mirror entries =
    update_entry mirror (λ e. record e { reversal_of = some id })
      (update_entry id (λ e. record e { status = EntryStatus.reversed }) entries)

unfoldable pub mark_reversed : ℕ → ℕ → Books → Outcome PostingError (JournalEntry × Books)
unfolding keeps_terminal update_entry
mark_reversed id mirror books = do
  raise_if (not (keeps_terminal id EntryStatus.reversed books.entries)) constraint
  row ← or_raise (find (has_id mirror) (marked id mirror books.entries)) key_error
  ok (row, record books { entries = marked id mirror books.entries })

-- `reverse_entry`, on the day given (the caller's date, or else today).
unfoldable pub reverse_entry :
    Printing
    → Context
    → JournalEntry
    → Date
    → String
    → Books
    → Outcome PostingError (JournalEntry × Books)
unfolding reversal_draft mark_reversed
reverse_entry print c entry day reason books = do
  raise_if (not (EntryStatus_eq entry.status EntryStatus.posted)) not_posted
  raise_if (elim (find (reverses entry.id) books.entries) [ none ↦ false | some e ↦ true ])
      already_reversed
  draft ← reversal_draft print entry day reason
  result ← post_entry (record c { tenant = entry.tenant }) draft false books
  mark_reversed entry.id result.0.id result.1

-- The lines that count in a report: those of the tenant's POSTED entries.
abbrev pub counts : ℕ → JournalEntry → Bool
counts tenant e = e.tenant == tenant && EntryStatus_eq e.status EntryStatus.posted

abbrev pub base_debits : ℕ → List JournalEntry → ℕ
base_debits tenant = sum_of λ e. if counts tenant e then sum_of (λ l. l.base_debit) e.lines else 0

abbrev pub base_credits : ℕ → List JournalEntry → ℕ
base_credits tenant = sum_of λ e. if counts tenant e then sum_of (λ l. l.base_credit) e.lines else 0

unfoldable pub assert_ledger_balanced : ℕ → Books → Outcome PostingError (Unit {0})
assert_ledger_balanced tenant books =
    raise_if (not (base_debits tenant books.entries == base_credits tenant books.entries))
      unbalanced
