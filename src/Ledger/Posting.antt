-- ===== src/Ledger/Posting.antt =====
-- `resolve_period` and `post_entry` of backend/apps/accounting/services/posting.py. The function runs
-- in one transaction: an error gives no tables, so what it had written before is gone.
pub mod Effect
pub mod Retry
pub mod Sound
pub mod Progress
use achr.Prelude.{
  ℕ, suc, ◌+◌, ◌*◌, ◌/◌, ◌^◌, String, Bool, true, false, not, ◌&&◌, ◌||◌, Option, none, some, List,
  [], ◌∷◌, Outcome, ok, err, ◌>>=◌, ◌>>◌, raise_if, or_raise, find, sum_of, str_eq, clip,
  if◌then◌else◌, ◌==◌,
}
use achr.Money.{Decimal, decimal, micros, mul, round_half_up, quantize, quantize_currency}
use achr.Ledger.Model.{
  Date, on_or_before, PeriodStatus, FiscalPeriod, Journal, EntryStatus, DocumentNumber, JournalLine,
  JournalEntry, DocumentSequence, Books,
}
use achr.Ledger.Draft.{
  PostingError, no_period, period_closed, no_journal, constraint, LineDraft, JournalEntryDraft,
  total_debit, total_credit, validate_draft,
}
use achr.Ledger.Fx.{base_currency, resolve_rate}
use achr.Ledger.Numbering.{allocate_number}
use achr.Ledger.Balances.{plus, apply_to_cached_balances}
use achr.Ledger.Guards.{has_key, insert_entry, lines_ok, entry_balanced}

abbrev pub covers : ℕ → Date → FiscalPeriod → Bool
covers tenant day p =
    p.tenant == tenant && on_or_before p.start_date day && on_or_before day p.end_date

unfoldable pub resolve_period : ℕ → Date → Books → Outcome PostingError FiscalPeriod
resolve_period tenant day books = or_raise (find (covers tenant day) books.periods) no_period

-- `period.status in allowed`
abbrev pub accepts : Bool → PeriodStatus → Bool
accepts allow_soft_closed PeriodStatus.open_ = true
accepts allow_soft_closed PeriodStatus.soft_closed = allow_soft_closed
accepts allow_soft_closed PeriodStatus.closed = false

abbrev pub is_journal : ℕ → String → Journal → Bool
is_journal tenant code j = j.tenant == tenant && str_eq j.code code && j.is_active

-- One `JournalLine(...)`: the amounts rounded to the minor unit of the entry's currency, and their
-- conversions to that of the base currency.
unfoldable pub post_line : String → String → Decimal → ℕ → LineDraft → JournalLine
post_line currency base rate index l = record {
  line_number = index;
  account_id = l.account_id;
  description = clip 500 l.description;
  debit = quantize l.debit currency;
  credit = quantize l.credit currency;
  base_debit = quantize_currency (mul (micros l.debit) rate) base;
  base_credit = quantize_currency (mul (micros l.credit) rate) base;
  dimensions = l.dimensions;
}

-- `enumerate(draft.lines, start=index)`
unfoldable pub post_lines : String → String → Decimal → ℕ → List LineDraft → List JournalLine
unfolding post_line
post_lines currency base rate index [] = []
post_lines currency base rate index (l ∷ ls) =
    post_line currency base rate index l ∷ post_lines currency base rate (suc index) ls

-- A rate as its column numeric(9,6) keeps it.
unfoldable pub stored_rate : Decimal → Decimal
stored_rate r = decimal (round_half_up (r.coef * 10 ^ 6) (10 ^ r.places)) 6

-- What a caller passes beside the draft: the tenant, the user, the new row's id and the clock.
pub record Context : Type 0 where
  pub tenant : ℕ
  pub user : Option ℕ
  pub fresh : ℕ
  pub now : ℕ

-- The row that `post_entry` builds.
unfoldable pub posted_entry :
    Context → JournalEntryDraft → FiscalPeriod → Decimal → String → DocumentNumber → JournalEntry
unfolding post_lines stored_rate
posted_entry c draft period rate base number = record {
  id = c.fresh;
  tenant = c.tenant;
  journal = draft.journal_code;
  period = period.id;
  number = some number;
  entry_date = draft.entry_date;
  status = EntryStatus.posted;
  source = draft.source;
  memo = clip 500 draft.memo;
  currency = draft.currency;
  exchange_rate = stored_rate rate;
  total_debit = quantize (total_debit draft) draft.currency;
  total_credit = quantize (total_credit draft) draft.currency;
  posted_at = some c.now;
  posted_by = c.user;
  reversal_of = none;
  void_reason = "";
  source_document_type = draft.source_document_type;
  source_document_id = draft.source_document_id;
  idempotency_key = draft.idempotency_key;
  lines = post_lines draft.currency base rate 1 draft.lines;
}

-- What `post_entry` has looked up before it writes: the period, the rate, the base currency, and the
-- number with the counters as they are after it was allocated.
pub record Prepared : Type 0 where
  pub period : FiscalPeriod
  pub rate : Decimal
  pub base : String
  pub number : DocumentNumber
  pub sequences : List DocumentSequence

unfoldable pub prepare : Context → JournalEntryDraft → Bool → Books → Outcome PostingError Prepared
unfolding resolve_period
prepare c draft allow_soft_closed books = do
  period ← resolve_period c.tenant draft.entry_date books
  raise_if (not (accepts allow_soft_closed period.status)) period_closed
  journal ← or_raise (find (is_journal c.tenant draft.journal_code) books.journals) no_journal
  rate ← resolve_rate c.tenant draft.currency draft.entry_date (some draft.exchange_rate) books
  base ← base_currency c.tenant books
  let (number, sequences) = allocate_number c.tenant journal draft.entry_date books.sequences
  ok (record { period = period; rate = rate; base = base; number = number; sequences = sequences })

-- The writes: the entry, its lines, the cached balances; and what the database checks on the way
-- and at COMMIT.
unfoldable pub write_entry :
    Context → JournalEntry → Books → Outcome PostingError (JournalEntry × Books)
write_entry c entry books = do
  saved ← insert_entry entry books
  raise_if (not (lines_ok entry.lines)) constraint
  accounts ← apply_to_cached_balances c.tenant c.now plus entry.lines saved.accounts
  raise_if (not (entry_balanced entry)) constraint
  ok (entry, record saved { accounts = accounts })

-- `post_entry` after the idempotency check.
unfoldable pub post_new :
    Context → JournalEntryDraft → Bool → Books → Outcome PostingError (JournalEntry × Books)
post_new c draft allow_soft_closed books = do
  p ← prepare c draft allow_soft_closed books
  write_entry c (posted_entry c draft p.period p.rate p.base p.number)
      (record books { sequences = p.sequences })

-- The entry that has consumed the draft's idempotency key, if it has a key.
unfoldable pub existing : ℕ → String → List JournalEntry → Option JournalEntry
existing tenant key entries = if str_eq key "" then none else find (has_key tenant key) entries

unfoldable pub post_entry :
    Context → JournalEntryDraft → Bool → Books → Outcome PostingError (JournalEntry × Books)
unfolding existing
post_entry c draft allow_soft_closed books = do
  validate_draft draft c.tenant books
  elim (existing c.tenant draft.idempotency_key books.entries) [
    | some entry ↦ ok (entry, books)
    | none ↦ post_new c draft allow_soft_closed books
  ]
