-- ===== src/Ledger/Guards.antt =====
-- What the database itself refuses when an entry is written: the constraints of
-- backend/apps/accounting/models.py and the triggers of migrations/0004_ledger_guards.py. A refusal
-- rolls the whole transaction back.
use achr.Prelude.{
  ℕ, ◌^◌, String, Bool, true, false, not, ◌&&◌, ◌||◌, Option, none, some, List, [], ◌∷◌, ◌++◌,
  Outcome, ok, ◌>>=◌, ◌>>◌, raise_if, or_raise, length, find, sum_of, str_eq, ltb, leb, ◌==◌,
}
use achr.Ledger.Model.{
  PeriodStatus, DocumentNumber, JournalLine, EntryStatus, EntryStatus_eq, JournalEntry, Books,
}
use achr.Ledger.Draft.{PostingError, constraint, duplicate_posting}

-- numeric(19,6) in millionths, and numeric(9,6).
abbrev pub fits_money : ℕ → Bool
fits_money n = ltb n (10 ^ 19)

abbrev pub fits_rate : ℕ → Bool
fits_rate n = ltb n (10 ^ 9)

-- `trg_period_locked`
unfoldable pub period_locked : JournalEntry → Books → Outcome PostingError (Unit {0})
period_locked entry books = do
  p ← or_raise (find (λ p. p.id == entry.period) books.periods) constraint
  y ← or_raise (find (λ y. y.id == p.fiscal_year) books.years) constraint
  raise_if ((elim p.status [ PeriodStatus.closed ↦ true | _ ↦ false ]) || y.is_closed) constraint

unfoldable pub same_number : Option DocumentNumber → Option DocumentNumber → Bool
same_number (some a) (some b) = str_eq a.prefix b.prefix && a.year == b.year && a.value == b.value
same_number _ _ = false

-- The row constraints `ck_entry_balanced`, `ck_entry_posted_has_timestamp`, `ck_entry_fx_positive`
-- and the widths of the columns.
unfoldable pub entry_ok : JournalEntry → Bool
entry_ok e =
    (not (EntryStatus_eq e.status EntryStatus.posted)
      || (e.total_debit == e.total_credit && ltb 0 e.total_debit))
    && (not (EntryStatus_eq e.status EntryStatus.posted)
        || (elim e.posted_at [ none ↦ false | some t ↦ true ]))
    && ltb 0 e.exchange_rate.coef
    && fits_rate e.exchange_rate.coef
    && fits_money e.total_debit
    && fits_money e.total_credit

-- `uq_entry_idempotency`, with the message that `post_entry` turns into DuplicatePosting.
abbrev pub has_key : ℕ → String → JournalEntry → Bool
has_key tenant key e = e.tenant == tenant && str_eq e.idempotency_key key

-- `uq_entry_number`, and the primary key.
abbrev pub clashes : JournalEntry → JournalEntry → Bool
clashes new e =
    e.id == new.id
    || (e.tenant == new.tenant && str_eq e.journal new.journal && same_number e.number new.number)

abbrev pub is_some {ℓ} : {A : Type ℓ} → Option A → Bool
is_some none = false
is_some (some a) = true

-- `entry.save()`
unfoldable pub insert_entry : JournalEntry → Books → Outcome PostingError Books
unfolding period_locked entry_ok same_number
insert_entry entry books = do
  period_locked entry books
  raise_if (not (entry_ok entry)) constraint
  raise_if
      (not (str_eq entry.idempotency_key "")
        && is_some (find (has_key entry.tenant entry.idempotency_key) books.entries))
      duplicate_posting
  raise_if (is_some (find (clashes entry) books.entries)) constraint
  ok (record books { entries = books.entries ++ (entry ∷ []) })

-- `ck_line_single_sided` and the widths of the columns; `ck_line_non_negative` holds of a ℕ.
unfoldable pub line_ok : JournalLine → Bool
line_ok l =
    ((ltb 0 l.debit && l.credit == 0) || (ltb 0 l.credit && l.debit == 0))
    && fits_money l.debit
    && fits_money l.credit
    && fits_money l.base_debit
    && fits_money l.base_credit

unfoldable pub lines_ok : List JournalLine → Bool
unfolding line_ok
lines_ok [] = true
lines_ok (l ∷ ls) = line_ok l && lines_ok ls

-- `trg_entry_balanced`, at COMMIT.
unfoldable pub entry_balanced : JournalEntry → Bool
entry_balanced e =
    let debit = sum_of (λ l. l.debit) e.lines in
    let credit = sum_of (λ l. l.credit) e.lines in
    not (EntryStatus_eq e.status EntryStatus.posted)
    || (leb 2 (length e.lines)
        && debit == credit
        && ltb 0 debit
        && e.total_debit == debit
        && e.total_credit == credit)
