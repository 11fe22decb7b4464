-- ===== src/Ledger/Posting/Sound.antt =====
-- The invariant of the ledger: every POSTED entry balances, line by line and in its control totals.
use achr.Prelude.{
  ◌≤◌, ◌<◌, ◌≡◌, sym, ap, subst, ◌⊎◌, inl, inr, Bool, true, false, List, [], ◌∷◌, ok, sum_of,
  length, All, All-append, arith,
}
use achr.Ledger.Model.{EntryStatus, EntryStatus_eq, JournalLine, JournalEntry, Books}
use achr.Ledger.Draft.{JournalEntryDraft}
use achr.Ledger.Guards.{entry_balanced, line_ok, lines_ok}
use achr.Ledger.Posting.{Context, post_entry, posted_entry}
use achr.Ledger.Posting.Effect.{IsPosted, post_entry-cases}

-- Exactly one side of a line carries its amount.
abbrev pub IsSingleSided : JournalLine → Type 0
IsSingleSided l = ((0 < l.debit) × (l.credit ≡ 0)) ⊎ ((0 < l.credit) × (l.debit ≡ 0))

-- Double entry: at least two single-sided lines, whose debits and credits are equal, positive, and
-- the entry's control totals.
pub record IsDoubleEntry (e : JournalEntry) : Type 0 where
  pub two_lines : 2 ≤ length e.lines
  pub sided : All IsSingleSided e.lines
  pub equal : sum_of (λ l. l.debit) e.lines ≡ sum_of (λ l. l.credit) e.lines
  pub positive : 0 < sum_of (λ l. l.debit) e.lines
  pub debit_total : e.total_debit ≡ sum_of (λ l. l.debit) e.lines
  pub credit_total : e.total_credit ≡ sum_of (λ l. l.credit) e.lines

abbrev pub IsSoundEntry : JournalEntry → Type 0
IsSoundEntry e = (EntryStatus_eq e.status EntryStatus.posted ≡ false) ⊎ IsDoubleEntry e

abbrev pub IsSound : Books → Type 0
IsSound books = All IsSoundEntry books.entries

lines_ok-sided : (lines : List JournalLine) → lines_ok lines ≡ true → All IsSingleSided lines
unfolding lines_ok line_ok
lines_ok-sided [] h = tt
lines_ok-sided (l ∷ ls) h = (ground arith, lines_ok-sided ls (ground arith))

guarded-IsDoubleEntry :
    (e : JournalEntry)
    → lines_ok e.lines ≡ true
    → entry_balanced e ≡ true
    → EntryStatus_eq e.status EntryStatus.posted ≡ true
    → IsDoubleEntry e
unfolding entry_balanced
guarded-IsDoubleEntry e legal balanced posted = record {
  two_lines = ground arith;
  sided = lines_ok-sided e.lines legal;
  equal = ground arith;
  positive = ground arith;
  debit_total = ground arith;
  credit_total = ground arith;
}

IsPosted-IsDoubleEntry :
    (c : Context) (draft : JournalEntryDraft) (soft : Bool) (books after : Books)
    (entry : JournalEntry)
    → IsPosted c draft soft books entry after
    → IsDoubleEntry entry
unfolding posted_entry
IsPosted-IsDoubleEntry c draft soft books after entry w =
    guarded-IsDoubleEntry entry w.written.is_legal w.written.is_balanced
      (ap (λ e. EntryStatus_eq e.status EntryStatus.posted) w.is_entry)

-- If every POSTED entry of the ledger is in double entry (at least two single-sided lines, equal
-- and positive sides that are the totals of its header), then that is so too after `post_entry`
-- has succeeded, with the new entry among them.
pub post_entry-IsSound :
    (c : Context) (draft : JournalEntryDraft) (soft : Bool) (books after : Books)
    (entry : JournalEntry)
    → IsSound books
    → post_entry c draft soft books ≡ ok (entry, after)
    → IsSound after
post_entry-IsSound c draft soft books after entry sound h =
    elim (post_entry-cases c draft soft books entry after h) [
      | inl (found, same) ↦ subst IsSound (sym same) sound
      | inr (new, w) ↦ subst IsSound (sym w.written.is_after) (
          All-append IsSoundEntry books.entries (entry ∷ []) sound
            (inr (IsPosted-IsDoubleEntry c draft soft books after entry w), tt))
    ]
