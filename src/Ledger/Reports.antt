-- ===== src/Ledger/Reports.antt =====
-- `ledger_query` of backend/apps/reporting/generators/base.py: the journal lines that every ledger
-- report is made of, and the sums that a report takes over them for one account.
use achr.Prelude.{
  ℕ, Bool, true, false, ◌&&◌, ◌||◌, Option, none, some, List, sum_of, ◌==◌, if◌then◌else◌,
}
use achr.Ledger.Model.{Date, on_or_before, EntryStatus, EntryStatus_eq, JournalLine, JournalEntry}

-- The part of `ReportContext` that the query reads, with the arguments of `ledger_query`.
pub record Query : Type 0 where
  pub tenant : ℕ
  pub include_unposted : Bool
  pub ignore_period : Bool
  pub date_from : Option Date
  pub date_to : Option Date
  pub context_from : Option Date
  pub context_to : Option Date
  pub as_of : Option Date
  pub department : Option ℕ
  pub project : Option ℕ

abbrev pub or_else {ℓ} : {A : Type ℓ} → Option A → Option A → Option A
or_else none b = b
or_else (some a) b = some a

abbrev pub from_ok : Option Date → Date → Bool
from_ok none day = true
from_ok (some d) day = on_or_before d day

abbrev pub to_ok : Option Date → Date → Bool
to_ok none day = true
to_ok (some d) day = on_or_before day d

-- The date filters of the query.
unfoldable pub in_range : Query → Date → Bool
in_range q day =
    (q.ignore_period || from_ok (or_else q.date_from q.context_from) day)
    && to_ok (or_else q.date_to (or_else q.context_to q.as_of)) day

-- `entry__status__in=statuses`
unfoldable pub status_counts : Query → EntryStatus → Bool
status_counts q s =
    EntryStatus_eq s EntryStatus.posted
    || (q.include_unposted && EntryStatus_eq s EntryStatus.draft)

unfoldable pub selects : Query → JournalEntry → Bool
unfolding in_range status_counts
selects q e = e.tenant == q.tenant && status_counts q e.status && in_range q e.entry_date

abbrev pub same_dimension : Option ℕ → Option ℕ → Bool
same_dimension none d = true
same_dimension (some k) none = false
same_dimension (some k) (some d) = d == k

-- The filters on the line itself, and the account that a report groups by.
unfoldable pub selects_line : Query → ℕ → JournalLine → Bool
selects_line q account l =
    l.account_id == account
    && same_dimension q.department l.dimensions.department_id
    && same_dimension q.project l.dimensions.project_id

-- `Sum("base_debit")` and `Sum("base_credit")` over the lines of one entry, and over the query.
abbrev pub entry_debit : Query → ℕ → List JournalLine → ℕ
entry_debit q account = sum_of λ l. if selects_line q account l then l.base_debit else 0

abbrev pub entry_credit : Query → ℕ → List JournalLine → ℕ
entry_credit q account = sum_of λ l. if selects_line q account l then l.base_credit else 0

abbrev pub reported_debit : Query → ℕ → List JournalEntry → ℕ
reported_debit q account = sum_of λ e. if selects q e then entry_debit q account e.lines else 0

abbrev pub reported_credit : Query → ℕ → List JournalEntry → ℕ
reported_credit q account = sum_of λ e. if selects q e then entry_credit q account e.lines else 0
