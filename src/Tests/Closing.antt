-- ===== src/Tests/Closing.antt =====
-- A closed year and postings beside it, at concrete inputs
-- (backend/apps/accounting/services/posting.py and periods.py).
use achr.Prelude.{true, ◌≡◌, refl, some, [], ◌∷◌, filter, ok}
use achr.Prelude.Int.{◌+ℤ◌, ◌-ℤ◌, neg}
use achr.Money.{
  quantize, quantize_currency, minor, round_half_up, minor_units, units_in, same_code, to_upper,
  same_value, mul, round_digits,
}
use achr.Ledger.Model.{
  increases_on_debit, normal_balance, PeriodStatus, FiscalPeriod, JournalEntry, Books,
}
use achr.Ledger.Draft.{validate_draft, is_missing, has_account, check_accounts, JournalEntryDraft}
use achr.Ledger.Fx.{resolve_rate, given_rate, is_one, base_currency}
use achr.Ledger.Numbering.{allocate_number, get_or_create, save_next, journal_scope}
use achr.Ledger.Balances.{
  apply_to_cached_balances, deltas, add_delta, movement, move_balances, move_balance,
}
use achr.Ledger.Guards.{
  insert_entry, period_locked, entry_ok, same_number, lines_ok, line_ok, entry_balanced,
}
use achr.Ledger.Posting.{
  post_entry, existing, post_new, prepare, resolve_period, write_entry, posted_entry, post_lines,
  post_line, stored_rate,
}
use achr.Ledger.Periods.{transition_period, period_may_become, check_year, moved}
use achr.Ledger.Periods.Closed.{of_period}
use achr.Ledger.Periods.Frozen.{step, done, moves, posts, Steps-are_frozen}
use achr.Tests.Company.{value_or, date, period, sale, sale_entry, books_after, second}

-- The year after, still open.
abbrev next_period : FiscalPeriod
next_period = record (period PeriodStatus.open_) {
  id = 8;
  start_date = date 2025 1 1;
  end_date = date 2025 12 31;
}

abbrev year_end : Books
year_end = record books_after { periods = period PeriodStatus.closed ∷ next_period ∷ [] }

abbrev softened : FiscalPeriod × Books
softened =
    value_or (next_period, year_end)
      (transition_period 8 1 PeriodStatus.soft_closed (some 5) 70 year_end)

next_softened : transition_period 8 1 PeriodStatus.soft_closed (some 5) 70 year_end ≡ ok softened
unfolding transition_period period_may_become check_year moved
next_softened = refl

abbrev late_sale : JournalEntryDraft
late_sale = record sale { entry_date = date 2025 1 2; idempotency_key = "k2" }

abbrev adjusted : JournalEntry × Books
adjusted = value_or (sale_entry, softened.1) (post_entry second late_sale true softened.1)

late_posted : post_entry second late_sale true softened.1 ≡ ok adjusted
unfolding validate_draft is_missing has_account check_accounts quantize quantize_currency minor
    round_half_up minor_units units_in same_code to_upper post_entry existing post_new prepare
    resolve_period write_entry posted_entry post_lines post_line stored_rate resolve_rate given_rate
    is_one same_value base_currency allocate_number get_or_create save_next journal_scope
    insert_entry period_locked entry_ok same_number lines_ok line_ok apply_to_cached_balances deltas
    add_delta movement move_balances move_balance increases_on_debit normal_balance entry_balanced
    mul round_digits ◌+ℤ◌ ◌-ℤ◌ neg transition_period period_may_become check_year moved
late_posted = refl

Steps-are_frozen_example :
    filter (of_period 7) adjusted.1.entries ≡ filter (of_period 7) year_end.entries
unfolding posted_entry
Steps-are_frozen_example =
    Steps-are_frozen 7
      (step (moves 8 1 PeriodStatus.soft_closed (some 5) 70 softened refl next_softened)
        (step (posts second late_sale true adjusted.0 late_posted) done))
      refl (refl, tt)
