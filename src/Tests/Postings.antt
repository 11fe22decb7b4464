-- ===== src/Tests/Postings.antt =====
-- The ledger's results at a concrete posting (backend/apps/accounting/services/posting.py).
use achr.Prelude.{◌+◌, true, false, ◌≡◌, refl, none, some, ok, is_blank, inl, ◌==◌, All}
use achr.Prelude.Int.{pos, ◌+ℤ◌, ◌-ℤ◌, neg}
use achr.Money.{
  quantize, quantize_currency, minor, round_half_up, minor_units, units_in, same_code, to_upper,
  same_value, mul, round_digits,
}
use achr.Ledger.Model.{
  increases_on_debit, normal_balance, AccountType, EntryStatus, EntryStatus_eq, Account,
}
use achr.Ledger.Corrections.Rows.{IsRow, IsFree}
use achr.Ledger.Corrections.Reversal.{reverse_entry_reported}
use achr.Ledger.Corrections.Mirror.{reverse_entry_cached, IsRounded}
use achr.Ledger.Corrections.Voiding.{void_entry_cached}
use achr.Ledger.Balances.Net.{net}
use achr.Ledger.Draft.{is_account}
use achr.Ledger.Reports.{reported_debit, reported_credit, entry_debit, entry_credit}
use achr.Prelude.{find}
use achr.Ledger.Draft.{validate_draft, is_missing, has_account, check_accounts}
use achr.Ledger.Fx.{resolve_rate, given_rate, is_one, base_currency}
use achr.Ledger.Numbering.{allocate_number, get_or_create, save_next, journal_scope}
use achr.Ledger.Balances.{
  apply_to_cached_balances, deltas, add_delta, movement, move_balances, move_balance,
}
use achr.Ledger.Guards.{
  insert_entry, period_locked, entry_ok, same_number, lines_ok, line_ok, entry_balanced,
}
use achr.Ledger.Posting.{
  post_entry, existing, post_new, prepare, resolve_period, write_entry, posted_entry, post_lines,
  post_line, stored_rate,
}
use achr.Ledger.Draft.{check_line}
use achr.Ledger.Reports.{selects, in_range, status_counts}
use achr.Ledger.Corrections.{
  reverse_entry, reversal_draft, mark_reversed, keeps_terminal, update_entry, mirror_lines,
  mirror_line, reversal_key, void_entry, assert_can_transition, may_become, is_period_open,
  void_balances,
}
use achr.Ledger.Posting.Sound.{post_entry-IsSound, IsSound}
use achr.Ledger.Posting.Retry.{post_entry_retry}
use achr.Tests.Company.{
  books, sale, clerk, second, sale_entry, books_after, print, june, this_year, reversed, voided,
  account,
}

pub sale_posted : post_entry clerk sale false books ≡ ok (sale_entry, books_after)
unfolding validate_draft is_missing has_account check_accounts quantize quantize_currency minor
    round_half_up minor_units units_in same_code to_upper post_entry existing post_new prepare
    resolve_period write_entry posted_entry post_lines post_line stored_rate resolve_rate given_rate
    is_one same_value base_currency allocate_number get_or_create save_next journal_scope
    insert_entry period_locked entry_ok same_number lines_ok line_ok apply_to_cached_balances deltas
    add_delta movement move_balances move_balance increases_on_debit normal_balance entry_balanced
    mul round_digits ◌+ℤ◌ ◌-ℤ◌ neg
sale_posted = refl

books-IsSound : IsSound books
books-IsSound = tt

books_after-IsSound : IsSound books_after
books_after-IsSound =
    post_entry-IsSound clerk sale false books books_after sale_entry books-IsSound sale_posted

post_entry-IsSound_example : IsSound books_after
post_entry-IsSound_example =
    post_entry-IsSound clerk sale false books books_after sale_entry books-IsSound sale_posted

-- The same draft, sent again by another user with another permission.
post_entry_retry_example : post_entry second sale true books_after ≡ ok (sale_entry, books_after)
post_entry_retry_example =
    post_entry_retry clerk second sale false true books books_after sale_entry refl refl sale_posted

pub sale_reversed :
    reverse_entry print second sale_entry june "" books_after ≡ ok (reversed.0, reversed.1)
unfolding validate_draft is_missing has_account check_accounts quantize quantize_currency minor
    round_half_up minor_units units_in same_code to_upper post_entry existing post_new prepare
    resolve_period write_entry posted_entry post_lines post_line stored_rate resolve_rate given_rate
    is_one same_value base_currency allocate_number get_or_create save_next journal_scope
    insert_entry period_locked entry_ok same_number lines_ok line_ok apply_to_cached_balances deltas
    add_delta movement move_balances move_balance increases_on_debit normal_balance entry_balanced
    mul round_digits ◌+ℤ◌ ◌-ℤ◌ neg reverse_entry reversal_draft mark_reversed keeps_terminal
    update_entry mirror_lines mirror_line check_line reversal_key void_entry assert_can_transition
    may_become is_period_open void_balances is_blank
sale_reversed = refl

pub sale_voided : void_entry 60 sale_entry "typo" books_after ≡ ok (voided.0, voided.1)
unfolding validate_draft is_missing has_account check_accounts quantize quantize_currency minor
    round_half_up minor_units units_in same_code to_upper post_entry existing post_new prepare
    resolve_period write_entry posted_entry post_lines post_line stored_rate resolve_rate given_rate
    is_one same_value base_currency allocate_number get_or_create save_next journal_scope
    insert_entry period_locked entry_ok same_number lines_ok line_ok apply_to_cached_balances deltas
    add_delta movement move_balances move_balance increases_on_debit normal_balance entry_balanced
    mul round_digits ◌+ℤ◌ ◌-ℤ◌ neg reverse_entry reversal_draft mark_reversed keeps_terminal
    update_entry mirror_lines mirror_line check_line reversal_key void_entry assert_can_transition
    may_become is_period_open void_balances is_blank
sale_voided = refl

sale_shown : selects this_year sale_entry ≡ true
unfolding selects in_range status_counts posted_entry
sale_shown = refl

june_within : in_range this_year june ≡ true
unfolding in_range
june_within = refl

sale_of_tenant : (sale_entry.tenant == 1) ≡ true
unfolding posted_entry
sale_of_tenant = refl

reversal_unused :
    existing sale_entry.tenant (reversal_key print sale_entry) books_after.entries ≡ none
unfolding existing reversal_key posted_entry
reversal_unused = refl

sale-IsRow : IsRow sale_entry books_after.entries
sale-IsRow = inl (refl, tt)

fresh-IsFree : IsFree second.fresh books_after.entries
unfolding posted_entry
fresh-IsFree = (refl, tt)

reverse_entry_reported_example :
    (reported_debit this_year 10 reversed.1.entries + entry_debit this_year 10 sale_entry.lines
      ≡ reported_debit this_year 10 books_after.entries + entry_debit this_year 10 reversed.0.lines)
    × (reported_credit this_year 10 reversed.1.entries + entry_credit this_year 10 sale_entry.lines
        ≡ reported_credit this_year 10 books_after.entries
          + entry_credit this_year 10 reversed.0.lines)
reverse_entry_reported_example =
    reverse_entry_reported this_year 10 print second sale_entry reversed.0 june "" books_after
      reversed.1 sale-IsRow fresh-IsFree reversal_unused sale_shown sale_of_tenant june_within
      sale_reversed

sale-IsRounded : All (IsRounded sale_entry.currency) sale_entry.lines
unfolding validate_draft is_missing has_account check_accounts quantize quantize_currency minor
    round_half_up minor_units units_in same_code to_upper post_entry existing post_new prepare
    resolve_period write_entry posted_entry post_lines post_line stored_rate resolve_rate given_rate
    is_one same_value base_currency allocate_number get_or_create save_next journal_scope
    insert_entry period_locked entry_ok same_number lines_ok line_ok apply_to_cached_balances deltas
    add_delta movement move_balances move_balance increases_on_debit normal_balance entry_balanced
    mul round_digits ◌+ℤ◌ ◌-ℤ◌ neg
sale-IsRounded = ((refl, refl), ((refl, refl), tt))

abbrev cash : Account
cash = record (account 10 AccountType.asset) {
  cached_balance = pos 5000000;
  cached_balance_as_of = 50;
}

cash_found : find (is_account sale_entry.tenant cash.id) books_after.accounts ≡ some cash
unfolding posted_entry
cash_found = refl

reverse_entry_cached_example :
    (b : Account) × (find (is_account sale_entry.tenant cash.id) reversed.1.accounts ≡ some b)
    × (b.cached_balance
        ≡ cash.cached_balance -ℤ net cash.id (increases_on_debit cash) sale_entry.lines)
reverse_entry_cached_example =
    reverse_entry_cached print second sale_entry reversed.0 june "" books_after reversed.1
      reversal_unused sale-IsRounded sale_reversed cash cash_found

sale_is_posted : EntryStatus_eq sale_entry.status EntryStatus.posted ≡ true
unfolding posted_entry
sale_is_posted = refl

void_entry_cached_example :
    (b : Account) × (find (is_account sale_entry.tenant cash.id) voided.1.accounts ≡ some b)
    × (b.cached_balance
        ≡ cash.cached_balance -ℤ net cash.id (increases_on_debit cash) sale_entry.lines)
void_entry_cached_example =
    void_entry_cached 60 sale_entry voided.0 "typo" books_after voided.1 sale_is_posted sale_voided
      cash cash_found
