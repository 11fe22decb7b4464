-- ===== src/Ledger/Corrections/Voiding.antt =====
-- What `void_entry` of backend/apps/accounting/services/posting.py does.
use achr.Prelude.{
  ℕ, ◌≡◌, refl, sym, ap, ◌∙◌, String, Bool, true, false, not, some, List, ok, raise_if, or_raise,
  find, is_blank, arith, >>=-eq-ok, raise_if-eq-ok, or_raise-eq-ok, ok-injective,
}
use achr.Prelude.Int.{◌-ℤ◌, int_laws}
use achr.Ledger.Model.{
  FiscalPeriod, Account, increases_on_debit, EntryStatus, EntryStatus_eq, JournalEntry, Books,
}
use achr.Ledger.Draft.{PostingError, period_closed, blank_reason, constraint, key_error, is_account}
use achr.Ledger.Balances.{minus}
use achr.Ledger.Balances.Net.{net, balance-apply}
use achr.Ledger.Posting.{resolve_period}
use achr.Ledger.Corrections.{
  may_become, assert_can_transition, is_period_open, has_id, voided_rows, void_balances, void_entry,
}

pub record IsVoided (now : ℕ) (entry row : JournalEntry) (reason : String) (books after : Books)
    : Type 0 where
  pub accounts : List Account
  pub period : FiscalPeriod
  pub may : may_become entry.status EntryStatus.voided ≡ true
  pub period_found : resolve_period entry.tenant entry.entry_date books ≡ ok period
  pub is_open : is_period_open period.status ≡ true
  pub has_reason : is_blank reason ≡ false
  pub moved : void_balances now entry books.accounts ≡ ok accounts
  pub is_row : find (has_id entry.id) (voided_rows entry.id reason books.entries) ≡ some row
  pub is_after :
      after
      ≡ record books { accounts = accounts; entries = voided_rows entry.id reason books.entries }

not-eq-false : {b : Bool} → not b ≡ false → b ≡ true
not-eq-false {b} h = ground arith

raise_if-may : (b : Bool) (e : PostingError) {u : Unit {0}} → raise_if (not b) e ≡ ok u → b ≡ true
raise_if-may true e h = refl
raise_if-may false e h = cc

pub void_entry-IsVoided :
    (now : ℕ) (entry row : JournalEntry) (reason : String) (books after : Books)
    → void_entry now entry reason books ≡ ok (row, after)
    → IsVoided now entry row reason books after
unfolding void_entry
void_entry-IsVoided now entry row reason books after h =
    let (u, may, h1) = >>=-eq-ok (assert_can_transition entry.status EntryStatus.voided) _ h in
    let (period, found, h2) = >>=-eq-ok (resolve_period entry.tenant entry.entry_date books) _ h1 in
    let (open_period, h3) = raise_if-eq-ok _ period_closed _ h2 in
    let (given, h4) = raise_if-eq-ok _ blank_reason _ h3 in
    let (accounts, moved, h5) = >>=-eq-ok (void_balances now entry books.accounts) _ h4 in
    let (kept, h6) = raise_if-eq-ok _ constraint _ h5 in
    let (r, there, h7) =
      >>=-eq-ok
        (or_raise (find (has_id entry.id) (voided_rows entry.id reason books.entries)) key_error) _
        h6 in
    let pair = ok-injective h7 in
    record {
      accounts = accounts;
      period = period;
      may = raise_if-may _ _ may;
      period_found = found;
      is_open = not-eq-false open_period;
      has_reason = given;
      moved = moved;
      is_row = or_raise-eq-ok _ key_error there ∙ ap (λ p. some p.0) pair;
      is_after = ap (λ p. p.1) (sym pair);
    }

-- Voiding a POSTED entry takes its net movement back out of the cached balance of each account of
-- the tenant.
pub void_entry_cached :
    (now : ℕ) (entry row : JournalEntry) (reason : String) (books after : Books)
    → EntryStatus_eq entry.status EntryStatus.posted ≡ true
    → void_entry now entry reason books ≡ ok (row, after)
    → (a : Account) → find (is_account entry.tenant a.id) books.accounts ≡ some a
    → (b : Account) × (find (is_account entry.tenant a.id) after.accounts ≡ some b)
      × (b.cached_balance ≡ a.cached_balance -ℤ net a.id (increases_on_debit a) entry.lines)
unfolding void_balances
void_entry_cached now entry row reason books after posted h a found =
    let v = void_entry-IsVoided now entry row reason books after h in
    let (b, there, moved, side) =
      balance-apply entry.tenant now minus entry.lines books.accounts v.accounts
        (rw posted at v.moved) a found in
    (
      b,
      ap (λ t. find (is_account entry.tenant a.id) t.accounts) v.is_after ∙ there,
      moved ∙ omega int_laws,
    )
