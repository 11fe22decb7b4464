-- ===== src/Stock/Entries.antt =====
-- The ledger entry of a stock movement: `build_journal_entry` of
-- backend/apps/inventory/services/stock.py, with the accounts that it looks up.
pub mod Sides
use achr.Prelude.{
  ℕ, ◌==◌, String, Bool, true, false, ◌&&◌, Option, none, some, List, [], ◌∷◌, find, str_eq, ltb,
  leb, if◌then◌else◌, clip, Outcome, ok, err, ◌>>=◌, ◌>>◌, raise_if, or_raise,
}
use achr.Prelude.Int.{pos, ltb_ℤ}
use achr.Money.{Decimal, decimal, one}
use achr.Money.Coerce.{Number, finite, Argument, dec}
use achr.Ledger.Model.{Date, Account, Journal, JournalKind, EntrySource, Dimensions, Books}
use achr.Ledger.Draft.{PostingError, LineDraft, JournalEntryDraft, line_draft, add}
use achr.Stock.Model.{Item, MovementType, StockMovement, StockError}

-- `_cogs_account`
unfoldable pub cogs_account : Item → Outcome StockError ℕ
cogs_account item = or_raise item.expense_account StockError.no_cogs_account

-- `_system_account`
unfoldable pub system_account : ℕ → String → Option ℕ → List Account → Outcome StockError ℕ
system_account tenant system_key fallback accounts =
    elim (find (λ a. a.tenant == tenant && str_eq a.system_key system_key && a.is_active)
      accounts) [ some a ↦ ok a.id | none ↦ or_raise fallback StockError.no_system_account ]

abbrev pub is_inventory_journal : Journal → Bool
is_inventory_journal j = elim j.kind [ JournalKind.inventory ↦ true | _ ↦ false ]

-- `_inventory_journal_code`
unfoldable pub inventory_journal_code : ℕ → List Journal → Outcome StockError String
inventory_journal_code tenant journals =
    or_raise (find (λ j. j.tenant == tenant && is_inventory_journal j && j.is_active) journals)
      StockError.no_inventory_journal
    >>= λ j. ok j.code

-- `(inventory, counter) if inbound else (counter, inventory)`
abbrev pub by_direction : Bool → ℕ → ℕ → Option (ℕ × ℕ)
by_direction inbound inventory counter =
    some (if inbound then (inventory, counter) else (counter, inventory))

-- The table of the docstring: the account to debit and the one to credit. The fallback of a system
-- account is an argument, so it is looked up before.
unfoldable pub entry_sides :
    ℕ → Item → MovementType → Bool → ℕ → List Account → Outcome StockError (Option (ℕ × ℕ))
unfolding cogs_account system_account
entry_sides tenant item MovementType.purchase inbound inventory accounts =
    system_account tenant "ap_control" none accounts >>= λ ap. ok (some (inventory, ap))
entry_sides tenant item MovementType.sale inbound inventory accounts =
    cogs_account item >>= λ cogs. ok (some (cogs, inventory))
entry_sides tenant item MovementType.return_in inbound inventory accounts =
    cogs_account item >>= λ cogs. ok (some (inventory, cogs))
entry_sides tenant item MovementType.return_out inbound inventory accounts =
    system_account tenant "ap_control" none accounts >>= λ ap. ok (some (ap, inventory))
entry_sides tenant item MovementType.adjustment inbound inventory accounts =
    cogs_account item >>= λ cogs.
    system_account tenant "inventory_adjustment" (some cogs) accounts >>= λ counter.
    ok (by_direction inbound inventory counter)
entry_sides tenant item MovementType.production inbound inventory accounts =
    cogs_account item >>= λ cogs.
    system_account tenant "work_in_progress" (some cogs) accounts >>= λ wip.
    ok (by_direction inbound inventory wip)
entry_sides tenant item MovementType.opening inbound inventory accounts =
    system_account tenant "opening_balance_equity" none accounts >>= λ equity.
    ok (by_direction inbound inventory equity)
entry_sides tenant item MovementType.transfer_in inbound inventory accounts = ok none
entry_sides tenant item MovementType.transfer_out inbound inventory accounts = ok none

abbrev pub posting_result {ℓ} : {A : Type ℓ} → Outcome PostingError A → Outcome StockError A
posting_result (ok a) = ok a
posting_result (err e) = err (StockError.posting e)

-- What the entry takes from Django and from Python's printing: the local day of a time, the memo, and
-- the movement's key in print.
pub record Printing : Type 0 where
  pub localdate : ℕ → Date
  pub memo : String
  pub idempotency_key : String

abbrev pub no_dimensions : Dimensions
no_dimensions = record {
  partner_type = "";
  partner_id = none;
  project_id = none;
  department_id = none;
  tax_rate_id = none;
}

-- `ZERO`, the default of a line's other side.
abbrev pub zero_argument : Argument
zero_argument = dec (finite false (decimal 0 0))

abbrev pub empty_draft : StockMovement → String → String → Printing → JournalEntryDraft
empty_draft movement currency journal_code p = record {
  journal_code = journal_code;
  entry_date = p.localdate movement.occurred_at;
  currency = currency;
  lines = [];
  memo = clip 500 p.memo;
  source = EntrySource.inventory;
  source_document_type = "stock_movement";
  source_document_id = some movement.id;
  exchange_rate = record { is_negative = false; value = one };
  idempotency_key = p.idempotency_key;
}

module _ (parse : String → Option Number) where
  -- `draft.debit(...)`, then `draft.credit(...)`.
  unfoldable pub with_sides :
      JournalEntryDraft → ℕ × ℕ → Decimal → String → Outcome PostingError JournalEntryDraft
  with_sides draft (debit_id, credit_id) amount description =
      line_draft parse debit_id (dec (finite false amount)) zero_argument description no_dimensions
      >>= λ d.
          line_draft parse credit_id zero_argument (dec (finite false amount)) description
            no_dimensions
          >>= λ c. ok (add (add draft d) c)

  -- `build_journal_entry`; `total_cost` is the movement's, which is never negative.
  unfoldable pub build_journal_entry :
      ℕ
      → StockMovement
      → Decimal
      → String
      → Item
      → Printing
      → Books
      → Outcome StockError (Option JournalEntryDraft)
  unfolding entry_sides inventory_journal_code with_sides
  build_journal_entry tenant movement total_cost currency item p books =
      if leb total_cost.coef 0
      then ok none
      else (or_raise item.inventory_account StockError.no_inventory_account >>= λ inventory.
          entry_sides tenant item movement.movement_type (ltb_ℤ (pos 0) movement.quantity_delta)
            inventory books.accounts
          >>= λ sides. elim sides [
            | none ↦ ok none
            | some accounts ↦ inventory_journal_code tenant books.journals >>= λ journal_code.
                posting_result (
                  with_sides (empty_draft movement currency journal_code p) accounts total_cost
                    (clip 500 item.name))
                >>= λ draft. ok (some draft)
          ])
