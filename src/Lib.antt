-- ===== src/Lib.antt =====
-- The ledger, the stock and the document workflow of ACHR, a multi-tenant accounting and HR system:
-- models of the services under backend/apps and theorems about them.
--
-- The program posts every financial effect through one engine, `post_entry` of
-- backend/apps/accounting/services/posting.py. Other modules hand it inert drafts; it validates them,
-- finds the fiscal period (models.FiscalPeriod) and the exchange rate (services/fx.py), allocates a
-- number, writes the entry with its lines and moves the cached balances, in one transaction. The
-- database refuses what breaks the rules of migrations/0004_ledger_guards.py. Entries are never edited:
-- they are voided or reversed. Periods are opened and closed by services/periods.py. Stock is changed
-- by `apply_movement` and the reservation calls of backend/apps/inventory/services/stock.py, and its
-- movements are drafts for the ledger. Invoices post through the same engine
-- (backend/apps/sales/services/invoice_workflow.py). Leave moves days between the columns of a balance
-- (backend/apps/hr/services/leave.py). Every document has a status that changes by `transition` of
-- backend/apps/core/models.py.
--
-- The files:
--   Prelude: shared names; tests on numbers, lists as tables, integers, calls that may raise, texts.
--   Money: core/fields.py. Money.Digits is Decimal arithmetic, Money.Coerce is `to_money`,
--   Money.Allocate is `allocate`.
--   Ledger.Model: the tables (accounting/models.py, models_sequence.py) as records and lists.
--   Ledger.Draft: LineDraft, JournalEntryDraft, `validate_draft`. Ledger.Fx: services/fx.py.
--   Ledger.Numbering: `allocate_number` and services/sequences.py. Ledger.Guards: the constraints and
--   triggers. Ledger.Balances: `_apply_to_cached_balances`. Ledger.Posting: `resolve_period` and
--   `post_entry`. Ledger.Corrections: `void_entry`, `reverse_entry`, `assert_ledger_balanced`.
--   Ledger.Reports: `ledger_query` of reporting/generators/base.py. Ledger.Periods: services/periods.py;
--   Ledger.Periods.Closed and Ledger.Periods.Frozen are about the entries of a closed period.
--   Coding: services/coding.py, legacy accounts without a level included. Status: the mixin of
--   core/models.py, by the object that each statement leaves; Status.Documents: the transition maps of
--   the apps' models.py.
--   Stock: inventory/services/stock.py over Stock.Model; Stock.Entries: `build_journal_entry`.
--   Leave: hr/services/leave.py over Leave.Model (hr/models.py); Leave.Workflow is `submit_request` and
--   `approve_step`, Leave.Withdrawal `reject` and `cancel`, Leave.Accrual `accrue_monthly`; Leave.Sound is
--   the invariant, Leave.Booking, Leave.Calls and Leave.Keeping its proof, Leave.Disjoint and
--   Leave.Overlap that live requests share no day, Leave.Decisions, Leave.Repeated and Leave.Retry what
--   calls return and what a second call does.
--   Invoices: sales/services/invoice_workflow.py over Invoices.Model (sales/models.py); Invoices.Issuing
--   has the calls that post; Invoices.Lateness is about the overdue sweep, Invoices.Settling and
--   Invoices.Payments about `apply_payment`, Invoices.Issued and Invoices.Undone about an issue and
--   its voiding, Invoices.BadDebt and Invoices.WrittenOff about a write-off, Invoices.Sums and Invoices.Balance about the issuing entry.
--   Tests: a small company, chart, document and warehouse on which the results are instantiated.
--
-- A service is a function from its arguments and the tables to an outcome: a result with the tables
-- after it, or an error. An error rolls the transaction back, so it carries no tables. Row locks
-- serialise the calls, so a history is a list of calls. A query set is `find`, `filter` or `update` on
-- a list, in the table's default order. Amounts and quantities are whole millionths, as numeric(19,6)
-- holds them; rates and products are Decimals with their own places. Identifiers are numbers.
--
-- The one loop without a structural end is the search for a free number in `allocate_document_number`;
-- its fuel is one more than the count of taken numbers, and each round passes one of them. The days of a
-- leave are counted down from the length of its range. The loop of
-- `allocate` has a round for each minor unit of its residual, which is what it hands out.
--
-- Not modelled: costs and batches of stock, price lists and the drift report; the entry of a movement
-- takes its cost as an argument. The permission check of leave, the stock that an invoice releases, the
-- unique index on invoice numbers (the issue is modelled as if it held) and rows of the tables that a
-- service only reads are arguments or left out as their files say. The unique constraints on accounts,
-- which `Account.save` may meet, are left out too. Django's printing and clock, Python's parser of
-- Decimals and the database's sorting are arguments. The web layer, the other services of the apps and
-- the remaining reports are outside.
pub mod Prelude
pub mod Money
pub mod Ledger
pub mod Status
pub mod Coding
pub mod Stock
pub mod Leave
pub mod Invoices
mod Tests
