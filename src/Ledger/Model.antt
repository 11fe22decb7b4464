-- ===== src/Ledger/Model.antt =====
-- The tables of the general ledger: backend/apps/accounting/models.py and models_sequence.py.
-- Amounts are in millionths (numeric(19,6)); identifiers are numbers, since they are only compared;
-- a date is its year, month and day, and is ordered by them.
use achr.Prelude.{ℕ, ◌+◌, ◌*◌, String, Bool, true, false, Option, none, some, List, leb}
use achr.Prelude.Int.{ℤ}
use achr.Money.{Decimal}

pub record Date : Type 0 where
  pub year : ℕ
  pub month : ℕ
  pub day : ℕ

-- Dates compare as these numbers do, as long as months and days have two digits.
abbrev pub stamp : Date → ℕ
stamp d = d.year * 10000 + d.month * 100 + d.day

abbrev pub on_or_before : Date → Date → Bool
on_or_before a b = leb (stamp a) (stamp b)

pub data AccountType : Type 0 where
  asset liability equity income expense : AccountType

pub data NormalBalance : Type 0 where
  debit credit : NormalBalance

pub record Account : Type 0 where
  pub id : ℕ
  pub tenant : ℕ
  pub type : AccountType
  -- `none` is the blank override.
  pub normal_balance_override : Option NormalBalance
  pub is_postable : Bool
  pub is_active : Bool
  pub system_key : String
  pub cached_balance : ℤ
  pub cached_balance_as_of : ℕ

-- `NORMAL_BALANCE`
abbrev pub normal_balance_of : AccountType → NormalBalance
normal_balance_of AccountType.asset = NormalBalance.debit
normal_balance_of AccountType.expense = NormalBalance.debit
normal_balance_of AccountType.liability = NormalBalance.credit
normal_balance_of AccountType.equity = NormalBalance.credit
normal_balance_of AccountType.income = NormalBalance.credit

-- `Account.normal_balance`
unfoldable pub normal_balance : Account → NormalBalance
normal_balance a = elim a.normal_balance_override [ none ↦ normal_balance_of a.type | some n ↦ n ]

-- `Account.increases_on_debit`
unfoldable pub increases_on_debit : Account → Bool
unfolding normal_balance
increases_on_debit a = elim (normal_balance a) [
  | NormalBalance.debit ↦ true
  | NormalBalance.credit ↦ false
]

pub data PeriodStatus : Type 0 where
  open_ soft_closed closed : PeriodStatus

pub record FiscalYear : Type 0 where
  pub id : ℕ
  pub is_closed : Bool

pub record FiscalPeriod : Type 0 where
  pub id : ℕ
  pub tenant : ℕ
  pub fiscal_year : ℕ
  pub start_date : Date
  pub end_date : Date
  pub status : PeriodStatus
  pub closed_at : Option ℕ
  pub closed_by : Option ℕ

pub data JournalKind : Type 0 where
  sales purchase cash payroll inventory general : JournalKind

pub record Journal : Type 0 where
  pub tenant : ℕ
  pub code : String
  pub kind : JournalKind
  pub sequence_prefix : String
  pub is_active : Bool

pub data EntryStatus : Type 0 where
  draft posted voided reversed : EntryStatus

pub data EntrySource : Type 0 where
  manual invoice bill payment expense payroll inventory bank opening closing : EntrySource

-- The analytical dimensions that a line carries along.
pub record Dimensions : Type 0 where
  pub partner_type : String
  pub partner_id : Option ℕ
  pub project_id : Option ℕ
  pub department_id : Option ℕ
  pub tax_rate_id : Option ℕ

pub record JournalLine : Type 0 where
  pub line_number : ℕ
  pub account_id : ℕ
  pub description : String
  pub debit : ℕ
  pub credit : ℕ
  pub base_debit : ℕ
  pub base_credit : ℕ
  pub dimensions : Dimensions

-- `f"{prefix}-{year}-{value}"` before it is written out with leading zeros.
pub record DocumentNumber : Type 0 where
  pub prefix : String
  pub year : ℕ
  pub value : ℕ
  pub padding : ℕ

pub record JournalEntry : Type 0 where
  pub id : ℕ
  pub tenant : ℕ
  pub journal : String
  pub period : ℕ
  -- `none` is the blank number of a draft.
  pub number : Option DocumentNumber
  pub entry_date : Date
  pub status : EntryStatus
  pub source : EntrySource
  pub memo : String
  pub currency : String
  pub exchange_rate : Decimal
  pub total_debit : ℕ
  pub total_credit : ℕ
  pub posted_at : Option ℕ
  pub posted_by : Option ℕ
  pub reversal_of : Option ℕ
  pub void_reason : String
  pub source_document_type : String
  pub source_document_id : Option ℕ
  pub idempotency_key : String
  pub lines : List JournalLine

pub record ExchangeRate : Type 0 where
  pub tenant : ℕ
  pub from_currency : String
  pub to_currency : String
  pub rate : Decimal
  pub rate_date : Date

-- `DocumentSequence`: one counter for each tenant, scope and year. The scope `journal:<code>` is
-- held as the journal's code.
pub record DocumentSequence : Type 0 where
  pub tenant : ℕ
  pub scope : String
  pub year : ℕ
  pub prefix : String
  pub next_value : ℕ
  pub padding : ℕ

pub record Tenant : Type 0 where
  pub id : ℕ
  pub base_currency : String

-- The rows that the posting engine reads and writes. Each table is in its default ordering.
pub record Books : Type 0 where
  pub tenants : List Tenant
  pub accounts : List Account
  pub years : List FiscalYear
  pub periods : List FiscalPeriod
  pub journals : List Journal
  pub entries : List JournalEntry
  pub sequences : List DocumentSequence
  pub rates : List ExchangeRate

abbrev pub EntryStatus_eq : EntryStatus → EntryStatus → Bool
EntryStatus_eq EntryStatus.draft EntryStatus.draft = true
EntryStatus_eq EntryStatus.posted EntryStatus.posted = true
EntryStatus_eq EntryStatus.voided EntryStatus.voided = true
EntryStatus_eq EntryStatus.reversed EntryStatus.reversed = true
EntryStatus_eq _ _ = false
