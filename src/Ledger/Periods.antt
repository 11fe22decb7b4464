-- ===== src/Ledger/Periods.antt =====
-- backend/apps/accounting/services/periods.py: open, soft-close, close and reopen a fiscal period.
pub mod Machine
pub mod Closed
pub mod Frozen
use achr.Prelude.{
  ℕ, String, Bool, true, false, not, ◌&&◌, ◌||◌, Option, none, some, List, [], ◌∷◌, Outcome, ok,
  err, ◌>>=◌, ◌>>◌, raise_if, or_raise, find, update, ◌==◌, if◌then◌else◌,
}
use achr.Ledger.Model.{
  PeriodStatus, FiscalPeriod, FiscalYear, EntryStatus, EntryStatus_eq, JournalEntry, Books,
}

-- DomainError, IllegalTransitionError and the two PeriodClosedErrors; `dangling` is a foreign key
-- that leads nowhere, which the database rules out.
pub data PeriodError : Type 0 where
  disappeared illegal_transition has_drafts year_closed dangling : PeriodError

abbrev pub PeriodStatus_eq : PeriodStatus → PeriodStatus → Bool
PeriodStatus_eq PeriodStatus.open_ PeriodStatus.open_ = true
PeriodStatus_eq PeriodStatus.soft_closed PeriodStatus.soft_closed = true
PeriodStatus_eq PeriodStatus.closed PeriodStatus.closed = true
PeriodStatus_eq _ _ = false

-- `ALLOWED_TRANSITIONS`
unfoldable pub period_may_become : PeriodStatus → PeriodStatus → Bool
period_may_become PeriodStatus.open_ PeriodStatus.soft_closed = true
period_may_become PeriodStatus.open_ PeriodStatus.closed = true
period_may_become PeriodStatus.soft_closed PeriodStatus.closed = true
period_may_become PeriodStatus.soft_closed PeriodStatus.open_ = true
period_may_become PeriodStatus.closed PeriodStatus.open_ = true
period_may_become _ _ = false

abbrev pub is_period : ℕ → ℕ → FiscalPeriod → Bool
is_period id tenant p = p.id == id && p.tenant == tenant

-- The drafts of a period, whose `.count()` is tested.
abbrev pub is_draft_of : FiscalPeriod → JournalEntry → Bool
is_draft_of p e =
    e.tenant == p.tenant && e.period == p.id && EntryStatus_eq e.status EntryStatus.draft

abbrev pub exists {ℓ} : {A : Type ℓ} → (A → Bool) → List A → Bool
exists p [] = false
exists p (x ∷ xs) = p x || exists p xs

unfoldable pub check_year :
    PeriodStatus → FiscalPeriod → List FiscalYear → Outcome PeriodError (Unit {0})
check_year PeriodStatus.open_ p years =
    if PeriodStatus_eq p.status PeriodStatus.closed
    then (do
      y ← or_raise (find (λ y. y.id == p.fiscal_year) years) dangling
      raise_if y.is_closed year_closed)
    else ok tt
check_year PeriodStatus.soft_closed p years = ok tt
check_year PeriodStatus.closed p years = ok tt

-- The columns that the UPDATE writes.
unfoldable pub moved : PeriodStatus → ℕ → Option ℕ → FiscalPeriod → FiscalPeriod
moved PeriodStatus.closed now user p = record p {
  status = PeriodStatus.closed;
  closed_at = some now;
  closed_by = user;
}
moved PeriodStatus.open_ now user p = record p {
  status = PeriodStatus.open_;
  closed_at = none;
  closed_by = none;
}
moved PeriodStatus.soft_closed now user p = record p { status = PeriodStatus.soft_closed }

unfoldable pub transition_period :
    ℕ → ℕ → PeriodStatus → Option ℕ → ℕ → Books → Outcome PeriodError (FiscalPeriod × Books)
unfolding period_may_become check_year moved
transition_period id tenant target user now books = do
  locked ← or_raise (find (is_period id tenant) books.periods) disappeared
  elim (PeriodStatus_eq locked.status target) [
    | true ↦ ok (locked, books)
    | false ↦ do
      raise_if (not (period_may_become locked.status target)) illegal_transition
      raise_if
          (PeriodStatus_eq target PeriodStatus.closed && exists (is_draft_of locked) books.entries)
          has_drafts
      check_year target locked books.years
      ok (
        moved target now user locked,
        record books { periods = update (λ p. p.id == id) (moved target now user) books.periods },
      )
  ]
