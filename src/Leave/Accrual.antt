-- ===== src/Leave/Accrual.antt =====
-- `accrue_monthly` of backend/apps/hr/services/leave.py, in the tenant that the context is bound to.
use achr.Prelude.{
  ℕ, ◌+◌, ◌==◌, Bool, false, not, ◌&&◌, Option, none, some, List, [], ◌∷◌, filter, leb,
  if◌then◌else◌,
}
use achr.Prelude.Int.{pos, pos_part, ◌+ℤ◌, ◌-ℤ◌, ltb_ℤ}
use achr.Leave.Model.{Employee, LeaveType, Entitlement, LeaveBalance, Office}
use achr.Leave.{locked_balance, save_balance, served_less, is_payable}

-- The rate that a month grants: the excess over a cap is forfeited.
unfoldable pub granted : LeaveType → LeaveBalance → ℕ
granted t balance =
    if not (t.max_balance_days == 0)
      && ltb_ℤ (pos t.max_balance_days) (balance.available_days +ℤ pos t.accrual_rate_days)
    then pos_part (pos t.max_balance_days -ℤ balance.available_days)
    else t.accrual_rate_days

abbrev pub accrued_since : Option ℕ → ℕ → Bool
accrued_since none day = false
accrued_since (some d) day = leb day d

-- The row after the accrual.
abbrev pub accrued : LeaveBalance → ℕ → ℕ → LeaveBalance
accrued balance rate as_of = record balance {
  accrued_days = balance.accrued_days + rate;
  available_days = balance.available_days +ℤ pos rate;
  last_accrued_on = some as_of;
}

-- The body of the inner loop: the table after it, and the number of rows updated before.
unfoldable pub accrue :
    Office → ℕ → Employee → LeaveType → List LeaveBalance × ℕ → List LeaveBalance × ℕ
unfolding granted
accrue o as_of employee t (balances, updated) =
    let e : Entitlement = record {
      employee = employee.id;
      leave_type = t.id;
      year = o.year_of as_of;
    } in
    let balance = locked_balance e balances in
    let rate = granted t balance in
    if not (t.min_service_months == 0)
      && served_less o employee.hire_date as_of t.min_service_months
    then (balances, updated)
    else if accrued_since balance.last_accrued_on (o.month_start as_of)
    then (save_balance balance balances, updated)
    else if rate == 0
    then (save_balance (record balance { last_accrued_on = some as_of }) balances, updated)
    else (save_balance (accrued balance rate as_of) balances, updated + 1)

-- `for leave_type in leave_types`
unfoldable pub accrue_types :
    Office → ℕ → Employee → List LeaveType → List LeaveBalance × ℕ → List LeaveBalance × ℕ
unfolding accrue
accrue_types o as_of employee [] acc = acc
accrue_types o as_of employee (t ∷ ts) acc =
    accrue_types o as_of employee ts (accrue o as_of employee t acc)

-- `for employee in employees`
unfoldable pub accrue_all :
    Office → ℕ → List LeaveType → List Employee → List LeaveBalance × ℕ → List LeaveBalance × ℕ
unfolding accrue_types
accrue_all o as_of ts [] acc = acc
accrue_all o as_of ts (e ∷ es) acc = accrue_all o as_of ts es (accrue_types o as_of e ts acc)

abbrev pub monthly_types : List LeaveType → List LeaveType
monthly_types ts = filter (λ t. t.is_active && t.is_monthly) ts

abbrev pub eligible : ℕ → List Employee → List Employee
eligible as_of es = filter (λ e. is_payable e.status && leb e.hire_date as_of) es

-- `accrue_monthly`, over the tables of leave types and employees.
unfoldable pub accrue_monthly :
    Office → ℕ → List LeaveType → List Employee → List LeaveBalance → List LeaveBalance × ℕ
unfolding accrue_all
accrue_monthly o as_of ts es balances =
    accrue_all o as_of (monthly_types ts) (eligible as_of es) (balances, 0)
