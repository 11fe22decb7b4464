-- ===== src/Leave/Model.antt =====
-- The tables of leave, backend/apps/hr/models.py, and the errors of services/leave.py. Days are whole
-- millionths of a day (numeric(19,6)); a date is its day number, as `date.toordinal` counts.
use achr.Prelude.{ℕ, ◌==◌, String, Bool, ◌&&◌, Option, List}
use achr.Prelude.Int.{ℤ, pos, ◌+ℤ◌, ◌-ℤ◌}
use achr.Status.{TransitionError}

-- A login: `iam.TenantMembership`.
pub record Membership : Type 0 where
  pub user : ℕ
  pub is_active : Bool

-- The columns that leave reads; `manager` is the employee's manager, by the manager's login, and
-- `working_days` the work schedule's.
pub record Employee : Type 0 where
  pub id : ℕ
  pub status : String
  pub gender : String
  pub hire_date : ℕ
  pub department_id : Option ℕ
  pub manager : Option (Option Membership)
  pub working_days : Option (List ℕ)

pub record Holiday : Type 0 where
  pub date : ℕ
  pub applies_to_department : Option ℕ

pub record LeaveType : Type 0 where
  pub id : ℕ
  pub is_monthly : Bool
  pub is_active : Bool
  pub accrual_rate_days : ℕ
  pub max_balance_days : ℕ
  pub allow_negative_balance : Bool
  pub requires_attachment_after_days : ℕ
  pub gender_restriction : String
  pub min_service_months : ℕ
  pub min_notice_days : ℕ
  pub requires_hr_approval : Bool

-- What `uq_hr_leave_balance_year` makes unique in a tenant.
pub record Entitlement : Type 0 where
  pub employee : ℕ
  pub leave_type : ℕ
  pub year : ℕ

abbrev pub same_entitlement : Entitlement → Entitlement → Bool
same_entitlement a b = a.employee == b.employee && a.leave_type == b.leave_type && a.year == b.year

-- The columns of a natural number are those that `ck_hr_leave_balance_non_negative` is about.
pub record LeaveBalance : Type 0 where
  pub entitlement : Entitlement
  pub opening_days : ℤ
  pub accrued_days : ℕ
  pub taken_days : ℕ
  pub carried_over_days : ℕ
  pub adjusted_days : ℤ
  pub available_days : ℤ
  pub pending_days : ℕ
  pub last_accrued_on : Option ℕ

-- `recomputed_available`
unfoldable pub recomputed_available : LeaveBalance → ℤ
recomputed_available b =
    b.opening_days
    +ℤ pos b.accrued_days
    +ℤ pos b.carried_over_days
    +ℤ b.adjusted_days
    -ℤ pos b.taken_days

pub record LeaveRequest : Type 0 where
  pub id : ℕ
  pub employee : ℕ
  pub leave_type : ℕ
  pub start_date : ℕ
  pub end_date : ℕ
  pub half_day_start : Bool
  pub half_day_end : Bool
  pub total_days : ℕ
  pub status : String
  pub current_approver : Option ℕ
  pub attachment_key : String
  pub submitted_at : Option ℕ
  pub decided_at : Option ℕ
  pub rejection_reason : String
  pub balance_applied : Bool
  pub updated_by : Option ℕ

pub data Decision : Type 0 where
  pending approved rejected skipped : Decision

pub record LeaveApproval : Type 0 where
  pub request : ℕ
  pub step_order : ℕ
  pub approver : Option ℕ
  pub decision : Decision
  pub decided_at : Option ℕ
  pub comment : String

-- The tables that the calls write, of the bound tenant.
pub record Leaves : Type 0 where
  pub balances : List LeaveBalance
  pub requests : List LeaveRequest
  pub approvals : List LeaveApproval

pub record User : Type 0 where
  pub id : ℕ
  pub employee_id : Option ℕ

-- What the calls only read: the calendar and the clock of Python, the rows that a foreign key points
-- to, the holidays, and the permission and the scope of a user (`_assert_may_decide`).
pub record Office : Type 0 where
  pub year_of : ℕ → ℕ
  pub month_of : ℕ → ℕ
  pub month_start : ℕ → ℕ
  pub isoweekday : ℕ → ℕ
  pub today : ℕ
  pub now : ℕ
  pub employee_of : ℕ → Employee
  pub leave_type_of : ℕ → LeaveType
  pub holidays : List Holiday
  pub may_decide : User → LeaveRequest → Bool

pub data LeaveError : Type 0 where
  transition : TransitionError → LeaveError
  ends_before_start restricted short_service not_payable no_working_days short_notice
        needs_attachment overlap insufficient_balance no_balance not_awaiting forbidden own_request
        no_reason already_started constraint :
      LeaveError
