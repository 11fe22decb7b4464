-- ===== src/Leave.antt =====
-- The leave workflow: backend/apps/hr/services/leave.py over the tables of hr/models.py. A call takes
-- the request as the caller has read it, and writes the columns that its `save` names.
pub mod Model
pub mod Tables
pub mod Workflow
pub mod Withdrawal
pub mod Sound
pub mod Effects
pub mod Booking
pub mod Accruing
pub mod Rounds
pub mod Retry
pub mod Calls
pub mod Keeping
pub mod Disjoint
pub mod Overlap
pub mod Decisions
pub mod Repeated
pub mod Accrual
use achr.Prelude.{
  ℕ, zero, suc, ◌+◌, ◌-◌, ◌*◌, ◌==◌, String, Bool, true, false, not, ◌&&◌, ◌||◌, Option, none, some,
  List, [], ◌∷◌, ◌++◌, find, clip, is_blank, str_eq, ltb, leb, if◌then◌else◌, Outcome, ok, err,
  raise_if, or_raise, ◌>>◌, ◌>>=◌,
}
use achr.Prelude.Int.{ℤ, pos, ◌+ℤ◌, ◌-ℤ◌, ltb_ℤ}
use achr.Money.{unit}
use achr.Status.{TransitionError, contains, assert_can_transition}
use achr.Status.Documents.{leave_request_transitions}
use achr.Leave.Model.{
  Employee, Holiday, LeaveType, Entitlement, LeaveBalance, LeaveRequest, LeaveApproval, Decision,
  Leaves, User, Office, LeaveError, same_entitlement,
}

abbrev member : ℕ → List ℕ → Bool
member n [] = false
member n (x ∷ xs) = x == n || member n xs

-- `working_weekdays`
abbrev working_weekdays : Option (List ℕ) → List ℕ
working_weekdays (some (d ∷ ds)) = d ∷ ds
working_weekdays _ = 1 ∷ 2 ∷ 3 ∷ 4 ∷ 5 ∷ []

abbrev applies : Option ℕ → Option ℕ → Bool
applies none department = true
applies (some d) none = false
applies (some d) (some e) = d == e

-- `current in holidays`
abbrev is_holiday : Option ℕ → List Holiday → ℕ → Bool
is_holiday department [] day = false
is_holiday department (h ∷ hs) day =
    h.date == day && applies h.applies_to_department department || is_holiday department hs day

unfoldable pub is_working_day : Office → Employee → ℕ → Bool
is_working_day o employee day =
    member (o.isoweekday day) (working_weekdays employee.working_days)
    && not (is_holiday employee.department_id o.holidays day)

-- The loop over n days from a day on.
unfoldable pub count_days : Office → Employee → ℕ → ℕ → ℕ
unfolding is_working_day
count_days o employee current zero = 0
count_days o employee current (suc n) =
    (if is_working_day o employee current then unit else 0) + count_days o employee (current + 1) n

-- `HALF`
abbrev half : ℕ
half = 500_000

-- `working_days_between`; the subtractions stop at 0, which is what `max(total, ZERO)` comes to.
unfoldable pub working_days_between : Office → Employee → ℕ → ℕ → Bool → Bool → Outcome LeaveError ℕ
unfolding count_days is_working_day
working_days_between o employee start end half_day_start half_day_end =
    raise_if (ltb end start) LeaveError.ends_before_start
    >> ok (
        count_days o employee start (end + 1 - start)
        - (if half_day_start && is_working_day o employee start then half else 0)
        - (if half_day_end && not (end == start) && is_working_day o employee end then half else 0))

abbrev pub entitlement_of : Office → LeaveRequest → Entitlement
entitlement_of o r = record {
  employee = r.employee;
  leave_type = r.leave_type;
  year = o.year_of r.start_date;
}

abbrev pub balance_at : Entitlement → List LeaveBalance → Option LeaveBalance
balance_at e balances = find (λ b. same_entitlement b.entitlement e) balances

-- `_locked_balance`: the row, or the one that is made for it.
unfoldable pub locked_balance : Entitlement → List LeaveBalance → LeaveBalance
locked_balance e balances = elim (balance_at e balances) [
  | some b ↦ b
  | none ↦ record {
    entitlement = e;
    opening_days = pos 0;
    accrued_days = 0;
    taken_days = 0;
    carried_over_days = 0;
    adjusted_days = pos 0;
    available_days = pos 0;
    pending_days = 0;
    last_accrued_on = none;
  }
]

-- `_locked_balance(..., create=False)`
unfoldable pub existing_balance : Entitlement → List LeaveBalance → Outcome LeaveError LeaveBalance
existing_balance e balances = or_raise (balance_at e balances) LeaveError.no_balance

-- The row as it is after `balance.save(...)`, in the table where the lock has found or made it.
unfoldable pub save_balance : LeaveBalance → List LeaveBalance → List LeaveBalance
save_balance b [] = b ∷ []
save_balance b (x ∷ xs) =
    if same_entitlement x.entitlement b.entitlement then b ∷ xs else x ∷ save_balance b xs

-- `request.save(...)`: what it writes in the row of a primary key.
unfoldable pub save_request :
    ℕ → (LeaveRequest → LeaveRequest) → List LeaveRequest → List LeaveRequest
save_request id f [] = []
save_request id f (x ∷ xs) = if x.id == id then f x ∷ xs else x ∷ save_request id f xs

-- The statuses in which days are held; `BLOCKING_STATUSES` has APPROVED besides.
abbrev pub is_waiting : String → Bool
is_waiting status = contains status ("submitted" ∷ "pending_manager" ∷ "pending_hr" ∷ [])

abbrev pub is_blocking : String → Bool
is_blocking status =
    contains status ("submitted" ∷ "pending_manager" ∷ "pending_hr" ∷ "approved" ∷ [])

-- `_assert_no_overlap`
unfoldable pub overlaps : LeaveRequest → LeaveRequest → Bool
overlaps request other =
    other.employee == request.employee
    && is_blocking other.status
    && leb other.start_date request.end_date
    && leb request.start_date other.end_date
    && not (other.id == request.id)

unfoldable pub assert_no_overlap : LeaveRequest → List LeaveRequest → Outcome LeaveError (Unit {0})
unfolding overlaps
assert_no_overlap request requests = elim (find (overlaps request) requests) [
  | some clash ↦ err LeaveError.overlap
  | none ↦ ok tt
]

-- `months < min_service_months`, where the months worked may be negative.
abbrev pub served_less : Office → ℕ → ℕ → ℕ → Bool
served_less o hired day months =
    ltb (o.year_of day * 12 + o.month_of day) (o.year_of hired * 12 + o.month_of hired + months)

-- `Employee.is_payable`
abbrev pub is_payable : String → Bool
is_payable status = contains status ("active" ∷ "on_leave" ∷ [])

-- `_assert_eligible`
unfoldable pub assert_eligible : Office → Employee → LeaveType → ℕ → Outcome LeaveError (Unit {0})
assert_eligible o employee t start =
    raise_if
      (not (str_eq t.gender_restriction "none")
        && not (str_eq employee.gender t.gender_restriction))
      LeaveError.restricted
    >> (raise_if
          (not (t.min_service_months == 0)
            && served_less o employee.hire_date start t.min_service_months)
          LeaveError.short_service
        >> raise_if (not (is_payable employee.status)) LeaveError.not_payable)

-- `_next_approver`, of the manager's step.
unfoldable pub next_approver : Employee → Option ℕ
next_approver employee = elim employee.manager [
  | some (some m) ↦ if m.is_active then some m.user else none
  | _ ↦ none
]

abbrev checked : Outcome TransitionError (Unit {0}) → Outcome LeaveError (Unit {0})
checked (ok t) = ok t
checked (err e) = err (LeaveError.transition e)

unfoldable pub may_become : LeaveRequest → String → Outcome LeaveError (Unit {0})
unfolding assert_can_transition
may_become r new_status = checked (
    assert_can_transition leave_request_transitions
      (record { status = r.status; updated_by = r.updated_by }) new_status)

-- The guards of `submit_request` before the balance, from the days counted.
unfoldable pub check_submission :
    Office → LeaveRequest → ℕ → List LeaveRequest → Outcome LeaveError (Unit {0})
unfolding assert_no_overlap
check_submission o request total_days requests =
    let t = o.leave_type_of request.leave_type in
    raise_if (total_days == 0) LeaveError.no_working_days
    >> (raise_if
          (not (t.min_notice_days == 0) && ltb request.start_date (o.today + t.min_notice_days))
          LeaveError.short_notice
        >> (raise_if
              (not (t.requires_attachment_after_days == 0)
                && ltb (t.requires_attachment_after_days * unit) total_days
                && str_eq request.attachment_key "")
              LeaveError.needs_attachment
            >> assert_no_overlap request requests))
