-- ===== src/Tests/Absences.antt =====
-- Leave at concrete inputs (backend/apps/hr/services/leave.py).
use achr.Prelude.{◌+◌, ◌%◌, ◌≡◌, refl, true, false, none, some, [], ◌∷◌, arith, ok}
use achr.Prelude.Int.{pos, ◌+ℤ◌, ◌-ℤ◌, ◌≤ℤ◌}
use achr.Status.{assert_can_transition}
use achr.Leave.Model.{
  Employee, LeaveType, Entitlement, LeaveRequest, Leaves, User, Office, recomputed_available,
}
use achr.Leave.{
  locked_balance, existing_balance, save_balance, save_request, may_become, working_days_between,
  count_days, is_working_day, check_submission, is_waiting, assert_no_overlap, overlaps,
  assert_eligible, next_approver,
}
use achr.Leave.Tables.{request_at}
use achr.Leave.Workflow.{
  submit_request, open_step, approve_step, advance, finalise_approval, apply_days, record_decision,
  is_own,
}
use achr.Leave.Withdrawal.{cancel, return_days}
use achr.Leave.Accrual.{accrue_monthly, accrue_all, accrue_types, accrue, granted}
use achr.Leave.Sound.{IsSound}
use achr.Leave.Effects.{balance_of}
use achr.Leave.Keeping.{step, done, drafts, submits, approves, accrues, Steps-IsSound}
use achr.Leave.Disjoint.{are_disjoint}
use achr.Leave.Overlap.{Steps-are_disjoint}
use achr.Leave.Decisions.{next_status, approve_step_returns}
use achr.Leave.Repeated.{approve_step_twice, cancel-submit_request}
use achr.Leave.Retry.{accrue_monthly_retry}
use achr.Tests.Company.{value_or}

abbrev worker : Employee
worker = record {
  id = 4;
  status = "active";
  gender = "female";
  hire_date = 10;
  department_id = none;
  manager = none;
  working_days = none;
}

-- Two days a month, never overdrawn.
abbrev annual : LeaveType
annual = record {
  id = 2;
  is_monthly = true;
  is_active = true;
  accrual_rate_days = 2000000;
  max_balance_days = 0;
  allow_negative_balance = false;
  requires_attachment_after_days = 0;
  gender_restriction = "none";
  min_service_months = 0;
  min_notice_days = 0;
  requires_hr_approval = true;
}

abbrev office : Office
office = record {
  year_of = λ d. 2024;
  month_of = λ d. 5;
  month_start = λ d. 100;
  isoweekday = λ d. d % 7 + 1;
  today = 103;
  now = 50;
  employee_of = λ e. worker;
  leave_type_of = λ t. annual;
  holidays = [];
  may_decide = λ user r. true;
}

abbrev empty : Leaves
empty = record { balances = []; requests = []; approvals = [] }

-- One day off.
abbrev wish : LeaveRequest
wish = record {
  id = 9;
  employee = 4;
  leave_type = 2;
  start_date = 112;
  end_date = 112;
  half_day_start = false;
  half_day_end = false;
  total_days = 0;
  status = "draft";
  current_approver = none;
  attachment_key = "";
  submitted_at = none;
  decided_at = none;
  rejection_reason = "";
  balance_applied = false;
  updated_by = none;
}

abbrev officer : User
officer = record { id = 1; employee_id = none }

abbrev second_officer : User
second_officer = record { id = 2; employee_id = some 8 }

abbrev granted_days : Leaves
granted_days = record empty {
  balances = (accrue_monthly office 103 (annual ∷ []) (worker ∷ []) []).0;
}

abbrev drafted : Leaves
drafted = record granted_days { requests = wish ∷ [] }

abbrev sent_in : LeaveRequest × Leaves
sent_in = value_or (wish, drafted) (submit_request office wish (some 3) drafted)

abbrev decided_on : LeaveRequest × Leaves
decided_on = value_or (wish, drafted) (approve_step office sent_in.0 officer "" sent_in.1)

request_submitted : submit_request office wish (some 3) drafted ≡ ok sent_in
unfolding accrue_monthly accrue_all accrue_types accrue granted locked_balance save_balance
    save_request submit_request may_become assert_can_transition assert_eligible
    working_days_between count_days is_working_day check_submission assert_no_overlap overlaps
    next_approver open_step approve_step advance finalise_approval apply_days record_decision cancel
    return_days existing_balance ◌+ℤ◌ ◌-ℤ◌ recomputed_available
request_submitted = refl

request_found : request_at sent_in.0.id sent_in.1.requests ≡ some sent_in.0
unfolding accrue_monthly accrue_all accrue_types accrue granted locked_balance save_balance
    save_request submit_request may_become assert_can_transition assert_eligible
    working_days_between count_days is_working_day check_submission assert_no_overlap overlaps
    next_approver open_step approve_step advance finalise_approval apply_days record_decision cancel
    return_days existing_balance ◌+ℤ◌ ◌-ℤ◌ recomputed_available
request_found = refl

request_approved : approve_step office sent_in.0 officer "" sent_in.1 ≡ ok decided_on
unfolding accrue_monthly accrue_all accrue_types accrue granted locked_balance save_balance
    save_request submit_request may_become assert_can_transition assert_eligible
    working_days_between count_days is_working_day check_submission assert_no_overlap overlaps
    next_approver open_step approve_step advance finalise_approval apply_days record_decision cancel
    return_days existing_balance ◌+ℤ◌ ◌-ℤ◌ recomputed_available
request_approved = refl

one_day_taken : (balance_of office wish decided_on.1).available_days ≡ pos 1000000
unfolding accrue_monthly accrue_all accrue_types accrue granted locked_balance save_balance
    save_request submit_request may_become assert_can_transition assert_eligible
    working_days_between count_days is_working_day check_submission assert_no_overlap overlaps
    next_approver open_step approve_step advance finalise_approval apply_days record_decision cancel
    return_days existing_balance ◌+ℤ◌ ◌-ℤ◌ recomputed_available
one_day_taken = refl

empty-IsSound : IsSound office empty
unfolding IsSound locked_balance recomputed_available ◌+ℤ◌ ◌-ℤ◌
empty-IsSound = (tt, λ e. (refl, refl, refl, refl))

Steps-IsSound_example : IsSound office decided_on.1
Steps-IsSound_example =
    Steps-IsSound
      (step (accrues 103 (annual ∷ []) (worker ∷ [])) (
        step (drafts wish refl refl) (
          step (submits wish (some 3) sent_in refl request_submitted)
            (step (approves sent_in.0 officer "" decided_on request_found request_approved) done))))
      empty-IsSound

submitted-IsSound : IsSound office sent_in.1
submitted-IsSound =
    Steps-IsSound
      (step (accrues 103 (annual ∷ []) (worker ∷ [])) (
        step (drafts wish refl refl)
          (step (submits wish (some 3) sent_in refl request_submitted) done)))
      empty-IsSound

waiting : is_waiting sent_in.0.status ≡ true
unfolding accrue_monthly accrue_all accrue_types accrue granted locked_balance save_balance
    save_request submit_request may_become assert_can_transition assert_eligible
    working_days_between count_days is_working_day check_submission assert_no_overlap overlaps
    next_approver open_step approve_step advance finalise_approval apply_days record_decision cancel
    return_days existing_balance ◌+ℤ◌ ◌-ℤ◌ recomputed_available
waiting = refl

at_hr : sent_in.0.status ≡ "pending_hr"
unfolding accrue_monthly accrue_all accrue_types accrue granted locked_balance save_balance
    save_request submit_request may_become assert_can_transition assert_eligible
    working_days_between count_days is_working_day check_submission assert_no_overlap overlaps
    next_approver open_step approve_step advance finalise_approval apply_days record_decision cancel
    return_days existing_balance ◌+ℤ◌ ◌-ℤ◌ recomputed_available
at_hr = refl

unapplied : sent_in.0.balance_applied ≡ false
unfolding accrue_monthly accrue_all accrue_types accrue granted locked_balance save_balance
    save_request submit_request may_become assert_can_transition assert_eligible
    working_days_between count_days is_working_day check_submission assert_no_overlap overlaps
    next_approver open_step approve_step advance finalise_approval apply_days record_decision cancel
    return_days existing_balance ◌+ℤ◌ ◌-ℤ◌ recomputed_available
unapplied = refl

others : (is_own sent_in.0 none ≡ false) × (is_own sent_in.0 (some 8) ≡ false)
unfolding accrue_monthly accrue_all accrue_types accrue granted locked_balance save_balance
    save_request submit_request may_become assert_can_transition assert_eligible
    working_days_between count_days is_working_day check_submission assert_no_overlap overlaps
    next_approver open_step approve_step advance finalise_approval apply_days record_decision cancel
    return_days existing_balance ◌+ℤ◌ ◌-ℤ◌ recomputed_available
others = (refl, refl)

two_days :
    pos (sent_in.0.total_days + sent_in.0.total_days)
    ≤ℤ (balance_of office sent_in.0 sent_in.1).available_days
unfolding accrue_monthly accrue_all accrue_types accrue granted locked_balance save_balance
    save_request submit_request may_become assert_can_transition assert_eligible
    working_days_between count_days is_working_day check_submission assert_no_overlap overlaps
    next_approver open_step approve_step advance finalise_approval apply_days record_decision cancel
    return_days existing_balance ◌+ℤ◌ ◌-ℤ◌ recomputed_available
two_days = omega arith

approve_step_returns_example :
    (q : LeaveRequest × Leaves) × (approve_step office sent_in.0 officer "" sent_in.1 ≡ ok q)
    × (q.0.status ≡ next_status office sent_in.0)
approve_step_returns_example =
    approve_step_returns office sent_in.1 sent_in.0 officer "" submitted-IsSound request_found
      waiting refl others.0

approve_step_twice_example :
    (p q : LeaveRequest × Leaves) × (approve_step office sent_in.0 officer "" sent_in.1 ≡ ok p)
    × (approve_step office sent_in.0 second_officer "" p.1 ≡ ok q)
    × ((balance_of office sent_in.0 q.1).taken_days
        ≡ (balance_of office sent_in.0 sent_in.1).taken_days
          + (sent_in.0.total_days + sent_in.0.total_days))
approve_step_twice_example =
    approve_step_twice office sent_in.0 officer second_officer "" "" sent_in.1 at_hr unapplied refl
      others.0 refl others.1 two_days

abbrev yearly : Entitlement
yearly = record { employee = 4; leave_type = 2; year = 2024 }

cancel-submit_request_example :
    (p : LeaveRequest × Leaves) × (cancel office sent_in.0 (some 3) "" sent_in.1 ≡ ok p)
    × (p.0.status ≡ "cancelled")
    × (locked_balance yearly p.1.balances ≡ locked_balance yearly drafted.balances)
cancel-submit_request_example =
    cancel-submit_request office wish (some 3) (some 3) "" drafted sent_in yearly refl
      request_submitted

accrue_monthly_retry_example :
    accrue_monthly office 103 (annual ∷ []) (worker ∷ []) granted_days.balances
    ≡ (granted_days.balances, 0)
accrue_monthly_retry_example =
    accrue_monthly_retry office 103 (annual ∷ []) (worker ∷ []) [] (omega arith)

Steps-are_disjoint_example : are_disjoint decided_on.1.requests ≡ true
Steps-are_disjoint_example =
    Steps-are_disjoint {s = empty}
      (step (accrues 103 (annual ∷ []) (worker ∷ [])) (
        step (drafts wish refl refl) (
          step (submits wish (some 3) sent_in refl request_submitted)
            (step (approves sent_in.0 officer "" decided_on request_found request_approved) done))))
      refl
