-- ===== src/Leave/Workflow.antt =====
-- The calls that move a request: `submit_request` and `approve_step` of
-- backend/apps/hr/services/leave.py.
use achr.Prelude.{
  ℕ, ◌+◌, ◌-◌, ◌==◌, String, Bool, true, false, not, ◌&&◌, Option, none, some, List, [], ◌∷◌, ◌++◌,
  find, clip, str_eq, if◌then◌else◌, Outcome, ok, err, raise_if, ◌>>◌, ◌>>=◌,
}
use achr.Prelude.Int.{pos, ◌-ℤ◌, ltb_ℤ}
use achr.Leave.Model.{
  LeaveBalance, LeaveRequest, LeaveApproval, Decision, Leaves, User, Office, LeaveError,
}
use achr.Leave.{
  working_days_between, entitlement_of, locked_balance, save_balance, save_request, is_waiting,
  assert_eligible, next_approver, may_become, check_submission,
}

-- `STEP_MANAGER` and `STEP_HR`
abbrev pub step_manager : ℕ
step_manager = 1

abbrev pub step_hr : ℕ
step_hr = 2

abbrev is_step : ℕ → ℕ → LeaveApproval → Bool
is_step request step a = a.request == request && a.step_order == step

-- `_record_decision`: `update_or_create` of the row of a step.
unfoldable pub record_decision : LeaveApproval → List LeaveApproval → List LeaveApproval
record_decision a [] = a ∷ []
record_decision a (x ∷ xs) =
    if is_step a.request a.step_order x then a ∷ xs else x ∷ record_decision a xs

-- `get_or_create` of a step.
abbrev get_or_create : LeaveApproval → List LeaveApproval → List LeaveApproval
get_or_create a approvals = elim (find (is_step a.request a.step_order) approvals) [
  | some x ↦ approvals
  | none ↦ approvals ++ (a ∷ [])
]

-- The row that `submit_request` creates, which must be the first of its step.
unfoldable pub open_step :
    ℕ → ℕ → Option ℕ → List LeaveApproval → Outcome LeaveError (List LeaveApproval)
open_step now request approver approvals = elim (find (is_step request step_manager) approvals) [
  | some x ↦ err LeaveError.constraint
  | none ↦ ok (
      approvals
      ++ (record {
        request = request;
        step_order = step_manager;
        approver = approver;
        decision = elim approver [ some a ↦ Decision.pending | none ↦ Decision.skipped ];
        decided_at = elim approver [ some a ↦ none | none ↦ some now ];
        comment = elim approver [ some a ↦ "" | none ↦ "No direct manager assigned." ];
      }
          ∷ []))
]

-- The request as `submit_request` leaves it.
abbrev pub submitted : Office → LeaveRequest → ℕ → Option ℕ → LeaveRequest
submitted o request total_days user_id =
    let approver = next_approver (o.employee_of request.employee) in
    record request {
      total_days = total_days;
      status = elim approver [ some a ↦ "pending_manager" | none ↦ "pending_hr" ];
      current_approver = approver;
      submitted_at = some o.now;
      updated_by = user_id;
    }

-- `submit_request`
unfoldable pub submit_request :
    Office → LeaveRequest → Option ℕ → Leaves → Outcome LeaveError (LeaveRequest × Leaves)
unfolding open_step save_request
submit_request o request user_id s = do
  may_become request "submitted"
  assert_eligible o (o.employee_of request.employee) (o.leave_type_of request.leave_type)
      request.start_date
  total_days ←
      working_days_between o (o.employee_of request.employee) request.start_date request.end_date
        request.half_day_start request.half_day_end
  check_submission o request total_days s.requests
  let balance = locked_balance (entitlement_of o request) s.balances
  raise_if
      (ltb_ℤ (balance.available_days -ℤ pos balance.pending_days) (pos total_days)
        && not (o.leave_type_of request.leave_type).allow_negative_balance)
      LeaveError.insufficient_balance
  approvals ←
      open_step o.now request.id (next_approver (o.employee_of request.employee)) s.approvals
  let request' = submitted o request total_days user_id
  ok (
    request',
    record {
      balances =
          save_balance (record balance { pending_days = balance.pending_days + total_days })
            s.balances;
      requests = save_request request.id (λ row. request') s.requests;
      approvals = approvals;
    },
  )

abbrev pub step_row : ℕ → ℕ → Option ℕ → Decision → Option ℕ → String → LeaveApproval
step_row request step approver decision decided_at comment = record {
  request = request;
  step_order = step;
  approver = approver;
  decision = decision;
  decided_at = decided_at;
  comment = comment;
}

-- The row after the debit of the final step.
abbrev pub debited : LeaveBalance → ℕ → LeaveBalance
debited balance days = record balance {
  pending_days = balance.pending_days - days;
  taken_days = balance.taken_days + days;
  available_days = balance.available_days -ℤ pos days;
}

-- The balance that `_finalise_approval` leaves, which is debited unless it has been before.
unfoldable pub apply_days : Office → LeaveRequest → LeaveBalance → Outcome LeaveError LeaveBalance
apply_days o request balance =
    if request.balance_applied
    then ok balance
    else (raise_if
          (ltb_ℤ (debited balance request.total_days).available_days (pos 0)
            && not (o.leave_type_of request.leave_type).allow_negative_balance)
          LeaveError.insufficient_balance
        >> ok (debited balance request.total_days))

-- What `_finalise_approval` writes of a request.
abbrev pub approved : ℕ → LeaveRequest → LeaveRequest
approved now r = record r {
  status = "approved";
  current_approver = none;
  decided_at = some now;
  balance_applied = true;
}

-- `_finalise_approval`
unfoldable pub finalise_approval :
    Office → LeaveRequest → Leaves → Outcome LeaveError (LeaveRequest × Leaves)
unfolding apply_days
finalise_approval o request s = do
  may_become request "approved"
  balance ← apply_days o request (locked_balance (entitlement_of o request) s.balances)
  ok (
    approved o.now request,
    record s {
      balances = save_balance balance s.balances;
      requests = save_request request.id (approved o.now) s.requests;
    },
  )

-- What the manager's step writes of a request that goes on to HR.
abbrev pub forwarded : LeaveRequest → LeaveRequest
forwarded r = record r { status = "pending_hr"; current_approver = none }

abbrev pub is_own : LeaveRequest → Option ℕ → Bool
is_own request none = false
is_own request (some e) = request.employee == e

-- The tables with the approval of a step recorded.
abbrev pub decided : Office → LeaveRequest → User → String → ℕ → Leaves → Leaves
decided o request user comment step s = record s {
  approvals =
      record_decision
        (step_row request.id step (some user.id) Decision.approved (some o.now) (clip 500 comment))
        s.approvals;
}

-- The tables once the manager has sent the request on to HR.
abbrev pub with_hr : LeaveRequest → Leaves → Leaves
with_hr request s = record s {
  requests = save_request request.id forwarded s.requests;
  approvals = get_or_create (step_row request.id step_hr none Decision.pending none "") s.approvals;
}

-- The approval once the user may decide.
unfoldable pub advance :
    Office → LeaveRequest → User → String → Leaves → Outcome LeaveError (LeaveRequest × Leaves)
unfolding finalise_approval
advance o request user comment s =
    if str_eq "pending_manager" request.status
    then (if (o.leave_type_of request.leave_type).requires_hr_approval
        then (may_become request "pending_hr"
            >> ok (
              forwarded request,
              with_hr request (decided o request user comment step_manager s),
            ))
        else finalise_approval o request (decided o request user comment step_manager s))
    else finalise_approval o request (decided o request user comment step_hr s)

-- `approve_step`
unfoldable pub approve_step :
    Office → LeaveRequest → User → String → Leaves → Outcome LeaveError (LeaveRequest × Leaves)
unfolding advance
approve_step o request user comment s =
    raise_if (not (is_waiting request.status)) LeaveError.not_awaiting
    >> (raise_if (not (o.may_decide user request)) LeaveError.forbidden
        >> (raise_if (is_own request user.employee_id) LeaveError.own_request
            >> advance o request user comment s))
