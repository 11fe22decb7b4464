-- ===== src/Leave/Withdrawal.antt =====
-- The calls that end a request: `reject` and `cancel` of backend/apps/hr/services/leave.py.
use achr.Prelude.{
  ℕ, ◌-◌, String, false, not, ◌&&◌, ◌||◌, Option, none, some, List, clip, is_blank, str_eq, leb,
  if◌then◌else◌, Outcome, ok, raise_if, ◌>>◌, ◌>>=◌,
}
use achr.Prelude.Int.{pos, ◌+ℤ◌}
use achr.Leave.Model.{LeaveBalance, LeaveRequest, Decision, Leaves, User, Office, LeaveError}
use achr.Leave.{
  entitlement_of, existing_balance, save_balance, save_request, is_blocking, may_become,
}
use achr.Leave.Workflow.{step_manager, step_hr, record_decision, step_row}

-- What `reject` writes of a request.
abbrev pub rejected : ℕ → String → LeaveRequest → LeaveRequest
rejected now reason r = record r {
  status = "rejected";
  rejection_reason = clip 500 reason;
  current_approver = none;
  decided_at = some now;
}

abbrev pub released : LeaveBalance → ℕ → LeaveBalance
released balance days = record balance { pending_days = balance.pending_days - days }

-- `reject`
unfoldable pub reject :
    Office → LeaveRequest → User → String → Leaves → Outcome LeaveError (LeaveRequest × Leaves)
unfolding record_decision save_request
reject o request user reason s = do
  may_become request "rejected"
  raise_if (is_blank reason) LeaveError.no_reason
  raise_if (not (o.may_decide user request)) LeaveError.forbidden
  balance ← existing_balance (entitlement_of o request) s.balances
  let step = if str_eq "pending_hr" request.status then step_hr else step_manager
  ok (
    rejected o.now reason request,
    record {
      balances =
          if request.balance_applied
          then s.balances
          else save_balance (released balance request.total_days) s.balances;
      requests = save_request request.id (rejected o.now reason) s.requests;
      approvals =
          record_decision
            (step_row request.id step (some user.id) Decision.rejected (some o.now)
              (clip 500 reason))
            s.approvals;
    },
  )

-- The request as `cancel` leaves it.
abbrev pub cancelled : ℕ → Option ℕ → String → LeaveRequest → LeaveRequest
cancelled now user_id reason r = record r {
  status = "cancelled";
  current_approver = none;
  decided_at = some now;
  updated_by = user_id;
  rejection_reason = if str_eq reason "" then r.rejection_reason else clip 500 reason;
  balance_applied = false;
}

-- The row after the days of a request have been given back.
abbrev pub given_back : LeaveRequest → LeaveBalance → LeaveBalance
given_back r balance =
    if r.balance_applied
    then record balance {
      taken_days = balance.taken_days - r.total_days;
      available_days = balance.available_days +ℤ pos r.total_days;
    }
    else released balance r.total_days

-- The table of balances after `cancel`.
unfoldable pub return_days :
    Office → LeaveRequest → List LeaveBalance → Outcome LeaveError (List LeaveBalance)
return_days o request balances =
    if request.balance_applied || is_blocking request.status
    then (existing_balance (entitlement_of o request) balances >>= λ balance.
        ok (save_balance (given_back request balance) balances))
    else ok balances

-- `cancel`
unfoldable pub cancel :
    Office → LeaveRequest → Option ℕ → String → Leaves → Outcome LeaveError (LeaveRequest × Leaves)
unfolding return_days save_request
cancel o request user_id reason s = do
  may_become request "cancelled"
  raise_if (str_eq "approved" request.status && leb request.start_date o.today)
      LeaveError.already_started
  balances ← return_days o request s.balances
  let request' = cancelled o.now user_id reason request
  ok (
    request',
    record s {
      balances = balances;
      requests = save_request request.id (λ row. request') s.requests;
    },
  )
