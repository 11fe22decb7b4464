-- ===== src/Leave/Decisions.antt =====
-- Which decisions on a request return, and what they leave (backend/apps/hr/services/leave.py).
use achr.Prelude.{
  ◌≤◌, ◌≡◌, refl, sym, ◌∙◌, subst, String, ◌⊎◌, inl, inr, Bool, true, false, ◌&&◌, ◌||◌, not, some,
  arith, eq_iff, str_eq, if◌then◌else◌, Bool-cases, ok,
}
use achr.Prelude.Int.{pos, ◌-ℤ◌, ltb_ℤ, leb_ℤ, -ℤ_parts}
use achr.Status.{assert_can_transition}
use achr.Leave.Model.{LeaveBalance, LeaveRequest, Leaves, User, Office}
use achr.Leave.{entitlement_of, save_balance, save_request, is_waiting, may_become}
use achr.Leave.Tables.{locked_balance-entitlement, request_at}
use achr.Leave.Workflow.{
  approve_step, advance, finalise_approval, apply_days, debited, approved, forwarded, is_own,
  decided, with_hr, step_manager, step_hr,
}
use achr.Leave.Sound.{waiting-unapproved, held, is_covered, IsSound}
use achr.Leave.Effects.{balance_of}
use achr.Leave.Calls.{sound-request}

pub waiting-cases :
    (status : String)
    → is_waiting status ≡ true
    → (status ≡ "submitted") ⊎ (status ≡ "pending_manager") ⊎ (status ≡ "pending_hr")
waiting-cases status h =
    ground (
      arith,
      eq_iff "submitted" status,
      eq_iff "pending_manager" status,
      eq_iff "pending_hr" status,
    )

waiting-approved : (r : LeaveRequest) → is_waiting r.status ≡ true → may_become r "approved" ≡ ok tt
unfolding may_become assert_can_transition
waiting-approved r h = elim (waiting-cases r.status h) [
  | inl e ↦ rw e refl
  | inr (inl e) ↦ rw e refl
  | inr (inr e) ↦ rw e refl
]

managed-forwarded :
    (r : LeaveRequest) → r.status ≡ "pending_manager" → may_become r "pending_hr" ≡ ok tt
unfolding may_become assert_can_transition
managed-forwarded r h = rw h refl

-- The debit of a request that has not been applied and does not overdraw the balance.
abbrev pub affords : Office → LeaveRequest → LeaveBalance → Bool
affords o r b =
    (o.leave_type_of r.leave_type).allow_negative_balance
    || not (ltb_ℤ (b.available_days -ℤ pos r.total_days) (pos 0))

apply_days_returns :
    (o : Office) (r : LeaveRequest) (b : LeaveBalance)
    → r.balance_applied ≡ false
    → affords o r b ≡ true
    → apply_days o r b ≡ ok (debited b r.total_days)
unfolding apply_days
apply_days_returns o r b unapplied enough = rw (apply_days, unapplied) (ground (arith, enough))

-- The tables after the final approval.
abbrev pub finalised : Office → LeaveRequest → Leaves → Leaves
finalised o r s = record s {
  balances = save_balance (debited (balance_of o r s) r.total_days) s.balances;
  requests = save_request r.id (approved o.now) s.requests;
}

pub finalise_approval_returns :
    (o : Office) (r : LeaveRequest) (s : Leaves)
    → is_waiting r.status ≡ true
    → r.balance_applied ≡ false
    → affords o r (balance_of o r s) ≡ true
    → finalise_approval o r s ≡ ok (approved o.now r, finalised o r s)
unfolding finalise_approval
finalise_approval_returns o r s waiting unapplied enough =
    rw
      (
        finalise_approval,
        waiting-approved r waiting,
        apply_days_returns o r (balance_of o r s) unapplied enough,
      )
      refl

-- The status after a step of approval.
abbrev pub next_status : Office → LeaveRequest → String
next_status o r =
    if str_eq "pending_manager" r.status && (o.leave_type_of r.leave_type).requires_hr_approval
    then "pending_hr"
    else "approved"

covers-affords :
    (o : Office) (s : Leaves) (r : LeaveRequest)
    → held r ≤ (balance_of o r s).pending_days
    → is_covered o (balance_of o r s) ≡ true
    → is_waiting r.status ≡ true
    → affords o r (balance_of o r s) ≡ true
covers-affords o s r pending covered waiting =
    let b = balance_of o r s in
    let at = locked_balance-entitlement (entitlement_of o r) s.balances in
    let all : held r ≡ r.total_days = rw waiting refl in
    let covered' =
      subst
        (λ k.
          ((o.leave_type_of k.leave_type).allow_negative_balance
            || leb_ℤ (pos b.pending_days) b.available_days)
          ≡ true)
        at covered in
    ground (arith, -ℤ_parts b.available_days (pos r.total_days), all, pending, covered')

pub approve_step_advances :
    (o : Office) (r : LeaveRequest) (user : User) (comment : String) (s : Leaves)
    → is_waiting r.status ≡ true
    → o.may_decide user r ≡ true
    → is_own r user.employee_id ≡ false
    → approve_step o r user comment s ≡ advance o r user comment s
unfolding approve_step
approve_step_advances o r user comment s waiting permitted other =
    rw (approve_step, waiting, permitted, other) refl

-- No request is stuck: in sound tables, a step of approval of a waiting request, as the table has it,
-- returns for every user who may decide on it and is not its employee. The request is then with HR, if
-- it was with the manager and its type requires that, and approved otherwise.
pub approve_step_returns :
    (o : Office) (s : Leaves) (r : LeaveRequest) (user : User) (comment : String)
    → IsSound o s
    → request_at r.id s.requests ≡ some r
    → is_waiting r.status ≡ true
    → o.may_decide user r ≡ true
    → is_own r user.employee_id ≡ false
    → (q : LeaveRequest × Leaves) × (approve_step o r user comment s ≡ ok q)
      × (q.0.status ≡ next_status o r)
unfolding advance
approve_step_returns o s r user comment sound current waiting permitted other =
    let (fine, pending, taken, exact, covered) = sound-request o s r sound current in
    let unapproved = waiting-unapproved r.status waiting in
    let unapplied : r.balance_applied ≡ false = ground (arith, unapproved, fine) in
    let enough = covers-affords o s r pending covered waiting in
    let opens = approve_step_advances o r user comment s waiting permitted other in
    elim (Bool-cases (str_eq "pending_manager" r.status)) [
      | inr hr ↦
          let t = decided o r user comment step_hr s in
          let e = finalise_approval_returns o r t waiting unapplied enough in
          ((approved o.now r, finalised o r t), opens ∙ rw (advance, hr) e, rw hr refl)
      | inl manager ↦
          let t = decided o r user comment step_manager s in
          let from = managed-forwarded r (sym ((eq_iff "pending_manager" r.status).0 manager)) in
          elim (Bool-cases (o.leave_type_of r.leave_type).requires_hr_approval) [
            | inl twice ↦ (
              (forwarded r, with_hr r t),
              opens ∙ rw (advance, manager, twice, from) refl,
              rw (manager, twice) refl,
            )
            | inr once ↦
                let e = finalise_approval_returns o r t waiting unapplied enough in
                (
                  (approved o.now r, finalised o r t),
                  opens ∙ rw (advance, manager, once) e,
                  rw (manager, once) refl,
                )
          ]
    ]
