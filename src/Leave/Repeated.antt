-- ===== src/Leave/Repeated.antt =====
-- A request decided twice, and a request withdrawn (backend/apps/hr/services/leave.py).
use achr.Prelude.{
  ℕ, ◌+◌, ◌≡◌, refl, sym, ap, ◌∙◌, subst, String, inl, inr, true, false, Option, some, arith,
  str_eq, Bool-cases, ok,
}
use achr.Prelude.Int.{pos, ◌-ℤ◌, ◌≤ℤ◌, -ℤ_parts}
use achr.Status.{assert_can_transition}
use achr.Leave.Model.{
  Entitlement, LeaveBalance, LeaveRequest, Leaves, User, Office, same_entitlement,
}
use achr.Leave.{
  entitlement_of, balance_at, locked_balance, existing_balance, save_balance, save_request,
  is_waiting, may_become,
}
use achr.Leave.Tables.{
  same_entitlement-eq, same_entitlement_refl, locked_balance-entitlement,
  locked_balance-save_balance, find-save_balance,
}
use achr.Leave.Workflow.{
  submit_request, submitted, approve_step, advance, debited, approved, is_own, decided, step_hr,
}
use achr.Leave.Withdrawal.{cancel, cancelled, released}
use achr.Leave.Effects.{balance_of, submit_request-IsSubmitted}
use achr.Leave.Decisions.{
  finalised, finalise_approval_returns, affords, approve_step_advances, waiting-cases,
}
use achr.Leave.Booking.{submitted_waits, saved_rows}

-- The balance of a request after its final approval.
balance_of-finalised :
    (o : Office) (r : LeaveRequest) (s : Leaves)
    → balance_of o r (finalised o r s) ≡ debited (balance_of o r s) r.total_days
balance_of-finalised o r s =
    let k = entitlement_of o r in
    let b = debited (balance_of o r s) r.total_days in
    let mine : same_entitlement b.entitlement k ≡ true =
      subst (λ x. same_entitlement x k ≡ true) (sym (locked_balance-entitlement k s.balances))
        (same_entitlement_refl k) in
    locked_balance-save_balance b k s.balances ∙ rw mine refl

-- An approval by HR of a request that has been read before its days were applied.
hr_returns :
    (o : Office) (r : LeaveRequest) (user : User) (comment : String) (s : Leaves)
    → r.status ≡ "pending_hr"
    → r.balance_applied ≡ false
    → o.may_decide user r ≡ true
    → is_own r user.employee_id ≡ false
    → affords o r (balance_of o r s) ≡ true
    → approve_step o r user comment s
      ≡ ok (approved o.now r, finalised o r (decided o r user comment step_hr s))
unfolding advance
hr_returns o r user comment s at_hr unapplied permitted other enough =
    let waiting : is_waiting r.status ≡ true = rw at_hr refl in
    let hr : str_eq "pending_manager" r.status ≡ false = rw at_hr refl in
    approve_step_advances o r user comment s waiting permitted other
    ∙ rw (advance, hr)
        (finalise_approval_returns o r (decided o r user comment step_hr s) waiting unapplied
          enough)

-- A request that two users have read while it waits for HR and its days are not yet applied is debited
-- twice when both approve it on that row, one after the other: if both may decide on it, neither is its
-- employee, and twice its days are available, then both calls return, and the days taken have grown by
-- twice the days of the request.
pub approve_step_twice :
    (o : Office) (r : LeaveRequest) (user other : User) (comment remark : String) (s : Leaves)
    → r.status ≡ "pending_hr"
    → r.balance_applied ≡ false
    → o.may_decide user r ≡ true
    → is_own r user.employee_id ≡ false
    → o.may_decide other r ≡ true
    → is_own r other.employee_id ≡ false
    → pos (r.total_days + r.total_days) ≤ℤ (balance_of o r s).available_days
    → (p q : LeaveRequest × Leaves) × (approve_step o r user comment s ≡ ok p)
      × (approve_step o r other remark p.1 ≡ ok q)
      × ((balance_of o r q.1).taken_days
          ≡ (balance_of o r s).taken_days + (r.total_days + r.total_days))
approve_step_twice o r user other comment remark s at_hr unapplied may1 not1 may2 not2 enough =
    let b = balance_of o r s in
    let minus = -ℤ_parts b.available_days (pos r.total_days) in
    let minus2 = -ℤ_parts (b.available_days -ℤ pos r.total_days) (pos r.total_days) in
    let first = finalised o r (decided o r user comment step_hr s) in
    let second = finalised o r (decided o r other remark step_hr first) in
    let once = balance_of-finalised o r (decided o r user comment step_hr s) in
    let twice = balance_of-finalised o r (decided o r other remark step_hr first) in
    let rest : affords o r (balance_of o r first) ≡ true =
      subst (λ b. affords o r b ≡ true) (sym once) (ground (arith, minus, minus2, enough)) in
    (
      (approved o.now r, first),
      (approved o.now r, second),
      hr_returns o r user comment s at_hr unapplied may1 not1 (ground (arith, minus, enough)),
      hr_returns o r other remark first at_hr unapplied may2 not2 rest,
      ap (λ b. b.taken_days) twice ∙ ap (λ b. b.taken_days + r.total_days) once ∙ omega arith,
    )

waiting-cancelled :
    (r : LeaveRequest) → is_waiting r.status ≡ true → may_become r "cancelled" ≡ ok tt
unfolding may_become assert_can_transition
waiting-cancelled r h = elim (waiting-cases r.status h) [
  | inl e ↦ rw e refl
  | inr (inl e) ↦ rw e refl
  | inr (inr e) ↦ rw e refl
]

-- The tables after a waiting request has been withdrawn.
abbrev withdrawn : Office → LeaveRequest → Option ℕ → String → LeaveBalance → Leaves → Leaves
withdrawn o r user_id reason b s = record s {
  balances = save_balance (released b r.total_days) s.balances;
  requests = save_request r.id (λ row. cancelled o.now user_id reason r) s.requests;
}

cancel_waiting :
    (o : Office) (r : LeaveRequest) (user_id : Option ℕ) (reason : String) (b : LeaveBalance)
    (s : Leaves)
    → is_waiting r.status ≡ true
    → r.balance_applied ≡ false
    → balance_at (entitlement_of o r) s.balances ≡ some b
    → cancel o r user_id reason s
      ≡ ok (cancelled o.now user_id reason r, withdrawn o r user_id reason b s)
unfolding cancel existing_balance
cancel_waiting o r user_id reason b s waiting unapplied found =
    let may = waiting-cancelled r waiting in
    elim (waiting-cases r.status waiting) [
      | inl e ↦ rw (cancel, may, e, unapplied, existing_balance, found) refl
      | inr (inl e) ↦ rw (cancel, may, e, unapplied, existing_balance, found) refl
      | inr (inr e) ↦ rw (cancel, may, e, unapplied, existing_balance, found) refl
    ]

-- A submission that is withdrawn leaves no trace in the balances: a request, none of whose days are
-- applied, can be cancelled once its submission has returned; the call returns, the request is cancelled,
-- and the balance of every employee, leave type and year is what it was before the submission.
pub cancel-submit_request :
    (o : Office) (r : LeaveRequest) (user_id by : Option ℕ) (reason : String) (s : Leaves)
    (q : LeaveRequest × Leaves) (e : Entitlement)
    → r.balance_applied ≡ false
    → submit_request o r user_id s ≡ ok q
    → (p : LeaveRequest × Leaves) × (cancel o q.0 by reason q.1 ≡ ok p)
      × (p.0.status ≡ "cancelled")
      × (locked_balance e p.1.balances ≡ locked_balance e s.balances)
cancel-submit_request o r user_id by reason s q e unapplied h =
    let (days, (may, checked, enough, row, balances, requests)) =
      submit_request-IsSubmitted o r user_id s q h in
    let k = entitlement_of o r in
    let b = balance_of o r s in
    let b' : LeaveBalance = record b { pending_days = b.pending_days + days } in
    let r' = submitted o r days user_id in
    let at = locked_balance-entitlement k s.balances in
    let mine : same_entitlement b'.entitlement k ≡ true =
      subst (λ x. same_entitlement x k ≡ true) (sym at) (same_entitlement_refl k) in
    let found : balance_at k q.1.balances ≡ some b' =
      rw balances (find-save_balance b' k s.balances ∙ rw mine refl) in
    let (waits, unapproved) = submitted_waits o r days user_id in
    let t = withdrawn o r' by reason b' q.1 in
    let restored : ◌≡◌ {A = LeaveBalance} (released b' days) b =
      ap (λ n. record b { pending_days = n }) (omega arith) in
    let rows : locked_balance e t.balances ≡ locked_balance e s.balances =
      rw (saved_rows (released b' days) k q.1.balances at e)
        (elim (Bool-cases (same_entitlement k e)) [
          | inl here ↦
              rw here
                (restored ∙ ap (λ k. locked_balance k s.balances) (same_entitlement-eq k e here))
          | inr there ↦ rw (there, balances) (saved_rows b' k s.balances at e ∙ rw there refl)
        ]) in
    (
      (cancelled o.now by reason r', t),
      subst (λ x. cancel o x by reason q.1 ≡ ok (cancelled o.now by reason r', t)) (sym row)
          (cancel_waiting o r' by reason b' q.1 waits unapplied found),
      refl,
      rows,
    )
