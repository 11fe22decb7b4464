-- ===== src/Leave/Effects.antt =====
-- What the calls on a request that succeed have passed and written
-- (backend/apps/hr/services/leave.py).
use achr.Prelude.{
  ℕ, ◌+◌, ◌≡◌, refl, sym, ap, ◌∙◌, subst, String, ◌⊎◌, inl, inr, Bool, true, false, ◌&&◌, ◌||◌, not,
  Option, List, str_eq, if◌then◌else◌, Bool-cases, ok, raise_if-eq-ok, >>=-eq-ok, ok-injective, leb,
  arith, raise_if, ◌>>◌, is_blank,
}
use achr.Prelude.Int.{pos, ◌-ℤ◌, ltb_ℤ}
use achr.Leave.Model.{LeaveBalance, LeaveRequest, Leaves, User, Office, LeaveError}
use achr.Leave.{
  entitlement_of, locked_balance, existing_balance, save_balance, save_request, is_waiting,
  is_blocking, may_become, working_days_between, assert_eligible, check_submission, next_approver,
}
use achr.Leave.Tables.{existing_balance-locked}
use achr.Leave.Workflow.{
  submit_request, submitted, approve_step, advance, finalise_approval, apply_days, debited,
  approved, forwarded, open_step, is_own,
}
use achr.Leave.Withdrawal.{reject, rejected, released, cancel, cancelled, given_back, return_days}

-- The balance of a request.
abbrev pub balance_of : Office → LeaveRequest → Leaves → LeaveBalance
balance_of o r s = locked_balance (entitlement_of o r) s.balances

abbrev pub too_many : Office → LeaveRequest → ℕ → LeaveBalance → Bool
too_many o r days b =
    ltb_ℤ (b.available_days -ℤ pos b.pending_days) (pos days)
    && not (o.leave_type_of r.leave_type).allow_negative_balance

abbrev pub IsSubmitted :
    Office → LeaveRequest → Option ℕ → Leaves → LeaveRequest × Leaves → ℕ → Type 0
IsSubmitted o r user_id s q days =
    (may_become r "submitted" ≡ ok tt)
    × (check_submission o r days s.requests ≡ ok tt)
    × (too_many o r days (balance_of o r s) ≡ false)
    × (q.0 ≡ submitted o r days user_id)
    × (q.1.balances
        ≡ save_balance
            (record (balance_of o r s) { pending_days = (balance_of o r s).pending_days + days })
            s.balances)
    × (q.1.requests ≡ save_request r.id (λ row. q.0) s.requests)

pub submit_request-IsSubmitted :
    (o : Office) (r : LeaveRequest) (user_id : Option ℕ) (s : Leaves) (q : LeaveRequest × Leaves)
    → submit_request o r user_id s ≡ ok q
    → (days : ℕ) × IsSubmitted o r user_id s q days
unfolding submit_request
submit_request-IsSubmitted o r user_id s q h =
    let (u0, may, h1) = >>=-eq-ok (may_become r "submitted") _ h in
    let (u1, eligible, h2) =
      >>=-eq-ok
        (assert_eligible o (o.employee_of r.employee) (o.leave_type_of r.leave_type) r.start_date) _
        h1 in
    let (days, counted, h3) =
      >>=-eq-ok
        (working_days_between o (o.employee_of r.employee) r.start_date r.end_date r.half_day_start
          r.half_day_end)
        _ h2 in
    let (u2, checked, h4) = >>=-eq-ok (check_submission o r days s.requests) _ h3 in
    let (enough, h5) =
      raise_if-eq-ok (too_many o r days (balance_of o r s)) LeaveError.insufficient_balance _ h4 in
    let (approvals, opened, h6) =
      >>=-eq-ok (open_step o.now r.id (next_approver (o.employee_of r.employee)) s.approvals) _
        h5 in
    (
      days,
      subst (λ q. IsSubmitted o r user_id s q days) (ok-injective h6)
          (may, checked, enough, refl, refl, refl),
    )

abbrev pub IsFinalised :
    Office → LeaveRequest → Leaves → LeaveRequest × Leaves → LeaveBalance → Type 0
IsFinalised o r s q b =
    (may_become r "approved" ≡ ok tt)
    × (apply_days o r (balance_of o r s) ≡ ok b)
    × (q.0 ≡ approved o.now r)
    × (q.1.balances ≡ save_balance b s.balances)
    × (q.1.requests ≡ save_request r.id (approved o.now) s.requests)

pub finalise_approval-IsFinalised :
    (o : Office) (r : LeaveRequest) (s : Leaves) (q : LeaveRequest × Leaves)
    → finalise_approval o r s ≡ ok q
    → (b : LeaveBalance) × IsFinalised o r s q b
unfolding finalise_approval
finalise_approval-IsFinalised o r s q h =
    let (u0, may, h1) = >>=-eq-ok (may_become r "approved") _ h in
    let (b, applied, h2) = >>=-eq-ok (apply_days o r (balance_of o r s)) _ h1 in
    (b, subst (λ q. IsFinalised o r s q b) (ok-injective h2) (may, applied, refl, refl, refl))

-- The days are debited once; the balance does not go below zero, unless the type allows it.
pub apply_days-debited :
    (o : Office) (r : LeaveRequest) (b b' : LeaveBalance)
    → r.balance_applied ≡ false
    → apply_days o r b ≡ ok b'
    → b' ≡ debited b r.total_days
unfolding apply_days
apply_days-debited o r b b' unapplied h =
    let h1 : (raise_if
            (ltb_ℤ (debited b r.total_days).available_days (pos 0)
              && not (o.leave_type_of r.leave_type).allow_negative_balance)
            LeaveError.insufficient_balance
          >> ok (debited b r.total_days))
        ≡ ok b' =
      rw unapplied at h in
    sym (ok-injective (raise_if-eq-ok _ LeaveError.insufficient_balance _ h1).1)

abbrev pub IsForwarded : LeaveRequest → Leaves → LeaveRequest × Leaves → Type 0
IsForwarded r s q =
    (q.0 ≡ forwarded r)
    × (q.1.balances ≡ s.balances)
    × (q.1.requests ≡ save_request r.id forwarded s.requests)

pub approve_step-cases :
    (o : Office) (r : LeaveRequest) (user : User) (comment : String) (s : Leaves)
    (q : LeaveRequest × Leaves)
    → approve_step o r user comment s ≡ ok q
    → (is_waiting r.status ≡ true)
      × (IsForwarded r s q ⊎ ((b : LeaveBalance) × IsFinalised o r s q b))
unfolding approve_step advance
approve_step-cases o r user comment s q h =
    let (waiting, h1) = raise_if-eq-ok (not (is_waiting r.status)) LeaveError.not_awaiting _ h in
    let (permitted, h2) = raise_if-eq-ok (not (o.may_decide user r)) LeaveError.forbidden _ h1 in
    let (other, h3) = raise_if-eq-ok (is_own r user.employee_id) LeaveError.own_request _ h2 in
    (
      ground (arith, waiting),
      elim (Bool-cases (str_eq "pending_manager" r.status)) [
        | inr hr ↦ inr (finalise_approval-IsFinalised o r _ q (rw hr at h3))
        | inl manager ↦ elim (Bool-cases (o.leave_type_of r.leave_type).requires_hr_approval) [
          | inr direct ↦ inr (finalise_approval-IsFinalised o r _ q (rw (manager, direct) at h3))
          | inl twice ↦
              let (u0, may, h4) =
                >>=-eq-ok (may_become r "pending_hr") _ (rw (manager, twice) at h3) in
              inl (subst (IsForwarded r s) (ok-injective h4) (refl, refl, refl))
        ]
      ],
    )

abbrev pub IsRejected : Office → LeaveRequest → String → Leaves → LeaveRequest × Leaves → Type 0
IsRejected o r reason s q =
    (may_become r "rejected" ≡ ok tt)
    × (q.0 ≡ rejected o.now reason r)
    × (q.1.balances ≡ (
        if r.balance_applied
        then s.balances
        else save_balance (released (balance_of o r s) r.total_days) s.balances))
    × (q.1.requests ≡ save_request r.id (rejected o.now reason) s.requests)

pub reject-IsRejected :
    (o : Office) (r : LeaveRequest) (user : User) (reason : String) (s : Leaves)
    (q : LeaveRequest × Leaves)
    → reject o r user reason s ≡ ok q
    → IsRejected o r reason s q
unfolding reject
reject-IsRejected o r user reason s q h =
    let (u0, may, h1) = >>=-eq-ok (may_become r "rejected") _ h in
    let (given, h2) = raise_if-eq-ok (is_blank reason) LeaveError.no_reason _ h1 in
    let (permitted, h3) = raise_if-eq-ok (not (o.may_decide user r)) LeaveError.forbidden _ h2 in
    let (b, found, h4) = >>=-eq-ok (existing_balance (entitlement_of o r) s.balances) _ h3 in
    let same = existing_balance-locked (entitlement_of o r) s.balances b found in
    subst (IsRejected o r reason s) (ok-injective h4) (
      may,
      refl,
      ap
          (λ b.
            if r.balance_applied
            then s.balances
            else save_balance (released b r.total_days) s.balances)
          same,
      refl,
    )

-- What `cancel` has done to the balances: given the days back, or found none to give.
abbrev pub IsReturned : Office → LeaveRequest → Leaves → List LeaveBalance → Type 0
IsReturned o r s balances =
    ((r.balance_applied || is_blocking r.status ≡ true)
      × (balances ≡ save_balance (given_back r (balance_of o r s)) s.balances))
    ⊎ ((r.balance_applied || is_blocking r.status ≡ false) × (balances ≡ s.balances))

return_days-IsReturned :
    (o : Office) (r : LeaveRequest) (s : Leaves) (balances : List LeaveBalance)
    → return_days o r s.balances ≡ ok balances
    → IsReturned o r s balances
unfolding return_days
return_days-IsReturned o r s balances h =
    elim (Bool-cases (r.balance_applied || is_blocking r.status)) [
      | inr free ↦ inr (free, sym (ok-injective (rw free at h)))
      | inl bound ↦
          let (b, found, h1) =
            >>=-eq-ok (existing_balance (entitlement_of o r) s.balances) _ (rw bound at h) in
          let same = existing_balance-locked (entitlement_of o r) s.balances b found in
          inl
            (bound, sym (ok-injective h1) ∙ ap (λ b. save_balance (given_back r b) s.balances) same)
    ]

abbrev pub IsCancelled :
    Office → LeaveRequest → Option ℕ → String → Leaves → LeaveRequest × Leaves → Type 0
IsCancelled o r user_id reason s q =
    (may_become r "cancelled" ≡ ok tt)
    × (q.0 ≡ cancelled o.now user_id reason r)
    × IsReturned o r s q.1.balances
    × (q.1.requests ≡ save_request r.id (λ row. q.0) s.requests)

pub cancel-IsCancelled :
    (o : Office) (r : LeaveRequest) (user_id : Option ℕ) (reason : String) (s : Leaves)
    (q : LeaveRequest × Leaves)
    → cancel o r user_id reason s ≡ ok q
    → IsCancelled o r user_id reason s q
unfolding cancel
cancel-IsCancelled o r user_id reason s q h =
    let (u0, may, h1) = >>=-eq-ok (may_become r "cancelled") _ h in
    let (early, h2) =
      raise_if-eq-ok (str_eq "approved" r.status && leb r.start_date o.today)
        LeaveError.already_started _ h1 in
    let (balances, returned, h3) = >>=-eq-ok (return_days o r s.balances) _ h2 in
    subst (IsCancelled o r user_id reason s) (ok-injective h3)
      (may, refl, return_days-IsReturned o r s balances returned, refl)
