-- ===== src/Leave/Calls.antt =====
-- Each call on a request keeps the balances sound
-- (backend/apps/hr/services/leave.py).
use achr.Prelude.{
  ℕ, ◌+◌, ◌≤◌, ◌≡◌, refl, sym, ap, ◌∙◌, subst, String, ◌⊎◌, inl, inr, true, false, ◌||◌, not,
  Option, some, arith, str_eq, ok, find-All, ◌==◌, ◌&&◌,
}
use achr.Prelude.Int.{pos, ◌-ℤ◌, ltb_ℤ}
use achr.Leave.Model.{LeaveBalance, LeaveRequest, Leaves, User, Office, recomputed_available}
use achr.Leave.{entitlement_of, save_request, is_waiting, is_blocking}
use achr.Leave.Tables.{
  same_entitlement_refl, locked_balance-entitlement, request_at, sum_of-request_at,
}
use achr.Leave.Workflow.{submit_request, submitted, approve_step, debited, approved, forwarded}
use achr.Leave.Withdrawal.{reject, rejected, released, cancel, cancelled, given_back}
use achr.Leave.Sound.{
  submitted_from, rejected_from, cancelled_from, held, spent, within, is_covered, is_consistent,
  IsSound, IsBooked, booked-IsSound,
}
use achr.Leave.Effects.{
  balance_of, submit_request-IsSubmitted, approve_step-cases, apply_days-debited, reject-IsRejected,
  cancel-IsCancelled,
}
use achr.Leave.Booking.{
  saved_rows, kept_rows, submit-IsBooked, approve-IsBooked, forward-IsBooked, reject-IsBooked,
  cancel-IsBooked,
}

-- What soundness says of a request of the table and its balance.
pub sound-request :
    (o : Office) (s : Leaves) (r : LeaveRequest)
    → IsSound o s
    → request_at r.id s.requests ≡ some r
    → (is_consistent r ≡ true)
      × (held r ≤ (balance_of o r s).pending_days)
      × (spent r ≤ (balance_of o r s).taken_days)
      × ((balance_of o r s).available_days ≡ recomputed_available (balance_of o r s))
      × (is_covered o (balance_of o r s) ≡ true)
unfolding IsSound
sound-request o s r (consistent, backed) current =
    let (p, t, x, c) = backed (entitlement_of o r) in
    let mine = same_entitlement_refl (entitlement_of o r) in
    let own_held : within o (entitlement_of o r) held r ≡ held r = rw mine refl in
    let own_spent : within o (entitlement_of o r) spent r ≡ spent r = rw mine refl in
    let h = sum_of-request_at (within o (entitlement_of o r) held) r.id s.requests r current in
    let t' = sum_of-request_at (within o (entitlement_of o r) spent) r.id s.requests r current in
    (
      find-All (λ r. is_consistent r ≡ true) (λ x. x.id == r.id) s.requests r consistent current,
      omega arith,
      omega arith,
      x,
      c,
    )

pub submit_request-IsSound :
    (o : Office) (s : Leaves) (r : LeaveRequest) (user_id : Option ℕ) (q : LeaveRequest × Leaves)
    → IsSound o s
    → request_at r.id s.requests ≡ some r
    → submit_request o r user_id s ≡ ok q
    → IsSound o q.1
submit_request-IsSound o s r user_id q sound current h =
    let (days, (may, checked, enough, row, balances, requests)) =
      submit_request-IsSubmitted o r user_id s q h in
    let (fine, pending, taken, exact, covered) = sound-request o s r sound current in
    let b = balance_of o r s in
    let at = locked_balance-entitlement (entitlement_of o r) s.balances in
    booked-IsSound o s q.1 r (λ x. submitted o r days user_id)
      (record b { pending_days = b.pending_days + days }) sound current
      (requests ∙ ap (λ q. save_request r.id (λ x. q) s.requests) row) refl
      (λ e. rw balances (saved_rows _ (entitlement_of o r) s.balances at e))
      (submit-IsBooked o r b days user_id (submitted_from r may) fine exact (
        subst
          (λ k.
            (ltb_ℤ (b.available_days -ℤ pos b.pending_days) (pos days)
              && not (o.leave_type_of k.leave_type).allow_negative_balance)
            ≡ false)
          (sym at) enough))

pub approve_step-IsSound :
    (o : Office) (s : Leaves) (r : LeaveRequest) (user : User) (comment : String)
    (q : LeaveRequest × Leaves)
    → IsSound o s
    → request_at r.id s.requests ≡ some r
    → approve_step o r user comment s ≡ ok q
    → IsSound o q.1
approve_step-IsSound o s r user comment q sound current h =
    let (waiting, how) = approve_step-cases o r user comment s q h in
    let (fine, pending, taken, exact, covered) = sound-request o s r sound current in
    let b = balance_of o r s in
    let at = locked_balance-entitlement (entitlement_of o r) s.balances in
    elim how [
      | inl (row, balances, requests) ↦
          booked-IsSound o s q.1 r forwarded b sound current requests refl
            (λ e. rw balances (kept_rows (entitlement_of o r) s.balances e))
            (forward-IsBooked o r b waiting fine exact covered)
      | inr (b', (may, applied, row, balances, requests)) ↦
          let (unapplied, booked) = approve-IsBooked o r b waiting fine exact covered pending in
          let debit = apply_days-debited o r b b' unapplied applied in
          booked-IsSound o s q.1 r (approved o.now) (debited b r.total_days) sound current requests
            refl
            (λ e.
              rw (balances, debit)
                (saved_rows (debited b r.total_days) (entitlement_of o r) s.balances at e))
            booked
    ]

pub reject-IsSound :
    (o : Office) (s : Leaves) (r : LeaveRequest) (user : User) (reason : String)
    (q : LeaveRequest × Leaves)
    → IsSound o s
    → request_at r.id s.requests ≡ some r
    → reject o r user reason s ≡ ok q
    → IsSound o q.1
reject-IsSound o s r user reason q sound current h =
    let (may, row, balances, requests) = reject-IsRejected o r user reason s q h in
    let (fine, pending, taken, exact, covered) = sound-request o s r sound current in
    let b = balance_of o r s in
    let at = locked_balance-entitlement (entitlement_of o r) s.balances in
    let (unapplied, booked) =
      reject-IsBooked o r b reason (rejected_from r may) fine exact covered pending in
    booked-IsSound o s q.1 r (rejected o.now reason) (released b r.total_days) sound current
      requests refl
      (λ e.
        rw (balances, unapplied)
          (saved_rows (released b r.total_days) (entitlement_of o r) s.balances at e))
      booked

-- A request that holds or has taken days is waiting or approved.
bound_from :
    (r : LeaveRequest)
    → (r.status ≡ "draft") ⊎ (is_waiting r.status ≡ true) ⊎ (r.status ≡ "approved")
    → is_consistent r ≡ true
    → (r.balance_applied || is_blocking r.status) ≡ true
    → (is_blocking r.status ≡ true) × ((is_waiting r.status ≡ true) ⊎ (r.status ≡ "approved"))
bound_from r (inl draft) fine bound =
    let open_ : str_eq "approved" r.status ≡ false = rw draft refl in
    let free : is_blocking r.status ≡ false = rw draft refl in
    ground (arith, open_, free, fine, bound)
bound_from r (inr (inl waiting)) fine bound = (ground (arith, waiting), inl waiting)
bound_from r (inr (inr approved_)) fine bound = (rw approved_ refl, inr approved_)

given_back-entitlement :
    (r : LeaveRequest) (b : LeaveBalance) → (given_back r b).entitlement ≡ b.entitlement
given_back-entitlement r b = ground arith

free-IsBooked :
    (o : Office) (r : LeaveRequest) (b : LeaveBalance) (user_id : Option ℕ) (reason : String)
    → (r.balance_applied || is_blocking r.status) ≡ false
    → b.available_days ≡ recomputed_available b
    → is_covered o b ≡ true
    → IsBooked o r (cancelled o.now user_id reason r) b b
free-IsBooked o r b user_id reason free exact covered =
    let unapplied : r.balance_applied ≡ false = ground (arith, free) in
    let idle : is_waiting r.status ≡ false = ground (arith, free) in
    (rw idle refl, rw unapplied refl, exact, covered, refl)

pub cancel-IsSound :
    (o : Office) (s : Leaves) (r : LeaveRequest) (user_id : Option ℕ) (reason : String)
    (q : LeaveRequest × Leaves)
    → IsSound o s
    → request_at r.id s.requests ≡ some r
    → cancel o r user_id reason s ≡ ok q
    → IsSound o q.1
cancel-IsSound o s r user_id reason q sound current h =
    let (may, row, returned, requests) = cancel-IsCancelled o r user_id reason s q h in
    let (fine, pending, taken, exact, covered) = sound-request o s r sound current in
    let k = entitlement_of o r in
    let b = balance_of o r s in
    let at = locked_balance-entitlement k s.balances in
    let written = requests ∙ ap (λ q. save_request r.id (λ x. q) s.requests) row in
    elim returned [
      | inl (bound, balances) ↦
          let (blocking, from) = bound_from r (cancelled_from r may) fine bound in
          booked-IsSound o s q.1 r (λ x. cancelled o.now user_id reason r) (given_back r b) sound
            current written refl
            (λ e.
              rw balances
                (saved_rows (given_back r b) k s.balances (given_back-entitlement r b ∙ at) e))
            (cancel-IsBooked o r b user_id reason blocking from fine exact covered pending taken)
      | inr (free, balances) ↦
          booked-IsSound o s q.1 r (λ x. cancelled o.now user_id reason r) b sound current written
            refl (λ e. rw balances (kept_rows k s.balances e))
            (free-IsBooked o r b user_id reason free exact covered)
    ]
