-- ===== src/Leave/Booking.antt =====
-- What each call on a request writes of the balance (backend/apps/hr/services/leave.py).
use achr.Prelude.{
  ℕ, ◌+◌, ◌-◌, ◌≤◌, ◌≡◌, refl, ap, subst, String, ◌⊎◌, inl, inr, true, false, ◌&&◌, not, Option,
  List, arith, str_eq, if◌then◌else◌, Bool-cases, Option-cases,
}
use achr.Prelude.Int.{
  pos, pos_part, neg_part, ◌-ℤ◌, ◌+ℤ◌, ltb_ℤ, eq_of_parts, +ℤ_parts, -ℤ_parts, int_laws,
}
use achr.Leave.Model.{
  Entitlement, LeaveBalance, LeaveRequest, Office, same_entitlement, recomputed_available,
}
use achr.Leave.{locked_balance, save_balance, is_waiting, is_blocking, next_approver}
use achr.Leave.Tables.{locked_balance-save_balance, same_entitlement-eq}
use achr.Leave.Workflow.{submitted, debited, approved, forwarded}
use achr.Leave.Withdrawal.{rejected, released, cancelled, given_back}
use achr.Leave.Sound.{waiting-unapproved, held, spent, is_covered, is_consistent, IsBooked}

-- The rows after the balance of an entitlement has been saved, or has not been touched.
pub saved_rows :
    (b : LeaveBalance) (k : Entitlement) (balances : List LeaveBalance)
    → b.entitlement ≡ k
    → (e : Entitlement)
    → locked_balance e (save_balance b balances)
      ≡ (if same_entitlement k e then b else locked_balance e balances)
saved_rows b k balances h e =
    subst
      (λ x.
        locked_balance e (save_balance b balances)
        ≡ (if same_entitlement x e then b else locked_balance e balances))
      h (locked_balance-save_balance b e balances)

pub kept_rows :
    (k : Entitlement) (balances : List LeaveBalance) (e : Entitlement)
    → locked_balance e balances
      ≡ (if same_entitlement k e then locked_balance k balances else locked_balance e balances)
kept_rows k balances e = elim (Bool-cases (same_entitlement k e)) [
  | inl same ↦ rw (same, same_entitlement-eq k e same) refl
  | inr other ↦ rw other refl
]

debited_exact :
    (b : LeaveBalance) (days : ℕ)
    → b.available_days ≡ recomputed_available b
    → (debited b days).available_days ≡ recomputed_available (debited b days)
unfolding recomputed_available
debited_exact b days h = eq_of_parts _ _ (omega (int_laws, ap pos_part h, ap neg_part h))

returned_exact :
    (b : LeaveBalance) (days : ℕ)
    → b.available_days ≡ recomputed_available b
    → days ≤ b.taken_days
    → (b.available_days +ℤ pos days)
      ≡ recomputed_available (record b { taken_days = b.taken_days - days })
unfolding recomputed_available
returned_exact b days h le = eq_of_parts _ _ (omega (int_laws, ap pos_part h, ap neg_part h))

pub submitted_waits :
    (o : Office) (r : LeaveRequest) (days : ℕ) (user_id : Option ℕ)
    → (is_waiting (submitted o r days user_id).status ≡ true)
      × (str_eq "approved" (submitted o r days user_id).status ≡ false)
submitted_waits o r days user_id = elim (Option-cases (next_approver (o.employee_of r.employee))) [
  | inl missing ↦ rw (submitted, missing) (refl, refl)
  | inr (a, found) ↦ rw (submitted, found) (refl, refl)
]

pub submit-IsBooked :
    (o : Office) (r : LeaveRequest) (b : LeaveBalance) (days : ℕ) (user_id : Option ℕ)
    → r.status ≡ "draft"
    → is_consistent r ≡ true
    → b.available_days ≡ recomputed_available b
    → (ltb_ℤ (b.available_days -ℤ pos b.pending_days) (pos days)
        && not (o.leave_type_of b.entitlement.leave_type).allow_negative_balance)
      ≡ false
    → IsBooked o r
        (submitted o r days user_id)
        b
        (record b { pending_days = b.pending_days + days })
unfolding recomputed_available
submit-IsBooked o r b days user_id draft fine exact enough =
    let (waits, unapproved) = submitted_waits o r days user_id in
    let before : is_waiting r.status ≡ false = rw draft refl in
    let open_ : str_eq "approved" r.status ≡ false = rw draft refl in
    let unapplied : r.balance_applied ≡ false = ground (arith, open_, fine) in
    (
      rw (before, waits) (omega arith),
      rw unapplied refl,
      exact,
      ground (arith, -ℤ_parts b.available_days (pos b.pending_days), enough),
      rw (unapplied, unapproved) refl,
    )

pub approve-IsBooked :
    (o : Office) (r : LeaveRequest) (b : LeaveBalance)
    → is_waiting r.status ≡ true
    → is_consistent r ≡ true
    → b.available_days ≡ recomputed_available b
    → is_covered o b ≡ true
    → held r ≤ b.pending_days
    → (r.balance_applied ≡ false) × IsBooked o r (approved o.now r) b (debited b r.total_days)
approve-IsBooked o r b waiting fine exact covered enough =
    let other = waiting-unapproved r.status waiting in
    let unapplied : r.balance_applied ≡ false = ground (arith, other, fine) in
    let all : held r ≡ r.total_days = rw waiting refl in
    (
      unapplied,
      (
        omega (arith, enough, all),
        rw unapplied (omega arith),
        debited_exact b r.total_days exact,
        ground (arith, -ℤ_parts b.available_days (pos r.total_days), all, enough, covered),
        refl,
      ),
    )

pub forward-IsBooked :
    (o : Office) (r : LeaveRequest) (b : LeaveBalance)
    → is_waiting r.status ≡ true
    → is_consistent r ≡ true
    → b.available_days ≡ recomputed_available b
    → is_covered o b ≡ true
    → IsBooked o r (forwarded r) b b
forward-IsBooked o r b waiting fine exact covered =
    let other = waiting-unapproved r.status waiting in
    let unapplied : r.balance_applied ≡ false = ground (arith, other, fine) in
    (rw waiting refl, refl, exact, covered, rw unapplied refl)

pub reject-IsBooked :
    (o : Office) (r : LeaveRequest) (b : LeaveBalance) (reason : String)
    → is_waiting r.status ≡ true
    → is_consistent r ≡ true
    → b.available_days ≡ recomputed_available b
    → is_covered o b ≡ true
    → held r ≤ b.pending_days
    → (r.balance_applied ≡ false)
      × IsBooked o r (rejected o.now reason r) b (released b r.total_days)
unfolding recomputed_available
reject-IsBooked o r b reason waiting fine exact covered enough =
    let other = waiting-unapproved r.status waiting in
    let unapplied : r.balance_applied ≡ false = ground (arith, other, fine) in
    let all : held r ≡ r.total_days = rw waiting refl in
    (
      unapplied,
      (omega (arith, enough, all), refl, exact, ground (arith, covered), rw unapplied refl),
    )

pub cancel-IsBooked :
    (o : Office) (r : LeaveRequest) (b : LeaveBalance) (user_id : Option ℕ) (reason : String)
    → is_blocking r.status ≡ true
    → (is_waiting r.status ≡ true) ⊎ (r.status ≡ "approved")
    → is_consistent r ≡ true
    → b.available_days ≡ recomputed_available b
    → is_covered o b ≡ true
    → held r ≤ b.pending_days
    → spent r ≤ b.taken_days
    → IsBooked o r (cancelled o.now user_id reason r) b (given_back r b)
unfolding recomputed_available
cancel-IsBooked o r b user_id reason blocking (inl waiting) fine exact covered pending taken =
    let other = waiting-unapproved r.status waiting in
    let unapplied : r.balance_applied ≡ false = ground (arith, other, fine) in
    let all : held r ≡ r.total_days = rw waiting refl in
    rw unapplied (omega (arith, pending, all), omega arith, exact, ground (arith, covered), refl)
cancel-IsBooked o r b user_id reason blocking (inr is_approved) fine exact covered pending taken =
    let named : str_eq "approved" r.status ≡ true = rw is_approved refl in
    let applied : r.balance_applied ≡ true = ground (arith, named, fine) in
    let none_held : held r ≡ 0 = rw is_approved refl in
    let all : spent r ≡ r.total_days = rw applied refl in
    rw applied (
      omega (arith, none_held),
      omega (arith, taken, all),
      returned_exact b r.total_days exact (omega (arith, taken, all)),
      ground (arith, +ℤ_parts b.available_days (pos r.total_days), covered),
      refl,
    )
