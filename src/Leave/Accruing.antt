-- ===== src/Leave/Accruing.antt =====
-- The monthly accrual under the invariant, and when it is repeated
-- (backend/apps/hr/services/leave.py).
use achr.Prelude.{
  ℕ, ◌==◌, ◌≡◌, refl, ap, ◌∙◌, subst, true, ◌&&◌, not, List, [], ◌∷◌, arith, inl, inr, Bool-cases,
  some,
}
use achr.Prelude.Int.{pos, pos_part, neg_part, eq_of_parts, +ℤ_parts, int_laws}
use achr.Leave.Model.{
  Employee, LeaveType, Entitlement, LeaveBalance, LeaveRequest, Office, same_entitlement,
  recomputed_available,
}
use achr.Leave.{locked_balance, save_balance, served_less}
use achr.Leave.Tables.{same_entitlement-eq, locked_balance-entitlement}
use achr.Leave.Accrual.{
  granted, accrued, accrued_since, accrue, accrue_types, accrue_all, accrue_monthly, monthly_types,
  eligible,
}
use achr.Leave.Sound.{is_covered, IsBacked}
use achr.Leave.Booking.{saved_rows}

abbrev pub AllBacked : Office → List LeaveRequest → List LeaveBalance → Type 0
AllBacked o requests balances =
    (e : Entitlement) → IsBacked o requests e (locked_balance e balances)

-- A balance that is saved with another sum available, of the same days held and taken.
rebalanced :
    (o : Office) (requests : List LeaveRequest) (balances : List LeaveBalance) (k : Entitlement)
    (b : LeaveBalance)
    → AllBacked o requests balances
    → b.entitlement ≡ k
    → b.pending_days ≡ (locked_balance k balances).pending_days
    → b.taken_days ≡ (locked_balance k balances).taken_days
    → b.available_days ≡ recomputed_available b
    → is_covered o b ≡ true
    → AllBacked o requests (save_balance b balances)
rebalanced o requests balances k b all at pending taken exact covered e =
    let (p, t, x, c) = all e in
    let rows = saved_rows b k balances at e in
    elim (Bool-cases (same_entitlement k e)) [
      | inl mine ↦
          let pending' =
            subst (λ k. b.pending_days ≡ (locked_balance k balances).pending_days)
              (same_entitlement-eq k e mine) pending in
          let taken' =
            subst (λ k. b.taken_days ≡ (locked_balance k balances).taken_days)
              (same_entitlement-eq k e mine) taken in
          rw (rows, mine) (pending' ∙ p, taken' ∙ t, exact, covered)
      | inr other ↦ rw (rows, other) (p, t, x, c)
    ]

accrued_exact :
    (b : LeaveBalance) (rate as_of : ℕ)
    → b.available_days ≡ recomputed_available b
    → (accrued b rate as_of).available_days ≡ recomputed_available (accrued b rate as_of)
unfolding recomputed_available
accrued_exact b rate as_of h = eq_of_parts _ _ (omega (int_laws, ap pos_part h, ap neg_part h))

accrued_covered :
    (o : Office) (b : LeaveBalance) (rate as_of : ℕ)
    → is_covered o b ≡ true
    → is_covered o (accrued b rate as_of) ≡ true
accrued_covered o b rate as_of h = ground (arith, +ℤ_parts b.available_days (pos rate), h)

accrue-AllBacked :
    (o : Office) (as_of : ℕ) (employee : Employee) (t : LeaveType) (requests : List LeaveRequest)
    (acc : List LeaveBalance × ℕ)
    → AllBacked o requests acc.0
    → AllBacked o requests (accrue o as_of employee t acc).0
unfolding accrue recomputed_available
accrue-AllBacked o as_of employee t requests (balances, n) all =
    let k : Entitlement = record {
      employee = employee.id;
      leave_type = t.id;
      year = o.year_of as_of;
    } in
    let b = locked_balance k balances in
    let at = locked_balance-entitlement k balances in
    let (p, t', x, c) = all k in
    elim (Bool-cases (
      not (t.min_service_months == 0)
      && served_less o employee.hire_date as_of t.min_service_months)) [
        | inl young ↦ rw (accrue, young) all
        | inr old ↦ elim (Bool-cases (accrued_since b.last_accrued_on (o.month_start as_of))) [
          | inl done ↦
              rw (accrue, old, done) (rebalanced o requests balances k b all at refl refl x c)
          | inr due ↦ elim (Bool-cases (granted t b == 0)) [
            | inl nothing ↦
                rw (accrue, old, due, nothing)
                  (rebalanced o requests balances k (record b { last_accrued_on = some as_of }) all
                    at refl refl x c)
            | inr something ↦
                rw (accrue, old, due, something)
                  (rebalanced o requests balances k (accrued b (granted t b) as_of) all at refl refl
                    (accrued_exact b (granted t b) as_of x)
                    (accrued_covered o b (granted t b) as_of c))
          ]
        ]
      ]

accrue_types-AllBacked :
    (o : Office) (as_of : ℕ) (employee : Employee) (ts : List LeaveType)
    (requests : List LeaveRequest) (acc : List LeaveBalance × ℕ)
    → AllBacked o requests acc.0
    → AllBacked o requests (accrue_types o as_of employee ts acc).0
unfolding accrue_types
accrue_types-AllBacked o as_of employee [] requests acc all = all
accrue_types-AllBacked o as_of employee (t ∷ ts) requests acc all =
    accrue_types-AllBacked o as_of employee ts requests _
      (accrue-AllBacked o as_of employee t requests acc all)

accrue_all-AllBacked :
    (o : Office) (as_of : ℕ) (ts : List LeaveType) (es : List Employee)
    (requests : List LeaveRequest) (acc : List LeaveBalance × ℕ)
    → AllBacked o requests acc.0
    → AllBacked o requests (accrue_all o as_of ts es acc).0
unfolding accrue_all
accrue_all-AllBacked o as_of ts [] requests acc all = all
accrue_all-AllBacked o as_of ts (e ∷ es) requests acc all =
    accrue_all-AllBacked o as_of ts es requests _
      (accrue_types-AllBacked o as_of e ts requests acc all)

pub accrue_monthly-AllBacked :
    (o : Office) (as_of : ℕ) (ts : List LeaveType) (es : List Employee)
    (requests : List LeaveRequest) (balances : List LeaveBalance)
    → AllBacked o requests balances
    → AllBacked o requests (accrue_monthly o as_of ts es balances).0
unfolding accrue_monthly
accrue_monthly-AllBacked o as_of ts es requests balances all =
    accrue_all-AllBacked o as_of (monthly_types ts) (eligible as_of es) requests (balances, 0) all
