-- ===== src/Leave/Rounds.antt =====
-- One round of the monthly accrual (backend/apps/hr/services/leave.py).
use achr.Prelude.{
  ℕ, ◌≤◌, ◌==◌, ◌≡◌, refl, sym, ap, subst, Bool, true, false, ◌&&◌, ◌||◌, not, Option, none, some,
  List, [], ◌∷◌, arith, ◌⊎◌, inl, inr, Bool-cases, Option-cases, leb, find_holds, some-injective,
}
use achr.Leave.Model.{Employee, LeaveType, Entitlement, LeaveBalance, Office, same_entitlement}
use achr.Leave.{balance_at, locked_balance, save_balance, served_less}
use achr.Leave.Tables.{
  same_entitlement-eq, same_entitlement_refl, locked_balance-entitlement, find-save_balance,
}
use achr.Leave.Accrual.{granted, accrued, accrued_since, accrue}

abbrev entitled : Office → ℕ → Employee → LeaveType → Entitlement
entitled o as_of employee t = record {
  employee = employee.id;
  leave_type = t.id;
  year = o.year_of as_of;
}

abbrev is_young : Office → ℕ → Employee → LeaveType → Bool
is_young o as_of employee t =
    not (t.min_service_months == 0) && served_less o employee.hire_date as_of t.min_service_months

abbrev is_accrued : Option LeaveBalance → ℕ → Bool
is_accrued none day = false
is_accrued (some b) day = accrued_since b.last_accrued_on day

-- The month's accrual of an employee and a type has been made, or is not due to the employee.
abbrev pub is_settled : Office → ℕ → Employee → LeaveType → List LeaveBalance → Bool
is_settled o as_of employee t balances =
    is_young o as_of employee t
    || is_accrued (balance_at (entitled o as_of employee t) balances) (o.month_start as_of)

pub both : (a b : Bool) → (a && b) ≡ true → (a ≡ true) × (b ≡ true)
both a b h = ground arith

save_balance-found :
    (b : LeaveBalance) (balances : List LeaveBalance)
    → balance_at b.entitlement balances ≡ some b
    → save_balance b balances ≡ balances
unfolding save_balance
save_balance-found b [] h = cc
save_balance-found b (x ∷ xs) h = elim (Bool-cases (same_entitlement x.entitlement b.entitlement)) [
  | inl same ↦ let e : x ≡ b = some-injective _ _ (rw same at h) in rw (same, e) refl
  | inr other ↦ rw other (ap (λ r. x ∷ r) (save_balance-found b xs (rw other at h)))
]

-- What is settled is not touched.
pub accrue_settled :
    (o : Office) (as_of : ℕ) (employee : Employee) (t : LeaveType) (balances : List LeaveBalance)
    (n : ℕ)
    → is_settled o as_of employee t balances ≡ true
    → accrue o as_of employee t (balances, n) ≡ (balances, n)
unfolding accrue locked_balance
accrue_settled o as_of employee t balances n h = elim (Bool-cases (is_young o as_of employee t)) [
  | inl young ↦ rw (accrue, young) refl
  | inr old ↦ elim (Option-cases (balance_at (entitled o as_of employee t) balances)) [
    | inl missing ↦ cc
    | inr (b, found) ↦
        let at = same_entitlement-eq b.entitlement (entitled o as_of employee t) (
          find_holds (λ b. same_entitlement b.entitlement (entitled o as_of employee t)) balances b
            found) in
        let done : accrued_since b.last_accrued_on (o.month_start as_of) ≡ true =
          ground (arith, h, old, found) in
        let same =
          save_balance-found b balances
            (subst (λ k. balance_at k balances ≡ some b) (sym at) found) in
        rw (accrue, old, locked_balance, found, done, same) refl
  ]
]

-- What one round writes: nothing, or the row of the entitlement, accrued since the month's start.
accrue-cases :
    (o : Office) (as_of : ℕ) (employee : Employee) (t : LeaveType) (balances : List LeaveBalance)
    (n : ℕ)
    → o.month_start as_of ≤ as_of
    → ((is_young o as_of employee t ≡ true)
        × ((accrue o as_of employee t (balances, n)).0 ≡ balances))
      ⊎ ((b : LeaveBalance) × (b.entitlement ≡ entitled o as_of employee t)
          × (accrued_since b.last_accrued_on (o.month_start as_of) ≡ true)
          × ((accrue o as_of employee t (balances, n)).0 ≡ save_balance b balances))
unfolding accrue
accrue-cases o as_of employee t balances n h =
    let b = locked_balance (entitled o as_of employee t) balances in
    let at = locked_balance-entitlement (entitled o as_of employee t) balances in
    let now : leb (o.month_start as_of) as_of ≡ true = ground arith in
    elim (Bool-cases (is_young o as_of employee t)) [
      | inl young ↦ inl (young, rw (accrue, young) refl)
      | inr old ↦ inr (elim (Bool-cases (accrued_since b.last_accrued_on (o.month_start as_of))) [
        | inl done ↦ (b, at, done, rw (accrue, old, done) refl)
        | inr due ↦ elim (Bool-cases (granted t b == 0)) [
          | inl nothing ↦ (
            record b { last_accrued_on = some as_of },
            at,
            now,
            rw (accrue, old, due, nothing) refl,
          )
          | inr something ↦
              (accrued b (granted t b) as_of, at, now, rw (accrue, old, due, something) refl)
        ]
      ])
    ]

pub accrue-is_settled :
    (o : Office) (as_of : ℕ) (employee : Employee) (t : LeaveType) (acc : List LeaveBalance × ℕ)
    → o.month_start as_of ≤ as_of
    → is_settled o as_of employee t (accrue o as_of employee t acc).0 ≡ true
accrue-is_settled o as_of employee t (balances, n) h =
    elim (accrue-cases o as_of employee t balances n h) [
      | inl (young, same) ↦ rw young refl
      | inr (b, at, done, saved) ↦
          let found = find-save_balance b (entitled o as_of employee t) balances in
          let mine : same_entitlement b.entitlement (entitled o as_of employee t) ≡ true =
            rw at (same_entitlement_refl (entitled o as_of employee t)) in
          rw (saved, found, mine) (ground (arith, done))
    ]

-- A round for one employee and type leaves settled what is settled.
pub accrue_keeps :
    (o : Office) (as_of : ℕ) (employee e : Employee) (t u : LeaveType) (acc : List LeaveBalance × ℕ)
    → o.month_start as_of ≤ as_of
    → is_settled o as_of e u acc.0 ≡ true
    → is_settled o as_of e u (accrue o as_of employee t acc).0 ≡ true
accrue_keeps o as_of employee e t u (balances, n) h before =
    elim (accrue-cases o as_of employee t balances n h) [
      | inl (young, same) ↦ rw same before
      | inr (b, at, done, saved) ↦
          let found = find-save_balance b (entitled o as_of e u) balances in
          elim (Bool-cases (same_entitlement b.entitlement (entitled o as_of e u))) [
            | inl mine ↦ rw (saved, found, mine) (ground (arith, done))
            | inr other ↦ rw (saved, found, other) before
          ]
    ]

abbrev pub are_settled : Office → ℕ → Employee → List LeaveType → List LeaveBalance → Bool
are_settled o as_of employee [] balances = true
are_settled o as_of employee (t ∷ ts) balances =
    is_settled o as_of employee t balances && are_settled o as_of employee ts balances

abbrev pub all_settled : Office → ℕ → List LeaveType → List Employee → List LeaveBalance → Bool
all_settled o as_of ts [] balances = true
all_settled o as_of ts (e ∷ es) balances =
    are_settled o as_of e ts balances && all_settled o as_of ts es balances
