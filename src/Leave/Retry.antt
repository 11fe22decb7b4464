-- ===== src/Leave/Retry.antt =====
-- The monthly accrual run again (backend/apps/hr/services/leave.py).
use achr.Prelude.{ℕ, ◌≤◌, ◌≡◌, refl, ap, ◌∙◌, true, List, [], ◌∷◌}
use achr.Leave.Model.{Employee, LeaveType, LeaveBalance, Office}
use achr.Leave.Accrual.{accrue, accrue_types, accrue_all, accrue_monthly, monthly_types, eligible}
use achr.Leave.Rounds.{
  is_settled, both, accrue_settled, accrue-is_settled, accrue_keeps, are_settled, all_settled,
}

accrue_types_keeps :
    (o : Office) (as_of : ℕ) (employee e : Employee) (ts : List LeaveType) (u : LeaveType)
    (acc : List LeaveBalance × ℕ)
    → o.month_start as_of ≤ as_of
    → is_settled o as_of e u acc.0 ≡ true
    → is_settled o as_of e u (accrue_types o as_of employee ts acc).0 ≡ true
unfolding accrue_types
accrue_types_keeps o as_of employee e [] u acc h before = before
accrue_types_keeps o as_of employee e (t ∷ ts) u acc h before =
    accrue_types_keeps o as_of employee e ts u _ h
      (accrue_keeps o as_of employee e t u acc h before)

accrue_types-are_settled :
    (o : Office) (as_of : ℕ) (employee : Employee) (ts : List LeaveType)
    (acc : List LeaveBalance × ℕ)
    → o.month_start as_of ≤ as_of
    → are_settled o as_of employee ts (accrue_types o as_of employee ts acc).0 ≡ true
unfolding accrue_types
accrue_types-are_settled o as_of employee [] acc h = refl
accrue_types-are_settled o as_of employee (t ∷ ts) acc h =
    let head =
      accrue_types_keeps o as_of employee employee ts t (accrue o as_of employee t acc) h
        (accrue-is_settled o as_of employee t acc h) in
    let tail = accrue_types-are_settled o as_of employee ts (accrue o as_of employee t acc) h in
    rw (head, tail) refl

types_keep :
    (o : Office) (as_of : ℕ) (employee e : Employee) (ts us : List LeaveType)
    (acc : List LeaveBalance × ℕ)
    → o.month_start as_of ≤ as_of
    → are_settled o as_of e us acc.0 ≡ true
    → are_settled o as_of e us (accrue_types o as_of employee ts acc).0 ≡ true
types_keep o as_of employee e ts [] acc h before = refl
types_keep o as_of employee e ts (u ∷ us) acc h before =
    let (one, rest) = both _ _ before in
    rw
      (
        accrue_types_keeps o as_of employee e ts u acc h one,
        types_keep o as_of employee e ts us acc h rest,
      )
      refl

accrue_all_keeps :
    (o : Office) (as_of : ℕ) (e : Employee) (ts us : List LeaveType) (es : List Employee)
    (acc : List LeaveBalance × ℕ)
    → o.month_start as_of ≤ as_of
    → are_settled o as_of e us acc.0 ≡ true
    → are_settled o as_of e us (accrue_all o as_of ts es acc).0 ≡ true
unfolding accrue_all
accrue_all_keeps o as_of e ts us [] acc h before = before
accrue_all_keeps o as_of e ts us (x ∷ xs) acc h before =
    accrue_all_keeps o as_of e ts us xs _ h (types_keep o as_of x e ts us acc h before)

accrue_all-all_settled :
    (o : Office) (as_of : ℕ) (ts : List LeaveType) (es : List Employee)
    (acc : List LeaveBalance × ℕ)
    → o.month_start as_of ≤ as_of
    → all_settled o as_of ts es (accrue_all o as_of ts es acc).0 ≡ true
unfolding accrue_all
accrue_all-all_settled o as_of ts [] acc h = refl
accrue_all-all_settled o as_of ts (e ∷ es) acc h =
    let first = accrue_types o as_of e ts acc in
    let head =
      accrue_all_keeps o as_of e ts ts es first h (accrue_types-are_settled o as_of e ts acc h) in
    rw (head, accrue_all-all_settled o as_of ts es first h) refl

accrue_types_settled :
    (o : Office) (as_of : ℕ) (employee : Employee) (ts : List LeaveType)
    (balances : List LeaveBalance) (n : ℕ)
    → are_settled o as_of employee ts balances ≡ true
    → accrue_types o as_of employee ts (balances, n) ≡ (balances, n)
unfolding accrue_types
accrue_types_settled o as_of employee [] balances n h = refl
accrue_types_settled o as_of employee (t ∷ ts) balances n h =
    let (one, rest) = both _ _ h in
    ap (λ acc. accrue_types o as_of employee ts acc)
      (accrue_settled o as_of employee t balances n one)
    ∙ accrue_types_settled o as_of employee ts balances n rest

accrue_all_settled :
    (o : Office) (as_of : ℕ) (ts : List LeaveType) (es : List Employee)
    (balances : List LeaveBalance) (n : ℕ)
    → all_settled o as_of ts es balances ≡ true
    → accrue_all o as_of ts es (balances, n) ≡ (balances, n)
unfolding accrue_all
accrue_all_settled o as_of ts [] balances n h = refl
accrue_all_settled o as_of ts (e ∷ es) balances n h =
    let (one, rest) = both _ _ h in
    ap (λ acc. accrue_all o as_of ts es acc) (accrue_types_settled o as_of e ts balances n one)
    ∙ accrue_all_settled o as_of ts es balances n rest

-- A task that is retried grants nothing twice: the accrual run again on the tables that it has left,
-- with the same leave types and employees and for the same day, which does not lie before its own
-- month's start, updates no balance and leaves the table as it is.
pub accrue_monthly_retry :
    (o : Office) (as_of : ℕ) (ts : List LeaveType) (es : List Employee)
    (balances : List LeaveBalance)
    → o.month_start as_of ≤ as_of
    → accrue_monthly o as_of ts es (accrue_monthly o as_of ts es balances).0
      ≡ ((accrue_monthly o as_of ts es balances).0, 0)
unfolding accrue_monthly
accrue_monthly_retry o as_of ts es balances h =
    accrue_all_settled o as_of (monthly_types ts) (eligible as_of es) _ 0
      (accrue_all-all_settled o as_of (monthly_types ts) (eligible as_of es) (balances, 0) h)
