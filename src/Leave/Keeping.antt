-- ===== src/Leave/Keeping.antt =====
-- Whatever calls are made, the balances are what the requests say
-- (backend/apps/hr/services/leave.py).
use achr.Prelude.{
  ℕ, ◌≡◌, refl, String, true, false, Option, some, List, [], ◌∷◌, ◌++◌, arith, ok, sum_of-append,
  All-append,
}
use achr.Leave.Model.{Employee, LeaveType, LeaveRequest, Leaves, User, Office}
use achr.Leave.Tables.{request_at}
use achr.Leave.Workflow.{submit_request, approve_step}
use achr.Leave.Withdrawal.{reject, cancel}
use achr.Leave.Accrual.{accrue_monthly}
use achr.Leave.Accruing.{accrue_monthly-AllBacked}
use achr.Leave.Sound.{held, spent, within, is_consistent, IsSound}
use achr.Leave.Calls.{submit_request-IsSound, approve_step-IsSound, reject-IsSound, cancel-IsSound}

-- One call on the tables of leave that succeeds; the request of a call is the row of the table.
-- `drafts` is the insertion of a request, which starts as a draft.
pub data Step (o : Office) : Leaves → Leaves → Type 0 where
  drafts :
      (r : LeaveRequest) {s : Leaves}
      → r.status ≡ "draft"
      → r.balance_applied ≡ false
      → Step o s (record s { requests = s.requests ++ (r ∷ []) })
  submits :
      (r : LeaveRequest) (user_id : Option ℕ) (q : LeaveRequest × Leaves) {s : Leaves}
      → request_at r.id s.requests ≡ some r
      → submit_request o r user_id s ≡ ok q
      → Step o s q.1
  approves :
      (r : LeaveRequest) (user : User) (comment : String) (q : LeaveRequest × Leaves) {s : Leaves}
      → request_at r.id s.requests ≡ some r
      → approve_step o r user comment s ≡ ok q
      → Step o s q.1
  rejects :
      (r : LeaveRequest) (user : User) (reason : String) (q : LeaveRequest × Leaves) {s : Leaves}
      → request_at r.id s.requests ≡ some r
      → reject o r user reason s ≡ ok q
      → Step o s q.1
  cancels :
      (r : LeaveRequest) (user_id : Option ℕ) (reason : String) (q : LeaveRequest × Leaves)
      {s : Leaves}
      → request_at r.id s.requests ≡ some r
      → cancel o r user_id reason s ≡ ok q
      → Step o s q.1
  accrues :
      (as_of : ℕ) (ts : List LeaveType) (es : List Employee) {s : Leaves}
      → Step o s (record s { balances = (accrue_monthly o as_of ts es s.balances).0 })

pub data Steps (o : Office) : Leaves → Leaves → Type 0 where
  done : {s : Leaves} → Steps o s s
  step : {s s' s'' : Leaves} → Step o s s' → Steps o s' s'' → Steps o s s''

-- A draft neither holds nor has taken days.
drafted-IsSound :
    (o : Office) (s : Leaves) (r : LeaveRequest)
    → IsSound o s
    → r.status ≡ "draft"
    → r.balance_applied ≡ false
    → IsSound o (record s { requests = s.requests ++ (r ∷ []) })
unfolding IsSound
drafted-IsSound o s r (consistent, backed) draft unapplied = (
  All-append (λ r. is_consistent r ≡ true) s.requests (r ∷ []) consistent
      (rw (draft, unapplied) refl, tt),
  λ e.
      let (p, t, x, c) = backed e in
      let held_sum = sum_of-append (within o e held) s.requests (r ∷ []) in
      let spent_sum = sum_of-append (within o e spent) s.requests (r ∷ []) in
      let idle : held r ≡ 0 = rw draft refl in
      let untaken : spent r ≡ 0 = rw unapplied refl in
      let no_held : within o e held r ≡ 0 = ground (arith, idle) in
      let no_spent : within o e spent r ≡ 0 = ground (arith, untaken) in
      (omega arith, omega arith, x, c),
)

Step-IsSound : {o : Office} {s s' : Leaves} → Step o s s' → IsSound o s → IsSound o s'
unfolding IsSound
Step-IsSound {o} {s} (drafts r draft unapplied) sound = drafted-IsSound o s r sound draft unapplied
Step-IsSound {o} {s} (submits r user_id q current h) sound =
    submit_request-IsSound o s r user_id q sound current h
Step-IsSound {o} {s} (approves r user comment q current h) sound =
    approve_step-IsSound o s r user comment q sound current h
Step-IsSound {o} {s} (rejects r user reason q current h) sound =
    reject-IsSound o s r user reason q sound current h
Step-IsSound {o} {s} (cancels r user_id reason q current h) sound =
    cancel-IsSound o s r user_id reason q sound current h
Step-IsSound {o} {s} (accrues as_of ts es) sound =
    (sound.0, accrue_monthly-AllBacked o as_of ts es s.requests s.balances sound.1)

-- Whatever calls of the leave workflow succeed, one after the other and each with the request as the
-- table has it, from sound tables they lead to sound tables: a request has its days taken if and only
-- if it is approved; every balance holds back exactly the days of its waiting requests and has taken
-- exactly those of its approved ones; its available days are what `recomputed_available` returns, and
-- unless its leave type allows a negative balance, they cover the days that are held back.
pub Steps-IsSound : {o : Office} {s s' : Leaves} → Steps o s s' → IsSound o s → IsSound o s'
Steps-IsSound done sound = sound
Steps-IsSound (step one rest) sound = Steps-IsSound rest (Step-IsSound one sound)
