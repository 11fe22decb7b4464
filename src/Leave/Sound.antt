-- ===== src/Leave/Sound.antt =====
-- What the tables of leave keep: the balances are what the requests say
-- (backend/apps/hr/services/leave.py).
use achr.Prelude.{
  ℕ, ◌+◌, ◌≡◌, refl, sym, subst, String, ◌⊎◌, inl, inr, Bool, true, false, ◌||◌, not, some, List,
  All, sum_of, arith, eq_iff, str_eq, if◌then◌else◌, Bool-cases, ok,
}
use achr.Prelude.Int.{pos, leb_ℤ}
use achr.Status.{assert_can_transition}
use achr.Leave.Model.{
  Entitlement, LeaveBalance, LeaveRequest, Leaves, Office, same_entitlement, recomputed_available,
}
use achr.Leave.{entitlement_of, locked_balance, save_request, is_waiting, may_become}
use achr.Leave.Tables.{same_entitlement-eq, request_at, sum_of-save_request, All-save_request}

-- Where the calls that change a status can come from.
pub submitted_from : (r : LeaveRequest) → may_become r "submitted" ≡ ok tt → r.status ≡ "draft"
unfolding may_become assert_can_transition
submitted_from r h = ground (arith, eq_iff "draft" r.status)

pub approved_from :
    (r : LeaveRequest) → may_become r "approved" ≡ ok tt → is_waiting r.status ≡ true
unfolding may_become assert_can_transition
approved_from r h = ground (arith)

pub rejected_from :
    (r : LeaveRequest) → may_become r "rejected" ≡ ok tt → is_waiting r.status ≡ true
unfolding may_become assert_can_transition
rejected_from r h = ground (arith)

pub cancelled_from :
    (r : LeaveRequest)
    → may_become r "cancelled" ≡ ok tt
    → (r.status ≡ "draft") ⊎ (is_waiting r.status ≡ true) ⊎ (r.status ≡ "approved")
unfolding may_become assert_can_transition
cancelled_from r h = ground (arith, eq_iff "draft" r.status, eq_iff "approved" r.status)

pub waiting-unapproved :
    (status : String) → is_waiting status ≡ true → str_eq "approved" status ≡ false
waiting-unapproved status h = elim (Bool-cases (str_eq "approved" status)) [
  | inr e ↦ e
  | inl e ↦
      let same = (eq_iff "approved" status).0 e in
      let no : false ≡ true = subst (λ x. is_waiting x ≡ true) (sym same) h in cc
]

-- The days that a request holds back, and those that it has taken.
abbrev pub held : LeaveRequest → ℕ
held r = if is_waiting r.status then r.total_days else 0

abbrev pub spent : LeaveRequest → ℕ
spent r = if r.balance_applied then r.total_days else 0

-- A measure on the requests of one entitlement.
abbrev pub within : Office → Entitlement → (LeaveRequest → ℕ) → LeaveRequest → ℕ
within o e g r = if same_entitlement (entitlement_of o r) e then g r else 0

-- A balance may be overdrawn, or what is held back is available.
abbrev pub is_covered : Office → LeaveBalance → Bool
is_covered o b =
    (o.leave_type_of b.entitlement.leave_type).allow_negative_balance
    || leb_ℤ (pos b.pending_days) b.available_days

abbrev pub IsBacked : Office → List LeaveRequest → Entitlement → LeaveBalance → Type 0
IsBacked o requests e b =
    (b.pending_days ≡ sum_of (within o e held) requests)
    × (b.taken_days ≡ sum_of (within o e spent) requests)
    × (b.available_days ≡ recomputed_available b)
    × (is_covered o b ≡ true)

abbrev pub is_consistent : LeaveRequest → Bool
is_consistent r =
    if r.balance_applied then str_eq "approved" r.status else not (str_eq "approved" r.status)

-- Every request has its days taken if and only if it is approved. Every balance, a missing row as
-- nothing, holds back the days of its waiting requests and has taken those of its approved ones; its
-- `available_days` is what `recomputed_available` returns, and covers what is held back, unless the
-- leave type allows a negative balance.
unfoldable pub IsSound : Office → Leaves → Type 0
IsSound o s =
    All (λ r. is_consistent r ≡ true) s.requests
    × ((e : Entitlement) → IsBacked o s.requests e (locked_balance e s.balances))

-- What a call writes for a request r that becomes r': the balance b becomes b'.
abbrev pub IsBooked : Office → LeaveRequest → LeaveRequest → LeaveBalance → LeaveBalance → Type 0
IsBooked o r r' b b' =
    (b'.pending_days + held r ≡ b.pending_days + held r')
    × (b'.taken_days + spent r ≡ b.taken_days + spent r')
    × (b'.available_days ≡ recomputed_available b')
    × (is_covered o b' ≡ true)
    × (is_consistent r' ≡ true)

within-same :
    (o : Office) (e : Entitlement) (g : LeaveRequest → ℕ) (r : LeaveRequest)
    → same_entitlement (entitlement_of o r) e ≡ true
    → within o e g r ≡ g r
within-same o e g r h = rw h refl

within-other :
    (o : Office) (e : Entitlement) (g : LeaveRequest → ℕ) (r : LeaveRequest)
    → same_entitlement (entitlement_of o r) e ≡ false
    → within o e g r ≡ 0
within-other o e g r h = rw h refl

pub booked-IsSound :
    (o : Office) (s s' : Leaves) (r : LeaveRequest) (f : LeaveRequest → LeaveRequest)
    (b' : LeaveBalance)
    → IsSound o s
    → request_at r.id s.requests ≡ some r
    → s'.requests ≡ save_request r.id f s.requests
    → entitlement_of o (f r) ≡ entitlement_of o r
    → ((e : Entitlement)
        → locked_balance e s'.balances
          ≡ (if same_entitlement (entitlement_of o r) e then b' else locked_balance e s.balances))
    → IsBooked o r (f r) (locked_balance (entitlement_of o r) s.balances) b'
    → IsSound o s'
unfolding IsSound
booked-IsSound o s s' r f b' (consistent, backed) current written same rows
      (pending, taken, exact, covered, fine) =
    (
      rw written (
          All-save_request (λ r. is_consistent r ≡ true) f r.id s.requests r current fine
            consistent),
      λ e.
          let (p, t, x, c) = backed e in
          let held_sum = sum_of-save_request (within o e held) f r.id s.requests r current in
          let spent_sum = sum_of-save_request (within o e spent) f r.id s.requests r current in
          elim (Bool-cases (same_entitlement (entitlement_of o r) e)) [
            | inl mine ↦
                let at = same_entitlement-eq (entitlement_of o r) e mine in
                let mine' = subst (λ k. same_entitlement k e ≡ true) (sym same) mine in
                let h0 = within-same o e held r mine in
                let h1 = within-same o e held (f r) mine' in
                let s0 = within-same o e spent r mine in
                let s1 = within-same o e spent (f r) mine' in
                let pending_e =
                  subst
                    (λ k.
                      b'.pending_days + held r
                      ≡ (locked_balance k s.balances).pending_days + held (f r))
                    at pending in
                let taken_e =
                  subst
                    (λ k.
                      b'.taken_days + spent r
                      ≡ (locked_balance k s.balances).taken_days + spent (f r))
                    at taken in
                rw (rows e, mine, written) (omega arith, omega arith, exact, covered)
            | inr other ↦
                let other' = subst (λ k. same_entitlement k e ≡ false) (sym same) other in
                let h0 = within-other o e held r other in
                let h1 = within-other o e held (f r) other' in
                let s0 = within-other o e spent r other in
                let s1 = within-other o e spent (f r) other' in
                rw (rows e, other, written) (omega arith, omega arith, x, c)
          ],
    )
