-- ===== src/Leave/Tables.antt =====
-- The tables of leave under their reads and writes (backend/apps/hr/services/leave.py).
use achr.Prelude.{
  ℕ, ◌+◌, ◌≤◌, ◌==◌, ◌≡◌, refl, sym, subst, true, Option, some, List, [], ◌∷◌, inl, inr, arith,
  if◌then◌else◌, find, sum_of, All, Option-cases, Bool-cases, find_holds, ok, or_raise-eq-ok,
  some-injective,
}
use achr.Leave.Model.{Entitlement, LeaveBalance, LeaveRequest, LeaveError, same_entitlement}
use achr.Leave.{balance_at, locked_balance, existing_balance, save_balance, save_request}

pub same_entitlement-eq : (a b : Entitlement) → same_entitlement a b ≡ true → a ≡ b
same_entitlement-eq a b h = ground arith

pub same_entitlement_refl : (a : Entitlement) → same_entitlement a a ≡ true
same_entitlement_refl a = ground arith

pub find-save_balance :
    (b : LeaveBalance) (e : Entitlement) (balances : List LeaveBalance)
    → balance_at e (save_balance b balances)
      ≡ (if same_entitlement b.entitlement e then some b else balance_at e balances)
unfolding save_balance
find-save_balance b e [] = ground arith
find-save_balance b e (x ∷ xs) =
    ground (arith, find-save_balance b e xs, same_entitlement-eq x.entitlement b.entitlement)

pub locked_balance-save_balance :
    (b : LeaveBalance) (e : Entitlement) (balances : List LeaveBalance)
    → locked_balance e (save_balance b balances)
      ≡ (if same_entitlement b.entitlement e then b else locked_balance e balances)
unfolding locked_balance
locked_balance-save_balance b e balances =
    let saved = find-save_balance b e balances in
    elim (Bool-cases (same_entitlement b.entitlement e)) [
      | inl same ↦ rw (locked_balance, saved, same) refl
      | inr other ↦ rw (locked_balance, saved, other) refl
    ]

pub locked_balance-entitlement :
    (e : Entitlement) (balances : List LeaveBalance) → (locked_balance e balances).entitlement ≡ e
unfolding locked_balance
locked_balance-entitlement e balances = elim (Option-cases (balance_at e balances)) [
  | inl missing ↦ rw (missing, locked_balance) refl
  | inr (b, found) ↦
      rw (found, locked_balance)
        (same_entitlement-eq b.entitlement e
          (find_holds (λ b. same_entitlement b.entitlement e) balances b found))
]

pub existing_balance-locked :
    (e : Entitlement) (balances : List LeaveBalance) (b : LeaveBalance)
    → existing_balance e balances ≡ ok b
    → b ≡ locked_balance e balances
unfolding existing_balance locked_balance
existing_balance-locked e balances b h =
    let found = or_raise-eq-ok (balance_at e balances) LeaveError.no_balance h in
    rw (locked_balance, found) refl

-- The row of a request in the table.
abbrev pub request_at : ℕ → List LeaveRequest → Option LeaveRequest
request_at id requests = find (λ r. r.id == id) requests

pub sum_of-save_request :
    (g : LeaveRequest → ℕ) (f : LeaveRequest → LeaveRequest) (id : ℕ) (requests : List LeaveRequest)
    (r : LeaveRequest)
    → request_at id requests ≡ some r
    → sum_of g (save_request id f requests) + g r ≡ sum_of g requests + g (f r)
unfolding save_request
sum_of-save_request g f id [] r h = cc
sum_of-save_request g f id (x ∷ xs) r h = elim (Bool-cases (x.id == id)) [
  | inl same ↦ let e : x ≡ r = some-injective _ _ (rw same at h) in rw (same, ← e) (omega arith)
  | inr other ↦
      let rest = sum_of-save_request g f id xs r (rw other at h) in rw other (omega (arith, rest))
]

pub All-save_request {κ} :
    (P : LeaveRequest → Type κ) (f : LeaveRequest → LeaveRequest) (id : ℕ)
    (requests : List LeaveRequest) (r : LeaveRequest)
    → request_at id requests ≡ some r
    → P (f r)
    → All P requests
    → All P (save_request id f requests)
unfolding save_request
All-save_request P f id [] r h p all = all
All-save_request P f id (x ∷ xs) r h p all = elim (Bool-cases (x.id == id)) [
  | inl same ↦
      let e : x ≡ r = some-injective _ _ (rw same at h) in
      rw same (subst (λ y. P (f y)) (sym e) p, all.1)
  | inr other ↦ rw other (all.0, All-save_request P f id xs r (rw other at h) p all.1)
]

pub request_at-save_request :
    (f : LeaveRequest → LeaveRequest) (id : ℕ) (requests : List LeaveRequest) (r : LeaveRequest)
    → request_at id requests ≡ some r
    → (f r).id ≡ id
    → request_at id (save_request id f requests) ≡ some (f r)
unfolding save_request
request_at-save_request f id [] r h same_id = cc
request_at-save_request f id (x ∷ xs) r h same_id = elim (Bool-cases (x.id == id)) [
  | inl same ↦
      let e : x ≡ r = some-injective _ _ (rw same at h) in
      rw same (rw e (rw same_id (ground arith)))
  | inr other ↦ rw (other, other) (request_at-save_request f id xs r (rw other at h) same_id)
]

-- What a table sums to over the rows of a measure is at least what one row gives.
pub sum_of-request_at :
    (g : LeaveRequest → ℕ) (id : ℕ) (requests : List LeaveRequest) (r : LeaveRequest)
    → request_at id requests ≡ some r
    → g r ≤ sum_of g requests
sum_of-request_at g id [] r h = cc
sum_of-request_at g id (x ∷ xs) r h = elim (Bool-cases (x.id == id)) [
  | inl same ↦ let e : x ≡ r = some-injective _ _ (rw same at h) in rw (← e) (omega arith)
  | inr other ↦ let rest = sum_of-request_at g id xs r (rw other at h) in omega (arith, rest)
]
