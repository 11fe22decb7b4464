-- ===== src/Leave/Overlap.antt =====
-- No day is taken twice (backend/apps/hr/services/leave.py).
use achr.Prelude.{
  ℕ, ◌+◌, ◌*◌, ◌==◌, ◌≡◌, refl, Bool, true, false, not, ◌&&◌, Option, some, none, List, [], ◌∷◌,
  ◌++◌, arith, Bool-cases, Option-cases, inl, inr, find, ok, err, Outcome, raise_if-eq-ok, str_eq,
  ltb,
}
use achr.Money.{unit}
use achr.Leave.Model.{LeaveRequest, Leaves, Office, LeaveError}
use achr.Leave.{is_blocking, overlaps, assert_no_overlap, check_submission}
use achr.Leave.Workflow.{submitted, approved, forwarded}
use achr.Leave.Withdrawal.{rejected, cancelled}
use achr.Leave.Effects.{
  submit_request-IsSubmitted, approve_step-cases, reject-IsRejected, cancel-IsCancelled,
}
use achr.Leave.Keeping.{
  Step, Steps, done, step, drafts, submits, approves, rejects, cancels, accrues,
}
use achr.Leave.Disjoint.{clash, is_clear, are_disjoint, Clear, found-Clear, save-are_disjoint}

shrunk-Clear :
    (r y : LeaveRequest) (xs : List LeaveRequest)
    → ((x : LeaveRequest) → clash r x ≡ false → clash y x ≡ false)
    → Clear r xs
    → Clear y xs
shrunk-Clear r y [] less clear = tt
shrunk-Clear r y (x ∷ xs) less clear = (less x clear.0, shrunk-Clear r y xs less clear.1)

apart :
    (o : Office) (r x : LeaveRequest) (days : ℕ) (user_id : Option ℕ)
    → overlaps r x ≡ false
    → clash (submitted o r days user_id) x ≡ false
unfolding overlaps
apart o r x days user_id h = ground (arith, h)

-- What the check of a submission has seen.
unclashed-Clear :
    (o : Office) (r : LeaveRequest) (days : ℕ) (user_id : Option ℕ) (xs : List LeaveRequest)
    → find (overlaps r) xs ≡ none
    → Clear (submitted o r days user_id) xs
unfolding overlaps
unclashed-Clear o r days user_id [] h = tt
unclashed-Clear o r days user_id (x ∷ xs) h = elim (Bool-cases (overlaps r x)) [
  | inl hit ↦ let no : some x ≡ none = rw hit at h in cc
  | inr miss ↦ (apart o r x days user_id miss, unclashed-Clear o r days user_id xs (rw miss at h))
]

check_submission-none :
    (o : Office) (r : LeaveRequest) (days : ℕ) (xs : List LeaveRequest)
    → check_submission o r days xs ≡ ok tt
    → find (overlaps r) xs ≡ none
unfolding check_submission assert_no_overlap
check_submission-none o r days xs h =
    let t = o.leave_type_of r.leave_type in
    let (some_, h1) = raise_if-eq-ok (days == 0) LeaveError.no_working_days _ h in
    let (early, h2) =
      raise_if-eq-ok
        (not (t.min_notice_days == 0) && ltb r.start_date (o.today + t.min_notice_days))
        LeaveError.short_notice _ h1 in
    let (attached, h3) =
      raise_if-eq-ok
        (not (t.requires_attachment_after_days == 0)
          && ltb (t.requires_attachment_after_days * unit) days
          && str_eq r.attachment_key "")
        LeaveError.needs_attachment _ h2 in
    elim (Option-cases (find (overlaps r) xs)) [
      | inl missing ↦ missing
      | inr (x, hit) ↦
          let no : ◌≡◌ {A = Outcome LeaveError (Unit {0})} (err LeaveError.overlap) (ok tt) =
            rw (assert_no_overlap, hit) at h3 in
          cc
    ]

idle-apart : (x r : LeaveRequest) → r.status ≡ "draft" → clash x r ≡ false
idle-apart x r draft =
    rw draft (elim (Bool-cases (x.employee == r.employee && is_blocking x.status)) [
      | inl e ↦ ground (arith)
      | inr e ↦ ground (arith)
    ])

clear_parts : (a b : Bool) → (not a && b) ≡ true → (a ≡ false) × (b ≡ true)
clear_parts a b h = ground arith

clear_cons : (a b : Bool) → a ≡ false → b ≡ true → (not a && b) ≡ true
clear_cons a b h k = rw (h, k) refl

append-is_clear :
    (x : LeaveRequest) (xs : List LeaveRequest) (r : LeaveRequest)
    → r.status ≡ "draft"
    → is_clear x xs ≡ true
    → is_clear x (xs ++ (r ∷ [])) ≡ true
append-is_clear x [] r draft h = clear_cons (clash x r) true (idle-apart x r draft) refl
append-is_clear x (z ∷ zs) r draft h =
    let (head, tail) = clear_parts (clash x z) (is_clear x zs) h in
    clear_cons (clash x z) _ head (append-is_clear x zs r draft tail)

append-are_disjoint :
    (xs : List LeaveRequest) (r : LeaveRequest)
    → r.status ≡ "draft"
    → are_disjoint xs ≡ true
    → are_disjoint (xs ++ (r ∷ [])) ≡ true
append-are_disjoint [] r draft h = refl
append-are_disjoint (x ∷ xs) r draft h =
    let rest = append-are_disjoint xs r draft (ground (arith, h)) in
    let front = append-is_clear x xs r draft (ground (arith, h)) in ground (arith, rest, front)

Step-are_disjoint :
    {o : Office} {s s' : Leaves}
    → Step o s s'
    → are_disjoint s.requests ≡ true
    → are_disjoint s'.requests ≡ true
Step-are_disjoint {o} {s} (drafts r draft unapplied) h = append-are_disjoint s.requests r draft h
Step-are_disjoint {o} {s} (submits r user_id q current run) h =
    let (days, (may, checked, enough, row, balances, requests)) =
      submit_request-IsSubmitted o r user_id s q run in
    let clear =
      unclashed-Clear o r days user_id s.requests
        (check_submission-none o r days s.requests checked) in
    rw requests (
      save-are_disjoint (submitted o r days user_id) (λ x. q.0) r.id s.requests r current row clear
        h)
Step-are_disjoint {o} {s} (approves r user comment q current run) h =
    let (waiting, how) = approve_step-cases o r user comment s q run in
    let clear = found-Clear r.id s.requests r h current in
    let live : is_blocking r.status ≡ true = ground (arith, waiting) in
    elim how [
      | inl (row, balances, requests) ↦ rw requests (
          save-are_disjoint (forwarded r) forwarded r.id s.requests r current refl
            (shrunk-Clear r (forwarded r) s.requests (λ x e. ground (arith, e, live)) clear) h)
      | inr (b, (may, applied, row, balances, requests)) ↦ rw requests (
          save-are_disjoint (approved o.now r) (approved o.now) r.id s.requests r current refl
            (shrunk-Clear r (approved o.now r) s.requests (λ x e. ground (arith, e, live)) clear) h)
    ]
Step-are_disjoint {o} {s} (rejects r user reason q current run) h =
    let (may, row, balances, requests) = reject-IsRejected o r user reason s q run in
    let clear = found-Clear r.id s.requests r h current in
    rw requests (
      save-are_disjoint (rejected o.now reason r) (rejected o.now reason) r.id s.requests r current
        refl (shrunk-Clear r (rejected o.now reason r) s.requests (λ x e. ground arith) clear) h)
Step-are_disjoint {o} {s} (cancels r user_id reason q current run) h =
    let (may, row, returned, requests) = cancel-IsCancelled o r user_id reason s q run in
    let clear = found-Clear r.id s.requests r h current in
    rw requests (
      save-are_disjoint (cancelled o.now user_id reason r) (λ x. q.0) r.id s.requests r current row
        (shrunk-Clear r (cancelled o.now user_id reason r) s.requests (λ x e. ground arith) clear)
        h)
Step-are_disjoint {o} {s} (accrues as_of ts es) h = h

-- Whatever calls of the leave workflow succeed, one after the other and each with the request as the
-- table has it: if no two live requests (submitted, pending or approved) of one employee share a day,
-- then none do at the end.
pub Steps-are_disjoint :
    {o : Office} {s s' : Leaves}
    → Steps o s s'
    → are_disjoint s.requests ≡ true
    → are_disjoint s'.requests ≡ true
Steps-are_disjoint done h = h
Steps-are_disjoint (step one rest) h = Steps-are_disjoint rest (Step-are_disjoint one h)
