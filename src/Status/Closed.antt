-- ===== src/Status/Closed.antt =====
-- Where the calls of `transition` can lead (backend/apps/core/models.py).
use achr.Prelude.{
  ℕ, ◌≡◌, refl, String, Bool, true, ◌&&◌, ◌||◌, not, Option, List, [], ◌∷◌, arith, eq_iff,
  Bool-cases, inl, inr, ◌⊎◌, none, some,
}
use achr.Status.{
  Transitions, contains, get, Document, assert_can_transition, transition, attempt, attempt_all,
  set_user,
}
use achr.Status.Documents.{
  bank_transaction_transitions, bill_payment_transitions, bill_transitions, credit_note_transitions,
  employee_transitions, expense_transitions, invoice_transitions, leave_request_transitions,
  overtime_slip_transitions, payment_transitions, payroll_bank_file_transitions,
  payroll_run_transitions, project_milestone_transitions, project_task_transitions,
  project_transitions, reconciliation_session_transitions, refund_transitions,
  stock_adjustment_transitions, timesheet_entry_transitions, vendor_credit_transitions,
  webhook_event_transitions,
}

-- All of xs are among ys.
abbrev pub all_in : List String → List String → Bool
all_in [] ys = true
all_in (x ∷ xs) ys = contains x ys && all_in xs ys

-- No row leads out of the statuses of a list.
abbrev pub is_closed : Transitions → List String → Bool
is_closed [] zone = true
is_closed ((k, v) ∷ r) zone = (not (contains k zone) || all_in v zone) && is_closed r zone

contains-all_in :
    (s : String) (xs ys : List String)
    → all_in xs ys ≡ true
    → contains s xs ≡ true
    → contains s ys ≡ true
contains-all_in s [] ys h m = cc
contains-all_in s (x ∷ xs) ys h m = ground (arith, eq_iff x s, contains-all_in s xs ys)

get-all_in :
    (t : Transitions) (zone : List String) (status : String)
    → is_closed t zone ≡ true
    → contains status zone ≡ true
    → all_in (get t status) zone ≡ true
get-all_in [] zone status h m = refl
get-all_in ((k, v) ∷ r) zone status h m = ground (arith, eq_iff k status, get-all_in r zone status)

-- Who is noted as the caller does not touch the status.
set_user-status : (user_id : Option ℕ) (d : Document) → (set_user user_id d).1.status ≡ d.status
set_user-status none d = refl
set_user-status (some user) d = refl

-- A call that is allowed arrives; one that is refused has written nothing.
attempt-cases :
    (t : Transitions) (d : Document) (new_status : String) (user_id : Option ℕ)
    → ((contains new_status (get t d.status) ≡ true)
        × ((attempt t d new_status user_id).status ≡ new_status))
      ⊎ (attempt t d new_status user_id ≡ d)
unfolding attempt transition assert_can_transition
attempt-cases t d new_status user_id = elim (Bool-cases (contains new_status (get t d.status))) [
  | inl allowed ↦
      let arrived = set_user-status user_id (record d { status = new_status }) in
      inl (allowed, rw (allowed, attempt, transition, assert_can_transition) arrived)
  | inr refused ↦ inr (rw (refused, attempt, transition, assert_can_transition) refl)
]

attempt-stays :
    (t : Transitions) (zone : List String) (d : Document) (new_status : String) (user_id : Option ℕ)
    → is_closed t zone ≡ true
    → contains d.status zone ≡ true
    → contains (attempt t d new_status user_id).status zone ≡ true
attempt-stays t zone d new_status user_id closed inside =
    let targets = get-all_in t zone d.status closed inside in
    elim (attempt-cases t d new_status user_id) [
      | inl (allowed, arrived) ↦
          rw arrived (contains-all_in new_status (get t d.status) zone targets allowed)
      | inr unchanged ↦ rw unchanged inside
    ]

-- No list of calls leads out of statuses that no row leads out of.
pub attempt_all-stays :
    (t : Transitions) (zone : List String) (d : Document) (calls : List (String × Option ℕ))
    → is_closed t zone ≡ true
    → contains d.status zone ≡ true
    → contains (attempt_all t d calls).status zone ≡ true
unfolding attempt_all
attempt_all-stays t zone d [] closed inside = inside
attempt_all-stays t zone d ((new_status, user_id) ∷ calls) closed inside =
    attempt_all-stays t zone (attempt t d new_status user_id) calls closed
      (attempt-stays t zone d new_status user_id closed inside)

-- The document types that share the mixin.
pub data DocumentKind : Type 0 where
  invoice credit_note bill bill_payment vendor_credit expense payment refund webhook_event
        payroll_run payroll_bank_file overtime_slip employee leave_request project project_task
        project_milestone timesheet_entry stock_adjustment bank_transaction reconciliation_session :
      DocumentKind

unfoldable pub transitions_of : DocumentKind → Transitions
transitions_of invoice = invoice_transitions
transitions_of credit_note = credit_note_transitions
transitions_of bill = bill_transitions
transitions_of bill_payment = bill_payment_transitions
transitions_of vendor_credit = vendor_credit_transitions
transitions_of expense = expense_transitions
transitions_of payment = payment_transitions
transitions_of refund = refund_transitions
transitions_of webhook_event = webhook_event_transitions
transitions_of payroll_run = payroll_run_transitions
transitions_of payroll_bank_file = payroll_bank_file_transitions
transitions_of overtime_slip = overtime_slip_transitions
transitions_of employee = employee_transitions
transitions_of leave_request = leave_request_transitions
transitions_of project = project_transitions
transitions_of project_task = project_task_transitions
transitions_of project_milestone = project_milestone_transitions
transitions_of timesheet_entry = timesheet_entry_transitions
transitions_of stock_adjustment = stock_adjustment_transitions
transitions_of bank_transaction = bank_transaction_transitions
transitions_of reconciliation_session = reconciliation_session_transitions

-- The statuses of a type that are left, if at all, only for one another.
unfoldable pub settled : DocumentKind → List String
settled invoice = "sent" ∷ "partially_paid" ∷ "paid" ∷ "overdue" ∷ "voided" ∷ "written_off" ∷ []
settled credit_note = "issued" ∷ "applied" ∷ "voided" ∷ []
settled bill = "approved" ∷ "partially_paid" ∷ "paid" ∷ "overdue" ∷ "voided" ∷ []
settled bill_payment = "cancelled" ∷ []
settled vendor_credit = "open" ∷ "partially_applied" ∷ "applied" ∷ "voided" ∷ []
settled expense = "reimbursed" ∷ []
settled payment =
    "captured" ∷ "settled" ∷ "failed" ∷ "refunded" ∷ "partially_refunded" ∷ "disputed" ∷ []
settled refund = "succeeded" ∷ []
settled webhook_event = "processed" ∷ "ignored" ∷ []
settled payroll_run = "posted" ∷ "paid" ∷ []
settled payroll_bank_file = "sent" ∷ "confirmed" ∷ "rejected" ∷ []
settled overtime_slip = "approved" ∷ "paid" ∷ []
settled employee = "terminated" ∷ "resigned" ∷ []
settled leave_request =
    "submitted" ∷ "pending_manager" ∷ "pending_hr" ∷ "approved" ∷ "rejected" ∷ "cancelled" ∷ []
settled project = "active" ∷ "on_hold" ∷ "completed" ∷ "cancelled" ∷ "archived" ∷ []
settled project_task = "in_progress" ∷ "blocked" ∷ "done" ∷ "cancelled" ∷ []
settled project_milestone = "accepted" ∷ "invoiced" ∷ []
settled timesheet_entry = "invoiced" ∷ []
settled stock_adjustment = "posted" ∷ []
settled bank_transaction = "unmatched" ∷ "suggested" ∷ "matched" ∷ "ignored" ∷ "manual" ∷ []
settled reconciliation_session = "closed" ∷ []

settled-is_closed : (kind : DocumentKind) → is_closed (transitions_of kind) (settled kind) ≡ true
unfolding transitions_of settled
settled-is_closed invoice = refl
settled-is_closed credit_note = refl
settled-is_closed bill = refl
settled-is_closed bill_payment = refl
settled-is_closed vendor_credit = refl
settled-is_closed expense = refl
settled-is_closed payment = refl
settled-is_closed refund = refl
settled-is_closed webhook_event = refl
settled-is_closed payroll_run = refl
settled-is_closed payroll_bank_file = refl
settled-is_closed overtime_slip = refl
settled-is_closed employee = refl
settled-is_closed leave_request = refl
settled-is_closed project = refl
settled-is_closed project_task = refl
settled-is_closed project_milestone = refl
settled-is_closed timesheet_entry = refl
settled-is_closed stock_adjustment = refl
settled-is_closed bank_transaction = refl
settled-is_closed reconciliation_session = refl

-- Whatever `transition` calls follow, refused ones included, a document in a settled status of its
-- type stays within the settled ones: an invoice that was sent or voided, an issued credit note and
-- an approved bill never return to draft; a posted payroll run is posted or paid for ever; a posted
-- stock adjustment, an invoiced timesheet entry, a succeeded refund, a closed reconciliation keep
-- their status; and so on, by the list of each type.
pub attempt_all-settled :
    (kind : DocumentKind) (d : Document) (calls : List (String × Option ℕ))
    → contains d.status (settled kind) ≡ true
    → contains (attempt_all (transitions_of kind) d calls).status (settled kind) ≡ true
attempt_all-settled kind d calls inside =
    attempt_all-stays (transitions_of kind) (settled kind) d calls (settled-is_closed kind) inside
