-- ===== src/Status/Documents.antt =====
-- The `Status` values and the `ALLOWED_TRANSITIONS` of the document types (models.py of each app under
-- backend/apps), each row a status and those that it may become, in the order of the source.
use achr.Prelude.{[], ◌∷◌}
use achr.Status.{Transitions}

-- backend/apps/sales/models.py
abbrev pub invoice_transitions : Transitions
invoice_transitions =
    ("draft", "sent" ∷ "voided" ∷ [])
    ∷ ("sent", "partially_paid" ∷ "paid" ∷ "overdue" ∷ "voided" ∷ "written_off" ∷ [])
    ∷ ("partially_paid", "paid" ∷ "overdue" ∷ "sent" ∷ "written_off" ∷ [])
    ∷ ("overdue", "sent" ∷ "partially_paid" ∷ "paid" ∷ "written_off" ∷ "voided" ∷ [])
    ∷ ("paid", "partially_paid" ∷ "sent" ∷ [])
    ∷ ("voided", [])
    ∷ ("written_off", [])
    ∷ []

-- backend/apps/sales/models.py
abbrev pub credit_note_transitions : Transitions
credit_note_transitions =
    ("draft", "issued" ∷ "voided" ∷ [])
    ∷ ("issued", "applied" ∷ "voided" ∷ [])
    ∷ ("applied", "issued" ∷ [])
    ∷ ("voided", [])
    ∷ []

-- backend/apps/projects/models.py
abbrev pub project_transitions : Transitions
project_transitions =
    ("draft", "active" ∷ "cancelled" ∷ [])
    ∷ ("active", "on_hold" ∷ "completed" ∷ "cancelled" ∷ [])
    ∷ ("on_hold", "active" ∷ "completed" ∷ "cancelled" ∷ [])
    ∷ ("completed", "active" ∷ "archived" ∷ [])
    ∷ ("cancelled", "archived" ∷ [])
    ∷ ("archived", [])
    ∷ []

-- backend/apps/projects/models.py
abbrev pub project_task_transitions : Transitions
project_task_transitions =
    ("todo", "in_progress" ∷ "blocked" ∷ "cancelled" ∷ [])
    ∷ ("in_progress", "blocked" ∷ "done" ∷ "cancelled" ∷ [])
    ∷ ("blocked", "in_progress" ∷ "cancelled" ∷ [])
    ∷ ("done", "in_progress" ∷ [])
    ∷ ("cancelled", [])
    ∷ []

-- backend/apps/projects/models.py
abbrev pub timesheet_entry_transitions : Transitions
timesheet_entry_transitions =
    ("draft", "submitted" ∷ [])
    ∷ ("submitted", "approved" ∷ "rejected" ∷ "draft" ∷ [])
    ∷ ("approved", "invoiced" ∷ "submitted" ∷ [])
    ∷ ("rejected", "draft" ∷ [])
    ∷ ("invoiced", [])
    ∷ []

-- backend/apps/projects/models.py
abbrev pub project_milestone_transitions : Transitions
project_milestone_transitions =
    ("planned", "in_progress" ∷ "cancelled" ∷ [])
    ∷ ("in_progress", "delivered" ∷ "cancelled" ∷ [])
    ∷ ("delivered", "accepted" ∷ "in_progress" ∷ "cancelled" ∷ [])
    ∷ ("accepted", "invoiced" ∷ [])
    ∷ ("invoiced", [])
    ∷ ("cancelled", [])
    ∷ []

-- backend/apps/hr/models.py
abbrev pub employee_transitions : Transitions
employee_transitions =
    ("active", "on_leave" ∷ "suspended" ∷ "terminated" ∷ "resigned" ∷ [])
    ∷ ("on_leave", "active" ∷ "suspended" ∷ "terminated" ∷ "resigned" ∷ [])
    ∷ ("suspended", "active" ∷ "terminated" ∷ "resigned" ∷ [])
    ∷ ("terminated", [])
    ∷ ("resigned", [])
    ∷ []

-- backend/apps/hr/models.py
abbrev pub leave_request_transitions : Transitions
leave_request_transitions =
    ("draft", "submitted" ∷ "cancelled" ∷ [])
    ∷ ("submitted", "pending_manager" ∷ "pending_hr" ∷ "approved" ∷ "rejected" ∷ "cancelled" ∷ [])
    ∷ ("pending_manager", "pending_hr" ∷ "approved" ∷ "rejected" ∷ "cancelled" ∷ [])
    ∷ ("pending_hr", "approved" ∷ "rejected" ∷ "cancelled" ∷ [])
    ∷ ("approved", "cancelled" ∷ [])
    ∷ ("rejected", [])
    ∷ ("cancelled", [])
    ∷ []

-- backend/apps/hr/models.py
abbrev pub overtime_slip_transitions : Transitions
overtime_slip_transitions =
    ("draft", "submitted" ∷ [])
    ∷ ("submitted", "approved" ∷ "rejected" ∷ "draft" ∷ [])
    ∷ ("approved", "paid" ∷ [])
    ∷ ("rejected", "draft" ∷ [])
    ∷ ("paid", [])
    ∷ []

-- backend/apps/payroll/models.py
abbrev pub payroll_run_transitions : Transitions
payroll_run_transitions =
    ("draft", "calculating" ∷ "cancelled" ∷ [])
    ∷ ("calculating", "calculated" ∷ "draft" ∷ "cancelled" ∷ [])
    ∷ ("calculated", "pending_approval" ∷ "calculating" ∷ "cancelled" ∷ [])
    ∷ ("pending_approval", "approved" ∷ "calculated" ∷ "cancelled" ∷ [])
    ∷ ("approved", "posted" ∷ "cancelled" ∷ [])
    ∷ ("posted", "paid" ∷ [])
    ∷ ("paid", [])
    ∷ ("cancelled", [])
    ∷ []

-- backend/apps/payroll/models.py
abbrev pub payroll_bank_file_transitions : Transitions
payroll_bank_file_transitions =
    ("draft", "generated" ∷ "cancelled" ∷ [])
    ∷ ("generated", "sent" ∷ "cancelled" ∷ [])
    ∷ ("sent", "confirmed" ∷ "rejected" ∷ [])
    ∷ ("confirmed", [])
    ∷ ("rejected", [])
    ∷ ("cancelled", [])
    ∷ []

-- backend/apps/expenses/models.py
abbrev pub expense_transitions : Transitions
expense_transitions =
    ("draft", "submitted" ∷ [])
    ∷ ("submitted", "approved" ∷ "rejected" ∷ "draft" ∷ [])
    ∷ ("approved", "reimbursed" ∷ "rejected" ∷ [])
    ∷ ("rejected", "draft" ∷ [])
    ∷ ("reimbursed", [])
    ∷ []

-- backend/apps/expenses/models.py
abbrev pub bill_transitions : Transitions
bill_transitions =
    ("draft", "awaiting_approval" ∷ "voided" ∷ [])
    ∷ ("awaiting_approval", "approved" ∷ "draft" ∷ "voided" ∷ [])
    ∷ ("approved", "partially_paid" ∷ "paid" ∷ "overdue" ∷ "voided" ∷ [])
    ∷ ("partially_paid", "paid" ∷ "overdue" ∷ "approved" ∷ [])
    ∷ ("overdue", "partially_paid" ∷ "paid" ∷ "approved" ∷ [])
    ∷ ("paid", "partially_paid" ∷ [])
    ∷ ("voided", [])
    ∷ []

-- backend/apps/expenses/models.py
abbrev pub bill_payment_transitions : Transitions
bill_payment_transitions =
    ("scheduled", "paid" ∷ "failed" ∷ "cancelled" ∷ [])
    ∷ ("paid", "failed" ∷ [])
    ∷ ("failed", "scheduled" ∷ "cancelled" ∷ [])
    ∷ ("cancelled", [])
    ∷ []

-- backend/apps/expenses/models.py
abbrev pub vendor_credit_transitions : Transitions
vendor_credit_transitions =
    ("draft", "open" ∷ "voided" ∷ [])
    ∷ ("open", "partially_applied" ∷ "applied" ∷ "voided" ∷ [])
    ∷ ("partially_applied", "applied" ∷ "open" ∷ [])
    ∷ ("applied", "partially_applied" ∷ [])
    ∷ ("voided", [])
    ∷ []

-- backend/apps/inventory/models.py
abbrev pub stock_adjustment_transitions : Transitions
stock_adjustment_transitions =
    ("draft", "approved" ∷ "cancelled" ∷ [])
    ∷ ("approved", "posted" ∷ "cancelled" ∷ "draft" ∷ [])
    ∷ ("posted", [])
    ∷ ("cancelled", [])
    ∷ []

-- backend/apps/iam/models.py
abbrev pub invitation_transitions : Transitions
invitation_transitions =
    ("pending", "accepted" ∷ "revoked" ∷ "expired" ∷ [])
    ∷ ("accepted", [])
    ∷ ("revoked", [])
    ∷ ("expired", [])
    ∷ []

-- backend/apps/payments/models.py
abbrev pub payment_transitions : Transitions
payment_transitions =
    ("pending", "authorized" ∷ "captured" ∷ "failed" ∷ [])
    ∷ ("authorized", "captured" ∷ "failed" ∷ [])
    ∷ ("captured", "settled" ∷ "refunded" ∷ "partially_refunded" ∷ "disputed" ∷ "failed" ∷ [])
    ∷ ("settled", "refunded" ∷ "partially_refunded" ∷ "disputed" ∷ [])
    ∷ ("partially_refunded", "refunded" ∷ "disputed" ∷ [])
    ∷ ("disputed", "captured" ∷ "settled" ∷ "refunded" ∷ [])
    ∷ ("failed", [])
    ∷ ("refunded", [])
    ∷ []

-- backend/apps/payments/models.py
abbrev pub refund_transitions : Transitions
refund_transitions =
    ("pending", "succeeded" ∷ "failed" ∷ "cancelled" ∷ [])
    ∷ ("succeeded", [])
    ∷ ("failed", [])
    ∷ ("cancelled", [])
    ∷ []

-- backend/apps/payments/models.py
abbrev pub webhook_event_transitions : Transitions
webhook_event_transitions =
    ("received", "processing" ∷ "ignored" ∷ [])
    ∷ ("processing", "processed" ∷ "failed" ∷ "ignored" ∷ [])
    ∷ ("failed", "processing" ∷ "ignored" ∷ [])
    ∷ ("processed", [])
    ∷ ("ignored", [])
    ∷ []

-- backend/apps/banking/models.py
abbrev pub bank_transaction_transitions : Transitions
bank_transaction_transitions =
    ("unmatched", "suggested" ∷ "matched" ∷ "ignored" ∷ "manual" ∷ [])
    ∷ ("suggested", "matched" ∷ "unmatched" ∷ "ignored" ∷ "manual" ∷ [])
    ∷ ("matched", "unmatched" ∷ [])
    ∷ ("ignored", "unmatched" ∷ [])
    ∷ ("manual", "matched" ∷ "unmatched" ∷ [])
    ∷ []

-- backend/apps/banking/models.py
abbrev pub reconciliation_session_transitions : Transitions
reconciliation_session_transitions =
    ("in_progress", "balanced" ∷ [])
    ∷ ("balanced", "closed" ∷ "in_progress" ∷ [])
    ∷ ("closed", [])
    ∷ []
