-- ===== src/Invoices/Payments.antt =====
-- What a call of `apply_payment` returns, and when it cannot
-- (backend/apps/sales/services/invoice_workflow.py).
use achr.Prelude.{
  ℕ, ◌≤◌, ◌<◌, ◌≡◌, refl, sym, ap, subst, true, false, List, arith, leb, ltb, update, find, some,
  ok, err, or_raise,
}
use achr.Status.{illegal_transition, assert_can_transition}
use achr.Ledger.Model.{Date}
use achr.Ledger.Posting.{Context}
use achr.Invoices.Model.{Invoice, Sales, InvoiceError}
use achr.Invoices.{
  is_invoice, locked_invoice, may_become, is_late, derived_status, settle, apply_payment,
}
use achr.Invoices.Settling.{paid_of, due_of, find-saved}

pub is_invoice_refl : (i : Invoice) → is_invoice i.tenant i.id i ≡ true
is_invoice_refl i = ground arith

pub locked_saved :
    (tenant id : ℕ) (i k : Invoice) (xs : List Invoice)
    → find (is_invoice tenant id) xs ≡ some i
    → i.tenant ≡ tenant
    → i.id ≡ id
    → is_invoice i.tenant i.id k ≡ true
    → locked_invoice tenant id (update (is_invoice i.tenant i.id) (λ row. k) xs) ≡ ok k
unfolding locked_invoice
locked_saved tenant id i k xs found ours mine kept =
    let found' =
      subst (λ n. find (is_invoice i.tenant n) xs ≡ some i) (sym mine)
        (subst (λ t. find (is_invoice t id) xs ≡ some i) (sym ours) found) in
    subst (λ t. locked_invoice t id (update (is_invoice i.tenant i.id) (λ row. k) xs) ≡ ok k) ours
      (subst
        (λ n. locked_invoice i.tenant n (update (is_invoice i.tenant i.id) (λ row. k) xs) ≡ ok k)
        mine
        (ap (λ o. or_raise o InvoiceError.not_found)
          (find-saved (is_invoice i.tenant i.id) i k xs found' kept)))

illegal_late :
    (i : Invoice)
    → may_become (record i { status = "paid" }) "overdue"
      ≡ err (InvoiceError.transition (illegal_transition "paid" "overdue"))
unfolding may_become assert_can_transition
illegal_late i = refl

-- A payment of a paid invoice cannot be reversed once its due date is past: where what is still applied
-- leaves an amount due, the status that follows from the money is `overdue`, to which `paid` has no
-- transition, and the call raises for that, whatever else the tables hold.
pub apply_payment-reversed_late :
    (today : Date) (c : Context) (id : ℕ) (i : Invoice) (s : Sales)
    → find (is_invoice c.tenant id) s.invoices ≡ some i
    → i.status ≡ "paid"
    → is_late today i ≡ true
    → paid_of c i s ≤ i.total_amount
    → 0 < due_of c i s
    → apply_payment today c id s
      ≡ err (InvoiceError.transition (illegal_transition "paid" "overdue"))
unfolding apply_payment locked_invoice settle derived_status
apply_payment-reversed_late today c id i s found paid late enough owing =
    let positive : leb (due_of c i s) 0 ≡ false = ground (arith, owing) in
    let fits : ltb i.total_amount (paid_of c i s) ≡ false = ground (arith, enough) in
    rw (apply_payment, found, settle, fits, derived_status, positive, late, paid, illegal_late i)
      refl
