-- ===== src/Invoices/Settling.antt =====
-- What `apply_payment` leaves, and when it cannot
-- (backend/apps/sales/services/invoice_workflow.py).
use achr.Prelude.{
  ℕ, ◌-◌, ◌≡◌, refl, sym, ap, ◌∙◌, Bool, true, false, not, List, [], ◌∷◌, arith, str_eq, leb, ltb,
  if◌then◌else◌, Bool-cases, inl, inr, update, find, some, ok, err, Outcome, raise_if-eq-ok,
  >>=-eq-ok, ok-injective,
}
use achr.Money.{quantize}
use achr.Ledger.Model.{Date}
use achr.Ledger.Draft.{PostingError}
use achr.Ledger.Posting.{Context}
use achr.Invoices.Model.{Invoice, Sales, InvoiceError, invoice_ok}
use achr.Invoices.{
  is_invoice, save_invoice, may_become, is_late, total_applied, derived_status, repaid,
  is_unpayable, settle, posted, becomes_overdue, no_longer_overdue,
}

-- The amounts that the applications of an invoice come to.
abbrev pub paid_of : Context → Invoice → Sales → ℕ
paid_of c i s = quantize (total_applied c.tenant i.id s.applications) i.currency

abbrev pub due_of : Context → Invoice → Sales → ℕ
due_of c i s = quantize (i.total_amount - paid_of c i s) i.currency

abbrev pub settled : Date → Context → Invoice → Sales → Invoice
settled today c i s = repaid today c.now c.user i (paid_of c i s) (due_of c i s)

abbrev pub IsSettled : Date → Context → Invoice → Sales → Invoice × Sales → Type 0
IsSettled today c i s q =
    (is_unpayable i.status ≡ false)
    × (ltb i.total_amount (paid_of c i s) ≡ false)
    × (invoice_ok (settled today c i s) ≡ true)
    × (q.0 ≡ settled today c i s)
    × (q.1 ≡ record s {
      invoices = update (is_invoice i.tenant i.id) (λ row. settled today c i s) s.invoices;
    })

pub settle-IsSettled :
    (today : Date) (c : Context) (i : Invoice) (s : Sales) (q : Invoice × Sales)
    → settle today c i s ≡ ok q
    → IsSettled today c i s q
unfolding settle save_invoice
settle-IsSettled today c i s q h =
    let i' = settled today c i s in
    let (payable, h1) = raise_if-eq-ok (is_unpayable i.status) InvoiceError.not_payable _ h in
    let (enough, h2) =
      raise_if-eq-ok (ltb i.total_amount (paid_of c i s)) InvoiceError.overpaid _ h1 in
    let (u, may, h3) =
      >>=-eq-ok (if str_eq i'.status i.status then ok tt else may_become i i'.status) _ h2 in
    let (table, saved, h4) = >>=-eq-ok (save_invoice i' s.invoices) _ h3 in
    let (fine, h5) = raise_if-eq-ok (not (invoice_ok i')) InvoiceError.constraint _ saved in
    let rows = sym (ok-injective h5) in
    let e = sym (ok-injective h4) in
    (
      payable,
      enough,
      ground (arith, fine),
      ap (λ q. q.0) e,
      ap (λ q. q.1) e ∙ ap (λ t. record s { invoices = t }) rows,
    )

-- The status that follows from the money is a payable one, and the sweep of the day agrees with it.
pub derived-payable :
    (today : Date) (i : Invoice) (paid due : ℕ)
    → is_unpayable (derived_status today i paid due) ≡ false
unfolding derived_status
derived-payable today i paid due = elim (Bool-cases (leb due 0)) [
  | inl done ↦ rw (derived_status, done) refl
  | inr owing ↦ elim (Bool-cases (is_late today i)) [
    | inl late ↦ rw (derived_status, owing, late) refl
    | inr early ↦ elim (Bool-cases (ltb 0 paid)) [
      | inl part ↦ rw (derived_status, owing, early, part) refl
      | inr unpaid ↦ rw (derived_status, owing, early, unpaid) refl
    ]
  ]
]

pub settled-swept :
    (today : Date) (tenant : ℕ) (i : Invoice)
    → i.status ≡ derived_status today i i.amount_paid i.amount_due
    → (becomes_overdue tenant today i ≡ false) × (no_longer_overdue tenant today i ≡ false)
unfolding derived_status
settled-swept today tenant i h = elim (Bool-cases (leb i.amount_due 0)) [
  | inl done ↦
      let st : i.status ≡ "paid" = h ∙ rw (derived_status, done) refl in
      (rw st (ground arith), rw st (ground arith))
  | inr owing ↦ elim (Bool-cases (is_late today i)) [
    | inl late ↦
        let st : i.status ≡ "overdue" = h ∙ rw (derived_status, owing, late) refl in
        (rw st (ground arith), ground (arith, owing, late))
    | inr early ↦ (
      ground (arith, early),
      elim (Bool-cases (ltb 0 i.amount_paid)) [
        | inl part ↦
            let st : i.status ≡ "partially_paid" =
              h ∙ rw (derived_status, owing, early, part) refl in
            rw st (ground arith)
        | inr unpaid ↦
            let st : i.status ≡ "sent" = h ∙ rw (derived_status, owing, early, unpaid) refl in
            rw st (ground arith)
      ],
    )
  ]
]

-- The row of the invoice in a table where it has been saved, and the table saved once more.
pub find-saved :
    (p : Invoice → Bool) (i j : Invoice) (xs : List Invoice)
    → find p xs ≡ some i
    → p j ≡ true
    → find p (update p (λ row. j) xs) ≡ some j
find-saved p i j [] h e = cc
find-saved p i j (x ∷ xs) h e = elim (Bool-cases (p x)) [
  | inl here ↦ rw (here, e) refl
  | inr there ↦ rw (there, there) (find-saved p i j xs (rw there at h) e)
]

pub update-saved :
    (p : Invoice → Bool) (j : Invoice) (xs : List Invoice)
    → p j ≡ true
    → update p (λ row. j) (update p (λ row. j) xs) ≡ update p (λ row. j) xs
update-saved p j [] h = refl
update-saved p j (x ∷ xs) h = elim (Bool-cases (p x)) [
  | inl here ↦ rw (here, h, update-saved p j xs h) refl
  | inr there ↦ rw (there, there, update-saved p j xs h) refl
]

pub posted-eq-ok {ℓ} :
    {A : Type ℓ} (m : Outcome PostingError A) {a : A} → posted m ≡ ok a → m ≡ ok a
posted-eq-ok (ok a) h = cc
posted-eq-ok (err e) h = cc
