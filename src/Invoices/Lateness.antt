-- ===== src/Invoices/Lateness.antt =====
-- The overdue sweep against the money of an invoice
-- (backend/apps/sales/services/invoice_workflow.py).
use achr.Prelude.{
  ℕ, ◌==◌, ◌≡◌, refl, sym, ap, ◌∙◌, subst, String, Bool, true, false, not, ◌&&◌, List, [], ◌∷◌, map,
  arith, eq_iff, str_eq, leb, ltb, if◌then◌else◌, Bool-cases, inl, inr, update, filter, length,
}
use achr.Status.{contains}
use achr.Ledger.Model.{Date}
use achr.Invoices.Model.{Invoice}
use achr.Invoices.{
  is_late, status_after_overdue, becomes_overdue, no_longer_overdue, refresh_overdue_status,
}

-- The statuses of an invoice whose balance is open.
abbrev pub is_open : String → Bool
is_open status = contains status ("sent" ∷ "partially_paid" ∷ "overdue" ∷ [])

-- What one look at an invoice says of its status on a day: an open one with a balance is overdue if and
-- only if it is late; one that is overdue no more has the status of its money.
abbrev pub rederived : ℕ → Date → Invoice → Invoice
rederived tenant as_of i = record i {
  status =
      if i.tenant == tenant && is_open i.status
      then (if is_late as_of i && ltb 0 i.amount_due
          then "overdue"
          else if str_eq "overdue" i.status
          then status_after_overdue i
          else i.status)
      else i.status;
}

-- A row under the first update, and under the second.
abbrev first_pass : ℕ → Date → Invoice → Invoice
first_pass tenant as_of i = record i {
  status = if becomes_overdue tenant as_of i then "overdue" else i.status;
}

abbrev second_pass : ℕ → Date → Invoice → Invoice
second_pass tenant as_of i = record i {
  status = if no_longer_overdue tenant as_of i then status_after_overdue i else i.status;
}

status_pass :
    (b : Bool) (i : Invoice) (new : String)
    → (if b then record i { status = new } else i)
      ≡ record i { status = if b then new else i.status }
status_pass true i new = refl
status_pass false i new = refl

update_passes :
    (p : Invoice → Bool) (new : Invoice → String) (invoices : List Invoice)
    → update p (λ i. record i { status = new i }) invoices
      ≡ map {A = Invoice} (λ i. record i { status = if p i then new i else i.status }) invoices
update_passes p new [] = refl
update_passes p new (i ∷ is) = rw (status_pass (p i) i (new i), update_passes p new is) refl

passes_status :
    (tenant : ℕ) (as_of : Date) (i : Invoice)
    → (second_pass tenant as_of (first_pass tenant as_of i)).status
      ≡ (rederived tenant as_of i).status
unfolding status_after_overdue
passes_status tenant as_of i =
    ground
      (arith, eq_iff "sent" i.status, eq_iff "partially_paid" i.status, eq_iff "overdue" i.status)

map-map : (f g : Invoice → Invoice) (xs : List Invoice) → map g (map f xs) ≡ map (λ i. g (f i)) xs
map-map f g [] = refl
map-map f g (x ∷ xs) = ap (λ r. g (f x) ∷ r) (map-map f g xs)

map_same :
    (f g : Invoice → Invoice) (xs : List Invoice)
    → ((i : Invoice) → f i ≡ g i)
    → map f xs ≡ map g xs
map_same f g [] same = refl
map_same f g (x ∷ xs) same = rw (same x, map_same f g xs same) refl

-- The two updates in a row come to one pass over the table, which looks at each invoice once: of the
-- tenant's open invoices, the late ones with a balance become overdue, and an overdue one that is not
-- late or has no balance gets the status of its money; all other columns and rows stay.
pub refresh_overdue_status-rederived :
    (tenant : ℕ) (as_of : Date) (invoices : List Invoice)
    → (refresh_overdue_status tenant as_of invoices).2 ≡ map (rederived tenant as_of) invoices
unfolding refresh_overdue_status
refresh_overdue_status-rederived tenant as_of invoices =
    let late : List Invoice =
      update (becomes_overdue tenant as_of) (λ i. record i { status = "overdue" }) invoices in
    update_passes (no_longer_overdue tenant as_of) status_after_overdue late
    ∙ ap (map (second_pass tenant as_of))
        (update_passes (becomes_overdue tenant as_of) (λ i. "overdue") invoices)
    ∙ map-map (first_pass tenant as_of) (second_pass tenant as_of) invoices
    ∙ map_same _ _ invoices
        (λ i. ap (λ st. record i { status = st }) (passes_status tenant as_of i))

after-not_overdue : (i : Invoice) → str_eq "overdue" (status_after_overdue i) ≡ false
unfolding status_after_overdue
after-not_overdue i = elim (Bool-cases (leb i.amount_due 0)) [
  | inl settled ↦ rw (status_after_overdue, settled) refl
  | inr open_ ↦ elim (Bool-cases (ltb 0 i.amount_paid)) [
    | inl some_paid ↦ rw (status_after_overdue, open_, some_paid) refl
    | inr unpaid ↦ rw (status_after_overdue, open_, unpaid) refl
  ]
]

-- A row that the sweep has passed is not written again.
settled-not_late :
    (tenant : ℕ) (as_of : Date) (i : Invoice)
    → (becomes_overdue tenant as_of (rederived tenant as_of i) ≡ false)
      × (no_longer_overdue tenant as_of (rederived tenant as_of i) ≡ false)
settled-not_late tenant as_of i = elim (Bool-cases (is_late as_of i && ltb 0 i.amount_due)) [
  | inl owing ↦ (
    elim (Bool-cases (i.tenant == tenant && is_open i.status)) [
      | inl inside ↦ rw (inside, owing) (ground arith)
      | inr outside ↦ rw outside (ground (arith, outside))
    ],
    ground (arith, owing),
  )
  | inr unowing ↦ (
    ground (arith, unowing),
    elim (Bool-cases (i.tenant == tenant && is_open i.status)) [
      | inr outside ↦ rw outside (ground (arith, outside))
      | inl inside ↦ elim (Bool-cases (str_eq "overdue" i.status)) [
        | inl was ↦ rw (inside, unowing, was, after-not_overdue i) (ground arith)
        | inr was ↦ rw (inside, unowing, was, was) (ground arith)
      ]
    ],
  )
]

-- None of a table's rows meets a test.
abbrev none_of : (Invoice → Bool) → List Invoice → Bool
none_of p [] = true
none_of p (i ∷ is) = not (p i) && none_of p is

update-none_of :
    (p : Invoice → Bool) (f : Invoice → Invoice) (xs : List Invoice)
    → none_of p xs ≡ true
    → update p f xs ≡ xs
update-none_of p f [] h = refl
update-none_of p f (x ∷ xs) h =
    let here : p x ≡ false = ground (arith, h) in
    let rest : none_of p xs ≡ true = ground (arith, h) in rw (here, update-none_of p f xs rest) refl

filter-none_of :
    (p : Invoice → Bool) (xs : List Invoice) → none_of p xs ≡ true → length (filter p xs) ≡ 0
filter-none_of p [] h = refl
filter-none_of p (x ∷ xs) h =
    let here : p x ≡ false = ground (arith, h) in
    let rest : none_of p xs ≡ true = ground (arith, h) in rw here (filter-none_of p xs rest)

none_of-rederived :
    (p : Invoice → Bool) (f : Invoice → Invoice) (xs : List Invoice)
    → ((i : Invoice) → p (f i) ≡ false)
    → none_of p (map f xs) ≡ true
none_of-rederived p f [] never = refl
none_of-rederived p f (x ∷ xs) never = rw (never x, none_of-rederived p f xs never) refl

quiet :
    (tenant : ℕ) (as_of : Date) (xs : List Invoice)
    → none_of (becomes_overdue tenant as_of) xs ≡ true
    → none_of (no_longer_overdue tenant as_of) xs ≡ true
    → refresh_overdue_status tenant as_of xs ≡ (0, 0, xs)
unfolding refresh_overdue_status
quiet tenant as_of xs late lifted =
    rw
      (
        refresh_overdue_status,
        update-none_of (becomes_overdue tenant as_of) (λ i. record i { status = "overdue" }) xs
            late,
        update-none_of (no_longer_overdue tenant as_of)
            (λ i. record i { status = status_after_overdue i }) xs lifted,
        filter-none_of (becomes_overdue tenant as_of) xs late,
        filter-none_of (no_longer_overdue tenant as_of) xs lifted,
      )
      refl

-- The sweep is idempotent: a second run for the same day writes no row by either of its updates, and
-- leaves the table as it is.
pub refresh_overdue_status_again :
    (tenant : ℕ) (as_of : Date) (invoices : List Invoice)
    → refresh_overdue_status tenant as_of (refresh_overdue_status tenant as_of invoices).2
      ≡ (0, 0, (refresh_overdue_status tenant as_of invoices).2)
unfolding refresh_overdue_status
refresh_overdue_status_again tenant as_of invoices =
    let swept = map (rederived tenant as_of) invoices in
    let late =
      none_of-rederived (becomes_overdue tenant as_of) (rederived tenant as_of) invoices
        (λ i. (settled-not_late tenant as_of i).0) in
    let lifted =
      none_of-rederived (no_longer_overdue tenant as_of) (rederived tenant as_of) invoices
        (λ i. (settled-not_late tenant as_of i).1) in
    subst (λ t. refresh_overdue_status tenant as_of t ≡ (0, 0, t))
      (sym (refresh_overdue_status-rederived tenant as_of invoices))
      (quiet tenant as_of swept late lifted)
