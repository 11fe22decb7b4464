-- ===== src/Invoices/Sums.antt =====
-- What the lines of an issuing entry sum to (backend/apps/sales/services/invoice_workflow.py).
use achr.Prelude.{
  ℕ, ◌+◌, ◌*◌, ◌==◌, ◌≡◌, sym, ap, ◌∙◌, String, some, none, List, [], ◌∷◌, All, sum_of, arith, leb,
  not, ◌||◌, if◌then◌else◌, Bool-cases, Option-cases, inl, inr, clip, ok, raise_if-eq-ok, >>=-eq-ok,
  ok-injective,
}
use achr.Prelude.Int.{pos, ltb_ℤ}
use achr.Money.{quantize, minor}
use achr.Money.Rounding.{quantize-minor}
use achr.Ledger.Model.{Dimensions}
use achr.Ledger.Draft.{LineDraft, check_line, negative_line, two_sided_line}
use achr.Ledger.Corrections.{Printing}
use achr.Invoices.Model.{Invoice, InvoiceLine, TaxRate}
use achr.Invoices.Issuing.{
  credit_line, of_customer, income_lines, TaxGroup, add_tax, tax_by_account, tax_lines,
}

abbrev pub debits : List LineDraft → ℕ
debits ls = sum_of (λ (l : LineDraft). l.debit) ls

abbrev pub credits : List LineDraft → ℕ
credits ls = sum_of (λ (l : LineDraft). l.credit) ls

-- An amount of a whole number of minor units.
unfoldable pub IsWholeAmount : String → ℕ → Type 0
IsWholeAmount currency n = (k : ℕ) × (n ≡ k * minor currency)

pub whole-quantize :
    (currency : String) (n : ℕ) → IsWholeAmount currency n → quantize n currency ≡ n
unfolding IsWholeAmount
whole-quantize currency n (k, e) =
    ap (λ x. quantize x currency) e ∙ quantize-minor k currency ∙ sym e

whole_add :
    (currency : String) (a b : ℕ)
    → IsWholeAmount currency a
    → IsWholeAmount currency b
    → IsWholeAmount currency (a + b)
unfolding IsWholeAmount
whole_add currency a b (k, e) (j, f) = (k + j, omega (arith, e, f))

pub line-sides :
    (account d c : ℕ) (description : String) (dims : Dimensions) (l : LineDraft)
    → check_line account (pos d) (pos c) description dims ≡ ok l
    → (l.debit ≡ d) × (l.credit ≡ c)
unfolding check_line
line-sides account d c description dims l h =
    let (signs, h1) =
      raise_if-eq-ok (ltb_ℤ (pos d) (pos 0) || ltb_ℤ (pos c) (pos 0)) negative_line _ h in
    let (sides, h2) =
      raise_if-eq-ok
        (if ltb_ℤ (pos 0) (pos d) then ltb_ℤ (pos 0) (pos c) else not (ltb_ℤ (pos 0) (pos c)))
        two_sided_line _ h1 in
    let e = sym (ok-injective h2) in
    (ap (λ (l : LineDraft). l.debit) e, ap (λ (l : LineDraft). l.credit) e)

pub income-sums :
    (i : Invoice) (lines : List InvoiceLine) (ds : List LineDraft)
    → All (λ l. IsWholeAmount i.currency l.line_subtotal) lines
    → income_lines i lines ≡ ok ds
    → (debits ds ≡ 0) × (credits ds ≡ sum_of (λ (l : InvoiceLine). l.line_subtotal) lines)
unfolding income_lines
income-sums i [] ds whole h = let e = sym (ok-injective h) in (ap debits e, ap credits e)
income-sums i (l ∷ ls) ds whole h = elim (Bool-cases (leb l.line_subtotal 0)) [
  | inl free ↦
      let (d, c) = income-sums i ls ds whole.1 (rw (income_lines, free) at h) in
      let zero_ : l.line_subtotal ≡ 0 = ground (arith, free) in (d, omega (arith, c, zero_))
  | inr charged ↦
      let (x, made, h1) =
        >>=-eq-ok
          (credit_line l.income_account_id (quantize l.line_subtotal i.currency)
            (clip 500 l.description)
            (of_customer i (elim l.project_id [ some p ↦ some p | none ↦ i.project_id ]) none))
          _ (rw (income_lines, charged) at h) in
      let (rest, others, h2) = >>=-eq-ok (income_lines i ls) _ h1 in
      let (d, c) = income-sums i ls rest whole.1 others in
      let (xd, xc) =
        line-sides l.income_account_id 0 (quantize l.line_subtotal i.currency) _ _ x made in
      let round = whole-quantize i.currency l.line_subtotal whole.0 in
      let e = sym (ok-injective h2) in
      (ap debits e ∙ omega (arith, xd, d), ap credits e ∙ omega (arith, xc, round, c))
]

-- The tax that a line charges.
abbrev pub taxed : InvoiceLine → ℕ
taxed l = elim l.tax_rate [ none ↦ 0 | some rate ↦ l.line_tax ]

abbrev amounts : List TaxGroup → ℕ
amounts gs = sum_of (λ (g : TaxGroup). g.amount) gs

add_tax-sum :
    (rate : TaxRate) (amount : ℕ) (gs : List TaxGroup)
    → amounts (add_tax rate amount gs) ≡ amounts gs + amount
unfolding add_tax
add_tax-sum rate amount [] = omega arith
add_tax-sum rate amount (g ∷ gs) = elim (Bool-cases (g.account == rate.collected_account_id)) [
  | inl same ↦ rw (add_tax, same) (omega arith)
  | inr other ↦ let rest = add_tax-sum rate amount gs in rw (add_tax, other) (omega (arith, rest))
]

add_tax-whole :
    (currency : String) (rate : TaxRate) (amount : ℕ) (gs : List TaxGroup)
    → IsWholeAmount currency amount
    → All (λ (g : TaxGroup). IsWholeAmount currency g.amount) gs
    → All (λ (g : TaxGroup). IsWholeAmount currency g.amount) (add_tax rate amount gs)
unfolding add_tax
add_tax-whole currency rate amount [] whole all = (whole, tt)
add_tax-whole currency rate amount (g ∷ gs) whole all =
    elim (Bool-cases (g.account == rate.collected_account_id)) [
      | inl same ↦ rw (add_tax, same) (whole_add currency g.amount amount all.0 whole, all.1)
      | inr other ↦ rw (add_tax, other) (all.0, add_tax-whole currency rate amount gs whole all.1)
    ]

-- The groups after one line.
abbrev grouped : InvoiceLine → List TaxGroup → List TaxGroup
grouped l groups = elim l.tax_rate [
  | none ↦ groups
  | some rate ↦ if leb l.line_tax 0 then groups else add_tax rate l.line_tax groups
]

grouped-sum : (l : InvoiceLine) (gs : List TaxGroup) → amounts (grouped l gs) ≡ amounts gs + taxed l
grouped-sum l gs = elim (Option-cases l.tax_rate) [
  | inl free ↦ rw free (omega arith)
  | inr (rate, at) ↦ elim (Bool-cases (leb l.line_tax 0)) [
    | inl nothing_ ↦
        let z : l.line_tax ≡ 0 = ground (arith, nothing_) in rw (at, nothing_) (omega (arith, z))
    | inr charged ↦ rw (at, charged) (add_tax-sum rate l.line_tax gs)
  ]
]

grouped-whole :
    (currency : String) (l : InvoiceLine) (gs : List TaxGroup)
    → IsWholeAmount currency l.line_tax
    → All (λ (g : TaxGroup). IsWholeAmount currency g.amount) gs
    → All (λ (g : TaxGroup). IsWholeAmount currency g.amount) (grouped l gs)
grouped-whole currency l gs whole all = elim (Option-cases l.tax_rate) [
  | inl free ↦ rw free all
  | inr (rate, at) ↦ elim (Bool-cases (leb l.line_tax 0)) [
    | inl nothing_ ↦ rw (at, nothing_) all
    | inr charged ↦ rw (at, charged) (add_tax-whole currency rate l.line_tax gs whole all)
  ]
]

pub tax_by_account-sum :
    (ls : List InvoiceLine) (gs : List TaxGroup)
    → amounts (tax_by_account ls gs) ≡ amounts gs + sum_of taxed ls
unfolding tax_by_account
tax_by_account-sum [] gs = omega arith
tax_by_account-sum (l ∷ ls) gs =
    omega (arith, tax_by_account-sum ls (grouped l gs), grouped-sum l gs)

pub tax_by_account-whole :
    (currency : String) (ls : List InvoiceLine) (gs : List TaxGroup)
    → All (λ l. IsWholeAmount currency l.line_tax) ls
    → All (λ (g : TaxGroup). IsWholeAmount currency g.amount) gs
    → All (λ (g : TaxGroup). IsWholeAmount currency g.amount) (tax_by_account ls gs)
unfolding tax_by_account
tax_by_account-whole currency [] gs whole all = all
tax_by_account-whole currency (l ∷ ls) gs whole all =
    tax_by_account-whole currency ls (grouped l gs) whole.1
      (grouped-whole currency l gs whole.0 all)

pub tax-sums :
    (print : Printing) (i : Invoice) (gs : List TaxGroup) (ds : List LineDraft)
    → All (λ (g : TaxGroup). IsWholeAmount i.currency g.amount) gs
    → tax_lines print i gs ≡ ok ds
    → (debits ds ≡ 0) × (credits ds ≡ amounts gs)
unfolding tax_lines
tax-sums print i [] ds whole h = let e = sym (ok-injective h) in (ap debits e, ap credits e)
tax-sums print i (g ∷ gs) ds whole h =
    let (x, made, h1) =
      >>=-eq-ok
        (credit_line g.account (quantize g.amount i.currency) _
          (of_customer i none (some g.tax_rate)))
        _ h in
    let (rest, others, h2) = >>=-eq-ok (tax_lines print i gs) _ h1 in
    let (d, c) = tax-sums print i gs rest whole.1 others in
    let (xd, xc) = line-sides g.account 0 (quantize g.amount i.currency) _ _ x made in
    let round = whole-quantize i.currency g.amount whole.0 in
    let e = sym (ok-injective h2) in
    (ap debits e ∙ omega (arith, xd, d), ap credits e ∙ omega (arith, xc, round, c))
