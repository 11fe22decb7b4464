-- ===== src/Invoices/BadDebt.antt =====
-- The lines of a write-off, and what two lines do to their accounts
-- (backend/apps/sales/services/invoice_workflow.py).
use Prim.Native.String.{◌++◌ as str_append}
use achr.Prelude.{
  ℕ, ◌≡◌, refl, sym, ap, ◌∙◌, subst, String, true, false, not, none, [], ◌∷◌, arith, ◌==◌, ok,
  raise_if-eq-ok, >>=-eq-ok, ok-injective, ==_iff, ◌||◌, ◌*◌, if◌then◌else◌,
}
use achr.Prelude.Int.{pos, ltb_ℤ, ◌-ℤ◌, int_laws}
use achr.Money.{quantize, minor}
use achr.Money.Rounding.{quantize-minor}
use achr.Ledger.Model.{Date, Account, Dimensions, JournalLine, JournalEntry, Books}
use achr.Ledger.Draft.{negative_line, two_sided_line, LineDraft, JournalEntryDraft, check_line}
use achr.Ledger.Balances.{movement}
use achr.Ledger.Balances.Net.{net}
use achr.Ledger.Posting.{Context, post_line, post_lines, posted_entry}
use achr.Ledger.Posting.Effect.{IsPosted}
use achr.Ledger.Corrections.{Printing}
use achr.Invoices.Model.{Invoice}
use achr.Invoices.Issuing.{debit_line, credit_line, of_customer, write_off_draft}
use achr.Invoices.Sums.{line-sides}

line-account :
    (account d c : ℕ) (description : String) (dims : Dimensions) (l : LineDraft)
    → check_line account (pos d) (pos c) description dims ≡ ok l
    → l.account_id ≡ account
unfolding check_line
line-account account d c description dims l h =
    let (signs, h1) =
      raise_if-eq-ok (ltb_ℤ (pos d) (pos 0) || ltb_ℤ (pos c) (pos 0)) negative_line _ h in
    let (sides, h2) =
      raise_if-eq-ok
        (if ltb_ℤ (pos 0) (pos d) then ltb_ℤ (pos 0) (pos c) else not (ltb_ℤ (pos 0) (pos c)))
        two_sided_line _ h1 in
    ap (λ (l : LineDraft). l.account_id) (sym (ok-injective h2))

pub quantize_zero : (currency : String) → quantize 0 currency ≡ 0
quantize_zero currency =
    let whole = quantize-minor 0 currency in
    let none_ : 0 * minor currency ≡ 0 = omega arith in
    subst (λ n. quantize n currency ≡ n) none_ whole

-- Two lines, of which the first or the second alone is on an account that increases on the debit.
net-second :
    (id amount : ℕ) (l m : JournalLine)
    → (l.account_id == id) ≡ false
    → (m.account_id == id) ≡ true
    → m.debit ≡ 0
    → m.credit ≡ amount
    → net id true (l ∷ m ∷ []) ≡ pos 0 -ℤ pos amount
unfolding movement
net-second id amount l m away here d c = rw (away, here, d, c) (omega int_laws)

net-first :
    (id amount : ℕ) (l m : JournalLine)
    → (l.account_id == id) ≡ true
    → (m.account_id == id) ≡ false
    → l.debit ≡ amount
    → l.credit ≡ 0
    → net id true (l ∷ m ∷ []) ≡ pos amount
unfolding movement
net-first id amount l m here away d c = rw (here, away, d, c) (omega int_laws)

-- The draft has two lines: the expense on the debit, the receivable on the credit, of one amount.
pub write_off_draft-lines :
    (print : Printing) (i : Invoice) (day : Date) (reason : String) (bad_debt : Account)
    (draft : JournalEntryDraft)
    → write_off_draft print i day reason bad_debt ≡ ok draft
    → (d : LineDraft) × (k : LineDraft) × (draft.lines ≡ d ∷ k ∷ [])
      × (draft.currency ≡ i.currency)
      × (draft.idempotency_key ≡ str_append "invoice:writeoff:" (print.show_id i.id))
      × (d.account_id ≡ bad_debt.id)
      × (k.account_id ≡ i.customer.receivable_account_id)
      × (d.debit ≡ quantize i.amount_due i.currency)
      × (d.credit ≡ 0)
      × (k.debit ≡ 0)
      × (k.credit ≡ quantize i.amount_due i.currency)
unfolding write_off_draft check_line
write_off_draft-lines print i day reason bad_debt draft h =
    let (d, hd, h1) =
      >>=-eq-ok
        (debit_line bad_debt.id (quantize i.amount_due i.currency) _ (of_customer i none none)) _
        h in
    let (k, hk, h2) =
      >>=-eq-ok
        (credit_line i.customer.receivable_account_id (quantize i.amount_due i.currency) _
          (of_customer i none none))
        _ h1 in
    let e = sym (ok-injective h2) in
    let (dd, dc) = line-sides bad_debt.id (quantize i.amount_due i.currency) 0 _ _ d hd in
    let (kd, kc) =
      line-sides i.customer.receivable_account_id 0 (quantize i.amount_due i.currency) _ _ k hk in
    (
      d,
      k,
      ap (λ x. x.lines) e,
      ap (λ x. x.currency) e,
      ap (λ x. x.idempotency_key) e,
      line-account bad_debt.id (quantize i.amount_due i.currency) 0
          (str_append "Bad debt — " (print.show_number i.number)) (of_customer i none none) d hd,
      line-account i.customer.receivable_account_id 0 (quantize i.amount_due i.currency)
          (str_append "Write-off of " (print.show_number i.number)) (of_customer i none none) k hk,
      dd,
      dc,
      kd,
      kc,
    )

-- A draft of two lines as it is posted, for the accounts of its lines.
pub two-lines :
    (c : Context) (draft : JournalEntryDraft) (books : Books) (entry : JournalEntry) (after : Books)
    (d k : LineDraft) (amount : ℕ)
    → IsPosted c draft false books entry after
    → draft.lines ≡ d ∷ k ∷ []
    → quantize d.debit draft.currency ≡ amount
    → quantize d.credit draft.currency ≡ 0
    → quantize k.debit draft.currency ≡ 0
    → quantize k.credit draft.currency ≡ amount
    → (k.account_id == d.account_id) ≡ false
    → (d.account_id == k.account_id) ≡ false
    → (net d.account_id true entry.lines ≡ pos amount)
      × (net k.account_id true entry.lines ≡ pos 0 -ℤ pos amount)
unfolding posted_entry post_lines post_line
two-lines c draft books entry after d k amount p lines dd dc kd kc kd_apart dk_apart =
    let first = post_line draft.currency p.p.base p.p.rate 1 d in
    let second = post_line draft.currency p.p.base p.p.rate 2 k in
    let rows : entry.lines ≡ first ∷ second ∷ [] =
      ap (λ (e : JournalEntry). e.lines) p.is_entry
      ∙ ap (λ ls. post_lines draft.currency p.p.base p.p.rate 1 ls) lines in
    let self = λ (n : ℕ). (==_iff n n).1 refl in
    (
      ap (λ ls. net d.account_id true ls) rows
          ∙ net-first d.account_id amount first second (self d.account_id) kd_apart dd dc,
      ap (λ ls. net k.account_id true ls) rows
          ∙ net-second k.account_id amount first second dk_apart (self k.account_id) kd kc,
    )
