-- ===== src/Ledger/Posting/Progress.antt =====
-- Which balanced drafts pass the trigger that adds an entry's lines up again at COMMIT
-- (backend/apps/accounting/services/posting.py, migrations/0004_ledger_guards.py).
use achr.Prelude.{
  ℕ, zero, suc, ◌+◌, ◌*◌, ◌≤◌, ◌<◌, ◌≡◌, refl, sym, ap, ◌∙◌, String, true, false, List, [], ◌∷◌,
  length, sum_of, ◌==◌, arith, All,
}
use achr.Money.{Decimal, quantize, minor}
use achr.Money.Rounding.{quantize-minor, quantize_nearest, quantize_multiple}
use achr.Ledger.Model.{DocumentNumber, FiscalPeriod, JournalLine}
use achr.Ledger.Draft.{LineDraft, JournalEntryDraft, total_debit, total_credit}
use achr.Ledger.Guards.{entry_balanced}
use achr.Ledger.Posting.{post_line, post_lines, posted_entry, Context}

-- Both sides of a line are whole numbers of minor units, k and j.
unfoldable pub IsWhole : String → LineDraft → Type 0
IsWhole currency l =
    (k : ℕ) × (j : ℕ) × (l.debit ≡ k * minor currency) × (l.credit ≡ j * minor currency)

length-post_lines :
    (currency base : String) (rate : Decimal) (index : ℕ) (lines : List LineDraft)
    → length (post_lines currency base rate index lines) ≡ length lines
unfolding post_lines
length-post_lines currency base rate index [] = refl
length-post_lines currency base rate index (l ∷ ls) =
    omega (arith, length-post_lines currency base rate (suc index) ls)

whole-debits :
    (currency base : String) (rate : Decimal) (index : ℕ) (lines : List LineDraft)
    → All (IsWhole currency) lines
    → sum_of (λ (l : JournalLine). l.debit) (post_lines currency base rate index lines)
      ≡ sum_of (λ (l : LineDraft). l.debit) lines
unfolding post_lines post_line IsWhole
whole-debits currency base rate index [] h = refl
whole-debits currency base rate index (l ∷ ls) ((k, j, d, c), h) =
    let here : quantize l.debit currency ≡ l.debit =
      ap (λ n. quantize n currency) d ∙ quantize-minor k currency ∙ sym d in
    omega (arith, here, whole-debits currency base rate (suc index) ls h)

whole-credits :
    (currency base : String) (rate : Decimal) (index : ℕ) (lines : List LineDraft)
    → All (IsWhole currency) lines
    → sum_of (λ (l : JournalLine). l.credit) (post_lines currency base rate index lines)
      ≡ sum_of (λ (l : LineDraft). l.credit) lines
unfolding post_lines post_line IsWhole
whole-credits currency base rate index [] h = refl
whole-credits currency base rate index (l ∷ ls) ((k, j, d, c), h) =
    let here : quantize l.credit currency ≡ l.credit =
      ap (λ n. quantize n currency) c ∙ quantize-minor j currency ∙ sym c in
    omega (arith, here, whole-credits currency base rate (suc index) ls h)

whole-total :
    (currency : String) (lines : List LineDraft)
    → All (IsWhole currency) lines
    → (k : ℕ) × (j : ℕ) × (sum_of (λ (l : LineDraft). l.debit) lines ≡ k * minor currency)
      × (sum_of (λ (l : LineDraft). l.credit) lines ≡ j * minor currency)
unfolding IsWhole
whole-total currency [] h = (0, 0, omega arith, omega arith)
whole-total currency (l ∷ ls) ((k, j, d, c), h) =
    let (k', j', d', c') = whole-total currency ls h in
    (k + k', j + j', omega (arith, d, d'), omega (arith, c, c'))

-- A draft of at least two lines, each of whole minor units, with equal and positive totals, is
-- balanced as it is written, in every currency and at every rate.
pub whole-entry_balanced :
    (c : Context) (draft : JournalEntryDraft) (period : FiscalPeriod) (rate : Decimal)
    (base : String) (number : DocumentNumber)
    → All (IsWhole draft.currency) draft.lines
    → 2 ≤ length draft.lines
    → total_debit draft ≡ total_credit draft
    → 1 ≤ total_debit draft
    → entry_balanced (posted_entry c draft period rate base number) ≡ true
unfolding entry_balanced posted_entry
whole-entry_balanced c draft period rate base number whole two equal positive =
    let (k, j, d, e) = whole-total draft.currency draft.lines whole in
    let rounded : quantize (total_debit draft) draft.currency ≡ total_debit draft =
      ap (λ n. quantize n draft.currency) d ∙ quantize-minor k draft.currency ∙ sym d in
    let rounded' : quantize (total_credit draft) draft.currency ≡ total_credit draft =
      ap (λ n. quantize n draft.currency) e ∙ quantize-minor j draft.currency ∙ sym e in
    ground (
      arith,
      rounded,
      rounded',
      two,
      equal,
      positive,
      length-post_lines draft.currency base rate 1 draft.lines,
      whole-debits draft.currency base rate 1 draft.lines whole,
      whole-credits draft.currency base rate 1 draft.lines whole,
    )

next_multiple : (t k m : ℕ) → k * m < t * m → k * m + m ≤ t * m
next_multiple zero k m h = omega arith
next_multiple (suc t) zero m h = omega arith
next_multiple (suc t) (suc k) m h =
    let rest : k * m < t * m → k * m + m ≤ t * m = next_multiple t k m in
    let less : k * m < t * m = omega arith in let ih = rest less in omega arith

quantize_zero : (currency : String) → quantize 0 currency ≡ 0
quantize_zero currency =
    let e : 0 * minor currency ≡ 0 = omega arith in
    ap (λ n. quantize n currency) (sym e) ∙ quantize-minor 0 currency ∙ e

half-up :
    (k half : ℕ) (currency : String)
    → minor currency ≡ 2 * half
    → 1 ≤ half
    → k * minor currency + minor currency ≤ quantize (k * minor currency + half) currency
half-up k half currency even some_half =
    let a = k * minor currency + half in
    let near = quantize_nearest a currency in
    let (t, e) = quantize_multiple a currency in
    let more : k * minor currency < t * minor currency = omega (arith, e, near, even) in
    let up = next_multiple t k (minor currency) more in omega (arith, e, up)

-- Two debits of half a minor unit over a whole number k of them, against one credit of their sum: the
-- totals of the draft agree also when they are rounded, yet the entry that is written for it is not
-- balanced, whatever the rate.
pub half_units-unbalanced :
    (c : Context) (draft : JournalEntryDraft) (period : FiscalPeriod) (rate : Decimal)
    (base : String) (number : DocumentNumber) (a b s : LineDraft) (k half : ℕ)
    → draft.lines ≡ a ∷ b ∷ s ∷ []
    → minor draft.currency ≡ 2 * half
    → 1 ≤ half
    → a.debit ≡ k * minor draft.currency + half
    → b.debit ≡ k * minor draft.currency + half
    → s.credit ≡ a.debit + b.debit
    → a.credit ≡ 0
    → b.credit ≡ 0
    → s.debit ≡ 0
    → (quantize (total_debit draft) draft.currency ≡ quantize (total_credit draft) draft.currency)
      × (entry_balanced (posted_entry c draft period rate base number) ≡ false)
unfolding entry_balanced posted_entry post_lines post_line
half_units-unbalanced c draft period rate base number a b s k half lines even some_half da db cs ca
      cb ds =
    let m = minor draft.currency in
    let up = half-up k half draft.currency even some_half in
    let exact = quantize-minor (2 * k + 1) draft.currency in
    let total : (2 * k + 1) * m ≡ s.credit = omega (arith, da, db, cs, even) in
    let credited : quantize s.credit draft.currency ≡ s.credit =
      ap (λ n. quantize n draft.currency) (sym total) ∙ exact ∙ total in
    let first = ap (λ n. quantize n draft.currency) da in
    let second = ap (λ n. quantize n draft.currency) db in
    let zero_a = ap (λ n. quantize n draft.currency) ca ∙ quantize_zero draft.currency in
    let zero_b = ap (λ n. quantize n draft.currency) cb ∙ quantize_zero draft.currency in
    let zero_s = ap (λ n. quantize n draft.currency) ds ∙ quantize_zero draft.currency in
    let debits : total_debit draft ≡ s.credit =
      ap (λ (ls : List LineDraft). sum_of (λ (l : LineDraft). l.debit) ls) lines
      ∙ (omega (arith, ds, cs)) in
    let credits : total_credit draft ≡ s.credit =
      ap (λ (ls : List LineDraft). sum_of (λ (l : LineDraft). l.credit) ls) lines
      ∙ (omega (arith, ca, cb)) in
    let q = λ (n : ℕ). quantize n draft.currency in
    let written_debits : sum_of (λ (l : JournalLine). l.debit)
          (post_lines draft.currency base rate 1 draft.lines)
        ≡ q a.debit + (q b.debit + (q s.debit + 0)) =
      ap
        (λ (ls : List LineDraft).
          sum_of (λ (l : JournalLine). l.debit) (post_lines draft.currency base rate 1 ls))
        lines in
    let written_credits : sum_of (λ (l : JournalLine). l.credit)
          (post_lines draft.currency base rate 1 draft.lines)
        ≡ q a.credit + (q b.credit + (q s.credit + 0)) =
      ap
        (λ (ls : List LineDraft).
          sum_of (λ (l : JournalLine). l.credit) (post_lines draft.currency base rate 1 ls))
        lines in
    let apart : (sum_of (λ (l : JournalLine). l.debit)
            (post_lines draft.currency base rate 1 draft.lines)
          == sum_of (λ (l : JournalLine). l.credit)
              (post_lines draft.currency base rate 1 draft.lines))
        ≡ false =
      rw (written_debits, written_credits)
        (ground (arith, up, first, second, zero_a, zero_b, zero_s, credited, total, even)) in
    (ap (λ n. quantize n draft.currency) (debits ∙ sym credits), rw apart (ground (arith)))
