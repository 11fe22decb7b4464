-- ===== src/Ledger/Corrections/Mirror.antt =====
-- The lines of a reversal, and what they do to the cached balances: `reverse_entry` of
-- backend/apps/accounting/services/posting.py.
use achr.Prelude.{
  ℕ, suc, ◌≡◌, sym, ap, ◌∙◌, subst, String, Bool, true, false, none, some, List, [], ◌∷◌, ok, find,
  ◌==◌, arith, Bool-cases, inl, inr, >>=-eq-ok, ok-injective, All,
}
use achr.Prelude.Int.{pos, ◌-ℤ◌, neg, int_laws}
use achr.Money.{Decimal, quantize}
use achr.Money.Rounding.{quantize_idem}
use achr.Ledger.Model.{Date, Account, increases_on_debit, JournalLine, JournalEntry, Books}
use achr.Ledger.Draft.{LineDraft, check_line, is_account}
use achr.Ledger.Balances.{plus, movement}
use achr.Ledger.Balances.Net.{net, balance-apply}
use achr.Ledger.Posting.{Context, existing, post_line, post_lines, posted_entry}
use achr.Ledger.Corrections.{Printing, mirror_line, mirror_lines, reversal_key, reverse_entry}
use achr.Ledger.Corrections.Reversal.{
  reverse_entry-IsReversed, reversal_draft-eq-ok, reversal-IsPosted,
}

-- The amounts of a line are whole minor units of the currency, as `post_entry` stores them.
abbrev pub IsRounded : String → JournalLine → Type 0
IsRounded currency l =
    (quantize l.debit currency ≡ l.debit) × (quantize l.credit currency ≡ l.credit)

-- `post_entry` stores whole minor units.
pub post_lines-IsRounded :
    (currency base : String) (rate : Decimal) (i : ℕ) (ds : List LineDraft)
    → All (IsRounded currency) (post_lines currency base rate i ds)
unfolding post_lines
post_lines-IsRounded currency base rate i [] = tt
post_lines-IsRounded currency base rate i (d ∷ ds) = (
  (quantize_idem d.debit currency, quantize_idem d.credit currency),
  post_lines-IsRounded currency base rate (suc i) ds,
)

mirror_line-eq-ok :
    (l : JournalLine) (d : LineDraft)
    → mirror_line l ≡ ok d
    → (d.account_id ≡ l.account_id) × (d.debit ≡ l.credit) × (d.credit ≡ l.debit)
unfolding mirror_line check_line
mirror_line-eq-ok l d h = ground arith

opposite :
    (side : Bool) (l m : JournalLine)
    → m.debit ≡ l.credit
    → m.credit ≡ l.debit
    → movement side m ≡ neg (movement side l)
unfolding movement
opposite true l m p q = rw (p, q) (omega int_laws)
opposite false l m p q = rw (p, q) (omega int_laws)

-- The line that is posted for the mirror moves the same account, by the opposite amount.
mirror-movement :
    (side : Bool) (currency base : String) (rate : Decimal) (i : ℕ) (l : JournalLine)
    (d : LineDraft)
    → IsRounded currency l
    → mirror_line l ≡ ok d
    → ((post_line currency base rate i d).account_id ≡ l.account_id)
      × ((post_line currency base rate i d).debit ≡ l.credit)
      × ((post_line currency base rate i d).credit ≡ l.debit)
      × (movement side (post_line currency base rate i d) ≡ neg (movement side l))
unfolding post_line
mirror-movement side currency base rate i l d (whole_debit, whole_credit) h =
    let (account, debit, credit) = mirror_line-eq-ok l d h in
    let to_debit = ap (λ n. quantize n currency) debit ∙ whole_credit in
    let to_credit = ap (λ n. quantize n currency) credit ∙ whole_debit in
    (
      account,
      to_debit,
      to_credit,
      opposite side l (post_line currency base rate i d) to_debit to_credit,
    )

net-cons :
    (id : ℕ) (side : Bool) (m l : JournalLine) (ms ls : List JournalLine)
    → m.account_id ≡ l.account_id
    → movement side m ≡ neg (movement side l)
    → net id side ms ≡ neg (net id side ls)
    → net id side (m ∷ ms) ≡ neg (net id side (l ∷ ls))
net-cons id side m l ms ls same moves tail = elim (Bool-cases (l.account_id == id)) [
  | inl t ↦ rw (t, ap (λ j. j == id) same ∙ t, moves, tail) (omega int_laws)
  | inr f ↦ rw (f, ap (λ j. j == id) same ∙ f) tail
]

net-mirror :
    (id : ℕ) (side : Bool) (currency base : String) (rate : Decimal) (i : ℕ) (ls : List JournalLine)
    (ds : List LineDraft)
    → All (IsRounded currency) ls
    → mirror_lines ls ≡ ok ds
    → net id side (post_lines currency base rate i ds) ≡ neg (net id side ls)
unfolding mirror_lines post_lines
net-mirror id side currency base rate i [] ds rounded h =
    subst (λ x. net id side (post_lines currency base rate i x) ≡ neg (pos 0)) (ok-injective h)
      (omega int_laws)
net-mirror id side currency base rate i (l ∷ ls) ds rounded h =
    let (m, first, h1) = >>=-eq-ok (mirror_line l) _ h in
    let (ms, rest, h2) = >>=-eq-ok (mirror_lines ls) _ h1 in
    let (account, d, c, moves) = mirror-movement side currency base rate i l m rounded.0 first in
    let tail = net-mirror id side currency base rate (suc i) ls ms rounded.1 rest in
    subst (λ x. net id side (post_lines currency base rate i x) ≡ neg (net id side (l ∷ ls)))
      (ok-injective h2)
      (net-cons id side (post_line currency base rate i m) l _ _ account moves tail)

-- A reversal whose key is not used, of an entry whose amounts are rounded to its currency, takes
-- the entry's net movement back out of the cached balance of each account of the tenant.
pub reverse_entry_cached :
    (print : Printing) (c : Context) (entry row : JournalEntry) (day : Date) (reason : String)
    (books after : Books)
    → existing entry.tenant (reversal_key print entry) books.entries ≡ none
    → All (IsRounded entry.currency) entry.lines
    → reverse_entry print c entry day reason books ≡ ok (row, after)
    → (a : Account) → find (is_account entry.tenant a.id) books.accounts ≡ some a
    → (b : Account) × (find (is_account entry.tenant a.id) after.accounts ≡ some b)
      × (b.cached_balance ≡ a.cached_balance -ℤ net a.id (increases_on_debit a) entry.lines)
unfolding posted_entry
reverse_entry_cached print c entry row day reason books after unused rounded h a found =
    let r = reverse_entry-IsReversed print c entry row day reason books after h in
    let w = reversal-IsPosted print c entry row day reason books after unused r in
    let (lines, key, currency, dated) =
      reversal_draft-eq-ok print entry day reason r.draft r.drafted in
    let (b, there, moved, side) =
      balance-apply entry.tenant c.now plus r.mirror.lines books.accounts w.written.accounts
        w.written.moved a found in
    let mirrored =
      ap (λ e. net a.id (increases_on_debit a) e.lines) w.is_entry
      ∙ net-mirror a.id (increases_on_debit a) r.draft.currency w.p.base w.p.rate 1 entry.lines
          r.draft.lines (subst (λ k. All (IsRounded k) entry.lines) (sym currency) rounded) lines in
    (
      b,
      ap (λ t. find (is_account entry.tenant a.id) t.accounts) (r.is_after)
          ∙ ap (λ t. find (is_account entry.tenant a.id) t.accounts) w.written.is_after
          ∙ there,
      moved ∙ rw mirrored (omega int_laws),
    )
