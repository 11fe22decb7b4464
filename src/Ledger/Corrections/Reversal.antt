-- ===== src/Ledger/Corrections/Reversal.antt =====
-- What `reverse_entry` of backend/apps/accounting/services/posting.py does to the cached balances and
-- to the figures that backend/apps/reporting/generators/base.py reports.
use achr.Prelude.{
  ℕ, ◌+◌, ◌≡◌, refl, sym, ap, ◌∙◌, subst, inl, inr, String, Bool, true, false, not, Option, none,
  some, some-injective, ==_iff, List, [], ◌∷◌, ◌++◌, ok, or_raise, find, sum_of, sum_of-append,
  ◌==◌, if◌then◌else◌, arith, Bool-cases, >>=-eq-ok, raise_if-eq-ok, or_raise-eq-ok, ok-injective,
}
use achr.Ledger.Model.{Date, EntryStatus, EntryStatus_eq, JournalEntry, Books}
use achr.Ledger.Draft.{not_posted, already_reversed, constraint, key_error, JournalEntryDraft}
use achr.Ledger.Posting.{posted_entry, Context, existing, post_entry}
use achr.Ledger.Posting.Effect.{IsPosted, post_entry-cases}
use achr.Ledger.Reports.{
  Query, in_range, status_counts, selects, entry_debit, entry_credit, reported_debit,
  reported_credit,
}
use achr.Ledger.Corrections.{
  Printing, mirror_lines, reversal_key, reversal_draft, update_entry, has_id, marked, mark_reversed,
  reverse_entry,
}
use achr.Ledger.Corrections.Rows.{IsFree, IsRow, sum_of-update, sum_of-update_same, IsRow-append}

-- A run of `reverse_entry` that succeeded: the mirror's draft was posted, and two rows were marked.
pub record IsReversed (print : Printing) (c : Context) (entry row : JournalEntry) (day : Date)
    (reason : String) (books : Books) (after : Books) : Type 0 where
  pub draft : JournalEntryDraft
  pub mirror : JournalEntry
  pub posted : Books
  pub was_posted : EntryStatus_eq entry.status EntryStatus.posted ≡ true
  pub drafted : reversal_draft print entry day reason ≡ ok draft
  pub is_posting :
      post_entry (record c { tenant = entry.tenant }) draft false books ≡ ok (mirror, posted)
  pub is_after : after ≡ record posted { entries = marked entry.id mirror.id posted.entries }
  pub is_row : find (has_id mirror.id) (marked entry.id mirror.id posted.entries) ≡ some row

not-eq-false : {b : Bool} → not b ≡ false → b ≡ true
not-eq-false {b} h = ground arith

mark_reversed-eq-ok :
    (id mirror : ℕ) (books : Books) (row : JournalEntry) (after : Books)
    → mark_reversed id mirror books ≡ ok (row, after)
    → (after ≡ record books { entries = marked id mirror books.entries })
      × (find (has_id mirror) (marked id mirror books.entries) ≡ some row)
unfolding mark_reversed
mark_reversed-eq-ok id mirror books row after h =
    let (kept, h1) = raise_if-eq-ok _ constraint _ h in
    let (r, found, h2) =
      >>=-eq-ok (or_raise (find (has_id mirror) (marked id mirror books.entries)) key_error) _ h1 in
    let pair = ok-injective h2 in
    (ap (λ p. p.1) (sym pair), or_raise-eq-ok _ key_error found ∙ ap (λ p. some p.0) pair)

pub reverse_entry-IsReversed :
    (print : Printing) (c : Context) (entry row : JournalEntry) (day : Date) (reason : String)
    (books after : Books)
    → reverse_entry print c entry day reason books ≡ ok (row, after)
    → IsReversed print c entry row day reason books after
unfolding reverse_entry
reverse_entry-IsReversed print c entry row day reason books after h =
    let (status, h1) = raise_if-eq-ok _ not_posted _ h in
    let (fresh, h2) = raise_if-eq-ok _ already_reversed _ h1 in
    let (draft, drafted, h3) = >>=-eq-ok (reversal_draft print entry day reason) _ h2 in
    let (result, posting, h4) =
      >>=-eq-ok (post_entry (record c { tenant = entry.tenant }) draft false books) _ h3 in
    record {
      draft = draft;
      mirror = result.0;
      posted = result.1;
      was_posted = not-eq-false status;
      drafted = drafted;
      is_posting = posting;
      is_after = (mark_reversed-eq-ok entry.id result.0.id result.1 row after h4).0;
      is_row = (mark_reversed-eq-ok entry.id result.0.id result.1 row after h4).1;
    }

pub reversal_draft-eq-ok :
    (print : Printing) (entry : JournalEntry) (day : Date) (reason : String)
    (draft : JournalEntryDraft)
    → reversal_draft print entry day reason ≡ ok draft
    → (mirror_lines entry.lines ≡ ok draft.lines)
      × (draft.idempotency_key ≡ reversal_key print entry)
      × (draft.currency ≡ entry.currency)
      × (draft.entry_date ≡ day)
unfolding reversal_draft
reversal_draft-eq-ok print entry day reason draft h =
    let (lines, made, h1) = >>=-eq-ok (mirror_lines entry.lines) _ h in
    let same = ok-injective h1 in
    (
      made ∙ ap (λ d. ok d.lines) same,
      ap (λ d. d.idempotency_key) (sym same),
      ap (λ d. d.currency) (sym same),
      ap (λ d. d.entry_date) (sym same),
    )

-- A reversal whose key has not been used posts a new entry.
pub reversal-IsPosted :
    (print : Printing) (c : Context) (entry row : JournalEntry) (day : Date) (reason : String)
    (books after : Books)
    → existing entry.tenant (reversal_key print entry) books.entries ≡ none
    → (r : IsReversed print c entry row day reason books after)
    → IsPosted (record c { tenant = entry.tenant }) r.draft false books r.mirror r.posted
reversal-IsPosted print c entry row day reason books after unused r =
    let (lines, key, currency, dated) =
      reversal_draft-eq-ok print entry day reason r.draft r.drafted in
    elim (post_entry-cases (record c { tenant = entry.tenant }) r.draft false books r.mirror
      r.posted r.is_posting) [
        | inl (found, same) ↦
            absurd
              (cc (sym unused ∙ ap (λ k. existing entry.tenant k books.entries) (sym key) ∙ found))
        | inr (new, w) ↦ w
      ]

IsRow-ne-free :
    (e : JournalEntry) (id : ℕ) (es : List JournalEntry)
    → IsRow e es
    → IsFree id es
    → (id == e.id) ≡ false
IsRow-ne-free e id [] row free = absurd row
IsRow-ne-free e id (x ∷ xs) (inl (same, rest)) free = ground (arith, free.0, ap (λ y. y.id) same)
IsRow-ne-free e id (x ∷ xs) (inr (other, row)) free = IsRow-ne-free e id xs row free.1

find-marked :
    (entry mirror : JournalEntry) (es : List JournalEntry)
    → IsFree mirror.id es
    → (mirror.id == entry.id) ≡ false
    → find (has_id mirror.id) (marked entry.id mirror.id (es ++ (mirror ∷ [])))
      ≡ some (record mirror { reversal_of = some entry.id })
unfolding update_entry
find-marked entry mirror [] free other =
    let self = (==_iff mirror.id mirror.id).1 refl in rw (other, self, self) refl
find-marked entry mirror (x ∷ xs) free other = elim (Bool-cases (x.id == entry.id)) [
  | inl t ↦ rw (t, free.0, free.0) (find-marked entry mirror xs free.1 other)
  | inr f ↦ rw (f, free.0, free.0) (find-marked entry mirror xs free.1 other)
]

-- The row that `reverse_entry` returns is the mirror, marked as the reversal of the entry.
pub mirror-row :
    (print : Printing) (c : Context) (entry row : JournalEntry) (day : Date) (reason : String)
    (books after : Books)
    → IsRow entry books.entries
    → IsFree c.fresh books.entries
    → existing entry.tenant (reversal_key print entry) books.entries ≡ none
    → (r : IsReversed print c entry row day reason books after)
    → row ≡ record r.mirror { reversal_of = some entry.id }
unfolding posted_entry
mirror-row print c entry row day reason books after is_row free unused r =
    let w = reversal-IsPosted print c entry row day reason books after unused r in
    let id : r.mirror.id ≡ c.fresh = ap (λ e. e.id) w.is_entry in
    let other =
      ap (λ i. i == entry.id) id ∙ IsRow-ne-free entry c.fresh books.entries is_row free in
    some-injective _ _ (
      sym r.is_row
      ∙ ap (λ b. find (has_id r.mirror.id) (marked entry.id r.mirror.id b.entries))
          w.written.is_after
      ∙ find-marked entry r.mirror books.entries (subst (λ i. IsFree i books.entries) (sym id) free)
          other)

-- Any sum over the entries that ignores `reversal_of` and leaves REVERSED entries out.
module _ (g : JournalEntry → ℕ)
    (skips : (e : JournalEntry) → g (record e { status = EntryStatus.reversed }) ≡ 0)
    (ignores : (e : JournalEntry) (o : Option ℕ) → g (record e { reversal_of = o }) ≡ g e) where
  sum_of-marked :
      (entry mirror : JournalEntry) (es : List JournalEntry)
      → IsRow entry es
      → (mirror.id == entry.id) ≡ false
      → sum_of g (marked entry.id mirror.id (es ++ (mirror ∷ []))) + g entry
        ≡ sum_of g es + g mirror
  sum_of-marked entry mirror es row other =
      let all = es ++ (mirror ∷ []) in
      omega (
        arith,
        sum_of-update_same g (λ e. record e { reversal_of = some entry.id }) mirror.id
            (update_entry entry.id (λ e. record e { status = EntryStatus.reversed }) all)
            (λ e. ignores e (some entry.id)),
        sum_of-update g (λ e. record e { status = EntryStatus.reversed }) entry all
            (IsRow-append entry es (mirror ∷ []) row (other, tt)),
        skips entry,
        sum_of-append g es (mirror ∷ []),
      )

  pub sum_of-reverse_entry :
      (print : Printing) (c : Context) (entry row : JournalEntry) (day : Date) (reason : String)
      (books after : Books)
      → IsRow entry books.entries
      → IsFree c.fresh books.entries
      → existing entry.tenant (reversal_key print entry) books.entries ≡ none
      → (r : IsReversed print c entry row day reason books after)
      → sum_of g after.entries + g entry ≡ sum_of g books.entries + g row
  unfolding posted_entry
  sum_of-reverse_entry print c entry row day reason books after is_row free unused r =
      let w = reversal-IsPosted print c entry row day reason books after unused r in
      let other =
        ap (λ e. e.id == entry.id) w.is_entry
        ∙ IsRow-ne-free entry c.fresh books.entries is_row free in
      ap (λ b. sum_of g b.entries + g entry) r.is_after
      ∙ ap (λ b. sum_of g (marked entry.id r.mirror.id b.entries) + g entry) w.written.is_after
      ∙ sum_of-marked entry r.mirror books.entries is_row other
      ∙ ap (λ n. sum_of g books.entries + n)
          (sym (
            ap g (mirror-row print c entry row day reason books after is_row free unused r)
            ∙ ignores r.mirror (some entry.id)))

module _ (q : Query) (account : ℕ) where
  -- What an entry adds to the debits, and to the credits, of a report.
  abbrev debit_in : JournalEntry → ℕ
  debit_in e = if selects q e then entry_debit q account e.lines else 0

  abbrev credit_in : JournalEntry → ℕ
  credit_in e = if selects q e then entry_credit q account e.lines else 0

  not-selects-reversed :
      (e : JournalEntry) → selects q (record e { status = EntryStatus.reversed }) ≡ false
  unfolding selects status_counts
  not-selects-reversed e = ground arith

  selects-reversal_of :
      (e : JournalEntry) (o : Option ℕ) → selects q (record e { reversal_of = o }) ≡ selects q e
  unfolding selects
  selects-reversal_of e o = refl

  -- The mirror is shown by a report of the tenant that covers the day of the reversal.
  selects-mirror :
      (print : Printing) (c : Context) (entry row : JournalEntry) (day : Date) (reason : String)
      (books after : Books)
      → IsRow entry books.entries
      → IsFree c.fresh books.entries
      → existing entry.tenant (reversal_key print entry) books.entries ≡ none
      → (entry.tenant == q.tenant) ≡ true
      → in_range q day ≡ true
      → IsReversed print c entry row day reason books after
      → selects q row ≡ true
  unfolding selects status_counts posted_entry
  selects-mirror print c entry row day reason books after is_row free unused tenant within r =
      let w = reversal-IsPosted print c entry row day reason books after unused r in
      let dated = (reversal_draft-eq-ok print entry day reason r.draft r.drafted).3 in
      ap (selects q) (mirror-row print c entry row day reason books after is_row free unused r)
      ∙ ap (selects q) w.is_entry
      ∙ rw (tenant, dated, within) refl

-- After `reverse_entry` of an entry that a report shows, on a day that the report covers, the
-- report has for every account the debits that it had before, less the reversed entry's and plus
-- those of its mirror, and so with the credits. The entry is the one row of its id, the new id is
-- free, and the reversal's key is not used.
pub reverse_entry_reported :
    (q : Query) (account : ℕ) (print : Printing) (c : Context) (entry row : JournalEntry)
    (day : Date) (reason : String) (books after : Books)
    → IsRow entry books.entries
    → IsFree c.fresh books.entries
    → existing entry.tenant (reversal_key print entry) books.entries ≡ none
    → selects q entry ≡ true
    → (entry.tenant == q.tenant) ≡ true
    → in_range q day ≡ true
    → reverse_entry print c entry day reason books ≡ ok (row, after)
    → (reported_debit q account after.entries + entry_debit q account entry.lines
        ≡ reported_debit q account books.entries + entry_debit q account row.lines)
      × (reported_credit q account after.entries + entry_credit q account entry.lines
          ≡ reported_credit q account books.entries + entry_credit q account row.lines)
reverse_entry_reported q account print c entry row day reason books after is_row free unused shown
      tenant within h =
    let r = reverse_entry-IsReversed print c entry row day reason books after h in
    let mirrored =
      selects-mirror q account print c entry row day reason books after is_row free unused tenant
        within r in
    let hidden = not-selects-reversed q account in
    let same = selects-reversal_of q account in
    let debits =
      sum_of-reverse_entry (debit_in q account) (λ e. rw (hidden e) refl)
        (λ e o. rw (same e o) refl) print c entry row day reason books after is_row free unused r in
    let credits =
      sum_of-reverse_entry (credit_in q account) (λ e. rw (hidden e) refl)
        (λ e o. rw (same e o) refl) print c entry row day reason books after is_row free unused r in
    (rw (shown, mirrored) at debits, rw (shown, mirrored) at credits)
