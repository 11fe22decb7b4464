-- ===== src/Ledger/Periods/Frozen.antt =====
-- The entries of a closed period, under the calls of backend/apps/accounting/services/posting.py and
-- backend/apps/accounting/services/periods.py.
use achr.Prelude.{
  ℕ, ◌≡◌, refl, sym, ap, ◌∙◌, subst, inl, inr, String, Bool, true, false, not, ◌||◌, Option, [],
  ◌∷◌, find, filter, ◌==◌, arith, ok, or_raise-eq-ok, All, All-append, ==_iff,
}
use achr.Ledger.Model.{PeriodStatus, FiscalPeriod, JournalEntry, Books}
use achr.Ledger.Draft.{no_period, JournalEntryDraft}
use achr.Ledger.Posting.{resolve_period, covers, Context, posted_entry, post_entry}
use achr.Ledger.Posting.Effect.{post_entry-cases}
use achr.Ledger.Corrections.{void_entry}
use achr.Ledger.Corrections.Rows.{IsRow}
use achr.Ledger.Corrections.Voiding.{void_entry-IsVoided}
use achr.Ledger.Periods.{PeriodStatus_eq, transition_period}
use achr.Ledger.Periods.Machine.{transition_period-status, transition_period-periods}
use achr.Ledger.Periods.Closed.{
  are_closed, of_period, is_dated, find-are_closed, not-accepts, not-is_period_open, filter-snoc,
  filter-update, All-row, All-update, All-map, find-moved, are_closed-moved,
}

-- Calls that succeed: a posting of any draft by anyone, the voiding of a row that the caller has
-- read, and a transition of another period than `id`.
pub data Step (id : ℕ) : Books → Books → Type 0 where
  posts :
      (c : Context) (draft : JournalEntryDraft) (soft : Bool) (entry : JournalEntry)
      {books after : Books}
      → post_entry c draft soft books ≡ ok (entry, after)
      → Step id books after
  voids :
      (now : ℕ) (entry row : JournalEntry) (reason : String) {books after : Books}
      → IsRow entry books.entries
      → void_entry now entry reason books ≡ ok (row, after)
      → Step id books after
  moves :
      (other tenant : ℕ) (target : PeriodStatus) (user : Option ℕ) (now : ℕ)
      (r : FiscalPeriod × Books) {books : Books}
      → (other == id) ≡ false
      → transition_period other tenant target user now books ≡ ok r
      → Step id books r.1

pub data Steps (id : ℕ) : Books → Books → Type 0 where
  done : {s : Books} → Steps id s s
  step : {s s' s'' : Books} → Step id s s' → Steps id s' s'' → Steps id s s''

-- What a step keeps, and what it does not touch.
abbrev IsKept : ℕ → Books → Books → Type 0
IsKept id s s' =
    (are_closed id s'.periods ≡ true)
    × All (λ e. is_dated s'.periods e ≡ true) s'.entries
    × (filter (of_period id) s'.entries ≡ filter (of_period id) s.entries)

-- An entry of an open period is not one of the closed period.
outside :
    (id : ℕ) (p : FiscalPeriod) (period : ℕ)
    → (not (p.id == id) || PeriodStatus_eq p.status PeriodStatus.closed) ≡ true
    → PeriodStatus_eq p.status PeriodStatus.closed ≡ false
    → (p.id == period) ≡ true
    → (period == id) ≡ false
outside id p period closed open_ same =
    let k : p.id ≡ period = (==_iff p.id period).0 same in
    ap (λ n. n == id) (sym k) ∙ ground (arith, closed, open_)

posts-IsKept :
    (id : ℕ) (c : Context) (draft : JournalEntryDraft) (soft : Bool) (entry : JournalEntry)
    (books after : Books)
    → post_entry c draft soft books ≡ ok (entry, after)
    → are_closed id books.periods ≡ true
    → All (λ e. is_dated books.periods e ≡ true) books.entries
    → IsKept id books after
unfolding posted_entry
posts-IsKept id c draft soft entry books after h closed dated =
    elim (post_entry-cases c draft soft books entry after h) [
      | inl (old, same) ↦ subst (IsKept id books) (sym same) (closed, dated, refl)
      | inr (new, w) ↦
          let p = w.p.period in
          let found = w.prepared.period_found in
          let of_p : entry.period ≡ p.id = ap (λ e. e.period) w.is_entry in
          let away : of_period id entry ≡ false =
            outside id p entry.period (find-are_closed _ id books.periods p closed found)
              (not-accepts soft p.status w.prepared.period_accepts)
              ((==_iff p.id entry.period).1 (sym of_p)) in
          let day = ap (λ e. e.entry_date) w.is_entry in
          let tenant = ap (λ e. e.tenant) w.is_entry in
          let fresh : is_dated books.periods entry ≡ true =
            rw (day, tenant, found) ((==_iff p.id entry.period).1 (sym of_p)) in
          subst (IsKept id books) (sym w.written.is_after) (
            closed,
            All-append (λ e. is_dated books.periods e ≡ true) books.entries (entry ∷ []) dated
                (fresh, tt),
            filter-snoc (of_period id) books.entries entry away,
          )
    ]

voids-IsKept :
    (id now : ℕ) (entry row : JournalEntry) (reason : String) (books after : Books)
    → IsRow entry books.entries
    → void_entry now entry reason books ≡ ok (row, after)
    → are_closed id books.periods ≡ true
    → All (λ e. is_dated books.periods e ≡ true) books.entries
    → IsKept id books after
unfolding resolve_period
voids-IsKept id now entry row reason books after here h closed dated =
    let v = void_entry-IsVoided now entry row reason books after h in
    let found =
      or_raise-eq-ok (find (covers entry.tenant entry.entry_date) books.periods) no_period
        v.period_found in
    let own = All-row (λ e. is_dated books.periods e ≡ true) entry books.entries here dated in
    let away : of_period id entry ≡ false =
      outside id v.period entry.period (find-are_closed _ id books.periods v.period closed found)
        (not-is_period_open v.period.status v.is_open) (rw found at own) in
    subst (IsKept id books) (sym v.is_after) (
      closed,
      All-update (λ e. is_dated books.periods e ≡ true) entry.id _ books.entries (λ e d. d) dated,
      filter-update id _ entry books.entries here away away,
    )

moves-IsKept :
    (id other tenant : ℕ) (target : PeriodStatus) (user : Option ℕ) (now : ℕ)
    (r : FiscalPeriod × Books) (books : Books)
    → (other == id) ≡ false
    → transition_period other tenant target user now books ≡ ok r
    → are_closed id books.periods ≡ true
    → All (λ e. is_dated books.periods e ≡ true) books.entries
    → IsKept id books r.1
moves-IsKept id other tenant target user now r books differ h closed dated =
    let (status, entries) = transition_period-status other tenant target user now books r h in
    let rows = ap (λ es. filter (of_period id) es) entries in
    elim (transition_period-periods other tenant target user now books r h) [
      | inl same ↦ (ap (λ ps. are_closed id ps) same ∙ closed, rw (same, entries) dated, rows)
      | inr same ↦ (
        ap (λ ps. are_closed id ps) same
            ∙ are_closed-moved id other target now user books.periods differ closed,
        rw (same, entries)
            (All-map
              (λ e d.
                find-moved e.tenant e.entry_date other target now user e.period books.periods ∙ d)
              books.entries dated),
        rows,
      )
    ]

Step-IsKept :
    (id : ℕ) {s s' : Books}
    → Step id s s'
    → are_closed id s.periods ≡ true
    → All (λ e. is_dated s.periods e ≡ true) s.entries
    → IsKept id s s'
Step-IsKept id (posts c draft soft entry h) closed dated =
    posts-IsKept id c draft soft entry _ _ h closed dated
Step-IsKept id (voids now entry row reason here h) closed dated =
    voids-IsKept id now entry row reason _ _ here h closed dated
Step-IsKept id (moves other tenant target user now r differ h) closed dated =
    moves-IsKept id other tenant target user now r _ differ h closed dated

-- While the rows of a period are closed, and if at first each entry stands in the period that
-- `resolve_period` has for its date, no history of successful postings, of voidings of rows of the
-- table and of transitions of other periods adds an entry to that period, takes one out or changes
-- one, whoever makes the calls and with whatever permission.
pub Steps-are_frozen :
    (id : ℕ) {s s' : Books}
    → Steps id s s'
    → are_closed id s.periods ≡ true
    → All (λ e. is_dated s.periods e ≡ true) s.entries
    → filter (of_period id) s'.entries ≡ filter (of_period id) s.entries
Steps-are_frozen id done closed dated = refl
Steps-are_frozen id (step one rest) closed dated =
    let (closed', dated', same) = Step-IsKept id one closed dated in
    Steps-are_frozen id rest closed' dated' ∙ same
