-- ===== src/Ledger/Periods/Closed.antt =====
-- Closed periods, and the entries that stand in them
-- (backend/apps/accounting/services/periods.py and posting.py).
use achr.Prelude.{
  ℕ, ◌≡◌, refl, ap, ◌∙◌, subst, inl, inr, Bool, true, false, not, ◌&&◌, ◌||◌, Option, none, some,
  List, [], ◌∷◌, ◌++◌, find, filter, update, ◌==◌, arith, All, if◌then◌else◌, Bool-cases, ==_iff,
}
use achr.Ledger.Model.{Date, PeriodStatus, FiscalPeriod, JournalEntry}
use achr.Ledger.Posting.{accepts, covers}
use achr.Ledger.Corrections.{is_period_open, update_entry}
use achr.Ledger.Corrections.Rows.{IsRow, IsFree}
use achr.Ledger.Periods.{PeriodStatus_eq, moved}

-- Every row with this key is closed.
abbrev pub are_closed : ℕ → List FiscalPeriod → Bool
are_closed id [] = true
are_closed id (p ∷ ps) =
    (not (p.id == id) || PeriodStatus_eq p.status PeriodStatus.closed) && are_closed id ps

abbrev pub of_period : ℕ → JournalEntry → Bool
of_period id e = e.period == id

-- Whether the period that is found has a given key.
abbrev pub has_key : ℕ → Option FiscalPeriod → Bool
has_key id none = false
has_key id (some p) = p.id == id

-- The entry stands in the period that `resolve_period` has for its date.
abbrev pub is_dated : List FiscalPeriod → JournalEntry → Bool
is_dated periods e = has_key e.period (find (covers e.tenant e.entry_date) periods)

pub find-are_closed :
    (q : FiscalPeriod → Bool) (id : ℕ) (ps : List FiscalPeriod) (p : FiscalPeriod)
    → are_closed id ps ≡ true
    → find q ps ≡ some p
    → (not (p.id == id) || PeriodStatus_eq p.status PeriodStatus.closed) ≡ true
find-are_closed q id [] p closed found = cc
find-are_closed q id (r ∷ ps) p closed found = ground (arith, found, find-are_closed q id ps p)

pub not-accepts :
    (soft : Bool) (st : PeriodStatus)
    → accepts soft st ≡ true
    → PeriodStatus_eq st PeriodStatus.closed ≡ false
not-accepts soft PeriodStatus.open_ h = refl
not-accepts soft PeriodStatus.soft_closed h = refl
not-accepts soft PeriodStatus.closed h = cc

pub not-is_period_open :
    (st : PeriodStatus) → is_period_open st ≡ true → PeriodStatus_eq st PeriodStatus.closed ≡ false
unfolding is_period_open
not-is_period_open PeriodStatus.open_ h = refl
not-is_period_open PeriodStatus.soft_closed h = cc
not-is_period_open PeriodStatus.closed h = cc

pub filter-snoc :
    (q : JournalEntry → Bool) (es : List JournalEntry) (e : JournalEntry)
    → q e ≡ false
    → filter q (es ++ (e ∷ [])) ≡ filter q es
filter-snoc q [] e h = rw h refl
filter-snoc q (x ∷ es) e h = rw (filter-snoc q es e h) refl

-- An update that leaves the period of a row alone does not bring the row into a period.
filter-update_free :
    (id at : ℕ) (f : JournalEntry → JournalEntry) (es : List JournalEntry)
    → IsFree at es
    → filter (of_period id) (update_entry at f es) ≡ filter (of_period id) es
unfolding update_entry
filter-update_free id at f [] free = refl
filter-update_free id at f (x ∷ xs) free = rw (free.0, filter-update_free id at f xs free.1) refl

pub filter-update :
    (id : ℕ) (f : JournalEntry → JournalEntry) (e : JournalEntry) (es : List JournalEntry)
    → IsRow e es
    → of_period id e ≡ false
    → of_period id (f e) ≡ false
    → filter (of_period id) (update_entry e.id f es) ≡ filter (of_period id) es
unfolding update_entry
filter-update id f e [] row out out' = absurd row
filter-update id f e (x ∷ xs) (inl (same, free)) out out' =
    let mine : (x.id == e.id) ≡ true = (==_iff x.id e.id).1 (ap (λ y. y.id) same) in
    let gone : of_period id x ≡ false = ap (of_period id) same ∙ out in
    let gone' : of_period id (f x) ≡ false = ap (λ y. of_period id (f y)) same ∙ out' in
    rw (mine, gone, gone') (filter-update_free id e.id f xs free)
filter-update id f e (x ∷ xs) (inr (other, row)) out out' =
    rw (other, filter-update id f e xs row out out') refl

pub All-row :
    (P : JournalEntry → Type 0) (e : JournalEntry) (es : List JournalEntry)
    → IsRow e es
    → All P es
    → P e
All-row P e [] row all = absurd row
All-row P e (x ∷ xs) (inl (same, free)) all = subst P same all.0
All-row P e (x ∷ xs) (inr (other, row)) all = All-row P e xs row all.1

pub All-update :
    (P : JournalEntry → Type 0) (at : ℕ) (f : JournalEntry → JournalEntry) (es : List JournalEntry)
    → ((e : JournalEntry) → P e → P (f e))
    → All P es
    → All P (update_entry at f es)
unfolding update_entry
All-update P at f [] keep h = tt
All-update P at f (e ∷ es) keep h = (All-step (e.id == at), All-update P at f es keep h.1)
  where
    All-step : (b : Bool) → P (if b then f e else e)
    All-step true = keep e h.0
    All-step false = h.0

pub All-map :
    {P Q : JournalEntry → Type 0}
    → ((e : JournalEntry) → P e → Q e)
    → (es : List JournalEntry) → All P es
    → All Q es
All-map f [] all = tt
All-map f (e ∷ es) all = (f e all.0, All-map f es all.1)

-- What `moved` leaves of a period, and what it does to the search by date.
covers-moved :
    (tenant : ℕ) (day : Date) (target : PeriodStatus) (now : ℕ) (user : Option ℕ) (p : FiscalPeriod)
    → (covers tenant day (moved target now user p) ≡ covers tenant day p)
      × ((moved target now user p).id ≡ p.id)
unfolding moved
covers-moved tenant day PeriodStatus.open_ now user p = (refl, refl)
covers-moved tenant day PeriodStatus.soft_closed now user p = (refl, refl)
covers-moved tenant day PeriodStatus.closed now user p = (refl, refl)

pub find-moved :
    (tenant : ℕ) (day : Date) (other : ℕ) (target : PeriodStatus) (now : ℕ) (user : Option ℕ)
    (at : ℕ) (ps : List FiscalPeriod)
    → has_key at (find (covers tenant day) (update (λ p. p.id == other) (moved target now user) ps))
      ≡ has_key at (find (covers tenant day) ps)
find-moved tenant day other target now user at [] = refl
find-moved tenant day other target now user at (p ∷ ps) =
    let (same, key) = covers-moved tenant day target now user p in
    let rest = find-moved tenant day other target now user at ps in
    elim (Bool-cases (p.id == other)) [
      | inl t ↦ elim (Bool-cases (covers tenant day p)) [
        | inl here ↦ rw (t, same, here, key) refl
        | inr away ↦ rw (t, same, away) rest
      ]
      | inr f ↦ elim (Bool-cases (covers tenant day p)) [
        | inl here ↦ rw (f, here) refl
        | inr away ↦ rw (f, away) rest
      ]
    ]

pub are_closed-moved :
    (id other : ℕ) (target : PeriodStatus) (now : ℕ) (user : Option ℕ) (ps : List FiscalPeriod)
    → (other == id) ≡ false
    → are_closed id ps ≡ true
    → are_closed id (update (λ p. p.id == other) (moved target now user) ps) ≡ true
are_closed-moved id other target now user [] differ closed = refl
are_closed-moved id other target now user (p ∷ ps) differ closed =
    let rest = are_closed-moved id other target now user ps differ in
    elim (Bool-cases (p.id == other)) [
      | inl t ↦
          let k : p.id ≡ other = (==_iff p.id other).0 t in
          let away : (p.id == id) ≡ false = ap (λ n. n == id) k ∙ differ in
          let key = (covers-moved 0 p.start_date target now user p).1 in
          rw (t, key, away) (rest (ground (arith, closed)))
      | inr f ↦ rw f (ground (arith, closed, rest))
    ]
