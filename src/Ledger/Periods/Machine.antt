-- ===== src/Ledger/Periods/Machine.antt =====
-- What the transitions of a fiscal period have passed and written
-- (backend/apps/accounting/services/periods.py).
use achr.Prelude.{
  ℕ, ◌≡◌, refl, sym, ap, ◌∙◌, ◌⊎◌, inl, inr, true, false, not, ◌&&◌, Option, some, find, ok,
  or_raise, update, >>=-eq-ok, raise_if-eq-ok, or_raise-eq-ok, ok-injective, Bool-cases, arith,
  ◌==◌,
}
use achr.Ledger.Model.{PeriodStatus, FiscalPeriod, Books}
use achr.Ledger.Periods.{
  disappeared, illegal_transition, has_drafts, PeriodStatus_eq, period_may_become, is_period,
  is_draft_of, exists, check_year, moved, transition_period,
}

-- What a transition that changes the status has passed and written.
pub record IsChanged (id : ℕ) (target : PeriodStatus) (user : Option ℕ) (now : ℕ) (books : Books)
    (p : FiscalPeriod) (r : FiscalPeriod × Books) : Type 0 where
  pub changes : PeriodStatus_eq p.status target ≡ false
  pub may : period_may_become p.status target ≡ true
  pub no_drafts :
      (PeriodStatus_eq target PeriodStatus.closed && exists (is_draft_of p) books.entries) ≡ false
  pub year : check_year target p books.years ≡ ok tt
  pub row : r.0 ≡ moved target now user p
  pub entries : r.1.entries ≡ books.entries
  pub periods : r.1.periods ≡ update (λ p. p.id == id) (moved target now user) books.periods

pub transition_period-cases :
    (id tenant : ℕ) (target : PeriodStatus) (user : Option ℕ) (now : ℕ) (books : Books)
    (r : FiscalPeriod × Books)
    → transition_period id tenant target user now books ≡ ok r
    → (p : FiscalPeriod) × (find (is_period id tenant) books.periods ≡ some p)
      × (((PeriodStatus_eq p.status target ≡ true) × (r ≡ (p, books)))
          ⊎ IsChanged id target user now books p r)
unfolding transition_period
transition_period-cases id tenant target user now books r h =
    let (p, found, h1) =
      >>=-eq-ok (or_raise (find (is_period id tenant) books.periods) disappeared) _ h in
    (
      p,
      or_raise-eq-ok _ disappeared found,
      elim (Bool-cases (PeriodStatus_eq p.status target)) [
        | inl e ↦ inl (e, sym (ok-injective (rw e at h1)))
        | inr e ↦
            let (may, h2) =
              raise_if-eq-ok (not (period_may_become p.status target)) illegal_transition _
                (rw e at h1) in
            let (drafts, h3) =
              raise_if-eq-ok
                (PeriodStatus_eq target PeriodStatus.closed && exists (is_draft_of p) books.entries)
                has_drafts _ h2 in
            let (u, year, h4) = >>=-eq-ok (check_year target p books.years) _ h3 in
            let same = ok-injective h4 in
            inr record {
              changes = e;
              may = ground (arith, may);
              no_drafts = drafts;
              year = year;
              row = ap (λ (q : FiscalPeriod × Books). q.0) (sym same);
              entries = ap (λ (q : FiscalPeriod × Books). q.1.entries) (sym same);
              periods = ap (λ (q : FiscalPeriod × Books). q.1.periods) (sym same);
            }
      ],
    )

status-eq : (a b : PeriodStatus) → PeriodStatus_eq a b ≡ true → a ≡ b
status-eq PeriodStatus.open_ b h = ground (arith)
status-eq PeriodStatus.soft_closed b h = ground (arith)
status-eq PeriodStatus.closed b h = ground (arith)

moved-status :
    (target : PeriodStatus) (now : ℕ) (user : Option ℕ) (p : FiscalPeriod)
    → (moved target now user p).status ≡ target
unfolding moved
moved-status PeriodStatus.open_ now user p = refl
moved-status PeriodStatus.soft_closed now user p = refl
moved-status PeriodStatus.closed now user p = refl

pub transition_period-status :
    (id tenant : ℕ) (target : PeriodStatus) (user : Option ℕ) (now : ℕ) (books : Books)
    (r : FiscalPeriod × Books)
    → transition_period id tenant target user now books ≡ ok r
    → (r.0.status ≡ target) × (r.1.entries ≡ books.entries)
transition_period-status id tenant target user now books r h =
    let (p, found, how) = transition_period-cases id tenant target user now books r h in
    elim how [
      | inl (same, unchanged) ↦ (
        ap (λ (q : FiscalPeriod × Books). q.0.status) unchanged ∙ status-eq p.status target same,
        ap (λ (q : FiscalPeriod × Books). q.1.entries) unchanged,
      )
      | inr w ↦
          (ap (λ (q : FiscalPeriod). q.status) w.row ∙ moved-status target now user p, w.entries)
    ]

-- The periods after a transition: all as they were, or the rows of this key moved.
pub transition_period-periods :
    (id tenant : ℕ) (target : PeriodStatus) (user : Option ℕ) (now : ℕ) (books : Books)
    (r : FiscalPeriod × Books)
    → transition_period id tenant target user now books ≡ ok r
    → (r.1.periods ≡ books.periods)
      ⊎ (r.1.periods ≡ update (λ p. p.id == id) (moved target now user) books.periods)
transition_period-periods id tenant target user now books r h =
    let (p, found, how) = transition_period-cases id tenant target user now books r h in
    elim how [
      | inl (same, unchanged) ↦ inl (ap (λ (q : FiscalPeriod × Books). q.1.periods) unchanged)
      | inr w ↦ inr w.periods
    ]
