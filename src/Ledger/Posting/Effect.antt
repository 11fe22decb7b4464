-- ===== src/Ledger/Posting/Effect.antt =====
-- What a successful `post_entry` has done (backend/apps/accounting/services/posting.py): the facts
-- that its branches leave, and the effect on every table.
use achr.Prelude.{
  ◌≡◌, sym, ap, ◌∙◌, subst, ◌⊎◌, inl, inr, Bool, true, false, not, none, some, List, [], ◌∷◌, ◌++◌,
  ok, or_raise, find, arith, Option-cases, >>=-eq-ok, or_raise-eq-ok, raise_if-eq-ok, ok-injective,
}
use achr.Ledger.Model.{Journal, JournalEntry, Account, Books}
use achr.Ledger.Draft.{
  no_period, period_closed, no_journal, constraint, duplicate_posting, JournalEntryDraft,
  validate_draft,
}
use achr.Ledger.Fx.{base_currency, resolve_rate}
use achr.Ledger.Numbering.{allocate_number}
use achr.Ledger.Balances.{plus, apply_to_cached_balances}
use achr.Ledger.Guards.{insert_entry, lines_ok, entry_balanced, period_locked}
use achr.Ledger.Posting.{
  resolve_period, accepts, covers, is_journal, posted_entry, Context, Prepared, prepare,
  write_entry, post_new, existing, post_entry,
}

-- What `prepare` has found.
pub record IsPrepared (c : Context) (draft : JournalEntryDraft) (soft : Bool) (books : Books)
    (p : Prepared) : Type 0 where
  pub journal : Journal
  pub period_found : find (covers c.tenant draft.entry_date) books.periods ≡ some p.period
  pub period_accepts : accepts soft p.period.status ≡ true
  pub journal_found : find (is_journal c.tenant draft.journal_code) books.journals ≡ some journal
  pub rate_resolved :
      resolve_rate c.tenant draft.currency draft.entry_date (some draft.exchange_rate) books
      ≡ ok p.rate
  pub base_found : base_currency c.tenant books ≡ ok p.base
  pub is_numbered :
      allocate_number c.tenant journal draft.entry_date books.sequences ≡ (p.number, p.sequences)

not-eq-false : {b : Bool} → not b ≡ false → b ≡ true
not-eq-false {b} h = ground arith

pub prepare-IsPrepared :
    (c : Context) (draft : JournalEntryDraft) (soft : Bool) (books : Books) (p : Prepared)
    → prepare c draft soft books ≡ ok p
    → IsPrepared c draft soft books p
unfolding prepare resolve_period
prepare-IsPrepared c draft soft books p h =
    let (period, found, h1) =
      >>=-eq-ok (or_raise (find (covers c.tenant draft.entry_date) books.periods) no_period) _ h in
    let (accepted, h2) = raise_if-eq-ok _ period_closed _ h1 in
    let (journal, named, h3) =
      >>=-eq-ok (or_raise (find (is_journal c.tenant draft.journal_code) books.journals) no_journal)
        _ h2 in
    let (rate, resolved, h4) =
      >>=-eq-ok
        (resolve_rate c.tenant draft.currency draft.entry_date (some draft.exchange_rate) books) _
        h3 in
    let (base, based, h5) = >>=-eq-ok (base_currency c.tenant books) _ h4 in
    let same = ok-injective h5 in
    record {
      journal = journal;
      period_found = or_raise-eq-ok _ no_period found ∙ ap (λ q. some q.period) same;
      period_accepts = ap (λ q. accepts soft q.period.status) (sym same) ∙ not-eq-false accepted;
      journal_found = or_raise-eq-ok _ no_journal named;
      rate_resolved = resolved ∙ ap (λ q. ok q.rate) same;
      base_found = based ∙ ap (λ q. ok q.base) same;
      is_numbered = ap (λ q. (q.number, q.sequences)) same;
    }

-- What `write_entry` has done to the tables.
pub record IsWritten (c : Context) (entry : JournalEntry) (books : Books) (after : Books)
    : Type 0 where
  pub accounts : List Account
  pub is_legal : lines_ok entry.lines ≡ true
  pub is_balanced : entry_balanced entry ≡ true
  pub moved : apply_to_cached_balances c.tenant c.now plus entry.lines books.accounts ≡ ok accounts
  pub is_after :
      after ≡ record books { accounts = accounts; entries = books.entries ++ (entry ∷ []) }

insert_entry-eq-ok :
    (entry : JournalEntry) (books saved : Books)
    → insert_entry entry books ≡ ok saved
    → record books { entries = books.entries ++ (entry ∷ []) } ≡ saved
unfolding insert_entry
insert_entry-eq-ok entry books saved h =
    let (u, legal, h1) = >>=-eq-ok (period_locked entry books) _ h in
    let h2 = (raise_if-eq-ok _ constraint _ h1).1 in
    let h3 = (raise_if-eq-ok _ duplicate_posting _ h2).1 in
    let h4 = (raise_if-eq-ok _ constraint _ h3).1 in ok-injective h4

pub write_entry-IsWritten :
    (c : Context) (row entry : JournalEntry) (books after : Books)
    → write_entry c row books ≡ ok (entry, after)
    → (row ≡ entry) × IsWritten c row books after
unfolding write_entry
write_entry-IsWritten c row entry books after h =
    let (saved, inserted, h1) = >>=-eq-ok (insert_entry row books) _ h in
    let is_saved = insert_entry-eq-ok row books saved inserted in
    let (legal, h2) = raise_if-eq-ok _ constraint _ h1 in
    let (accounts, moved, h3) =
      >>=-eq-ok (apply_to_cached_balances c.tenant c.now plus row.lines saved.accounts) _ h2 in
    let (balanced, h4) = raise_if-eq-ok _ constraint _ h3 in
    let pair = ok-injective h4 in
    (
      ap (λ p. p.0) pair,
      record {
        accounts = accounts;
        is_legal = not-eq-false legal;
        is_balanced = not-eq-false balanced;
        moved =
            ap (λ b. apply_to_cached_balances c.tenant c.now plus row.lines b.accounts) is_saved
            ∙ moved;
        is_after =
            ap (λ p. p.1) (sym pair)
            ∙ ap {A = Books} {B = Books} (λ b. record b { accounts = accounts }) (sym is_saved);
      },
    )

-- A posting that is new: what was looked up, and what was written.
pub record IsPosted (c : Context) (draft : JournalEntryDraft) (soft : Bool) (books : Books)
    (entry : JournalEntry) (after : Books) : Type 0 where
  pub p : Prepared
  pub prepared : IsPrepared c draft soft books p
  pub is_entry : entry ≡ posted_entry c draft p.period p.rate p.base p.number
  pub written : IsWritten c entry (record books { sequences = p.sequences }) after

post_new-IsPosted :
    (c : Context) (draft : JournalEntryDraft) (soft : Bool) (books : Books) (entry : JournalEntry)
    (after : Books)
    → post_new c draft soft books ≡ ok (entry, after)
    → IsPosted c draft soft books entry after
unfolding post_new
post_new-IsPosted c draft soft books entry after h =
    let (p, found, h1) = >>=-eq-ok (prepare c draft soft books) _ h in
    let row = posted_entry c draft p.period p.rate p.base p.number in
    let from = record books { sequences = p.sequences } in
    let (same, written) = write_entry-IsWritten c row entry from after h1 in
    record {
      p = p;
      prepared = prepare-IsPrepared c draft soft books p found;
      is_entry = sym same;
      written = subst (λ e. IsWritten c e from after) same written;
    }

-- The two ways in which `post_entry` succeeds.
pub post_entry-cases :
    (c : Context) (draft : JournalEntryDraft) (soft : Bool) (books : Books) (entry : JournalEntry)
    (after : Books)
    → post_entry c draft soft books ≡ ok (entry, after)
    → ((existing c.tenant draft.idempotency_key books.entries ≡ some entry) × (after ≡ books))
      ⊎ ((existing c.tenant draft.idempotency_key books.entries ≡ none)
          × IsPosted c draft soft books entry after)
unfolding post_entry
post_entry-cases c draft soft books entry after h =
    let (u, valid, h1) = >>=-eq-ok (validate_draft draft c.tenant books) _ h in
    elim (Option-cases (existing c.tenant draft.idempotency_key books.entries)) [
      | inl new ↦ inr (new, post_new-IsPosted c draft soft books entry after (rw new at h1))
      | inr (old, e) ↦
          let pair = ok-injective (rw e at h1) in
          inl (e ∙ ap (λ p. some p.0) pair, ap (λ p. p.1) (sym pair))
    ]
