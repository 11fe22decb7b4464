-- ===== src/Ledger/Posting/Retry.antt =====
-- A posting that is repeated with its idempotency key: a retried webhook or task.
use mathlib.Core.HLevel.{Unit-prop}
use text.Mathlib.TextPositions.{eq_refl}
use achr.Prelude.{
  ℕ, ◌≡◌, refl, sym, ap, ◌∙◌, inl, inr, Bool, true, false, none, some, List, [], ◌∷◌, ◌++◌, map, ok,
  find, str_eq, arith, Bool-cases, >>=-eq-ok,
}
use achr.Ledger.Model.{Account, JournalEntry, Books}
use achr.Ledger.Draft.{
  LineDraft, JournalEntryDraft, has_account, is_missing, check_accounts, validate_draft,
}
use achr.Ledger.Balances.{Delta, plus}
use achr.Ledger.Balances.Net.{credited, credited-keeps, apply-eq-map}
use achr.Ledger.Guards.{has_key}
use achr.Ledger.Posting.{Context, posted_entry, existing, post_entry}
use achr.Ledger.Posting.Effect.{IsPosted, post_entry-cases}

-- Moving balances does not change what `validate_draft` looks at.
has_account-map :
    (tenant now : ℕ) (d : Delta) (accounts : List Account) (l : LineDraft)
    → has_account tenant (map (credited now d) accounts) l ≡ has_account tenant accounts l
unfolding has_account
has_account-map tenant now d [] l = refl
has_account-map tenant now d (a ∷ accounts) l =
    let k = credited-keeps now d a in
    ground (arith, k.0, k.1, has_account-map tenant now d accounts l)

is_missing-map :
    (tenant now : ℕ) (d : Delta) (accounts : List Account) (lines : List LineDraft)
    → is_missing tenant (map (credited now d) accounts) lines ≡ is_missing tenant accounts lines
unfolding is_missing
is_missing-map tenant now d accounts [] = refl
is_missing-map tenant now d accounts (l ∷ ls) =
    rw (has_account-map tenant now d accounts l, is_missing-map tenant now d accounts ls)

check_accounts-map :
    (tenant now : ℕ) (d : Delta) (lines : List LineDraft) (accounts : List Account)
    → check_accounts tenant lines (map (credited now d) accounts)
      ≡ check_accounts tenant lines accounts
unfolding check_accounts
check_accounts-map tenant now d lines [] = refl
check_accounts-map tenant now d lines (a ∷ accounts) =
    let (i, t, s, p, v) = credited-keeps now d a in
    rw (i, t, p, v, check_accounts-map tenant now d lines accounts)

validate_draft-map :
    (draft : JournalEntryDraft) (tenant now : ℕ) (d : Delta) (books after : Books)
    → map (credited now d) books.accounts ≡ after.accounts
    → validate_draft draft tenant after ≡ validate_draft draft tenant books
unfolding validate_draft
validate_draft-map draft tenant now d books after e = rw (
  ← e,
  is_missing-map tenant now d books.accounts draft.lines,
  check_accounts-map tenant now d draft.lines books.accounts,
)

find-append {ℓ} :
    {A : Type ℓ} (p : A → Bool) (xs ys : List A) → find p xs ≡ none → find p (xs ++ ys) ≡ find p ys
find-append p [] ys h = refl
find-append p (x ∷ xs) ys h = elim (Bool-cases (p x)) [
  | inl t ↦ cc (rw t at h)
  | inr f ↦ rw f (find-append p xs ys (rw f at h))
]

existing-posted :
    (c : Context) (draft : JournalEntryDraft) (soft : Bool) (books after : Books)
    (entry : JournalEntry)
    → str_eq draft.idempotency_key "" ≡ false
    → existing c.tenant draft.idempotency_key books.entries ≡ none
    → IsPosted c draft soft books entry after
    → existing c.tenant draft.idempotency_key after.entries ≡ some entry
unfolding existing posted_entry
existing-posted c draft soft books after entry keyed new w =
    let key = draft.idempotency_key in
    let mine : has_key c.tenant key entry ≡ true = rw w.is_entry (ground (arith, eq_refl key)) in
    let none_before : find (has_key c.tenant key) books.entries ≡ none = rw keyed at new in
    rw (
      w.written.is_after,
      keyed,
      find-append (has_key c.tenant key) books.entries (entry ∷ []) none_before,
      mine,
    )

validated :
    (c : Context) (draft : JournalEntryDraft) (soft : Bool) (books : Books)
    {r : JournalEntry × Books}
    → post_entry c draft soft books ≡ ok r
    → validate_draft draft c.tenant books ≡ ok tt
unfolding post_entry
validated c draft soft books h =
    let (u, valid, h1) = >>=-eq-ok (validate_draft draft c.tenant books) _ h in
    valid ∙ ap ok (Unit-prop u tt)

repeated :
    (c : Context) (draft : JournalEntryDraft) (soft : Bool) (books : Books) (entry : JournalEntry)
    → validate_draft draft c.tenant books ≡ ok tt
    → existing c.tenant draft.idempotency_key books.entries ≡ some entry
    → post_entry c draft soft books ≡ ok (entry, books)
unfolding post_entry
repeated c draft soft books entry valid found = rw (valid, found) refl

-- A posting with an idempotency key that has succeeded, and is repeated in the same tenant by
-- whichever user and under whichever permission, returns the entry of the first run and changes
-- nothing.
pub post_entry_retry :
    (c c' : Context) (draft : JournalEntryDraft) (soft soft' : Bool) (books after : Books)
    (entry : JournalEntry)
    → str_eq draft.idempotency_key "" ≡ false
    → c'.tenant ≡ c.tenant
    → post_entry c draft soft books ≡ ok (entry, after)
    → post_entry c' draft soft' after ≡ ok (entry, after)
post_entry_retry c c' draft soft soft' books after entry keyed same h =
    let valid = validated c draft soft books h in
    elim (post_entry-cases c draft soft books entry after h) [
      | inl (found, unchanged) ↦
          repeated c' draft soft' after entry (rw (unchanged, same) valid)
            (rw (unchanged, same) found)
      | inr (new, posted) ↦
          let w = posted.written in
          let (d, moved) =
            apply-eq-map c.tenant c.now plus entry.lines books.accounts w.accounts w.moved in
          let kept =
            validate_draft-map draft c.tenant c.now d books after
              (moved ∙ ap (λ b. b.accounts) (sym w.is_after)) in
          repeated c' draft soft' after entry (rw same (kept ∙ valid))
            (rw same (existing-posted c draft soft books after entry keyed new posted))
    ]
