-- ===== src/Ledger/Corrections/Rows.antt =====
-- One row of the table of entries under `.filter(pk=...).update(...)`.
use achr.Prelude.{
  ℕ, ◌+◌, ◌≡◌, ◌⊎◌, inl, inr, true, false, List, [], ◌∷◌, ◌++◌, sum_of, ◌==◌, arith, ap, ==_iff,
}
use achr.Ledger.Model.{JournalEntry}
use achr.Ledger.Corrections.{has_id, update_entry}

-- No row has this id.
abbrev pub IsFree : ℕ → List JournalEntry → Type 0
IsFree id [] = Unit
IsFree id (e ∷ es) = (has_id id e ≡ false) × IsFree id es

-- `e` is the one row of its id.
abbrev pub IsRow : JournalEntry → List JournalEntry → Type 0
IsRow e [] = ⊥
IsRow e (x ∷ xs) = ((x ≡ e) × IsFree e.id xs) ⊎ ((has_id e.id x ≡ false) × IsRow e xs)

module _ (g : JournalEntry → ℕ) (f : JournalEntry → JournalEntry) where
  pub sum_of-update_free :
      (id : ℕ) (es : List JournalEntry)
      → IsFree id es
      → sum_of g (update_entry id f es) ≡ sum_of g es
  unfolding update_entry
  sum_of-update_free id [] h = omega arith
  sum_of-update_free id (x ∷ xs) h = ground (arith, sum_of-update_free id xs h.1)

  -- An update of one row replaces its summand.
  pub sum_of-update :
      (e : JournalEntry) (es : List JournalEntry)
      → IsRow e es
      → sum_of g (update_entry e.id f es) + g e ≡ sum_of g es + g (f e)
  unfolding update_entry
  sum_of-update e [] h = absurd h
  sum_of-update e (x ∷ xs) (inl (same, free)) =
      let t : (x.id == e.id) ≡ true = (==_iff x.id e.id).1 (ap (λ y. y.id) same) in
      rw t (omega (arith, sum_of-update_free e.id xs free, ap g same, ap (λ y. g (f y)) same))
  sum_of-update e (x ∷ xs) (inr (other, row)) = rw other (omega (arith, sum_of-update e xs row))

  -- An update that does not change the summands.
  pub sum_of-update_same :
      (id : ℕ) (es : List JournalEntry)
      → ((e : JournalEntry) → g (f e) ≡ g e)
      → sum_of g (update_entry id f es) ≡ sum_of g es
  unfolding update_entry
  sum_of-update_same id [] h = omega arith
  sum_of-update_same id (x ∷ xs) h = ground (arith, h x, sum_of-update_same id xs h)

pub IsFree-append :
    (id : ℕ) (es ys : List JournalEntry) → IsFree id es → IsFree id ys → IsFree id (es ++ ys)
IsFree-append id [] ys h k = k
IsFree-append id (x ∷ xs) ys h k = (h.0, IsFree-append id xs ys h.1 k)

pub IsRow-append :
    (e : JournalEntry) (es ys : List JournalEntry)
    → IsRow e es
    → IsFree e.id ys
    → IsRow e (es ++ ys)
IsRow-append e [] ys row free = absurd row
IsRow-append e (x ∷ xs) ys (inl (same, rest)) free = inl (same, IsFree-append e.id xs ys rest free)
IsRow-append e (x ∷ xs) ys (inr (other, row)) free = inr (other, IsRow-append e xs ys row free)
