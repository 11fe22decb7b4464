-- ===== src/Ledger/Numbering/Gapless.antt =====
-- Document numbers have no gaps and no repeats (backend/apps/accounting/services/posting.py and
-- services/sequences.py).
use text.Mathlib.TextPositions.{eq_refl}
use achr.Prelude.{
  ℕ, zero, suc, ◌+◌, ◌-◌, ◌≤◌, ◌<◌, ◌≡◌, refl, subst, inl, inr, String, Bool, true, false, ◌&&◌,
  none, some, List, [], ◌∷◌, ◌++◌, find, leb, arith, if◌then◌else◌, Bool-cases,
}
use achr.Ledger.Model.{Date, Journal, DocumentSequence}
use achr.Ledger.Numbering.{
  is_sequence, new_sequence, get_or_create, save_next, journal_scope, allocate_number, is_taken,
  skip_taken, length_of, allocate_document_number,
}

created :
    (tenant : ℕ) (scope : String) (year : ℕ) (prefix : String) (t : List DocumentSequence)
    → find (is_sequence tenant scope year) t ≡ none
    → find (is_sequence tenant scope year) (t ++ (new_sequence tenant scope year prefix ∷ []))
      ≡ some (new_sequence tenant scope year prefix)
created tenant scope year prefix [] h = ground (arith, eq_refl scope)
created tenant scope year prefix (x ∷ xs) h = ground (arith, created tenant scope year prefix xs)

-- The counter that `get_or_create` returns is in the table that it returns.
find-get_or_create :
    (tenant : ℕ) (scope : String) (year : ℕ) (prefix : String) (table : List DocumentSequence)
    → find (is_sequence tenant scope year) (get_or_create tenant scope year prefix table).1
      ≡ some (get_or_create tenant scope year prefix table).0
unfolding get_or_create
find-get_or_create tenant scope year prefix table =
    ground (arith, created tenant scope year prefix table)

-- Saving a counter is what the next look at it finds.
find-save_next :
    (tenant : ℕ) (scope : String) (year next : ℕ) (table : List DocumentSequence)
    (s : DocumentSequence)
    → find (is_sequence tenant scope year) table ≡ some s
    → find (is_sequence tenant scope year) (save_next tenant scope year next table)
      ≡ some (record s { next_value = next })
unfolding save_next
find-save_next tenant scope year next [] s h = cc
find-save_next tenant scope year next (x ∷ xs) s h =
    ground (arith, find-save_next tenant scope year next xs s)

get_or_create-found :
    (tenant : ℕ) (scope : String) (year : ℕ) (prefix : String) (table : List DocumentSequence)
    (s : DocumentSequence)
    → find (is_sequence tenant scope year) table ≡ some s
    → get_or_create tenant scope year prefix table ≡ (s, table)
unfolding get_or_create
get_or_create-found tenant scope year prefix table s found = ground (arith)

-- Two numbers that are allocated one after the other for a journal, on two days of one year, have
-- consecutive values and are otherwise the same.
pub allocate_number_consecutive :
    (tenant : ℕ) (journal : Journal) (day day' : Date) (table : List DocumentSequence)
    → day'.year ≡ day.year
    → let (n, table') = allocate_number tenant journal day table in
      (allocate_number tenant journal day' table').0 ≡ record n { value = n.value + 1 }
unfolding allocate_number
allocate_number_consecutive tenant journal day day' table same =
    let scope = journal_scope journal.code in
    let g = get_or_create tenant scope day.year journal.sequence_prefix table in
    let found =
      find-save_next tenant scope day.year (g.0.next_value + 1) g.1 g.0
        (find-get_or_create tenant scope day.year journal.sequence_prefix table) in
    let again =
      get_or_create-found tenant scope day.year journal.sequence_prefix
        (save_next tenant scope day.year (g.0.next_value + 1) g.1)
        (record g.0 { next_value = g.0.next_value + 1 }) found in
    rw (same, again) refl

-- How many of the taken numbers are at least v.
abbrev from : ℕ → List ℕ → ℕ
from v [] = 0
from v (t ∷ ts) = (if leb v t then 1 else 0) + from v ts

from-le-length : (v : ℕ) (ts : List ℕ) → from v ts ≤ length_of ts
from-le-length v [] = omega arith
from-le-length v (t ∷ ts) = ground (arith, from-le-length v ts)

from_antitone : (v : ℕ) (ts : List ℕ) → from (v + 1) ts ≤ from v ts
from_antitone v [] = omega arith
from_antitone v (t ∷ ts) = ground (arith, from_antitone v ts)

from_taken : (v : ℕ) (ts : List ℕ) → is_taken v ts ≡ true → from (v + 1) ts < from v ts
from_taken v [] h = cc
from_taken v (t ∷ ts) h = ground (arith, from_taken v ts, from_antitone v ts)

-- All of the n numbers from v on are taken.
abbrev pub all_taken : ℕ → ℕ → List ℕ → Bool
all_taken v zero taken = true
all_taken v (suc n) taken = is_taken v taken && all_taken (v + 1) n taken

-- What the search for a free number promises, from the number that it starts at: it is not taken, and
-- all from the start up to it are.
pub IsFirstFree : ℕ → List ℕ → ℕ → Type 0
IsFirstFree v taken w = (is_taken w taken ≡ false) × (v ≤ w) × (all_taken v (w - v) taken ≡ true)

skipped :
    (v w : ℕ) (taken : List ℕ)
    → is_taken v taken ≡ true
    → v + 1 ≤ w
    → all_taken (v + 1) (w - (v + 1)) taken ≡ true
    → all_taken v (w - v) taken ≡ true
skipped v w taken here le there =
    let e : suc (w - (v + 1)) ≡ w - v = omega arith in
    subst (λ n. all_taken v n taken ≡ true) e (rw here there)

pub skip_taken-IsFirstFree :
    (fuel v : ℕ) (taken : List ℕ)
    → from v taken < fuel
    → IsFirstFree v taken (skip_taken fuel v taken)
unfolding IsFirstFree skip_taken
skip_taken-IsFirstFree zero v taken h = ground (arith)
skip_taken-IsFirstFree (suc fuel) v taken h = elim (Bool-cases (is_taken v taken)) [
  | inl yes_taken ↦
      let less = from_taken v taken yes_taken in
      let (free, above, between) = skip_taken-IsFirstFree fuel (v + 1) taken (omega arith) in
      rw yes_taken
        (free, omega arith, skipped v (skip_taken fuel (v + 1) taken) taken yes_taken above between)
  | inr free ↦
      let e : 0 ≡ v - v = omega arith in
      rw free (free, omega arith, subst (λ n. all_taken v n taken ≡ true) e refl)
]

-- The number that is allocated is the first one, from the counter's value on, that is not taken,
-- whatever numbers are taken; and the counter is saved one past it.
pub allocate_document_number-IsFirstFree :
    (tenant : ℕ) (scope prefix : String) (day : Date) (taken : List ℕ)
    (table : List DocumentSequence)
    → let counter = (get_or_create tenant scope day.year prefix table).0 in
      let (n, table') = allocate_document_number tenant scope prefix day taken table in
      IsFirstFree counter.next_value taken n.value
      × (find (is_sequence tenant scope day.year) table'
          ≡ some (record counter { next_value = n.value + 1 }))
unfolding allocate_document_number
allocate_document_number-IsFirstFree tenant scope prefix day taken table =
    let g = get_or_create tenant scope day.year prefix table in
    (
      skip_taken-IsFirstFree (suc (length_of taken)) g.0.next_value taken
          (let bound = from-le-length g.0.next_value taken in omega arith),
      find-save_next tenant scope day.year _ g.1 g.0
          (find-get_or_create tenant scope day.year prefix table),
    )
