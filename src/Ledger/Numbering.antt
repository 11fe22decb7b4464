-- ===== src/Ledger/Numbering.antt =====
-- Gapless document numbers: `allocate_number` of backend/apps/accounting/services/posting.py and
-- `allocate_document_number` of services/sequences.py, over the counters of models_sequence.py.
pub mod Gapless
use Prim.Native.String.{◌++◌ as str_append}
use achr.Prelude.{
  ℕ, zero, suc, ◌+◌, String, Bool, true, false, ◌&&◌, ◌||◌, Option, none, some, List, [], ◌∷◌, ◌++◌,
  find, update, str_eq, ◌==◌, if◌then◌else◌,
}
use achr.Ledger.Model.{Date, Journal, DocumentNumber, DocumentSequence}

abbrev pub is_sequence : ℕ → String → ℕ → DocumentSequence → Bool
is_sequence tenant scope year s = s.tenant == tenant && str_eq s.scope scope && s.year == year

abbrev pub new_sequence : ℕ → String → ℕ → String → DocumentSequence
new_sequence tenant scope year prefix = record {
  tenant = tenant;
  scope = scope;
  year = year;
  prefix = prefix;
  next_value = 1;
  padding = 6;
}

-- `select_for_update().get_or_create(...)`: the counter, and the table with it.
unfoldable pub get_or_create :
    ℕ → String → ℕ → String → List DocumentSequence → DocumentSequence × List DocumentSequence
get_or_create tenant scope year prefix sequences =
    elim (find (is_sequence tenant scope year) sequences) [
      | some s ↦ (s, sequences)
      | none ↦ let s = new_sequence tenant scope year prefix in (s, sequences ++ (s ∷ []))
    ]

-- `seq.save(update_fields=["next_value", ...])`
unfoldable pub save_next : ℕ → String → ℕ → ℕ → List DocumentSequence → List DocumentSequence
save_next tenant scope year next =
    update (is_sequence tenant scope year) λ s. record s { next_value = next }

-- `f"journal:{journal.code}"`
unfoldable pub journal_scope : String → String
journal_scope code = str_append "journal:" code

-- `allocate_number`: the prefix, the year and the value of `f"{seq.prefix}-{year}-{value:06d}"`.
unfoldable pub allocate_number :
    ℕ → Journal → Date → List DocumentSequence → DocumentNumber × List DocumentSequence
unfolding get_or_create save_next
allocate_number tenant journal day sequences =
    let scope = journal_scope journal.code in
    let (s, table) = get_or_create tenant scope day.year journal.sequence_prefix sequences in
    (
      record { prefix = s.prefix; year = day.year; value = s.next_value; padding = 6 },
      save_next tenant scope day.year (s.next_value + 1) table,
    )

abbrev pub is_taken : ℕ → List ℕ → Bool
is_taken v [] = false
is_taken v (t ∷ taken) = t == v || is_taken v taken

-- `while taken.filter(number=candidate).exists(): value += 1`, with fuel. The numbers taken are
-- given by their values, among those that are written with the counter's prefix and year.
unfoldable pub skip_taken : ℕ → ℕ → List ℕ → ℕ
skip_taken zero v taken = v
skip_taken (suc fuel) v taken =
    let rest = skip_taken fuel (v + 1) taken in if is_taken v taken then rest else v

abbrev length_of : List ℕ → ℕ
length_of [] = 0
length_of (x ∷ xs) = suc (length_of xs)

-- `allocate_document_number`; `taken` is empty where no collision model is passed.
unfoldable pub allocate_document_number :
    ℕ
    → String
    → String
    → Date
    → List ℕ
    → List DocumentSequence
    → DocumentNumber × List DocumentSequence
unfolding get_or_create save_next skip_taken
allocate_document_number tenant scope prefix day taken sequences =
    let (s, table) = get_or_create tenant scope day.year prefix sequences in
    let value = skip_taken (suc (length_of taken)) s.next_value taken in
    (
      record { prefix = s.prefix; year = s.year; value = value; padding = s.padding },
      save_next tenant scope day.year (value + 1) table,
    )
