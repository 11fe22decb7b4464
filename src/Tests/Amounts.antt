-- ===== src/Tests/Amounts.antt =====
-- Rounding, rates, numbers and periods at concrete inputs (backend/apps/core/fields.py and
-- backend/apps/accounting/services).
use achr.Prelude.{
  ◌+◌, ◌≡◌, refl, ◌⊎◌, true, false, none, some, [], ◌∷◌, find, filter, arith, ok, All,
}
use achr.Money.{
  decimal, one, quantize, minor, minor_units, units_in, same_code, to_upper, reciprocal,
}
use achr.Ledger.Model.{PeriodStatus}
use achr.Ledger.Draft.{total_debit, total_credit, JournalEntryDraft}
use achr.Ledger.Fx.{base_currency, is_rate, latest, lookup_rate, given_rate, resolve_rate}
use achr.Ledger.Fx.Latest.{IsRateOn, resolve_rate_foreign}
use achr.Ledger.Numbering.{get_or_create, allocate_number, allocate_document_number, is_sequence}
use achr.Ledger.Numbering.Gapless.{
  IsFirstFree, allocate_number_consecutive, allocate_document_number-IsFirstFree,
}
use achr.Ledger.Guards.{entry_balanced}
use achr.Ledger.Posting.{posted_entry}
use achr.Ledger.Posting.Progress.{IsWhole, whole-entry_balanced, half_units-unbalanced}
use achr.Tests.Company.{books, sale, clerk, date, period, journal, draft_of, line, first_number}

euro_resolved : resolve_rate 1 "EUR" (date 2024 5 6) none books ≡ ok (decimal 1100000 6)
unfolding resolve_rate base_currency given_rate lookup_rate latest
euro_resolved = refl

usd_based : base_currency 1 books ≡ ok "USD"
unfolding base_currency
usd_based = refl

nothing_given : given_rate none ≡ none
unfolding given_rate
nothing_given = refl

resolve_rate_foreign_example :
    (best : _) × ((IsRateOn 1 "EUR" "USD" (date 2024 5 6) books.rates best
        × (decimal 1100000 6 ≡ best.rate))
      ⊎ ((filter (is_rate 1 "EUR" "USD" (date 2024 5 6)) books.rates ≡ [])
          × IsRateOn 1 "USD" "EUR" (date 2024 5 6) books.rates best
          × (decimal 1100000 6 ≡ reciprocal best.rate)))
resolve_rate_foreign_example =
    resolve_rate_foreign 1 "EUR" "USD" (date 2024 5 6) none books (decimal 1100000 6) usd_based refl
      nothing_given euro_resolved

allocate_number_consecutive_example :
    (allocate_number 1 journal (date 2024 6 1) (allocate_number 1 journal (date 2024 5 6) []).1).0
    ≡ record (allocate_number 1 journal (date 2024 5 6) []).0 {
      value = (allocate_number 1 journal (date 2024 5 6) []).0.value + 1;
    }
allocate_number_consecutive_example =
    allocate_number_consecutive 1 journal (date 2024 5 6) (date 2024 6 1) [] refl

allocate_document_number-IsFirstFree_example :
    IsFirstFree
      (get_or_create 1 "invoice" 2024 "INV" []).0.next_value
      (1 ∷ 3 ∷ 2 ∷ [])
      (allocate_document_number 1 "invoice" "INV" (date 2024 5 6) (1 ∷ 3 ∷ 2 ∷ []) []).0.value
    × (find
          (is_sequence 1 "invoice" 2024)
          (allocate_document_number 1 "invoice" "INV" (date 2024 5 6) (1 ∷ 3 ∷ 2 ∷ []) []).1
        ≡ some (record (get_or_create 1 "invoice" 2024 "INV" []).0 {
          next_value =
              (allocate_document_number 1 "invoice" "INV"
                (date 2024 5 6)
                (1 ∷ 3 ∷ 2 ∷ [])
                []).0.value
              + 1;
        }))
allocate_document_number-IsFirstFree_example =
    allocate_document_number-IsFirstFree 1 "invoice" "INV" (date 2024 5 6) (1 ∷ 3 ∷ 2 ∷ []) []

cent : minor "USD" ≡ 10000
unfolding minor minor_units units_in same_code to_upper
cent = refl

sale-IsWhole : All (IsWhole sale.currency) sale.lines
unfolding IsWhole minor minor_units units_in same_code to_upper
sale-IsWhole = ((500, 0, refl, refl), ((0, 500, refl, refl), tt))

whole-entry_balanced_example :
    entry_balanced (posted_entry clerk sale (period PeriodStatus.open_) one "USD" first_number)
    ≡ true
whole-entry_balanced_example =
    whole-entry_balanced clerk sale (period PeriodStatus.open_) one "USD" first_number sale-IsWhole
      (omega arith) refl (omega arith)

-- Two debits of half a cent, and a credit of a cent.
abbrev halves : JournalEntryDraft
halves = draft_of (line 10 5000 0 ∷ line 10 5000 0 ∷ line 20 0 10000 ∷ [])

half_units-unbalanced_example :
    (quantize (total_debit halves) halves.currency ≡ quantize (total_credit halves) halves.currency)
    × (entry_balanced (posted_entry clerk halves (period PeriodStatus.open_) one "USD" first_number)
        ≡ false)
half_units-unbalanced_example =
    half_units-unbalanced clerk halves (period PeriodStatus.open_) one "USD" first_number
      (line 10 5000 0) (line 10 5000 0) (line 20 0 10000) 0 5000 refl cent (omega arith)
      (omega (arith, cent)) (omega (arith, cent)) refl refl refl refl
