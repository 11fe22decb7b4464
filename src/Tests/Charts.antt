-- ===== src/Tests/Charts.antt =====
-- Account codes at concrete inputs (backend/apps/accounting/services/coding.py).
use achr.Prelude.{◌≡◌, refl, false, none, some, List, [], ◌∷◌, ◌++◌, ◌-◌, arith, ok, strip}
use achr.Coding.{
  CodedAccount, Request, slot_width, compute_full_code, max_sibling_code, format_full_code,
  allocate_account, lock_parent, allocate_code, new_account, next_sibling_code,
  validate_account_hierarchy,
}
use achr.Coding.Packing.{format_full_code-compute_full_code}
use achr.Coding.Allocation.{IsAllocated, allocate_account-IsAllocated}
use achr.Tests.Company.{value_or}

packed : compute_full_code (some 10002) 45 3 ≡ ok 10002045
unfolding compute_full_code slot_width
packed = refl

widest : max_sibling_code 3 ≡ ok 999
unfolding max_sibling_code slot_width
widest = refl

format_full_code-compute_full_code_example :
    format_full_code 10002045 3 ≡ format_full_code 10002 (3 - 1) ++ (45 ∷ [])
format_full_code-compute_full_code_example =
    format_full_code-compute_full_code 10002 45 3 10002045 999 packed widest (omega arith)
      (omega arith)

abbrev assets : CodedAccount
assets = record {
  id = 1;
  tenant = 1;
  parent = none;
  level = some 1;
  segment_code = some 1;
  full_code = some 1;
  code = 1 ∷ [];
  name = "Assets";
  type = "asset";
  normal_balance_override = "";
  income_category = "none";
  is_postable = false;
  requires_party = false;
  is_reconcilable = false;
  currency = none;
  created_by = none;
}

abbrev request : Request
request = record {
  parent = some 1;
  name = " Cash ";
  normal_balance = "";
  income_category = "none";
  requires_party = false;
  is_reconcilable = false;
  currency = none;
  user_id = some 5;
}

abbrev opened : CodedAccount × List CodedAccount
opened = value_or (assets, []) (allocate_account 2 1 request (assets ∷ []))

cash_opened : allocate_account 2 1 request (assets ∷ []) ≡ ok opened
unfolding allocate_account strip lock_parent allocate_code new_account next_sibling_code
    max_sibling_code slot_width compute_full_code validate_account_hierarchy format_full_code
cash_opened = refl

allocate_account-IsAllocated_example : IsAllocated 1 request (assets ∷ []) opened
allocate_account-IsAllocated_example =
    allocate_account-IsAllocated 2 1 request (assets ∷ []) opened cash_opened

-- An account of the time before the coded chart, and what is opened under it.
abbrev legacy : CodedAccount
legacy = record assets { level = none; segment_code = none; full_code = none; code = [] }

abbrev under_legacy : CodedAccount × List CodedAccount
under_legacy = value_or (assets, []) (allocate_account 2 1 request (legacy ∷ []))

legacy_child : under_legacy.0.level ≡ some 1
unfolding allocate_account strip lock_parent allocate_code new_account next_sibling_code
    max_sibling_code slot_width compute_full_code validate_account_hierarchy format_full_code
legacy_child = refl

legacy_code : under_legacy.0.code ≡ 1 ∷ []
unfolding allocate_account strip lock_parent allocate_code new_account next_sibling_code
    max_sibling_code slot_width compute_full_code validate_account_hierarchy format_full_code
legacy_code = refl
