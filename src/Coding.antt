-- ===== src/Coding.antt =====
-- The five-level chart-of-accounts codes: backend/apps/accounting/services/coding.py.
pub mod Packing
pub mod Allocation
use achr.Prelude.{
  ℕ, zero, suc, ◌+◌, ◌-◌, ◌*◌, ◌/◌, ◌%◌, ◌^◌, String, Bool, true, false, not, ◌&&◌, ◌||◌, Option,
  none, some, List, [], ◌∷◌, ◌++◌, str_eq, ltb, leb, ◌==◌, if◌then◌else◌, find, strip, clip,
  Outcome, ok, err, raise_if, or_raise, ◌>>◌, ◌>>=◌,
}

pub data DomainError : Type 0 where
  level_out_of_range parent_required root_must_be_level_1 root_not_postable leaf_only_postable
        leaf_must_be_postable name_required parent_not_found no_numbers_remain :
      DomainError
  level_must_be : ℕ → DomainError

abbrev pub max_level : ℕ
max_level = 5

abbrev pub level_code_widths : List ℕ
level_code_widths = 4 ∷ 4 ∷ 3 ∷ 2 ∷ 4 ∷ []

abbrev pub in_levels : ℕ → Bool
in_levels level = leb 1 level && leb level max_level

-- `xs[i]`, which the callers keep in range.
abbrev pub get_at : List ℕ → ℕ → ℕ
get_at [] i = 0
get_at (x ∷ xs) zero = x
get_at (x ∷ xs) (suc i) = get_at xs i

-- `_slot_width`
unfoldable pub slot_width : ℕ → Outcome DomainError ℕ
slot_width level =
    raise_if (not (in_levels level)) level_out_of_range >> ok (get_at level_code_widths (level - 1))

unfoldable pub compute_full_code : Option ℕ → ℕ → ℕ → Outcome DomainError ℕ
unfolding slot_width
compute_full_code parent_full_code code level =
    if level == 1
    then ok code
    else (or_raise parent_full_code parent_required >>= λ full.
        slot_width level >>= λ width. ok (full * 10 ^ width + code))

unfoldable pub max_sibling_code : ℕ → Outcome DomainError ℕ
unfolding slot_width
max_sibling_code level = slot_width level >>= λ width. ok (10 ^ width - 1)

-- `LEVEL_CODE_WIDTHS[:level]`, and `reversed` of it.
abbrev pub take : ℕ → List ℕ → List ℕ
take zero xs = []
take (suc n) [] = []
take (suc n) (x ∷ xs) = x ∷ take n xs

abbrev pub reversed : List ℕ → List ℕ
reversed [] = []
reversed (x ∷ xs) = reversed xs ++ (x ∷ [])

-- The loop of `format_full_code`: what is appended and reversed at the end is put in front here.
abbrev pub decode : List ℕ → ℕ → List ℕ → List ℕ
decode [] remaining segments = segments
decode (width ∷ widths) remaining segments =
    decode widths (remaining / 10 ^ width) ((remaining % 10 ^ width) ∷ segments)

-- `format_full_code`, as the numbers that it joins with dots.
unfoldable pub format_full_code : ℕ → ℕ → List ℕ
format_full_code full_code level = decode (reversed (take level level_code_widths)) full_code []

unfoldable pub validate_account_hierarchy : ℕ → Option ℕ → Bool → Outcome DomainError (Unit {0})
validate_account_hierarchy level none is_postable =
    raise_if (not (in_levels level)) level_out_of_range
    >> raise_if (not (level == 1)) root_must_be_level_1
    >> raise_if is_postable root_not_postable
validate_account_hierarchy level (some parent_level) is_postable =
    raise_if (not (in_levels level)) level_out_of_range
    >> raise_if (not (level == parent_level + 1)) (level_must_be (parent_level + 1))
    >> raise_if (is_postable && not (level == max_level)) leaf_only_postable
    >> raise_if ((level == max_level) && not is_postable) leaf_must_be_postable

-- The columns of an account that the coder reads or fills, its primary key first. A legacy account,
-- which predates the coded chart, has no level, no segment and no full code. `code` is the numbers
-- that dots join; nothing here reads the free text that a legacy account has there.
pub record CodedAccount : Type 0 where
  pub id : ℕ
  pub tenant : ℕ
  pub parent : Option ℕ
  pub level : Option ℕ
  pub segment_code : Option ℕ
  pub full_code : Option ℕ
  pub code : List ℕ
  pub name : String
  pub type : String
  pub normal_balance_override : String
  pub income_category : String
  pub is_postable : Bool
  pub requires_party : Bool
  pub is_reconcilable : Bool
  pub currency : Option String
  pub created_by : Option ℕ

abbrev pub same_parent : Option ℕ → Option ℕ → Bool
same_parent none none = true
same_parent (some a) (some b) = a == b
same_parent none (some b) = false
same_parent (some a) none = false

abbrev pub is_sibling : ℕ → Option ℕ → CodedAccount → Bool
is_sibling tenant parent a = a.tenant == tenant && same_parent a.parent parent

-- `Max` of the database, which passes over NULL.
abbrev pub greater : Option ℕ → Option ℕ → Option ℕ
greater none rest = rest
greater (some n) none = some n
greater (some n) (some m) = some (if ltb m n then n else m)

-- `Max("segment_code")` among the siblings, NULL where none has a segment.
abbrev pub highest : ℕ → Option ℕ → List CodedAccount → Option ℕ
highest tenant parent [] = none
highest tenant parent (a ∷ as_) =
    let rest = highest tenant parent as_ in
    if is_sibling tenant parent a then greater a.segment_code rest else rest

-- `x or 0`
abbrev pub or_zero : Option ℕ → ℕ
or_zero none = 0
or_zero (some n) = n

unfoldable pub next_sibling_code : ℕ → Option ℕ → List CodedAccount → ℕ
next_sibling_code tenant parent accounts = or_zero (highest tenant parent accounts) + 1

-- The arguments of `allocate_account`, the parent by its key.
pub record Request : Type 0 where
  pub parent : Option ℕ
  pub name : String
  pub normal_balance : String
  pub income_category : String
  pub requires_party : Bool
  pub is_reconcilable : Bool
  pub currency : Option String
  pub user_id : Option ℕ

abbrev pub has_key : ℕ → ℕ → CodedAccount → Bool
has_key tenant pk a = a.id == pk && a.tenant == tenant

-- The parent row, read again under its lock.
unfoldable pub lock_parent :
    ℕ → Option ℕ → List CodedAccount → Outcome DomainError (Option CodedAccount)
lock_parent tenant none accounts = ok none
lock_parent tenant (some pk) accounts =
    or_raise (find (has_key tenant pk) accounts) parent_not_found >>= λ p. ok (some p)

abbrev pub level_of : Option CodedAccount → Option ℕ
level_of none = none
level_of (some p) = p.level

abbrev pub full_of : Option CodedAccount → Option ℕ
full_of none = none
full_of (some p) = p.full_code

-- `_DEFAULT_TYPE_FOR_ROOT` is "asset".
abbrev pub section_of : Option CodedAccount → String
section_of none = "asset"
section_of (some p) = p.type

-- `1 if parent is None else (parent_level or 0) + 1`
abbrev pub child_level : Option CodedAccount → ℕ
child_level none = 1
child_level (some p) = or_zero p.level + 1

-- The segment and the full code, with the guards that stand before them.
unfoldable pub allocate_code :
    ℕ → Request → Option CodedAccount → List CodedAccount → Outcome DomainError (ℕ × ℕ)
unfolding next_sibling_code max_sibling_code compute_full_code validate_account_hierarchy
allocate_code tenant r parent accounts =
    let level = child_level parent in
    validate_account_hierarchy level (level_of parent) (level == max_level)
    >> (max_sibling_code level >>= λ max.
        let segment = next_sibling_code tenant r.parent accounts in
        raise_if (ltb max segment) no_numbers_remain
        >> (compute_full_code (full_of parent) segment level >>= λ full. ok (segment, full)))

-- `Account(...)`, with the key that the database gives it.
unfoldable pub new_account : ℕ → ℕ → Request → Option CodedAccount → ℕ × ℕ → CodedAccount
unfolding strip format_full_code
new_account id tenant r parent (segment, full) =
    let level = child_level parent in
    let is_postable = level == max_level in
    record {
      id = id;
      tenant = tenant;
      parent = r.parent;
      level = some level;
      segment_code = some segment;
      full_code = some full;
      code = format_full_code full level;
      name = strip r.name;
      type = section_of parent;
      normal_balance_override = r.normal_balance;
      income_category = if is_postable then r.income_category else "none";
      is_postable = is_postable;
      requires_party = r.requires_party && is_postable;
      is_reconcilable = r.is_reconcilable && is_postable;
      currency = r.currency;
      created_by = r.user_id;
    }

-- `allocate_account`: the new account, and the accounts with it. `id` is the key that the database
-- gives. A row that the table's unique constraints refuse is not modelled as refused: the source
-- raises on it, and returns nothing.
unfoldable pub allocate_account :
    ℕ → ℕ → Request → List CodedAccount → Outcome DomainError (CodedAccount × List CodedAccount)
unfolding strip lock_parent allocate_code new_account
allocate_account id tenant r accounts =
    raise_if (str_eq (strip r.name) "") name_required
    >> (lock_parent tenant r.parent accounts >>= λ parent.
        allocate_code tenant r parent accounts >>= λ codes.
        let account = new_account id tenant r parent codes in
        ok (account, accounts ++ (account ∷ [])))
