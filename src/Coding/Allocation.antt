-- ===== src/Coding/Allocation.antt =====
-- What an allocated account is (`allocate_account` of backend/apps/accounting/services/coding.py).
use achr.Prelude.{
  ℕ, ◌+◌, ◌-◌, ◌≤◌, ◌<◌, ◌≡◌, refl, sym, subst, Option, none, some, List, [], ◌∷◌, ◌++◌, Bool, true,
  false, ltb, leb, ◌==◌, ◌||◌, ◌&&◌, not, arith, ok, >>=-eq-ok, raise_if-eq-ok, ok-injective, zero,
  suc, if◌then◌else◌,
}
use achr.Coding.{
  CodedAccount, Request, max_level, is_sibling, highest, greater, or_zero, next_sibling_code,
  child_level, level_of, full_of, validate_account_hierarchy, max_sibling_code, compute_full_code,
  lock_parent, allocate_code, new_account, format_full_code, allocate_account, no_numbers_remain,
  in_levels,
}
use achr.Coding.Packing.{format_full_code-child, format_full_code-root, max_sibling_code-in_levels}

-- The segments of a level and a full code, none where one of them is missing.
abbrev pub segments_of : Option ℕ → Option ℕ → List ℕ
segments_of none full = []
segments_of (some level) none = []
segments_of (some level) (some full) = format_full_code full level

-- The segments of the row above a new account, of which a legacy row has none.
abbrev pub segments_above : Option CodedAccount → List ℕ
segments_above none = []
segments_above (some p) = segments_of p.level p.full_code

abbrev pub at_most : ℕ → Option ℕ → Bool
at_most n none = true
at_most n (some segment) = leb segment n

-- Every account under the parent has a segment of at most n, or none.
abbrev pub is_above : ℕ → Option ℕ → ℕ → List CodedAccount → Bool
is_above tenant parent n [] = true
is_above tenant parent n (a ∷ rest) =
    (not (is_sibling tenant parent a) || at_most n a.segment_code) && is_above tenant parent n rest

at_most_mono :
    (n m : ℕ) (segment : Option ℕ) → n ≤ m → at_most n segment ≡ true → at_most m segment ≡ true
at_most_mono n m none le h = refl
at_most_mono n m (some segment) le h = ground (arith)

above_mono :
    (tenant : ℕ) (parent : Option ℕ) (n m : ℕ) (accounts : List CodedAccount)
    → n ≤ m
    → is_above tenant parent n accounts ≡ true
    → is_above tenant parent m accounts ≡ true
above_mono tenant parent n m [] le h = refl
above_mono tenant parent n m (a ∷ rest) le h =
    ground (arith, above_mono tenant parent n m rest le, at_most_mono n m a.segment_code le)

-- The greater of two numbers is no less than either.
at_most-greater :
    (a b : Option ℕ)
    → (at_most (or_zero (greater a b)) a ≡ true) × (or_zero b ≤ or_zero (greater a b))
at_most-greater none b = (refl, omega arith)
at_most-greater (some n) none = (ground (arith), omega arith)
at_most-greater (some n) (some m) = (ground (arith), ground (arith))

-- The first row, of which b says whether it is a sibling, in front of rows under `top`.
is_above-greater :
    (b : Bool) (tenant : ℕ) (parent segment top : Option ℕ) (rest : List CodedAccount)
    → is_above tenant parent (or_zero top) rest ≡ true
    → ((not b || at_most (or_zero (if b then greater segment top else top)) segment)
        && is_above tenant parent (or_zero (if b then greater segment top else top)) rest)
      ≡ true
is_above-greater false tenant parent segment top rest h = h
is_above-greater true tenant parent segment top rest h =
    let (own, more) = at_most-greater segment top in
    let kept = above_mono tenant parent (or_zero top) (or_zero (greater segment top)) rest more h in
    rw own kept

is_above-highest :
    (tenant : ℕ) (parent : Option ℕ) (accounts : List CodedAccount)
    → is_above tenant parent (or_zero (highest tenant parent accounts)) accounts ≡ true
is_above-highest tenant parent [] = refl
is_above-highest tenant parent (a ∷ rest) =
    is_above-greater (is_sibling tenant parent a) tenant parent a.segment_code
      (highest tenant parent rest) rest (is_above-highest tenant parent rest)

-- What `allocate_code` promises of the segment and the full code that it returns.
pub IsCode : ℕ → Option ℕ → Option CodedAccount → List CodedAccount → ℕ × ℕ → Type 0
IsCode tenant key parent accounts (segment, full) =
    (in_levels (child_level parent) ≡ true)
    × (0 < segment)
    × (is_above tenant key (segment - 1) accounts ≡ true)
    × (format_full_code full (child_level parent) ≡ segments_above parent ++ (segment ∷ []))

ltb-le : (a b : ℕ) → ltb a b ≡ false → b ≤ a
ltb-le a b h = ground (arith)

-- The segments that are read back, by the level and the full code of the row above.
segments_of-lem :
    (above full_above : Option ℕ) (segment full max : ℕ)
    → compute_full_code full_above segment (or_zero above + 1) ≡ ok full
    → max_sibling_code (or_zero above + 1) ≡ ok max
    → segment ≤ max
    → format_full_code full (or_zero above + 1) ≡ segments_of above full_above ++ (segment ∷ [])
unfolding compute_full_code format_full_code
segments_of-lem none full_above segment full max packed widest fits =
    format_full_code-root full_above segment full max packed widest fits
segments_of-lem (some level) (some above) segment full max packed widest fits =
    format_full_code-child level above segment full max packed widest fits
segments_of-lem (some zero) none segment full max packed widest fits =
    format_full_code-root none segment full max packed widest fits
segments_of-lem (some (suc level)) none segment full max packed widest fits =
    let deep : (suc level + 1 == 1) ≡ false = ground (arith) in cc (rw deep at packed)

segments-lem :
    (parent : Option CodedAccount) (segment full max : ℕ)
    → compute_full_code (full_of parent) segment (child_level parent) ≡ ok full
    → max_sibling_code (child_level parent) ≡ ok max
    → segment ≤ max
    → format_full_code full (child_level parent) ≡ segments_above parent ++ (segment ∷ [])
segments-lem none segment full max packed widest fits =
    format_full_code-root none segment full max packed widest fits
segments-lem (some p) segment full max packed widest fits =
    segments_of-lem p.level p.full_code segment full max packed widest fits

pred-highest :
    (tenant : ℕ) (key : Option ℕ) (accounts : List CodedAccount)
    → is_above tenant key (next_sibling_code tenant key accounts - 1) accounts ≡ true
unfolding next_sibling_code
pred-highest tenant key accounts =
    let top = or_zero (highest tenant key accounts) in
    let e : top + 1 - 1 ≡ top = omega arith in
    subst (λ n. is_above tenant key n accounts ≡ true) (sym e)
      (is_above-highest tenant key accounts)

pub allocate_code-IsCode :
    (tenant : ℕ) (r : Request) (parent : Option CodedAccount) (accounts : List CodedAccount)
    (codes : ℕ × ℕ)
    → allocate_code tenant r parent accounts ≡ ok codes
    → IsCode tenant r.parent parent accounts codes
unfolding allocate_code IsCode next_sibling_code
allocate_code-IsCode tenant r parent accounts codes h =
    let level = child_level parent in
    let segment = next_sibling_code tenant r.parent accounts in
    let (u, valid, h1) =
      >>=-eq-ok (validate_account_hierarchy level (level_of parent) (level == max_level)) _ h in
    let (max, widest, h2) = >>=-eq-ok (max_sibling_code level) _ h1 in
    let (fits, h3) = raise_if-eq-ok (ltb max segment) no_numbers_remain _ h2 in
    let (full, packed, h4) = >>=-eq-ok (compute_full_code (full_of parent) segment level) _ h3 in
    let room : segment ≤ max = ltb-le max segment fits in
    subst (IsCode tenant r.parent parent accounts) (ok-injective h4) (
      max_sibling_code-in_levels level max widest,
      (let positive : 0 < next_sibling_code tenant r.parent accounts = omega arith in positive),
      pred-highest tenant r.parent accounts,
      segments-lem parent segment full max packed widest room,
    )

-- What an allocation that succeeds returns, by the row `parent` that it has locked.
pub IsAllocated : ℕ → Request → List CodedAccount → CodedAccount × List CodedAccount → Type 0
IsAllocated tenant r accounts (a, accounts') =
    (accounts' ≡ accounts ++ (a ∷ []))
    × (a.parent ≡ r.parent)
    × (parent : Option CodedAccount) × (lock_parent tenant r.parent accounts ≡ ok parent)
    × (a.level ≡ some (child_level parent))
    × (in_levels (child_level parent) ≡ true)
    × (a.is_postable ≡ (child_level parent == max_level))
    × (segment : ℕ) × (a.segment_code ≡ some segment)
    × (0 < segment)
    × (is_above tenant r.parent (segment - 1) accounts ≡ true)
    × (a.code ≡ segments_above parent ++ (segment ∷ []))

-- An account that is allocated is appended under the parent that was asked for, and nothing else
-- changes; its level is one below its parent's, 1 without a parent and also under a legacy parent,
-- which has no level, and is within the five; it is postable exactly at level 5; its segment is
-- positive and above every segment that an account of the tenant has under the same parent; and its
-- code is the parent's segments, of which a parent without a level or a full code has none, with its
-- own behind them.
pub allocate_account-IsAllocated :
    (id tenant : ℕ) (r : Request) (accounts : List CodedAccount)
    (result : CodedAccount × List CodedAccount)
    → allocate_account id tenant r accounts ≡ ok result
    → IsAllocated tenant r accounts result
unfolding allocate_account new_account IsAllocated IsCode
allocate_account-IsAllocated id tenant r accounts result h =
    let (named, h1) = raise_if-eq-ok _ _ _ h in
    let (parent, locked, h2) = >>=-eq-ok _ _ h1 in
    let (codes, coded, h3) = >>=-eq-ok _ _ h2 in
    let (bounded, positive, above, code) =
      allocate_code-IsCode tenant r parent accounts codes coded in
    subst (IsAllocated tenant r accounts) (ok-injective h3)
      (refl, refl, parent, locked, refl, bounded, refl, codes.0, refl, positive, above, code)
