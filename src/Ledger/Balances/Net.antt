-- ===== src/Ledger/Balances/Net.antt =====
-- What the cached balances are after `_apply_to_cached_balances`: the accumulation by account and the
-- updates one by one come down to the sum of each account's own lines.
use achr.Prelude.{
  ℕ, ◌≡◌, refl, sym, ap, ◌∙◌, Bool, some, List, [], ◌∷◌, map, ok, inl, inr, or_raise, find, ◌==◌,
  if◌then◌else◌, arith, Bool-cases, find_holds, >>=-eq-ok, ==_iff, or_raise-eq-ok, ok-injective,
  some-injective,
}
use achr.Prelude.Int.{ℤ, pos, ◌+ℤ◌, int_laws}
use achr.Ledger.Model.{Account, increases_on_debit, JournalLine}
use achr.Ledger.Draft.{key_error, is_account}
use achr.Ledger.Balances.{
  Sign, plus, minus, signed, movement, Delta, add_delta, deltas, move_balance, move_balances,
  apply_to_cached_balances,
}

-- The movement of one account by a list of lines.
abbrev pub net : ℕ → Bool → List JournalLine → ℤ
net id side [] = pos 0
net id side (l ∷ ls) =
    if l.account_id == id then movement side l +ℤ net id side ls else net id side ls

abbrev pub total : ℕ → Delta → ℤ
total id [] = pos 0
total id ((j, x) ∷ d) = if j == id then x +ℤ total id d else total id d

total-add_delta :
    (id j : ℕ) (x : ℤ) (d : Delta)
    → total id (add_delta j x d) ≡ (if j == id then total id d +ℤ x else total id d)
unfolding add_delta
total-add_delta id j x [] = grind int_laws
total-add_delta id j x ((k, y) ∷ d) = grind (int_laws, total-add_delta id j x d)

-- One account under one update, and under all of them.
abbrev pub credit_one : ℕ → ℕ → ℤ → Account → Account
credit_one now id x a =
    if a.id == id
    then record a { cached_balance = a.cached_balance +ℤ x; cached_balance_as_of = now }
    else a

abbrev pub credited : ℕ → Delta → Account → Account
credited now [] a = a
credited now ((id, x) ∷ d) a = credited now d (credit_one now id x a)

move_balance-eq-map :
    (now id : ℕ) (x : ℤ) (accounts : List Account)
    → move_balance now id x accounts ≡ map (credit_one now id x) accounts
unfolding move_balance
move_balance-eq-map now id x [] = refl
move_balance-eq-map now id x (a ∷ rest) =
    ap (◌∷◌ (credit_one now id x a)) (move_balance-eq-map now id x rest)

map_id : (accounts : List Account) → map (credited 0 []) accounts ≡ accounts
map_id [] = refl
map_id (a ∷ rest) = ap (◌∷◌ a) (map_id rest)

map-map :
    (f g : Account → Account) (accounts : List Account)
    → map g (map f accounts) ≡ map (λ a. g (f a)) accounts
map-map f g [] = refl
map-map f g (a ∷ rest) = ap (◌∷◌ (g (f a))) (map-map f g rest)

move_balances-eq-map :
    (now : ℕ) (d : Delta) (accounts : List Account)
    → move_balances now d accounts ≡ map (credited now d) accounts
unfolding move_balances
move_balances-eq-map now [] accounts = sym (map_id accounts)
move_balances-eq-map now ((id, x) ∷ d) accounts =
    rw (move_balances-eq-map now d (move_balance now id x accounts), move_balance-eq-map)
      (map-map (credit_one now id x) (credited now d) accounts)

pub credited-keeps :
    (now : ℕ) (d : Delta) (a : Account)
    → ((credited now d a).id ≡ a.id)
      × ((credited now d a).tenant ≡ a.tenant)
      × (increases_on_debit (credited now d a) ≡ increases_on_debit a)
      × ((credited now d a).is_postable ≡ a.is_postable)
      × ((credited now d a).is_active ≡ a.is_active)
unfolding increases_on_debit
credited-keeps now [] a = (refl, refl, refl, refl, refl)
credited-keeps now ((id, x) ∷ d) a = ground (arith, credited-keeps now d (credit_one now id x a))

credited-balance :
    (now : ℕ) (d : Delta) (a : Account)
    → (credited now d a).cached_balance ≡ a.cached_balance +ℤ total a.id d
credited-balance now [] a = omega int_laws
credited-balance now ((id, x) ∷ d) a =
    grind (int_laws, credited-balance now d (credit_one now id x a))

find-map :
    (p : Account → Bool) (f : Account → Account) (accounts : List Account)
    → ((a : Account) → p (f a) ≡ p a)
    → (a : Account) → find p accounts ≡ some a
    → find p (map f accounts) ≡ some (f a)
find-map p f [] h a e = cc
find-map p f (b ∷ rest) h a e = ground (arith, h b, find-map p f rest h a)

pub find-account-id :
    (tenant id : ℕ) (accounts : List Account) (a : Account)
    → find (is_account tenant id) accounts ≡ some a
    → a.id ≡ id
find-account-id tenant id accounts a e =
    ground (arith, find_holds (is_account tenant id) accounts a e)

signed-+ℤ : (sign : Sign) (x y : ℤ) → signed sign (x +ℤ y) ≡ signed sign x +ℤ signed sign y
signed-+ℤ plus x y = refl
signed-+ℤ minus x y = omega int_laws

-- One line, for an account that it names and for one that it does not.
total-line :
    (sign : Sign) (id : ℕ) (side : Bool) (l : JournalLine) (ls : List JournalLine) (j : ℕ)
    (d : Delta)
    → l.account_id ≡ j
    → (x : ℤ) → (l.account_id ≡ id → x ≡ movement side l)
    → total id (add_delta j (signed sign x) d) +ℤ signed sign (net id side ls)
      ≡ total id d +ℤ signed sign (net id side (l ∷ ls))
total-line sign id side l ls j d e x same = elim (Bool-cases (l.account_id == id)) [
  | inl t ↦
      let k : l.account_id ≡ id = (==_iff _ _).0 t in
      rw (total-add_delta, same k, t, ← e, t, signed-+ℤ) (omega int_laws)
  | inr f ↦ rw (total-add_delta, ← e, f) refl
]

-- The accumulated amount of an account of the tenant is the movement by its own lines.
total-deltas :
    (tenant : ℕ) (accounts : List Account) (sign : Sign) (lines : List JournalLine) (d d' : Delta)
    → deltas tenant accounts sign lines d ≡ ok d'
    → (a : Account) → find (is_account tenant a.id) accounts ≡ some a
    → total a.id d' ≡ total a.id d +ℤ signed sign (net a.id (increases_on_debit a) lines)
unfolding deltas
total-deltas tenant accounts plus [] d d' h a e = rw (← ok-injective h) (omega int_laws)
total-deltas tenant accounts minus [] d d' h a e = rw (← ok-injective h) (omega int_laws)
total-deltas tenant accounts sign (l ∷ ls) d d' h a e =
    let (b, found, rest) =
      >>=-eq-ok (or_raise (find (is_account tenant l.account_id) accounts) key_error) _ h in
    let named : l.account_id ≡ b.id =
      sym (find-account-id tenant l.account_id accounts b (or_raise-eq-ok _ key_error found)) in
    total-deltas tenant accounts sign ls _ d' rest a e
    ∙ total-line sign a.id (increases_on_debit a) l ls b.id d named
        (movement (increases_on_debit b) l)
        (λ k.
          ap (λ c. movement (increases_on_debit c) l)
            (some-injective _ _ (sym (rw k at (or_raise-eq-ok _ key_error found)) ∙ e)))

pub apply-eq-map :
    (tenant now : ℕ) (sign : Sign) (lines : List JournalLine) (accounts after : List Account)
    → apply_to_cached_balances tenant now sign lines accounts ≡ ok after
    → (d : Delta) × (map (credited now d) accounts ≡ after)
unfolding apply_to_cached_balances
apply-eq-map tenant now sign lines accounts after h =
    let (d, made, moved) = >>=-eq-ok (deltas tenant accounts sign lines []) _ h in
    (d, sym (move_balances-eq-map now d accounts) ∙ ok-injective moved)

-- Posting (or cancelling) a list of lines moves the cached balance of each account of the tenant by
-- the net movement, on its normal side, of the lines that name it.
pub balance-apply :
    (tenant now : ℕ) (sign : Sign) (lines : List JournalLine) (accounts after : List Account)
    → apply_to_cached_balances tenant now sign lines accounts ≡ ok after
    → (a : Account) → find (is_account tenant a.id) accounts ≡ some a
    → (b : Account) × (find (is_account tenant a.id) after ≡ some b)
      × (b.cached_balance ≡ a.cached_balance +ℤ signed sign (net a.id (increases_on_debit a) lines))
      × (increases_on_debit b ≡ increases_on_debit a)
unfolding apply_to_cached_balances
balance-apply tenant now sign lines accounts after h a e =
    let (d, made, moved) = >>=-eq-ok (deltas tenant accounts sign lines []) _ h in
    let f = credited now d in
    let keeps = credited-keeps now d a in
    (
      f a,
      rw (← ok-injective moved, move_balances-eq-map)
          (find-map (is_account tenant a.id) f accounts
            (λ c. ground (arith, credited-keeps now d c)) a e),
      credited-balance now d a
          ∙ rw (total-deltas tenant accounts sign lines [] d made a e) (omega int_laws),
      keeps.2,
    )
