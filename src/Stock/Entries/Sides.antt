-- ===== src/Stock/Entries/Sides.antt =====
-- The two sides of a stock movement's entry (backend/apps/inventory/services/stock.py).
use achr.Prelude.{
  ℕ, ◌≡◌, true, false, Option, none, some, List, if◌then◌else◌, arith, Outcome, ok, ◌>>=◌,
  >>=-eq-ok, ok-injective,
}
use achr.Prelude.Int.{ℤ, pos, ltb_ℤ, eqb_ℤ}
use achr.Ledger.Model.{Account}
use achr.Stock.Model.{Item, MovementType, StockError}
use achr.Stock.{assert_direction}
use achr.Stock.Entries.{entry_sides, system_account, cogs_account, by_direction}

bound :
    (m : Outcome StockError ℕ) (f : ℕ → Option (ℕ × ℕ)) (sides : ℕ × ℕ)
    → (m >>= λ a. ok (f a)) ≡ ok (some sides)
    → (a : ℕ) × (f a ≡ some sides)
bound m f sides h = let (a, got, e) = >>=-eq-ok m _ h in (a, ok-injective e)

-- The two tests of `assert_direction`, for an amount that is not zero.
direction-inbound :
    (delta : ℤ)
    → eqb_ℤ delta (pos 0) ≡ false
    → ltb_ℤ delta (pos 0) ≡ false
    → ltb_ℤ (pos 0) delta ≡ true
direction-inbound delta h k = ground (arith)

bound-twice :
    (m : Outcome StockError ℕ) (f : ℕ → Option (ℕ × ℕ)) (sides : ℕ × ℕ)
    (k : ℕ → Outcome StockError ℕ)
    → (m >>= λ c. k c >>= λ a. ok (f a)) ≡ ok (some sides)
    → (a : ℕ) × (f a ≡ some sides)
bound-twice m f sides k h = let (c, got, e) = >>=-eq-ok m _ h in bound (k c) f sides e

-- A movement that is not of zero, passes the direction test and gets an entry debits the item's
-- inventory account where it brings goods in and credits it where it takes goods out, for every
-- type of movement.
pub entry_sides_direction :
    (tenant : ℕ) (item : Item) (movement_type : MovementType) (delta : ℤ) (inventory : ℕ)
    (accounts : List Account) (sides : ℕ × ℕ)
    → eqb_ℤ delta (pos 0) ≡ false
    → assert_direction movement_type delta ≡ ok tt
    → entry_sides tenant item movement_type (ltb_ℤ (pos 0) delta) inventory accounts
      ≡ ok (some sides)
    → (if ltb_ℤ (pos 0) delta then sides.0 else sides.1) ≡ inventory
unfolding assert_direction entry_sides
entry_sides_direction tenant item MovementType.purchase delta inventory accounts sides nonzero
      direction h =
    let (other, e) =
      bound (system_account tenant "ap_control" none accounts) (λ ap. some (inventory, ap)) sides
        h in
    ground (arith, direction, e)
entry_sides_direction tenant item MovementType.sale delta inventory accounts sides nonzero direction
      h =
    let (other, e) = bound (cogs_account item) (λ cogs. some (cogs, inventory)) sides h in
    ground (arith, direction, e)
entry_sides_direction tenant item MovementType.return_in delta inventory accounts sides nonzero
      direction h =
    let (other, e) = bound (cogs_account item) (λ cogs. some (inventory, cogs)) sides h in
    ground (arith, direction, e)
entry_sides_direction tenant item MovementType.return_out delta inventory accounts sides nonzero
      direction h =
    let (other, e) =
      bound (system_account tenant "ap_control" none accounts) (λ ap. some (ap, inventory)) sides
        h in
    ground (arith, direction, e)
entry_sides_direction tenant item MovementType.adjustment delta inventory accounts sides nonzero
      direction h =
    let (other, e) =
      bound-twice (cogs_account item) (by_direction (ltb_ℤ (pos 0) delta) inventory) sides
        (λ c. system_account tenant "inventory_adjustment" (some c) accounts) h in
    ground (arith, e)
entry_sides_direction tenant item MovementType.transfer_in delta inventory accounts sides nonzero
      direction h =
    cc
entry_sides_direction tenant item MovementType.transfer_out delta inventory accounts sides nonzero
      direction h =
    cc
entry_sides_direction tenant item MovementType.production delta inventory accounts sides nonzero
      direction h =
    let (other, e) =
      bound-twice (cogs_account item) (by_direction (ltb_ℤ (pos 0) delta) inventory) sides
        (λ c. system_account tenant "work_in_progress" (some c) accounts) h in
    ground (arith, e)
entry_sides_direction tenant item MovementType.opening delta inventory accounts sides nonzero
      direction h =
    let (other, e) =
      bound (system_account tenant "opening_balance_equity" none accounts)
        (by_direction (ltb_ℤ (pos 0) delta) inventory) sides h in
    ground (arith, direction, e)
