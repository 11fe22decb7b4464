-- ===== src/Tests/Warehouse.antt =====
-- Stock at concrete inputs (backend/apps/inventory/services/stock.py).
use achr.Prelude.{
  ℕ, ◌≡◌, refl, String, Bool, true, false, Option, none, some, [], arith, ok, if◌then◌else◌,
}
use achr.Prelude.Int.{pos, neg, ◌+ℤ◌, ◌-ℤ◌, max_ℤ, ltb_ℤ, eqb_ℤ}
use achr.Money.{decimal, round_half_up}
use achr.Money.Coerce.{Number, finite, dec, to_money, to_number, quantize_number}
use achr.Stock.Model.{Item, ItemType, MovementType, StockLevel, StockMovement, Stock, is_stocked}
use achr.Stock.{
  Movement, apply_movement, reserve_stock, release_reservation, check_movement, assert_direction,
  assert_uom_precision, already_applied, move_stock, lock_level, assert_sufficient, moved_level,
  level_ok, save_level, maybe_raise_low_stock, with_reserved,
}
use achr.Stock.Effects.{level_before, level_for}
use achr.Stock.Keeping.{IsKept, step, done, moves, reserves, Steps-IsKept}
use achr.Stock.Orders.{
  IsCovered, apply_movement-IsCovered, reserve_stock-IsCovered, release_reservation-IsCovered,
  apply_movement_retry,
}
use achr.Stock.Entries.{entry_sides, cogs_account}
use achr.Stock.Entries.Sides.{entry_sides_direction}
use achr.Tests.Company.{value_or}

-- No text is a number here; the amounts are given as Decimals.
abbrev parse : String → Option Number
parse s = none

abbrev bolt : Item
bolt = record {
  id = 1;
  name = "Bolt";
  type = ItemType.inventory;
  uom_decimal_places = 0;
  track_inventory = true;
  reorder_point = pos 2000000;
  allow_negative_stock = false;
  expense_account = some 30;
  inventory_account = some 31;
}

abbrev call : MovementType → Bool → ℕ → String → Movement
call type is_negative units key = record {
  item = bolt;
  warehouse = 1;
  movement_type = type;
  quantity_delta = dec (finite is_negative (decimal units 0));
  occurred_at = 10;
  reference_type = "bill";
  reference_id = none;
  consume_reservation = false;
  idempotency_key = key;
  notes = "";
  user_id = none;
}

abbrev empty : Stock
empty = record { levels = []; movements = []; alerts = []; next_id = 1 }

abbrev no_movement : StockMovement
no_movement = record {
  id = 0;
  bin = record { tenant = 1; item = 1; warehouse = 1 };
  movement_type = MovementType.sale;
  quantity_delta = pos 0;
  running_quantity_after = pos 0;
  reference_type = "";
  reference_id = none;
  occurred_at = 0;
  notes = "";
  idempotency_key = "";
  created_by = none;
}

abbrev receipt : Movement
receipt = call MovementType.purchase false 10 "r1"

abbrev delivery : Movement
delivery = call MovementType.sale true 4 "s1"

abbrev received : StockMovement × Stock
received = value_or (no_movement, empty) (apply_movement parse 1 receipt empty)

abbrev no_level : StockLevel
no_level = lock_level bolt (record { tenant = 1; item = 1; warehouse = 1 }) []

abbrev promised : StockLevel × Stock
promised = value_or (no_level, empty) (reserve_stock 1 bolt 1 (pos 3000000) received.1)

abbrev delivered : StockMovement × Stock
delivered = value_or (no_movement, empty) (apply_movement parse 1 delivery promised.1)

abbrev given_back : StockLevel × Stock
given_back = value_or (no_level, empty) (release_reservation 1 bolt 1 (pos 5000000) delivered.1)

receipt_applied : apply_movement parse 1 receipt empty ≡ ok (received.0, received.1)
unfolding apply_movement reserve_stock release_reservation check_movement assert_direction
    assert_uom_precision already_applied move_stock lock_level assert_sufficient moved_level
    level_ok save_level maybe_raise_low_stock with_reserved to_money to_number quantize_number
    round_half_up is_stocked ◌+ℤ◌ ◌-ℤ◌ neg
receipt_applied = refl

stock_promised : reserve_stock 1 bolt 1 (pos 3000000) received.1 ≡ ok (promised.0, promised.1)
unfolding apply_movement reserve_stock release_reservation check_movement assert_direction
    assert_uom_precision already_applied move_stock lock_level assert_sufficient moved_level
    level_ok save_level maybe_raise_low_stock with_reserved to_money to_number quantize_number
    round_half_up is_stocked ◌+ℤ◌ ◌-ℤ◌ neg
stock_promised = refl

delivery_applied : apply_movement parse 1 delivery promised.1 ≡ ok (delivered.0, delivered.1)
unfolding apply_movement reserve_stock release_reservation check_movement assert_direction
    assert_uom_precision already_applied move_stock lock_level assert_sufficient moved_level
    level_ok save_level maybe_raise_low_stock with_reserved to_money to_number quantize_number
    round_half_up is_stocked ◌+ℤ◌ ◌-ℤ◌ neg
delivery_applied = refl

stock_given_back :
    release_reservation 1 bolt 1 (pos 5000000) delivered.1 ≡ ok (given_back.0, given_back.1)
unfolding apply_movement reserve_stock release_reservation check_movement assert_direction
    assert_uom_precision already_applied move_stock lock_level assert_sufficient moved_level
    level_ok save_level maybe_raise_low_stock with_reserved to_money to_number quantize_number
    round_half_up is_stocked ◌+ℤ◌ ◌-ℤ◌ neg
stock_given_back = refl

six_left : (level_for 1 bolt 1 given_back.1).quantity_available ≡ pos 6000000
unfolding apply_movement reserve_stock release_reservation check_movement assert_direction
    assert_uom_precision already_applied move_stock lock_level assert_sufficient moved_level
    level_ok save_level maybe_raise_low_stock with_reserved to_money to_number quantize_number
    round_half_up is_stocked ◌+ℤ◌ ◌-ℤ◌ neg
six_left = refl

empty-IsKept : IsKept empty
unfolding IsKept
empty-IsKept bin = refl

Steps-IsKept_example : IsKept delivered.1
Steps-IsKept_example =
    Steps-IsKept parse
      (step (moves 1 receipt received.0 receipt_applied) (
        step (reserves 1 bolt 1 (pos 3000000) promised.0 stock_promised)
          (step (moves 1 delivery delivered.0 delivery_applied) done)))
      empty-IsKept

received-IsCovered : IsCovered (level_for 1 bolt 1 received.1)
unfolding apply_movement reserve_stock release_reservation check_movement assert_direction
    assert_uom_precision already_applied move_stock lock_level assert_sufficient moved_level
    level_ok save_level maybe_raise_low_stock with_reserved to_money to_number quantize_number
    round_half_up is_stocked ◌+ℤ◌ ◌-ℤ◌ neg IsCovered
received-IsCovered = (omega arith, omega arith, refl)

promised-IsCovered : IsCovered (level_before 1 delivery promised.1)
unfolding apply_movement reserve_stock release_reservation check_movement assert_direction
    assert_uom_precision already_applied move_stock lock_level assert_sufficient moved_level
    level_ok save_level maybe_raise_low_stock with_reserved to_money to_number quantize_number
    round_half_up is_stocked ◌+ℤ◌ ◌-ℤ◌ neg IsCovered
promised-IsCovered = (omega arith, omega arith, refl)

delivered-IsCovered : IsCovered (level_for 1 bolt 1 delivered.1)
unfolding apply_movement reserve_stock release_reservation check_movement assert_direction
    assert_uom_precision already_applied move_stock lock_level assert_sufficient moved_level
    level_ok save_level maybe_raise_low_stock with_reserved to_money to_number quantize_number
    round_half_up is_stocked ◌+ℤ◌ ◌-ℤ◌ neg IsCovered
delivered-IsCovered = (omega arith, omega arith, refl)

apply_movement-IsCovered_example : IsCovered (level_before 1 delivery delivered.1)
apply_movement-IsCovered_example =
    apply_movement-IsCovered parse 1 delivery promised.1 delivered refl promised-IsCovered
      delivery_applied

reserve_stock-IsCovered_example :
    IsCovered (level_for 1 bolt 1 promised.1)
    × ((level_for 1 bolt 1 promised.1).quantity_reserved
        ≡ (level_for 1 bolt 1 received.1).quantity_reserved +ℤ pos 3000000)
    × ((level_for 1 bolt 1 promised.1).quantity_on_hand
        ≡ (level_for 1 bolt 1 received.1).quantity_on_hand)
reserve_stock-IsCovered_example =
    reserve_stock-IsCovered 1 bolt 1 (pos 3000000) received.1 promised refl received-IsCovered
      stock_promised

release_reservation-IsCovered_example :
    IsCovered (level_for 1 bolt 1 given_back.1)
    × ((level_for 1 bolt 1 given_back.1).quantity_reserved
        ≡ max_ℤ (pos 0) ((level_for 1 bolt 1 delivered.1).quantity_reserved -ℤ pos 5000000))
    × ((level_for 1 bolt 1 given_back.1).quantity_on_hand
        ≡ (level_for 1 bolt 1 delivered.1).quantity_on_hand)
release_reservation-IsCovered_example =
    release_reservation-IsCovered 1 bolt 1 (pos 5000000) delivered.1 given_back delivered-IsCovered
      stock_given_back

-- The delivery, sent again.
apply_movement_retry_example : apply_movement parse 1 delivery delivered.1 ≡ ok delivered
apply_movement_retry_example =
    apply_movement_retry parse 1 delivery promised.1 delivered refl delivery_applied

sale_direction : assert_direction MovementType.sale (neg (pos 4000000)) ≡ ok tt
unfolding assert_direction neg
sale_direction = refl

sale_sides :
    entry_sides 1 bolt MovementType.sale (ltb_ℤ (pos 0) (neg (pos 4000000))) 31 []
    ≡ ok (some (30, 31))
unfolding entry_sides cogs_account neg
sale_sides = refl

not_zero : eqb_ℤ (neg (pos 4000000)) (pos 0) ≡ false
unfolding neg
not_zero = refl

entry_sides_direction_example :
    ◌≡◌ {A = ℕ} (if ltb_ℤ (pos 0) (neg (pos 4000000)) then 30 else 31) 31
entry_sides_direction_example =
    entry_sides_direction 1 bolt MovementType.sale (neg (pos 4000000)) 31 [] (30, 31) not_zero
      sale_direction sale_sides
