-- ===== src/Stock.antt =====
-- Quantities of stock: the write paths of backend/apps/inventory/services/stock.py over the tables
-- of inventory/models.py. Quantities are integers of millionths, as numeric(19,6) holds them. Costs
-- are left out: unit costs, averages and values of the rows are no columns here.
pub mod Model
pub mod Levels
pub mod Effects
pub mod Keeping
pub mod Orders
pub mod Entries
use achr.Prelude.{
  ℕ, ◌+◌, ◌-◌, ◌%◌, ◌^◌, ◌==◌, String, Bool, true, false, not, ◌&&◌, ◌||◌, Option, none, some, List,
  [], ◌∷◌, ◌++◌, find, update, clip, str_eq, ltb, leb, if◌then◌else◌, Outcome, ok, err, raise_if,
  ◌>>◌, ◌>>=◌,
}
use achr.Prelude.Int.{ℤ, pos, pos_part, neg_part, ◌+ℤ◌, ◌-ℤ◌, neg, ltb_ℤ, leb_ℤ, eqb_ℤ, max_ℤ}
use achr.Money.Coerce.{MoneyError, Number, Argument, to_money}
use achr.Stock.Model.{
  Item, Bin, MovementType, StockLevel, StockMovement, LowStockAlert, Stock, StockError, is_stocked,
  is_inbound, is_outbound, same_bin,
}

abbrev pub quantity_result : Outcome MoneyError ℤ → Outcome StockError ℤ
quantity_result (ok n) = ok n
quantity_result (err e) = err (StockError.money e)

-- `_assert_direction`
unfoldable pub assert_direction : MovementType → ℤ → Outcome StockError (Unit {0})
assert_direction movement_type delta =
    raise_if (is_inbound movement_type && ltb_ℤ delta (pos 0)) StockError.must_increase
    >> raise_if (is_outbound movement_type && ltb_ℤ (pos 0) delta) StockError.must_decrease

-- `_assert_uom_precision`: more decimal places than the unit allows, of the normalized quantity.
unfoldable pub assert_uom_precision : Item → ℤ → Outcome StockError (Unit {0})
assert_uom_precision item delta =
    raise_if (not ((pos_part delta + neg_part delta) % 10 ^ (6 - item.uom_decimal_places) == 0))
      StockError.too_precise

-- The guards of `apply_movement` that stand before the lock.
unfoldable pub check_movement : Item → MovementType → ℤ → Outcome StockError (Unit {0})
unfolding assert_direction assert_uom_precision
check_movement item movement_type delta =
    raise_if (eqb_ℤ delta (pos 0)) StockError.no_change
    >> (assert_direction movement_type delta
        >> (assert_uom_precision item delta
            >> raise_if (not (is_stocked item)) StockError.not_stocked))

-- The movement that already carries the key of the call, if the call has one.
unfoldable pub already_applied : ℕ → String → List StockMovement → Option StockMovement
already_applied tenant key movements =
    if str_eq key ""
    then none
    else find (λ m. m.bin.tenant == tenant && str_eq m.idempotency_key key) movements

abbrev pub at_bin : Bin → StockLevel → Bool
at_bin bin l = same_bin l.bin bin

-- `_get_level_unlocked`
abbrev pub level_at : Bin → List StockLevel → Option StockLevel
level_at bin levels = find (at_bin bin) levels

-- `_lock_level`: the row of the bin, or the one that is made for it.
unfoldable pub lock_level : Item → Bin → List StockLevel → StockLevel
lock_level item bin levels = elim (level_at bin levels) [
  | some l ↦ l
  | none ↦ record {
    bin = bin;
    quantity_on_hand = pos 0;
    quantity_reserved = pos 0;
    quantity_available = pos 0;
    allow_negative = item.allow_negative_stock;
    last_movement_at = none;
  }
]

-- The row as it is after `level.save(...)`, in the table where `_lock_level` has found or made it.
unfoldable pub save_level : StockLevel → List StockLevel → List StockLevel
save_level l [] = l ∷ []
save_level l (x ∷ xs) = if same_bin x.bin l.bin then l ∷ xs else x ∷ save_level l xs

-- The CHECK constraints of `StockLevel` on the quantities.
unfoldable pub level_ok : StockLevel → Bool
level_ok l =
    leb_ℤ (pos 0) l.quantity_reserved
    && (l.allow_negative || leb_ℤ (pos 0) l.quantity_on_hand)
    && eqb_ℤ l.quantity_available (l.quantity_on_hand -ℤ l.quantity_reserved)

-- The two tests that there is enough.
unfoldable pub assert_sufficient : Item → StockLevel → ℤ → Bool → Outcome StockError (Unit {0})
assert_sufficient item level delta consume_reservation =
    raise_if
      (ltb_ℤ delta (pos 0)
        && not item.allow_negative_stock
        && ltb_ℤ (level.quantity_on_hand +ℤ delta) (pos 0))
      StockError.insufficient
    >> raise_if
        (ltb_ℤ delta (pos 0)
          && not consume_reservation
          && not item.allow_negative_stock
          && ltb_ℤ (level.quantity_on_hand -ℤ level.quantity_reserved) (neg delta))
        StockError.reserved_for_others

-- The projection: the row of the bin after the movement.
unfoldable pub moved_level : Item → StockLevel → ℤ → Bool → ℕ → StockLevel
moved_level item level delta consume_reservation occurred_at =
    let on_hand = level.quantity_on_hand +ℤ delta in
    let reserved =
      if consume_reservation && ltb_ℤ delta (pos 0)
      then max_ℤ (pos 0) (level.quantity_reserved +ℤ delta)
      else level.quantity_reserved in
    record {
      bin = level.bin;
      quantity_on_hand = on_hand;
      quantity_reserved = reserved;
      quantity_available = on_hand -ℤ reserved;
      allow_negative = item.allow_negative_stock;
      last_movement_at = some occurred_at;
    }

abbrev pub is_open_alert : Bin → LowStockAlert → Bool
is_open_alert bin a = same_bin a.bin bin && not a.is_acknowledged

-- `_maybe_raise_low_stock`. A bin has at most one open alert, by its unique index.
unfoldable pub maybe_raise_low_stock : Item → StockLevel → List LowStockAlert → List LowStockAlert
maybe_raise_low_stock item level alerts =
    if leb_ℤ item.reorder_point (pos 0) || not (is_stocked item)
    then alerts
    else if ltb_ℤ item.reorder_point level.quantity_available
    then alerts
    else (elim (find (is_open_alert level.bin) alerts) [
      | some a ↦
          update (is_open_alert level.bin)
            (λ a. record a {
              occurrence_count = a.occurrence_count + 1;
              quantity_at_trigger = level.quantity_available;
            })
            alerts
      | none ↦
          alerts
          ++ (record {
            bin = level.bin;
            threshold_at_trigger = item.reorder_point;
            quantity_at_trigger = level.quantity_available;
            occurrence_count = 1;
            is_acknowledged = false;
          }
              ∷ [])
    ])

-- The arguments of `apply_movement`, the item and the warehouse resolved.
pub record Movement : Type 0 where
  pub item : Item
  pub warehouse : ℕ
  pub movement_type : MovementType
  pub quantity_delta : Argument
  pub occurred_at : ℕ
  pub reference_type : String
  pub reference_id : Option ℕ
  pub consume_reservation : Bool
  pub idempotency_key : String
  pub notes : String
  pub user_id : Option ℕ

abbrev pub bin_of : ℕ → Movement → Bin
bin_of tenant c = record { tenant = tenant; item = c.item.id; warehouse = c.warehouse }

abbrev pub logged : ℕ → Movement → ℤ → StockLevel → ℕ → StockMovement
logged tenant c delta level id = record {
  id = id;
  bin = bin_of tenant c;
  movement_type = c.movement_type;
  quantity_delta = delta;
  running_quantity_after = level.quantity_on_hand +ℤ delta;
  reference_type = clip 50 c.reference_type;
  reference_id = c.reference_id;
  occurred_at = c.occurred_at;
  notes = clip 255 c.notes;
  idempotency_key = c.idempotency_key;
  created_by = c.user_id;
}

-- What `apply_movement` does under the lock of the bin's row.
unfoldable pub move_stock : ℕ → Movement → ℤ → Stock → Outcome StockError (StockMovement × Stock)
unfolding lock_level assert_sufficient moved_level level_ok save_level maybe_raise_low_stock
move_stock tenant c delta s =
    let level = lock_level c.item (bin_of tenant c) s.levels in
    let movement = logged tenant c delta level s.next_id in
    let level' = moved_level c.item level delta c.consume_reservation c.occurred_at in
    assert_sufficient c.item level delta c.consume_reservation
    >> (raise_if (not (level_ok level')) StockError.constraint
        >> ok (
          movement,
          record {
            levels = save_level level' s.levels;
            movements = s.movements ++ (movement ∷ []);
            alerts = maybe_raise_low_stock c.item level' s.alerts;
            next_id = s.next_id + 1;
          },
        ))

module _ (parse : String → Option Number) where
  -- `apply_movement`: the movement of the result, and the tables after it.
  unfoldable pub apply_movement : ℕ → Movement → Stock → Outcome StockError (StockMovement × Stock)
  unfolding check_movement already_applied move_stock
  apply_movement tenant c s = quantity_result (to_money parse c.quantity_delta) >>= λ delta.
      check_movement c.item c.movement_type delta
      >> elim (already_applied tenant c.idempotency_key s.movements) [
        | some existing ↦ ok (existing, s)
        | none ↦ move_stock tenant c delta s
      ]

-- What `reserve_stock` and `release_reservation` write of the row.
unfoldable pub with_reserved : StockLevel → ℤ → StockLevel
with_reserved level reserved = record level {
  quantity_reserved = reserved;
  quantity_available = level.quantity_on_hand -ℤ reserved;
}

-- `reserve_stock`, from the amount on that `to_money` returns.
unfoldable pub reserve_stock : ℕ → Item → ℕ → ℤ → Stock → Outcome StockError (StockLevel × Stock)
unfolding lock_level with_reserved level_ok save_level maybe_raise_low_stock
reserve_stock tenant item warehouse amount s =
    let bin : Bin = record { tenant = tenant; item = item.id; warehouse = warehouse } in
    let level = lock_level item bin s.levels in
    let level' = with_reserved level (level.quantity_reserved +ℤ amount) in
    raise_if (leb_ℤ amount (pos 0)) StockError.not_positive
    >> (raise_if (not item.allow_negative_stock && ltb_ℤ level.quantity_available amount)
          StockError.insufficient
        >> (raise_if (not (level_ok level')) StockError.constraint
            >> ok (
              level',
              record s {
                levels = save_level level' s.levels;
                alerts = maybe_raise_low_stock item level' s.alerts;
              },
            )))

-- `release_reservation`, from the amount on that `to_money` returns.
unfoldable pub release_reservation :
    ℕ → Item → ℕ → ℤ → Stock → Outcome StockError (StockLevel × Stock)
unfolding lock_level with_reserved level_ok save_level
release_reservation tenant item warehouse amount s =
    let bin : Bin = record { tenant = tenant; item = item.id; warehouse = warehouse } in
    let level = lock_level item bin s.levels in
    let level' = with_reserved level (max_ℤ (pos 0) (level.quantity_reserved -ℤ amount)) in
    raise_if (leb_ℤ amount (pos 0)) StockError.not_positive
    >> (raise_if (not (level_ok level')) StockError.constraint
        >> ok (level', record s { levels = save_level level' s.levels }))
