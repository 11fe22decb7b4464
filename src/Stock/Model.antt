-- ===== src/Stock/Model.antt =====
-- The tables of stock, by their quantities: backend/apps/inventory/models.py, and the errors of
-- services/stock.py.
use achr.Prelude.{ℕ, String, Bool, true, false, ◌&&◌, Option, List, ◌==◌}
use achr.Prelude.Int.{ℤ}
use achr.Money.Coerce.{MoneyError}
use achr.Ledger.Draft.{PostingError}

pub data ItemType : Type 0 where
  inventory service non_inventory : ItemType

pub record Item : Type 0 where
  pub id : ℕ
  pub name : String
  pub type : ItemType
  pub uom_decimal_places : ℕ
  pub track_inventory : Bool
  pub reorder_point : ℤ
  pub allow_negative_stock : Bool
  pub expense_account : Option ℕ
  pub inventory_account : Option ℕ

abbrev is_inventory : ItemType → Bool
is_inventory ItemType.inventory = true
is_inventory ItemType.service = false
is_inventory ItemType.non_inventory = false

unfoldable pub is_stocked : Item → Bool
is_stocked item = is_inventory item.type && item.track_inventory

-- An item in a warehouse of a tenant.
pub record Bin : Type 0 where
  pub tenant : ℕ
  pub item : ℕ
  pub warehouse : ℕ

abbrev pub same_bin : Bin → Bin → Bool
same_bin a b = a.tenant == b.tenant && a.item == b.item && a.warehouse == b.warehouse

pub data MovementType : Type 0 where
  purchase sale return_in return_out adjustment transfer_in transfer_out production opening :
      MovementType

-- `INBOUND_TYPES`
abbrev pub is_inbound : MovementType → Bool
is_inbound MovementType.purchase = true
is_inbound MovementType.return_in = true
is_inbound MovementType.transfer_in = true
is_inbound _ = false

-- `OUTBOUND_TYPES`
abbrev pub is_outbound : MovementType → Bool
is_outbound MovementType.sale = true
is_outbound MovementType.return_out = true
is_outbound MovementType.transfer_out = true
is_outbound _ = false

pub record StockLevel : Type 0 where
  pub bin : Bin
  pub quantity_on_hand : ℤ
  pub quantity_reserved : ℤ
  pub quantity_available : ℤ
  pub allow_negative : Bool
  pub last_movement_at : Option ℕ

pub record StockMovement : Type 0 where
  pub id : ℕ
  pub bin : Bin
  pub movement_type : MovementType
  pub quantity_delta : ℤ
  pub running_quantity_after : ℤ
  pub reference_type : String
  pub reference_id : Option ℕ
  pub occurred_at : ℕ
  pub notes : String
  pub idempotency_key : String
  pub created_by : Option ℕ

pub record LowStockAlert : Type 0 where
  pub bin : Bin
  pub threshold_at_trigger : ℤ
  pub quantity_at_trigger : ℤ
  pub occurrence_count : ℕ
  pub is_acknowledged : Bool

pub record Stock : Type 0 where
  pub levels : List StockLevel
  pub movements : List StockMovement
  pub alerts : List LowStockAlert
  pub next_id : ℕ

pub data StockError : Type 0 where
  money : MoneyError → StockError
  no_change must_increase must_decrease too_precise not_stocked insufficient reserved_for_others
        not_positive constraint no_inventory_account no_cogs_account no_system_account
        no_inventory_journal :
      StockError
  posting : PostingError → StockError
