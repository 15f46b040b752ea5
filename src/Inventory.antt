-- ===== src/Inventory.antt =====
-- internal/domain/inventory/inventory.go: the stock of one product.
pub mod Conservation
pub mod Spec
mod Examples
use backend_golang_task.Prelude.{ℕ, Bool, ◌==◌, List, [], ◌∷◌}
use backend_golang_task.Prelude.Int.{ℤ, pos, ◌+ℤ◌, ◌-ℤ◌, ltb_ℤ, leb_ℤ, int64}
use backend_golang_task.Errs.{
  Result, ok, err, Failure, new, validation, out_of_stock, ◌>>=◌, ◌>>◌, fail_if,
}
use backend_golang_task.Shared.Event.{
  inventory_event, InventoryEvent, inventory_reserved, inventory_released, inventory_committed,
  inventory_restocked, AggregateRoot, no_events, record_events,
}

pub record Inventory : Type 0 where
  pub root : AggregateRoot
  pub id : ℕ
  pub product_id : ℕ
  pub available : ℤ
  pub reserved : ℤ
  pub reorder_level : ℤ
  pub version : ℤ

unfoldable pub new_inventory : ℕ → ℤ → ℤ → Result Inventory
new_inventory product_id available reorder_level = do
  fail_if (product_id == 0) (new validation "inventory.invalid_product" "product id is required")
  fail_if (ltb_ℤ available (pos 0))
      (new validation "inventory.invalid_available" "available must not be negative")
  fail_if (ltb_ℤ reorder_level (pos 0))
      (new validation "inventory.invalid_reorder_level" "reorder level must not be negative")
  ok (record {
    root = no_events;
    id = 0;
    product_id = product_id;
    available = available;
    reserved = pos 0;
    reorder_level = reorder_level;
    version = pos 0;
  })

abbrev pub reconstitute_inventory : ℕ → ℕ → ℤ → ℤ → ℤ → ℤ → Inventory
reconstitute_inventory id product_id available reserved reorder_level version = record {
  root = no_events;
  id = id;
  product_id = product_id;
  available = available;
  reserved = reserved;
  reorder_level = reorder_level;
  version = version;
}

abbrev invalid_quantity : Failure
invalid_quantity = new validation "inventory.invalid_quantity" "quantity must be positive"

abbrev note : InventoryEvent → Inventory → Inventory
note e i = record i { root = record_events (inventory_event e ∷ []) i.root }

unfoldable pub reserve : ℤ → Inventory → Result Inventory
reserve qty i = do
  fail_if (leb_ℤ qty (pos 0)) invalid_quantity
  fail_if (ltb_ℤ i.available qty)
      (new out_of_stock "inventory.insufficient_stock" "not enough available stock to reserve")
  ok (
      note (inventory_reserved i.product_id qty) (record i {
        available = int64 (i.available -ℤ qty);
        reserved = int64 (i.reserved +ℤ qty);
        version = int64 (i.version +ℤ pos 1);
      }))

unfoldable pub release : ℤ → Inventory → Result Inventory
release qty i = do
  fail_if (leb_ℤ qty (pos 0)) invalid_quantity
  fail_if (ltb_ℤ i.reserved qty)
      (new validation "inventory.insufficient_reserved" "not enough reserved stock to release")
  ok (
      note (inventory_released i.product_id qty)
        (record i { reserved = int64 (i.reserved -ℤ qty); available = int64 (i.available +ℤ qty) }))

unfoldable pub commit : ℤ → Inventory → Result Inventory
commit qty i = do
  fail_if (leb_ℤ qty (pos 0)) invalid_quantity
  fail_if (ltb_ℤ i.reserved qty)
      (new validation "inventory.insufficient_reserved" "not enough reserved stock to commit")
  ok (
      note (inventory_committed i.product_id qty)
        (record i { reserved = int64 (i.reserved -ℤ qty) }))

unfoldable pub restock : ℤ → Inventory → Result Inventory
restock qty i = do
  fail_if (leb_ℤ qty (pos 0)) invalid_quantity
  ok (
      note (inventory_restocked i.product_id qty)
        (record i { available = int64 (i.available +ℤ qty); version = int64 (i.version +ℤ pos 1) }))

abbrev is_low : Inventory → Bool
is_low i = leb_ℤ i.available i.reorder_level
