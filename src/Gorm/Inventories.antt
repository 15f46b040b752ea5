-- ===== src/Gorm/Inventories.antt =====
-- internal/infrastructure/persistence/gormrepo/inventory_repo.go.
pub mod Atomic
pub mod Contention
use backend_golang_task.Prelude.{
  ℕ, Bool, true, false, ◌&&◌, ◌==◌, if◌then◌else◌, Option, some, none, List, map,
}
use backend_golang_task.Prelude.Int.{ℤ, pos, ◌+ℤ◌, ◌-ℤ◌, leb_ℤ}
use backend_golang_task.Errs.{new, not_found, conflict}
use backend_golang_task.Action.{Action, pure, raise, ◌>>=◌, ◌>>◌}
use backend_golang_task.Inventory.{Inventory, reconstitute_inventory}
use backend_golang_task.Gorm.Models.{InventoryModel, inventories}
use backend_golang_task.Gorm.Engine.{Gorm}

abbrev inventory_to_model : Inventory → InventoryModel
inventory_to_model inv = record {
  id = inv.id;
  product_id = inv.product_id;
  available = inv.available;
  reserved = inv.reserved;
  reorder_level = inv.reorder_level;
  version = inv.version;
}

abbrev inventory_to_domain : InventoryModel → Inventory
inventory_to_domain m =
    reconstitute_inventory m.id m.product_id m.available m.reserved m.reorder_level m.version

-- The conditions and the assignments of the three conditional updates.
abbrev pub can_reserve : ℕ → ℤ → InventoryModel → Bool
can_reserve product_id qty m = m.product_id == product_id && leb_ℤ qty m.available

abbrev pub reserved_row : ℤ → InventoryModel → InventoryModel
reserved_row qty m = record m {
  available = m.available -ℤ qty;
  reserved = m.reserved +ℤ qty;
  version = m.version +ℤ pos 1;
}

abbrev pub holds : ℕ → ℤ → InventoryModel → Bool
holds product_id qty m = m.product_id == product_id && leb_ℤ qty m.reserved

abbrev pub released_row : ℤ → InventoryModel → InventoryModel
released_row qty m = record m { available = m.available +ℤ qty; reserved = m.reserved -ℤ qty }

abbrev pub committed_row : ℤ → InventoryModel → InventoryModel
committed_row qty m = record m { reserved = m.reserved -ℤ qty }

abbrev pub restocked_row : ℤ → InventoryModel → InventoryModel
restocked_row qty m = record m { available = m.available +ℤ qty; version = m.version +ℤ pos 1 }

module _ (g : Gorm) where
  open g use {World, save, first, rows, updates}

  unfoldable pub find_by_product_id : ℕ → Action World Inventory
  find_by_product_id product_id = do
    found ← first inventories (λ m. m.product_id == product_id)
    elim found [
      | none ↦ raise (new not_found "inventory.not_found" "inventory not found for product")
      | some m ↦ pure (inventory_to_domain m)
    ]

  unfoldable pub save_inventory : Inventory → Action World (Unit {0})
  save_inventory inv = save inventories (inventory_to_model inv)

  unfoldable pub reserve : ℕ → ℤ → Action World Bool
  reserve product_id qty = do
    affected ← updates inventories (can_reserve product_id qty) (reserved_row qty)
    pure (affected == 1)

  unfoldable pub release : ℕ → ℤ → Action World (Unit {0})
  release product_id qty = do
    affected ← updates inventories (holds product_id qty) (released_row qty)
    if affected == 0
        then raise (new conflict "inventory.release_failed" "cannot release more than is reserved")
        else pure tt

  unfoldable pub commit : ℕ → ℤ → Action World (Unit {0})
  commit product_id qty = do
    affected ← updates inventories (holds product_id qty) (committed_row qty)
    if affected == 0
        then raise (new conflict "inventory.commit_failed" "cannot commit more than is reserved")
        else pure tt

  unfoldable pub restock : ℕ → ℤ → Action World (Unit {0})
  restock product_id qty =
      updates inventories (λ m. m.product_id == product_id) (restocked_row qty) >> pure tt

  unfoldable pub list_low_stock : Action World (List Inventory)
  list_low_stock = do
    ms ← rows inventories (λ m. leb_ℤ m.available m.reorder_level) 0 none
    pure (map inventory_to_domain ms)
