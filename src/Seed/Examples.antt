-- ===== src/Seed/Examples.antt =====
-- The seed of an empty database, and a second one.
use backend_golang_task.Prelude.{ℕ, ◌≡◌, refl, []}
use backend_golang_task.Errs.{Result, ok}
use backend_golang_task.Shared.Money.{must_money}
use backend_golang_task.User.{new_user}
use backend_golang_task.Product.{new_product, assign_id}
use backend_golang_task.Inventory.{new_inventory}
use backend_golang_task.Gorm.Users.{create_user}
use backend_golang_task.Gorm.Products.{create_product}
use backend_golang_task.Gorm.Inventories.{save_inventory}
use backend_golang_task.Gorm.Models.{Tables}
use backend_golang_task.Gorm.InMemory.{in_memory, in_memory-IsGorm}
use backend_golang_task.Commands.Examples.Accounts.{counting}
use backend_golang_task.Seed.{ProductSeed, seed_data_users, seed_data_products, run}
use backend_golang_task.Seed.Twice.{IsSeeded, Repeats, run-run}

abbrev empty : Tables
empty = record {
  users_rows = [];
  products_rows = [];
  inventories_rows = [];
  orders_rows = [];
  payments_rows = [];
  notifications_rows = [];
  audit_logs_rows = [];
}

abbrev at : ℕ → ProductSeed → ℕ
at now p = now

abbrev first_run : Result (ℕ × ℕ) × Tables × ℕ
first_run = run in_memory counting seed_data_users seed_data_products (at 100) (empty, 0)

first_run_counts : first_run.0 ≡ ok (4, 10)
unfolding run new_user create_user must_money new_product create_product new_inventory assign_id
    save_inventory
first_run_counts = refl

run-run_example :
    IsSeeded seed_data_users seed_data_products first_run.1
    × Repeats in_memory counting first_run.1 (
        run in_memory counting seed_data_users seed_data_products
          (at 200)
          (first_run.1, first_run.2))
run-run_example =
    run-run in_memory in_memory-IsGorm counting seed_data_users seed_data_products (at 100) (at 200)
      empty 0 {counts = (4, 10)} {w' = first_run.1} {s' = first_run.2}
      (λ i. (first_run_counts i, first_run.1, first_run.2))
