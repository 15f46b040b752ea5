-- ===== src/Queries.antt =====
-- internal/application/query. The queries other than the report pass one call on to a repository.
pub mod DailyReport
use backend_golang_task.Prelude.{ℕ, List}
use backend_golang_task.Action.{Action, pure, ◌>>=◌}
use backend_golang_task.Order.{Order, Status}
use backend_golang_task.Inventory.{Inventory}
use backend_golang_task.Product.{Product}
use backend_golang_task.User.{User}
use backend_golang_task.Gorm.Engine.{Gorm}
use backend_golang_task.Gorm.Orders.{Page, find_order, list_all, list_by_user}
use backend_golang_task.Gorm.Inventories.{find_by_product_id, list_low_stock}
use backend_golang_task.Gorm.Products.{find_product, list_products}
use backend_golang_task.Gorm.Users.{find_user}

module _ (g : Gorm) where
  open g use {World}

  abbrev pub get_inventory : ℕ → Action World Inventory
  get_inventory product_id = find_by_product_id g product_id

  abbrev pub get_order : ℕ → Action World Order
  get_order id = find_order g id

  abbrev pub get_product : ℕ → Action World Product
  get_product id = find_product g id

  abbrev pub get_user : ℕ → Action World User
  get_user id = find_user g id

  abbrev pub list_all_orders : Page → Action World (List Order × ℕ)
  list_all_orders page = list_all g page

  abbrev pub products_page : Page → Action World (List Product × ℕ)
  products_page page = list_products g page

  abbrev pub list_user_orders : ℕ → Page → Action World (List Order × ℕ)
  list_user_orders user_id page = list_by_user g user_id page

  abbrev pub low_stock : Action World (List Inventory)
  low_stock = list_low_stock g

  abbrev pub order_status : ℕ → Action World Status
  order_status id = find_order g id >>= λ o. pure (o.status)
