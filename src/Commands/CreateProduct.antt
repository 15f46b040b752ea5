-- ===== src/Commands/CreateProduct.antt =====
-- internal/application/command/create_product.go.
pub mod Atomic
use backend_golang_task.Prelude.{ℕ, String}
use backend_golang_task.Prelude.Int.{ℤ}
use backend_golang_task.Errs.{Result, ok, err}
use backend_golang_task.Action.{Action, pure, lift, ◌>>=◌, ◌>>◌}
use backend_golang_task.Shared.Money.{Money, new_money}
use backend_golang_task.Product.{Product, new_product}
use backend_golang_task.Inventory.{Inventory, new_inventory}
use backend_golang_task.Gorm.Engine.{Gorm}
use backend_golang_task.Gorm.Products.{create_product}
use backend_golang_task.Gorm.Inventories.{save_inventory}
use backend_golang_task.Commands.Memory.{stored, store, reading}

pub record CreateProductInput : Type 0 where
  pub sku : String
  pub name : String
  pub description : String
  pub price_amount : ℤ
  pub currency : String
  pub initial_stock : ℤ
  pub reorder_level : ℤ

module _ (g : Gorm) where
  open g use {World, transaction}

  -- The second half of the closure: the stock of the product that has just been created.
  unfoldable pub stocking : CreateProductInput → Product → Action World (Unit {0})
  stocking inp p = do
    inv ← lift (new_inventory p.id inp.initial_stock inp.reorder_level)
    save_inventory g inv

  -- The closure; its variable is the product.
  unfoldable pub creating : CreateProductInput → Action (Product × World) (Unit {0})
  creating inp = do store (create_product g); reading λ p. stored (stocking inp p)

  abbrev pub created_with : Result (Unit {0}) × (Product × World) → Result Product × World
  created_with (err e, (_, w)) = (err e, w)
  created_with (ok _, (p, w)) = (ok p, w)

  -- From the result of `NewProduct` on.
  abbrev pub create_made : CreateProductInput → Result Product → World → Result Product × World
  create_made inp (err e) w = (err e, w)
  create_made inp (ok p) w = created_with (transaction (creating inp) (p, w))

  abbrev pub create_priced : CreateProductInput → ℕ → Result Money → World → Result Product × World
  create_priced inp now (err e) w = (err e, w)
  create_priced inp now (ok price) w =
      create_made inp (new_product inp.sku inp.name inp.description price now) w

  -- `now` is the clock's reading.
  unfoldable pub handle : CreateProductInput → ℕ → World → Result Product × World
  handle inp now w = create_priced inp now (new_money inp.price_amount inp.currency) w
