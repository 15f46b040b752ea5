-- ===== src/Gorm/Products.antt =====
-- internal/infrastructure/persistence/gormrepo/product_repo.go.
use backend_golang_task.Prelude.{ℕ, true, ◌==◌, Option, some, none, List, [], ◌∷◌}
use backend_golang_task.Prelude.Int.{pos_part}
use backend_golang_task.Errs.{Result, ok, new, not_found}
use backend_golang_task.Errs
use backend_golang_task.Action.{Action, pure, raise, lift, ◌>>=◌}
use backend_golang_task.Product.{Product, reconstitute_product, assign_id}
use backend_golang_task.Gorm.Models.{ProductModel, products}
use backend_golang_task.Gorm.Engine.{Gorm}
use backend_golang_task.Gorm.Orders.{Page, normalize_order_page, offset_of, money_or_panic}

abbrev pub product_to_model : Product → ProductModel
product_to_model p = record {
  id = p.id;
  sku = p.sku;
  name = p.name;
  description = p.description;
  price_amount = p.price.amount;
  currency = p.price.currency;
  active = p.active;
  created_at = p.created_at;
}

unfoldable pub product_to_domain : ProductModel → Result Product
product_to_domain m =
    Errs.◌>>=◌ (money_or_panic m.price_amount m.currency)
      λ price. ok (reconstitute_product m.id m.sku m.name m.description price m.active m.created_at)

unfoldable pub products_to_domain : List ProductModel → Result (List Product)
products_to_domain [] = ok []
products_to_domain (m ∷ ms) =
    Errs.◌>>=◌ (product_to_domain m) λ p. Errs.◌>>=◌ (products_to_domain ms) λ ps. ok (p ∷ ps)

module _ (g : Gorm) where
  open g use {World, create, save, first, rows, count}

  -- The product with the id that it has got.
  unfoldable pub create_product : Product → Action World Product
  create_product p = do id ← create products (product_to_model p); pure (assign_id id p)

  unfoldable pub update_product : Product → Action World (Unit {0})
  update_product p = save products (product_to_model p)

  abbrev found_product : Option ProductModel → Action World Product
  found_product none = raise (new not_found "product.not_found" "product not found")
  found_product (some m) = lift (product_to_domain m)

  unfoldable pub find_product : ℕ → Action World Product
  find_product id = first products (λ m. m.id == id) >>= found_product

  -- The page is normalised as that of the orders is.
  unfoldable pub list_products : Page → Action World (List Product × ℕ)
  list_products page = do
    let normal = normalize_order_page page
    total ← count products (λ _. true)
    ms ← rows products (λ _. true) (offset_of normal) (some (pos_part normal.size))
    out ← lift (products_to_domain ms)
    pure (out, total)
