-- ===== src/Http/Products.antt =====
-- internal/interfaces/http/handler/product_handler.go, with internal/interfaces/http/dto/product.go.
use backend_golang_task.Prelude.{ℕ, ◌==◌, if◌then◌else◌, Option, some, none, map}
use backend_golang_task.Prelude.Int.{ℤ}
use backend_golang_task.Errs.{Result, ok, err, new, validation}
use backend_golang_task.Product.{Product}
use backend_golang_task.Inventory.{Inventory}
use backend_golang_task.Gorm.Engine.{Gorm}
use backend_golang_task.Gorm.Orders.{Page}
use backend_golang_task.Queries.{products_page, get_product, get_inventory}
use backend_golang_task.Commands.CreateProduct.{CreateProductInput}
use backend_golang_task.Commands.CreateProduct
use backend_golang_task.Commands.UpdateProduct.{UpdateProductInput}
use backend_golang_task.Commands.UpdateProduct
use backend_golang_task.Httpx.{
  Response, ProductResponse, InventoryResponse, product_body, products_body, inventory_body,
  ok_response, created_response, recovered, answer_with, at_id, with_body,
}
use backend_golang_task.Http.{page_from}

abbrev pub new_product_response : Product → ProductResponse
new_product_response p = record {
  id = p.id;
  sku = p.sku;
  name = p.name;
  description = p.description;
  price_amount = p.price.amount;
  currency = p.price.currency;
  active = p.active;
}

abbrev pub new_inventory_response : Inventory → InventoryResponse
new_inventory_response inv = record {
  product_id = inv.product_id;
  available = inv.available;
  reserved = inv.reserved;
  reorder_level = inv.reorder_level;
}

-- `productIDFrom`, of what `strconv.ParseUint` read.
unfoldable pub product_id_from : Option ℕ → Result ℕ
product_id_from none = err (new validation "product.invalid_id" "invalid product id")
product_id_from (some id) =
    if id == 0 then err (new validation "product.invalid_id" "invalid product id") else ok id

-- `productPageFrom` is the same code as `pageFrom` of the orders.
abbrev product_page_from : Option ℤ → Option ℤ → Page
product_page_from = page_from

-- A nil product would be dereferenced.
abbrev pub updated_product_response : Option Product → Response
updated_product_response none = recovered
updated_product_response (some p) = ok_response (product_body (new_product_response p))

module _ (g : Gorm) where
  open g use {World}

  unfoldable pub list : Option ℤ → Option ℤ → World → Response × World
  list number size w =
      let page = product_page_from number size in
      answer_with
        (λ (items, total).
          ok_response (products_body (map new_product_response items) total page.number page.size))
        (products_page g page w)

  unfoldable pub get : Option ℕ → World → Response × World
  get param = at_id (product_id_from param) λ id w.
      answer_with (λ p. ok_response (product_body (new_product_response p))) (get_product g id w)

  -- The request has the fields of the use case's input. `now` is the clock's reading.
  unfoldable pub create : ℕ → Result CreateProductInput → World → Response × World
  create now bound = with_body "product.invalid_request" bound λ req w.
      answer_with (λ p. created_response (product_body (new_product_response p)))
        (CreateProduct.handle g req now w)

  unfoldable pub update : Option ℕ → Result UpdateProductInput → World → Response × World
  update param bound = at_id (product_id_from param) λ id.
      with_body "product.invalid_request" bound
        λ req w. answer_with updated_product_response (UpdateProduct.handle g id req w)

  unfoldable pub inventory : Option ℕ → World → Response × World
  inventory param = at_id (product_id_from param) λ id w.
      answer_with (λ inv. ok_response (inventory_body (new_inventory_response inv)))
        (get_inventory g id w)
