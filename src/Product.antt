-- ===== src/Product.antt =====
-- internal/domain/product/product.go: a product of the catalogue.
use backend_golang_task.Prelude.{
  ℕ, String, Bool, true, false, ◌==◌, is_empty, if◌then◌else◌, [], ◌∷◌,
}
use backend_golang_task.Errs.{Result, ok, new, validation, ◌>>◌, fail_if}
use backend_golang_task.Shared.Event.{
  product_event, product_created, product_repriced, AggregateRoot, no_events, record_events,
}
use backend_golang_task.Shared.Money.{Money}

pub record Product : Type 0 where
  pub root : AggregateRoot
  pub id : ℕ
  pub sku : String
  pub name : String
  pub description : String
  pub price : Money
  pub active : Bool
  pub created_at : ℕ

-- `now` is the clock's reading.
unfoldable pub new_product : String → String → String → Money → ℕ → Result Product
new_product sku name description price now = do
  fail_if (is_empty sku) (new validation "product.sku_required" "sku cannot be empty")
  fail_if (is_empty name) (new validation "product.name_required" "name cannot be empty")
  ok (record {
    root = record_events (product_event (product_created 0 sku) ∷ []) no_events;
    id = 0;
    sku = sku;
    name = name;
    description = description;
    price = price;
    active = true;
    created_at = now;
  })

abbrev pub reconstitute_product : ℕ → String → String → String → Money → Bool → ℕ → Product
reconstitute_product id sku name description price active created_at = record {
  root = no_events;
  id = id;
  sku = sku;
  name = name;
  description = description;
  price = price;
  active = active;
  created_at = created_at;
}

unfoldable pub rename : String → Product → Result Product
rename name p = do
  fail_if (is_empty name) (new validation "product.name_required" "name cannot be empty")
  ok (record p { name = name })

unfoldable pub reprice : Money → Product → Product
reprice price p = record p {
  price = price;
  root = record_events (product_event (product_repriced p.id) ∷ []) p.root;
}

unfoldable pub activate : Product → Product
activate p = record p { active = true }

unfoldable pub deactivate : Product → Product
deactivate p = record p { active = false }

unfoldable pub assign_id : ℕ → Product → Product
assign_id id p = if p.id == 0 then record p { id = id } else p
