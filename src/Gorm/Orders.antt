-- ===== src/Gorm/Orders.antt =====
-- internal/infrastructure/persistence/gormrepo/order_repo.go.
pub mod RoundTrip
pub mod Frame
pub mod Lists
use backend_golang_task.Prelude.{
  ℕ, ◌-◌, ◌*◌, String, Bool, true, str_eq, ◌==◌, if◌then◌else◌, Option, some, none, List, [], ◌∷◌,
  map,
}
use backend_golang_task.Prelude.Int.{ℤ, pos, pos_part, leb_ℤ}
use backend_golang_task.Errs.{Result, ok, err, new, not_found, panic}
use backend_golang_task.Errs
use backend_golang_task.Action.{Action, pure, raise, lift, ◌>>=◌, ◌>>◌}
use backend_golang_task.Shared.Money.{Money, must_money}
use backend_golang_task.Order.{
  Order, Item, new_item, status_text, read_status, reconstitute_order, assign_id,
}
use backend_golang_task.Gorm.Models.{OrderModel, OrderItemModel, orders}
use backend_golang_task.Gorm.Engine.{Gorm}

-- `ports.Page`
pub record Page : Type 0 where
  pub number : ℤ
  pub size : ℤ

unfoldable pub normalize_order_page : Page → Page
normalize_order_page page = record {
  number = if leb_ℤ page.number (pos 0) then pos 1 else page.number;
  size = if leb_ℤ page.size (pos 0) then pos 20 else page.size;
}

-- `(number - 1) * size` of a normalised page.
abbrev pub offset_of : Page → ℕ
offset_of page = (pos_part page.number - 1) * pos_part page.size

abbrev pub item_to_model : Item → OrderItemModel
item_to_model i = record {
  product_id = i.product_id;
  sku = i.sku;
  name = i.name;
  unit_price_amount = i.unit_price.amount;
  currency = i.unit_price.currency;
  quantity = i.quantity;
}

-- `orderToModel` leaves `CreatedAt` zero.
abbrev pub order_to_model : Order → OrderModel
order_to_model o = record {
  id = o.id;
  user_id = o.user_id;
  status = status_text o.status;
  total_amount = o.total.amount;
  currency = o.total.currency;
  idempotency_key = o.idempotency_key;
  failure_reason = o.failure_reason;
  items = map item_to_model o.items;
  created_at = 0;
}

-- `shared.MustMoney`, with its panic.
abbrev pub money_or_panic : ℤ → String → Result Money
money_or_panic amount currency = elim (must_money amount currency) [
  | some m ↦ ok m
  | none ↦ err (panic "invalid money")
]

unfoldable pub item_to_domain : OrderItemModel → Result Item
item_to_domain m =
    Errs.◌>>=◌ (money_or_panic m.unit_price_amount m.currency)
      λ price. new_item m.product_id m.sku m.name price m.quantity

unfoldable pub items_to_domain : List OrderItemModel → Result (List Item)
items_to_domain [] = ok []
items_to_domain (m ∷ ms) =
    Errs.◌>>=◌ (item_to_domain m) λ item. Errs.◌>>=◌ (items_to_domain ms) λ items. ok (item ∷ items)

unfoldable pub order_to_domain : OrderModel → Result Order
order_to_domain m = Errs.◌>>=◌ (items_to_domain m.items) λ items.
    Errs.◌>>=◌ (money_or_panic m.total_amount m.currency) λ total. ok (
      reconstitute_order m.id m.user_id (read_status m.status) items total m.idempotency_key
        m.failure_reason m.created_at)

unfoldable pub orders_to_domain : List OrderModel → Result (List Order)
orders_to_domain [] = ok []
orders_to_domain (m ∷ ms) =
    Errs.◌>>=◌ (order_to_domain m) λ o. Errs.◌>>=◌ (orders_to_domain ms) λ os. ok (o ∷ os)

-- The columns that `Update` writes.
abbrev pub updated_row : Order → OrderModel → OrderModel
updated_row o m = record m {
  status = status_text o.status;
  total_amount = o.total.amount;
  currency = o.total.currency;
  failure_reason = o.failure_reason;
}

module _ (g : Gorm) where
  open g use {World, create, first, rows, count, updates}

  -- The order with the id that it has got.
  unfoldable pub create_order : Order → Action World Order
  create_order o = do id ← create orders (order_to_model o); pure (assign_id id o)

  unfoldable pub update_order : Order → Action World (Unit {0})
  update_order o = updates orders (λ m. m.id == o.id) (updated_row o) >> pure tt

  abbrev found_order : Option OrderModel → Action World Order
  found_order none = raise (new not_found "order.not_found" "order not found")
  found_order (some m) = lift (order_to_domain m)

  unfoldable pub find_order : ℕ → Action World Order
  find_order id = first orders (λ m. m.id == id) >>= found_order

  unfoldable pub find_by_idempotency_key : String → Action World Order
  find_by_idempotency_key key = first orders (λ m. str_eq m.idempotency_key key) >>= found_order

  abbrev pub listed : (OrderModel → Bool) → Page → Action World (List Order × ℕ)
  listed p page = do
    total ← count orders p
    ms ← rows orders p (offset_of page) (some (pos_part page.size))
    out ← lift (orders_to_domain ms)
    pure (out, total)

  unfoldable pub list_by_user : ℕ → Page → Action World (List Order × ℕ)
  list_by_user user_id page = listed (λ m. m.user_id == user_id) (normalize_order_page page)

  unfoldable pub list_all : Page → Action World (List Order × ℕ)
  list_all page = listed (λ _. true) (normalize_order_page page)
