-- ===== src/Http.antt =====
-- internal/interfaces/http: the admin check, paging, and the handlers of one order.
-- What gin hands to a handler (the caller that the token named, a parsed parameter) is an argument.
pub mod Access
pub mod Orders
pub mod Products
pub mod Users
pub mod Admin
pub mod Middleware
pub mod Router
pub mod Health
pub mod Engine
mod Examples
use backend_golang_task.Prelude.{
  ℕ, String, Bool, true, false, not, ◌&&◌, ◌==◌, str_eq, is_empty, if◌then◌else◌, Option, some,
  none, List, map,
}
use backend_golang_task.Prelude.Int.{ℤ, pos, ltb_ℤ}
use backend_golang_task.Errs.{
  Result, ok, err, Failure, Kind, internal, validation, not_found, conflict, unauthorized,
  forbidden, out_of_stock, payment_failed, unavailable, new, kind_of, as_error,
}
use backend_golang_task.Order.{Order, Item, status_text, subtotal}
use backend_golang_task.Httpx.{
  OrderItemResponse, OrderResponse, order_body, status_body, Response, error_response,
  failure_response, ok_response,
}
use backend_golang_task.Gorm.Engine.{Gorm}
use backend_golang_task.Gorm.Orders.{Page, find_order}
use backend_golang_task.Commands.Memory.{Handled}
use backend_golang_task.Commands.CancelOrder

-- The user that `Auth` has put into the context, with the role.
pub record Caller : Type 0 where
  pub user_id : ℕ
  pub role : String

-- `RequireAdmin`: the refusal, or nothing and the next handler runs.
unfoldable pub require_admin : Option Caller → Option Response
require_admin none = some (error_response (new forbidden "forbidden" "admin role required"))
require_admin (some c) =
    if str_eq c.role "admin"
    then none
    else some (error_response (new forbidden "forbidden" "admin role required"))

-- A query parameter that `strconv.Atoi` read, if it is positive, or the default.
abbrev positive_or : ℤ → Option ℤ → ℤ
positive_or default none = default
positive_or default (some v) = if ltb_ℤ (pos 0) v then v else default

unfoldable pub page_from : Option ℤ → Option ℤ → Page
page_from page size =
    let asked = positive_or (pos 20) size in
    record {
      number = positive_or (pos 1) page;
      size = if ltb_ℤ (pos 100) asked then pos 100 else asked;
    }

abbrev pub item_response : Item → OrderItemResponse
unfolding subtotal
item_response i = record {
  product_id = i.product_id;
  sku = i.sku;
  name = i.name;
  unit_price = i.unit_price.amount;
  quantity = i.quantity;
  line_subtotal = (subtotal i).amount;
}

unfoldable pub user_order_response : Order → OrderResponse
user_order_response o = record {
  id = o.id;
  status = status_text o.status;
  total_amount = o.total.amount;
  currency = o.total.currency;
  items = map item_response o.items;
  created_at = o.created_at;
}

-- `orderIDFrom`, of what `strconv.ParseUint` read.
unfoldable pub order_id_from : Option ℕ → Result ℕ
order_id_from none = err (new validation "order.invalid_id" "order id must be a positive integer")
order_id_from (some id) =
    if id == 0
    then err (new validation "order.invalid_id" "order id must be a positive integer")
    else ok id

-- Whether the two guards on the order's owner let the caller through.
abbrev pub may_access : Caller → Order → Bool
may_access c o = not (not (o.user_id == c.user_id) && not (str_eq c.role "admin"))

module _ (g : Gorm) where
  open g use {World}

  abbrev refuse : Failure → World → Response × World
  refuse e w = (failure_response e, w)

  -- The part that `Get`, `Cancel` and `Status` share: the caller, the id, the order and its owner; then
  -- the rest of the handler.
  unfoldable pub with_order :
      Option Caller → Option ℕ → (ℕ → Order → World → Response × World) → World → Response × World
  with_order none param rest w =
      refuse (new unauthorized "unauthorized" "authentication required") w
  with_order (some c) param rest w = elim (order_id_from param) [
    | err e ↦ refuse e w
    | ok id ↦
        let (found, w') = find_order g id w in
        elim found [
          | err e ↦ refuse e w'
          | ok o ↦
              if may_access c o
              then rest id o w'
              else refuse (new forbidden "order.forbidden" "you do not have access to this order")
                  w'
        ]
  ]

  -- `Get`, `Status` and `Cancel`
  unfoldable pub get_order : Option Caller → Option ℕ → World → Response × World
  unfolding with_order
  get_order caller param =
      with_order caller param λ id o w. (ok_response (order_body (user_order_response o)), w)

  unfoldable pub order_status : Option Caller → Option ℕ → World → Response × World
  unfolding with_order
  order_status caller param =
      with_order caller param λ id o w. (ok_response (status_body o.id (status_text o.status)), w)

  abbrev pub cancel_response : Handled → Response
  cancel_response r = elim r.answer [
    | err e ↦ failure_response e
    | ok o ↦ ok_response (order_body (user_order_response o))
  ]

  unfoldable pub cancel_order : Option Caller → Option ℕ → World → Response × World
  unfolding with_order
  cancel_order caller param = with_order caller param λ id o w.
      let (r, w') =
        CancelOrder.handle g (record { order_id = id; reason = "cancelled by user" }) w in
      (cancel_response r, w')
