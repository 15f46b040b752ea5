-- ===== src/Http/Orders.antt =====
-- `Place` and `List` of internal/interfaces/http/handler/order_handler.go. What gin has bound to the
-- request's structure is an argument: the structure, or the binder's error.
use backend_golang_task.Prelude.{
  ℕ, String, Bool, is_empty, if◌then◌else◌, Option, some, none, List, map,
}
use backend_golang_task.Prelude.Int.{ℤ}
use backend_golang_task.Errs.{Result, ok, err, new, validation, unauthorized, text}
use backend_golang_task.Ports.{PaymentGateway}
use backend_golang_task.Gorm.Engine.{Gorm}
use backend_golang_task.Queries.{list_user_orders}
use backend_golang_task.Commands.Memory.{Handled}
use backend_golang_task.Commands.PlaceOrder.{PlaceOrderItem, PlaceOrderInput}
use backend_golang_task.Commands.PlaceOrder
use backend_golang_task.Httpx.{
  Response, order_body, orders_body, failure_response, ok_response, created_response,
}
use backend_golang_task.Http.{Caller, page_from, user_order_response}

pub record PlaceOrderItemRequest : Type 0 where
  pub product_id : ℕ
  pub quantity : ℤ

pub record PlaceOrderRequest : Type 0 where
  pub items : List PlaceOrderItemRequest

abbrev ordered_item : PlaceOrderItemRequest → PlaceOrderItem
ordered_item line = record { product_id = line.product_id; quantity = line.quantity }

-- `key` is the header, `fresh` the uuid that is drawn where it is missing.
abbrev key_or : String → String → String
key_or key fresh = if is_empty key then fresh else key

abbrev pub placed_response : Handled → Response
placed_response r = elim r.answer [
  | err e ↦ failure_response e
  | ok o ↦ created_response (order_body (user_order_response o))
]

module _ (g : Gorm) where
  open g use {World}

  -- The arguments before the caller are those of the use case.
  unfoldable pub place_order :
      (gw : PaymentGateway)
      → ℤ
      → ℕ
      → Bool
      → Option Caller
      → Result PlaceOrderRequest
      → String
      → String
      → World × gw.State
      → Response × World × gw.State
  place_order gw attempts now accepts none bound key fresh (w, s) =
      (failure_response (new unauthorized "unauthorized" "authentication required"), w, s)
  place_order gw attempts now accepts (some c) (err e) key fresh (w, s) =
      (failure_response (new validation "order.invalid_request" (text e)), w, s)
  place_order gw attempts now accepts (some c) (ok req) key fresh (w, s) =
      let inp : PlaceOrderInput = record {
        user_id = c.user_id;
        idempotency_key = key_or key fresh;
        items = map ordered_item req.items;
      } in
      let (r, w', s') = PlaceOrder.handle g gw attempts now accepts inp (w, s) in
      (placed_response r, w', s')

  unfoldable pub list_orders : Option Caller → Option ℤ → Option ℤ → World → Response × World
  unfolding page_from
  list_orders none number size w =
      (failure_response (new unauthorized "unauthorized" "authentication required"), w)
  list_orders (some c) number size w =
      let page = page_from number size in
      let (r, w') = list_user_orders g c.user_id page w in
      elim r [
        | err e ↦ (failure_response e, w')
        | ok (orders, total) ↦ (
          ok_response (orders_body (map user_order_response orders) total page.number page.size),
          w',
        )
      ]
