-- ===== src/Http/Admin.antt =====
-- internal/interfaces/http/handler/admin_handler.go.
use backend_golang_task.Prelude.{ℕ, String, ◌==◌, is_empty, if◌then◌else◌, Option, some, none, map}
use backend_golang_task.Prelude.Int.{ℤ}
use backend_golang_task.Errs.{Result, ok, err, new, validation}
use backend_golang_task.Order.{Order, status_text, read_status}
use backend_golang_task.Inventory.{Inventory}
use backend_golang_task.Gorm.Engine.{Gorm}
use backend_golang_task.Gorm.Orders.{Page}
use backend_golang_task.Queries.{list_all_orders, low_stock}
use backend_golang_task.Queries.DailyReport
use backend_golang_task.Commands.UpdateOrderStatus
use backend_golang_task.Httpx.{
  Response, AdminOrderResponse, InventoryResponse, admin_orders_body, status_body, report_body,
  low_stock_body, failure_response, ok_response, answer_with, at_id,
}
use backend_golang_task.Http.{page_from, item_response}

unfoldable pub order_response : Order → AdminOrderResponse
order_response o = record {
  id = o.id;
  user_id = o.user_id;
  status = status_text o.status;
  items = map item_response o.items;
  total = o.total.amount;
  currency = o.total.currency;
  failure_reason = o.failure_reason;
  created_at = o.created_at;
}

abbrev pub low_stock_response : Inventory → InventoryResponse
low_stock_response inv = record {
  product_id = inv.product_id;
  available = inv.available;
  reserved = inv.reserved;
  reorder_level = inv.reorder_level;
}

-- `parsePage` reads a parameter that is not empty as `pageFrom` of the orders does; `strconv.Atoi`
-- reads nothing from one that is.
abbrev parse_page : Option ℤ → Option ℤ → Page
parse_page = page_from

-- `parseUintParam`, of what `strconv.ParseUint` read.
unfoldable pub parse_uint_param : Option ℕ → Result ℕ
parse_uint_param none = err (new validation "admin.invalid_id" "invalid order id")
parse_uint_param (some id) =
    if id == 0 then err (new validation "admin.invalid_id" "invalid order id") else ok id

module _ (g : Gorm) where
  open g use {World}

  unfoldable pub list_orders : Option ℤ → Option ℤ → World → Response × World
  list_orders number size w =
      let page = parse_page number size in
      answer_with
        (λ (orders, total).
          ok_response (admin_orders_body (map order_response orders) total page.number page.size))
        (list_all_orders g page w)

  -- With a status that is not empty.
  abbrev update_status : ℕ → String → World → Response × World
  update_status id status w =
      answer_with (λ _. ok_response (status_body id status))
        (UpdateOrderStatus.handle g id (read_status status) w)

  -- The request is its field `status`.
  unfoldable pub update_order_status : Option ℕ → Result String → World → Response × World
  update_order_status param bound = at_id (parse_uint_param param) λ id w. elim bound [
    | err e ↦ (
      failure_response (new validation "admin.invalid_body" "request body must be valid json"),
      w,
    )
    | ok status ↦
        if is_empty status
        then (failure_response (new validation "admin.missing_status" "status is required"), w)
        else update_status id status w
  ]

  unfoldable pub daily_report : String → World → Response × World
  daily_report date w = answer_with (λ r. ok_response (report_body r)) (DailyReport.handle g date w)

  unfoldable pub list_low_stock : World → Response × World
  list_low_stock w =
      answer_with (λ items. ok_response (low_stock_body (map low_stock_response items)))
        (low_stock g w)
