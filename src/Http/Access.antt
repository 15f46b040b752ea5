-- ===== src/Http/Access.antt =====
-- Who may see and cancel an order (internal/interfaces/http/handler/order_handler.go), what a page may
-- be, and how errors are reported (internal/interfaces/http/httpx/response.go).
use backend_golang_task.Prelude.{ℕ, ◌≡◌, ◌≢◌, eq_iff, Option, some, arith}
use backend_golang_task.Prelude.Int.{ℤ, pos, ◌≤ℤ◌}
use backend_golang_task.Errs.{ok}
use backend_golang_task.Order.{Order}
use backend_golang_task.Gorm.Engine.{Gorm, IsGorm}
use backend_golang_task.Gorm.Orders.{find_order}
use backend_golang_task.Gorm.Orders.Frame.{find_order-tables}
use backend_golang_task.Http.{Caller, order_id_from, cancel_order, page_from}
use backend_golang_task.Httpx.{error_response}

-- Whatever page a request asks for, its number is at least 1 and its size from 1 to 100.
pub page_from_bounds :
    (page size : Option ℤ)
    → (pos 1 ≤ℤ (page_from page size).number)
      × (pos 1 ≤ℤ (page_from page size).size)
      × ((page_from page size).size ≤ℤ pos 100)
unfolding page_from
page_from_bounds page size = ground arith

module _ (g : Gorm) (laws : IsGorm g) where
  -- Cancelling an order of somebody else answers 403 and changes no table, for every caller but an
  -- administrator.
  cancel_order-stranger :
      (c : Caller) (id : ℕ) (w : g.World) {o : Order} {w' : g.World}
      → id ≢ 0
      → find_order g id w ≡ (ok o, w')
      → o.user_id ≢ c.user_id
      → c.role ≢ "admin"
      → ((cancel_order g (some c) (some id) w).0.status ≡ 403)
        × (g.tables (cancel_order g (some c) (some id) w).1 ≡ g.tables w)
  unfolding cancel_order order_id_from error_response
  cancel_order-stranger c id w {o} positive found other plain =
      ground (arith, eq_iff c.role "admin", find_order-tables g laws id w)
