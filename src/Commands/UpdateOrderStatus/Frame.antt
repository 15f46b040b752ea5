-- ===== src/Commands/UpdateOrderStatus/Frame.antt =====
-- What an administrator's change of status (internal/application/command/update_order_status.go)
-- leaves alone.
use mathlib.Core.Path.{subst}
use backend_golang_task.Prelude.{ℕ, arith}
use backend_golang_task.Errs.{Result, ok, err}
use backend_golang_task.Order.{Status}
use backend_golang_task.Gorm.Models.{Tables}
use backend_golang_task.Gorm.Engine.{Gorm, IsGorm, Transacted}
use backend_golang_task.Gorm.Orders.Frame.{OnlyOrders, find_order-tables, update_order-OnlyOrders}
use backend_golang_task.Commands.Memory.{stored, stored-eq-ok}
use backend_golang_task.Commands.UpdateOrderStatus.{updating, handle}

module _ (g : Gorm) (laws : IsGorm g) where
  updating-OnlyOrders :
      (id : ℕ) (target : Status) (w : g.World)
      → OnlyOrders (g.tables w) (g.tables (updating g id target w).1)
  unfolding updating
  updating-OnlyOrders id target w =
      grind (arith, find_order-tables g laws, update_order-OnlyOrders g laws)

  Transacted-OnlyOrders :
      (id : ℕ) (target : Status) (d : Tables) (r : Result (Unit {0}) × (Unit {0} × g.World))
      → Transacted g (stored (updating g id target)) tt d r
      → OnlyOrders d (g.tables r.1.1)
  Transacted-OnlyOrders id target d (ok _, (_, w')) (begun, done, at, ran, kept) =
      let (_, e) = stored-eq-ok (updating g id target) tt begun ran in
      rw (kept, ← at)
        (subst (λ (x : Result (Unit {0}) × g.World). OnlyOrders (g.tables begun) (g.tables x.1)) e
          (updating-OnlyOrders id target begun))
  Transacted-OnlyOrders id target d (err _, (_, w')) same = rw same

  -- Whatever status an administrator sets, cancelled or failed among them, no stock is released and
  -- no payment refunded: only the table of the orders changes.
  pub handle-OnlyOrders :
      (id : ℕ) (target : Status) (w : g.World)
      → OnlyOrders (g.tables w) (g.tables (handle g id target w).1)
  unfolding handle
  handle-OnlyOrders id target w =
      Transacted-OnlyOrders id target (g.tables w) _
        (laws.transaction_law (stored (updating g id target)) tt w)
