-- ===== src/Commands/UpdateOrderStatus.antt =====
-- internal/application/command/update_order_status.go.
pub mod Frame
use backend_golang_task.Prelude.{ℕ}
use backend_golang_task.Errs.{Result, ok, err, new, validation}
use backend_golang_task.Action.{Action, pure, lift, ◌>>=◌, ◌>>◌}
use backend_golang_task.Order.{
  Order, Status, reserved, paid, fulfilled, cancelled, failed, mark_reserved, mark_paid,
  mark_fulfilled, cancel, fail,
}
use backend_golang_task.Gorm.Engine.{Gorm}
use backend_golang_task.Gorm.Orders.{find_order, update_order}
use backend_golang_task.Commands.Memory.{stored}

unfoldable pub transition : Order → Status → Result Order
transition o reserved = mark_reserved o
transition o paid = mark_paid o
transition o fulfilled = mark_fulfilled o
transition o cancelled = cancel "status updated by administrator" o
transition o failed = fail "status updated by administrator" o
transition o _ = err (new validation "order.unsupported_target_status" "unsupported target status")

module _ (g : Gorm) where
  open g use {World, transaction}

  unfoldable pub updating : ℕ → Status → Action World (Unit {0})
  updating order_id target = do
    o ← find_order g order_id
    o' ← lift (transition o target)
    update_order g o'

  -- The closure writes no variable of the handler.
  unfoldable pub handle : ℕ → Status → World → Result (Unit {0}) × World
  handle order_id target w =
      let (r, (_, w')) = transaction {M = Unit {0}} (stored (updating order_id target)) (tt, w) in
      (r, w')
