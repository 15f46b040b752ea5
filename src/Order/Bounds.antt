-- ===== src/Order/Bounds.antt =====
-- How many events the methods of internal/domain/order/order.go can record.
use backend_golang_task.Prelude.{ℕ, ◌+◌, ◌≤◌, List, [], ◌∷◌, length, length-append, arith}
use backend_golang_task.Shared.Event.{
  order_event, order_reserved, order_paid, order_fulfilled, order_cancelled, order_failed,
}
use backend_golang_task.Order.{
  Status, pending, reserved, paid, fulfilled, cancelled, failed, other, Order,
}
use backend_golang_task.Order.Lifecycle.{
  Call, reserves, pays, fulfils, cancels, fails, call, after, run, recorded,
}

-- How many transitions an order can still make.
abbrev pub rank : Status → ℕ
rank pending = 3
rank reserved = 2
rank paid = 1
rank (other _) = 1
rank fulfilled = 0
rank cancelled = 0
rank failed = 0

call-rank :
    (c : Call) (o : Order)
    → length (recorded (after o (call c o))) + rank (after o (call c o)).status
      ≤ length (recorded o) + rank o.status
unfolding call
call-rank reserves o =
    ground (arith, length-append {0} (recorded o) (order_event (order_reserved o.id) ∷ []))
call-rank pays o =
    ground (arith, length-append {0} (recorded o) (order_event (order_paid o.id) ∷ []))
call-rank fulfils o =
    ground (arith, length-append {0} (recorded o) (order_event (order_fulfilled o.id) ∷ []))
call-rank (cancels r) o =
    ground (arith, length-append {0} (recorded o) (order_event (order_cancelled o.id r) ∷ []))
call-rank (fails r) o =
    ground (arith, length-append {0} (recorded o) (order_event (order_failed o.id r) ∷ []))

run-rank :
    (o : Order) (cs : List Call)
    → length (recorded (run o cs)) + rank (run o cs).status ≤ length (recorded o) + rank o.status
unfolding run
run-rank o [] = omega arith
run-rank o (c ∷ cs) = omega (arith, call-rank c o, run-rank (after o (call c o)) cs)

-- Over any sequence of calls, however long, an order records at most three more events if it is pending,
-- two if it is reserved, one if it is paid or of an unknown status, and none if it is fulfilled,
-- cancelled or failed.
pub run_bounded :
    (o : Order) (cs : List Call)
    → length (recorded (run o cs)) ≤ length (recorded o) + rank o.status
run_bounded o cs = omega (arith, run-rank o cs)
