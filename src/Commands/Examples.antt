-- ===== src/Commands/Examples.antt =====
-- The use cases on the sample database, with the mock gateway.
pub mod Accounts
use backend_golang_task.Prelude.{true, [], ◌∷◌, ◌≡◌, refl}
use backend_golang_task.Prelude.Int.{pos}
use backend_golang_task.Errs.{ok}
use backend_golang_task.Shared.Money.{must_money}
use backend_golang_task.Order.{Order, cancelled}
use backend_golang_task.Order
use backend_golang_task.Ports.{ChargeRequest}
use backend_golang_task.MockGateway.{mock_gateway}
use backend_golang_task.MockGateway.Examples.{draws, idle}
use backend_golang_task.Gorm.InMemory.{in_memory, in_memory-IsGorm}
use backend_golang_task.Gorm.Orders.Frame.{OnlyOrders}
use backend_golang_task.Gorm.Orders.{
  find_by_idempotency_key, order_to_domain, item_to_domain, items_to_domain,
}
use backend_golang_task.Gorm.Examples.{sample, pen_price, old_order}
use backend_golang_task.Commands.PlaceOrder.{PlaceOrderInput, charge_loop, handle}
use backend_golang_task.Commands.PlaceOrder.Replay.{Replays, handle-Replays}
use backend_golang_task.Commands.PlaceOrder.Charging.{Charged, charge_loop-Charged}
use backend_golang_task.Commands.CancelOrder.{CancelOrderInput}
use backend_golang_task.Commands.CancelOrder
use backend_golang_task.Commands.CancelOrder.Atomic.{Cancels, handle-Cancels}
use backend_golang_task.Commands.UpdateOrderStatus
use backend_golang_task.Commands.UpdateOrderStatus.Frame.{handle-OnlyOrders}
use backend_golang_task.Payment.Examples.{begun}

abbrev charge_pen : ChargeRequest
charge_pen = record { idempotency_key = "new"; amount = pen_price }

charge_loop-Charged_example :
    Charged
      (mock_gateway draws)
      charge_pen
      2
      begun
      idle
      (charge_loop (mock_gateway draws) charge_pen 2 begun idle)
charge_loop-Charged_example = charge_loop-Charged (mock_gateway draws) charge_pen 2 begun idle

abbrev again : PlaceOrderInput
again = record {
  user_id = 7;
  idempotency_key = "old";
  items = record { product_id = 1; quantity = pos 2 } ∷ [];
}

abbrev pub read_old : Order
read_old = record {
  root = record { pending = [] };
  id = 4;
  user_id = 7;
  status = Order.reserved;
  items =
      record { product_id = 1; sku = "A"; name = "pen"; unit_price = pen_price; quantity = pos 2 }
      ∷ [];
  total = record { amount = pos 300; currency = "USD" };
  idempotency_key = "old";
  failure_reason = "";
  created_at = 60;
}

read_old_order : order_to_domain old_order ≡ ok read_old
unfolding order_to_domain items_to_domain item_to_domain must_money Order.new_item Order.read_status
read_old_order = refl

handle-Replays_example :
    let (r, w', s') = handle in_memory (mock_gateway draws) (pos 3) 100 true again (sample, idle) in
    (s' ≡ idle)
    × (w' ≡ sample)
    × Replays read_old (find_by_idempotency_key in_memory "old" sample).0 r
handle-Replays_example =
    handle-Replays in_memory (mock_gateway draws) (pos 3) 100 in_memory-IsGorm true again old_order
      read_old sample idle refl read_old_order

abbrev changed_mind : CancelOrderInput
changed_mind = record { order_id = 4; reason = "changed my mind" }

handle-Cancels_example :
    Cancels in_memory changed_mind sample (CancelOrder.handle in_memory changed_mind sample)
handle-Cancels_example = handle-Cancels in_memory in_memory-IsGorm changed_mind sample

handle-OnlyOrders_example :
    OnlyOrders sample (UpdateOrderStatus.handle in_memory 4 cancelled sample).1
handle-OnlyOrders_example = handle-OnlyOrders in_memory in_memory-IsGorm 4 cancelled sample
