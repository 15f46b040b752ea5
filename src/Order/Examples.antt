-- ===== src/Order/Examples.antt =====
-- An order of two lines, which is reserved, paid and fulfilled.
use backend_golang_task.Prelude.{◌≡◌, refl, List, [], ◌∷◌, ◌≤◌, ◌+◌, length, All}
use backend_golang_task.Prelude.Int.{ℤ, pos, int64, ◌+ℤ◌, ◌*ℤ◌}
use backend_golang_task.Errs.{ok}
use backend_golang_task.Shared.Money.{Money}
use backend_golang_task.Order.{
  Order, Item, pending, reserved, fulfilled, new_order, placed, sum_items, add_item,
}
use backend_golang_task.Order.Total.{exact_total, IsIn, new_order_total}
use backend_golang_task.Order.Lifecycle.{
  Call, reserves, pays, fulfils, cancels, call, target, Edge, drawn, reserve_edge, after, run,
  recorded, call-Edge, Edge-call,
}
use backend_golang_task.Order.Bounds.{run_bounded}
use backend_golang_task.Order.History.{IsTold, run-IsTold}

abbrev usd : ℤ → Money
usd amount = record { amount = amount; currency = "USD" }

abbrev two_lines : List Item
two_lines =
    record { product_id = 1; sku = "A"; name = "pen"; unit_price = usd (pos 150); quantity = pos 2 }
    ∷ record {
      product_id = 2;
      sku = "B";
      name = "ink";
      unit_price = usd (pos 700);
      quantity = pos 1;
    }
    ∷ []

abbrev bought : Order
bought = placed 7 two_lines "key" (usd (pos 1000)) 100

abbrev to_the_end : List Call
to_the_end = reserves ∷ pays ∷ cancels "too late" ∷ fulfils ∷ reserves ∷ []

abbrev shipped : Order
shipped = record bought { status = fulfilled }

new_order-bought : new_order 7 two_lines "key" 100 ≡ ok bought
unfolding new_order sum_items add_item int64 ◌+ℤ◌ ◌*ℤ◌
new_order-bought = refl

call-bought : call reserves bought ≡ ok (after bought (call reserves bought))
unfolding call
call-bought = refl

new_order_total_example : All (IsIn "USD") two_lines × (pos 1000 ≡ int64 (exact_total two_lines))
new_order_total_example = new_order_total 7 two_lines "key" 100 new_order-bought

call-Edge_example :
    Edge pending (target reserves) × ((after bought (call reserves bought)).status ≡ reserved)
call-Edge_example = call-Edge reserves bought call-bought

Edge-call_example : (c : Call) × (o' : Order) × (call c bought ≡ ok o') × (o'.status ≡ reserved)
Edge-call_example = Edge-call bought (drawn reserve_edge)

run_bounded_example : length (recorded (run bought to_the_end)) ≤ 1 + 3
run_bounded_example = run_bounded bought to_the_end

run-IsTold_example : IsTold (run bought to_the_end)
run-IsTold_example = run-IsTold 7 two_lines "key" 100 to_the_end new_order-bought
