-- ===== src/Order/History.antt =====
-- Event sourcing: the events that internal/domain/order/order.go records tell the order's status.
use mathlib.Core.List.{foldl, foldl-append}
use backend_golang_task.Prelude.{ℕ, String, ◌≡◌, refl, List, [], ◌∷◌, ◌++◌, arith}
use backend_golang_task.Errs.{ok}
use backend_golang_task.Shared.Event.{
  Event, order_event, OrderEvent, order_placed, order_reserved, order_paid, order_fulfilled,
  order_cancelled, order_failed, payment_event, inventory_event, notification_event, product_event,
  user_event,
}
use backend_golang_task.Order.{
  Status, pending, reserved, paid, fulfilled, cancelled, failed, other, Order, Item, new_order,
}
use backend_golang_task.Order.Total.{new_order-eq-ok}
use backend_golang_task.Order.Lifecycle.{
  Call, reserves, pays, fulfils, cancels, fails, call, after, run, recorded,
}

-- What a list of events tells of an order, read from the first on.
pub data Told : Type 0 where
  nothing garbled : Told
  told : Status → Told

abbrev advance : Told → OrderEvent → Told
advance nothing (order_placed _ _ _ _) = told pending
advance (told pending) (order_reserved _) = told reserved
advance (told reserved) (order_paid _) = told paid
advance (told paid) (order_fulfilled _) = told fulfilled
advance (told pending) (order_cancelled _ _) = told cancelled
advance (told reserved) (order_cancelled _ _) = told cancelled
advance (told paid) (order_cancelled _ _) = told cancelled
advance (told pending) (order_failed _ _) = told failed
advance (told reserved) (order_failed _ _) = told failed
advance (told paid) (order_failed _ _) = told failed
advance _ _ = garbled

abbrev replay_event : Told → Event → Told
replay_event s (order_event e) = advance s e
replay_event s (payment_event _) = s
replay_event s (inventory_event _) = s
replay_event s (notification_event _) = s
replay_event s (product_event _) = s
replay_event s (user_event _) = s

unfoldable pub replay : List Event → Told
replay es = foldl replay_event nothing es

replay-append : (es : List Event) (e : Event) → replay (es ++ e ∷ []) ≡ replay_event (replay es) e
unfolding replay
replay-append es e = foldl-append replay_event nothing es (e ∷ [])

-- The recorded events tell the status, and it is one of the six.
abbrev pub IsTold : Order → Type 0
IsTold o = replay (recorded o) ≡ told o.status

abbrev pub IsKnown : Status → Type 0
IsKnown (other _) = ⊥
IsKnown _ = Unit

record Faithful (o : Order) : Type 0 where
  tells : IsTold o
  known : IsKnown o.status

call-Faithful : (c : Call) (o : Order) → Faithful o → Faithful (after o (call c o))
unfolding call
call-Faithful reserves o f =
    ground (arith, replay-append (recorded o) (order_event (order_reserved o.id)))
call-Faithful pays o f = ground (arith, replay-append (recorded o) (order_event (order_paid o.id)))
call-Faithful fulfils o f =
    ground (arith, replay-append (recorded o) (order_event (order_fulfilled o.id)))
call-Faithful (cancels r) o f =
    ground (arith, replay-append (recorded o) (order_event (order_cancelled o.id r)))
call-Faithful (fails r) o f =
    ground (arith, replay-append (recorded o) (order_event (order_failed o.id r)))

run-Faithful : (o : Order) (cs : List Call) → Faithful o → Faithful (run o cs)
unfolding run
run-Faithful o [] f = f
run-Faithful o (c ∷ cs) f = run-Faithful (after o (call c o)) cs (call-Faithful c o f)

new_order-Faithful :
    (user_id : ℕ) (items : List Item) (key : String) (now : ℕ) {o : Order}
    → new_order user_id items key now ≡ ok o
    → Faithful o
unfolding new_order replay
new_order-Faithful user_id items key now h =
    let (_, _, total, _, made) = new_order-eq-ok user_id items key now h in
    rw made (record { tells = refl; known = tt })

-- After any calls on an order that `NewOrder` made, replaying its recorded events gives its status.
pub run-IsTold :
    (user_id : ℕ) (items : List Item) (key : String) (now : ℕ) {o : Order} (cs : List Call)
    → new_order user_id items key now ≡ ok o
    → IsTold (run o cs)
run-IsTold user_id items key now {o} cs h =
    (run-Faithful o cs (new_order-Faithful user_id items key now h)).tells
