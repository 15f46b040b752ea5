-- ===== src/EventBus/Examples.antt =====
-- A bus with one handler of paid orders and one of every event.
use backend_golang_task.Prelude.{ℕ, ◌≡◌, refl, false, some, List, [], ◌∷◌}
use backend_golang_task.Shared.Event.{Event, order_event, order_paid}
use backend_golang_task.Workers.{new_channel}
use backend_golang_task.Workers.Sound.{new_channel-IsSound}
use backend_golang_task.EventBus.{Handler, Bus, Turn, new_bus, subscribe, publish}
use backend_golang_task.EventBus.Subscriptions.{subscribe_all}
use backend_golang_task.Prelude.Int.{pos}
use backend_golang_task.EventBus.Delivery.{Gives, due, publish-Gives}

abbrev notify : Handler ℕ
notify = record { name = "order.paid"; code = 1 }

abbrev audit : Handler ℕ
audit = record { name = "*"; code = 2 }

abbrev listeners : List (Handler ℕ)
listeners = audit ∷ notify ∷ []

abbrev paid : Event
paid = order_event (order_paid 4)

abbrev open_bus : Bus ℕ
open_bus = record {
  workers = 1;
  handlers = ("*", audit ∷ []) ∷ ("order.paid", notify ∷ []) ∷ [];
  started = false;
  ended = false;
  jobs = new_channel 1;
  direct = [];
}

subscribed : open_bus.handlers ≡ (subscribe_all listeners (new_bus (pos 1) (pos 1))).handlers
unfolding new_bus subscribe
subscribed = refl

publish-Gives_example :
    (ts' : List Turn) × (b' : Bus ℕ) × (publish (paid ∷ []) [] open_bus ≡ some (ts', b'))
    × Gives (due (paid ∷ []) listeners) open_bus b'
publish-Gives_example =
    publish-Gives (pos 1) (pos 1) listeners (paid ∷ []) [] open_bus subscribed refl
      (new_channel-IsSound 1)
