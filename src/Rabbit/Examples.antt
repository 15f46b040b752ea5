-- ===== src/Rabbit/Examples.antt =====
-- A broker that fails after a number of calls.
use backend_golang_task.Prelude.{String, ℕ, zero, suc, ◌≡◌, refl, true, List, [], ◌∷◌}
use backend_golang_task.Errs.{Result, ok, err, foreign}
use backend_golang_task.Rabbit.{
  Amqp, Call, Link, Messaging, CompositeBus, composite_publish, start_messaging, stop_messaging,
}
use backend_golang_task.Prelude.Int.{pos}
use backend_golang_task.Shared.Event.{Event, order_event, order_paid, order_fulfilled}
use backend_golang_task.EventBus.{Handler, subscribe, new_bus}
use backend_golang_task.Rabbit.Publishing.{PublishesBoth, composite_publish-PublishesBoth}
use backend_golang_task.Rabbit.Closing.{shut, open_at}
use backend_golang_task.Rabbit.Lifetime.{IsTidy, no_messaging, messaging_closes}

abbrev pub answers : Call → ℕ → Result String × ℕ
answers c zero = (err (foreign "channel/connection is not open"), zero)
answers c (suc n) = (ok "amq.gen-1", n)

abbrev pub lame : Amqp
lame = record { State = ℕ; reply = answers }

abbrev pub link : ℕ → Link lame
link n = record { calls = []; library = n }

-- The queue of the consumer is declared and cannot be bound.
abbrev started : Messaging lame
started =
    start_messaging lame true "amqp://guest:@rabbitmq:5672/" "orders.events"
      (no_messaging lame (link 9) (link 4))

messaging_closes_example :
    IsTidy lame started
    × (open_at lame (stop_messaging lame started).publisher_link ≡ shut)
    × (open_at lame (stop_messaging lame started).consumer_link ≡ shut)
messaging_closes_example =
    messaging_closes lame true "amqp://guest:@rabbitmq:5672/" "orders.events" (link 9) (link 4) refl
      refl

abbrev audit : Handler ℕ
audit = record { name = "*"; code = 2 }

abbrev both_buses : CompositeBus lame ℕ
both_buses = record {
  primary = subscribe audit (new_bus (pos 1) (pos 4));
  also_publish = record { exchange = "orders.events" };
  link = link 1;
}

abbrev paid : List Event
paid = order_event (order_paid 4) ∷ order_event (order_fulfilled 4) ∷ []

composite_publish-PublishesBoth_example :
    PublishesBoth lame ℕ paid [] both_buses (composite_publish lame ℕ paid [] both_buses)
composite_publish-PublishesBoth_example = composite_publish-PublishesBoth lame ℕ paid [] both_buses
