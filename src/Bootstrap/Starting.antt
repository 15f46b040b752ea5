-- ===== src/Bootstrap/Starting.antt =====
-- The service that internal/bootstrap/bootstrap.go starts and stops.
use backend_golang_task.Prelude.{
  ℕ, ◌+◌, ◌≤◌, ◌≡◌, refl, sym, ◌∙◌, subst, String, true, false, Option, some, List, [], ◌∷◌, arith,
}
use backend_golang_task.Prelude.Int.{ℤ, pos, pos_part, ◌≤ℤ◌}
use backend_golang_task.Errs.{Result, ok, err}
use backend_golang_task.Shared.Event.{order_event, order_paid, order_failed}
use backend_golang_task.Config.{Numbers, Config, Env, url, load}
use backend_golang_task.Config.Safe.{load-IsSafe}
use backend_golang_task.Pool
use backend_golang_task.Pool.{at_least, new_pool}
use backend_golang_task.EventBus
use backend_golang_task.EventBus.{new_bus, subscribe, dispatched}
use backend_golang_task.Dispatcher
use backend_golang_task.Dispatcher.{new_dispatcher}
use backend_golang_task.Hub.{receive}
use backend_golang_task.Rabbit.{Amqp, Link}
use backend_golang_task.Rabbit.Closing.{shut, open_at}
use backend_golang_task.Rabbit.Lifetime.{IsTidy, messaging_closes}
use backend_golang_task.Bootstrap.{
  App, subscriber, notification_on_order_paid, notification_on_order_failed, audit_handler,
  ws_broadcast, assembled, new_app, stop_app,
}

none_yet : (m : ℕ) → 0 + m ≡ m
none_yet m = omega arith

at_least_exact : (m : ℤ) → pos 1 ≤ℤ m → (at_least (pos 1) m ≡ pos_part m) × (1 ≤ pos_part m)
at_least_exact m le = (ground (arith, le), ground (arith, le))

module _ (n : Numbers) (lib : Amqp) (Task : Type 0) where
  -- The service has started: its workers run, and what it is told of is handed on.
  pub record IsStarted (cfg : Config n) (a : App n lib Task) : Type 0 where
    pub order_workers : a.pool.tasks.live ≡ pos_part cfg.worker.order_workers
    pub some_worker : 1 ≤ a.pool.tasks.live
    pub accepting : a.pool.stopped ≡ false
    pub event_workers : a.inproc.jobs.live ≡ at_least (pos 1) cfg.worker.event_workers
    pub notification_workers :
        a.dispatcher.queue.live ≡ at_least (pos 1) cfg.worker.notification_workers
    pub on_paid :
        (id : ℕ)
        → dispatched (order_event (order_paid id)) a.inproc.handlers
          ≡ subscriber "order.paid" notification_on_order_paid
            ∷ subscriber "*" audit_handler
            ∷ subscriber "*" ws_broadcast
            ∷ []
    pub on_failed :
        (id : ℕ) (reason : String)
        → dispatched (order_event (order_failed id reason)) a.inproc.handlers
          ≡ subscriber "order.failed" notification_on_order_failed
            ∷ subscriber "*" audit_handler
            ∷ subscriber "*" ws_broadcast
            ∷ []
    pub connections : IsTidy lib a.messaging
    pub database_open : a.db_open ≡ true

  pub record IsStopped (a : App n lib Task) : Type 0 where
    pub pool_stopped : a.pool.stopped ≡ true
    pub pool_closed : a.pool.tasks.closed ≡ true
    pub bus_closed : a.inproc.jobs.closed ≡ true
    pub dispatcher_closed : a.dispatcher.queue.closed ≡ true
    pub hub_done : a.hub.done ≡ true
    pub publisher_shut : open_at lib a.messaging.publisher_link ≡ shut
    pub consumer_shut : open_at lib a.messaging.consumer_link ≡ shut
    pub database_shut : a.db_open ≡ false

  module _ (publisher_link consumer_link : Link lib) (shut₁ : open_at lib publisher_link ≡ shut)
      (shut₂ : open_at lib consumer_link ≡ shut) where
    assembled-IsStarted :
        (cfg : Config n)
        → pos 1 ≤ℤ cfg.worker.order_workers
        → IsStarted cfg (assembled n lib Task cfg publisher_link consumer_link)
    unfolding assembled new_bus new_dispatcher new_pool EventBus.start Dispatcher.start Pool.start
        subscribe dispatched
    assembled-IsStarted cfg le = record {
      order_workers = none_yet _ ∙ (at_least_exact _ le).0;
      some_worker = omega (
        arith,
        none_yet (at_least (pos 1) cfg.worker.order_workers),
        (at_least_exact cfg.worker.order_workers le).0,
        (at_least_exact cfg.worker.order_workers le).1,
      );
      accepting = refl;
      event_workers = none_yet _;
      notification_workers = none_yet _;
      on_paid = λ id. refl;
      on_failed = λ id reason. refl;
      connections =
          (messaging_closes lib cfg.rabbit_mq.enabled (url cfg.rabbit_mq) cfg.rabbit_mq.exchange
            publisher_link consumer_link shut₁ shut₂).0;
      database_open = refl;
    }

    assembled-IsStopped :
        (cfg : Config n)
        → (a : App n lib Task) × (stop_app n lib Task
              (ok tt)
              (assembled n lib Task cfg publisher_link consumer_link)
            ≡ some a)
          × IsStopped a
    unfolding assembled new_bus new_dispatcher new_pool EventBus.start Dispatcher.start Pool.start
        subscribe stop_app Pool.stop EventBus.stop Dispatcher.stop receive
    assembled-IsStopped cfg = (
      _,
      refl,
      record {
        pool_stopped = refl;
        pool_closed = refl;
        bus_closed = refl;
        dispatcher_closed = refl;
        hub_done = refl;
        publisher_shut =
            (messaging_closes lib cfg.rabbit_mq.enabled (url cfg.rabbit_mq) cfg.rabbit_mq.exchange
              publisher_link consumer_link shut₁ shut₂).1;
        consumer_shut =
            (messaging_closes lib cfg.rabbit_mq.enabled (url cfg.rabbit_mq) cfg.rabbit_mq.exchange
              publisher_link consumer_link shut₁ shut₂).2;
        database_shut = refl;
      },
    )

    assembled_of :
        (cfg : Config n) (opened migration : Result (Unit {0})) {a : App n lib Task}
        → new_app n lib Task cfg opened migration publisher_link consumer_link ≡ ok a
        → a ≡ assembled n lib Task cfg publisher_link consumer_link
    unfolding new_app
    assembled_of cfg (err e) migration made = cc
    assembled_of cfg (ok _) (err e) made = cc
    assembled_of cfg (ok _) (ok _) made = cc

    -- A service that starts under a configuration that has loaded runs as many workers for orders as that
    -- says, at least one, and as many for events and notifications, or one where it says less; an order
    -- that is paid or failed is handed to its notification and to the handlers of every event; and of
    -- RabbitMQ it holds the connections that it keeps. When it is stopped right then, and GORM gives the
    -- handle of the database, the lock of the pool is free, and the stop, but for its waits for the
    -- workers, closes the channels of the pool, the bus and the dispatcher, ends the hub and leaves no
    -- connection to RabbitMQ or the database open.
    pub new_app-IsStarted :
        (env : Env) (random : Option (List ℕ)) (opened migration : Result (Unit {0}))
        {cfg : Config n} {a : App n lib Task}
        → load n env random ≡ ok cfg
        → new_app n lib Task cfg opened migration publisher_link consumer_link ≡ ok a
        → IsStarted cfg a
          × ((a' : App n lib Task) × (stop_app n lib Task (ok tt) a ≡ some a') × IsStopped a')
    new_app-IsStarted env random opened migration {cfg} {a} loaded made =
        subst
          (λ (b : App n lib Task).
            IsStarted cfg b
            × ((a' : App n lib Task) × (stop_app n lib Task (ok tt) b ≡ some a') × IsStopped a'))
          (sym (assembled_of cfg opened migration made))
          (
            assembled-IsStarted cfg (load-IsSafe n env random loaded).has_workers,
            assembled-IsStopped cfg,
          )
