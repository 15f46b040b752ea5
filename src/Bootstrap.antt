-- ===== src/Bootstrap.antt =====
-- internal/bootstrap/bootstrap.go: what the service is made of when it starts, and how it stops. The use
-- cases and the handlers of requests have no state of their own: `Http/Router` takes what they are made
-- with.
pub mod Starting
mod Examples
use backend_golang_task.Prelude.{ℕ, String, Bool, true, false, Option, some, none}
use backend_golang_task.Errs.{Result, ok, err}
use backend_golang_task.Config.{Numbers, Config, url}
use backend_golang_task.Pool
use backend_golang_task.Pool.{Pool, new_pool, start_workers}
use backend_golang_task.EventBus
use backend_golang_task.EventBus.{Handler, Bus, new_bus, subscribe}
use backend_golang_task.Dispatcher
use backend_golang_task.Dispatcher.{Dispatcher, new_dispatcher}
use backend_golang_task.Hub.{Hub, new_hub, receive, stops}
use backend_golang_task.EventHandlers.{WsPayload}
use backend_golang_task.Rabbit.{Amqp, Link, Messaging, start_messaging, stop_messaging}
use backend_golang_task.Rabbit.Lifetime.{no_messaging}

-- The handlers of `EventHandlers`.
pub data Subscriber : Type 0 where
  notification_on_order_paid notification_on_order_failed audit_handler ws_broadcast : Subscriber

abbrev pub subscriber : String → Subscriber → Handler Subscriber
subscriber name code = record { name = name; code = code }

-- `Task` are the tasks of the pool.
module _ (n : Numbers) (lib : Amqp) (Task : Type 0) where
  pub record App : Type 0 where
    pub inproc : Bus Subscriber
    pub messaging : Messaging lib
    pub hub : Hub WsPayload
    pub dispatcher : Dispatcher
    pub pool : Pool Task
    -- Whether the connections to the database are open.
    pub db_open : Bool

  -- Once the database is open and migrated. The two links are the connections that RabbitMQ may get.
  unfoldable pub assembled : Config n → Link lib → Link lib → App
  assembled cfg publisher_link consumer_link =
      let bus = EventBus.start (new_bus cfg.worker.event_workers cfg.worker.event_queue_size) in
      record {
        inproc = subscribe (subscriber "*" ws_broadcast) (
            subscribe (subscriber "*" audit_handler) (
              subscribe (subscriber "order.failed" notification_on_order_failed)
                (subscribe (subscriber "order.paid" notification_on_order_paid) bus)));
        messaging =
            start_messaging lib cfg.rabbit_mq.enabled (url cfg.rabbit_mq) cfg.rabbit_mq.exchange
              (no_messaging lib publisher_link consumer_link);
        hub = new_hub;
        dispatcher =
            Dispatcher.start
              (new_dispatcher cfg.worker.notification_workers cfg.worker.notification_queue_size);
        pool =
            start_workers
              (Pool.start (new_pool cfg.worker.order_workers cfg.worker.order_queue_size)).1;
        db_open = true;
      }

  abbrev pub migrated : Config n → Link lib → Link lib → Result (Unit {0}) → Result App
  unfolding assembled
  migrated cfg p c (err e) = err e
  migrated cfg p c (ok _) = ok (assembled cfg p c)

  -- `New`, with what `Open` and `AutoMigrate` of the database have answered.
  unfoldable pub new_app :
      Config n → Result (Unit {0}) → Result (Unit {0}) → Link lib → Link lib → Result App
  unfolding assembled
  new_app cfg (err e) migration p c = err e
  new_app cfg (ok _) migration p c = migrated cfg p c migration

  abbrev hub_stopped : Hub WsPayload → Option (Hub WsPayload) → Hub WsPayload
  hub_stopped h none = h
  hub_stopped h (some h') = h'

  -- `Stop`, once the pool has been closed. The three calls of `wg.Wait` are left out: those of the pool,
  -- of the bus and of the dispatcher end when their workers have run the jobs that they still hold. The
  -- hub runs its last turn. `handle` is what `db.DB()` answers; the error of `Close` is ignored.
  abbrev after_pool : Result (Unit {0}) → App → Option (Pool Task) → Option App
  after_pool handle a none = none
  after_pool handle a (some p) = some (record a {
    pool = p;
    inproc = EventBus.stop a.inproc;
    dispatcher = Dispatcher.stop a.dispatcher;
    hub = hub_stopped a.hub (receive stops a.hub);
    messaging = stop_messaging lib a.messaging;
    db_open = elim handle [ ok _ ↦ false | err _ ↦ a.db_open ];
  })

  -- `none` is that it waits for a call that holds the lock of the pool.
  unfoldable pub stop_app : Result (Unit {0}) → App → Option App
  stop_app handle a = after_pool handle a (Pool.stop a.pool)
