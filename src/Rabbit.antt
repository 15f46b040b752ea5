-- ===== src/Rabbit.antt =====
-- internal/infrastructure/messaging/rabbitmq.go: the publisher and the consumer on top of
-- github.com/rabbitmq/amqp091-go, and the bus that publishes twice; with their part of
-- internal/bootstrap/bootstrap.go.
pub mod Closing
pub mod Lifetime
pub mod Publishing
pub mod Examples
use backend_golang_task.Prelude.{
  ℕ, String, Bool, true, false, if◌then◌else◌, Option, some, none, List, [], ◌∷◌, ◌++◌,
}
use backend_golang_task.Errs.{Result, ok, err, panic}
use backend_golang_task.Action.{Action, pure, raise, ◌>>=◌, ◌>>◌}
use backend_golang_task.Shared.Event.{Event, event_name, aggregate_id}
use backend_golang_task.EventBus.{Handler, Turn, Bus, subscribe, start, stop, publish}

-- `rabbitEnvelope`, which `json.Marshal` writes with no error.
pub record Envelope : Type 0 where
  pub name : String
  pub aggregate_id : ℕ

-- The calls of the library, on one connection and its channel.
pub data Call : Type 0 where
  dial : String → Call
  open_channel : Call
  exchange_declare : String → Call
  queue_declare : Call
  queue_bind : String → String → Call
  consume : String → Call
  send : String → String → Envelope → Call
  close_channel : Call
  close_connection : Call

-- The library with the broker behind it. It may answer anything; the text of `queue_declare` is the name
-- of the queue.
pub record Amqp : Type 1 where
  pub State : Type 0
  pub reply : Call → State → Result String × State

pub record RabbitPublisher : Type 0 where
  pub exchange : String

-- `done` is closed.
pub record RabbitConsumer : Type 0 where
  pub exchange : String
  pub queue : String
  pub done : Bool

-- What is published for an event.
abbrev pub message : String → Event → Call
message exchange e =
    send exchange (event_name e) (record { name = event_name e; aggregate_id = aggregate_id e })

abbrev pub succeeded : Result String → Bool
succeeded (ok _) = true
succeeded (err _) = false

module _ (lib : Amqp) where
  open lib use {State, reply}

  -- The connection of one object: the calls that were made, with whether they succeeded.
  pub record Link : Type 0 where
    pub calls : List (Call × Bool)
    pub library : State

  unfoldable pub ask : Call → Action Link String
  ask c l =
      let (r, s) = reply c l.library in
      (r, record { calls = l.calls ++ (c, succeeded r) ∷ []; library = s })

  -- Calls whose errors are ignored.
  abbrev pub quietly : List Call → Link → Link
  unfolding ask
  quietly [] l = l
  quietly (c ∷ cs) l = quietly cs (ask c l).1

  -- `if err != nil { …; return nil, err }`
  abbrev pub closing : List Call → Result String × Link → Result String × Link
  closing cs (ok a, l) = (ok a, l)
  closing cs (err e, l) = (err e, quietly cs l)

  abbrev pub or_close : List Call → Call → Action Link String
  unfolding ask
  or_close cs c l = closing cs (ask c l)

  unfoldable pub new_rabbit_publisher : String → String → Action Link RabbitPublisher
  unfolding ask
  new_rabbit_publisher url exchange = do
    or_close [] (dial url) >>= λ _. pure tt
    or_close (close_connection ∷ []) open_channel >>= λ _. pure tt
    or_close (close_channel ∷ close_connection ∷ []) (exchange_declare exchange) >>= λ _. pure tt
    pure (record { exchange = exchange })

  -- `RabbitPublisher.Publish`
  unfoldable pub rabbit_publish : RabbitPublisher → List Event → Action Link (Unit {0})
  unfolding ask
  rabbit_publish p [] = pure tt
  rabbit_publish p (e ∷ es) = ask (message p.exchange e) >>= λ _. rabbit_publish p es

  -- `RabbitPublisher.Close`
  unfoldable pub rabbit_close : Action Link (Unit {0})
  unfolding ask
  rabbit_close l = (ask close_connection >>= λ _. pure tt) (quietly (close_channel ∷ []) l)

  unfoldable pub new_rabbit_consumer : String → String → Action Link RabbitConsumer
  unfolding ask
  new_rabbit_consumer url exchange = do
    let close_both = close_channel ∷ close_connection ∷ []
    or_close [] (dial url) >>= λ _. pure tt
    or_close (close_connection ∷ []) open_channel >>= λ _. pure tt
    or_close close_both (exchange_declare exchange) >>= λ _. pure tt
    queue ← or_close close_both queue_declare
    or_close close_both (queue_bind queue exchange) >>= λ _. pure tt
    pure (record { exchange = exchange; queue = queue; done = false })

  -- `RabbitConsumer.Start` up to the goroutine.
  unfoldable pub consumer_start : RabbitConsumer → Action Link (Unit {0})
  unfolding ask
  consumer_start c = ask (consume c.queue) >>= λ _. pure tt

  -- `RabbitConsumer.Stop`: closing `done` twice panics.
  unfoldable pub consumer_stop : Action (RabbitConsumer × Link) (Unit {0})
  consumer_stop (c, l) =
      if c.done
      then (err (panic "close of closed channel"), (c, l))
      else (ok tt, (record c { done = true }, quietly (close_channel ∷ close_connection ∷ []) l))

  module _ (H : Type 0) where
    -- `CompositeBus`, over the in-process bus, which has `Start` and `Stop`.
    pub record CompositeBus : Type 0 where
      pub primary : Bus H
      pub also_publish : RabbitPublisher
      pub link : Link

    unfoldable composite_subscribe : Handler H → CompositeBus → CompositeBus
    composite_subscribe h c = record c { primary = subscribe h c.primary }

    abbrev pub also_published :
        List Event → CompositeBus → Option (List Turn × Bus H) → Option (List Turn × CompositeBus)
    unfolding rabbit_publish
    also_published es c none = none
    also_published es c (some (ts, b)) =
        let (_, l) = rabbit_publish c.also_publish es c.link in
        some (ts, record c { primary = b; link = l })

    -- `Publish`: the in-process bus has no error to return, and that of RabbitMQ is only logged.
    unfoldable pub composite_publish :
        List Event → List Turn → CompositeBus → Option (List Turn × CompositeBus)
    unfolding publish
    composite_publish es ts c = also_published es c (publish es ts c.primary)

    unfoldable composite_start : CompositeBus → CompositeBus
    composite_start c = record c { primary = start c.primary }

    unfoldable composite_stop : CompositeBus → CompositeBus
    composite_stop c = record c { primary = stop c.primary }

-- What the goroutine of `RabbitConsumer.Start` may receive, a delivery as `json.Unmarshal` reads it, and
-- what it logs.
pub data Input : Type 0 where
  cancelled stopped channel_closed : Input
  delivered : String → Option Envelope → Input

pub data Line : Type 0 where
  event_received : String → Envelope → Line
  decode_failed : String → Line

abbrev line_of : String → Option Envelope → Line
line_of key none = decode_failed key
line_of key (some env) = event_received key env

-- The loop, up to its return.
unfoldable consumer_loop : List Input → List Line
consumer_loop [] = []
consumer_loop (delivered key env ∷ is) = line_of key env ∷ consumer_loop is
consumer_loop (cancelled ∷ is) = []
consumer_loop (stopped ∷ is) = []
consumer_loop (channel_closed ∷ is) = []

-- The part of `bootstrap.New` on RabbitMQ, each object with its link, and that of `App.stop`.
module _ (lib : Amqp) where
  pub record Messaging : Type 0 where
    pub publisher : Option RabbitPublisher
    pub consumer : Option RabbitConsumer
    pub publisher_link : Link lib
    pub consumer_link : Link lib

  abbrev pub consumer_started :
      RabbitConsumer → Messaging → Result (Unit {0}) × Link lib → Messaging
  unfolding consumer_stop
  consumer_started c m (ok _, l) = record m { consumer = some c; consumer_link = l }
  consumer_started c m (err _, l) =
      let (_, (_, l')) = consumer_stop lib (c, l) in record m { consumer_link = l' }

  abbrev pub consumer_made : Messaging → Result RabbitConsumer × Link lib → Messaging
  unfolding consumer_start consumer_stop
  consumer_made m (err _, l) = record m { consumer_link = l }
  consumer_made m (ok c, l) = consumer_started c m (consumer_start lib c l)

  abbrev pub publisher_made :
      String → String → Messaging → Result RabbitPublisher × Link lib → Messaging
  unfolding new_rabbit_consumer consumer_start consumer_stop
  publisher_made url exchange m (err _, l) = record m { publisher_link = l }
  publisher_made url exchange m (ok p, l) =
      consumer_made (record m { publisher = some p; publisher_link = l })
        (new_rabbit_consumer lib url exchange m.consumer_link)

  unfoldable pub start_messaging : Bool → String → String → Messaging → Messaging
  unfolding new_rabbit_publisher new_rabbit_consumer consumer_start consumer_stop
  start_messaging enabled url exchange m =
      if enabled
      then publisher_made url exchange m (new_rabbit_publisher lib url exchange m.publisher_link)
      else m

  abbrev pub consumer_stopped : Option RabbitConsumer → Link lib → Link lib
  unfolding consumer_stop
  consumer_stopped none l = l
  consumer_stopped (some c) l = let (_, (_, l')) = consumer_stop lib (c, l) in l'

  abbrev pub publisher_closed : Option RabbitPublisher → Link lib → Link lib
  unfolding rabbit_close
  publisher_closed none l = l
  publisher_closed (some p) l = (rabbit_close lib l).1

  unfoldable pub stop_messaging : Messaging → Messaging
  unfolding consumer_stop rabbit_close
  stop_messaging m = record m {
    consumer_link = consumer_stopped m.consumer m.consumer_link;
    publisher_link = publisher_closed m.publisher m.publisher_link;
  }
