-- ===== src/Shared/Event.antt =====
-- internal/domain/shared/event.go, and the events of each aggregate (internal/domain/*/events.go).
use backend_golang_task.Prelude.{ℕ, String, List, [], ◌++◌, Bool, ltb, length}
use backend_golang_task.Prelude.Int.{ℤ}

pub data OrderEvent : Type 0 where
  order_placed : ℕ → ℕ → ℤ → String → OrderEvent
  order_reserved order_paid order_fulfilled : ℕ → OrderEvent
  order_cancelled order_failed : ℕ → String → OrderEvent

abbrev order_event_name : OrderEvent → String
order_event_name (order_placed _ _ _ _) = "order.placed"
order_event_name (order_reserved _) = "order.reserved"
order_event_name (order_paid _) = "order.paid"
order_event_name (order_fulfilled _) = "order.fulfilled"
order_event_name (order_cancelled _ _) = "order.cancelled"
order_event_name (order_failed _ _) = "order.failed"

abbrev order_aggregate_id : OrderEvent → ℕ
order_aggregate_id (order_placed id _ _ _) = id
order_aggregate_id (order_reserved id) = id
order_aggregate_id (order_paid id) = id
order_aggregate_id (order_fulfilled id) = id
order_aggregate_id (order_cancelled id _) = id
order_aggregate_id (order_failed id _) = id

-- The payment's id and the order's.
pub data PaymentEvent : Type 0 where
  payment_initiated payment_succeeded payment_refunded : ℕ → ℕ → PaymentEvent
  payment_failed : ℕ → ℕ → String → PaymentEvent

abbrev payment_event_name : PaymentEvent → String
payment_event_name (payment_initiated _ _) = "payment.initiated"
payment_event_name (payment_succeeded _ _) = "payment.succeeded"
payment_event_name (payment_refunded _ _) = "payment.refunded"
payment_event_name (payment_failed _ _ _) = "payment.failed"

abbrev payment_aggregate_id : PaymentEvent → ℕ
payment_aggregate_id (payment_initiated id _) = id
payment_aggregate_id (payment_succeeded id _) = id
payment_aggregate_id (payment_refunded id _) = id
payment_aggregate_id (payment_failed id _ _) = id

-- The product's id and the quantity.
pub data InventoryEvent : Type 0 where
  inventory_reserved inventory_released inventory_committed inventory_restocked :
      ℕ → ℤ → InventoryEvent

abbrev inventory_event_name : InventoryEvent → String
inventory_event_name (inventory_reserved _ _) = "inventory.reserved"
inventory_event_name (inventory_released _ _) = "inventory.released"
inventory_event_name (inventory_committed _ _) = "inventory.committed"
inventory_event_name (inventory_restocked _ _) = "inventory.restocked"

abbrev inventory_aggregate_id : InventoryEvent → ℕ
inventory_aggregate_id (inventory_reserved id _) = id
inventory_aggregate_id (inventory_released id _) = id
inventory_aggregate_id (inventory_committed id _) = id
inventory_aggregate_id (inventory_restocked id _) = id

pub data NotificationEvent : Type 0 where
  notification_queued notification_sent : ℕ → NotificationEvent
  notification_failed : ℕ → String → NotificationEvent

abbrev notification_event_name : NotificationEvent → String
notification_event_name (notification_queued _) = "notification.queued"
notification_event_name (notification_sent _) = "notification.sent"
notification_event_name (notification_failed _ _) = "notification.failed"

abbrev notification_aggregate_id : NotificationEvent → ℕ
notification_aggregate_id (notification_queued id) = id
notification_aggregate_id (notification_sent id) = id
notification_aggregate_id (notification_failed id _) = id

pub data ProductEvent : Type 0 where
  product_created : ℕ → String → ProductEvent
  product_repriced : ℕ → ProductEvent

abbrev product_event_name : ProductEvent → String
product_event_name (product_created _ _) = "product.created"
product_event_name (product_repriced _) = "product.repriced"

abbrev product_aggregate_id : ProductEvent → ℕ
product_aggregate_id (product_created id _) = id
product_aggregate_id (product_repriced id) = id

pub data UserEvent : Type 0 where
  user_registered : ℕ → String → UserEvent

abbrev user_event_name : UserEvent → String
user_event_name (user_registered _ _) = "user.registered"

abbrev user_aggregate_id : UserEvent → ℕ
user_aggregate_id (user_registered id _) = id

-- `interface Event`: one constructor for each package that implements it.
pub data Event : Type 0 where
  order_event : OrderEvent → Event
  payment_event : PaymentEvent → Event
  inventory_event : InventoryEvent → Event
  notification_event : NotificationEvent → Event
  product_event : ProductEvent → Event
  user_event : UserEvent → Event

abbrev pub event_name : Event → String
event_name (order_event e) = order_event_name e
event_name (payment_event e) = payment_event_name e
event_name (inventory_event e) = inventory_event_name e
event_name (notification_event e) = notification_event_name e
event_name (product_event e) = product_event_name e
event_name (user_event e) = user_event_name e

abbrev pub aggregate_id : Event → ℕ
aggregate_id (order_event e) = order_aggregate_id e
aggregate_id (payment_event e) = payment_aggregate_id e
aggregate_id (inventory_event e) = inventory_aggregate_id e
aggregate_id (notification_event e) = notification_aggregate_id e
aggregate_id (product_event e) = product_aggregate_id e
aggregate_id (user_event e) = user_aggregate_id e

pub record AggregateRoot : Type 0 where
  pub pending : List Event

-- The root of a fresh struct.
abbrev pub no_events : AggregateRoot
no_events = record { pending = [] }

-- `Record`
abbrev pub record_events : List Event → AggregateRoot → AggregateRoot
record_events events a = record { pending = a.pending ++ events }

abbrev pub pull_events : AggregateRoot → List Event × AggregateRoot
pull_events a = (a.pending, record { pending = [] })

abbrev has_pending_events : AggregateRoot → Bool
has_pending_events a = ltb 0 (length a.pending)
