-- ===== src/EventHandlers.antt =====
-- internal/application/eventhandler: what follows a published event.
pub mod Audited
mod Examples
use Prim.Native.String.{find, len, slice, ◌++◌}
use backend_golang_task.Prelude.{ℕ, String, Bool, ◌&&◌, ltb, if◌then◌else◌, Option, some, none}
use backend_golang_task.Prelude.Decimal.{decimal}
use backend_golang_task.Errs.{Result, ok, err}
use backend_golang_task.Action.{Action, pure, lift, ◌>>=◌}
use backend_golang_task.Shared.Event.{Event, event_name, aggregate_id}
use backend_golang_task.Audit.{Entry, new_entry}
use backend_golang_task.Order.{Order}
use backend_golang_task.Notification.{
  Notification, new_notification, Category, order_confirmed, order_failed, email,
}
use backend_golang_task.Gorm.Engine.{Gorm}
use backend_golang_task.Gorm.Orders.{find_order}
use backend_golang_task.Gorm.AuditLogs.{append}
use backend_golang_task.Dispatcher.{Dispatcher, enqueue}
use backend_golang_task.Commands.Memory.{stored}

-- What stands before the first dot, if that is not the first character.
unfoldable pub entity_of : String → String
entity_of name =
    let i = find name "." in if ltb 0 i && ltb i (len name) then slice name 0 i else name

-- `wsPayload`: what is marshalled to JSON and broadcast.
pub record WsPayload : Type 0 where
  pub event : String
  pub aggregate : ℕ

abbrev ws_payload : Event → WsPayload
ws_payload e = record { event = event_name e; aggregate = aggregate_id e }

-- What the two notification handlers have in common: the text between the order's number and the end
-- of the subject, and the payload.
abbrev order_notice : Category → String → (Order → String) → Order → Result Notification
order_notice category outcome payload o =
    new_notification (some o.user_id) category email ("Order #" ++ (decimal o.id ++ outcome))
      (payload o)

module _ (g : Gorm) where
  open g use {World}

  -- `now` is the clock's reading.
  unfoldable pub audit_handler : ℕ → Event → Action World (Unit {0})
  unfolding entity_of
  audit_handler now e = do
    entry ←
        lift
          (new_entry none (event_name e) (entity_of (event_name e)) (aggregate_id e) "" "" "" now)
    append g entry

  -- `ready` is whether a worker of the dispatcher waits.
  abbrev pub notify :
      Bool → (Order → Result Notification) → Event → Action (Dispatcher × World) (Unit {0})
  notify ready notice e =
      stored (find_order g (aggregate_id e)) >>= λ o. lift (notice o) >>= enqueue g ready

  unfoldable pub notification_on_order_paid : Bool → Event → Action (Dispatcher × World) (Unit {0})
  notification_on_order_paid ready =
      notify ready (order_notice order_confirmed " confirmed" (λ o. ""))

  unfoldable pub notification_on_order_failed :
      Bool → Event → Action (Dispatcher × World) (Unit {0})
  notification_on_order_failed ready =
      notify ready (order_notice order_failed " failed" (λ o. o.failure_reason))
