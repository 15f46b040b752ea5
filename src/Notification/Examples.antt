-- ===== src/Notification/Examples.antt =====
-- A notification that fails, and is sent at the next attempt.
use backend_golang_task.Prelude.{◌≡◌, refl, List, [], ◌∷◌, none}
use backend_golang_task.Prelude.Int.{pos}
use backend_golang_task.Errs.{ok}
use backend_golang_task.Shared.Event.{
  notification_event, notification_queued, record_events, no_events,
}
use backend_golang_task.Notification.{
  Notification, order_confirmed, email, queued, new_notification,
}
use backend_golang_task.Notification.Delivery.{Call, attempts, sends, fails}

abbrev fresh : Notification
fresh = record {
  root = record_events (notification_event (notification_queued 0) ∷ []) no_events;
  id = 0;
  user_id = none;
  category = order_confirmed;
  channel = email;
  status = queued;
  subject = "Order";
  payload = "";
  attempts = pos 0;
  failure_reason = "";
  created_at = 0;
}

abbrev tries : List Call
tries = attempts ∷ fails "timeout" ∷ attempts ∷ sends ∷ sends ∷ []

new_notification-fresh : new_notification none order_confirmed email "Order" "" ≡ ok fresh
unfolding new_notification
new_notification-fresh = refl
