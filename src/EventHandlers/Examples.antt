-- ===== src/EventHandlers/Examples.antt =====
-- A paid order in the audit log of the sample database.
use backend_golang_task.Shared.Event.{Event, order_event, order_paid}
use backend_golang_task.Notification.{Notification, order_confirmed, email, queued}
use backend_golang_task.Prelude.{some, []}
use backend_golang_task.Prelude.Int.{pos}

abbrev paid : Event
paid = order_event (order_paid 4)

abbrev notice : Notification
notice = record {
  root = record { pending = [] };
  id = 1;
  user_id = some 7;
  category = order_confirmed;
  channel = email;
  status = queued;
  subject = "Order #4 confirmed";
  payload = "";
  attempts = pos 0;
  failure_reason = "";
  created_at = 0;
}
