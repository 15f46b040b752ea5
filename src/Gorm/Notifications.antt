-- ===== src/Gorm/Notifications.antt =====
-- internal/infrastructure/persistence/gormrepo/notification_repo.go.
use backend_golang_task.Prelude.{String, str_eq, ◌==◌, if◌then◌else◌, some, none, List, map}
use backend_golang_task.Prelude.Int.{ℤ, pos, pos_part, ltb_ℤ}
use backend_golang_task.Errs.{new, not_found}
use backend_golang_task.Action.{Action, pure, raise, ◌>>=◌}
use backend_golang_task.Notification.{
  Notification, Category, order_confirmed, order_failed, payment_failed, low_stock, other_category,
  Channel, email, sms, push, other_channel, Status, queued, sent, failed, other,
  reconstitute_notification, assign_id,
}
use backend_golang_task.Gorm.Models.{NotificationModel, notifications}
use backend_golang_task.Gorm.Engine.{Gorm}

-- The conversions to `string`, and from it.
abbrev category_text : Category → String
category_text order_confirmed = "order_confirmed"
category_text order_failed = "order_failed"
category_text payment_failed = "payment_failed"
category_text low_stock = "low_stock"
category_text (other_category text) = text

unfoldable read_category : String → Category
read_category text =
    if str_eq text "order_confirmed"
    then order_confirmed
    else if str_eq text "order_failed"
    then order_failed
    else if str_eq text "payment_failed"
    then payment_failed
    else if str_eq text "low_stock"
    then low_stock
    else other_category text

abbrev channel_text : Channel → String
channel_text email = "email"
channel_text sms = "sms"
channel_text push = "push"
channel_text (other_channel text) = text

unfoldable read_channel : String → Channel
read_channel text =
    if str_eq text "email"
    then email
    else if str_eq text "sms"
    then sms
    else if str_eq text "push"
    then push
    else other_channel text

abbrev pub status_text : Status → String
status_text queued = "queued"
status_text sent = "sent"
status_text failed = "failed"
status_text (other text) = text

unfoldable pub read_status : String → Status
read_status text =
    if str_eq text "queued"
    then queued
    else if str_eq text "sent"
    then sent
    else if str_eq text "failed"
    then failed
    else other text

abbrev notification_to_model : Notification → NotificationModel
notification_to_model n = record {
  id = n.id;
  user_id = n.user_id;
  category = category_text n.category;
  channel = channel_text n.channel;
  status = status_text n.status;
  subject = n.subject;
  payload = n.payload;
  attempts = n.attempts;
  failure_reason = n.failure_reason;
  created_at = 0;
}

unfoldable notification_to_domain : NotificationModel → Notification
notification_to_domain m =
    reconstitute_notification m.id m.user_id (read_category m.category) (read_channel m.channel)
      (read_status m.status) m.subject m.payload m.attempts m.failure_reason m.created_at

-- The columns that `Update` writes: all but the id and the time of the creation.
abbrev pub updated_row : Notification → NotificationModel → NotificationModel
updated_row n m = record (notification_to_model n) { id = m.id; created_at = m.created_at }

module _ (g : Gorm) where
  open g use {World, create, rows, updates}

  -- The notification with the id that it has got.
  unfoldable pub create_notification : Notification → Action World Notification
  create_notification n = do
    id ← create notifications (notification_to_model n)
    pure (assign_id id n)

  unfoldable pub update_notification : Notification → Action World (Unit {0})
  update_notification n = do
    affected ← updates notifications (λ m. m.id == n.id) (updated_row n)
    if affected == 0
        then raise (new not_found "notification.not_found" "notification not found")
        else pure tt

  -- `Find` never answers `ErrRecordNotFound`.
  unfoldable list_by_status : Status → ℤ → Action World (List Notification)
  list_by_status status limit = do
    let bound = if ltb_ℤ (pos 0) limit then some (pos_part limit) else none
    ms ← rows notifications (λ m. str_eq m.status (status_text status)) 0 bound
    pure (map notification_to_domain ms)
