-- ===== src/Notification.antt =====
-- internal/domain/notification/notification.go: a message to a user, and its delivery status.
pub mod Delivery
mod Examples
use backend_golang_task.Prelude.{
  ℕ, String, Bool, true, false, not, ◌==◌, is_empty, if◌then◌else◌, Option, [], ◌∷◌,
}
use backend_golang_task.Prelude.Int.{ℤ, pos, ◌+ℤ◌, int64}
use backend_golang_task.Errs.{
  Result, ok, err, Failure, new, validation, conflict, ◌>>=◌, ◌>>◌, fail_if,
}
use backend_golang_task.Shared.Event.{
  notification_event, NotificationEvent, notification_queued, notification_sent,
  notification_failed, AggregateRoot, no_events, record_events,
}

-- The `string` types, each with its constants; the last constructor is used at any other text.
pub data Category : Type 0 where
  order_confirmed order_failed payment_failed low_stock : Category
  other_category : String → Category

pub data Channel : Type 0 where
  email sms push : Channel
  other_channel : String → Channel

pub data Status : Type 0 where
  queued sent failed : Status
  other : String → Status

abbrev is_valid_category : Category → Bool
is_valid_category (other_category _) = false
is_valid_category _ = true

abbrev is_valid_channel : Channel → Bool
is_valid_channel (other_channel _) = false
is_valid_channel _ = true

pub record Notification : Type 0 where
  pub root : AggregateRoot
  pub id : ℕ
  pub user_id : Option ℕ
  pub category : Category
  pub channel : Channel
  pub status : Status
  pub subject : String
  pub payload : String
  pub attempts : ℤ
  pub failure_reason : String
  pub created_at : ℕ

-- The source leaves `createdAt` the zero time.
unfoldable pub new_notification :
    Option ℕ → Category → Channel → String → String → Result Notification
new_notification user_id category channel subject payload = do
  fail_if (not (is_valid_category category))
      (new validation "notification.type.invalid" "notification type is invalid")
  fail_if (not (is_valid_channel channel))
      (new validation "notification.channel.invalid" "notification channel is invalid")
  fail_if (is_empty subject)
      (new validation "notification.subject.required" "notification subject must not be empty")
  ok (record {
    root = record_events (notification_event (notification_queued 0) ∷ []) no_events;
    id = 0;
    user_id = user_id;
    category = category;
    channel = channel;
    status = queued;
    subject = subject;
    payload = payload;
    attempts = pos 0;
    failure_reason = "";
    created_at = 0;
  })

abbrev pub reconstitute_notification :
    ℕ → Option ℕ → Category → Channel → Status → String → String → ℤ → String → ℕ → Notification
reconstitute_notification id user_id category channel status subject payload attempts reason at =
    record {
      root = no_events;
      id = id;
      user_id = user_id;
      category = category;
      channel = channel;
      status = status;
      subject = subject;
      payload = payload;
      attempts = attempts;
      failure_reason = reason;
      created_at = at;
    }

unfoldable pub increment_attempt : Notification → Notification
increment_attempt n = record n { attempts = int64 (n.attempts +ℤ pos 1) }

abbrev note : NotificationEvent → Notification → Notification
note e n = record n { root = record_events (notification_event e ∷ []) n.root }

abbrev sends : Notification → Notification
sends n = note (notification_sent n.id) (record n { status = sent; failure_reason = "" })

unfoldable pub mark_sent : Notification → Result Notification
mark_sent n = elim n.status [
  | queued ↦ ok (sends n)
  | failed ↦ ok (sends n)
  | _ ↦ err (
      new conflict "notification.send.invalid_status"
        "notification can only be sent from queued or failed status")
]

abbrev is_sent : Status → Bool
is_sent sent = true
is_sent _ = false

unfoldable pub mark_failed : String → Notification → Result Notification
mark_failed reason n = do
  fail_if (is_empty reason)
      (new validation "notification.fail.reason_required" "failure reason must not be empty")
  fail_if (is_sent n.status)
      (new conflict "notification.fail.already_sent" "a sent notification cannot be marked failed")
  ok (
      note (notification_failed n.id reason)
        (record n { status = failed; failure_reason = reason }))

unfoldable pub assign_id : ℕ → Notification → Notification
assign_id id n = if n.id == 0 then record n { id = id } else n
