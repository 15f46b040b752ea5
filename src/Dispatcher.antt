-- ===== src/Dispatcher.antt =====
-- internal/infrastructure/notification/dispatcher.go: notifications are stored, queued, sent by the
-- workers and stored again.
pub mod Delivery
use backend_golang_task.Prelude.{ℕ, Bool, true, false, if◌then◌else◌, List, ◌∷◌}
use backend_golang_task.Prelude.Int.{ℤ, pos}
use backend_golang_task.Errs.{Result, ok, err, Failure, error, caused, foreign, panic, text}
use backend_golang_task.Action.{Action}
use backend_golang_task.Notification.{Notification, increment_attempt, mark_sent, mark_failed}
use backend_golang_task.Pool.{at_least}
use backend_golang_task.Workers.{
  Workers, Sent, sent, full, on_closed, new_channel, launch, close, offer,
}
use backend_golang_task.Gorm.Engine.{Gorm}
use backend_golang_task.Gorm.Notifications.{create_notification, update_notification}

-- The interface `Sender`.
pub record Sender : Type 1 where
  pub State : Type 0
  pub send : Notification → Action State (Unit {0})

-- `LogSender` writes a line to the log.
abbrev pub log_sender : Sender
log_sender = record { State = List Notification; send = λ n log. (ok tt, n ∷ log) }

pub record Dispatcher : Type 0 where
  pub workers : ℕ
  pub started : Bool
  pub ended : Bool
  pub queue : Workers Notification

unfoldable pub new_dispatcher : ℤ → ℤ → Dispatcher
new_dispatcher workers queue_size = record {
  workers = at_least (pos 1) workers;
  started = false;
  ended = false;
  queue = new_channel (at_least (pos 0) queue_size);
}

unfoldable pub start : Dispatcher → Dispatcher
start d = if d.started then d else record d { started = true; queue = launch d.workers d.queue }

-- `Stop` up to `wg.Wait`.
unfoldable pub stop : Dispatcher → Dispatcher
stop d = if d.ended then d else record d { ended = true; queue = close d.queue }

-- The `select`: a notification that finds the queue full is left where it is stored.
abbrev queued_as : Dispatcher → Sent Notification → Result (Unit {0}) × Dispatcher
queued_as d (sent w) = (ok tt, record d { queue = w })
queued_as d full = (ok tt, d)
queued_as d on_closed = (err (panic "send on closed channel"), d)

module _ (g : Gorm) where
  open g use {World}

  -- `ready` is whether a worker waits for the queue.
  unfoldable pub enqueue : Bool → Notification → Action (Dispatcher × World) (Unit {0})
  unfolding offer
  enqueue ready n (d, w) =
      let (created, w') = create_notification g n w in
      elim created [
        | err e ↦ (err e, (d, w'))
        | ok n' ↦ let (r, d') = queued_as d (offer ready n' d.queue) in (r, (d', w'))
      ]

  -- After a mark that was not refused: an error of the update is logged, as one of the mark is.
  abbrev pub marked : Result Notification → World → World
  marked (err e) w = w
  marked (ok n) w = let (_, w') = update_notification g n w in w'

  -- What `process` does with the answer of the sender; a panic is recovered.
  abbrev pub delivered : Notification → Result (Unit {0}) → World → World
  delivered n (ok _) w = marked (mark_sent n) w
  delivered n (err (panic t)) w = w
  delivered n (err (foreign t)) w = marked (mark_failed t n) w
  delivered n (err (error k c m)) w = marked (mark_failed (text (error k c m)) n) w
  delivered n (err (caused k c m e)) w = marked (mark_failed (text (caused k c m e)) n) w

  unfoldable pub process :
      (sender : Sender) → Notification → World × sender.State → World × sender.State
  process sender n (w, s) =
      let n' = increment_attempt n in
      let (answer, s') = sender.send n' s in (delivered n' answer w, s')
