-- ===== src/Dispatcher/Delivery.antt =====
-- What internal/infrastructure/notification/dispatcher.go writes about a notification.
use backend_golang_task.Prelude.{◌≡◌, ◌⊎◌, Bool, true, false, not, is_empty, ◌==◌}
use backend_golang_task.Prelude.Int.{pos, ◌+ℤ◌, int64}
use backend_golang_task.Errs.{Result, ok, err, Failure, panic, text}
use backend_golang_task.Notification.{Notification, Status, queued, sent, failed}
use backend_golang_task.Gorm.Models.{Tables, NotificationModel, get, put, notifications}
use backend_golang_task.Gorm.Engine.{Gorm, rewrite}
use backend_golang_task.Gorm.Notifications.{updated_row}

-- What a row says after an answer of the sender.
abbrev Tells : NotificationModel → Result (Unit {0}) → Type 0
Tells row (ok _) = (row.status ≡ "sent") × (row.failure_reason ≡ "")
Tells row (err e) = (row.status ≡ "failed") × (row.failure_reason ≡ text e)

-- What is written for `n'` tells of `n` after an attempt with that answer.
abbrev pub Delivers : Notification → Result (Unit {0}) → Notification → Type 0
Delivers n answer n' =
    (n'.id ≡ n.id)
    × ((m : NotificationModel)
        → Tells (updated_row n' m) answer
          × ((updated_row n' m).attempts ≡ int64 (n.attempts +ℤ pos 1)))

-- The tables after `Update`.
abbrev rewritten : Notification → Tables → Tables
rewritten n d =
    put notifications
      (rewrite (λ (m : NotificationModel). m.id == n.id) (updated_row n) (get notifications d)) d

-- Whether a notification may be marked after an answer: as sent if it is queued or failed, and as failed
-- if it is not sent yet and the error has a text.
abbrev pub may_mark : Status → Result (Unit {0}) → Bool
may_mark queued (ok _) = true
may_mark failed (ok _) = true
may_mark _ (ok _) = false
may_mark sent (err e) = false
may_mark _ (err e) = not (is_empty (text e))

module _ (g : Gorm) where
  -- The update of the row, of which the database has answered an error.
  abbrev Misses : g.World → Type 0
  Misses w =
      (p : NotificationModel → Bool) × (f : NotificationModel → NotificationModel) × (e : Failure)
      × ((g.updates notifications p f w).0 ≡ err e)

  -- A delivery that has not panicked: the row tells the answer and one more attempt, unless the
  -- notification may not be marked or the update fails, and then the tables are as before.
  abbrev pub Told : Notification → Result (Unit {0}) → g.World → Tables → Type 0
  Told n answer w d' =
      ((may_mark n.status answer ≡ false) × (d' ≡ g.tables w))
      ⊎ (Misses w × (d' ≡ g.tables w))
      ⊎ ((n' : Notification) × Delivers n answer n' × (d' ≡ rewritten n' (g.tables w)))

  -- The tables after the delivery of `n`.
  abbrev pub Records : Notification → Result (Unit {0}) → g.World → Tables → Type 0
  Records n (ok u) w d' = Told n (ok u) w d'
  Records n (err (panic t)) w d' = d' ≡ g.tables w
  Records n (err e) w d' = Told n (err e) w d'
