-- ===== src/Notification/Delivery.antt =====
-- The notification of internal/domain/notification/notification.go over any sequence of calls.
use backend_golang_task.Prelude.{
  ℕ, String, false, ◌≡◌, refl, ◌∙◌, List, [], ◌∷◌, Option, is_empty, arith,
}
use backend_golang_task.Errs.{Result, ok, err}
use backend_golang_task.Notification.{
  Notification, Category, Channel, Status, queued, sent, failed, other, new_notification,
  increment_attempt, mark_sent, mark_failed,
}

pub data Call : Type 0 where
  attempts sends : Call
  fails : String → Call

abbrev pub after : Notification → Result Notification → Notification
after n (ok n') = n'
after n (err _) = n

unfoldable pub step : Notification → Call → Notification
unfolding increment_attempt mark_sent mark_failed
step n attempts = increment_attempt n
step n sends = after n (mark_sent n)
step n (fails reason) = after n (mark_failed reason n)

unfoldable pub run : Notification → List Call → Notification
run n [] = n
run n (c ∷ cs) = run (step n c) cs

-- What a status promises of the failure reason.
abbrev Explained : Status → String → Type 0
Explained queued reason = reason ≡ ""
Explained sent reason = reason ≡ ""
Explained failed reason = is_empty reason ≡ false
Explained (other _) reason = ⊥

step-Explained :
    (n : Notification) (c : Call)
    → Explained n.status n.failure_reason
    → Explained (step n c).status (step n c).failure_reason
unfolding step
step-Explained n attempts h = h
step-Explained n sends h = ground arith
step-Explained n (fails reason) h = ground arith

run-Explained :
    (n : Notification) (cs : List Call)
    → Explained n.status n.failure_reason
    → Explained (run n cs).status (run n cs).failure_reason
unfolding run
run-Explained n [] h = h
run-Explained n (c ∷ cs) h = run-Explained (step n c) cs (step-Explained n c h)

-- A new notification that any calls are made on is queued or sent, with no failure reason, or failed
-- with a reason that is not empty.
run_explains :
    (user_id : Option ℕ) (category : Category) (channel : Channel) (subject payload : String)
    {n : Notification} (cs : List Call)
    → new_notification user_id category channel subject payload ≡ ok n
    → Explained (run n cs).status (run n cs).failure_reason
unfolding new_notification
run_explains user_id category channel subject payload {n} cs h = run-Explained n cs (ground arith)

step-sent :
    (n : Notification) (c : Call)
    → n.status ≡ sent
    → ((step n c).status ≡ sent) × ((step n c).root ≡ n.root)
unfolding step
step-sent n attempts h = ground arith
step-sent n sends h = ground arith
step-sent n (fails reason) h = ground arith

-- A sent notification is never sent again, nor failed: no calls change its status or record an
-- event.
run-sent :
    (n : Notification) (cs : List Call)
    → n.status ≡ sent
    → ((run n cs).status ≡ sent) × ((run n cs).root ≡ n.root)
unfolding run
run-sent n [] h = (h, refl)
run-sent n (c ∷ cs) h =
    let (still, same) = step-sent n c h in
    let (end, root) = run-sent (step n c) cs still in (end, root ∙ same)
