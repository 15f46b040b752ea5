-- ===== src/Payment/Lifecycle.antt =====
-- The payment of internal/domain/payment/payment.go over any sequence of calls.
use backend_golang_task.Prelude.{ℕ, String, false, ◌≡◌, ◌⊎◌, refl, List, [], ◌∷◌, is_empty, arith}
use backend_golang_task.Errs.{Result, ok, err}
use backend_golang_task.Shared.Event.{
  Event, payment_event, payment_initiated, payment_succeeded, payment_refunded, payment_failed,
}
use backend_golang_task.Shared.Money.{Money}
use backend_golang_task.Payment.{
  Payment, Status, pending, succeeded, failed, refunded, other, new_payment, record_attempt,
  mark_succeeded, mark_failed, refund, assign_id,
}

pub data Call : Type 0 where
  attempts succeeds fails : String → Call
  refunds : Call
  assigns : ℕ → Call

unfoldable pub call : Call → Payment → Result Payment
unfolding record_attempt mark_succeeded mark_failed refund assign_id
call (attempts provider) p = record_attempt provider p
call (succeeds provider_ref) p = mark_succeeded provider_ref p
call (fails reason) p = mark_failed reason p
call refunds p = refund p
call (assigns id) p = ok (assign_id id p)

abbrev pub after : Payment → Result Payment → Payment
after p (ok p') = p'
after p (err _) = p

unfoldable pub run : Payment → List Call → Payment
run p [] = p
run p (c ∷ cs) = run (after p (call c p)) cs

-- The events recorded on the way to each status, with the ids that the payment had then.
abbrev succeeded_events : Payment → ℕ → List Event
succeeded_events p id =
    payment_event (payment_initiated 0 p.order_id)
    ∷ payment_event (payment_succeeded id p.order_id)
    ∷ []

abbrev failed_events : Payment → ℕ → List Event
failed_events p id =
    payment_event (payment_initiated 0 p.order_id)
    ∷ payment_event (payment_failed id p.order_id p.failure_reason)
    ∷ []

abbrev refunded_events : Payment → ℕ → ℕ → List Event
refunded_events p id later =
    payment_event (payment_initiated 0 p.order_id)
    ∷ payment_event (payment_succeeded id p.order_id)
    ∷ payment_event (payment_refunded later p.order_id)
    ∷ []

-- What each status promises of the other fields and of the events. An event carries the payment's id, or
-- 0 if it was recorded before the payment had one.
abbrev pub Settled : Payment → Status → Type 0
Settled p pending = p.root.pending ≡ payment_event (payment_initiated 0 p.order_id) ∷ []
Settled p succeeded =
    (is_empty p.provider_ref ≡ false)
    × (p.failure_reason ≡ "")
    × ((p.root.pending ≡ succeeded_events p 0) ⊎ (p.root.pending ≡ succeeded_events p p.id))
Settled p failed =
    (is_empty p.failure_reason ≡ false)
    × ((p.root.pending ≡ failed_events p 0) ⊎ (p.root.pending ≡ failed_events p p.id))
Settled p refunded =
    (is_empty p.provider_ref ≡ false)
    × (p.failure_reason ≡ "")
    × ((p.root.pending ≡ refunded_events p 0 0)
        ⊎ (p.root.pending ≡ refunded_events p 0 p.id)
        ⊎ (p.root.pending ≡ refunded_events p p.id p.id))
Settled p (other _) = ⊥

pub record IsPayment (order_id : ℕ) (key : String) (amount : Money) (p : Payment) : Type 0 where
  pub of_order : p.order_id ≡ order_id
  pub keyed : p.idempotency_key ≡ key
  pub charged : p.amount ≡ amount
  pub settled : Settled p p.status

module _ {order_id : ℕ} {key : String} {amount : Money} where
  call-IsPayment :
      (c : Call) (p : Payment) (s : Status)
      → p.status ≡ s
      → IsPayment order_id key amount p
      → IsPayment order_id key amount (after p (call c p))
  unfolding call
  call-IsPayment (attempts provider) p pending e v = ground arith
  call-IsPayment (attempts provider) p _ e v = ground arith
  call-IsPayment (succeeds provider_ref) p pending e v = ground arith
  call-IsPayment (succeeds provider_ref) p _ e v = ground arith
  call-IsPayment (fails reason) p pending e v = ground arith
  call-IsPayment (fails reason) p _ e v = ground arith
  call-IsPayment refunds p pending e v = ground arith
  call-IsPayment refunds p _ e v = ground arith
  call-IsPayment (assigns id) p pending e v = ground arith
  call-IsPayment (assigns id) p succeeded e v = ground arith
  call-IsPayment (assigns id) p failed e v = ground arith
  call-IsPayment (assigns id) p refunded e v = ground arith
  call-IsPayment (assigns id) p (other t) e v = ground arith

  run-IsPayment :
      (p : Payment) (cs : List Call)
      → IsPayment order_id key amount p
      → IsPayment order_id key amount (run p cs)
  unfolding run
  run-IsPayment p [] v = v
  run-IsPayment p (c ∷ cs) v =
      run-IsPayment (after p (call c p)) cs (call-IsPayment c p p.status refl v)

-- A new payment that any calls are made on, the one that gives it an id included, stays the payment of its order, key and amount; it is
-- settled at most once, refunded only after it succeeded, and then keeps a provider reference and no
-- failure reason; a failed one has a reason. Its recorded events are those of that path, with its id or,
-- where it had none yet, 0.
pub run_settles :
    (order_id : ℕ) (key : String) (amount : Money) (now : ℕ) {p : Payment} (cs : List Call)
    → new_payment order_id key amount now ≡ ok p
    → IsPayment order_id key amount (run p cs)
unfolding new_payment
run_settles order_id key amount now {p} cs h = run-IsPayment p cs (ground arith)
