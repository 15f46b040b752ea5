-- ===== src/Payment/Examples.antt =====
-- A payment that succeeds at its second attempt and is refunded.
use backend_golang_task.Prelude.{◌≡◌, refl, List, [], ◌∷◌}
use backend_golang_task.Prelude.Int.{pos}
use backend_golang_task.Errs.{ok}
use backend_golang_task.Shared.Event.{payment_event, payment_initiated, record_events, no_events}
use backend_golang_task.Shared.Money.{Money}
use backend_golang_task.Payment.{Payment, new_payment, pending}
use backend_golang_task.Payment.Lifecycle.{
  Call, attempts, succeeds, fails, refunds, assigns, run, IsPayment, run_settles,
}

abbrev price : Money
price = record { amount = pos 500; currency = "USD" }

abbrev pub begun : Payment
begun = record {
  root = record_events (payment_event (payment_initiated 0 3) ∷ []) no_events;
  id = 0;
  order_id = 3;
  idempotency_key = "key";
  amount = price;
  status = pending;
  provider = "";
  provider_ref = "";
  attempts = pos 0;
  failure_reason = "";
  created_at = 100;
}

abbrev calls : List Call
calls =
    attempts "mock"
    ∷ refunds
    ∷ attempts "mock"
    ∷ succeeds "ref"
    ∷ assigns 5
    ∷ fails "late"
    ∷ refunds
    ∷ []

new_payment-begun : new_payment 3 "key" price 100 ≡ ok begun
unfolding new_payment
new_payment-begun = refl

run_settles_example : IsPayment 3 "key" price (run begun calls)
run_settles_example = run_settles 3 "key" price 100 calls new_payment-begun
