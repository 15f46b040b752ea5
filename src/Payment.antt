-- ===== src/Payment.antt =====
-- internal/domain/payment/payment.go: the payment of one order.
pub mod Lifecycle
pub mod Examples
use backend_golang_task.Prelude.{ℕ, String, ◌==◌, is_empty, str_eq, if◌then◌else◌, [], ◌∷◌}
use backend_golang_task.Prelude.Int.{ℤ, pos, ◌+ℤ◌, int64}
use backend_golang_task.Errs.{
  Result, ok, err, Failure, new, validation, conflict, ◌>>=◌, ◌>>◌, fail_if,
}
use backend_golang_task.Shared.Event.{
  payment_event, PaymentEvent, payment_initiated, payment_succeeded, payment_refunded,
  payment_failed, AggregateRoot, no_events, record_events,
}
use backend_golang_task.Shared.Money.{Money, is_zero}

-- `other` is used at texts that are none of the four.
pub data Status : Type 0 where
  pending succeeded failed refunded : Status
  other : String → Status

-- `string(s)` and `payment.Status(text)`
abbrev pub status_text : Status → String
status_text pending = "pending"
status_text succeeded = "succeeded"
status_text failed = "failed"
status_text refunded = "refunded"
status_text (other text) = text

unfoldable pub read_status : String → Status
read_status text =
    if str_eq text "pending"
    then pending
    else if str_eq text "succeeded"
    then succeeded
    else if str_eq text "failed"
    then failed
    else if str_eq text "refunded"
    then refunded
    else other text

pub record Payment : Type 0 where
  pub root : AggregateRoot
  pub id : ℕ
  pub order_id : ℕ
  pub idempotency_key : String
  pub amount : Money
  pub status : Status
  pub provider : String
  pub provider_ref : String
  pub attempts : ℤ
  pub failure_reason : String
  pub created_at : ℕ

-- `now` is the clock's reading.
unfoldable pub new_payment : ℕ → String → Money → ℕ → Result Payment
new_payment order_id idempotency_key amount now = do
  fail_if (order_id == 0) (new validation "payment.order_required" "order id is required")
  fail_if (is_empty idempotency_key)
      (new validation "payment.idempotency_key_required" "idempotency key is required")
  fail_if (is_zero amount)
      (new validation "payment.amount_positive" "amount must be greater than zero")
  ok (record {
    root = record_events (payment_event (payment_initiated 0 order_id) ∷ []) no_events;
    id = 0;
    order_id = order_id;
    idempotency_key = idempotency_key;
    amount = amount;
    status = pending;
    provider = "";
    provider_ref = "";
    attempts = pos 0;
    failure_reason = "";
    created_at = now;
  })

abbrev pub reconstitute_payment :
    ℕ → ℕ → String → Money → Status → String → String → ℤ → String → ℕ → Payment
reconstitute_payment id order_id key amount status provider provider_ref attempts reason at =
    record {
      root = no_events;
      id = id;
      order_id = order_id;
      idempotency_key = key;
      amount = amount;
      status = status;
      provider = provider;
      provider_ref = provider_ref;
      attempts = attempts;
      failure_reason = reason;
      created_at = at;
    }

unfoldable pub assign_id : ℕ → Payment → Payment
assign_id id p = if p.id == 0 then record p { id = id } else p

unfoldable pub record_attempt : String → Payment → Result Payment
record_attempt provider p = do
  fail_if (is_empty provider) (new validation "payment.provider_required" "provider is required")
  ok (record p { attempts = int64 (p.attempts +ℤ pos 1); provider = provider })

abbrev note : PaymentEvent → Payment → Payment
note e p = record p { root = record_events (payment_event e ∷ []) p.root }

abbrev not_pending : Failure
not_pending = new conflict "payment.not_pending" "payment is not pending"

unfoldable pub mark_succeeded : String → Payment → Result Payment
mark_succeeded provider_ref p = elim p.status [
  | pending ↦
      fail_if (is_empty provider_ref)
        (new validation "payment.provider_ref_required" "provider reference is required")
      >> ok (
          note (payment_succeeded p.id p.order_id)
            (record p { status = succeeded; provider_ref = provider_ref; failure_reason = "" }))
  | _ ↦ err not_pending
]

unfoldable pub mark_failed : String → Payment → Result Payment
mark_failed reason p = elim p.status [
  | pending ↦
      fail_if (is_empty reason)
        (new validation "payment.reason_required" "failure reason is required")
      >> ok (
          note (payment_failed p.id p.order_id reason)
            (record p { status = failed; failure_reason = reason }))
  | _ ↦ err not_pending
]

unfoldable pub refund : Payment → Result Payment
refund p = elim p.status [
  | succeeded ↦ ok (note (payment_refunded p.id p.order_id) (record p { status = refunded }))
  | _ ↦ err (new conflict "payment.not_succeeded" "only succeeded payments can be refunded")
]
