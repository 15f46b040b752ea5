-- ===== src/Gorm/Payments.antt =====
-- internal/infrastructure/persistence/gormrepo/payment_repo.go.
use backend_golang_task.Prelude.{ℕ, String, str_eq, ◌==◌, Option, some, none}
use backend_golang_task.Errs.{Result, ok, new, not_found}
use backend_golang_task.Errs
use backend_golang_task.Action.{Action, pure, raise, lift, ◌>>=◌}
use backend_golang_task.Payment.{Payment, status_text, read_status, reconstitute_payment, assign_id}
use backend_golang_task.Gorm.Models.{PaymentModel, payments}
use backend_golang_task.Gorm.Engine.{Gorm}
use backend_golang_task.Gorm.Orders.{money_or_panic}

abbrev pub payment_to_model : Payment → PaymentModel
payment_to_model p = record {
  id = p.id;
  order_id = p.order_id;
  idempotency_key = p.idempotency_key;
  amount = p.amount.amount;
  currency = p.amount.currency;
  status = status_text p.status;
  provider = p.provider;
  provider_ref = p.provider_ref;
  attempts = p.attempts;
  failure_reason = p.failure_reason;
  created_at = p.created_at;
}

unfoldable pub payment_to_domain : PaymentModel → Result Payment
payment_to_domain m = Errs.◌>>=◌ (money_or_panic m.amount m.currency) λ amount. ok (
    reconstitute_payment m.id m.order_id m.idempotency_key amount (read_status m.status) m.provider
      m.provider_ref m.attempts m.failure_reason m.created_at)

module _ (g : Gorm) where
  open g use {World, create, save, first}

  -- The payment with the id that it has got.
  unfoldable pub create_payment : Payment → Action World Payment
  create_payment p = do id ← create payments (payment_to_model p); pure (assign_id id p)

  unfoldable pub update_payment : Payment → Action World (Unit {0})
  update_payment p = save payments (payment_to_model p)

  abbrev found_payment : String → Option PaymentModel → Action World Payment
  found_payment message none = raise (new not_found "payment.not_found" message)
  found_payment message (some m) = lift (payment_to_domain m)

  unfoldable find_payment : ℕ → Action World Payment
  find_payment id = first payments (λ m. m.id == id) >>= found_payment "payment not found"

  unfoldable pub find_by_order_id : ℕ → Action World Payment
  find_by_order_id order_id =
      first payments (λ m. m.order_id == order_id) >>= found_payment "payment not found for order"

  unfoldable pub find_by_idempotency_key : String → Action World Payment
  find_by_idempotency_key key =
      first payments (λ m. str_eq m.idempotency_key key)
      >>= found_payment "payment not found for idempotency key"
