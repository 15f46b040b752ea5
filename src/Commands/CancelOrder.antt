-- ===== src/Commands/CancelOrder.antt =====
-- internal/application/command/cancel_order.go.
pub mod Atomic
mod Rows
use backend_golang_task.Prelude.{ℕ, String, Bool, true, false, ◌||◌, if◌then◌else◌, List, []}
use backend_golang_task.Errs.{Result, ok, err}
use backend_golang_task.Action.{Action, pure, lift, ◌>>=◌, ◌>>◌}
use backend_golang_task.Order.{Order, Status, reserved, paid, cancel}
use backend_golang_task.Payment.{refund}
use backend_golang_task.Gorm.Engine.{Gorm}
use backend_golang_task.Gorm.Inventories.{release}
use backend_golang_task.Gorm.Orders.{find_order, update_order}
use backend_golang_task.Gorm.Payments.{find_by_order_id, update_payment}
use backend_golang_task.Commands.Memory.{Handled, drained, stored, update, reading, for_items}

pub record CancelOrderInput : Type 0 where
  pub order_id : ℕ
  pub reason : String

abbrev pub is_reserved : Status → Bool
is_reserved reserved = true
is_reserved _ = false

abbrev pub is_paid : Status → Bool
is_paid paid = true
is_paid _ = false

module _ (g : Gorm) where
  open g use {World, transaction}

  -- The first `if` of the closure, and the second.
  unfoldable pub release_lines : Bool → Order → Action World (Unit {0})
  release_lines held ord =
      if held
      then for_items (λ item. release g item.product_id item.quantity) ord.items
      else pure tt

  unfoldable pub refund_payment : Bool → Order → Action World (Unit {0})
  refund_payment was_paid ord =
      if was_paid
      then (do
        pay ← find_by_order_id g ord.id
        refunded ← lift (refund pay)
        update_payment g refunded)
      else pure tt

  -- The closure; its variable is the order, and the two flags are read before it runs.
  unfoldable pub cancelling : Bool → Bool → String → Action (Order × World) (Unit {0})
  cancelling was_reserved was_paid reason = do
    reading λ o. stored (release_lines (was_reserved || was_paid) o)
    reading λ o. stored (refund_payment was_paid o)
    update (cancel reason)
    reading λ o. stored (update_order g o)

  -- The end of `Handle`, after the transaction.
  abbrev pub cancelled_with : Result (Unit {0}) × (Order × World) → Handled × World
  cancelled_with (err e, (_, w)) = (record { answer = err e; published = [] }, w)
  cancelled_with (ok _, (o, w)) =
      (record { answer = ok (drained o); published = o.root.pending }, w)

  abbrev pub cancel_found : CancelOrderInput → Result Order → World → Handled × World
  cancel_found inp (err e) w = (record { answer = err e; published = [] }, w)
  cancel_found inp (ok ord) w =
      cancelled_with
        (transaction (cancelling (is_reserved ord.status) (is_paid ord.status) inp.reason) (ord, w))

  unfoldable pub handle : CancelOrderInput → World → Handled × World
  handle inp w = let (found, w') = find_order g inp.order_id w in cancel_found inp found w'
