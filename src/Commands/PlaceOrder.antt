-- ===== src/Commands/PlaceOrder.antt =====
-- internal/application/command/place_order.go.
pub mod Charging
mod Rows
mod Stock
mod Steps
mod Effects
mod Placed
mod Settlement
pub mod Outcome
pub mod Replay
use backend_golang_task.Prelude.{
  ℕ, zero, suc, ◌-◌, String, Bool, true, false, not, ◌++◌, if◌then◌else◌, Option, some, none, List,
  [], ◌∷◌,
}
use backend_golang_task.Prelude.Int.{ℤ, pos, pos_part, ltb_ℤ}
use backend_golang_task.Errs.{
  Result, ok, err, Failure, new, with_cause, text, is_panic, validation, out_of_stock,
  payment_failed, unavailable,
}
use backend_golang_task.Action.{Action, pure, raise, lift, ◌>>=◌, ◌>>◌}
use backend_golang_task.Shared.Event.{Event}
use backend_golang_task.Order.{
  Order, Item, new_item, new_order, mark_reserved, mark_paid, mark_fulfilled, fail,
}
use backend_golang_task.Payment.{Payment, new_payment, record_attempt, mark_succeeded, mark_failed}
use backend_golang_task.Product.{Product}
use backend_golang_task.Ports.{PaymentGateway, ChargeRequest, ChargeResult}
use backend_golang_task.Gorm.Engine.{Gorm}
use backend_golang_task.Gorm.Inventories.{reserve, release, commit}
use backend_golang_task.Gorm.Orders.{create_order, update_order, find_by_idempotency_key}
use backend_golang_task.Gorm.Payments.{create_payment}
use backend_golang_task.Gorm.Products.{find_product}
use backend_golang_task.Commands.Memory.{
  Handled, drained, stored, update, store, reading, for_items,
}

pub record PlaceOrderItem : Type 0 where
  pub product_id : ℕ
  pub quantity : ℤ

pub record PlaceOrderInput : Type 0 where
  pub user_id : ℕ
  pub idempotency_key : String
  pub items : List PlaceOrderItem

-- A method of the payment in a closure whose variables are the order and the payment; and one of the
-- order.
abbrev on_payment : (Payment → Result Payment) → Order × Payment → Result (Order × Payment)
on_payment f (o, p) = elim (f p) [ ok p' ↦ ok (o, p') | err e ↦ err e ]

abbrev on_order : (Order → Result Order) → Order × Payment → Result (Order × Payment)
on_order f (o, p) = elim (f o) [ ok o' ↦ ok (o', p) | err e ↦ err e ]

-- `_ = pay.RecordAttempt("mock")`
abbrev pub attempted : Payment → Payment
attempted p = elim (record_attempt "mock" p) [ ok p' ↦ p' | err _ ↦ p ]

-- The number of attempts after the first: `attempts - 1`.
abbrev pub retries : ℤ → ℕ
retries max_attempts = pos_part (if ltb_ℤ max_attempts (pos 1) then pos 1 else max_attempts) - 1

module _ (gw : PaymentGateway) where
  -- The loop over the attempts, with `n` of them left after this one. The pause between two attempts
  -- is left out, and a gateway is taken not to panic.
  unfoldable pub charge_loop :
      ChargeRequest → ℕ → Payment → gw.State → Result ChargeResult × Payment × gw.State
  charge_loop req zero pay s = let (r, s') = gw.charge req s in (r, attempted pay, s')
  charge_loop req (suc n) pay s =
      let (r, s') = gw.charge req s in
      elim r [ ok res ↦ (ok res, attempted pay, s') | err _ ↦ charge_loop req n (attempted pay) s' ]

module _ (g : Gorm) where
  open g use {World, transaction}

  -- `rp.Inventory().Reserve` of one line, and what the loop makes of `!ok`.
  abbrev pub reserve_line : Item → Action World (Unit {0})
  reserve_line item = do
    reserved ← reserve g item.product_id item.quantity
    if reserved
        then pure tt
        else raise
            (new out_of_stock "order.out_of_stock" "insufficient stock to reserve order items")

  -- The body of the first transaction: its variable is the order.
  unfoldable pub reserving : Action (Order × World) (Unit {0})
  reserving = do
    store (create_order g)
    reading λ o. stored (for_items reserve_line o.items)
    update mark_reserved
    reading λ o. stored (update_order g o)

  -- The body of the second one, whose variables are the order and the payment: after a charge that
  -- failed, and after one that succeeded.
  unfoldable pub failing : Failure → Action ((Order × Payment) × World) (Unit {0})
  failing charge_err = do
    update (on_payment (mark_failed (text charge_err)))
    store λ v. create_payment g v.1 >>= λ p. pure (v.0, p)
    reading λ v. stored (for_items (λ item. release g item.product_id item.quantity) v.0.items)
    update (on_order (fail "payment failed"))
    reading λ v. stored (update_order g v.0)

  unfoldable pub succeeding : ChargeResult → Action ((Order × Payment) × World) (Unit {0})
  succeeding res = do
    update (on_payment (mark_succeeded res.provider_ref))
    store λ v. create_payment g v.1 >>= λ p. pure (v.0, p)
    update (on_order mark_paid)
    reading λ v. stored (for_items (λ item. commit g item.product_id item.quantity) v.0.items)
    update (on_order mark_fulfilled)
    reading λ v. stored (update_order g v.0)

  unfoldable pub settling : Result ChargeResult → Action ((Order × Payment) × World) (Unit {0})
  settling (ok res) = succeeding res
  settling (err charge_err) = failing charge_err

-- The loop over the lines of the request.
abbrev priced_line : PlaceOrderItem → Product → Result Item
priced_line line p =
    if not p.active
    then err (new validation "order.inactive_product" "product is not available for purchase")
    else new_item p.id p.sku p.name p.price line.quantity

module _ (g : Gorm) where
  open g use {World}

  unfoldable pub price_lines : List PlaceOrderItem → Action World (List Item)
  price_lines [] = pure []
  price_lines (line ∷ lines) = do
    p ← find_product g line.product_id
    item ← lift (priced_line line p)
    items ← price_lines lines
    pure (item ∷ items)

-- The end of `process`, from the errors of the charge and of the second transaction.
abbrev verdict : Result ChargeResult → Result (Unit {0}) → Result (Unit {0})
verdict charged (err e) = err e
verdict (err e) (ok _) =
    err (with_cause (new payment_failed "order.payment_failed" "payment could not be completed") e)
verdict (ok _) (ok _) = ok tt

-- What `process` leaves: the order and the payment as their variables hold them, and its error.
pub record Processed : Type 0 where
  pub order : Order
  pub payment : Option Payment
  pub outcome : Result (Unit {0})

-- `pay.PullEvents()`, if there is a payment.
abbrev payment_events : Option Payment → List Event
payment_events none = []
payment_events (some p) = p.root.pending

module _ (g : Gorm) (gw : PaymentGateway) (max_attempts : ℤ) (now : ℕ) where
  open g use {World, transaction}

  -- The end of `process`, after the second transaction.
  abbrev pub settled_with :
      Result ChargeResult
      → Result (Unit {0}) × ((Order × Payment) × World)
      → gw.State
      → Processed × World × gw.State
  settled_with charged (settled, ((ord, pay), w)) s =
      (record { order = ord; payment = some pay; outcome = verdict charged settled }, w, s)

  -- From the payment on.
  unfoldable pub charge_and_settle :
      Order → Payment → World × gw.State → Processed × World × gw.State
  charge_and_settle ord pay (w, s) =
      let req : ChargeRequest = record {
        idempotency_key = ord.idempotency_key;
        amount = ord.total;
      } in
      let (charged, pay₁, s') = charge_loop gw req (retries max_attempts) pay s in
      settled_with charged (transaction (settling g charged) ((ord, pay₁), w)) s'

  abbrev pub with_payment : Order → Result Payment → World × gw.State → Processed × World × gw.State
  with_payment ord (err e) (w, s) = (record { order = ord; payment = none; outcome = err e }, w, s)
  with_payment ord (ok pay) ws = charge_and_settle ord pay ws

  -- From the end of the first transaction on.
  abbrev pub reserved_with :
      Result (Unit {0}) × (Order × World) → gw.State → Processed × World × gw.State
  reserved_with (err e, (ord, w)) s =
      (record { order = ord; payment = none; outcome = err e }, w, s)
  reserved_with (ok _, (ord, w)) s =
      with_payment ord (new_payment ord.id ord.idempotency_key ord.total now) (w, s)

  unfoldable pub process : Order → World × gw.State → Processed × World × gw.State
  process ord (w, s) = reserved_with (transaction (reserving g) (ord, w)) s

  abbrev answered : Processed → Handled
  answered r = record {
    answer = elim r.outcome [ ok _ ↦ ok (drained r.order) | err e ↦ err e ];
    published = r.order.root.pending ++ payment_events r.payment;
  }

  -- `accepts` is whether the pool takes the task; the handler waits for it to end, which a task that
  -- does not panic does.
  unfoldable pub submit : Bool → Order → World × gw.State → Handled × World × gw.State
  submit accepts ord (w, s) =
      let (r, w', s') = process ord (w, s) in
      if accepts then (answered r, w', s') else (
        record {
          answer = err (
              with_cause
                (new unavailable "order.pool_unavailable"
                  "order processing pool is not accepting work")
                (Failure.foreign "concurrency: pool is stopped"));
          published = [];
        },
        w,
        s,
      )

  abbrev pub refused : Failure → World × gw.State → Handled × World × gw.State
  refused e (w, s) = (record { answer = err e; published = [] }, w, s)

  -- From the result of `NewOrder` on, and from that of the loop over the lines on.
  abbrev pub submit_made : Bool → Result Order → World × gw.State → Handled × World × gw.State
  submit_made accepts (err e) ws = refused e ws
  submit_made accepts (ok ord) ws = submit accepts ord ws

  abbrev pub place_priced :
      Bool → PlaceOrderInput → Result (List Item) → World × gw.State → Handled × World × gw.State
  place_priced accepts inp (err e) ws = refused e ws
  place_priced accepts inp (ok items) ws =
      submit_made accepts (new_order inp.user_id items inp.idempotency_key now) ws

  unfoldable pub place : Bool → PlaceOrderInput → World × gw.State → Handled × World × gw.State
  place accepts inp (w, s) =
      let (priced, w') = price_lines g inp.items w in place_priced accepts inp priced (w', s)

  -- From the first lookup on: its error, other than a panic, counts as no order found.
  abbrev pub answer_found :
      Bool → PlaceOrderInput → Result Order → World × gw.State → Handled × World × gw.State
  answer_found accepts inp (ok existing) (w, s) =
      (record { answer = ok existing; published = [] }, w, s)
  answer_found accepts inp (err e) ws = if is_panic e then refused e ws else place accepts inp ws

  unfoldable pub handle : Bool → PlaceOrderInput → World × gw.State → Handled × World × gw.State
  handle accepts inp (w, s) =
      let (found, w') = find_by_idempotency_key g inp.idempotency_key w in
      answer_found accepts inp found (w', s)
