-- ===== src/Order.antt =====
-- internal/domain/order/order.go: the order aggregate. A method returns the order after the call,
-- or the error with which it leaves the order alone.
pub mod Lifecycle
pub mod Bounds
pub mod Total
pub mod History
mod Examples
use backend_golang_task.Prelude.{
  ℕ, String, Bool, true, false, not, str_eq, is_empty, if◌then◌else◌, List, [], ◌∷◌, ◌==◌,
}
use backend_golang_task.Prelude.Int.{ℤ, pos, leb_ℤ, int64}
use backend_golang_task.Errs.{
  Result, ok, err, Failure, new, validation, conflict, ◌>>=◌, ◌>>◌, fail_if,
}
use backend_golang_task.Shared.Event.{
  Event, order_event, OrderEvent, order_placed, order_reserved, order_paid, order_fulfilled,
  order_cancelled, order_failed, AggregateRoot, no_events, record_events,
}
use backend_golang_task.Shared.Money.{Money, zero_money, add, mul}

-- `type Status string`: the six constants, and any other text, which a row of the table or a
-- request may hold. `other` is used at texts that are none of the six.
pub data Status : Type 0 where
  pending reserved paid fulfilled cancelled failed : Status
  other : String → Status

-- `string(s)` and `order.Status(text)`
abbrev pub status_text : Status → String
status_text pending = "pending"
status_text reserved = "reserved"
status_text paid = "paid"
status_text fulfilled = "fulfilled"
status_text cancelled = "cancelled"
status_text failed = "failed"
status_text (other text) = text

unfoldable pub read_status : String → Status
read_status text =
    if str_eq text "pending"
    then pending
    else if str_eq text "reserved"
    then reserved
    else if str_eq text "paid"
    then paid
    else if str_eq text "fulfilled"
    then fulfilled
    else if str_eq text "cancelled"
    then cancelled
    else if str_eq text "failed"
    then failed
    else other text

pub record Item : Type 0 where
  pub product_id : ℕ
  pub sku : String
  pub name : String
  pub unit_price : Money
  pub quantity : ℤ

unfoldable pub new_item : ℕ → String → String → Money → ℤ → Result Item
new_item product_id sku name unit_price quantity = do
  fail_if (leb_ℤ quantity (pos 0))
      (new validation "order.item_quantity" "item quantity must be greater than zero")
  ok (record {
    product_id = product_id;
    sku = sku;
    name = name;
    unit_price = unit_price;
    quantity = quantity;
  })

-- `int64(i.quantity)` is the quantity itself: an `int` has 64 bits.
unfoldable pub subtotal : Item → Money
unfolding mul
subtotal i = mul i.unit_price i.quantity

pub record Order : Type 0 where
  pub root : AggregateRoot
  pub id : ℕ
  pub user_id : ℕ
  pub status : Status
  pub items : List Item
  pub total : Money
  pub idempotency_key : String
  pub failure_reason : String
  pub created_at : ℕ

abbrev pub currency_mismatch : Failure
currency_mismatch =
    new validation "order.currency_mismatch" "all items must share the same currency"

-- The body of the loop over the items, and the loop, with the running total.
unfoldable pub add_item : String → Money → Item → Result Money
unfolding add subtotal
add_item currency total item = do
  fail_if (not (str_eq item.unit_price.currency currency)) currency_mismatch
  elim (add total (subtotal item)) [ ok sum ↦ ok sum | err _ ↦ err currency_mismatch ]

unfoldable pub sum_items : String → Money → List Item → Result Money
sum_items currency total [] = ok total
sum_items currency total (item ∷ items) =
    add_item currency total item >>= λ sum. sum_items currency sum items

-- `items[0].UnitPrice().Currency()`, for a list that is not empty.
abbrev pub first_currency : List Item → String
first_currency [] = ""
first_currency (item ∷ _) = item.unit_price.currency

abbrev pub has_no_items : List Item → Bool
has_no_items [] = true
has_no_items (_ ∷ _) = false

-- The struct that `NewOrder` builds, once the total is known; `now` is the clock's reading.
abbrev pub placed : ℕ → List Item → String → Money → ℕ → Order
placed user_id items idempotency_key total now = record {
  root =
      record_events (order_event (order_placed 0 user_id total.amount total.currency) ∷ [])
        no_events;
  id = 0;
  user_id = user_id;
  status = pending;
  items = items;
  total = total;
  idempotency_key = idempotency_key;
  failure_reason = "";
  created_at = now;
}

unfoldable pub new_order : ℕ → List Item → String → ℕ → Result Order
new_order user_id items idempotency_key now = do
  fail_if (has_no_items items)
      (new validation "order.no_items" "order must contain at least one item")
  fail_if (is_empty idempotency_key)
      (new validation "order.idempotency_key" "idempotency key is required")
  let currency = first_currency items
  total ← sum_items currency (zero_money currency) items
  ok (placed user_id items idempotency_key total now)

abbrev pub reconstitute_order : ℕ → ℕ → Status → List Item → Money → String → String → ℕ → Order
reconstitute_order id user_id status items total idempotency_key failure_reason created_at =
    record {
      root = no_events;
      id = id;
      user_id = user_id;
      status = status;
      items = items;
      total = total;
      idempotency_key = idempotency_key;
      failure_reason = failure_reason;
      created_at = created_at;
    }

unfoldable pub assign_id : ℕ → Order → Order
assign_id id o = if o.id == 0 then record o { id = id } else o

abbrev pub is_terminal : Status → Bool
is_terminal fulfilled = true
is_terminal cancelled = true
is_terminal failed = true
is_terminal _ = false

abbrev pub can_cancel : Status → Bool
can_cancel pending = true
can_cancel reserved = true
can_cancel paid = true
can_cancel _ = false

abbrev invalid_transition : String → Failure
invalid_transition message = new conflict "order.invalid_transition" message

-- The two assignments that every transition makes: the status, and an event on the root.
abbrev enter : Status → OrderEvent → Order → Order
enter status e o = record o { status = status; root = record_events (order_event e ∷ []) o.root }

unfoldable pub mark_reserved : Order → Result Order
mark_reserved o = elim o.status [
  | pending ↦ ok (enter reserved (order_reserved o.id) o)
  | _ ↦ err (invalid_transition "order can only be reserved from pending")
]

unfoldable pub mark_paid : Order → Result Order
mark_paid o = elim o.status [
  | reserved ↦ ok (enter paid (order_paid o.id) o)
  | _ ↦ err (invalid_transition "order can only be paid from reserved")
]

unfoldable pub mark_fulfilled : Order → Result Order
mark_fulfilled o = elim o.status [
  | paid ↦ ok (enter fulfilled (order_fulfilled o.id) o)
  | _ ↦ err (invalid_transition "order can only be fulfilled from paid")
]

unfoldable pub cancel : String → Order → Result Order
cancel reason o =
    if can_cancel o.status
    then ok (enter cancelled (order_cancelled o.id reason) o)
    else err (invalid_transition "order cannot be cancelled from its current status")

unfoldable pub fail : String → Order → Result Order
fail reason o =
    if is_terminal o.status
    then err (invalid_transition "order cannot be failed from a terminal status")
    else ok (enter failed (order_failed o.id reason) (record o { failure_reason = reason }))
