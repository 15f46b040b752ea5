-- ===== src/Order/Total.antt =====
-- `NewOrder` of internal/domain/order/order.go: when it accepts, and the total that it computes.
use text.Mathlib.TextEquality.{eq_iff}
use backend_golang_task.Prelude.{
  ℕ, String, false, ◌≡◌, refl, ap, ◌∙◌, List, [], ◌∷◌, arith, All, is_empty, ◌↔◌,
}
use backend_golang_task.Prelude.Int.{
  ℤ, pos, ◌+ℤ◌, ◌*ℤ◌, int64, IsInt64, int64_exact, int64_absorb, int64-IsInt64, int_laws,
}
use backend_golang_task.Errs.{ok, >>=-eq-ok, fail_if-eq-ok}
use backend_golang_task.Shared.Money.{Money, zero_money}
use backend_golang_task.Order.{
  Order, Item, first_currency, has_no_items, placed, add_item, sum_items, new_order,
}

-- What the lines cost, exactly.
unfoldable pub exact_total : List Item → ℤ
exact_total [] = pos 0
exact_total (i ∷ items) = i.unit_price.amount *ℤ i.quantity +ℤ exact_total items

abbrev pub IsIn : String → Item → Type 0
IsIn currency i = i.unit_price.currency ≡ currency

add_item-eq-ok :
    (currency : String) (t : Money) (i : Item) {m : Money}
    → t.currency ≡ currency
    → add_item currency t i ≡ ok m
    → IsIn currency i
      × (m.amount ≡ int64 (t.amount +ℤ int64 (i.unit_price.amount *ℤ i.quantity)))
      × (m.currency ≡ currency)
unfolding add_item
add_item-eq-ok currency t i c h =
    ground (arith, eq_iff i.unit_price.currency currency, eq_iff t.currency i.unit_price.currency)

add_item-ok :
    (currency : String) (t : Money) (i : Item)
    → t.currency ≡ currency
    → IsIn currency i
    → (m : Money) × (add_item currency t i ≡ ok m)
unfolding add_item
add_item-ok currency t i c h = (
  record {
    amount = int64 (t.amount +ℤ int64 (i.unit_price.amount *ℤ i.quantity));
    currency = t.currency;
  },
  ground (arith, eq_iff i.unit_price.currency currency, eq_iff t.currency i.unit_price.currency),
)

add_zero : (a : ℤ) → a +ℤ pos 0 ≡ a
add_zero a = omega int_laws

zero_add : (a : ℤ) → pos 0 +ℤ a ≡ a
zero_add a = omega int_laws

sum_items-eq-ok :
    (currency : String) (t : Money) (items : List Item) {m : Money}
    → t.currency ≡ currency
    → IsInt64 t.amount
    → sum_items currency t items ≡ ok m
    → All (IsIn currency) items
      × (m.amount ≡ int64 (t.amount +ℤ exact_total items))
      × (m.currency ≡ currency)
unfolding sum_items exact_total
sum_items-eq-ok currency t [] c r h =
    let same = int64_exact t.amount r in (tt, ground (arith, same, add_zero t.amount), ground arith)
sum_items-eq-ok currency t (i ∷ items) c r h =
    let (sum, added, rest) = >>=-eq-ok (add_item currency t i) _ h in
    let (here, amount, c') = add_item-eq-ok currency t i c added in
    let (there, total, same) =
      sum_items-eq-ok currency sum items c' (rw amount (int64-IsInt64 _)) rest in
    (
      (here, there),
      total
          ∙ ap (λ a. int64 (a +ℤ exact_total items)) amount
          ∙ int64_absorb t.amount (i.unit_price.amount *ℤ i.quantity) (exact_total items),
      same,
    )

sum_items-ok :
    (currency : String) (t : Money) (items : List Item)
    → t.currency ≡ currency
    → All (IsIn currency) items
    → (m : Money) × (sum_items currency t items ≡ ok m)
unfolding sum_items
sum_items-ok currency t [] c all = (t, refl)
sum_items-ok currency t (i ∷ items) c all =
    let (sum, added) = add_item-ok currency t i c all.0 in
    let (_, _, c') = add_item-eq-ok currency t i c added in
    let (m, summed) = sum_items-ok currency sum items c' all.1 in (m, rw added summed)

-- What a call of `NewOrder` that succeeds has checked, and what it has made.
pub new_order-eq-ok :
    (user_id : ℕ) (items : List Item) (key : String) (now : ℕ) {o : Order}
    → new_order user_id items key now ≡ ok o
    → (has_no_items items ≡ false)
      × (is_empty key ≡ false)
      × (total : Money) × (sum_items
            (first_currency items)
            (zero_money (first_currency items))
            items
          ≡ ok total)
      × (o ≡ placed user_id items key total now)
unfolding new_order
new_order-eq-ok user_id items key now h =
    let (some_items, h₁) = fail_if-eq-ok (has_no_items items) _ _ h in
    let (keyed, h₂) = fail_if-eq-ok (is_empty key) _ _ h₁ in
    let (total, summed, made) = >>=-eq-ok _ _ h₂ in (some_items, keyed, total, summed, ground arith)

-- An order that `NewOrder` makes has lines of one currency, which is its total's, and its total is
-- the exact cost of its lines as an int64 holds it.
pub new_order_total :
    (user_id : ℕ) (items : List Item) (key : String) (now : ℕ) {o : Order}
    → new_order user_id items key now ≡ ok o
    → All (IsIn o.total.currency) items × (o.total.amount ≡ int64 (exact_total items))
new_order_total user_id items key now h =
    let (_, _, total, summed, made) = new_order-eq-ok user_id items key now h in
    let (all, amount, c) =
      sum_items-eq-ok (first_currency items) (zero_money (first_currency items)) items refl
        (omega arith) summed in
    rw (made, c) (all, amount ∙ ap int64 (zero_add (exact_total items)))

-- So the total is the exact cost of the lines, whenever an int64 can hold that.
new_order_exact :
    (user_id : ℕ) (items : List Item) (key : String) (now : ℕ) {o : Order}
    → IsInt64 (exact_total items)
    → new_order user_id items key now ≡ ok o
    → o.total.amount ≡ exact_total items
new_order_exact user_id items key now r h =
    (new_order_total user_id items key now h).1 ∙ int64_exact (exact_total items) r

-- `NewOrder` succeeds exactly on a list of lines that is not empty and of one currency, and a key
-- that is not empty.
new_order_iff :
    (user_id : ℕ) (items : List Item) (key : String) (now : ℕ)
    → ((o : Order) × (new_order user_id items key now ≡ ok o)) ↔ (
        (has_no_items items ≡ false)
        × (is_empty key ≡ false)
        × All (IsIn (first_currency items)) items)
unfolding new_order
new_order_iff user_id items key now = (checked, made)
  where
    checked :
        (o : Order) × (new_order user_id items key now ≡ ok o)
        → (has_no_items items ≡ false)
          × (is_empty key ≡ false)
          × All (IsIn (first_currency items)) items
    checked (o, h) =
        let (some_items, keyed, total, summed, _) = new_order-eq-ok user_id items key now h in
        (
          some_items,
          keyed,
          (sum_items-eq-ok (first_currency items) (zero_money (first_currency items)) items refl
              (omega arith) summed).0,
        )

    made :
        (has_no_items items ≡ false)
          × (is_empty key ≡ false)
          × All (IsIn (first_currency items)) items
        → (o : Order) × (new_order user_id items key now ≡ ok o)
    made (some_items, keyed, all) =
        let (total, summed) =
          sum_items-ok (first_currency items) (zero_money (first_currency items)) items refl all in
        (placed user_id items key total now, rw (some_items, keyed, summed) refl)
