-- ===== src/Commands/CancelOrder/Rows.antt =====
-- What a cancellation (internal/application/command/cancel_order.go) does to the rows of the orders.
use backend_golang_task.Prelude.{
  ℕ, ◌≡◌, refl, ◌∙◌, sym, ap, String, Bool, true, false, ◌==◌, ◌||◌, some, List, [], ◌∷◌, find?,
  arith, Bool-cases, inl, inr,
}
use backend_golang_task.Prelude.Int.{ℤ}
use backend_golang_task.Errs.{Result, ok}
use backend_golang_task.Action.{Action, lift, ◌>>=◌, ◌>>◌, >>=-eq-ok}
use backend_golang_task.Order.{Order, Item, cancel}
use backend_golang_task.Payment.{Payment, refund}
use backend_golang_task.Gorm.Models.{OrderModel, PaymentModel, get, orders, inventories, payments}
use backend_golang_task.Gorm.Engine.{Gorm, IsGorm, rewrite, same_id}
use backend_golang_task.Gorm.Inventories.{release, holds, released_row}
use backend_golang_task.Gorm.Orders.{update_order, updated_row}
use backend_golang_task.Gorm.Payments.{
  find_by_order_id, update_payment, payment_to_model, payment_to_domain,
}
use backend_golang_task.Commands.Memory.{
  stored, update, reading, for_items, stored-eq-ok, update-eq-ok,
}
use backend_golang_task.Commands.CancelOrder.{release_lines, refund_payment, cancelling}

payment_to_domain-id : (m : PaymentModel) {p : Payment} → payment_to_domain m ≡ ok p → p.id ≡ m.id
unfolding payment_to_domain
payment_to_domain-id m h = ground arith

refund-id : (p : Payment) {p' : Payment} → refund p ≡ ok p' → p'.id ≡ p.id
unfolding refund
refund-id p h = ground arith

-- A row that is found for its order is found under its id.
find-same_id :
    (order_id : ℕ) (ms : List PaymentModel) (m : PaymentModel)
    → find? (λ r. r.order_id == order_id) ms ≡ some m
    → (r : PaymentModel) × (find? (same_id payments m.id) ms ≡ some r)
find-same_id order_id [] m h = cc
find-same_id order_id (x ∷ ms) m h = elim (Bool-cases (x.id == m.id)) [
  | inl same ↦ (x, ground arith)
  | inr differs ↦ let (r, found) = find-same_id order_id ms m (ground arith) in (r, ground arith)
]

module _ (g : Gorm) (laws : IsGorm g) where
  abbrev rows : g.World → List OrderModel
  rows w = get orders (g.tables w)

  release-rows : (id : ℕ) (q : ℤ) (w : g.World) → rows (release g id q w).1 ≡ rows w
  unfolding release
  release-rows id q w = ground (arith, laws.updates_law inventories (holds id q) (released_row q) w)

  for_items-rows :
      (is : List Item) (w : g.World)
      → rows (for_items (λ item. release g item.product_id item.quantity) is w).1 ≡ rows w
  unfolding for_items
  for_items-rows [] w = refl
  for_items-rows (i ∷ is) w = grind (arith, release-rows, for_items-rows is)

  update_payment-rows :
      (p : Payment) (r : PaymentModel) (w : g.World)
      → find? (same_id payments p.id) (get payments (g.tables w)) ≡ some r
      → rows (update_payment g p w).1 ≡ rows w
  unfolding update_payment
  update_payment-rows p r w found = elim (Bool-cases (p.id == 0)) [
    | inl none_yet ↦ ground (arith, laws.save_new_law payments (payment_to_model p) w)
    | inr some_id ↦ ground (arith, laws.save_law payments (payment_to_model p) r w)
  ]

  -- The payment that is refunded has a row.
  find_by_order_id-row :
      (order_id : ℕ) (w : g.World) {pay : Payment} {w' : g.World}
      → find_by_order_id g order_id w ≡ (ok pay, w')
      → (g.tables w' ≡ g.tables w)
        × (m : PaymentModel) × (find? (λ r. r.order_id == order_id) (get payments (g.tables w))
            ≡ some m)
        × (pay.id ≡ m.id)
  unfolding find_by_order_id
  find_by_order_id-row order_id w h = grind (
    arith,
    laws.first_law payments (λ (r : PaymentModel). r.order_id == order_id) w,
    payment_to_domain-id,
  )

  lift-eq-ok :
      {A : Type 0} (r : Result A) (w : g.World) {x : A} {w' : g.World}
      → lift r w ≡ (ok x, w')
      → (r ≡ ok x) × (w' ≡ w)
  lift-eq-ok r w h = ground arith

  refund_payment-rows :
      (o : Order) (was_paid : Bool) (w : g.World) {a : Unit {0}} {w' : g.World}
      → refund_payment g was_paid o w ≡ (ok a, w')
      → rows w' ≡ rows w
  unfolding refund_payment
  refund_payment-rows o false w h = ground arith
  refund_payment-rows o true w {a} {w'} h =
      let (pay, w₁, found, h₁) =
        >>=-eq-ok (find_by_order_id g o.id)
          (λ pay. lift (refund pay) >>= λ refunded. update_payment g refunded) w h in
      let (refunded, w₂, refunding, h₂) =
        >>=-eq-ok (lift (refund pay)) (λ refunded. update_payment g refunded) w₁ h₁ in
      let (same, m, of_order, id) = find_by_order_id-row o.id w found in
      let (r, row) = find-same_id o.id (get payments (g.tables w)) m of_order in
      let (e, still) = lift-eq-ok (refund pay) w₁ refunding in
      let same_row = refund-id pay e ∙ id in
      let kept = update_payment-rows refunded r w₂ (rw (same_row, still, same) row) in
      ap (λ (x : Result (Unit {0}) × g.World). rows x.1) (sym h₂)
      ∙ kept
      ∙ ap rows still
      ∙ ap (get orders) same

  release_lines-rows :
      (held : Bool) (o : Order) (w : g.World) → rows (release_lines g held o w).1 ≡ rows w
  unfolding release_lines
  release_lines-rows true o w = for_items-rows o.items w
  release_lines-rows false o w = refl

  update_order-rows :
      (o : Order) (w : g.World) {a : Unit {0}} {w' : g.World}
      → update_order g o w ≡ (ok a, w')
      → rows w' ≡ rewrite (λ m. m.id == o.id) (updated_row o) (rows w)
  unfolding update_order
  update_order-rows o w h =
      ground (arith, laws.updates_law orders (λ (m : OrderModel). m.id == o.id) (updated_row o) w)

  abbrev writing : Action (Order × g.World) (Unit {0})
  writing = reading λ o. stored (update_order g o)

  abbrev refunding : Bool → String → Action (Order × g.World) (Unit {0})
  refunding p reason =
      (reading λ o. stored (refund_payment g p o)) >> (update (cancel reason) >> writing)

  -- A closure that returned no error has written the order to its row, and to no other order's.
  pub cancelling-rows :
      (r p : Bool) (reason : String) (o : Order) (w : g.World) {a : Unit {0}} {o' : Order}
      {w' : g.World}
      → cancelling g r p reason (o, w) ≡ (ok a, (o', w'))
      → rows w' ≡ rewrite (λ m. m.id == o'.id) (updated_row o') (rows w)
  unfolding cancelling
  cancelling-rows r p reason o w {a} {o'} {w'} h =
      let (_, (o₁, w₁), released, h₁) =
        >>=-eq-ok (reading λ o. stored (release_lines g (r || p) o)) (λ _. refunding p reason)
          (o, w) h in
      let (_, (o₂, w₂), refunded, h₂) =
        >>=-eq-ok (reading λ o. stored (refund_payment g p o))
          (λ _. update (cancel reason) >> writing) (o₁, w₁) h₁ in
      let (_, (o₃, w₃), moved, h₃) =
        >>=-eq-ok (update (cancel reason)) (λ _. writing) (o₂, w₂) h₂ in
      let (same₁, first) = stored-eq-ok (release_lines g (r || p) o) o w released in
      let (same₂, second) = stored-eq-ok (refund_payment g p o₁) o₁ w₁ refunded in
      let (_, same₃) = update-eq-ok (cancel reason) o₂ w₂ moved in
      let (same₄, fourth) = stored-eq-ok (update_order g o₃) o₃ w₃ h₃ in
      let written = update_order-rows o₃ w₃ fourth in
      ground (arith, release_lines-rows (r || p) o w, refund_payment-rows o₁ p w₁ second)
