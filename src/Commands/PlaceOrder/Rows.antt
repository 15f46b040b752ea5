-- ===== src/Commands/PlaceOrder/Rows.antt =====
-- What the second transaction of internal/application/command/place_order.go does to the rows of the
-- orders.
use backend_golang_task.Prelude.{◌≡◌, refl, ◌∙◌, ap, List, [], ◌∷◌, ◌==◌, arith}
use backend_golang_task.Errs.{Result, ok, err, Failure, text}
use backend_golang_task.Action.{Action, ◌>>=◌, ◌>>◌, pure}
use backend_golang_task.Order.{Order, Item, fail, mark_paid, mark_fulfilled}
use backend_golang_task.Payment.{Payment, mark_failed, mark_succeeded}
use backend_golang_task.Ports.{ChargeResult}
use backend_golang_task.Gorm.Models.{OrderModel, get, orders, inventories, payments}
use backend_golang_task.Gorm.Engine.{Gorm, IsGorm, rewrite, same_id}
use backend_golang_task.Gorm.Inventories.{release, commit, holds, released_row, committed_row}
use backend_golang_task.Gorm.Orders.{update_order, updated_row}
use backend_golang_task.Gorm.Payments.{create_payment, payment_to_model}
use backend_golang_task.Commands.Memory.{stored, update, store, reading, for_items}
use backend_golang_task.Commands.PlaceOrder.{failing, succeeding, settling, on_payment, on_order}

module _ (g : Gorm) (laws : IsGorm g) where
  abbrev pub rows : g.World → List OrderModel
  rows w = get orders (g.tables w)

  abbrev Vars : Type 0
  Vars = (Order × Payment) × g.World

  -- A step of the closure that writes no row of an order.
  abbrev Skips : {A : Type 0} → Result A × Vars → Vars → Type 0
  Skips (ok _, (_, w')) (_, w) = rows w' ≡ rows w
  Skips (err _, _) _ = Unit

  -- Steps that write the order to its row, and no other order's.
  abbrev pub Writes : Result (Unit {0}) × Vars → Vars → Type 0
  Writes (ok _, ((o', _), w')) (_, w) =
      rows w' ≡ rewrite (same_id orders o'.id) (updated_row o') (rows w)
  Writes (err _, _) _ = Unit

  moved :
      (s s' : Vars) (r : Result (Unit {0}) × Vars) → rows s'.1 ≡ rows s.1 → Writes r s' → Writes r s
  moved s s' (ok _, ((o, p), w)) same written =
      written ∙ ap (λ (ms : List OrderModel). rewrite (same_id orders o.id) (updated_row o) ms) same
  moved s s' (err _, _) same written = tt

  then-Writes :
      (m : Action Vars (Unit {0})) (k : Action Vars (Unit {0}))
      → ((s : Vars) → Skips (m s) s)
      → ((s : Vars) → Writes (k s) s)
      → (s : Vars) → Writes ((m >> k) s) s
  then-Writes m k skips writes s = go (m s) (skips s)
    where
      go : (r : Result (Unit {0}) × Vars) → Skips r s → Writes (◌>>◌ (λ (_ : Vars). r) k s) s
      go (err e, s') same = tt
      go (ok _, s') same = moved s s' (k s') same (writes s')

  written : (s : Vars) → Writes (reading (λ v. stored (update_order g v.0)) s) s
  unfolding update_order
  written ((o, p), w) =
      ground (arith, laws.updates_law orders (λ (m : OrderModel). m.id == o.id) (updated_row o) w)

  update-Skips : (f : Order × Payment → Result (Order × Payment)) (s : Vars) → Skips (update f s) s
  update-Skips f ((o, p), w) = go (f (o, p))
    where
      go :
          (r : Result (Order × Payment))
          → Skips (update (λ (_ : Order × Payment). r) ((o, p), w)) ((o, p), w)
      go (ok v) = refl
      go (err e) = tt

  create_payment-Skips :
      (s : Vars) → Skips (store (λ v. create_payment g v.1 >>= λ p. pure (v.0, p)) s) s
  unfolding create_payment
  create_payment-Skips ((o, p), w) = ground (arith, laws.create_law payments (payment_to_model p) w)

  pub for_items-rows :
      (f : Item → Action g.World (Unit {0}))
      → ((i : Item) (w : g.World) → rows (f i w).1 ≡ rows w)
      → (is : List Item) (w : g.World) → rows (for_items f is w).1 ≡ rows w
  unfolding for_items
  for_items-rows f keeps [] w = refl
  for_items-rows f keeps (i ∷ is) w = grind (arith, keeps, for_items-rows f keeps is)

  release-rows : (i : Item) (w : g.World) → rows (release g i.product_id i.quantity w).1 ≡ rows w
  unfolding release
  release-rows i w = ground (
    arith,
    laws.updates_law inventories (holds i.product_id i.quantity) (released_row i.quantity) w,
  )

  commit-rows : (i : Item) (w : g.World) → rows (commit g i.product_id i.quantity w).1 ≡ rows w
  unfolding commit
  commit-rows i w = ground (
    arith,
    laws.updates_law inventories (holds i.product_id i.quantity) (committed_row i.quantity) w,
  )

  -- The loop over the lines of the order.
  lines-Skips :
      (f : Item → Action g.World (Unit {0}))
      → ((i : Item) (w : g.World) → rows (f i w).1 ≡ rows w)
      → (s : Vars) → Skips (reading (λ v. stored (for_items f v.0.items)) s) s
  lines-Skips f keeps ((o, p), w) = go (for_items f o.items w) (for_items-rows f keeps o.items w)
    where
      go :
          (r : Result (Unit {0}) × g.World)
          → rows r.1 ≡ rows w
          → Skips (stored (λ (_ : g.World). r) ((o, p), w)) ((o, p), w)
      go (ok _, w') same = same
      go (err _, w') same = tt

  failing-Writes : (e : Failure) (s : Vars) → Writes (failing g e s) s
  unfolding failing
  failing-Writes e = then-Writes _ _ (update-Skips (on_payment (mark_failed (text e)))) (
      then-Writes _ _ create_payment-Skips (
        then-Writes _ _ (lines-Skips _ release-rows)
          (then-Writes _ _ (update-Skips (on_order (fail "payment failed"))) written)))

  succeeding-Writes : (res : ChargeResult) (s : Vars) → Writes (succeeding g res s) s
  unfolding succeeding
  succeeding-Writes res =
      then-Writes _ _ (update-Skips (on_payment (mark_succeeded res.provider_ref))) (
        then-Writes _ _ create_payment-Skips (
          then-Writes _ _ (update-Skips (on_order mark_paid)) (
            then-Writes _ _ (lines-Skips _ commit-rows)
              (then-Writes _ _ (update-Skips (on_order mark_fulfilled)) written))))

  -- A second transaction that returned no error has written the order to its row, and to no other
  -- order's.
  pub settling-Writes : (charged : Result ChargeResult) (s : Vars) → Writes (settling g charged s) s
  unfolding settling
  settling-Writes (ok res) s = succeeding-Writes res s
  settling-Writes (err e) s = failing-Writes e s
