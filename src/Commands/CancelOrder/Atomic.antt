-- ===== src/Commands/CancelOrder/Atomic.antt =====
-- How a cancellation ends (internal/application/command/cancel_order.go), whichever of its calls the
-- database fails.
use backend_golang_task.Prelude.{◌≡◌, refl, ◌∙◌, ap, String, Bool, true, List, [], ◌∷◌, ◌++◌, arith}
use backend_golang_task.Errs.{Result, ok, err}
use backend_golang_task.Shared.Event.{Event, order_event, order_cancelled}
use backend_golang_task.Order.{Order, cancelled, can_cancel, cancel}
use backend_golang_task.Gorm.Models.{Tables, get, orders}
use backend_golang_task.Gorm.Engine.{Gorm, IsGorm, Transacted, rewrite, same_id}
use backend_golang_task.Gorm.Orders.{find_order, updated_row}
use backend_golang_task.Gorm.Orders.Frame.{find_order-tables, find_order-no_events}
use backend_golang_task.Commands.Memory.{Handled}
use backend_golang_task.Commands.CancelOrder.Rows.{cancelling-rows}
use backend_golang_task.Commands.CancelOrder.{
  CancelOrderInput, cancelling, cancelled_with, cancel_found, handle, is_reserved, is_paid,
}

module _ (g : Gorm) where
  cancelling-cancelled :
      (r p : Bool) (reason : String) (o : Order) (w : g.World) {a : Unit {0}} {o' : Order}
      {w' : g.World}
      → cancelling g r p reason (o, w) ≡ (ok a, (o', w'))
      → (can_cancel o.status ≡ true)
        × (o'.status ≡ cancelled)
        × (o'.root.pending ≡ o.root.pending ++ order_event (order_cancelled o.id reason) ∷ [])
        × (o'.id ≡ o.id)
        × (o'.items ≡ o.items)
  unfolding cancelling cancel
  cancelling-cancelled r p reason o w h = ground arith

  -- How a call ends that began with the tables `d`.
  abbrev pub Cancels : CancelOrderInput → Tables → Handled × g.World → Type 0
  Cancels inp d (r, w') = Answers r.answer
    where
      Answers : Result Order → Type 0
      Answers (err _) = (g.tables w' ≡ d) × (r.published ≡ [])
      Answers (ok o) =
          (before : Order) × (read : g.World) × (w : g.World) × (find_order g inp.order_id read
            ≡ (ok before, w))
          × (g.tables read ≡ d)
          × (can_cancel before.status ≡ true)
          × (o.status ≡ cancelled)
          × (o.id ≡ before.id)
          × (o.items ≡ before.items)
          × (get orders (g.tables w')
              ≡ rewrite (same_id orders o.id) (updated_row o) (get orders d))
          × (r.published ≡ order_event (order_cancelled before.id inp.reason) ∷ [])

  cancelled_with-Cancels :
      (laws : IsGorm g) (inp : CancelOrderInput) (r p : Bool) (before : Order) (read w : g.World)
      (d : Tables) (t : Result (Unit {0}) × (Order × g.World))
      → find_order g inp.order_id read ≡ (ok before, w)
      → g.tables read ≡ d
      → Transacted g (cancelling g r p inp.reason) before d t
      → Cancels inp d (cancelled_with g t)
  cancelled_with-Cancels laws inp r p before read w d (err e, (o, w')) found at same = (same, refl)
  cancelled_with-Cancels laws inp r p before read w d (ok _, (o, w')) found at
        (begun, done, begins, ran, kept) =
      let (open_to, status, events, id, items) =
        cancelling-cancelled r p inp.reason before begun ran in
      (
        before,
        read,
        w,
        found,
        at,
        open_to,
        status,
        id,
        items,
        ap (get orders) kept
            ∙ cancelling-rows g laws r p inp.reason before begun ran
            ∙ ap (λ (d : Tables). rewrite (same_id orders o.id) (updated_row o) (get orders d))
                begins,
        events
            ∙ ap
                (λ (es : List Event). es ++ order_event (order_cancelled before.id inp.reason) ∷ [])
                (find_order-no_events g inp.order_id read found),
      )

  module _ (laws : IsGorm g) where
    cancel_found-Cancels :
        (inp : CancelOrderInput) (w : g.World) (x : Result Order × g.World)
        → find_order g inp.order_id w ≡ x
        → g.tables x.1 ≡ g.tables w
        → Cancels inp (g.tables w) (cancel_found g inp x.0 x.1)
    cancel_found-Cancels inp w (err e, w') found same = (same, refl)
    cancel_found-Cancels inp w (ok before, w') found same =
        let r = is_reserved before.status in
        let p = is_paid before.status in
        cancelled_with-Cancels laws inp r p before w w' (g.tables w) _ found refl
          (rw (← same) (laws.transaction_law (cancelling g r p inp.reason) before w'))

    -- A cancellation that fails, at whatever step, leaves every table as it was and publishes nothing.
    -- One that succeeds found an order that can be cancelled, answers with that order, cancelled, has
    -- written exactly that to the table of the orders, and publishes that one event.
    pub handle-Cancels :
        (inp : CancelOrderInput) (w : g.World) → Cancels inp (g.tables w) (handle g inp w)
    unfolding handle
    handle-Cancels inp w =
        cancel_found-Cancels inp w (find_order g inp.order_id w) refl
          (find_order-tables g laws inp.order_id w)
