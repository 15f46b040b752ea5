-- ===== src/Commands/PlaceOrder/Settlement.antt =====
-- What the two transactions of `process` (internal/application/command/place_order.go) leave when they
-- return no error.
use mathlib.Core.Path.{subst}
use backend_golang_task.Prelude.{◌≡◌, ap, ◌∙◌, [], ◌∷◌, arith}
use backend_golang_task.Errs.{Result, ok, err, Failure, text}
use backend_golang_task.Shared.Event.{
  payment_event, payment_succeeded, payment_failed, record_events,
}
use backend_golang_task.Order.{
  Order, reserved, fulfilled, failed, mark_reserved, mark_fulfilled, fail,
}
use backend_golang_task.Payment.{Payment, assign_id, mark_succeeded, mark_failed, new_payment}
use backend_golang_task.Payment
use backend_golang_task.Ports.{ChargeResult}
use backend_golang_task.Gorm.Models.{Tables, get, orders}
use backend_golang_task.Gorm.Engine.{Gorm, IsGorm, Transacted, rewrite, same_id}
use backend_golang_task.Gorm.Orders.{updated_row}
use backend_golang_task.Commands.PlaceOrder.Stock.{committed_line, released_line}
use backend_golang_task.Commands.PlaceOrder.Steps.{Settles, Settles-like}
use backend_golang_task.Commands.PlaceOrder.Effects.{succeeding-Settles, failing-Settles}
use backend_golang_task.Commands.PlaceOrder.Rows.{Writes, settling-Writes}
use backend_golang_task.Gorm.Payments.{create_payment}
use backend_golang_task.Commands.PlaceOrder.{reserving, failing, succeeding, settling}

module _ (g : Gorm) where
  -- What the variables hold after a transaction's body that returned no error.
  pub reserving-status :
      (o : Order) (w : g.World) {a : Unit {0}} {o' : Order} {w' : g.World}
      → reserving g (o, w) ≡ (ok a, (o', w'))
      → o'.status ≡ reserved
  unfolding reserving mark_reserved
  reserving-status o w h = ground arith

  succeeding-status :
      (res : ChargeResult) (o : Order) (p : Payment) (w : g.World) {a : Unit {0}} {o' : Order}
      {p' : Payment} {w' : g.World}
      → succeeding g res ((o, p), w) ≡ (ok a, ((o', p'), w'))
      → o'.status ≡ fulfilled
  unfolding succeeding mark_fulfilled
  succeeding-status res o p w h = ground arith

  failing-status :
      (e : Failure) (o : Order) (p : Payment) (w : g.World) {a : Unit {0}} {o' : Order}
      {p' : Payment} {w' : g.World}
      → failing g e ((o, p), w) ≡ (ok a, ((o', p'), w'))
      → o'.status ≡ failed
  unfolding failing fail
  failing-status e o p w h = ground arith

  abbrev Kept : Payment → Result Payment × g.World → Type 0
  Kept p (ok p', _) = (p'.status ≡ p.status) × (p'.provider_ref ≡ p.provider_ref)
  Kept p (err _, _) = Unit

  create_payment-Kept : (p : Payment) (w : g.World) → Kept p (create_payment g p w)
  unfolding create_payment assign_id
  create_payment-Kept p w = ground arith

  succeeding-payment :
      (res : ChargeResult) (o : Order) (p : Payment) (w : g.World) {a : Unit {0}} {o' : Order}
      {p' : Payment} {w' : g.World}
      → succeeding g res ((o, p), w) ≡ (ok a, ((o', p'), w'))
      → (p'.status ≡ Payment.succeeded) × (p'.provider_ref ≡ res.provider_ref)
  unfolding succeeding mark_succeeded
  succeeding-payment res o p w h = ground (
    arith,
    create_payment-Kept
        (record p {
          status = Payment.succeeded;
          provider_ref = res.provider_ref;
          failure_reason = "";
          root = record_events (payment_event (payment_succeeded p.id p.order_id) ∷ []) p.root;
        })
        w,
  )

  failing-payment :
      (e : Failure) (o : Order) (p : Payment) (w : g.World) {a : Unit {0}} {o' : Order}
      {p' : Payment} {w' : g.World}
      → failing g e ((o, p), w) ≡ (ok a, ((o', p'), w'))
      → p'.status ≡ Payment.failed
  unfolding failing mark_failed
  failing-payment e o p w h = ground (
    arith,
    create_payment-Kept
        (record p {
          status = Payment.failed;
          failure_reason = text e;
          root =
              record_events (payment_event (payment_failed p.id p.order_id (text e)) ∷ []) p.root;
        })
        w,
  )

  -- The row of the order, and of no other, is written over those of `d`.
  abbrev pub WrittenOver : Tables → Order → g.World → Type 0
  WrittenOver d o w' =
      get orders (g.tables w') ≡ rewrite (same_id orders o.id) (updated_row o) (get orders d)

  -- The end of the second transaction, which began with these variables and tables.
  abbrev pub Settled :
      Result ChargeResult → Tables → Result (Unit {0}) × ((Order × Payment) × g.World) → Type 0
  Settled (ok res) d (ok _, ((o, p), w')) =
      WrittenOver d o w'
      × Settles g committed_line d ((o, p), w')
      × (o.status ≡ fulfilled)
      × (p.status ≡ Payment.succeeded)
      × (p.provider_ref ≡ res.provider_ref)
  Settled (err _) d (ok _, ((o, p), w')) =
      WrittenOver d o w'
      × Settles g released_line d ((o, p), w')
      × (o.status ≡ failed)
      × (p.status ≡ Payment.failed)
  Settled _ d (err _, (_, w')) = g.tables w' ≡ d

  settling-WrittenOver :
      (laws : IsGorm g) (charged : Result ChargeResult) (o : Order) (p : Payment) (d : Tables)
      {o' : Order} {p' : Payment} {begun done w' : g.World}
      → g.tables begun ≡ d
      → settling g charged ((o, p), begun) ≡ (ok tt, ((o', p'), done))
      → g.tables w' ≡ g.tables done
      → WrittenOver d o' w'
  settling-WrittenOver laws charged o p d {o'} {p'} {begun} {done} {w'} begins ran kept =
      ap (get orders) kept
      ∙ subst (λ x. Writes g laws x ((o, p), begun)) ran
          (settling-Writes g laws charged ((o, p), begun))
      ∙ ap (λ (t : Tables). rewrite (same_id orders o'.id) (updated_row o') (get orders t)) begins

  pub Transacted-Settled :
      (laws : IsGorm g) (charged : Result ChargeResult) (o : Order) (p : Payment) (d : Tables)
      (r : Result (Unit {0}) × ((Order × Payment) × g.World))
      → Transacted g (settling g charged) (o, p) d r
      → Settled charged d r
  unfolding settling
  Transacted-Settled laws (ok res) o p d (ok _, ((o', p'), w')) (begun, done, begins, ran, kept) =
      let (status, ref) = succeeding-payment res o p begun ran in
      (
        settling-WrittenOver laws (ok res) o p d begins ran kept,
        Settles-like g committed_line (g.tables begun) d o' p' begins kept
            (succeeding-Settles g laws res ((o, p), begun) ran),
        succeeding-status res o p begun ran,
        status,
        ref,
      )
  Transacted-Settled laws (err e) o p d (ok _, ((o', p'), w')) (begun, done, begins, ran, kept) = (
    settling-WrittenOver laws (err e) o p d begins ran kept,
    Settles-like g released_line (g.tables begun) d o' p' begins kept
        (failing-Settles g laws e ((o, p), begun) ran),
    failing-status e o p begun ran,
    failing-payment e o p begun ran,
  )
  Transacted-Settled laws (ok res) o p d (err _, (_, w')) same = same
  Transacted-Settled laws (err e) o p d (err _, (_, w')) same = same
