-- ===== src/Commands/PlaceOrder/Outcome.antt =====
-- How the processing of a new order ends (`process` of
-- internal/application/command/place_order.go), with any gateway and a database that may fail at any
-- call.
use backend_golang_task.Prelude.{◌≡◌, ◌⊎◌, Option, some, none, List}
use backend_golang_task.Errs.{Result, ok, err}
use backend_golang_task.Order.{Order, Item, reserved, fulfilled, failed}
use backend_golang_task.Payment.{Payment, assign_id, mark_succeeded, mark_failed, new_payment}
use backend_golang_task.Payment
use backend_golang_task.Ports.{PaymentGateway}
use backend_golang_task.Gorm.Models.{Tables, InventoryModel}
use backend_golang_task.Gorm.Engine.{Gorm}
use backend_golang_task.Commands.PlaceOrder.{reserving, Processed}
use backend_golang_task.Commands.PlaceOrder.Stock.{committed_line, released_line}
use backend_golang_task.Commands.PlaceOrder.Steps.{Reserves, Settles}
use backend_golang_task.Commands.PlaceOrder.Placed.{Places}
use backend_golang_task.Commands.PlaceOrder.Settlement.{WrittenOver}

module _ (g : Gorm) where
  -- The tables are as a first transaction that committed has left them, with this order: its row was
  -- added to the orders, its lines are reserved in the stock, and no payment was added.
  abbrev Reserved : Order → Tables → Order → g.World → Type 0
  Reserved ord d o w' =
      (begun : g.World) × (done : g.World) × (g.tables begun ≡ d)
      × (reserving g (ord, begun) ≡ (ok tt, (o, done)))
      × (g.tables w' ≡ g.tables done)
      × Reserves g d (o, w')
      × Places g ord d (o, w')

  -- The first transaction committed, with a reserved order; then the row of the order was written, the
  -- row of the payment was added, and every line moved the stock by `step`.
  abbrev Finished :
      (Item → List InventoryModel → List InventoryModel)
      → Order
      → Tables
      → Order
      → Payment
      → g.World
      → Type 0
  Finished step ord d o' p' w' =
      (o : Order) × (w : g.World) × (o.status ≡ reserved)
      × Reserved ord d o w
      × WrittenOver g (g.tables w) o' w'
      × Settles g step (g.tables w) ((o', p'), w')

module _ (g : Gorm) (gw : PaymentGateway) where
  -- How the processing of `ord` ends, begun with the tables `d` and the gateway in state `s`.
  abbrev pub Ends : Order → Tables → gw.State → Processed × g.World × gw.State → Type 0
  Ends ord d s (r, w', s') = EndsWith r.payment r.outcome
    where
      EndsWith : Option Payment → Result (Unit {0}) → Type 0
      EndsWith none (ok _) = ⊥
      EndsWith none (err _) =
          (s' ≡ s)
          × ((g.tables w' ≡ d) ⊎ ((r.order.status ≡ reserved) × Reserved g ord d r.order w'))
      EndsWith (some p) (ok _) =
          Finished g committed_line ord d r.order p w'
          × (r.order.status ≡ fulfilled)
          × (p.status ≡ Payment.succeeded)
      EndsWith (some p) (err _) =
          (Finished g released_line ord d r.order p w'
            × (r.order.status ≡ failed)
            × (p.status ≡ Payment.failed))
          ⊎ ((o : Order) × (o.status ≡ reserved) × Reserved g ord d o w')
