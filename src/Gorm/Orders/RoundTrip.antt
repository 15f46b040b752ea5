-- ===== src/Gorm/Orders/RoundTrip.antt =====
-- What internal/infrastructure/persistence/gormrepo/order_repo.go writes, it reads back.
use Prim.Native.String.{len}
use backend_golang_task.Prelude.{ℕ, ◌≡◌, ◌≢◌, some, All, find?}
use backend_golang_task.Prelude.Int.{pos, ◌≤ℤ◌, ◌<ℤ◌}
use backend_golang_task.Errs.{Result, ok, err}
use backend_golang_task.Shared.Event.{no_events}
use backend_golang_task.Shared.Money.{Money}
use backend_golang_task.Order.{Order, Item, Status, other}
use backend_golang_task.Gorm.Models.{OrderModel, orders, get, Tables}
use backend_golang_task.Gorm.Engine.{Gorm, same_id}
use backend_golang_task.Gorm.Orders.{order_to_domain}

abbrev IsMoney : Money → Type 0
IsMoney m = (pos 0 ≤ℤ m.amount) × (len m.currency ≡ 3)

abbrev IsItem : Item → Type 0
IsItem i = (pos 0 <ℤ i.quantity) × IsMoney i.unit_price

abbrev pub IsKnown : Status → Type 0
IsKnown (other _) = ⊥
IsKnown _ = Unit

-- What a row can hold: lines of positive quantity, amounts that are not negative, currencies of
-- three letters, and one of the six statuses.
pub record IsStorable (o : Order) : Type 0 where
  pub lines : All IsItem o.items
  pub priced : IsMoney o.total
  pub known : IsKnown o.status

-- The order that a new row reads as: as it was written, under its id and the time of the insertion,
-- with no pending events.
abbrev pub stored : ℕ → ℕ → Order → Order
stored id now o = record o { root = no_events; id = id; created_at = now }

module _ (g : Gorm) (o : Order) where
  -- What `Create` does with a new order: the row under its new id reads as that order but for the time of
  -- its creation; or it fails and leaves the tables alone.
  abbrev pub Stores : Tables → Result Order × g.World → Type 0
  Stores d (ok o', w') =
      (now : ℕ) × (row : OrderModel) × (o' ≡ record o { id = o'.id })
      × (o'.id ≢ 0)
      × (find? (same_id orders o'.id) (get orders (g.tables w')) ≡ some row)
      × (order_to_domain row ≡ ok (stored o'.id now o))
  Stores d (err _, w') = g.tables w' ≡ d
