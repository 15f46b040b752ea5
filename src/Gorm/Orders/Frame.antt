-- ===== src/Gorm/Orders/Frame.antt =====
-- What the calls of internal/infrastructure/persistence/gormrepo/order_repo.go leave alone, and what
-- an order that is read looks like.
use backend_golang_task.Prelude.{ℕ, ◌≡◌, String, str_eq, ◌==◌, [], arith}
use backend_golang_task.Errs.{ok}
use backend_golang_task.Order.{Order}
use backend_golang_task.Gorm.Models.{Tables, OrderModel, get, put, orders}
use backend_golang_task.Gorm.Engine.{Gorm, IsGorm}
use backend_golang_task.Gorm.Orders.{
  find_order, find_by_idempotency_key, update_order, updated_row, order_to_domain,
}

-- Every table but that of the orders is as before.
abbrev pub OnlyOrders : Tables → Tables → Type 0
OnlyOrders d d' = d' ≡ put orders (get orders d') d

order_to_domain-no_events :
    (m : OrderModel) {o : Order} → order_to_domain m ≡ ok o → o.root.pending ≡ []
unfolding order_to_domain
order_to_domain-no_events m h = ground arith

module _ (g : Gorm) (laws : IsGorm g) where
  pub find_order-tables : (id : ℕ) (w : g.World) → g.tables (find_order g id w).1 ≡ g.tables w
  unfolding find_order
  find_order-tables id w = ground (arith, laws.first_law orders (λ (m : OrderModel). m.id == id) w)

  pub find_by_idempotency_key-tables :
      (key : String) (w : g.World) → g.tables (find_by_idempotency_key g key w).1 ≡ g.tables w
  unfolding find_by_idempotency_key
  find_by_idempotency_key-tables key w =
      ground (arith, laws.first_law orders (λ (m : OrderModel). str_eq m.idempotency_key key) w)

  pub update_order-OnlyOrders :
      (o : Order) (w : g.World) → OnlyOrders (g.tables w) (g.tables (update_order g o w).1)
  unfolding update_order
  update_order-OnlyOrders o w =
      ground (arith, laws.updates_law orders (λ (m : OrderModel). m.id == o.id) (updated_row o) w)

pub find_order-no_events :
    (g : Gorm) (id : ℕ) (w : g.World) {o : Order} {w' : g.World}
    → find_order g id w ≡ (ok o, w')
    → o.root.pending ≡ []
unfolding find_order
find_order-no_events g id w h = grind (arith, order_to_domain-no_events)
