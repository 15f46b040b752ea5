-- ===== src/Gorm/Orders/Lists.antt =====
-- How internal/infrastructure/persistence/gormrepo/order_repo.go reads a list of rows.
use backend_golang_task.Prelude.{suc, ◌≡◌, refl, List, [], ◌∷◌, length, arith}
use backend_golang_task.Errs.{Result, ok, err}
use backend_golang_task.Errs
use backend_golang_task.Order.{Order}
use backend_golang_task.Gorm.Models.{OrderModel}
use backend_golang_task.Gorm.Orders.{order_to_domain, orders_to_domain}

pub orders_to_domain-length :
    (ms : List OrderModel) (os : List Order) → orders_to_domain ms ≡ ok os → length os ≡ length ms
unfolding orders_to_domain
orders_to_domain-length [] os h = grind arith
orders_to_domain-length (m ∷ ms) os h =
    go (order_to_domain m) (orders_to_domain ms) h (orders_to_domain-length ms)
  where
    go :
        (r : Result Order) (rs : Result (List Order))
        → Errs.◌>>=◌ r (λ o. Errs.◌>>=◌ rs λ os. ok (o ∷ os)) ≡ ok os
        → ((os' : List Order) → rs ≡ ok os' → length os' ≡ length ms)
        → length os ≡ suc (length ms)
    go (ok o) (ok os') e rest = grind (arith, rest os' refl)
    go (ok o) (err x) e rest = cc
    go (err x) rs e rest = cc
