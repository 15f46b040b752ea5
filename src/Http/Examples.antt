-- ===== src/Http/Examples.antt =====
-- Requests on the sample database by another user than the order's.
use backend_golang_task.Prelude.{◌≡◌, ◌≢◌, refl, arith}
use backend_golang_task.Errs.{ok}
use backend_golang_task.Shared.Money.{must_money}
use backend_golang_task.Order.{new_item, read_status}
use backend_golang_task.Gorm.InMemory.{in_memory}
use backend_golang_task.Gorm.Orders.{find_order, order_to_domain, items_to_domain, item_to_domain}
use backend_golang_task.Gorm.Examples.{sample}
use backend_golang_task.Commands.Examples.{read_old}
use backend_golang_task.Http.{Caller}

another_user : read_old.user_id ≢ 8
another_user = omega arith

abbrev stranger : Caller
stranger = record { user_id = 8; role = "customer" }

no_admin : stranger.role ≢ "admin"
no_admin e = cc

find_order-sample : find_order in_memory 4 sample ≡ (ok read_old, sample)
unfolding find_order order_to_domain items_to_domain item_to_domain must_money new_item read_status
find_order-sample = refl
