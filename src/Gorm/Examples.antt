-- ===== src/Gorm/Examples.antt =====
-- A database with one product, of which two units are held for a reserved order and five are free.
use backend_golang_task.Prelude.{◌≡◌, refl, ◌≤◌, ◌-◌, min, List, [], ◌∷◌, some, true}
use backend_golang_task.Prelude.Int.{pos, int_laws}
use backend_golang_task.Shared.Money.{Money}
use backend_golang_task.Order.{Order, Item, placed}
use backend_golang_task.Gorm.Models.{Tables, ProductModel, InventoryModel, OrderModel}
use backend_golang_task.Gorm.InMemory.{in_memory, in_memory-IsGorm}
use backend_golang_task.Gorm.Inventories.Atomic.{
  IsSound, Call, reserves, releases, commits, restocks, run, run-IsSound,
}
use backend_golang_task.Gorm.Inventories.Contention.{contend, units, contend_winners}

abbrev pub pen : ProductModel
pen = record {
  id = 1;
  sku = "A";
  name = "pen";
  description = "";
  price_amount = pos 150;
  currency = "USD";
  active = true;
  created_at = 50;
}

abbrev pens : InventoryModel
pens = record {
  id = 1;
  product_id = 1;
  available = pos 5;
  reserved = pos 2;
  reorder_level = pos 1;
  version = pos 0;
}

abbrev pub old_order : OrderModel
old_order = record {
  id = 4;
  user_id = 7;
  status = "reserved";
  total_amount = pos 300;
  currency = "USD";
  idempotency_key = "old";
  failure_reason = "";
  items =
      record {
        product_id = 1;
        sku = "A";
        name = "pen";
        unit_price_amount = pos 150;
        currency = "USD";
        quantity = pos 2;
      }
      ∷ [];
  created_at = 60;
}

abbrev pub sample : Tables
sample = record {
  users_rows = [];
  products_rows = pen ∷ [];
  inventories_rows = pens ∷ [];
  orders_rows = old_order ∷ [];
  payments_rows = [];
  notifications_rows = [];
  audit_logs_rows = [];
}

abbrev pub pen_price : Money
pen_price = record { amount = pos 150; currency = "USD" }

abbrev one_pen : List Item
one_pen =
    record { product_id = 1; sku = "A"; name = "pen"; unit_price = pen_price; quantity = pos 1 }
    ∷ []

abbrev pub new_pen : Order
new_pen = placed 7 one_pen "new" pen_price 100

pens-IsSound : IsSound (pens ∷ [])
pens-IsSound = (omega int_laws, omega int_laws, refl, tt)

abbrev requests : List Call
requests = reserves 1 4 ∷ commits 1 2 ∷ reserves 1 3 ∷ releases 1 1 ∷ restocks 1 10 ∷ []

run-IsSound_example : IsSound (run in_memory requests sample).inventories_rows
run-IsSound_example = run-IsSound in_memory in_memory-IsGorm requests sample pens-IsSound

contend_winners_example :
    ((contend in_memory 1 8 sample).0.errors ≤ 8)
    × ((contend in_memory 1 8 sample).0.winners
        ≡ min (8 - (contend in_memory 1 8 sample).0.errors) 5)
    × (units 1 (contend in_memory 1 8 sample).1.inventories_rows
        ≡ some (pos (5 - (contend in_memory 1 8 sample).0.winners)))
contend_winners_example = contend_winners in_memory in_memory-IsGorm 1 8 5 sample pens-IsSound refl
