-- ===== src/Gorm/Models.antt =====
-- internal/infrastructure/persistence/gormrepo/models.go: the rows of the tables. The columns that
-- no code reads (`UpdatedAt`, `CreatedAt` of the inventories, the ids of the order items) are left
-- out. A row of `orders` stands here with its rows of `order_items`, which GORM
-- writes and, under `Preload`, reads along with it.
use backend_golang_task.Prelude.{
  ℕ, String, Bool, false, ◌||◌, ◌==◌, str_eq, if◌then◌else◌, Option, List,
}
use backend_golang_task.Prelude.Int.{ℤ}

pub record UserModel : Type 0 where
  pub id : ℕ
  pub email : String
  pub password_hash : String
  pub full_name : String
  pub role : String
  pub created_at : ℕ

pub record ProductModel : Type 0 where
  pub id : ℕ
  pub sku : String
  pub name : String
  pub description : String
  pub price_amount : ℤ
  pub currency : String
  pub active : Bool
  pub created_at : ℕ

pub record InventoryModel : Type 0 where
  pub id : ℕ
  pub product_id : ℕ
  pub available : ℤ
  pub reserved : ℤ
  pub reorder_level : ℤ
  pub version : ℤ

pub record OrderItemModel : Type 0 where
  pub product_id : ℕ
  pub sku : String
  pub name : String
  pub unit_price_amount : ℤ
  pub currency : String
  pub quantity : ℤ

pub record OrderModel : Type 0 where
  pub id : ℕ
  pub user_id : ℕ
  pub status : String
  pub total_amount : ℤ
  pub currency : String
  pub idempotency_key : String
  pub failure_reason : String
  pub items : List OrderItemModel
  pub created_at : ℕ

pub record PaymentModel : Type 0 where
  pub id : ℕ
  pub order_id : ℕ
  pub idempotency_key : String
  pub amount : ℤ
  pub currency : String
  pub status : String
  pub provider : String
  pub provider_ref : String
  pub attempts : ℤ
  pub failure_reason : String
  pub created_at : ℕ

pub record NotificationModel : Type 0 where
  pub id : ℕ
  pub user_id : Option ℕ
  pub category : String
  pub channel : String
  pub status : String
  pub subject : String
  pub payload : String
  pub attempts : ℤ
  pub failure_reason : String
  pub created_at : ℕ

pub record AuditLogModel : Type 0 where
  pub id : ℕ
  pub actor_id : Option ℕ
  pub action : String
  pub entity : String
  pub entity_id : ℕ
  pub before : String
  pub after : String
  pub metadata : String
  pub created_at : ℕ

-- `AllModels`, less the order items.
pub data Table : Type 0 where
  users products inventories orders payments notifications audit_logs : Table

abbrev pub Model : Table → Type 0
Model users = UserModel
Model products = ProductModel
Model inventories = InventoryModel
Model orders = OrderModel
Model payments = PaymentModel
Model notifications = NotificationModel
Model audit_logs = AuditLogModel

pub record Tables : Type 0 where
  pub users_rows : List UserModel
  pub products_rows : List ProductModel
  pub inventories_rows : List InventoryModel
  pub orders_rows : List OrderModel
  pub payments_rows : List PaymentModel
  pub notifications_rows : List NotificationModel
  pub audit_logs_rows : List AuditLogModel

abbrev pub get : (t : Table) → Tables → List (Model t)
get users d = d.users_rows
get products d = d.products_rows
get inventories d = d.inventories_rows
get orders d = d.orders_rows
get payments d = d.payments_rows
get notifications d = d.notifications_rows
get audit_logs d = d.audit_logs_rows

abbrev pub put : (t : Table) → List (Model t) → Tables → Tables
put users rows d = record d { users_rows = rows }
put products rows d = record d { products_rows = rows }
put inventories rows d = record d { inventories_rows = rows }
put orders rows d = record d { orders_rows = rows }
put payments rows d = record d { payments_rows = rows }
put notifications rows d = record d { notifications_rows = rows }
put audit_logs rows d = record d { audit_logs_rows = rows }

abbrev pub id_of : (t : Table) → Model t → ℕ
id_of users m = m.id
id_of products m = m.id
id_of inventories m = m.id
id_of orders m = m.id
id_of payments m = m.id
id_of notifications m = m.id
id_of audit_logs m = m.id

abbrev pub with_id : (t : Table) → ℕ → Model t → Model t
with_id users id m = record m { id = id }
with_id products id m = record m { id = id }
with_id inventories id m = record m { id = id }
with_id orders id m = record m { id = id }
with_id payments id m = record m { id = id }
with_id notifications id m = record m { id = id }
with_id audit_logs id m = record m { id = id }

-- Whether two rows would break a `uniqueIndex`.
abbrev pub duplicates : (t : Table) → Model t → Model t → Bool
duplicates users m r = str_eq m.email r.email
duplicates products m r = str_eq m.sku r.sku
duplicates inventories m r = m.product_id == r.product_id
duplicates orders m r = str_eq m.idempotency_key r.idempotency_key
duplicates payments m r = m.order_id == r.order_id || str_eq m.idempotency_key r.idempotency_key
duplicates notifications m r = false
duplicates audit_logs m r = false

-- `CreatedAt`, which GORM sets on a new row where the code has left it zero.
abbrev stamped : ℕ → ℕ → ℕ
stamped now created_at = if created_at == 0 then now else created_at

abbrev pub stamp : (t : Table) → ℕ → Model t → Model t
stamp users now m = record m { created_at = stamped now m.created_at }
stamp products now m = record m { created_at = stamped now m.created_at }
stamp inventories now m = m
stamp orders now m = record m { created_at = stamped now m.created_at }
stamp payments now m = record m { created_at = stamped now m.created_at }
stamp notifications now m = record m { created_at = stamped now m.created_at }
stamp audit_logs now m = record m { created_at = stamped now m.created_at }
