-- ===== src/EventHandlers/Audited.antt =====
-- What the audit log says of an event (internal/application/eventhandler/audit.go).
use backend_golang_task.Prelude.{
  ℕ, ◌≡◌, ◌≢◌, refl, sym, subst, is_empty, false, String, none, [], ◌∷◌, ◌++◌, arith,
}
use backend_golang_task.Action.{pure, ◌>>=◌}
use backend_golang_task.Errs.{Result, ok, err}
use backend_golang_task.Shared.Event.{
  Event, order_event, payment_event, inventory_event, notification_event, product_event, user_event,
  event_name, aggregate_id, order_placed, order_reserved, order_paid, order_fulfilled,
  order_cancelled, order_failed, payment_initiated, payment_succeeded, payment_refunded,
  payment_failed, inventory_reserved, inventory_released, inventory_committed, inventory_restocked,
  notification_queued, notification_sent, notification_failed, product_created, product_repriced,
  user_registered,
}
use backend_golang_task.Audit.{Entry, new_entry}
use backend_golang_task.Gorm.Models.{Tables, AuditLogModel, get, put, stamp, audit_logs}
use backend_golang_task.Gorm.Engine.{Gorm, IsGorm, Created}
use backend_golang_task.Gorm.AuditLogs.{append}
use backend_golang_task.EventHandlers.{entity_of, audit_handler}

-- The package of the aggregate that an event is about.
abbrev aggregate_of : Event → String
aggregate_of (order_event _) = "order"
aggregate_of (payment_event _) = "payment"
aggregate_of (inventory_event _) = "inventory"
aggregate_of (notification_event _) = "notification"
aggregate_of (product_event _) = "product"
aggregate_of (user_event _) = "user"

entity_of_lem : (e : Event) → entity_of (event_name e) ≡ aggregate_of e
unfolding entity_of
entity_of_lem (order_event (order_placed _ _ _ _)) = refl
entity_of_lem (order_event (order_reserved _)) = refl
entity_of_lem (order_event (order_paid _)) = refl
entity_of_lem (order_event (order_fulfilled _)) = refl
entity_of_lem (order_event (order_cancelled _ _)) = refl
entity_of_lem (order_event (order_failed _ _)) = refl
entity_of_lem (payment_event (payment_initiated _ _)) = refl
entity_of_lem (payment_event (payment_succeeded _ _)) = refl
entity_of_lem (payment_event (payment_refunded _ _)) = refl
entity_of_lem (payment_event (payment_failed _ _ _)) = refl
entity_of_lem (inventory_event (inventory_reserved _ _)) = refl
entity_of_lem (inventory_event (inventory_released _ _)) = refl
entity_of_lem (inventory_event (inventory_committed _ _)) = refl
entity_of_lem (inventory_event (inventory_restocked _ _)) = refl
entity_of_lem (notification_event (notification_queued _)) = refl
entity_of_lem (notification_event (notification_sent _)) = refl
entity_of_lem (notification_event (notification_failed _ _)) = refl
entity_of_lem (product_event (product_created _ _)) = refl
entity_of_lem (product_event (product_repriced _)) = refl
entity_of_lem (user_event (user_registered _ _)) = refl

-- The line of the log that an event leaves.
abbrev pub line : ℕ → ℕ → Event → AuditLogModel
line id now e = record {
  id = id;
  actor_id = none;
  action = event_name e;
  entity = aggregate_of e;
  entity_id = aggregate_id e;
  before = "";
  after = "";
  metadata = "";
  created_at = now;
}

aggregated : (e : Event) → is_empty (aggregate_of e) ≡ false
aggregated (order_event e) = refl
aggregated (payment_event e) = refl
aggregated (inventory_event e) = refl
aggregated (notification_event e) = refl
aggregated (product_event e) = refl
aggregated (user_event e) = refl

named : (e : Event) → is_empty (event_name e) ≡ false
named (order_event (order_placed _ _ _ _)) = refl
named (order_event (order_reserved _)) = refl
named (order_event (order_paid _)) = refl
named (order_event (order_fulfilled _)) = refl
named (order_event (order_cancelled _ _)) = refl
named (order_event (order_failed _ _)) = refl
named (payment_event (payment_initiated _ _)) = refl
named (payment_event (payment_succeeded _ _)) = refl
named (payment_event (payment_refunded _ _)) = refl
named (payment_event (payment_failed _ _ _)) = refl
named (inventory_event (inventory_reserved _ _)) = refl
named (inventory_event (inventory_released _ _)) = refl
named (inventory_event (inventory_committed _ _)) = refl
named (inventory_event (inventory_restocked _ _)) = refl
named (notification_event (notification_queued _)) = refl
named (notification_event (notification_sent _)) = refl
named (notification_event (notification_failed _ _)) = refl
named (product_event (product_created _ _)) = refl
named (product_event (product_repriced _)) = refl
named (user_event (user_registered _ _)) = refl

abbrev entry_of : ℕ → Event → Entry
entry_of now e = record {
  id = 0;
  actor_id = none;
  action = event_name e;
  entity = aggregate_of e;
  entity_id = aggregate_id e;
  before = "";
  after = "";
  metadata = "";
  created_at = now;
}

entered :
    (now : ℕ) (e : Event)
    → new_entry none (event_name e) (entity_of (event_name e)) (aggregate_id e) "" "" "" now
      ≡ ok (entry_of now e)
unfolding new_entry
entered now e = grind (arith, entity_of_lem e, named e, aggregated e)

abbrev Logs : (g : Gorm) → ℕ → Event → Tables → Result (Unit {0}) × g.World → Type 0
Logs g now e d (err _, w') = g.tables w' ≡ d
Logs g now e d (ok _, w') =
    (id : ℕ) × (at : ℕ) × (id ≢ 0)
    × (g.tables w'
        ≡ put audit_logs (get audit_logs d ++ stamp audit_logs at (line id now e) ∷ []) d)

module _ (g : Gorm) (laws : IsGorm g) where
  append-Logs :
      (now : ℕ) (e : Event) (w : g.World) → Logs g now e (g.tables w) (append g (entry_of now e) w)
  unfolding append
  append-Logs now e w =
      go (g.create audit_logs (line 0 now e) w) (laws.create_law audit_logs (line 0 now e) w)
    where
      go :
          (x : Result ℕ × g.World)
          → Created g audit_logs (line 0 now e) (g.tables w) x
          → Logs g now e
              (g.tables w)
              (◌>>=◌ (λ (_ : g.World). x) (λ (_ : ℕ). pure {S = g.World} tt) w)
      go (ok id, w') (fresh, _, _, at, rows) = (id, at, fresh, rows)
      go (err e, w') same = same

  -- Every event leaves exactly one line in the audit log, or none where the database fails: it names
  -- the event, its aggregate by the package and the id, and nothing else changes.
  audit_handler-Logs :
      (now : ℕ) (e : Event) (w : g.World) → Logs g now e (g.tables w) (audit_handler g now e w)
  unfolding audit_handler
  audit_handler-Logs now e w =
      subst
        (λ (r : Result Entry).
          Logs g now e (g.tables w) (◌>>=◌ (λ (w₁ : g.World). (r, w₁)) (append g) w))
        (sym (entered now e)) (append-Logs now e w)
