-- ===== src/Gorm/AuditLogs.antt =====
-- internal/infrastructure/persistence/gormrepo/audit_repo.go.
use backend_golang_task.Action.{Action, pure, ◌>>=◌}
use backend_golang_task.Audit.{Entry}
use backend_golang_task.Gorm.Models.{AuditLogModel, audit_logs}
use backend_golang_task.Gorm.Engine.{Gorm}

abbrev audit_to_model : Entry → AuditLogModel
audit_to_model e = record {
  id = e.id;
  actor_id = e.actor_id;
  action = e.action;
  entity = e.entity;
  entity_id = e.entity_id;
  before = e.before;
  after = e.after;
  metadata = e.metadata;
  created_at = e.created_at;
}

module _ (g : Gorm) where
  open g use {World, create}

  unfoldable pub append : Entry → Action World (Unit {0})
  append e = do _ ← create audit_logs (audit_to_model e); pure tt
