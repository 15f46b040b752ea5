-- ===== src/Audit.antt =====
-- internal/domain/audit/entry.go: a line of the audit log.
use backend_golang_task.Prelude.{ℕ, String, is_empty, Option}
use backend_golang_task.Errs.{Result, ok, new, validation, ◌>>◌, fail_if}

pub record Entry : Type 0 where
  pub id : ℕ
  pub actor_id : Option ℕ
  pub action : String
  pub entity : String
  pub entity_id : ℕ
  pub before : String
  pub after : String
  pub metadata : String
  pub created_at : ℕ

-- `now` is the clock's reading.
unfoldable pub new_entry :
    Option ℕ → String → String → ℕ → String → String → String → ℕ → Result Entry
new_entry actor_id action entity entity_id before after metadata now = do
  fail_if (is_empty action) (new validation "audit.action_required" "action must not be empty")
  fail_if (is_empty entity) (new validation "audit.entity_required" "entity must not be empty")
  ok (record {
    id = 0;
    actor_id = actor_id;
    action = action;
    entity = entity;
    entity_id = entity_id;
    before = before;
    after = after;
    metadata = metadata;
    created_at = now;
  })
