-- ===== src/Domain/Session.antt =====
-- aquaops/db/session.py, and the SQL statements that the services send through a session.
use aquaops_copilot.Common.{
  ℕ, String, Bool, none, some, [], ◌∷◌, ◌++◌, if◌then◌else◌, Outcome, ok, err,
}
use aquaops_copilot.Domain.Models.{TaskState, Task, AuditEvent, Db, put_task}

-- The exceptions that the services and the worker raise.
pub data Failure : Type 0 where
  task_not_found concurrent_transition already_processed already_claimed claim_lost : Failure
  integrity_error assertion_error invalid_request invalid_worker runtime_unavailable : Failure
  worker_crashed : Failure
  invalid_transition : TaskState → TaskState → Failure
  ingestion_error : Bool → String → Failure

abbrev pub Statement : Type 0 → Type 0
Statement A = Db → Outcome Failure A × Db

-- UPDATE tasks SET … WHERE id = key AND …, with its row count. The key is the primary key, so
-- at most one row changes.
unfoldable pub update_task : String → (Task → Bool) → (Task → Task) → Db → Db × ℕ
update_task key where_ values db = elim (db.tasks key) [
  | none ↦ (db, 0)
  | some t ↦ if where_ t then (put_task db key (values t), 1) else (db, 0)
]

unfoldable pub add_event : AuditEvent → Db → Db
add_event e db = record db { audit_events = db.audit_events ++ e ∷ [] }

abbrev settle : {A : Type 0} → Db → Outcome Failure A × Db → Outcome Failure A × Db
settle db (ok a, db') = (ok a, db')
settle db (err e, db') = (err e, db)

-- Commit on success, roll back on any exception.
unfoldable pub session_scope : {A : Type 0} → Statement A → Statement A
session_scope body db = settle db (body db)
