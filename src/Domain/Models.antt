-- ===== src/Domain/Models.antt =====
-- aquaops/domain/models.py: the rows that the services read and write.
-- `tasks` is keyed by the primary key. Columns that no modelled code reads (the id and the
-- creation time of an audit event, creation times) are left out.
use aquaops_copilot.Common.{ℕ, String, Bool, true, false, Option, some, List, if◌then◌else◌, str_eq}

-- services.py, TaskState
pub data TaskState : Type 0 where
  queued running succeeded failed : TaskState

pub TaskState-discrete : Discrete TaskState
TaskState-discrete = hlevel

abbrev pub state_eq : TaskState → TaskState → Bool
state_eq queued queued = true
state_eq running running = true
state_eq succeeded succeeded = true
state_eq failed failed = true
state_eq _ _ = false

-- `worker_attempt` is -1 until the first claim: `unclaimed` stands for that value.
pub data Attempt : Type 0 where
  unclaimed : Attempt
  attempt : ℕ → Attempt

-- Times are microseconds since the epoch, in UTC.
pub record Task : Type 0 where
  pub id : String
  pub owner_id : String
  pub agent_run_id : Option String
  pub state : TaskState
  pub request_id : String
  pub retry_count : ℕ
  pub error_class : Option String
  pub worker_token : Option String
  pub worker_attempt : Attempt
  pub worker_lease_token : Option String
  pub worker_lease_expires_at : Option ℕ

pub record AuditEvent : Type 0 where
  pub action : String
  pub request_id : String
  pub actor_id : String
  pub entity_type : String
  pub entity_id : String

pub record Case : Type 0 where
  pub id : String
  pub owner_id : String
  pub external_key : String
  pub title : String

pub record Db : Type 0 where
  pub tasks : String → Option Task
  pub cases : List Case
  pub audit_events : List AuditEvent

-- The row `t` is now what the key `k` finds.
abbrev pub put_task : Db → String → Task → Db
put_task db k t = record db { tasks = λ j. if str_eq k j then some t else db.tasks j }
