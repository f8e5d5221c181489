-- ===== src/Tasks/Attempt.antt =====
-- jobs.py: `run_public_ingestion`, one attempt of one delivery.
use aquaops_copilot.Common.{
  ℕ, zero, suc, ◌+◌, String, Bool, ◌&&◌, not, Option, none, some, List, [], ◌∷◌, if◌then◌else◌,
  Outcome, ok, err, ◌>>=◌, ◌>>◌, require, str_eq, ◌≡◌, refl, arith,
}
use aquaops_copilot.Observability.{Payload, no_details, event_payload}
use aquaops_copilot.Domain.Models.{TaskState, running, succeeded, failed, Task, Db}
use aquaops_copilot.Domain.Session.{
  Failure, invalid_request, invalid_worker, ingestion_error, worker_crashed,
}
use aquaops_copilot.Tasks.Identifiers.{is_safe_uuid, is_safe_source_id, is_safe_worker_token}
use aquaops_copilot.Tasks.Claim.{ClaimArgs, claim_task}
use aquaops_copilot.Tasks.Finish.{FinishArgs, resolve_expected, finish_attempt}

pub record RunArgs : Type 0 where
  pub task_id : String
  pub source_id : String
  pub worker_token : String
  pub lease_token : Option String
  pub retry_count : ℕ
  pub final_attempt : Bool

-- An exception of the ingestion handler or of the cache: is it a TimeoutError, and its class name.
pub record Raised : Type 0 where
  pub is_timeout : Bool
  pub class_name : String

-- How the handler ends: it returns, raises an `Exception`, or is left by another `BaseException`,
-- such as the SystemExit of a worker that is stopped.
pub data Handled : Type 0 where
  returned : Handled
  raised : Raised → Handled
  crashed : Handled

-- What the attempt meets outside this module: the clock at its two transactions, what other
-- sessions commit while the handler runs, the handler, the cache
-- invalidator (`none`: there is none) and whether there is an event logger.
pub record Surroundings : Type 0 where
  pub claimed_at : ℕ
  pub finished_at : ℕ
  pub meanwhile : Db → Db
  pub ingest : String → Handled
  pub invalidate_cache : Option (Option Raised)
  pub logs_events : Bool

pub record RunResult : Type 0 where
  pub outcome : Outcome Failure String
  pub db : Db
  pub logged : List Payload

-- `name[:n]`
abbrev pub take_text : ℕ → String → String
take_text zero s = String.[]
take_text (suc n) String.[] = String.[]
take_text (suc n) (String.◌∷◌ c s) = String.◌∷◌ c (take_text n s)

-- `lease_token or worker_token`
abbrev pub resolved_lease_token : RunArgs → String
resolved_lease_token a = elim a.lease_token [
  | none ↦ a.worker_token
  | some t ↦ if str_eq t "" then a.worker_token else t
]

unfoldable pub validate_message : RunArgs → Outcome Failure Unit
validate_message a = do
  require (is_safe_uuid a.task_id) invalid_request
  require (is_safe_source_id a.source_id) invalid_request
  require (is_safe_worker_token a.worker_token) invalid_worker
  require (is_safe_worker_token (resolved_lease_token a)) invalid_worker

abbrev pub claim_of : RunArgs → Surroundings → ClaimArgs
claim_of a w = record {
  task_id = a.task_id;
  worker_token = a.worker_token;
  lease_token = resolved_lease_token a;
  retry_count = a.retry_count;
  now = w.claimed_at;
}

-- The three calls of `_finish_attempt`.
abbrev pub finish_of :
    RunArgs → Surroundings → TaskState → String → ℕ → Option String → Option ℕ → FinishArgs
finish_of a w target action retry_count error_class expected = record {
  task_id = a.task_id;
  worker_token = a.worker_token;
  lease_token = resolved_lease_token a;
  target = target;
  action = action;
  retry_count = retry_count;
  error_class = error_class;
  expected_attempt = resolve_expected expected retry_count;
  now = w.finished_at;
}

abbrev pub failing : RunArgs → Surroundings → Raised → FinishArgs
failing a w e =
    finish_of a w failed "task.failed" a.retry_count (some (take_text 120 e.class_name)) none

abbrev pub retrying : RunArgs → Surroundings → FinishArgs
retrying a w =
    finish_of a w running "task.retry_scheduled" (a.retry_count + 1) none (some a.retry_count)

abbrev pub succeeding : RunArgs → Surroundings → FinishArgs
succeeding a w = finish_of a w succeeded "task.succeeded" a.retry_count none none

abbrev pub retryable : RunArgs → Raised → Bool
retryable a e = e.is_timeout && not a.final_attempt

-- The call of `_finish_attempt` in the `except` clause.
abbrev pub ending : RunArgs → Surroundings → Raised → FinishArgs
ending a w e = if retryable a e then retrying a w else failing a w e

-- `_request_id_for_task` inside the handler that swallows every exception.
abbrev cache_event : Option Task → Raised → List Payload
cache_event none e = []
cache_event (some t) e =
    event_payload "cache.invalidate_failed" t.request_id
      (record no_details { error_class = some (take_text 120 e.class_name) })
    ∷ []

abbrev invalidated : RunArgs → Surroundings → Option (Option Raised) → Db → List Payload
invalidated a w none db = []
invalidated a w (some none) db = []
invalidated a w (some (some e)) db =
    if w.logs_events then cache_event (db.tasks a.task_id) e else []

-- The handler has raised: record it, and raise again unless the claim is lost.
after_raise : RunArgs → Surroundings → Raised → Db → RunResult
after_raise a w e db =
    let (r, db') = finish_attempt (ending a w e) db in
    record {
      outcome = r >>= λ _. err (ingestion_error e.is_timeout e.class_name);
      db = db';
      logged = [];
    }

abbrev reported : RunArgs → Surroundings → Outcome Failure Unit → Db → RunResult
reported a w (err e) db = record { outcome = err e; db = db; logged = [] }
reported a w (ok _) db = record {
  outcome = ok a.task_id;
  db = db;
  logged = invalidated a w w.invalidate_cache db;
}

after_return : RunArgs → Surroundings → Db → RunResult
after_return a w db = let (r, db') = finish_attempt (succeeding a w) db in reported a w r db'

-- From the handler's outcome on.
unfoldable pub complete : RunArgs → Surroundings → Handled → Db → RunResult
unfolding after_raise after_return
complete a w returned db = after_return a w db
complete a w (raised e) db = after_raise a w e db
complete a w crashed db = record { outcome = err worker_crashed; db = db; logged = [] }

abbrev claimed : RunArgs → Surroundings → Outcome Failure Unit × Db → RunResult
claimed a w (err e, db) = record { outcome = err e; db = db; logged = [] }
claimed a w (ok _, db) = complete a w (w.ingest a.source_id) (w.meanwhile db)

abbrev validated : RunArgs → Surroundings → Outcome Failure Unit → Db → RunResult
validated a w (err e) db = record { outcome = err e; db = db; logged = [] }
validated a w (ok _) db = claimed a w (claim_task (claim_of a w) db)

unfoldable pub run_public_ingestion : RunArgs → Surroundings → Db → RunResult
run_public_ingestion a w db = validated a w (validate_message a) db

-- The database that each ending leaves is that of its `_finish_attempt`.
pub db-complete_return :
    (a : RunArgs) (w : Surroundings) (db : Db)
    → (complete a w returned db).db ≡ (finish_attempt (succeeding a w) db).1
unfolding complete
db-complete_return a w db = ground arith

pub db-complete_raise :
    (a : RunArgs) (w : Surroundings) (e : Raised) (db : Db)
    → (complete a w (raised e) db).db ≡ (finish_attempt (ending a w e) db).1
unfolding complete
db-complete_raise a w e db = refl
