-- ===== src/Tasks/Worker.antt =====
-- jobs.py: `configure_worker_runtime` and the Celery task `ingest_public_document`.
use aquaops_copilot.Common.{
  ℕ, ◌^◌, min, String, true, Option, none, some, if◌then◌else◌, Outcome, ok, err, ltb, leb, str_eq,
}
use aquaops_copilot.Domain.Models.{Db}
use aquaops_copilot.Domain.Session.{Failure, ingestion_error, worker_crashed}
use aquaops_copilot.Tasks.Attempt.{RunArgs, Surroundings, run_public_ingestion}

-- MAX_INGESTION_RETRIES
abbrev pub max_ingestion_retries : ℕ
max_ingestion_retries = 2

-- What a message delivery carries: the arguments, the request's id and its count of retries,
-- and the lease token that `uuid4` draws.
pub record Message : Type 0 where
  pub task_id : String
  pub source_id : String
  pub request_id : Option String
  pub retries : ℕ
  pub lease_token : String

-- `public_ingestion_failed` is the one exception that the transport sees of a failed attempt.
pub data Delivery : Type 0 where
  completed : String → Delivery
  -- the worker's process ends: no `except` clause takes a SystemExit
  worker_lost : Delivery
  retry_in : ℕ → Delivery
  public_ingestion_failed runtime_unavailable identity_unavailable : Delivery

abbrev pub run_args : Message → String → RunArgs
run_args m worker_token = record {
  task_id = m.task_id;
  source_id = m.source_id;
  worker_token = worker_token;
  lease_token = some m.lease_token;
  retry_count = m.retries;
  final_attempt = leb max_ingestion_retries m.retries;
}

-- The `except` clauses.
abbrev pub delivered : ℕ → Outcome Failure String → Delivery
delivered retries (ok task_id) = completed task_id
delivered retries (err (ingestion_error true name)) =
    if ltb retries max_ingestion_retries
    then retry_in (min (2 ^ retries) 4)
    else public_ingestion_failed
delivered retries (err worker_crashed) = worker_lost
delivered retries (err _) = public_ingestion_failed

abbrev pub identity : Option String → String
identity none = ""
identity (some id) = id

attempted : Message → Surroundings → Db → Delivery × Db
attempted m w db =
    let r = run_public_ingestion (run_args m (identity m.request_id)) w db in
    (delivered m.retries r.outcome, r.db)

abbrev identified : Message → Surroundings → Db → Delivery × Db
identified m w db =
    if str_eq (identity m.request_id) "" then (identity_unavailable, db) else attempted m w db

-- `runtime` is `none` until `configure_worker_runtime` has set the factory and the handler.
unfoldable pub ingest_public_document : Message → Option Surroundings → Db → Delivery × Db
unfolding attempted
ingest_public_document m none db = (runtime_unavailable, db)
ingest_public_document m (some w) db = identified m w db
