-- ===== src/Tasks/Samples.antt =====
-- Runs of the worker on one task, and the theorems at these inputs.
use aquaops_copilot.Common.{
  ◌<◌, ◌^◌, ◌↔◌, ◌⊎◌, String, ◌≡◌, ◌≢◌, refl, none, some, List, [], ◌∷◌, ok, err, arith, eq_iff,
  str_eq, if◌then◌else◌, true, false,
}
use aquaops_copilot.Domain.Models.{queued, running, unclaimed, Task, Db}
use aquaops_copilot.Domain.Session.{Failure, claim_lost}
use aquaops_copilot.Tasks.Identifiers.{is_safe_uuid, is_safe_source_id, is_safe_worker_token}
use aquaops_copilot.Tasks.Claim.{ClaimArgs, claim_task}
use aquaops_copilot.Tasks.Finish.{FinishArgs, finish_attempt}
use aquaops_copilot.Tasks.Attempt.{
  RunArgs, Surroundings, Raised, raised, crashed, validate_message, claim_of, succeeding, complete,
  run_public_ingestion,
}
use aquaops_copilot.Tasks.Worker.{Message, retry_in, ingest_public_document, max_ingestion_retries}
use aquaops_copilot.Tasks.Claiming.{MayClaim, leased, claim_granted_iff, claim_writes_lease}
use aquaops_copilot.Tasks.Interleaved.{Others, claim_among}
use aquaops_copilot.Tasks.Serial.{IsWholeClaim, Refused, claim_among_serial}
use aquaops_copilot.Tasks.Fencing.{lease_excludes, superseded_attempt}
use aquaops_copilot.Tasks.History.{
  Operation, claim, settle, apply_all, RowAdvanced, rank, rows_advance,
}
use aquaops_copilot.Tasks.Schedule.{AllScheduled, schedule_kept}
use aquaops_copilot.Tasks.Deliveries.{retry_is_claimable, final_attempt_settles}

abbrev task_key : String
task_key = "123e4567-e89b-12d3-a456-426614174000"

abbrev waiting : Task
waiting = record {
  id = task_key;
  owner_id = "owner";
  agent_run_id = none;
  state = queued;
  request_id = "request";
  retry_count = 0;
  error_class = none;
  worker_token = none;
  worker_attempt = unclaimed;
  worker_lease_token = none;
  worker_lease_expires_at = none;
}

abbrev one_task : Db
one_task = record {
  tasks = λ k. if str_eq k task_key then some waiting else none;
  cases = [];
  audit_events = [];
}

abbrev first_run : RunArgs
first_run = record {
  task_id = task_key;
  source_id = "demo-source";
  worker_token = "delivery";
  lease_token = some "lease-a";
  retry_count = 0;
  final_attempt = false;
}

abbrev timeout : Raised
timeout = record { is_timeout = true; class_name = "TimeoutError" }

abbrev slow : Surroundings
slow = record {
  claimed_at = 1000;
  finished_at = 2000;
  meanwhile = λ db. db;
  ingest = λ _. raised timeout;
  invalidate_cache = none;
  logs_events = false;
}

abbrev first_claim : ClaimArgs
first_claim = claim_of first_run slow

-- The same attempt, delivered again long after.
abbrev second_claim : ClaimArgs
second_claim = record first_claim { lease_token = "lease-b"; now = 1800001001 }

first_claim_granted : (claim_task first_claim one_task).0 ≡ ok tt
unfolding claim_task
first_claim_granted = refl

second_claim_granted : (claim_task second_claim (claim_task first_claim one_task).1).0 ≡ ok tt
unfolding claim_task
second_claim_granted = refl

message_valid : validate_message first_run ≡ ok tt
unfolding validate_message is_safe_uuid is_safe_source_id is_safe_worker_token
message_valid = refl

one_task-AllScheduled : AllScheduled one_task
one_task-AllScheduled = record { at = λ k. ground arith }

claim_granted_iff_example :
    ((claim_task first_claim one_task).0 ≡ ok tt)
    ↔ ((t : Task) × (one_task.tasks task_key ≡ some t) × MayClaim first_claim t)
claim_granted_iff_example = claim_granted_iff first_claim one_task

claim_writes_lease_example :
    (t : Task) × (one_task.tasks task_key ≡ some t)
    × ((claim_task first_claim one_task).1.tasks task_key ≡ some (leased first_claim t))
    × ((k : String) → k ≢ task_key → (claim_task first_claim one_task).1.tasks k ≡ one_task.tasks k)
claim_writes_lease_example = claim_writes_lease first_claim one_task first_claim_granted

-- Another worker claims the task after the first UPDATE of this one has met no row.
abbrev rival : Others
rival = record {
  before_read = λ db. (claim_task second_claim db).1;
  before_advance = λ db. db;
  before_recover = λ db. db;
}

abbrev leased_task : Db
leased_task = (claim_task first_claim one_task).1

claim_among_serial_example :
    (((claim_among second_claim rival leased_task).0 ≡ ok tt)
      × IsWholeClaim second_claim rival leased_task)
    ⊎ Refused second_claim rival leased_task (claim_among second_claim rival leased_task)
claim_among_serial_example = claim_among_serial second_claim rival leased_task

-- The rival has taken the lease, so this claim fails and leaves the rival's row.
rival_is_kept :
    (claim_among second_claim rival leased_task).1.tasks task_key
    ≡ some (leased second_claim (leased first_claim waiting))
unfolding claim_among claim_task
rival_is_kept = refl

abbrev early_claim : ClaimArgs
early_claim = record second_claim { now = 1500 }

lease_excludes_example :
    (e : Failure) × (claim_task early_claim (claim_task first_claim one_task).1
      ≡ (err e, (claim_task first_claim one_task).1))
lease_excludes_example =
    lease_excludes first_claim early_claim one_task first_claim_granted refl (omega arith)

-- The surroundings in which the second claim is made while the handler runs.
abbrev contended : Surroundings
contended = record slow { meanwhile = λ db. (claim_task second_claim db).1 }

superseded_attempt_example : run_public_ingestion first_run contended one_task ≡ record {
  outcome = err claim_lost;
  db = (claim_task second_claim (claim_task first_claim one_task).1).1;
  logged = [];
}
superseded_attempt_example =
    superseded_attempt first_run contended second_claim one_task message_valid first_claim_granted
      refl second_claim_granted refl (λ e. ground (arith, eq_iff "lease-b" "lease-a"))

abbrev success : FinishArgs
success = succeeding first_run slow

abbrev while_running : Db
while_running = (claim_task first_claim one_task).1

abbrev steps : List Operation
steps = claim first_claim ∷ settle first_run slow (raised timeout) ∷ claim second_claim ∷ []

rows_advance_example :
    RowAdvanced (one_task.tasks task_key) ((apply_all steps one_task).tasks task_key)
rows_advance_example = rows_advance steps one_task task_key

schedule_kept_example : AllScheduled (apply_all steps one_task)
schedule_kept_example = schedule_kept steps one_task one_task-AllScheduled

abbrev message : Message
message = record {
  task_id = task_key;
  source_id = "demo-source";
  request_id = some "delivery";
  retries = 0;
  lease_token = "lease-a";
}

abbrev redelivered : ClaimArgs
redelivered = record first_claim { lease_token = "lease-b"; retry_count = 1; now = 2000 }

first_delivery_retries : (ingest_public_document message (some slow) one_task).0 ≡ retry_in 1
unfolding ingest_public_document run_public_ingestion validate_message complete claim_task
    is_safe_uuid is_safe_source_id is_safe_worker_token finish_attempt
first_delivery_retries = refl

retry_is_claimable_example :
    ((e : Raised) × (slow.ingest message.source_id ≡ raised e) × (e.is_timeout ≡ true))
    × ((t : Task) × ((ingest_public_document message (some slow) one_task).1.tasks task_key
          ≡ some t)
        × (t.state ≡ running))
    × (message.retries < max_ingestion_retries)
    × (1 ≡ 2 ^ message.retries)
    × ((claim_task redelivered (ingest_public_document message (some slow) one_task).1).0 ≡ ok tt)
retry_is_claimable_example =
    retry_is_claimable message slow one_task 1 [] redelivered first_delivery_retries
      one_task-AllScheduled (λ x. unfold apply_all in refl) refl refl refl (omega arith)

abbrev last_run : RunArgs
last_run = record first_run { final_attempt = true }

not_lost : (complete last_run slow (raised timeout) while_running).outcome ≢ err claim_lost
unfolding complete claim_task finish_attempt
not_lost e = ground arith

not_crashed : raised timeout ≢ crashed
not_crashed e = cc e

final_attempt_settles_example :
    (t : Task) × ((complete last_run slow (raised timeout) while_running).db.tasks task_key
      ≡ some t)
    × (rank t.state ≡ 2)
final_attempt_settles_example =
    final_attempt_settles last_run slow (raised timeout) while_running refl not_lost not_crashed
