-- ===== src/Tasks/Claim.antt =====
-- jobs.py: `_audit` and `_claim_task`, whose statements make one transaction without others between.
use aquaops_copilot.Common.{
  ℕ, ◌+◌, ◌*◌, String, Bool, true, false, ◌&&◌, Option, none, some, if◌then◌else◌, ok, err, ◌==◌,
  ltb, leb, opt_str_eq,
}
use aquaops_copilot.Domain.Models.{
  queued, running, state_eq, Attempt, unclaimed, attempt, Task, AuditEvent, Db,
}
use aquaops_copilot.Domain.Session.{
  task_not_found, already_processed, already_claimed, assertion_error, Statement, update_task,
  add_event, session_scope,
}

abbrev pub audit : Task → String → AuditEvent
audit task action = record {
  action = action;
  request_id = task.request_id;
  actor_id = task.owner_id;
  entity_type = "task";
  entity_id = task.id;
}

-- The keyword arguments of `_claim_task`, and the time that it reads.
pub record ClaimArgs : Type 0 where
  pub task_id : String
  pub worker_token : String
  pub lease_token : String
  pub retry_count : ℕ
  pub now : ℕ

-- WORKER_LEASE_DURATION, 30 minutes
abbrev pub worker_lease_duration : ℕ
worker_lease_duration = 30 * 60 * 1000000

abbrev pub lease_deadline : ClaimArgs → ℕ
lease_deadline c = c.now + worker_lease_duration

-- Comparisons with a column in SQL: -1 stands below every attempt, and a missing time passes none.
abbrev pub attempt_lt : Attempt → ℕ → Bool
attempt_lt unclaimed n = true
attempt_lt (attempt m) n = ltb m n

abbrev pub attempt_eq : Attempt → ℕ → Bool
attempt_eq unclaimed n = false
attempt_eq (attempt m) n = m == n

abbrev pub expires_le : Option ℕ → ℕ → Bool
expires_le none now = false
expires_le (some t) now = leb t now

abbrev pub expires_lt : Option ℕ → ℕ → Bool
expires_lt none now = false
expires_lt (some t) now = ltb t now

-- The first UPDATE: a queued task becomes running.
unfoldable pub start_queued : ClaimArgs → Db → Db × ℕ
unfolding update_task
start_queued c =
    update_task c.task_id (λ t. state_eq t.state queued)
      λ t. record t {
        state = running;
        worker_token = some c.worker_token;
        worker_attempt = attempt c.retry_count;
        worker_lease_token = some c.lease_token;
        worker_lease_expires_at = some (lease_deadline c);
      }

-- The second UPDATE: the next attempt of the same delivery takes over an expired lease.
unfoldable pub advance_attempt : ClaimArgs → Db → Db × ℕ
unfolding update_task
advance_attempt c =
    update_task c.task_id
      (λ t.
        state_eq t.state running
        && opt_str_eq t.worker_token c.worker_token
        && attempt_lt t.worker_attempt c.retry_count
        && t.retry_count == c.retry_count
        && expires_le t.worker_lease_expires_at c.now)
      λ t. record t {
        worker_attempt = attempt c.retry_count;
        worker_lease_token = some c.lease_token;
        worker_lease_expires_at = some (lease_deadline c);
      }

-- The third UPDATE: the same attempt, delivered again after its lease has run out.
unfoldable pub recover_lease : ClaimArgs → Db → Db × ℕ
unfolding update_task
recover_lease c =
    update_task c.task_id
      (λ t.
        state_eq t.state running
        && opt_str_eq t.worker_token c.worker_token
        && attempt_eq t.worker_attempt c.retry_count
        && expires_lt t.worker_lease_expires_at c.now)
      λ t. record t {
        worker_lease_token = some c.lease_token;
        worker_lease_expires_at = some (lease_deadline c);
      }

recover : ClaimArgs → Statement Unit
unfolding recover_lease
recover c db =
    let (db', recovered) = recover_lease c db in
    if recovered == 1 then (ok tt, db') else (err already_processed, db')

advance : ClaimArgs → Statement Unit
unfolding advance_attempt recover
advance c db =
    let (db', advanced) = advance_attempt c db in
    if advanced == 1 then (ok tt, db') else recover c db'

-- What follows when the task was not queued.
reclaim : ClaimArgs → Option Task → Statement Unit
unfolding advance
reclaim c none db = (err task_not_found, db)
reclaim c (some task) db =
    if state_eq task.state running && opt_str_eq task.worker_token c.worker_token
    then advance c db
    else (err already_claimed, db)

-- session.get, the assertion that the row is there, and the audit event.
unfoldable pub audited : String → Option Task → Statement Unit
unfolding add_event
audited action none db = (err assertion_error, db)
audited action (some task) db = (ok tt, add_event (audit task action) db)

unfoldable pub claim_body : ClaimArgs → Statement Unit
unfolding start_queued audited reclaim
claim_body c db =
    let (db', claimed) = start_queued c db in
    if claimed == 1
    then audited "task.started" (db'.tasks c.task_id) db'
    else reclaim c (db'.tasks c.task_id) db'

unfoldable pub claim_task : ClaimArgs → Statement Unit
unfolding claim_body session_scope
claim_task c = session_scope (claim_body c)
