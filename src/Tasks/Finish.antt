-- ===== src/Tasks/Finish.antt =====
-- jobs.py: `_finish_attempt`.
use aquaops_copilot.Common.{
  ℕ, String, Bool, ◌&&◌, Option, none, some, if◌then◌else◌, err, ◌==◌, ltb, opt_str_eq,
}
use aquaops_copilot.Domain.Models.{TaskState, running, state_eq, Task}
use aquaops_copilot.Domain.Session.{claim_lost, Statement, update_task, session_scope}
use aquaops_copilot.Tasks.Claim.{attempt_eq, audited}

-- The keyword arguments, with `expected_attempt` resolved, and the time that is read when the
-- target is `running`.
pub record FinishArgs : Type 0 where
  pub task_id : String
  pub worker_token : String
  pub lease_token : String
  pub target : TaskState
  pub action : String
  pub retry_count : ℕ
  pub error_class : Option String
  pub expected_attempt : ℕ
  pub now : ℕ

-- `expected_attempt = retry_count if expected_attempt is None else expected_attempt`
abbrev pub resolve_expected : Option ℕ → ℕ → ℕ
resolve_expected none retry_count = retry_count
resolve_expected (some n) retry_count = n

-- The row still belongs to this lease of this attempt.
abbrev pub holds_lease : FinishArgs → Task → Bool
holds_lease f t =
    state_eq t.state running
    && opt_str_eq t.worker_token f.worker_token
    && attempt_eq t.worker_attempt f.expected_attempt
    && opt_str_eq t.worker_lease_token f.lease_token

abbrev pub finished : FinishArgs → Task → Task
finished f t = record t {
  state = f.target;
  retry_count = if ltb f.retry_count t.retry_count then t.retry_count else f.retry_count;
  error_class = f.error_class;
  worker_lease_expires_at = if state_eq f.target running then some f.now else none;
}

unfoldable pub finish_body : FinishArgs → Statement Unit
unfolding update_task audited
finish_body f db =
    let (db', changed) = update_task f.task_id (holds_lease f) (finished f) db in
    if changed == 1 then audited f.action (db'.tasks f.task_id) db' else (err claim_lost, db')

unfoldable pub finish_attempt : FinishArgs → Statement Unit
unfolding finish_body session_scope
finish_attempt f = session_scope (finish_body f)
