-- ===== src/Tasks/Interleaved.antt =====
-- jobs.py: `_claim_task` among the commits of other sessions, which may fall between its statements.
use aquaops_copilot.Common.{
  ℕ, ◌&&◌, Option, none, some, if◌then◌else◌, ◌==◌, Outcome, ok, err, opt_str_eq,
}
use aquaops_copilot.Domain.Models.{running, state_eq, Task, Db}
use aquaops_copilot.Domain.Session.{
  Failure, task_not_found, already_processed, already_claimed, Statement,
}
use aquaops_copilot.Tasks.Claim.{ClaimArgs, start_queued, advance_attempt, recover_lease, audited}

-- What others commit after the first UPDATE has met no row, after the read of the task, and after
-- the second UPDATE has met no row. An UPDATE that meets no row holds no lock.
pub record Others : Type 0 where
  pub before_read : Db → Db
  pub before_advance : Db → Db
  pub before_recover : Db → Db

-- The database that the three UPDATE statements stand before.
abbrev pub at_advance : Others → Db → Db
at_advance o db = o.before_advance (o.before_read db)

abbrev pub at_recover : Others → Db → Db
at_recover o db = o.before_recover (at_advance o db)

-- A refusal has written nothing, so its rollback leaves what the others have committed.
abbrev pub recovered_in : Db → Db × ℕ → Outcome Failure Unit × Db
recovered_in db (db', n) = if n == 1 then (ok tt, db') else (err already_processed, db)

abbrev pub advanced_in : ClaimArgs → Others → Db → Db × ℕ → Outcome Failure Unit × Db
advanced_in c o db (db', n) =
    let later = o.before_recover db in
    if n == 1 then (ok tt, db') else recovered_in later (recover_lease c later)

abbrev pub read_in : ClaimArgs → Others → Db → Option Task → Outcome Failure Unit × Db
read_in c o db none = (err task_not_found, db)
read_in c o db (some task) =
    let later = o.before_advance db in
    if state_eq task.state running && opt_str_eq task.worker_token c.worker_token
    then advanced_in c o later (advance_attempt c later)
    else (err already_claimed, db)

abbrev pub started_in : ClaimArgs → Others → Db → Db × ℕ → Outcome Failure Unit × Db
started_in c o db (db', n) =
    let later = o.before_read db in
    if n == 1
    then audited "task.started" (db'.tasks c.task_id) db'
    else read_in c o later (later.tasks c.task_id)

-- `_claim_task`, statement by statement.
unfoldable pub claim_among : ClaimArgs → Others → Statement Unit
unfolding start_queued
claim_among c o db = started_in c o db (start_queued c db)
