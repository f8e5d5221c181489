-- ===== src/Tasks/Deliveries.antt =====
-- What the transport sees of an attempt, and what it finds in the row.
use mathlib.Core.Path.{subst}
use aquaops_copilot.Common.{
  ℕ, zero, suc, ◌+◌, ◌^◌, ◌≤◌, ◌<◌, min, String, ◌≡◌, ◌≢◌, refl, sym, ◌∙◌, ap, some, List, [],
  Outcome, ok, err, arith, Bool, true, false, Bool-cases, inl, inr, str_eq, ◌⊎◌,
}
use aquaops_copilot.Domain.Models.{running, Task, Db}
use aquaops_copilot.Domain.Session.{Failure, ingestion_error, claim_lost}
use aquaops_copilot.Tasks.Claim.{ClaimArgs, claim_task}
use aquaops_copilot.Tasks.Finish.{FinishArgs, finished, finish_attempt}
use aquaops_copilot.Tasks.Fencing.{run-claimed}
use aquaops_copilot.Tasks.Ending.{finish_cases, granted-Holds}
use aquaops_copilot.Tasks.Attempt.{
  RunArgs, Surroundings, Raised, Handled, returned, raised, crashed, RunResult, validate_message,
  claim_of, retrying, succeeding, ending, complete, db-complete_return, db-complete_raise,
  run_public_ingestion,
}
use aquaops_copilot.Tasks.Worker.{
  Message, retry_in, max_ingestion_retries, run_args, identity, ingest_public_document, delivered,
}
use aquaops_copilot.Tasks.History.{Operation, claim, apply, apply_all, rank}
use aquaops_copilot.Tasks.Schedule.{
  AllScheduled, schedule_kept, apply-AllScheduled, retrying-claimable,
}

claim-not_ingestion :
    (c : ClaimArgs) (db : Db) (b : Bool) (n : String)
    → (claim_task c db).0 ≢ err (ingestion_error b n)
unfolding claim_task
claim-not_ingestion c db b n h = ground arith

finish-not_ingestion :
    (f : FinishArgs) (db : Db) (b : Bool) (n : String)
    → (finish_attempt f db).0 ≢ err (ingestion_error b n)
unfolding finish_attempt
finish-not_ingestion f db b n h = ground arith

validate-not_ingestion :
    (a : RunArgs) (b : Bool) (n : String) → validate_message a ≢ err (ingestion_error b n)
unfolding validate_message
validate-not_ingestion a b n h = ground arith

-- The database after the claim and whatever other sessions have committed behind it.
abbrev pub at_completion : RunArgs → Surroundings → Db → Db
at_completion a w db = w.meanwhile (claim_task (claim_of a w) db).1

-- The attempt has raised a timeout to its caller.
record TimedOut (a : RunArgs) (w : Surroundings) (db : Db) : Type 0 where
  error : Raised
  handler_raised : w.ingest a.source_id ≡ raised error
  timeout : error.is_timeout ≡ true
  finish_ok : (finish_attempt (ending a w error) (at_completion a w db)).0 ≡ ok tt
  result_db :
      (run_public_ingestion a w db).db
      ≡ (finish_attempt (ending a w error) (at_completion a w db)).1

complete-TimedOut :
    (a : RunArgs) (w : Surroundings) (o : Handled) (db : Db) (n : String)
    → (complete a w o db).outcome ≡ err (ingestion_error true n)
    → (e : Raised) × (o ≡ raised e)
      × (e.is_timeout ≡ true)
      × ((finish_attempt (ending a w e) db).0 ≡ ok tt)
unfolding complete
complete-TimedOut a w crashed db n h = absurd (cc h)
complete-TimedOut a w returned db n h =
    absurd (ground (arith, finish-not_ingestion (succeeding a w) db true n))
complete-TimedOut a w (raised e) db n h = (
  e,
  refl,
  ground (arith, finish-not_ingestion (ending a w e) db true n),
  ground (arith, finish-not_ingestion (ending a w e) db true n),
)

Outcome-cases : {E A : Type 0} (o : Outcome E A) → ((x : A) × (o ≡ ok x)) ⊎ ((e : E) × (o ≡ err e))
Outcome-cases (ok x) = inl (x, refl)
Outcome-cases (err e) = inr (e, refl)

run-invalid :
    (a : RunArgs) (w : Surroundings) (db : Db) (e : Failure)
    → validate_message a ≡ err e
    → run_public_ingestion a w db ≡ record { outcome = err e; db = db; logged = [] }
unfolding run_public_ingestion
run-invalid a w db e h = ground arith

run-unclaimed :
    (a : RunArgs) (w : Surroundings) (db : Db) (e : Failure)
    → validate_message a ≡ ok tt
    → (claim_task (claim_of a w) db).0 ≡ err e
    → (run_public_ingestion a w db).outcome ≡ err e
unfolding run_public_ingestion
run-unclaimed a w db e valid h = ground arith

-- An attempt that ends with a timeout has claimed the task and recorded the failed try.
run-TimedOut :
    (a : RunArgs) (w : Surroundings) (db : Db) (n : String)
    → (run_public_ingestion a w db).outcome ≡ err (ingestion_error true n)
    → TimedOut a w db
run-TimedOut a w db n h = elim (Outcome-cases (validate_message a)) [
  | inr (e, bad) ↦ absurd (
      validate-not_ingestion a true n
        (cc (bad, h, ap (λ (r : RunResult). r.outcome) (run-invalid a w db e bad))))
  | inl (tt, valid) ↦ elim (Outcome-cases (claim_task (claim_of a w) db).0) [
    | inr (e, refused) ↦ absurd (
        claim-not_ingestion (claim_of a w) db true n
          (cc (refused, h, run-unclaimed a w db e valid refused)))
    | inl (tt, granted) ↦
        let same = run-claimed a w db valid granted in
        let (e, handled, timeout, done) =
          complete-TimedOut a w (w.ingest a.source_id) (at_completion a w db) n
            (sym (ap (λ (r : RunResult). r.outcome) same) ∙ h) in
        record {
          error = e;
          handler_raised = handled;
          timeout = timeout;
          finish_ok = done;
          result_db =
              ap (λ (r : RunResult). r.db) same
              ∙ (rw handled (db-complete_raise a w e (at_completion a w db)));
        }
  ]
]

delivered-retry :
    (retries : ℕ) (o : Outcome Failure String) (n : ℕ)
    → delivered retries o ≡ retry_in n
    → (name : String) × (o ≡ err (ingestion_error true name))
      × (retries < max_ingestion_retries)
      × (n ≡ min (2 ^ retries) 4)
delivered-retry retries (ok x) n h = cc
delivered-retry retries (err (ingestion_error true name)) n h =
    (name, refl, ground arith, ground arith)
delivered-retry retries (err (ingestion_error false name)) n h = cc
delivered-retry retries (err _) n h = cc

-- A delivery with an identity is one run of the ingestion.
delivery-run :
    (m : Message) (w : Surroundings) (db : Db) (n : ℕ)
    → (ingest_public_document m (some w) db).0 ≡ retry_in n
    → let r = run_public_ingestion (run_args m (identity m.request_id)) w db in
      (delivered m.retries r.outcome ≡ retry_in n)
      × ((ingest_public_document m (some w) db).1 ≡ r.db)
unfolding ingest_public_document
delivery-run m w db n h = elim (Bool-cases (str_eq (identity m.request_id) "")) [
  | inl y ↦ absurd (ground arith)
  | inr n ↦ (ground arith, ground arith)
]

timeout-retrying :
    (a : RunArgs) (w : Surroundings) (e : Raised)
    → a.final_attempt ≡ false
    → e.is_timeout ≡ true
    → ending a w e ≡ retrying a w
timeout-retrying a w e f t = ground arith

-- A delivery asks for a retry only if the handler raised a timeout, and before the last attempt;
-- the wait is 1 or 2 seconds. The task is then running, and the next delivery of the message (the same identity, one more retry) is granted
-- the claim from that moment on, whatever transactions ran beside the attempt, if the retry
-- counts were in step with the attempts before it.
pub retry_is_claimable :
    (m : Message) (w : Surroundings) (db : Db) (n : ℕ) (os : List Operation) (d : ClaimArgs)
    → (ingest_public_document m (some w) db).0 ≡ retry_in n
    → AllScheduled db
    → ((x : Db) → w.meanwhile x ≡ apply_all os x)
    → d.task_id ≡ m.task_id
    → d.worker_token ≡ identity m.request_id
    → d.retry_count ≡ m.retries + 1
    → w.finished_at ≤ d.now
    → ((e : Raised) × (w.ingest m.source_id ≡ raised e) × (e.is_timeout ≡ true))
      × ((t : Task) × ((ingest_public_document m (some w) db).1.tasks m.task_id ≡ some t)
          × (t.state ≡ running))
      × (m.retries < max_ingestion_retries)
      × (n ≡ 2 ^ m.retries)
      × ((claim_task d (ingest_public_document m (some w) db).1).0 ≡ ok tt)
retry_is_claimable m w db n os d h s between i k r late =
    let a : RunArgs = run_args m (identity m.request_id) in
    let (h', same) = delivery-run m w db n h in
    let (name, failed_, few, wait) =
      delivered-retry m.retries (run_public_ingestion a w db).outcome n h' in
    let out : TimedOut a w db = run-TimedOut a w db name failed_ in
    let is_retry : ending a w out.error ≡ retrying a w =
      timeout-retrying a w out.error (ground arith) out.timeout in
    let kept : AllScheduled (at_completion a w db) =
      subst AllScheduled (sym (between (claim_task (claim_of a w) db).1)) (
        schedule_kept os (claim_task (claim_of a w) db).1
          (unfold apply in apply-AllScheduled (claim (claim_of a w)) db s)) in
    let (t, held, row) =
      granted-Holds (retrying a w) (at_completion a w db)
        (subst (λ f. (finish_attempt f (at_completion a w db)).0 ≡ ok tt) is_retry out.finish_ok) in
    (
      (out.error, out.handler_raised, out.timeout),
      (
        finished (retrying a w) t,
        subst (λ x. x.tasks m.task_id ≡ some (finished (retrying a w) t))
            (sym (
              same
              ∙ out.result_db
              ∙ ap (λ f. (finish_attempt f (at_completion a w db)).1) is_retry))
            row,
        refl,
      ),
      few,
      small_wait m.retries n few wait,
      subst (λ x. (claim_task d x).0 ≡ ok tt)
          (sym
            (same ∙ out.result_db ∙ ap (λ f. (finish_attempt f (at_completion a w db)).1) is_retry))
          (retrying-claimable a w d (at_completion a w db) (kept.at a.task_id)
            (subst (λ f. (finish_attempt f (at_completion a w db)).0 ≡ ok tt) is_retry
              out.finish_ok)
            i k r late),
    )
  where
    small_wait : (c n : ℕ) → c < 2 → n ≡ min (2 ^ c) 4 → n ≡ 2 ^ c
    small_wait zero n l e = e
    small_wait (suc zero) n l e = e
    small_wait (suc (suc c)) n l e = absurd (omega arith)

outcome-lost :
    (a : RunArgs) (w : Surroundings) (o : Handled) (db : Db) (f : FinishArgs)
    → o ≢ crashed
    → f ≡ elim o [ returned ↦ succeeding a w | raised e ↦ ending a w e | crashed ↦ succeeding a w ]
    → finish_attempt f db ≡ (err claim_lost, db)
    → (complete a w o db).outcome ≡ err claim_lost
unfolding complete
outcome-lost a w crashed db f n e h = absurd (n refl)
outcome-lost a w returned db f n e h = ground arith
outcome-lost a w (raised x) db f n e h = ground arith

-- The last attempt leaves the task succeeded or failed, whether the handler returns or raises an
-- exception, unless the claim was lost to another worker or the worker itself crashed.
pub final_attempt_settles :
    (a : RunArgs) (w : Surroundings) (o : Handled) (db : Db)
    → a.final_attempt ≡ true
    → (complete a w o db).outcome ≢ err claim_lost
    → o ≢ crashed
    → (t : Task) × ((complete a w o db).db.tasks a.task_id ≡ some t) × (rank t.state ≡ 2)
final_attempt_settles a w crashed db f h n = absurd (n refl)
final_attempt_settles a w returned db f h n = elim (finish_cases (succeeding a w) db) [
  | inl (t, _, _, row, _) ↦ (finished (succeeding a w) t, rw db-complete_return row, refl)
  | inr (_, lost) ↦ absurd (h (outcome-lost a w returned db (succeeding a w) n refl lost))
]
final_attempt_settles a w (raised e) db f h n = elim (finish_cases (ending a w e) db) [
  | inl (t, _, _, row, _) ↦
      (finished (ending a w e) t, rw db-complete_raise (last_row t row), ground arith)
  | inr (_, lost) ↦ absurd (h (outcome-lost a w (raised e) db (ending a w e) n refl lost))
]
  where
    last_row :
        (t : Task)
        → (finish_attempt (ending a w e) db).1.tasks (ending a w e).task_id
          ≡ some (finished (ending a w e) t)
        → (finish_attempt (ending a w e) db).1.tasks a.task_id ≡ some (finished (ending a w e) t)
    last_row t row = ground arith
