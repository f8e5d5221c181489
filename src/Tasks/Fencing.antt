-- ===== src/Tasks/Fencing.antt =====
-- Leases exclude one another: no second claim before the deadline, and no finish without the lease.
use aquaops_copilot.Common.{
  ◌<◌, String, ◌≡◌, refl, ◌∙◌, ◌≢◌, some, Outcome, ok, err, arith, eq_iff, false, [], inl, inr,
  Bool-cases,
}
use mathlib.Core.Path.{subst}
use aquaops_copilot.Domain.Models.{Task, Db}
use aquaops_copilot.Domain.Session.{Failure, claim_lost, worker_crashed}
use aquaops_copilot.Tasks.Claim.{ClaimArgs, lease_deadline, claim_task}
use aquaops_copilot.Tasks.Claiming.{
  MayClaim, from_queue, next_attempt, same_attempt, leased, claim_granted_iff, claim_writes_lease,
  claim-refused,
}
use aquaops_copilot.Tasks.Finish.{FinishArgs, holds_lease}
use aquaops_copilot.Tasks.Ending.{finish-lost}
use aquaops_copilot.Tasks.Attempt.{
  RunArgs, Surroundings, Handled, returned, raised, crashed, claim_of, resolved_lease_token,
  succeeding, retrying, failing, retryable, complete, run_public_ingestion, validate_message,
}

-- No rule lets a second claim in while the lease of the first runs.
leased-not-MayClaim :
    (c d : ClaimArgs) (t : Task) → d.now < lease_deadline c → ¬ MayClaim d (leased c t)
leased-not-MayClaim c d t h (from_queue q) = cc
leased-not-MayClaim c d t h (next_attempt x r w b n e le) = ground arith
leased-not-MayClaim c d t h (same_attempt x r w a e lt) = ground arith

not-granted :
    (d : ClaimArgs) (db : Db)
    → ¬ ((claim_task d db).0 ≡ ok tt)
    → (e : Failure) × (claim_task d db ≡ (err e, db))
not-granted d db h = go (claim_task d db).0 refl
  where
    go :
        (r : Outcome Failure Unit)
        → (claim_task d db).0 ≡ r
        → (e : Failure) × (claim_task d db ≡ (err e, db))
    go (ok tt) p = absurd (h p)
    go (err e) p = (e, λ i. (p i, claim-refused d db e p i))

same_row :
    (db : Db) {a b : String} {t u : Task}
    → db.tasks a ≡ some t
    → db.tasks b ≡ some u
    → b ≡ a
    → u ≡ t
same_row db p q e = cc

-- After a granted claim, every claim of the same task that comes before the lease's deadline,
-- whoever makes it, is refused and changes nothing.
pub lease_excludes :
    (c d : ClaimArgs) (db : Db)
    → (claim_task c db).0 ≡ ok tt
    → d.task_id ≡ c.task_id
    → d.now < lease_deadline c
    → (e : Failure) × (claim_task d (claim_task c db).1 ≡ (err e, (claim_task c db).1))
lease_excludes c d db granted same early = not-granted d (claim_task c db).1 λ again.
    let (t, _, row, _) = claim_writes_lease c db granted in
    let (u, row', may) = (claim_granted_iff d (claim_task c db).1).0 again in
    leased-not-MayClaim c d t early
      (subst (λ x. MayClaim d x) (same_row (claim_task c db).1 row row' same) may)

not-holds_lease :
    (f : FinishArgs) (t : Task) (lease : String)
    → t.worker_lease_token ≡ some lease
    → lease ≢ f.lease_token
    → holds_lease f t ≡ false
not-holds_lease f t lease e ne = ground (arith, eq_iff lease f.lease_token)

pub run-claimed :
    (a : RunArgs) (w : Surroundings) (db : Db)
    → validate_message a ≡ ok tt
    → (claim_task (claim_of a w) db).0 ≡ ok tt
    → run_public_ingestion a w db
      ≡ complete a w (w.ingest a.source_id) (w.meanwhile (claim_task (claim_of a w) db).1)
unfolding run_public_ingestion
run-claimed a w db valid mine = ground arith

-- The exception that ends an attempt which has lost its claim.
abbrev pub lost_after : Handled → Failure
lost_after crashed = worker_crashed
lost_after _ = claim_lost

complete-lost :
    (a : RunArgs) (w : Surroundings) (o : Handled) (db : Db) (t : Task) (lease : String)
    → db.tasks a.task_id ≡ some t
    → t.worker_lease_token ≡ some lease
    → lease ≢ resolved_lease_token a
    → complete a w o db ≡ record { outcome = err (lost_after o); db = db; logged = [] }
unfolding complete
complete-lost a w crashed db t lease e l ne = refl
complete-lost a w returned db t lease e l ne =
    rw (finish-lost (succeeding a w) db t e (not-holds_lease (succeeding a w) t lease l ne))
complete-lost a w (raised x) db t lease e l ne = elim (Bool-cases (retryable a x)) [
  | inl y ↦ rw (y, finish-lost (retrying a w) db t e (not-holds_lease (retrying a w) t lease l ne))
  | inr n ↦
      rw (n, finish-lost (failing a w x) db t e (not-holds_lease (failing a w x) t lease l ne))
]

-- If another worker is granted the task under a lease token of its own while the handler runs,
-- the attempt ends with "task claim lost" (or with the crash of the worker, if the handler ended in
-- one), whatever the handler did, and changes nothing: the row
-- stays as the other worker's claim has written it, and no event is logged.
pub superseded_attempt :
    (a : RunArgs) (w : Surroundings) (d : ClaimArgs) (db : Db)
    → validate_message a ≡ ok tt
    → (claim_task (claim_of a w) db).0 ≡ ok tt
    → w.meanwhile (claim_task (claim_of a w) db).1
      ≡ (claim_task d (claim_task (claim_of a w) db).1).1
    → (claim_task d (claim_task (claim_of a w) db).1).0 ≡ ok tt
    → d.task_id ≡ a.task_id
    → d.lease_token ≢ resolved_lease_token a
    → run_public_ingestion a w db ≡ record {
      outcome = err (lost_after (w.ingest a.source_id));
      db = (claim_task d (claim_task (claim_of a w) db).1).1;
      logged = [];
    }
superseded_attempt a w d db valid mine between theirs same other =
    let (t, _, row, _) = claim_writes_lease d (claim_task (claim_of a w) db).1 theirs in
    run-claimed a w db valid mine
    ∙ (rw between (
        complete-lost a w (w.ingest a.source_id) (claim_task d (claim_task (claim_of a w) db).1).1
          (leased d t) d.lease_token
          (subst
            (λ k. (claim_task d (claim_task (claim_of a w) db).1).1.tasks k ≡ some (leased d t))
            same row)
          refl other))
