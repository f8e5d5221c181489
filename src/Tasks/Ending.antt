-- ===== src/Tasks/Ending.antt =====
-- When an attempt may be finished, and what finishing it writes.
use aquaops_copilot.Common.{
  ◌≤◌, String, ◌≡◌, ◌≢◌, none, some, ok, err, arith, eq_iff, eq_refl, true, false, Bool-cases, ◌⊎◌,
  inl, inr, Option-cases, ap,
}
use aquaops_copilot.Domain.Models.{running, attempt, Task, Db}
use aquaops_copilot.Domain.Session.{claim_lost}
use aquaops_copilot.Tasks.Finish.{FinishArgs, holds_lease, finished, finish_attempt}

finish-granted :
    (f : FinishArgs) (db : Db) (t : Task)
    → db.tasks f.task_id ≡ some t
    → holds_lease f t ≡ true
    → ((finish_attempt f db).0 ≡ ok tt)
      × ((finish_attempt f db).1.tasks f.task_id ≡ some (finished f t))
unfolding finish_attempt
finish-granted f db t e h = (ground (arith, eq_refl f.task_id), ground (arith, eq_refl f.task_id))

-- The finish of an attempt whose row is under another lease is refused.
pub finish-lost :
    (f : FinishArgs) (db : Db) (t : Task)
    → db.tasks f.task_id ≡ some t
    → holds_lease f t ≡ false
    → finish_attempt f db ≡ (err claim_lost, db)
unfolding finish_attempt
finish-lost f db t e h = ground arith

finish-missing :
    (f : FinishArgs) (db : Db)
    → db.tasks f.task_id ≡ none
    → finish_attempt f db ≡ (err claim_lost, db)
unfolding finish_attempt
finish-missing f db e = ground arith

finish-frame :
    (f : FinishArgs) (db : Db) (k : String)
    → k ≢ f.task_id
    → (finish_attempt f db).1.tasks k ≡ db.tasks k
unfolding finish_attempt
finish-frame f db k h = ground (arith, eq_iff f.task_id k)

-- The row is there, and holds the lease of the attempt that finishes.
abbrev pub Holds : FinishArgs → Db → Task → Type 0
Holds f db t = (db.tasks f.task_id ≡ some t) × (holds_lease f t ≡ true)

pub finish_cases :
    (f : FinishArgs) (db : Db)
    → ((t : Task) × Holds f db t
        × ((finish_attempt f db).0 ≡ ok tt)
        × ((finish_attempt f db).1.tasks f.task_id ≡ some (finished f t))
        × ((k : String) → k ≢ f.task_id → (finish_attempt f db).1.tasks k ≡ db.tasks k))
      ⊎ (((t : Task) → ¬ Holds f db t) × (finish_attempt f db ≡ (err claim_lost, db)))
finish_cases f db = elim (Option-cases (db.tasks f.task_id)) [
  | inl e ↦ inr (λ t h. cc (e, h.0), finish-missing f db e)
  | inr (t, e) ↦ elim (Bool-cases (holds_lease f t)) [
    | inl y ↦
        inl (
          t,
          (e, y),
          (finish-granted f db t e y).0,
          (finish-granted f db t e y).1,
          finish-frame f db,
        )
    | inr n ↦ inr (λ u h. not_held t u e n h, finish-lost f db t e n)
  ]
]
  where
    not_held : (t u : Task) → db.tasks f.task_id ≡ some t → holds_lease f t ≡ false → ¬ Holds f db u
    not_held t u e n h = let same : u ≡ t = cc (e, h.0) in cc (n, h.1, ap (holds_lease f) same)

-- A finish that is granted was the holder's.
pub granted-Holds :
    (f : FinishArgs) (db : Db)
    → (finish_attempt f db).0 ≡ ok tt
    → (t : Task) × Holds f db t × ((finish_attempt f db).1.tasks f.task_id ≡ some (finished f t))
granted-Holds f db h = elim (finish_cases f db) [
  | inl (t, held, _, row, _) ↦ (t, held, row)
  | inr (_, lost) ↦ absurd (cc (h, lost))
]

-- The row is running under the token, the attempt and the lease that finish it.
pub record MayFinish (f : FinishArgs) (db : Db) (t : Task) : Type 0 where
  pub row : db.tasks f.task_id ≡ some t
  pub is_running : t.state ≡ running
  pub same_worker : t.worker_token ≡ some f.worker_token
  pub same_attempt : t.worker_attempt ≡ attempt f.expected_attempt
  pub same_lease : t.worker_lease_token ≡ some f.lease_token

-- What finishing makes of the row `t`.
pub record IsFinished (f : FinishArgs) (t u : Task) : Type 0 where
  pub at_target : u.state ≡ f.target
  pub retries_of_row : t.retry_count ≤ u.retry_count
  pub retries_given : f.retry_count ≤ u.retry_count
  pub retries_no_more : (u.retry_count ≡ t.retry_count) ⊎ (u.retry_count ≡ f.retry_count)
  pub error_given : u.error_class ≡ f.error_class
  pub lease_open : f.target ≡ running → u.worker_lease_expires_at ≡ some f.now
  pub lease_closed : f.target ≢ running → u.worker_lease_expires_at ≡ none
  pub same_id : u.id ≡ t.id
  pub same_owner : u.owner_id ≡ t.owner_id
  pub same_request : u.request_id ≡ t.request_id
  pub same_worker : u.worker_token ≡ t.worker_token
  pub same_attempt : u.worker_attempt ≡ t.worker_attempt
  pub same_lease : u.worker_lease_token ≡ t.worker_lease_token
