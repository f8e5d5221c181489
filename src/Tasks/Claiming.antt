-- ===== src/Tasks/Claiming.antt =====
-- When a claim is granted, and what it leaves in the row.
use aquaops_copilot.Common.{
  ℕ, ◌≤◌, ◌<◌, String, ◌≡◌, refl, ◌≢◌, ◌↔◌, true, Option, none, some, ok, err, arith, eq_iff,
  eq_refl, ap, opt_str_eq,
}
use aquaops_copilot.Domain.Models.{queued, running, Attempt, unclaimed, attempt, Task, Db}
use aquaops_copilot.Domain.Session.{Failure}
use aquaops_copilot.Tasks.Claim.{
  ClaimArgs, lease_deadline, attempt_lt, expires_le, expires_lt, claim_task,
}

-- The row that a granted claim writes over `t`.
abbrev pub leased : ClaimArgs → Task → Task
leased c t = record t {
  state = running;
  worker_token = some c.worker_token;
  worker_attempt = attempt c.retry_count;
  worker_lease_token = some c.lease_token;
  worker_lease_expires_at = some (lease_deadline c);
}

abbrev pub IsBelow : Attempt → ℕ → Type 0
IsBelow unclaimed n = Unit
IsBelow (attempt m) n = m < n

-- When the worker may have the row: it is queued, or it is running for this worker and its lease
-- is over, at an attempt that the row has scheduled or has seen.
pub data MayClaim (c : ClaimArgs) (t : Task) : Type 0 where
  from_queue : t.state ≡ queued → MayClaim c t
  next_attempt :
      (expiry : ℕ)
      → t.state ≡ running
      → t.worker_token ≡ some c.worker_token
      → IsBelow t.worker_attempt c.retry_count
      → t.retry_count ≡ c.retry_count
      → t.worker_lease_expires_at ≡ some expiry
      → expiry ≤ c.now
      → MayClaim c t
  same_attempt :
      (expiry : ℕ)
      → t.state ≡ running
      → t.worker_token ≡ some c.worker_token
      → t.worker_attempt ≡ attempt c.retry_count
      → t.worker_lease_expires_at ≡ some expiry
      → expiry < c.now
      → MayClaim c t

-- A claim that the rules allow is granted, and writes the lease into the row.
claim-granted :
    (c : ClaimArgs) (db : Db) (t : Task)
    → db.tasks c.task_id ≡ some t
    → MayClaim c t
    → ((claim_task c db).0 ≡ ok tt) × ((claim_task c db).1.tasks c.task_id ≡ some (leased c t))
unfolding claim_task
claim-granted c db t h (from_queue q) =
    (ground (arith, eq_refl c.task_id), ground (arith, eq_refl c.task_id))
claim-granted c db t h (next_attempt x r w b n e le) = (
  ground (arith, eq_refl c.task_id, eq_refl c.worker_token),
  ground (arith, eq_refl c.task_id, eq_refl c.worker_token),
)
claim-granted c db t h (same_attempt x r w b e lt) = (
  ground (arith, eq_refl c.task_id, eq_refl c.worker_token),
  ground (arith, eq_refl c.task_id, eq_refl c.worker_token),
)

pub opt_str_eq→eq : (o : Option String) (s : String) → opt_str_eq o s ≡ true → o ≡ some s
opt_str_eq→eq none s h = cc
opt_str_eq→eq (some a) s h = ap some ((eq_iff a s).0 h)

expires_le→le : (o : Option ℕ) (n : ℕ) → expires_le o n ≡ true → (x : ℕ) × (o ≡ some x) × (x ≤ n)
expires_le→le none n h = cc
expires_le→le (some x) n h = (x, refl, ground arith)

expires_lt→lt : (o : Option ℕ) (n : ℕ) → expires_lt o n ≡ true → (x : ℕ) × (o ≡ some x) × (x < n)
expires_lt→lt none n h = cc
expires_lt→lt (some x) n h = (x, refl, ground arith)

attempt_lt→IsBelow : (a : Attempt) (n : ℕ) → attempt_lt a n ≡ true → IsBelow a n
attempt_lt→IsBelow unclaimed n h = tt
attempt_lt→IsBelow (attempt m) n h = ground arith

-- The tests that the three UPDATE statements make.
data Passed (c : ClaimArgs) (t : Task) : Type 0 where
  first : t.state ≡ queued → Passed c t
  second :
      t.state ≡ running
      → opt_str_eq t.worker_token c.worker_token ≡ true
      → attempt_lt t.worker_attempt c.retry_count ≡ true
      → t.retry_count ≡ c.retry_count
      → expires_le t.worker_lease_expires_at c.now ≡ true
      → Passed c t
  third :
      t.state ≡ running
      → opt_str_eq t.worker_token c.worker_token ≡ true
      → t.worker_attempt ≡ attempt c.retry_count
      → expires_lt t.worker_lease_expires_at c.now ≡ true
      → Passed c t

granted-Passed :
    (c : ClaimArgs) (db : Db) (t : Task)
    → db.tasks c.task_id ≡ some t
    → (claim_task c db).0 ≡ ok tt
    → Passed c t
unfolding claim_task
granted-Passed c db t e h = grind (arith, first, second, third)

Passed-MayClaim : (c : ClaimArgs) (t : Task) → Passed c t → MayClaim c t
Passed-MayClaim c t (first q) = from_queue q
Passed-MayClaim c t (second r w b n x) =
    let (expiry, e, le) = expires_le→le t.worker_lease_expires_at c.now x in
    next_attempt expiry r (opt_str_eq→eq _ _ w) (attempt_lt→IsBelow _ _ b) n e le
Passed-MayClaim c t (third r w a x) =
    let (expiry, e, lt) = expires_lt→lt t.worker_lease_expires_at c.now x in
    same_attempt expiry r (opt_str_eq→eq _ _ w) a e lt

granted-row :
    (c : ClaimArgs) (db : Db)
    → (claim_task c db).0 ≡ ok tt
    → (t : Task) × (db.tasks c.task_id ≡ some t)
unfolding claim_task
granted-row c db h = ground arith

-- A claim is granted only as the rules allow.
granted-MayClaim :
    (c : ClaimArgs) (db : Db)
    → (claim_task c db).0 ≡ ok tt
    → (t : Task) × (db.tasks c.task_id ≡ some t) × MayClaim c t
granted-MayClaim c db h =
    let (t, e) = granted-row c db h in (t, e, Passed-MayClaim c t (granted-Passed c db t e h))

-- A refused claim changes nothing.
pub claim-refused :
    (c : ClaimArgs) (db : Db) (e : Failure) → (claim_task c db).0 ≡ err e → (claim_task c db).1 ≡ db
unfolding claim_task
claim-refused c db e h = ground arith

-- A claim touches no row but its own.
claim-frame :
    (c : ClaimArgs) (db : Db) (k : String)
    → k ≢ c.task_id
    → (claim_task c db).1.tasks k ≡ db.tasks k
unfolding claim_task
claim-frame c db k h = ground (arith, eq_iff c.task_id k)

-- A claim is granted exactly when the rules allow it.
pub claim_granted_iff :
    (c : ClaimArgs) (db : Db)
    → ((claim_task c db).0 ≡ ok tt) ↔ ((t : Task) × (db.tasks c.task_id ≡ some t) × MayClaim c t)
claim_granted_iff c db = (granted-MayClaim c db, λ (t, e, m). (claim-granted c db t e m).0)

-- What a granted claim leaves: the row under the new lease, and all other rows as they were.
pub claim_writes_lease :
    (c : ClaimArgs) (db : Db)
    → (claim_task c db).0 ≡ ok tt
    → (t : Task) × (db.tasks c.task_id ≡ some t)
      × ((claim_task c db).1.tasks c.task_id ≡ some (leased c t))
      × ((k : String) → k ≢ c.task_id → (claim_task c db).1.tasks k ≡ db.tasks k)
claim_writes_lease c db h =
    let (t, e, m) = granted-MayClaim c db h in
    (t, e, (claim-granted c db t e m).1, claim-frame c db)
