-- ===== src/Tasks/Schedule.antt =====
-- The retry count of a row runs at most one ahead of its attempt, so that a scheduled retry is
-- always claimed by the next delivery.
use mathlib.Core.Path.{subst}
use aquaops_copilot.Common.{
  ℕ, ◌+◌, ◌≤◌, String, ◌≡◌, ◌≢◌, refl, sym, ◌∙◌, ap, ltb, if◌then◌else◌, Option, none, some, List,
  [], ◌∷◌, ok, arith, eq_iff, true, Bool-cases, inl, inr,
}
use aquaops_copilot.Domain.Models.{TaskState, queued, Attempt, unclaimed, attempt, Task, Db}
use aquaops_copilot.Domain.Services.{transition_persisted_task}
use aquaops_copilot.Tasks.Claim.{ClaimArgs, claim_task}
use aquaops_copilot.Tasks.Claiming.{MayClaim, next_attempt, claim_granted_iff, opt_str_eq→eq}
use aquaops_copilot.Tasks.Finish.{FinishArgs, holds_lease, finished, finish_attempt}
use aquaops_copilot.Tasks.Ending.{granted-Holds}
use aquaops_copilot.Tasks.Attempt.{
  RunArgs, Surroundings, Handled, returned, raised, crashed, retrying, failing, succeeding,
  retryable, complete, db-complete_return, db-complete_raise,
}
use aquaops_copilot.Tasks.History.{
  Operation, claim, settle, transition, new_case, apply, apply_all, tasks-create_case,
}

abbrev RetryBound : Attempt → ℕ → Type 0
RetryBound unclaimed n = n ≡ 0
RetryBound (attempt m) n = n ≤ m + 1

pub record RowScheduled (t : Task) : Type 0 where
  pub bound : RetryBound t.worker_attempt t.retry_count
  pub fresh : t.state ≡ queued → t.worker_attempt ≡ unclaimed

abbrev pub IsScheduled : Option Task → Type 0
IsScheduled none = Unit
IsScheduled (some t) = RowScheduled t

-- Every row of the table.
pub record AllScheduled (db : Db) : Type 0 where
  pub at : (k : String) → IsScheduled (db.tasks k)

claim-IsScheduled :
    (c : ClaimArgs) (db : Db) (k : String)
    → IsScheduled (db.tasks k)
    → IsScheduled ((claim_task c db).1.tasks k)
unfolding claim_task
claim-IsScheduled c db k h = ground (arith, eq_iff c.task_id k)

finish-IsScheduled :
    (f : FinishArgs) (db : Db) (k : String)
    → f.retry_count ≤ f.expected_attempt + 1
    → f.target ≢ queued
    → IsScheduled (db.tasks k)
    → IsScheduled ((finish_attempt f db).1.tasks k)
unfolding finish_attempt
finish-IsScheduled f db k b q h = ground (arith, eq_iff f.task_id k)

complete-IsScheduled :
    (a : RunArgs) (w : Surroundings) (o : Handled) (db : Db) (k : String)
    → IsScheduled (db.tasks k)
    → IsScheduled ((complete a w o db).db.tasks k)
complete-IsScheduled a w crashed db k h = unfold complete in h
complete-IsScheduled a w returned db k h =
    rw db-complete_return (finish-IsScheduled (succeeding a w) db k (omega arith) (λ e. cc) h)
complete-IsScheduled a w (raised e) db k h =
    rw db-complete_raise (elim (Bool-cases (retryable a e)) [
      | inl y ↦ rw y (finish-IsScheduled (retrying a w) db k (omega arith) (λ e. cc) h)
      | inr n ↦ rw n (finish-IsScheduled (failing a w e) db k (omega arith) (λ e. cc) h)
    ])

transition-IsScheduled :
    (i : String) (s : TaskState) (a r : String) (db : Db) (k : String)
    → IsScheduled (db.tasks k)
    → IsScheduled ((transition_persisted_task i s a r (λ d. d) db).1.tasks k)
unfolding transition_persisted_task
transition-IsScheduled i s a r db k h = ground (arith, eq_iff i k)

pub apply-AllScheduled : (o : Operation) (db : Db) → AllScheduled db → AllScheduled (apply o db)
unfolding apply
apply-AllScheduled (claim c) db h = record { at = λ k. claim-IsScheduled c db k (h.at k) }
apply-AllScheduled (settle a w o) db h = record {
  at = λ k. complete-IsScheduled a w o db k (h.at k);
}
apply-AllScheduled (transition i s a r) db h = record {
  at = λ k. transition-IsScheduled i s a r db k (h.at k);
}
apply-AllScheduled (new_case i o x t r) db h = record {
  at = λ k. rw (tasks-create_case i o x t r db) (h.at k);
}

-- If every row's retry count is at most one ahead of its attempt (and 0 before the first claim),
-- and a queued row is unclaimed, then this holds after any sequence of transactions.
pub schedule_kept :
    (os : List Operation) (db : Db) → AllScheduled db → AllScheduled (apply_all os db)
unfolding apply_all
schedule_kept [] db h = h
schedule_kept (o ∷ os) db h = schedule_kept os (apply o db) (apply-AllScheduled o db h)

held_fields :
    (f : FinishArgs) (t : Task)
    → holds_lease f t ≡ true
    → (t.worker_attempt ≡ attempt f.expected_attempt) × (t.worker_token ≡ some f.worker_token)
held_fields f t h = (ground arith, opt_str_eq→eq t.worker_token f.worker_token (ground arith))

retried-MayClaim :
    (a : RunArgs) (w : Surroundings) (d : ClaimArgs) (t : Task)
    → RowScheduled t
    → holds_lease (retrying a w) t ≡ true
    → d.worker_token ≡ a.worker_token
    → d.retry_count ≡ a.retry_count + 1
    → w.finished_at ≤ d.now
    → MayClaim d (finished (retrying a w) t)
retried-MayClaim a w d t s held k r late =
    let (attempt_is, token_is) = held_fields (retrying a w) t held in
    next_attempt w.finished_at refl (token_is ∙ ap some (sym k)) (rw attempt_is (omega arith))
      (retries_exact t.retry_count (rw attempt_is at s.bound)) refl late
  where
    retries_exact :
        (n : ℕ)
        → n ≤ a.retry_count + 1
        → (if ltb (a.retry_count + 1) n then n else a.retry_count + 1) ≡ d.retry_count
    retries_exact n b = ground arith

-- What a granted finish with target `running` leaves lets the next attempt in.
pub retrying-claimable :
    (a : RunArgs) (w : Surroundings) (d : ClaimArgs) (db : Db)
    → IsScheduled (db.tasks a.task_id)
    → (finish_attempt (retrying a w) db).0 ≡ ok tt
    → d.task_id ≡ a.task_id
    → d.worker_token ≡ a.worker_token
    → d.retry_count ≡ a.retry_count + 1
    → w.finished_at ≤ d.now
    → (claim_task d (finish_attempt (retrying a w) db).1).0 ≡ ok tt
retrying-claimable a w d db h done i k r late =
    let (t, (row, held), row') = granted-Holds (retrying a w) db done in
    (claim_granted_iff d (finish_attempt (retrying a w) db).1).1 (
      finished (retrying a w) t,
      subst (λ j. (finish_attempt (retrying a w) db).1.tasks j ≡ some (finished (retrying a w) t))
          (sym i) row',
      retried-MayClaim a w d t (subst IsScheduled row h) held k r late,
    )
