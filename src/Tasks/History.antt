-- ===== src/Tasks/History.antt =====
-- What any interleaving of the transactions on the database keeps, whoever sends them.
use mathlib.Core.Path.{subst}
use aquaops_copilot.Common.{
  ℕ, ◌≤◌, String, ◌≡◌, refl, sym, ◌∙◌, inl, inr, Option, none, some, List, [], ◌∷◌, arith, eq_iff,
  Bool-cases,
}
use aquaops_copilot.Domain.Models.{TaskState, queued, running, succeeded, failed, Task, Db}
use aquaops_copilot.Domain.Services.{transition_persisted_task, create_case}
use aquaops_copilot.Tasks.Claim.{ClaimArgs, claim_task}
use aquaops_copilot.Tasks.Finish.{FinishArgs, finish_attempt}
use aquaops_copilot.Tasks.Attempt.{
  RunArgs, Surroundings, Handled, returned, raised, crashed, retryable, retrying, failing,
  succeeding, complete,
}

-- A transaction of a worker or of a service.
pub data Operation : Type 0 where
  claim : ClaimArgs → Operation
  settle : RunArgs → Surroundings → Handled → Operation
  transition : String → TaskState → String → String → Operation
  new_case : String → String → String → String → String → Operation

unfoldable pub apply : Operation → Db → Db
apply (claim c) db = (claim_task c db).1
apply (settle a w o) db = (complete a w o db).db
apply (transition task_id target actor_id request_id) db =
    (transition_persisted_task task_id target actor_id request_id (λ d. d) db).1
apply (new_case new_id owner_id key title request_id) db =
    (create_case new_id owner_id key title request_id (λ x. x) db).1

unfoldable pub apply_all : List Operation → Db → Db
apply_all [] db = db
apply_all (o ∷ os) db = apply_all os (apply o db)

abbrev pub rank : TaskState → ℕ
rank queued = 0
rank running = 1
rank succeeded = 2
rank failed = 2

-- How a row may have changed.
pub record Advanced (t u : Task) : Type 0 where
  pub same_id : u.id ≡ t.id
  pub same_owner : u.owner_id ≡ t.owner_id
  pub same_request : u.request_id ≡ t.request_id
  pub retries_grow : t.retry_count ≤ u.retry_count
  pub state_advances : rank t.state ≤ rank u.state
  pub terminal : rank t.state ≡ 2 → u ≡ t

abbrev pub RowAdvanced : Option Task → Option Task → Type 0
RowAdvanced none none = Unit
RowAdvanced none (some u) = ⊥
RowAdvanced (some t) none = ⊥
RowAdvanced (some t) (some u) = Advanced t u

Advanced-refl : (t : Task) → Advanced t t
Advanced-refl t = record {
  same_id = refl;
  same_owner = refl;
  same_request = refl;
  retries_grow = omega arith;
  state_advances = omega arith;
  terminal = λ _. refl;
}

RowAdvanced-refl : (o : Option Task) → RowAdvanced o o
RowAdvanced-refl none = tt
RowAdvanced-refl (some t) = Advanced-refl t

Advanced-trans : (t u v : Task) → Advanced t u → Advanced u v → Advanced t v
Advanced-trans t u v p q = record {
  same_id = cc (p.same_id, q.same_id);
  same_owner = cc (p.same_owner, q.same_owner);
  same_request = cc (p.same_request, q.same_request);
  retries_grow = omega arith;
  state_advances = omega arith;
  terminal = λ h. let e = p.terminal h in q.terminal (subst (λ x. rank x.state ≡ 2) (sym e) h) ∙ e;
}

RowAdvanced-trans : (a b c : Option Task) → RowAdvanced a b → RowAdvanced b c → RowAdvanced a c
RowAdvanced-trans none none none p q = tt
RowAdvanced-trans (some t) (some u) (some v) p q = Advanced-trans t u v p q
RowAdvanced-trans none none (some v) p q = absurd q
RowAdvanced-trans none (some u) c p q = absurd p
RowAdvanced-trans (some t) none c p q = absurd p
RowAdvanced-trans (some t) (some u) none p q = absurd q

claim-RowAdvanced :
    (c : ClaimArgs) (db : Db) (k : String) → RowAdvanced (db.tasks k) ((claim_task c db).1.tasks k)
unfolding claim_task
claim-RowAdvanced c db k = ground (arith, eq_iff c.task_id k)

finish-RowAdvanced :
    (f : FinishArgs) (db : Db) (k : String)
    → 1 ≤ rank f.target
    → RowAdvanced (db.tasks k) ((finish_attempt f db).1.tasks k)
unfolding finish_attempt
finish-RowAdvanced f db k h = ground (arith, eq_iff f.task_id k)

complete-RowAdvanced :
    (a : RunArgs) (w : Surroundings) (o : Handled) (db : Db) (k : String)
    → RowAdvanced (db.tasks k) ((complete a w o db).db.tasks k)
unfolding complete
complete-RowAdvanced a w crashed db k = RowAdvanced-refl (db.tasks k)
complete-RowAdvanced a w returned db k =
    ground (arith, finish-RowAdvanced (succeeding a w) db k (omega arith))
complete-RowAdvanced a w (raised e) db k = elim (Bool-cases (retryable a e)) [
  | inl y ↦ rw y (finish-RowAdvanced (retrying a w) db k (omega arith))
  | inr n ↦ rw n (finish-RowAdvanced (failing a w e) db k (omega arith))
]

transition-RowAdvanced :
    (task_id : String) (target : TaskState) (actor request : String) (db : Db) (k : String)
    → RowAdvanced
        (db.tasks k)
        ((transition_persisted_task task_id target actor request (λ d. d) db).1.tasks k)
unfolding transition_persisted_task
transition-RowAdvanced task_id target actor request db k = ground (arith, eq_iff task_id k)

pub tasks-create_case :
    (i o x t r : String) (db : Db) → (create_case i o x t r (λ d. d) db).1.tasks ≡ db.tasks
unfolding create_case
tasks-create_case i o x t r db = ground arith

apply-RowAdvanced :
    (o : Operation) (db : Db) (k : String) → RowAdvanced (db.tasks k) ((apply o db).tasks k)
unfolding apply
apply-RowAdvanced (claim c) db k = claim-RowAdvanced c db k
apply-RowAdvanced (settle a w o) db k = complete-RowAdvanced a w o db k
apply-RowAdvanced (transition i s a r) db k = transition-RowAdvanced i s a r db k
apply-RowAdvanced (new_case i o x t r) db k =
    rw (tasks-create_case i o x t r db) (RowAdvanced-refl (db.tasks k))

-- Under any sequence of transactions no task row appears or vanishes, each keeps its id, owner
-- and request id, its retry count never falls, its state only moves on (queued, running, then
-- succeeded or failed), and a succeeded or failed row never changes again.
pub rows_advance :
    (os : List Operation) (db : Db) (k : String)
    → RowAdvanced (db.tasks k) ((apply_all os db).tasks k)
unfolding apply_all
rows_advance [] db k = RowAdvanced-refl (db.tasks k)
rows_advance (o ∷ os) db k =
    RowAdvanced-trans _ _ _ (apply-RowAdvanced o db k) (rows_advance os (apply o db) k)
