-- ===== src/Domain/Transition.antt =====
-- What a transition through the API may do to a task.
use aquaops_copilot.Common.{
  String, ◌≡◌, ◌≢◌, none, some, Outcome, ok, err, arith, eq_iff, eq_refl, true, false, str_eq, refl,
  ◌&&◌, Bool-cases, Option-cases, inl, inr,
}
use aquaops_copilot.Domain.Models.{
  TaskState, queued, running, succeeded, failed, state_eq, Task, Db,
}
use aquaops_copilot.Domain.Session.{
  Failure, task_not_found, concurrent_transition, invalid_transition,
}
use aquaops_copilot.Domain.Services.{allowed, get_task_for_owner, transition_persisted_task}

-- The edges of the task's life.
pub data Edge : TaskState → TaskState → Type 0 where
  start : Edge queued running
  cancel : Edge queued failed
  succeed : Edge running succeeded
  break : Edge running failed

allowed-Edge : (s t : TaskState) → allowed s t ≡ true → Edge s t
unfolding allowed
allowed-Edge s t h = grind (arith, start, cancel, succeed, break)

Edge-allowed : (s t : TaskState) → Edge s t → allowed s t ≡ true
unfolding allowed
Edge-allowed s t start = refl
Edge-allowed s t cancel = refl
Edge-allowed s t succeed = refl
Edge-allowed s t break = refl

not-Edge : (s t : TaskState) → ¬ Edge s t → allowed s t ≡ false
not-Edge s t n = elim (Bool-cases (allowed s t)) [
  | inl y ↦ absurd (n (allowed-Edge s t y))
  | inr m ↦ m
]

-- What a transition that returned a task has done: the row belongs to the actor, it stood in the
-- state that the transition had read, and the state is all that has changed.
pub record Moved (task_id actor_id : String) (target : TaskState) (before after : Db) : Type 0 where
  pub row : Task
  pub stood : before.tasks task_id ≡ some row
  pub mine : row.owner_id ≡ actor_id
  pub edge : Edge row.state target
  pub written : after.tasks task_id ≡ some (record row { state = target })

state_eq→eq : (s t : TaskState) → state_eq s t ≡ true → s ≡ t
state_eq→eq s t h = ground arith

module _ (task_id : String) (target : TaskState) (actor_id request_id : String) (raced : Db → Db)
    (db : Db) where
  abbrev pub call : Outcome Failure Task × Db
  call = transition_persisted_task task_id target actor_id request_id raced db

  transition-row : (t : Task) → call.0 ≡ ok t → (r : Task) × ((raced db).tasks task_id ≡ some r)
  unfolding transition_persisted_task
  transition-row t h = ground arith

  transition-tests :
      (t r : Task)
      → call.0 ≡ ok t
      → (raced db).tasks task_id ≡ some r
      → (str_eq r.owner_id actor_id ≡ true)
        × (allowed r.state target ≡ true)
        × (call.1.tasks task_id ≡ some (record r { state = target }))
  unfolding transition_persisted_task
  transition-tests t r h e = grind (arith, eq_refl task_id, state_eq→eq)

  -- A transition that returns a task has moved the actor's own row along an edge of the task's
  -- life, from the state in which the row stood when it was written, whatever other sessions
  -- committed between the read and the write.
  pub transition_moves_along_edge :
      (t : Task) → call.0 ≡ ok t → Moved task_id actor_id target (raced db) call.1
  transition_moves_along_edge t h =
      let (r, e) = transition-row t h in
      let (own, edge, row) = transition-tests t r h e in
      record {
        row = r;
        stood = e;
        mine = (eq_iff r.owner_id actor_id).0 own;
        edge = allowed-Edge r.state target edge;
        written = row;
      }

  -- The task, as the transition reads it, is another owner's or is not there.
  abbrev pub NotMine : Type 0
  NotMine = (t : Task) → db.tasks task_id ≡ some t → t.owner_id ≢ actor_id

  -- The row, as the transition writes, has left the actor or the state that was read.
  abbrev pub HasLeft : Task → Type 0
  HasLeft t =
      (r : Task) → (raced db).tasks task_id ≡ some r → r.owner_id ≡ actor_id → r.state ≢ t.state

  not-owned : NotMine → get_task_for_owner task_id actor_id db ≡ none
  unfolding get_task_for_owner
  not-owned n = elim (Option-cases (db.tasks task_id)) [
    | inl e ↦ ground arith
    | inr (t, e) ↦ elim (Bool-cases (str_eq t.owner_id actor_id)) [
      | inl y ↦ absurd (n t e ((eq_iff t.owner_id actor_id).0 y))
      | inr m ↦ ground arith
    ]
  ]

  is-owned :
      (t : Task)
      → db.tasks task_id ≡ some t
      → t.owner_id ≡ actor_id
      → get_task_for_owner task_id actor_id db ≡ some t
  unfolding get_task_for_owner
  is-owned t e o = let same = (eq_iff t.owner_id actor_id).1 o in ground arith

  refused-not_found :
      get_task_for_owner task_id actor_id db ≡ none → call ≡ (err task_not_found, db)
  unfolding transition_persisted_task
  refused-not_found h = ground arith

  refused-off_edge :
      (t : Task)
      → get_task_for_owner task_id actor_id db ≡ some t
      → allowed t.state target ≡ false
      → call ≡ (err (invalid_transition t.state target), raced db)
  unfolding transition_persisted_task
  refused-off_edge t h n = ground arith

  refused-vanished :
      (t : Task)
      → get_task_for_owner task_id actor_id db ≡ some t
      → allowed t.state target ≡ true
      → (raced db).tasks task_id ≡ none
      → call ≡ (err concurrent_transition, raced db)
  unfolding transition_persisted_task
  refused-vanished t h y e = ground arith

  refused-changed :
      (t r : Task)
      → get_task_for_owner task_id actor_id db ≡ some t
      → allowed t.state target ≡ true
      → (raced db).tasks task_id ≡ some r
      → (str_eq r.owner_id actor_id && state_eq r.state t.state) ≡ false
      → call ≡ (err concurrent_transition, raced db)
  unfolding transition_persisted_task
  refused-changed t r h y e n = ground arith

  refused-concurrent :
      (t : Task)
      → get_task_for_owner task_id actor_id db ≡ some t
      → allowed t.state target ≡ true
      → HasLeft t
      → call ≡ (err concurrent_transition, raced db)
  refused-concurrent t h y left = elim (Option-cases ((raced db).tasks task_id)) [
    | inl e ↦ refused-vanished t h y e
    | inr (r, e) ↦ elim (Bool-cases (str_eq r.owner_id actor_id && state_eq r.state t.state)) [
      | inl k ↦ absurd (
          left r e ((eq_iff r.owner_id actor_id).0 (ground arith))
            (state_eq→eq r.state t.state (ground arith)))
      | inr n ↦ refused-changed t r h y e n
    ]
  ]

  -- The refusals, none of which writes anything: a task that is missing or has another owner is
  -- not found; of the actor's own task, a move along no edge of the task's life is an invalid
  -- transition, and a move along an edge is a concurrent one if, when it is written, the row is
  -- gone, has another owner or has left the state that was read.
  pub transition_refusals :
      (NotMine → call ≡ (err task_not_found, db))
      × ((t : Task)
          → db.tasks task_id ≡ some t
          → t.owner_id ≡ actor_id
          → ¬ Edge t.state target
          → call ≡ (err (invalid_transition t.state target), raced db))
      × ((t : Task)
          → db.tasks task_id ≡ some t
          → t.owner_id ≡ actor_id
          → Edge t.state target
          → HasLeft t
          → call ≡ (err concurrent_transition, raced db))
  transition_refusals = (
    λ n. refused-not_found (not-owned n),
    λ t e o n. refused-off_edge t (is-owned t e o) (not-Edge t.state target n),
    λ t e o g left. refused-concurrent t (is-owned t e o) (Edge-allowed t.state target g) left,
  )
