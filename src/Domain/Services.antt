-- ===== src/Domain/Services.antt =====
-- aquaops/domain/services.py
use aquaops_copilot.Common.{
  String, Bool, true, false, ◌&&◌, Option, none, some, List, [], ◌∷◌, ◌++◌, if◌then◌else◌, Outcome,
  ok, err, ◌==◌, str_eq, find, is_none,
}
use aquaops_copilot.Domain.Models.{
  TaskState, queued, running, succeeded, failed, state_eq, Task, AuditEvent, Case, Db,
}
use aquaops_copilot.Domain.Session.{
  Failure, task_not_found, concurrent_transition, integrity_error, invalid_transition, Statement,
  update_task, add_event,
}

-- ALLOWED_TRANSITIONS: is `target` in the set of `current`?
unfoldable pub allowed : TaskState → TaskState → Bool
allowed queued running = true
allowed queued failed = true
allowed running succeeded = true
allowed running failed = true
allowed _ _ = false

unfoldable pub transition_task : TaskState → TaskState → Outcome Failure TaskState
unfolding allowed
transition_task current target =
    if allowed current target then ok target else err (invalid_transition current target)

abbrev owned : String → Option Task → Option Task
owned owner none = none
owned owner (some t) = if str_eq t.owner_id owner then some t else none

-- SELECT … WHERE id = task_id AND owner_id = owner_id
unfoldable pub get_task_for_owner : String → String → Db → Option Task
get_task_for_owner task_id owner_id db = owned owner_id (db.tasks task_id)

abbrev pub transitioned : Task → String → String → AuditEvent
transitioned task actor_id request_id = record {
  action = "task.transitioned";
  request_id = request_id;
  actor_id = actor_id;
  entity_type = "task";
  entity_id = task.id;
}

write_transition : String → String → String → Task → TaskState → Statement Task
unfolding update_task add_event
write_transition task_id actor_id request_id task target db =
    let (db', rows) =
      update_task task_id (λ t. str_eq t.owner_id actor_id && state_eq t.state task.state)
        (λ t. record t { state = target }) db in
    if rows == 1
    then (
      ok (record task { state = target }),
      add_event (transitioned task actor_id request_id) db',
    )
    else (err concurrent_transition, db')

abbrev checked :
    String → String → String → Task → Outcome Failure TaskState → (Db → Outcome Failure Task × Db)
checked task_id actor_id request_id task (err e) db = (err e, db)
checked task_id actor_id request_id task (ok target) db =
    write_transition task_id actor_id request_id task target db

abbrev found : String → TaskState → String → String → (Db → Db) → Option Task → Statement Task
found task_id target actor_id request_id raced none db = (err task_not_found, db)
found task_id target actor_id request_id raced (some task) db =
    checked task_id actor_id request_id task (transition_task task.state target) (raced db)

-- `raced` is what other sessions commit between the SELECT and the UPDATE.
unfoldable pub transition_persisted_task :
    String → TaskState → String → String → (Db → Db) → Statement Task
unfolding get_task_for_owner transition_task write_transition
transition_persisted_task task_id target actor_id request_id raced db =
    found task_id target actor_id request_id raced (get_task_for_owner task_id actor_id db) db

-- SELECT … WHERE owner_id = … AND external_key = …
abbrev pub find_case : String → String → List Case → Option Case
find_case owner_id external_key =
    find (λ c. str_eq c.owner_id owner_id && str_eq c.external_key external_key)

unfoldable pub get_case_for_owner : String → String → Db → Option Case
get_case_for_owner case_id owner_id db =
    find (λ c. str_eq c.id case_id && str_eq c.owner_id owner_id) db.cases

-- The INSERT in its savepoint: `none` is the IntegrityError of the unique constraint or the
-- primary key, which undoes the savepoint and nothing else.
insert_case : Case → Db → Option Db
insert_case case db =
    if is_none (find_case case.owner_id case.external_key db.cases)
      && is_none (find (λ c. str_eq c.id case.id) db.cases)
    then some (record db { cases = db.cases ++ case ∷ [] })
    else none

abbrev pub case_created : Case → String → AuditEvent
case_created case request_id = record {
  action = "case.created";
  request_id = request_id;
  actor_id = case.owner_id;
  entity_type = "case";
  entity_id = case.id;
}

abbrev after_conflict : Option Case → Statement (Case × Bool)
after_conflict none db = (err integrity_error, db)
after_conflict (some existing) db = (ok (existing, false), db)

abbrev inserted : Case → String → Option Db → Statement (Case × Bool)
inserted case request_id none db =
    after_conflict (find_case case.owner_id case.external_key db.cases) db
inserted case request_id (some db') db =
    (ok (case, true), add_event (case_created case request_id) db')

abbrev unless_exists : Option Case → Case → String → (Db → Db) → Statement (Case × Bool)
unless_exists (some existing) case request_id raced db = (ok (existing, false), db)
unless_exists none case request_id raced db =
    let db' = raced db in inserted case request_id (insert_case case db') db'

-- `new_id` is the key that the column default draws; `raced` is what other sessions commit
-- between the SELECT and the INSERT.
unfoldable pub create_case :
    String → String → String → String → String → (Db → Db) → Statement (Case × Bool)
unfolding insert_case add_event
create_case new_id owner_id external_key title request_id raced db =
    unless_exists (find_case owner_id external_key db.cases)
      (record { id = new_id; owner_id = owner_id; external_key = external_key; title = title })
      request_id raced db
