-- ===== src/Domain/Samples.antt =====
-- The services on a small database, and the theorems at these inputs.
use aquaops_copilot.Common.{
  ◌≡◌, refl, none, some, [], ◌∷◌, ok, err, Bool, true, false, str_eq, if◌then◌else◌,
}
use aquaops_copilot.Domain.Models.{queued, running, failed, unclaimed, Task, Case, Db, put_task}
use aquaops_copilot.Domain.Session.{task_not_found, concurrent_transition, invalid_transition}
use aquaops_copilot.Domain.Services.{
  get_task_for_owner, get_case_for_owner, transition_persisted_task, create_case, find_case,
}
use aquaops_copilot.Domain.Transition.{
  Edge, NotMine, HasLeft, Moved, call, transition_moves_along_edge, transition_refusals,
}
use aquaops_copilot.Domain.Ownership.{
  create_case_returns_stored, create_case_idempotent, lookups_respect_owner,
}

abbrev job : Task
job = record {
  id = "job";
  owner_id = "ann";
  agent_run_id = none;
  state = queued;
  request_id = "r0";
  retry_count = 0;
  error_class = none;
  worker_token = none;
  worker_attempt = unclaimed;
  worker_lease_token = none;
  worker_lease_expires_at = none;
}

abbrev office : Db
office = record {
  tasks = λ k. if str_eq k "job" then some job else none;
  cases = record { id = "c1"; owner_id = "ann"; external_key = "k1"; title = "First" } ∷ [];
  audit_events = [];
}

abbrev quiet : Db → Db
quiet db = db

transition_moves_along_edge_example :
    Moved "job" "ann" running office (call "job" running "ann" "r1" quiet office).1
unfolding transition_persisted_task
transition_moves_along_edge_example =
    transition_moves_along_edge "job" running "ann" "r1" quiet office
      (record job { state = running }) refl

-- Another session cancels the task between the read and the write.
abbrev cancelled : Db → Db
cancelled db = put_task db "job" (record job { state = failed })

transition_refusals_example :
    (NotMine "job" running "ann" "r1" cancelled office
      → call "job" running "ann" "r1" cancelled office ≡ (err task_not_found, office))
    × ((t : Task)
        → office.tasks "job" ≡ some t
        → t.owner_id ≡ "ann"
        → ¬ Edge t.state running
        → call "job" running "ann" "r1" cancelled office
          ≡ (err (invalid_transition t.state running), cancelled office))
    × ((t : Task)
        → office.tasks "job" ≡ some t
        → t.owner_id ≡ "ann"
        → Edge t.state running
        → HasLeft "job" running "ann" "r1" cancelled office t
        → call "job" running "ann" "r1" cancelled office
          ≡ (err concurrent_transition, cancelled office))
transition_refusals_example = transition_refusals "job" running "ann" "r1" cancelled office

abbrev second : Case
second = record { id = "c2"; owner_id = "ann"; external_key = "k2"; title = "Second" }

second_created : (create_case "c2" "ann" "k2" "Second" "r2" quiet office).0 ≡ ok (second, true)
unfolding create_case
second_created = refl

create_case_returns_stored_example :
    (find_case "ann" "k2" (create_case "c2" "ann" "k2" "Second" "r2" quiet office).1.cases
      ≡ some second)
    × (◌≡◌ {A = Bool} true true → find_case "ann" "k2" office.cases ≡ none)
create_case_returns_stored_example =
    create_case_returns_stored "c2" "ann" "k2" "Second" "r2" quiet office second true second_created

create_case_idempotent_example :
    create_case "c3" "ann" "k2" "Third" "r3" quiet
      (create_case "c2" "ann" "k2" "Second" "r2" quiet office).1
    ≡ (ok (second, false), (create_case "c2" "ann" "k2" "Second" "r2" quiet office).1)
create_case_idempotent_example =
    create_case_idempotent "c2" "ann" "k2" "Second" "r2" quiet office second true second_created
      "c3" "Third" "r3" quiet

lookups_respect_owner_example :
    ((c : Case)
      → get_case_for_owner "c1" "ann" office ≡ some c
      → (c.id ≡ "c1") × (c.owner_id ≡ "ann"))
    × ((t : Task)
        → get_task_for_owner "c1" "ann" office ≡ some t
        → (office.tasks "c1" ≡ some t) × (t.owner_id ≡ "ann"))
lookups_respect_owner_example = lookups_respect_owner "c1" "ann" office
