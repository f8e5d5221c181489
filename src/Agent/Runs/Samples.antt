-- ===== src/Agent/Runs/Samples.antt =====
-- A full store of two runs, and the theorems at these inputs.
use aquaops_copilot.Common.{
  ◌+◌, ◌-◌, String, ◌≡◌, ◌≢◌, refl, true, false, none, some, [], ◌∷◌, ◌++◌, drop, length, arith,
}
use aquaops_copilot.Agent.Runs.{AgentRunCompleted, RunStore, find_run, save, get}
use aquaops_copilot.Agent.Runs.Store.{unique_runs, IsStore, save_keeps_newest}

abbrev run : String → AgentRunCompleted
run id = record {
  run_id = id;
  request_id = "r-1";
  answer = "A. Ammonium";
  evidence = [];
  requires_human_review = true;
}

abbrev full : RunStore
full = record { max_entries = 2; results = run "first" ∷ run "second" ∷ [] }

full-IsStore : IsStore full
full-IsStore = record {
  has_room = omega arith;
  is_bounded = omega arith;
  is_unique = unfold unique_runs find_run in refl;
}

save_keeps_newest_example :
    (get "third" full ≡ none
      → ((save (run "third") full).0 ≡ true)
        × ((save (run "third") full).1.results
            ≡ drop
                (length full.results + 1 - full.max_entries)
                (full.results ++ (run "third" ∷ [])))
        × IsStore (save (run "third") full).1
        × (get "third" (save (run "third") full).1 ≡ some (run "third")))
    × (get "third" full ≢ none → save (run "third") full ≡ (false, full))
save_keeps_newest_example = save_keeps_newest (run "third") full full-IsStore
