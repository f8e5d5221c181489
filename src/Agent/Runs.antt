-- ===== src/Agent/Runs.antt =====
-- agent/state.py: the bounded store of completed runs.
use aquaops_copilot.Common.{
  ℕ, zero, suc, ◌-◌, String, Bool, true, false, Option, none, some, List, [], ◌∷◌, ◌++◌,
  if◌then◌else◌, ltb, str_eq, is_none, length,
}
pub mod Store
mod Samples

pub record AgentRunCompleted : Type 0 where
  pub run_id : String
  pub request_id : String
  pub answer : String
  pub evidence : List (List (String × String))
  pub requires_human_review : Bool

-- The results in the order of their insertion.
pub record RunStore : Type 0 where
  pub max_entries : ℕ
  pub results : List AgentRunCompleted

-- `none` is a ValueError.
unfoldable pub new_store : ℕ → Option RunStore
new_store max_entries =
    if ltb max_entries 1 then none else some (record { max_entries = max_entries; results = [] })

unfoldable pub find_run : String → List AgentRunCompleted → Option AgentRunCompleted
find_run id [] = none
find_run id (r ∷ rs) = if str_eq r.run_id id then some r else find_run id rs

-- `while len(results) > max_entries: results.popitem(last=False)`
unfoldable pub evict : ℕ → List AgentRunCompleted → List AgentRunCompleted
evict max_entries [] = []
evict max_entries (r ∷ rs) =
    let rest = evict max_entries rs in if ltb max_entries (length (r ∷ rs)) then rest else r ∷ rs

unfoldable pub save : AgentRunCompleted → RunStore → Bool × RunStore
save result s =
    if is_none (find_run result.run_id s.results)
    then (true, record s { results = evict s.max_entries (s.results ++ (result ∷ [])) })
    else (false, s)

unfoldable pub get : String → RunStore → Option AgentRunCompleted
get run_id s = find_run run_id s.results
