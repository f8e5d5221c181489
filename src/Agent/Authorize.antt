-- ===== src/Agent/Authorize.antt =====
-- policy.py: `_valid_public_arguments` and `authorize_public_tool_call`.
use aquaops_copilot.Common.{
  ℕ, String, Bool, true, false, ◌&&◌, not, Option, none, some, List, [], ◌∷◌, if◌then◌else◌, ltb,
  leb, str_eq, contains, all, any, length, is_none,
}
use aquaops_copilot.Common.Text.{codes, strip, between, len}
use aquaops_copilot.Common.Timestamp.{parse}
use aquaops_copilot.Agent.Budget.{
  ToolBudget, registered, spec_of, calls_for, initial, validated, consume,
}

-- A value of a request. `negative n` is -(n + 1); a bool, a float, None or a container is `other`.
pub data Value : Type 0 where
  text : String → Value
  integer negative : ℕ → Value
  other : Value

-- A dictionary with string keys. Anything else in its place is `none` below.
abbrev pub Arguments : Type 0
Arguments = List (String × Value)

unfoldable pub get : String → Arguments → Option Value
get k [] = none
get k ((j, v) ∷ m) = if str_eq j k then some v else get k m

abbrev pub has : String → Arguments → Bool
has k m = not (is_none (get k m))

abbrev pub keys_within : List String → Arguments → Bool
keys_within names = all (λ e. contains names e.0)

abbrev pub forbidden_argument_names : List String
forbidden_argument_names =
    "access_policy" ∷ "collection" ∷ "data_class" ∷ "database" ∷ "path" ∷ "read_only" ∷ "risk"
    ∷ "sql" ∷ "timeout" ∷ "timeout_seconds" ∷ "token" ∷ "url" ∷ []

abbrev pub public_indicators : List String
public_indicators = "nh4" ∷ "cond" ∷ "q" ∷ []

abbrev is_query : Option Value → Bool
is_query (some (text q)) = between 1 512 (length (strip (codes q)))
is_query _ = false

-- `type(value) is int and lo <= value <= hi`
abbrev is_integer_within : ℕ → ℕ → Option Value → Bool
is_integer_within lo hi (some (integer n)) = between lo hi n
is_integer_within lo hi _ = false

-- `arguments.get("limit", 6)`
abbrev is_limit : Option Value → Bool
is_limit none = true
is_limit (some v) = is_integer_within 1 6 (some v)

abbrev is_indicator : Option Value → Bool
is_indicator (some (text i)) = contains public_indicators i
is_indicator _ = false

abbrev is_canonical_utc_z : Option Value → Bool
is_canonical_utc_z (some (text t)) = not (is_none (parse t))
is_canonical_utc_z _ = false

abbrev pub hour_key : String → String
hour_key name = if str_eq name "aggregate_public_history" then "hours" else "baseline_hours"

unfoldable pub valid_public_arguments : String → Arguments → Bool
unfolding get strip parse
valid_public_arguments name m =
    not (any (λ e. contains forbidden_argument_names e.0) m)
    && (if str_eq name "retrieve_public_water_knowledge"
        then keys_within ("query" ∷ "limit" ∷ []) m
          && has "query" m
          && is_query (get "query" m)
          && is_limit (get "limit" m)
        else keys_within ("indicator" ∷ hour_key name ∷ "end_at" ∷ []) m
          && has "indicator" m
          && has (hour_key name) m
          && has "end_at" m
          && is_indicator (get "indicator" m)
          && is_integer_within 1 168 (get (hour_key name) m)
          && is_canonical_utc_z (get "end_at" m))

pub data DecisionCode : Type 0 where
  tool_allowed tool_unavailable tool_not_allowlisted invalid_tool_request : DecisionCode
  invalid_tool_budget tool_budget_exhausted tool_call_limit_reached : DecisionCode

pub record Decision : Type 0 where
  pub allowed : Bool
  pub code : DecisionCode
  pub tool_name : Option String
  pub budget : ToolBudget

abbrev pub refusal : DecisionCode → Option String → ToolBudget → Decision
refusal code name budget = record {
  allowed = false;
  code = code;
  tool_name = name;
  budget = budget;
}

-- `_normalized_budget_snapshot`; `none` is an object of another type.
abbrev pub normalized : Option ToolBudget → Option ToolBudget
normalized none = none
normalized (some b) = validated b

abbrev pub safe : Option ToolBudget → ToolBudget
safe none = initial
safe (some b) = b

abbrev pub available_in : Option (List String) → String → Bool
available_in none name = true
available_in (some names) name = contains names name

-- ToolInvocation(name=…, arguments=…)
abbrev pub invocation : String → Option Arguments → Option Arguments
invocation name args = if between 1 96 (len name) then args else none

abbrev refuse : DecisionCode → Option String → ToolBudget → Option Decision
refuse code name budget = some (refusal code name budget)

abbrev pub allowance : String → ToolBudget → Decision
allowance name b = record { allowed = true; code = tool_allowed; tool_name = some name; budget = b }

-- `none` is the ValueError of `consume`, which nothing here catches.
abbrev granted : String → Option ToolBudget → Option Decision
granted name none = none
granted name (some b) = some (allowance name b)

budgeted : String → Option ToolBudget → Option Decision
budgeted name none = refuse invalid_tool_budget (some name) initial
budgeted name (some b) =
    if ltb b.remaining_total 1
    then refuse tool_budget_exhausted (some name) b
    else if leb (spec_of name).max_calls (calls_for b name)
    then refuse tool_call_limit_reached (some name) b
    else granted name (consume b (spec_of name))

invoked : String → Option Arguments → Option ToolBudget → Option Decision
unfolding budgeted
invoked name none budget = refuse invalid_tool_request (some name) (safe budget)
invoked name (some args) budget =
    if valid_public_arguments name args
    then budgeted name budget
    else refuse invalid_tool_request (some name) (safe budget)

abbrev named :
    Option String → Option Arguments → Option ToolBudget → Option (List String) → Option Decision
named none args budget available = refuse tool_not_allowlisted none (safe budget)
named (some name) args budget available =
    if not (registered name)
    then refuse tool_not_allowlisted none (safe budget)
    else if not (available_in available name)
    then refuse tool_unavailable (some name) (safe budget)
    else invoked name (invocation name args) budget

-- `name` and `budget` are `none` when they are no `str` and no `ToolBudget`; the result is `none`
-- if an exception leaves the function.
unfoldable pub authorize_public_tool_call :
    Option String → Option Arguments → Option ToolBudget → Option (List String) → Option Decision
unfolding invoked
authorize_public_tool_call name args budget available =
    named name args (normalized budget) available
