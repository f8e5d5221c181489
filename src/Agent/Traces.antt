-- ===== src/Agent/Traces.antt =====
-- policy.py: the trace of a tool call.
use aquaops_copilot.Common.{
  ℕ, String, Bool, ◌&&◌, ◌||◌, not, Option, none, some, List, [], ◌∷◌, if◌then◌else◌, ltb, ◌==◌,
  any,
}
use aquaops_copilot.Common.Text.{codes, is_alnum, head_tail}
use aquaops_copilot.Agent.Budget.{registered}
use aquaops_copilot.Agent.Evidence.{occurs}

pub data TraceDecisionCode : Type 0 where
  tool_allowed tool_unavailable tool_not_allowlisted invalid_tool_request : TraceDecisionCode
  invalid_tool_budget tool_budget_exhausted tool_call_limit_reached : TraceDecisionCode
  tool_authorization_invalid tool_completed tool_result_unavailable : TraceDecisionCode

pub data ElapsedBucket : Type 0 where
  under_1s under_5s over_5s : ElapsedBucket

-- The error code of the graph's traces is None.
pub record ToolTrace : Type 0 where
  pub name : String
  pub decision_code : TraceDecisionCode
  pub evidence_ids : List String
  pub elapsed_bucket : ElapsedBucket

abbrev markers : List String
markers = "password" ∷ "private" ∷ "query" ∷ "secret" ∷ "token" ∷ "value" ∷ []

-- _SAFE_EVIDENCE_ID without a marker, on `casefold`
abbrev pub safe_trace_id : (String → String) → String → Bool
safe_trace_id casefold s =
    head_tail is_alnum (λ c. is_alnum c || c == b'.' || c == b'_' || c == b':' || c == b'-') 0 255
      (codes s)
    && not (any (λ m. occurs (codes m) (codes (casefold s))) markers)

unfoldable pub safe_ids : (String → String) → List String → List String
safe_ids casefold [] = []
safe_ids casefold (s ∷ ss) =
    let rest = safe_ids casefold ss in if safe_trace_id casefold s then s ∷ rest else rest

-- The elapsed time is a number of milliseconds.
abbrev bucket_of : ℕ → ElapsedBucket
bucket_of elapsed =
    if ltb elapsed 1000 then under_1s else if ltb elapsed 5000 then under_5s else over_5s

-- `ToolTrace.create`; `none` is a name that is not in the registry.
unfoldable pub create_trace :
    (String → String) → String → TraceDecisionCode → List String → ℕ → Option ToolTrace
create_trace casefold name code ids elapsed =
    if registered name
    then some (record {
      name = name;
      decision_code = code;
      evidence_ids = safe_ids casefold ids;
      elapsed_bucket = bucket_of elapsed;
    })
    else none
