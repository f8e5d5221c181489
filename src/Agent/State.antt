-- ===== src/Agent/State.antt =====
-- state.py and graph.py: the state of a run, its refusals and its answers.
use aquaops_copilot.Common.{String, Bool, true, Option, none, some, List, [], ◌∷◌, ◌++◌}
use aquaops_copilot.Agent.Budget.{ToolBudget, initial}
use aquaops_copilot.Agent.Evidence.{PublicEvidenceReference}
use aquaops_copilot.Agent.Coverage.{CoverageGateResult}
use aquaops_copilot.Agent.Traces.{ToolTrace}

-- A missing key is `none`.
pub record AgentState : Type 0 where
  pub request_id : Option String
  pub mode : Option String
  pub question : Option String
  pub evidence : Option (List PublicEvidenceReference)
  pub answer : Option String
  pub requires_human_review : Option Bool
  pub tool_budget : ToolBudget
  pub tool_traces : List ToolTrace
  pub coverage : Option CoverageGateResult

-- The keys that are read of what a caller gives, `none` where the value is no text.
pub record Input : Type 0 where
  pub request_id : Option String
  pub mode : Option String
  pub question : Option String

-- `initialize_safe_agent_state`; `none` is no dictionary.
unfoldable pub initialize_safe_agent_state : Option Input → AgentState
initialize_safe_agent_state none = record {
  request_id = none;
  mode = none;
  question = none;
  evidence = none;
  answer = none;
  requires_human_review = none;
  tool_budget = initial;
  tool_traces = [];
  coverage = none;
}
initialize_safe_agent_state (some i) = record {
  request_id = i.request_id;
  mode = i.mode;
  question = i.question;
  evidence = none;
  answer = none;
  requires_human_review = none;
  tool_budget = initial;
  tool_traces = [];
  coverage = none;
}

abbrev pub insufficient : String
insufficient = "信息不足，无法基于已公开证据给出建议。"

-- `_safe_refusal`, the answer without evidence
unfoldable pub safe_refusal : AgentState → AgentState
safe_refusal st = record st {
  evidence = some [];
  answer = some insufficient;
  requires_human_review = some true;
}

abbrev pub with_trace : AgentState → ToolTrace → AgentState
with_trace st t = record st { tool_traces = st.tool_traces ++ (t ∷ []) }

abbrev pub refused_with : AgentState → Option ToolTrace → Option AgentState
refused_with st none = none
refused_with st (some t) = some (safe_refusal (with_trace st t))

abbrev pub answered_state :
    AgentState → List PublicEvidenceReference → String → CoverageGateResult → ToolTrace → AgentState
answered_state st refs answer cov t = record (with_trace st t) {
  evidence = some refs;
  answer = some answer;
  requires_human_review = some true;
  coverage = some cov;
}

abbrev pub answered_with :
    AgentState
    → List PublicEvidenceReference
    → String
    → CoverageGateResult
    → Option ToolTrace
    → Option AgentState
answered_with st refs answer cov none = none
answered_with st refs answer cov (some t) = some (answered_state st refs answer cov t)
