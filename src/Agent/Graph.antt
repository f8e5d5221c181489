-- ===== src/Agent/Graph.antt =====
-- graph.py: one run of the operations graph.
pub mod Cited
pub mod Verified
pub mod Stages
pub mod Knowledge
pub mod Calls
pub mod Runs
mod Samples
use aquaops_copilot.Common.{
  ℕ, zero, suc, String, Bool, true, false, ◌&&◌, not, Option, none, some, List, [], ◌∷◌, ◌++◌, map,
  if◌then◌else◌, ◌==◌, str_eq, all, contains, length, Outcome, ok, err,
}
use aquaops_copilot.Common.Text.{codes, len, between, is_blank, is_digit}
use aquaops_copilot.Agent.Budget.{ToolBudget, initial}
use aquaops_copilot.Agent.Authorize.{Arguments, Value, text, get, Decision, DecisionCode}
use aquaops_copilot.Agent.Grants.{
  Host, Grant, Receipt, Issue, create_public_tool_budget_session, public_tool_budget_snapshot,
  issue_public_tool_grant, consume_issued_public_tool_grant,
}
use aquaops_copilot.Agent.Evidence.{
  Platform, PublicEvidenceReference, same_reference, VerifiedPublicEvidence, Dimension, A, B, C,
  mint_verified_public_evidence_batch,
}
use aquaops_copilot.Agent.Coverage.{
  AbcRequirement, Triple, CoverageGateResult, CoverageError, Supplied, coverage_gate,
  dimension_name,
}
use aquaops_copilot.Agent.Coverage.Answer.{FixedAgentAnswer, from_coverage, is_review}
use aquaops_copilot.Agent.Traces.{
  TraceDecisionCode, tool_completed, tool_result_unavailable, tool_authorization_invalid, ToolTrace,
  create_trace,
}
use aquaops_copilot.Agent.Requests.{diagnostic_tool_request}
use aquaops_copilot.Agent.Retrieved.{validated_public_retrieval, reference_of, conclusion_of}
use aquaops_copilot.Agent.Diagnostics.{
  Printing, DiagnosticResult, aggregate, screening, Rendering, expected_public_historical_rendering,
  run_public_historical_diagnostic,
}
use aquaops_copilot.Data.Numbers.{Numbers, Datetimes, PublicObservation}
use aquaops_copilot.Data.Boundary.{delivered}
use aquaops_copilot.Retrieval.Hybrid.{PublicEvidence, RetrievalResult}
use aquaops_copilot.Agent.State.{
  AgentState, Input, initialize_safe_agent_state, insufficient, safe_refusal, with_trace,
  refused_with, answered_state, answered_with,
}
use aquaops_copilot.Agent.Citations.{
  nonblank, citations_valid, is_valid_rendered, same_rendering, checked_rendering, is_ok, joined,
  mint_each, dimension_of, legacy_conclusion,
}

-- _LEGACY_ABC_PLAN
abbrev pub legacy_abc_plan : Triple AbcRequirement
legacy_abc_plan = record {
  first = record { dimension = A; requirement = "公开历史趋势或聚合证据" };
  second = record { dimension = B; requirement = "公开异常筛查证据" };
  third = record { dimension = C; requirement = "公开知识依据" };
}

abbrev pub code_of : DecisionCode → TraceDecisionCode
code_of DecisionCode.tool_allowed = TraceDecisionCode.tool_allowed
code_of DecisionCode.tool_unavailable = TraceDecisionCode.tool_unavailable
code_of DecisionCode.tool_not_allowlisted = TraceDecisionCode.tool_not_allowlisted
code_of DecisionCode.invalid_tool_request = TraceDecisionCode.invalid_tool_request
code_of DecisionCode.invalid_tool_budget = TraceDecisionCode.invalid_tool_budget
code_of DecisionCode.tool_budget_exhausted = TraceDecisionCode.tool_budget_exhausted
code_of DecisionCode.tool_call_limit_reached = TraceDecisionCode.tool_call_limit_reached

-- What a run is given: the platform, the data layer, a retriever if there is one (`none` is an
-- exception of it), the printed form of an answer, two fresh trace ids and the elapsed time.
pub record Environment (S : Type 0) : Type 0 where
  pub platform : Platform
  pub numbers : Numbers S
  pub datetimes : Datetimes
  pub observations : Option (List (PublicObservation S))
  pub printing : Printing S
  pub pads_years : Bool
  pub retriever : Option (String → Option (RetrievalResult S))
  pub render_answer : FixedAgentAnswer → String
  pub first_trace : String
  pub second_trace : String
  pub elapsed : ℕ

-- The state that is returned, `none` if an exception leaves the run, and the host.
abbrev pub Run : Type 0
Run = Option AgentState × Host

abbrev pub only_query : Arguments → Option Value
only_query ((k, v) ∷ []) = if str_eq k "query" then some v else none
only_query _ = none

abbrev pub knowledge_tool : String
knowledge_tool = "retrieve_public_water_knowledge"

abbrev pub available_tools : {X : Type 0} → Option X → List String
available_tools none = "aggregate_public_history" ∷ "screen_public_anomaly" ∷ []
available_tools (some r) =
    "aggregate_public_history" ∷ "screen_public_anomaly" ∷ knowledge_tool ∷ []

module _ {S : Type 0} (env : Environment S) where
  -- The gate over evidence for one dimension.
  abbrev pub gate :
      Dimension → List VerifiedPublicEvidence → String → Outcome CoverageError CoverageGateResult
  gate dim vs conclusion =
      coverage_gate env.platform (some legacy_abc_plan)
        (some ((dimension_name dim, some (map (λ v. some v) vs)) ∷ []))
        (some ((dimension_name dim, some conclusion) ∷ [])) env.second_trace

  abbrev pub failed : AgentState → String → TraceDecisionCode → Option AgentState
  failed st name code =
      refused_with st (create_trace env.platform.casefold name code [] env.elapsed)

  abbrev pub completed :
      AgentState
      → String
      → List PublicEvidenceReference
      → String
      → Outcome CoverageError CoverageGateResult
      → Option AgentState
  completed st name refs answer (err e) = failed st name tool_result_unavailable
  completed st name refs answer (ok cov) = answered_with st refs answer cov (
      create_trace env.platform.casefold name tool_completed (map (λ r. r.evidence_id) refs)
        env.elapsed)

  abbrev pub covered :
      AgentState
      → String
      → DiagnosticResult S
      → Rendering
      → Option (List VerifiedPublicEvidence)
      → Option AgentState
  covered st name result r none = failed st name tool_result_unavailable
  covered st name result r (some vs) =
      completed st name r.citations r.answer
        (gate (dimension_of result) vs (legacy_conclusion result))

  abbrev pub rendered :
      AgentState → String → DiagnosticResult S → Receipt → Option Rendering → Host → Run
  rendered st name result receipt none h = (failed st name tool_result_unavailable, h)
  rendered st name result receipt (some r) h =
      let (vs, h') = mint_each env.platform receipt r.citations h in
      (covered st name result r vs, h')

  abbrev pub diagnosed : AgentState → String → Option (DiagnosticResult S) → Receipt → Host → Run
  diagnosed st name none receipt h = (failed st name tool_result_unavailable, h)
  diagnosed st name (some result) receipt h =
      let expected =
        expected_public_historical_rendering env.numbers env.datetimes env.printing result in
      if is_ok result
      then rendered st name result receipt (checked_rendering expected expected) h
      else (failed st name tool_result_unavailable, h)

  -- The answer needs the missing evidence of the other dimensions.
  abbrev pub fixed :
      AgentState
      → List PublicEvidenceReference
      → CoverageGateResult
      → Option FixedAgentAnswer
      → Option AgentState
  fixed st refs cov none = failed st knowledge_tool tool_result_unavailable
  fixed st refs cov (some a) =
      if is_review a.next_safe_action
      then failed st knowledge_tool tool_result_unavailable
      else completed st knowledge_tool refs (env.render_answer a) (ok cov)

  abbrev pub gated :
      AgentState
      → List PublicEvidenceReference
      → Outcome CoverageError CoverageGateResult
      → Option AgentState
  gated st refs (err e) = failed st knowledge_tool tool_result_unavailable
  gated st refs (ok cov) = fixed st refs cov (from_coverage env.platform (some cov))

  abbrev pub concluded_from :
      AgentState
      → List (PublicEvidence S)
      → Option (List VerifiedPublicEvidence)
      → Option AgentState
  concluded_from st xs none = failed st knowledge_tool tool_result_unavailable
  concluded_from st xs (some vs) = gated st (map reference_of xs) (gate C vs (conclusion_of xs))

  abbrev pub retrieved : AgentState → Option (List (PublicEvidence S)) → Receipt → Host → Run
  retrieved st none receipt h = (failed st knowledge_tool tool_result_unavailable, h)
  retrieved st (some xs) receipt h =
      let (vs, h') =
        mint_verified_public_evidence_batch env.platform (some receipt) (map reference_of xs) h in
      (concluded_from st xs vs, h')

  -- `_run_public_retrieval`
  abbrev pub run_public_retrieval :
      AgentState
      → Option Value
      → Receipt
      → Option (String → Option (RetrievalResult S))
      → Host
      → Run
  run_public_retrieval st (some (text q)) receipt (some retrieve) h =
      retrieved st (validated_public_retrieval (retrieve q)) receipt h
  run_public_retrieval st (some v) receipt (some retrieve) h = (some (safe_refusal st), h)
  run_public_retrieval st none receipt (some retrieve) h =
      (failed st knowledge_tool TraceDecisionCode.tool_unavailable, h)
  run_public_retrieval st v receipt none h =
      (failed st knowledge_tool TraceDecisionCode.tool_unavailable, h)

  unfoldable pub execute_tool : AgentState → String → Arguments → String → Receipt → Host → Run
  execute_tool st name args question receipt h =
      if str_eq name knowledge_tool
      then run_public_retrieval st (only_query args) receipt env.retriever h
      else diagnosed st name
          (run_public_historical_diagnostic env.numbers env.datetimes env.observations
            env.pads_years question)
          receipt h

  abbrev pub with_receipt :
      AgentState → String → Arguments → String → Option (Receipt × ToolBudget) × Host → Run
  with_receipt st name args question (none, h) = (failed st name tool_authorization_invalid, h)
  with_receipt st name args question (some (receipt, next_budget), h) =
      execute_tool (record st { tool_budget = next_budget }) name args question receipt h

  abbrev pub with_grant : AgentState → String → Arguments → String → ℕ → Issue × Host → Run
  with_grant st name args question id (none, h) = (none, h)
  with_grant st name args question id (some (decision, none), h) =
      (failed st name (code_of decision.code), h)
  with_grant st name args question id (some (decision, some grant), h) =
      if decision.allowed
      then with_receipt st name args question
          (consume_issued_public_tool_grant (some grant) name (some id) h)
      else (failed st name (code_of decision.code), h)

  abbrev pub requested : AgentState → String → Option (String × Arguments) → ℕ → Host → Run
  requested st question none id h = (some (safe_refusal st), h)
  requested st question (some (name, args)) id h = with_grant st name args question id (
      issue_public_tool_grant (some name) (some args) (some id)
        (some (available_tools env.retriever)) h)

  abbrev pub questioned : AgentState → Option String → ℕ → Host → Run
  questioned st none id h = (some (safe_refusal st), h)
  questioned st (some q) id h =
      if nonblank q
      then requested st q (diagnostic_tool_request env.pads_years q) id h
      else (some (safe_refusal st), h)

  abbrev pub is_operations : Option String → Bool
  is_operations none = false
  is_operations (some m) = str_eq m "operations"

  -- The coverage of a run that has no evidence yet.
  abbrev pub opened : AgentState → Outcome CoverageError CoverageGateResult → ℕ → Host → Run
  opened st (err e) id h = (none, h)
  opened st (ok cov) id h =
      let st' = record st { coverage = some cov } in
      if is_operations st.mode
      then questioned st' st.question id h
      else (some (safe_refusal st'), h)

  abbrev pub with_budget : AgentState → Option ToolBudget → ℕ → Host → Run
  with_budget st none id h = (some (safe_refusal st), h)
  with_budget st (some budget) id h =
      opened (record st { tool_budget = budget })
        (coverage_gate env.platform (some legacy_abc_plan) (some []) (some []) env.first_trace) id h

  unfoldable pub run_operations_graph : Option Input → Host → Run
  run_operations_graph input h =
      let (id, h') = create_public_tool_budget_session h in
      with_budget (initialize_safe_agent_state input) (public_tool_budget_snapshot (some id) h') id
        h'
