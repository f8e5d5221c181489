-- ===== src/Agent/Graph/Samples.antt =====
-- A question for a diagnostic and a run that retrieves public knowledge, and the theorems at them.
use aquaops_copilot.Common.{ℕ, String, ◌≡◌, refl, true, Option, none, some, [], ◌∷◌, ltb, ◌==◌}
use aquaops_copilot.Common.Text.{strip}
use aquaops_copilot.Agent.Budget.{
  registered, consume, calls_for, is_valid, usage_valid, sum_counts, dict_from, get_count,
  put_count, sort_usage, insert_sorted,
}
use aquaops_copilot.Agent.Authorize.{
  Arguments, text, integer, get, valid_public_arguments, authorize_public_tool_call,
}
use aquaops_copilot.Agent.Grants.{
  Host, empty_host, member, create_public_tool_budget_session, public_tool_budget_snapshot,
  issue_public_tool_grant, consume_issued_public_tool_grant, redeem_tool_execution_receipt,
}
use aquaops_copilot.Agent.Evidence.{
  same_reference, distinct_valid, valid_reference, public_https_url, safe_text,
  mint_verified_public_evidence_batch, tool_dimension,
}
use aquaops_copilot.Agent.Coverage.{
  valid_plan, valid_result, coverage_gate, valid_coverage, cover, evidence_items,
  normalize_verified_evidence, lookup,
}
use aquaops_copilot.Agent.Coverage.Answer.{
  from_coverage, normalize_coverage_result, valid_answer, unseen_of,
}
use aquaops_copilot.Agent.Coverage.Samples.{platform, url}
use aquaops_copilot.Agent.Traces.{create_trace, safe_ids}
use aquaops_copilot.Agent.Requests.{
  lstrip_text, rstrip_text, after_prefix, after_alias, digits_from, parse_explicit_public_request,
  diagnostic_tool_request,
}
use aquaops_copilot.Agent.Requests.Admitted.{IsAdmitted, diagnostic_tool_request-IsAdmitted}
use aquaops_copilot.Common.Timestamp.{parse}
use aquaops_copilot.Agent.Retrieved.{
  retrieved_valid, validated_public_retrieval, before_stop, take_text,
}
use aquaops_copilot.Agent.Graph.{Environment, execute_tool, run_operations_graph}
use aquaops_copilot.Agent.State.{AgentState, Input, initialize_safe_agent_state, safe_refusal}
use aquaops_copilot.Agent.Graph.Verified.{Returns}
use aquaops_copilot.Agent.Graph.Runs.{Reply, run_operations_graph-Sound}
use aquaops_copilot.Data.Numbers.{Numbers}
use aquaops_copilot.Data.Binary.{binary}
use aquaops_copilot.Retrieval.Hybrid.{RetrievalResult}

-- No diagnostic is asked for, so no arithmetic is used.
abbrev idle : Numbers ℕ
idle = record {
  zero_value = 0;
  add = λ a b. a;
  sub = λ a b. a;
  mul = λ a b. a;
  div = λ a b. a;
  abs = λ a. a;
  less = ltb;
  equal = λ a b. a == b;
  is_finite = λ a. true;
  from_count = λ n. n;
  quarters = λ n. n;
  median = λ xs. 0;
  mad_normalization = 1;
  iqr_normalization = 1;
  robust_score_threshold = 3;
}

abbrev id_of_chunk : String
id_of_chunk = "0123456789abcdef0123456789abcdef0123456789abcdef0123456789abcdef"

abbrev found : RetrievalResult ℕ
found = record {
  evidence =
      record {
        chunk_id = id_of_chunk;
        source_url = url;
        source_version = "1.0";
        text = "氨氮来自进水。更多";
        score = 1;
      }
      ∷ [];
  fused_candidate_ids = id_of_chunk ∷ [];
}

abbrev environment : Environment ℕ
environment = record {
  platform = platform;
  numbers = idle;
  datetimes = binary;
  observations = none;
  printing = record { format_g = λ v. "1"; show = λ n. "1" };
  pads_years = true;
  retriever = some (λ q. some found);
  render_answer = λ a. a.trace_id;
  first_trace = "0123456789abcdef0123456789abcdef";
  second_trace = "fedcba9876543210fedcba9876543210";
  elapsed = 20;
}

abbrev asked : Option Input
asked = some (record { request_id = none; mode = some "operations"; question = some "公开知识检索 氨氮" })

state_or_refusal : Option AgentState → AgentState
state_or_refusal none = safe_refusal (initialize_safe_agent_state none)
state_or_refusal (some st) = st

run_state : AgentState
unfolding state_or_refusal
run_state = state_or_refusal (run_operations_graph environment asked empty_host).0

-- The run answers with the chunk, having spent one call.
run_answers :
    run_state.evidence
    ≡ some (record { evidence_id = id_of_chunk; source_url = url; source_version = "1.0" } ∷ [])
unfolding run_operations_graph create_public_tool_budget_session public_tool_budget_snapshot
    initialize_safe_agent_state coverage_gate cover evidence_items normalize_verified_evidence
    lookup valid_plan valid_coverage valid_result same_reference tool_dimension safe_text
    public_https_url valid_reference distinct_valid mint_verified_public_evidence_batch
    redeem_tool_execution_receipt member registered consume calls_for is_valid usage_valid
    sum_counts dict_from get_count put_count sort_usage insert_sorted issue_public_tool_grant
    authorize_public_tool_call valid_public_arguments get consume_issued_public_tool_grant
    execute_tool strip validated_public_retrieval retrieved_valid before_stop take_text lstrip_text
    rstrip_text after_prefix after_alias digits_from parse_explicit_public_request
    diagnostic_tool_request create_trace safe_ids from_coverage normalize_coverage_result
    valid_answer unseen_of safe_refusal run_state
run_answers = refl

run_host : Host
run_host = (run_operations_graph environment asked empty_host).1

run_ends : Returns (run_operations_graph environment asked empty_host) run_state run_host
unfolding run_operations_graph create_public_tool_budget_session public_tool_budget_snapshot
    initialize_safe_agent_state coverage_gate cover evidence_items normalize_verified_evidence
    lookup valid_plan valid_coverage valid_result same_reference tool_dimension safe_text
    public_https_url valid_reference distinct_valid mint_verified_public_evidence_batch
    redeem_tool_execution_receipt member registered consume calls_for is_valid usage_valid
    sum_counts dict_from get_count put_count sort_usage insert_sorted issue_public_tool_grant
    authorize_public_tool_call valid_public_arguments get consume_issued_public_tool_grant
    execute_tool strip validated_public_retrieval retrieved_valid before_stop take_text lstrip_text
    rstrip_text after_prefix after_alias digits_from parse_explicit_public_request
    diagnostic_tool_request create_trace safe_ids from_coverage normalize_coverage_result
    valid_answer unseen_of safe_refusal run_state run_host
run_ends = refl

run_operations_graph-Sound_example :
    let (id, h) = create_public_tool_budget_session empty_host in
    Reply environment
      (initialize_safe_agent_state asked)
      (public_tool_budget_snapshot (some id) h)
      id
      h
      run_state
      run_host
run_operations_graph-Sound_example =
    run_operations_graph-Sound environment asked empty_host run_state run_host run_ends

abbrev diagnostic_question : String
diagnostic_question = " 公开历史诊断 NH4 24h 截止 2024-05-01T00:00:00Z"

abbrev diagnostic_request : String × Arguments
diagnostic_request = (
  "aggregate_public_history",
  ("indicator", text "nh4") ∷ ("hours", integer 24) ∷ ("end_at", text "2024-05-01T00:00:00Z") ∷ [],
)

diagnostic_is_read : diagnostic_tool_request true diagnostic_question ≡ some diagnostic_request
unfolding lstrip_text rstrip_text after_prefix after_alias digits_from parse_explicit_public_request
    diagnostic_tool_request parse
diagnostic_is_read = refl

diagnostic_tool_request-IsAdmitted_example : IsAdmitted diagnostic_request
diagnostic_tool_request-IsAdmitted_example =
    diagnostic_tool_request-IsAdmitted true diagnostic_question diagnostic_request
      diagnostic_is_read
