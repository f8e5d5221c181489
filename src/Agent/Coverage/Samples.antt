-- ===== src/Agent/Coverage/Samples.antt =====
-- A batch of evidence for one dimension, the gate's result and its answer, and the theorems at
-- these inputs.
use aquaops_copilot.Common.{
  String, ◌≡◌, refl, true, false, Option, none, some, List, [], ◌∷◌, str_eq, if◌then◌else◌, all, ok,
}
use aquaops_copilot.Common.Text.{between}
use aquaops_copilot.Agent.Budget.{
  registered, consume, calls_for, is_valid, usage_valid, sum_counts, dict_from, get_count,
  put_count, sort_usage, insert_sorted,
}
use aquaops_copilot.Agent.Grants.{
  member, create_public_tool_budget_session, consume_issued_public_tool_grant,
  redeem_tool_execution_receipt,
}
use aquaops_copilot.Agent.Grants.Sessions.{act, act_all}
use aquaops_copilot.Agent.Samples.{tool, receipt, executed, executed-HostInv}
use aquaops_copilot.Agent.Evidence.{
  Platform, PublicEvidenceReference, same_reference, Dimension, A, B, C, distinct_valid, minted,
  valid_reference, public_https_url, safe_text, mint_verified_public_evidence_batch, tool_dimension,
}
use aquaops_copilot.Agent.Evidence.Minting.{Minted, mint_once}
use aquaops_copilot.Agent.Coverage.{
  AbcRequirement, Triple, valid_plan, DimensionCoverage, CoverageGateResult, valid_result,
  concluded, Supplied, coverage_gate, valid_coverage, cover, evidence_items,
  normalize_verified_evidence, lookup, public_evidence_missing,
}
use aquaops_copilot.Agent.Coverage.Gate.{Covered, gate_keeps_dimensions}
use aquaops_copilot.Agent.Coverage.Returning.{Admitted, gate_returns}
use aquaops_copilot.Agent.Coverage.Answer.{
  FixedAgentAnswer, from_coverage, distinct_from, in_references, all_evidence, is_review,
  gate_is_answered,
}

abbrev pub url : String
url = "https://data.example.org/nh4"

abbrev pub platform : Platform
platform = record {
  split_url = λ u. if str_eq u url then some ("https", "data.example.org") else none;
  normalize_host = λ h. h;
  address_is_special = λ h. if str_eq h "127.0.0.1" then some true else none;
  casefold = λ s. s;
  is_control = λ c. between 0 31 c;
}

abbrev reference : PublicEvidenceReference
reference = record { evidence_id = "history-nh4"; source_url = url; source_version = "1.0" }

abbrev batch : List PublicEvidenceReference
batch = reference ∷ []

minted-batch :
    (mint_verified_public_evidence_batch platform (some receipt) batch executed).0
    ≡ some (minted tool reference ∷ [])
unfolding mint_verified_public_evidence_batch distinct_valid valid_reference public_https_url
    same_reference tool_dimension redeem_tool_execution_receipt act_all act
    create_public_tool_budget_session consume_issued_public_tool_grant member registered consume
    calls_for is_valid usage_valid sum_counts dict_from get_count put_count sort_usage insert_sorted
minted-batch = refl

mint_once_example :
    Minted platform receipt batch executed (minted tool reference ∷ [])
    × ((mint_verified_public_evidence_batch platform (some receipt) batch (
          act_all []
            (mint_verified_public_evidence_batch platform (some receipt) batch executed).1)).0
        ≡ none)
mint_once_example =
    mint_once platform receipt receipt batch batch executed (minted tool reference ∷ []) []
      executed-HostInv minted-batch refl refl

abbrev requirement : Dimension → String → AbcRequirement
requirement d text = record { dimension = d; requirement = text }

abbrev plan : Triple AbcRequirement
plan = record {
  first = requirement A "Ammonium over the last day";
  second = requirement B "Deviation from the baseline";
  third = requirement C "Guidance on ammonium";
}

abbrev evidence : List (String × Supplied)
evidence = ("A", some (some (minted tool reference) ∷ [])) ∷ []

abbrev conclusions : List (String × Option String)
conclusions = ("A", some "Ammonium rose") ∷ ("B", some "No deviation") ∷ []

abbrev trace : String
trace = "0123456789abcdef0123456789abcdef"

abbrev missing_public : AbcRequirement → DimensionCoverage
missing_public q = record {
  dimension = q.dimension;
  requirement = q.requirement;
  evidence = [];
  conclusion = none;
  missing_reason = some public_evidence_missing;
}

abbrev result : CoverageGateResult
result = record {
  dimensions = record {
    first = record {
      dimension = A;
      requirement = "Ammonium over the last day";
      evidence = reference ∷ [];
      conclusion = some "Ammonium rose";
      missing_reason = none;
    };
    second = missing_public plan.second;
    third = missing_public plan.third;
  };
  complete = false;
  trace_id = trace;
}

plan_valid : valid_plan platform plan ≡ true
unfolding valid_plan safe_text
plan_valid = refl

gate_result :
    coverage_gate platform (some plan) (some evidence) (some conclusions) trace ≡ ok result
unfolding coverage_gate valid_plan safe_text cover evidence_items normalize_verified_evidence lookup
    valid_coverage valid_result valid_reference public_https_url same_reference tool_dimension
gate_result = refl

gate_keeps_dimensions_example :
    Covered platform plan.first evidence conclusions result.dimensions.first
    × Covered platform plan.second evidence conclusions result.dimensions.second
    × Covered platform plan.third evidence conclusions result.dimensions.third
    × (valid_result result ≡ true)
    × (result.complete ≡ concluded result.dimensions)
    × (result.trace_id ≡ trace)
gate_keeps_dimensions_example =
    gate_keeps_dimensions platform plan evidence conclusions trace result gate_result

all-Admitted : (d : Dimension) → Admitted platform evidence d
unfolding lookup valid_reference public_https_url same_reference tool_dimension
all-Admitted A = (some (minted tool reference) ∷ [], refl, refl)
all-Admitted B = ([], refl, refl)
all-Admitted C = ([], refl, refl)

gate_returns_example :
    (r : CoverageGateResult) × (coverage_gate platform
        (some plan)
        (some evidence)
        (some conclusions)
        trace
      ≡ ok r)
gate_returns_example =
    gate_returns platform plan evidence conclusions trace plan_valid refl refl all-Admitted

gate_is_answered_example :
    (a : FixedAgentAnswer) × (from_coverage platform (some result) ≡ some a)
    × (a.dimensions ≡ result.dimensions)
    × (a.trace_id ≡ trace)
    × (distinct_from [] a.evidence ≡ true)
    × (all (in_references a.evidence) (all_evidence result.dimensions) ≡ true)
    × (all (in_references (all_evidence result.dimensions)) a.evidence ≡ true)
    × (is_review a.next_safe_action ≡ concluded result.dimensions)
gate_is_answered_example =
    gate_is_answered platform plan evidence conclusions trace result gate_result
