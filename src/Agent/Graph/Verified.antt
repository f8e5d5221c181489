-- ===== src/Agent/Graph/Verified.antt =====
-- The answers of the graph: refusals, and answers over evidence that a receipt was redeemed for.
use mathlib.Core.Path.{subst}
use aquaops_copilot.Common.{
  String, ◌≡◌, refl, ap, ◌⊎◌, inl, inr, Option-cases, true, false, Option, none, some, List, [],
  ◌∷◌, map, arith, all, length, ok, err,
}
use aquaops_copilot.Agent.Authorize.{Arguments, text}
use aquaops_copilot.Agent.Grants.{Host, Receipt}
use aquaops_copilot.Agent.Evidence.{
  Platform, PublicEvidenceReference, VerifiedPublicEvidence, Dimension, A, B, C, minted,
}
use aquaops_copilot.Agent.Coverage.{
  AbcRequirement, CoverageGateResult, DimensionCoverage, Supplied, dimension_name, lookup,
  supplied_or_empty,
}
use aquaops_copilot.Agent.Coverage.Gate.{Covered, backed, gate_keeps_dimensions}
use aquaops_copilot.Agent.Coverage.Answer.{FixedAgentAnswer, from_coverage}
use aquaops_copilot.Agent.Traces.{
  TraceDecisionCode, tool_completed, tool_result_unavailable, create_trace,
}
use aquaops_copilot.Agent.Retrieved.{validated_public_retrieval, reference_of, conclusion_of}
use aquaops_copilot.Agent.Diagnostics.{
  DiagnosticResult, Rendering, expected_public_historical_rendering,
  run_public_historical_diagnostic,
}
use aquaops_copilot.Agent.Graph.{
  Environment, Run, legacy_abc_plan, gate, failed, completed, only_query,
}
use aquaops_copilot.Agent.Graph.Cited.{FromReceipt, some_same}
use aquaops_copilot.Agent.State.{
  AgentState, safe_refusal, insufficient, with_trace, refused_with, answered_state, answered_with,
}
use aquaops_copilot.Agent.Citations.{dimension_of, legacy_conclusion}
use aquaops_copilot.Retrieval.Hybrid.{PublicEvidence, RetrievalResult}

nothing_backed :
    (p : Platform) (d : Dimension) (es : List PublicEvidenceReference)
    → all (backed p d []) es ≡ true
    → length es ≡ 0
nothing_backed p d [] e = refl
nothing_backed p d (r ∷ es) e = absurd (ground arith)

-- Nothing supplied for a dimension, nothing is concluded of it.
uncovered :
    (p : Platform) (q : AbcRequirement) (evs : List (String × Supplied))
    (cs : List (String × Option String)) (x : DimensionCoverage)
    → lookup (dimension_name q.dimension) evs ≡ none
    → Covered p q evs cs x
    → x.conclusion ≡ none
uncovered p q evs cs x n c =
    let none_given : c.given ≡ [] =
      cc (subst (λ l. supplied_or_empty l ≡ some c.given) n c.from_supplied) in
    let empty =
      nothing_backed p q.dimension x.evidence
        (subst (λ g. all (backed p q.dimension g) x.evidence ≡ true) none_given c.all_backed) in
    elim (Option-cases x.conclusion) [
      | inl m ↦ m
      | inr (t, m) ↦
          let (_, _, some_evidence) = c.conclusion_given t m in
          absurd (omega (arith, some_evidence, empty))
    ]

pub record IsRefusal (out : AgentState) : Type 0 where
  pub no_evidence : out.evidence ≡ some []
  pub fixed_answer : out.answer ≡ some insufficient
  pub reviewed : out.requires_human_review ≡ some true

module _ {S : Type 0} (env : Environment S) where
  -- The answer is the rendering of the diagnostic of the question, with its citations.
  pub record IsDiagnosis (question : String) (refs : List PublicEvidenceReference) (dim : Dimension)
      (conclusion answer : String) : Type 0 where
    pub result : DiagnosticResult S
    pub rendering : Rendering
    pub was_run :
        run_public_historical_diagnostic env.numbers env.datetimes env.observations env.pads_years
          question
        ≡ some result
    pub expected :
        expected_public_historical_rendering env.numbers env.datetimes env.printing result
        ≡ some rendering
    pub cited : rendering.citations ≡ refs
    pub said : rendering.answer ≡ answer
    pub under : dimension_of result ≡ dim
    pub concluded : legacy_conclusion result ≡ conclusion

  -- The answer is the printed one for the coverage, and the evidence is what the retriever returned
  -- for the query.
  pub record IsRetrieval (args : Arguments) (refs : List PublicEvidenceReference) (dim : Dimension)
      (conclusion answer : String) (cov : CoverageGateResult) : Type 0 where
    pub query : String
    pub retrieve : String → Option (RetrievalResult S)
    pub found : List (PublicEvidence S)
    pub fixed : FixedAgentAnswer
    pub asked : only_query args ≡ some (text query)
    pub installed : env.retriever ≡ some retrieve
    pub returned : validated_public_retrieval (retrieve query) ≡ some found
    pub cited : map reference_of found ≡ refs
    pub under : dim ≡ C
    pub concluded : conclusion_of found ≡ conclusion
    pub answered : from_coverage env.platform (some cov) ≡ some fixed
    pub said : env.render_answer fixed ≡ answer

module _ {S : Type 0} (env : Environment S) (st : AgentState) (args : Arguments) (question : String)
    (receipt : Receipt) (before : Host) where
  abbrev pub Source :
      List PublicEvidenceReference → Dimension → String → String → CoverageGateResult → Type 0
  Source refs dim c answer cov =
      IsDiagnosis env question refs dim c answer ⊎ IsRetrieval env args refs dim c answer cov

  -- An answer of one tool, over the evidence that its receipt was redeemed for.
  pub record IsVerified (out : AgentState) (final : Host) : Type 0 where
    pub refs : List PublicEvidenceReference
    pub dim : Dimension
    pub conclusion : String
    pub answer : String
    pub cov : CoverageGateResult
    pub source : Source refs dim conclusion answer cov
    pub from_receipt : FromReceipt env.platform receipt refs before final
    pub passed_gate : gate env dim (map (minted receipt.tool_name) refs) conclusion ≡ ok cov
    pub evidence_kept : out.evidence ≡ some refs
    pub answer_kept : out.answer ≡ some answer
    pub coverage_kept : out.coverage ≡ some cov
    pub incomplete : cov.complete ≡ false
    pub budget_kept : out.tool_budget ≡ st.tool_budget
    pub reviewed : out.requires_human_review ≡ some true

  abbrev pub Sound : AgentState → Host → Type 0
  Sound out final = IsRefusal out ⊎ IsVerified out final

pub no_answer-IsRefusal : (st : AgentState) → IsRefusal (safe_refusal st)
unfolding safe_refusal
no_answer-IsRefusal st = record { no_evidence = refl; fixed_answer = refl; reviewed = refl }

-- A run that returns a state and leaves a host.
abbrev pub Returns : Run → AgentState → Host → Type 0
Returns run out final = run ≡ (some out, final)

pub safe-IsRefusal :
    (st out : AgentState) (h final : Host)
    → Returns (some (safe_refusal st), h) out final
    → IsRefusal out
safe-IsRefusal st out h final e =
    subst IsRefusal (some_same (safe_refusal st) out (ap (λ x. x.0) e)) (no_answer-IsRefusal st)

module _ {S : Type 0} (env : Environment S) where
  pub failed-IsRefusal :
      (st out : AgentState) (name : String) (code : TraceDecisionCode)
      → failed env st name code ≡ some out
      → IsRefusal out
  failed-IsRefusal st out name code e =
      elim (Option-cases (create_trace env.platform.casefold name code [] env.elapsed)) [
        | inl n ↦ absurd (ground arith)
        | inr (t, q) ↦
            subst IsRefusal
              (some_same (safe_refusal (with_trace st t)) out
                (subst (λ x. refused_with st x ≡ some out) q e))
              (no_answer-IsRefusal (with_trace st t))
      ]

  gate_incomplete :
      (dim : Dimension) (vs : List VerifiedPublicEvidence) (c : String) (cov : CoverageGateResult)
      → gate env dim vs c ≡ ok cov
      → cov.complete ≡ false
  unfolding lookup
  gate_incomplete A vs c cov e =
      let (_, b, _, _, same, _) =
        gate_keeps_dimensions env.platform legacy_abc_plan _ _ env.second_trace cov e in
      let missing =
        uncovered env.platform legacy_abc_plan.second _ _ cov.dimensions.second refl b in
      ground arith
  gate_incomplete B vs c cov e =
      let (a, _, _, _, same, _) =
        gate_keeps_dimensions env.platform legacy_abc_plan _ _ env.second_trace cov e in
      let missing = uncovered env.platform legacy_abc_plan.first _ _ cov.dimensions.first refl a in
      ground arith
  gate_incomplete C vs c cov e =
      let (a, _, _, _, same, _) =
        gate_keeps_dimensions env.platform legacy_abc_plan _ _ env.second_trace cov e in
      let missing = uncovered env.platform legacy_abc_plan.first _ _ cov.dimensions.first refl a in
      ground arith

module _ {S : Type 0} (env : Environment S) (st : AgentState) (args : Arguments) (question : String)
    (receipt : Receipt) (before final : Host) (out : AgentState) (name : String) where
  pub answered-Sound :
      (refs : List PublicEvidenceReference) (answer c : String) (dim : Dimension)
      (cov : CoverageGateResult)
      → FromReceipt env.platform receipt refs before final
      → Source env st args question receipt before refs dim c answer cov
      → gate env dim (map (minted receipt.tool_name) refs) c ≡ ok cov
      → completed env st name refs answer (ok cov) ≡ some out
      → Sound env st args question receipt before out final
  answered-Sound refs answer c dim cov from src g e =
      elim (Option-cases (
        create_trace env.platform.casefold name tool_completed (map (λ r. r.evidence_id) refs)
          env.elapsed)) [
            | inl n ↦ absurd (ground arith)
            | inr (t, q) ↦
                let same =
                  some_same (answered_state st refs answer cov t) out
                    (subst (λ x. answered_with st refs answer cov x ≡ some out) q e) in
                subst (λ o. Sound env st args question receipt before o final) same
                  (inr (record {
                    refs = refs;
                    dim = dim;
                    conclusion = c;
                    answer = answer;
                    cov = cov;
                    source = src;
                    from_receipt = from;
                    passed_gate = g;
                    evidence_kept = refl;
                    answer_kept = refl;
                    coverage_kept = refl;
                    incomplete =
                        gate_incomplete env dim (map (minted receipt.tool_name) refs) c cov g;
                    budget_kept = refl;
                    reviewed = refl;
                  }))
          ]

  pub completed-Sound :
      (refs : List PublicEvidenceReference) (answer c : String) (dim : Dimension)
      → FromReceipt env.platform receipt refs before final
      → IsDiagnosis env question refs dim c answer
      → completed env st name refs answer (gate env dim (map (minted receipt.tool_name) refs) c)
        ≡ some out
      → Sound env st args question receipt before out final
  completed-Sound refs answer c dim from src e =
      elim (gate env dim (map (minted receipt.tool_name) refs) c)
          as (λ r.
            gate env dim (map (minted receipt.tool_name) refs) c ≡ r
            → completed env st name refs answer r ≡ some out
            → Sound env st args question receipt before out final) [
              | err x ↦ λ q k. inl (failed-IsRefusal env st out name tool_result_unavailable k)
              | ok cov ↦ λ q k. answered-Sound refs answer c dim cov from (inl src) q k
            ]
        refl e
