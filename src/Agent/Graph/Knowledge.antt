-- ===== src/Agent/Graph/Knowledge.antt =====
-- Each way through `_run_public_retrieval` ends in a sound answer.
use mathlib.Core.Path.{subst}
use aquaops_copilot.Common.{
  String, ◌≡◌, refl, inl, inr, Bool-cases, Option, none, some, List, map, if◌then◌else◌, ok, err,
}
use aquaops_copilot.Agent.Authorize.{Arguments, Value, text}
use aquaops_copilot.Agent.Grants.{Host, Receipt}
use aquaops_copilot.Agent.Evidence.{
  VerifiedPublicEvidence, C, minted, mint_verified_public_evidence_batch,
}
use aquaops_copilot.Agent.Graph.Cited.{FromReceipt, batch_minted}
use aquaops_copilot.Agent.Graph.Verified.{
  Sound, Returns, safe-IsRefusal, failed-IsRefusal, answered-Sound,
}
use aquaops_copilot.Agent.Graph.Stages.{state_of, host_of, failed-Sound}
use aquaops_copilot.Agent.Coverage.{CoverageGateResult}
use aquaops_copilot.Agent.Coverage.Answer.{FixedAgentAnswer, from_coverage, is_review}
use aquaops_copilot.Agent.Traces.{TraceDecisionCode, tool_result_unavailable}
use aquaops_copilot.Agent.Retrieved.{validated_public_retrieval, reference_of, conclusion_of}
use aquaops_copilot.Agent.Graph.{
  Environment, gate, failed, completed, fixed, gated, concluded_from, retrieved,
  run_public_retrieval, knowledge_tool, only_query,
}
use aquaops_copilot.Agent.State.{AgentState}
use aquaops_copilot.Retrieval.Hybrid.{PublicEvidence, RetrievalResult}

module _ {S : Type 0} (env : Environment S) (st : AgentState) (args : Arguments) (question : String)
    (receipt : Receipt) (before final : Host) (out : AgentState) where
  refused :
      failed env st knowledge_tool tool_result_unavailable ≡ some out
      → Sound env st args question receipt before out final
  refused e = inl (failed-IsRefusal env st out knowledge_tool tool_result_unavailable e)

  module _ (q : String) (retrieve : String → Option (RetrievalResult S))
      (asked : only_query args ≡ some (text q)) (installed : env.retriever ≡ some retrieve) where
    module _ (xs : List (PublicEvidence S))
        (returned : validated_public_retrieval (retrieve q) ≡ some xs) where
      -- An answer is only given for the evidence that the gate has taken.
      fixed-Sound :
          (cov : CoverageGateResult) (a : Option FixedAgentAnswer)
          → FromReceipt env.platform receipt (map reference_of xs) before final
          → from_coverage env.platform (some cov) ≡ a
          → gate env C (map (minted receipt.tool_name) (map reference_of xs)) (conclusion_of xs)
            ≡ ok cov
          → fixed env st (map reference_of xs) cov a ≡ some out
          → Sound env st args question receipt before out final
      fixed-Sound cov none from w g e = refused e
      fixed-Sound cov (some a) from w g e =
          let refs = map reference_of xs in
          elim (Bool-cases (is_review a.next_safe_action)) [
            | inl y ↦ refused (
                subst
                  (λ b.
                    (if b
                      then failed env st knowledge_tool tool_result_unavailable
                      else completed env st knowledge_tool refs (env.render_answer a) (ok cov))
                    ≡ some out)
                  y e)
            | inr n ↦
                answered-Sound env st args question receipt before final out knowledge_tool refs
                  (env.render_answer a) (conclusion_of xs) C cov from
                  (inr (record {
                    query = q;
                    retrieve = retrieve;
                    found = xs;
                    fixed = a;
                    asked = asked;
                    installed = installed;
                    returned = returned;
                    cited = refl;
                    under = refl;
                    concluded = refl;
                    answered = w;
                    said = refl;
                  }))
                  g
                  (subst
                    (λ b.
                      (if b
                        then failed env st knowledge_tool tool_result_unavailable
                        else completed env st knowledge_tool refs (env.render_answer a) (ok cov))
                      ≡ some out)
                    n e)
          ]

      gated-Sound :
          FromReceipt env.platform receipt (map reference_of xs) before final
          → gated env st
              (map reference_of xs)
              (gate env C (map (minted receipt.tool_name) (map reference_of xs)) (conclusion_of xs))
            ≡ some out
          → Sound env st args question receipt before out final
      gated-Sound from e =
          let g =
            gate env C (map (minted receipt.tool_name) (map reference_of xs)) (conclusion_of xs) in
          elim g
              as (λ r.
                g ≡ r
                → gated env st (map reference_of xs) r ≡ some out
                → Sound env st args question receipt before out final) [
                  | err x ↦ λ w k. refused k
                  | ok cov ↦
                      λ w k. fixed-Sound cov (from_coverage env.platform (some cov)) from refl w k
                ]
            refl e

      concluded-Sound :
          (vs : Option (List VerifiedPublicEvidence))
          → ((ws : List VerifiedPublicEvidence)
              → vs ≡ some ws
              → (ws ≡ map (minted receipt.tool_name) (map reference_of xs))
                × FromReceipt env.platform receipt (map reference_of xs) before final)
          → concluded_from env st xs vs ≡ some out
          → Sound env st args question receipt before out final
      concluded-Sound none m e = refused e
      concluded-Sound (some vs) m e =
          let (same, from) = m vs refl in
          gated-Sound from (
            subst
              (λ ws.
                gated env st (map reference_of xs) (gate env C ws (conclusion_of xs)) ≡ some out)
              same e)

    retrieved-Sound :
        (xs : Option (List (PublicEvidence S)))
        → validated_public_retrieval (retrieve q) ≡ xs
        → Returns (retrieved env st xs receipt before) out final
        → Sound env st args question receipt before out final
    retrieved-Sound none w e =
        failed-Sound env st args question receipt before final out knowledge_tool
          tool_result_unavailable before e
    retrieved-Sound (some xs) w e =
        let run = retrieved env st (some xs) receipt before in
        let refs = map reference_of xs in
        let batch = mint_verified_public_evidence_batch env.platform (some receipt) refs before in
        concluded-Sound xs w batch.0
          (λ ws k.
            let (same, from) = batch_minted env.platform receipt refs before ws k in
            (
              same,
              subst (FromReceipt env.platform receipt refs before) (host_of run out final e) from,
            ))
          (state_of run out final e)

  unavailable :
      Returns (failed env st knowledge_tool TraceDecisionCode.tool_unavailable, before) out final
      → Sound env st args question receipt before out final
  unavailable e =
      failed-Sound env st args question receipt before final out knowledge_tool
        TraceDecisionCode.tool_unavailable before e

  pub retrieval-Sound :
      (v : Option Value) (retrieve : Option (String → Option (RetrievalResult S)))
      → only_query args ≡ v
      → env.retriever ≡ retrieve
      → Returns (run_public_retrieval env st v receipt retrieve before) out final
      → Sound env st args question receipt before out final
  retrieval-Sound none none w i e = unavailable e
  retrieval-Sound (some v) none w i e = unavailable e
  retrieval-Sound none (some retrieve) w i e = unavailable e
  retrieval-Sound (some (text q)) (some retrieve) w i e =
      retrieved-Sound q retrieve w i (validated_public_retrieval (retrieve q)) refl e
  retrieval-Sound (some (Value.integer n)) (some retrieve) w i e =
      inl (safe-IsRefusal st out before final e)
  retrieval-Sound (some (Value.negative n)) (some retrieve) w i e =
      inl (safe-IsRefusal st out before final e)
  retrieval-Sound (some Value.other) (some retrieve) w i e =
      inl (safe-IsRefusal st out before final e)
