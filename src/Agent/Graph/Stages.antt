-- ===== src/Agent/Graph/Stages.antt =====
-- Each way through an execute_tool tool ends in a sound answer.
use mathlib.Core.Path.{subst}
use aquaops_copilot.Common.{
  String, ◌≡◌, refl, sym, ap, inl, inr, Bool-cases, Option, none, some, List, [], ◌∷◌, map,
  if◌then◌else◌,
}
use aquaops_copilot.Agent.Authorize.{Arguments}
use aquaops_copilot.Agent.Grants.{Host, Receipt}
use aquaops_copilot.Agent.Evidence.{VerifiedPublicEvidence, minted}
use aquaops_copilot.Agent.Graph.Cited.{
  FromReceipt, OneCitation, each_minted, expected-OneCitation, checked_same,
}
use aquaops_copilot.Agent.Graph.Verified.{
  Sound, IsDiagnosis, Returns, failed-IsRefusal, completed-Sound,
}
use aquaops_copilot.Agent.Traces.{TraceDecisionCode, tool_result_unavailable}
use aquaops_copilot.Agent.Diagnostics.{
  DiagnosticResult, Rendering, expected_public_historical_rendering,
  run_public_historical_diagnostic,
}
use aquaops_copilot.Agent.Graph.{
  Environment, Run, gate, failed, completed, covered, rendered, diagnosed,
}
use aquaops_copilot.Agent.State.{AgentState}
use aquaops_copilot.Agent.Citations.{
  mint_each, dimension_of, legacy_conclusion, checked_rendering, is_ok,
}

-- The state of a run that returns.
pub state_of :
    (run : Run) (out : AgentState) (final : Host) → Returns run out final → run.0 ≡ some out
state_of run out final e = ap (λ x. x.0) e

pub host_of : (run : Run) (out : AgentState) (final : Host) → Returns run out final → run.1 ≡ final
host_of run out final e = ap (λ x. x.1) e

module _ {S : Type 0} (env : Environment S) (st : AgentState) (args : Arguments) (question : String)
    (receipt : Receipt) (before final : Host) (out : AgentState) where
  pub failed-Sound :
      (name : String) (code : TraceDecisionCode) (h : Host)
      → Returns (failed env st name code, h) out final
      → Sound env st args question receipt before out final
  failed-Sound name code h e =
      inl
        (failed-IsRefusal env st out name code (state_of (failed env st name code, h) out final e))

  covered-Sound :
      (name : String) (result : DiagnosticResult S) (r : Rendering)
      (vs : Option (List VerifiedPublicEvidence))
      → ((ws : List VerifiedPublicEvidence)
          → vs ≡ some ws
          → (ws ≡ map (minted receipt.tool_name) r.citations)
            × FromReceipt env.platform receipt r.citations before final)
      → IsDiagnosis env question r.citations
          (dimension_of result)
          (legacy_conclusion result)
          r.answer
      → covered env st name result r vs ≡ some out
      → Sound env st args question receipt before out final
  covered-Sound name result r none m src e =
      inl (failed-IsRefusal env st out name tool_result_unavailable e)
  covered-Sound name result r (some vs) m src e =
      let (same, from) = m vs refl in
      completed-Sound env st args question receipt before final out name r.citations r.answer
        (legacy_conclusion result) (dimension_of result) from src
        (subst
          (λ ws.
            completed env st name r.citations r.answer
              (gate env (dimension_of result) ws (legacy_conclusion result))
            ≡ some out)
          same e)

  rendered-Sound :
      (name : String) (result : DiagnosticResult S) (r : Rendering)
      → OneCitation r
      → IsDiagnosis env question r.citations
          (dimension_of result)
          (legacy_conclusion result)
          r.answer
      → Returns (rendered env st name result receipt (some r) before) out final
      → Sound env st args question receipt before out final
  rendered-Sound name result r (c, one) src e =
      let run = rendered env st name result receipt (some r) before in
      covered-Sound name result r (mint_each env.platform receipt r.citations before).0
        (λ ws q.
          subst
            (λ rs.
              (mint_each env.platform receipt rs before).0 ≡ some ws
              → (mint_each env.platform receipt rs before).1 ≡ final
              → (ws ≡ map (minted receipt.tool_name) rs)
                × FromReceipt env.platform receipt rs before final)
            (sym one)
            (λ k l.
              let (same, from) = each_minted env.platform receipt c before ws k in
              (same, subst (FromReceipt env.platform receipt (c ∷ []) before) l from))
            q (host_of run out final e))
        src (state_of run out final e)

  expected-Sound :
      (name : String) (result : DiagnosticResult S) (r : Option Rendering)
      → run_public_historical_diagnostic env.numbers env.datetimes env.observations env.pads_years
          question
        ≡ some result
      → ((a : Rendering)
          → r ≡ some a
          → expected_public_historical_rendering env.numbers env.datetimes env.printing result
            ≡ some a)
      → Returns (rendered env st name result receipt r before) out final
      → Sound env st args question receipt before out final
  expected-Sound name result none w x e = failed-Sound name tool_result_unavailable before e
  expected-Sound name result (some r) w x e =
      rendered-Sound name result r
        (expected-OneCitation env.numbers env.datetimes env.printing result r (x r refl))
        (record {
          result = result;
          rendering = r;
          was_run = w;
          expected = x r refl;
          cited = refl;
          said = refl;
          under = refl;
          concluded = refl;
        })
        e

  pub diagnosed-Sound :
      (name : String) (result : Option (DiagnosticResult S))
      → run_public_historical_diagnostic env.numbers env.datetimes env.observations env.pads_years
          question
        ≡ result
      → Returns (diagnosed env st name result receipt before) out final
      → Sound env st args question receipt before out final
  diagnosed-Sound name none w e = failed-Sound name tool_result_unavailable before e
  diagnosed-Sound name (some result) w e =
      let expected =
        expected_public_historical_rendering env.numbers env.datetimes env.printing result in
      let checked = checked_rendering expected expected in
      elim (Bool-cases (is_ok result)) [
        | inl y ↦
            expected-Sound name result checked w (λ a q. checked_same expected a q)
              (subst
                (λ b.
                  Returns
                    (if b
                      then rendered env st name result receipt checked before
                      else (failed env st name tool_result_unavailable, before))
                    out final)
                y e)
        | inr n ↦ failed-Sound name tool_result_unavailable before (
            subst
              (λ b.
                Returns
                  (if b
                    then rendered env st name result receipt checked before
                    else (failed env st name tool_result_unavailable, before))
                  out final)
              n e)
      ]
