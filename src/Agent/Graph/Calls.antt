-- ===== src/Agent/Graph/Calls.antt =====
-- What an answer of the graph rests on: a request, a grant and a receipt that was consumed for it.
use mathlib.Core.Path.{subst}
use aquaops_copilot.Common.{
  ℕ, String, ◌≡◌, ◌⊎◌, refl, inl, inr, Bool-cases, true, Option, none, some, if◌then◌else◌, str_eq,
}
use aquaops_copilot.Agent.Budget.{ToolBudget}
use aquaops_copilot.Agent.Authorize.{Arguments, Decision}
use aquaops_copilot.Agent.Grants.{
  Host, Grant, Receipt, Issue, issue_public_tool_grant, consume_issued_public_tool_grant,
}
use aquaops_copilot.Agent.Graph.Verified.{Sound, IsRefusal, IsVerified, Returns, failed-IsRefusal}
use aquaops_copilot.Agent.Graph.Stages.{state_of, diagnosed-Sound}
use aquaops_copilot.Agent.Graph.Knowledge.{retrieval-Sound}
use aquaops_copilot.Agent.Coverage.{CoverageGateResult}
use aquaops_copilot.Agent.Traces.{TraceDecisionCode, tool_authorization_invalid}
use aquaops_copilot.Agent.Requests.{diagnostic_tool_request}
use aquaops_copilot.Agent.Diagnostics.{run_public_historical_diagnostic}
use aquaops_copilot.Agent.Graph.{
  only_query, available_tools, code_of, Environment, failed, diagnosed, run_public_retrieval,
  execute_tool, with_receipt, with_grant, knowledge_tool,
}
use aquaops_copilot.Agent.State.{AgentState}

module _ {S : Type 0} (env : Environment S) where
  -- A receipt was consumed for, and its tool answered within the budget that is left.
  pub record IsExecuted (st : AgentState) (args : Arguments) (question : String)
      (c : Option (Receipt × ToolBudget) × Host) (out : AgentState) (final : Host) : Type 0 where
    pub receipt : Receipt
    pub next_budget : ToolBudget
    pub before : Host
    pub consumed : c ≡ (some (receipt, next_budget), before)
    pub verified :
        IsVerified env
          (record st { tool_budget = next_budget })
          args
          question
          receipt
          before
          out
          final

  -- The question was read as a request, a grant was issued for it on the session, and consumed.
  pub record IsAnswered (st : AgentState) (question : String) (id : ℕ) (h : Host) (out : AgentState)
      (final : Host) : Type 0 where
    pub name : String
    pub args : Arguments
    pub decision : Decision
    pub grant : Grant
    pub issued_at : Host
    pub read : diagnostic_tool_request env.pads_years question ≡ some (name, args)
    pub issued :
        issue_public_tool_grant
          (some name)
          (some args)
          (some id)
          (some (available_tools env.retriever))
          h
        ≡ (some (decision, some grant), issued_at)
    pub allowed : decision.allowed ≡ true
    pub executed :
        IsExecuted st args question
          (consume_issued_public_tool_grant (some grant) name (some id) issued_at)
          out
          final

  -- The outcome of a run on a session: a refusal, or the answer of a state that has a question.
  pub record IsReply (st : AgentState) (id : ℕ) (h : Host) (out : AgentState) (final : Host)
      : Type 0 where
    pub question : String
    pub opening : CoverageGateResult
    pub asked : st.question ≡ some question
    pub answered : IsAnswered (record st { coverage = some opening }) question id h out final

  execute_tool-Sound :
      (st : AgentState) (name : String) (args : Arguments) (question : String) (receipt : Receipt)
      (h : Host) (out : AgentState) (final : Host)
      → Returns (execute_tool env st name args question receipt h) out final
      → Sound env st args question receipt h out final
  unfolding execute_tool
  execute_tool-Sound st name args question receipt h out final e =
      let found =
        run_public_historical_diagnostic env.numbers env.datetimes env.observations env.pads_years
          question in
      elim (Bool-cases (str_eq name knowledge_tool)) [
        | inl y ↦
            retrieval-Sound env st args question receipt h final out (only_query args) env.retriever
              refl refl
              (subst
                (λ b.
                  Returns
                    (if b
                      then run_public_retrieval env st (only_query args) receipt env.retriever h
                      else diagnosed env st name found receipt h)
                    out final)
                y e)
        | inr n ↦ diagnosed-Sound env st args question receipt h final out name found refl (
            subst
              (λ b.
                Returns
                  (if b
                    then run_public_retrieval env st (only_query args) receipt env.retriever h
                    else diagnosed env st name found receipt h)
                  out final)
              n e)
      ]

  module _ (out : AgentState) (final : Host) where
    refused :
        (st : AgentState) (name : String) (code : TraceDecisionCode) (h : Host)
        → Returns (failed env st name code, h) out final
        → IsRefusal out
    refused st name code h e =
        failed-IsRefusal env st out name code (state_of (failed env st name code, h) out final e)

    with_receipt-Sound :
        (st : AgentState) (name : String) (args : Arguments) (question : String)
        (c : Option (Receipt × ToolBudget) × Host)
        → Returns (with_receipt env st name args question c) out final
        → IsRefusal out ⊎ IsExecuted st args question c out final
    with_receipt-Sound st name args question (none, h) e =
        inl (refused st name tool_authorization_invalid h e)
    with_receipt-Sound st name args question (some (receipt, next_budget), h) e =
        elim (execute_tool-Sound (record st { tool_budget = next_budget }) name args question
          receipt h out final e) [
            | inl r ↦ inl r
            | inr v ↦ inr (record {
              receipt = receipt;
              next_budget = next_budget;
              before = h;
              consumed = refl;
              verified = v;
            })
          ]

    pub with_grant-Sound :
        (st : AgentState) (name : String) (args : Arguments) (question : String) (id : ℕ) (h : Host)
        (i : Issue × Host)
        → diagnostic_tool_request env.pads_years question ≡ some (name, args)
        → issue_public_tool_grant
            (some name)
            (some args)
            (some id)
            (some (available_tools env.retriever))
            h
          ≡ i
        → Returns (with_grant env st name args question id i) out final
        → IsRefusal out ⊎ IsAnswered st question id h out final
    with_grant-Sound st name args question id h (none, k) w s e = absurd (cc e)
    with_grant-Sound st name args question id h (some (d, none), k) w s e =
        inl (refused st name (code_of d.code) k e)
    with_grant-Sound st name args question id h (some (d, some grant), k) w s e =
        let next = consume_issued_public_tool_grant (some grant) name (some id) k in
        elim (Bool-cases d.allowed) [
          | inl y ↦
              elim (with_receipt-Sound st name args question next (
                subst
                  (λ b.
                    Returns
                      (if b
                        then with_receipt env st name args question next
                        else (failed env st name (code_of d.code), k))
                      out final)
                  y e)) [
                    | inl r ↦ inl r
                    | inr x ↦ inr (record {
                      name = name;
                      args = args;
                      decision = d;
                      grant = grant;
                      issued_at = k;
                      read = w;
                      issued = s;
                      allowed = y;
                      executed = x;
                    })
                  ]
          | inr n ↦ inl (
              refused st name (code_of d.code) k (
                subst
                  (λ b.
                    Returns
                      (if b
                        then with_receipt env st name args question next
                        else (failed env st name (code_of d.code), k))
                      out final)
                  n e))
        ]
