-- ===== src/Agent/Graph/Runs.antt =====
-- Each run of the graph ends in a sound answer.
use mathlib.Core.Path.{subst}
use aquaops_copilot.Common.{
  ℕ, String, ◌≡◌, ◌⊎◌, refl, inl, inr, Bool-cases, Option, none, some, [], if◌then◌else◌, Outcome,
  ok, err,
}
use aquaops_copilot.Agent.Budget.{ToolBudget}
use aquaops_copilot.Agent.Authorize.{Arguments}
use aquaops_copilot.Agent.Grants.{
  Host, create_public_tool_budget_session, public_tool_budget_snapshot, issue_public_tool_grant,
}
use aquaops_copilot.Agent.Graph.Verified.{IsRefusal, Returns, safe-IsRefusal}
use aquaops_copilot.Agent.Graph.Calls.{IsAnswered, IsReply, with_grant-Sound}
use aquaops_copilot.Agent.Coverage.{CoverageGateResult, CoverageError, coverage_gate}
use aquaops_copilot.Agent.Requests.{diagnostic_tool_request}
use aquaops_copilot.Agent.Graph.{
  is_operations, available_tools, Environment, legacy_abc_plan, requested, questioned, opened,
  with_budget, run_operations_graph,
}
use aquaops_copilot.Agent.State.{AgentState, Input, safe_refusal, initialize_safe_agent_state}
use aquaops_copilot.Agent.Citations.{nonblank}

module _ {S : Type 0} (env : Environment S) where
  module _ (out : AgentState) (final : Host) where
    requested-Sound :
        (st : AgentState) (question : String) (r : Option (String × Arguments)) (id : ℕ) (h : Host)
        → diagnostic_tool_request env.pads_years question ≡ r
        → Returns (requested env st question r id h) out final
        → IsRefusal out ⊎ IsAnswered env st question id h out final
    requested-Sound st question none id h w e = inl (safe-IsRefusal st out h final e)
    requested-Sound st question (some (name, args)) id h w e =
        with_grant-Sound env out final st name args question id h
          (issue_public_tool_grant (some name) (some args) (some id)
            (some (available_tools env.retriever)) h)
          w refl e

    questioned-Sound :
        (st : AgentState) (q : String) (id : ℕ) (h : Host)
        → Returns (questioned env st (some q) id h) out final
        → IsRefusal out ⊎ IsAnswered env st q id h out final
    questioned-Sound st q id h e =
        let asked = diagnostic_tool_request env.pads_years q in
        elim (Bool-cases (nonblank q)) [
          | inl y ↦ requested-Sound st q asked id h refl (
              subst
                (λ b.
                  Returns (if b then requested env st q asked id h else (some (safe_refusal st), h))
                    out final)
                y e)
          | inr n ↦ inl (
              safe-IsRefusal st out h final (
                subst
                  (λ b.
                    Returns
                      (if b then requested env st q asked id h else (some (safe_refusal st), h)) out
                      final)
                  n e))
        ]

    operations-Sound :
        (st : AgentState) (cov : CoverageGateResult) (q : Option String) (id : ℕ) (h : Host)
        → st.question ≡ q
        → Returns (questioned env (record st { coverage = some cov }) q id h) out final
        → IsRefusal out ⊎ IsReply env st id h out final
    operations-Sound st cov none id h w e =
        inl (safe-IsRefusal (record st { coverage = some cov }) out h final e)
    operations-Sound st cov (some q) id h w e =
        elim (questioned-Sound (record st { coverage = some cov }) q id h e) [
          | inl r ↦ inl r
          | inr x ↦ inr (record { question = q; opening = cov; asked = w; answered = x })
        ]

    opened-Sound :
        (st : AgentState) (c : Outcome CoverageError CoverageGateResult) (id : ℕ) (h : Host)
        → Returns (opened env st c id h) out final
        → IsRefusal out ⊎ IsReply env st id h out final
    opened-Sound st (err x) id h e = absurd (cc e)
    opened-Sound st (ok cov) id h e =
        let st' = record st { coverage = some cov } in
        elim (Bool-cases (is_operations env st.mode)) [
          | inl y ↦ operations-Sound st cov st.question id h refl (
              subst
                (λ b.
                  Returns
                    (if b
                      then questioned env st' st.question id h
                      else (some (safe_refusal st'), h))
                    out final)
                y e)
          | inr n ↦ inl (
              safe-IsRefusal st' out h final (
                subst
                  (λ b.
                    Returns
                      (if b
                        then questioned env st' st.question id h
                        else (some (safe_refusal st'), h))
                      out final)
                  n e))
        ]

  -- The outcome of a run from a session with a budget.
  abbrev pub Reply : AgentState → Option ToolBudget → ℕ → Host → AgentState → Host → Type 0
  Reply st b id h out final =
      IsRefusal out
      ⊎ ((budget : ToolBudget) × (b ≡ some budget)
          × IsReply env (record st { tool_budget = budget }) id h out final)

  with_budget-Sound :
      (st : AgentState) (b : Option ToolBudget) (id : ℕ) (h : Host) (out : AgentState)
      (final : Host)
      → Returns (with_budget env st b id h) out final
      → Reply st b id h out final
  with_budget-Sound st none id h out final e = inl (safe-IsRefusal st out h final e)
  with_budget-Sound st (some b) id h out final e =
      elim (opened-Sound out final (record st { tool_budget = b })
        (coverage_gate env.platform (some legacy_abc_plan) (some []) (some []) env.first_trace) id h
        e) [ inl r ↦ inl r | inr x ↦ inr (b, refl, x) ]

  -- A run that returns a state and leaves a host either refused, with the fixed answer and no
  -- evidence, or it answered: the question was read as a request for a tool, an allowed grant for
  -- it was issued on the session of this run and consumed for a receipt, and this receipt was
  -- redeemed once for the batch of references, one to six valid ones, that is the evidence. The
  -- answer is then the expected rendering of the diagnostic of the question with its citations, or
  -- the printed answer for the coverage of what the retriever returned for the query. The evidence
  -- bound to the receipt's tool passed the gate under the dimension of the result, the coverage is
  -- the gate's and is incomplete, and the budget is the one the consumption left. In both cases a
  -- human has to review.
  pub run_operations_graph-Sound :
      (input : Option Input) (h : Host) (out : AgentState) (final : Host)
      → Returns (run_operations_graph env input h) out final
      → let (id, opened_host) = create_public_tool_budget_session h in
        Reply
          (initialize_safe_agent_state input)
          (public_tool_budget_snapshot (some id) opened_host)
          id
          opened_host
          out
          final
  unfolding run_operations_graph
  run_operations_graph-Sound input h out final e =
      let (id, h') = create_public_tool_budget_session h in
      with_budget-Sound (initialize_safe_agent_state input)
        (public_tool_budget_snapshot (some id) h') id h' out final e
