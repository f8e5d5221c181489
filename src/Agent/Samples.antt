-- ===== src/Agent/Samples.antt =====
-- A session in use, and the theorems at these inputs.
use aquaops_copilot.Common.{
  ℕ, ◌+◌, ◌≤◌, ◌<◌, String, ◌≡◌, ◌≢◌, ◌↔◌, ◌⊎◌, refl, true, false, none, some, [], ◌∷◌, arith,
  length, str_eq, if◌then◌else◌,
}
use aquaops_copilot.Agent.Budget.{
  initial, registered, spec_of, calls_for, spent, consume, is_valid, usage_valid, sum_counts,
  dict_from, get_count, put_count, sort_usage, insert_sorted,
}
use aquaops_copilot.Agent.Budget.Consumption.{IsValid, is_valid_iff, consume_spends_one}
use aquaops_copilot.Agent.Authorize.{
  text, integer, Arguments, Decision, valid_public_arguments, allowance, safe, normalized,
  authorize_public_tool_call,
}
use aquaops_copilot.Agent.Admission.{Admissible, allowed_iff_Admissible, authorize_fails_closed}
use aquaops_copilot.Agent.Grants.{
  Session, Host, Grant, Receipt, empty_host, member, create_public_tool_budget_session,
  issue_public_tool_grant, consume_issued_public_tool_grant, redeem_tool_execution_receipt,
}
use aquaops_copilot.Agent.Grants.Sessions.{
  create, spend, act, act_all, distinct, HostInv, acts-HostInv, empty-HostInv,
}
use aquaops_copilot.Agent.Grants.Limits.{session_limits}
use aquaops_copilot.Agent.Grants.SingleUse.{
  first_grant, receipt_of, grant_single_use, receipt_single_use, admitted_call_executes,
}

abbrev pub tool : String
tool = "aggregate_public_history"

abbrev request : Arguments
request =
    ("indicator", text "nh4") ∷ ("hours", integer 24) ∷ ("end_at", text "2025-01-02T03:00:00Z") ∷ []

initial-IsValid : IsValid initial
initial-IsValid = (is_valid_iff initial).0 (unfold is_valid usage_valid sum_counts in refl)

tool-registered : registered tool ≡ true
unfolding registered
tool-registered = refl

consume_spends_one_example :
    ((0 < initial.remaining_total)
      → calls_for initial tool < 2
      → (consume initial (spec_of tool) ≡ some (spent initial (spec_of tool)))
        × IsValid (spent initial (spec_of tool))
        × ((spent initial (spec_of tool)).remaining_total + 1 ≡ initial.remaining_total)
        × ((j : String)
            → calls_for (spent initial (spec_of tool)) j
              ≡ (if str_eq tool j then calls_for initial j + 1 else calls_for initial j)))
    × ((initial.remaining_total ≡ 0) ⊎ (2 ≤ calls_for initial tool)
        → consume initial (spec_of tool) ≡ none)
consume_spends_one_example = consume_spends_one initial tool initial-IsValid tool-registered

request-Admissible : Admissible tool request initial none
request-Admissible = record {
  allowlisted = tool-registered;
  connected = refl;
  arguments = unfold valid_public_arguments in refl;
  issued = initial-IsValid;
  left = omega arith;
  few = unfold calls_for dict_from get_count in omega arith;
}

allowed_iff_Admissible_example :
    ((authorize_public_tool_call (some tool) (some request) (some initial) none
        ≡ some (allowance tool (spent initial (spec_of tool))))
      ↔ Admissible tool request initial none)
    × ((d : Decision)
        → authorize_public_tool_call (some tool) (some request) (some initial) none ≡ some d
        → d.allowed ≡ true
        → d ≡ allowance tool (spent initial (spec_of tool)))
allowed_iff_Admissible_example = allowed_iff_Admissible tool request initial none

authorize_fails_closed_example :
    (authorize_public_tool_call (some "drop_tables") (some request) (some initial) none ≢ none)
    × ((d : Decision)
        → authorize_public_tool_call (some "drop_tables") (some request) (some initial) none
          ≡ some d
        → d.allowed ≡ false
        → d.budget ≡ safe (normalized (some initial)))
authorize_fails_closed_example =
    authorize_fails_closed (some "drop_tables") (some request) (some initial) none

abbrev pub opened : Host
opened = act_all (create ∷ []) empty_host

opened-HostInv : HostInv opened
opened-HostInv = acts-HostInv (create ∷ []) empty_host empty-HostInv

abbrev new_session : Session
new_session = record {
  from_host = true;
  budget = initial;
  consumed_grant_nonces = [];
  redeemed_receipt_nonces = [];
}

session_zero : opened.sessions 0 ≡ some new_session
unfolding act_all act create_public_tool_budget_session
session_zero = refl

session_limits_example :
    (length new_session.consumed_grant_nonces ≤ 6)
    × ((k : String) → calls_for new_session.budget k ≤ 2)
    × (length new_session.redeemed_receipt_nonces ≤ length new_session.consumed_grant_nonces)
    × ((n : ℕ)
        → member n new_session.redeemed_receipt_nonces ≡ true
        → member n new_session.consumed_grant_nonces ≡ true)
    × (distinct new_session.consumed_grant_nonces ≡ true)
    × (distinct new_session.redeemed_receipt_nonces ≡ true)
session_limits_example = session_limits (create ∷ []) 0 new_session session_zero

abbrev pub grant : Grant
grant = record { from_host = true; tool_name = tool; session = 0; nonce = 0 }

grant_consumed : (consume_issued_public_tool_grant (some grant) tool (some 0) opened).0 ≢ none
unfolding act_all act create_public_tool_budget_session consume_issued_public_tool_grant member
    registered consume calls_for is_valid usage_valid sum_counts dict_from get_count put_count
    sort_usage insert_sorted
grant_consumed e = cc

grant_single_use_example :
    let k =
      act_all
        (create ∷ [])
        (consume_issued_public_tool_grant (some grant) tool (some 0) opened).1 in
    consume_issued_public_tool_grant (some grant) tool (some 0) k ≡ (none, k)
grant_single_use_example =
    grant_single_use grant grant tool tool (some 0) (some 0) (create ∷ []) opened opened-HostInv
      grant_consumed refl refl

abbrev pub receipt : Receipt
receipt = receipt_of grant

abbrev pub executed : Host
executed = act_all (create ∷ spend (some grant) tool (some 0) ∷ []) empty_host

pub receipt_redeemed : (redeem_tool_execution_receipt (some receipt) executed).0 ≡ some tool
unfolding act_all act create_public_tool_budget_session consume_issued_public_tool_grant
    redeem_tool_execution_receipt member registered consume calls_for is_valid usage_valid
    sum_counts dict_from get_count put_count sort_usage insert_sorted
receipt_redeemed = refl

receipt_single_use_example :
    let k = act_all [] (redeem_tool_execution_receipt (some receipt) executed).1 in
    (tool ≡ receipt.tool_name)
    × ((s : Session) × (executed.sessions receipt.session ≡ some s)
        × (member receipt.nonce s.consumed_grant_nonces ≡ true))
    × (redeem_tool_execution_receipt (some receipt) k ≡ (none, k))
receipt_single_use_example =
    receipt_single_use receipt receipt [] executed tool
      (acts-HostInv (create ∷ spend (some grant) tool (some 0) ∷ []) empty_host empty-HostInv)
      receipt_redeemed refl refl

admitted_call_executes_example :
    (issue_public_tool_grant (some tool) (some request) (some 0) none opened ≡ (
      some (allowance tool (spent initial (spec_of tool)), some (first_grant tool 0 opened)),
      record opened { next_nonce = opened.next_nonce + 1 },
    ))
    × ((consume_issued_public_tool_grant
          (some (first_grant tool 0 opened))
          tool
          (some 0)
          (record opened { next_nonce = opened.next_nonce + 1 })).0
        ≡ some (receipt_of (first_grant tool 0 opened), spent initial (spec_of tool)))
admitted_call_executes_example =
    admitted_call_executes tool request 0 none opened new_session session_zero refl
      request-Admissible (unfold member in refl)

pub executed-HostInv : HostInv executed
executed-HostInv =
    acts-HostInv (create ∷ spend (some grant) tool (some 0) ∷ []) empty_host empty-HostInv
