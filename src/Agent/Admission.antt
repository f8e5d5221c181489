-- ===== src/Agent/Admission.antt =====
-- When a tool call is admitted, and why it is refused otherwise.
use aquaops_copilot.Common.{
  ◌<◌, String, ◌≡◌, refl, ◌↔◌, ◌≢◌, true, false, Option, none, some, List, arith, contains-all, leb,
  ltb,
}
use aquaops_copilot.Common.Text.{len, between}
use aquaops_copilot.Agent.Budget.{
  public_tools, ToolBudget, registered, spec_of, calls_for, is_valid, spent, consume,
}
use aquaops_copilot.Agent.Budget.Consumption.{IsValid, is_valid_iff, consume_spends_one}
use aquaops_copilot.Agent.Authorize.{
  Arguments, Decision, valid_public_arguments, available_in, authorize_public_tool_call, allowance,
  safe, normalized,
}

-- All that a call must meet before a dependency is invoked.
pub record Admissible (name : String) (args : Arguments) (b : ToolBudget)
    (available : Option (List String)) : Type 0 where
  pub allowlisted : registered name ≡ true
  pub connected : available_in available name ≡ true
  pub arguments : valid_public_arguments name args ≡ true
  pub issued : IsValid b
  pub left : 0 < b.remaining_total
  pub few : calls_for b name < 2

registered_fits : (name : String) → registered name ≡ true → between 1 96 (len name) ≡ true
unfolding registered
registered_fits name h = contains-all (λ n. between 1 96 (len n)) public_tools name refl h

consume-spent :
    (b : ToolBudget) (k : String)
    → IsValid b
    → registered k ≡ true
    → 0 < b.remaining_total
    → calls_for b k < 2
    → consume b (spec_of k) ≡ some (spent b (spec_of k))
consume-spent b k v r left few = ((consume_spends_one b k v r).0 left few).0

consume-total :
    (b : ToolBudget) (k : String)
    → is_valid b ≡ true
    → registered k ≡ true
    → ltb b.remaining_total 1 ≡ false
    → leb 2 (calls_for b k) ≡ false
    → consume b (spec_of k) ≢ none
consume-total b k v r left few h =
    cc (h, consume-spent b k ((is_valid_iff b).0 v) r (ground arith) (ground arith))

-- An admissible call is allowed, and its decision carries the budget with that call spent.
Admissible-allowed :
    (name : String) (args : Arguments) (b : ToolBudget) (available : Option (List String))
    → Admissible name args b available
    → authorize_public_tool_call (some name) (some args) (some b) available
      ≡ some (allowance name (spent b (spec_of name)))
unfolding authorize_public_tool_call
Admissible-allowed name args b available a = ground (
  arith,
  registered_fits name a.allowlisted,
  (is_valid_iff b).1 a.issued,
  consume-spent b name a.issued a.allowlisted a.left a.few,
)

-- What an allowed call has met.
allowed-facts :
    (name : String) (args : Arguments) (b : ToolBudget) (available : Option (List String))
    (d : Decision)
    → authorize_public_tool_call (some name) (some args) (some b) available ≡ some d
    → d.allowed ≡ true
    → (registered name ≡ true)
      × (available_in available name ≡ true)
      × (valid_public_arguments name args ≡ true)
      × (is_valid b ≡ true)
      × (0 < b.remaining_total)
      × (calls_for b name < 2)
unfolding authorize_public_tool_call
allowed-facts name args b available d h y = ground arith

-- A call of a tool is allowed exactly when the tool is allowlisted and connected, the arguments
-- meet its contract, the budget is a valid one with a call left, and the tool has had fewer than
-- two calls; the decision then carries the budget with one call of this tool spent.
pub allowed_iff_Admissible :
    (name : String) (args : Arguments) (b : ToolBudget) (available : Option (List String))
    → ((authorize_public_tool_call (some name) (some args) (some b) available
          ≡ some (allowance name (spent b (spec_of name))))
        ↔ Admissible name args b available)
      × ((d : Decision)
          → authorize_public_tool_call (some name) (some args) (some b) available ≡ some d
          → d.allowed ≡ true
          → d ≡ allowance name (spent b (spec_of name)))
allowed_iff_Admissible name args b available = (
  (
    λ h. admissible name args b available (allowance name (spent b (spec_of name))) h refl,
    Admissible-allowed name args b available,
  ),
  λ d h y.
      cc (h, Admissible-allowed name args b available (admissible name args b available d h y)),
)
  where
    admissible :
        (name : String) (args : Arguments) (b : ToolBudget) (available : Option (List String))
        (d : Decision)
        → authorize_public_tool_call (some name) (some args) (some b) available ≡ some d
        → d.allowed ≡ true
        → Admissible name args b available
    admissible name args b available d h y =
        let (r, c, a, v, l, f) = allowed-facts name args b available d h y in
        record {
          allowlisted = r;
          connected = c;
          arguments = a;
          issued = (is_valid_iff b).0 v;
          left = l;
          few = f;
        }

-- Whatever the request and the budget are, the call returns a decision and never raises; and a
-- refusal carries the caller's budget unspent, or the initial one in place of an invalid budget.
pub authorize_fails_closed :
    (name : Option String) (args : Option Arguments) (b : Option ToolBudget)
    (available : Option (List String))
    → (authorize_public_tool_call name args b available ≢ none)
      × ((d : Decision)
          → authorize_public_tool_call name args b available ≡ some d
          → d.allowed ≡ false
          → d.budget ≡ safe (normalized b))
unfolding authorize_public_tool_call
authorize_fails_closed none args b available = (λ h. ground arith, λ d h n. ground arith)
authorize_fails_closed (some name) args none available = (λ h. ground arith, λ d h n. ground arith)
authorize_fails_closed (some name) args (some b) available =
    (λ h. ground (arith, consume-total b name), λ d h n. ground arith)
